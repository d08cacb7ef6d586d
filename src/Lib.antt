-- ===== src/Lib.antt =====
-- ramBLe learns the structure of Bayesian networks from discrete data by tests of conditional
-- independence. This library is a model of its sequential core.
--
-- The parts of the program and the files that model them:
--
-- - Setting: what the code uses and does not implement. `Doubles` is double without NaN and
--   infinities, with std::isless. `VarSets` is the type of sets of variables (common/SetUtils.hpp and
--   common/UintSet.hpp, which are submodules) with the order of iteration and Subsets.
--   `Setting` adds the members m_alpha and m_maxConditioning, the number of variables, the
--   G-square of the counter (GSquare::compute) and boost's chi-squared distribution. Each is a
--   record of operations with the documented behaviour as laws; Setting/Gaps shows that the laws
--   can be met, and Setting/Facts has what follows from them.
-- - DiscreteData (detail/DiscreteData.hpp): p_value, is_independent, and the searches for a
--   separating set over all subsets of a conditioning set, with their early exits: max_p_value,
--   max_p_value_seeded and max_p_value_subset are maxPValue, maxPValue with a seed, and
--   maxPValueSubset.
-- - LocalLearning (detail/LocalLearning.hpp): the caches of candidate sets. One model stands for
--   getPC and getMB, whose code is the same up to names: `candidate` is the virtual
--   getCandidatePC or getCandidateMB, and R the state on which it works. .at() of a missing key
--   is `none`. Since cpc and cmb are references into the cache, erase_cached erases there.
--   LocalLearning/Skeleton is getSkeleton_sequential.
-- - BlanketLearning (detail/BlanketLearning.hpp): GS and IAMB are get_candidate_mb with
--   pick_first_candidate and pick_best_candidate in the place of the virtual pickBestCandidate;
--   inter_loop is the loop of InterIAMB; get_candidate_pc works on the cache of getMB.
-- - DirectLearning (detail/DirectLearning.hpp): the candidate functions of MMPC, HITON,
--   SemiInterleavedHITON and GetPC, with removeFalsePC and updateMaxPValues.
--   DirectLearning/Candidates is getCandidatePC with m_cachedCandidatePC, and
--   DirectLearning/Blankets has getMBSuperset, getCandidateMB and checkCollider.
-- - Graphs: the interface of the submodule graph, an adjacency list with the detection of cycles,
--   with its laws; Graphs/EdgeList shows that they can be met.
-- - BayesianNetwork (detail/BayesianNetwork.hpp): the directed view of a network, v-structures,
--   the Meek rules, and the loop of ConstraintBasedLearning::getNetwork that repeats them. Cycles
--   has EdgeCycleCounter, countEdgeCycles and breakDirectedCycles; what boost::tiernan_all_cycles
--   reports and the order of iteration of an unordered_map are the record CycleSearch.
-- - ConstraintBasedLearning (detail/ConstraintBasedLearning.hpp): findVStructures, over the
--   virtual getPC and checkCollider, and getNetwork over the skeleton.
-- - GlobalLearning (detail/GlobalLearning.hpp): checkEdge of PC-stable and checkCollider over the
--   removed edges. GlobalLearning/Initialize is initializeLearning, where first_edges is the block of
--   pairs of a processor. GlobalLearning/PcStable is getSkeleton_sequential: `round` is one size of
--   the conditions and `rounds` the loop over the sizes, construct_skeleton is constructSkeleton. Sorting, Stored and
--   Triples are about the removed edges that are stored, which check_stored finds again by the
--   order of the edges. An unordered_map is a function to Option, with the variables as the keys
--   that a loop visits.
-- - GSquare (GSquare.hpp): StateIterator and the loop over it, and indexGiven on 32-bit integers.
-- - CommandLine (ProgramOptions.cpp, ramble.cpp): Options has the members of ProgramOptions with
--   their defaults and parse, in a build with LOGGING; Algorithms is getAlgorithm; Learning and
--   Sizes are the two functions learnNetwork, and Main is main. Runs has the exceptions and the
--   output: a step returns or throws, and what it wrote stays. What boost, the readers, the
--   counters, mxx and UintSet do is a parameter, the record World.
-- - Base: the names and lemmas that all parts share. Samples: tests and examples.
--
-- How the parts interact: the candidate functions of BlanketLearning ask DiscreteData for
-- p-values and fulfil `CandidateSpec` of LocalLearning/Invariant, once for the blankets and once
-- for the neighbors that are found from them; DirectLearning/Candidates does so for the direct
-- learners, whose cache of candidates is a `Recorder` of LocalLearning/Recall. The caches and the skeleton rely on that interface alone.
--
-- Loops: `while` loops run on fuel and return `none` without it. get_candidate_mb, hiton and
-- get_pc_candidate_pc give one round more than there are candidates, each of which takes a
-- candidate away; forward_backward gives one more than the array is long. meek_loop has a flag
-- that is true when the fuel did not suffice; more rounds than edges suffice, since each pass
-- that changes the network removes an edge. visit runs on as many rounds as there are states. The
-- rounds of PC-stable are counted by the sizes left. break_loop is
-- `none` when directed cycles are left after as many reversals as its fuel, since nothing in the code
-- bounds their number. The loop of InterIAMB may add and remove the same variables for ever when the p-values are
-- arbitrary, and nothing is stated of its end.
--
-- Not modelled: the parallel versions of all algorithms over mxx, the G-square statistic,
-- writeGraphviz, the files that are read, logging and timers. Variables and their
-- numbers are natural numbers. In varIndex, maxConditioning and the sizes of sets, where the code
-- can wrap, the number of values of the type is an argument. num_vars is what
-- DiscreteData::numVars() returns, after its cast to Var; that is the number of variables as long
-- as it is less than the number of values of Var. Then these are natural numbers without a bound
-- too: currOffset and the cast of myOffset in initializeLearning, 32 bits wide, which hold the
-- number of pairs of 2^16 variables; and in maxPValue and maxPValueSubset the size of the
-- conditioning set and the loop variable, of the type Var, which stay below the number of variables.
pub mod Base
pub mod Setting
pub mod DiscreteData
pub mod LocalLearning
pub mod Graphs
pub mod BayesianNetwork
pub mod BlanketLearning
pub mod DirectLearning
pub mod Samples
pub mod ConstraintBasedLearning
pub mod GlobalLearning
pub mod GSquare
pub mod CommandLine
