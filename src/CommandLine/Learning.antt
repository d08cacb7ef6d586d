-- ===== src/CommandLine/Learning.antt =====
-- learnNetwork of ramble.cpp: the neighborhood of the target and the network. The algorithms are
-- a parameter, and so is what this rank knows of the communicator.
use ram_ble.Base.{
  ℕ, ◌%◌, min, Bool, not, ◌&&◌, ◌||◌, List, [], ◌∷◌, if◌then◌else◌, ltb, ◌==◌, length, String,
  str_eq, str_append,
}
use ram_ble.DiscreteData.Names.{var_name, var_names, var_index}
use ram_ble.CommandLine.Runs.{
  runtime_error, uncaught, out_line, file, Action, pure, throw, lift, write, or_throw, ◌>>=◌, ◌>>◌,
}
use ram_ble.CommandLine.Algorithms.{Algorithm, get_algorithm}
use ram_ble.CommandLine.Options.{ProgramOptions}

-- size() and rank()
pub record Comm : Type 0 where
  pub size : ℕ
  pub rank : ℕ

abbrev pub is_first : Comm → Bool
is_first comm = comm.rank == 0

-- The virtual functions of ConstraintBasedLearning that learnNetwork calls.
pub record Learner (Double Network : Type 0) : Type 0 where
  pub get_pc : ℕ → Action Network (List ℕ)
  pub get_mb : ℕ → Action Network (List ℕ)
  pub find_v_structures : ℕ → Action Network (List (Double × ℕ × ℕ × ℕ))
  pub get_network : Bool → Bool → Double → Action Network Network

module _ {Double Network : Type 0}
    -- the constructors of the algorithms, for a type of indices of `var_mod` values
    (construct : ℕ → Algorithm → Double → ℕ → Learner Double Network) (comm : Comm)
    (options : ProgramOptions Double) where
  -- An access of a vector out of its range is undefined.
  abbrev pub name_at : List String → ℕ → Action Network String
  name_at names x = or_throw (var_name names x) uncaught

  -- The loop that prints the v-structures.
  unfoldable pub print_v_structures :
      List String → List (Double × ℕ × ℕ × ℕ) → Action Network (Unit {0})
  print_v_structures names [] = pure tt
  print_v_structures names ((_, y, x, z) ∷ vs) = do
    a ← name_at names y
    b ← name_at names x
    c ← name_at names z
    write (out_line (str_append a (str_append " -> " (str_append b (str_append " <- " c)))) ∷ [])
    print_v_structures names vs

  -- The line of the neighborhood.
  unfoldable pub join_names : List String → String
  join_names [] = ""
  join_names (n ∷ ns) = str_append n (str_append "," (join_names ns))

  -- The names of the neighborhood of the target.
  unfoldable pub neighborhood :
      Learner Double Network → List String → ℕ → Action Network (List String)
  unfolding print_v_structures
  neighborhood algo names target =
      if options.discover_mb
      then (do mb ← algo.get_mb target; or_throw (var_names names mb) uncaught)
      else (do
        pc ← algo.get_pc target
        ns ← or_throw (var_names names pc) uncaught
        (if options.direct_edges
            then algo.find_v_structures target >>= print_v_structures names
            else pure tt)
        pure ns)

  -- The first part, for a target.
  unfoldable pub learn_target : ℕ → Learner Double Network → List String → Action Network (Unit {0})
  unfolding neighborhood join_names
  learn_target var_mod algo names =
      let target = var_index var_mod names options.target_var in
      if target == length names then throw (runtime_error "Target variable not found.") else (do
        ns ← neighborhood algo names target
        write (if is_first comm then out_line (join_names ns) ∷ [] else []))

  -- The second part: the network.
  unfoldable pub learn_whole : Learner Double Network → Action Network (Unit {0})
  learn_whole algo = do
    g ←
        algo.get_network options.direct_edges (ltb 1 comm.size || options.force_parallel)
          options.imbalance_threshold
    write (
        if is_first comm && not (str_eq options.output_file "")
        then file options.output_file g ∷ []
        else [])

  -- static_cast<Var>(std::min(options.numVars(), options.maxConditioning()))
  unfoldable pub conditioning_bound : ℕ → ℕ
  conditioning_bound var_mod = min options.num_vars options.max_conditioning % var_mod

  unfoldable pub learn_network : ℕ → List String → Action Network (Unit {0})
  unfolding learn_target learn_whole conditioning_bound
  learn_network var_mod names = do
    algorithm ← lift (get_algorithm options.algo_name)
    let algo = construct var_mod algorithm options.alpha (conditioning_bound var_mod)
    (if not (str_eq options.target_var "") then learn_target var_mod algo names else pure tt)
    (if options.learn_network || not (str_eq options.output_file "")
        then learn_whole algo
        else pure tt)
