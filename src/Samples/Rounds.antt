-- ===== src/Samples/Rounds.antt =====
-- Examples of PC-stable on the chain 0 - 1 - 2, where 0 and 2 are independent given 1.
use ram_ble.Base.{ℕ, ◌≡◌, refl, arith, List, [], ◌∷◌, map, Option, none, some, true, false}
use ram_ble.Setting.Gaps.{Gaps, insert, erase, elems_from, subsets, contains, erase_all}
use ram_ble.Setting.Gaps.Instance.{percent_cap}
use ram_ble.DiscreteData.{p_value, max_p_value_subset}
use ram_ble.GlobalLearning.{check_edge}
use ram_ble.Graphs.EdgeList.{Simple, edge_lists}
use ram_ble.LocalLearning.{all_vars, get_candidates}
use ram_ble.GlobalLearning.Initialize.{Neighbors, first_edges}
use ram_ble.GlobalLearning.PcStable.{get_skeleton, learn_neighbors}
use ram_ble.GlobalLearning.PcStable.Pairs.{slice, fresh, first_edges-slice}
use ram_ble.GlobalLearning.PcStable.Network.{IsSkeleton, get_skeleton-IsSkeleton}
use ram_ble.GlobalLearning.PcStable.Checks.{Holds, IsPair}
use ram_ble.GlobalLearning.PcStable.Stored.{between}
use ram_ble.GlobalLearning.PcStable.Triples.{DecidedBySet, check_stored-DecidedBySet}
use ram_ble.Samples.{chain, all_three}

chain_vars : all_vars chain ≡ all_three
unfolding all_vars insert
chain_vars = refl

-- The neighbors of the three variables, and the edges that were stored.
abbrev view :
    Option (Neighbors chain × List ((ℕ × ℕ) × ℕ × Gaps))
    → Option (List (Option Gaps) × List ((ℕ × ℕ) × ℕ × Gaps))
view none = none
view (some (all, stored)) = some (map all (0 ∷ 1 ∷ 2 ∷ []), stored)

chain_neighbors :
    view (learn_neighbors chain 256 true)
    ≡ some (some (1 ∷ []) ∷ some (0 ∷ 1 ∷ []) ∷ some (1 ∷ []) ∷ [], ((0, 2), 70, 1 ∷ []) ∷ [])
unfolding learn_neighbors all_vars insert elems_from check_edge get_candidates erase
    max_p_value_subset subsets p_value percent_cap contains erase_all
chain_neighbors = refl

-- The second of two processors has the last pair.
first_edges-slice_example :
    first_edges chain (0 ∷ 1 ∷ 2 ∷ []) 2 1
    ≡ some (map (fresh chain) (slice chain 2 1 (0 ∷ 1 ∷ 2 ∷ [])))
first_edges-slice_example = first_edges-slice chain (0 ∷ 1 ∷ 2 ∷ []) 2 1 (omega arith) (omega arith)

get_skeleton-IsSkeleton_example :
    (g : Simple) × (all : Neighbors chain) × (stored : List ((ℕ × ℕ) × ℕ × Gaps)) × (N : ℕ → Gaps)
    × (get_skeleton chain edge_lists 256 true ≡ some ((g, all), stored))
    × IsSkeleton chain edge_lists g all N
get_skeleton-IsSkeleton_example =
    get_skeleton-IsSkeleton chain edge_lists 256 true (rw chain_vars (omega arith)) refl

check_stored-DecidedBySet_example :
    (all : Neighbors chain) × (stored : List ((ℕ × ℕ) × ℕ × Gaps)) × (N : ℕ → Gaps)
    × (learn_neighbors chain 256 true ≡ some (all, stored))
    × Holds chain all N
    × ((y x z : ℕ)
        → IsPair chain (y, z)
        → chain.contains (N y) z ≡ false
        → between chain N y z x ≡ true
        → DecidedBySet chain stored y x z)
check_stored-DecidedBySet_example =
    check_stored-DecidedBySet chain 256 (rw chain_vars (omega arith)) refl
