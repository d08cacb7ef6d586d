-- ===== src/Samples/Stages.antt =====
-- Examples of the v-structures, of the PC-stable steps, of the blankets of the direct learners, and
-- of the iteration over states.
use ram_ble.Base.{
  none, ◌<◌, ℕ, ◌≡◌, ◌↔◌, ◌⊎◌, refl, Bool, true, false, not, ◌&&◌, ◌||◌, arith, List, [], ◌∷◌, map,
  any, Option, some, if◌then◌else◌, ◌==◌, All,
}
use ram_ble.Setting.Facts.{Within}
use ram_ble.Setting.Gaps.{Gaps, contains, insert, erase}
use ram_ble.ConstraintBasedLearning.{v_structures_of}
use ram_ble.ConstraintBasedLearning.VStructures.{has, AreChecked, v_structures_of-found}
use ram_ble.BlanketLearning.{check_collider}
use ram_ble.GlobalLearning.{edge_test, check_edge, check_stored}
use ram_ble.GlobalLearning.Edges.{SeparatesAt, edge_test_iff}
use ram_ble.GlobalLearning.Marks.{check_edge_marks}
use ram_ble.GlobalLearning.Colliders.{check_stored-found}
use ram_ble.DirectLearning.Blankets.{get_mb_superset, get_mb_from_pc}
use ram_ble.DirectLearning.Blankets.Spouses.{AreNear}
use ram_ble.DirectLearning.Blankets.Members.{get_mb_superset_members, get_mb_from_pc_members}
use ram_ble.DirectLearning.{mmpc}
use ram_ble.DirectLearning.Forward.{mmpc_returns}
use ram_ble.DirectLearning.Candidates.{
  Returns, cache_candidate_pc, HoldsCandidates, cand_of, candidates_cached,
}
use ram_ble.LocalLearning.{Cache, empty_cache, get_corrected}
use ram_ble.LocalLearning.Symmetric.{calls}
use ram_ble.GSquare.Index.{states_of, bounds_of, index_given_lem}
use ram_ble.GSquare.{index_given, visit, first_state}
use ram_ble.GSquare.States.{total, value, is_state, count_from, visit_counts}
use ram_ble.Samples.{three, chain, only_one, one_two}

-- The skeleton 0 - 1 - 2.
abbrev ends : Gaps
ends = 0 ∷ 1 ∷ []

abbrev sets : ℕ → Gaps
sets x = if x == 1 then ends else only_one

abbrev judge : ℕ → ℕ → ℕ → Bool × ℕ
judge y x z = check_collider three y x z only_one only_one

v_structures_of-found_example :
    (has three sets judge 1 0 2 (v_structures_of three sets judge 1) ≡ (
      true
      && (contains ends 0 && contains ends 2)
      && not (contains only_one 2 && contains only_one 0)
      && (judge 0 1 2).0))
    × AreChecked three sets judge 1 (v_structures_of three sets judge 1)
v_structures_of-found_example = v_structures_of-found three sets judge 1 0 2

has_two : contains one_two 2 ≡ true
unfolding contains
has_two = refl

-- The neighbors of 2 are 0 and 1.
abbrev zero_one : Gaps
zero_one = 0 ∷ 0 ∷ []

has_zero : contains zero_one 0 ≡ true
unfolding contains
has_zero = refl

lacks_two : contains zero_one 2 ≡ false
unfolding contains
lacks_two = refl

edge_test_iff_example : ((edge_test chain 0 2 one_two zero_one 1 true).1 ≡ true) ↔ (
    (c : Gaps) × (Within chain c (erase 2 one_two) ⊎ Within chain c (erase 0 zero_one))
    × SeparatesAt chain 0 2 1 c)
edge_test_iff_example = edge_test_iff chain 0 2 one_two zero_one 1 has_two has_zero lacks_two

abbrev neighbors : ℕ → Option Gaps
neighbors x = if x == 0 then some one_two else some zero_one

abbrev none_removed : ℕ → Option Gaps
none_removed x = some []

check_edge_marks_example :
    let test = edge_test chain 0 2 one_two zero_one 1 true in
    (removed : ℕ → Option Gaps) × (check_edge chain 0 2 neighbors none_removed 1 true
      ≡ some (test.0, removed))
    × (removed 0 ≡ some (if test.1 then insert 2 [] else []))
    × (removed 2 ≡ some (if test.1 then insert 0 [] else []))
check_edge_marks_example =
    check_edge_marks chain 0 2 neighbors none_removed one_two zero_one [] [] 1 true
      (λ e. omega (arith, e)) refl refl refl refl

-- 0 and 2 were separated by {1}, and 1 and 3 by {0}.
abbrev stored : List ((ℕ × ℕ) × ℕ × Gaps)
stored = ((1, 3), 40, 0 ∷ []) ∷ []

check_stored-found_example :
    (check_stored three 0 1 2 (((0, 2), 70, only_one) ∷ stored) ≡ (not (contains only_one 1), 70))
    × (check_stored three 2 1 0 (((0, 2), 70, only_one) ∷ stored) ≡ (not (contains only_one 1), 70))
check_stored-found_example =
    check_stored-found three 0 1 2 [] stored 70 only_one ((refl, tt), (tt, tt)) refl

abbrev cached_sets : ℕ → Option Gaps
cached_sets x = some (sets x)

get_mb_superset_members_example :
    (s : Gaps) × (get_mb_superset three 0 cached_sets ≡ some s)
    × (contains s 2 ≡ (
        not (2 == 0)
        && (contains (sets 0) 2 || any (λ y. contains (sets y) 2) (three.elems (sets 0)))))
get_mb_superset_members_example =
    get_mb_superset_members three 0 2 cached_sets sets refl (λ y h. refl)

get_mb_from_pc_members_example :
    (s : Gaps) × (get_mb_from_pc three sets 0 one_two cached_sets ≡ some s)
    × ((x : ℕ) → contains (sets 0) x ≡ true → contains s x ≡ true)
    × ((x : ℕ)
        → contains s x ≡ true
        → (contains (sets 0) x
            || (not (x == 0) && any (λ y. contains (sets y) x) (three.elems (sets 0))))
          ≡ true)
    × AreNear three sets 0 s
get_mb_from_pc_members_example =
    get_mb_from_pc_members three sets 0 one_two cached_sets sets refl (λ y h. refl)

visit_counts_example :
    (states : List (List ℕ)) × (visit (total (2 ∷ 3 ∷ [])) (2 ∷ 3 ∷ []) (first_state (2 ∷ 3 ∷ []))
      ≡ some states)
    × (map (value (2 ∷ 3 ∷ [])) states ≡ count_from 0 (total (2 ∷ 3 ∷ [])))
    × All (λ state. is_state (2 ∷ 3 ∷ []) state ≡ true) states
visit_counts_example = visit_counts (2 ∷ 3 ∷ []) (omega arith, (omega arith, tt))

abbrev mmpc_result : Returns chain (mmpc chain)
mmpc_result t s = let (cpc, runs, fits, _) = mmpc_returns chain t s in (cpc, runs, fits)

abbrev mmpc_pc : ℕ → Gaps → (ℕ → Option Gaps) → Option (Gaps × (ℕ → Option Gaps))
mmpc_pc = cache_candidate_pc chain (mmpc chain)

abbrev mmpc_cand : ℕ → Gaps
mmpc_cand = cand_of chain (mmpc chain) mmpc_result

candidates_cached_example :
    (c : Cache chain) × (cached : ℕ → Option Gaps) × (s : Gaps) × (c' : Cache chain) × (cached' : ℕ
      → Option Gaps)
    × (calls chain (ℕ → Option Gaps) mmpc_pc (0 ∷ 2 ∷ []) (empty_cache chain, λ _. none)
        ≡ some (c, cached))
    × (get_corrected chain (ℕ → Option Gaps) mmpc_pc 1 (c, cached) ≡ some (s, (c', cached')))
    × ((y : ℕ) → contains s y ≡ (contains (mmpc_cand 1) y && contains (mmpc_cand y) 1))
    × HoldsCandidates chain (mmpc chain) mmpc_result cached'
    × (cached' 1 ≡ some (mmpc_cand 1))
    × ((y : ℕ) → contains (mmpc_cand 1) y ≡ true → cached' y ≡ some (mmpc_cand y))
    × ((x : ℕ)
        → (m : Gaps) × (get_mb_superset chain 1 cached' ≡ some m)
          × (contains m x ≡ (
              not (x == 1)
              && (contains (mmpc_cand 1) x
                  || any (λ y. contains (mmpc_cand y) x) (chain.elems (mmpc_cand 1))))))
candidates_cached_example = candidates_cached chain (mmpc chain) mmpc_result (0 ∷ 2 ∷ []) 1

-- Two variables of three and four states, of which the observation has the last of each.
abbrev observation : List (ℕ × ℕ)
observation = (3, 4) ∷ []

index_given_lem_example :
    (index_given ((2, 3) ∷ observation) ≡ (
      value (bounds_of ((2, 3) ∷ observation)) (states_of ((2, 3) ∷ observation)),
      total (bounds_of ((2, 3) ∷ observation)),
    ))
    × (value (bounds_of ((2, 3) ∷ observation)) (states_of ((2, 3) ∷ observation))
        < total (bounds_of ((2, 3) ∷ observation)))
index_given_lem_example = index_given_lem 2 3 observation refl (omega arith)
