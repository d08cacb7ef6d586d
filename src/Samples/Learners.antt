-- ===== src/Samples/Learners.antt =====
-- Examples of the learners: IAMB and GS blankets of the collider, the caches and the skeleton over
-- them, and the candidates of the direct learners.
use ram_ble.Base.{ℕ, ◌≡◌, ◌↔◌, refl, true, false, ◌&&◌, arith, [], ◌∷◌, Option, some, ltb}
use ram_ble.Setting.Facts.{Within}
use ram_ble.Setting.Gaps.{Gaps, contains, erase, elems_from}
use ram_ble.Setting.Gaps.Instance.{percent_cap}
use ram_ble.Graphs.EdgeList.{Simple, edge_lists}
use ram_ble.DiscreteData.{p_value, is_independent_given}
use ram_ble.DiscreteData.AnySubset.{Separates}
use ram_ble.DiscreteData.Seeded.{SeparatesWith}
use ram_ble.LocalLearning.{Cache, empty_cache, get_corrected}
use ram_ble.LocalLearning.Invariant.{CandidateSpec, corrected}
use ram_ble.LocalLearning.Correction.{IsValid, get_corrected_lem}
use ram_ble.LocalLearning.Symmetric.{
  calls, empty_cache-IsValid, get_corrected_after, get_corrected_symmetric,
}
use ram_ble.LocalLearning.Skeleton.{get_skeleton_sequential, get_skeleton_sequential_edges}
use ram_ble.BlanketLearning.{
  pick_best_candidate, grow_loop, shrink_mb, get_candidate_pc, evaluate_candidate_pc,
  check_collider,
}
use ram_ble.BlanketLearning.Pick.{pick_best_candidate-PickSpec, pick_best_candidate-least}
use ram_ble.BlanketLearning.Shrink.{Splits, shrink_mb-Splits, shrink_mb-minimal}
use ram_ble.BlanketLearning.Grow.{Grown, grow_loop_ends, blanket, blankets}
use ram_ble.BlanketLearning.Neighbors.{
  test_set, evaluate_candidate_pc_iff, mb_of, neighbors, get_pc_members,
}
use ram_ble.BlanketLearning.Collider.{smaller, check_collider_iff}
use ram_ble.DirectLearning.{remove_false_pc, mmpc, si_hiton, hiton, get_pc_candidate_pc}
use ram_ble.DirectLearning.FalsePc.{AreUnseparated, remove_false_pc_iff}
use ram_ble.DirectLearning.Forward.{mmpc_returns, si_hiton_returns}
use ram_ble.DirectLearning.Hiton.{hiton_returns}
use ram_ble.DirectLearning.GetPc.{get_pc_returns}
use ram_ble.Samples.{three, chain, only_one, one_two}

abbrev pick : ℕ → Gaps → Gaps → ℕ × ℕ
pick = pick_best_candidate three

abbrev iamb : ℕ → Gaps → Unit {0} → Option (Gaps × Unit {0})
iamb = blanket three pick

abbrev iamb_spec : CandidateSpec three (Unit {0}) iamb
iamb_spec = blankets three pick (pick_best_candidate-PickSpec three)

abbrev Blankets : Type 0
Blankets = Cache three × Unit {0}

abbrev pcs : ℕ → Gaps → Blankets → Option (Gaps × Blankets)
pcs = get_candidate_pc three (Unit {0}) iamb

abbrev pcs_spec : CandidateSpec three Blankets pcs
pcs_spec = neighbors three (Unit {0}) iamb iamb_spec

start-IsValid : IsValid three (Unit {0}) iamb iamb_spec (empty_cache three) tt
start-IsValid = empty_cache-IsValid three (Unit {0}) iamb iamb_spec tt tt

pcs-IsValid : IsValid three Blankets pcs pcs_spec (empty_cache three) (empty_cache three, tt)
pcs-IsValid = empty_cache-IsValid three Blankets pcs pcs_spec (empty_cache three, tt) start-IsValid

get_corrected_after_example :
    (st : Cache three × Unit {0}) × (s : Gaps) × (end : Cache three × Unit {0}) × (calls three
        (Unit {0})
        iamb
        (2 ∷ 0 ∷ [])
        (empty_cache three, tt)
      ≡ some st)
    × (get_corrected three (Unit {0}) iamb 1 st ≡ some (s, end))
    × ((y : ℕ) → contains s y ≡ (contains (iamb_spec.cand 1) y && contains (iamb_spec.cand y) 1))
get_corrected_after_example =
    get_corrected_after three (Unit {0}) iamb iamb_spec (2 ∷ 0 ∷ []) 1 tt tt

-- The first call of getMB for a variable.
abbrev first_call :
    (t : ℕ)
    → (c : Cache three) × (r : Unit {0}) × (get_corrected three
          (Unit {0})
          iamb
          t
          (empty_cache three, tt)
        ≡ some (corrected three (Unit {0}) iamb iamb_spec t, (c, r)))
      × IsValid three (Unit {0}) iamb iamb_spec c r
first_call t =
    get_corrected_lem three (Unit {0}) iamb iamb_spec t (empty_cache three) tt start-IsValid

get_corrected_symmetric_example :
    contains (corrected three (Unit {0}) iamb iamb_spec 0) 1
    ≡ contains (corrected three (Unit {0}) iamb iamb_spec 1) 0
get_corrected_symmetric_example =
    get_corrected_symmetric three (Unit {0}) iamb iamb_spec 0 1 (empty_cache three)
      (empty_cache three) tt tt (corrected three (Unit {0}) iamb iamb_spec 0)
      (corrected three (Unit {0}) iamb iamb_spec 1) ((first_call 0).0, (first_call 0).1)
      ((first_call 1).0, (first_call 1).1) start-IsValid start-IsValid (first_call 0).2
      (first_call 1).2

get_skeleton_sequential_edges_example :
    (bn : Simple) × (st : Cache three × Blankets) × (get_skeleton_sequential three edge_lists
        Blankets pcs
        (empty_cache three, (empty_cache three, tt))
      ≡ some (bn, st))
    × (edge_lists.edge_exists bn 0 1
        ≡ (contains (pcs_spec.cand 0) 1 && contains (pcs_spec.cand 1) 0))
get_skeleton_sequential_edges_example =
    get_skeleton_sequential_edges three edge_lists Blankets pcs pcs_spec (empty_cache three)
      (empty_cache three, tt) 0 1 pcs-IsValid (omega arith) (omega arith)

get_pc_members_example :
    (s : Gaps) × (st : Cache three × Blankets) × (get_corrected three Blankets pcs 0
        (empty_cache three, (empty_cache three, tt))
      ≡ some (s, st))
    × (contains s 1 ≡ (
        (contains (mb_of three (Unit {0}) iamb iamb_spec 0) 1
          && evaluate_candidate_pc three 0 1
              (mb_of three (Unit {0}) iamb iamb_spec 0)
              (mb_of three (Unit {0}) iamb iamb_spec 1))
        && (contains (mb_of three (Unit {0}) iamb iamb_spec 1) 0
            && evaluate_candidate_pc three 1 0
                (mb_of three (Unit {0}) iamb iamb_spec 1)
                (mb_of three (Unit {0}) iamb iamb_spec 0))))
get_pc_members_example =
    get_pc_members three (Unit {0}) iamb iamb_spec 0 1 (empty_cache three) (empty_cache three, tt)
      pcs-IsValid

grow_loop_ends_example :
    (left : Gaps) × (mb : Gaps) × (grow_loop three pick 3 0 one_two [] ≡ some (left, mb))
    × Grown three pick 0 one_two [] left mb
grow_loop_ends_example =
    grow_loop_ends three pick (pick_best_candidate-PickSpec three) 3 0 one_two [] (omega arith)

shrink_mb-Splits_example : Splits three one_two (shrink_mb three 0 one_two)
shrink_mb-Splits_example = shrink_mb-Splits three 0 one_two

-- Shrinking {1} for the target 0 removes nothing.
nothing_removed : (y : ℕ) → contains (shrink_mb three 0 only_one).1 y ≡ false
unfolding shrink_mb p_value contains percent_cap erase elems_from
nothing_removed y = refl

has_one : contains only_one 1 ≡ true
unfolding contains
has_one = refl

shrink_mb-minimal_example : is_independent_given three 5 0 1 (erase 1 only_one) ≡ false
shrink_mb-minimal_example = shrink_mb-minimal three 0 only_one 1 nothing_removed has_one

holds_one : contains one_two 1 ≡ true
unfolding contains
holds_one = refl

pick_best_candidate-least_example :
    (contains one_two (pick_best_candidate three 0 one_two []).0 ≡ true)
    × ((pick_best_candidate three 0 one_two []).1
        ≡ p_value three 0 (pick_best_candidate three 0 one_two []).0 [])
    × (ltb (p_value three 0 1 []) (pick_best_candidate three 0 one_two []).1 ≡ false)
pick_best_candidate-least_example = pick_best_candidate-least three 0 one_two [] 1 holds_one

evaluate_candidate_pc_iff_example :
    (evaluate_candidate_pc chain 0 2 one_two (0 ∷ 0 ∷ []) ≡ false)
    ↔ ((c : Gaps) × Separates chain 5 0 2 (test_set chain 0 2 one_two (0 ∷ 0 ∷ [])) 2 0 c)
evaluate_candidate_pc_iff_example = evaluate_candidate_pc_iff chain 0 2 one_two (0 ∷ 0 ∷ [])

check_collider_iff_example : ((check_collider three 0 1 2 only_one only_one).0 ≡ false) ↔ (
    (c : Gaps) × SeparatesWith three 5 0 2
      (three.insert 1 [])
      (smaller three 0 1 2 only_one only_one)
      2
      c)
check_collider_iff_example = check_collider_iff three 0 1 2 only_one only_one

has_zero : contains (0 ∷ 0 ∷ []) 0 ≡ true
unfolding contains
has_zero = refl

remove_false_pc_iff_example :
    (contains (remove_false_pc chain 2 (0 ∷ 0 ∷ [])).0 0 ≡ false)
    ↔ ((c : Gaps) × Separates chain 5 2 0 (erase 0 (0 ∷ 0 ∷ [])) 2 0 c)
remove_false_pc_iff_example = remove_false_pc_iff chain 2 (0 ∷ 0 ∷ []) 0 has_zero

mmpc_returns_example :
    (cpc : Gaps) × (mmpc chain 0 one_two ≡ some cpc)
    × Within chain cpc one_two
    × AreUnseparated chain 0 cpc
mmpc_returns_example = mmpc_returns chain 0 one_two

si_hiton_returns_example :
    (cpc : Gaps) × (si_hiton chain 0 one_two ≡ some cpc)
    × Within chain cpc one_two
    × AreUnseparated chain 0 cpc
si_hiton_returns_example = si_hiton_returns chain 0 one_two

hiton_returns_example :
    (cpc : Gaps) × (hiton chain 0 one_two ≡ some cpc)
    × Within chain cpc one_two
    × AreUnseparated chain 0 cpc
hiton_returns_example = hiton_returns chain 0 one_two

get_pc_returns_example :
    (cpc : Gaps) × (get_pc_candidate_pc chain 0 one_two ≡ some cpc)
    × Within chain cpc one_two
    × AreUnseparated chain 0 cpc
get_pc_returns_example = get_pc_returns chain 0 one_two
