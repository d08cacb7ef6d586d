-- ===== src/BlanketLearning.antt =====
-- BlanketLearning.hpp and detail/BlanketLearning.hpp: growing and shrinking a candidate Markov
-- blanket (GS, IAMB, InterIAMB), and the parents and children among the members of a blanket.
pub mod Pick
pub mod Shrink
pub mod Grow
pub mod Neighbors
pub mod Collider
use ram_ble.Base.{
  ℕ, zero, suc, Bool, true, false, not, ◌&&◌, List, [], ◌∷◌, Option, none, some, if◌then◌else◌, ltb,
  ◌==◌,
}
use ram_ble.Setting.{Setting}
use ram_ble.DiscreteData.{
  p_value, is_independent, is_independent_given, is_independent_any_subset, max_p_value_seeded,
}
use ram_ble.LocalLearning.{Cache, get_corrected}

module _ (w : Setting) where
  open w use {
    Double, is_less, one, highest, Set, set_init, contains, elems, size, insert, erase, set_union,
    set_eq, num_vars, alpha, max_conditioning,
  }

  -- The loop of pickBestCandidate, with its x and pvX.
  unfoldable pub pick_loop : ℕ → Set → List ℕ → ℕ × Double → ℕ × Double
  pick_loop target cmb [] best = best
  pick_loop target cmb (y ∷ ys) best =
      let pv_y = p_value w target y cmb in
      pick_loop target cmb ys (if is_less pv_y best.1 then (y, pv_y) else best)

  unfoldable pub pick_best_candidate : ℕ → Set → Set → ℕ × Double
  unfolding pick_loop
  pick_best_candidate target candidates cmb =
      pick_loop target cmb (elems candidates) (num_vars, highest)

  -- GS::pickBestCandidate
  unfoldable pub pick_first_loop : ℕ → Set → List ℕ → ℕ × Double
  pick_first_loop target cmb [] = (num_vars, one)
  pick_first_loop target cmb (y ∷ ys) =
      let pv = p_value w target y cmb in
      let next = pick_first_loop target cmb ys in
      if not (is_independent w alpha pv) then (y, pv) else next

  unfoldable pub pick_first_candidate : ℕ → Set → Set → ℕ × Double
  unfolding pick_first_loop
  pick_first_candidate target candidates cmb = pick_first_loop target cmb (elems candidates)

  -- The loop of shrinkMB over the initial blanket: the blanket and the removed variables.
  unfoldable pub shrink_loop : ℕ → List ℕ → Set × Set → Set × Set
  shrink_loop target [] st = st
  shrink_loop target (x ∷ xs) (cmb, removed) =
      let cmb' = erase x cmb in
      shrink_loop target xs (
        if is_independent_given w alpha target x cmb'
        then (cmb', insert x removed)
        else (insert x cmb', removed))

  unfoldable pub shrink_mb : ℕ → Set → Set × Set
  unfolding shrink_loop
  shrink_mb target cmb =
      if size cmb == 0
      then (cmb, set_init num_vars)
      else shrink_loop target (elems cmb) (cmb, set_init num_vars)

  -- `pick` is the virtual pickBestCandidate.
  module _ (pick : ℕ → Set → Set → ℕ × Double) where
    -- The growing loop of GS and IAMB, on fuel: the candidates left and the blanket.
    unfoldable pub grow_loop : ℕ → ℕ → Set → Set → Option (Set × Set)
    grow_loop zero target candidates cmb = none
    grow_loop (suc fuel) target candidates cmb =
        let (x, pv_x) = pick target candidates cmb in
        let next = grow_loop fuel target (erase x candidates) (insert x cmb) in
        if size candidates == 0
        then some (candidates, cmb)
        else if not (is_independent w alpha pv_x)
        then next
        else some (candidates, cmb)

    -- GS::getCandidateMB and IAMB::getCandidateMB
    unfoldable pub get_candidate_mb : ℕ → Set → Option Set
    unfolding grow_loop shrink_mb
    get_candidate_mb target candidates =
        elim (grow_loop (suc (size candidates)) target candidates (set_init num_vars)) [
          | none ↦ none
          | some (_, cmb) ↦ some (shrink_mb target cmb).0
        ]

  -- The loop of InterIAMB::getCandidateMB, on fuel.
  unfoldable pub inter_loop : ℕ → ℕ → Set → Set → Option (Set × Set)
  unfolding pick_best_candidate shrink_mb
  inter_loop zero target candidates cmb = none
  inter_loop (suc fuel) target candidates cmb =
      let (x, pv_x) = pick_best_candidate target candidates cmb in
      let (cmb', removed) = shrink_mb target (insert x cmb) in
      let next = inter_loop fuel target (set_union (erase x candidates) removed) cmb' in
      if size candidates == 0
      then some (candidates, cmb)
      else if not (is_independent w alpha pv_x)
      then (if not (set_eq removed (insert x (set_init num_vars)))
          then next
          else some (erase x candidates, cmb'))
      else some (candidates, cmb)

  unfoldable pub evaluate_candidate_pc : ℕ → ℕ → Set → Set → Bool
  evaluate_candidate_pc x y mb_x mb_y =
      let mb_test = if ltb (size mb_x) (size mb_y) then erase y mb_x else erase x mb_y in
      not (is_independent_any_subset w alpha x y mb_test max_conditioning 0)

  -- checkCollider, from the two blankets
  unfoldable pub check_collider : ℕ → ℕ → ℕ → Set → Set → Bool × Double
  check_collider y x z blanket_y blanket_z =
      let set_x = insert x (set_init num_vars) in
      let mb_y = erase x (if contains blanket_y z then erase z blanket_y else blanket_y) in
      let mb_z = erase x (if contains blanket_z y then erase y blanket_z else blanket_z) in
      let smaller = if ltb (size mb_y) (size mb_z) then mb_y else mb_z in
      let pv = max_p_value_seeded w alpha y z smaller set_x max_conditioning in
      (not (is_independent w alpha pv), pv)

  -- The blankets come from the cache of getMB over the candidate function `blanket`.
  module _ (R : Type 0) (blanket : ℕ → Set → R → Option (Set × R)) where
    -- The loop of getCandidatePC over the blanket of the target.
    unfoldable pub candidate_pc_loop :
        ℕ → Set → List ℕ → Set → Cache w × R → Option (Set × (Cache w × R))
    unfolding evaluate_candidate_pc
    candidate_pc_loop target mb [] cpc st = some (cpc, st)
    candidate_pc_loop target mb (y ∷ ys) cpc st = elim (get_corrected w R blanket y st) [
      | none ↦ none
      | some (mb_y, st') ↦
          candidate_pc_loop target mb ys
            (if evaluate_candidate_pc target y mb mb_y then insert y cpc else cpc) st'
    ]

    unfoldable pub get_candidate_pc : ℕ → Set → Cache w × R → Option (Set × (Cache w × R))
    unfolding candidate_pc_loop
    get_candidate_pc target _ st = elim (get_corrected w R blanket target st) [
      | none ↦ none
      | some (mb, st') ↦ candidate_pc_loop target mb (elems mb) (set_init num_vars) st'
    ]
