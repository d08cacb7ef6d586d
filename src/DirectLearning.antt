-- ===== src/DirectLearning.antt =====
-- detail/DirectLearning.hpp: candidate parents and children by forward addition and backward
-- removal (MMPC, HITON, SemiInterleavedHITON, GetPC).
pub mod FalsePc
pub mod Take
pub mod Forward
pub mod Hiton
pub mod Scan
pub mod GetPc
pub mod Candidates
pub mod Blankets
use ram_ble.Base.{
  ℕ, zero, suc, ◌+◌, Bool, true, false, not, ◌&&◌, ◌||◌, List, [], ◌∷◌, ◌++◌, map, Option, none,
  some, if◌then◌else◌, ltb, ◌==◌, keep, length,
}
use ram_ble.Setting.{Setting}
use ram_ble.DiscreteData.{
  p_value, is_independent, is_independent_any_subset, max_double, max_p_value, max_p_value_seeded,
}

module _ (w : Setting) where
  open w use {
    Double, is_less, zero_point, highest, Set, set_init, elems, size, insert, erase, set_difference,
    num_vars, alpha, max_conditioning,
  }

  -- The loop of removeFalsePC: the set, which every turn restores, and the removed variables.
  unfoldable pub false_pc_loop : ℕ → List ℕ → Set × Set → Set × Set
  false_pc_loop target [] st = st
  false_pc_loop target (x ∷ xs) (cpc, removed) =
      let cpc' = erase x cpc in
      false_pc_loop target xs (
        insert x cpc',
        if is_independent_any_subset w alpha target x cpc' max_conditioning 0
            then insert x removed
            else removed,
      )

  -- removeFalsePC: the set that is left, and the removed variables.
  unfoldable pub remove_false_pc : ℕ → Set → Set × Set
  unfolding false_pc_loop
  remove_false_pc target cpc =
      let (cpc', removed) = false_pc_loop target (elems cpc) (cpc, set_init num_vars) in
      (set_difference cpc' removed, removed)

  -- updateMaxPValues
  unfoldable pub update_max_p_values : ℕ → List (Double × ℕ) → Set → Set → List (Double × ℕ)
  update_max_p_values target max_p_values cpc set_next =
      keep (λ mpv. not (is_independent w alpha mpv.0))
        (map
          (λ mpv. (
            max_double w mpv.0
                (max_p_value_seeded w alpha target mpv.1 cpc set_next max_conditioning),
            mpv.1,
          ))
          max_p_values)

  -- operator< of std::pair<double, Var>
  abbrev pub pair_less : Double × ℕ → Double × ℕ → Bool
  pair_less (p, x) (q, y) = is_less p q || (not (is_less q p) && ltb x y)

  -- std::min_element: the least element, and its position
  unfoldable pub min_element : Double × ℕ → ℕ → ℕ → List (Double × ℕ) → (Double × ℕ) × ℕ
  min_element best at_best i [] = (best, at_best)
  min_element best at_best i (mpv ∷ rest) =
      min_element (if pair_less mpv best then mpv else best)
        (if pair_less mpv best then i else at_best) (i + 1) rest

  unfoldable pub replace : ℕ → Double × ℕ → List (Double × ℕ) → List (Double × ℕ)
  replace i v [] = []
  replace zero v (mpv ∷ rest) = v ∷ rest
  replace (suc i) v (mpv ∷ rest) = mpv ∷ replace i v rest

  -- back() and pop_back() of a vector with a first element
  unfoldable pub back : Double × ℕ → List (Double × ℕ) → Double × ℕ
  back mpv [] = mpv
  back mpv (next ∷ rest) = back next rest

  unfoldable pub pop_back : List (Double × ℕ) → List (Double × ℕ)
  pop_back [] = []
  pop_back (mpv ∷ []) = []
  pop_back (mpv ∷ next ∷ rest) = mpv ∷ pop_back (next ∷ rest)

  -- MMPC takes the least element, in whose place the last one goes.
  unfoldable pub take_min : List (Double × ℕ) → Option ((Double × ℕ) × List (Double × ℕ))
  unfolding min_element replace back pop_back
  take_min [] = none
  take_min (mpv ∷ rest) =
      let (least, i) = min_element mpv 0 1 rest in
      some (least, pop_back (replace i (back mpv rest) (mpv ∷ rest)))

  -- SemiInterleavedHITON takes the first.
  unfoldable pub take_first : List (Double × ℕ) → Option ((Double × ℕ) × List (Double × ℕ))
  take_first [] = none
  take_first (mpv ∷ rest) = some (mpv, rest)

  -- std::sort
  unfoldable pub insert_sorted : Double × ℕ → List (Double × ℕ) → List (Double × ℕ)
  insert_sorted mpv [] = mpv ∷ []
  insert_sorted mpv (next ∷ rest) =
      let later = insert_sorted mpv rest in
      if pair_less next mpv then next ∷ later else mpv ∷ next ∷ rest

  unfoldable pub sort : List (Double × ℕ) → List (Double × ℕ)
  unfolding insert_sorted
  sort [] = []
  sort (mpv ∷ rest) = insert_sorted mpv (sort rest)

  -- The forward loop of MMPC and of SemiInterleavedHITON, on fuel.
  module _ (take_next : List (Double × ℕ) → Option ((Double × ℕ) × List (Double × ℕ))) where
    unfoldable pub forward_loop : ℕ → ℕ → List (Double × ℕ) → Set → Set → Option Set
    unfolding update_max_p_values
    forward_loop zero target max_p_values cpc set_next = none
    forward_loop (suc fuel) target max_p_values cpc set_next = elim (take_next max_p_values) [
      | none ↦ some cpc
      | some (mpv, rest) ↦
          let set_next' = insert mpv.1 set_next in
          forward_loop fuel target (update_max_p_values target rest cpc set_next')
            (insert mpv.1 cpc) (erase mpv.1 set_next')
    ]

  -- The array of candidates that both start with, after the first update.
  unfoldable pub first_p_values : ℕ → Set → List (Double × ℕ)
  unfolding update_max_p_values
  first_p_values target candidates =
      update_max_p_values target (map (λ y. (zero_point, y)) (elems candidates)) (set_init num_vars)
        (set_init num_vars)

  -- The forward loop from there, and the backward phase.
  unfoldable pub forward_backward :
      (List (Double × ℕ) → Option ((Double × ℕ) × List (Double × ℕ)))
      → ℕ
      → List (Double × ℕ)
      → Option Set
  unfolding forward_loop remove_false_pc
  forward_backward take_next target max_p_values =
      elim (forward_loop take_next (suc (length max_p_values)) target max_p_values
        (set_init num_vars) (set_init num_vars)) [
          | none ↦ none
          | some cpc ↦ some (remove_false_pc target cpc).0
        ]

  -- MMPC::getCandidatePC_impl
  unfoldable pub mmpc : ℕ → Set → Option Set
  unfolding forward_backward
  mmpc target candidates = forward_backward take_min target (first_p_values target candidates)

  -- SemiInterleavedHITON::getCandidatePC_impl
  unfoldable pub si_hiton : ℕ → Set → Option Set
  unfolding forward_backward
  si_hiton target candidates =
      forward_backward take_first target (sort (first_p_values target candidates))

  -- The inner loop of HITON: the candidate of the least marginal p-value.
  unfoldable pub least_marginal : ℕ → List ℕ → ℕ × Double → ℕ × Double
  least_marginal target [] best = best
  least_marginal target (y ∷ ys) best =
      let pv_y = p_value w target y (set_init num_vars) in
      least_marginal target ys (if is_less pv_y best.1 then (y, pv_y) else best)

  -- The loop of HITON::getCandidatePC_impl, on fuel.
  unfoldable pub hiton_loop : ℕ → ℕ → Set → Set → Option Set
  unfolding least_marginal remove_false_pc
  hiton_loop zero target candidates cpc = none
  hiton_loop (suc fuel) target candidates cpc =
      let (x, _) = least_marginal target (elems candidates) (num_vars, highest) in
      let next =
        hiton_loop fuel target (erase x candidates) (remove_false_pc target (insert x cpc)).0 in
      if size candidates == 0 then some cpc else next

  unfoldable pub hiton : ℕ → Set → Option Set
  unfolding hiton_loop
  hiton target candidates = hiton_loop (suc (size candidates)) target candidates (set_init num_vars)

  -- The inner loop of GetPC: x with pvX, and the candidates to remove.
  unfoldable pub get_pc_scan : ℕ → Set → List ℕ → (ℕ × Double) × Set → (ℕ × Double) × Set
  get_pc_scan target cpc [] st = st
  get_pc_scan target cpc (y ∷ ys) (best, remove) =
      let pv_y = max_p_value w alpha target y cpc max_conditioning 0 in
      get_pc_scan target cpc ys (
        if is_independent w alpha pv_y
        then (best, insert y remove)
        else if is_less pv_y best.1
        then ((y, pv_y), remove)
        else (best, remove))

  unfoldable pub erase_each : List ℕ → Set → Set
  erase_each [] s = s
  erase_each (y ∷ ys) s = erase_each ys (erase y s)

  -- The loop of GetPC::getCandidatePC_impl, on fuel.
  unfoldable pub get_pc_loop : ℕ → ℕ → Set → Set → Option Set
  unfolding get_pc_scan erase_each remove_false_pc
  get_pc_loop zero target candidates cpc = none
  get_pc_loop (suc fuel) target candidates cpc =
      let ((x, pv_x), remove) =
        get_pc_scan target cpc (elems candidates) ((num_vars, highest), set_init num_vars) in
      let candidates' = erase_each (elems remove) candidates in
      let next =
        get_pc_loop fuel target (erase x candidates') (remove_false_pc target (insert x cpc)).0 in
      if size candidates == 0
      then some cpc
      else if size candidates' == 0
      then some cpc
      else if not (is_independent w alpha pv_x)
      then next
      else some (remove_false_pc target cpc).0

  unfoldable pub get_pc_candidate_pc : ℕ → Set → Option Set
  unfolding get_pc_loop
  get_pc_candidate_pc target candidates =
      get_pc_loop (suc (size candidates)) target candidates (set_init num_vars)
