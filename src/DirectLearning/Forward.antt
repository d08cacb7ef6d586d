-- ===== src/DirectLearning/Forward.antt =====
-- MMPC and SemiInterleavedHITON: the forward loop ends, and what the two return.
use ram_ble.Base.{
  ℕ, zero, suc, ◌<◌, ◌≡◌, refl, List, [], ◌∷◌, Option, some, arith, ◌==◌, ==_eq, Bool-cases, inl,
  inr, length,
}
use ram_ble.Setting.{Setting}
use ram_ble.Setting.Facts.{Within}
use ram_ble.DirectLearning.{
  update_max_p_values, take_min, take_first, sort, forward_loop, first_p_values, forward_backward,
  mmpc, si_hiton, remove_false_pc,
}
use ram_ble.DirectLearning.FalsePc.{
  AreUnseparated, AreUnseparated-remove_false_pc, Within-remove_false_pc,
}
use ram_ble.DirectLearning.Take.{
  AreIn, TakeSpec, take_min-TakeSpec, take_first-TakeSpec, AreIn-sort, AreIn-update,
  AreIn-first_p_values,
}

module _ (w : Setting) where
  open w use {
    Double, Set, set_init, contains, insert, erase, contains-insert, contains-set_init, num_vars,
  }

  module _ (take_next : List (Double × ℕ) → Option ((Double × ℕ) × List (Double × ℕ)))
      (spec : TakeSpec w take_next) where
    forward_loop_lem :
        (fuel target : ℕ) (l : List (Double × ℕ)) (cpc set_next all : Set)
        → length l < fuel
        → AreIn w all l
        → Within w cpc all
        → (end : Set) × (forward_loop w take_next fuel target l cpc set_next ≡ some end)
          × Within w end all
    unfolding forward_loop
    forward_loop_lem zero target l cpc set_next all n a i = absurd (omega arith)
    forward_loop_lem (suc fuel) target [] cpc set_next all n a i =
        (cpc, rw (spec.empty, forward_loop) refl, i)
    forward_loop_lem (suc fuel) target (mpv ∷ rest) cpc set_next all n a i =
        let (x, rest', taken, inside, a', m) = spec.next all mpv rest a in
        let set_next' = insert x.1 set_next in
        let (a'', m') = AreIn-update w all target rest' cpc set_next' a' in
        let (end, runs, fits) =
          forward_loop_lem fuel target (update_max_p_values w target rest' cpc set_next')
            (insert x.1 cpc) (erase x.1 set_next') all (omega (arith, m, m')) a''
            (λ y h. elim (Bool-cases (y == x.1)) [
              | inl e ↦ rw (==_eq y x.1 e) inside
              | inr e ↦ i y (ground (arith, contains-insert x.1 cpc y))
            ]) in
        (end, rw (taken, forward_loop) runs, fits)

    forward_backward_lem :
        (target : ℕ) (l : List (Double × ℕ)) (all : Set)
        → AreIn w all l
        → (cpc : Set) × (forward_backward w take_next target l ≡ some cpc)
          × Within w cpc all
          × AreUnseparated w target cpc
    unfolding forward_backward
    forward_backward_lem target l all a =
        let (end, runs, fits) =
          forward_loop_lem (suc (length l)) target l (set_init num_vars) (set_init num_vars) all
            (omega arith) a (λ y h. absurd (ground (arith, contains-set_init num_vars y))) in
        (
          (remove_false_pc w target end).0,
          rw (runs, forward_backward) refl,
          λ y h. fits y (Within-remove_false_pc w target end y h),
          AreUnseparated-remove_false_pc w target end,
        )

  -- MMPC returns: its loop ends, the returned set is a subset of the candidates, and no member of
  -- it is separated from the target by at most maxConditioning other members.
  pub mmpc_returns :
      (target : ℕ) (candidates : Set)
      → (cpc : Set) × (mmpc w target candidates ≡ some cpc)
        × Within w cpc candidates
        × AreUnseparated w target cpc
  unfolding mmpc
  mmpc_returns target candidates =
      forward_backward_lem (take_min w) (take_min-TakeSpec w) target
        (first_p_values w target candidates) candidates (AreIn-first_p_values w target candidates)

  -- SemiInterleavedHITON returns: its loop ends, the returned set is a subset of the candidates,
  -- and no member of it is separated from the target by at most maxConditioning other members.
  pub si_hiton_returns :
      (target : ℕ) (candidates : Set)
      → (cpc : Set) × (si_hiton w target candidates ≡ some cpc)
        × Within w cpc candidates
        × AreUnseparated w target cpc
  unfolding si_hiton
  si_hiton_returns target candidates =
      let l = first_p_values w target candidates in
      forward_backward_lem (take_first w) (take_first-TakeSpec w) target (sort w l) candidates
        (AreIn-sort w candidates l (AreIn-first_p_values w target candidates))
