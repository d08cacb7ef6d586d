-- ===== src/DirectLearning/GetPc.antt =====
-- GetPC: its loop ends, and what it returns.
use ram_ble.Base.{
  ℕ, zero, suc, ◌<◌, ◌≡◌, ◌⊎◌, refl, sym, ◌∙◌, true, false, some, arith, ◌==◌, ==_eq, Bool-cases,
  inl, inr,
}
use ram_ble.Setting.{Setting}
use ram_ble.Setting.Facts.{Within, size-erase, size_zero, size_le, empty_or_member}
use ram_ble.DiscreteData.{is_independent}
use ram_ble.DirectLearning.{
  get_pc_scan, erase_each, remove_false_pc, get_pc_loop, get_pc_candidate_pc,
}
use ram_ble.DirectLearning.FalsePc.{
  AreUnseparated, AreUnseparated-remove_false_pc, Within-remove_false_pc,
}
use ram_ble.DirectLearning.Scan.{contains-erase_each, removed_lem, Stays-picked}

module _ (w : Setting) where
  open w use {
    Double, Set, set_init, contains, elems, insert, erase, size, contains-insert, contains-erase,
    contains-set_init, contains-elems, num_vars, highest, alpha,
  }

  -- The scan of one round, the candidates that it leaves, and its pick.
  abbrev scan : ℕ → Set → Set → (ℕ × Double) × Set
  scan target candidates cpc =
      get_pc_scan w target cpc (elems candidates) ((num_vars, highest), set_init num_vars)

  abbrev left : ℕ → Set → Set → Set
  left target candidates cpc = erase_each w (elems (scan target candidates cpc).1) candidates

  left_lem :
      (target : ℕ) (candidates cpc : Set) (z : ℕ)
      → contains (left target candidates cpc) z ≡ true
      → (contains candidates z ≡ true)
        × (contains (left target candidates cpc) (scan target candidates cpc).0.0 ≡ true)
  left_lem target candidates cpc z h =
      let start : ℕ × Double = (num_vars, highest) in
      let st = scan target candidates cpc in
      let x = st.0.0 in
      let remain = λ (u : ℕ). contains-erase_each w (elems st.1) candidates u in
      let removed =
        λ (u : ℕ). removed_lem w target cpc (elems candidates) start (set_init num_vars) u in
      let (inside, stays) =
        Stays-picked w target cpc candidates (elems candidates) (set_init num_vars) z
          (λ y m. sym (contains-elems candidates y) ∙ m)
          (ground (arith, remain z, contains-elems candidates z))
          (ground
            (arith, remain z, removed z, contains-elems st.1 z, contains-elems candidates z)) in
      (
        ground (arith, remain z),
        ground (arith, remain x, removed x, contains-elems st.1 x, contains-set_init num_vars x),
      )

  step_done :
      (fuel target : ℕ) (candidates cpc : Set)
      → size candidates ≡ 0 ⊎ size (left target candidates cpc) ≡ 0
      → get_pc_loop w (suc fuel) target candidates cpc ≡ some cpc
  unfolding get_pc_loop
  step_done fuel target candidates cpc (inl n) = rw n refl
  step_done fuel target candidates cpc (inr n) = elim (Bool-cases (size candidates == 0)) [
    | inl e ↦ rw e refl
    | inr e ↦ rw (e, n) refl
  ]

  step_added :
      (fuel target : ℕ) (candidates cpc : Set)
      → size candidates == 0 ≡ false
      → size (left target candidates cpc) == 0 ≡ false
      → is_independent w alpha (scan target candidates cpc).0.1 ≡ false
      → get_pc_loop w (suc fuel) target candidates cpc
        ≡ get_pc_loop w fuel target
            (erase (scan target candidates cpc).0.0 (left target candidates cpc))
            (remove_false_pc w target (insert (scan target candidates cpc).0.0 cpc)).0
  unfolding get_pc_loop
  step_added fuel target candidates cpc n m e = rw (n, m, e) refl

  step_last :
      (fuel target : ℕ) (candidates cpc : Set)
      → size candidates == 0 ≡ false
      → size (left target candidates cpc) == 0 ≡ false
      → is_independent w alpha (scan target candidates cpc).0.1 ≡ true
      → get_pc_loop w (suc fuel) target candidates cpc ≡ some (remove_false_pc w target cpc).0
  unfolding get_pc_loop
  step_last fuel target candidates cpc n m e = rw (n, m, e) refl

  get_pc_loop_lem :
      (fuel target : ℕ) (candidates cpc all : Set)
      → size candidates < fuel
      → Within w candidates all
      → Within w cpc all
      → AreUnseparated w target cpc
      → (end : Set) × (get_pc_loop w fuel target candidates cpc ≡ some end)
        × Within w end all
        × AreUnseparated w target end
  get_pc_loop_lem zero target candidates cpc all l i j u = absurd (omega arith)
  get_pc_loop_lem (suc fuel) target candidates cpc all l i j u =
      elim (empty_or_member w (left target candidates cpc)) [
        | inl n ↦ (cpc, step_done fuel target candidates cpc (inr n), j, u)
        | inr (z, m) ↦
            let x = (scan target candidates cpc).0.0 in
            let rest = left target candidates cpc in
            let (old, inside) = left_lem target candidates cpc z m in
            let some_left : (size rest == 0) ≡ false = ground (arith, size_zero w rest z) in
            let some_before : (size candidates == 0) ≡ false =
              ground (arith, size_zero w candidates z) in
            let fewer = size_le w rest candidates (λ y h. (left_lem target candidates cpc y h).0) in
            let smaller = size-erase w x rest inside in
            elim (Bool-cases (is_independent w alpha (scan target candidates cpc).0.1)) [
              | inl e ↦ (
                (remove_false_pc w target cpc).0,
                step_last fuel target candidates cpc some_before some_left e,
                λ y h. j y (Within-remove_false_pc w target cpc y h),
                AreUnseparated-remove_false_pc w target cpc,
              )
              | inr e ↦
                  let cpc' = (remove_false_pc w target (insert x cpc)).0 in
                  let (end, runs, fits, stable) =
                    get_pc_loop_lem fuel target (erase x rest) cpc' all (omega arith)
                      (λ y h.
                        i y
                          (left_lem target candidates cpc y
                            (ground (arith, contains-erase x rest y))).0)
                      (λ y h.
                        let was = Within-remove_false_pc w target (insert x cpc) y h in
                        elim (Bool-cases (y == x)) [
                          | inl f ↦
                              rw (==_eq y x f) (i x (left_lem target candidates cpc x inside).0)
                          | inr f ↦ j y (ground (arith, contains-insert x cpc y))
                        ])
                      (AreUnseparated-remove_false_pc w target (insert x cpc)) in
                  (
                    end,
                    step_added fuel target candidates cpc some_before some_left e ∙ runs,
                    fits,
                    stable,
                  )
            ]
      ]

  -- GetPC returns: its loop ends, the returned set is a subset of the candidates, and no member of
  -- it is separated from the target by at most maxConditioning other members.
  pub get_pc_returns :
      (target : ℕ) (candidates : Set)
      → (cpc : Set) × (get_pc_candidate_pc w target candidates ≡ some cpc)
        × Within w cpc candidates
        × AreUnseparated w target cpc
  unfolding get_pc_candidate_pc
  get_pc_returns target candidates =
      get_pc_loop_lem (suc (size candidates)) target candidates (set_init num_vars) candidates
        (omega arith) (λ y h. h) (λ y h. absurd (ground (arith, contains-set_init num_vars y)))
        (λ x c h _. absurd (ground (arith, contains-set_init num_vars x)))
