-- ===== src/DirectLearning/Hiton.antt =====
-- HITON: its loop ends, and what it returns.
use ram_ble.Base.{
  ℕ, zero, suc, ◌<◌, ◌≡◌, refl, sym, ◌∙◌, Bool, true, false, List, [], ◌∷◌, some, arith,
  if◌then◌else◌, ◌==◌, ==_eq, ==_refl, Bool-cases, inl, inr, mem,
}
use ram_ble.Setting.{Setting}
use ram_ble.Setting.Facts.{Within, size-erase, size_zero, empty_or_member}
use ram_ble.DiscreteData.{p_value}
use ram_ble.DiscreteData.Order.{p_value-less-highest}
use ram_ble.DirectLearning.{least_marginal, remove_false_pc, hiton_loop, hiton}
use ram_ble.DirectLearning.FalsePc.{
  AreUnseparated, AreUnseparated-remove_false_pc, Within-remove_false_pc,
}

module _ (w : Setting) where
  open w use {
    Double, is_less, less_irrefl, less_trans, less_compare, Set, set_init, contains, elems, insert,
    erase, size, contains-insert, contains-erase, contains-set_init, contains-elems, num_vars,
    highest,
  }

  least_step :
      (target y : ℕ) (ys : List ℕ) (best : ℕ × Double) (b : Bool)
      → is_less (p_value w target y (set_init num_vars)) best.1 ≡ b
      → least_marginal w target (y ∷ ys) best
        ≡ least_marginal w target ys
            (if b then (y, p_value w target y (set_init num_vars)) else best)
  unfolding least_marginal
  least_step target y ys best b e = rw e refl

  -- Once the best is a variable with its p-value below the start, it stays a member.
  least_marginal-member :
      (target : ℕ) (s : Set) (ys : List ℕ) (best : ℕ × Double)
      → ((y : ℕ) → mem y ys ≡ true → contains s y ≡ true)
      → contains s best.0 ≡ true
      → contains s (least_marginal w target ys best).0 ≡ true
  unfolding least_marginal
  least_marginal-member target s [] best m h = h
  least_marginal-member target s (y ∷ ys) best m h =
      least_marginal-member target s ys
        (if is_less (p_value w target y (set_init num_vars)) best.1
          then (y, p_value w target y (set_init num_vars))
          else best)
        (λ z k. m z (ground arith)) (ground (arith, m y, ==_refl y))

  -- The first candidate is always better than the start.
  picked :
      (target : ℕ) (s : Set) (ys : List ℕ) (z : ℕ)
      → ((y : ℕ) → mem y ys ≡ true → contains s y ≡ true)
      → mem z ys ≡ true
      → contains s (least_marginal w target ys (num_vars, highest)).0 ≡ true
  picked target s [] z m h = absurd (ground arith)
  picked target s (y ∷ ys) z m h =
      let start : ℕ × Double = (num_vars, highest) in
      rw (least_step target y ys start true (p_value-less-highest w target y (set_init num_vars))) (
        least_marginal-member target s ys (y, p_value w target y (set_init num_vars))
          (λ u k. m u (ground arith)) (m y (ground (arith, ==_refl y))))

  abbrev next_of : ℕ → Set → ℕ
  next_of target candidates = (least_marginal w target (elems candidates) (num_vars, highest)).0

  hiton_step_empty :
      (fuel target : ℕ) (candidates cpc : Set)
      → size candidates ≡ 0
      → hiton_loop w (suc fuel) target candidates cpc ≡ some cpc
  unfolding hiton_loop
  hiton_step_empty fuel target candidates cpc n = rw n refl

  hiton_step :
      (fuel target : ℕ) (candidates cpc : Set)
      → size candidates == 0 ≡ false
      → hiton_loop w (suc fuel) target candidates cpc
        ≡ hiton_loop w fuel target
            (erase (next_of target candidates) candidates)
            (remove_false_pc w target (insert (next_of target candidates) cpc)).0
  unfolding hiton_loop
  hiton_step fuel target candidates cpc n = rw n refl

  hiton_loop_lem :
      (fuel target : ℕ) (candidates cpc all : Set)
      → size candidates < fuel
      → Within w candidates all
      → Within w cpc all
      → AreUnseparated w target cpc
      → (end : Set) × (hiton_loop w fuel target candidates cpc ≡ some end)
        × Within w end all
        × AreUnseparated w target end
  hiton_loop_lem zero target candidates cpc all l i j u = absurd (omega arith)
  hiton_loop_lem (suc fuel) target candidates cpc all l i j u =
      elim (empty_or_member w candidates) [
        | inl n ↦ (cpc, hiton_step_empty fuel target candidates cpc n, j, u)
        | inr (z, m) ↦
            let x = next_of target candidates in
            let inside =
              picked target candidates (elems candidates) z
                (λ y h. sym (contains-elems candidates y) ∙ h) (contains-elems candidates z ∙ m) in
            let smaller = size-erase w x candidates inside in
            let cpc' = (remove_false_pc w target (insert x cpc)).0 in
            let (end, runs, fits, stable) =
              hiton_loop_lem fuel target (erase x candidates) cpc' all (omega arith)
                (λ y h. i y (ground (arith, contains-erase x candidates y)))
                (λ y h.
                  let old = Within-remove_false_pc w target (insert x cpc) y h in
                  elim (Bool-cases (y == x)) [
                    | inl e ↦ rw (==_eq y x e) (i x inside)
                    | inr e ↦ j y (ground (arith, contains-insert x cpc y))
                  ])
                (AreUnseparated-remove_false_pc w target (insert x cpc)) in
            (
              end,
              hiton_step fuel target candidates cpc (ground (arith, size_zero w candidates z))
                  ∙ runs,
              fits,
              stable,
            )
      ]

  -- HITON returns: its loop ends, the returned set is a subset of the candidates, and no member
  -- of it is separated from the target by at most maxConditioning other members.
  pub hiton_returns :
      (target : ℕ) (candidates : Set)
      → (cpc : Set) × (hiton w target candidates ≡ some cpc)
        × Within w cpc candidates
        × AreUnseparated w target cpc
  unfolding hiton
  hiton_returns target candidates =
      hiton_loop_lem (suc (size candidates)) target candidates (set_init num_vars) candidates
        (omega arith) (λ y h. h) (λ y h. absurd (ground (arith, contains-set_init num_vars y)))
        (λ x c h _. absurd (ground (arith, contains-set_init num_vars x)))
