-- ===== src/BlanketLearning/Pick.antt =====
-- The two functions pickBestCandidate: the pick is dependent on the target unless every candidate
-- is independent of it.
use ram_ble.Base.{
  ℕ, ◌≡◌, ◌⊎◌, refl, sym, ap, subst, ◌∙◌, true, false, List, [], ◌∷◌, arith, if◌then◌else◌, ◌==◌,
  ==_refl, ==_eq, Bool-cases, inl, inr, mem,
}
use ram_ble.Setting.{Setting}
use ram_ble.DiscreteData.{p_value, is_independent, is_independent_given}
use ram_ble.DiscreteData.Order.{p_value-le-one, p_value-less-highest}
use ram_ble.BlanketLearning.{pick_loop, pick_best_candidate, pick_first_loop, pick_first_candidate}

-- What the growing loop relies on, of a pick among candidates that are not all gone.
pub record PickSpec (w : Setting) (pick : ℕ → w.Set → w.Set → ℕ × w.Double) : Type 0 where
  pub picked :
      (target : ℕ) (candidates cmb : w.Set) (z : ℕ)
      → w.contains candidates z ≡ true
      → is_independent w w.alpha (pick target candidates cmb).1 ≡ false
      → (w.contains candidates (pick target candidates cmb).0 ≡ true)
        × (is_independent_given w w.alpha target (pick target candidates cmb).0 cmb ≡ false)
  pub exhausted :
      (target : ℕ) (candidates cmb : w.Set) (y : ℕ)
      → is_independent w w.alpha (pick target candidates cmb).1 ≡ true
      → w.contains candidates y ≡ true
      → is_independent_given w w.alpha target y cmb ≡ true

module _ (w : Setting) where
  open w use {
    Double, Set, is_less, less_compare, less_trans, less_irrefl, one, highest, contains, elems,
    contains-elems, alpha, num_vars,
  }

  not_less_trans :
      (a b c : Double) → is_less a b ≡ false → is_less b c ≡ false → is_less a c ≡ false
  not_less_trans a b c h k = ground (arith, less_compare a b c)

  -- One turn of the loop.
  abbrev turn : ℕ → Set → ℕ → ℕ × Double → ℕ × Double
  turn target cmb y best =
      let pv_y = p_value w target y cmb in if is_less pv_y best.1 then (y, pv_y) else best

  turn_le :
      (target : ℕ) (cmb : Set) (y : ℕ) (best : ℕ × Double)
      → (is_less best.1 (turn target cmb y best).1 ≡ false)
        × (is_less (p_value w target y cmb) (turn target cmb y best).1 ≡ false)
  turn_le target cmb y best =
      let pv = p_value w target y cmb in
      ground (arith, less_irrefl best.1, less_irrefl pv, less_trans pv best.1 pv)

  pick_loop_le :
      (target : ℕ) (cmb : Set) (ys : List ℕ) (best : ℕ × Double)
      → is_less best.1 (pick_loop w target cmb ys best).1 ≡ false
  unfolding pick_loop
  pick_loop_le target cmb [] best = less_irrefl best.1
  pick_loop_le target cmb (y ∷ ys) best =
      let best' = turn target cmb y best in
      not_less_trans best.1 best'.1 (pick_loop w target cmb ys best').1
        (turn_le target cmb y best).0 (pick_loop_le target cmb ys best')

  pick_loop_least :
      (target : ℕ) (cmb : Set) (ys : List ℕ) (best : ℕ × Double) (z : ℕ)
      → mem z ys ≡ true
      → is_less (p_value w target z cmb) (pick_loop w target cmb ys best).1 ≡ false
  unfolding pick_loop
  pick_loop_least target cmb [] best z m = absurd (ground arith)
  pick_loop_least target cmb (y ∷ ys) best z m =
      let best' = turn target cmb y best in
      elim (Bool-cases (z == y)) [
        | inl e ↦ rw (==_eq z y e) (
            not_less_trans (p_value w target y cmb) best'.1 (pick_loop w target cmb ys best').1
              (turn_le target cmb y best).1 (pick_loop_le target cmb ys best'))
        | inr e ↦ pick_loop_least target cmb ys best' z (ground arith)
      ]

  pick_step :
      (target : ℕ) (cmb : Set) (y : ℕ) (ys : List ℕ) (best : ℕ × Double)
      → pick_loop w target cmb (y ∷ ys) best ≡ pick_loop w target cmb ys (turn target cmb y best)
  unfolding pick_loop
  pick_step target cmb y ys best = refl

  -- Either no variable was better than the first best, or a member of the list was picked.
  Reached : ℕ → Set → List ℕ → ℕ × Double → ℕ × Double → Type 0
  Reached target cmb ys best end =
      (end ≡ best) ⊎ ((mem end.0 ys ≡ true) × (end.1 ≡ p_value w target end.0 cmb))

  pick_loop-Reached :
      (target : ℕ) (cmb : Set) (ys : List ℕ) (best : ℕ × Double)
      → Reached target cmb ys best (pick_loop w target cmb ys best)
  unfolding pick_loop Reached
  pick_loop-Reached target cmb [] best = inl refl
  pick_loop-Reached target cmb (y ∷ ys) best =
      let best' = turn target cmb y best in
      let end = pick_loop w target cmb ys best' in
      elim (pick_loop-Reached target cmb ys best') [
        | inr (m, e) ↦ inr (ground arith, e)
        | inl f ↦ elim (Bool-cases (is_less (p_value w target y cmb) best.1)) [
          | inl e ↦
              let here : best' ≡ (y, p_value w target y cmb) = rw e refl in
              inr (rw (f ∙ here) (ground (arith, ==_refl y), refl))
          | inr e ↦ let here : best' ≡ best = rw e refl in inl (f ∙ here)
        ]
      ]

  -- pickBestCandidate, for all candidates: the picked p-value is the least.
  pub pick_best_candidate-least :
      (target : ℕ) (candidates cmb : Set) (z : ℕ)
      → contains candidates z ≡ true
      → (contains candidates (pick_best_candidate w target candidates cmb).0 ≡ true)
        × ((pick_best_candidate w target candidates cmb).1
            ≡ p_value w target (pick_best_candidate w target candidates cmb).0 cmb)
        × (is_less (p_value w target z cmb) (pick_best_candidate w target candidates cmb).1 ≡ false)
  unfolding pick_best_candidate Reached
  pick_best_candidate-least target candidates cmb z h =
      let start : ℕ × Double = (num_vars, highest) in
      let end = pick_loop w target cmb (elems candidates) start in
      let least =
        pick_loop_least target cmb (elems candidates) start z
          (ground (arith, contains-elems candidates z)) in
      elim (pick_loop-Reached target cmb (elems candidates) start) [
        | inl e ↦
            let top = rw e at least in absurd (ground (arith, p_value-less-highest w target z cmb))
        | inr (m, e) ↦ (sym (contains-elems candidates end.0) ∙ m, e, least)
      ]

  pub pick_best_candidate-PickSpec : PickSpec w (pick_best_candidate w)
  pick_best_candidate-PickSpec = record {
    picked = λ target candidates cmb z h d.
        let (m, e, _) = pick_best_candidate-least target candidates cmb z h in (m, rw (← e) d);
    exhausted = λ target candidates cmb y d h.
        let (_, _, least) = pick_best_candidate-least target candidates cmb y h in
        let pv = p_value w target y cmb in
        let best = (pick_best_candidate w target candidates cmb).1 in
        ground (arith, less_compare alpha pv best);
  }

  abbrev FirstPick : ℕ → Set → List ℕ → ℕ × Double → Type 0
  FirstPick target cmb ys end =
      ((end ≡ (num_vars, one))
        × ((z : ℕ) → mem z ys ≡ true → is_independent_given w alpha target z cmb ≡ true))
      ⊎ ((mem end.0 ys ≡ true)
          × (end.1 ≡ p_value w target end.0 cmb)
          × (is_independent w alpha end.1 ≡ false))

  first_step_found :
      (target : ℕ) (cmb : Set) (y : ℕ) (ys : List ℕ)
      → is_independent w alpha (p_value w target y cmb) ≡ false
      → pick_first_loop w target cmb (y ∷ ys) ≡ (y, p_value w target y cmb)
  unfolding pick_first_loop
  first_step_found target cmb y ys e = rw e refl

  first_step_next :
      (target : ℕ) (cmb : Set) (y : ℕ) (ys : List ℕ)
      → is_independent w alpha (p_value w target y cmb) ≡ true
      → pick_first_loop w target cmb (y ∷ ys) ≡ pick_first_loop w target cmb ys
  unfolding pick_first_loop
  first_step_next target cmb y ys e = rw e refl

  pick_first_loop_lem :
      (target : ℕ) (cmb : Set) (ys : List ℕ)
      → FirstPick target cmb ys (pick_first_loop w target cmb ys)
  unfolding pick_first_loop
  pick_first_loop_lem target cmb [] = inl (refl, λ z m. absurd (ground arith))
  pick_first_loop_lem target cmb (y ∷ ys) =
      elim (Bool-cases (is_independent w alpha (p_value w target y cmb))) [
        | inr e ↦
            subst (FirstPick target cmb (y ∷ ys)) (sym (first_step_found target cmb y ys e))
              (inr (ground (arith, ==_refl y), refl, e))
        | inl e ↦
            subst (FirstPick target cmb (y ∷ ys)) (sym (first_step_next target cmb y ys e))
              (elim (pick_first_loop_lem target cmb ys) [
                | inl (f, all) ↦ inl (
                  f,
                  λ z m. elim (Bool-cases (z == y)) [
                    | inl q ↦ rw (==_eq z y q) e
                    | inr q ↦ all z (ground arith)
                  ],
                )
                | inr (m, f, d) ↦ inr (ground arith, f, d)
              ])
      ]

  -- GS::pickBestCandidate; when no candidate is dependent, the returned 1.0 is not below alpha
  -- unless alpha is at least 1, and then every candidate would have been dependent.
  pub pick_first_candidate-PickSpec : PickSpec w (pick_first_candidate w)
  unfolding pick_first_candidate
  pick_first_candidate-PickSpec = record {
    picked = λ target candidates cmb z h d.
        let end = pick_first_loop w target cmb (elems candidates) in
        elim (pick_first_loop_lem target cmb (elems candidates)) [
          | inl (e, all) ↦
              let free = all z (ground (arith, contains-elems candidates z)) in
              let top : is_independent w alpha one ≡ false =
                ap (λ p. is_independent w alpha p.1) (sym e) ∙ d in
              absurd (
                ground (
                  arith,
                  p_value-le-one w target z cmb,
                  less_compare alpha one (p_value w target z cmb),
                ))
          | inr (m, e, f) ↦ (sym (contains-elems candidates end.0) ∙ m, rw (← e) f)
        ];
    exhausted = λ target candidates cmb y d h.
        elim (pick_first_loop_lem target cmb (elems candidates)) [
          | inl (e, all) ↦ all y (ground (arith, contains-elems candidates y))
          | inr (m, e, f) ↦ absurd (ground arith)
        ];
  }
