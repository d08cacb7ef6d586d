-- ===== src/DiscreteData/MaxSubset.antt =====
-- maxPValueSubset: the value and the set that it returns.
use ram_ble.Base.{
  ℕ, zero, suc, ◌+◌, ◌-◌, ◌≤◌, ◌<◌, ◌≡◌, ◌⊎◌, refl, Bool, true, false, List, [], ◌∷◌, arith, any,
  any-append, min, Bool-cases, inl, inr,
}
use ram_ble.Setting.{Setting}
use ram_ble.Setting.Facts.{Within, any_of_set, size_le}
use ram_ble.DiscreteData.{
  p_value, is_independent, is_independent_given, improve, best_over, best_sizes, max_p_value_subset,
}
use ram_ble.DiscreteData.Order.{conditions, any-conditions}
use ram_ble.DiscreteData.AnySubset.{Separates}

module _ (w : Setting) (alpha : w.Double) (x y : ℕ) where
  open w use {
    Double, Set, is_less, less_trans, less_irrefl, less_compare, size, subsets, subsets_within,
    subsets_complete, lowest, less-lowest, set_eq, set_eq_iff, set_init, num_vars,
  }

  -- Nothing tested yet, or the value is the p-value of the set, which satisfies Q.
  abbrev IsBest : (Set → Type 0) → Double × Set → Type 0
  IsBest Q b = (b.0 ≡ lowest) ⊎ ((b.0 ≡ p_value w x y b.1) × Q b.1)

  IsBest-improve :
      (Q : Set → Type 0) (b : Double × Set) (c : Set)
      → Q c
      → IsBest Q b
      → IsBest Q (improve w alpha x y b c)
  unfolding improve
  IsBest-improve Q b c q h = elim (Bool-cases (is_less b.0 (p_value w x y c))) [
    | inl e ↦ rw e (inr (refl, q))
    | inr e ↦ rw e h
  ]

  not-less-improve :
      (b : Double × Set) (c : Set)
      → (is_less (improve w alpha x y b c).0 b.0 ≡ false)
        × (is_less (improve w alpha x y b c).0 (p_value w x y c) ≡ false)
  unfolding improve
  not-less-improve b c =
      let pv = p_value w x y c in
      ground (arith, less_irrefl b.0, less_irrefl pv, less_trans b.0 pv b.0)

  IsBest-best_over :
      (Q : Set → Type 0) (cs : List Set) (b : Double × Set)
      → ((c : Set) → any (set_eq c) cs ≡ true → Q c)
      → IsBest Q b
      → IsBest Q (best_over w alpha x y cs b)
  unfolding best_over
  IsBest-best_over Q [] b all h = h
  IsBest-best_over Q (c ∷ cs) b all h =
      let b' = improve w alpha x y b c in
      let h' = IsBest-improve Q b c (all c (ground (arith, set_eq_iff c c))) h in
      elim (Bool-cases (is_independent w alpha b'.0)) [
        | inl e ↦ rw e h'
        | inr e ↦ rw e (IsBest-best_over Q cs b' (λ d m. all d (ground arith)) h')
      ]

  IsBest-best_sizes :
      (Q : Set → Type 0) (rounds i : ℕ) (given : Set) (b : Double × Set)
      → ((k : ℕ) (c : Set) → i ≤ k → k < i + rounds → any (set_eq c) (subsets given k) ≡ true → Q c)
      → IsBest Q b
      → IsBest Q (best_sizes w alpha x y rounds i given b)
  unfolding best_sizes
  IsBest-best_sizes Q zero i given b all h = h
  IsBest-best_sizes Q (suc rounds) i given b all h =
      let b' = best_over w alpha x y (subsets given i) b in
      let h' =
        IsBest-best_over Q (subsets given i) b (λ c. all i c (omega arith) (omega arith)) h in
      elim (Bool-cases (is_independent w alpha b.0)) [
        | inl e ↦ rw e h
        | inr e ↦ rw e (
            IsBest-best_sizes Q rounds (i + 1) given b'
              (λ k c low high. all k c (omega arith) (omega arith)) h')
      ]

  not_less_trans :
      (a b c : Double) → is_less a b ≡ false → is_less b c ≡ false → is_less a c ≡ false
  not_less_trans a b c h k = ground (arith, less_compare a b c)

  any_none :
      (p q : Set → Bool) (cs : List Set)
      → ((c : Set) → p c ≡ false → q c ≡ false)
      → any p cs ≡ false
      → any q cs ≡ false
  any_none p q [] k h = refl
  any_none p q (c ∷ cs) k h = ground (arith, k c, any_none p q cs k)

  -- A search that finds no independence has seen every set, and returns no less than each.
  best_over-bounds :
      (cs : List Set) (b : Double × Set) (r : Double)
      → (best_over w alpha x y cs b).0 ≡ r
      → is_independent w alpha r ≡ false
      → (is_less r b.0 ≡ false) × (any (λ c. is_less r (p_value w x y c)) cs ≡ false)
  unfolding best_over
  best_over-bounds [] b r e h = (rw e (less_irrefl r), refl)
  best_over-bounds (c ∷ cs) b r e h =
      let b' = improve w alpha x y b c in
      elim (Bool-cases (is_independent w alpha b'.0)) [
        | inl f ↦ let same : b'.0 ≡ r = rw f at e in absurd (ground arith)
        | inr f ↦
            let (low, rest) = best_over-bounds cs b' r (rw f at e) h in
            let (low_b, low_c) = not-less-improve b c in
            (
              not_less_trans r b'.0 b.0 low low_b,
              rw (not_less_trans r b'.0 (p_value w x y c) low low_c) rest,
            )
      ]

  best_sizes-bounds :
      (rounds i : ℕ) (given : Set) (b : Double × Set) (r : Double)
      → (best_sizes w alpha x y rounds i given b).0 ≡ r
      → is_independent w alpha r ≡ false
      → (is_less r b.0 ≡ false)
        × (any (λ c. is_less r (p_value w x y c)) (conditions w given rounds i) ≡ false)
  unfolding best_sizes
  best_sizes-bounds zero i given b r e h = (rw e (less_irrefl r), refl)
  best_sizes-bounds (suc rounds) i given b r e h =
      let b' = best_over w alpha x y (subsets given i) b in
      elim (Bool-cases (is_independent w alpha b.0)) [
        | inl f ↦ let same : b.0 ≡ r = rw f at e in absurd (ground arith)
        | inr f ↦
            let (low, rest) = best_sizes-bounds rounds (i + 1) given b' r (rw f at e) h in
            let below : is_independent w alpha b'.0 ≡ false = not_less_trans alpha r b'.0 h low in
            let (low_b, here) = best_over-bounds (subsets given i) b b'.0 refl below in
            (
              not_less_trans r b'.0 b.0 low low_b,
              ground (
                arith,
                any-append (λ c. is_less r (p_value w x y c)) (subsets given i)
                    (conditions w given rounds (i + 1)),
                any_none (λ c. is_less b'.0 (p_value w x y c)) (λ c. is_less r (p_value w x y c))
                    (subsets given i) (λ c. not_less_trans r b'.0 (p_value w x y c) low) here,
              ),
            )
      ]

  max_subset_cases :
      (given : Set) (max_size min_size : ℕ)
      → let best = max_p_value_subset w alpha x y given max_size min_size in
        (is_independent w alpha best.0 ≡ true
          → (best.0 ≡ p_value w x y best.1) × Separates w alpha x y given max_size min_size best.1)
        × (is_independent w alpha best.0 ≡ false
            → (c : Set) → Within w c given
            → min_size ≤ size c
            → size c ≤ max_size
            → (is_less best.0 (p_value w x y c) ≡ false)
              × (is_independent_given w alpha x y c ≡ false))
  unfolding max_p_value_subset
  max_subset_cases given max_size min_size = (found, exhausted)
    where
      rounds : ℕ
      rounds = min (size given) max_size + 1 - min_size

      best : Double × Set
      best = max_p_value_subset w alpha x y given max_size min_size

      admissible : Set → Type 0
      admissible c = Within w c given × (min_size ≤ size c) × (size c ≤ max_size)

      start : Double × Set
      start = (lowest, set_init num_vars)

      reached : IsBest admissible best
      reached =
          IsBest-best_sizes admissible rounds min_size given start
            (λ k c low high m.
              let (inside, n) = subsets_within given k c m in (inside, omega arith, omega arith))
            (inl refl)

      found :
          is_independent w alpha best.0 ≡ true
          → (best.0 ≡ p_value w x y best.1) × Separates w alpha x y given max_size min_size best.1
      found h = elim reached [
        | inl e ↦ absurd (ground (arith, less-lowest alpha))
        | inr (e, q) ↦ (e, (q.0, q.1, q.2, rw (← e) h))
      ]

      exhausted :
          is_independent w alpha best.0 ≡ false
          → (c : Set) → Within w c given
          → min_size ≤ size c
          → size c ≤ max_size
          → (is_less best.0 (p_value w x y c) ≡ false)
            × (is_independent_given w alpha x y c ≡ false)
      exhausted h c inside low high =
          let (_, none_greater) = best_sizes-bounds rounds min_size given start best.0 refl h in
          let not_greater : is_less best.0 (p_value w x y c) ≡ false =
            elim (Bool-cases (is_less best.0 (p_value w x y c))) [
              | inl e ↦ absurd (
                  ground (
                    arith,
                    any_of_set w (λ d. is_less best.0 (p_value w x y d))
                        (conditions w given rounds min_size) c e
                        (any-conditions w given c rounds min_size (size c) low
                          (omega (arith, size_le w c given inside))
                          (subsets_complete given c inside)),
                  ))
              | inr e ↦ e
            ] in
          (not_greater, not_less_trans alpha best.0 (p_value w x y c) h not_greater)

  -- maxPValueSubset, when the returned value exceeds alpha: the returned set is a subset of the
  -- conditioning set of admissible size, and the returned value is its p-value.
  pub max_subset_found :
      (given : Set) (max_size min_size : ℕ)
      → is_independent w alpha (max_p_value_subset w alpha x y given max_size min_size).0 ≡ true
      → let best = max_p_value_subset w alpha x y given max_size min_size in
        (best.0 ≡ p_value w x y best.1) × Separates w alpha x y given max_size min_size best.1
  max_subset_found given max_size min_size = (max_subset_cases given max_size min_size).0

  -- maxPValueSubset, when the returned value does not exceed alpha: no subset of the conditioning
  -- set of admissible size has a greater p-value than the one returned, and none separates.
  pub max_subset_exhausted :
      (given : Set) (max_size min_size : ℕ) (c : Set)
      → is_independent w alpha (max_p_value_subset w alpha x y given max_size min_size).0 ≡ false
      → Within w c given
      → min_size ≤ size c
      → size c ≤ max_size
      → (is_less (max_p_value_subset w alpha x y given max_size min_size).0 (p_value w x y c)
          ≡ false)
        × (is_independent_given w alpha x y c ≡ false)
  max_subset_exhausted given max_size min_size c h =
      (max_subset_cases given max_size min_size).1 h c
