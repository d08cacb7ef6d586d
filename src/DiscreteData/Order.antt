-- ===== src/DiscreteData/Order.antt =====
-- The order of p-values, and the reference list of all conditions that a search may test.
use ram_ble.Base.{
  ℕ, zero, suc, ◌+◌, ◌≤◌, ◌<◌, ◌≡◌, inl, inr, true, false, ◌||◌, List, [], ◌++◌, arith, any,
  any-append, Bool-cases, ap, ◌==◌, ==_eq,
}
use ram_ble.Setting.{Setting}
use ram_ble.Setting.Facts.{Within}
use ram_ble.DiscreteData.{p_value, is_independent, max_double}

module _ (w : Setting) where
  open w use {
    Double, Set, is_less, less_trans, less_compare, set_eq, subsets, one, highest, one-less-highest,
    upper_tail_le_one, g_square, less_irrefl, size, subsets_within,
  }

  -- The greater of two values exceeds a bound exactly when one of them does.
  pub is_independent-max :
      (alpha a b : Double)
      → is_independent w alpha (max_double w a b)
        ≡ (is_independent w alpha a || is_independent w alpha b)
  unfolding max_double
  is_independent-max alpha a b = ground (arith, less_trans alpha a b, less_compare alpha a b)

  -- A p-value is a probability.
  pub p_value-le-one : (x y : ℕ) (c : Set) → is_less one (p_value w x y c) ≡ false
  unfolding p_value
  p_value-le-one x y c =
      ground (arith, less_irrefl one, upper_tail_le_one (g_square x y c).0 (g_square x y c).1)

  pub p_value-less-highest : (x y : ℕ) (c : Set) → is_less (p_value w x y c) highest ≡ true
  p_value-less-highest x y c =
      ground
        (arith, p_value-le-one x y c, less_compare one (p_value w x y c) highest one-less-highest)

  -- All conditions of `rounds` sizes from i on.
  abbrev pub conditions : Set → ℕ → ℕ → List Set
  conditions given zero i = []
  conditions given (suc rounds) i = subsets given i ++ conditions given rounds (i + 1)

  pub any-conditions :
      (given c : Set) (rounds i k : ℕ)
      → i ≤ k
      → k < i + rounds
      → any (set_eq c) (subsets given k) ≡ true
      → any (set_eq c) (conditions given rounds i) ≡ true
  any-conditions given c zero i k h l m = absurd (omega arith)
  any-conditions given c (suc rounds) i k h l m = elim (Bool-cases (i == k)) [
    | inl e ↦
        let same : any (set_eq c) (subsets given i) ≡ any (set_eq c) (subsets given k) =
          ap (λ n. any (set_eq c) (subsets given n)) (==_eq i k e) in
        ground (arith, any-append (set_eq c) (subsets given i) (conditions given rounds (i + 1)))
    | inr e ↦ ground (
      arith,
      any-append (set_eq c) (subsets given i) (conditions given rounds (i + 1)),
      any-conditions given c rounds (i + 1) k,
    )
  ]

  pub conditions-Within :
      (given c : Set) (rounds i : ℕ)
      → any (set_eq c) (conditions given rounds i) ≡ true
      → Within w c given × (i ≤ size c) × (size c < i + rounds)
  conditions-Within given c zero i m = cc
  conditions-Within given c (suc rounds) i m =
      elim (Bool-cases (any (set_eq c) (subsets given i))) [
        | inl e ↦ let (inside, n) = subsets_within given i c e in (inside, omega arith, omega arith)
        | inr e ↦
            let (inside, low, high) = conditions-Within given c rounds (i + 1) (
              ground (
                arith,
                any-append (set_eq c) (subsets given i) (conditions given rounds (i + 1)),
              )) in
            (inside, omega arith, omega arith)
      ]
