-- ===== src/DiscreteData/AnySubset.antt =====
-- maxPValue and isIndependentAnySubset: the early exits do not change the answer, and the answer
-- says whether some subset of admissible size separates the two variables.
use ram_ble.Base.{
  ℕ, zero, suc, ◌+◌, ◌-◌, ◌≤◌, ◌≡◌, ◌↔◌, ◌∙◌, sym, true, ◌||◌, List, [], ◌∷◌, arith, any,
  any-append, min,
}
use ram_ble.Setting.{Setting}
use ram_ble.Setting.Facts.{Within, any_set, any_of_set, size_le}
use ram_ble.DiscreteData.{
  p_value, is_independent, is_independent_given, max_double, max_over, max_sizes,
  is_independent_any_subset,
}
use ram_ble.DiscreteData.Order.{is_independent-max, conditions, any-conditions, conditions-Within}

module _ (w : Setting) (alpha : w.Double) (x y : ℕ) where
  open w use {Double, Set, size, subsets, subsets_complete, lowest, less-lowest, set_eq}

  pub is_independent-max_over :
      (cs : List Set) (m : Double)
      → is_independent w alpha (max_over w alpha x y cs m)
        ≡ (is_independent w alpha m || any (is_independent_given w alpha x y) cs)
  unfolding max_over
  is_independent-max_over [] m = ground arith
  is_independent-max_over (c ∷ cs) m = ground (
    arith,
    is_independent-max w alpha (p_value w x y c) m,
    is_independent-max_over cs (max_double w (p_value w x y c) m),
  )

  is_independent-max_sizes :
      (rounds i : ℕ) (given : Set) (m : Double)
      → is_independent w alpha (max_sizes w alpha x y rounds i given m) ≡ (
          is_independent w alpha m
          || any (is_independent_given w alpha x y) (conditions w given rounds i))
  unfolding max_sizes
  is_independent-max_sizes zero i given m = ground arith
  is_independent-max_sizes (suc rounds) i given m = ground (
    arith,
    is_independent-max_over (subsets given i) m,
    any-append (is_independent_given w alpha x y) (subsets given i)
        (conditions w given rounds (i + 1)),
    is_independent-max_sizes rounds (i + 1) given (max_over w alpha x y (subsets given i) m),
  )

  -- The search answers as one that conducts every test.
  pub any_subset-conditions :
      (given : Set) (max_size min_size : ℕ)
      → is_independent_any_subset w alpha x y given max_size min_size
        ≡ any
            (is_independent_given w alpha x y)
            (conditions w given (min (size given) max_size + 1 - min_size) min_size)
  unfolding is_independent_any_subset
  any_subset-conditions given max_size min_size = ground (
    arith,
    is_independent-max_sizes (min (size given) max_size + 1 - min_size) min_size given lowest,
    less-lowest alpha,
  )

  -- A subset of admissible size, given which the two variables are found independent.
  abbrev pub Separates : Set → ℕ → ℕ → Set → Type 0
  Separates given max_size min_size c =
      Within w c given
      × (min_size ≤ size c)
      × (size c ≤ max_size)
      × (is_independent_given w alpha x y c ≡ true)

  -- isIndependentAnySubset returns true exactly when some subset c of the conditioning set, with
  -- minSize ≤ |c| ≤ maxSize, has a p-value above alpha; the early exits lose no subset.
  pub any_subset_iff :
      (given : Set) (max_size min_size : ℕ)
      → (is_independent_any_subset w alpha x y given max_size min_size ≡ true)
        ↔ ((c : Set) × Separates given max_size min_size c)
  any_subset_iff given max_size min_size = (sound, complete)
    where
      rounds : ℕ
      rounds = min (size given) max_size + 1 - min_size

      sound :
          is_independent_any_subset w alpha x y given max_size min_size ≡ true
          → (c : Set) × Separates given max_size min_size c
      sound h =
          let (c, p, m) =
            any_set w (is_independent_given w alpha x y) (conditions w given rounds min_size)
              (sym (any_subset-conditions given max_size min_size) ∙ h) in
          let (inside, low, high) = conditions-Within w given c rounds min_size m in
          (c, (inside, low, omega arith, p))

      complete :
          (c : Set) × Separates given max_size min_size c
          → is_independent_any_subset w alpha x y given max_size min_size ≡ true
      complete (c, (inside, low, high, p)) =
          any_subset-conditions given max_size min_size
          ∙ any_of_set w (is_independent_given w alpha x y) (conditions w given rounds min_size) c p
              (any-conditions w given c rounds min_size (size c) low
                (omega (arith, size_le w c given inside)) (subsets_complete given c inside))
