-- ===== src/DiscreteData.antt =====
-- detail/DiscreteData.hpp: p-values and tests of conditional independence over the subsets of a
-- conditioning set, with their early exits.
pub mod Order
pub mod AnySubset
pub mod MaxSubset
pub mod Seeded
pub mod Names
use ram_ble.Base.{
  ℕ, zero, suc, ◌+◌, ◌-◌, Bool, true, false, not, ◌||◌, List, [], ◌∷◌, ◌++◌, map, min,
  if◌then◌else◌, ◌==◌,
}
use ram_ble.Setting.{Setting}

module _ (w : Setting) where
  open w use {
    Double, is_less, one, lowest, is_zero, Set, set_init, size, set_union, subsets, num_vars,
    g_square, upper_tail,
  }

  unfoldable pub p_value : ℕ → ℕ → Set → Double
  p_value x y given =
      let (df, statistic) = g_square x y given in
      if is_zero statistic then one else upper_tail df statistic

  -- isIndependent(alpha, pv)
  abbrev pub is_independent : Double → Double → Bool
  is_independent alpha pv = is_less alpha pv

  -- isIndependent(alpha, x, y, given)
  abbrev pub is_independent_given : Double → ℕ → ℕ → Set → Bool
  is_independent_given alpha x y given = is_independent alpha (p_value x y given)

  -- std::max
  unfoldable pub max_double : Double → Double → Double
  max_double a b = if is_less a b then b else a

  module _ (alpha : Double) (x y : ℕ) where
    -- The inner loop of maxPValue over the conditions of one size.
    unfoldable pub max_over : List Set → Double → Double
    max_over [] max_pv = max_pv
    max_over (condition ∷ rest) max_pv =
        let max_pv' = max_double (p_value x y condition) max_pv in
        let next = max_over rest max_pv' in if is_independent alpha max_pv' then max_pv' else next

    -- The outer loop: `rounds` sizes from i on.
    unfoldable pub max_sizes : ℕ → ℕ → Set → Double → Double
    unfolding max_over
    max_sizes zero i given max_pv = max_pv
    max_sizes (suc rounds) i given max_pv =
        let next = max_sizes rounds (i + 1) given (max_over (subsets given i) max_pv) in
        if is_independent alpha max_pv then max_pv else next

    unfoldable pub max_p_value : Set → ℕ → ℕ → Double
    unfolding max_sizes
    max_p_value given max_size min_size =
        max_sizes (min (size given) max_size + 1 - min_size) min_size given lowest

    unfoldable pub is_independent_any_subset : Set → ℕ → ℕ → Bool
    unfolding max_p_value
    is_independent_any_subset given max_size min_size =
        is_independent alpha (max_p_value given max_size min_size)

    -- The outer loop of maxPValue with a seed: every condition is joined with the seed.
    unfoldable pub seeded_sizes : ℕ → ℕ → Set → Set → Double → Double
    unfolding max_over
    seeded_sizes zero i given seed max_pv = max_pv
    seeded_sizes (suc rounds) i given seed max_pv =
        let conditions = map (λ condition. set_union condition seed) (subsets given i) in
        let next = seeded_sizes rounds (i + 1) given seed (max_over conditions max_pv) in
        if is_independent alpha max_pv then max_pv else next

    unfoldable pub max_p_value_seeded : Set → Set → ℕ → Double
    unfolding seeded_sizes
    max_p_value_seeded given seed max_size =
        let max_pv = p_value x y seed in
        let next = seeded_sizes (min (size given) max_size) 1 given seed max_pv in
        if not (is_independent alpha max_pv || size given == 0) then next else max_pv

    unfoldable pub is_independent_any_seeded : Set → Set → ℕ → Bool
    unfolding max_p_value_seeded
    is_independent_any_seeded given seed max_size =
        is_independent alpha (max_p_value_seeded given seed max_size)

    unfoldable pub improve : Double × Set → Set → Double × Set
    improve best condition =
        let pv = p_value x y condition in if is_less best.0 pv then (pv, condition) else best

    -- The loops of maxPValueSubset, which keep the condition of the greatest p-value.
    unfoldable pub best_over : List Set → Double × Set → Double × Set
    unfolding improve
    best_over [] best = best
    best_over (condition ∷ rest) best =
        let best' = improve best condition in
        let next = best_over rest best' in if is_independent alpha best'.0 then best' else next

    unfoldable pub best_sizes : ℕ → ℕ → Set → Double × Set → Double × Set
    unfolding best_over
    best_sizes zero i given best = best
    best_sizes (suc rounds) i given best =
        let next = best_sizes rounds (i + 1) given (best_over (subsets given i) best) in
        if is_independent alpha best.0 then best else next

    unfoldable pub max_p_value_subset : Set → ℕ → ℕ → Double × Set
    unfolding best_sizes
    max_p_value_subset given max_size min_size =
        best_sizes (min (size given) max_size + 1 - min_size) min_size given
          (lowest, set_init num_vars)
