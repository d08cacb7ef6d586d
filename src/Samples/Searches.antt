-- ===== src/Samples/Searches.antt =====
-- Examples of the searches over conditioning sets.
use ram_ble.Base.{ℕ, ◌≡◌, ◌↔◌, refl, true, false, arith, List, [], ◌∷◌, ltb}
use ram_ble.Setting.Gaps.Instance.{percent_cap}
use ram_ble.Setting.Gaps.{subsets, contains}
use ram_ble.DiscreteData.{
  p_value, max_double, is_independent, is_independent_given, is_independent_any_subset,
  is_independent_any_seeded, max_p_value_subset,
}
use ram_ble.DiscreteData.AnySubset.{Separates, any_subset_iff}
use ram_ble.DiscreteData.MaxSubset.{max_subset_found, max_subset_exhausted}
use ram_ble.DiscreteData.Seeded.{SeparatesWith, any_seeded_iff}
use ram_ble.Samples.{three, chain, only_one}

-- In the chain, {1} separates 0 from 2.
chain_separated : is_independent_any_subset chain 5 0 2 only_one 2 0 ≡ true
unfolding is_independent_any_subset p_value subsets max_double contains percent_cap
chain_separated = refl

any_subset_iff_example :
    (is_independent_any_subset chain 5 0 2 only_one 2 0 ≡ true)
    ↔ ((c : List ℕ) × Separates chain 5 0 2 only_one 2 0 c)
any_subset_iff_example = any_subset_iff chain 5 0 2 only_one 2 0

any_seeded_iff_example :
    (is_independent_any_seeded three 5 0 2 only_one [] 2 ≡ true)
    ↔ ((c : List ℕ) × SeparatesWith three 5 0 2 [] only_one 2 c)
any_seeded_iff_example = any_seeded_iff three 5 0 2 [] only_one 2

chain_value : is_independent chain 5 (max_p_value_subset chain 5 0 2 only_one 2 0).0 ≡ true
unfolding max_p_value_subset p_value subsets contains percent_cap
chain_value = refl

max_subset_found_example :
    let best = max_p_value_subset chain 5 0 2 only_one 2 0 in
    (best.0 ≡ p_value chain 0 2 best.1) × Separates chain 5 0 2 only_one 2 0 best.1
max_subset_found_example = max_subset_found chain 5 0 2 only_one 2 0 chain_value

-- No subset of {2} separates 0 from 1 in the chain.
chain_dependent : is_independent chain 5 (max_p_value_subset chain 5 0 1 (2 ∷ []) 2 0).0 ≡ false
unfolding max_p_value_subset p_value subsets percent_cap
chain_dependent = refl

max_subset_exhausted_example :
    (ltb (max_p_value_subset chain 5 0 1 (2 ∷ []) 2 0).0 (p_value chain 0 1 (2 ∷ [])) ≡ false)
    × (is_independent_given chain 5 0 1 (2 ∷ []) ≡ false)
max_subset_exhausted_example =
    max_subset_exhausted chain 5 0 1 (2 ∷ []) 2 0 (2 ∷ []) chain_dependent (λ x h. h) (omega arith)
      (omega arith)
