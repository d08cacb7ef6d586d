-- ===== src/Setting.antt =====
-- What the learning code uses and does not implement: `double` with its comparisons, the variable
-- sets of common/SetUtils.hpp and common/UintSet.hpp, the counters and boost's chi-squared
-- distribution. Each is a record of operations, with the documented behaviour as laws.
pub mod Gaps
pub mod Facts
use ram_ble.Base.{
  ℕ, ◌<◌, ◌≡◌, ◌↔◌, Bool, true, false, not, ◌&&◌, ◌||◌, List, length, any, mem, distinct, ascends,
  ◌==◌,
}

-- `double` without NaN and infinities: `is_less` is std::isless.
pub record Doubles : Type 1 where
  pub Double : Type 0
  pub is_less : Double → Double → Bool
  pub zero_point : Double
  pub one : Double
  -- std::numeric_limits<double>::lowest() and max()
  pub lowest : Double
  pub highest : Double
  -- std::fpclassify(v) == FP_ZERO
  pub is_zero : Double → Bool
  pub less_irrefl : (a : Double) → is_less a a ≡ false
  pub less_trans : (a b c : Double) → is_less a b ≡ true → is_less b c ≡ true → is_less a c ≡ true
  pub less_compare : (a b c : Double) → is_less a c ≡ true → (is_less a b || is_less b c) ≡ true
  pub less-lowest : (a : Double) → is_less a lowest ≡ false
  pub one-less-highest : is_less one highest ≡ true

-- Sets of variables. `elems` is the order of iteration, `subsets s k` that of Subsets(s, k).
pub record VarSets : Type 1 where
  pub Set : Type 0
  -- set_init(Set(), n)
  pub set_init : ℕ → Set
  pub contains : Set → ℕ → Bool
  pub elems : Set → List ℕ
  pub size : Set → ℕ
  pub insert : ℕ → Set → Set
  pub erase : ℕ → Set → Set
  pub set_union : Set → Set → Set
  pub set_difference : Set → Set → Set
  pub set_intersection : Set → Set → Set
  pub set_eq : Set → Set → Bool
  pub subsets : Set → ℕ → List Set
  pub contains-set_init : (n x : ℕ) → contains (set_init n) x ≡ false
  pub contains-insert :
      (a : ℕ) (s : Set) (x : ℕ) → contains (insert a s) x ≡ (x == a || contains s x)
  pub contains-erase :
      (a : ℕ) (s : Set) (x : ℕ) → contains (erase a s) x ≡ (not (x == a) && contains s x)
  pub contains-union :
      (s t : Set) (x : ℕ) → contains (set_union s t) x ≡ (contains s x || contains t x)
  pub contains-difference :
      (s t : Set) (x : ℕ) → contains (set_difference s t) x ≡ (contains s x && not (contains t x))
  pub contains-intersection :
      (s t : Set) (x : ℕ) → contains (set_intersection s t) x ≡ (contains s x && contains t x)
  pub contains-elems : (s : Set) (x : ℕ) → mem x (elems s) ≡ contains s x
  pub elems_ascend : (s : Set) → ascends (elems s) ≡ true
  pub elems_distinct : (s : Set) → distinct (elems s) ≡ true
  pub size-elems : (s : Set) → size s ≡ length (elems s)
  pub set_eq_iff : (s t : Set) → (set_eq s t ≡ true) ↔ (s ≡ t)
  pub set_ext : (s t : Set) → ((x : ℕ) → contains s x ≡ contains t x) → s ≡ t
  pub subsets_within :
      (s : Set) (k : ℕ) (c : Set)
      → any (set_eq c) (subsets s k) ≡ true
      → ((x : ℕ) → contains c x ≡ true → contains s x ≡ true) × (size c ≡ k)
  pub subsets_complete :
      (s c : Set)
      → ((x : ℕ) → contains c x ≡ true → contains s x ≡ true)
      → any (set_eq c) (subsets s (size c)) ≡ true

-- The data of one run: the G-square of the counter, the chi-squared distribution, and the
-- members m_alpha and m_maxConditioning of ConstraintBasedLearning.
pub record Setting : Type 1 where
  pub doubles : Doubles
  pub open doubles use *
  pub sets : VarSets
  pub open sets use *
  -- the value of DiscreteData::numVars(), which casts the number of variables to Var
  pub num_vars : ℕ
  pub alpha : Double
  pub max_conditioning : ℕ
  -- GSquare::compute: degrees of freedom and statistic
  pub g_square : ℕ → ℕ → Set → ℕ × Double
  -- cdf(complement(chi_squared(df), g)), a probability
  pub upper_tail : ℕ → Double → Double
  pub upper_tail_le_one : (df : ℕ) (g : Double) → is_less one (upper_tail df g) ≡ false
