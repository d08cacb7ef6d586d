-- ===== src/DiscreteData/Names.antt =====
-- detail/DiscreteData.hpp: the names of the variables and their indices. Indices are of the type
-- Var, which has `var_mod` values: varIndex counts modulo that.
use native.Mathlib.Nat.{mod-eq_of_lt, mod_self}
use ram_ble.Base.{
  ℕ, zero, suc, ◌+◌, ◌%◌, ◌≤◌, ◌<◌, ◌≡◌, ◌∙◌, ap, Bool, true, false, List, [], ◌∷◌, Option, none,
  some, arith, if◌then◌else◌, length, get_elem?, String, str_eq, str_eq_iff,
}
use ram_ble.Setting.{Setting}

-- varName(x); `none` is the access past the end of m_varNames, which is undefined.
abbrev pub var_name : List String → ℕ → Option String
var_name names x = get_elem? names x

-- varNames(vars) over the elements of the set
unfoldable pub var_names : List String → List ℕ → Option (List String)
var_names names [] = some []
var_names names (x ∷ xs) = elim (var_name names x) [
  | none ↦ none
  | some n ↦ elim (var_names names xs) [ none ↦ none | some ns ↦ some (n ∷ ns) ]
]

-- The loop of varIndex from the index x on.
unfoldable pub index_from : ℕ → String → List String → ℕ → ℕ
index_from var_mod name [] x = x
index_from var_mod name (n ∷ ns) x =
    let next = index_from var_mod name ns ((x + 1) % var_mod) in if str_eq n name then x else next

unfoldable pub var_index : ℕ → List String → String → ℕ
unfolding index_from
var_index var_mod names name = index_from var_mod name names 0

-- varIndices(names); insert with a hint inserts
unfoldable pub var_indices : (w : Setting) → ℕ → List String → List String → w.Set
unfolding var_index
var_indices w var_mod names [] = w.set_init w.num_vars
var_indices w var_mod names (n ∷ ns) =
    w.insert (var_index var_mod names n) (var_indices w var_mod names ns)

-- No name stands twice.
abbrev pub lists : String → List String → Bool
lists name [] = false
lists name (n ∷ ns) = if str_eq n name then true else lists name ns

abbrev pub names_distinct : List String → Bool
names_distinct [] = true
names_distinct (n ∷ ns) = if lists n ns then false else names_distinct ns

lists_of_elem :
    (name : String) (ns : List String) (k : ℕ) → get_elem? ns k ≡ some name → lists name ns ≡ true
lists_of_elem name [] k h = absurd (ground arith)
lists_of_elem name (n ∷ ns) zero h = ground (arith, str_eq_iff n name)
lists_of_elem name (n ∷ ns) (suc k) h = ground (arith, lists_of_elem name ns k h)

index_from_found :
    (var_mod : ℕ) (name : String) (ns : List String) (x k : ℕ)
    → x + length ns ≤ var_mod
    → names_distinct ns ≡ true
    → get_elem? ns k ≡ some name
    → index_from var_mod name ns x ≡ x + k
unfolding index_from
index_from_found var_mod name [] x k l d h = absurd (ground arith)
index_from_found var_mod name (n ∷ ns) x zero l d h = ground (arith, str_eq_iff n name)
index_from_found var_mod name (n ∷ []) x (suc k) l d h = absurd (ground arith)
index_from_found var_mod name (n ∷ m ∷ ns) x (suc k) l d h =
    let fits : x + 1 < var_mod = omega arith in
    let rest = index_from_found var_mod name (m ∷ ns) (x + 1) k (omega arith) (ground arith) h in
    let later = lists_of_elem name (m ∷ ns) k h in
    ground (arith, str_eq_iff n name, mod-eq_of_lt fits)

index_from_absent :
    (var_mod : ℕ) (name : String) (ns : List String) (x : ℕ)
    → x + length ns < var_mod
    → lists name ns ≡ false
    → index_from var_mod name ns x ≡ x + length ns
unfolding index_from
index_from_absent var_mod name [] x l h = omega arith
index_from_absent var_mod name (n ∷ ns) x l h =
    let fits : x + 1 < var_mod = omega arith in
    let rest = index_from_absent var_mod name ns (x + 1) (omega arith) in
    ground (arith, mod-eq_of_lt fits, rest)

-- For names that are distinct, and no more than the type of an index has values, varIndex of the
-- name of a variable is the variable, so that varName and varIndex are inverse to each other.
pub var_index-var_name :
    (var_mod : ℕ) (names : List String) (x : ℕ) (name : String)
    → names_distinct names ≡ true
    → length names ≤ var_mod
    → var_name names x ≡ some name
    → (var_index var_mod names name ≡ x)
      × (var_name names (var_index var_mod names name) ≡ some name)
unfolding var_index
var_index-var_name var_mod names x name d l h =
    let found : var_index var_mod names name ≡ x =
      index_from_found var_mod name names 0 x (omega arith) d h ∙ omega arith in
    (found, ap (var_name names) found ∙ h)

-- The index of a name that is not there is the number of variables, when an index can be as large.
pub var_index-absent :
    (var_mod : ℕ) (names : List String) (name : String)
    → length names < var_mod
    → lists name names ≡ false
    → var_index var_mod names name ≡ length names
unfolding var_index
var_index-absent var_mod names name l h =
    index_from_absent var_mod name names 0 (omega arith) h ∙ omega arith

-- With as many names as an index has values, the index of a missing name wraps to 0.
index_from_wraps :
    (var_mod : ℕ) (name : String) (ns : List String) (x : ℕ)
    → 0 < length ns
    → x + length ns ≡ var_mod
    → lists name ns ≡ false
    → index_from var_mod name ns x ≡ 0
unfolding index_from
index_from_wraps var_mod name [] x p l h = absurd (omega arith)
index_from_wraps var_mod name (n ∷ []) x p l h =
    let last : x + 1 ≡ var_mod = omega arith in ground (arith, last, mod_self var_mod)
index_from_wraps var_mod name (n ∷ m ∷ ns) x p l h =
    let fits : x + 1 < var_mod = omega arith in
    let rest = index_from_wraps var_mod name (m ∷ ns) (x + 1) (omega arith) (omega arith) in
    ground (arith, mod-eq_of_lt fits, rest)
