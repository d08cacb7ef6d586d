-- ===== src/Base/Lists.antt =====
-- Lists measured by native numbers, and Boolean membership and search.
use Prim.Native.Nat.{ℕ, zero, suc, ◌+◌, ◌≤◌, ◌<◌}
use mathlib.Core.Path.{◌≡◌, refl, ap}
use mathlib.Core.Logic.{inl, inr}
use mathlib.Core.Bool.{Bool, true, false, not, ◌&&◌, ◌||◌}
use mathlib.Core.Option.{Option, none, some}
use mathlib.Core.List.{List, [], ◌∷◌, ◌++◌}
use native.Mathlib.Omega.{arith}
use ram_ble.Base.Tests.{ltb, ◌==◌, if◌then◌else◌, ==_eq, ==_refl, Bool-cases}

module _ {ℓ} {A : Type ℓ} where
  abbrev pub length : List A → ℕ
  length [] = 0
  length (x ∷ xs) = suc (length xs)

  abbrev pub get_elem? : List A → ℕ → Option A
  get_elem? [] i = none
  get_elem? (x ∷ xs) zero = some x
  get_elem? (x ∷ xs) (suc i) = get_elem? xs i

  -- Some element passes the test.
  abbrev pub any : (A → Bool) → List A → Bool
  any p [] = false
  any p (x ∷ xs) = p x || any p xs

  -- The elements that pass the test, in order.
  abbrev pub keep : (A → Bool) → List A → List A
  keep p [] = []
  keep p (x ∷ xs) = if p x then x ∷ keep p xs else keep p xs

  pub any-append : (p : A → Bool) (xs ys : List A) → any p (xs ++ ys) ≡ (any p xs || any p ys)
  any-append p [] ys = refl
  any-append p (x ∷ xs) ys = ground (arith, any-append p xs ys)

  pub length-append : (xs ys : List A) → length (xs ++ ys) ≡ length xs + length ys
  length-append [] ys = omega arith
  length-append (x ∷ xs) ys = omega (arith, length-append xs ys)

  pub length-keep : (p : A → Bool) (xs : List A) → length (keep p xs) ≤ length xs
  length-keep p [] = omega arith
  length-keep p (x ∷ xs) = ground (arith, length-keep p xs)

-- Membership in a list of variables.
abbrev pub mem : ℕ → List ℕ → Bool
mem x [] = false
mem x (y ∷ ys) = x == y || mem x ys

-- Each variable is greater than those before it.
abbrev pub above : ℕ → List ℕ → Bool
above x [] = true
above x (y ∷ ys) = ltb x y && above x ys

abbrev pub ascends : List ℕ → Bool
ascends [] = true
ascends (x ∷ xs) = above x xs && ascends xs

pub above-mem : (x y : ℕ) (xs : List ℕ) → above x xs ≡ true → mem y xs ≡ true → x < y
above-mem x y [] h m = absurd (ground arith)
above-mem x y (z ∷ xs) h m = ground (arith, above-mem x y xs)

-- No variable stands twice.
abbrev pub distinct : List ℕ → Bool
distinct [] = true
distinct (x ∷ xs) = not (mem x xs) && distinct xs

pub mem-append : (x : ℕ) (xs ys : List ℕ) → mem x (xs ++ ys) ≡ (mem x xs || mem x ys)
mem-append x [] ys = refl
mem-append x (y ∷ xs) ys = ground (arith, mem-append x xs ys)

-- The list without the first occurrence of x.
abbrev remove_first : ℕ → List ℕ → List ℕ
remove_first x [] = []
remove_first x (y ∷ ys) = if x == y then ys else y ∷ remove_first x ys

length-remove_first :
    (x : ℕ) (ys : List ℕ) → mem x ys ≡ true → length (remove_first x ys) + 1 ≡ length ys
length-remove_first x [] h = absurd (ground arith)
length-remove_first x (y ∷ ys) h = ground (arith, length-remove_first x ys)

mem-remove_first :
    (x z : ℕ) (ys : List ℕ) → (z == x) ≡ false → mem z ys ≡ true → mem z (remove_first x ys) ≡ true
mem-remove_first x z [] n h = h
mem-remove_first x z (y ∷ ys) n h = ground (arith, mem-remove_first x z ys)

pub ne_of_mem : (z x : ℕ) (xs : List ℕ) → mem z xs ≡ true → mem x xs ≡ false → (z == x) ≡ false
ne_of_mem z x xs m n = elim (Bool-cases (z == x)) [
  | inl e ↦ let same : mem z xs ≡ mem x xs = ap (λ t. mem t xs) (==_eq z x e) in cc
  | inr e ↦ e
]

-- A list of distinct variables that all stand in another list is no longer than that.
pub length_le_of_mem :
    (xs ys : List ℕ)
    → distinct xs ≡ true
    → ((z : ℕ) → mem z xs ≡ true → mem z ys ≡ true)
    → length xs ≤ length ys
length_le_of_mem [] ys d h = omega arith
length_le_of_mem (x ∷ xs) ys d h =
    let here : mem x ys ≡ true = h x (ground arith) in
    let inner : (z : ℕ) → mem z xs ≡ true → mem z (remove_first x ys) ≡ true =
      λ z m. mem-remove_first x z ys (ne_of_mem z x xs m (ground arith)) (h z (ground arith)) in
    omega (
      arith,
      length_le_of_mem xs (remove_first x ys) (ground arith) inner,
      length-remove_first x ys here,
    )

-- A variable of the list that passes the test.
pub any-mem :
    (p : ℕ → Bool) (xs : List ℕ) → any p xs ≡ true → (x : ℕ) × (p x ≡ true) × (mem x xs ≡ true)
any-mem p [] h = absurd (ground arith)
any-mem p (x ∷ xs) h = elim (Bool-cases (p x)) [
  | inl e ↦ (x, e, ground (arith, ==_refl x))
  | inr e ↦ let (y, py, m) = any-mem p xs (ground arith) in (y, py, ground arith)
]

pub any_of_mem :
    (p : ℕ → Bool) (xs : List ℕ) (x : ℕ) → p x ≡ true → mem x xs ≡ true → any p xs ≡ true
any_of_mem p [] x px m = absurd (ground arith)
any_of_mem p (y ∷ ys) x px m = elim (Bool-cases (x == y)) [
  | inl e ↦ let same : p x ≡ p y = ap p (==_eq x y e) in ground arith
  | inr e ↦ ground (arith, any_of_mem p ys x px)
]

-- A predicate of every element.
abbrev pub All {ℓ κ} : {A : Type ℓ} → (A → Type κ) → List A → Type κ
All P [] = Unit
All P (x ∷ xs) = P x × All P xs

pub All-append {ℓ κ} :
    {A : Type ℓ} (P : A → Type κ) (xs ys : List A) → All P xs → All P ys → All P (xs ++ ys)
All-append P [] ys h k = k
All-append P (x ∷ xs) ys (h, hs) k = (h, All-append P xs ys hs k)

pub All-keep {ℓ κ} :
    {A : Type ℓ} (P : A → Type κ) (p : A → Bool) (xs : List A) → All P xs → All P (keep p xs)
All-keep P p [] h = tt
All-keep P p (x ∷ xs) (h, hs) = elim (Bool-cases (p x)) [
  | inl e ↦ rw e (h, All-keep P p xs hs)
  | inr e ↦ rw e (All-keep P p xs hs)
]

pub All-of_mem {ℓ} : (P : ℕ → Type ℓ) (xs : List ℕ) → ((x : ℕ) → mem x xs ≡ true → P x) → All P xs
All-of_mem P [] h = tt
All-of_mem P (x ∷ xs) h =
    (h x (ground (arith, ==_refl x)), All-of_mem P xs (λ y m. h y (ground arith)))
