-- ===== src/CommandLine/Sizes.antt =====
-- learnNetwork of ramble.cpp with the reader: the type of the indices and the size of the sets for
-- the given number of variables. The capacities of UintSet are a parameter.
use ram_ble.Base.{
  ℕ, ◌+◌, ◌-◌, ◌%◌, ◌^◌, ◌≤◌, ◌<◌, ◌≡◌, refl, subst, Bool, List, [], ◌∷◌, Option, none, some,
  if◌then◌else◌, leb, arith, All, Bool-cases, inl, inr,
}

-- UintSet<Var, maxSize<Var>() >> shift>, where Var has `width` bits.
pub record SetSize : Type 0 where
  pub width : ℕ
  pub shift : ℕ

abbrev pub size_of : ℕ → ℕ → SetSize
size_of width shift = record { width = width; shift = shift }

-- n - 1 on uint32_t
abbrev pub below : ℕ → ℕ
below n = (n + 2 ^ 32 - 1) % 2 ^ 32

module _ (capacity : SetSize → ℕ) where
  abbrev pub fits : ℕ → SetSize → Bool
  fits n s = leb (below n) (capacity s)

  -- The chain of tests.
  unfoldable pub choose_size : ℕ → Option SetSize
  choose_size n =
      if fits n (size_of 8 2)
      then some (size_of 8 2)
      else if fits n (size_of 8 1)
      then some (size_of 8 1)
      else if fits n (size_of 8 0)
      then some (size_of 8 0)
      else if fits n (size_of 16 7)
      then some (size_of 16 7)
      else if fits n (size_of 16 6)
      then some (size_of 16 6)
      else if fits n (size_of 16 5)
      then some (size_of 16 5)
      else if fits n (size_of 16 4)
      then some (size_of 16 4)
      else if fits n (size_of 16 3)
      then some (size_of 16 3)
      else if fits n (size_of 16 2)
      then some (size_of 16 2)
      else if fits n (size_of 16 1)
      then some (size_of 16 1)
      else if fits n (size_of 16 0)
      then some (size_of 16 0)
      else none

  -- The supported sizes, the smallest capacity first.
  abbrev pub sizes : List SetSize
  sizes =
      size_of 8 2
      ∷ size_of 8 1
      ∷ size_of 8 0
      ∷ size_of 16 7
      ∷ size_of 16 6
      ∷ size_of 16 5
      ∷ size_of 16 4
      ∷ size_of 16 3
      ∷ size_of 16 2
      ∷ size_of 16 1
      ∷ size_of 16 0
      ∷ []

  -- The first size of the list that fits.
  find_size : ℕ → List SetSize → Option SetSize
  find_size n [] = none
  find_size n (s ∷ ss) = if fits n s then some s else find_size n ss

  choose_size-find : (n : ℕ) → choose_size n ≡ find_size n sizes
  unfolding choose_size find_size
  choose_size-find n = refl

  -- No capacity is smaller than the one before it.
  abbrev pub Ascends : List SetSize → Type 0
  Ascends [] = Unit
  Ascends (s ∷ ss) = All (λ t. capacity s ≤ capacity t) ss × Ascends ss

  -- The answer for the largest index k: a size that holds it, of the least such capacity; or that
  -- none of the sizes holds it.
  abbrev pub Chosen : ℕ → List SetSize → Option SetSize → Type 0
  Chosen k ss none = All (λ t. capacity t < k) ss
  Chosen k ss (some s) = (k ≤ capacity s) × All (λ t. k ≤ capacity t → capacity s ≤ capacity t) ss

  relax :
      (k : ℕ) (s : SetSize) (ss : List SetSize)
      → All (λ t. capacity s ≤ capacity t) ss
      → All (λ t. k ≤ capacity t → capacity s ≤ capacity t) ss
  relax k s [] h = tt
  relax k s (t ∷ ss) (h, hs) = (λ _. h, relax k s ss hs)

  Chosen-cons :
      (k : ℕ) (s : SetSize) (ss : List SetSize) (o : Option SetSize)
      → capacity s < k
      → Chosen k ss o
      → Chosen k (s ∷ ss) o
  Chosen-cons k s ss none h c = (h, c)
  Chosen-cons k s ss (some t) h (l, c) = (l, ((λ q. absurd (omega arith)), c))

  find_size-Chosen : (n : ℕ) (ss : List SetSize) → Ascends ss → Chosen (below n) ss (find_size n ss)
  unfolding find_size
  find_size-Chosen n [] a = tt
  find_size-Chosen n (s ∷ ss) (a, as') = elim (Bool-cases (fits n s)) [
    | inl e ↦ rw e (ground arith, ((λ _. omega arith), relax (below n) s ss a))
    | inr e ↦
        rw e
          (Chosen-cons (below n) s ss (find_size n ss) (ground arith) (find_size-Chosen n ss as'))
  ]

  rejected : (ss : List SetSize) → All (λ t. capacity t < 2 ^ 32 - 1) ss → find_size 0 ss ≡ none
  unfolding find_size
  rejected [] h = refl
  rejected (s ∷ ss) (h, hs) = ground (arith, rejected ss hs)

  -- For a number of variables from 1 up to 2^32 and capacities that ascend, the code chooses sets
  -- that hold every index, of the least such capacity; it throws only when no capacity is enough.
  -- For 0 variables n - 1 wraps, and it throws when all capacities are below 2^32 - 1.
  pub choose_size-Chosen :
      Ascends sizes
      → ((n : ℕ) → 0 < n → n ≤ 2 ^ 32 → Chosen (n - 1) sizes (choose_size n))
        × (All (λ t. capacity t < 2 ^ 32 - 1) sizes → choose_size 0 ≡ none)
  choose_size-Chosen a = (
    λ n p q.
        let exact : below n ≡ n - 1 = omega arith in
        subst (λ k. Chosen k sizes (choose_size n)) exact
          (rw (choose_size-find n) (find_size-Chosen n sizes a)),
    λ small. rw (choose_size-find 0) (rejected sizes small),
  )
