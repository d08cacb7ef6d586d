-- ===== src/Setting/Facts.antt =====
-- Consequences of the laws of `VarSets` and `Doubles`: sizes, inclusion, and choice by p-value.
use ram_ble.Base.{
  ℕ, ◌≤◌, ◌<◌, ◌≡◌, ap, sym, ◌∙◌, Bool, true, false, ◌⊎◌, List, [], ◌∷◌, arith, ◌==◌, ==_refl,
  ==_eq, length, any, mem, length_le_of_mem, Bool-cases, inl, inr,
}
use ram_ble.Setting.{Setting}

module _ (w : Setting) where
  open w use {
    Set, contains, elems, size, insert, erase, set_union, set_difference, set_eq, set_init,
    contains-insert, contains-erase, contains-elems, elems_distinct, size-elems, set_eq_iff,
    set_ext, contains-set_init, contains-union, contains-difference,
  }

  -- Every member of c is a member of s.
  abbrev pub Within : Set → Set → Type 0
  Within c s = (x : ℕ) → contains c x ≡ true → contains s x ≡ true

  pub Within-refl : (s : Set) → Within s s
  Within-refl s x h = h

  pub Within-trans : (a b c : Set) → Within a b → Within b c → Within a c
  Within-trans a b c f g x h = g x (f x h)

  pub size_le : (c s : Set) → Within c s → size c ≤ size s
  size_le c s h = omega (
    arith,
    size-elems c,
    size-elems s,
    length_le_of_mem (elems c) (elems s) (elems_distinct c)
        (λ z m. contains-elems s z ∙ h z (sym (contains-elems c z) ∙ m)),
  )

  pub insert_erase : (a : ℕ) (s : Set) → contains s a ≡ true → insert a (erase a s) ≡ s
  insert_erase a s h = set_ext (insert a (erase a s)) s (λ x. elim (Bool-cases (x == a)) [
    | inl e ↦
        let same : contains s x ≡ contains s a = ap (contains s) (==_eq x a e) in
        ground (arith, contains-insert a (erase a s) x)
    | inr e ↦ ground (arith, contains-insert a (erase a s) x, contains-erase a s x)
  ])

  pub erase_fresh : (a : ℕ) (s : Set) → contains s a ≡ false → erase a s ≡ s
  erase_fresh a s h = set_ext (erase a s) s (λ x. elim (Bool-cases (x == a)) [
    | inl e ↦
        let same : contains s x ≡ contains s a = ap (contains s) (==_eq x a e) in
        ground (arith, contains-erase a s x)
    | inr e ↦ ground (arith, contains-erase a s x)
  ])

  -- Erasing a member makes the set smaller.
  pub size-erase : (a : ℕ) (s : Set) → contains s a ≡ true → size (erase a s) < size s
  size-erase a s h = omega (
    arith,
    size-elems (erase a s),
    size-elems s,
    length_le_of_mem (a ∷ elems (erase a s)) (elems s)
        (ground (
          arith,
          elems_distinct (erase a s),
          contains-elems (erase a s) a,
          contains-erase a s a,
          ==_refl a,
        ))
        within,
  )
    where
      within : (z : ℕ) → mem z (a ∷ elems (erase a s)) ≡ true → mem z (elems s) ≡ true
      within z m = elim (Bool-cases (z == a)) [
        | inl e ↦
            let same : contains s z ≡ contains s a = ap (contains s) (==_eq z a e) in
            contains-elems s z ∙ same ∙ h
        | inr e ↦
            ground (arith, contains-elems s z, contains-elems (erase a s) z, contains-erase a s z)
      ]

  pub size_zero : (s : Set) (x : ℕ) → size s ≡ 0 → contains s x ≡ false
  size_zero s x h = elim (Bool-cases (contains s x)) [
    | inl e ↦ absurd (omega (arith, size-erase x s e))
    | inr e ↦ e
  ]

  -- A set has no size, or a first member.
  pub empty_or_member : (s : Set) → (size s ≡ 0) ⊎ ((x : ℕ) × (contains s x ≡ true))
  empty_or_member s = first (elems s) (size-elems s) (contains-elems s)
    where
      first :
          (xs : List ℕ)
          → size s ≡ length xs
          → ((x : ℕ) → mem x xs ≡ contains s x)
          → (size s ≡ 0) ⊎ ((x : ℕ) × (contains s x ≡ true))
      first [] n m = inl n
      first (x ∷ xs) n m = inr (x, ground (arith, m x, ==_refl x))

  pub size-set_init : (n : ℕ) → size (set_init n) ≡ 0
  size-set_init n = elim (empty_or_member (set_init n)) [
    | inl e ↦ e
    | inr (x, h) ↦ absurd (ground (arith, contains-set_init n x))
  ]

  -- A set that passes a test, and that the list of sets holds.
  pub any_set :
      (p : Set → Bool) (xs : List Set)
      → any p xs ≡ true
      → (c : Set) × (p c ≡ true) × (any (set_eq c) xs ≡ true)
  any_set p [] h = absurd (ground arith)
  any_set p (x ∷ xs) h = elim (Bool-cases (p x)) [
    | inl e ↦ (x, e, ground (arith, set_eq_iff x x))
    | inr e ↦ let (c, pc, m) = any_set p xs (ground arith) in (c, pc, ground arith)
  ]

  pub any_of_set :
      (p : Set → Bool) (xs : List Set) (c : Set)
      → p c ≡ true
      → any (set_eq c) xs ≡ true
      → any p xs ≡ true
  any_of_set p [] c pc m = absurd (ground arith)
  any_of_set p (x ∷ xs) c pc m = elim (Bool-cases (set_eq c x)) [
    | inl e ↦ let same : p c ≡ p x = ap p ((set_eq_iff c x).0 e) in ground arith
    | inr e ↦ ground (arith, any_of_set p xs c pc)
  ]
