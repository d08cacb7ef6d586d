-- ===== src/DiscreteData/Seeded.antt =====
-- maxPValue and isIndependentAnySubset with a seed that joins every condition.
use ram_ble.Base.{
  ℕ, zero, suc, ◌+◌, ◌≤◌, ◌≡◌, ◌↔◌, ◌∙◌, refl, ap, Bool, true, ◌||◌, List, [], ◌∷◌, map, arith, any,
  any-append, min, Bool-cases, inl, inr, ◌==◌, ==_eq,
}
use ram_ble.Setting.{Setting}
use ram_ble.Setting.Facts.{Within, any_set, any_of_set, size_le, size_zero, size-set_init}
use ram_ble.DiscreteData.{
  p_value, is_independent, is_independent_given, max_over, seeded_sizes, is_independent_any_seeded,
}
use ram_ble.DiscreteData.Order.{conditions, any-conditions, conditions-Within}
use ram_ble.DiscreteData.AnySubset.{is_independent-max_over}

module _ (w : Setting) (alpha : w.Double) (x y : ℕ) (seed : w.Set) where
  open w use {
    Double, Set, size, subsets, subsets_complete, set_union, contains, contains-union, set_ext,
    set_eq, set_init, contains-set_init,
  }

  -- The test of a condition joined with the seed.
  abbrev with_seed : Set → Bool
  with_seed c = is_independent_given w alpha x y (set_union c seed)

  any-with_seed :
      (cs : List Set)
      → any (is_independent_given w alpha x y) (map (λ c. set_union c seed) cs) ≡ any with_seed cs
  any-with_seed [] = refl
  any-with_seed (c ∷ cs) = ap (λ b. with_seed c || b) (any-with_seed cs)

  is_independent-seeded_sizes :
      (rounds i : ℕ) (given : Set) (m : Double)
      → is_independent w alpha (seeded_sizes w alpha x y rounds i given seed m)
        ≡ (is_independent w alpha m || any with_seed (conditions w given rounds i))
  unfolding seeded_sizes
  is_independent-seeded_sizes zero i given m = ground arith
  is_independent-seeded_sizes (suc rounds) i given m =
      let cs = map (λ c. set_union c seed) (subsets given i) in
      ground (
        arith,
        is_independent-max_over w alpha x y cs m,
        any-with_seed (subsets given i),
        any-append with_seed (subsets given i) (conditions w given rounds (i + 1)),
        is_independent-seeded_sizes rounds (i + 1) given (max_over w alpha x y cs m),
      )

  union_empty : (c : Set) → size c ≡ 0 → set_union c seed ≡ seed
  union_empty c n =
      set_ext (set_union c seed) seed
        (λ z. ground (arith, contains-union c seed z, size_zero w c z n))

  any_seeded-conditions :
      (given : Set) (max_size : ℕ)
      → is_independent_any_seeded w alpha x y given seed max_size ≡ (
          is_independent_given w alpha x y seed
          || any with_seed (conditions w given (min (size given) max_size) 1))
  unfolding is_independent_any_seeded
  any_seeded-conditions given max_size = elim (Bool-cases (size given == 0)) [
    | inl e ↦
        let none : min (size given) max_size ≡ 0 = omega (arith, ==_eq (size given) 0 e) in
        rw e (rw none (ground arith))
    | inr e ↦ ground (
      arith,
      is_independent-seeded_sizes (min (size given) max_size) 1 given (p_value w x y seed),
    )
  ]

  -- A subset of the conditioning set that separates the variables together with the seed.
  abbrev pub SeparatesWith : Set → ℕ → Set → Type 0
  SeparatesWith given max_size c =
      Within w c given
      × (size c ≤ max_size)
      × (is_independent_given w alpha x y (set_union c seed) ≡ true)

  -- isIndependentAnySubset with a seed returns true exactly when some subset c of the conditioning
  -- set, the empty one included, with |c| ≤ maxSize has a p-value above alpha for c joined with
  -- the seed.
  pub any_seeded_iff :
      (given : Set) (max_size : ℕ)
      → (is_independent_any_seeded w alpha x y given seed max_size ≡ true)
        ↔ ((c : Set) × SeparatesWith given max_size c)
  any_seeded_iff given max_size = (sound, complete)
    where
      rounds : ℕ
      rounds = min (size given) max_size

      sound :
          is_independent_any_seeded w alpha x y given seed max_size ≡ true
          → (c : Set) × SeparatesWith given max_size c
      sound h = elim (Bool-cases (is_independent_given w alpha x y seed)) [
        | inl e ↦
            let empty = size-set_init w 0 in
            (
              set_init 0,
              (
                λ z m. absurd (ground (arith, contains-set_init 0 z)),
                omega arith,
                rw (union_empty (set_init 0) empty) e,
              ),
            )
        | inr e ↦
            let (c, p, m) =
              any_set w with_seed (conditions w given rounds 1)
                (ground (arith, any_seeded-conditions given max_size)) in
            let (inside, low, high) = conditions-Within w given c rounds 1 m in
            (c, (inside, omega arith, p))
      ]

      complete :
          (c : Set) × SeparatesWith given max_size c
          → is_independent_any_seeded w alpha x y given seed max_size ≡ true
      complete (c, (inside, high, p)) = elim (Bool-cases (size c == 0)) [
        | inl e ↦
            any_seeded-conditions given max_size ∙ rw (rw (union_empty c (==_eq (size c) 0 e)) at p)
        | inr e ↦
            let listed = any_of_set w with_seed (conditions w given rounds 1) c p (
              any-conditions w given c rounds 1 (size c) (ground arith)
                (omega (arith, size_le w c given inside)) (subsets_complete given c inside)) in
            ground (arith, any_seeded-conditions given max_size)
      ]
