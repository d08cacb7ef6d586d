-- ===== src/BlanketLearning/Shrink.antt =====
-- shrinkMB: what it removes and what it leaves.
use ram_ble.Base.{
  ℕ, ◌≡◌, refl, true, false, ◌&&◌, ◌||◌, List, [], ◌∷◌, arith, ◌==◌, ==_eq, ==_refl, distinct,
  Bool-cases, inl, inr, mem,
}
use ram_ble.Setting.{Setting}
use ram_ble.Setting.Facts.{size_zero}
use ram_ble.DiscreteData.{is_independent_given}
use ram_ble.BlanketLearning.{shrink_loop, shrink_mb}

module _ (w : Setting) where
  open w use {
    Set, set_init, contains, elems, insert, erase, size, contains-insert, contains-erase,
    contains-set_init, contains-elems, set_ext, elems_distinct, size-elems, num_vars, alpha,
  }

  -- The initial set is the disjoint union of the two sets.
  abbrev pub Splits : Set → Set × Set → Type 0
  Splits initial (cmb, removed) =
      (y : ℕ)
      → (contains initial y ≡ (contains cmb y || contains removed y))
        × ((contains cmb y && contains removed y) ≡ false)

  -- What the loop keeps while it goes over the variables xs.
  record Shrinking (initial : Set) (xs : List ℕ) (cmb removed : Set) : Type 0 where
    splits : Splits initial (cmb, removed)
    ahead : (x : ℕ) → mem x xs ≡ true → contains cmb x ≡ true
    once : distinct xs ≡ true

  Shrinking-removed :
      (initial : Set) (x : ℕ) (xs : List ℕ) (cmb removed : Set)
      → Shrinking initial (x ∷ xs) cmb removed
      → Shrinking initial xs (erase x cmb) (insert x removed)
  Shrinking-removed initial x xs cmb removed p = record {
    splits = λ y.
        ground (arith, contains-erase x cmb y, contains-insert x removed y, p.splits y, p.ahead y);
    ahead = λ y m. ground (arith, contains-erase x cmb y, p.ahead y, p.once, ==_eq y x);
    once = ground (arith, p.once);
  }

  Shrinking-kept :
      (initial : Set) (x : ℕ) (xs : List ℕ) (cmb removed : Set)
      → Shrinking initial (x ∷ xs) cmb removed
      → insert x (erase x cmb) ≡ cmb
  Shrinking-kept initial x xs cmb removed p =
      set_ext (insert x (erase x cmb)) cmb
        (λ y. ground (arith, contains-insert x (erase x cmb) y, contains-erase x cmb y, p.ahead y))

  shrink_step_removed :
      (target x : ℕ) (xs : List ℕ) (cmb removed : Set)
      → is_independent_given w alpha target x (erase x cmb) ≡ true
      → shrink_loop w target (x ∷ xs) (cmb, removed)
        ≡ shrink_loop w target xs (erase x cmb, insert x removed)
  unfolding shrink_loop
  shrink_step_removed target x xs cmb removed e = rw e refl

  shrink_step_kept :
      (target x : ℕ) (xs : List ℕ) (cmb removed : Set)
      → insert x (erase x cmb) ≡ cmb
      → is_independent_given w alpha target x (erase x cmb) ≡ false
      → shrink_loop w target (x ∷ xs) (cmb, removed) ≡ shrink_loop w target xs (cmb, removed)
  unfolding shrink_loop
  shrink_step_kept target x xs cmb removed k e = rw e (rw k refl)

  Shrinking-tail :
      (initial : Set) (x : ℕ) (xs : List ℕ) (cmb removed : Set)
      → Shrinking initial (x ∷ xs) cmb removed
      → Shrinking initial xs cmb removed
  Shrinking-tail initial x xs cmb removed p = record {
    splits = p.splits;
    ahead = λ y m. p.ahead y (ground arith);
    once = ground (arith, p.once);
  }

  Splits-shrink_loop :
      (target : ℕ) (initial : Set) (xs : List ℕ) (cmb removed : Set)
      → Shrinking initial xs cmb removed
      → Splits initial (shrink_loop w target xs (cmb, removed))
  unfolding shrink_loop
  Splits-shrink_loop target initial [] cmb removed p = p.splits
  Splits-shrink_loop target initial (x ∷ xs) cmb removed p =
      elim (Bool-cases (is_independent_given w alpha target x (erase x cmb))) [
        | inl e ↦
            rw (e, shrink_loop)
              (Splits-shrink_loop target initial xs (erase x cmb) (insert x removed)
                (Shrinking-removed initial x xs cmb removed p))
        | inr e ↦
            rw (e, shrink_loop)
              (rw (Shrinking-kept initial x xs cmb removed p) (
                Splits-shrink_loop target initial xs cmb removed
                  (Shrinking-tail initial x xs cmb removed p)))
      ]

  Shrinking-start : (cmb : Set) → Shrinking cmb (elems cmb) cmb (set_init num_vars)
  Shrinking-start cmb = record {
    splits = λ y. ground (arith, contains-set_init num_vars y);
    ahead = λ y m. ground (arith, contains-elems cmb y);
    once = elems_distinct cmb;
  }

  -- shrinkMB: the initial blanket is the disjoint union of the blanket that is left and of the
  -- returned set of removed variables.
  pub shrink_mb-Splits : (target : ℕ) (cmb : Set) → Splits cmb (shrink_mb w target cmb)
  unfolding shrink_mb
  shrink_mb-Splits target cmb = elim (Bool-cases (size cmb == 0)) [
    | inl e ↦ rw e (Shrinking-start cmb).splits
    | inr e ↦
        rw e
          (Splits-shrink_loop target cmb (elems cmb) cmb (set_init num_vars) (Shrinking-start cmb))
  ]

  -- What was removed stays removed.
  removed_grows :
      (target : ℕ) (xs : List ℕ) (cmb removed : Set) (y : ℕ)
      → contains removed y ≡ true
      → contains (shrink_loop w target xs (cmb, removed)).1 y ≡ true
  unfolding shrink_loop
  removed_grows target [] cmb removed y h = h
  removed_grows target (x ∷ xs) cmb removed y h =
      elim (Bool-cases (is_independent_given w alpha target x (erase x cmb))) [
        | inl e ↦
            rw (e, shrink_loop)
              (removed_grows target xs (erase x cmb) (insert x removed) y
                (ground (arith, contains-insert x removed y)))
        | inr e ↦ rw (e, shrink_loop) (removed_grows target xs (insert x (erase x cmb)) removed y h)
      ]

  kept_all :
      (target : ℕ) (initial : Set) (xs : List ℕ) (cmb removed : Set) (x : ℕ)
      → Shrinking initial xs cmb removed
      → ((y : ℕ) → contains (shrink_loop w target xs (cmb, removed)).1 y ≡ false)
      → mem x xs ≡ true
      → is_independent_given w alpha target x (erase x cmb) ≡ false
  kept_all target initial [] cmb removed x p none m = absurd (ground arith)
  kept_all target initial (z ∷ xs) cmb removed x p none m =
      elim (Bool-cases (is_independent_given w alpha target z (erase z cmb))) [
        | inl e ↦
            let gone =
              removed_grows target xs (erase z cmb) (insert z removed) z
                (ground (arith, contains-insert z removed z, ==_refl z)) in
            let kept = rw (shrink_step_removed target z xs cmb removed e) at none z in
            absurd (ground arith)
        | inr e ↦
            let same = Shrinking-kept initial z xs cmb removed p in
            let later =
              kept_all target initial xs cmb removed x (Shrinking-tail initial z xs cmb removed p)
                (rw (shrink_step_kept target z xs cmb removed same e) at none) in
            elim (Bool-cases (x == z)) [ inl f ↦ rw (==_eq x z f) e | inr f ↦ later (ground arith) ]
      ]

  -- shrinkMB, when it removes no variable: every member of the blanket is dependent on the target
  -- given the other members.
  pub shrink_mb-minimal :
      (target : ℕ) (cmb : Set) (x : ℕ)
      → ((y : ℕ) → contains (shrink_mb w target cmb).1 y ≡ false)
      → contains cmb x ≡ true
      → is_independent_given w alpha target x (erase x cmb) ≡ false
  unfolding shrink_mb
  shrink_mb-minimal target cmb x none m = elim (Bool-cases (size cmb == 0)) [
    | inl e ↦ absurd (ground (arith, size_zero w cmb x (==_eq (size cmb) 0 e)))
    | inr e ↦
        kept_all target cmb (elems cmb) cmb (set_init num_vars) x (Shrinking-start cmb)
          (rw e at none) (ground (arith, contains-elems cmb x))
  ]
