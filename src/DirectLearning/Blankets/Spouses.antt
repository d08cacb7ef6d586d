-- ===== src/DirectLearning/Blankets/Spouses.antt =====
-- getCandidateMB of the direct learners: what a variable has shown that is added as a spouse.
use ram_ble.Base.{
  ℕ, ◌≤◌, ◌≡◌, ◌⊎◌, inl, inr, sym, ◌∙◌, true, false, not, ◌&&◌, List, [], ◌∷◌, arith, ◌==◌, ==_eq,
  ==_refl, Bool-cases, mem,
}
use ram_ble.Setting.{Setting}
use ram_ble.DiscreteData.{is_independent, is_independent_given, max_p_value_subset}
use ram_ble.DiscreteData.MaxSubset.{max_subset_found}
use ram_ble.DirectLearning.Blankets.{try_spouse, try_spouses, add_spouses}

module _ (w : Setting) (get_pc : ℕ → w.Set) (target : ℕ) where
  open w use {
    Set, contains, elems, size, insert, erase, contains-insert, contains-erase, contains-elems,
    alpha, max_conditioning,
  }

  -- x is in the set of a member y of the target's set, not the target and not in its set; and it is
  -- independent of the target given some set z without x, and dependent given z with y.
  abbrev pub IsSpouse : ℕ → Type 0
  IsSpouse x =
      ((x == target) ≡ false)
      × (contains (get_pc target) x ≡ false)
      × ((y : ℕ) × (z : Set) × (contains (get_pc target) y ≡ true)
          × (contains (get_pc y) x ≡ true)
          × (contains z x ≡ false)
          × (size z ≤ max_conditioning)
          × (is_independent_given w alpha target x z ≡ true)
          × (is_independent_given w alpha target x (insert y z) ≡ false))

  -- Each member is in the set of the target, or is a spouse.
  abbrev pub AreNear : Set → Type 0
  AreNear cmb = (x : ℕ) → contains cmb x ≡ true → (contains (get_pc target) x ≡ true) ⊎ IsSpouse x

  AreNear-insert :
      (x : ℕ) (cmb : Set)
      → (contains (get_pc target) x ≡ true) ⊎ IsSpouse x
      → AreNear cmb
      → AreNear (insert x cmb)
  AreNear-insert x cmb h near u m = elim (Bool-cases (u == x)) [
    | inl e ↦ rw (==_eq u x e) h
    | inr e ↦ near u (ground (arith, contains-insert x cmb u))
  ]

  AreNear-try_spouse :
      (y x : ℕ) (candidates cmb : Set)
      → contains (get_pc target) y ≡ true
      → contains (get_pc y) x ≡ true
      → AreNear cmb
      → AreNear (try_spouse w get_pc target y x (candidates, cmb)).1
  unfolding try_spouse
  AreNear-try_spouse y x candidates cmb py px near =
      let given = erase x candidates in
      let ret = max_p_value_subset w alpha target x given max_conditioning 0 in
      let spouse =
        is_independent w alpha ret.0
        && not (is_independent_given w alpha target x (insert y ret.1)) in
      elim (Bool-cases (not (x == target) && not (contains (get_pc target) x))) [
        | inr e ↦ rw e near
        | inl e ↦ rw e (elim (Bool-cases spouse) [
          | inr f ↦ rw f near
          | inl f ↦
              let (_, (inside, _, small, given_z)) =
                max_subset_found w alpha target x given max_conditioning 0 (ground arith) in
              let shown : IsSpouse x = (
                ground arith,
                ground arith,
                (
                  y,
                  ret.1,
                  py,
                  px,
                  ground (arith, inside x, contains-erase x candidates x, ==_refl x),
                  small,
                  given_z,
                  ground arith,
                ),
              ) in
              rw f (AreNear-insert x cmb (inr shown) near)
        ])
      ]

  AreNear-try_spouses :
      (y : ℕ) (xs : List ℕ) (candidates cmb : Set)
      → contains (get_pc target) y ≡ true
      → ((x : ℕ) → mem x xs ≡ true → contains (get_pc y) x ≡ true)
      → AreNear cmb
      → AreNear (try_spouses w get_pc target y xs (candidates, cmb)).1
  unfolding try_spouses
  AreNear-try_spouses y [] candidates cmb py h near = near
  AreNear-try_spouses y (x ∷ xs) candidates cmb py h near =
      let st = try_spouse w get_pc target y x (candidates, cmb) in
      AreNear-try_spouses y xs st.0 st.1 py (λ z m. h z (ground arith))
        (AreNear-try_spouse y x candidates cmb py (h x (ground (arith, ==_refl x))) near)

  pub AreNear-add_spouses :
      (ys : List ℕ) (candidates cmb : Set)
      → ((y : ℕ) → mem y ys ≡ true → contains (get_pc target) y ≡ true)
      → AreNear cmb
      → AreNear (add_spouses w get_pc target ys (candidates, cmb)).1
  unfolding add_spouses
  AreNear-add_spouses [] candidates cmb h near = near
  AreNear-add_spouses (y ∷ ys) candidates cmb h near =
      let py = h y (ground (arith, ==_refl y)) in
      let st = try_spouses w get_pc target y (elems (get_pc y)) (candidates, insert y cmb) in
      AreNear-add_spouses ys st.0 st.1 (λ z m. h z (ground arith))
        (AreNear-try_spouses y (elems (get_pc y)) candidates (insert y cmb) py
          (λ x m. sym (contains-elems (get_pc y) x) ∙ m) (AreNear-insert y cmb (inl py) near))
