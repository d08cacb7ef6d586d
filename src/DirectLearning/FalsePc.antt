-- ===== src/DirectLearning/FalsePc.antt =====
-- removeFalsePC: which variables it keeps.
use ram_ble.Base.{
  ℕ, ◌≡◌, ◌↔◌, refl, ap, sym, ◌∙◌, Bool, true, false, not, ◌&&◌, ◌||◌, List, [], ◌∷◌, arith,
  if◌then◌else◌, ◌==◌, ==_eq, ==_refl, Bool-cases, inl, inr, mem,
}
use ram_ble.Setting.{Setting}
use ram_ble.Setting.Facts.{Within}
use ram_ble.DiscreteData.{is_independent_any_subset}
use ram_ble.DiscreteData.AnySubset.{Separates, any_subset_iff}
use ram_ble.DirectLearning.{false_pc_loop, remove_false_pc}

module _ (w : Setting) where
  open w use {
    Set, set_init, contains, elems, insert, erase, set_difference, contains-insert, contains-erase,
    contains-set_init, contains-elems, contains-difference, set_ext, num_vars, alpha,
    max_conditioning,
  }

  -- The test of one member against all the others.
  abbrev pub is_false : ℕ → Set → ℕ → Bool
  is_false target cpc x =
      is_independent_any_subset w alpha target x (erase x cpc) max_conditioning 0

  put_back : (x : ℕ) (s : Set) → contains s x ≡ true → insert x (erase x s) ≡ s
  put_back x s h = set_ext (insert x (erase x s)) s (λ y. elim (Bool-cases (y == x)) [
    | inl e ↦
        let here : contains s y ≡ true = rw (==_eq y x e) h in
        ground (arith, contains-insert x (erase x s) y, contains-erase x s y)
    | inr e ↦ ground (arith, contains-insert x (erase x s) y, contains-erase x s y)
  ])

  false_pc_loop_lem :
      (target : ℕ) (xs : List ℕ) (cpc removed : Set)
      → ((x : ℕ) → mem x xs ≡ true → contains cpc x ≡ true)
      → ((false_pc_loop w target xs (cpc, removed)).0 ≡ cpc)
        × ((y : ℕ)
            → contains (false_pc_loop w target xs (cpc, removed)).1 y
              ≡ (contains removed y || (mem y xs && is_false target cpc y)))
  unfolding false_pc_loop
  false_pc_loop_lem target [] cpc removed m = (refl, λ y. ground arith)
  false_pc_loop_lem target (x ∷ xs) cpc removed m =
      let removed' = if is_false target cpc x then insert x removed else removed in
      let (same, all) = false_pc_loop_lem target xs cpc removed' (λ y h. m y (ground arith)) in
      rw (put_back x cpc (m x (ground (arith, ==_refl x))), false_pc_loop)
        (
          same,
          λ y. elim (Bool-cases (y == x)) [
            | inl e ↦
                let here : is_false target cpc y ≡ is_false target cpc x =
                  ap (is_false target cpc) (==_eq y x e) in
                ground (arith, all y, contains-insert x removed y)
            | inr e ↦ ground (arith, all y, contains-insert x removed y)
          ],
        )

  pub contains-remove_false_pc :
      (target : ℕ) (cpc : Set) (y : ℕ)
      → contains (remove_false_pc w target cpc).0 y
        ≡ (contains cpc y && not (is_false target cpc y))
  unfolding remove_false_pc
  contains-remove_false_pc target cpc y =
      let (same, all) =
        false_pc_loop_lem target (elems cpc) cpc (set_init num_vars)
          (λ x m. sym (contains-elems cpc x) ∙ m) in
      let end = false_pc_loop w target (elems cpc) (cpc, set_init num_vars) in
      let kept : contains end.0 y ≡ contains cpc y = ap (λ s. contains s y) same in
      ground (
        arith,
        contains-difference end.0 end.1 y,
        all y,
        contains-set_init num_vars y,
        contains-elems cpc y,
      )

  -- Every member is tested against all others of the initial set, so the answer does not depend on
  -- the order: removeFalsePC drops a member exactly when some subset of the other members, of at most
  -- maxConditioning variables, separates it from the target.
  pub remove_false_pc_iff :
      (target : ℕ) (cpc : Set) (x : ℕ)
      → contains cpc x ≡ true
      → (contains (remove_false_pc w target cpc).0 x ≡ false)
        ↔ ((c : Set) × Separates w alpha target x (erase x cpc) max_conditioning 0 c)
  remove_false_pc_iff target cpc x h =
      let (to, from) = any_subset_iff w alpha target x (erase x cpc) max_conditioning 0 in
      (
        λ g. to (ground (arith, contains-remove_false_pc target cpc x)),
        λ s. let found = from s in ground (arith, contains-remove_false_pc target cpc x),
      )

  pub Within-remove_false_pc :
      (target : ℕ) (cpc : Set) → Within w (remove_false_pc w target cpc).0 cpc
  Within-remove_false_pc target cpc y h = ground (arith, contains-remove_false_pc target cpc y)

  -- No member of the set is separated from the target by a subset of the other members.
  abbrev pub AreUnseparated : ℕ → Set → Type 0
  AreUnseparated target cpc =
      (x : ℕ) (c : Set)
      → contains cpc x ≡ true
      → ¬ Separates w alpha target x (erase x cpc) max_conditioning 0 c

  -- What removeFalsePC leaves is a set of which no further member could be removed.
  pub AreUnseparated-remove_false_pc :
      (target : ℕ) (cpc : Set) → AreUnseparated target (remove_false_pc w target cpc).0
  AreUnseparated-remove_false_pc target cpc x c h (inside, low, high, p) =
      let s = (remove_false_pc w target cpc).0 in
      let old = Within-remove_false_pc target cpc x h in
      let gone = (remove_false_pc_iff target cpc x old).1 (
        c,
        (
          (λ y m. ground (
            arith,
            inside y m,
            contains-erase x s y,
            contains-erase x cpc y,
            Within-remove_false_pc target cpc y,
          )),
          low,
          high,
          p,
        ),
      ) in
      absurd (ground arith)
