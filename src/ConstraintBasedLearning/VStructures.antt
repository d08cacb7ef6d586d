-- ===== src/ConstraintBasedLearning/VStructures.antt =====
-- findVStructures: which v-structures are found.
use ram_ble.Base.{
  All, All-append, ℕ, ◌≡◌, refl, ap, Bool, true, false, not, ◌&&◌, ◌||◌, List, [], ◌∷◌, arith, any,
  any-append, ltb, ◌==◌, ==_eq, ==_refl, Bool-cases, inl, inr, mem,
}
use ram_ble.Setting.{Setting}
use ram_ble.Graphs.{same_edge}
use ram_ble.ConstraintBasedLearning.{
  Found, in_order, check_pair, check_all, candidate_parents, check_centre, v_structures_of,
}

module _ (w : Setting) (get_pc : ℕ → w.Set) (check : ℕ → ℕ → ℕ → Bool × w.Double) where
  open w use {Double, Set, contains, elems, contains-elems, contains-erase, contains-difference}

  -- Whether y -> target <- z is listed.
  abbrev pub has : ℕ → ℕ → ℕ → List (Double × ℕ × ℕ × ℕ) → Bool
  has target y z = any (λ v. same_edge (y, z) (v.1, v.3) && v.2 == target)

  -- Each v-structure of the list has the target in the middle, and the p-value of its own check.
  abbrev pub AreChecked : ℕ → List (Double × ℕ × ℕ × ℕ) → Type 0
  AreChecked target = All (λ v. (v.2 ≡ target) × (v.0 ≡ (check v.1 v.2 v.3).1))

  -- Every checked pair that is a collider is listed, and no other.
  abbrev Listed : ℕ → Found w get_pc check → Type 0
  Listed target st =
      (y z : ℕ) → has target y z st.0 ≡ (any (same_edge (y, z)) st.1 && (check y target z).0)

  -- A v-structure is listed under the result of its own check.
  same_check :
      (target y z a b : ℕ)
      → same_edge (y, z) (a, b) ≡ true
      → (check y target z).0 ≡ (check a target b).0
  same_check target y z a b e = rw (==_eq y a (ground arith), ==_eq z b (ground arith)) refl

  Listed-check_pair :
      (target : ℕ) (curr : ℕ × ℕ) (st : Found w get_pc check)
      → Listed target st
      → Listed target (check_pair w get_pc check target curr st)
  unfolding check_pair
  Listed-check_pair target (a, b) (found, checked) l y z =
      let new : Double × ℕ × ℕ × ℕ = ((check a target b).1, a, target, b) in
      let tail = any-append (λ v. same_edge (y, z) (v.1, v.3) && v.2 == target) found (new ∷ []) in
      elim (Bool-cases (any (same_edge (a, b)) checked)) [
        | inl e ↦ rw e (l y z)
        | inr e ↦ elim (Bool-cases (check a target b).0) [
          | inl f ↦
              rw (e, f) (ground (arith, tail, l y z, same_check target y z a b, ==_refl target))
          | inr f ↦ rw (e, f) (ground (arith, l y z, same_check target y z a b))
        ]
      ]

  checked-check_pair :
      (target : ℕ) (curr : ℕ × ℕ) (st : Found w get_pc check) (y z : ℕ)
      → any (same_edge (y, z)) (check_pair w get_pc check target curr st).1
        ≡ (same_edge (y, z) curr || any (same_edge (y, z)) st.1)
  unfolding check_pair
  checked-check_pair target (a, b) (found, checked) y z =
      elim (Bool-cases (same_edge (y, z) (a, b))) [
        | inl e ↦
            let p : y ≡ a = ==_eq y a (ground arith) in
            let q : z ≡ b = ==_eq z b (ground arith) in rw (p, q) (ground arith)
        | inr e ↦ ground arith
      ]

  Listed-check_all :
      (target a : ℕ) (zs : List ℕ) (st : Found w get_pc check)
      → Listed target st
      → Listed target (check_all w get_pc check target a zs st)
  unfolding check_all
  Listed-check_all target a [] st l = l
  Listed-check_all target a (u ∷ zs) st l =
      Listed-check_all target a zs
        (check_pair w get_pc check target (in_order w get_pc check a u) st)
        (Listed-check_pair target (in_order w get_pc check a u) st l)

  -- The pairs of a with the variables zs, the lesser variable first.
  abbrev pairs : ℕ → List ℕ → ℕ → ℕ → Bool
  pairs a zs y z = ltb y z && ((y == a && mem z zs) || (z == a && mem y zs))

  checked-check_all :
      (target a : ℕ) (zs : List ℕ) (st : Found w get_pc check) (y z : ℕ)
      → mem a zs ≡ false
      → any (same_edge (y, z)) (check_all w get_pc check target a zs st).1
        ≡ (any (same_edge (y, z)) st.1 || pairs a zs y z)
  unfolding check_all
  checked-check_all target a [] st y z n = ground arith
  checked-check_all target a (u ∷ zs) st y z n =
      let st' = check_pair w get_pc check target (in_order w get_pc check a u) st in
      ground (
        arith,
        checked-check_all target a zs st' y z,
        checked-check_pair target (in_order w get_pc check a u) st y z,
      )

  abbrev parents : ℕ → ℕ → Set
  parents target a = candidate_parents w get_pc check target a

  Listed-check_centre :
      (target : ℕ) (ys : List ℕ) (st : Found w get_pc check)
      → Listed target st
      → Listed target (check_centre w get_pc check target ys st)
  unfolding check_centre
  Listed-check_centre target [] st l = l
  Listed-check_centre target (a ∷ ys) st l =
      let zs = elems (parents target a) in
      Listed-check_centre target ys (check_all w get_pc check target a zs st)
        (Listed-check_all target a zs st l)

  -- The pairs that the outer loop checks.
  abbrev checks : ℕ → List ℕ → ℕ → ℕ → Bool
  checks target ys y z =
      ltb y z
      && ((mem y ys && contains (parents target y) z)
          || (mem z ys && contains (parents target z) y))

  checked-check_centre :
      (target : ℕ) (ys : List ℕ) (st : Found w get_pc check) (y z : ℕ)
      → any (same_edge (y, z)) (check_centre w get_pc check target ys st).1
        ≡ (any (same_edge (y, z)) st.1 || checks target ys y z)
  unfolding check_centre
  checked-check_centre target [] st y z = ground arith
  checked-check_centre target (a ∷ ys) st y z =
      let zs = elems (parents target a) in
      let n : mem a zs ≡ false = ground (
        arith,
        contains-elems (parents target a) a,
        contains-erase a (w.set_difference (get_pc target) (get_pc a)) a,
        ==_refl a,
      ) in
      let st' = check_all w get_pc check target a zs st in
      let of_y : (y == a) ≡ true → contains (parents target y) z ≡ contains (parents target a) z =
        λ e. ap (λ u. contains (parents target u) z) (==_eq y a e) in
      let of_z : (z == a) ≡ true → contains (parents target z) y ≡ contains (parents target a) y =
        λ e. ap (λ u. contains (parents target u) y) (==_eq z a e) in
      ground (
        arith,
        checked-check_centre target ys st' y z,
        checked-check_all target a zs st y z n,
        contains-elems (parents target a) y,
        contains-elems (parents target a) z,
        of_y,
        of_z,
      )

  AreChecked-check_pair :
      (target : ℕ) (curr : ℕ × ℕ) (st : Found w get_pc check)
      → AreChecked target st.0
      → AreChecked target (check_pair w get_pc check target curr st).0
  unfolding check_pair
  AreChecked-check_pair target (a, b) (found, checked) h =
      elim (Bool-cases (any (same_edge (a, b)) checked)) [
        | inl e ↦ rw e h
        | inr e ↦ elim (Bool-cases (check a target b).0) [
          | inl f ↦ rw (e, f) (All-append _ found _ h ((refl, refl), tt))
          | inr f ↦ rw (e, f) h
        ]
      ]

  AreChecked-check_all :
      (target a : ℕ) (zs : List ℕ) (st : Found w get_pc check)
      → AreChecked target st.0
      → AreChecked target (check_all w get_pc check target a zs st).0
  unfolding check_all
  AreChecked-check_all target a [] st h = h
  AreChecked-check_all target a (u ∷ zs) st h =
      AreChecked-check_all target a zs
        (check_pair w get_pc check target (in_order w get_pc check a u) st)
        (AreChecked-check_pair target (in_order w get_pc check a u) st h)

  AreChecked-check_centre :
      (target : ℕ) (ys : List ℕ) (st : Found w get_pc check)
      → AreChecked target st.0
      → AreChecked target (check_centre w get_pc check target ys st).0
  unfolding check_centre
  AreChecked-check_centre target [] st h = h
  AreChecked-check_centre target (a ∷ ys) st h =
      let zs = elems (parents target a) in
      AreChecked-check_centre target ys (check_all w get_pc check target a zs st)
        (AreChecked-check_all target a zs st h)

  -- findVStructures(target): the v-structure y -> target <- z is found exactly when y < z, both
  -- are in the set of the target, one of them is not in the set of the other, and checkCollider
  -- accepts it; every v-structure that is found has the target as its centre, and the p-value that
  -- checkCollider returned for it.
  pub v_structures_of-found :
      (target y z : ℕ)
      → (has target y z (v_structures_of w get_pc check target) ≡ (
          ltb y z
          && (contains (get_pc target) y && contains (get_pc target) z)
          && not (contains (get_pc y) z && contains (get_pc z) y)
          && (check y target z).0))
        × AreChecked target (v_structures_of w get_pc check target)
  unfolding v_structures_of
  v_structures_of-found target y z =
      let ys = elems (get_pc target) in
      let start : Found w get_pc check = ([], []) in
      let dy = w.set_difference (get_pc target) (get_pc y) in
      let dz = w.set_difference (get_pc target) (get_pc z) in
      (
        ground (
          arith,
          Listed-check_centre target ys start (λ a b. refl) y z,
          checked-check_centre target ys start y z,
          contains-elems (get_pc target) y,
          contains-elems (get_pc target) z,
          contains-erase y dy z,
          contains-erase z dz y,
          contains-difference (get_pc target) (get_pc y) z,
          contains-difference (get_pc target) (get_pc z) y,
        ),
        AreChecked-check_centre target ys start tt,
      )
