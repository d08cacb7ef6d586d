-- ===== src/ConstraintBasedLearning/Centres.antt =====
-- findVStructures: the centres of the v-structures that it lists, and their ends.
use ram_ble.Base.{
  All-of_mem, All-append, ℕ, ◌≡◌, ◌≢◌, ◌∙◌, sym, Bool, true, false, List, [], ◌∷◌, arith, ltb,
  Bool-cases, inl, inr, All, any,
}
use ram_ble.Setting.{Setting}
use ram_ble.Graphs.{Graphs, same_edge}
use ram_ble.BayesianNetwork.VStructures.{VStructure, tuple_less, insert_tuple, sort_tuples, ends}
use ram_ble.ConstraintBasedLearning.{
  Found, in_order, check_pair, check_all, candidate_parents, check_centre, v_structures_of, collect,
}
use ram_ble.BayesianNetwork.Skeleton.{AreCentred}

module _ (w : Setting) (get_pc : ℕ → w.Set) (check : ℕ → ℕ → ℕ → Bool × w.Double) where
  open w use {Double, contains, elems, contains-elems, contains-erase, contains-difference}

  -- The centre of a v-structure differs from its ends.
  abbrev pub IsCentred : VStructure w.doubles → Type 0
  IsCentred v = (v.2 ≢ v.1) × (v.2 ≢ v.3)

  All-insert_tuple :
      (v : VStructure w.doubles) (vs : List (VStructure w.doubles))
      → IsCentred v
      → All IsCentred vs
      → All IsCentred (insert_tuple w.doubles v vs)
  unfolding insert_tuple
  All-insert_tuple v [] c a = (c, tt)
  All-insert_tuple v (u ∷ us) c (b, a) = elim (Bool-cases (tuple_less w.doubles u v)) [
    | inl e ↦ rw e (b, All-insert_tuple v us c a)
    | inr e ↦ rw e (c, (b, a))
  ]

  pub AreCentred-sort_tuples :
      (vs : List (VStructure w.doubles))
      → All IsCentred vs
      → All IsCentred (sort_tuples w.doubles vs)
  unfolding sort_tuples
  AreCentred-sort_tuples [] a = tt
  AreCentred-sort_tuples (v ∷ vs) (c, a) =
      All-insert_tuple v (sort_tuples w.doubles vs) c (AreCentred-sort_tuples vs a)

  pub AreCentred-ends :
      (gs : Graphs) (vs : List (VStructure w.doubles))
      → All IsCentred vs
      → AreCentred gs (ends w.doubles vs)
  AreCentred-ends gs [] a = tt
  AreCentred-ends gs (v ∷ vs) (c, a) = (c, AreCentred-ends gs vs a)

  check_pair-IsCentred :
      (target : ℕ) (curr : ℕ × ℕ) (st : Found w get_pc check)
      → target ≢ curr.0
      → target ≢ curr.1
      → All IsCentred st.0
      → All IsCentred (check_pair w get_pc check target curr st).0
  unfolding check_pair
  check_pair-IsCentred target (a, b) (found, checked) p q h =
      elim (Bool-cases (any (same_edge (a, b)) checked)) [
        | inl e ↦ rw e h
        | inr e ↦ elim (Bool-cases (check a target b).0) [
          | inl f ↦ rw (e, f) (All-append _ found _ h ((p, q), tt))
          | inr f ↦ rw (e, f) h
        ]
      ]

  check_all-IsCentred :
      (target y : ℕ) (zs : List ℕ) (st : Found w get_pc check)
      → target ≢ y
      → All (λ z. target ≢ z) zs
      → All IsCentred st.0
      → All IsCentred (check_all w get_pc check target y zs st).0
  unfolding check_all
  check_all-IsCentred target y [] st p qs h = h
  check_all-IsCentred target y (z ∷ zs) st p (q, qs) h =
      let first : All IsCentred
          (check_pair w get_pc check target (in_order w get_pc check y z) st).0 =
        elim (Bool-cases (ltb y z)) [
          | inl e ↦ rw e (check_pair-IsCentred target (y, z) st p q h)
          | inr e ↦ rw e (check_pair-IsCentred target (z, y) st q p h)
        ] in
      check_all-IsCentred target y zs
        (check_pair w get_pc check target (in_order w get_pc check y z) st) p qs first

  -- No member of a set without the target is the target.
  differ : (target : ℕ) (s : w.Set) → contains s target ≡ false → All (λ z. target ≢ z) (elems s)
  differ target s h = All-of_mem _ (elems s) (λ z m e.
      let there : contains s z ≡ true = sym (contains-elems s z) ∙ m in
      let also : contains s target ≡ true = rw e there in ground arith)

  check_centre-IsCentred :
      (target : ℕ) (ys : List ℕ) (st : Found w get_pc check)
      → contains (get_pc target) target ≡ false
      → All (λ y. target ≢ y) ys
      → All IsCentred st.0
      → All IsCentred (check_centre w get_pc check target ys st).0
  unfolding check_centre
  check_centre-IsCentred target [] st n ps h = h
  check_centre-IsCentred target (y ∷ ys) st n (p, ps) h =
      let zs = candidate_parents w get_pc check target y in
      let left = w.set_difference (get_pc target) (get_pc y) in
      let none_left : contains zs target ≡ false = ground (
        arith,
        contains-erase y left target,
        contains-difference (get_pc target) (get_pc y) target,
      ) in
      check_centre-IsCentred target ys (check_all w get_pc check target y (elems zs) st) n ps
        (check_all-IsCentred target y (elems zs) st p (differ target zs none_left) h)

  pub collect-IsCentred :
      (xs : List ℕ)
      → ((x : ℕ) → contains (get_pc x) x ≡ false)
      → All IsCentred (collect w get_pc check xs)
  unfolding collect v_structures_of
  collect-IsCentred [] n = tt
  collect-IsCentred (x ∷ xs) n =
      All-append _ (v_structures_of w get_pc check x) (collect w get_pc check xs)
        (check_centre-IsCentred x (elems (get_pc x)) ([], []) (n x) (differ x (get_pc x) (n x)) tt)
        (collect-IsCentred xs n)
