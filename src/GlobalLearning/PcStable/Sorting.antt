-- ===== src/GlobalLearning/PcStable/Sorting.antt =====
-- The sort of the stored edges, and the look-up of one that is there or is not.
use ram_ble.Base.{
  ℕ, ◌≡◌, refl, ap, ◌∙◌, Bool, true, false, not, ◌&&◌, ◌||◌, List, [], ◌∷◌, ◌++◌, arith, ltb, ◌==◌,
  Bool-cases, inl, inr, All,
}
use ram_ble.Setting.{Setting}
use ram_ble.DiscreteData.{p_value}
use ram_ble.GlobalLearning.{RemovedEdge, edge_less, lower_bound, check_stored, stored_answer}
use ram_ble.GlobalLearning.Colliders.{IsSorted}
use ram_ble.GlobalLearning.PcStable.{insert_stored, sort_stored}

module _ (w : Setting) where
  open w use {Double, Set, set_init, contains, num_vars}

  -- An entry for the edge x - y.
  abbrev pub has_stored : List (RemovedEdge w) → ℕ → ℕ → Bool
  has_stored [] x y = false
  has_stored (t ∷ ts) x y = (x == t.0.0 && y == t.0.1) || has_stored ts x y

  -- No edge has two entries.
  abbrev pub edges_once : List (RemovedEdge w) → Bool
  edges_once [] = true
  edges_once (t ∷ ts) = not (has_stored ts t.0.0 t.0.1) && edges_once ts

  has_stored-insert_stored :
      (t : RemovedEdge w) (us : List (RemovedEdge w)) (x y : ℕ)
      → has_stored (insert_stored w t us) x y ≡ has_stored (t ∷ us) x y
  unfolding insert_stored
  has_stored-insert_stored t [] x y = refl
  has_stored-insert_stored t (u ∷ us) x y = ground (arith, has_stored-insert_stored t us x y)

  pub has_stored-sort_stored :
      (ts : List (RemovedEdge w)) (x y : ℕ) → has_stored (sort_stored w ts) x y ≡ has_stored ts x y
  unfolding sort_stored
  has_stored-sort_stored [] x y = refl
  has_stored-sort_stored (t ∷ ts) x y =
      ground
        (arith, has_stored-insert_stored t (sort_stored w ts) x y, has_stored-sort_stored ts x y)

  All-insert_stored :
      (P : RemovedEdge w → Type 0) (t : RemovedEdge w) (us : List (RemovedEdge w))
      → P t
      → All P us
      → All P (insert_stored w t us)
  unfolding insert_stored
  All-insert_stored P t [] p ps = (p, tt)
  All-insert_stored P t (u ∷ us) p (q, ps) = elim (Bool-cases (edge_less w t.0 u.0)) [
    | inl e ↦ rw e (p, (q, ps))
    | inr e ↦ rw e (q, All-insert_stored P t us p ps)
  ]

  pub All-sort_stored :
      (P : RemovedEdge w → Type 0) (ts : List (RemovedEdge w)) → All P ts → All P (sort_stored w ts)
  unfolding sort_stored
  All-sort_stored P [] ps = tt
  All-sort_stored P (t ∷ ts) (p, ps) =
      All-insert_stored P t (sort_stored w ts) p (All-sort_stored P ts ps)

  All-after :
      (t u : RemovedEdge w) (us : List (RemovedEdge w))
      → edge_less w t.0 u.0 ≡ true
      → All (λ v. edge_less w u.0 v.0 ≡ true) us
      → All (λ v. edge_less w t.0 v.0 ≡ true) us
  All-after t u [] h a = tt
  All-after t u (v ∷ us) h (b, a) = (ground arith, All-after t u us h a)

  insert_stored-IsSorted :
      (t : RemovedEdge w) (us : List (RemovedEdge w))
      → has_stored us t.0.0 t.0.1 ≡ false
      → IsSorted w us
      → IsSorted w (insert_stored w t us)
  unfolding insert_stored
  insert_stored-IsSorted t [] h s = (tt, tt)
  insert_stored-IsSorted t (u ∷ us) h (a, s) = elim (Bool-cases (edge_less w t.0 u.0)) [
    | inl e ↦ rw e ((e, All-after t u us e a), (a, s))
    | inr e ↦
        let turned : edge_less w u.0 t.0 ≡ true = ground arith in
        rw e (All-insert_stored _ t us turned a, insert_stored-IsSorted t us (ground arith) s)
  ]

  pub sort_stored-IsSorted :
      (ts : List (RemovedEdge w)) → edges_once ts ≡ true → IsSorted w (sort_stored w ts)
  unfolding sort_stored
  sort_stored-IsSorted [] h = tt
  sort_stored-IsSorted (t ∷ ts) h =
      insert_stored-IsSorted t (sort_stored w ts)
        (has_stored-sort_stored ts t.0.0 t.0.1 ∙ ground arith)
        (sort_stored-IsSorted ts (ground arith))

  answer-missing :
      (y x z : ℕ) (ts : List (RemovedEdge w))
      → has_stored ts y z ≡ false
      → stored_answer w y x z (y, z) (lower_bound w (y, z) ts)
        ≡ (true, p_value w y z (set_init num_vars))
  unfolding lower_bound stored_answer
  answer-missing y x z [] h = refl
  answer-missing y x z (t ∷ ts) h = elim (Bool-cases (edge_less w t.0 (y, z))) [
    | inl e ↦ rw (e, lower_bound) (answer-missing y x z ts (ground arith))
    | inr e ↦
        let other : (t.0.0 == y && t.0.1 == z) ≡ false = ground arith in
        rw (e, lower_bound) (rw other refl)
  ]

  pub check_stored-missing :
      (y x z : ℕ) (ts : List (RemovedEdge w))
      → ltb y z ≡ true
      → has_stored ts y z ≡ false
      → check_stored w y x z ts ≡ (true, p_value w y z (set_init num_vars))
  unfolding check_stored
  check_stored-missing y x z ts l h = rw (l, check_stored) (answer-missing y x z ts h)

  -- The entry of an edge, with what holds of all entries.
  pub entry_of :
      (P : RemovedEdge w → Type 0) (ts : List (RemovedEdge w)) (x y : ℕ)
      → All P ts
      → has_stored ts x y ≡ true
      → (before : List (RemovedEdge w)) × (after : List (RemovedEdge w)) × (t : RemovedEdge w) × (ts
          ≡ before ++ t ∷ after)
        × (t.0 ≡ (x, y))
        × P t
  entry_of P [] x y ps h = absurd (ground arith)
  entry_of P (t ∷ ts) x y (p, ps) h = elim (Bool-cases (x == t.0.0 && y == t.0.1)) [
    | inl e ↦ ([], ts, t, refl, ground arith, p)
    | inr e ↦
        let (before, after, u, same, key, q) = entry_of P ts x y ps (ground arith) in
        (t ∷ before, after, u, ap (◌∷◌ t) same, key, q)
  ]
