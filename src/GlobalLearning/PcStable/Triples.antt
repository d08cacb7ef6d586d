-- ===== src/GlobalLearning/PcStable/Triples.antt =====
-- checkCollider after getSkeleton_sequential: every unshielded triple finds its separating set.
use ram_ble.Base.{
  ℕ, ◌≤◌, ◌<◌, ◌≡◌, ap, sym, ◌∙◌, subst, true, false, not, List, ◌∷◌, ◌++◌, some, arith, Bool-cases,
  inl, inr, All,
}
use ram_ble.Setting.{Setting}
use ram_ble.DiscreteData.{p_value, is_independent, is_independent_given}
use ram_ble.LocalLearning.{all_vars}
use ram_ble.GlobalLearning.{RemovedEdge, check_stored}
use ram_ble.GlobalLearning.Colliders.{IsSorted, check_stored-found}
use ram_ble.GlobalLearning.Initialize.{Edge, Neighbors}
use ram_ble.GlobalLearning.PcStable.{sort_stored, learn_neighbors}
use ram_ble.GlobalLearning.PcStable.Checks.{Holds, IsPair}
use ram_ble.GlobalLearning.PcStable.Skeleton.{learn_neighbors-Ended}
use ram_ble.GlobalLearning.PcStable.Sorting.{
  has_stored, has_stored-sort_stored, All-sort_stored, sort_stored-IsSorted, check_stored-missing,
  entry_of,
}
use ram_ble.GlobalLearning.PcStable.Stored.{IsEntry, between, Kept}
use ram_ble.GlobalLearning.PcStable.StoredRound.{Kept-round}
use ram_ble.GlobalLearning.PcStable.StoredStart.{start-Kept}

module _ (w : Setting) where
  open w use {
    Set, set_init, contains, size, is_less, zero_point, alpha, num_vars, contains-set_init,
  }

  -- checkCollider decides y - x - z by a set that separates y from z.
  abbrev pub DecidedBySet : List (RemovedEdge w) → ℕ → ℕ → ℕ → Type 0
  DecidedBySet stored y x z =
      (c : Set) × (is_independent_given w alpha y z c ≡ true)
      × (check_stored w y x z stored ≡ (not (contains c x), p_value w y z c))

  found_entry :
      (N : ℕ → Set) (ts : List (RemovedEdge w)) (y x z : ℕ)
      → IsSorted w ts
      → All (IsEntry w N) ts
      → y < z
      → has_stored w ts y z ≡ true
      → DecidedBySet ts y x z
  found_entry N ts y x z sorted entries l m =
      let (before, after, t, same, key, p) = entry_of w (IsEntry w N) ts y z entries m in
      let whole : ts ≡ before ++ ((y, z), t.1, t.2) ∷ after =
        same ∙ ap (λ e. before ++ (e, t.1, t.2) ∷ after) key in
      let value : t.1 ≡ p_value w y z t.2 = p.0 ∙ ap (λ e. p_value w e.0 e.1 t.2) key in
      (
        t.2,
        ap (is_independent w alpha) (sym value) ∙ p.1,
        ap (check_stored w y x z) whole
            ∙ (check_stored-found w y x z before after t.1 t.2 (subst (IsSorted w) whole sorted)
                (ground arith)).0
            ∙ ap (λ v. (not (contains t.2 x), v)) value,
      )

  decided :
      (es : List (Edge w)) (N : ℕ → Set) (ts : List (RemovedEdge w)) (y x z : ℕ)
      → Kept w es N ts
      → IsPair w (y, z)
      → contains (N y) z ≡ false
      → between w N y z x ≡ true
      → DecidedBySet (sort_stored w ts) y x z
  decided es N ts y x z k (l, hy, hz) h b =
      elim (Bool-cases (has_stored w (sort_stored w ts) y z)) [
        | inl there ↦
            found_entry N (sort_stored w ts) y x z (sort_stored-IsSorted w ts k.once)
              (All-sort_stored w (IsEntry w N) ts k.entries) l there
        | inr gone ↦ elim (k.present y z x (l, hy, hz) h b) [
          | inl sep ↦ (
            set_init num_vars,
            sep,
            check_stored-missing w y x z (sort_stored w ts) (ground arith) gone
                ∙ ap (λ v. (v, p_value w y z (set_init num_vars)))
                    (let e : true ≡ not (contains (set_init num_vars) x) =
                        ground (arith, contains-set_init num_vars x) in
                      e),
          )
          | inr kept ↦ absurd (ground (arith, has_stored-sort_stored w ts y z))
        ]
      ]

  -- After getSkeleton_sequential with directed edges, whose neighbors N the map m_cachedNeighbors
  -- holds, checkCollider on m_removedEdges decides every triple y - x - z of which y and z, y < z,
  -- are not adjacent by a set that separates y from z: it is a collider exactly when the set does not
  -- have x, and the p-value returned is that of y and z given the set. So no separating set that a
  -- v-structure needs was dropped from m_removedEdges, in the rounds or by their sort.
  pub check_stored-DecidedBySet :
      (var_mod : ℕ)
      → size (all_vars w) ≤ var_mod
      → is_less alpha zero_point ≡ false
      → (all : Neighbors w) × (stored : List (RemovedEdge w)) × (N : ℕ → Set) × (learn_neighbors w
            var_mod true
          ≡ some (all, stored))
        × Holds w all N
        × ((y x z : ℕ)
            → IsPair w (y, z)
            → contains (N y) z ≡ false
            → between w N y z x ≡ true
            → DecidedBySet stored y x z)
  check_stored-DecidedBySet var_mod h low =
      let (e, runs) =
        learn_neighbors-Ended w var_mod true (λ st N. Kept w st.edges N st.stored) low
          (λ s st N state i p k. Kept-round w s st N state p i low k) (start-Kept w) in
      (
        e.st'.all,
        sort_stored w e.st'.stored,
        e.N',
        runs,
        e.state.holds,
        λ y x z p a b. decided e.st'.edges e.N' e.st'.stored y x z e.extra p a b,
      )
