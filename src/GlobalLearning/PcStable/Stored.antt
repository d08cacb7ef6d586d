-- ===== src/GlobalLearning/PcStable/Stored.antt =====
-- The stored edges hold the separating sets that the colliders need.
use ram_ble.Base.{
  ℕ, ◌≡◌, ◌⊎◌, refl, ap, sym, ◌∙◌, Bool, true, false, not, ◌&&◌, ◌||◌, List, [], ◌∷◌, ◌++◌, arith,
  ◌==◌, ==_eq, ==_refl, Bool-cases, inl, inr, keep, All,
}
use ram_ble.Setting.{Setting}
use ram_ble.Setting.Facts.{size_zero}
use ram_ble.DiscreteData.{p_value, is_independent, is_independent_given, max_p_value_subset}
use ram_ble.DiscreteData.MaxSubset.{max_subset_found}
use ram_ble.GlobalLearning.{RemovedEdge, forward_test, edge_test}
use ram_ble.GlobalLearning.Initialize.{Edge}
use ram_ble.GlobalLearning.PcStable.Checks.{IsPair, test, tested}
use ram_ble.GlobalLearning.PcStable.Removal.{leaves, apart}
use ram_ble.GlobalLearning.PcStable.Round.{next_edges}
use ram_ble.GlobalLearning.PcStable.Separation.{has_edge}
use ram_ble.GlobalLearning.PcStable.Sorting.{has_stored, edges_once}

module _ (w : Setting) where
  open w use {
    Set, set_init, contains, size, erase, set_intersection, is_less, zero_point, alpha, num_vars,
    contains-intersection, contains-set_init, set_ext,
  }

  best_value :
      (given : Set) (s x y : ℕ)
      → let best = max_p_value_subset w alpha x y given s s in
        is_independent w alpha best.0 ≡ true → best.0 ≡ p_value w x y best.1
  best_value given s x y h = (max_subset_found w alpha x y given s s h).0

  -- A test that removes its edge returns a separating set with its p-value.
  pub test_found :
      (N : ℕ → Set) (s x y : ℕ)
      → (test w N s (x, y)).1 ≡ true
      → (test w N s (x, y)).0.0 ≡ p_value w x y (test w N s (x, y)).0.1
  unfolding edge_test forward_test
  test_found N s x y h =
      ground (arith, best_value (erase y (N x)) s x y, best_value (erase x (N y)) s x y)

  -- What holds of each entry, for the neighbors N: its edge is gone, and its set separates the ends.
  abbrev pub IsEntry : (ℕ → Set) → RemovedEdge w → Type 0
  IsEntry N (e, pv, dsep) =
      (pv ≡ p_value w e.0 e.1 dsep)
      × (is_independent w alpha pv ≡ true)
      × (contains (N e.0) e.1 ≡ false)

  -- The edges of the list join neighbors, and none is there twice.
  abbrev pub edges_distinct : List (Edge w) → Bool
  edges_distinct [] = true
  edges_distinct (e ∷ es) = not (has_edge w es e.0.0 e.0.1) && edges_distinct es

  -- A common neighbor.
  abbrev pub between : (ℕ → Set) → ℕ → ℕ → ℕ → Bool
  between N x y z = contains (N x) z && contains (N y) z

  pub record Kept (es : List (Edge w)) (N : ℕ → Set) (stored : List (RemovedEdge w)) : Type 0 where
    pub joined : All (λ e. contains (N e.0.0) e.0.1 ≡ true) es
    pub distinct : edges_distinct es ≡ true
    pub entries : All (IsEntry N) stored
    pub once : edges_once w stored ≡ true
    pub present :
        (x y z : ℕ)
        → IsPair w (x, y)
        → contains (N x) y ≡ false
        → between N x y z ≡ true
        → (is_independent_given w alpha x y (set_init num_vars) ≡ true)
          ⊎ (has_stored w stored x y ≡ true)

  pub some_common :
      (N : ℕ → Set) (x y z : ℕ)
      → between N x y z ≡ true
      → (size (set_intersection (N x) (N y)) == 0) ≡ false
  some_common N x y z b =
      ground
        (arith, size_zero w (set_intersection (N x) (N y)) z, contains-intersection (N x) (N y) z)

  has_edge-kept :
      (N N' : ℕ → Set) (s : ℕ) (es : List (Edge w)) (x y : ℕ)
      → has_edge w (next_edges w s N N' es) x y ≡ true
      → has_edge w es x y ≡ true
  has_edge-kept N N' s [] x y h = h
  has_edge-kept N N' s (e ∷ es) x y h = elim (Bool-cases (leaves w s N' (tested w N s e))) [
    | inl b ↦ let rest = has_edge-kept N N' s es x y (rw b at h) in ground arith
    | inr b ↦ let h' = rw b at h in ground (arith, has_edge-kept N N' s es x y)
  ]

  pub edges_distinct-next_edges :
      (N N' : ℕ → Set) (s : ℕ) (es : List (Edge w))
      → edges_distinct es ≡ true
      → edges_distinct (next_edges w s N N' es) ≡ true
  edges_distinct-next_edges N N' s [] d = refl
  edges_distinct-next_edges N N' s (e ∷ es) d =
      let rest = edges_distinct-next_edges N N' s es (ground arith) in
      let fresh = has_edge-kept N N' s es e.0.0 e.0.1 in
      elim (Bool-cases (leaves w s N' (tested w N s e))) [
        | inl b ↦ rw b rest
        | inr b ↦ rw b (ground arith)
      ]

  pub has_stored-append :
      (ts us : List (RemovedEdge w)) (x y : ℕ)
      → has_stored w (ts ++ us) x y ≡ (has_stored w ts x y || has_stored w us x y)
  has_stored-append [] us x y = refl
  has_stored-append (t ∷ ts) us x y = ground (arith, has_stored-append ts us x y)

  pub edges_once-append :
      (ts us : List (RemovedEdge w))
      → edges_once w ts ≡ true
      → edges_once w us ≡ true
      → ((x y : ℕ) → has_stored w ts x y ≡ true → has_stored w us x y ≡ false)
      → edges_once w (ts ++ us) ≡ true
  edges_once-append [] us h k apart = k
  edges_once-append (t ∷ ts) us h k apart = ground (
    arith,
    edges_once-append ts us (ground arith) k (λ x y m. apart x y (ground arith)),
    has_stored-append ts us t.0.0 t.0.1,
    apart t.0.0 t.0.1,
    ==_refl t.0.0,
    ==_refl t.0.1,
  )

  has_stored-keep :
      (N : ℕ → Set) (ts : List (RemovedEdge w)) (x y : ℕ)
      → has_stored w (keep (λ t. not (apart w N t)) ts) x y ≡ true
      → has_stored w ts x y ≡ true
  has_stored-keep N [] x y h = h
  has_stored-keep N (t ∷ ts) x y h = ground (arith, has_stored-keep N ts x y)

  pub edges_once-keep :
      (N : ℕ → Set) (ts : List (RemovedEdge w))
      → edges_once w ts ≡ true
      → edges_once w (keep (λ t. not (apart w N t)) ts) ≡ true
  edges_once-keep N [] h = refl
  edges_once-keep N (t ∷ ts) h =
      ground (arith, edges_once-keep N ts, has_stored-keep N ts t.0.0 t.0.1)

  -- An edge with a common neighbor stays among the stored ones.
  pub keep-has_stored :
      (N : ℕ → Set) (ts : List (RemovedEdge w)) (x y z : ℕ)
      → has_stored w ts x y ≡ true
      → between N x y z ≡ true
      → has_stored w (keep (λ t. not (apart w N t)) ts) x y ≡ true
  keep-has_stored N [] x y z h b = h
  keep-has_stored N (((a, c), pv, dsep) ∷ ts) x y z h b = elim (Bool-cases (x == a && y == c)) [
    | inl e ↦
        let ex : x ≡ a = ==_eq x a (ground arith) in
        let ey : y ≡ c = ==_eq y c (ground arith) in
        let same : between N x y z ≡ between N a c z =
          ap (λ k. between N k y z) ex ∙ ap (λ k. between N a k z) ey in
        let met : apart w N ((a, c), pv, dsep) ≡ false = some_common N a c z (sym same ∙ b) in
        rw met (ground arith)
    | inr e ↦ ground (arith, keep-has_stored N ts x y z)
  ]
