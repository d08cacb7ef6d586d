-- ===== src/GlobalLearning/PcStable/StoredRound.antt =====
-- A round keeps what holds of the stored edges.
use ram_ble.Base.{
  All-append, All-keep, ℕ, ◌≡◌, ◌⊎◌, refl, ap, sym, ◌∙◌, subst, true, false, not, ◌&&◌, List, [],
  ◌∷◌, ◌++◌, arith, ltb, ◌==◌, ==_eq, ==_refl, Bool-cases, inl, inr, All,
}
use ram_ble.Setting.{Setting}
use ram_ble.Setting.Facts.{size_zero}
use ram_ble.DiscreteData.{is_independent, is_independent_given}
use ram_ble.GlobalLearning.{RemovedEdge}
use ram_ble.GlobalLearning.Initialize.{Edge}
use ram_ble.GlobalLearning.PcStable.{Rounds}
use ram_ble.GlobalLearning.PcStable.Checks.{
  IsPair, ArePairs, test, tested, stores, new_stored, test-is_independent,
}
use ram_ble.GlobalLearning.PcStable.Removal.{leaves, apart}
use ram_ble.GlobalLearning.PcStable.Round.{IsState, Passed, next_edges}
use ram_ble.GlobalLearning.PcStable.Separation.{has_edge, Inv, kept, shrinks, test_iff}
use ram_ble.GlobalLearning.PcStable.Sorting.{has_stored, edges_once}
use ram_ble.GlobalLearning.PcStable.Stored.{
  test_found, IsEntry, edges_distinct, between, Kept, some_common, edges_distinct-next_edges,
  has_stored-append, edges_once-append, edges_once-keep, keep-has_stored,
}

module _ (w : Setting) where
  open w use {
    Set, set_init, contains, size, set_intersection, is_less, zero_point, alpha, num_vars,
    contains-set_init, set_ext,
  }

  -- Every edge of es is in fs.
  abbrev AllIn : List (Edge w) → List (Edge w) → Type 0
  AllIn fs es = All (λ e. has_edge w fs e.0.0 e.0.1 ≡ true) es

  AllIn-self :
      (es fs : List (Edge w))
      → ((x y : ℕ) → has_edge w es x y ≡ true → has_edge w fs x y ≡ true)
      → AllIn fs es
  AllIn-self [] fs h = tt
  AllIn-self (e ∷ es) fs h = (
    h e.0.0 e.0.1 (ground (arith, ==_refl e.0.0, ==_refl e.0.1)),
    AllIn-self es fs (λ x y m. h x y (ground arith)),
  )

  has_stored-new_stored :
      (N : ℕ → Set) (s : ℕ) (es : List (Edge w)) (x y : ℕ)
      → has_stored w (new_stored w true N s es) x y ≡ true
      → has_edge w es x y ≡ true
  has_stored-new_stored N s [] x y h = h
  has_stored-new_stored N s (e ∷ es) x y h = elim (Bool-cases (stores w true N s e.0)) [
    | inl b ↦ let h' = rw b at h in ground (arith, has_stored-new_stored N s es x y)
    | inr b ↦ let rest = has_stored-new_stored N s es x y (rw b at h) in ground arith
  ]

  edges_once-new_stored :
      (N : ℕ → Set) (s : ℕ) (es : List (Edge w))
      → edges_distinct w es ≡ true
      → edges_once w (new_stored w true N s es) ≡ true
  edges_once-new_stored N s [] d = refl
  edges_once-new_stored N s (e ∷ es) d =
      let rest = edges_once-new_stored N s es (ground arith) in
      let fresh = has_stored-new_stored N s es e.0.0 e.0.1 in
      elim (Bool-cases (stores w true N s e.0)) [ inl b ↦ rw b (ground arith) | inr b ↦ rw b rest ]

  -- An edge that is stored in this round.
  new_stored-has_stored :
      (N : ℕ → Set) (s : ℕ) (es : List (Edge w)) (x y : ℕ)
      → has_edge w es x y ≡ true
      → stores w true N s (x, y) ≡ true
      → has_stored w (new_stored w true N s es) x y ≡ true
  new_stored-has_stored N s [] x y h st = h
  new_stored-has_stored N s (((a, b), pv) ∷ es) x y h st = elim (Bool-cases (x == a && y == b)) [
    | inl e ↦
        let ex : x ≡ a = ==_eq x a (ground arith) in
        let ey : y ≡ b = ==_eq y b (ground arith) in
        let same : stores w true N s (x, y) ≡ stores w true N s (a, b) =
          ap (λ k. stores w true N s (k, y)) ex ∙ ap (λ k. stores w true N s (a, k)) ey in
        rw (sym same ∙ st) (ground arith)
    | inr e ↦
        let rest = new_stored-has_stored N s es x y (ground arith) st in
        elim (Bool-cases (stores w true N s (a, b))) [
          | inl b' ↦ rw b' (ground arith)
          | inr b' ↦ rw b' rest
        ]
  ]

  has_stored-entry :
      (N : ℕ → Set) (ts : List (RemovedEdge w)) (x y : ℕ)
      → All (IsEntry w N) ts
      → has_stored w ts x y ≡ true
      → contains (N x) y ≡ false
  has_stored-entry N [] x y ps h = absurd (ground arith)
  has_stored-entry N (((a, b), _, _) ∷ ts) x y ((_, _, p), ps) h =
      elim (Bool-cases (x == a && y == b)) [
        | inl e ↦
            ap (λ k. contains (N k) y) (==_eq x a (ground arith))
            ∙ ap (contains (N a)) (==_eq y b (ground arith))
            ∙ p
        | inr e ↦ has_stored-entry N ts x y ps (ground arith)
      ]

  has_edge-joined :
      (N : ℕ → Set) (es : List (Edge w)) (x y : ℕ)
      → All (λ e. contains (N e.0.0) e.0.1 ≡ true) es
      → has_edge w es x y ≡ true
      → contains (N x) y ≡ true
  has_edge-joined N [] x y ps h = absurd (ground arith)
  has_edge-joined N (((a, b), _) ∷ es) x y (p, ps) h = elim (Bool-cases (x == a && y == b)) [
    | inl e ↦
        ap (λ k. contains (N k) y) (==_eq x a (ground arith))
        ∙ ap (contains (N a)) (==_eq y b (ground arith))
        ∙ p
    | inr e ↦ has_edge-joined N es x y ps (ground arith)
  ]

  module _ (s : ℕ) (st : Rounds w) (N : ℕ → Set) (state : IsState w st N) (p : Passed w true s st N)
      (i : Inv w s st.edges N) (low : is_less alpha zero_point ≡ false)
      (k : Kept w st.edges N st.stored) where
    abbrev AreJoined : List (Edge w) → Type 0
    AreJoined es = All (λ e. contains (p.N' e.0.0) e.0.1 ≡ true) es

    next-joined :
        (es : List (Edge w))
        → ArePairs w es
        → All (λ e. contains (N e.0.0) e.0.1 ≡ true) es
        → AreJoined (next_edges w s N p.N' es)
    next-joined [] ps js = tt
    next-joined (((x, y), pv) ∷ es) (q, ps) (j, js) =
        let rest = next-joined es ps js in
        elim (Bool-cases (leaves w s p.N' (tested w N s ((x, y), pv)))) [
          | inl b ↦ rw b rest
          | inr b ↦ rw b (
            ground (
              arith,
              kept w true s st N state p i low x y q,
              test-is_independent w N s (x, y) low,
            ),
            rest,
          )
        ]

    old-entries :
        (ts : List (RemovedEdge w))
        → All (λ t. IsPair w t.0) ts
        → All (IsEntry w N) ts
        → All (IsEntry w p.N') ts
    old-entries [] ps es = tt
    old-entries (((x, y), pv, dsep) ∷ ts) ((l, hx, hy), ps) ((a, b, c), es) =
        ((a, b, ground (arith, shrinks w true s st N state p i low x hx y)), old-entries ts ps es)

    new-entries :
        (es : List (Edge w))
        → ArePairs w es
        → AllIn st.edges es
        → All (IsEntry w p.N') (new_stored w true N s es)
    new-entries [] ps ins = tt
    new-entries (((x, y), pv) ∷ es) (q, ps) (here, ins) =
        let rest = new-entries es ps ins in
        elim (Bool-cases (stores w true N s (x, y))) [
          | inl b ↦
              let sep : is_independent w alpha (test w N s (x, y)).0.0 ≡ true = ground arith in
              let removed : (test w N s (x, y)).1 ≡ true =
                sym (test-is_independent w N s (x, y) low) ∙ sep in
              rw b (
                (
                  test_found w N s x y removed,
                  sep,
                  ground (arith, kept w true s st N state p i low x y q),
                ),
                rest,
              )
          | inr b ↦ rw b rest
        ]

    -- An edge that this round removes.
    removed_now :
        (x y z : ℕ)
        → IsPair w (x, y)
        → contains (N x) y ≡ true
        → contains (p.N' x) y ≡ false
        → between w N x y z ≡ true
        → (has_stored w (new_stored w true N s st.edges) x y ≡ true
            → has_stored w p.st'.stored x y ≡ true)
        → (is_independent_given w alpha x y (set_init num_vars) ≡ true)
          ⊎ (has_stored w p.st'.stored x y ≡ true)
    removed_now x y z (l, hx, hy) e h before found =
        let gone = kept w true s st N state p i low x y (l, hx, hy) in
        let removed : (test w N s (x, y)).1 ≡ true = ground arith in
        let back : contains (N y) x ≡ true = sym (i.symmetric x y hx hy) ∙ e in
        elim (Bool-cases (ltb 0 s)) [
          | inl later ↦
              let stored : stores w true N s (x, y) ≡ true =
                ground
                  (arith, test-is_independent w N s (x, y) low, some_common w N x y z before) in
              inr (found (new_stored-has_stored N s st.edges x y (ground arith) stored))
          | inr first ↦
              let (c, _, (m, sep)) = (test_iff w N s x y e back (i.no_self y hy)).0 removed in
              let none_in : size c ≡ 0 = ground arith in
              let empty : c ≡ set_init num_vars =
                set_ext c (set_init num_vars)
                  (λ u. size_zero w c u none_in ∙ sym (contains-set_init num_vars u)) in
              inl (ap (is_independent_given w alpha x y) (sym empty) ∙ sep)
        ]

    apart_now :
        (x y : ℕ)
        → has_stored w st.stored x y ≡ true
        → has_stored w (new_stored w true N s st.edges) x y ≡ false
    apart_now x y m = elim (Bool-cases (has_stored w (new_stored w true N s st.edges) x y)) [
      | inl new ↦
          let old = has_stored-entry N st.stored x y k.entries m in
          let now =
            has_edge-joined N st.edges x y k.joined (has_stored-new_stored N s st.edges x y new) in
          absurd (ground arith)
      | inr no_new ↦ no_new
    ]

    present' :
        (x y z : ℕ)
        → IsPair w (x, y)
        → contains (p.N' x) y ≡ false
        → between w p.N' x y z ≡ true
        → (is_independent_given w alpha x y (set_init num_vars) ≡ true)
          ⊎ (has_stored w p.st'.stored x y ≡ true)
    present' x y z (l, hx, hy) h b =
        let ts = st.stored ++ new_stored w true N s st.edges in
        let found : has_stored w ts x y ≡ true → has_stored w p.st'.stored x y ≡ true =
          λ m. ap (λ us. has_stored w us x y) p.stored ∙ keep-has_stored w p.N' ts x y z m b in
        let split = has_stored-append w st.stored (new_stored w true N s st.edges) x y in
        let before : between w N x y z ≡ true = ground (
          arith,
          shrinks w true s st N state p i low x hx z,
          shrinks w true s st N state p i low y hy z,
        ) in
        elim (Bool-cases (contains (N x) y)) [
          | inl e ↦ removed_now x y z (l, hx, hy) e h before (λ m. found (split ∙ ground arith))
          | inr e ↦ elim (k.present x y z (l, hx, hy) e before) [
            | inl sep ↦ inl sep
            | inr there ↦ inr (found (split ∙ ground arith))
          ]
        ]

    pub Kept-round : Kept w p.st'.edges p.N' p.st'.stored
    Kept-round =
        let new = new_stored w true N s st.edges in
        let ts = st.stored ++ new in
        record {
          joined = subst AreJoined (sym p.edges) (next-joined st.edges state.pairs k.joined);
          distinct =
              ap (edges_distinct w) p.edges
              ∙ edges_distinct-next_edges w N p.N' s st.edges k.distinct;
          entries = subst (All (IsEntry w p.N')) (sym p.stored) (
              All-keep (IsEntry w p.N') (λ t. not (apart w p.N' t)) ts
                (All-append (IsEntry w p.N') st.stored new
                  (old-entries st.stored state.stored_pairs k.entries)
                  (new-entries st.edges state.pairs (AllIn-self st.edges st.edges (λ x y m. m)))));
          once =
              ap (edges_once w) p.stored
              ∙ edges_once-keep w p.N' ts (
                  edges_once-append w st.stored new k.once
                    (edges_once-new_stored N s st.edges k.distinct) apart_now);
          present = present';
        }
