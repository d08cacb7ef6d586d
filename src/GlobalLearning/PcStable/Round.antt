-- ===== src/GlobalLearning/PcStable/Round.antt =====
-- One round of PC-stable as a whole.
use ram_ble.Base.{
  All-append, All-keep, All-of_mem, ℕ, ◌≡◌, refl, sym, ◌∙◌, Bool, true, false, not, ◌&&◌, List, [],
  ◌∷◌, ◌++◌, map, some, arith, if◌then◌else◌, Bool-cases, inl, inr, keep, All,
}
use ram_ble.Setting.{Setting}
use ram_ble.LocalLearning.{all_vars}
use ram_ble.GlobalLearning.{RemovedEdge}
use ram_ble.GlobalLearning.Initialize.{Edge, Neighbors}
use ram_ble.GlobalLearning.PcStable.{Rounds, round, remove_if, drops_edge, drops_stored}
use ram_ble.GlobalLearning.PcStable.Checks.{
  is_var, Holds, IsPair, ArePairs, tested, hits, stores, new_stored, check_edges-Outcome,
}
use ram_ble.GlobalLearning.PcStable.Removal.{
  remove_if-keep, apply_removed-Applied, leaves, drops_edges, apart, drops_stored_edges,
}

module _ (w : Setting) where
  open w use {Set, contains, elems, contains-elems}

  ArePairs-tested :
      (N : ℕ → Set) (s : ℕ) (es : List (Edge w))
      → ArePairs w es
      → ArePairs w (map (tested w N s) es)
  ArePairs-tested N s [] p = tt
  ArePairs-tested N s (e ∷ es) (p, ps) = (p, ArePairs-tested N s es ps)

  new_stored-IsPair :
      (direct_edges : Bool) (N : ℕ → Set) (s : ℕ) (es : List (Edge w))
      → ArePairs w es
      → All (λ t. IsPair w t.0) (new_stored w direct_edges N s es)
  new_stored-IsPair direct_edges N s [] p = tt
  new_stored-IsPair direct_edges N s (e ∷ es) (p, ps) =
      let rest = new_stored-IsPair direct_edges N s es ps in
      elim (Bool-cases (stores w direct_edges N s e.0)) [
        | inl b ↦ rw b (p, rest)
        | inr b ↦ rw b rest
      ]

  -- The edges after a round with the neighbors N before and N' after it.
  abbrev pub next_edges : ℕ → (ℕ → Set) → (ℕ → Set) → List (Edge w) → List (Edge w)
  next_edges s N N' es = keep (λ e. not (leaves w s N' e)) (map (tested w N s) es)

  abbrev pub next_stored :
      Bool → ℕ → (ℕ → Set) → (ℕ → Set) → List (Edge w) → List (RemovedEdge w) → List (RemovedEdge w)
  next_stored direct_edges s N N' es stored =
      let more = stored ++ new_stored w direct_edges N s es in
      if direct_edges then keep (λ t. not (apart w N' t)) more else more

  -- The state of the rounds has the set N v for each variable v, and no marks; its edges are pairs.
  pub record IsState (st : Rounds w) (N : ℕ → Set) : Type 0 where
    pub pairs : ArePairs w st.edges
    pub stored_pairs : All (λ t. IsPair w t.0) st.stored
    pub holds : Holds w st.all N
    pub R : ℕ → Set
    pub unmarked : Holds w st.removed R
    pub empty : (v u : ℕ) → is_var w v ≡ true → contains (R v) u ≡ false

  -- The state after a round.
  pub record Passed (direct_edges : Bool) (s : ℕ) (st : Rounds w) (N : ℕ → Set) : Type 0 where
    pub st' : Rounds w
    pub N' : ℕ → Set
    pub runs : round w direct_edges s st ≡ some st'
    pub state : IsState st' N'
    pub left :
        (v u : ℕ)
        → is_var w v ≡ true
        → contains (N' v) u ≡ (contains (N v) u && not (hits w N s st.edges v u))
    pub edges : st'.edges ≡ next_edges s N N' st.edges
    pub stored : st'.stored ≡ next_stored direct_edges s N N' st.edges st.stored

  filter_stored :
      (direct_edges : Bool) (all : Neighbors w) (N : ℕ → Set) (ts : List (RemovedEdge w))
      → All (λ t. IsPair w t.0) ts
      → Holds w all N
      → (if direct_edges then remove_if w (drops_stored w all) ts else some ts)
        ≡ some (if direct_edges then keep (λ t. not (apart w N t)) ts else ts)
  filter_stored true all N ts p h =
      remove_if-keep w (drops_stored w all) (apart w N) ts (drops_stored_edges w ts all N p h)
  filter_stored false all N ts p h = refl

  filter_stored-IsPair :
      (direct_edges : Bool) (N : ℕ → Set) (ts : List (RemovedEdge w))
      → All (λ t. IsPair w t.0) ts
      → All (λ t. IsPair w t.0) (if direct_edges then keep (λ t. not (apart w N t)) ts else ts)
  filter_stored-IsPair true N ts p = All-keep _ _ ts p
  filter_stored-IsPair false N ts p = p

  pub round-Passed :
      (direct_edges : Bool) (s : ℕ) (st : Rounds w) (N : ℕ → Set)
      → IsState st N
      → Passed direct_edges s st N
  unfolding round
  round-Passed direct_edges s st N i =
      let vars = elems (all_vars w) in
      let checked =
        check_edges-Outcome w direct_edges s st.edges st.all st.removed N i.R st.stored i.pairs
          i.holds i.unmarked in
      let applied =
        apply_removed-Applied w vars st.all checked.removed' N checked.R'
          (All-of_mem _ vars (λ v m. sym (contains-elems (all_vars w) v) ∙ m)) i.holds
          checked.holds in
      let N' = applied.N' in
      let es = map (tested w N s) st.edges in
      let pairs = ArePairs-tested N s st.edges i.pairs in
      let ts = st.stored ++ new_stored w direct_edges N s st.edges in
      let ts_pairs =
        All-append _ st.stored (new_stored w direct_edges N s st.edges) i.stored_pairs
          (new_stored-IsPair direct_edges N s st.edges i.pairs) in
      let rest =
        remove_if-keep w (drops_edge w s applied.all') (leaves w s N') es
          (drops_edges w s es applied.all' N' pairs applied.all_hold) in
      record {
        st' = record {
          edges = next_edges s N N' st.edges;
          all = applied.all';
          removed = applied.removed';
          stored = next_stored direct_edges s N N' st.edges st.stored;
        };
        N' = N';
        runs =
            rw (checked.runs, round)
              (rw (applied.runs, round)
                (rw (rest, round)
                  (rw (filter_stored direct_edges applied.all' N' ts ts_pairs applied.all_hold)
                    refl)));
        state = record {
          pairs = All-keep _ _ es pairs;
          stored_pairs = filter_stored-IsPair direct_edges N' ts ts_pairs;
          holds = applied.all_hold;
          R = applied.R';
          unmarked = applied.removed_hold;
          empty = λ v u hv. ground (arith, applied.empty v u, contains-elems (all_vars w) v);
        };
        left = λ v u hv. ground (
          arith,
          applied.left v u,
          contains-elems (all_vars w) v,
          checked.marked v u,
          i.empty v u hv,
        );
        edges = refl;
        stored = refl;
      }
