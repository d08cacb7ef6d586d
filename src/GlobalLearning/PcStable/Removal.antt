-- ===== src/GlobalLearning/PcStable/Removal.antt =====
-- The end of a round: the removed neighbors, and the edges that stay in the list.
use ram_ble.Base.{
  ℕ, ◌+◌, ◌≡◌, refl, ap, sym, ◌∙◌, Bool, true, false, not, ◌&&◌, ◌||◌, List, [], ◌∷◌, Option, some,
  arith, if◌then◌else◌, leb, ◌==◌, ==_eq, Bool-cases, inl, inr, mem, keep, All,
}
use ram_ble.Setting.{Setting}
use ram_ble.Setting.Facts.{size_zero}
use ram_ble.DiscreteData.{is_independent}
use ram_ble.LocalLearning.{update}
use ram_ble.GlobalLearning.{RemovedEdge}
use ram_ble.GlobalLearning.Initialize.{Edge, Neighbors}
use ram_ble.GlobalLearning.PcStable.{apply_removed, remove_if, drops_edge, drops_stored}
use ram_ble.GlobalLearning.PcStable.Checks.{is_var, Holds, IsPair, ArePairs}

pub remove_if-keep :
    (w : Setting) {A : Type 0} (p : A → Option Bool) (q : A → Bool) (xs : List A)
    → All (λ x. p x ≡ some (q x)) xs
    → remove_if w p xs ≡ some (keep (λ x. not (q x)) xs)
unfolding remove_if
remove_if-keep w p q [] h = refl
remove_if-keep w p q (x ∷ xs) (h, hs) =
    rw (h, remove_if) (rw (remove_if-keep w p q xs hs, remove_if) (ground arith))

module _ (w : Setting) where
  open w use {
    Set, set_init, contains, size, set_difference, set_intersection, num_vars, alpha,
    contains-difference, contains-set_init,
  }

  -- The sets once those of the variable v are applied.
  abbrev minus : ℕ → (ℕ → Set) → (ℕ → Set) → ℕ → Set
  minus v N R u = if u == v then set_difference (N u) (R u) else N u

  abbrev cleared : ℕ → (ℕ → Set) → ℕ → Set
  cleared v R u = if u == v then set_init num_vars else R u

  Holds-update :
      (m : Neighbors w) (N : ℕ → Set) (v : ℕ) (f : ℕ → Set)
      → Holds w m N
      → Holds w (update m v (f v)) (λ u. if u == v then f u else N u)
  Holds-update m N v f h u hu = elim (Bool-cases (u == v)) [
    | inl e ↦ let same : f v ≡ f u = ap f (sym (==_eq u v e)) in ground arith
    | inr e ↦ ground (arith, h u hu)
  ]

  -- What the loop over removedNeighbors leaves.
  pub record Applied (vs : List ℕ) (all removed : Neighbors w) (N R : ℕ → Set) : Type 0 where
    pub all' : Neighbors w
    pub removed' : Neighbors w
    pub N' : ℕ → Set
    pub R' : ℕ → Set
    pub runs : apply_removed w vs all removed ≡ some (all', removed')
    pub all_hold : Holds w all' N'
    pub removed_hold : Holds w removed' R'
    pub left :
        (v u : ℕ) → contains (N' v) u ≡ (contains (N v) u && not (mem v vs && contains (R v) u))
    pub empty : (v u : ℕ) → contains (R' v) u ≡ (contains (R v) u && not (mem v vs))

  pub apply_removed-Applied :
      (vs : List ℕ) (all removed : Neighbors w) (N R : ℕ → Set)
      → All (λ v. is_var w v ≡ true) vs
      → Holds w all N
      → Holds w removed R
      → Applied vs all removed N R
  unfolding apply_removed
  apply_removed-Applied [] all removed N R vars h r = record {
    all' = all;
    removed' = removed;
    N' = N;
    R' = R;
    runs = refl;
    all_hold = h;
    removed_hold = r;
    left = λ v u. ground arith;
    empty = λ v u. ground arith;
  }
  apply_removed-Applied (v ∷ vs) all removed N R (hv, vars) h r =
      elim (Bool-cases (size (R v) == 0)) [
        | inl e ↦
            let rest = apply_removed-Applied vs all removed N R vars h r in
            let none_there : (t u : ℕ) → (t == v) ≡ true → contains (R t) u ≡ false = λ t u same.
              ap (λ k. contains (R k) u) (==_eq t v same)
              ∙ size_zero w (R v) u (==_eq (size (R v)) 0 e) in
            record {
              all' = rest.all';
              removed' = rest.removed';
              N' = rest.N';
              R' = rest.R';
              runs = rw (r v hv, apply_removed) (rw e rest.runs);
              all_hold = rest.all_hold;
              removed_hold = rest.removed_hold;
              left = λ t u. ground (arith, rest.left t u, none_there t u);
              empty = λ t u. ground (arith, rest.empty t u, none_there t u);
            }
        | inr e ↦
            let rest =
              apply_removed-Applied vs (update all v (set_difference (N v) (R v)))
                (update removed v (set_init num_vars)) (minus v N R) (cleared v R) vars
                (Holds-update all N v (λ u. set_difference (N u) (R u)) h)
                (Holds-update removed R v (λ _. set_init num_vars) r) in
            record {
              all' = rest.all';
              removed' = rest.removed';
              N' = rest.N';
              R' = rest.R';
              runs = rw (r v hv, apply_removed) (rw e (rw (h v hv, apply_removed) rest.runs));
              all_hold = rest.all_hold;
              removed_hold = rest.removed_hold;
              left = λ t u. ground (
                arith,
                rest.left t u,
                contains-difference (N t) (R t) u,
                contains-set_init num_vars u,
              );
              empty = λ t u. ground (arith, rest.empty t u, contains-set_init num_vars u);
            }
      ]

  -- The edge leaves the list: it was removed, or both its ends have too few neighbors.
  abbrev pub leaves : ℕ → (ℕ → Set) → Edge w → Bool
  leaves s N e =
      is_independent w alpha e.1 || (leb (size (N e.0.0)) (s + 1) && leb (size (N e.0.1)) (s + 1))

  drops_edge_lem :
      (s x y : ℕ) (pv : w.Double) (all : Neighbors w) (N : ℕ → Set)
      → is_var w x ≡ true
      → is_var w y ≡ true
      → Holds w all N
      → drops_edge w s all ((x, y), pv) ≡ some (leaves s N ((x, y), pv))
  unfolding drops_edge
  drops_edge_lem s x y pv all N hx hy h = ground (arith, h x hx, h y hy)

  pub drops_edges :
      (s : ℕ) (es : List (Edge w)) (all : Neighbors w) (N : ℕ → Set)
      → ArePairs w es
      → Holds w all N
      → All (λ e. drops_edge w s all e ≡ some (leaves s N e)) es
  drops_edges s [] all N p h = tt
  drops_edges s (((x, y), pv) ∷ es) all N ((_, hx, hy), ps) h =
      (drops_edge_lem s x y pv all N hx hy h, drops_edges s es all N ps h)

  -- The ends of a stored edge have no common neighbor.
  abbrev pub apart : (ℕ → Set) → RemovedEdge w → Bool
  apart N t = size (set_intersection (N t.0.0) (N t.0.1)) == 0

  pub drops_stored_edges :
      (ts : List (RemovedEdge w)) (all : Neighbors w) (N : ℕ → Set)
      → All (λ t. IsPair w t.0) ts
      → Holds w all N
      → All (λ t. drops_stored w all t ≡ some (apart N t)) ts
  unfolding drops_stored
  drops_stored_edges [] all N p h = tt
  drops_stored_edges (((x, y), _, _) ∷ ts) all N ((_, hx, hy), ps) h =
      (ground (arith, h x hx, h y hy), drops_stored_edges ts all N ps h)
