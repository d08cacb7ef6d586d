-- ===== src/GlobalLearning/PcStable/Checks.antt =====
-- One pass over the edges: what checkEdge marks, and what is removed of the neighbors.
use mathlib.Core.List.{append-nil, append_assoc}
use ram_ble.Base.{
  ℕ, ◌<◌, ◌≡◌, ◌≢◌, refl, ap, sym, Bool, true, false, not, ◌&&◌, ◌||◌, List, [], ◌∷◌, ◌++◌, map,
  some, arith, if◌then◌else◌, ltb, ◌==◌, ==_eq, Bool-cases, inl, inr, All,
}
use ram_ble.Setting.{Setting}
use ram_ble.DiscreteData.{is_independent}
use ram_ble.LocalLearning.{update, all_vars}
use ram_ble.GlobalLearning.{RemovedEdge, edge_test, forward_test, check_edge, finish_edge}
use ram_ble.GlobalLearning.Marks.{mark_both_lem}
use ram_ble.GlobalLearning.Initialize.{Edge, Neighbors}
use ram_ble.GlobalLearning.PcStable.{store_edge, check_edges}

module _ (w : Setting) where
  open w use {
    Double, is_less, zero_point, Set, contains, insert, size, set_intersection, alpha,
    contains-insert,
  }

  abbrev pub is_var : ℕ → Bool
  is_var v = contains (all_vars w) v

  -- The map holds the set N v for each variable v.
  abbrev pub Holds : Neighbors w → (ℕ → Set) → Type 0
  Holds all N = (v : ℕ) → is_var v ≡ true → all v ≡ some (N v)

  -- y is added to the set of x, and x to that of y, if the test says so.
  abbrev with_marks : ℕ → ℕ → Bool → (ℕ → Set) → ℕ → Set
  with_marks x y true R v =
      if v == y then insert x (R v) else if v == x then insert y (R v) else R v
  with_marks x y false R v = R v

  contains-with_marks :
      (x y : ℕ) (b : Bool) (R : ℕ → Set) (v u : ℕ)
      → x ≢ y
      → contains (with_marks x y b R v) u
        ≡ (contains (R v) u || (b && ((v == x && u == y) || (v == y && u == x))))
  contains-with_marks x y false R v u ne = ground arith
  contains-with_marks x y true R v u ne =
      ground (arith, contains-insert x (R v) u, contains-insert y (R v) u)

  finish_edge-Holds :
      (x y : ℕ) (best : Double × Set) (b : Bool) (removed : Neighbors w) (R : ℕ → Set)
      → x ≢ y
      → is_var x ≡ true
      → is_var y ≡ true
      → Holds removed R
      → (removed' : Neighbors w) × (finish_edge w x y (best, b) removed ≡ some (best, removed'))
        × Holds removed' (with_marks x y b R)
  unfolding finish_edge
  finish_edge-Holds x y best false removed R ne hx hy r = (removed, refl, r)
  finish_edge-Holds x y best true removed R ne hx hy r =
      let removed' = update (update removed x (insert y (R x))) y (insert x (R y)) in
      (
        removed',
        rw (mark_both_lem w x y removed (R x) (R y) ne (r x hx) (r y hy), finish_edge) refl,
        λ v hv. elim (Bool-cases (v == y)) [
          | inl e ↦ let same : R y ≡ R v = ap R (sym (==_eq v y e)) in ground arith
          | inr e ↦ elim (Bool-cases (v == x)) [
            | inl e' ↦ let same : R x ≡ R v = ap R (sym (==_eq v x e')) in ground arith
            | inr e' ↦ ground (arith, r v hv)
          ]
        ],
      )

  -- The test of the edge x - y in the round of size s.
  abbrev pub test : (ℕ → Set) → ℕ → ℕ × ℕ → (Double × Set) × Bool
  test N s (x, y) = edge_test w x y (N x) (N y) s (ltb 0 s)

  check_edge-Holds :
      (x y s : ℕ) (all removed : Neighbors w) (N R : ℕ → Set)
      → x ≢ y
      → is_var x ≡ true
      → is_var y ≡ true
      → Holds all N
      → Holds removed R
      → (removed' : Neighbors w) × (check_edge w x y all removed s (ltb 0 s)
          ≡ some ((test N s (x, y)).0, removed'))
        × Holds removed' (with_marks x y (test N s (x, y)).1 R)
  unfolding check_edge
  check_edge-Holds x y s all removed N R ne hx hy h r =
      let t = test N s (x, y) in
      let (removed', runs, holds) = finish_edge-Holds x y t.0 t.1 removed R ne hx hy r in
      (removed', rw (h x hx, check_edge) (rw (h y hy, check_edge) runs), holds)

  -- The p-value of the test says whether the edge is to be removed.
  pub test-is_independent :
      (N : ℕ → Set) (s : ℕ) (e : ℕ × ℕ)
      → is_less alpha zero_point ≡ false
      → is_independent w alpha (test N s e).0.0 ≡ (test N s e).1
  unfolding edge_test forward_test
  test-is_independent N s (x, y) low = ground arith

  -- A pair of variables in order.
  abbrev pub IsPair : ℕ × ℕ → Type 0
  IsPair (x, y) = (x < y) × (is_var x ≡ true) × (is_var y ≡ true)

  abbrev pub ArePairs : List (Edge w) → Type 0
  ArePairs es = All (λ e. IsPair e.0) es

  -- The edge with the p-value of its test.
  abbrev pub tested : (ℕ → Set) → ℕ → Edge w → Edge w
  tested N s e = (e.0, (test N s e.0).0.0)

  -- Some edge of the list between v and u is to be removed.
  abbrev pub hits : (ℕ → Set) → ℕ → List (Edge w) → ℕ → ℕ → Bool
  hits N s [] v u = false
  hits N s (e ∷ es) v u =
      ((test N s e.0).1 && ((v == e.0.0 && u == e.0.1) || (v == e.0.1 && u == e.0.0)))
      || hits N s es v u

  -- The edges that are stored in the round of size s.
  abbrev pub stores : Bool → (ℕ → Set) → ℕ → ℕ × ℕ → Bool
  stores direct_edges N s (x, y) =
      direct_edges
      && (ltb 0 s && is_independent w alpha (test N s (x, y)).0.0)
      && not (size (set_intersection (N x) (N y)) == 0)

  abbrev pub new_stored : Bool → (ℕ → Set) → ℕ → List (Edge w) → List (RemovedEdge w)
  new_stored direct_edges N s [] = []
  new_stored direct_edges N s (e ∷ es) =
      let rest = new_stored direct_edges N s es in
      if stores direct_edges N s e.0
      then (e.0, (test N s e.0).0.0, (test N s e.0).0.1) ∷ rest
      else rest

  store_edge_lem :
      (direct_edges : Bool) (N : ℕ → Set) (s x y : ℕ) (all : Neighbors w)
      (stored : List (RemovedEdge w))
      → is_var x ≡ true
      → is_var y ≡ true
      → Holds all N
      → store_edge w direct_edges s (x, y) (test N s (x, y)).0 all stored
        ≡ some (
            if stores direct_edges N s (x, y)
            then stored ++ ((x, y), (test N s (x, y)).0.0, (test N s (x, y)).0.1) ∷ []
            else stored)
  unfolding store_edge
  store_edge_lem direct_edges N s x y all stored hx hy h = ground (arith, h x hx, h y hy)

  stored-cons :
      (direct_edges : Bool) (N : ℕ → Set) (s : ℕ) (e : Edge w) (es : List (Edge w))
      (stored : List (RemovedEdge w))
      → (if stores direct_edges N s e.0
            then stored ++ (e.0, (test N s e.0).0.0, (test N s e.0).0.1) ∷ []
            else stored)
          ++ new_stored direct_edges N s es
        ≡ stored ++ new_stored direct_edges N s (e ∷ es)
  stored-cons direct_edges N s e es stored = elim (Bool-cases (stores direct_edges N s e.0)) [
    | inl b ↦ rw b (
        append_assoc stored ((e.0, (test N s e.0).0.0, (test N s e.0).0.1) ∷ [])
          (new_stored direct_edges N s es))
    | inr b ↦ rw b refl
  ]

  -- What the loop over the edges leaves: the tested edges, the marks, and the stored edges.
  pub record Outcome (direct_edges : Bool) (s : ℕ) (es : List (Edge w)) (all removed : Neighbors w)
      (N R : ℕ → Set) (stored : List (RemovedEdge w)) : Type 0 where
    pub removed' : Neighbors w
    pub R' : ℕ → Set
    pub runs :
        check_edges w direct_edges s es all removed stored
        ≡ some (map (tested N s) es, removed', stored ++ new_stored direct_edges N s es)
    pub holds : Holds removed' R'
    pub marked : (v u : ℕ) → contains (R' v) u ≡ (contains (R v) u || hits N s es v u)

  pub check_edges-Outcome :
      (direct_edges : Bool) (s : ℕ) (es : List (Edge w)) (all removed : Neighbors w) (N R : ℕ → Set)
      (stored : List (RemovedEdge w))
      → ArePairs es
      → Holds all N
      → Holds removed R
      → Outcome direct_edges s es all removed N R stored
  unfolding check_edges
  check_edges-Outcome direct_edges s [] all removed N R stored p h r = record {
    removed' = removed;
    R' = R;
    runs = rw (append-nil stored) refl;
    holds = r;
    marked = λ v u. ground arith;
  }
  check_edges-Outcome direct_edges s (((x, y), pv) ∷ es) all removed N R stored (p, ps) h r =
      let (l, hx, hy) = p in
      let ne : x ≢ y = λ e. omega (arith, e) in
      let b = (test N s (x, y)).1 in
      let (removed1, runs1, holds1) = check_edge-Holds x y s all removed N R ne hx hy h r in
      let stored1 =
        if stores direct_edges N s (x, y)
        then stored ++ ((x, y), (test N s (x, y)).0.0, (test N s (x, y)).0.1) ∷ []
        else stored in
      let rest =
        check_edges-Outcome direct_edges s es all removed1 N (with_marks x y b R) stored1 ps h
          holds1 in
      record {
        removed' = rest.removed';
        R' = rest.R';
        runs =
            rw (runs1, check_edges)
              (rw (store_edge_lem direct_edges N s x y all stored hx hy h, check_edges)
                (rw rest.runs (rw (stored-cons direct_edges N s ((x, y), pv) es stored) refl)));
        holds = rest.holds;
        marked = λ v u. ground (arith, rest.marked v u, contains-with_marks x y b R v u ne);
      }
