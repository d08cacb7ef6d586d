-- ===== src/LocalLearning/Skeleton.antt =====
-- getSkeleton_sequential: the undirected network of the corrected sets.
use ram_ble.Base.{
  ℕ, zero, suc, ◌<◌, ◌≡◌, refl, sym, ap, Bool, true, ◌&&◌, ◌||◌, List, [], ◌∷◌, Option, none, some,
  arith, ltb, ◌==◌, ==_eq, if◌then◌else◌, Bool-cases, inl, inr, mem,
}
use ram_ble.Setting.{Setting}
use ram_ble.Graphs.{Graphs}
use ram_ble.BayesianNetwork.{add_edge_between}
use ram_ble.LocalLearning.{Cache, all_vars, insert_below, get_corrected}
use ram_ble.LocalLearning.Invariant.{CandidateSpec, corrected, contains-corrected}
use ram_ble.LocalLearning.Correction.{IsValid, get_corrected_lem}

module _ (w : Setting) (gs : Graphs) where
  open w use {Set, contains, elems, num_vars, contains-elems, contains-insert, contains-set_init}
  open gs use {Graph, new_graph, edge_exists, edge_exists-add, edge_exists-new}

  -- The inner loop, over the set of x.
  unfoldable pub add_neighbors : ℕ → List ℕ → Graph → Graph
  unfolding add_edge_between
  add_neighbors x [] bn = bn
  add_neighbors x (y ∷ ys) bn =
      add_neighbors x ys (if ltb x y then add_edge_between gs x y true bn else bn)

  pub edge_exists-add_neighbors :
      (x : ℕ) (ys : List ℕ) (bn : Graph) (a b : ℕ)
      → edge_exists (add_neighbors x ys bn) a b ≡ (
          edge_exists bn a b
          || ((a == x && ltb a b && mem b ys) || (b == x && ltb b a && mem a ys)))
  unfolding add_neighbors
  edge_exists-add_neighbors x [] bn a b = ground arith
  edge_exists-add_neighbors x (y ∷ ys) bn a b =
      let g = gs.add_edge x y bn in
      ground (
        arith,
        edge_exists-add_neighbors x ys (if ltb x y then gs.add_edge y x g else bn) a b,
        edge_exists-add y x g a b,
        edge_exists-add x y bn a b,
      )

  module _ (R : Type 0) (candidate : ℕ → Set → R → Option (Set × R)) where
    -- The outer loop.
    unfoldable pub skeleton_loop : List ℕ → Cache w × R → Graph → Option (Graph × (Cache w × R))
    unfolding add_neighbors
    skeleton_loop [] st bn = some (bn, st)
    skeleton_loop (x ∷ xs) st bn = elim (get_corrected w R candidate x st) [
      | none ↦ none
      | some (pc_x, st') ↦ skeleton_loop xs st' (add_neighbors x (elems pc_x) bn)
    ]

    unfoldable pub get_skeleton_sequential : Cache w × R → Option (Graph × (Cache w × R))
    unfolding skeleton_loop
    get_skeleton_sequential st = skeleton_loop (elems (all_vars w)) st (new_graph num_vars)

    module _ (spec : CandidateSpec w R candidate) where
      open spec use {cand, no_self}

      -- The edge a - b, when it is a's turn or b's turn that adds it.
      abbrev added : List ℕ → ℕ → ℕ → Bool
      added xs a b = mem a xs && (ltb a b && contains (corrected w R candidate spec a) b)

      -- The members of the set of x, seen from either end.
      set_of :
          (x a b : ℕ)
          → (a == x) ≡ true
          → mem b (elems (corrected w R candidate spec x))
            ≡ contains (corrected w R candidate spec a) b
      set_of x a b e = rw (==_eq a x e) (contains-elems (corrected w R candidate spec x) b)

      turn :
          (x : ℕ) (bn : Graph) (a b : ℕ)
          → edge_exists (add_neighbors x (elems (corrected w R candidate spec x)) bn) a b ≡ (
              edge_exists bn a b
              || ((a == x && (ltb a b && contains (corrected w R candidate spec a) b))
                  || (b == x && (ltb b a && contains (corrected w R candidate spec b) a))))
      turn x bn a b = ground (
        arith,
        edge_exists-add_neighbors x (elems (corrected w R candidate spec x)) bn a b,
        set_of x a b,
        set_of x b a,
      )

      skeleton_loop_lem :
          (xs : List ℕ) (c : Cache w) (r : R) (bn : Graph)
          → IsValid w R candidate spec c r
          → (bn' : Graph) × (c' : Cache w) × (r' : R) × (skeleton_loop xs (c, r) bn
              ≡ some (bn', (c', r')))
            × IsValid w R candidate spec c' r'
            × ((a b : ℕ)
                → edge_exists bn' a b ≡ (edge_exists bn a b || (added xs a b || added xs b a)))
      unfolding skeleton_loop
      skeleton_loop_lem [] c r bn v = (bn, c, r, refl, v, λ a b. ground arith)
      skeleton_loop_lem (x ∷ xs) c r bn v =
          let s = corrected w R candidate spec x in
          let (c1, r1, e, v1) = get_corrected_lem w R candidate spec x c r v in
          let (bn', c2, r2, runs, v2, f) =
            skeleton_loop_lem xs c1 r1 (add_neighbors x (elems s) bn) v1 in
          (bn', c2, r2, rw (e, skeleton_loop) runs, v2, λ a b. ground (arith, f a b, turn x bn a b))

      mem-all_vars : (n x : ℕ) → contains (insert_below w n) x ≡ ltb x n
      unfolding insert_below
      mem-all_vars zero x = ground (arith, contains-set_init num_vars x)
      mem-all_vars (suc n) x =
          ground (arith, contains-insert n (insert_below w n) x, mem-all_vars n x)

      below : (x : ℕ) → x < num_vars → mem x (elems (all_vars w)) ≡ true
      unfolding all_vars
      below x h = ground (arith, contains-elems (all_vars w) x, mem-all_vars num_vars x)

      get_skeleton_all :
          (c : Cache w) (r : R)
          → IsValid w R candidate spec c r
          → (bn : Graph) × (st : Cache w × R) × (get_skeleton_sequential (c, r) ≡ some (bn, st))
            × ((x y : ℕ)
                → x < num_vars
                → y < num_vars
                → edge_exists bn x y ≡ (contains (cand x) y && contains (cand y) x))
      unfolding get_skeleton_sequential
      get_skeleton_all c r v =
          let (bn, c', r', runs, _, f) =
            skeleton_loop_lem (elems (all_vars w)) c r (new_graph num_vars) v in
          (
            bn,
            (c', r'),
            runs,
            λ x y hx hy. elim (Bool-cases (x == y)) [
              | inl e ↦
                  let same : contains (cand x) y ≡ contains (cand x) x =
                    ap (contains (cand x)) (sym (==_eq x y e)) in
                  ground (arith, f x y, edge_exists-new num_vars x y, no_self x)
              | inr e ↦ ground (
                arith,
                f x y,
                edge_exists-new num_vars x y,
                below x hx,
                below y hy,
                contains-corrected w R candidate spec x y,
                contains-corrected w R candidate spec y x,
              )
            ],
          )

      -- getSkeleton_sequential returns from any valid state of the caches, and in the network that
      -- it returns there is an edge from the variable x to the variable y exactly when each is in
      -- the candidate set of the other.
      pub get_skeleton_sequential_edges :
          (c : Cache w) (r : R) (x y : ℕ)
          → IsValid w R candidate spec c r
          → x < num_vars
          → y < num_vars
          → (bn : Graph) × (st : Cache w × R) × (get_skeleton_sequential (c, r) ≡ some (bn, st))
            × (edge_exists bn x y ≡ (contains (cand x) y && contains (cand y) x))
      get_skeleton_sequential_edges c r x y v hx hy =
          let (bn, st, runs, f) = get_skeleton_all c r v in (bn, st, runs, f x y hx hy)
