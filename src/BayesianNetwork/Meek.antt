-- ===== src/BayesianNetwork/Meek.antt =====
-- Meek's rules: what one pass keeps, and that the passes end.
use ram_ble.Base.{
  ℕ, ◌+◌, ◌≤◌, ◌≡◌, ◌≢◌, ◌⊎◌, inl, inr, sym, subst, Bool, true, false, ◌&&◌, List, [], ◌∷◌, arith,
  ◌==◌, ==_ne, ==_refl, if◌then◌else◌, Bool-cases, any, length,
}
use ram_ble.Graphs.Walks.{Walk-map, closed-Walk}
use ram_ble.Graphs.{Graphs, Acyclic, same_edge, edges_distinct}
use ram_ble.BayesianNetwork.{directed, remove_edge_acyclic, meek_edge, meek_edges}
use ram_ble.BayesianNetwork.Skeleton.{
  Orients, Orients-refl, Orients-trans, Orients-NoLoops, NoLoops, Orients-remove_edge_acyclic,
  edge_exists-put_back,
}

module _ (gs : Graphs) where
  open gs use {
    Graph, edge_exists, add_edge, remove_edge, edges, edge_exists-remove, edge_exists-add,
    has_cycles_from, has_cycles_from_sound, length-remove, length-add, edges_lem, edges_once,
  }

  remove_edge_acyclic-Acyclic :
      (s t : ℕ) (g : Graph)
      → edge_exists g s t ≡ true
      → edge_exists g t s ≡ true
      → s ≢ t
      → Acyclic (directed gs g)
      → Acyclic (directed gs (remove_edge_acyclic gs s t g).0)
  unfolding remove_edge_acyclic
  remove_edge_acyclic-Acyclic s t g e f n ac =
      let g' = remove_edge s t g in
      elim (Bool-cases (has_cycles_from g' (directed gs g') s)) [
        | inl c ↦ rw c (λ v cycle. ac v (
            Walk-map (directed gs (add_edge s t g')) (directed gs g)
              (λ x y h.
                ground
                  (arith, edge_exists-put_back gs s t g x y e, edge_exists-put_back gs s t g y x e))
              cycle))
        | inr c ↦ rw c (λ v cycle.
            elim (closed-Walk (directed gs g) (directed gs g') t s new
              (ground (
                arith,
                edge_exists-remove s t g s t,
                edge_exists-remove s t g t s,
                ==_refl s,
                ==_refl t,
                ==_ne t s (λ p. n (sym p)),
              ))
              cycle) [
                | inl old ↦ ac v old
                | inr through ↦ has_cycles_from_sound g' (directed gs g') s c (
                    Walk-map (directed gs g') (λ x y. edge_exists g' x y && directed gs g' x y)
                      (λ x y h. ground arith) through)
              ])
      ]
    where
      new :
          (x y : ℕ)
          → directed gs (remove_edge s t g) x y ≡ true
          → (directed gs g x y ≡ true) ⊎ ((x ≡ t) × (y ≡ s))
      new x y h = elim (Bool-cases (x == t && y == s)) [
        | inl p ↦ inr (ground arith, ground arith)
        | inr p ↦ inl (ground (arith, edge_exists-remove s t g x y, edge_exists-remove s t g y x))
      ]

  -- A turn of the loop leaves the graph alone, or orients one of two anti-parallel edges.
  meek_edge_cases :
      (s t : ℕ) (g : Graph)
      → (meek_edge gs s t g ≡ (g, false))
        ⊎ ((meek_edge gs s t g ≡ remove_edge_acyclic gs s t g) × (edge_exists g t s ≡ true))
  unfolding meek_edge
  meek_edge_cases s t g = ground arith

  -- A change makes the number of edges smaller.
  length-remove_edge_acyclic :
      (s t : ℕ) (g : Graph)
      → edge_exists g s t ≡ true
      → length (edges (remove_edge_acyclic gs s t g).0)
          + (if (remove_edge_acyclic gs s t g).1 then 1 else 0)
        ≤ length (edges g)
  unfolding remove_edge_acyclic
  length-remove_edge_acyclic s t g e =
      ground (arith, length-remove s t g, length-add s t (remove_edge s t g))

  -- What a turn, or a pass, makes of the network.
  pub record Turn (g h : Graph) (before after : Bool) : Type 0 where
    pub orients : Orients gs g h
    pub acyclic : Acyclic (directed gs g) → Acyclic (directed gs h)
    pub shrinks :
        length (edges h) + (if after then 1 else 0) ≤ length (edges g) + (if before then 1 else 0)

  Turn-refl : (g : Graph) (b : Bool) → Turn g g b b
  Turn-refl g b = record { orients = Orients-refl gs g; acyclic = λ ac. ac; shrinks = omega arith }

  pub Turn-trans : (g h k : Graph) (a b c : Bool) → Turn g h a b → Turn h k b c → Turn g k a c
  Turn-trans g h k a b c p q = record {
    orients = Orients-trans gs g h k p.orients q.orients;
    acyclic = λ ac. q.acyclic (p.acyclic ac);
    shrinks = omega (arith, p.shrinks, q.shrinks);
  }

  Turn-meek_edge :
      (s t : ℕ) (g : Graph) (changed : Bool)
      → edge_exists g s t ≡ true
      → NoLoops gs g
      → Turn g (meek_edge gs s t g).0 changed (if (meek_edge gs s t g).1 then true else changed)
  Turn-meek_edge s t g changed e loops = elim (meek_edge_cases s t g) [
    | inl same ↦ rw same (Turn-refl g changed)
    | inr (same, f) ↦
        let n : s ≢ t = λ p.
          let again = subst (λ v. edge_exists g s v ≡ true) (sym p) e in ground (arith, loops s) in
        rw same (record {
          orients = Orients-remove_edge_acyclic gs s t g e f n;
          acyclic = remove_edge_acyclic-Acyclic s t g e f n;
          shrinks = ground (arith, length-remove_edge_acyclic s t g e);
        })
  ]

  -- The other edges are still there after a turn.
  meek_edge_keeps :
      (s t x y : ℕ) (g : Graph)
      → edge_exists g s t ≡ true
      → same_edge (s, t) (x, y) ≡ false
      → edge_exists g x y ≡ true
      → edge_exists (meek_edge gs s t g).0 x y ≡ true
  unfolding remove_edge_acyclic
  meek_edge_keeps s t x y g e d h = elim (meek_edge_cases s t g) [
    | inl same ↦ rw same h
    | inr (same, f) ↦
        rw same (ground (arith, edge_exists-remove s t g x y, edge_exists-put_back gs s t g x y e))
  ]

  abbrev pub AllExist : Graph → List (ℕ × ℕ) → Type 0
  AllExist g [] = Unit
  AllExist g ((x, y) ∷ es) = (edge_exists g x y ≡ true) × AllExist g es

  AllExist-meek_edge :
      (s t : ℕ) (es : List (ℕ × ℕ)) (g : Graph)
      → edge_exists g s t ≡ true
      → any (same_edge (s, t)) es ≡ false
      → AllExist g es
      → AllExist (meek_edge gs s t g).0 es
  AllExist-meek_edge s t [] g e d h = tt
  AllExist-meek_edge s t ((x, y) ∷ es) g e d (h, hs) = (
    meek_edge_keeps s t x y g e (ground arith) h,
    AllExist-meek_edge s t es g e (ground arith) hs,
  )

  pub Turn-meek_edges :
      (es : List (ℕ × ℕ)) (g : Graph) (changed : Bool)
      → AllExist g es
      → edges_distinct es ≡ true
      → NoLoops gs g
      → Turn g (meek_edges gs es (g, changed)).0 changed (meek_edges gs es (g, changed)).1
  unfolding meek_edges
  Turn-meek_edges [] g changed h d n = Turn-refl g changed
  Turn-meek_edges ((s, t) ∷ es) g changed (e, h) d n =
      let g' = (meek_edge gs s t g).0 in
      let changed' : Bool = if (meek_edge gs s t g).1 then true else changed in
      let first = Turn-meek_edge s t g changed e n in
      let rest =
        Turn-meek_edges es g' changed' (AllExist-meek_edge s t es g e (ground arith) h)
          (ground arith) (Orients-NoLoops gs g g' first.orients n) in
      Turn-trans g g' (meek_edges gs es (g', changed')).0 changed changed'
        (meek_edges gs es (g', changed')).1 first rest
