-- ===== src/BayesianNetwork/Skeleton.antt =====
-- Orienting edges keeps the skeleton: no edge appears, and no two variables stop being adjacent.
use ram_ble.Base.{
  ℕ, ◌≡◌, ◌≢◌, ◌∙◌, refl, sym, Bool, true, false, not, ◌&&◌, ◌||◌, List, [], ◌∷◌, arith, ◌==◌,
  ==_ne, Bool-cases, inl, inr, All,
}
use ram_ble.Graphs.{Graphs}
use ram_ble.BayesianNetwork.{directed, apply_v_structure, apply_sorted, remove_edge_acyclic}

module _ (gs : Graphs) where
  open gs use {
    Graph, edge_exists, add_edge, remove_edge, edges, edge_exists-add, edge_exists-remove,
    has_cycles_from,
  }

  abbrev pub adjacent : Graph → ℕ → ℕ → Bool
  adjacent g x y = edge_exists g x y || edge_exists g y x

  -- h is g with some edges oriented.
  pub record Orients (g h : Graph) : Type 0 where
    pub fewer : (x y : ℕ) → edge_exists h x y ≡ true → edge_exists g x y ≡ true
    pub same_skeleton : (x y : ℕ) → adjacent h x y ≡ adjacent g x y

  pub Orients-refl : (g : Graph) → Orients g g
  Orients-refl g = record { fewer = λ x y e. e; same_skeleton = λ x y. refl }

  pub Orients-trans : (a b c : Graph) → Orients a b → Orients b c → Orients a c
  Orients-trans a b c p q = record {
    fewer = λ x y e. p.fewer x y (q.fewer x y e);
    same_skeleton = λ x y. q.same_skeleton x y ∙ p.same_skeleton x y;
  }

  -- A directed edge stays directed.
  pub Orients-directed :
      (g h : Graph) (x y : ℕ) → Orients g h → directed gs g x y ≡ true → directed gs h x y ≡ true
  Orients-directed g h x y o d = ground (arith, o.fewer y x, o.same_skeleton x y)

  abbrev pub NoLoops : Graph → Type 0
  NoLoops g = (x : ℕ) → edge_exists g x x ≡ false

  pub Orients-NoLoops : (g h : Graph) → Orients g h → NoLoops g → NoLoops h
  Orients-NoLoops g h o n x = ground (arith, o.fewer x x, n x)

  -- Removing one of two anti-parallel edges.
  pub Orients-remove :
      (s t : ℕ) (g : Graph) → edge_exists g t s ≡ true → s ≢ t → Orients g (remove_edge s t g)
  Orients-remove s t g e n = record {
    fewer = λ x y h. ground (arith, edge_exists-remove s t g x y);
    same_skeleton = λ x y.
        ground
          (arith, edge_exists-remove s t g x y, edge_exists-remove s t g y x, other x y, other y x);
  }
    where
      other : (x y : ℕ) → (x == s && y == t) ≡ true → edge_exists g y x ≡ true
      other x y h = let p : x ≡ s = ground arith in let q : y ≡ t = ground arith in rw (p, q) e

  pub Orients-apply_v_structure :
      (y x z : ℕ) (g : Graph) → x ≢ y → x ≢ z → Orients g (apply_v_structure gs y x z g)
  unfolding apply_v_structure
  Orients-apply_v_structure y x z g ny nz =
      elim (Bool-cases (not (edge_exists g y x) || not (edge_exists g z x))) [
        | inl e ↦ rw e (Orients-refl g)
        | inr e ↦
            let g1 = remove_edge x y g in
            let kept : edge_exists g1 z x ≡ true =
              ground (arith, edge_exists-remove x y g z x, ==_ne x z nz) in
            rw e (
              Orients-trans g g1 (remove_edge x z g1) (Orients-remove x y g (ground arith) ny)
                (Orients-remove x z g1 kept nz))
      ]

  -- The centre of each v-structure differs from its two ends.
  abbrev pub AreCentred : List (ℕ × ℕ × ℕ) → Type 0
  AreCentred = All (λ v. (v.1 ≢ v.0) × (v.1 ≢ v.2))

  -- applyVStructures, for v-structures whose centre differs from their ends, only orients edges:
  -- it adds none, and the same pairs of variables are adjacent before and after.
  pub Orients-apply_sorted :
      (vs : List (ℕ × ℕ × ℕ)) (g : Graph) → AreCentred vs → Orients g (apply_sorted gs vs g)
  unfolding apply_sorted
  Orients-apply_sorted [] g c = Orients-refl g
  Orients-apply_sorted ((y, x, z) ∷ vs) g ((ny, nz), c) =
      let h = apply_v_structure gs y x z g in
      Orients-trans g h (apply_sorted gs vs h) (Orients-apply_v_structure y x z g ny nz)
        (Orients-apply_sorted vs h c)

  -- Putting the edge back after a failed orientation.
  pub edge_exists-put_back :
      (s t : ℕ) (g : Graph) (x y : ℕ)
      → edge_exists g s t ≡ true
      → edge_exists (add_edge s t (remove_edge s t g)) x y ≡ edge_exists g x y
  edge_exists-put_back s t g x y e = elim (Bool-cases (x == s && y == t)) [
    | inl h ↦
        let p : x ≡ s = ground arith in
        let q : y ≡ t = ground arith in
        ground (arith, edge_exists-add s t (remove_edge s t g) x y, rw (← p, ← q) at e)
    | inr h ↦
        ground (arith, edge_exists-add s t (remove_edge s t g) x y, edge_exists-remove s t g x y)
  ]

  -- Two graphs with the same edges.
  pub Orients-same :
      (g h : Graph) → ((x y : ℕ) → edge_exists h x y ≡ edge_exists g x y) → Orients g h
  Orients-same g h f = record {
    fewer = λ x y e. sym (f x y) ∙ e;
    same_skeleton = λ x y. ground (arith, f x y, f y x);
  }

  pub Orients-remove_edge_acyclic :
      (s t : ℕ) (g : Graph)
      → edge_exists g s t ≡ true
      → edge_exists g t s ≡ true
      → s ≢ t
      → Orients g (remove_edge_acyclic gs s t g).0
  unfolding remove_edge_acyclic
  Orients-remove_edge_acyclic s t g e f n =
      let g' = remove_edge s t g in
      elim (Bool-cases (has_cycles_from g' (directed gs g') s)) [
        | inl c ↦ rw c (Orients-same g (add_edge s t g') (λ x y. edge_exists-put_back s t g x y e))
        | inr c ↦ rw c (Orients-remove s t g f n)
      ]
