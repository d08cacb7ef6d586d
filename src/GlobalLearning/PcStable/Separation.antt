-- ===== src/GlobalLearning/PcStable/Separation.antt =====
-- The rounds of PC-stable keep an edge exactly as long as no set separates its ends.
use ram_ble.Base.{
  ℕ, zero, suc, ◌+◌, ◌≤◌, ◌<◌, ◌≡◌, ◌↔◌, ◌⊎◌, refl, ap, sym, ◌∙◌, Bool, true, false, not, ◌&&◌,
  ◌||◌, List, [], ◌∷◌, arith, ltb, ◌==◌, ==_eq, Bool-cases, inl, inr,
}
use ram_ble.Setting.{Setting}
use ram_ble.Setting.Facts.{Within, size_le, size-erase}
use ram_ble.DiscreteData.{is_independent, is_independent_given}
use ram_ble.LocalLearning.{all_vars}
use ram_ble.GlobalLearning.Edges.{SeparatesAt, edge_test_iff, edge_test_zero}
use ram_ble.GlobalLearning.Initialize.{Edge}
use ram_ble.GlobalLearning.PcStable.{Rounds}
use ram_ble.GlobalLearning.PcStable.Checks.{
  is_var, IsPair, ArePairs, test, tested, hits, test-is_independent,
}
use ram_ble.GlobalLearning.PcStable.Removal.{leaves}
use ram_ble.GlobalLearning.PcStable.Round.{IsState, Passed, next_edges}

module _ (w : Setting) where
  open w use {
    Set, contains, size, erase, is_less, zero_point, alpha, max_conditioning, contains-erase,
  }

  abbrev pub has_edge : List (Edge w) → ℕ → ℕ → Bool
  has_edge [] x y = false
  has_edge (e ∷ es) x y = (x == e.0.0 && y == e.0.1) || has_edge es x y

  hits_lem :
      (N : ℕ → Set) (s : ℕ) (es : List (Edge w)) (x y : ℕ)
      → ArePairs w es
      → x < y
      → hits w N s es x y ≡ (has_edge es x y && (test w N s (x, y)).1)
  hits_lem N s [] x y p l = refl
  hits_lem N s (((a, b), pv) ∷ es) x y ((ab, _, _), ps) l = elim (Bool-cases (x == a && y == b)) [
    | inl e ↦
        let ex : x ≡ a = ==_eq x a (ground arith) in
        let ey : y ≡ b = ==_eq y b (ground arith) in
        let same : test w N s (x, y) ≡ test w N s (a, b) =
          ap (λ t. test w N s (t, y)) ex ∙ ap (λ t. test w N s (a, t)) ey in
        ground (arith, hits_lem N s es x y ps l, ap (λ t. t.1) same)
    | inr e ↦ ground (arith, hits_lem N s es x y ps l)
  ]

  hits-swap :
      (N : ℕ → Set) (s : ℕ) (es : List (Edge w)) (x y : ℕ) → hits w N s es y x ≡ hits w N s es x y
  hits-swap N s [] x y = refl
  hits-swap N s (e ∷ es) x y = ground (arith, hits-swap N s es x y)

  has_edge-next_edges :
      (N N' : ℕ → Set) (s : ℕ) (es : List (Edge w)) (x y : ℕ)
      → has_edge es x y ≡ true
      → leaves w s N' ((x, y), (test w N s (x, y)).0.0) ≡ false
      → has_edge (next_edges w s N N' es) x y ≡ true
  has_edge-next_edges N N' s [] x y h l = h
  has_edge-next_edges N N' s (((a, b), pv) ∷ es) x y h l = elim (Bool-cases (x == a && y == b)) [
    | inl e ↦
        let ex : x ≡ a = ==_eq x a (ground arith) in
        let ey : y ≡ b = ==_eq y b (ground arith) in
        let same : leaves w s N' (tested w N s ((x, y), pv))
            ≡ leaves w s N' (tested w N s ((a, b), pv)) =
          ap (λ t. leaves w s N' (tested w N s ((t, y), pv))) ex
          ∙ ap (λ t. leaves w s N' (tested w N s ((a, t), pv))) ey in
        rw (sym same ∙ l) (ground arith)
    | inr e ↦
        let rest = has_edge-next_edges N N' s es x y (ground arith) l in
        elim (Bool-cases (leaves w s N' (tested w N s ((a, b), pv)))) [
          | inl b' ↦ rw b' rest
          | inr b' ↦ rw b' (ground arith)
        ]
  ]

  -- A set of the neighbors of x without y, or of those of y without x.
  abbrev pub Among : (ℕ → Set) → ℕ → ℕ → Set → Type 0
  Among N x y c = Within w c (erase y (N x)) ⊎ Within w c (erase x (N y))

  -- The test of a pair of neighbors finds a separating set of its size exactly when there is one.
  pub test_iff :
      (N : ℕ → Set) (s x y : ℕ)
      → contains (N x) y ≡ true
      → contains (N y) x ≡ true
      → contains (N y) y ≡ false
      → ((test w N s (x, y)).1 ≡ true) ↔ ((c : Set) × Among N x y c × SeparatesAt w x y s c)
  test_iff N zero x y hx hy self = edge_test_zero w x y (N x) (N y) hx
  test_iff N (suc s) x y hx hy self =
      let back : ltb 0 (suc s) ≡ true = ground arith in
      rw back (edge_test_iff w x y (N x) (N y) (suc s) hx hy self)

  pub Among-smaller :
      (N : ℕ → Set) (x y : ℕ) (c : Set)
      → contains (N x) y ≡ true
      → contains (N y) x ≡ true
      → Among N x y c
      → (size c < size (N x)) ⊎ (size c < size (N y))
  Among-smaller N x y c hx hy (inl inside) =
      inl (omega (arith, size_le w c (erase y (N x)) inside, size-erase w y (N x) hx))
  Among-smaller N x y c hx hy (inr inside) =
      inr (omega (arith, size_le w c (erase x (N y)) inside, size-erase w x (N y) hy))

  -- Some variables other than x and y.
  abbrev pub Others : ℕ → ℕ → Set → Type 0
  Others x y c = Within w c (erase y (erase x (all_vars w)))

  -- The state before the round of size s: the neighbors are symmetric; what is not adjacent was
  -- separated; what is adjacent is not separated by a smaller set of neighbors, and is still in the
  -- list or has too few neighbors.
  pub record Inv (s : ℕ) (es : List (Edge w)) (N : ℕ → Set) : Type 0 where
    pub inside : (x y : ℕ) → is_var w x ≡ true → contains (N x) y ≡ true → is_var w y ≡ true
    pub no_self : (x : ℕ) → is_var w x ≡ true → contains (N x) x ≡ false
    pub symmetric :
        (x y : ℕ) → is_var w x ≡ true → is_var w y ≡ true → contains (N x) y ≡ contains (N y) x
    pub separated :
        (x y : ℕ)
        → IsPair w (x, y)
        → contains (N x) y ≡ false
        → (c : Set) × Others x y c × (size c < s) × (is_independent_given w alpha x y c ≡ true)
    pub unseparated :
        (x y : ℕ) (c : Set)
        → IsPair w (x, y)
        → contains (N x) y ≡ true
        → Among N x y c
        → size c < s
        → is_independent_given w alpha x y c ≡ false
    pub waiting :
        (x y : ℕ)
        → IsPair w (x, y)
        → contains (N x) y ≡ true
        → (has_edge es x y ≡ true) ⊎ ((size (N x) ≤ s) × (size (N y) ≤ s))

  -- A set among the neighbors is a set of other variables.
  pub Among-Others :
      (s : ℕ) (es : List (Edge w)) (N : ℕ → Set) (x y : ℕ) (c : Set)
      → Inv s es N
      → IsPair w (x, y)
      → Among N x y c
      → Others x y c
  Among-Others s es N x y c i (l, hx, hy) (inl inside) z h =
      let ne : (z == x) ≡ true → contains (N x) z ≡ contains (N x) x =
        λ e. ap (contains (N x)) (==_eq z x e) in
      ground (
        arith,
        inside z h,
        contains-erase y (N x) z,
        contains-erase y (erase x (all_vars w)) z,
        contains-erase x (all_vars w) z,
        i.inside x z hx,
        i.no_self x hx,
        ne,
      )
  Among-Others s es N x y c i (l, hx, hy) (inr inside) z h =
      let ne : (z == y) ≡ true → contains (N y) z ≡ contains (N y) y =
        λ e. ap (contains (N y)) (==_eq z y e) in
      ground (
        arith,
        inside z h,
        contains-erase x (N y) z,
        contains-erase y (erase x (all_vars w)) z,
        contains-erase x (all_vars w) z,
        i.inside y z hy,
        i.no_self y hy,
        ne,
      )

  module _ (direct_edges : Bool) (s : ℕ) (st : Rounds w) (N : ℕ → Set) (state : IsState w st N)
      (p : Passed w direct_edges s st N) (i : Inv s st.edges N)
      (low : is_less alpha zero_point ≡ false) where
    -- The test of a pair, and the set after the round.
    pub kept :
        (x y : ℕ)
        → IsPair w (x, y)
        → contains (p.N' x) y
          ≡ (contains (N x) y && not (has_edge st.edges x y && (test w N s (x, y)).1))
    kept x y (l, hx, hy) = ground (arith, p.left x y hx, hits_lem N s st.edges x y state.pairs l)

    pub shrinks : (x : ℕ) → is_var w x ≡ true → Within w (p.N' x) (N x)
    shrinks x hx u h = ground (arith, p.left x u hx)

    symmetric' :
        (x y : ℕ)
        → is_var w x ≡ true
        → is_var w y ≡ true
        → contains (p.N' x) y ≡ contains (p.N' y) x
    symmetric' x y hx hy =
        ground
          (arith, p.left x y hx, p.left y x hy, i.symmetric x y hx hy, hits-swap N s st.edges x y)

    separated' :
        (x y : ℕ)
        → IsPair w (x, y)
        → contains (p.N' x) y ≡ false
        → (c : Set) × Others x y c × (size c < s + 1) × (is_independent_given w alpha x y c ≡ true)
    separated' x y (l, hx, hy) h = elim (Bool-cases (contains (N x) y)) [
      | inl e ↦
          let back : contains (N y) x ≡ true = sym (i.symmetric x y hx hy) ∙ e in
          let (c, among, (m, sep)) =
            (test_iff N s x y e back (i.no_self y hy)).0 (ground (arith, kept x y (l, hx, hy))) in
          (c, Among-Others s st.edges N x y c i (l, hx, hy) among, omega (arith, m), sep)
      | inr e ↦
          let (c, others, m, sep) = i.separated x y (l, hx, hy) e in
          (c, others, omega (arith, m), sep)
    ]

    Among-before : (x y : ℕ) (c : Set) → IsPair w (x, y) → Among p.N' x y c → Among N x y c
    Among-before x y c (l, hx, hy) (inl inside) = inl (λ z h.
        ground (
          arith,
          inside z h,
          contains-erase y (p.N' x) z,
          contains-erase y (N x) z,
          shrinks x hx z,
        ))
    Among-before x y c (l, hx, hy) (inr inside) = inr (λ z h.
        ground (
          arith,
          inside z h,
          contains-erase x (p.N' y) z,
          contains-erase x (N y) z,
          shrinks y hy z,
        ))

    unseparated' :
        (x y : ℕ) (c : Set)
        → IsPair w (x, y)
        → contains (p.N' x) y ≡ true
        → Among p.N' x y c
        → size c < s + 1
        → is_independent_given w alpha x y c ≡ false
    unseparated' x y c (l, hx, hy) h among m =
        let adjacent = shrinks x hx y h in
        let back : contains (N y) x ≡ true = sym (i.symmetric x y hx hy) ∙ adjacent in
        let before = Among-before x y c (l, hx, hy) among in
        elim (Bool-cases (ltb (size c) s)) [
          | inl e ↦ i.unseparated x y c (l, hx, hy) adjacent before (ground arith)
          | inr e ↦ elim (i.waiting x y (l, hx, hy) adjacent) [
            | inl he ↦
                let no_test : (test w N s (x, y)).1 ≡ false =
                  ground (arith, kept x y (l, hx, hy)) in
                let full : size c ≡ s = ground arith in
                elim (Bool-cases (is_independent_given w alpha x y c)) [
                  | inl sep ↦
                      let found =
                        (test_iff N s x y adjacent back (i.no_self y hy)).1
                          (c, before, (full, sep)) in
                      absurd (ground arith)
                  | inr dep ↦ dep
                ]
            | inr (small_x, small_y) ↦ elim (Among-smaller N x y c adjacent back before) [
              | inl less ↦ absurd (ground arith)
              | inr less ↦ absurd (ground arith)
            ]
          ]
        ]

    waiting' :
        (x y : ℕ)
        → IsPair w (x, y)
        → contains (p.N' x) y ≡ true
        → (has_edge p.st'.edges x y ≡ true) ⊎ ((size (p.N' x) ≤ s + 1) × (size (p.N' y) ≤ s + 1))
    waiting' x y (l, hx, hy) h = elim (i.waiting x y (l, hx, hy) (shrinks x hx y h)) [
      | inl he ↦ elim (Bool-cases (leaves w s p.N' ((x, y), (test w N s (x, y)).0.0))) [
        | inl e ↦
            let dependent : is_independent w alpha (test w N s (x, y)).0.0 ≡ false =
              ground (arith, kept x y (l, hx, hy), test-is_independent w N s (x, y) low) in
            inr (ground arith)
        | inr e ↦ inl (rw p.edges (has_edge-next_edges N p.N' s st.edges x y he e))
      ]
      | inr (small_x, small_y) ↦ inr (
        omega (arith, size_le w (p.N' x) (N x) (shrinks x hx)),
        omega (arith, size_le w (p.N' y) (N y) (shrinks y hy)),
      )
    ]

    -- The round keeps the invariant.
    pub Inv-round : Inv (s + 1) p.st'.edges p.N'
    Inv-round = record {
      inside = λ x y hx h. i.inside x y hx (shrinks x hx y h);
      no_self = λ x hx. ground (arith, p.left x x hx, i.no_self x hx);
      symmetric = symmetric';
      separated = separated';
      unseparated = unseparated';
      waiting = waiting';
    }
