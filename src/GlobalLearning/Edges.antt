-- ===== src/GlobalLearning/Edges.antt =====
-- checkEdge: when an edge is removed.
use ram_ble.Base.{
  ℕ, ◌<◌, ◌≡◌, ◌↔◌, ◌⊎◌, ap, Bool, true, false, not, ◌&&◌, ◌||◌, arith, if◌then◌else◌, ltb, ◌==◌,
  ==_eq, Bool-cases, inl, inr,
}
use ram_ble.Setting.{Setting}
use ram_ble.Setting.Facts.{Within, size_le, size-erase, size_zero}
use ram_ble.DiscreteData.{is_independent, is_independent_given, max_p_value_subset}
use ram_ble.DiscreteData.MaxSubset.{max_subset_found, max_subset_exhausted}
use ram_ble.GlobalLearning.{forward_test, edge_test}

module _ (w : Setting) (x y : ℕ) where
  open w use {
    Set, set_init, contains, size, insert, erase, set_difference, contains-erase,
    contains-difference, num_vars, alpha,
  }

  -- A set of the given size that separates x from y.
  abbrev pub SeparatesAt : ℕ → Set → Type 0
  SeparatesAt n c = (size c ≡ n) × (is_independent_given w alpha x y c ≡ true)

  abbrev tested : Set → ℕ → Bool
  tested given n = is_independent w alpha (max_p_value_subset w alpha x y given n n).0

  tested_sound :
      (given : Set) (n : ℕ) → tested given n ≡ true → (c : Set) × Within w c given × SeparatesAt n c
  tested_sound given n h =
      let best = max_p_value_subset w alpha x y given n n in
      let (_, (inside, low, high, p)) = max_subset_found w alpha x y given n n h in
      (best.1, inside, (omega (arith, low, high), p))

  tested_complete :
      (given : Set) (n : ℕ) (c : Set) → Within w c given → SeparatesAt n c → tested given n ≡ true
  tested_complete given n c inside (m, p) = elim (Bool-cases (tested given n)) [
    | inl e ↦ e
    | inr e ↦
        let (_, none) =
          max_subset_exhausted w alpha x y given n n c e inside (omega (arith, m))
            (omega (arith, m)) in
        absurd (ground arith)
  ]

  -- The neighbors of x as they are after the first test.
  abbrev after : Set → ℕ → Set
  after nx n = if ltb n (size nx) then erase y nx else nx

  edge_test_lem :
      (nx ny : Set) (n : ℕ) (back : Bool)
      → (edge_test w x y nx ny n back).1 ≡ (
          (ltb n (size nx) && tested (erase y nx) n)
          || (back
              && ltb n (size ny)
              && not (size (set_difference (erase x ny) (after nx n)) == 0)
              && tested (erase x ny) n))
  unfolding edge_test forward_test
  edge_test_lem nx ny n back = ground arith

  -- A set among the neighbors of y without x that are all neighbors of x.
  shared :
      (nx ny : Set) (n : ℕ) (c : Set)
      → contains nx y ≡ true
      → contains ny y ≡ false
      → size (set_difference (erase x ny) (after nx n)) ≡ 0
      → Within w c (erase x ny)
      → Within w c (erase y nx)
  shared nx ny n c hx hy none inside z h =
      let d = set_difference (erase x ny) (after nx n) in
      let different : (z == y) ≡ true → contains ny z ≡ contains ny y =
        λ e. ap (contains ny) (==_eq z y e) in
      ground (
        arith,
        inside z h,
        size_zero w d z none,
        contains-difference (erase x ny) (after nx n) z,
        contains-erase x ny z,
        contains-erase y nx z,
        different,
      )

  smaller : (z : ℕ) (s c : Set) → contains s z ≡ true → Within w c (erase z s) → size c < size s
  smaller z s c h inside = omega (arith, size_le w c (erase z s) inside, size-erase w z s h)

  -- checkEdge with checkBackward, for two neighbors x and y: the edge is removed exactly when some
  -- set of the given size, of the neighbors of x without y or of the neighbors of y without x,
  -- separates the two; the checks of the sizes and of the difference of the neighborhoods lose no
  -- such set.
  pub edge_test_iff :
      (nx ny : Set) (n : ℕ)
      → contains nx y ≡ true
      → contains ny x ≡ true
      → contains ny y ≡ false
      → ((edge_test w x y nx ny n true).1 ≡ true)
        ↔ ((c : Set) × (Within w c (erase y nx) ⊎ Within w c (erase x ny)) × SeparatesAt n c)
  edge_test_iff nx ny n hx hy self = (sound, complete)
    where
      sound :
          (edge_test w x y nx ny n true).1 ≡ true
          → (c : Set) × (Within w c (erase y nx) ⊎ Within w c (erase x ny)) × SeparatesAt n c
      sound h = elim (Bool-cases (tested (erase y nx) n)) [
        | inl e ↦ let (c, inside, s) = tested_sound (erase y nx) n e in (c, inl inside, s)
        | inr e ↦
            let (c, inside, s) =
              tested_sound (erase x ny) n (ground (arith, edge_test_lem nx ny n true)) in
            (c, inr inside, s)
      ]

      forward :
          (c : Set)
          → Within w c (erase y nx)
          → SeparatesAt n c
          → (edge_test w x y nx ny n true).1 ≡ true
      forward c inside (m, p) =
          let found = tested_complete (erase y nx) n c inside (m, p) in
          ground (arith, edge_test_lem nx ny n true, smaller y nx c hx inside)

      complete :
          (c : Set) × (Within w c (erase y nx) ⊎ Within w c (erase x ny)) × SeparatesAt n c
          → (edge_test w x y nx ny n true).1 ≡ true
      complete (c, inl inside, s) = forward c inside s
      complete (c, inr inside, (m, p)) =
          let d = set_difference (erase x ny) (after nx n) in
          let found = tested_complete (erase x ny) n c inside (m, p) in
          elim (Bool-cases (size d == 0)) [
            | inl e ↦ forward c (shared nx ny n c hx self (==_eq (size d) 0 e) inside) (m, p)
            | inr e ↦ ground (arith, edge_test_lem nx ny n true, smaller x ny c hy inside)
          ]

  -- The same for the first round, which has no second test: the set is the empty one.
  pub edge_test_zero :
      (nx ny : Set)
      → contains nx y ≡ true
      → ((edge_test w x y nx ny 0 false).1 ≡ true)
        ↔ ((c : Set) × (Within w c (erase y nx) ⊎ Within w c (erase x ny)) × SeparatesAt 0 c)
  edge_test_zero nx ny hx = (sound, complete)
    where
      sound :
          (edge_test w x y nx ny 0 false).1 ≡ true
          → (c : Set) × (Within w c (erase y nx) ⊎ Within w c (erase x ny)) × SeparatesAt 0 c
      sound h =
          let (c, inside, s) =
            tested_sound (erase y nx) 0 (ground (arith, edge_test_lem nx ny 0 false)) in
          (c, inl inside, s)

      complete :
          (c : Set) × (Within w c (erase y nx) ⊎ Within w c (erase x ny)) × SeparatesAt 0 c
          → (edge_test w x y nx ny 0 false).1 ≡ true
      complete (c, _, (m, p)) =
          let inside : Within w c (erase y nx) =
            λ z h. absurd (ground (arith, size_zero w c z m)) in
          let found = tested_complete (erase y nx) 0 c inside (m, p) in
          ground (arith, edge_test_lem nx ny 0 false, smaller y nx c hx inside)
