-- ===== src/BayesianNetwork/Reversal.antt =====
-- breakDirectedCycles and the loop of getNetwork over it: the adjacent pairs, and the end.
use ram_ble.Base.{
  ℕ, zero, suc, ◌%◌, ◌^◌, ◌<◌, ◌≡◌, ◌∙◌, refl, true, false, ◌&&◌, List, [], ◌∷◌, Option, none, some,
  arith, ltb, ◌==◌, Bool-cases, inl, inr, All,
}
use ram_ble.Graphs.{Graphs, Acyclic, same_edge}
use ram_ble.Graphs.Walks.{Walk-map}
use ram_ble.BayesianNetwork.{directed, has_directed_cycles}
use ram_ble.BayesianNetwork.Skeleton.{adjacent}
use ram_ble.BayesianNetwork.Cycles.{
  IsCycle, Counts, CycleSearch, count_edge, count_cycle, count_cycles, count_edge_cycles,
  most_cycles, reverse_edge, break_directed_cycles, break_loop, broken,
}

module _ (gs : Graphs) where
  open gs use {
    Graph, edge_exists, add_edge, remove_edge, edge_exists-add, edge_exists-remove,
    has_cycles_sound,
  }

  module _ (cs : CycleSearch gs) where
    open cs use {all_cycles, in_hash_order, all_cycles_lem, in_hash_order_lem}

    abbrev AllDirected : Graph → Counts → Type 0
    AllDirected g = All (λ c. directed gs g c.0.0 c.0.1 ≡ true)

    AllDirected-count_edge :
        (g : Graph) (x y : ℕ) (counts : Counts)
        → directed gs g x y ≡ true
        → AllDirected g counts
        → AllDirected g (count_edge gs cs (x, y) counts)
    unfolding count_edge
    AllDirected-count_edge g x y [] d a = (d, tt)
    AllDirected-count_edge g x y (((s, t), n) ∷ counts) d (b, a) =
        elim (Bool-cases (same_edge (x, y) (s, t))) [
          | inl e ↦ rw e (b, a)
          | inr e ↦ rw e (b, AllDirected-count_edge g x y counts d a)
        ]

    AllDirected-count_cycle :
        (g : Graph) (first u : ℕ) (vs : List ℕ) (counts : Counts)
        → IsCycle (λ x y. edge_exists g x y && directed gs g x y) first u vs
        → AllDirected g counts
        → AllDirected g (count_cycle gs cs first u vs counts)
    unfolding count_cycle
    AllDirected-count_cycle g first u [] counts h a =
        AllDirected-count_edge g u first counts (ground arith) a
    AllDirected-count_cycle g first u (v ∷ vs) counts (h, hs) a =
        AllDirected-count_cycle g first v vs (count_edge gs cs (u, v) counts) hs
          (AllDirected-count_edge g u v counts (ground arith) a)

    AllDirected-count_cycles :
        (g : Graph) (paths : List (ℕ × List ℕ)) (counts : Counts)
        → All (λ c. IsCycle (λ x y. edge_exists g x y && directed gs g x y) c.0 c.0 c.1) paths
        → AllDirected g counts
        → AllDirected g (count_cycles gs cs paths counts)
    unfolding count_cycles
    AllDirected-count_cycles g [] counts h a = a
    AllDirected-count_cycles g ((u, vs) ∷ paths) counts (h, hs) a =
        AllDirected-count_cycles g paths (count_cycle gs cs u u vs counts) hs
          (AllDirected-count_cycle g u u vs counts h a)

    -- The edge, if it is set, is directed.
    abbrev IsDirected : Graph → Option (ℕ × ℕ) → Type 0
    IsDirected g best = (e : ℕ × ℕ) → best ≡ some e → directed gs g e.0 e.1 ≡ true

    most_cycles-IsDirected :
        (g : Graph) (counts : Counts) (best : Option (ℕ × ℕ)) (max_count : ℕ)
        → AllDirected g counts
        → IsDirected g best
        → IsDirected g (most_cycles gs cs counts (best, max_count)).0
    unfolding most_cycles
    most_cycles-IsDirected g [] best max_count a b = b
    most_cycles-IsDirected g ((e, n) ∷ counts) best max_count (d, a) b =
        elim (Bool-cases (ltb max_count n)) [
          | inl l ↦
              rw (l, most_cycles)
                (most_cycles-IsDirected g counts (some e) (n % 2 ^ 32) a
                  (λ f p. let q : e ≡ f = cc in rw (← q) d))
          | inr l ↦ rw (l, most_cycles) (most_cycles-IsDirected g counts best max_count a b)
        ]

    adjacent-reverse_edge :
        (st : Option (ℕ × ℕ) × ℕ) (g : Graph) (x y : ℕ)
        → IsDirected g st.0
        → adjacent gs (reverse_edge gs cs st g) x y ≡ adjacent gs g x y
    unfolding reverse_edge
    adjacent-reverse_edge (none, m) g x y d = refl
    adjacent-reverse_edge (some (s, t), m) g x y d =
        let g' = remove_edge s t g in
        let there = d (s, t) refl in
        let ahead : (x == s && y == t) ≡ true → adjacent gs g x y ≡ true = λ e.
          let p : x ≡ s = ground arith in
          let q : y ≡ t = ground arith in rw (p, q) (ground arith) in
        let back : (y == s && x == t) ≡ true → adjacent gs g x y ≡ true = λ e.
          let p : y ≡ s = ground arith in
          let q : x ≡ t = ground arith in rw (p, q) (ground arith) in
        ground (
          arith,
          ahead,
          back,
          edge_exists-add t s g' x y,
          edge_exists-add t s g' y x,
          edge_exists-remove s t g x y,
          edge_exists-remove s t g y x,
        )

    adjacent-break_directed_cycles :
        (g : Graph) (x y : ℕ) → adjacent gs (break_directed_cycles gs cs g) x y ≡ adjacent gs g x y
    unfolding break_directed_cycles count_edge_cycles
    adjacent-break_directed_cycles g x y =
        let counts = count_edge_cycles gs cs g in
        adjacent-reverse_edge (most_cycles gs cs (in_hash_order counts) (none, 0)) g x y (
          most_cycles-IsDirected g (in_hash_order counts) none 0
            (in_hash_order_lem (λ e. directed gs g e.0 e.1 ≡ true) counts
              (AllDirected-count_cycles g (all_cycles g (directed gs g)) []
                (all_cycles_lem g (directed gs g)) tt))
            (λ e p. absurd (ground arith)))

    pub has_directed_cycles-Acyclic :
        (g : Graph) → has_directed_cycles gs g ≡ false → Acyclic (directed gs g)
    unfolding has_directed_cycles
    has_directed_cycles-Acyclic g h v cycle = has_cycles_sound g (directed gs g) h v (
        Walk-map (directed gs g) (λ x y. edge_exists g x y && directed gs g x y)
          (λ x y d. ground arith) cycle)

    break_loop_step :
        (fuel : ℕ) (g : Graph)
        → has_directed_cycles gs g ≡ true
        → break_loop gs cs (suc fuel) g ≡ break_loop gs cs fuel (break_directed_cycles gs cs g)
    unfolding break_loop
    break_loop_step fuel g e = rw (e, break_loop) refl

    break_loop_stop :
        (fuel : ℕ) (g : Graph)
        → has_directed_cycles gs g ≡ false
        → break_loop gs cs (suc fuel) g ≡ some g
    unfolding break_loop
    break_loop_stop fuel g e = rw (e, break_loop) refl

    -- If the cycles are gone after some turn for which the fuel is enough, then the loop ends with
    -- a network without directed cycles in which the same pairs are adjacent.
    pub break_loop_ends :
        (fuel k : ℕ) (g : Graph)
        → k < fuel
        → has_directed_cycles gs (broken gs cs k g) ≡ false
        → (h : Graph) × (break_loop gs cs fuel g ≡ some h)
          × Acyclic (directed gs h)
          × ((x y : ℕ) → adjacent gs h x y ≡ adjacent gs g x y)
    break_loop_ends zero k g l none_left = absurd (omega arith)
    break_loop_ends (suc fuel) zero g l none_left =
        (g, break_loop_stop fuel g none_left, has_directed_cycles-Acyclic g none_left, λ x y. refl)
    break_loop_ends (suc fuel) (suc k) g l none_left =
        let g' = break_directed_cycles gs cs g in
        elim (Bool-cases (has_directed_cycles gs g)) [
          | inl e ↦
              let (h, ends, ac, same) = break_loop_ends fuel k g' (omega arith) none_left in
              (
                h,
                break_loop_step fuel g e ∙ ends,
                ac,
                λ x y. same x y ∙ adjacent-break_directed_cycles g x y,
              )
          | inr e ↦ (g, break_loop_stop fuel g e, has_directed_cycles-Acyclic g e, λ x y. refl)
        ]
