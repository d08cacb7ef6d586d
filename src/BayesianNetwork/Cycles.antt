-- ===== src/BayesianNetwork/Cycles.antt =====
-- countEdgeCycles with EdgeCycleCounter, breakDirectedCycles, and the loop of getNetwork over it.
use ram_ble.Base.{
  ℕ, zero, suc, ◌+◌, ◌%◌, ◌^◌, ◌≡◌, Bool, true, false, ◌&&◌, List, [], ◌∷◌, Option, none, some, ltb,
  if◌then◌else◌, All,
}
use ram_ble.Graphs.{Graphs, same_edge}
use ram_ble.BayesianNetwork.{directed, has_directed_cycles}

-- Edges lead from u through the vertices, and from the last of them back to the first vertex.
abbrev pub IsCycle : (ℕ → ℕ → Bool) → ℕ → ℕ → List ℕ → Type 0
IsCycle e first u [] = e u first ≡ true
IsCycle e first u (v ∷ vs) = (e u v ≡ true) × IsCycle e first v vs

-- the edges with their numbers of cycles
abbrev pub Counts : Type 0
Counts = List ((ℕ × ℕ) × ℕ)

module _ (gs : Graphs) where
  open gs use {
    Graph, edge_exists, add_edge, remove_edge, edge_exists-add, edge_exists-remove,
    has_cycles_sound,
  }

  pub record CycleSearch : Type 1 where
    -- boost::tiernan_all_cycles on the view through a test of edges: the paths for which the
    -- visitor is called, each as its first vertex and the others
    pub all_cycles : Graph → (ℕ → ℕ → Bool) → List (ℕ × List ℕ)
    -- the entries of a std::unordered_map in the order of iteration
    pub in_hash_order : Counts → Counts
    pub all_cycles_lem :
        (g : Graph) (e : ℕ → ℕ → Bool)
        → All (λ c. IsCycle (λ x y. edge_exists g x y && e x y) c.0 c.0 c.1) (all_cycles g e)
    pub in_hash_order_lem :
        (P : ℕ × ℕ → Type 0) (counts : Counts)
        → All (λ c. P c.0) counts
        → All (λ c. P c.0) (in_hash_order counts)

  module _ (cs : CycleSearch) where
    open cs use {all_cycles, in_hash_order, all_cycles_lem, in_hash_order_lem}

    -- m_counts[e] is set to 0 if it is new, and increased; a size_t has 64 bits
    unfoldable pub count_edge : ℕ × ℕ → Counts → Counts
    count_edge e [] = (e, 1) ∷ []
    count_edge e ((f, n) ∷ counts) =
        let later = count_edge e counts in
        if same_edge e f then (f, (n + 1) % 2 ^ 64) ∷ counts else (f, n) ∷ later

    -- EdgeCycleCounter::cycle, from the vertex u of the path on
    unfoldable pub count_cycle : ℕ → ℕ → List ℕ → Counts → Counts
    count_cycle first u [] counts = count_edge (u, first) counts
    count_cycle first u (v ∷ vs) counts = count_cycle first v vs (count_edge (u, v) counts)

    unfoldable pub count_cycles : List (ℕ × List ℕ) → Counts → Counts
    unfolding count_cycle
    count_cycles [] counts = counts
    count_cycles ((u, vs) ∷ paths) counts = count_cycles paths (count_cycle u u vs counts)

    -- countEdgeCycles
    unfoldable pub count_edge_cycles : Graph → Counts
    unfolding count_cycles
    count_edge_cycles g = count_cycles (all_cycles g (directed gs g)) []

    -- The loop of breakDirectedCycles: e, once it is set, and maxCount, an unsigned int.
    unfoldable pub most_cycles : Counts → Option (ℕ × ℕ) × ℕ → Option (ℕ × ℕ) × ℕ
    most_cycles [] st = st
    most_cycles ((e, n) ∷ counts) (best, max_count) =
        most_cycles counts (if ltb max_count n then (some e, n % 2 ^ 32) else (best, max_count))

    -- What follows the loop; maxCount is 0 as long as e is not set.
    unfoldable pub reverse_edge : Option (ℕ × ℕ) × ℕ → Graph → Graph
    reverse_edge (none, max_count) g = g
    reverse_edge (some (source, target), max_count) g =
        if ltb 0 max_count then add_edge target source (remove_edge source target g) else g

    unfoldable pub break_directed_cycles : Graph → Graph
    unfolding count_edge_cycles most_cycles reverse_edge
    break_directed_cycles g =
        reverse_edge (most_cycles (in_hash_order (count_edge_cycles g)) (none, 0)) g

    -- The loop of getNetwork over breakDirectedCycles, on fuel.
    unfoldable pub break_loop : ℕ → Graph → Option Graph
    unfolding break_directed_cycles
    break_loop zero g = none
    break_loop (suc fuel) g = elim (has_directed_cycles gs g) [
      | true ↦ break_loop fuel (break_directed_cycles g)
      | false ↦ some g
    ]

    -- The network after k turns of the loop.
    abbrev pub broken : ℕ → Graph → Graph
    broken zero g = g
    broken (suc k) g = broken k (break_directed_cycles g)
