-- ===== src/BayesianNetwork.antt =====
-- BayesianNetwork.hpp and detail/BayesianNetwork.hpp: edges, v-structures, Meek's rules.
pub mod Skeleton
pub mod Colliders
pub mod VStructures
pub mod Meek
pub mod Passes
pub mod Cycles
pub mod Reversal
use ram_ble.Base.{
  ℕ, zero, suc, ◌+◌, ◌-◌, Bool, true, false, not, ◌&&◌, ◌||◌, List, [], ◌∷◌, ◌++◌, ltb, leb, ◌==◌,
  if◌then◌else◌, length, any, keep,
}
use ram_ble.Graphs.{Graphs}

module _ (gs : Graphs) where
  open gs use {
    Graph, new_graph, edge_exists, add_edge, remove_edge, edges, in_sources, out_targets,
    has_cycles, has_cycles_from,
  }

  -- addEdge(source, target, undirected)
  unfoldable pub add_edge_between : ℕ → ℕ → Bool → Graph → Graph
  add_edge_between source target undirected g =
      let g' = add_edge source target g in if undirected then add_edge target source g' else g'

  -- AntiParallelEdgeFilter: an edge of the view m_directed
  abbrev pub directed : Graph → ℕ → ℕ → Bool
  directed g source target = edge_exists g source target && not (edge_exists g target source)

  -- m_directed.wrap(v).inEdges() and outNeighbors()
  abbrev pub directed_in : Graph → ℕ → List ℕ
  directed_in g v = keep (λ u. directed g u v) (in_sources g v)

  abbrev pub directed_out : Graph → ℕ → List ℕ
  directed_out g v = keep (λ u. directed g v u) (out_targets g v)

  unfoldable pub has_directed_cycles : Graph → Bool
  has_directed_cycles g = has_cycles g (directed g)

  -- The body of the loop of applyVStructures, for the v-structure y -> x <- z.
  unfoldable pub apply_v_structure : ℕ → ℕ → ℕ → Graph → Graph
  apply_v_structure y x z g =
      if not (edge_exists g y x) || not (edge_exists g z x)
      then g
      else remove_edge x z (remove_edge x y g)

  -- The loop over the sorted v-structures (y, x, z).
  unfoldable pub apply_sorted : List (ℕ × ℕ × ℕ) → Graph → Graph
  unfolding apply_v_structure
  apply_sorted [] g = g
  apply_sorted ((y, x, z) ∷ vs) g = apply_sorted vs (apply_v_structure y x z g)

  -- removeEdgeAcyclic: the graph, and whether the edge was removed
  unfoldable pub remove_edge_acyclic : ℕ → ℕ → Graph → Graph × Bool
  remove_edge_acyclic source target g =
      let g' = remove_edge source target g in
      if has_cycles_from g' (directed g') source
      then (add_edge source target g', false)
      else (g', true)

  unfoldable pub unshielded_collider_rule : Graph → ℕ → ℕ → Bool
  unshielded_collider_rule g y z =
      if length (directed_in g y) == 0
      then false
      else any (λ x. not (edge_exists g z x || edge_exists g x z)) (directed_in g y)

  unfoldable pub acyclicity_rule : Graph → ℕ → ℕ → Bool
  acyclicity_rule g x z =
      let orient_edge = any (λ y. directed g y z) (directed_out g x) in
      let immorality = any (λ v. not (edge_exists g x v || edge_exists g v x)) (directed_in g z) in
      orient_edge && not (if orient_edge then immorality else false)

  unfoldable pub hybrid_rule : Graph → ℕ → ℕ → Bool
  hybrid_rule g x z =
      leb 2 (length (keep (λ y. edge_exists g x y && edge_exists g y x) (directed_in g z)))

  -- the lambda isCollider of applyMeekRules
  unfoldable pub is_collider : Graph → ℕ → Bool
  is_collider g v =
      let ins = length (in_sources g v) in
      let outs = length (out_targets g v) in ltb outs ins && ltb 1 (ins - outs)

  -- The body of the loop of applyMeekRules for the edge source -> target.
  unfoldable pub meek_edge : ℕ → ℕ → Graph → Graph × Bool
  meek_edge source target g =
      if not (edge_exists g target source)
      then (g, false)
      else if is_collider g source && is_collider g target
      then (g, false)
      else if unshielded_collider_rule g target source
      then remove_edge_acyclic source target g
      else if acyclicity_rule g target source
      then remove_edge_acyclic source target g
      else if hybrid_rule g target source
      then remove_edge_acyclic source target g
      else (g, false)

  unfoldable pub meek_edges : List (ℕ × ℕ) → Graph × Bool → Graph × Bool
  meek_edges [] st = st
  meek_edges ((source, target) ∷ es) (g, changed) =
      let (g', oriented) = meek_edge source target g in
      meek_edges es (g', if oriented then true else changed)

  -- antiParallelEdges()
  abbrev pub anti_parallel_edges : Graph → List (ℕ × ℕ)
  anti_parallel_edges g = keep (λ e. edge_exists g e.1 e.0) (edges g)

  unfoldable pub apply_meek_rules : Graph → Graph × Bool
  unfolding meek_edges
  apply_meek_rules g = meek_edges (anti_parallel_edges g) (g, false)

  -- The loop of getNetwork that applies Meek's rules until nothing changes, on fuel.
  unfoldable pub meek_loop : ℕ → Graph → Graph × Bool
  unfolding apply_meek_rules
  meek_loop zero g = (g, true)
  meek_loop (suc fuel) g = elim ((apply_meek_rules g).1) [
    | true ↦ meek_loop fuel (apply_meek_rules g).0
    | false ↦ ((apply_meek_rules g).0, false)
  ]
