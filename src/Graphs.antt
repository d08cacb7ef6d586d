-- ===== src/Graphs.antt =====
-- The graph interface of graph/Graph.hpp (a wrapper of Boost.Graph) on which BayesianNetwork is
-- built: its operations with their documented behaviour. A view of a graph through an edge filter
-- is the graph with a test of edges.
pub mod EdgeList
pub mod Walks
use ram_ble.Base.{
  ℕ, ◌+◌, ◌<◌, ◌≤◌, ◌≡◌, Bool, true, false, not, ◌&&◌, ◌||◌, List, [], ◌∷◌, length, any, mem, ◌==◌,
}

-- Walks of one edge or more along the edges that pass a test.
pub data Walk (e : ℕ → ℕ → Bool) : ℕ → ℕ → Type 0 where
  one : {x y : ℕ} → e x y ≡ true → Walk e x y
  more : {x y z : ℕ} → e x y ≡ true → Walk e y z → Walk e x z

abbrev pub Acyclic : (ℕ → ℕ → Bool) → Type 0
Acyclic e = (x : ℕ) → ¬ Walk e x x

-- The test for one edge, and that no edge is listed twice.
abbrev pub same_edge : ℕ × ℕ → ℕ × ℕ → Bool
same_edge (x, y) (a, b) = x == a && y == b

abbrev pub edges_distinct : List (ℕ × ℕ) → Bool
edges_distinct [] = true
edges_distinct (e ∷ es) = not (any (same_edge e) es) && edges_distinct es

pub record Graphs : Type 1 where
  pub Graph : Type 0
  -- the graph of n labelled vertices
  pub new_graph : ℕ → Graph
  pub edge_exists : Graph → ℕ → ℕ → Bool
  pub add_edge : ℕ → ℕ → Graph → Graph
  pub remove_edge : ℕ → ℕ → Graph → Graph
  -- source and target of each edge, in the order of iteration
  pub edges : Graph → List (ℕ × ℕ)
  pub in_sources : Graph → ℕ → List ℕ
  pub out_targets : Graph → ℕ → List ℕ
  -- hasCycles() and hasCycles(source) of the view through a test of edges
  pub has_cycles : Graph → (ℕ → ℕ → Bool) → Bool
  pub has_cycles_from : Graph → (ℕ → ℕ → Bool) → ℕ → Bool
  pub edge_exists-new : (n x y : ℕ) → edge_exists (new_graph n) x y ≡ false
  pub edge_exists-add :
      (a b : ℕ) (g : Graph) (x y : ℕ)
      → edge_exists (add_edge a b g) x y ≡ ((x == a && y == b) || edge_exists g x y)
  pub edge_exists-remove :
      (a b : ℕ) (g : Graph) (x y : ℕ)
      → edge_exists (remove_edge a b g) x y ≡ (not (x == a && y == b) && edge_exists g x y)
  pub length-remove :
      (a b : ℕ) (g : Graph)
      → edge_exists g a b ≡ true
      → length (edges (remove_edge a b g)) < length (edges g)
  pub length-add : (a b : ℕ) (g : Graph) → length (edges (add_edge a b g)) ≤ length (edges g) + 1
  pub edges_lem : (g : Graph) (x y : ℕ) → any (same_edge (x, y)) (edges g) ≡ edge_exists g x y
  pub edges_once : (g : Graph) → edges_distinct (edges g) ≡ true
  pub in_sources_lem : (g : Graph) (x y : ℕ) → mem x (in_sources g y) ≡ edge_exists g x y
  pub out_targets_lem : (g : Graph) (x y : ℕ) → mem y (out_targets g x) ≡ edge_exists g x y
  pub has_cycles_sound :
      (g : Graph) (keep : ℕ → ℕ → Bool)
      → has_cycles g keep ≡ false
      → Acyclic (λ x y. edge_exists g x y && keep x y)
  pub has_cycles_from_sound :
      (g : Graph) (keep : ℕ → ℕ → Bool) (x : ℕ)
      → has_cycles_from g keep x ≡ false
      → ¬ Walk (λ a b. edge_exists g a b && keep a b) x x
