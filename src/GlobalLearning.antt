-- ===== src/GlobalLearning.antt =====
-- detail/GlobalLearning.hpp: the test of one edge and the colliders of the PC-stable algorithm.
-- `none` is the std::out_of_range that .at() throws.
pub mod Edges
pub mod Marks
pub mod Colliders
pub mod Initialize
pub mod PcStable
use ram_ble.Base.{
  ℕ, Bool, true, false, not, ◌&&◌, ◌||◌, List, [], ◌∷◌, Option, none, some, if◌then◌else◌, ltb,
  ◌==◌,
}
use ram_ble.Setting.{Setting}
use ram_ble.DiscreteData.{p_value, is_independent, max_p_value_subset}
use ram_ble.LocalLearning.{update}

module _ (w : Setting) where
  open w use {
    Double, zero_point, Set, set_init, contains, size, insert, erase, set_difference, num_vars,
    alpha,
  }

  -- pv and dsep with remove, after the test of checkEdge over the neighbors of x
  unfoldable pub forward_test : ℕ → ℕ → Set → ℕ → (Double × Set) × Bool
  forward_test x y x_neighbors set_size =
      let best = max_p_value_subset w alpha x y (erase y x_neighbors) set_size set_size in
      if ltb set_size (size x_neighbors)
      then (best, is_independent w alpha best.0)
      else ((zero_point, set_init num_vars), false)

  -- and after the one over the neighbors of y
  unfoldable pub edge_test : ℕ → ℕ → Set → Set → ℕ → Bool → (Double × Set) × Bool
  unfolding forward_test
  edge_test x y x_neighbors y_neighbors set_size check_backward =
      let tested = forward_test x y x_neighbors set_size in
      let x_neighbors' =
        if ltb set_size (size x_neighbors) then erase y x_neighbors else x_neighbors in
      let y_neighbors' = erase x y_neighbors in
      let best = max_p_value_subset w alpha x y y_neighbors' set_size set_size in
      if check_backward && (not tested.1 && ltb set_size (size y_neighbors))
      then (if not (size (set_difference y_neighbors' x_neighbors') == 0)
          then (best, is_independent w alpha best.0)
          else tested)
      else tested

  -- removedNeighbors.at(x).insert(y)
  unfoldable pub mark : ℕ → ℕ → (ℕ → Option Set) → Option (ℕ → Option Set)
  mark x y removed = elim (removed x) [
    | none ↦ none
    | some s ↦ some (update removed x (insert y s))
  ]

  unfoldable pub mark_both : ℕ → ℕ → (ℕ → Option Set) → Option (ℕ → Option Set)
  unfolding mark
  mark_both x y removed = elim (mark x y removed) [
    | none ↦ none
    | some removed' ↦ mark y x removed'
  ]

  -- The end of checkEdge, after the tests.
  unfoldable pub finish_edge :
      ℕ → ℕ → (Double × Set) × Bool → (ℕ → Option Set) → Option ((Double × Set) × (ℕ → Option Set))
  unfolding mark_both
  finish_edge x y (best, remove) removed = elim remove [
    | false ↦ some (best, removed)
    | true ↦ elim (mark_both x y removed) [ none ↦ none | some removed' ↦ some (best, removed') ]
  ]

  -- checkEdge for the edge x - y: pv and dsep, and the removed neighbors.
  unfoldable pub check_edge :
      ℕ
      → ℕ
      → (ℕ → Option Set)
      → (ℕ → Option Set)
      → ℕ
      → Bool
      → Option ((Double × Set) × (ℕ → Option Set))
  unfolding edge_test finish_edge
  check_edge x y all removed set_size check_backward = elim (all x) [
    | none ↦ none
    | some nx ↦ elim (all y) [
      | none ↦ none
      | some ny ↦ finish_edge x y (edge_test x y nx ny set_size check_backward) removed
    ]
  ]

  -- An entry of m_removedEdges: the edge, its p-value and its separating set.
  abbrev pub RemovedEdge : Type 0
  RemovedEdge = (ℕ × ℕ) × Double × Set

  abbrev pub edge_less : ℕ × ℕ → ℕ × ℕ → Bool
  edge_less (a, b) (c, d) = ltb a c || (a == c && ltb b d)

  -- std::lower_bound: the list from the first entry that is not less.
  unfoldable pub lower_bound : ℕ × ℕ → List RemovedEdge → List RemovedEdge
  lower_bound e [] = []
  lower_bound e (t ∷ ts) = let later = lower_bound e ts in if edge_less t.0 e then later else t ∷ ts

  -- The answer from the list at eIt.
  unfoldable pub stored_answer : ℕ → ℕ → ℕ → ℕ × ℕ → List RemovedEdge → Bool × Double
  stored_answer y x z edge [] = (true, p_value w y z (set_init num_vars))
  stored_answer y x z edge (t ∷ _) =
      if not (t.0.0 == edge.0 && t.0.1 == edge.1)
      then (true, p_value w y z (set_init num_vars))
      else (not (contains t.2 x), t.1)

  abbrev pub forward_edge : ℕ → ℕ → ℕ × ℕ
  forward_edge y z = if ltb y z then (y, z) else (z, y)

  -- checkCollider, over the removed edges
  unfoldable pub check_stored : ℕ → ℕ → ℕ → List RemovedEdge → Bool × Double
  unfolding lower_bound stored_answer
  check_stored y x z removed_edges =
      stored_answer y x z (forward_edge y z) (lower_bound (forward_edge y z) removed_edges)
