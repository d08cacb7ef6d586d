-- ===== src/GlobalLearning/PcStable.antt =====
-- detail/GlobalLearning.hpp: the skeleton of PC-stable on one processor, from the block of all pairs
-- through the rounds of tests to the network. `none` is an access out of range.
pub mod Pairs
pub mod Checks
pub mod Removal
pub mod Round
pub mod Separation
pub mod Start
pub mod Skeleton
pub mod Network
pub mod Sorting
pub mod Stored
pub mod StoredRound
pub mod StoredStart
pub mod Triples
use ram_ble.Base.{
  ℕ, zero, suc, ◌+◌, ◌-◌, ◌*◌, ◌/◌, ◌%◌, ◌^◌, min, Bool, true, false, not, ◌&&◌, ◌||◌, List, [],
  ◌∷◌, ◌++◌, Option, none, some, if◌then◌else◌, ltb, leb, ◌==◌, length,
}
use ram_ble.Setting.{Setting}
use ram_ble.Graphs.{Graphs}
use ram_ble.DiscreteData.{is_independent}
use ram_ble.LocalLearning.{update, all_vars, get_candidates}
use ram_ble.LocalLearning.Skeleton.{add_neighbors}
use ram_ble.GlobalLearning.{RemovedEdge, edge_less, check_edge}
use ram_ble.GlobalLearning.Initialize.{
  drop, find_primary, Edge, Neighbors, cons_edge, fill_edges, first_edges, first_neighbors,
  first_removed, initialize_learning,
}

module _ (w : Setting) where
  open w use {
    Double, zero_point, Set, set_init, elems, size, set_difference, set_intersection, num_vars,
    alpha, max_conditioning,
  }

  -- Keeps a removed edge, if it may be needed for directing edges.
  unfoldable pub store_edge :
      Bool
      → ℕ
      → ℕ × ℕ
      → Double × Set
      → Neighbors w
      → List (RemovedEdge w)
      → Option (List (RemovedEdge w))
  store_edge direct_edges s (x, y) (pv, dsep) all stored =
      if direct_edges && (ltb 0 s && is_independent w alpha pv)
      then elim (all x) [
        | none ↦ none
        | some nx ↦ elim (all y) [
          | none ↦ none
          | some ny ↦ some (
              if not (size (set_intersection nx ny) == 0)
              then stored ++ ((x, y), pv, dsep) ∷ []
              else stored)
        ]
      ]
      else some stored

  -- The edges with their new p-values, the removed neighbors, and the stored edges.
  abbrev pub Checked : Type 0
  Checked = List (Edge w) × Neighbors w × List (RemovedEdge w)

  abbrev pub cons_checked : ℕ × ℕ → Double → Option Checked → Option Checked
  cons_checked e pv none = none
  cons_checked e pv (some (edges, removed, stored)) = some ((e, pv) ∷ edges, removed, stored)

  -- The loop over allEdges.
  unfoldable pub check_edges :
      Bool → ℕ → List (Edge w) → Neighbors w → Neighbors w → List (RemovedEdge w) → Option Checked
  unfolding store_edge
  check_edges direct_edges s [] all removed stored = some ([], removed, stored)
  check_edges direct_edges s (((x, y), _) ∷ edges) all removed stored =
      elim (check_edge w x y all removed s (ltb 0 s)) [
        | none ↦ none
        | some (result, removed') ↦ elim (store_edge direct_edges s (x, y) result all stored) [
          | none ↦ none
          | some stored' ↦
              cons_checked (x, y) result.0 (check_edges direct_edges s edges all removed' stored')
        ]
      ]

  -- The loop over removedNeighbors, whose keys are the variables.
  unfoldable pub apply_removed :
      List ℕ → Neighbors w → Neighbors w → Option (Neighbors w × Neighbors w)
  apply_removed [] all removed = some (all, removed)
  apply_removed (v ∷ vs) all removed = elim (removed v) [
    | none ↦ apply_removed vs all removed
    | some rn ↦
        if not (size rn == 0)
        then elim (all v) [
          | none ↦ none
          | some nv ↦
              apply_removed vs (update all v (set_difference nv rn))
                (update removed v (set_init num_vars))
        ]
        else apply_removed vs all removed
  ]

  -- Whether the first std::remove_if drops the edge.
  unfoldable pub drops_edge : ℕ → Neighbors w → Edge w → Option Bool
  drops_edge s all ((x, y), pv) = if is_independent w alpha pv then some true else elim (all x) [
    | none ↦ none
    | some nx ↦
        if not (leb (size nx) (s + 1))
        then some false
        else elim (all y) [ none ↦ none | some ny ↦ some (leb (size ny) (s + 1)) ]
  ]

  -- std::remove_if with erase, for a test that may throw.
  unfoldable pub remove_if : {A : Type 0} → (A → Option Bool) → List A → Option (List A)
  remove_if p [] = some []
  remove_if p (x ∷ xs) = elim (p x) [
    | none ↦ none
    | some b ↦ elim (remove_if p xs) [
      | none ↦ none
      | some rest ↦ some (if b then rest else x ∷ rest)
    ]
  ]

  -- Whether the second one drops the stored edge: the ends have no common neighbor.
  unfoldable pub drops_stored : Neighbors w → RemovedEdge w → Option Bool
  drops_stored all ((x, y), _, _) = elim (all x) [
    | none ↦ none
    | some nx ↦ elim (all y) [ none ↦ none | some ny ↦ some (size (set_intersection nx ny) == 0) ]
  ]

  -- allEdges, allNeighbors, removedNeighbors and m_removedEdges
  pub record Rounds : Type 0 where
    pub edges : List (Edge w)
    pub all : Neighbors w
    pub removed : Neighbors w
    pub stored : List (RemovedEdge w)

  -- The body of the loop over the sizes.
  unfoldable pub round : Bool → ℕ → Rounds → Option Rounds
  unfolding check_edges apply_removed drops_edge remove_if drops_stored
  round direct_edges s st = elim (check_edges direct_edges s st.edges st.all st.removed st.stored) [
    | none ↦ none
    | some (edges, removed, stored) ↦ elim (apply_removed (elems (all_vars w)) st.all removed) [
      | none ↦ none
      | some (all, removed') ↦ elim (remove_if (drops_edge s all) edges) [
        | none ↦ none
        | some edges' ↦
            elim (if direct_edges then remove_if (drops_stored all) stored else some stored) [
              | none ↦ none
              | some stored' ↦
                  some (record { edges = edges'; all = all; removed = removed'; stored = stored' })
            ]
      ]
    ]
  ]

  -- The loop, for the given number of sizes from s on.
  unfoldable pub rounds : Bool → ℕ → ℕ → Rounds → Option Rounds
  unfolding round
  rounds direct_edges zero s st = some st
  rounds direct_edges (suc n) s st = elim (length st.edges == 0) [
    | true ↦ some st
    | false ↦ elim (round direct_edges s st) [
      | none ↦ none
      | some st' ↦ rounds direct_edges n (s + 1) st'
    ]
  ]

  -- std::sort of the stored edges
  unfoldable pub insert_stored : RemovedEdge w → List (RemovedEdge w) → List (RemovedEdge w)
  insert_stored t [] = t ∷ []
  insert_stored t (u ∷ us) = if edge_less w t.0 u.0 then t ∷ u ∷ us else u ∷ insert_stored t us

  unfoldable pub sort_stored : List (RemovedEdge w) → List (RemovedEdge w)
  unfolding insert_stored
  sort_stored [] = []
  sort_stored (t ∷ ts) = insert_stored t (sort_stored ts)

  -- maxSize, for indices of `var_mod` values
  unfoldable pub max_size : ℕ → ℕ
  max_size var_mod = min max_conditioning ((size (all_vars w) + var_mod - 2) % var_mod)

  -- getSkeleton_sequential up to constructSkeleton: the neighbors and m_removedEdges.
  unfoldable pub learn_neighbors : ℕ → Bool → Option (Neighbors w × List (RemovedEdge w))
  unfolding initialize_learning rounds sort_stored max_size
  learn_neighbors var_mod direct_edges =
      let n = size (all_vars w) in
      elim (initialize_learning w 0 (n * (n - 1) / 2)) [
        | none ↦ none
        | some (edges, all, removed) ↦
            elim (rounds direct_edges (max_size var_mod + 1) 0
              (record { edges = edges; all = all; removed = removed; stored = [] })) [
                | none ↦ none
                | some st ↦ some (st.all, if direct_edges then sort_stored st.stored else st.stored)
              ]
      ]

  module _ (gs : Graphs) where
    open gs use {Graph, new_graph}

    -- The loops of constructSkeleton, over the keys of allNeighbors.
    unfoldable pub add_all : List ℕ → Neighbors w → Graph → Graph
    add_all [] all bn = bn
    add_all (x ∷ xs) all bn = elim (all x) [
      | none ↦ add_all xs all bn
      | some nx ↦ add_all xs all (add_neighbors w gs x (elems nx) bn)
    ]

    -- constructSkeleton: the network, and m_cachedNeighbors
    unfoldable pub construct_skeleton : Neighbors w → Graph × Neighbors w
    unfolding add_all
    construct_skeleton all = (add_all (elems (all_vars w)) all (new_graph num_vars), all)

    -- getSkeleton_sequential: the network, m_cachedNeighbors and m_removedEdges
    unfoldable pub get_skeleton : ℕ → Bool → Option ((Graph × Neighbors w) × List (RemovedEdge w))
    unfolding learn_neighbors construct_skeleton
    get_skeleton var_mod direct_edges = elim (learn_neighbors var_mod direct_edges) [
      | none ↦ none
      | some (all, stored) ↦ some (construct_skeleton all, stored)
    ]

  -- getPC and getMB: m_cachedNeighbors.at(target)
  unfoldable pub get_neighbors : Neighbors w → ℕ → Option Set
  get_neighbors cached target = cached target
