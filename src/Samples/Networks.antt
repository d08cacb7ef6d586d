-- ===== src/Samples/Networks.antt =====
-- Examples of the orientation of edges.
use ram_ble.Base.{◌++◌, ℕ, ◌≡◌, refl, true, false, arith, List, [], ◌∷◌}
use ram_ble.Graphs.{Walk, one, more, Acyclic}
use ram_ble.Graphs.EdgeList.{Simple, edge_lists, targets, sources, cyclic}
use ram_ble.BayesianNetwork.{
  directed, apply_sorted, apply_meek_rules, meek_loop, meek_edge, is_collider,
  unshielded_collider_rule, acyclicity_rule, hybrid_rule, remove_edge_acyclic,
}
use ram_ble.BayesianNetwork.Skeleton.{Orients, NoLoops, AreCentred, Orients-apply_sorted}
use ram_ble.Setting.Gaps.Instance.{percents}
use ram_ble.BayesianNetwork.VStructures.{
  ends, sort_tuples, apply_v_structures, least_collider_stays,
}
use ram_ble.BayesianNetwork.Colliders.{collider_stays}
use ram_ble.BayesianNetwork.Passes.{meek_loop_ends}

-- 0 -> 1 - 2, where Meek's first rule orients 1 - 2.
abbrev arrow : Simple
arrow = ((0, 1) ∷ (1, 2) ∷ (2, 1) ∷ [], refl)

arrow_oriented : (apply_meek_rules edge_lists arrow).0.0 ≡ (0, 1) ∷ (1, 2) ∷ []
unfolding apply_meek_rules meek_edge is_collider targets sources unshielded_collider_rule
    acyclicity_rule hybrid_rule remove_edge_acyclic cyclic
arrow_oriented = refl

arrow-NoLoops : NoLoops edge_lists arrow
arrow-NoLoops x = ground arith

arrow_only : {x y : ℕ} → Walk (directed edge_lists arrow) x y → (x ≡ 0) × (y ≡ 1)
arrow_only (one {x} {y} h) = ground arith
arrow_only (more {x} {y} h t) = let (p, q) = arrow_only t in absurd (ground arith)

arrow-Acyclic : Acyclic (directed edge_lists arrow)
arrow-Acyclic x t = let (p, q) = arrow_only t in omega arith

meek_loop_ends_example :
    (h : Simple) × (meek_loop edge_lists 4 arrow ≡ (h, false))
    × Orients edge_lists arrow h
    × Acyclic (directed edge_lists h)
meek_loop_ends_example = meek_loop_ends edge_lists 4 arrow arrow-NoLoops arrow-Acyclic (omega arith)

-- 0 - 1 - 2 - 3, with the v-structures 0 -> 1 <- 2 and 1 -> 2 <- 3, which conflict.
abbrev path : Simple
path = ((0, 1) ∷ (1, 0) ∷ (1, 2) ∷ (2, 1) ∷ (2, 3) ∷ (3, 2) ∷ [], refl)

abbrev second : List (ℕ × ℕ × ℕ)
second = (1, 2, 3) ∷ []

path-AreCentred : AreCentred edge_lists ((0, 1, 2) ∷ second)
path-AreCentred =
    (((λ e. omega arith), (λ e. omega arith)), (((λ e. omega arith), (λ e. omega arith)), tt))

Orients-apply_sorted_example :
    Orients edge_lists path (apply_sorted edge_lists ((0, 1, 2) ∷ second) path)
Orients-apply_sorted_example =
    Orients-apply_sorted edge_lists ((0, 1, 2) ∷ second) path path-AreCentred

collider_stays_example :
    (directed edge_lists (apply_sorted edge_lists ((0, 1, 2) ∷ second) path) 0 1 ≡ true)
    × (directed edge_lists (apply_sorted edge_lists ((0, 1, 2) ∷ second) path) 2 1 ≡ true)
unfolding apply_sorted
collider_stays_example = collider_stays edge_lists [] second 0 1 2 path path-AreCentred refl refl

-- The conflicting v-structures with p-values of 3 and 1 percent, the lesser one last.
abbrev with_values : List (ℕ × ℕ × ℕ × ℕ)
with_values = (3, 1, 2, 3) ∷ []

sorted-AreCentred :
    AreCentred edge_lists ((0, 1, 2) ∷ ends percents (sort_tuples percents (with_values ++ [])))
unfolding sort_tuples
sorted-AreCentred = path-AreCentred

least_collider_stays_example :
    let end = apply_v_structures percents edge_lists (with_values ++ (1, 0, 1, 2) ∷ []) path in
    (directed edge_lists end 0 1 ≡ true) × (directed edge_lists end 2 1 ≡ true)
least_collider_stays_example =
    least_collider_stays percents edge_lists with_values [] 1 0 1 2 path ((refl, refl), tt) tt
      sorted-AreCentred refl refl
