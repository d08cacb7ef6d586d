-- ===== src/Samples/Cycles.antt =====
-- Directed cycles: a search for them in the graphs of Graphs/EdgeList, and a network in which three
-- v-structures close one.
use ram_ble.Base.{
  ℕ, zero, suc, ◌+◌, ◌≡◌, refl, Bool, true, false, not, ◌&&◌, List, [], ◌∷◌, ◌++◌, map, arith, ltb,
  ◌==◌, if◌then◌else◌, Bool-cases, inl, inr, All, mem, keep, some,
}
use ram_ble.Setting.{Setting}
use ram_ble.Setting.Gaps.{Gaps, contains, insert, erase, erase_all, elems_from}
use ram_ble.Setting.Gaps.Instance.{sample}
use ram_ble.Graphs.{Acyclic}
use ram_ble.Graphs.EdgeList.{Edges, Simple, edge_lists, targets, cyclic, put}
use ram_ble.BayesianNetwork.{directed, has_directed_cycles, apply_sorted}
use ram_ble.BayesianNetwork.Skeleton.{adjacent, NoLoops}
use ram_ble.BayesianNetwork.VStructures.{apply_v_structures}
use ram_ble.BayesianNetwork.Cycles.{
  IsCycle, CycleSearch, break_directed_cycles, count_edge_cycles, broken, count_edge,
}
use ram_ble.LocalLearning.{all_vars}
use ram_ble.ConstraintBasedLearning.{find_v_structures}
use ram_ble.ConstraintBasedLearning.Network.{get_network, get_network-Acyclic}
use ram_ble.Samples.{chain_table}

abbrev closes : (ℕ → ℕ → Bool) → ℕ → ℕ → List ℕ → Bool
closes e first u [] = e u first
closes e first u (v ∷ vs) = e u v && closes e first v vs

closes-IsCycle :
    (e : ℕ → ℕ → Bool) (first u : ℕ) (vs : List ℕ)
    → closes e first u vs ≡ true
    → IsCycle e first u vs
closes-IsCycle e first u [] h = h
closes-IsCycle e first u (v ∷ vs) h = (ground arith, closes-IsCycle e first v vs (ground arith))

-- The ways from u on to greater vertices than the first, of at most so many edges.
abbrev onward : (ℕ → List (List ℕ)) → ℕ → List ℕ → List ℕ → List (List ℕ)
onward ways first seen [] = []
onward ways first seen (v ∷ vs) =
    let rest = onward ways first seen vs in
    if v == first
    then [] ∷ rest
    else if ltb first v && not (mem v seen)
    then map (λ p. v ∷ p) (ways v) ++ rest
    else rest

abbrev ways_from : ℕ → Edges → ℕ → List ℕ → ℕ → List (List ℕ)
ways_from zero es first seen u = []
ways_from (suc n) es first seen u =
    onward (λ v. ways_from n es first (v ∷ seen) v) first seen (targets u es)

abbrev candidates : Edges → List (ℕ × ℕ) → List (ℕ × List ℕ)
candidates es [] = []
candidates es ((u, v) ∷ fs) =
    let rest = candidates es fs in
    if mem u (map (λ e. e.0) fs) then rest else map (λ p. (u, p)) (ways_from 4 es u [] u) ++ rest

keep-All :
    (e : ℕ → ℕ → Bool) (paths : List (ℕ × List ℕ))
    → All (λ c. IsCycle e c.0 c.0 c.1) (keep (λ c. closes e c.0 c.0 c.1) paths)
keep-All e [] = tt
keep-All e ((u, vs) ∷ paths) = elim (Bool-cases (closes e u u vs)) [
  | inl h ↦ rw h (closes-IsCycle e u u vs h, keep-All e paths)
  | inr h ↦ rw h (keep-All e paths)
]

abbrev search : CycleSearch edge_lists
search = record {
  all_cycles = λ g e.
      keep (λ c. closes (λ x y. edge_lists.edge_exists g x y && e x y) c.0 c.0 c.1)
        (candidates g.0 g.0);
  in_hash_order = λ counts. counts;
  all_cycles_lem =
      λ g e. keep-All (λ x y. edge_lists.edge_exists g x y && e x y) (candidates g.0 g.0);
  in_hash_order_lem = λ P counts a. a;
}

-- 0, 1 and 2 adjacent to each other, and 3 to 1, 4 to 2, 5 to 0.
abbrev six : Setting
six = sample 6 5 2 chain_table

abbrev sun : Simple
sun = (
  (0, 1)
      ∷ (1, 0)
      ∷ (1, 2)
      ∷ (2, 1)
      ∷ (0, 2)
      ∷ (2, 0)
      ∷ (1, 3)
      ∷ (3, 1)
      ∷ (2, 4)
      ∷ (4, 2)
      ∷ (0, 5)
      ∷ (5, 0)
      ∷ [],
  refl,
)

abbrev listed : ℕ → Gaps
listed x =
    if x == 0
    then 1 ∷ 0 ∷ 2 ∷ []
    else if x == 1
    then 0 ∷ 1 ∷ 0 ∷ []
    else if x == 2
    then 0 ∷ 0 ∷ 2 ∷ []
    else (if x == 3 then 1 else if x == 4 then 2 else 0) ∷ []

abbrev near : ℕ → Gaps
near x = erase x (listed x)

-- 0 -> 1 <- 3, 1 -> 2 <- 4 and 2 -> 0 <- 5
abbrev rays : ℕ → ℕ → ℕ → Bool × ℕ
rays y x z = (z == y + 3, 2)

abbrev applied : Simple
applied = apply_v_structures six.doubles edge_lists (find_v_structures six near rays) sun

applied_cyclic : has_directed_cycles edge_lists applied ≡ true
unfolding has_directed_cycles cyclic apply_v_structures apply_sorted find_v_structures elems_from
    all_vars insert erase erase_all
applied_cyclic = refl

sun_counts :
    count_edge_cycles edge_lists search applied ≡ ((0, 1), 1) ∷ ((1, 2), 1) ∷ ((2, 0), 1) ∷ []
unfolding count_edge_cycles cyclic apply_v_structures apply_sorted find_v_structures elems_from
    all_vars insert erase erase_all targets count_edge
sun_counts = refl

-- One of the three edges is reversed.
broken_once : has_directed_cycles edge_lists (broken edge_lists search 1 applied) ≡ false
unfolding has_directed_cycles cyclic apply_v_structures apply_sorted find_v_structures elems_from
    all_vars insert erase erase_all break_directed_cycles targets count_edge put
broken_once = refl

sun-NoLoops : NoLoops edge_lists sun
sun-NoLoops x = ground arith

near_lem : (x : ℕ) → contains (near x) x ≡ false
near_lem x = ground (arith, six.contains-erase x (listed x) x)

get_network-Acyclic_example :
    (h : Simple) × (get_network six near rays edge_lists search 2 true sun ≡ some h)
    × Acyclic (directed edge_lists h)
    × ((x y : ℕ) → adjacent edge_lists h x y ≡ adjacent edge_lists sun x y)
get_network-Acyclic_example =
    get_network-Acyclic six near rays edge_lists search 2 1 sun sun-NoLoops near_lem (omega arith)
      broken_once
