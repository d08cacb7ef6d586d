-- ===== src/ConstraintBasedLearning/Network.antt =====
-- getNetwork: from the skeleton to the network with directed edges. `skeleton` is the network that
-- getSkeleton_sequential returns.
use ram_ble.Base.{
  ℕ, suc, ◌<◌, ◌≡◌, ◌∙◌, refl, Bool, true, false, Option, none, some, arith, if◌then◌else◌, length,
}
use ram_ble.Setting.{Setting}
use ram_ble.Graphs.{Graphs, Acyclic}
use ram_ble.LocalLearning.{all_vars}
use ram_ble.BayesianNetwork.{directed, has_directed_cycles, meek_loop}
use ram_ble.BayesianNetwork.Skeleton.{adjacent, NoLoops, Orients-apply_sorted}
use ram_ble.BayesianNetwork.VStructures.{sort_tuples, ends, apply_v_structures}
use ram_ble.BayesianNetwork.Passes.{meek_loop_ends}
use ram_ble.BayesianNetwork.Cycles.{CycleSearch, break_loop, broken}
use ram_ble.BayesianNetwork.Reversal.{break_loop_ends}
use ram_ble.ConstraintBasedLearning.Centres.{
  collect-IsCentred, AreCentred-ends, AreCentred-sort_tuples,
}
use ram_ble.ConstraintBasedLearning.{collect, find_v_structures}

-- Meek's loop as an Option
abbrev finished : {A : Type 0} → A × Bool → Option A
finished (g, unfinished) = if unfinished then none else some g

module _ (w : Setting) (get_pc : ℕ → w.Set) (check : ℕ → ℕ → ℕ → Bool × w.Double) (gs : Graphs)
    (cs : CycleSearch gs) where
  open w use {Double, contains, elems, contains-elems, contains-erase, contains-difference}
  open gs use {Graph, edges}

  -- getNetwork without parallelism. Each turn of the loop over applyMeekRules but the last takes an
  -- edge away.
  unfoldable pub get_network : ℕ → Bool → Graph → Option Graph
  get_network fuel direct_edges skeleton =
      let found = find_v_structures w get_pc check in
      if direct_edges
      then elim (break_loop gs cs fuel (apply_v_structures w.doubles gs found skeleton)) [
        | none ↦ none
        | some bn ↦ finished (meek_loop gs (suc (length (edges bn))) bn)
      ]
      else some skeleton

  adjacent-apply_v_structures :
      (skeleton : Graph) (x y : ℕ)
      → ((v : ℕ) → contains (get_pc v) v ≡ false)
      → adjacent gs
          (apply_v_structures w.doubles gs (find_v_structures w get_pc check) skeleton)
          x
          y
        ≡ adjacent gs skeleton x y
  unfolding find_v_structures apply_v_structures
  adjacent-apply_v_structures skeleton x y n =
      let found = collect w get_pc check (elems (all_vars w)) in
      let sorted = sort_tuples w.doubles found in
      let centred =
        AreCentred-ends w get_pc check gs sorted
          (AreCentred-sort_tuples w get_pc check found (collect-IsCentred w get_pc check _ n)) in
      let o = Orients-apply_sorted gs (ends w.doubles sorted) skeleton centred in
      o.same_skeleton x y

  -- getNetwork with directed edges, for a skeleton without self loops and sets without their own
  -- variable: if no directed cycle is left after the v-structures and k calls of
  -- breakDirectedCycles, and the fuel is more than k, then it returns a network without directed
  -- cycles in which the same pairs of variables are adjacent as in the skeleton.
  pub get_network-Acyclic :
      (fuel k : ℕ) (skeleton : Graph)
      → NoLoops gs skeleton
      → ((x : ℕ) → contains (get_pc x) x ≡ false)
      → k < fuel
      → has_directed_cycles gs (
          broken gs cs k
            (apply_v_structures w.doubles gs (find_v_structures w get_pc check) skeleton))
        ≡ false
      → (h : Graph) × (get_network fuel true skeleton ≡ some h)
        × Acyclic (directed gs h)
        × ((x y : ℕ) → adjacent gs h x y ≡ adjacent gs skeleton x y)
  unfolding get_network
  get_network-Acyclic fuel k skeleton loops n l gone =
      let found = find_v_structures w get_pc check in
      let g = apply_v_structures w.doubles gs found skeleton in
      let (bn, ends_at, ac, same) = break_loop_ends gs cs fuel k g l gone in
      let kept : (x y : ℕ) → adjacent gs bn x y ≡ adjacent gs skeleton x y =
        λ x y. same x y ∙ adjacent-apply_v_structures skeleton x y n in
      let (h, stops, o, ac') =
        meek_loop_ends gs (suc (length (edges bn))) bn (λ x. ground (arith, kept x x, loops x)) ac
          (omega arith) in
      (h, rw (ends_at, stops) refl, ac', λ x y. o.same_skeleton x y ∙ kept x y)
