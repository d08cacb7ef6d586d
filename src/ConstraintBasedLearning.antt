-- ===== src/ConstraintBasedLearning.antt =====
-- detail/ConstraintBasedLearning.hpp: the potential v-structures of a network. The virtual getPC
-- and checkCollider are parameters: `get_pc` is the set that getPC returns, at whatever time it is
-- called, and `check` is checkCollider.
pub mod VStructures
pub mod Centres
pub mod Network
use ram_ble.Base.{ℕ, Bool, true, false, not, ◌&&◌, List, [], ◌∷◌, ◌++◌, any, if◌then◌else◌, ltb}
use ram_ble.Setting.{Setting}
use ram_ble.Graphs.{same_edge}
use ram_ble.LocalLearning.{all_vars}

module _ (w : Setting) (get_pc : ℕ → w.Set) (check : ℕ → ℕ → ℕ → Bool × w.Double) where
  open w use {Double, Set, elems, erase, set_difference}

  -- A v-structure y -> x <- z as (p-value, y, x, z), and the pairs that were checked.
  abbrev pub Found : Type 0
  Found = List (Double × ℕ × ℕ × ℕ) × List (ℕ × ℕ)

  abbrev pub in_order : ℕ → ℕ → ℕ × ℕ
  in_order y z = if ltb y z then (y, z) else (z, y)

  -- The body of the inner loop of findVStructures(target).
  unfoldable pub check_pair : ℕ → ℕ × ℕ → Found → Found
  check_pair target curr (found, checked) =
      let res = check curr.0 target curr.1 in
      if any (same_edge curr) checked then (found, checked) else (
        (if res.0 then found ++ (res.1, curr.0, target, curr.1) ∷ [] else found),
        curr ∷ checked,
      )

  unfoldable pub check_all : ℕ → ℕ → List ℕ → Found → Found
  unfolding check_pair
  check_all target y [] st = st
  check_all target y (z ∷ zs) st = check_all target y zs (check_pair target (in_order y z) st)

  -- cpaTarget: the candidate parents of the target that are not connected to y
  abbrev pub candidate_parents : ℕ → ℕ → Set
  candidate_parents target y = erase y (set_difference (get_pc target) (get_pc y))

  -- The outer loop.
  unfoldable pub check_centre : ℕ → List ℕ → Found → Found
  unfolding check_all
  check_centre target [] st = st
  check_centre target (y ∷ ys) st =
      check_centre target ys (check_all target y (elems (candidate_parents target y)) st)

  -- findVStructures(target)
  unfoldable pub v_structures_of : ℕ → List (Double × ℕ × ℕ × ℕ)
  unfolding check_centre
  v_structures_of target = (check_centre target (elems (get_pc target)) ([], [])).0

  unfoldable pub collect : List ℕ → List (Double × ℕ × ℕ × ℕ)
  unfolding v_structures_of
  collect [] = []
  collect (x ∷ xs) = v_structures_of x ++ collect xs

  -- findVStructures(isParallel) without parallelism
  unfoldable pub find_v_structures : List (Double × ℕ × ℕ × ℕ)
  unfolding collect
  find_v_structures = collect (elems (all_vars w))
