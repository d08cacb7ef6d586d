-- ===== src/GlobalLearning/Initialize.antt =====
-- detail/GlobalLearning.hpp: initializeLearning, the block of pairs of one processor with the sets
-- of its variables. `none` is an access out of range.
use ram_ble.Base.{
  ℕ, zero, suc, ◌+◌, ◌-◌, List, [], ◌∷◌, Option, none, some, if◌then◌else◌, leb, length,
}
use ram_ble.Setting.{Setting}
use ram_ble.LocalLearning.{update, all_vars, get_candidates}

-- The iterator k places on; the list from there.
abbrev pub drop {ℓ} : {A : Type ℓ} → ℕ → List A → List A
drop zero xs = xs
drop (suc k) [] = []
drop (suc k) (x ∷ xs) = drop k xs

-- The `while` loop that finds the first variable of this processor: k and currOffset. On
-- std::size_t, n - (k + 1) wraps; the loop has ended before, when there are edges from my_offset on.
unfoldable pub find_primary : ℕ → ℕ → ℕ → ℕ → ℕ → ℕ × ℕ
find_primary zero n my_offset k curr_offset = (k, curr_offset)
find_primary (suc fuel) n my_offset k curr_offset =
    let next = find_primary fuel n my_offset (k + 1) (curr_offset + (n - (k + 1))) in
    if leb (curr_offset + (n - (k + 1))) my_offset then next else (k, curr_offset)

module _ (w : Setting) where
  open w use {
    Double, zero_point, Set, set_init, elems, size, set_difference, set_intersection, num_vars,
    alpha, max_conditioning,
  }

  -- An entry of myEdges: the pair, and the p-value of its last test.
  abbrev pub Edge : Type 0
  Edge = (ℕ × ℕ) × Double

  abbrev pub Neighbors : Type 0
  Neighbors = ℕ → Option Set

  abbrev pub cons_edge : ℕ → ℕ → Option (List Edge) → Option (List Edge)
  cons_edge x y none = none
  cons_edge x y (some edges) = some (((x, y), zero_point) ∷ edges)

  -- The loop over myEdges, for the iterators primary and secondary.
  unfoldable pub fill_edges : ℕ → List ℕ → List ℕ → Option (List Edge)
  fill_edges zero primary secondary = some []
  fill_edges (suc i) [] secondary = none
  fill_edges (suc i) (p ∷ primary) (s ∷ secondary) =
      cons_edge p s (fill_edges i (p ∷ primary) secondary)
  fill_edges (suc i) (p ∷ []) [] = none
  fill_edges (suc i) (p ∷ q ∷ []) [] = none
  fill_edges (suc i) (p ∷ q ∷ s ∷ secondary) [] =
      cons_edge q s (fill_edges i (q ∷ s ∷ secondary) secondary)

  unfoldable pub first_edges : List ℕ → ℕ → ℕ → Option (List Edge)
  unfolding find_primary fill_edges
  first_edges vars my_offset my_size =
      let n = length vars in
      let (k, curr_offset) = find_primary n n my_offset 0 0 in
      let primary = drop k vars in
      fill_edges my_size primary (drop (1 + (my_offset - curr_offset)) primary)

  -- The two maps of sets of the given variables.
  unfoldable pub first_neighbors : List ℕ → Neighbors
  first_neighbors [] = λ _. none
  first_neighbors (v ∷ vs) = update (first_neighbors vs) v (get_candidates w v)

  unfoldable pub first_removed : List ℕ → Neighbors
  first_removed [] = λ _. none
  first_removed (v ∷ vs) = update (first_removed vs) v (set_init num_vars)

  -- initializeLearning
  unfoldable pub initialize_learning : ℕ → ℕ → Option (List Edge × Neighbors × Neighbors)
  unfolding first_edges first_neighbors first_removed
  initialize_learning my_offset my_size =
      let vars = elems (all_vars w) in
      elim (first_edges vars my_offset my_size) [
        | none ↦ none
        | some edges ↦ some (edges, first_neighbors vars, first_removed vars)
      ]
