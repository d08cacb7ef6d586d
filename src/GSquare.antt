-- ===== src/GSquare.antt =====
-- GSquare.hpp: the iteration over the states of the conditioning variables. The statistic itself is
-- floating-point arithmetic and is not modelled.
pub mod States
pub mod Index
use ram_ble.Base.{
  ◌%◌, ℕ, zero, suc, ◌+◌, ◌*◌, Bool, true, false, List, [], ◌∷◌, Option, none, some, if◌then◌else◌,
  ◌==◌,
}

-- StateIterator::next on m_bounds and m_state: the state and m_valid
unfoldable pub next : List ℕ → List ℕ → List ℕ × Bool
next [] state = (state, false)
next (b ∷ bs) [] = ([], false)
next (b ∷ bs) (s ∷ ss) =
    let (ss', valid) = next bs ss in if suc s == b then (0 ∷ ss', valid) else (suc s ∷ ss, true)

-- StateIterator(bounds): the first state
unfoldable pub first_state : List ℕ → List ℕ
first_state [] = []
first_state (b ∷ bs) = 0 ∷ first_state bs

-- The states that the loop of computeSABNAtk visits, on fuel.
unfoldable pub visit : ℕ → List ℕ → List ℕ → Option (List (List ℕ))
unfolding next
visit zero bounds state = none
visit (suc fuel) bounds state =
    let (state', valid) = next bounds state in
    let rest = visit fuel bounds state' in
    if valid
    then elim rest [ none ↦ none | some states ↦ some (state ∷ states) ]
    else some (state ∷ [])

-- uint32_t
abbrev pub wrap : ℕ → ℕ
wrap n = n % 4294967296

-- The loop of indexGiven for one observation: its state and the number of states of each further
-- variable, the index and `cumulative`.
unfoldable pub index_loop : List (ℕ × ℕ) → ℕ × ℕ → ℕ × ℕ
index_loop [] st = st
index_loop ((s, r) ∷ rest) (index, cumulative) =
    index_loop rest (wrap (index + wrap (s * cumulative)), wrap (cumulative * r))

-- indexGiven for one observation: its entry of `indices`, and the returned value
unfoldable pub index_given : List (ℕ × ℕ) → ℕ × ℕ
unfolding index_loop
index_given [] = (0, 0)
index_given ((s, r) ∷ rest) = index_loop rest (s, r)
