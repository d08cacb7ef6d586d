-- ===== src/Setting/Gaps.antt =====
-- Sets of variables as lists of gaps, which show that the laws of `VarSets` can be met: the list
-- g ∷ h ∷ … stands for the set {g, g + 1 + h, …}, and every list is a set in its only form.
pub mod Laws
pub mod Subsets
pub mod Instance
use ram_ble.Base.{
  ℕ, zero, suc, ◌+◌, ◌-◌, ◌<◌, Bool, true, false, not, ◌&&◌, ◌||◌, List, [], ◌∷◌, ◌++◌, map, ltb,
  ◌==◌, if◌then◌else◌, length,
}

abbrev pub Gaps : Type 0
Gaps = List ℕ

unfoldable pub contains : Gaps → ℕ → Bool
contains [] x = false
contains (g ∷ gs) x = if ltb x g then false else if x == g then true else contains gs (x - g - 1)

-- All members moved up by k.
unfoldable pub shift : ℕ → Gaps → Gaps
shift k [] = []
shift k (g ∷ gs) = (g + k) ∷ gs

unfoldable pub insert : ℕ → Gaps → Gaps
insert a [] = a ∷ []
insert a (g ∷ gs) =
    if ltb a g then a ∷ (g - a - 1) ∷ gs else if a == g then g ∷ gs else g ∷ insert (a - g - 1) gs

unfoldable pub erase : ℕ → Gaps → Gaps
unfolding shift
erase a [] = []
erase a (g ∷ gs) =
    if ltb a g then g ∷ gs else if a == g then shift (g + 1) gs else g ∷ erase (a - g - 1) gs

-- The members, each moved up by k.
unfoldable pub elems_from : ℕ → Gaps → List ℕ
elems_from k [] = []
elems_from k (g ∷ gs) = (k + g) ∷ elems_from (k + g + 1) gs

unfoldable pub insert_all : List ℕ → Gaps → Gaps
unfolding insert
insert_all [] s = s
insert_all (x ∷ xs) s = insert x (insert_all xs s)

unfoldable pub erase_all : List ℕ → Gaps → Gaps
unfolding erase
erase_all [] s = s
erase_all (x ∷ xs) s = erase x (erase_all xs s)

unfoldable pub eq : Gaps → Gaps → Bool
eq [] [] = true
eq [] (h ∷ hs) = false
eq (g ∷ gs) [] = false
eq (g ∷ gs) (h ∷ hs) = g == h && eq gs hs

unfoldable pub subsets : Gaps → ℕ → List Gaps
unfolding shift
subsets s zero = [] ∷ []
subsets [] (suc k) = []
subsets (g ∷ gs) (suc k) =
    map (λ c. g ∷ c) (subsets gs k) ++ map (shift (g + 1)) (subsets gs (suc k))
