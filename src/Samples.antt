-- ===== src/Samples.antt =====
-- Small settings and networks for the examples: three variables, of which 0 and 2 are independent
-- causes of 1.
pub mod Searches
pub mod Networks
pub mod Learners
pub mod Stages
pub mod Rounds
pub mod Driver
pub mod Cycles
use ram_ble.Base.{ℕ, List, [], ◌∷◌, ◌+◌, ◌==◌, if◌then◌else◌, ◌≡◌, refl, Option, none}
use ram_ble.Setting.{Setting}
use ram_ble.Setting.Gaps.{Gaps, contains}
use ram_ble.Setting.Gaps.Instance.{sample}
use ram_ble.Graphs.EdgeList.{Edges, edge_lists}
use ram_ble.LocalLearning.{Cache}

-- p-values in percent
abbrev pub collider_table : ℕ → ℕ → Gaps → ℕ
collider_table x y given = if x + y == 2 then (if contains given 1 then 3 else 50) else 2

abbrev pub three : Setting
three = sample 3 5 2 collider_table

-- 0 and 2 independent given 1
abbrev pub chain_table : ℕ → ℕ → Gaps → ℕ
chain_table x y given = if x + y == 2 then (if contains given 1 then 70 else 4) else 2

abbrev pub chain : Setting
chain = sample 3 5 2 chain_table

-- The sets {1} and {0, 1, 2}, and what is left of the latter without one member.
abbrev pub only_one : Gaps
only_one = 1 ∷ []

abbrev pub all_three : Gaps
all_three = 0 ∷ 0 ∷ 0 ∷ []

abbrev pub one_two : Gaps
one_two = 1 ∷ 0 ∷ []
