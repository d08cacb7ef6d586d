-- ===== src/Base/Texts.antt =====
-- Texts, which the program compares and joins.
use Prim.Native.String
use mathlib.Core.Path.{◌≡◌}
use mathlib.Core.Logic.{◌↔◌}
use mathlib.Core.Bool.{Bool, true}
use text.Mathlib.Text
use text.Mathlib.TextEquality
pub use Prim.Native.String.{String}

-- s.compare(t) == 0
abbrev pub str_eq : String → String → Bool
str_eq = Text.◌==◌

abbrev pub str_append : String → String → String
str_append = String.◌++◌

pub str_eq_iff : (s t : String) → (str_eq s t ≡ true) ↔ (s ≡ t)
str_eq_iff = TextEquality.eq_iff
