-- ===== src/CommandLine/Runs.antt =====
-- Exceptions and output of the driver: a step returns or throws, and what was written stays
-- written.
use ram_ble.Base.{List, ◌++◌, String, Option, none, some}

pub data Failure : Type 0 where
  po_error runtime_error : String → Failure
  -- any other exception, which main does not catch
  uncaught : Failure

pub data Result {ℓ} (A : Type ℓ) : Type ℓ where
  ok : A → Result A
  err : Failure → Result A

-- What this rank writes: a line to std::cout or std::cerr, or a network to a file.
pub data Output {ℓ} (Network : Type ℓ) : Type ℓ where
  out_line err_line : String → Output Network
  file : String → Network → Output Network

abbrev pub Action : Type 0 → Type 0 → Type 0
Action N A = List (Output N) → Result A × List (Output N)

module _ {N : Type 0} where
  infixl 5 ◌>>=◌ ◌>>◌
  abbrev pub pure : {A : Type 0} → A → Action N A
  pure a out = (ok a, out)

  abbrev pub throw : {A : Type 0} → Failure → Action N A
  throw e out = (err e, out)

  abbrev pub lift : {A : Type 0} → Result A → Action N A
  lift r out = (r, out)

  abbrev pub write : List (Output N) → Action N (Unit {0})
  write lines out = (ok tt, out ++ lines)

  abbrev pub or_throw : {A : Type 0} → Option A → Failure → Action N A
  or_throw none e = throw e
  or_throw (some a) e = pure a

  abbrev pub ◌>>=◌ : {A B : Type 0} → Action N A → (A → Action N B) → Action N B
  ◌>>=◌ m f out = let (r, out') = m out in elim r [ ok a ↦ f a out' | err e ↦ throw e out' ]

  abbrev pub ◌>>◌ : {B : Type 0} → Action N (Unit {0}) → Action N B → Action N B
  m >> k = m >>= λ _. k
