-- ===== src/Samples/Driver.antt =====
-- Examples of the names of variables, of the options and of the driver.
use ram_ble.Base.{
  ◌⊎◌, ℕ, ◌-◌, ◌/◌, ◌^◌, ◌<◌, ◌≤◌, ◌≡◌, refl, arith, List, [], ◌∷◌, none, some, true, false, String,
  All,
}
use ram_ble.DiscreteData.Names.{var_name, var_index, var_index-var_name}
use ram_ble.CommandLine.Runs.{ok, pure}
use ram_ble.CommandLine.Algorithms.{get_algorithm}
use ram_ble.CommandLine.Options.{Given, parse}
use ram_ble.CommandLine.Learning.{Learner, learn_network}
use ram_ble.CommandLine.Sizes.{SetSize, sizes, choose_size, Chosen, choose_size-Chosen}
use ram_ble.CommandLine.Main.{World, main, returns}
use ram_ble.CommandLine.Exits.{Succeeds, IsRefused, IsAborted, IsTerminated, main-Ends}

abbrev animals : List String
animals = "ant" ∷ "bee" ∷ "cat" ∷ []

var_index-var_name_example :
    (var_index 256 animals "bee" ≡ 1)
    × (var_name animals (var_index 256 animals "bee") ≡ some "bee")
var_index-var_name_example = var_index-var_name 256 animals 1 "bee" refl (omega arith) refl

-- The largest index that fits in a set of the given type.
abbrev largest : SetSize → ℕ
largest s = 2 ^ s.width / 2 ^ s.shift - 1

choose_size-Chosen_example :
    ((n : ℕ) → 0 < n → n ≤ 2 ^ 32 → Chosen largest (n - 1) (sizes largest) (choose_size largest n))
    × (All (λ t. largest t < 2 ^ 32 - 1) (sizes largest) → choose_size largest 0 ≡ none)
choose_size-Chosen_example = choose_size-Chosen largest (omega arith)

-- `ramble --file data.csv --nvars 3 --learn`
abbrev arguments : Given ℕ
arguments = record {
  help = false;
  nvars = some 3;
  nobs = some 100;
  file = some "data.csv";
  readpar = false;
  colobs = false;
  separator = none;
  varnames = true;
  indices = false;
  algorithm = none;
  directed = false;
  output = none;
  alpha = none;
  conditioning = none;
  imbalance = none;
  counter = none;
  warmup = false;
  parallel = false;
  hostnames = false;
  target = none;
  blanket = false;
  learn = true;
  loglevel = none;
  logfile = none;
}

abbrev idle : Learner ℕ ℕ
idle = record {
  get_pc = λ _. pure [];
  get_mb = λ _. pure [];
  find_v_structures = λ _. pure [];
  get_network = λ _ _ _. pure 0;
}

abbrev desk : World ℕ ℕ ℕ
desk = record {
  comm = record { size = 1; rank = 0 };
  argc = 6;
  parsed = ok arguments;
  description = "";
  exists = λ _. true;
  hundredths = λ n. n;
  to_string = λ _. "0";
  host_name = "desk";
  other_hosts = [];
  init_logging = λ _ _ _. pure tt;
  read = λ _ _. ok (animals, 0);
  capacity = largest;
  construct = λ _ _ _ _ _ _ _. idle;
}

desk_ends : (main desk).0 ≡ returns 0
unfolding main parse learn_network get_algorithm choose_size
desk_ends = refl

-- A counter that is not documented.
abbrev odd_desk : World ℕ ℕ ℕ
odd_desk = record desk { parsed = ok (record arguments { counter = some "abacus" }) }

odd_desk_ends : (main odd_desk).0 ≡ returns 1
unfolding main parse
odd_desk_ends = refl

-- `ramble` without arguments
empty_desk_ends : (main (record desk { argc = 1 })).0 ≡ returns 1
unfolding main parse
empty_desk_ends = refl

main-Ends_example :
    Succeeds odd_desk ⊎ (IsRefused odd_desk ⊎ (IsAborted odd_desk ⊎ IsTerminated odd_desk))
main-Ends_example = main-Ends odd_desk
