-- ===== src/CommandLine/Main.antt =====
-- main of ramble.cpp: the order of the phases, the counter, and the exit code.
use ram_ble.Base.{
  ℕ, ◌*◌, ◌^◌, Bool, not, ◌&&◌, ◌||◌, List, [], ◌∷◌, ◌++◌, none, some, if◌then◌else◌, ltb, leb,
  String, str_eq, str_append,
}
use ram_ble.CommandLine.Runs.{
  po_error, runtime_error, Result, ok, err, Output, out_line, err_line, Action, pure, throw, lift,
  write, ◌>>=◌, ◌>>◌,
}
use ram_ble.CommandLine.Algorithms.{Algorithm}
use ram_ble.CommandLine.Options.{ProgramOptions, Given, parse, max_uint32}
use ram_ble.CommandLine.Learning.{Comm, is_first, Learner, learn_network}
use ram_ble.CommandLine.Sizes.{SetSize, choose_size}

pub data CounterType : Type 0 where
  ct bv rad : CounterType

-- How the process ends: by a return of main, or by std::terminate.
pub data Exit : Type 0 where
  returns : ℕ → Exit
  terminates : Exit

-- What the driver uses and does not implement. Table is the data that the reader has read.
pub record World (Double Network Table : Type 0) : Type 0 where
  pub comm : Comm
  -- the number of arguments, and what boost reads from them
  pub argc : ℕ
  pub parsed : Result (Given Double)
  pub description : String
  pub exists : String → Bool
  pub hundredths : ℕ → Double
  -- std::to_string
  pub to_string : ℕ → String
  -- boost::asio::ip::host_name() on each rank, the first one apart
  pub host_name : String
  pub other_hosts : List (ℕ × String)
  -- INIT_LOGGING
  pub init_logging : String → ℕ → String → Action Network (Unit {0})
  -- the readers, ColumnObservationReader with true, with the names of the variables
  pub read : Bool → ProgramOptions Double → Result (List String × Table)
  -- UintSet::capacity()
  pub capacity : SetSize → ℕ
  -- the counter for the data, and the algorithm over it
  pub construct :
      CounterType → SetSize → Table → ℕ → Algorithm → Double → ℕ → Learner Double Network

module _ {Double Network Table : Type 0} (world : World Double Network Table) where
  open world use {
    comm, argc, parsed, description, exists, hundredths, to_string, host_name, other_hosts,
    init_logging, read, capacity, construct,
  }

  -- learnNetwork of the given counter
  unfoldable pub learn_sized :
      CounterType → ProgramOptions Double → List String × Table → Action Network (Unit {0})
  learn_sized counter options (names, table) = elim (choose_size capacity options.num_vars) [
    | none ↦ throw (runtime_error "The given number of variables is not supported.")
    | some s ↦ learn_network (construct counter s table) comm options (2 ^ s.width) names
  ]

  -- The host names, which the first rank prints.
  unfoldable pub host_lines : List (ℕ × String) → List (Output Network)
  host_lines [] = out_line "******" ∷ []
  host_lines ((i, name) ∷ hosts) =
      out_line (str_append (to_string i) (str_append ": " name)) ∷ host_lines hosts

  unfoldable pub print_hosts : ProgramOptions Double → Action Network (Unit {0})
  unfolding host_lines
  print_hosts options = write (
      if options.host_names && is_first comm
      then out_line ""
        ∷ out_line "*** Host names ***"
        ∷ host_lines ((comm.rank, host_name) ∷ other_hosts)
      else [])

  -- The name of the log file of this rank.
  unfoldable pub log_file_name : ProgramOptions Double → String
  log_file_name options =
      if not (str_eq options.log_file "") && ltb 1 comm.size
      then str_append options.log_file (str_append ".p" (to_string comm.rank))
      else options.log_file

  -- m >= sqrt(max), for a number m of observations, squared
  abbrev pub too_many : ℕ → Bool
  too_many m = leb max_uint32 (m * m)

  abbrev pub warning : List (Output Network)
  warning =
      err_line
        "WARNING: The given number of observations is possibly too big to be handled by 32-bit unsigned integer"
      ∷ err_line "         This may result in silent errors because of overflow"
      ∷ []

  -- The three tests of the type of the counter, in turn, with the names that were tried.
  unfoldable pub run_counters :
      ProgramOptions Double → List String × Table → Action Network (Unit {0})
  unfolding learn_sized
  run_counters options reader = do
    (if str_eq options.counter_type "ct" then learn_sized ct options reader else pure tt)
    (if str_eq options.counter_type "bv" then learn_sized bv options reader else pure tt)
    (if str_eq options.counter_type "rad" then learn_sized rad options reader else pure tt)
    (if str_eq options.counter_type "ct"
          || str_eq options.counter_type "bv"
          || str_eq options.counter_type "rad"
        then pure tt
        else throw
            (runtime_error "Requested counter not found. Supported counter types are: {ct,bv,rad}"))

  -- The body of the second try block.
  unfoldable pub run_options : ProgramOptions Double → Action Network (Unit {0})
  unfolding log_file_name run_counters
  run_options options = do
    init_logging (log_file_name options) comm.rank options.log_level
    write (if too_many options.num_obs then warning else [])
    reader ← lift (read options.col_obs options)
    run_counters options reader

  -- Its handler, which catches std::runtime_error.
  unfoldable pub handle : Result (Unit {0}) × List (Output Network) → Exit × List (Output Network)
  handle (ok _, out) = (returns 0, out)
  handle (err (runtime_error what), out) = (
    returns 1,
    out
        ++ (err_line "Encountered runtime error during execution:"
            ∷ err_line what
            ∷ err_line "Aborting."
            ∷ []),
  )
  handle (err e, out) = (terminates, out)

  -- What follows the parsing of the options.
  unfoldable pub after_parse : Result (ProgramOptions Double) → Exit × List (Output Network)
  unfolding print_hosts run_options handle
  after_parse (ok options) = handle ((print_hosts options >> run_options options) [])
  after_parse (err (po_error what)) = (returns 1, if is_first comm then err_line what ∷ [] else [])
  after_parse (err e) = (terminates, [])

  unfoldable pub main : Exit × List (Output Network)
  unfolding after_parse
  main = after_parse (parse hundredths argc parsed description exists)
