-- ===== src/CommandLine/Success.antt =====
-- What an exit code of 0 tells of the options and of the data.
use ram_ble.Base.{
  ℕ, ◌^◌, ◌≡◌, ◌⊎◌, inl, inr, Option-cases, refl, true, false, ◌||◌, List, [], ◌++◌, some,
  if◌then◌else◌, ◌==◌, arith, String, str_eq, str_eq_iff, Bool-cases,
}
use ram_ble.CommandLine.Runs.{
  Failure, po_error, runtime_error, uncaught, Result, ok, err, Output, Action, ◌>>=◌,
}
use ram_ble.CommandLine.Algorithms.{Algorithm, name_of, get_algorithm, get_algorithm-found}
use ram_ble.CommandLine.Options.{ProgramOptions, Given, parse, notify, is_given}
use ram_ble.CommandLine.Learning.{Learner, learn_network}
use ram_ble.CommandLine.Sizes.{SetSize, choose_size}
use ram_ble.CommandLine.Main.{
  CounterType, ct, bv, rad, returns, World, print_hosts, log_file_name, too_many, warning,
  learn_sized, run_counters, run_options, handle, after_parse, main,
}

-- The documented name of each counter.
abbrev pub counter_name : CounterType → String
counter_name ct = "ct"
counter_name bv = "bv"
counter_name rad = "rad"

Result-cases {ℓ} :
    {A : Type ℓ} (r : Result A) → ((a : A) × (r ≡ ok a)) ⊎ ((x : Failure) × (r ≡ err x))
Result-cases (ok a) = inl (a, refl)
Result-cases (err x) = inr (x, refl)

module _ {N : Type 0} where
  -- The action returns a value.
  abbrev Runs : {A : Type 0} → Result A × List (Output N) → Type 0
  Runs {A} r = (a : A) × (r.0 ≡ ok a)

  bind-ok :
      {A B : Type 0} (m : Action N A) (f : A → Action N B) (out : List (Output N)) (a : A)
      → (m out).0 ≡ ok a
      → (m >>= f) out ≡ f a (m out).1
  bind-ok m f out a e = ground arith

module _ {Double Network Table : Type 0} (world : World Double Network Table) where
  open world use {comm, argc, parsed, description, exists, hundredths, capacity, construct}

  -- The options name an algorithm, and the number of variables has a type of sets.
  abbrev pub Learnable : ProgramOptions Double → Type 0
  Learnable options =
      ((a : Algorithm) × (options.algo_name ≡ name_of a))
      × ((s : SetSize) × (choose_size capacity options.num_vars ≡ some s))

  learn_network-algorithm :
      (c : ℕ → Algorithm → Double → ℕ → Learner Double Network) (options : ProgramOptions Double)
      (k : ℕ) (names : List String) (out : List (Output Network))
      → Runs (learn_network c comm options k names out)
      → (a : Algorithm) × (options.algo_name ≡ name_of a)
  unfolding learn_network
  learn_network-algorithm c options k names out h =
      elim (Result-cases (get_algorithm options.algo_name)) [
        | inl (a, e) ↦ (a, get_algorithm-found options.algo_name a e)
        | inr (x, e) ↦
            let stops : (learn_network c comm options k names out).0 ≡ err x =
              rw (e, learn_network) refl in
            absurd (ground arith)
      ]

  learn_sized-Learnable :
      (counter : CounterType) (options : ProgramOptions Double) (names : List String) (t : Table)
      (out : List (Output Network))
      → Runs (learn_sized world counter options (names, t) out)
      → Learnable options
  unfolding learn_sized
  learn_sized-Learnable counter options names t out h =
      elim (Option-cases (choose_size capacity options.num_vars)) [
        | inl e ↦
            let stops : (learn_sized world counter options (names, t) out).0
                ≡ err (runtime_error "The given number of variables is not supported.") =
              rw (e, learn_sized) refl in
            absurd (ground arith)
        | inr (s, e) ↦ (
          learn_network-algorithm (construct counter s t) options (2 ^ s.width) names out
              (rw (e, learn_sized) at h),
          (s, e),
        )
      ]

  -- The type of the counter is known, and the options are learnable.
  abbrev pub Counted : ProgramOptions Double → Type 0
  Counted options = (c : CounterType) × (options.counter_type ≡ counter_name c) × Learnable options

  counted :
      (c : CounterType) (options : ProgramOptions Double) (names : List String) (t : Table)
      (out : List (Output Network))
      → str_eq options.counter_type (counter_name c) ≡ true
      → ((x : Failure) → (learn_sized world c options (names, t) out).0 ≡ err x → ⊥)
      → Counted options
  counted c options names t out e no_error =
      elim (Result-cases (learn_sized world c options (names, t) out).0) [
        | inl l ↦ (
          c,
          (str_eq_iff options.counter_type (counter_name c)).0 e,
          learn_sized-Learnable c options names t out l,
        )
        | inr (x, l) ↦ absurd (no_error x l)
      ]

  run_counters-Runs :
      (options : ProgramOptions Double) (names : List String) (t : Table)
      (out : List (Output Network))
      → Runs (run_counters world options (names, t) out)
      → Counted options
  unfolding run_counters
  run_counters-Runs options names t out h = elim (Bool-cases (str_eq options.counter_type "ct")) [
    | inl e ↦ counted ct options names t out e (λ x l. ground arith)
    | inr e ↦ elim (Bool-cases (str_eq options.counter_type "bv")) [
      | inl e' ↦ counted bv options names t out e' (λ x l. ground arith)
      | inr e' ↦ elim (Bool-cases (str_eq options.counter_type "rad")) [
        | inl e'' ↦ counted rad options names t out e'' (λ x l. ground arith)
        | inr e'' ↦ absurd (ground arith)
      ]
    ]
  ]

  run_options-Runs :
      (options : ProgramOptions Double) (out : List (Output Network))
      → Runs (run_options world options out)
      → ((r : List String × Table) × (world.read options.col_obs options ≡ ok r)) × Counted options
  unfolding run_options
  run_options-Runs options out h =
      let logged =
        world.init_logging (log_file_name world options) comm.rank options.log_level out in
      let out' = logged.1 ++ (if too_many world options.num_obs then warning world else []) in
      elim (Result-cases logged.0) [
        | inl (_, e) ↦ elim (Result-cases (world.read options.col_obs options)) [
          | inl ((names, t), e') ↦
              (((names, t), e'), run_counters-Runs options names t out' (ground arith))
          | inr (x, e') ↦ absurd (ground arith)
        ]
        | inr (x, e) ↦ absurd (ground arith)
      ]

  -- What the checks of parse leave through.
  abbrev pub Checked : Given Double → Type 0
  Checked g =
      ((argc == 1) ≡ false)
      × (g.help ≡ false)
      × ((is_given g.target || g.learn || is_given g.output) ≡ true)
      × (exists (notify hundredths g).data_file ≡ true)

  -- parse, on what boost has read.
  parse-ok :
      (r : Result (Given Double)) (options : ProgramOptions Double)
      → parse hundredths argc r description exists ≡ ok options
      → (g : Given Double) × (r ≡ ok g) × Checked g × (options ≡ notify hundredths g)
  unfolding parse
  parse-ok (err x) options h = absurd (ground arith)
  parse-ok (ok g) options h = (g, refl, ground arith, ground arith)

  handle-zero :
      (r : Result (Unit {0}) × List (Output Network)) → (handle world r).0 ≡ returns 0 → Runs r
  unfolding handle
  handle-zero (ok a, out) h = (a, refl)
  handle-zero (err (po_error what), out) h = absurd (ground arith)
  handle-zero (err (runtime_error what), out) h = absurd (ground arith)
  handle-zero (err uncaught, out) h = absurd (ground arith)

  after_parse-zero :
      (r : Result (ProgramOptions Double))
      → (after_parse world r).0 ≡ returns 0
      → (options : ProgramOptions Double) × (r ≡ ok options)
        × ((t : List String × Table) × (world.read options.col_obs options ≡ ok t))
        × Counted options
  unfolding after_parse print_hosts
  after_parse-zero (ok options) h =
      let (t, c) = run_options-Runs options _ (handle-zero _ h) in (options, refl, t, c)
  after_parse-zero (err (po_error what)) h = absurd (ground arith)
  after_parse-zero (err (runtime_error what)) h = absurd (ground arith)
  after_parse-zero (err uncaught) h = absurd (ground arith)

  -- When main returns 0, the command line was understood and was not empty, help was not asked for,
  -- a target, --learn or an output file was given, the data file exists and was read, the type of
  -- the counter and the algorithm are among the documented names, and one of the types of sets holds
  -- all the variables.
  pub main-zero :
      (main world).0 ≡ returns 0
      → (g : Given Double) × (parsed ≡ ok g)
        × Checked g
        × ((t : List String × Table) × (world.read
                (notify hundredths g).col_obs
                (notify hundredths g)
              ≡ ok t))
        × Counted (notify hundredths g)
  unfolding main
  main-zero h =
      let (options, e, t, c) =
        after_parse-zero (parse hundredths argc parsed description exists) h in
      let (g, e', checked, same) = parse-ok parsed options e in
      (g, e', checked, rw same at t, rw same at c)
