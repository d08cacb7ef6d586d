-- ===== src/CommandLine/Exits.antt =====
-- The ways in which main of ramble.cpp can end, with what it wrote.
use ram_ble.Base.{
  ◌≡◌, ◌≢◌, ◌⊎◌, inl, inr, refl, ap, ◌∙◌, List, [], ◌∷◌, ◌++◌, if◌then◌else◌, String,
}
use ram_ble.CommandLine.Runs.{
  Failure, po_error, runtime_error, uncaught, Result, ok, err, Output, err_line, ◌>>◌,
}
use ram_ble.CommandLine.Learning.{is_first}
use ram_ble.CommandLine.Options.{ProgramOptions, Given, parse, notify}
use ram_ble.CommandLine.Main.{
  World, returns, terminates, print_hosts, run_options, handle, after_parse, main,
}
use ram_ble.CommandLine.Success.{Checked, Counted, main-zero}

module _ {Double Network Table : Type 0} (world : World Double Network Table) where
  open world use {comm, argc, parsed, description, exists, hundredths}

  abbrev pub options_of : Result (ProgramOptions Double)
  options_of = parse hundredths argc parsed description exists

  -- What is done with the options, from no output on.
  abbrev pub run : ProgramOptions Double → Result (Unit {0}) × List (Output Network)
  run options = (print_hosts world options >> run_options world options) []

  -- It returns 0; all that the checks ask for holds, and the data were read.
  abbrev pub Succeeds : Type 0
  Succeeds =
      ((main world).0 ≡ returns 0)
      × ((g : Given Double) × (parsed ≡ ok g)
          × Checked world g
          × ((t : List String × Table) × (world.read (notify hundredths g).col_obs
                  (notify hundredths g)
                ≡ ok t))
          × Counted world (notify hundredths g))

  -- The options are refused: the first rank writes why.
  abbrev pub IsRefused : Type 0
  IsRefused =
      (what : String) × (options_of ≡ err (po_error what))
      × (main world ≡ (returns 1, if is_first comm then err_line what ∷ [] else []))

  -- A runtime error after the options: what was written before it stays, and the error follows.
  abbrev pub IsAborted : Type 0
  IsAborted =
      (options : ProgramOptions Double) × (what : String) × (out : List (Output Network))
      × (options_of ≡ ok options)
      × (run options ≡ (err (runtime_error what), out))
      × (main world ≡ (
        returns 1,
        out
            ++ (err_line "Encountered runtime error during execution:"
                ∷ err_line what
                ∷ err_line "Aborting."
                ∷ []),
      ))

  -- An exception that no handler takes.
  abbrev pub IsTerminated : Type 0
  IsTerminated =
      ((main world).0 ≡ terminates)
      × (((x : Failure) × (options_of ≡ err x) × ((what : String) → x ≢ po_error what))
          ⊎ ((options : ProgramOptions Double) × (x : Failure) × (options_of ≡ ok options)
              × ((run options).0 ≡ err x)
              × ((what : String) → x ≢ runtime_error what)))

  main-run :
      (options : ProgramOptions Double)
      → options_of ≡ ok options
      → main world ≡ handle world (run options)
  unfolding main after_parse
  main-run options e = rw e refl

  main-stops : (x : Failure) → options_of ≡ err x → main world ≡ after_parse world (err x)
  unfolding main
  main-stops x e = rw e refl

  parsed-Ends :
      (options : ProgramOptions Double) (r : Result (Unit {0}) × List (Output Network))
      → options_of ≡ ok options
      → run options ≡ r
      → Succeeds ⊎ (IsRefused ⊎ (IsAborted ⊎ IsTerminated))
  unfolding handle
  parsed-Ends options (ok a, out) e e' =
      let zero_exit : (main world).0 ≡ returns 0 =
        ap (λ m. m.0) (main-run options e) ∙ rw e' refl in
      inl (zero_exit, main-zero world zero_exit)
  parsed-Ends options (err (runtime_error what), out) e e' =
      inr (inr (inl (options, what, out, e, e', main-run options e ∙ rw e' refl)))
  parsed-Ends options (err (po_error what), out) e e' = inr (
      inr (
        inr (
          ap (λ m. m.0) (main-run options e) ∙ rw e' refl,
          inr (options, po_error what, e, ap (λ m. m.0) e', λ w h. cc),
        )))
  parsed-Ends options (err uncaught, out) e e' = inr (
      inr (
        inr (
          ap (λ m. m.0) (main-run options e) ∙ rw e' refl,
          inr (options, uncaught, e, ap (λ m. m.0) e', λ w h. cc),
        )))

  options-Ends :
      (r : Result (ProgramOptions Double))
      → options_of ≡ r
      → Succeeds ⊎ (IsRefused ⊎ (IsAborted ⊎ IsTerminated))
  unfolding after_parse
  options-Ends (ok options) e = parsed-Ends options (run options) e refl
  options-Ends (err (po_error what)) e = inr (inl (what, e, main-stops (po_error what) e))
  options-Ends (err (runtime_error what)) e = inr (
      inr (
        inr (
          ap (λ m. m.0) (main-stops (runtime_error what) e),
          inl (runtime_error what, e, λ w h. cc),
        )))
  options-Ends (err uncaught) e =
      inr (inr (inr (ap (λ m. m.0) (main-stops uncaught e), inl (uncaught, e, λ w h. cc))))

  -- main ends in one of four ways. It returns 0; then the command line was understood and was not
  -- empty, help was not asked for, a target, --learn or an output file was given, the data file
  -- exists and was read, the type of the counter and the algorithm are among the documented names,
  -- and one of the types of sets holds all the variables. Or the options are refused, and it
  -- returns 1 with the reason as the only output, of the first rank. Or a runtime error follows,
  -- and it returns 1 with the error after what was written before. Or it terminates, by an
  -- exception of another kind.
  pub main-Ends : Succeeds ⊎ (IsRefused ⊎ (IsAborted ⊎ IsTerminated))
  main-Ends = options-Ends options_of refl
