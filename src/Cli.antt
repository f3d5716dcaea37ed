-- ===== src/Cli.antt =====
-- cmd/agent-governance-evidence/main.go: the command line of the companion. `flag.FlagSet.Parse`
-- is a parameter; opening the evidence file is a function of its path.
mod Tests
use agent_governance_evidenc.Base.{
  ℕ, ◌≡◌, ◌≢◌, refl, ◌⊎◌, inl, inr, List, [], ◌∷◌, Option, none, some, Bytes, arith, equal,
  equal_iff, Error, plain, Result, ok, err, if◌then◌else◌, Bool-cases, true,
}
use agent_governance_evidenc.Evidence.Generate.{generate_deployment}
use agent_governance_evidenc.Evidence.Generate.Laws.{
  Prepared, generate_deployment_commits, generate_deployment_fails,
}
use agent_governance_evidenc.Evidence.Host.{Host}
use agent_governance_evidenc.Evidence.Output.{World, Answers}
use agent_governance_evidenc.Evidence.Read.{File}

-- What `Parse` finds: a request for help, an error, or the two flags and the other arguments.
pub data Flags : Type 0 where
  help_requested : Flags
  refused : Error → Flags
  parsed : Bytes → Bytes → List Bytes → Flags

-- What `run` returns: `flag.ErrHelp`, another error, or none.
pub data Ending : Type 0 where
  help : Ending
  failure : Error → Ending
  success : Ending

abbrev pub ending : Result (Unit {0}) → Ending
ending (ok tt) = success
ending (err e) = failure e

unfoldable pub report : Ending × World → ℕ × Option Error × World
report (help, after) = (0, none, after)
report (failure e, after) = (1, some e, after)
report (success, after) = (0, none, after)

report_fails :
    (r : Ending × World)
    → (report r).0 ≡ 1
    → (e : Error) × (r.0 ≡ failure e) × (report r ≡ (1, some e, r.1))
unfolding report
report_fails (help, after) is = absurd (ground arith)
report_fails (failure e, after) is = (e, refl, refl)
report_fails (success, after) is = absurd (ground arith)

report_succeeds :
    (made : Result (Unit {0}) × World)
    → (report (ending made.0, made.1)).0 ≡ 0
    → (made.0 ≡ ok tt) × (report (ending made.0, made.1) ≡ (0, none, made.1))
unfolding report
report_succeeds (ok tt, after) is = (refl, refl)
report_succeeds (err e, after) is = absurd (ground arith)

ending-failure : (r : Result (Unit {0})) (e : Error) → ending r ≡ failure e → r ≡ err e
ending-failure (ok tt) e is = cc
ending-failure (err x) e is = cc

module _ (h : Host) (open_file : Bytes → Option File) (a : Answers) where
  unfoldable pub run : World → Flags → Ending × World
  run w help_requested = (help, w)
  run w (refused e) = (failure e, w)
  run w (parsed evidence_path output_path (x ∷ xs)) =
      (failure (plain "unexpected positional arguments"), w)
  run w (parsed evidence_path output_path []) =
      if equal evidence_path []
      then (failure (plain "--evidence-path is required"), w)
      else (let (result, after) = generate_deployment h a w (open_file evidence_path) output_path in
          (ending result, after))

  -- The exit code, the error that is printed, and the world afterwards.
  unfoldable pub execute : World → Flags → ℕ × Option Error × World
  unfolding report run
  execute w flags = report (run w flags)

  run_unchanged :
      (w : World) (evidence_path output_path p : Bytes) (others : List Bytes) (e : Error)
      → output_path ≢ []
      → (p ≢ a.temporary) ⊎ ((a.removes ≡ true) × (w.files a.temporary ≡ none))
      → (run w (parsed evidence_path output_path others)).0 ≡ failure e
      → ((run w (parsed evidence_path output_path others)).1.stdout ≡ w.stdout)
        × ((run w (parsed evidence_path output_path others)).1.files p ≡ w.files p)
  unfolding run
  run_unchanged w evidence_path output_path p (x ∷ others) e named safe failed = (refl, refl)
  run_unchanged w evidence_path output_path p [] e named safe failed =
      elim (Bool-cases (equal evidence_path [])) [
        | inl absent ↦ rw (absent, run) (refl, refl)
        | inr given ↦
            let failed' : ending (generate_deployment h a w (open_file evidence_path) output_path).0
                ≡ failure e =
              rw (given, run) at failed in
            rw (given, run)
              (generate_deployment_fails h a w (open_file evidence_path) output_path named e p
                (ending-failure _ e failed') safe)
      ]

  -- With an output path, an exit code of 1 means that an error was printed and the standard output
  -- and the files are as they were; of the temporary file this holds if its name was unused and
  -- its removal succeeds.
  pub execute_fails :
      (w : World) (evidence_path output_path p : Bytes) (others : List Bytes)
      → output_path ≢ []
      → (p ≢ a.temporary) ⊎ ((a.removes ≡ true) × (w.files a.temporary ≡ none))
      → (execute w (parsed evidence_path output_path others)).0 ≡ 1
      → ((execute w (parsed evidence_path output_path others)).1 ≢ none)
        × ((execute w (parsed evidence_path output_path others)).2.stdout ≡ w.stdout)
        × ((execute w (parsed evidence_path output_path others)).2.files p ≡ w.files p)
  unfolding execute
  execute_fails w evidence_path output_path p others named safe failed =
      let (e, is, reported) =
        report_fails (run w (parsed evidence_path output_path others)) failed in
      let same = run_unchanged w evidence_path output_path p others e named safe is in
      rw (reported, execute) (λ n. cc, same.0, same.1)

  -- With an output path and a temporary name that is another, an exit code of 0 means that there
  -- were no other arguments, an output was prepared from the evidence file and stands at the output
  -- path, the temporary name is free, and every other file is as it was.
  pub execute_succeeds :
      (w : World) (evidence_path output_path : Bytes) (others : List Bytes)
      → output_path ≢ []
      → a.temporary ≢ output_path
      → (execute w (parsed evidence_path output_path others)).0 ≡ 0
      → (others ≡ [])
        × ((output : Bytes) × Prepared h (open_file evidence_path) output
            × ((p : Bytes)
                → (execute w (parsed evidence_path output_path others)).2.files p ≡ (
                    if equal output_path p
                    then some output
                    else if equal a.temporary p
                    then none
                    else w.files p)))
  unfolding execute run report
  execute_succeeds w evidence_path output_path (x ∷ others) named apart done = absurd (ground arith)
  execute_succeeds w evidence_path output_path [] named apart done =
      elim (Bool-cases (equal evidence_path [])) [
        | inl absent ↦ absurd (ground (arith, absent))
        | inr given ↦
            let made = generate_deployment h a w (open_file evidence_path) output_path in
            let reported : (report (ending made.0, made.1)).0 ≡ 0 =
              rw (given, execute, run) at done in
            let passed = report_succeeds made reported in
            let (output, prepared, files) =
              generate_deployment_commits h a w (open_file evidence_path) output_path named apart
                passed.0 in
            (refl, (output, prepared, λ p. rw (given, execute, run, passed.1) (files p)))
      ]
