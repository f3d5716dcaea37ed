-- ===== src/Demo/Tests.antt =====
-- A run of the demonstration in the small world.
use agent_governance_evidenc.Base.{
  ◌≡◌, ◌≢◌, ◌↔◌, Bool-cases, refl, ap, ◌∙◌, ◌⊎◌, inl, inr, true, false, List, [], some, none, Bytes,
  bytes, equal, equal_refl, contains, ok,
}
use agent_governance_evidenc.Demo.{prepare_workdir, run}
use agent_governance_evidenc.Demo.Whole.{Shown, run-Shown}
use agent_governance_evidenc.Demo.Workdir.{Ends, run_workdir}
use agent_governance_evidenc.Demo.Steps.{>>=-of_ok, given, calling, reading}
use agent_governance_evidenc.Demokit.Signer.Tests.{toy, toy_checks, toy_laws}
use agent_governance_evidenc.Demokit.Tests.{demo_host, sample_wire}
use agent_governance_evidenc.Evidence.Output.{Files, update}
use agent_governance_evidenc.Testutil.{validate_auto_gov_binary, validate_auto_gov_binary_iff}
use agent_governance_evidenc.Demo.Samples.{
  argument, passing, execute_sample, sample_binaries, sample_system, no_files, program,
  verifier-exits, sample_demonstrates,
}

-- The temporary directory is there.
abbrev Stands : Files → Type 0
Stands s = s (bytes "tmp") ≢ none

update_keeps : (path content : Bytes) (s : Files) → Stands s → Stands (update s path (some content))
update_keeps path content s stands = elim (Bool-cases (equal path (bytes "tmp"))) [
  | inl is ↦ rw is (λ e. cc)
  | inr other ↦ rw other stands
]

execute_keeps :
    (prog : Bytes) (arguments : List Bytes) (s : Files)
    → Stands s
    → Stands (execute_sample prog arguments s).1
unfolding execute_sample
execute_keeps prog arguments s stands = elim (Bool-cases (equal prog (bytes "evidence"))) [
  | inl is ↦ rw (is, execute_sample) (update_keeps _ _ s stands)
  | inr other ↦
      rw (other, execute_sample)
        (rw (verifier-exits (contains passing (argument 2 arguments)) (argument 13 arguments) s)
          (update_keeps _ _ s stands))
]

abbrev made : Files
made = update no_files (bytes "tmp") (some [])

sample_prepares :
    prepare_workdir demo_host sample_wire toy sample_system [] false (0, no_files)
    ≡ (ok (bytes "tmp", some (bytes "tmp")), (0, made))
unfolding prepare_workdir calling given equal
sample_prepares =
    >>=-of_ok _ _ (0, no_files) (0, made) (some (bytes "tmp")) refl
    ∙ >>=-of_ok _ _ (0, made) (0, made) (bytes "tmp") refl

made-Stands : Stands made
made-Stands = rw (equal_refl (bytes "tmp")) (λ e. cc)

run_workdir_example :
    ((run demo_host sample_wire toy sample_system program
        (bytes "evidence")
        (bytes "c")
        []
        false
        (0, no_files)).1
      ≡ (0, no_files))
    ⊎ Ends demo_host sample_wire toy sample_system Stands [] false
        (bytes "tmp")
        (some (bytes "tmp"))
        (run demo_host sample_wire toy sample_system program
          (bytes "evidence")
          (bytes "c")
          []
          false
          (0, no_files)).1.1
run_workdir_example =
    run_workdir demo_host sample_wire toy sample_system Stands update_keeps execute_keeps program
      (bytes "evidence") (bytes "c") [] false (0, no_files) (0, made) (bytes "tmp")
      (some (bytes "tmp")) sample_prepares made-Stands

validate_binary_example : (validate_auto_gov_binary sample_binaries program ≡ ok program) ↔ (
    (program ≡ program) × (program ≢ []) × (true ≡ true) × (some true ≡ some true) × (true ≡ true))
validate_binary_example = validate_auto_gov_binary_iff sample_binaries program program

sample_runs :
    run demo_host sample_wire toy sample_system program
      (bytes "evidence")
      (bytes "c")
      []
      false
      (0, no_files)
    ≡ (ok tt, (8, update (sample_demonstrates made).0 (bytes "tmp") none))
unfolding run reading validate_auto_gov_binary equal bytes
sample_runs =
    >>=-of_ok _ _ (0, no_files) (0, no_files) program refl
    ∙ >>=-of_ok _ _ (0, no_files) (0, no_files) tt refl
    ∙ >>=-of_ok _ _ (0, no_files) (0, no_files) (bytes "c") refl
    ∙ >>=-of_ok _ _ (0, no_files) (0, made) (bytes "tmp", some (bytes "tmp")) sample_prepares
    ∙ ap (λ r. (r.0, (r.1.0, update r.1.1 (bytes "tmp") none))) (sample_demonstrates made).1

run-Shown_example :
    Shown demo_host sample_wire toy sample_system toy_checks toy_laws program
      (bytes "evidence")
      (bytes "c")
      []
      false
      (0, no_files)
run-Shown_example =
    run-Shown demo_host sample_wire toy sample_system toy_checks toy_laws program (bytes "evidence")
      (bytes "c") [] false (0, no_files) (8, update (sample_demonstrates made).0 (bytes "tmp") none)
      sample_runs
