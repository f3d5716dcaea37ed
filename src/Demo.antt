-- ===== src/Demo.antt =====
-- cmd/demo/main.go: the demonstration, case by case. The operating system, the two programs that it
-- runs and flag parsing are parameters; what it prints is left out.
pub mod Data
pub mod Steps
mod Samples
mod Tests
pub mod Case
pub mod Expected
pub mod Matched
pub mod Whole
pub mod Workdir
use agent_governance_evidenc.Base.{
  ℕ, zero, suc, ◌==◌, Bool, true, false, not, ◌&&◌, ◌||◌, List, [], ◌∷◌, ◌++◌, map, Option, none,
  some, Bytes, bytes, equal, Error, plain, Result, ok, err, guard, some_or, if◌then◌else◌,
}
use agent_governance_evidenc.Cli.{Ending, help, failure, success, ending}
use agent_governance_evidenc.Demokit.{Wire, BuiltCase, build_case}
use agent_governance_evidenc.Demokit.Signer.Data.{Crypto, Signer}
use agent_governance_evidenc.Demokit.Signer.{new_signer, sign_statement, trusted_root_json}
use agent_governance_evidenc.Demo.Steps.{
  Io, ◌>>=◌, ◌>>◌, pure, given, reading, changing, calling, drawing,
}
use agent_governance_evidenc.Evidence.{Deployment}
use agent_governance_evidenc.Evidence.Host.{Host}
use agent_governance_evidenc.Evidence.Read.{File}
use agent_governance_evidenc.Testutil.{Binaries, validate_auto_gov_binary}
use agent_governance_evidenc.Demo.Data.{
  demo_identity, demo_issuer, policy_uri, CaseSpec, case_spec, cases, Process, System, Flags,
  help_requested, refused, parsed,
}

-- Whether a program exited with 0, and whether it was stopped before it could exit.
abbrev pub exited_zero : Process → Bool
exited_zero p = elim p.exit_code [ none ↦ false | some n ↦ n == 0 ]

abbrev pub was_stopped : Process → Bool
was_stopped p = elim p.exit_code [ none ↦ not p.succeeds | some n ↦ false ]

abbrev pub same_bool : Bool → Bool → Bool
same_bool true b = b
same_bool false b = not b

-- The producers with the cases, in the order of the loops.
unfoldable pub pairs : List Bytes → List CaseSpec → List (Bytes × CaseSpec)
pairs [] tcs = []
pairs (p ∷ ps) tcs = map (λ tc. (p, tc)) tcs ++ pairs ps tcs

abbrev pub jobs : List (Bytes × CaseSpec)
jobs = pairs (bytes "non-agt" ∷ bytes "agt" ∷ []) cases

abbrev pub bundle_lines : Bytes → Bytes → Bytes
bundle_lines deployment test_result = deployment ++ b'\n' ∷ (test_result ++ b'\n' ∷ [])

module _ {R S : Type 0} (h : Host) (k : Wire) (c : Crypto R) (y : System S) where
  -- The path of a case's file in the working directory.
  abbrev pub case_file : Bytes → Bytes → CaseSpec → Bytes → Bytes
  case_file workdir producer tc suffix =
      y.join (workdir ∷ (producer ++ b'-' ∷ (tc.name ++ suffix)) ∷ [])

  abbrev pub offline_arguments : Bytes → Bytes → Bytes → Bytes → BuiltCase → List Bytes
  offline_arguments companion attestations trusted_root vsa built =
      bytes "offline"
      ∷ bytes "--attestations"
      ∷ attestations
      ∷ bytes "--trusted-root"
      ∷ trusted_root
      ∷ bytes "--cert-identity"
      ∷ demo_identity
      ∷ bytes "--cert-issuer"
      ∷ demo_issuer
      ∷ bytes "--image-digest"
      ∷ (bytes "sha256:" ++ built.agent_digest_hex)
      ∷ bytes "--generate-vsa"
      ∷ bytes "--vsa-output"
      ∷ vsa
      ∷ bytes "--policy-uri"
      ∷ policy_uri
      ∷ bytes "--policy-bundle-path"
      ∷ y.join (companion ∷ bytes "policy" ∷ [])
      ∷ bytes "--fail-on-policy-error"
      ∷ bytes "--quiet"
      ∷ []

  unfoldable pub read_vsa_result : Bytes → Io R S Bytes
  read_vsa_result path = do
    content ← reading (λ s. some_or (y.read_file path s) (plain "no VSA result"))
    given (some_or (y.verification_result content) (plain "no VSA result"))

  -- The real command on the completed evidence, whose output must be the built body.
  unfoldable pub compare_command : Bytes → Bytes → Bytes → CaseSpec → BuiltCase → Io R S (Unit {0})
  compare_command evidence_binary workdir producer tc built = do
    completed ← given (some_or (y.marshal_evidence built.evidence) (plain "json"))
    let completed_path = case_file workdir producer tc (bytes "-evidence.json")
    let cli_body = case_file workdir producer tc (bytes "-predicate.json")
    changing (y.write_file completed_path completed) (plain "write evidence")
    p ← calling (
        y.execute evidence_binary
          (bytes "--evidence-path" ∷ completed_path ∷ bytes "--output" ∷ cli_body ∷ []))
    given (guard p.succeeds (plain "predicate command failed"))
    cli_bytes ← reading (λ s. some_or (y.read_file cli_body s) (plain "read predicate"))
    given (
        guard (equal cli_bytes built.predicate_body)
          (plain "CLI predicate output differs from the deterministic expected body"))

  -- The two statements signed separately, a line each.
  unfoldable pub sign_case : Signer → Bytes → BuiltCase → Io R S (Unit {0})
  sign_case signer attestations built = do
    deployment ← drawing (sign_statement c signer built.deployment_statement)
    test_result ← drawing (sign_statement c signer built.test_result_statement)
    changing (y.write_file attestations (bundle_lines deployment test_result))
        (plain "write attestations")

  -- The verifier on the signed pair: its exit and the result that it wrote.
  unfoldable pub enforce :
      Bytes → Bytes → Bytes → Bytes → Bytes → CaseSpec → BuiltCase → Io R S Bool
  unfolding read_vsa_result
  enforce autogov companion workdir trusted_root producer tc built = do
    let vsa = case_file workdir producer tc (bytes "-vsa.json")
    q ← calling (
        y.execute autogov (
          offline_arguments companion (case_file workdir producer tc (bytes ".jsonl")) trusted_root
            vsa built))
    given (guard q.started (plain "offline command did not start"))
    given (guard (not (was_stopped q)) (plain "offline command did not run"))
    result ← read_vsa_result vsa
    pure (equal result tc.want_result && same_bool (exited_zero q) tc.want_exit0)

  unfoldable pub run_case :
      Bytes → Bytes → Bytes → Bytes → Bytes → Signer → Bytes → CaseSpec → Io R S Bool
  unfolding compare_command sign_case enforce
  run_case autogov evidence_binary companion workdir trusted_root signer producer tc = do
    built ← reading (λ s. build_case h k (
        y.open_file
          (y.join (
            companion
            ∷ bytes "fixtures"
            ∷ bytes "evidence"
            ∷ producer
            ∷ (tc.name ++ bytes ".json")
            ∷ []))
          s))
    compare_command evidence_binary workdir producer tc built
    sign_case signer (case_file workdir producer tc (bytes ".jsonl")) built
    enforce autogov companion workdir trusted_root producer tc built

  -- How many cases did not match.
  unfoldable pub run_cases :
      Bytes → Bytes → Bytes → Bytes → Bytes → Signer → List (Bytes × CaseSpec) → Io R S ℕ
  unfolding run_case
  run_cases autogov evidence_binary companion workdir trusted_root signer [] = pure 0
  run_cases autogov evidence_binary companion workdir trusted_root signer ((producer, tc) ∷ rest) =
      do
        matched ← run_case autogov evidence_binary companion workdir trusted_root signer producer tc
        failures ← run_cases autogov evidence_binary companion workdir trusted_root signer rest
        pure (if matched then failures else suc failures)

  -- The directory, and the one to be removed at the end.
  unfoldable pub prepare_workdir : Bytes → Bool → Io R S (Bytes × Option Bytes)
  prepare_workdir workdir keep = elim (equal workdir []) [
    | false ↦ do
      let path = y.clean workdir
      changing (y.mkdir_all (y.dir path)) (plain "create working directory parents")
      changing (y.mkdir path) (plain "create working directory")
      pure (path, none)
    | true ↦ do
      made ← calling y.mkdir_temp
      dir ← given (some_or made (plain "mkdtemp"))
      pure (dir, (if keep then none else some dir))
  ]

  -- `defer cleanup()`.
  abbrev pub deferring : {A : Type 0} → Option Bytes → Io R S A → Io R S A
  deferring none m w = m w
  deferring (some dir) m w =
      let (result, after) = m w in (result, (after.0, y.remove_all dir after.1))

  -- What `run` does in the working directory.
  unfoldable pub demonstrate : Bytes → Bytes → Bytes → Bytes → Io R S (Unit {0})
  demonstrate autogov evidence_binary companion workdir = do
    signer ← drawing (new_signer c demo_identity demo_issuer)
    let trusted_root = y.join (workdir ∷ bytes "trusted-root.json" ∷ [])
    root_json ← given (trusted_root_json c signer)
    changing (y.write_file trusted_root root_json) (plain "write trusted root")
    failures ← run_cases autogov evidence_binary companion workdir trusted_root signer jobs
    given (guard (failures == 0) (plain "case(s) did not match the expected admission result"))

  unfoldable pub run : Bytes → Bytes → Bytes → Bytes → Bool → Io R S (Unit {0})
  run autogov evidence_binary companion workdir keep = do
    path ← reading (λ s. validate_auto_gov_binary (y.binaries s) autogov)
    reading (λ s. guard (y.exists evidence_binary s) (plain "binary not found"))
    abs_companion ← reading (λ s. some_or (y.absolute companion s) (plain "absolute path"))
    (dir, removed) ← prepare_workdir workdir keep
    deferring removed (demonstrate autogov evidence_binary abs_companion dir)

  -- `flags` has the flags that `Parse` finds with the default path of the verifier.
  unfoldable pub run_cli : (Bytes → Flags) → R × S → Ending × (R × S)
  run_cli flags w =
      elim (y.absolute (y.join (bytes ".autogov" ∷ bytes "bin" ∷ bytes "autogov-v1.4.0" ∷ []))
        w.1) [
          | none ↦ (failure (plain "resolve default AutoGov path"), w)
          | some default_path ↦ elim (flags default_path) [
            | help_requested ↦ (help, w)
            | refused e ↦ (failure e, w)
            | parsed autogov evidence_binary companion workdir keep (x ∷ xs) ↦
                (failure (plain "unexpected positional arguments"), w)
            | parsed autogov evidence_binary companion workdir keep [] ↦
                let (result, after) = run autogov evidence_binary companion workdir keep w in
                (ending result, after)
          ]
        ]
