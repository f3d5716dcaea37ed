-- ===== src/Demo/Samples.antt =====
-- A small world for the demonstration: a path has a file, a directory is an empty file, and the two
-- programs answer by their arguments.
use agent_governance_evidenc.Base.{
  ◌≡◌, refl, ap, ◌∙◌, ℕ, zero, suc, ◌==◌, Bool, true, false, List, [], ◌∷◌, ◌++◌, some, none, Bytes,
  bytes, equal, equal_refl, contains, ok, All, not, ◌&&◌, guard, some_or, plain, if◌then◌else◌,
}
use agent_governance_evidenc.Demo.Data.{CaseSpec, Process, System}
use agent_governance_evidenc.Demo.{
  pairs, jobs, case_file, bundle_lines, offline_arguments, same_bool, exited_zero, was_stopped,
  run_case, run_cases, compare_command, sign_case, enforce, read_vsa_result, demonstrate,
}
use agent_governance_evidenc.Demo.Steps.{
  >>=-of_ok, drawing-of_ok, given, reading, changing, calling,
}
use agent_governance_evidenc.Demokit.Signer.{trusted_root_json}
use agent_governance_evidenc.Demokit.Signer.Tests.{
  toy, sample_signer, sample_new_signer, sample_signs,
}
use agent_governance_evidenc.Demokit.Tests.{demo_host, sample_wire, demo_builds, built}
use agent_governance_evidenc.Evidence.Output.{Files, update}
use agent_governance_evidenc.Evidence.Tests.Samples.{evidence_file, predicate_bytes}
use agent_governance_evidenc.Testutil.{Binaries}

abbrev pub joined_path : List Bytes → Bytes
joined_path [] = []
joined_path (p ∷ ps) = p ++ joined_path ps

abbrev pub argument : ℕ → List Bytes → Bytes
argument n [] = []
argument zero (a ∷ as') = a
argument (suc n) (a ∷ as') = argument n as'

-- The attestations that the verifier lets pass.
abbrev pub passing : List Bytes
passing =
    bytes "tmpnon-agt-allowed-action.jsonl"
    ∷ bytes "tmpnon-agt-denied-action.jsonl"
    ∷ bytes "tmpagt-allowed-action.jsonl"
    ∷ bytes "tmpagt-denied-action.jsonl"
    ∷ []

unfoldable pub verifier : Bool → Bytes → Files → Process × Files
verifier true vsa s = (
  record { started = true; succeeds = true; exit_code = some 0 },
  update s vsa (some (bytes "PASSED")),
)
verifier false vsa s = (
  record { started = true; succeeds = false; exit_code = some 1 },
  update s vsa (some (bytes "FAILED")),
)

unfoldable pub execute_sample : Bytes → List Bytes → Files → Process × Files
execute_sample program arguments s =
    if equal program (bytes "evidence")
    then (
      record { started = true; succeeds = true; exit_code = some 0 },
      update s (argument 3 arguments) (some predicate_bytes),
    )
    else verifier (contains passing (argument 2 arguments)) (argument 13 arguments) s

abbrev pub sample_binaries : Binaries
sample_binaries = record {
  is_abs = λ path. true;
  stat_regular = λ path. some true;
  look_path = λ path. true;
}

abbrev pub sample_system : System Files
sample_system = record {
  binaries = λ s. sample_binaries;
  exists = λ path s. true;
  absolute = λ path s. some path;
  join = joined_path;
  clean = λ path. path;
  dir = λ path. path;
  mkdir_all = λ path s. (true, s);
  mkdir = λ path s. (true, update s path (some []));
  mkdir_temp = λ s. (some (bytes "tmp"), update s (bytes "tmp") (some []));
  remove_all = λ path s. update s path none;
  write_file = λ path content s. (true, update s path (some content));
  read_file = λ path s. s path;
  open_file = λ path s. evidence_file;
  execute = execute_sample;
  marshal_evidence = λ d. some (bytes "{evidence}");
  verification_result = λ content. some content;
}

abbrev pub no_files : Files
no_files = λ path. none

abbrev pub program : Bytes
program = bytes "autogov"

abbrev pub file_of : Bytes → CaseSpec → Bytes → Bytes
file_of p tc suffix = case_file demo_host sample_wire toy sample_system (bytes "tmp") p tc suffix

abbrev pub compared : Bytes → CaseSpec → Files → Files
compared p tc s =
    update (update s (file_of p tc (bytes "-evidence.json")) (some (bytes "{evidence}")))
      (file_of p tc (bytes "-predicate.json")) (some predicate_bytes)

pub read_updated :
    (s : Files) (path content : Bytes) → update s path (some content) path ≡ some content
read_updated s path content = rw (equal_refl path) refl

abbrev pub exited : ℕ → Process
exited n = record { started = true; succeeds = n == 0; exit_code = some n }

pub sample_executes :
    (a b c out : Bytes) (s : Files)
    → execute_sample (bytes "evidence") (a ∷ b ∷ c ∷ out ∷ []) s
      ≡ (exited 0, update s out (some predicate_bytes))
unfolding execute_sample bytes equal
sample_executes a b c out s = refl

pub sample_compares :
    (p : Bytes) (tc : CaseSpec) (s : Files)
    → compare_command demo_host sample_wire toy sample_system
        (bytes "evidence")
        (bytes "tmp")
        p
        tc
        built
        (8, s)
      ≡ (ok tt, (8, compared p tc s))
unfolding compare_command given reading changing calling
sample_compares p tc s =
    let written = update s (file_of p tc (bytes "-evidence.json")) (some (bytes "{evidence}")) in
    let out = file_of p tc (bytes "-predicate.json") in
    >>=-of_ok _ _ (8, s) (8, s) (bytes "{evidence}") refl
    ∙ >>=-of_ok _ _ (8, s) (8, written) tt refl
    ∙ >>=-of_ok _ _ (8, written) (8, compared p tc s) (exited 0)
        (ap (λ r. (ok r.0, (8, r.1))) (sample_executes _ _ _ out written))
    ∙ >>=-of_ok _ _ (8, compared p tc s) (8, compared p tc s) tt refl
    ∙ >>=-of_ok _ _ (8, compared p tc s) (8, compared p tc s) predicate_bytes
        (ap (λ r. (some_or r (plain "read predicate"), (8, compared p tc s)))
          (read_updated written out predicate_bytes))
    ∙ ap
        (λ b. (
          guard b (plain "CLI predicate output differs from the deterministic expected body"),
          (8, compared p tc s),
        ))
        (equal_refl predicate_bytes)

abbrev pub signed : Bytes → CaseSpec → Files → Files
signed p tc s =
    update s (file_of p tc (bytes ".jsonl"))
      (some (bundle_lines built.deployment_statement built.test_result_statement))

pub sample_signs_case :
    (p : Bytes) (tc : CaseSpec) (s : Files)
    → sign_case demo_host sample_wire toy sample_system sample_signer
        (file_of p tc (bytes ".jsonl"))
        built
        (8, s)
      ≡ (ok tt, (8, signed p tc s))
unfolding sign_case changing
sample_signs_case p tc s =
    >>=-of_ok _ _ (8, s) (8, s) built.deployment_statement
      (drawing-of_ok _ (8, s) _ 8 (sample_signs built.deployment_statement))
    ∙ >>=-of_ok _ _ (8, s) (8, s) built.test_result_statement
        (drawing-of_ok _ (8, s) _ 8 (sample_signs built.test_result_statement))

abbrev pub verdict : Bool → Bytes
verdict true = bytes "PASSED"
verdict false = bytes "FAILED"

abbrev pub exit_of : Bool → ℕ
exit_of true = 0
exit_of false = 1

-- The verifier's answer is the one that the case wants.
abbrev pub Fits : Bytes × CaseSpec → Type 0
Fits (p, tc) =
    (contains passing (file_of p tc (bytes ".jsonl")) ≡ tc.want_exit0)
    × (verdict tc.want_exit0 ≡ tc.want_result)

pub verifier-exits :
    (b : Bool) (vsa : Bytes) (s : Files)
    → verifier b vsa s ≡ (exited (exit_of b), update s vsa (some (verdict b)))
unfolding verifier
verifier-exits true vsa s = refl
verifier-exits false vsa s = refl

pub sample_verifies :
    (attestations vsa : Bytes) (s : Files)
    → execute_sample program
        (offline_arguments demo_host sample_wire toy sample_system
          (bytes "c")
          attestations
          (bytes "tmptrusted-root.json")
          vsa
          built)
        s
      ≡ verifier (contains passing attestations) vsa s
unfolding execute_sample bytes equal
sample_verifies attestations vsa s = refl

pub exit_matches : (b : Bool) → same_bool (exited_zero (exited (exit_of b))) b ≡ true
exit_matches true = refl
exit_matches false = refl

pub not-was_stopped : (b : Bool) → not (was_stopped (exited (exit_of b))) ≡ true
not-was_stopped true = refl
not-was_stopped false = refl

pub sample_enforces :
    (p : Bytes) (tc : CaseSpec) (s : Files)
    → Fits (p, tc)
    → enforce demo_host sample_wire toy sample_system program
        (bytes "c")
        (bytes "tmp")
        (bytes "tmptrusted-root.json")
        p
        tc
        built
        (8, s)
      ≡ (ok true, (8, update s (file_of p tc (bytes "-vsa.json")) (some (verdict tc.want_exit0))))
unfolding enforce read_vsa_result given reading calling
sample_enforces p tc s (passes, is) =
    let vsa = file_of p tc (bytes "-vsa.json") in
    let b = tc.want_exit0 in
    let after = update s vsa (some (verdict b)) in
    let q = exited (exit_of b) in
    >>=-of_ok _ _ (8, s) (8, after) q
      (ap (λ r. (ok r.0, (8, r.1)))
        (sample_verifies (file_of p tc (bytes ".jsonl")) vsa s
          ∙ ap (λ x. verifier x vsa s) passes
          ∙ verifier-exits b vsa s))
    ∙ >>=-of_ok _ _ (8, after) (8, after) tt refl
    ∙ >>=-of_ok _ _ (8, after) (8, after) tt
        (ap (λ x. (guard x (plain "offline command did not run"), (8, after))) (not-was_stopped b))
    ∙ >>=-of_ok _ _ (8, after) (8, after) (verdict b)
        (>>=-of_ok _ _ (8, after) (8, after) (verdict b)
          (ap (λ r. (some_or r (plain "no VSA result"), (8, after)))
            (read_updated s vsa (verdict b))))
    ∙ ap (λ x. (ok x, (8, after)))
        (ap (λ r. equal r tc.want_result && same_bool (exited_zero q) b) is
          ∙ ap (λ x. x && same_bool (exited_zero q) b) (equal_refl tc.want_result)
          ∙ exit_matches b)

pub sample_case :
    (p : Bytes) (tc : CaseSpec) (s : Files)
    → Fits (p, tc)
    → (after : Files) × (run_case demo_host sample_wire toy sample_system program
          (bytes "evidence")
          (bytes "c")
          (bytes "tmp")
          (bytes "tmptrusted-root.json")
          sample_signer
          p
          tc
          (8, s)
        ≡ (ok true, (8, after)))
unfolding run_case reading
sample_case p tc s fits = (
  _,
  >>=-of_ok _ _ (8, s) (8, s) built (ap (λ r. (r, (8, s))) demo_builds)
      ∙ >>=-of_ok _ _ (8, s) (8, compared p tc s) tt (sample_compares p tc s)
      ∙ >>=-of_ok _ _ (8, compared p tc s) (8, signed p tc (compared p tc s)) tt
          (sample_signs_case p tc (compared p tc s))
      ∙ sample_enforces p tc (signed p tc (compared p tc s)) fits,
)

pub sample_cases :
    (todo : List (Bytes × CaseSpec)) (s : Files)
    → All Fits todo
    → (after : Files) × (run_cases demo_host sample_wire toy sample_system program
          (bytes "evidence")
          (bytes "c")
          (bytes "tmp")
          (bytes "tmptrusted-root.json")
          sample_signer
          todo
          (8, s)
        ≡ (ok 0, (8, after)))
unfolding run_cases
sample_cases [] s fits = (s, refl)
sample_cases ((p, tc) ∷ todo) s (fit, fits) =
    let (middle, first) = sample_case p tc s fit in
    let (after, rest) = sample_cases todo middle fits in
    (
      after,
      >>=-of_ok _ _ (8, s) (8, middle) true first ∙ >>=-of_ok _ _ (8, middle) (8, after) 0 rest,
    )

pub sample-Fits : All Fits jobs
unfolding pairs bytes equal contains
sample-Fits = (
  (refl, refl),
  (
    (refl, refl),
    (
      (refl, refl),
      (
        (refl, refl),
        (
          (refl, refl),
          ((refl, refl), ((refl, refl), ((refl, refl), ((refl, refl), ((refl, refl), tt))))),
        ),
      ),
    ),
  ),
)

abbrev pub rooted : Files → Files
rooted s = update s (bytes "tmptrusted-root.json") (some (bytes "root"))

pub sample_demonstrates :
    (s : Files)
    → (after : Files) × (demonstrate demo_host sample_wire toy sample_system program
          (bytes "evidence")
          (bytes "c")
          (bytes "tmp")
          (0, s)
        ≡ (ok tt, (8, after)))
unfolding demonstrate given changing trusted_root_json bytes
sample_demonstrates s =
    let (after, ran) = sample_cases jobs (rooted s) sample-Fits in
    (
      after,
      >>=-of_ok _ _ (0, s) (8, s) sample_signer
            (drawing-of_ok _ (0, s) sample_signer 8 sample_new_signer)
          ∙ >>=-of_ok _ _ (8, s) (8, s) (bytes "root") refl
          ∙ >>=-of_ok _ _ (8, s) (8, rooted s) tt refl
          ∙ >>=-of_ok _ _ (8, rooted s) (8, after) 0 ran,
    )
