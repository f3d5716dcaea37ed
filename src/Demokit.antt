-- ===== src/Demokit.antt =====
-- internal/demokit/statements.go: the statements that the demonstration signs. The JSON encoders,
-- the test-result schema and SHA-256 are fields of a record.
pub mod Binding
pub mod Laws
pub mod Reproduce
pub mod Signer
pub mod Tests
use Prim.Native.String.{String}
use agent_governance_evidenc.Base.{
  ℕ, zero, suc, length, ◌==◌, Bool, ◌&&◌, List, [], ◌∷◌, ◌++◌, Option, none, some, Bytes, bytes,
  equal, trim_prefix, if◌then◌else◌, Result, ok, err, ◌>>=◌, ◌>>◌, guard, some_or, plain,
}
use agent_governance_evidenc.Evidence.{
  Deployment, Case, predicate_type_uri, test_result_predicate_type_uri, observed, verified, unknown,
}
use agent_governance_evidenc.Evidence.Generate.{parse, generate}
use agent_governance_evidenc.Evidence.Host.{Host}
use agent_governance_evidenc.Evidence.Normalize.{normalize, with_cases}
use agent_governance_evidenc.Evidence.Read.{File, read_evidence_file}

abbrev pub statement_type : Bytes
statement_type = bytes "https://in-toto.io/Statement/v1"

abbrev pub descriptor_name : Bytes
descriptor_name = bytes "agent-governance-conformance-v0.1"

unfoldable pub descriptor_uri : Bytes
descriptor_uri = predicate_type_uri ++ bytes "#conformance"

-- The digest map holds the one key "sha256".
pub record Subject : Type 0 where
  pub name : Bytes
  pub sha256 : Bytes

pub record Statement : Type 0 where
  pub type : Bytes
  pub subject : List Subject
  pub predicate_type : Bytes
  pub predicate : Bytes

-- The fields of `ResourceDescriptor` that are set.
pub record Descriptor : Type 0 where
  pub name : Bytes
  pub uri : Bytes
  pub sha256 : Bytes
  pub annotations : List (Bytes × Bytes)

pub record TestResult : Type 0 where
  pub result : Bytes
  pub configuration : List Descriptor
  pub passed_tests : List Bytes
  pub warned_tests : List Bytes
  pub failed_tests : List Bytes

pub record BuiltCase : Type 0 where
  pub evidence : Deployment
  pub predicate_body : Bytes
  pub deployment_statement : Bytes
  pub test_result_statement : Bytes
  pub agent_name : Bytes
  pub agent_digest_hex : Bytes

-- `json.Marshal` of the two wire types, `ValidateEmbeddedTestResult`, SHA-256 in lowercase hex, and
-- `json.Unmarshal` of a body into the agent's name and digest.
pub record Wire : Type 0 where
  pub marshal_test_result : TestResult → Option Bytes
  pub test_result_accepts : Bytes → Bool
  pub marshal_statement : Statement → Option Bytes
  pub sha256_hex : Bytes → Bytes
  pub read_agent : Bytes → Option (Bytes × Bytes)

unfoldable pub annotation_key : Bytes → Bytes
annotation_key suffix = predicate_type_uri ++ b'#' ∷ suffix

-- `strings.TrimPrefix(digest, "sha256:")`.
unfoldable pub digest_hex : Bytes → Bytes
digest_hex digest = elim (trim_prefix (bytes "sha256:") digest) [ none ↦ digest | some hex ↦ hex ]

unfoldable pub agent_subject : Deployment → Subject
agent_subject d = record { name = d.agent.name; sha256 = digest_hex d.agent.artifact_digest }

unfoldable pub case_annotations : Deployment → Case → List (Bytes × Bytes)
case_annotations d c =
    (annotation_key (bytes "agentDigest"), d.agent.artifact_digest)
    ∷ (annotation_key (bytes "caseId"), c.id)
    ∷ (annotation_key (bytes "correlationId"), c.correlation_id)
    ∷ (annotation_key (bytes "decisionState"), c.decision.state)
    ∷ (annotation_key (bytes "decisionVerdict"), c.decision.verdict)
    ∷ (annotation_key (bytes "outcomeState"), c.outcome.state)
    ∷ (annotation_key (bytes "outcomeResult"), c.outcome.result)
    ∷ []

-- An observed decision must have a reference, whose digest is annotated.
unfoldable pub decision_annotations : Case → Result (List (Bytes × Bytes))
decision_annotations c =
    if equal c.decision.state observed
    then elim c.decision.reference [
      | none ↦ err (plain "observed decision without a reference")
      | some r ↦ ok ((annotation_key (bytes "decisionDigest"), r.digest) ∷ [])
    ]
    else ok []

abbrev pub descriptor : Deployment → List (Bytes × Bytes) → Descriptor
descriptor d annotations = record {
  name = descriptor_name;
  uri = descriptor_uri;
  sha256 = digest_hex d.conformance.controlled_tool.artifact.digest;
  annotations = annotations;
}

abbrev pub passed_result : Deployment → Case → List (Bytes × Bytes) → TestResult
passed_result d c annotations = record {
  result = bytes "PASSED";
  configuration = descriptor d annotations ∷ [];
  passed_tests = c.id ∷ [];
  warned_tests = [];
  failed_tests = [];
}

abbrev pub warned_result : Deployment → Case → List (Bytes × Bytes) → TestResult
warned_result d c annotations = record {
  result = bytes "WARNED";
  configuration = descriptor d annotations ∷ [];
  passed_tests = [];
  warned_tests = c.id ∷ [];
  failed_tests = [];
}

-- The switch on the outcome state.
unfoldable pub test_result_of : Deployment → Case → Result TestResult
unfolding decision_annotations case_annotations
test_result_of d c = do
  decided ← decision_annotations c
  if equal c.outcome.state verified
      then elim c.outcome.reference [
        | none ↦ err (plain "verified outcome without a reference")
        | some r ↦ ok (
            passed_result d c (
              case_annotations d c
              ++ decided
              ++ (annotation_key (bytes "resultArtifactDigest"), r.digest) ∷ []))
      ]
      else if equal c.outcome.state unknown
      then ok (warned_result d c (case_annotations d c ++ decided))
      else err (plain "unsupported outcome state")

module _ (k : Wire) where
  unfoldable pub build_test_result_statement : Deployment → Case → Result Bytes
  build_test_result_statement d c = do
    result ← test_result_of d c
    body ← some_or (k.marshal_test_result result) (plain "failed to marshal test-result predicate")
    guard (k.test_result_accepts body) (plain "test-result predicate failed schema validation")
    some_or
        (k.marshal_statement (record {
          type = statement_type;
          subject = agent_subject d ∷ [];
          predicate_type = test_result_predicate_type_uri;
          predicate = body;
        }))
        (plain "failed to marshal statement")

  unfoldable pub build_deployment_statement : Deployment → Bytes → Result Bytes
  build_deployment_statement d body = do
    (name, digest) ← some_or (k.read_agent body) (plain "predicate body is not valid JSON")
    guard (equal name d.agent.name && equal digest d.agent.artifact_digest)
        (plain "predicate body agent identity does not match the evidence subject")
    some_or
        (k.marshal_statement (record {
          type = statement_type;
          subject = agent_subject d ∷ [];
          predicate_type = predicate_type_uri;
          predicate = body;
        }))
        (plain "failed to marshal statement")

unfoldable repeated_zero : ℕ → Bytes
repeated_zero zero = []
repeated_zero (suc n) = b'0' ∷ repeated_zero n

unfoldable pub placeholder : Bytes
unfolding repeated_zero
placeholder = bytes "sha256:" ++ repeated_zero 64

-- `Cases[0]`, which is there once the number of cases is known to be one.
abbrev pub first_case : List Case → Result Case
first_case [] = err (plain "index out of range")
first_case (c ∷ cs) = ok c

-- `Cases[0].TestResult.StatementDigest = digest`.
abbrev pub set_digest : Bytes → List Case → List Case
set_digest digest [] = []
set_digest digest (c ∷ cs) =
    record c { test_result = record (c.test_result) { statement_digest = digest } } ∷ cs

abbrev pub bind_digest : Bytes → Deployment → Deployment
bind_digest digest d = with_cases d (set_digest digest d.conformance.cases)

module _ (h : Host) (k : Wire) where
  -- What `BuildCase` does with the parsed evidence.
  unfoldable pub build_parsed_case : Deployment → Result BuiltCase
  build_parsed_case d = do
    guard (length d.conformance.cases == 1) (plain "demo evidence must carry exactly one case")
    c ← first_case d.conformance.cases
    guard (equal c.test_result.statement_digest [])
        (plain "demo evidence must omit testResult.statementDigest")
    normal ← normalize h (bind_digest placeholder d)
    let unbound = bind_digest [] normal
    sole ← first_case unbound.conformance.cases
    statement ← build_test_result_statement k unbound sole
    (e, body) ← generate h (bind_digest (bytes "sha256:" ++ k.sha256_hex statement) unbound)
    deployment_statement ← build_deployment_statement k e body
    ok (record {
      evidence = e;
      predicate_body = body;
      deployment_statement = deployment_statement;
      test_result_statement = statement;
      agent_name = e.agent.name;
      agent_digest_hex = digest_hex e.agent.artifact_digest;
    })

  unfoldable pub build_case : Option File → Result BuiltCase
  unfolding build_parsed_case
  build_case evidence = do
    input ← read_evidence_file evidence
    d ← parse h input
    build_parsed_case d
