-- ===== src/Evidence.antt =====
-- The data of internal/evidence/deployment.go: the locked constants and the typed predicate body.
-- A pointer that may be nil is an `Option`; the extensions map is an association list with one
-- entry for each key; a raw JSON message is its bytes.
pub mod Digest
pub mod Host
pub mod Schema
pub mod Json
pub mod Normalize
pub mod Fields
pub mod Validate
pub mod Extensions
pub mod Generate
pub mod Output
pub mod Read
pub mod Presence
pub mod Pattern
pub mod Points
pub mod Cases
pub mod Tests
use agent_governance_evidenc.Base.{ℕ, Bool, List, ◌*◌, ◌^◌, Option, Bytes, bytes}
use agent_governance_evidenc.Base.Int.{ℤ}

abbrev pub predicate_type_uri : Bytes
predicate_type_uri = bytes "https://autogov.dev/attestation/agent-governance-deployment/v0.1"

abbrev pub schema_version : Bytes
schema_version = bytes "0.1"

abbrev pub contract_version : Bytes
contract_version = bytes "0.1"

abbrev pub controlled_tool_name : Bytes
controlled_tool_name = bytes "write-marker"

abbrev pub controlled_tool_action_class : Bytes
controlled_tool_action_class = bytes "filesystem.write.marker"

abbrev pub max_predicate_bytes : ℕ
max_predicate_bytes = 65536

-- Nanoseconds, as `time.Duration` counts them.
abbrev pub second : ℕ
second = 1_000_000_000

abbrev pub max_case_duration : ℕ
max_case_duration = 300_000_000_000

abbrev pub allowed_action : Bytes
allowed_action = bytes "allowed-action"

abbrev pub denied_action : Bytes
denied_action = bytes "denied-action"

abbrev pub adapter_bypass : Bytes
adapter_bypass = bytes "adapter-bypass"

abbrev pub no_policy_loaded : Bytes
no_policy_loaded = bytes "no-policy-loaded"

abbrev pub observed : Bytes
observed = bytes "observed"

abbrev pub not_observed : Bytes
not_observed = bytes "not-observed"

abbrev pub allow : Bytes
allow = bytes "allow"

abbrev pub deny : Bytes
deny = bytes "deny"

abbrev pub unknown : Bytes
unknown = bytes "unknown"

abbrev pub verified : Bytes
verified = bytes "verified"

abbrev pub occurred : Bytes
occurred = bytes "occurred"

abbrev pub blocked : Bytes
blocked = bytes "blocked"

abbrev pub test_result_predicate_type_uri : Bytes
test_result_predicate_type_uri = bytes "https://in-toto.io/attestation/test-result/v0.1"

pub record ArtifactReference : Type 0 where
  pub uri : Bytes
  pub digest : Bytes

pub record RedactedReference : Type 0 where
  pub id : Bytes
  pub digest : Bytes

pub record Agent : Type 0 where
  pub name : Bytes
  pub uri : Bytes
  pub artifact_digest : Bytes

pub record Runtime : Type 0 where
  pub name : Bytes
  pub version : Bytes
  pub framework : Bytes
  pub artifact : ArtifactReference

pub record Adapter : Type 0 where
  pub name : Bytes
  pub artifact : ArtifactReference
  pub contract_version : Bytes
  pub runtime_digest : Bytes

pub record RuntimePolicy : Type 0 where
  pub engine : Bytes
  pub artifact : ArtifactReference
  pub count : ℤ
  pub loaded : Bool

pub record Enforcement : Type 0 where
  pub mode : Bytes
  pub default_behavior : Bytes
  pub required_intervention_points : List Bytes
  pub observed_intervention_points : List Bytes

pub record Identity : Type 0 where
  pub provider_uri : Bytes
  pub subject_kind : Bytes
  pub subject : RedactedReference

pub record Audit : Type 0 where
  pub sink_kind : Bytes
  pub sink : RedactedReference
  pub configuration_digest : Bytes

pub record Fixture : Type 0 where
  pub id : Bytes
  pub producer : Bytes

pub record ControlledTool : Type 0 where
  pub name : Bytes
  pub action_class : Bytes
  pub artifact : ArtifactReference

pub record Decision : Type 0 where
  pub state : Bytes
  pub verdict : Bytes
  pub reference : Option RedactedReference
  pub observed_at : Bytes

pub record Outcome : Type 0 where
  pub state : Bytes
  pub result : Bytes
  pub reference : Option RedactedReference
  pub observed_at : Bytes

pub record TestResultRef : Type 0 where
  pub predicate_type : Bytes
  pub test_id : Bytes
  pub statement_digest : Bytes

pub record Case : Type 0 where
  pub id : Bytes
  pub kind : Bytes
  pub correlation_id : Bytes
  pub started_at : Bytes
  pub completed_at : Bytes
  pub decision : Decision
  pub outcome : Outcome
  pub test_result : TestResultRef

pub record Conformance : Type 0 where
  pub fixture : Fixture
  pub controlled_tool : ControlledTool
  pub cases : List Case

pub record Deployment : Type 0 where
  pub schema_version : Bytes
  pub agent : Agent
  pub runtime : Runtime
  pub adapter : Adapter
  pub runtime_policy : RuntimePolicy
  pub enforcement : Enforcement
  pub identity : Identity
  pub audit : Audit
  pub conformance : Conformance
  pub extensions : List (Bytes × Bytes)
