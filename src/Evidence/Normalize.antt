-- ===== src/Evidence/Normalize.antt =====
-- `Normalize` of internal/evidence/deployment.go. The code writes each normalised field through a
-- pointer; here each pass returns the changed body. The references of a decoded body do not share
-- memory, so the writes do not meet.
pub mod Digests
pub mod Times
pub mod Laws
pub mod Facts
pub mod Sole
use agent_governance_evidenc.Base.{
  ℕ, suc, ◌%◌, List, [], ◌∷◌, Option, none, some, Bytes, equal, if◌then◌else◌, ◌==◌, Label, here,
  case_at, below, at, plain, naming, Result, ok, err, ◌>>=◌, ◌>>◌, guard, some_or,
}
use agent_governance_evidenc.Evidence.{
  Deployment, Case, RedactedReference, ArtifactReference, second,
}
use agent_governance_evidenc.Evidence.Cases.{sort_cases}
use agent_governance_evidenc.Evidence.Digest.{normalize_digest}
use agent_governance_evidenc.Evidence.Host.{Host}
use agent_governance_evidenc.Evidence.Points.{dedupe_sort}

-- `fmt.Errorf("%s: %w", label, err)`.
abbrev pub labelled {ℓ} : {A : Type ℓ} → Label → Result A → Result A
labelled l (ok a) = ok a
labelled l (err (plain m)) = err (at l m)
labelled l (err (at k m)) = err (at k m)
labelled l (err (naming s m)) = err (naming s m)

unfoldable pub digest_at : Label → Bytes → Result Bytes
digest_at l s = labelled l (normalize_digest s)

abbrev pub artifact_at : Label → ArtifactReference → Result ArtifactReference
artifact_at l r = do digest ← digest_at l r.digest; ok (record r { digest = digest })

abbrev pub redacted_at : Label → RedactedReference → Result RedactedReference
redacted_at l r = do digest ← digest_at l r.digest; ok (record r { digest = digest })

-- A reference that is nil has no digest to normalise.
abbrev pub reference_at : Label → Option RedactedReference → Result (Option RedactedReference)
reference_at l none = ok none
reference_at l (some r) = do q ← redacted_at l r; ok (some q)

unfoldable pub normalize_case_digests : ℕ → Case → Result Case
normalize_case_digests i c = do
  correlation ← digest_at (below (case_at i) ".correlationId") c.correlation_id
  statement ←
      digest_at (below (case_at i) ".testResult.statementDigest") c.test_result.statement_digest
  decided ← reference_at (below (case_at i) ".decision.reference.digest") c.decision.reference
  resulted ← reference_at (below (case_at i) ".outcome.reference.digest") c.outcome.reference
  ok (record c {
    correlation_id = correlation;
    test_result = record (c.test_result) { statement_digest = statement };
    decision = record (c.decision) { reference = decided };
    outcome = record (c.outcome) { reference = resulted };
  })

-- A loop over the cases with their index.
unfoldable pub each_case : (ℕ → Case → Result Case) → ℕ → List Case → Result (List Case)
each_case f i [] = ok []
each_case f i (c ∷ cs) = do c' ← f i c; cs' ← each_case f (suc i) cs; ok (c' ∷ cs')

-- The loop over `digests`, in the order of that list.
unfoldable pub normalize_digests : Deployment → Result Deployment
unfolding normalize_case_digests each_case
normalize_digests d = do
  agent_digest ← digest_at (here "agent.artifactDigest") d.agent.artifact_digest
  runtime_artifact ← artifact_at (here "runtime.artifact.digest") d.runtime.artifact
  adapter_artifact ← artifact_at (here "adapter.artifact.digest") d.adapter.artifact
  runtime_digest ← digest_at (here "adapter.runtimeDigest") d.adapter.runtime_digest
  policy_artifact ← artifact_at (here "runtimePolicy.artifact.digest") d.runtime_policy.artifact
  subject ← redacted_at (here "identity.subject.digest") d.identity.subject
  sink ← redacted_at (here "audit.sink.digest") d.audit.sink
  configuration ← digest_at (here "audit.configurationDigest") d.audit.configuration_digest
  tool_artifact ←
      artifact_at (here "conformance.controlledTool.artifact.digest")
        d.conformance.controlled_tool.artifact
  cases ← each_case normalize_case_digests 0 d.conformance.cases
  ok (record d {
    agent = record (d.agent) { artifact_digest = agent_digest };
    runtime = record (d.runtime) { artifact = runtime_artifact };
    adapter = record (d.adapter) { artifact = adapter_artifact; runtime_digest = runtime_digest };
    runtime_policy = record (d.runtime_policy) { artifact = policy_artifact };
    identity = record (d.identity) { subject = subject };
    audit = record (d.audit) { sink = sink; configuration_digest = configuration };
    conformance = record (d.conformance) {
      controlled_tool = record (d.conformance.controlled_tool) { artifact = tool_artifact };
      cases = cases;
    };
  })

unfoldable pub normalize_points : Deployment → Deployment
normalize_points d = record d {
  enforcement = record (d.enforcement) {
    required_intervention_points = dedupe_sort d.enforcement.required_intervention_points;
    observed_intervention_points = dedupe_sort d.enforcement.observed_intervention_points;
  };
}

abbrev pub with_cases : Deployment → List Case → Deployment
with_cases d cs = record d { conformance = record (d.conformance) { cases = cs } }

module _ (h : Host) where
  -- `normalizeAgentGovernanceTimestamp`.
  unfoldable pub normalize_timestamp : Bytes → Result Bytes
  normalize_timestamp ts = do
    parsed ←
        some_or (h.parse_rfc3339 ts)
          (plain "invalid timestamp: must be RFC3339 (canonical form 2006-01-02T15:04:05Z)")
    guard (parsed % second == 0) (
        plain
          "invalid timestamp: fractional seconds are not allowed (canonical form 2006-01-02T15:04:05Z)")
    ok (h.format_layout parsed)

  unfoldable pub timestamp_at : Label → Bytes → Result Bytes
  timestamp_at l ts = labelled l (normalize_timestamp ts)

  -- A timestamp that is absent stays absent.
  unfoldable pub optional_timestamp_at : Label → Bytes → Result Bytes
  optional_timestamp_at l ts = if equal ts [] then ok ts else timestamp_at l ts

  unfoldable pub normalize_case_timestamps : ℕ → Case → Result Case
  normalize_case_timestamps i c = do
    started ← timestamp_at (below (case_at i) ".startedAt") c.started_at
    completed ← timestamp_at (below (case_at i) ".completedAt") c.completed_at
    decided ←
        optional_timestamp_at (below (case_at i) ".decision.observedAt") c.decision.observed_at
    resulted ← optional_timestamp_at (below (case_at i) ".outcome.observedAt") c.outcome.observed_at
    ok (record c {
      started_at = started;
      completed_at = completed;
      decision = record (c.decision) { observed_at = decided };
      outcome = record (c.outcome) { observed_at = resulted };
    })

  unfoldable pub normalize_timestamps : Deployment → Result Deployment
  unfolding normalize_case_timestamps
  normalize_timestamps d = do
    cases ← each_case normalize_case_timestamps 0 d.conformance.cases
    ok (with_cases d cases)

  -- The loop of `normalizeExtensions`.
  unfoldable pub normalize_values : List (Bytes × Bytes) → Result (List (Bytes × Bytes))
  normalize_values [] = ok []
  normalize_values ((key, raw) ∷ rest) = do
    v ← some_or (h.decode_json raw) (plain "extensions: value is not valid JSON")
    canonical ← some_or (h.marshal_json v) (plain "extensions: failed to canonicalize value")
    rest' ← normalize_values rest
    ok ((key, canonical) ∷ rest')

  unfoldable pub normalize_extensions : Deployment → Result Deployment
  unfolding normalize_values
  normalize_extensions d = do
    values ← normalize_values d.extensions
    ok (record d { extensions = values })

  unfoldable pub normalize : Deployment → Result Deployment
  normalize d = do
    digested ← normalize_digests d
    timed ← normalize_timestamps (normalize_points digested)
    normalize_extensions (with_cases timed (sort_cases timed.conformance.cases))
