-- ===== src/Evidence/Validate.antt =====
-- `Validate` of internal/evidence/deployment.go and the checks of each part of the body.
pub mod CaseCheck
pub mod Parts
pub mod Laws
pub mod Distinct
use agent_governance_evidenc.Base.{
  ℕ, Bool, true, false, not, ◌&&◌, ◌||◌, List, [], ◌∷◌, none, Bytes, equal, bytes, leb, ltb, Label,
  here, case_at, below, at, Result, ok, err, ◌>>=◌, ◌>>◌, guard, contains, length, suc, ◌+◌,
}
use agent_governance_evidenc.Base.Int.{ℤ, pos, leb_ℤ}
use agent_governance_evidenc.Evidence.{
  Deployment, Runtime, Adapter, RuntimePolicy, Enforcement, Identity, Audit, Conformance, Case,
  schema_version, contract_version, controlled_tool_name, controlled_tool_action_class, allow, deny,
}
use agent_governance_evidenc.Evidence.Extensions.{validate_extensions}
use agent_governance_evidenc.Evidence.Fields.{
  Check, validate_bounded_text, validate_absolute_uri, validate_canonical_digest, validate_id,
  validate_artifact_reference, validate_redacted_reference,
}
use agent_governance_evidenc.Evidence.Host.{Host}
use CaseCheck.{validate_case}

-- A string that must be one of two.
unfoldable pub one_of : Bytes → Bytes → Bytes → Bool
one_of s a b = equal s a || equal s b

unfoldable pub same_bool : Bool → Bool → Bool
same_bool true b = b
same_bool false b = not b

unfoldable pub each_ok : (Bytes → Check) → List Bytes → Check
each_ok f [] = ok tt
each_ok f (x ∷ xs) = f x >> each_ok f xs

unfoldable pub validate_runtime_policy_count : RuntimePolicy → Check
unfolding same_bool
validate_runtime_policy_count p = do
  guard (leb_ℤ (pos 0) p.count && leb_ℤ p.count (pos 64))
      (at (here "runtimePolicy.count") "must be an integer in [0, 64]")
  guard (same_bool p.loaded (leb_ℤ (pos 1) p.count)) (
      at (here "runtimePolicy.loaded")
        "contradicts runtimePolicy.count (loaded must be true iff count >= 1)")

unfoldable pub validate_enforcement : Enforcement → Check
unfolding one_of
validate_enforcement e = do
  guard (one_of e.mode (bytes "enforce") (bytes "monitor"))
      (at (here "enforcement.mode") "must be one of enforce, monitor")
  guard (one_of e.default_behavior allow deny)
      (at (here "enforcement.defaultBehavior") "must be one of allow, deny")
  guard
      (leb 1 (length e.required_intervention_points)
        && leb (length e.required_intervention_points) 32)
      (at (here "enforcement.requiredInterventionPoints") "must contain 1-32 unique IDs")
  guard (leb (length e.observed_intervention_points) 32)
      (at (here "enforcement.observedInterventionPoints") "must contain 0-32 unique IDs")
  each_ok (validate_id (here "enforcement.requiredInterventionPoints[]"))
      e.required_intervention_points
  each_ok (validate_id (here "enforcement.observedInterventionPoints[]"))
      e.observed_intervention_points

module _ (h : Host) where
  unfoldable pub validate_root : Deployment → Check
  validate_root d = do
    guard (equal d.schema_version schema_version) (at (here "schemaVersion") "must be the const")
    validate_bounded_text (here "agent.name") d.agent.name 256
    validate_absolute_uri h (here "agent.uri") d.agent.uri none
    validate_canonical_digest (here "agent.artifactDigest") d.agent.artifact_digest

  -- The framework is optional.
  unfoldable pub validate_framework : Bytes → Check
  validate_framework [] = ok tt
  validate_framework (c ∷ s) = validate_bounded_text (here "runtime.framework") (c ∷ s) 128

  unfoldable pub validate_runtime_adapter : Runtime → Adapter → Check
  validate_runtime_adapter r a = do
    validate_bounded_text (here "runtime.name") r.name 128
    validate_bounded_text (here "runtime.version") r.version 128
    validate_framework r.framework
    validate_artifact_reference h (here "runtime.artifact") r.artifact
    validate_bounded_text (here "adapter.name") a.name 128
    validate_artifact_reference h (here "adapter.artifact") a.artifact
    guard (equal a.contract_version contract_version)
        (at (here "adapter.contractVersion") "must be the const")
    validate_canonical_digest (here "adapter.runtimeDigest") a.runtime_digest
    guard (equal a.runtime_digest r.artifact.digest) (
        at (here "adapter.runtimeDigest")
          "must equal runtime.artifact.digest (runtime linkage mismatch)")

  unfoldable pub validate_runtime_policy : RuntimePolicy → Check
  validate_runtime_policy p = do
    validate_id (here "runtimePolicy.engine") p.engine
    validate_artifact_reference h (here "runtimePolicy.artifact") p.artifact
    validate_runtime_policy_count p

  unfoldable pub validate_identity_audit : Identity → Audit → Check
  unfolding one_of
  validate_identity_audit i a = do
    validate_absolute_uri h (here "identity.providerUri") i.provider_uri none
    guard (one_of i.subject_kind (bytes "agent") (bytes "workload"))
        (at (here "identity.subjectKind") "must be one of agent, workload")
    validate_redacted_reference (here "identity.subject") i.subject
    validate_id (here "audit.sinkKind") a.sink_kind
    validate_redacted_reference (here "audit.sink") a.sink
    validate_canonical_digest (here "audit.configurationDigest") a.configuration_digest

  -- The loop over the cases; `ids` and `kinds` are `seenIDs` and `seenKinds`.
  unfoldable pub validate_cases : Deployment → ℕ → List Bytes → List Bytes → List Case → Check
  validate_cases d i ids kinds [] = ok tt
  validate_cases d i ids kinds (c ∷ cs) = do
    guard (not (contains ids c.id)) (at (below (case_at i) ".id") "duplicate case id")
    guard (not (contains kinds c.kind)) (at (below (case_at i) ".kind") "duplicate case kind")
    validate_case h d i c
    validate_cases d (suc i) (c.id ∷ ids) (c.kind ∷ kinds) cs

  unfoldable pub validate_conformance : Deployment → Check
  unfolding one_of
  validate_conformance d = do
    validate_id (here "conformance.fixture.id") d.conformance.fixture.id
    guard (one_of d.conformance.fixture.producer (bytes "agt") (bytes "non-agt"))
        (at (here "conformance.fixture.producer") "must be one of agt, non-agt")
    guard (equal d.conformance.controlled_tool.name controlled_tool_name)
        (at (here "conformance.controlledTool.name") "must be the const")
    guard (equal d.conformance.controlled_tool.action_class controlled_tool_action_class)
        (at (here "conformance.controlledTool.actionClass") "must be the const")
    validate_artifact_reference h (here "conformance.controlledTool.artifact")
        d.conformance.controlled_tool.artifact
    guard (leb 1 (length d.conformance.cases) && leb (length d.conformance.cases) 4)
        (at (here "conformance.cases") "must contain 1-4 cases")
    validate_cases d 0 [] [] d.conformance.cases

  -- The validators run in this order, and the first error is returned.
  unfoldable pub validate : Deployment → Check
  validate d = do
    validate_root d
    validate_runtime_adapter d.runtime d.adapter
    validate_runtime_policy d.runtime_policy
    validate_enforcement d.enforcement
    validate_identity_audit d.identity d.audit
    validate_conformance d
    validate_extensions h d.extensions
