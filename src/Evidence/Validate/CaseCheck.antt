-- ===== src/Evidence/Validate/CaseCheck.antt =====
-- `validateCase` of internal/evidence/deployment.go and the checks that it calls.
pub mod Kinds
pub mod Laws
use Prim.Native.String.{String}
use agent_governance_evidenc.Base.{
  ℕ, ◌-◌, Bool, true, false, not, ◌&&◌, ◌||◌, List, [], Option, none, some, Bytes, equal, leb, ltb,
  Label, case_at, below, at, Result, ok, err, ◌>>=◌, ◌>>◌, guard, some_or, contains, if◌then◌else◌,
  all,
}
use agent_governance_evidenc.Evidence.{
  Deployment, Case, Decision, Outcome, RedactedReference, max_case_duration, allowed_action,
  denied_action, adapter_bypass, no_policy_loaded, observed, not_observed, allow, deny, unknown,
  verified, occurred, blocked, test_result_predicate_type_uri,
}
use agent_governance_evidenc.Evidence.Cases.{kind_order}
use agent_governance_evidenc.Evidence.Fields.{
  Check, validate_canonical_digest, validate_id, validate_redacted_reference, validate_observed_at,
}
use agent_governance_evidenc.Evidence.Host.{Host}

abbrev is_none {ℓ} : {A : Type ℓ} → Option A → Bool
is_none none = true
is_none (some a) = false

-- `c.Decision.Reference == nil` is an error, and otherwise the reference is checked.
unfoldable pub validate_required_reference : Label → String → Option RedactedReference → Check
validate_required_reference label required none = err (at label required)
validate_required_reference label required (some r) = validate_redacted_reference label r

-- `stringSubset`.
unfoldable pub string_subset : List Bytes → List Bytes → Bool
string_subset subset set = all (contains set) subset

unfoldable pub validate_case_test_result : Label → Case → Check
validate_case_test_result label c = do
  guard (equal c.test_result.predicate_type test_result_predicate_type_uri)
      (at (below label ".testResult.predicateType") "must be the standard")
  guard (equal c.test_result.test_id c.id)
      (at (below label ".testResult.testId") "must equal the case id")
  validate_canonical_digest (below label ".testResult.statementDigest")
      c.test_result.statement_digest

-- The four arms of `validateCaseKindConsistency`, as the condition that refuses the case.
unfoldable pub contradicts_kind : Deployment → Case → Bool
unfolding string_subset
contradicts_kind d c =
    if equal c.kind allowed_action
    then not (equal c.decision.state observed) || not (equal c.decision.verdict allow)
    else if equal c.kind denied_action
    then not (equal c.decision.state observed) || not (equal c.decision.verdict deny)
    else if equal c.kind adapter_bypass
    then equal c.decision.state observed
      && string_subset d.enforcement.required_intervention_points
          d.enforcement.observed_intervention_points
    else if equal c.kind no_policy_loaded
    then d.runtime_policy.loaded
    else false

-- The text of each arm's error.
unfoldable pub contradiction : Bytes → String
contradiction kind =
    if equal kind allowed_action
    then "allowed-action contradicts the decision observation (requires an observed allow)"
    else if equal kind denied_action
    then "denied-action contradicts the decision observation (requires an observed deny)"
    else if equal kind adapter_bypass
    then "adapter-bypass contradicts an observed decision with all required points exercised"
    else "no-policy-loaded contradicts runtimePolicy.loaded=true"

unfoldable pub validate_case_kind_consistency : Deployment → Label → Case → Check
unfolding contradicts_kind
validate_case_kind_consistency d label c =
    guard (not (contradicts_kind d c)) (at label (contradiction c.kind))

module _ (h : Host) where
  -- The interval's ends, `completed.Sub(started)` being taken once `completed` is not earlier.
  unfoldable pub validate_case_interval : Label → Case → Result (ℕ × ℕ)
  validate_case_interval label c = do
    started ←
        some_or (h.parse_layout c.started_at)
          (at (below label ".startedAt") "must be canonical UTC seconds")
    completed ←
        some_or (h.parse_layout c.completed_at)
          (at (below label ".completedAt") "must be canonical UTC seconds")
    guard (not (ltb completed started)) (at label "completedAt must not be earlier than startedAt")
    guard (leb (completed - started) max_case_duration)
        (at label "case duration must be at most five minutes")
    ok (started, completed)

  unfoldable pub validate_observed_decision : Label → Decision → ℕ → ℕ → Check
  validate_observed_decision label d started completed = do
    guard (equal d.verdict allow || equal d.verdict deny)
        (at (below label ".decision.verdict") "observed decision requires allow or deny")
    validate_required_reference (below label ".decision.reference")
        "required when decision is observed" d.reference
    validate_observed_at h (below label ".decision.observedAt") d.observed_at started completed

  unfoldable pub validate_unobserved_decision : Label → Decision → Check
  validate_unobserved_decision label d = do
    guard (equal d.verdict unknown)
        (at (below label ".decision.verdict") "must be unknown when the decision was not observed")
    guard (is_none d.reference && equal d.observed_at [])
        (at (below label ".decision") "reference and observedAt must be omitted when not observed")

  unfoldable pub validate_case_decision : Label → Decision → ℕ → ℕ → Check
  unfolding validate_observed_decision validate_unobserved_decision
  validate_case_decision label d started completed =
      if equal d.state observed
      then validate_observed_decision label d started completed
      else if equal d.state not_observed
      then validate_unobserved_decision label d
      else err (at (below label ".decision.state") "must be one of observed, not-observed")

  unfoldable pub validate_verified_outcome : Label → Outcome → ℕ → ℕ → Check
  validate_verified_outcome label o started completed = do
    guard (equal o.result occurred || equal o.result blocked)
        (at (below label ".outcome.result") "verified outcome requires occurred or blocked")
    validate_required_reference (below label ".outcome.reference")
        "required when the outcome is verified" o.reference
    validate_observed_at h (below label ".outcome.observedAt") o.observed_at started completed

  unfoldable pub validate_unknown_outcome : Label → Outcome → Check
  validate_unknown_outcome label o = do
    guard (equal o.result unknown)
        (at (below label ".outcome.result") "must be unknown when the outcome state is unknown")
    guard (is_none o.reference && equal o.observed_at []) (
        at (below label ".outcome")
          "reference and observedAt must be omitted when the outcome is unknown")

  unfoldable pub validate_case_outcome : Label → Outcome → ℕ → ℕ → Check
  unfolding validate_verified_outcome validate_unknown_outcome
  validate_case_outcome label o started completed =
      if equal o.state verified
      then validate_verified_outcome label o started completed
      else if equal o.state unknown
      then validate_unknown_outcome label o
      else err (at (below label ".outcome.state") "must be one of verified, unknown")

  unfoldable pub validate_case : Deployment → ℕ → Case → Check
  validate_case d i c = do
    validate_id (below (case_at i) ".id") c.id
    guard (not (is_none (kind_order c.kind)))
        (at (below (case_at i) ".kind") "must be one of the four case kinds")
    validate_canonical_digest (below (case_at i) ".correlationId") c.correlation_id
    (started, completed) ← validate_case_interval (case_at i) c
    validate_case_decision (case_at i) c.decision started completed
    validate_case_outcome (case_at i) c.outcome started completed
    validate_case_test_result (case_at i) c
    validate_case_kind_consistency d (case_at i) c
