-- ===== src/Evidence/Validate/CaseCheck/Laws.antt =====
-- What `validateCase` accepts, said as facts about the case.
use Prim.Native.String.{String}
use agent_governance_evidenc.Base.{
  ℕ, ◌≤◌, ◌+◌, ◌≡◌, ◌≢◌, refl, ◌↔◌, ◌⊎◌, inl, inr, [], Option, none, some, bytes, arith, equal,
  equal_iff, Label, below, case_at, ok, Result-cases,
}
use agent_governance_evidenc.Evidence.{
  Deployment, Case, Decision, Outcome, RedactedReference, max_case_duration, observed, not_observed,
  allow, deny, unknown, verified, occurred, blocked, test_result_predicate_type_uri,
}
use agent_governance_evidenc.Evidence.Cases.{kind_order}
use agent_governance_evidenc.Evidence.Digest.{IsDigest}
use agent_governance_evidenc.Evidence.Fields.Laws.{
  IsId, validate_id_iff, validate_canonical_digest_iff, IsRedacted, validate_redacted_reference_iff,
  IsWithin, validate_observed_at_iff,
}
use agent_governance_evidenc.Evidence.Host.{Host}
use agent_governance_evidenc.Evidence.Validate.CaseCheck.{
  validate_required_reference, validate_case_test_result, validate_case_kind_consistency,
  validate_case_interval, validate_case_decision, validate_case_outcome, validate_case,
}
use agent_governance_evidenc.Evidence.Validate.CaseCheck.Kinds.{
  Distinct, FitsKind, validate_case_kind_consistency_iff,
}

-- The reference is there, and well formed.
pub record HasReference (o : Option RedactedReference) : Type 0 where
  pub value : RedactedReference
  pub given : o ≡ some value
  pub form : IsRedacted value

validate_required_reference_iff :
    (l : Label) (why : String) (o : Option RedactedReference)
    → (validate_required_reference l why o ≡ ok tt) ↔ HasReference o
unfolding validate_required_reference
validate_required_reference_iff l why none = (λ e. cc, λ r. absurd (ground (arith, r.given)))
validate_required_reference_iff l why (some r) =
    let here_iff = validate_redacted_reference_iff l r in
    (
      λ e. record { value = r; given = refl; form = here_iff.0 e },
      λ v. here_iff.1 (let same : v.value ≡ r = ground (arith, v.given) in rw same at v.form),
    )

states-Distinct : Distinct not_observed observed × Distinct unknown verified
unfolding bytes equal
states-Distinct = (refl, refl)

validate_case_test_result_iff :
    (l : Label) (c : Case)
    → (validate_case_test_result l c ≡ ok tt) ↔ (
        (c.test_result.predicate_type ≡ test_result_predicate_type_uri)
        × (c.test_result.test_id ≡ c.id)
        × IsDigest c.test_result.statement_digest)
unfolding validate_case_test_result
validate_case_test_result_iff l c = ground (
  arith,
  equal_iff c.test_result.predicate_type test_result_predicate_type_uri,
  equal_iff c.test_result.test_id c.id,
  validate_canonical_digest_iff (below l ".testResult.statementDigest")
      c.test_result.statement_digest,
)

module _ (h : Host) where
  -- The case interval: two timestamps in order, at most five minutes apart.
  abbrev pub IsInterval : Case → ℕ → ℕ → Type 0
  IsInterval c started completed =
      (h.parse_layout c.started_at ≡ some started)
      × (h.parse_layout c.completed_at ≡ some completed)
      × (started ≤ completed)
      × (completed ≤ started + max_case_duration)

  pub validate_case_interval_iff :
      (l : Label) (c : Case) (started completed : ℕ)
      → (validate_case_interval h l c ≡ ok (started, completed)) ↔ IsInterval c started completed
  unfolding validate_case_interval
  validate_case_interval_iff l c started completed = ground arith

  pub record IsObserved (d : Decision) (started completed : ℕ) : Type 0 where
    pub state_is : d.state ≡ observed
    pub verdict_is : (d.verdict ≡ allow) ⊎ (d.verdict ≡ deny)
    pub reference_is : HasReference d.reference
    pub time_is : IsWithin h started completed d.observed_at

  pub record IsUnobserved (d : Decision) : Type 0 where
    pub state_is : d.state ≡ not_observed
    pub verdict_is : d.verdict ≡ unknown
    pub reference_is : d.reference ≡ none
    pub time_is : d.observed_at ≡ []

  pub validate_case_decision_iff :
      (l : Label) (d : Decision) (started completed : ℕ)
      → (validate_case_decision h l d started completed ≡ ok tt)
        ↔ (IsObserved d started completed ⊎ IsUnobserved d)
  unfolding validate_case_decision
  validate_case_decision_iff l d started completed = ground (
    arith,
    states-Distinct,
    equal_iff d.state observed,
    equal_iff d.state not_observed,
    equal_iff d.verdict allow,
    equal_iff d.verdict deny,
    equal_iff d.verdict unknown,
    equal_iff d.observed_at [],
    validate_required_reference_iff (below l ".decision.reference")
        "required when decision is observed" d.reference,
    validate_observed_at_iff h (below l ".decision.observedAt") d.observed_at started completed,
  )

  pub record IsVerified (o : Outcome) (started completed : ℕ) : Type 0 where
    pub state_is : o.state ≡ verified
    pub result_is : (o.result ≡ occurred) ⊎ (o.result ≡ blocked)
    pub reference_is : HasReference o.reference
    pub time_is : IsWithin h started completed o.observed_at

  pub record IsUnknown (o : Outcome) : Type 0 where
    pub state_is : o.state ≡ unknown
    pub result_is : o.result ≡ unknown
    pub reference_is : o.reference ≡ none
    pub time_is : o.observed_at ≡ []

  pub validate_case_outcome_iff :
      (l : Label) (o : Outcome) (started completed : ℕ)
      → (validate_case_outcome h l o started completed ≡ ok tt)
        ↔ (IsVerified o started completed ⊎ IsUnknown o)
  unfolding validate_case_outcome
  validate_case_outcome_iff l o started completed = ground (
    arith,
    states-Distinct,
    equal_iff o.state verified,
    equal_iff o.state unknown,
    equal_iff o.result occurred,
    equal_iff o.result blocked,
    equal_iff o.result unknown,
    equal_iff o.observed_at [],
    validate_required_reference_iff (below l ".outcome.reference")
        "required when the outcome is verified" o.reference,
    validate_observed_at_iff h (below l ".outcome.observedAt") o.observed_at started completed,
  )

  -- All that `validateCase` requires of a case of the body `d`.
  pub record IsCase (d : Deployment) (c : Case) : Type 0 where
    pub id_form : IsId c.id
    pub kind_known : kind_order c.kind ≢ none
    pub correlation_form : IsDigest c.correlation_id
    pub started : ℕ
    pub completed : ℕ
    pub interval : IsInterval c started completed
    pub decision_form : IsObserved c.decision started completed ⊎ IsUnobserved c.decision
    pub outcome_form : IsVerified c.outcome started completed ⊎ IsUnknown c.outcome
    pub test_type : c.test_result.predicate_type ≡ test_result_predicate_type_uri
    pub test_is_case : c.test_result.test_id ≡ c.id
    pub statement_form : IsDigest c.test_result.statement_digest
    pub fits_kind : FitsKind d c

  pub validate_case_sound :
      (d : Deployment) (i : ℕ) (c : Case) → validate_case h d i c ≡ ok tt → IsCase d c
  unfolding validate_case
  validate_case_sound d i c e = elim (Result-cases (validate_case_interval h (case_at i) c)) [
    | inr (x, failed) ↦ absurd (ground (arith, failed))
    | inl ((started, completed), passed) ↦
        let facts : IsId c.id
            × (kind_order c.kind ≢ none)
            × IsDigest c.correlation_id
            × (validate_case_decision h (case_at i) c.decision started completed ≡ ok tt)
            × (validate_case_outcome h (case_at i) c.outcome started completed ≡ ok tt)
            × (validate_case_test_result (case_at i) c ≡ ok tt)
            × (validate_case_kind_consistency d (case_at i) c ≡ ok tt) =
          ground (
            arith,
            passed,
            validate_id_iff (below (case_at i) ".id") c.id,
            validate_canonical_digest_iff (below (case_at i) ".correlationId") c.correlation_id,
          ) in
        let test = (validate_case_test_result_iff (case_at i) c).0 facts.5 in
        record {
          id_form = facts.0;
          kind_known = facts.1;
          correlation_form = facts.2;
          started = started;
          completed = completed;
          interval = (validate_case_interval_iff (case_at i) c started completed).0 passed;
          decision_form =
              (validate_case_decision_iff (case_at i) c.decision started completed).0 facts.3;
          outcome_form =
              (validate_case_outcome_iff (case_at i) c.outcome started completed).0 facts.4;
          test_type = test.0;
          test_is_case = test.1;
          statement_form = test.2;
          fits_kind = (validate_case_kind_consistency_iff d (case_at i) c).0 facts.6;
        }
  ]

  pub validate_case_complete :
      (d : Deployment) (i : ℕ) (c : Case) → IsCase d c → validate_case h d i c ≡ ok tt
  unfolding validate_case
  validate_case_complete d i c f = ground (
    arith,
    (validate_id_iff (below (case_at i) ".id") c.id).1 f.id_form,
    f.kind_known,
    (validate_canonical_digest_iff (below (case_at i) ".correlationId") c.correlation_id).1
        f.correlation_form,
    (validate_case_interval_iff (case_at i) c f.started f.completed).1 f.interval,
    (validate_case_decision_iff (case_at i) c.decision f.started f.completed).1 f.decision_form,
    (validate_case_outcome_iff (case_at i) c.outcome f.started f.completed).1 f.outcome_form,
    (validate_case_test_result_iff (case_at i) c).1 (f.test_type, f.test_is_case, f.statement_form),
    (validate_case_kind_consistency_iff d (case_at i) c).1 f.fits_kind,
  )

  -- A case is accepted exactly when its id, kind, correlation digest and test reference have their
  -- forms, it takes at most five minutes, its decision is observed in that time or not at all, its
  -- outcome is verified in that time or unknown, and all this fits its kind.
  pub validate_case_iff :
      (d : Deployment) (i : ℕ) (c : Case) → (validate_case h d i c ≡ ok tt) ↔ IsCase d c
  validate_case_iff d i c = (validate_case_sound d i c, validate_case_complete d i c)
