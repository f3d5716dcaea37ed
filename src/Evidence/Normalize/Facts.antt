-- ===== src/Evidence/Normalize/Facts.antt =====
-- What `Normalize` does not change.
use agent_governance_evidenc.Base.{
  ℕ, suc, Bool, ◌≡◌, refl, ap, ◌∙◌, subst, Option, none, some, Label, sym, List, [], ◌∷◌, map,
  Bytes, arith, contains, Result, ok, >>=-eq-ok,
}
use agent_governance_evidenc.Base.Int.{ℤ}
use mathlib.Core.List.{Perm}
use mathlib.Core.List.Perm
use agent_governance_evidenc.Evidence.{Deployment, Case, RedactedReference}
use agent_governance_evidenc.Evidence.Cases.Laws.{sort_cases-Perm}
use agent_governance_evidenc.Evidence.Host.{Host}
use agent_governance_evidenc.Evidence.Normalize.{
  each_case, digest_at, reference_at, normalize_case_digests, normalize_case_timestamps,
  normalize_digests, normalize_points, normalize,
}
use agent_governance_evidenc.Evidence.Normalize.Laws.{normalize-Trace}
use agent_governance_evidenc.Evidence.Points.Laws.{contains-dedupe_sort}

-- The id of a reference, where there is one.
abbrev pub reference_id : Option RedactedReference → Option Bytes
reference_id none = none
reference_id (some r) = some r.id

-- What a case states, but for its digests and times: its texts, and the ids of the references of
-- its decision and of its outcome.
abbrev pub case_facts : Case → List Bytes × Option Bytes × Option Bytes
case_facts c = (
  c.id ∷ c.kind ∷ c.decision.state ∷ c.decision.verdict ∷ c.outcome.state ∷ c.outcome.result
      ∷ c.test_result.predicate_type ∷ c.test_result.test_id ∷ [],
  reference_id c.decision.reference,
  reference_id c.outcome.reference,
)

-- What the body states, but for its digests, points, cases and extensions.
abbrev pub body_facts : Deployment → List Bytes × ℤ × Bool
body_facts d = (
  d.schema_version ∷ d.agent.name ∷ d.agent.uri ∷ d.runtime.name ∷ d.runtime.version
      ∷ d.runtime.framework ∷ d.runtime.artifact.uri ∷ d.adapter.name ∷ d.adapter.artifact.uri
      ∷ d.adapter.contract_version ∷ d.runtime_policy.engine ∷ d.runtime_policy.artifact.uri
      ∷ d.enforcement.mode ∷ d.enforcement.default_behavior ∷ d.identity.provider_uri
      ∷ d.identity.subject_kind ∷ d.identity.subject.id ∷ d.audit.sink_kind ∷ d.audit.sink.id
      ∷ d.conformance.fixture.id ∷ d.conformance.fixture.producer
      ∷ d.conformance.controlled_tool.name ∷ d.conformance.controlled_tool.action_class
      ∷ d.conformance.controlled_tool.artifact.uri ∷ [],
  d.runtime_policy.count,
  d.runtime_policy.loaded,
)

pub record HasSameFacts (d e : Deployment) : Type 0 where
  pub body : body_facts e ≡ body_facts d
  pub required :
      (s : Bytes)
      → contains e.enforcement.required_intervention_points s
        ≡ contains d.enforcement.required_intervention_points s
  pub observed :
      (s : Bytes)
      → contains e.enforcement.observed_intervention_points s
        ≡ contains d.enforcement.observed_intervention_points s
  pub cases : Perm (map case_facts e.conformance.cases) (map case_facts d.conformance.cases)

each_case-facts :
    (f : ℕ → Case → Result Case)
    → ((i : ℕ) (c c' : Case) → f i c ≡ ok c' → case_facts c' ≡ case_facts c)
    → (i : ℕ) (cs ds : List Case) → each_case f i cs ≡ ok ds
    → map case_facts ds ≡ map case_facts cs
unfolding each_case
each_case-facts f keep i [] ds e = let same : [] ≡ ds = ground arith in rw (← same) refl
each_case-facts f keep i (c ∷ cs) ds e =
    let (c', first, later) = >>=-eq-ok (f i c) _ e in
    let (cs', rest, final) = >>=-eq-ok (each_case f (suc i) cs) _ later in
    let same : c' ∷ cs' ≡ ds = ground arith in
    rw (← same) (cc (keep i c c' first, each_case-facts f keep (suc i) cs cs' rest))

reference_at-id :
    (l : Label) (o q : Option RedactedReference)
    → reference_at l o ≡ ok q
    → reference_id q ≡ reference_id o
reference_at-id l none q e = let same : none ≡ q = ground arith in rw (← same) refl
reference_at-id l (some r) q e = ground arith

normalize_case_digests-facts :
    (i : ℕ) (c c' : Case) → normalize_case_digests i c ≡ ok c' → case_facts c' ≡ case_facts c
unfolding normalize_case_digests
normalize_case_digests-facts i c c' e =
    let (correlation, _, e₁) = >>=-eq-ok (digest_at _ c.correlation_id) _ e in
    let (statement, _, e₂) = >>=-eq-ok (digest_at _ c.test_result.statement_digest) _ e₁ in
    let (decided, decides, e₃) = >>=-eq-ok (reference_at _ c.decision.reference) _ e₂ in
    let (resulted, results, e₄) = >>=-eq-ok (reference_at _ c.outcome.reference) _ e₃ in
    let texts : (case_facts c').0 ≡ (case_facts c).0 = ground arith in
    let decision : c'.decision.reference ≡ decided = ground arith in
    let outcome : c'.outcome.reference ≡ resulted = ground arith in
    cc (
      texts,
      ap reference_id decision ∙ reference_at-id _ c.decision.reference decided decides,
      ap reference_id outcome ∙ reference_at-id _ c.outcome.reference resulted results,
    )

normalize_digests-facts :
    (d e : Deployment) → normalize_digests d ≡ ok e → body_facts e ≡ body_facts d
unfolding normalize_digests
normalize_digests-facts d e h = ground arith

normalize_digests-enforcement :
    (d e : Deployment) → normalize_digests d ≡ ok e → e.enforcement ≡ d.enforcement
unfolding normalize_digests
normalize_digests-enforcement d e h = ground arith

pub normalize_digests-cases :
    (d e : Deployment)
    → normalize_digests d ≡ ok e
    → each_case normalize_case_digests 0 d.conformance.cases ≡ ok e.conformance.cases
unfolding normalize_digests
normalize_digests-cases d e h = ground arith

module _ (h : Host) where
  normalize_case_timestamps-facts :
      (i : ℕ) (c c' : Case) → normalize_case_timestamps h i c ≡ ok c' → case_facts c' ≡ case_facts c
  unfolding normalize_case_timestamps
  normalize_case_timestamps-facts i c c' e = ground arith

  -- `Normalize` keeps what the body states: its texts, URIs, ids, constants, count and flag; which
  -- intervention points there are; and of the cases, up to their order, the ids, kinds, decisions
  -- and outcomes with the ids of their references, and test references, all without their digests
  -- and times.
  pub normalize-HasSameFacts : (d e : Deployment) → normalize h d ≡ ok e → HasSameFacts d e
  unfolding normalize_points
  normalize-HasSameFacts d e eq =
      let t = normalize-Trace h d e eq in
      let points = normalize_digests-enforcement d t.digested t.digests_pass in
      let cases : map case_facts t.cases ≡ map case_facts d.conformance.cases =
        each_case-facts (normalize_case_timestamps h) normalize_case_timestamps-facts 0
          t.digested.conformance.cases t.cases t.cases_pass
        ∙ each_case-facts normalize_case_digests normalize_case_digests-facts 0 d.conformance.cases
            t.digested.conformance.cases (normalize_digests-cases d t.digested t.digests_pass) in
      subst (λ x. HasSameFacts d x) (sym t.result)
        (record {
          body = normalize_digests-facts d t.digested t.digests_pass;
          required = λ s.
              contains-dedupe_sort t.digested.enforcement.required_intervention_points s
              ∙ rw points refl;
          observed = λ s.
              contains-dedupe_sort t.digested.enforcement.observed_intervention_points s
              ∙ rw points refl;
          cases = rw (← cases) (Perm.map case_facts (sort_cases-Perm t.cases));
        })
