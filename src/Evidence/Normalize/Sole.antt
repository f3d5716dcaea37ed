-- ===== src/Evidence/Normalize/Sole.antt =====
-- What `Normalize` makes of a body with one case: one case, whose statement digest is the given one
-- in lower case.
use agent_governance_evidenc.Base.{
  ℕ, ◌≡◌, sym, ap, ◌∙◌, subst, List, [], ◌∷◌, Bytes, arith, to_lower, Result, ok, >>=-eq-ok,
}
use agent_governance_evidenc.Base.Sort.{sort, insert}
use agent_governance_evidenc.Evidence.{Deployment, Case}
use agent_governance_evidenc.Evidence.Cases.{sort_cases}
use agent_governance_evidenc.Evidence.Digest.{normalize_digest_iff}
use agent_governance_evidenc.Evidence.Host.{Host}
use agent_governance_evidenc.Evidence.Normalize.{
  each_case, digest_at, reference_at, normalize_case_digests, normalize_case_timestamps, normalize,
}
use agent_governance_evidenc.Evidence.Normalize.Digests.{labelled-eq-ok}
use agent_governance_evidenc.Evidence.Normalize.Facts.{normalize_digests-cases}
use agent_governance_evidenc.Evidence.Normalize.Laws.{normalize-Trace}

-- The body has one case, and this is its statement digest.
pub record HasSole (e : Deployment) (digest : Bytes) : Type 0 where
  pub case : Case
  pub cases_are : e.conformance.cases ≡ case ∷ []
  pub digest_is : case.test_result.statement_digest ≡ digest

each_case-sole :
    (f : ℕ → Case → Result Case) (c : Case) (ds : List Case)
    → each_case f 0 (c ∷ []) ≡ ok ds
    → (d : Case) × (f 0 c ≡ ok d) × (ds ≡ d ∷ [])
unfolding each_case
each_case-sole f c ds e = let (d, first, later) = >>=-eq-ok (f 0 c) _ e in (d, first, ground arith)

digest_at-eq-ok : (l : _) (s t : Bytes) → digest_at l s ≡ ok t → t ≡ to_lower s
unfolding digest_at
digest_at-eq-ok l s t e = ((normalize_digest_iff s t).0 (labelled-eq-ok l _ t e)).1

normalize_case_digests-statement :
    (i : ℕ) (c d : Case)
    → normalize_case_digests i c ≡ ok d
    → d.test_result.statement_digest ≡ to_lower c.test_result.statement_digest
unfolding normalize_case_digests
normalize_case_digests-statement i c d e =
    let (correlation, _, e₁) = >>=-eq-ok (digest_at _ c.correlation_id) _ e in
    let (statement, is, e₂) = >>=-eq-ok (digest_at _ c.test_result.statement_digest) _ e₁ in
    let (decided, _, e₃) = >>=-eq-ok (reference_at _ c.decision.reference) _ e₂ in
    let (resulted, _, e₄) = >>=-eq-ok (reference_at _ c.outcome.reference) _ e₃ in
    let same : d.test_result.statement_digest ≡ statement = ground arith in
    same ∙ digest_at-eq-ok _ c.test_result.statement_digest statement is

module _ (h : Host) where
  normalize_case_timestamps-statement :
      (i : ℕ) (c d : Case)
      → normalize_case_timestamps h i c ≡ ok d
      → d.test_result.statement_digest ≡ c.test_result.statement_digest
  unfolding normalize_case_timestamps
  normalize_case_timestamps-statement i c d e = ground arith

  pub normalize-HasSole :
      (d e : Deployment) (digest : Bytes)
      → HasSole d digest
      → normalize h d ≡ ok e
      → HasSole e (to_lower digest)
  unfolding sort_cases sort insert
  normalize-HasSole d e digest one eq =
      let t = normalize-Trace h d e eq in
      let passed = normalize_digests-cases d t.digested t.digests_pass in
      let (first, first_is, digested) =
        each_case-sole normalize_case_digests one.case t.digested.conformance.cases
          (ap (each_case normalize_case_digests 0) (sym one.cases_are) ∙ passed) in
      let (second, second_is, cases) =
        each_case-sole (normalize_case_timestamps h) first t.cases
          (ap (each_case (normalize_case_timestamps h) 0) (sym digested) ∙ t.cases_pass) in
      subst (λ x. HasSole x (to_lower digest)) (sym t.result)
        (record {
          case = second;
          cases_are = ap sort_cases cases;
          digest_is =
              normalize_case_timestamps-statement 0 first second second_is
              ∙ normalize_case_digests-statement 0 one.case first first_is
              ∙ ap to_lower one.digest_is;
        })
