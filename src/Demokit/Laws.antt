-- ===== src/Demokit/Laws.antt =====
-- What the demonstration's statements hold.
use agent_governance_evidenc.Base.{
  to_lower, ◌≡◌, ◌⊎◌, inl, inr, List, [], ◌∷◌, ◌++◌, some, Option-cases, Bool-cases, Bytes, bytes,
  equal_iff, equal, arith, length, ok, ok-inj, guard, >>=-eq-ok, guard_iff, ==_iff, ◌==◌, subst,
}
use agent_governance_evidenc.Evidence.{Deployment, Case, predicate_type_uri, verified, unknown}
use agent_governance_evidenc.Evidence.Generate.{generate}
use agent_governance_evidenc.Evidence.Generate.Laws.{Emitted, generate_sound}
use agent_governance_evidenc.Evidence.Host.{Host}
use agent_governance_evidenc.Evidence.Normalize.{normalize}
use agent_governance_evidenc.Evidence.Normalize.Facts.{HasSameFacts, normalize-HasSameFacts}
use agent_governance_evidenc.Evidence.Normalize.Sole.{HasSole, normalize-HasSole}
use agent_governance_evidenc.Demokit.{
  Wire, TestResult, BuiltCase, statement_type, agent_subject, test_result_of,
  build_test_result_statement, build_deployment_statement, build_parsed_case, bind_digest,
  first_case, placeholder, decision_annotations,
}
use agent_governance_evidenc.Demokit.Binding.{bound-HasSameFacts, sole_of_length, sole-bound}

-- The bounded result profile: the one case has passed or is warned of.
pub record FitsOutcome (c : Case) (t : TestResult) (state result : Bytes)
    (passed warned : List Bytes) : Type 0 where
  pub state_is : c.outcome.state ≡ state
  pub result_is : t.result ≡ result
  pub passed_are : t.passed_tests ≡ passed
  pub warned_are : t.warned_tests ≡ warned
  pub none_failed : t.failed_tests ≡ []
  pub one_descriptor : length t.configuration ≡ 1

-- A test result is built for a verified outcome, and then records the case as passed, or for an
-- unknown one, and then records it as warned of; it never records a failed test.
pub test_result_of_lem :
    (d : Deployment) (c : Case) (t : TestResult)
    → test_result_of d c ≡ ok t
    → FitsOutcome c t verified (bytes "PASSED") (c.id ∷ []) []
      ⊎ FitsOutcome c t unknown (bytes "WARNED") [] (c.id ∷ [])
unfolding test_result_of
test_result_of_lem d c t e =
    let (decided, _, rest) = >>=-eq-ok (decision_annotations c) _ e in
    elim (Bool-cases (equal c.outcome.state verified)) [
      | inl is ↦ elim (Option-cases c.outcome.reference) [
        | inl absent ↦ absurd (ground (arith, is, absent))
        | inr (r, given) ↦ inl (record {
          state_is = (equal_iff c.outcome.state verified).0 is;
          result_is = ground (arith, is, given);
          passed_are = ground (arith, is, given);
          warned_are = ground (arith, is, given);
          none_failed = ground (arith, is, given);
          one_descriptor = ground (arith, is, given);
        })
      ]
      | inr other ↦ elim (Bool-cases (equal c.outcome.state unknown)) [
        | inr neither ↦ absurd (ground (arith, other, neither))
        | inl is ↦ inr (record {
          state_is = (equal_iff c.outcome.state unknown).0 is;
          result_is = ground (arith, is, other);
          passed_are = ground (arith, is, other);
          warned_are = ground (arith, is, other);
          none_failed = ground (arith, is, other);
          one_descriptor = ground (arith, is, other);
        })
      ]
    ]

module _ (h : Host) (k : Wire) where
  -- What is known of a built case: where `normal` is the normalised evidence, the test statement is
  -- built from it, the one case of the emitted body holds that statement's digest, the body states
  -- else what the evidence states, and the deployment statement wraps the body's encoding under the
  -- agent that it names.
  pub record IsBuilt (d : Deployment) (b : BuiltCase) : Type 0 where
    pub one_case : length d.conformance.cases ≡ 1
    pub normal : Deployment
    pub sole : Case
    pub normalized : normalize h (bind_digest placeholder d) ≡ ok normal
    pub sole_is : first_case (bind_digest [] normal).conformance.cases ≡ ok sole
    pub tested :
        build_test_result_statement k (bind_digest [] normal) sole ≡ ok b.test_result_statement
    pub emitted :
        Emitted h
          (bind_digest
            (bytes "sha256:" ++ k.sha256_hex b.test_result_statement)
            (bind_digest [] normal))
          b.evidence
          b.predicate_body
    pub bound :
        HasSole b.evidence (to_lower (bytes "sha256:" ++ k.sha256_hex b.test_result_statement))
    pub kept : HasSameFacts d b.evidence
    pub generates :
        generate h (
          bind_digest
            (bytes "sha256:" ++ k.sha256_hex b.test_result_statement)
            (bind_digest [] normal))
        ≡ ok (b.evidence, b.predicate_body)
    pub same_agent :
        k.read_agent b.predicate_body
        ≡ some (b.evidence.agent.name, b.evidence.agent.artifact_digest)
    pub wrapped :
        k.marshal_statement (record {
          type = statement_type;
          subject = agent_subject b.evidence ∷ [];
          predicate_type = predicate_type_uri;
          predicate = b.predicate_body;
        })
        ≡ some b.deployment_statement

  deployment_statement-eq-ok :
      (e : Deployment) (body statement : Bytes)
      → build_deployment_statement k e body ≡ ok statement
      → (k.read_agent body ≡ some (e.agent.name, e.agent.artifact_digest))
        × (k.marshal_statement (record {
          type = statement_type;
          subject = agent_subject e ∷ [];
          predicate_type = predicate_type_uri;
          predicate = body;
        })
            ≡ some statement)
  unfolding build_deployment_statement
  deployment_statement-eq-ok e body statement eq = elim (Option-cases (k.read_agent body)) [
    | inl unread ↦ absurd (ground (arith, unread))
    | inr ((name, digest), read) ↦
        let facts : (name ≡ e.agent.name)
            × (digest ≡ e.agent.artifact_digest)
            × (k.marshal_statement (record {
              type = statement_type;
              subject = agent_subject e ∷ [];
              predicate_type = predicate_type_uri;
              predicate = body;
            })
                ≡ some statement) =
          ground
            (arith, read, equal_iff name e.agent.name, equal_iff digest e.agent.artifact_digest) in
        (rw (read, facts.0, facts.1), facts.2)
  ]

  -- A case that `BuildCase` builds comes from evidence with one case; its test statement is that of
  -- the normalised case; the emitted body has one case, whose statement digest is `sha256:` and the
  -- SHA-256 of that test statement, in lower case, and it keeps what the evidence states but for digests and
  -- times; and the deployment statement wraps the encoded body under the agent that it names.
  pub build_parsed_case_sound :
      (d : Deployment) (b : BuiltCase) → build_parsed_case h k d ≡ ok b → IsBuilt d b
  unfolding build_parsed_case
  build_parsed_case_sound d b eq =
      let (_, counted, rest₁) = >>=-eq-ok (guard (length d.conformance.cases == 1) _) _ eq in
      let (c, _, rest₂) = >>=-eq-ok (first_case d.conformance.cases) _ rest₁ in
      let (_, _, rest₃) = >>=-eq-ok (guard (equal c.test_result.statement_digest []) _) _ rest₂ in
      let (normal, normalized, rest₄) =
        >>=-eq-ok (normalize h (bind_digest placeholder d)) _ rest₃ in
      let unbound = bind_digest [] normal in
      let (sole, sole_is, rest₅) = >>=-eq-ok (first_case unbound.conformance.cases) _ rest₄ in
      let (statement, tested, rest₆) =
        >>=-eq-ok (build_test_result_statement k unbound sole) _ rest₅ in
      let digest = bytes "sha256:" ++ k.sha256_hex statement in
      let bound = bind_digest digest unbound in
      let given = sole_of_length d ((==_iff _ _).0 ((guard_iff _ _).0 counted)) in
      let once =
        normalize-HasSole h (bind_digest placeholder d) normal placeholder
          (sole-bound d placeholder given.0 given.1) normalized in
      let (made, generated, rest₇) = >>=-eq-ok (generate h bound) _ rest₆ in
      let (wrapped, built, done) = >>=-eq-ok (build_deployment_statement k made.0 made.1) _ rest₇ in
      let emitted = generate_sound h bound made.0 made.1 generated in
      let wrapping = deployment_statement-eq-ok made.0 made.1 wrapped built in
      subst (λ x. IsBuilt d x) (ok-inj done)
        (record {
          one_case = (==_iff _ _).0 ((guard_iff _ _).0 counted);
          normal = normal;
          sole = sole;
          normalized = normalized;
          sole_is = sole_is;
          tested = tested;
          emitted = emitted;
          bound =
              normalize-HasSole h bound made.0 digest
                (sole-bound unbound digest [] (sole-bound normal [] _ once)) emitted.normalized;
          kept =
              bound-HasSameFacts placeholder digest d normal made.0
                (normalize-HasSameFacts h (bind_digest placeholder d) normal normalized)
                (normalize-HasSameFacts h bound made.0 emitted.normalized);
          generates = generated;
          same_agent = wrapping.0;
          wrapped = wrapping.1;
        })
