-- ===== src/Evidence/Generate/Laws.antt =====
-- What `Generate` emits: a canonical, well-formed body within the bound, which is generated again
-- as it is.
use agent_governance_evidenc.Base.{
  ℕ, ◌≤◌, true, ◌≡◌, ◌≢◌, refl, ◌⊎◌, inl, inr, ◌∙◌, ap, subst, [], some, Bytes, arith, All-map,
  equal, Option, none, length, Error, ok, err, if◌then◌else◌, >>=-eq-ok, Result-cases,
}
use agent_governance_evidenc.Evidence.{Deployment, Case, Decision, Outcome, max_predicate_bytes}
use agent_governance_evidenc.Evidence.Generate.{generate, parse, prepare, generate_deployment}
use agent_governance_evidenc.Evidence.Host.{Host, TimeLaws, JsonLaws}
use agent_governance_evidenc.Evidence.Normalize.{normalize}
use agent_governance_evidenc.Evidence.Normalize.Laws.{
  IsCanonical, normalize-IsCanonical, normalize_of_IsCanonical,
}
use agent_governance_evidenc.Evidence.Normalize.Times.{IsRead}
use agent_governance_evidenc.Evidence.Output.{
  World, Answers, write_output, write_output_commits, write_output_fails,
}
use agent_governance_evidenc.Evidence.Read.{File, read_evidence_file}
use agent_governance_evidenc.Evidence.Validate.{validate}
use agent_governance_evidenc.Evidence.Validate.Laws.{IsValid, validate_iff}
use agent_governance_evidenc.Evidence.Validate.CaseCheck.Laws.{
  IsCase, IsObserved, IsUnobserved, IsVerified, IsUnknown,
}

module _ (h : Host) where
  -- What is known of an emitted body.
  pub record Emitted (d e : Deployment) (output : Bytes) : Type 0 where
    pub normalized : normalize h d ≡ ok e
    pub canonical : IsCanonical h e
    pub valid : IsValid h e
    pub encoded : h.marshal_deployment e ≡ some output
    pub bounded : length output ≤ max_predicate_bytes
    pub accepted : h.schema_accepts output ≡ true

  -- The output of `Generate` is the encoding of the normalised body, which is canonical and well
  -- formed; it keeps the size bound and the schema accepts it.
  pub generate_sound :
      (d e : Deployment) (output : Bytes) → generate h d ≡ ok (e, output) → Emitted d e output
  unfolding generate
  generate_sound d e output eq =
      let (body, normal, rest) = >>=-eq-ok (normalize h d) _ eq in
      let facts : (validate h body ≡ ok tt)
          × (body ≡ e)
          × (h.marshal_deployment body ≡ some output)
          × (length output ≤ max_predicate_bytes)
          × (h.schema_accepts output ≡ true) =
        ground arith in
      let same = facts.1 in
      let normalized : normalize h d ≡ ok e = normal ∙ ap ok same in
      record {
        normalized = normalized;
        canonical = normalize-IsCanonical h d e normalized;
        valid = (validate_iff h e).0 (subst (λ x. validate h x ≡ ok tt) same facts.0);
        encoded = subst (λ (x : Deployment). h.marshal_deployment x ≡ some output) same facts.2;
        bounded = facts.3;
        accepted = facts.4;
      }

  observed_read :
      (d : Decision) (s c : ℕ)
      → IsObserved h d s c ⊎ IsUnobserved h d
      → (d.observed_at ≡ []) ⊎ ((u : ℕ) × (h.parse_layout d.observed_at ≡ some u))
  observed_read d s c (inl o) = inr (o.time_is.seen, o.time_is.parses)
  observed_read d s c (inr u) = inl u.time_is

  verified_read :
      (o : Outcome) (s c : ℕ)
      → IsVerified h o s c ⊎ IsUnknown h o
      → (o.observed_at ≡ []) ⊎ ((u : ℕ) × (h.parse_layout o.observed_at ≡ some u))
  verified_read o s c (inl v) = inr (v.time_is.seen, v.time_is.parses)
  verified_read o s c (inr u) = inl u.time_is

  IsCase-IsRead : (d : Deployment) (c : Case) → IsCase h d c → IsRead h c
  IsCase-IsRead d c f = record {
    started_read = (f.started, f.interval.0);
    completed_read = (f.completed, f.interval.1);
    decided_read = observed_read c.decision f.started f.completed f.decision_form;
    resulted_read = verified_read c.outcome f.started f.completed f.outcome_form;
  }

  -- Where the time and JSON laws hold, generating from an emitted body gives the same body and the
  -- same bytes.
  pub generate_stable :
      TimeLaws h
      → JsonLaws h
      → (d e : Deployment) (output : Bytes) → generate h d ≡ ok (e, output)
      → generate h e ≡ ok (e, output)
  unfolding generate
  generate_stable times jsons d e output eq =
      let known = generate_sound d e output eq in
      let reads = All-map (IsCase-IsRead e) e.conformance.cases known.valid.conformance.each in
      ground (
        arith,
        normalize_of_IsCanonical h times jsons e known.canonical reads,
        (validate_iff h e).1 known.valid,
        known.encoded,
        known.bounded,
        known.accepted,
      )

  -- An output that was prepared from an evidence file: emitted for the body parsed from it.
  pub record Prepared (evidence : Option File) (output : Bytes) : Type 0 where
    pub input : Bytes
    pub parsed_body : Deployment
    pub emitted_body : Deployment
    pub read : read_evidence_file evidence ≡ ok input
    pub parsed : parse h input ≡ ok parsed_body
    pub emitted : Emitted parsed_body emitted_body output

  pub prepare_sound :
      (evidence : Option File) (output : Bytes)
      → prepare h evidence ≡ ok output
      → Prepared evidence output
  unfolding prepare
  prepare_sound evidence output eq =
      let (input, read, rest) = >>=-eq-ok (read_evidence_file evidence) _ eq in
      let (d, parsed, rest') = >>=-eq-ok (parse h input) _ rest in
      let (made, generated, done) = >>=-eq-ok (generate h d) _ rest' in
      let same : made.1 ≡ output = ground arith in
      record {
        input = input;
        parsed_body = d;
        emitted_body = made.0;
        read = read;
        parsed = parsed;
        emitted = subst (λ o. Emitted d made.0 o) same (generate_sound d made.0 made.1 generated);
      }

  module _ (a : Answers) (w : World) (evidence : Option File) (target : Bytes) (named : target ≢ [])
      (apart : a.temporary ≢ target) where
    -- With a target and a temporary name that is another, if the command succeeds, the target file
    -- holds an output that `Generate` emitted for the body parsed from the evidence file, the
    -- temporary name is free, and every other file is as it was.
    pub generate_deployment_commits :
        (generate_deployment h a w evidence target).0 ≡ ok tt
        → (output : Bytes) × Prepared evidence output
          × ((p : Bytes)
              → (generate_deployment h a w evidence target).1.files p ≡ (
                  if equal target p
                  then some output
                  else if equal a.temporary p
                  then none
                  else w.files p))
    unfolding generate_deployment
    generate_deployment_commits done = elim (Result-cases (prepare h evidence)) [
      | inr (x, refused) ↦ absurd (ground (arith, refused))
      | inl (output, prepared) ↦
          let written : (write_output a w output target).0 ≡ ok tt =
            rw (prepared, generate_deployment) at done in
          (
            output,
            prepare_sound evidence output prepared,
            λ p.
                rw (prepared, generate_deployment)
                  (write_output_commits a w output target named apart written p),
          )
    ]

  module _ (a : Answers) (w : World) (evidence : Option File) (target : Bytes)
      (named : target ≢ []) where
    -- With a target, if the command fails, for whatever reason, the standard output and every file
    -- are as they were, the target among them; of the temporary file this holds if its name was
    -- unused and its removal succeeds.
    pub generate_deployment_fails :
        (x : Error) (p : Bytes)
        → (generate_deployment h a w evidence target).0 ≡ err x
        → (p ≢ a.temporary) ⊎ ((a.removes ≡ true) × (w.files a.temporary ≡ none))
        → ((generate_deployment h a w evidence target).1.stdout ≡ w.stdout)
          × ((generate_deployment h a w evidence target).1.files p ≡ w.files p)
    unfolding generate_deployment
    generate_deployment_fails x p failed safe = elim (Result-cases (prepare h evidence)) [
      | inr (y, refused) ↦ rw (refused, generate_deployment) (refl, refl)
      | inl (output, prepared) ↦
          rw (prepared, generate_deployment)
            (write_output_fails a w output target named x p
              (rw (prepared, generate_deployment) at failed) safe)
    ]
