-- ===== src/Evidence/Validate/Parts.antt =====
-- What `Validate` accepts of the parts of the body but its cases and extensions.
use agent_governance_evidenc.Base.{
  ℕ, ◌≤◌, true, ◌≡◌, ◌↔◌, ◌⊎◌, inl, inr, List, [], ◌∷◌, none, Bytes, bytes, arith, equal_iff, All,
  length, leb, Label, here, ok, Bool-cases,
}
use agent_governance_evidenc.Base.Int.{pos, ℤ-cases}
use agent_governance_evidenc.Evidence.{
  Deployment, Runtime, Adapter, RuntimePolicy, Enforcement, Identity, Audit, schema_version,
  contract_version, allow, deny,
}
use agent_governance_evidenc.Evidence.Digest.{IsDigest}
use agent_governance_evidenc.Evidence.Fields.{Check, validate_id}
use agent_governance_evidenc.Evidence.Fields.Laws.{
  IsText, IsId, IsUri, IsArtifact, IsRedacted, validate_bounded_text_iff, validate_id_iff,
  validate_canonical_digest_iff, validate_redacted_reference_iff, validate_absolute_uri_iff,
  validate_artifact_reference_iff,
}
use agent_governance_evidenc.Evidence.Host.{Host}
use agent_governance_evidenc.Evidence.Validate.{
  each_ok, validate_runtime_policy_count, validate_enforcement, validate_root, validate_framework,
  validate_runtime_adapter, validate_runtime_policy, validate_identity_audit,
}

abbrev pub IsOneOf : Bytes → Bytes → Bytes → Type 0
IsOneOf s a b = (s ≡ a) ⊎ (s ≡ b)

each_ok_iff :
    (f : Bytes → Check) (P : Bytes → Type 0)
    → ((s : Bytes) → (f s ≡ ok tt) ↔ P s)
    → (xs : List Bytes) → (each_ok f xs ≡ ok tt) ↔ All P xs
unfolding each_ok
each_ok_iff f P e [] = ground arith
each_ok_iff f P e (x ∷ xs) = ground (arith, e x, each_ok_iff f P e xs)

each-IsId_iff : (l : Label) (xs : List Bytes) → (each_ok (validate_id l) xs ≡ ok tt) ↔ All IsId xs
each-IsId_iff l = each_ok_iff (validate_id l) (λ s. IsId s) (validate_id_iff l)

-- A number of policies from 0 to 64, and the policy is loaded exactly when there is one.
pub record IsCounted (p : RuntimePolicy) : Type 0 where
  pub number : ℕ
  pub count_is : p.count ≡ pos number
  pub few : number ≤ 64
  pub loaded_if : 1 ≤ number → p.loaded ≡ true
  pub loaded_only_if : p.loaded ≡ true → 1 ≤ number

validate_runtime_policy_count_iff :
    (p : RuntimePolicy) → (validate_runtime_policy_count p ≡ ok tt) ↔ IsCounted p
unfolding validate_runtime_policy_count
validate_runtime_policy_count_iff p = elim (ℤ-cases p.count) [
  | inr (n, e) ↦ (λ v. absurd (ground (arith, e)), λ c. absurd (ground (arith, e, c.count_is)))
  | inl (n, e) ↦ (
    λ v. record {
      number = n;
      count_is = e;
      few = ground (arith, e);
      loaded_if = λ k. ground (arith, e);
      loaded_only_if = λ k. ground (arith, e);
    },
    λ c.
        let same : c.number ≡ n = ground (arith, e, c.count_is) in
        let few : n ≤ 64 = omega (arith, same, c.few) in
        elim (Bool-cases (leb 1 n)) [
          | inl one ↦
              let loaded : p.loaded ≡ true = c.loaded_if (ground (arith, same)) in
              ground (arith, e, few, loaded)
          | inr zero_count ↦ elim (Bool-cases p.loaded) [
            | inl loaded ↦ absurd (ground (arith, same, c.loaded_only_if loaded))
            | inr unloaded ↦ ground (arith, e, few, unloaded)
          ]
        ],
  )
]

pub record IsEnforcement (e : Enforcement) : Type 0 where
  pub mode_is : IsOneOf e.mode (bytes "enforce") (bytes "monitor")
  pub default_is : IsOneOf e.default_behavior allow deny
  pub some_required : 1 ≤ length e.required_intervention_points
  pub few_required : length e.required_intervention_points ≤ 32
  pub few_observed : length e.observed_intervention_points ≤ 32
  pub required_ids : All IsId e.required_intervention_points
  pub observed_ids : All IsId e.observed_intervention_points

pub validate_enforcement_iff :
    (e : Enforcement) → (validate_enforcement e ≡ ok tt) ↔ IsEnforcement e
unfolding validate_enforcement
validate_enforcement_iff e = ground (
  arith,
  equal_iff e.mode (bytes "enforce"),
  equal_iff e.mode (bytes "monitor"),
  equal_iff e.default_behavior allow,
  equal_iff e.default_behavior deny,
  each-IsId_iff (here "enforcement.requiredInterventionPoints[]") e.required_intervention_points,
  each-IsId_iff (here "enforcement.observedInterventionPoints[]") e.observed_intervention_points,
)

module _ (h : Host) where
  pub record IsRoot (d : Deployment) : Type 0 where
    pub version_is : d.schema_version ≡ schema_version
    pub name_form : IsText 256 d.agent.name
    pub uri_form : IsUri h none d.agent.uri
    pub digest_form : IsDigest d.agent.artifact_digest

  pub validate_root_iff : (d : Deployment) → (validate_root h d ≡ ok tt) ↔ IsRoot d
  unfolding validate_root
  validate_root_iff d = ground (
    arith,
    equal_iff d.schema_version schema_version,
    validate_bounded_text_iff (here "agent.name") d.agent.name 256,
    validate_absolute_uri_iff h (here "agent.uri") d.agent.uri none,
    validate_canonical_digest_iff (here "agent.artifactDigest") d.agent.artifact_digest,
  )

  pub record IsRuntimeAdapter (r : Runtime) (a : Adapter) : Type 0 where
    pub name_form : IsText 128 r.name
    pub version_form : IsText 128 r.version
    pub framework_form : (r.framework ≡ []) ⊎ IsText 128 r.framework
    pub artifact_form : IsArtifact h r.artifact
    pub adapter_name_form : IsText 128 a.name
    pub adapter_artifact_form : IsArtifact h a.artifact
    pub contract_is : a.contract_version ≡ contract_version
    pub runtime_digest_form : IsDigest a.runtime_digest
    pub linked : a.runtime_digest ≡ r.artifact.digest

  validate_framework_iff :
      (s : Bytes) → (validate_framework h s ≡ ok tt) ↔ ((s ≡ []) ⊎ IsText 128 s)
  unfolding validate_framework
  validate_framework_iff [] = ground arith
  validate_framework_iff (c ∷ s) =
      ground (arith, validate_bounded_text_iff (here "runtime.framework") (c ∷ s) 128)

  pub validate_runtime_adapter_iff :
      (r : Runtime) (a : Adapter) → (validate_runtime_adapter h r a ≡ ok tt) ↔ IsRuntimeAdapter r a
  unfolding validate_runtime_adapter
  validate_runtime_adapter_iff r a = ground (
    arith,
    validate_bounded_text_iff (here "runtime.name") r.name 128,
    validate_bounded_text_iff (here "runtime.version") r.version 128,
    validate_framework_iff r.framework,
    validate_artifact_reference_iff h (here "runtime.artifact") r.artifact,
    validate_bounded_text_iff (here "adapter.name") a.name 128,
    validate_artifact_reference_iff h (here "adapter.artifact") a.artifact,
    equal_iff a.contract_version contract_version,
    validate_canonical_digest_iff (here "adapter.runtimeDigest") a.runtime_digest,
    equal_iff a.runtime_digest r.artifact.digest,
  )

  pub record IsRuntimePolicy (p : RuntimePolicy) : Type 0 where
    pub engine_form : IsId p.engine
    pub artifact_form : IsArtifact h p.artifact
    pub counted : IsCounted p

  pub validate_runtime_policy_iff :
      (p : RuntimePolicy) → (validate_runtime_policy h p ≡ ok tt) ↔ IsRuntimePolicy p
  unfolding validate_runtime_policy
  validate_runtime_policy_iff p =
      let counted = validate_runtime_policy_count_iff p in
      let engine = validate_id_iff (here "runtimePolicy.engine") p.engine in
      let artifact = validate_artifact_reference_iff h (here "runtimePolicy.artifact") p.artifact in
      (
        λ e. record {
          engine_form = ground (arith, engine);
          artifact_form = ground (arith, artifact);
          counted = counted.0 (ground arith);
        },
        λ f.
            ground (arith, engine.1 f.engine_form, artifact.1 f.artifact_form, counted.1 f.counted),
      )

  pub record IsIdentityAudit (i : Identity) (a : Audit) : Type 0 where
    pub provider_form : IsUri h none i.provider_uri
    pub subject_kind_is : IsOneOf i.subject_kind (bytes "agent") (bytes "workload")
    pub subject_form : IsRedacted i.subject
    pub sink_kind_form : IsId a.sink_kind
    pub sink_form : IsRedacted a.sink
    pub configuration_form : IsDigest a.configuration_digest

  pub validate_identity_audit_iff :
      (i : Identity) (a : Audit) → (validate_identity_audit h i a ≡ ok tt) ↔ IsIdentityAudit i a
  unfolding validate_identity_audit
  validate_identity_audit_iff i a = ground (
    arith,
    validate_absolute_uri_iff h (here "identity.providerUri") i.provider_uri none,
    equal_iff i.subject_kind (bytes "agent"),
    equal_iff i.subject_kind (bytes "workload"),
    validate_redacted_reference_iff (here "identity.subject") i.subject,
    validate_id_iff (here "audit.sinkKind") a.sink_kind,
    validate_redacted_reference_iff (here "audit.sink") a.sink,
    validate_canonical_digest_iff (here "audit.configurationDigest") a.configuration_digest,
  )
