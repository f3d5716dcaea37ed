-- ===== src/Evidence/Validate/Laws.antt =====
-- `Validate` accepts exactly the well-formed bodies.
use agent_governance_evidenc.Base.{
  ℕ, suc, ◌≤◌, false, ◌≡◌, ◌↔◌, List, [], ◌∷◌, Bytes, bytes, arith, equal_iff, contains, All,
  length, here, ok,
}
use agent_governance_evidenc.Evidence.{
  Deployment, Case, controlled_tool_name, controlled_tool_action_class,
}
use agent_governance_evidenc.Evidence.Cases.Laws.{HasDistinctIds, HasDistinctKinds}
use agent_governance_evidenc.Evidence.Extensions.Laws.{IsExtensions, validate_extensions_iff}
use agent_governance_evidenc.Evidence.Fields.Laws.{
  IsId, IsArtifact, validate_id_iff, validate_artifact_reference_iff,
}
use agent_governance_evidenc.Evidence.Host.{Host}
use agent_governance_evidenc.Evidence.Validate.{validate_cases, validate_conformance, validate}
use agent_governance_evidenc.Evidence.Validate.CaseCheck.{validate_case}
use agent_governance_evidenc.Evidence.Validate.CaseCheck.Laws.{
  IsCase, validate_case_sound, validate_case_complete,
}
use agent_governance_evidenc.Evidence.Validate.Distinct.{FreshBy, FreshBy-nil_iff}
use agent_governance_evidenc.Evidence.Validate.Parts.{
  IsOneOf, IsRoot, IsRuntimeAdapter, IsRuntimePolicy, IsEnforcement, IsIdentityAudit,
  validate_root_iff, validate_runtime_adapter_iff, validate_runtime_policy_iff,
  validate_enforcement_iff, validate_identity_audit_iff,
}

module _ (h : Host) where
  validate_cases_iff :
      (d : Deployment) (i : ℕ) (ids kinds : List Bytes) (cs : List Case)
      → (validate_cases h d i ids kinds cs ≡ ok tt)
        ↔ (FreshBy (λ c. c.id) ids cs × FreshBy (λ c. c.kind) kinds cs × All (λ c. IsCase h d c) cs)
  unfolding validate_cases
  validate_cases_iff d i ids kinds [] = ground arith
  validate_cases_iff d i ids kinds (c ∷ cs) =
      let rest = validate_cases_iff d (suc i) (c.id ∷ ids) (c.kind ∷ kinds) cs in
      (
        λ e.
            let facts : (contains ids c.id ≡ false)
                × (contains kinds c.kind ≡ false)
                × (validate_case h d i c ≡ ok tt)
                × (validate_cases h d (suc i) (c.id ∷ ids) (c.kind ∷ kinds) cs ≡ ok tt) =
              ground arith in
            let (fresh_ids, fresh_kinds, each) = rest.0 facts.3 in
            (
              (facts.0, fresh_ids),
              (facts.1, fresh_kinds),
              (validate_case_sound h d i c facts.2, each),
            ),
        λ ((new_id, fresh_ids), (new_kind, fresh_kinds), (fits, each)).
            rw (new_id, new_kind, validate_case_complete h d i c fits)
              (rest.1 (fresh_ids, fresh_kinds, each)),
      )

  -- The fixture, the tool, and one to four cases with distinct ids and kinds.
  pub record IsConformance (d : Deployment) : Type 0 where
    pub fixture_form : IsId d.conformance.fixture.id
    pub producer_is : IsOneOf d.conformance.fixture.producer (bytes "agt") (bytes "non-agt")
    pub tool_is : d.conformance.controlled_tool.name ≡ controlled_tool_name
    pub action_is : d.conformance.controlled_tool.action_class ≡ controlled_tool_action_class
    pub artifact_form : IsArtifact h d.conformance.controlled_tool.artifact
    pub some_case : 1 ≤ length d.conformance.cases
    pub few_cases : length d.conformance.cases ≤ 4
    pub distinct_ids : HasDistinctIds d.conformance.cases
    pub distinct_kinds : HasDistinctKinds d.conformance.cases
    pub each : All (λ c. IsCase h d c) d.conformance.cases

  validate_conformance_iff : (d : Deployment) → (validate_conformance h d ≡ ok tt) ↔ IsConformance d
  unfolding validate_conformance
  validate_conformance_iff d =
      let fixture = validate_id_iff (here "conformance.fixture.id") d.conformance.fixture.id in
      let artifact =
        validate_artifact_reference_iff h (here "conformance.controlledTool.artifact")
          d.conformance.controlled_tool.artifact in
      let agt = equal_iff d.conformance.fixture.producer (bytes "agt") in
      let non_agt = equal_iff d.conformance.fixture.producer (bytes "non-agt") in
      let tool = equal_iff d.conformance.controlled_tool.name controlled_tool_name in
      let action =
        equal_iff d.conformance.controlled_tool.action_class controlled_tool_action_class in
      let cs = d.conformance.cases in
      let ids = FreshBy-nil_iff (λ c. c.id) cs in
      let kinds = FreshBy-nil_iff (λ c. c.kind) cs in
      let loop = validate_cases_iff d 0 [] [] cs in
      (
        λ e.
            let facts : IsId d.conformance.fixture.id
                × IsOneOf d.conformance.fixture.producer (bytes "agt") (bytes "non-agt")
                × (d.conformance.controlled_tool.name ≡ controlled_tool_name)
                × (d.conformance.controlled_tool.action_class ≡ controlled_tool_action_class)
                × IsArtifact h d.conformance.controlled_tool.artifact
                × (1 ≤ length cs)
                × (length cs ≤ 4)
                × (validate_cases h d 0 [] [] cs ≡ ok tt) =
              ground (arith, fixture, artifact, agt, non_agt, tool, action) in
            let (fresh_ids, fresh_kinds, each) = loop.0 facts.7 in
            record {
              fixture_form = facts.0;
              producer_is = facts.1;
              tool_is = facts.2;
              action_is = facts.3;
              artifact_form = facts.4;
              some_case = facts.5;
              few_cases = facts.6;
              distinct_ids = ids.0 fresh_ids;
              distinct_kinds = kinds.0 fresh_kinds;
              each = each;
            },
        λ f.
            let cases_pass : validate_cases h d 0 [] [] cs ≡ ok tt =
              loop.1 (ids.1 f.distinct_ids, kinds.1 f.distinct_kinds, f.each) in
            ground (
              arith,
              fixture.1 f.fixture_form,
              artifact.1 f.artifact_form,
              f.producer_is,
              agt,
              non_agt,
              tool.1 f.tool_is,
              action.1 f.action_is,
              f.some_case,
              f.few_cases,
              cases_pass,
            ),
      )

  -- A well-formed body, said part by part with no reference to the order of the checks.
  pub record IsValid (d : Deployment) : Type 0 where
    pub root : IsRoot h d
    pub runtime_adapter : IsRuntimeAdapter h d.runtime d.adapter
    pub runtime_policy : IsRuntimePolicy h d.runtime_policy
    pub enforcement : IsEnforcement d.enforcement
    pub identity_audit : IsIdentityAudit h d.identity d.audit
    pub conformance : IsConformance d
    pub extensions : IsExtensions h d.extensions

  -- `Validate` accepts a body exactly when it is well formed: its texts, ids, digests, URIs and
  -- constants have their forms, the runtime digests agree, the policy count and flag agree, the
  -- points are few, there are one to four cases with distinct ids and kinds, each in its interval
  -- and consistent with its kind, and the extensions keep their bounds.
  pub validate_iff : (d : Deployment) → (validate h d ≡ ok tt) ↔ IsValid d
  unfolding validate
  validate_iff d =
      let root = validate_root_iff h d in
      let runtime_adapter = validate_runtime_adapter_iff h d.runtime d.adapter in
      let policy = validate_runtime_policy_iff h d.runtime_policy in
      let enforcement = validate_enforcement_iff d.enforcement in
      let identity_audit = validate_identity_audit_iff h d.identity d.audit in
      let conformance = validate_conformance_iff d in
      let extensions = validate_extensions_iff h d.extensions in
      (
        λ e. record {
          root = root.0 (ground arith);
          runtime_adapter = runtime_adapter.0 (ground arith);
          runtime_policy = policy.0 (ground arith);
          enforcement = enforcement.0 (ground arith);
          identity_audit = identity_audit.0 (ground arith);
          conformance = conformance.0 (ground arith);
          extensions = extensions.0 (ground arith);
        },
        λ f. ground (
          arith,
          root.1 f.root,
          runtime_adapter.1 f.runtime_adapter,
          policy.1 f.runtime_policy,
          enforcement.1 f.enforcement,
          identity_audit.1 f.identity_audit,
          conformance.1 f.conformance,
          extensions.1 f.extensions,
        ),
      )
