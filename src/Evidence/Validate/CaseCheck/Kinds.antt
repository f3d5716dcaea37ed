-- ===== src/Evidence/Validate/CaseCheck/Kinds.antt =====
-- What `validateCaseKindConsistency` of internal/evidence/deployment.go accepts.
use agent_governance_evidenc.Base.{
  true, false, ◌≡◌, refl, ◌↔◌, List, Bytes, bytes, arith, equal, equal_iff, All, all_iff, Label, ok,
  contains, ap,
}
use agent_governance_evidenc.Evidence.{
  Deployment, Case, allowed_action, denied_action, adapter_bypass, no_policy_loaded, observed,
  allow, deny,
}
use agent_governance_evidenc.Evidence.Validate.CaseCheck.{
  string_subset, contradicts_kind, validate_case_kind_consistency,
}

-- Every string of the first list is in the second.
abbrev pub IsSubset : List Bytes → List Bytes → Type 0
IsSubset subset set = All (λ s. contains set s ≡ true) subset

string_subset_iff :
    (subset set : List Bytes) → (string_subset subset set ≡ true) ↔ IsSubset subset set
unfolding string_subset
string_subset_iff subset set = all_iff (contains set) _ (λ s. (λ e. e, λ e. e)) subset

-- The recorded facts agree with the kind.
pub record FitsKind (d : Deployment) (c : Case) : Type 0 where
  pub allowed_means :
      c.kind ≡ allowed_action → (c.decision.state ≡ observed) × (c.decision.verdict ≡ allow)
  pub denied_means :
      c.kind ≡ denied_action → (c.decision.state ≡ observed) × (c.decision.verdict ≡ deny)
  pub bypass_means :
      c.kind ≡ adapter_bypass
      → c.decision.state ≡ observed
      → ¬ IsSubset d.enforcement.required_intervention_points
          d.enforcement.observed_intervention_points
  pub no_policy_means : c.kind ≡ no_policy_loaded → d.runtime_policy.loaded ≡ false

abbrev pub Distinct : Bytes → Bytes → Type 0
Distinct a b = equal a b ≡ false

kinds-Distinct :
    Distinct denied_action allowed_action
    × Distinct adapter_bypass allowed_action
    × Distinct adapter_bypass denied_action
    × Distinct no_policy_loaded allowed_action
    × Distinct no_policy_loaded denied_action
    × Distinct no_policy_loaded adapter_bypass
unfolding bytes equal
kinds-Distinct = (refl, refl, refl, refl, refl, refl)

contradicts_kind-FitsKind :
    (d : Deployment) (c : Case) → contradicts_kind d c ≡ false → FitsKind d c
unfolding contradicts_kind
contradicts_kind-FitsKind d c e =
    let required = d.enforcement.required_intervention_points in
    let seen = d.enforcement.observed_intervention_points in
    record {
      allowed_means = λ k. ground (
        arith,
        equal_iff c.kind allowed_action,
        equal_iff c.decision.state observed,
        equal_iff c.decision.verdict allow,
      );
      denied_means = λ k. ground (
        arith,
        kinds-Distinct,
        ap (λ t. equal t allowed_action) k,
        equal_iff c.kind denied_action,
        equal_iff c.decision.state observed,
        equal_iff c.decision.verdict deny,
      );
      bypass_means = λ k o sub. absurd (
          ground (
            arith,
            kinds-Distinct,
            ap (λ t. equal t allowed_action) k,
            ap (λ t. equal t denied_action) k,
            equal_iff c.kind adapter_bypass,
            equal_iff c.decision.state observed,
            (string_subset_iff required seen).1 sub,
          ));
      no_policy_means = λ k. ground (
        arith,
        kinds-Distinct,
        ap (λ t. equal t allowed_action) k,
        ap (λ t. equal t denied_action) k,
        ap (λ t. equal t adapter_bypass) k,
        equal_iff c.kind no_policy_loaded,
      );
    }

FitsKind-contradicts_kind :
    (d : Deployment) (c : Case) → FitsKind d c → contradicts_kind d c ≡ false
unfolding contradicts_kind
FitsKind-contradicts_kind d c f =
    let required = d.enforcement.required_intervention_points in
    let seen = d.enforcement.observed_intervention_points in
    ground (
      arith,
      equal_iff c.kind allowed_action,
      equal_iff c.kind denied_action,
      equal_iff c.kind adapter_bypass,
      equal_iff c.kind no_policy_loaded,
      equal_iff c.decision.state observed,
      equal_iff c.decision.verdict allow,
      equal_iff c.decision.verdict deny,
      string_subset_iff required seen,
      f.allowed_means,
      f.denied_means,
      f.bypass_means,
      f.no_policy_means,
    )

pub validate_case_kind_consistency_iff :
    (d : Deployment) (l : Label) (c : Case)
    → (validate_case_kind_consistency d l c ≡ ok tt) ↔ FitsKind d c
unfolding validate_case_kind_consistency contradicts_kind
validate_case_kind_consistency_iff d l c =
    ground (arith, contradicts_kind-FitsKind d c, FitsKind-contradicts_kind d c)
