-- ===== src/Evidence/Tests/Runs.antt =====
-- Runs of the pipeline on the sample body.
use agent_governance_evidenc.Evidence.{Case}
use agent_governance_evidenc.Evidence.Json.{object, member, end}
use agent_governance_evidenc.Evidence.Presence.{passed, failed, missing_member}
use agent_governance_evidenc.Evidence.Presence.Enough.{HasFlatDefinitions}
use agent_governance_evidenc.Evidence.Normalize.Laws.{IsCanonical, normalize-IsCanonical}
use agent_governance_evidenc.Evidence.Cases.Laws.{HasDistinctIds}
use agent_governance_evidenc.Evidence.Normalize.Times.{IsRead}
use agent_governance_evidenc.Base.{
  ◌*◌, ◌≤◌, ◌≢◌, ◌∷◌, [], ap, ◌∙◌, inr, some, false, arith, Bytes, All, equal_iff, ◌≡◌, refl, ok,
  err, plain, equal, contains, bytes, trim_prefix, has_prefix, to_lower, lower_byte, all,
}
use agent_governance_evidenc.Base.Order.{less}
use agent_governance_evidenc.Base.Sort.{insert, sort}
use agent_governance_evidenc.Evidence.Cases.{case_less, kind_order, order_less, sort_cases}
use agent_governance_evidenc.Evidence.Digest.{normalize_digest}
use agent_governance_evidenc.Evidence.Extensions.{
  validate_depth, validate_extensions, validate_items, validate_members, validate_value,
  validate_values,
}
use agent_governance_evidenc.Evidence.Fields.{
  before_colon, has_authority, has_lower_scheme, percent_encoded, scheme_allowed,
  validate_absolute_uri, validate_artifact_reference, validate_bounded_text,
  validate_canonical_digest, validate_id, validate_observed_at, validate_redacted_reference,
}
use agent_governance_evidenc.Evidence.Fields.Runes.{
  any_control, decode_rune, has_control, is_control, runes_from,
}
use agent_governance_evidenc.Evidence.Generate.{
  generate, generate_deployment, parse, prepare, validate_evidence_presence,
}
use agent_governance_evidenc.Evidence.Json.{find}
use agent_governance_evidenc.Evidence.Normalize.{
  digest_at, each_case, normalize, normalize_case_digests, normalize_case_timestamps,
  normalize_digests, normalize_extensions, normalize_points, normalize_timestamp,
  normalize_timestamps, normalize_values, optional_timestamp_at, timestamp_at,
}
use agent_governance_evidenc.Evidence.Output.{commit, remove, rename, write_output}
use agent_governance_evidenc.Evidence.Pattern.{
  digest_re, id_re, is_hex, is_id_byte, is_id_start, is_lower_hex, is_redacted_byte, is_run,
  loose_digest_re, matches, redacted_id_re,
}
use agent_governance_evidenc.Evidence.Points.{dedupe, dedupe_sort}
use agent_governance_evidenc.Evidence.Presence.{
  check_array, check_items, check_object, check_properties, check_required, check_type, deferred,
  has_suffix, resolve, validate_presence, walk,
}
use agent_governance_evidenc.Evidence.Presence.Enough.{height, height_items, height_members}
use agent_governance_evidenc.Evidence.Read.{
  read_at_most, read_bounded, read_evidence_file, read_limited,
}
use agent_governance_evidenc.Evidence.Tests.Samples.{
  decimal, definitions, evidence_document, evidence_schema, allowed_case, denied_case,
  written_points, canonical_points, noon, after_noon, noon_instant, after_noon_instant, sample_host,
  written_body, canonical_body, predicate_bytes, evidence_file, answers, refusing, empty_world,
  target, digest_of, format_layout, parse_layout, parse_rfc3339, parse_url,
}
use agent_governance_evidenc.Evidence.Validate.{
  each_ok, one_of, same_bool, validate, validate_cases, validate_conformance, validate_enforcement,
  validate_framework, validate_identity_audit, validate_root, validate_runtime_adapter,
  validate_runtime_policy, validate_runtime_policy_count,
}
use agent_governance_evidenc.Evidence.Validate.CaseCheck.{
  contradicts_kind, string_subset, validate_case, validate_case_decision, validate_case_interval,
  validate_case_kind_consistency, validate_case_outcome, validate_case_test_result,
  validate_observed_decision, validate_required_reference, validate_unknown_outcome,
  validate_unobserved_decision, validate_verified_outcome,
}

pub sample_normalizes : normalize sample_host written_body ≡ ok canonical_body
unfolding all bytes equal contains trim_prefix to_lower lower_byte less insert sort kind_order
    order_less case_less sort_cases normalize_digest digest_at normalize_case_digests each_case
    normalize_digests normalize_points normalize_timestamp timestamp_at optional_timestamp_at
    normalize_case_timestamps normalize_timestamps normalize_values normalize_extensions normalize
    is_hex is_run matches loose_digest_re dedupe dedupe_sort parse_layout parse_rfc3339
    format_layout digest_of
sample_normalizes = refl

pub sample_validates : validate sample_host canonical_body ≡ ok tt
unfolding bytes equal contains trim_prefix to_lower lower_byte all less insert sort kind_order
    validate_value validate_values validate_extensions validate_depth validate_items
    validate_members validate_bounded_text percent_encoded scheme_allowed has_authority
    validate_canonical_digest validate_id validate_redacted_reference before_colon has_lower_scheme
    validate_absolute_uri validate_artifact_reference validate_observed_at decode_rune runes_from
    is_control any_control has_control is_lower_hex is_hex is_id_start is_id_byte is_redacted_byte
    is_run matches digest_re id_re redacted_id_re parse_layout parse_url digest_of one_of same_bool
    each_ok validate_runtime_policy_count validate_enforcement validate_root validate_framework
    validate_runtime_adapter validate_runtime_policy validate_identity_audit validate_cases
    validate_conformance validate validate_required_reference string_subset
    validate_case_test_result contradicts_kind validate_case_kind_consistency validate_case_interval
    validate_observed_decision validate_unobserved_decision validate_case_decision
    validate_verified_outcome validate_unknown_outcome validate_case_outcome validate_case
sample_validates = refl

pub sample_generates : generate sample_host written_body ≡ ok (canonical_body, predicate_bytes)
unfolding bytes generate
sample_generates = rw (sample_normalizes, sample_validates) refl

sample_reads : read_evidence_file evidence_file ≡ ok (bytes "{...}")
unfolding bytes read_limited read_at_most read_bounded read_evidence_file
sample_reads = refl

sample_parses : parse sample_host (bytes "{...}") ≡ ok written_body
unfolding bytes equal trim_prefix has_prefix parse validate_evidence_presence height height_items
    height_members find check_required check_properties check_items check_object check_array
    check_type resolve walk deferred has_suffix validate_presence
sample_parses = refl

sample_prepares : prepare sample_host evidence_file ≡ ok predicate_bytes
unfolding prepare
sample_prepares = rw (sample_reads, sample_parses, sample_generates) refl

pub sample_commits :
    (generate_deployment sample_host answers empty_world evidence_file target).0 ≡ ok tt
unfolding bytes equal generate_deployment write_output commit remove rename
sample_commits = rw (sample_prepares, generate_deployment) refl

-- The rename fails.
pub sample_fails :
    (generate_deployment sample_host refusing empty_world evidence_file target).0
    ≡ err (plain "failed to commit output file")
unfolding bytes equal generate_deployment write_output commit remove rename
sample_fails = rw (sample_prepares, generate_deployment) refl

pub sample_walk_passes :
    walk decimal 4 definitions evidence_document evidence_schema (bytes "evidence") ≡ passed
unfolding bytes equal trim_prefix has_prefix find check_required check_properties check_items
    check_object check_array check_type resolve walk deferred has_suffix
sample_walk_passes = refl

-- Without its name the agent is refused.
sample_walk_refuses :
    walk decimal 4 definitions
      (object (member (bytes "agent") (object end) end))
      evidence_schema
      (bytes "evidence")
    ≡ failed (bytes "evidence.agent") (missing_member (bytes "name"))
unfolding bytes equal trim_prefix has_prefix find check_required check_properties check_items
    check_object check_array check_type resolve walk deferred has_suffix
sample_walk_refuses = refl

pub sample_definitions_flat : HasFlatDefinitions definitions
unfolding bytes equal find
sample_definitions_flat = (refl, tt)

pub sample_height : height evidence_document ≡ 3
unfolding height height_items height_members
sample_height = refl

case_ids_differ : equal (bytes "case-b") (bytes "case-a") ≡ false
unfolding bytes equal
case_ids_differ = refl

target_is_named : equal target [] ≡ false
unfolding bytes equal
target_is_named = refl

temporary_is_apart : equal answers.temporary target ≡ false
unfolding bytes equal
temporary_is_apart = refl

noon_is_read : parse_layout noon ≡ some noon_instant
unfolding bytes equal parse_layout
noon_is_read = refl

after_noon_is_read : parse_layout after_noon ≡ some after_noon_instant
unfolding bytes equal parse_layout
after_noon_is_read = refl

pub sample_ids_distinct : HasDistinctIds (allowed_case ∷ denied_case ∷ [])
sample_ids_distinct = (
  (λ e. ground (arith, case_ids_differ, equal_iff (bytes "case-b") (bytes "case-a")), tt),
  (tt, tt),
)

pub sample_points_same : (s : Bytes) → contains written_points s ≡ contains canonical_points s
unfolding contains
sample_points_same s = ground arith

pub sample_target_is_named : target ≢ []
sample_target_is_named = λ e. ground (arith, target_is_named, equal_iff target [])

pub sample_temporary_is_apart : answers.temporary ≢ target
sample_temporary_is_apart =
    λ e. ground (arith, temporary_is_apart, equal_iff answers.temporary target)

pub sample_target_is_apart : target ≢ refusing.temporary
sample_target_is_apart = λ e. ground (arith, temporary_is_apart, equal_iff answers.temporary target)

pub sample_cases-IsRead : All (λ c. IsRead sample_host c) canonical_body.conformance.cases
sample_cases-IsRead =
    let reads : (c : Case)
        → (c.started_at ≡ noon)
        → (c.completed_at ≡ after_noon)
        → (c.decision.observed_at ≡ noon)
        → (c.outcome.observed_at ≡ after_noon)
        → IsRead sample_host c =
      λ c s e d o. record {
        started_read = (noon_instant, ap parse_layout s ∙ noon_is_read);
        completed_read = (after_noon_instant, ap parse_layout e ∙ after_noon_is_read);
        decided_read = inr (noon_instant, ap parse_layout d ∙ noon_is_read);
        resulted_read = inr (after_noon_instant, ap parse_layout o ∙ after_noon_is_read);
      } in
    (reads allowed_case refl refl refl refl, (reads denied_case refl refl refl refl, tt))

pub sample-IsCanonical : IsCanonical sample_host canonical_body
sample-IsCanonical = normalize-IsCanonical sample_host written_body canonical_body sample_normalizes

pub sample_fuel : 2 * height evidence_document ≤ 6
sample_fuel = omega (arith, sample_height)

pub sample_writes : (write_output answers empty_world predicate_bytes target).0 ≡ ok tt
unfolding bytes equal write_output commit remove rename
sample_writes = refl

pub sample_write_fails :
    (write_output refusing empty_world predicate_bytes target).0
    ≡ err (plain "failed to commit output file")
unfolding bytes equal write_output commit remove rename
sample_write_fails = refl
