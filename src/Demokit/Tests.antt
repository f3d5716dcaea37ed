-- ===== src/Demokit/Tests.antt =====
-- A sample case built for signing.
use agent_governance_evidenc.Base.{
  ℕ, zero, suc, ◌≡◌, ◌≢◌, ◌⊎◌, refl, [], ◌∷◌, ◌++◌, some, true, Bytes, ok, bytes,
}
use agent_governance_evidenc.Evidence.{Deployment, verified, unknown}
use agent_governance_evidenc.Evidence.Tests.Samples.{
  sample_host, body_of, allowed_case, canonical_body, canonical_points, predicate_bytes,
  sample_times, sample_jsons, answers, empty_world, target, digest_of, evidence_file,
}
use agent_governance_evidenc.Base.{
  equal, contains, bytes, trim_prefix, has_prefix, to_lower, lower_byte, all,
}
use agent_governance_evidenc.Base.Order.{less}
use agent_governance_evidenc.Base.Sort.{insert, sort}
use agent_governance_evidenc.Evidence.Cases.{case_less, kind_order, order_less, sort_cases}
use agent_governance_evidenc.Evidence.Digest.{normalize_digest}
use agent_governance_evidenc.Evidence.Extensions.{
  validate_depth, validate_extensions, validate_items, validate_members, validate_value,
  validate_values,
}
use agent_governance_evidenc.Evidence.Fields.{
  before_colon, has_authority, has_lower_scheme, percent_encoded, scheme_allowed,
  validate_absolute_uri, validate_artifact_reference, validate_bounded_text,
  validate_canonical_digest, validate_id, validate_observed_at, validate_redacted_reference,
}
use agent_governance_evidenc.Evidence.Fields.Runes.{
  any_control, decode_2, decode_3, decode_4, decode_rune, has_control, is_control, runes_from,
  second_in_3, second_in_4,
}
use agent_governance_evidenc.Evidence.Generate.{
  generate, generate_deployment, parse, prepare, validate_evidence_presence,
}
use agent_governance_evidenc.Evidence.Json.{find}
use agent_governance_evidenc.Evidence.Normalize.{
  digest_at, each_case, normalize, normalize_case_digests, normalize_case_timestamps,
  normalize_digests, normalize_extensions, normalize_points, normalize_timestamp,
  normalize_timestamps, normalize_values, optional_timestamp_at, timestamp_at,
}
use agent_governance_evidenc.Evidence.Output.{commit, remove, rename, write_output}
use agent_governance_evidenc.Evidence.Pattern.{
  digest_re, id_re, is_hex, is_id_byte, is_id_start, is_lower_hex, is_redacted_byte, is_run,
  loose_digest_re, matches, redacted_id_re,
}
use agent_governance_evidenc.Evidence.Points.{dedupe, dedupe_sort}
use agent_governance_evidenc.Evidence.Presence.{
  check_array, check_items, check_object, check_properties, check_required, check_type, deferred,
  has_suffix, resolve, validate_presence, walk,
}
use agent_governance_evidenc.Evidence.Presence.Enough.{height, height_items, height_members}
use agent_governance_evidenc.Evidence.Read.{
  read_at_most, read_bounded, read_evidence_file, read_limited,
}
use agent_governance_evidenc.Evidence.Tests.Samples.{
  digest_of, format_layout, parse_layout, parse_rfc3339, parse_url,
}
use agent_governance_evidenc.Evidence.Validate.{
  each_ok, one_of, same_bool, validate, validate_cases, validate_conformance, validate_enforcement,
  validate_framework, validate_identity_audit, validate_root, validate_runtime_adapter,
  validate_runtime_policy, validate_runtime_policy_count,
}
use agent_governance_evidenc.Evidence.Validate.CaseCheck.{
  contradicts_kind, string_subset, validate_case, validate_case_decision, validate_case_interval,
  validate_case_kind_consistency, validate_case_outcome, validate_case_test_result,
  validate_observed_decision, validate_required_reference, validate_unknown_outcome,
  validate_unobserved_decision, validate_verified_outcome,
}
use agent_governance_evidenc.Evidence.Host.{Host, TimeLaws, JsonLaws}
use agent_governance_evidenc.Demokit.{
  build_case, Wire, BuiltCase, TestResult, digest_hex, set_digest, placeholder, build_parsed_case,
  build_test_result_statement, build_deployment_statement, test_result_of, case_annotations,
  decision_annotations, annotation_key, descriptor_uri, agent_subject, repeated_zero, passed_result,
}
use agent_governance_evidenc.Cli.{parsed, execute}
use agent_governance_evidenc.Evidence.Tests.Runs.{sample_target_is_named}
use agent_governance_evidenc.Demokit.Reproduce.{execute_reproduces}
use agent_governance_evidenc.Demokit.Laws.{
  FitsOutcome, test_result_of_lem, IsBuilt, build_parsed_case_sound,
}

abbrev pub statement_bytes : Bytes
statement_bytes = bytes "{statement}"

unfoldable pub repeated : ℕ → ℕ → Bytes
repeated zero b = []
repeated (suc n) b = b ∷ repeated n b

abbrev pub sample_wire : Wire
sample_wire = record {
  marshal_test_result = λ _. some (bytes "{result}");
  test_result_accepts = λ _. true;
  marshal_statement = λ _. some statement_bytes;
  sha256_hex = λ _. repeated 64 b'9';
  read_agent = λ _. some (bytes "marker agent", digest_of b'a');
}

abbrev pub unbound_body : Deployment
unbound_body = body_of b'a' canonical_points (set_digest [] (allowed_case ∷ []))

abbrev pub bound_body : Deployment
bound_body = body_of b'a' canonical_points (set_digest (digest_of b'9') (allowed_case ∷ []))

abbrev pub built : BuiltCase
built = record {
  evidence = bound_body;
  predicate_body = predicate_bytes;
  deployment_statement = statement_bytes;
  test_result_statement = statement_bytes;
  agent_name = bytes "marker agent";
  agent_digest_hex = repeated 64 b'a';
}

sample_builds : build_parsed_case sample_host sample_wire unbound_body ≡ ok built
unfolding bytes equal contains trim_prefix has_prefix to_lower lower_byte all less insert sort
    kind_order order_less case_less sort_cases normalize_digest validate_value validate_values
    validate_extensions validate_depth validate_items validate_members validate_bounded_text
    percent_encoded scheme_allowed has_authority validate_canonical_digest validate_id
    validate_redacted_reference before_colon has_lower_scheme validate_absolute_uri
    validate_artifact_reference validate_observed_at second_in_3 second_in_4 decode_2 decode_3
    decode_4 decode_rune runes_from is_control any_control has_control validate_evidence_presence
    parse generate prepare generate_deployment find digest_at normalize_case_digests each_case
    normalize_digests normalize_points normalize_timestamp timestamp_at optional_timestamp_at
    normalize_case_timestamps normalize_timestamps normalize_values normalize_extensions normalize
    remove rename commit write_output is_lower_hex is_hex is_id_start is_id_byte is_redacted_byte
    is_run matches digest_re loose_digest_re id_re redacted_id_re dedupe dedupe_sort has_suffix
    deferred check_required check_properties resolve check_items check_object check_array check_type
    walk validate_presence height height_items height_members read_limited read_at_most read_bounded
    read_evidence_file parse_layout parse_rfc3339 format_layout parse_url digest_of one_of same_bool
    each_ok validate_runtime_policy_count validate_enforcement validate_root validate_framework
    validate_runtime_adapter validate_runtime_policy validate_identity_audit validate_cases
    validate_conformance validate validate_required_reference string_subset
    validate_case_test_result contradicts_kind validate_case_kind_consistency validate_case_interval
    validate_observed_decision validate_unobserved_decision validate_case_decision
    validate_verified_outcome validate_unknown_outcome validate_case_outcome validate_case
    digest_hex placeholder build_parsed_case build_test_result_statement build_deployment_statement
    test_result_of case_annotations decision_annotations annotation_key descriptor_uri agent_subject
    repeated_zero repeated
sample_builds = refl

-- A host whose evidence file holds the unbound body.
abbrev pub demo_host : Host
demo_host = record sample_host { decode_deployment = λ _. some (unbound_body, true) }

pub demo_builds : build_case demo_host sample_wire evidence_file ≡ ok built
unfolding build_case bytes equal contains trim_prefix has_prefix to_lower lower_byte all less insert
    sort kind_order order_less case_less sort_cases normalize_digest validate_value validate_values
    validate_extensions validate_depth validate_items validate_members validate_bounded_text
    percent_encoded scheme_allowed has_authority validate_canonical_digest validate_id
    validate_redacted_reference before_colon has_lower_scheme validate_absolute_uri
    validate_artifact_reference validate_observed_at second_in_3 second_in_4 decode_2 decode_3
    decode_4 decode_rune runes_from is_control any_control has_control validate_evidence_presence
    parse generate prepare generate_deployment find digest_at normalize_case_digests each_case
    normalize_digests normalize_points normalize_timestamp timestamp_at optional_timestamp_at
    normalize_case_timestamps normalize_timestamps normalize_values normalize_extensions normalize
    remove rename commit write_output is_lower_hex is_hex is_id_start is_id_byte is_redacted_byte
    is_run matches digest_re loose_digest_re id_re redacted_id_re dedupe dedupe_sort has_suffix
    deferred check_required check_properties resolve check_items check_object check_array check_type
    walk validate_presence height height_items height_members read_limited read_at_most read_bounded
    read_evidence_file parse_layout parse_rfc3339 format_layout parse_url digest_of one_of same_bool
    each_ok validate_runtime_policy_count validate_enforcement validate_root validate_framework
    validate_runtime_adapter validate_runtime_policy validate_identity_audit validate_cases
    validate_conformance validate validate_required_reference string_subset
    validate_case_test_result contradicts_kind validate_case_kind_consistency validate_case_interval
    validate_observed_decision validate_unobserved_decision validate_case_decision
    validate_verified_outcome validate_unknown_outcome validate_case_outcome validate_case
    digest_hex placeholder build_parsed_case build_test_result_statement build_deployment_statement
    test_result_of case_annotations decision_annotations annotation_key descriptor_uri agent_subject
    repeated_zero repeated
demo_builds = refl

build_parsed_case_example : IsBuilt sample_host sample_wire unbound_body built
build_parsed_case_example =
    build_parsed_case_sound sample_host sample_wire unbound_body built sample_builds

abbrev sample_result : TestResult
sample_result = passed_result canonical_body allowed_case (
    case_annotations canonical_body allowed_case
    ++ (annotation_key (bytes "decisionDigest"), digest_of b'd')
      ∷ (annotation_key (bytes "resultArtifactDigest"), digest_of b'e')
      ∷ [])

sample_passes : test_result_of canonical_body allowed_case ≡ ok sample_result
unfolding bytes equal contains trim_prefix has_prefix to_lower lower_byte all less insert sort
    kind_order order_less case_less sort_cases normalize_digest validate_value validate_values
    validate_extensions validate_depth validate_items validate_members validate_bounded_text
    percent_encoded scheme_allowed has_authority validate_canonical_digest validate_id
    validate_redacted_reference before_colon has_lower_scheme validate_absolute_uri
    validate_artifact_reference validate_observed_at second_in_3 second_in_4 decode_2 decode_3
    decode_4 decode_rune runes_from is_control any_control has_control validate_evidence_presence
    parse generate prepare generate_deployment find digest_at normalize_case_digests each_case
    normalize_digests normalize_points normalize_timestamp timestamp_at optional_timestamp_at
    normalize_case_timestamps normalize_timestamps normalize_values normalize_extensions normalize
    remove rename commit write_output is_lower_hex is_hex is_id_start is_id_byte is_redacted_byte
    is_run matches digest_re loose_digest_re id_re redacted_id_re dedupe dedupe_sort has_suffix
    deferred check_required check_properties resolve check_items check_object check_array check_type
    walk validate_presence height height_items height_members read_limited read_at_most read_bounded
    read_evidence_file parse_layout parse_rfc3339 format_layout parse_url digest_of one_of same_bool
    each_ok validate_runtime_policy_count validate_enforcement validate_root validate_framework
    validate_runtime_adapter validate_runtime_policy validate_identity_audit validate_cases
    validate_conformance validate validate_required_reference string_subset
    validate_case_test_result contradicts_kind validate_case_kind_consistency validate_case_interval
    validate_observed_decision validate_unobserved_decision validate_case_decision
    validate_verified_outcome validate_unknown_outcome validate_case_outcome validate_case
    digest_hex placeholder build_parsed_case build_test_result_statement build_deployment_statement
    test_result_of case_annotations decision_annotations annotation_key descriptor_uri agent_subject
    repeated_zero repeated
sample_passes = refl

test_result_example :
    FitsOutcome allowed_case sample_result verified (bytes "PASSED") (allowed_case.id ∷ []) []
    ⊎ FitsOutcome allowed_case sample_result unknown (bytes "WARNED") [] (allowed_case.id ∷ [])
test_result_example = test_result_of_lem canonical_body allowed_case sample_result sample_passes

-- A host whose evidence file holds the completed evidence.
abbrev completed_host : Host
completed_host = record sample_host { decode_deployment = λ _. some (bound_body, true) }

completed_times : TimeLaws completed_host
completed_times = record {
  layout_reads = sample_times.layout_reads;
  rfc3339_reads = sample_times.rfc3339_reads;
}

completed_jsons : JsonLaws completed_host
completed_jsons = record { decode_marshal = sample_jsons.decode_marshal }

completed_builds : build_parsed_case completed_host sample_wire unbound_body ≡ ok built
unfolding bytes equal contains trim_prefix has_prefix to_lower lower_byte all less insert sort
    kind_order order_less case_less sort_cases normalize_digest validate_value validate_values
    validate_extensions validate_depth validate_items validate_members validate_bounded_text
    percent_encoded scheme_allowed has_authority validate_canonical_digest validate_id
    validate_redacted_reference before_colon has_lower_scheme validate_absolute_uri
    validate_artifact_reference validate_observed_at second_in_3 second_in_4 decode_2 decode_3
    decode_4 decode_rune runes_from is_control any_control has_control validate_evidence_presence
    parse generate prepare generate_deployment find digest_at normalize_case_digests each_case
    normalize_digests normalize_points normalize_timestamp timestamp_at optional_timestamp_at
    normalize_case_timestamps normalize_timestamps normalize_values normalize_extensions normalize
    remove rename commit write_output is_lower_hex is_hex is_id_start is_id_byte is_redacted_byte
    is_run matches digest_re loose_digest_re id_re redacted_id_re dedupe dedupe_sort has_suffix
    deferred check_required check_properties resolve check_items check_object check_array check_type
    walk validate_presence height height_items height_members read_limited read_at_most read_bounded
    read_evidence_file parse_layout parse_rfc3339 format_layout parse_url digest_of one_of same_bool
    each_ok validate_runtime_policy_count validate_enforcement validate_root validate_framework
    validate_runtime_adapter validate_runtime_policy validate_identity_audit validate_cases
    validate_conformance validate validate_required_reference string_subset
    validate_case_test_result contradicts_kind validate_case_kind_consistency validate_case_interval
    validate_observed_decision validate_unobserved_decision validate_case_decision
    validate_verified_outcome validate_unknown_outcome validate_case_outcome validate_case
    digest_hex placeholder build_parsed_case build_test_result_statement build_deployment_statement
    test_result_of case_annotations decision_annotations annotation_key descriptor_uri agent_subject
    repeated_zero repeated
completed_builds = refl

completed_reads : read_evidence_file evidence_file ≡ ok (bytes "{...}")
unfolding bytes read_limited read_at_most read_bounded read_evidence_file
completed_reads = refl

completed_parses : parse completed_host (bytes "{...}") ≡ ok bound_body
unfolding bytes equal trim_prefix has_prefix parse validate_evidence_presence height height_items
    height_members find check_required check_properties check_items check_object check_array
    check_type resolve walk deferred has_suffix validate_presence
completed_parses = refl

evidence_path_is_named : bytes "evidence.json" ≢ []
unfolding bytes
evidence_path_is_named e = cc

execute_reproduces_example :
    ((execute completed_host
        (λ _. evidence_file)
        answers
        empty_world
        (parsed (bytes "evidence.json") target [])).0
      ≡ 0)
    × ((execute completed_host
            (λ _. evidence_file)
            answers
            empty_world
            (parsed (bytes "evidence.json") target [])).2.files
          target
        ≡ some predicate_bytes)
execute_reproduces_example =
    execute_reproduces completed_host sample_wire completed_times completed_jsons
      (λ _. evidence_file) answers empty_world unbound_body built (bytes "{...}")
      (bytes "evidence.json") target completed_builds completed_reads completed_parses
      (record { creates = refl; writes = refl; closes = refl; renames = refl })
      evidence_path_is_named sample_target_is_named
