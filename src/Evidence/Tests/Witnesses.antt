-- ===== src/Evidence/Tests/Witnesses.antt =====
-- The properties at concrete inputs.
use agent_governance_evidenc.Base.{
  ◌≡◌, ◌≢◌, ◌↔◌, ◌≤◌, [], ◌∷◌, inl, ok, here, none, some, Bytes, bytes, plain, contains, to_lower,
  length, if◌then◌else◌, equal,
}
use mathlib.Core.List.{Perm}
use mathlib.Core.List.Perm
use agent_governance_evidenc.Evidence.{max_predicate_bytes}
use agent_governance_evidenc.Evidence.Cases.{sort_cases}
use agent_governance_evidenc.Evidence.Cases.Laws.{sort_cases_canonical}
use agent_governance_evidenc.Evidence.Cases.Ranks.{AllPrecede, sort_cases-AllPrecede}
use agent_governance_evidenc.Evidence.Presence.Conforms.{Conforms, walk-Conforms}
use agent_governance_evidenc.Evidence.Digest.{normalize_digest, IsLooseDigest, normalize_digest_iff}
use agent_governance_evidenc.Evidence.Extensions.{validate_depth, validate_extensions}
use agent_governance_evidenc.Evidence.Extensions.Laws.{
  nesting, width, IsExtensions, validate_depth_iff, validate_extensions_iff,
}
use agent_governance_evidenc.Evidence.Fields.{validate_absolute_uri}
use agent_governance_evidenc.Evidence.Fields.Laws.{IsUri, validate_absolute_uri_iff}
use agent_governance_evidenc.Evidence.Fields.Runes.{has_control}
use agent_governance_evidenc.Evidence.Fields.Runes.Laws.{control_bytes, has_control_lem}
use agent_governance_evidenc.Evidence.Generate.{generate, generate_deployment}
use agent_governance_evidenc.Evidence.Generate.Laws.{
  Emitted, Prepared, generate_sound, generate_stable, generate_deployment_commits,
  generate_deployment_fails,
}
use agent_governance_evidenc.Evidence.Normalize.{normalize}
use agent_governance_evidenc.Evidence.Normalize.Facts.{HasSameFacts, normalize-HasSameFacts}
use agent_governance_evidenc.Evidence.Normalize.Laws.{
  IsCanonical, normalize-IsCanonical, normalize_of_IsCanonical,
}
use agent_governance_evidenc.Evidence.Output.{
  write_output, write_output_commits, write_output_fails,
}
use agent_governance_evidenc.Evidence.Points.{dedupe_sort}
use agent_governance_evidenc.Evidence.Points.Laws.{
  IsAscending, contains-dedupe_sort, dedupe_sort-IsAscending, dedupe_sort_canonical,
}
use agent_governance_evidenc.Evidence.Presence.{walk, out_of_fuel}
use agent_governance_evidenc.Evidence.Presence.Enough.{walk-total}
use agent_governance_evidenc.Evidence.Read.{yielding, read_bounded, read_bounded_iff}
use agent_governance_evidenc.Evidence.Tests.Runs.{
  sample_normalizes, sample_generates, sample_commits, sample_fails, sample_walk_passes,
  sample_definitions_flat, sample_ids_distinct, sample_points_same, sample_target_is_named,
  sample_temporary_is_apart, sample_target_is_apart, sample_cases-IsRead, sample-IsCanonical,
  sample_fuel, sample_writes, sample_write_fails,
}
use agent_governance_evidenc.Evidence.Tests.Samples.{
  sample_host, sample_times, sample_jsons, written_body, canonical_body, predicate_bytes,
  evidence_file, answers, refusing, empty_world, target, decimal, definitions, evidence_document,
  evidence_schema, allowed_case, denied_case, written_points, canonical_points, digest_of,
}
use agent_governance_evidenc.Evidence.Validate.{validate}
use agent_governance_evidenc.Evidence.Validate.Laws.{IsValid, validate_iff}
use agent_governance_evidenc.Evidence.Validate.CaseCheck.{validate_case}
use agent_governance_evidenc.Evidence.Validate.CaseCheck.Laws.{IsCase, validate_case_iff}

validate_example :
    (validate sample_host canonical_body ≡ ok tt) ↔ IsValid sample_host canonical_body
validate_example = validate_iff sample_host canonical_body

generate_stable_example : generate sample_host canonical_body ≡ ok (canonical_body, predicate_bytes)
generate_stable_example =
    generate_stable sample_host sample_times sample_jsons written_body canonical_body
      predicate_bytes sample_generates

generate_sound_example : Emitted sample_host written_body canonical_body predicate_bytes
generate_sound_example =
    generate_sound sample_host written_body canonical_body predicate_bytes sample_generates

normalize_example : IsCanonical sample_host canonical_body
normalize_example = normalize-IsCanonical sample_host written_body canonical_body sample_normalizes

normalize-HasSameFacts_example : HasSameFacts written_body canonical_body
normalize-HasSameFacts_example =
    normalize-HasSameFacts sample_host written_body canonical_body sample_normalizes

normalize_again_example : normalize sample_host canonical_body ≡ ok canonical_body
normalize_again_example =
    normalize_of_IsCanonical sample_host sample_times sample_jsons canonical_body sample-IsCanonical
      sample_cases-IsRead

commits_example :
    (output : Bytes) × Prepared sample_host evidence_file output
    × ((p : Bytes)
        → (generate_deployment sample_host answers empty_world evidence_file target).1.files p ≡ (
            if equal target p
            then some output
            else if equal answers.temporary p
            then none
            else empty_world.files p))
commits_example =
    generate_deployment_commits sample_host answers empty_world evidence_file target
      sample_target_is_named sample_temporary_is_apart sample_commits

fails_example :
    ((generate_deployment sample_host refusing empty_world evidence_file target).1.stdout
      ≡ empty_world.stdout)
    × ((generate_deployment sample_host refusing empty_world evidence_file target).1.files target
        ≡ empty_world.files target)
fails_example =
    generate_deployment_fails sample_host refusing empty_world evidence_file target
      sample_target_is_named (plain "failed to commit output file") target sample_fails
      (inl sample_target_is_apart)

validate_case_example :
    (validate_case sample_host canonical_body 0 allowed_case ≡ ok tt)
    ↔ IsCase sample_host canonical_body allowed_case
validate_case_example = validate_case_iff sample_host canonical_body 0 allowed_case

points_canonical_example : dedupe_sort written_points ≡ dedupe_sort canonical_points
points_canonical_example = dedupe_sort_canonical written_points canonical_points sample_points_same

points_ascending_example : IsAscending (dedupe_sort written_points)
points_ascending_example = dedupe_sort-IsAscending written_points

points_kept_example :
    contains (dedupe_sort written_points) (bytes "post") ≡ contains written_points (bytes "post")
points_kept_example = contains-dedupe_sort written_points (bytes "post")

cases_canonical_example :
    sort_cases (allowed_case ∷ denied_case ∷ []) ≡ sort_cases (denied_case ∷ allowed_case ∷ [])
cases_canonical_example =
    sort_cases_canonical (allowed_case ∷ denied_case ∷ []) (denied_case ∷ allowed_case ∷ [])
      (Perm.swap denied_case allowed_case []) sample_ids_distinct

cases-AllPrecede_example :
    AllPrecede (sort_cases (denied_case ∷ allowed_case ∷ []))
    × Perm (sort_cases (denied_case ∷ allowed_case ∷ [])) (denied_case ∷ allowed_case ∷ [])
cases-AllPrecede_example = sort_cases-AllPrecede (denied_case ∷ allowed_case ∷ [])

digest_example :
    (normalize_digest (digest_of b'A') ≡ ok (digest_of b'a'))
    ↔ (IsLooseDigest (digest_of b'A') × (digest_of b'a' ≡ to_lower (digest_of b'A')))
digest_example = normalize_digest_iff (digest_of b'A') (digest_of b'a')

extensions_example :
    (validate_extensions sample_host canonical_body.extensions ≡ ok tt)
    ↔ IsExtensions sample_host canonical_body.extensions
extensions_example = validate_extensions_iff sample_host canonical_body.extensions

depth_example :
    (validate_depth evidence_document 1 ≡ ok tt)
    ↔ ((nesting evidence_document ≤ 4) × (width evidence_document ≤ 16))
depth_example = validate_depth_iff evidence_document

read_example : (read_bounded (yielding predicate_bytes) ≡ ok predicate_bytes) ↔ (
    (yielding predicate_bytes ≡ yielding predicate_bytes)
    × (length predicate_bytes ≤ max_predicate_bytes))
read_example = read_bounded_iff (yielding predicate_bytes) predicate_bytes

walk_total_example :
    walk decimal 6 definitions evidence_document evidence_schema (bytes "evidence") ≢ out_of_fuel
walk_total_example =
    walk-total decimal definitions sample_definitions_flat 6 evidence_document evidence_schema
      (bytes "evidence") sample_fuel

walk-Conforms_example :
    Conforms decimal definitions evidence_document evidence_schema (bytes "evidence")
walk-Conforms_example =
    walk-Conforms decimal definitions 4 evidence_document evidence_schema (bytes "evidence")
      sample_walk_passes

write_commits_example : (write_output answers empty_world predicate_bytes target).1.files target ≡ (
    if equal target target
    then some predicate_bytes
    else if equal answers.temporary target
    then none
    else empty_world.files target)
write_commits_example =
    write_output_commits answers empty_world predicate_bytes target sample_target_is_named
      sample_temporary_is_apart sample_writes target

write_fails_example :
    ((write_output refusing empty_world predicate_bytes target).1.stdout ≡ empty_world.stdout)
    × ((write_output refusing empty_world predicate_bytes target).1.files target
        ≡ empty_world.files target)
write_fails_example =
    write_output_fails refusing empty_world predicate_bytes target sample_target_is_named
      (plain "failed to commit output file") target sample_write_fails (inl sample_target_is_apart)

uri_example :
    (validate_absolute_uri sample_host (here "agent.uri") canonical_body.agent.uri none ≡ ok tt)
    ↔ IsUri sample_host none canonical_body.agent.uri
uri_example = validate_absolute_uri_iff sample_host (here "agent.uri") canonical_body.agent.uri none

-- U+0085 between two letters.
control_example :
    has_control (b'a' ∷ 0xc2 ∷ 0x85 ∷ b'b' ∷ []) ≡ control_bytes (b'a' ∷ 0xc2 ∷ 0x85 ∷ b'b' ∷ [])
control_example = has_control_lem (b'a' ∷ 0xc2 ∷ 0x85 ∷ b'b' ∷ [])
