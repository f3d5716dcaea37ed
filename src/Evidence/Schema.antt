-- ===== src/Evidence/Schema.antt =====
-- internal/evidence/schema.go: which schema the emitted bytes are checked against. The check itself
-- is that of gojsonschema; the embedded schemas are a record of their texts.
mod Tests
use agent_governance_evidenc.Base.{
  ◌≡◌, refl, sym, inl, inr, true, false, Bool, Bytes, bytes, equal, equal_iff, arith, Option, none,
  some, Result, ok, err, ◌>>=◌, guard, some_or, plain, if◌then◌else◌, Bool-cases, Option-cases,
}
use agent_governance_evidenc.Evidence.Fields.{Check}
use agent_governance_evidenc.Evidence.Json.{
  Json, null, bool, number, string, array, object, Members, end, member, find,
}

-- `json.Unmarshal` and `json.Marshal` of a schema, `gojsonschema.Validate` with the schema's text
-- and the document (an error, or the verdict), and the two embedded files.
pub record Validator : Type 0 where
  pub unmarshal_json : Bytes → Option Json
  pub marshal_json : Json → Option Bytes
  pub validate : Bytes → Bytes → Option Bool
  pub deployment_schema : Bytes
  pub test_result_schema : Bytes

-- A value as an object, or else no members (a comma-ok assertion).
abbrev pub as_object : Option Json → Option Members
as_object (some (object ms)) = some ms
as_object _ = none

-- `predicateSchema["definitions"] = definitions` where it has none.
unfoldable pub with_definitions : Members → Members → Members
with_definitions schema predicate = elim (find (bytes "definitions") schema) [
  | none ↦ predicate
  | some definitions ↦ elim (find (bytes "definitions") predicate) [
    | none ↦ member (bytes "definitions") definitions predicate
    | some own ↦ predicate
  ]
]

-- The schema of the predicate within a schema of the whole statement, or the schema itself.
unfoldable pub predicate_schema : Members → Members
unfolding with_definitions
predicate_schema schema = elim (as_object (find (bytes "properties") schema)) [
  | none ↦ schema
  | some properties ↦ elim (as_object (find (bytes "predicate") properties)) [
    | none ↦ schema
    | some predicate ↦ with_definitions schema predicate
  ]
]

-- Decoding into a map: an object, or null, which leaves the map nil.
abbrev pub schema_to_use : Json → Option Json
schema_to_use (object ms) = some (object (predicate_schema ms))
schema_to_use null = some null
schema_to_use _ = none

module _ (g : Validator) where
  unfoldable pub validate_json_against_schema : Bytes → Bytes → Check
  validate_json_against_schema document schema_content = do
    decoded ← some_or (g.unmarshal_json schema_content) (plain "failed to parse schema")
    schema ← some_or (schema_to_use decoded) (plain "failed to parse schema")
    schema_data ← some_or (g.marshal_json schema) (plain "failed to marshal schema")
    valid ← some_or (g.validate schema_data document) (plain "validation error")
    guard valid (plain "validation failed")

  unfoldable pub validate_agent_governance_deployment : Bytes → Check
  validate_agent_governance_deployment document =
      validate_json_against_schema document g.deployment_schema

  unfoldable pub validate_embedded_test_result : Bytes → Check
  validate_embedded_test_result document =
      validate_json_against_schema document g.test_result_schema

-- A schema of a statement whose predicate is described by an object.
pub record Describes (schema properties predicate : Members) : Type 0 where
  pub properties_are : find (bytes "properties") schema ≡ some (object properties)
  pub predicate_is : find (bytes "predicate") properties ≡ some (object predicate)

-- What is found in the predicate's own description, and else what the whole schema defines.
abbrev first_found : Option Json → Option Json → Option Json
first_found (some v) other = some v
first_found none other = other

first_found-none : (o : Option Json) → first_found o none ≡ o
first_found-none none = refl
first_found-none (some v) = refl

with_definitions-find :
    (schema predicate : Members) (name : Bytes)
    → find name (with_definitions schema predicate) ≡ (
        if equal (bytes "definitions") name
        then first_found (find (bytes "definitions") predicate) (find (bytes "definitions") schema)
        else find name predicate)
unfolding with_definitions find
with_definitions-find schema predicate name =
    elim (Option-cases (find (bytes "definitions") schema)) [
      | inl missing ↦ elim (Bool-cases (equal (bytes "definitions") name)) [
        | inr other ↦ rw (missing, other, with_definitions) refl
        | inl is ↦
            let same = (equal_iff (bytes "definitions") name).0 is in
            rw (missing, is, ← same, with_definitions)
              (sym (first_found-none (find (bytes "definitions") predicate)))
      ]
      | inr (definitions, given) ↦ elim (Option-cases (find (bytes "definitions") predicate)) [
        | inl none_own ↦ elim (Bool-cases (equal (bytes "definitions") name)) [
          | inr other ↦ rw (given, none_own, other, with_definitions) refl
          | inl is ↦ rw (given, none_own, is, with_definitions) refl
        ]
        | inr (own, has) ↦ elim (Bool-cases (equal (bytes "definitions") name)) [
          | inr other ↦ rw (given, has, other, with_definitions) refl
          | inl is ↦
              let same = (equal_iff (bytes "definitions") name).0 is in
              rw (given, has, is, ← same, with_definitions) has
        ]
      ]
    ]

-- Where the schema describes the predicate of a statement, the predicate's description is used:
-- each of its members stays as it is, and the definitions are its own or else those of the whole
-- schema.
pub predicate_schema-find :
    (schema properties predicate : Members) (name : Bytes)
    → Describes schema properties predicate
    → find name (predicate_schema schema) ≡ (
        if equal (bytes "definitions") name
        then first_found (find (bytes "definitions") predicate) (find (bytes "definitions") schema)
        else find name predicate)
unfolding predicate_schema
predicate_schema-find schema properties predicate name d =
    rw (d.properties_are, d.predicate_is, predicate_schema)
      (with_definitions-find schema predicate name)
