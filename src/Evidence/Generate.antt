-- ===== src/Evidence/Generate.antt =====
-- `ParseAgentGovernanceEvidence`, `Generate` and `GenerateAgentGovernanceDeployment` of
-- internal/evidence/deployment.go.
pub mod Laws
use agent_governance_evidenc.Base.{
  ℕ, ◌*◌, Bytes, Option, Result, ok, err, ◌>>=◌, ◌>>◌, guard, some_or, Error, plain, naming, leb,
  length,
}
use agent_governance_evidenc.Evidence.{Deployment, max_predicate_bytes}
use agent_governance_evidenc.Evidence.Fields.{Check}
use agent_governance_evidenc.Evidence.Host.{Host}
use agent_governance_evidenc.Evidence.Json.{Json}
use agent_governance_evidenc.Evidence.Normalize.{normalize}
use agent_governance_evidenc.Evidence.Output.{World, Answers, write_output}
use agent_governance_evidenc.Evidence.Presence.{
  Walk, passed, failed, out_of_fuel, validate_presence, Reason, null_value, not_object, not_array,
  missing_member, unsupported_reference, unresolved_reference, non_string_required,
  invalid_child_schema, items_missing, properties_missing, predicate_missing, dotted,
}
use agent_governance_evidenc.Evidence.Presence.Enough.{height}
use agent_governance_evidenc.Evidence.Read.{File, read_evidence_file}
use agent_governance_evidenc.Evidence.Validate.{validate}

-- The text that `validateAgentGovernanceEvidencePresence` returns, with the path, the missing
-- member or the reference that it names.
abbrev pub presence_error : Bytes → Reason → Error
presence_error path null_value = naming path "invalid agent-governance evidence: must not be null"
presence_error path not_object = naming path "invalid agent-governance evidence: must be an object"
presence_error path not_array = naming path "invalid agent-governance evidence: must be an array"
presence_error path (missing_member name) =
    naming (dotted path name) "invalid agent-governance evidence: missing required member"
presence_error path (unsupported_reference ref) =
    naming ref "invalid embedded agent-governance schema: unsupported reference"
presence_error path (unresolved_reference ref) =
    naming ref "invalid embedded agent-governance schema: unresolved reference"
presence_error path non_string_required =
    plain "invalid embedded agent-governance schema: non-string required member"
presence_error path invalid_child_schema =
    naming path "invalid embedded agent-governance schema: invalid schema"
presence_error path items_missing =
    naming path "invalid embedded agent-governance schema: items schema missing"
presence_error path properties_missing =
    plain "invalid embedded agent-governance schema: predicate properties missing"
presence_error path predicate_missing =
    plain "invalid embedded agent-governance schema: predicate schema missing"

abbrev pub presence_check : Walk → Check
presence_check passed = ok tt
presence_check (failed path why) = err (presence_error path why)
presence_check out_of_fuel = err (plain "unbounded schema reference")

module _ (h : Host) where
  -- The fuel is enough for the schema's references: Presence/Enough.
  unfoldable pub validate_evidence_presence : Bytes → Check
  validate_evidence_presence input = do
    value ←
        some_or (h.unmarshal_json input)
          (plain "invalid agent-governance evidence: JSON document cannot be decoded")
    presence_check (validate_presence h.decimal (2 * height value) h.schema_document value)

  unfoldable pub parse : Bytes → Result Deployment
  parse input = do
    guard (leb (length input) max_predicate_bytes)
        (plain "agent-governance evidence exceeds the byte input bound")
    validate_evidence_presence input
    (d, at_end) ←
        some_or (h.decode_deployment input)
          (plain "invalid agent-governance evidence: JSON fields or values do not match the schema")
    guard at_end (plain "invalid agent-governance evidence: trailing data after JSON document")
    ok d

  -- The body as `Normalize` leaves it, and the emitted bytes.
  unfoldable pub generate : Deployment → Result (Deployment × Bytes)
  generate d = do
    e ← normalize h d
    validate h e
    output ←
        some_or (h.marshal_deployment e) (plain "failed to generate agent-governance predicate")
    guard (leb (length output) max_predicate_bytes) (plain "predicate exceeds the byte bound")
    guard (h.schema_accepts output) (plain "failed to validate agent-governance predicate")
    ok (e, output)

  -- All that happens before an output is opened.
  unfoldable pub prepare : Option File → Result Bytes
  prepare evidence = do
    input ← read_evidence_file evidence
    d ← parse input
    (e, output) ← generate d
    ok output

  unfoldable pub generate_deployment :
      Answers → World → Option File → Bytes → Result (Unit {0}) × World
  unfolding prepare
  generate_deployment a w evidence target = elim (prepare evidence) [
    | err e ↦ (err e, w)
    | ok output ↦ write_output a w output target
  ]
