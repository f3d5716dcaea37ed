-- ===== src/Evidence/Tests/Samples.antt =====
-- A host that knows two instants, and a body with one case, as written and as normalised.
use agent_governance_evidenc.Base.{
  ℕ, zero, suc, true, false, List, [], ◌∷◌, ◌++◌, Option, none, some, Bytes, bytes, equal, ◌==◌,
  if◌then◌else◌, ◌≡◌, refl, arith, Bool-cases, inl, inr,
}
use agent_governance_evidenc.Base.Int.{pos}
use agent_governance_evidenc.Evidence.{
  Deployment, Case, ArtifactReference, RedactedReference, allowed_action, denied_action, observed,
  allow, deny, verified, occurred, blocked, test_result_predicate_type_uri, schema_version,
  contract_version, controlled_tool_name, controlled_tool_action_class,
}
use agent_governance_evidenc.Evidence.Fields.{before_colon}
use agent_governance_evidenc.Evidence.Host.{Host, Url, TimeLaws, JsonLaws}
use agent_governance_evidenc.Evidence.Json.{
  Json, null, string, object, array, nil, cons, Members, end, member,
}
use agent_governance_evidenc.Evidence.Read.{File, yielding}
use agent_governance_evidenc.Evidence.Output.{World, Answers}

-- Noon and a second later, on the first day of 2026.
abbrev pub noon : Bytes
noon = bytes "2026-01-01T12:00:00Z"

abbrev pub noon_elsewhere : Bytes
noon_elsewhere = bytes "2026-01-01T13:00:00+01:00"

abbrev pub after_noon : Bytes
after_noon = bytes "2026-01-01T12:00:01Z"

abbrev pub noon_instant : ℕ
noon_instant = 63_902_865_600_000_000_000

abbrev pub after_noon_instant : ℕ
after_noon_instant = 63_902_865_601_000_000_000

unfoldable pub parse_layout : Bytes → Option ℕ
parse_layout s =
    if equal s noon
    then some noon_instant
    else if equal s after_noon
    then some after_noon_instant
    else none

unfoldable pub parse_rfc3339 : Bytes → Option ℕ
unfolding parse_layout
parse_rfc3339 s = if equal s noon_elsewhere then some noon_instant else parse_layout s

-- Another instant has a form that is not read.
unfoldable pub format_layout : ℕ → Bytes
format_layout t =
    if t == noon_instant then noon else if t == after_noon_instant then after_noon else bytes "-"

unfoldable pub parse_url : Bytes → Option Url
parse_url s = elim (before_colon s) [
  | none ↦ none
  | some scheme ↦ some (record { scheme = scheme; host = bytes "example.test" })
]

abbrev text_member : Bytes → Bytes → Members → Members
text_member name value rest = member name (string value) rest

abbrev pub agent_schema : Members
agent_schema =
    text_member (bytes "type") (bytes "object")
      (member (bytes "required") (array (cons (string (bytes "name")) nil)) end)

abbrev pub evidence_schema : Members
evidence_schema = text_member (bytes "type") (bytes "object") (
    member (bytes "required") (array (cons (string (bytes "agent")) nil)) (
      member (bytes "properties")
        (object (
          member (bytes "agent")
            (object (text_member (bytes "$ref") (bytes "#/definitions/agent") end)) end))
        end))

abbrev pub definitions : Members
definitions = member (bytes "agent") (object agent_schema) end

abbrev pub schema_document : Json
schema_document = object (
    member (bytes "properties") (object (member (bytes "predicate") (object evidence_schema) end))
      (member (bytes "definitions") (object definitions) end))

abbrev pub evidence_members : Members
evidence_members =
    member (bytes "agent") (object (text_member (bytes "name") (bytes "marker") end)) end

abbrev pub evidence_document : Json
evidence_document = object evidence_members

abbrev pub decimal : ℕ → Bytes
decimal i = b'0' ∷ []

repeated : ℕ → ℕ → Bytes
repeated zero b = []
repeated (suc n) b = b ∷ repeated n b

unfoldable pub digest_of : ℕ → Bytes
unfolding repeated
digest_of b = bytes "sha256:" ++ repeated 64 b

abbrev pub artifact_of : ℕ → ArtifactReference
artifact_of b = record { uri = bytes "oci://example.test/a"; digest = digest_of b }

abbrev pub redacted_of : ℕ → RedactedReference
redacted_of b = record { id = bytes "redacted:a1"; digest = digest_of b }

abbrev pub case_of : Bytes → Bytes → Bytes → Bytes → Bytes → Case
case_of id kind verdict result started = record {
  id = id;
  kind = kind;
  correlation_id = digest_of b'c';
  started_at = started;
  completed_at = after_noon;
  decision = record {
    state = observed;
    verdict = verdict;
    reference = some (redacted_of b'd');
    observed_at = noon;
  };
  outcome = record {
    state = verified;
    result = result;
    reference = some (redacted_of b'e');
    observed_at = after_noon;
  };
  test_result = record {
    predicate_type = test_result_predicate_type_uri;
    test_id = id;
    statement_digest = digest_of b'f';
  };
}

abbrev pub allowed_case : Case
allowed_case = case_of (bytes "case-b") allowed_action allow occurred noon

abbrev pub denied_case : Case
denied_case = case_of (bytes "case-a") denied_action deny blocked noon

-- The body by what normalisation changes.
abbrev pub body_of : ℕ → List Bytes → List Case → Deployment
body_of digit points cases = record {
  schema_version = schema_version;
  agent = record {
    name = bytes "marker agent";
    uri = bytes "https://example.test/agent";
    artifact_digest = digest_of digit;
  };
  runtime = record {
    name = bytes "runner";
    version = bytes "1.0";
    framework = [];
    artifact = artifact_of b'b';
  };
  adapter = record {
    name = bytes "adapter";
    artifact = artifact_of b'a';
    contract_version = contract_version;
    runtime_digest = digest_of b'b';
  };
  runtime_policy = record {
    engine = bytes "rego";
    artifact = artifact_of b'0';
    count = pos 1;
    loaded = true;
  };
  enforcement = record {
    mode = bytes "enforce";
    default_behavior = deny;
    required_intervention_points = points;
    observed_intervention_points = [];
  };
  identity = record {
    provider_uri = bytes "https://example.test/id";
    subject_kind = bytes "agent";
    subject = redacted_of b'1';
  };
  audit = record {
    sink_kind = bytes "log";
    sink = redacted_of b'2';
    configuration_digest = digest_of b'3';
  };
  conformance = record {
    fixture = record { id = bytes "fixture"; producer = bytes "agt" };
    controlled_tool = record {
      name = controlled_tool_name;
      action_class = controlled_tool_action_class;
      artifact = artifact_of b'4';
    };
    cases = cases;
  };
  extensions = (bytes "urn:example:x", bytes "null") ∷ [];
}

abbrev pub written_points : List Bytes
written_points = bytes "post" ∷ bytes "input" ∷ bytes "post" ∷ []

abbrev pub canonical_points : List Bytes
canonical_points = bytes "input" ∷ bytes "post" ∷ []

-- A digest in upper case, a point twice, the cases out of order, a time in another zone.
abbrev pub written_body : Deployment
written_body =
    body_of b'A' written_points
      (denied_case ∷ case_of (bytes "case-b") allowed_action allow occurred noon_elsewhere ∷ [])

abbrev pub canonical_body : Deployment
canonical_body = body_of b'a' canonical_points (allowed_case ∷ denied_case ∷ [])

abbrev pub predicate_bytes : Bytes
predicate_bytes = bytes "{}"

abbrev pub sample_host : Host
sample_host = record {
  parse_rfc3339 = parse_rfc3339;
  parse_layout = parse_layout;
  format_layout = format_layout;
  parse_url = parse_url;
  decode_json = λ _. some null;
  marshal_json = λ _. some (bytes "null");
  unmarshal_json = λ _. some evidence_document;
  schema_document = schema_document;
  decimal = decimal;
  decode_deployment = λ _. some (written_body, true);
  marshal_deployment = λ _. some predicate_bytes;
  schema_accepts = λ _. true;
}

noon_is_read : parse_layout noon ≡ some noon_instant
unfolding parse_layout equal bytes
noon_is_read = refl

after_noon_is_read : parse_layout after_noon ≡ some after_noon_instant
unfolding parse_layout equal bytes
after_noon_is_read = refl

noon_is_rfc3339 : parse_rfc3339 noon ≡ some noon_instant
unfolding parse_rfc3339 parse_layout equal bytes
noon_is_rfc3339 = refl

after_noon_is_rfc3339 : parse_rfc3339 after_noon ≡ some after_noon_instant
unfolding parse_rfc3339 parse_layout equal bytes
after_noon_is_rfc3339 = refl

other_is_refused : parse_layout (bytes "-") ≡ none
unfolding parse_layout equal bytes
other_is_refused = refl

sample_layout_reads : (t u : ℕ) → parse_layout (format_layout t) ≡ some u → u ≡ t
unfolding format_layout
sample_layout_reads t u e = elim (Bool-cases (t == noon_instant)) [
  | inl first ↦ ground (arith, noon_is_read, first)
  | inr other ↦ elim (Bool-cases (t == after_noon_instant)) [
    | inl next ↦ ground (arith, after_noon_is_read, other, next)
    | inr neither ↦ absurd (ground (arith, other_is_refused, other, neither))
  ]
]

sample_rfc3339_reads :
    (t u : ℕ) → parse_layout (format_layout t) ≡ some u → parse_rfc3339 (format_layout t) ≡ some t
unfolding format_layout
sample_rfc3339_reads t u e = elim (Bool-cases (t == noon_instant)) [
  | inl first ↦ ground (arith, noon_is_rfc3339, first)
  | inr other ↦ elim (Bool-cases (t == after_noon_instant)) [
    | inl next ↦ ground (arith, after_noon_is_rfc3339, other, next)
    | inr neither ↦ absurd (ground (arith, other_is_refused, other, neither))
  ]
]

pub sample_times : TimeLaws sample_host
sample_times = record {
  layout_reads = λ t u whole e. sample_layout_reads t u e;
  rfc3339_reads = λ t u whole e. sample_rfc3339_reads t u e;
}

pub sample_jsons : JsonLaws sample_host
sample_jsons = record { decode_marshal = λ v input raw e f. e }

abbrev pub evidence_file : Option File
evidence_file = some (record { content = yielding (bytes "{...}"); closes = true })

abbrev pub answers : Answers
answers = record {
  stdout_accepts = true;
  creates = true;
  temporary = bytes ".out.json.tmp-1";
  writes = true;
  closes = true;
  renames = true;
  removes = true;
  partial = [];
}

abbrev pub refusing : Answers
refusing = record answers { renames = false }

abbrev pub empty_world : World
empty_world = record { files = λ _. none; stdout = [] }

abbrev pub target : Bytes
target = bytes "out.json"
