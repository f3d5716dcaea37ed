-- ===== src/Evidence/Host.antt =====
-- What the evidence package calls and does not implement: `time`, `net/url`, `encoding/json` and
-- the schema validator. An instant is a number of nanoseconds since a moment before every
-- timestamp that RFC 3339 can write.
use agent_governance_evidenc.Base.{ℕ, ◌%◌, Bool, Option, some, ◌≡◌, Bytes}
use agent_governance_evidenc.Evidence.{Deployment, second}
use agent_governance_evidenc.Evidence.Json.{Json}

-- A parsed URL, as far as the code reads it: `IsAbs` is a scheme that is not empty.
pub record Url : Type 0 where
  pub scheme : Bytes
  pub host : Bytes

pub record Host : Type 0 where
  -- `time.Parse(time.RFC3339, s)` and `time.Parse(agentGovernanceTimestampLayout, s)`.
  pub parse_rfc3339 : Bytes → Option ℕ
  pub parse_layout : Bytes → Option ℕ
  -- `t.UTC().Format(agentGovernanceTimestampLayout)`.
  pub format_layout : ℕ → Bytes
  -- `url.Parse`.
  pub parse_url : Bytes → Option Url
  -- `json.Decoder.Decode` with `UseNumber` into an `interface{}`, and `json.Marshal` of the result.
  pub decode_json : Bytes → Option Json
  pub marshal_json : Json → Option Bytes
  -- `json.Unmarshal` of a whole document into an `interface{}`.
  pub unmarshal_json : Bytes → Option Json
  -- The embedded schema, decoded, and `%d` of an index.
  pub schema_document : Json
  pub decimal : ℕ → Bytes
  -- `Decode` into the typed body with `DisallowUnknownFields`, and whether `io.EOF` is next.
  pub decode_deployment : Bytes → Option (Deployment × Bool)
  -- `json.MarshalIndent(d, "", "  ")`.
  pub marshal_deployment : Deployment → Option Bytes
  -- `ValidateAgentGovernanceDeployment`: the embedded schema, by `gojsonschema`.
  pub schema_accepts : Bytes → Bool

-- A whole second that `Format` writes in a form which the layout reads is read back as that
-- instant, by the layout and as RFC 3339. (Years outside 0 to 9999 are written in other forms.)
pub record TimeLaws (h : Host) : Type 0 where
  pub layout_reads :
      (t u : ℕ) → t % second ≡ 0 → h.parse_layout (h.format_layout t) ≡ some u → u ≡ t
  pub rfc3339_reads :
      (t u : ℕ)
      → t % second ≡ 0
      → h.parse_layout (h.format_layout t) ≡ some u
      → h.parse_rfc3339 (h.format_layout t) ≡ some t

-- A decoded value is written in a form that decodes to the same value.
pub record JsonLaws (h : Host) : Type 0 where
  pub decode_marshal :
      (v : Json) (input raw : Bytes)
      → h.decode_json input ≡ some v
      → h.marshal_json v ≡ some raw
      → h.decode_json raw ≡ some v
