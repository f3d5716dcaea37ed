-- ===== src/Evidence/Presence.antt =====
-- `validateRequiredEvidenceMembers` of internal/evidence/deployment.go: a walk of the decoded
-- document along the embedded schema, which is a decoded document too. The walk follows
-- references, so it runs on fuel; Enough shows how much is enough.
pub mod Enough
pub mod Complete
pub mod Conforms
use agent_governance_evidenc.Base.{
  ℕ, zero, suc, ◌+◌, Bool, true, false, not, ◌&&◌, ◌||◌, List, [], ◌∷◌, ◌++◌, Option, none, some,
  Bytes, bytes, equal, has_prefix, trim_prefix, ◌⊎◌, inl, inr, if◌then◌else◌,
}
use mathlib.Core.List.{reverse}
use agent_governance_evidenc.Evidence.Json.{
  Json, null, bool, number, string, array, object, Items, nil, cons, Members, end, member, find,
}

pub data Reason : Type 0 where
  null_value not_object not_array : Reason
  non_string_required invalid_child_schema items_missing : Reason
  properties_missing predicate_missing : Reason
  missing_member unsupported_reference unresolved_reference : Bytes → Reason

-- What the walk returns: no error, an error at a path, or no answer for want of fuel.
pub data Walk : Type 0 where
  passed : Walk
  failed : Bytes → Reason → Walk
  out_of_fuel : Walk

infixl 5 ◌>>◌
abbrev pub ◌>>◌ : Walk → Walk → Walk
passed >> k = k
failed path why >> k = failed path why
out_of_fuel >> k = out_of_fuel

-- `strings.HasSuffix`.
unfoldable pub has_suffix : Bytes → Bytes → Bool
has_suffix suffix s = has_prefix (reverse suffix) (reverse s)

-- `deferredEvidenceMember`: the one member that the signing helper adds later.
unfoldable pub deferred : Bytes → Bytes → Bool
unfolding has_suffix
deferred path name = equal name (bytes "statementDigest") && has_suffix (bytes ".testResult") path

-- Type assertions: `schema[key].(string)`, `.(map[string]interface{})`, `.([]interface{})`.
abbrev pub string_of : Option Json → Option Bytes
string_of (some (string s)) = some s
string_of _ = none

abbrev pub object_of : Option Json → Option Members
object_of (some (object ms)) = some ms
object_of _ = none

-- A failed assertion to a slice or a map leaves nil, over which a loop does nothing.
abbrev pub items_or_nil : Option Json → Items
items_or_nil (some (array vs)) = vs
items_or_nil _ = nil

abbrev pub members_or_nil : Option Json → Members
members_or_nil (some (object ms)) = ms
members_or_nil _ = end

abbrev pub is_null : Json → Bool
is_null null = true
is_null _ = false

abbrev pub dotted : Bytes → Bytes → Bytes
dotted path name = path ++ b'.' ∷ name

-- The loop over `required`.
unfoldable pub check_required : Bytes → Members → Items → Walk
unfolding deferred
check_required path given nil = passed
check_required path given (cons (string name) names) = elim (find name given) [
  | some _ ↦ check_required path given names
  | none ↦
      if deferred path name
      then check_required path given names
      else failed path (missing_member name)
]
check_required path given (cons _ names) = failed path non_string_required

-- The loops over `properties` and over an array take the recursive call as an argument. The order
-- of `properties` is that of the list; another order can only change which error is returned.
unfoldable pub check_properties : (Json → Members → Bytes → Walk) → Bytes → Members → Members → Walk
check_properties walk path given end = passed
check_properties walk path given (member name child_schema rest) = elim (find name given) [
  | none ↦ check_properties walk path given rest
  | some child ↦ elim (object_of (some child_schema)) [
    | none ↦ failed (dotted path name) invalid_child_schema
    | some schema ↦ walk child schema (dotted path name) >> check_properties walk path given rest
  ]
]

-- A reference into the definitions.
unfoldable pub resolve : Members → Bytes → Reason ⊎ Members
resolve definitions ref = elim (trim_prefix (bytes "#/definitions/") ref) [
  | none ↦ inl (unsupported_reference ref)
  | some name ↦ elim (object_of (find name definitions)) [
    | none ↦ inl (unresolved_reference ref)
    | some schema ↦ inr schema
  ]
]

module _ (decimal : ℕ → Bytes) where
  abbrev pub indexed : Bytes → ℕ → Bytes
  indexed path i = path ++ b'[' ∷ (decimal i ++ b']' ∷ [])

  unfoldable pub check_items : (Json → Members → Bytes → Walk) → Bytes → Members → ℕ → Items → Walk
  check_items walk path schema i nil = passed
  check_items walk path schema i (cons v vs) =
      walk v schema (indexed path i) >> check_items walk path schema (suc i) vs

  -- The switch on `schema["type"]`, on the value.
  unfoldable pub check_object : (Json → Members → Bytes → Walk) → Json → Members → Bytes → Walk
  unfolding check_required check_properties
  check_object walk (object given) schema path =
      check_required path given (items_or_nil (find (bytes "required") schema))
      >> check_properties walk path given (members_or_nil (find (bytes "properties") schema))
  check_object walk v schema path = failed path not_object

  unfoldable pub check_array : (Json → Members → Bytes → Walk) → Json → Members → Bytes → Walk
  unfolding check_items
  check_array walk (array vs) schema path = elim (object_of (find (bytes "items") schema)) [
    | none ↦ failed path items_missing
    | some item_schema ↦ check_items walk path item_schema 0 vs
  ]
  check_array walk v schema path = failed path not_array

  unfoldable pub check_type :
      (Json → Members → Bytes → Walk) → Option Bytes → Json → Members → Bytes → Walk
  unfolding check_object check_array
  check_type walk none v schema path = passed
  check_type walk (some type) v schema path =
      if equal type (bytes "object")
      then check_object walk v schema path
      else if equal type (bytes "array")
      then check_array walk v schema path
      else passed

  unfoldable pub walk : ℕ → Members → Json → Members → Bytes → Walk
  unfolding check_type resolve
  walk zero definitions v schema path = out_of_fuel
  walk (suc fuel) definitions v schema path =
      if is_null v then failed path null_value else elim (string_of (find (bytes "$ref") schema)) [
        | some ref ↦ elim (resolve definitions ref) [
          | inl why ↦ failed path why
          | inr resolved ↦ walk fuel definitions v resolved path
        ]
        | none ↦
            check_type (walk fuel definitions) (string_of (find (bytes "type") schema)) v schema
              path
      ]

  -- `validateAgentGovernanceEvidencePresence` on the decoded document and the decoded schema.
  unfoldable pub validate_presence : ℕ → Json → Json → Walk
  validate_presence fuel schema_json v =
      let schema = members_or_nil (some schema_json) in
      elim (object_of (find (bytes "properties") schema)) [
        | none ↦ failed [] properties_missing
        | some properties ↦ elim (object_of (find (bytes "predicate") properties)) [
          | none ↦ failed [] predicate_missing
          | some predicate ↦
              walk fuel (members_or_nil (find (bytes "definitions") schema)) v predicate
                (bytes "evidence")
        ]
      ]
