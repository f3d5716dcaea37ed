-- ===== src/Evidence/Extensions.antt =====
-- `validateExtensions` and `validateExtensionDepth` of internal/evidence/deployment.go.
pub mod Laws
use agent_governance_evidenc.Base.{
  ℕ, suc, ◌+◌, Bool, List, [], ◌∷◌, Bytes, here, plain, Result, ok, ◌>>=◌, ◌>>◌, guard, some_or,
  leb, length, none,
}
use agent_governance_evidenc.Base.Order.{less}
use agent_governance_evidenc.Base.Sort.{sort}
use agent_governance_evidenc.Evidence.Fields.{Check, validate_absolute_uri}
use agent_governance_evidenc.Evidence.Host.{Host}
use agent_governance_evidenc.Evidence.Json.{
  Json, null, bool, number, string, array, object, Items, nil, cons, Members, end, member,
  items_length, members_length,
}

-- The children of an object are visited in an unspecified order, which can only change which of
-- two errors is returned; here it is the order of the list.
unfoldable mutual
  pub validate_depth : Json → ℕ → Check
  validate_depth (object ms) depth =
      guard (leb depth 4) (plain "extensions: nesting depth exceeds 4")
      >> guard (leb (members_length ms) 16) (plain "extensions: object exceeds 16 members")
      >> validate_members ms (suc depth)
  validate_depth (array vs) depth =
      guard (leb depth 4) (plain "extensions: nesting depth exceeds 4")
      >> guard (leb (items_length vs) 16) (plain "extensions: array exceeds 16 items")
      >> validate_items vs (suc depth)
  validate_depth null depth = ok tt
  validate_depth (bool b) depth = ok tt
  validate_depth (number n) depth = ok tt
  validate_depth (string s) depth = ok tt

  pub validate_items : Items → ℕ → Check
  validate_items nil depth = ok tt
  validate_items (cons v vs) depth = validate_depth v depth >> validate_items vs depth

  pub validate_members : Members → ℕ → Check
  validate_members end depth = ok tt
  validate_members (member k v ms) depth = validate_depth v depth >> validate_members ms depth

abbrev pub key_less : Bytes × Bytes → Bytes × Bytes → Bool
key_less a b = less a.0 b.0

module _ (h : Host) where
  -- One round of the loop over the sorted keys.
  unfoldable pub validate_value : Bytes × Bytes → Check
  validate_value (key, value) = do
    guard (leb (length key) 256) (plain "extensions: key exceeds 256 bytes")
    validate_absolute_uri h (here "extensions key") key none
    guard (leb (length value) 4096) (plain "extensions: value exceeds 4096 canonical JSON bytes")
    v ← some_or (h.decode_json value) (plain "extensions: invalid JSON value")
    validate_depth v 1

  -- The loop, which returns the total of the sizes.
  unfoldable pub validate_values : ℕ → List (Bytes × Bytes) → Result ℕ
  validate_values total [] = ok total
  validate_values total (e ∷ es) = do validate_value e; validate_values (total + length e.1) es

  -- With no extensions the loop does nothing, which is the code's early return.
  unfoldable pub validate_extensions : List (Bytes × Bytes) → Check
  validate_extensions [] = ok tt
  validate_extensions (e ∷ es) = do
    guard (leb (length (e ∷ es)) 8) (plain "extensions: at most 8 keys are allowed")
    total ← validate_values 0 (sort key_less (e ∷ es))
    guard (leb total 16384) (plain "extensions: total value size exceeds 16384 bytes")
