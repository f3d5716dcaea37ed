-- ===== src/Evidence/Pattern.antt =====
-- The four regular expressions of internal/evidence/deployment.go, each a literal prefix and a
-- bounded run of a byte class up to the end of the text.
pub mod Laws
use agent_governance_evidenc.Base.{
  ℕ, Bool, true, false, ◌&&◌, ◌||◌, some, none, [], ◌∷◌, leb, ◌==◌, all, length, Bytes, bytes,
  trim_prefix,
}

abbrev within : ℕ → ℕ → ℕ → Bool
within lo hi c = leb lo c && leb c hi

pub is_digit : ℕ → Bool
is_digit c = within b'0' b'9' c

-- [0-9a-f]
unfoldable pub is_lower_hex : ℕ → Bool
unfolding is_digit
is_lower_hex c = is_digit c || within b'a' b'f' c

-- [0-9a-fA-F]
unfoldable pub is_hex : ℕ → Bool
unfolding is_digit
is_hex c = is_digit c || within b'a' b'f' c || within b'A' b'F' c

-- [a-z0-9]
unfoldable pub is_id_start : ℕ → Bool
unfolding is_digit
is_id_start c = within b'a' b'z' c || is_digit c

-- [a-z0-9._:/-]
unfoldable pub is_id_byte : ℕ → Bool
unfolding is_id_start
is_id_byte c = is_id_start c || c == b'.' || c == b'_' || c == b':' || c == b'/' || c == b'-'

-- [A-Za-z0-9._~-]
unfoldable pub is_redacted_byte : ℕ → Bool
unfolding is_id_start
is_redacted_byte c =
    within b'A' b'Z' c || is_id_start c || c == b'.' || c == b'_' || c == b'~' || c == b'-'

-- class{lo,hi}$
unfoldable pub is_run : (ℕ → Bool) → ℕ → ℕ → Bytes → Bool
is_run class lo hi s = all class s && leb lo (length s) && leb (length s) hi

-- ^literal class{lo,hi}$
unfoldable pub matches : Bytes → (ℕ → Bool) → ℕ → ℕ → Bytes → Bool
unfolding is_run trim_prefix
matches literal class lo hi s = elim (trim_prefix literal s) [
  | none ↦ false
  | some rest ↦ is_run class lo hi rest
]

abbrev pub sha256_prefix : Bytes
sha256_prefix = bytes "sha256:"

-- ^sha256:[0-9a-f]{64}$
unfoldable pub digest_re : Bytes → Bool
unfolding matches is_lower_hex bytes
digest_re s = matches sha256_prefix is_lower_hex 64 64 s

-- ^sha256:[0-9a-fA-F]{64}$
unfoldable pub loose_digest_re : Bytes → Bool
unfolding matches is_hex bytes
loose_digest_re s = matches sha256_prefix is_hex 64 64 s

-- ^[a-z0-9][a-z0-9._:/-]{0,127}$
unfoldable pub id_re : Bytes → Bool
unfolding is_run is_id_start is_id_byte
id_re [] = false
id_re (c ∷ s) = is_id_start c && is_run is_id_byte 0 127 s

-- ^redacted:[A-Za-z0-9._~-]{1,112}$
unfoldable pub redacted_id_re : Bytes → Bool
unfolding matches is_redacted_byte bytes
redacted_id_re s = matches (bytes "redacted:") is_redacted_byte 1 112 s
