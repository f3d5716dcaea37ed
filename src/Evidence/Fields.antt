-- ===== src/Evidence/Fields.antt =====
-- The field checks of internal/evidence/deployment.go. An error keeps its label and the text of
-- its format; the numbers and names that are formatted into the text are left out.
pub mod Runes
pub mod Uri
pub mod Laws
use agent_governance_evidenc.Base.{
  ℕ, suc, Bool, true, false, not, ◌&&◌, ◌||◌, List, [], ◌∷◌, Option, none, some, Bytes, equal,
  bytes, if◌then◌else◌, ltb, leb, ◌==◌, Label, here, below, at, Result, ok, err, ◌>>=◌, ◌>>◌, guard,
  some_or, contains, length, to_lower,
}
use agent_governance_evidenc.Evidence.{ArtifactReference, RedactedReference}
use agent_governance_evidenc.Evidence.Fields.Runes.{has_control}
use agent_governance_evidenc.Evidence.Host.{Host, Url}
use agent_governance_evidenc.Evidence.Pattern.{digest_re, id_re, redacted_id_re, is_hex}

abbrev pub Check : Type 0
Check = Result (Unit {0})

unfoldable pub validate_bounded_text : Label → Bytes → ℕ → Check
validate_bounded_text label value max = do
  guard (not (equal value [])) (at label "required")
  guard (leb (length value) max) (at label "exceeds the byte bound")
  guard (not (has_control value)) (at label "control characters are not allowed")

-- The loop over the percent signs of `validateAbsoluteURI`; `is_hex` is `isHexByte`.
unfoldable pub percent_encoded : Bytes → Bool
percent_encoded [] = true
percent_encoded (c ∷ []) = not (c == b'%')
percent_encoded (c ∷ d ∷ []) = not (c == b'%') && not (d == b'%')
percent_encoded (c ∷ d ∷ e ∷ s) = elim (c == b'%') [
  | true ↦ is_hex d && is_hex e && percent_encoded s
  | false ↦ percent_encoded (d ∷ e ∷ s)
]

-- `schemes` is nil where every scheme is allowed.
unfoldable pub scheme_allowed : Option (List Bytes) → Bytes → Bool
scheme_allowed none scheme = true
scheme_allowed (some schemes) scheme = contains schemes scheme

-- An https or oci URI without an authority is refused.
unfoldable pub has_authority : Url → Bool
has_authority u =
    not ((equal u.scheme (bytes "https") || equal u.scheme (bytes "oci")) && equal u.host [])

unfoldable pub validate_canonical_digest : Label → Bytes → Check
validate_canonical_digest label value =
    guard (digest_re value) (at label "must match ^sha256:[0-9a-f]{64}$")

unfoldable pub validate_id : Label → Bytes → Check
validate_id label value = guard (id_re value) (at label "must match ^[a-z0-9][a-z0-9._:/-]{0,127}$")

unfoldable pub validate_redacted_reference : Label → RedactedReference → Check
validate_redacted_reference label ref = do
  guard (redacted_id_re ref.id)
      (at (below label ".id") "must match ^redacted:[A-Za-z0-9._~-]{1,112}$")
  validate_canonical_digest (below label ".digest") ref.digest

-- The bytes before the first colon, if there is one: `ref.URI[:strings.IndexByte(ref.URI, ':')]`.
unfoldable pub before_colon : Bytes → Option Bytes
before_colon [] = none
before_colon (c ∷ s) =
    if c == b':' then some [] else elim (before_colon s) [ none ↦ none | some p ↦ some (c ∷ p) ]

unfoldable pub has_lower_scheme : Bytes → Bool
unfolding before_colon
has_lower_scheme uri = elim (before_colon uri) [
  | none ↦ false
  | some scheme ↦ equal scheme (to_lower scheme)
]

abbrev pub artifact_schemes : List Bytes
artifact_schemes = bytes "https" ∷ bytes "oci" ∷ bytes "urn" ∷ []

module _ (h : Host) where
  unfoldable pub validate_absolute_uri : Label → Bytes → Option (List Bytes) → Check
  validate_absolute_uri label value schemes = do
    validate_bounded_text label value 2048
    guard (percent_encoded value) (at label "contains invalid URI percent-encoding")
    parsed ← some_or (h.parse_url value) (at label "must be an absolute URI")
    guard (not (equal parsed.scheme [])) (at label "must be an absolute URI")
    guard (has_authority parsed) (at label "URI scheme requires an authority")
    guard (scheme_allowed schemes parsed.scheme) (at label "URI scheme must be one of the allowed")

  unfoldable pub validate_artifact_reference : Label → ArtifactReference → Check
  validate_artifact_reference label ref = do
    validate_absolute_uri (below label ".uri") ref.uri (some artifact_schemes)
    guard (has_lower_scheme ref.uri)
        (at (below label ".uri") "artifact URI scheme must be lowercase")
    validate_canonical_digest (below label ".digest") ref.digest

  -- `validateObservedAt`: a canonical timestamp in the case interval.
  unfoldable pub validate_observed_at : Label → Bytes → ℕ → ℕ → Check
  validate_observed_at label value started completed = do
    guard (not (equal value [])) (at label "required for this state")
    seen ← some_or (h.parse_layout value) (at label "must be canonical UTC seconds")
    guard (not (ltb seen started || ltb completed seen))
        (at label "must be within the case interval")
