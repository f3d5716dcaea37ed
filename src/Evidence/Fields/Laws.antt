-- ===== src/Evidence/Fields/Laws.antt =====
-- What each field check accepts, said without the check.
use agent_governance_evidenc.Base.{
  ℕ, ◌≤◌, true, false, ◌≡◌, ◌≢◌, ◌↔◌, List, [], ◌∷◌, Option, some, Bytes, bytes, arith, equal_iff,
  All, length, Label, below, ok, Option-cases, inl, inr, ap,
}
use agent_governance_evidenc.Evidence.{ArtifactReference, RedactedReference}
use agent_governance_evidenc.Evidence.Digest.{IsDigest, digest_re_iff}
use agent_governance_evidenc.Evidence.Fields.{
  validate_bounded_text, validate_absolute_uri, validate_canonical_digest, validate_id,
  validate_redacted_reference, validate_artifact_reference, validate_observed_at, percent_encoded,
  has_authority, scheme_allowed, has_lower_scheme, artifact_schemes,
}
use agent_governance_evidenc.Evidence.Fields.Runes.{has_control}
use agent_governance_evidenc.Evidence.Fields.Uri.{
  IsEscaped, IsAllowed, HasHost, percent_encoded_iff, scheme_allowed_iff, has_authority_iff,
}
use agent_governance_evidenc.Evidence.Host.{Host, Url}
use agent_governance_evidenc.Evidence.Pattern.{
  id_re, redacted_id_re, is_id_start, is_id_byte, is_redacted_byte,
}
use agent_governance_evidenc.Evidence.Pattern.Laws.{
  Run, is_run_iff, matches_sound, matches_complete,
}

-- 1 to `max` bytes without a control character.
abbrev pub IsText : ℕ → Bytes → Type 0
IsText max s = (s ≢ []) × (length s ≤ max) × (has_control s ≡ false)

pub validate_bounded_text_iff :
    (l : Label) (s : Bytes) (max : ℕ) → (validate_bounded_text l s max ≡ ok tt) ↔ IsText max s
unfolding validate_bounded_text
validate_bounded_text_iff l s max = ground (arith, equal_iff s [])

-- A lowercase letter or digit, and at most 127 further bytes of the class.
abbrev pub IsId : Bytes → Type 0
IsId [] = ⊥
IsId (c ∷ s) = (is_id_start c ≡ true) × All (λ b. is_id_byte b ≡ true) s × (length s ≤ 127)

pub id_re_iff : (s : Bytes) → (id_re s ≡ true) ↔ IsId s
unfolding id_re
id_re_iff [] = (λ h. cc, λ h. absurd h)
id_re_iff (c ∷ s) = ground (arith, is_run_iff is_id_byte 0 127 s)

pub validate_id_iff : (l : Label) (s : Bytes) → (validate_id l s ≡ ok tt) ↔ IsId s
unfolding validate_id
validate_id_iff l s = ground (arith, id_re_iff s)

pub validate_canonical_digest_iff :
    (l : Label) (s : Bytes) → (validate_canonical_digest l s ≡ ok tt) ↔ IsDigest s
unfolding validate_canonical_digest
validate_canonical_digest_iff l s = ground (arith, digest_re_iff s)

-- `redacted:` with 1 to 112 bytes of the class, and a canonical digest.
pub record IsRedacted (r : RedactedReference) : Type 0 where
  pub id_form : Run (bytes "redacted:") (λ c. is_redacted_byte c) 1 112 r.id
  pub digest_form : IsDigest r.digest

redacted_id_re_iff :
    (s : Bytes)
    → (redacted_id_re s ≡ true) ↔ Run (bytes "redacted:") (λ c. is_redacted_byte c) 1 112 s
unfolding redacted_id_re
redacted_id_re_iff s = (matches_sound _ _ 1 112 s, matches_complete _ _ 1 112 s)

pub validate_redacted_reference_iff :
    (l : Label) (r : RedactedReference) → (validate_redacted_reference l r ≡ ok tt) ↔ IsRedacted r
unfolding validate_redacted_reference
validate_redacted_reference_iff l r =
    ground
      (arith, redacted_id_re_iff r.id, validate_canonical_digest_iff (below l ".digest") r.digest)

module _ (h : Host) where
  -- An absolute URI, in the schemes if there is a list of them.
  pub record IsUri (schemes : Option (List Bytes)) (s : Bytes) : Type 0 where
    pub text : IsText 2048 s
    pub escapes : IsEscaped s
    pub parsed : Url
    pub parses : h.parse_url s ≡ some parsed
    pub absolute : parsed.scheme ≢ []
    pub authority : HasHost parsed
    pub allowed : IsAllowed schemes parsed.scheme

  -- A URI is accepted exactly when it is a text of 1 to 2048 bytes without control characters in
  -- which two hex digits follow each percent sign, and it parses with a scheme, with a host where
  -- the scheme is https or oci, the scheme being in the list of schemes if there is one.
  pub validate_absolute_uri_iff :
      (l : Label) (s : Bytes) (schemes : Option (List Bytes))
      → (validate_absolute_uri h l s schemes ≡ ok tt) ↔ IsUri schemes s
  unfolding validate_absolute_uri
  validate_absolute_uri_iff l s schemes = elim (Option-cases (h.parse_url s)) [
    | inl refused ↦
        (λ e. absurd (ground (arith, refused)), λ u. absurd (ground (arith, refused, u.parses)))
    | inr (url, parses) ↦ (
      λ e.
          let facts : IsText 2048 s
              × (percent_encoded s ≡ true)
              × (url.scheme ≢ [])
              × (has_authority url ≡ true)
              × (scheme_allowed schemes url.scheme ≡ true) =
            ground (arith, parses, validate_bounded_text_iff l s 2048, equal_iff url.scheme []) in
          record {
            text = facts.0;
            escapes = (percent_encoded_iff s).0 facts.1;
            parsed = url;
            parses = parses;
            absolute = facts.2;
            authority = (has_authority_iff url).0 facts.3;
            allowed = (scheme_allowed_iff schemes url.scheme).0 facts.4;
          },
      λ u.
          let same : u.parsed ≡ url = ground (arith, parses, u.parses) in
          ground (
            arith,
            parses,
            same,
            validate_bounded_text_iff l s 2048,
            equal_iff url.scheme [],
            (percent_encoded_iff s).1 u.escapes,
            (has_authority_iff u.parsed).1 u.authority,
            (scheme_allowed_iff schemes u.parsed.scheme).1 u.allowed,
            ap has_authority same,
            ap (λ (v : Url). v.scheme) same,
          ),
    )
  ]

  -- An artifact's URI is absolute, with a scheme of the three in lower case; its digest is
  -- canonical.
  pub record IsArtifact (r : ArtifactReference) : Type 0 where
    pub uri_form : IsUri (some (bytes "https" ∷ bytes "oci" ∷ bytes "urn" ∷ [])) r.uri
    pub scheme_lower : has_lower_scheme r.uri ≡ true
    pub digest_form : IsDigest r.digest

  pub validate_artifact_reference_iff :
      (l : Label) (r : ArtifactReference)
      → (validate_artifact_reference h l r ≡ ok tt) ↔ IsArtifact r
  unfolding validate_artifact_reference
  validate_artifact_reference_iff l r = ground (
    arith,
    validate_absolute_uri_iff (below l ".uri") r.uri (some artifact_schemes),
    validate_canonical_digest_iff (below l ".digest") r.digest,
  )

  -- A timestamp in the layout, in the interval.
  pub record IsWithin (started completed : ℕ) (s : Bytes) : Type 0 where
    pub present : s ≢ []
    pub seen : ℕ
    pub parses : h.parse_layout s ≡ some seen
    pub not_before : started ≤ seen
    pub not_after : seen ≤ completed

  pub validate_observed_at_iff :
      (l : Label) (s : Bytes) (started completed : ℕ)
      → (validate_observed_at h l s started completed ≡ ok tt) ↔ IsWithin started completed s
  unfolding validate_observed_at
  validate_observed_at_iff l s started completed = elim (Option-cases (h.parse_layout s)) [
    | inl refused ↦
        (λ e. absurd (ground (arith, refused)), λ u. absurd (ground (arith, refused, u.parses)))
    | inr (seen, parses) ↦ (
      λ e.
          let facts : (s ≢ []) × (started ≤ seen) × (seen ≤ completed) =
            ground (arith, parses, equal_iff s []) in
          record {
            present = facts.0;
            seen = seen;
            parses = parses;
            not_before = facts.1;
            not_after = facts.2;
          },
      λ u.
          let same : u.seen ≡ seen = ground (arith, parses, u.parses) in
          ground (arith, parses, same, equal_iff s []),
    )
  ]
