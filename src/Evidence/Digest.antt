-- ===== src/Evidence/Digest.antt =====
-- `normalizeAgentGovernanceDigest`, and what the two digest patterns accept.
use agent_governance_evidenc.Base.{
  ℕ, true, ◌≡◌, refl, ◌↔◌, ◌++◌, [], ◌∷◌, arith, All, length, map, Bytes, bytes, if◌then◌else◌,
  Result, ok, err, plain, to_lower, lower_byte, sym, ◌∙◌, ap, suc, All-map, Bool-cases, inl, inr,
}
use mathlib.Core.List.{map-append}
use agent_governance_evidenc.Evidence.Pattern.{
  digest_re, loose_digest_re, sha256_prefix, is_lower_hex, is_hex,
}
use agent_governance_evidenc.Evidence.Pattern.Laws.{Run, matches_sound, matches_complete}

unfoldable pub normalize_digest : Bytes → Result Bytes
normalize_digest digest =
    if loose_digest_re digest
    then ok (to_lower digest)
    else err (plain "invalid digest: must match ^sha256:[0-9a-f]{64}$ (canonical lowercase sha256)")

-- The canonical form: `sha256:` and 64 lowercase hexadecimal digits.
abbrev pub IsDigest : Bytes → Type 0
IsDigest = Run sha256_prefix (λ c. is_lower_hex c) 64 64

-- The accepted form: the digits may be uppercase.
abbrev pub IsLooseDigest : Bytes → Type 0
IsLooseDigest = Run sha256_prefix (λ c. is_hex c) 64 64

pub digest_re_iff : (s : Bytes) → (digest_re s ≡ true) ↔ IsDigest s
unfolding digest_re
digest_re_iff s = (matches_sound _ _ 64 64 s, matches_complete _ _ 64 64 s)

pub loose_digest_re_iff : (s : Bytes) → (loose_digest_re s ≡ true) ↔ IsLooseDigest s
unfolding loose_digest_re
loose_digest_re_iff s = (matches_sound _ _ 64 64 s, matches_complete _ _ 64 64 s)

lower_byte-is_hex : (c : ℕ) → is_hex c ≡ true → is_lower_hex (lower_byte c) ≡ true
unfolding is_hex is_lower_hex lower_byte
lower_byte-is_hex c h = ground arith

lower_byte-is_lower_hex : (c : ℕ) → is_lower_hex c ≡ true → lower_byte c ≡ c
unfolding is_lower_hex lower_byte
lower_byte-is_lower_hex c h = ground arith

is_hex-is_lower_hex : (c : ℕ) → is_lower_hex c ≡ true → is_hex c ≡ true
unfolding is_hex is_lower_hex
is_hex-is_lower_hex c h = ground arith

All-to_lower :
    (s : Bytes) → All (λ c. is_hex c ≡ true) s → All (λ c. is_lower_hex c ≡ true) (map lower_byte s)
All-to_lower [] h = tt
All-to_lower (c ∷ s) (p, h) = (lower_byte-is_hex c p, All-to_lower s h)

map-lower_byte_fixed : (s : Bytes) → All (λ c. is_lower_hex c ≡ true) s → map lower_byte s ≡ s
map-lower_byte_fixed [] h = refl
map-lower_byte_fixed (c ∷ s) (p, h) = cc (lower_byte-is_lower_hex c p, map-lower_byte_fixed s h)

length-lower : (s : Bytes) → length (map lower_byte s) ≡ length s
length-lower [] = refl
length-lower (c ∷ s) = ap suc (length-lower s)

prefix_is_lower : map lower_byte sha256_prefix ≡ sha256_prefix
unfolding lower_byte bytes
prefix_is_lower = refl

to_lower-prefix : (s : Bytes) → to_lower (sha256_prefix ++ s) ≡ sha256_prefix ++ map lower_byte s
unfolding to_lower
to_lower-prefix s =
    map-append lower_byte sha256_prefix s ∙ ap (λ p. p ++ map lower_byte s) prefix_is_lower

to_lower-IsDigest : (s : Bytes) → IsLooseDigest s → IsDigest (to_lower s)
to_lower-IsDigest s r = record {
  rest = map lower_byte r.rest;
  splits = ap to_lower r.splits ∙ to_lower-prefix r.rest;
  in_class = All-to_lower r.rest r.in_class;
  long = omega (arith, length-lower r.rest, r.long);
  short = omega (arith, length-lower r.rest, r.short);
}

pub to_lower_of_IsDigest : (s : Bytes) → IsDigest s → to_lower s ≡ s
to_lower_of_IsDigest s r =
    ap to_lower r.splits
    ∙ to_lower-prefix r.rest
    ∙ ap (λ t. sha256_prefix ++ t) (map-lower_byte_fixed r.rest r.in_class)
    ∙ sym r.splits

IsLooseDigest-of_IsDigest : (s : Bytes) → IsDigest s → IsLooseDigest s
IsLooseDigest-of_IsDigest s r = record {
  rest = r.rest;
  splits = r.splits;
  in_class = All-map is_hex-is_lower_hex r.rest r.in_class;
  long = r.long;
  short = r.short;
}

-- A normalised digest is canonical.
pub normalize_digest-IsDigest : (s t : Bytes) → normalize_digest s ≡ ok t → IsDigest t
unfolding normalize_digest
normalize_digest-IsDigest s t h = elim (Bool-cases (loose_digest_re s)) [
  | inl fits ↦
      let same : to_lower s ≡ t = ground arith in
      rw (← same) (to_lower-IsDigest s ((loose_digest_re_iff s).0 fits))
  | inr other ↦ absurd (ground arith)
]

-- A canonical digest is accepted and left as it is.
pub normalize_digest_of_IsDigest : (s : Bytes) → IsDigest s → normalize_digest s ≡ ok s
unfolding normalize_digest
normalize_digest_of_IsDigest s r =
    rw ((loose_digest_re_iff s).1 (IsLooseDigest-of_IsDigest s r), to_lower_of_IsDigest s r)

-- Exactly the digests with digits of either case are accepted, and the result is the text in
-- lower case.
pub normalize_digest_iff :
    (s t : Bytes) → (normalize_digest s ≡ ok t) ↔ (IsLooseDigest s × (t ≡ to_lower s))
unfolding normalize_digest
normalize_digest_iff s t = elim (Bool-cases (loose_digest_re s)) [
  | inl fits ↦
      rw (fits, if◌then◌else◌)
        (λ h. ((loose_digest_re_iff s).0 fits, ground arith), λ (_, e). ground arith)
  | inr other ↦
      rw (other, if◌then◌else◌)
        (λ h. absurd (ground arith), λ (r, _). absurd (ground (arith, (loose_digest_re_iff s).1 r)))
]
