-- ===== src/Evidence/Fields/Uri.antt =====
-- What the URI check asks of a URI's percent signs, host and scheme, said without the check.
use agent_governance_evidenc.Base.{
  true, ◌≡◌, ◌≢◌, ◌↔◌, ◌⊎◌, inl, inr, refl, List, [], ◌∷◌, Option, none, some, Bytes, bytes, arith,
  equal_iff, contains, ◌==◌, Bool-cases,
}
use agent_governance_evidenc.Evidence.Fields.{percent_encoded, has_authority, scheme_allowed}
use agent_governance_evidenc.Evidence.Host.{Url}
use agent_governance_evidenc.Evidence.Pattern.Laws.{IsHexDigit, is_hex_iff}

abbrev pub StartsWithHex : Bytes → Type 0
StartsWithHex (a ∷ b ∷ s) = IsHexDigit a × IsHexDigit b
StartsWithHex _ = ⊥

-- Two hex digits follow each percent sign.
abbrev pub IsEscaped : Bytes → Type 0
IsEscaped [] = Unit
IsEscaped (c ∷ s) = (c ≡ b'%' → StartsWithHex s) × IsEscaped s

pub percent_encoded_iff : (s : Bytes) → (percent_encoded s ≡ true) ↔ IsEscaped s
unfolding percent_encoded
percent_encoded_iff [] = (λ _. tt, λ _. refl)
percent_encoded_iff (c ∷ []) = ground arith
percent_encoded_iff (c ∷ d ∷ []) = ground arith
percent_encoded_iff (c ∷ d ∷ e ∷ s) = elim (Bool-cases (c == b'%')) [
  | inl percent ↦ ground (arith, percent, is_hex_iff d, is_hex_iff e, percent_encoded_iff s)
  | inr other ↦ ground (arith, other, percent_encoded_iff (d ∷ e ∷ s))
]

abbrev pub IsIn : List Bytes → Bytes → Type 0
IsIn [] s = ⊥
IsIn (x ∷ xs) s = (s ≡ x) ⊎ IsIn xs s

-- A scheme of the list, if there is one.
abbrev pub IsAllowed : Option (List Bytes) → Bytes → Type 0
IsAllowed none s = Unit
IsAllowed (some schemes) s = IsIn schemes s

contains-IsIn_iff : (xs : List Bytes) (s : Bytes) → (contains xs s ≡ true) ↔ IsIn xs s
unfolding contains
contains-IsIn_iff [] s = (λ h. cc, λ h. absurd h)
contains-IsIn_iff (x ∷ xs) s = ground (arith, equal_iff x s, contains-IsIn_iff xs s)

pub scheme_allowed_iff :
    (schemes : Option (List Bytes)) (s : Bytes)
    → (scheme_allowed schemes s ≡ true) ↔ IsAllowed schemes s
unfolding scheme_allowed
scheme_allowed_iff none s = (λ _. tt, λ _. refl)
scheme_allowed_iff (some schemes) s = contains-IsIn_iff schemes s

-- An https URI and an oci URI name a host.
abbrev pub HasHost : Url → Type 0
HasHost u = (u.scheme ≡ bytes "https" → u.host ≢ []) × (u.scheme ≡ bytes "oci" → u.host ≢ [])

pub has_authority_iff : (u : Url) → (has_authority u ≡ true) ↔ HasHost u
unfolding has_authority
has_authority_iff u = ground (
  arith,
  equal_iff u.scheme (bytes "https"),
  equal_iff u.scheme (bytes "oci"),
  equal_iff u.host [],
)
