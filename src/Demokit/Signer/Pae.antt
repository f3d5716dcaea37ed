-- ===== src/Demokit/Signer/Pae.antt =====
-- The pre-authentication encoding can be read in one way only.
use agent_governance_evidenc.Base.{◌≡◌, Bytes, bytes, refl, ◌∷◌, ◌++◌, length, arith}
use agent_governance_evidenc.Base.Decimal.{
  decimal, decimal-IsDigits, decimal_inj, digits_split, split_at_length,
}
use agent_governance_evidenc.Demokit.Signer.{dsse_pae}

-- Two types and payloads that are encoded alike are the same, so that a signature over the encoding
-- is a signature over one type and one payload.
pub dsse_pae_inj :
    (type type' payload payload' : Bytes)
    → dsse_pae type payload ≡ dsse_pae type' payload'
    → (type ≡ type') × (payload ≡ payload')
unfolding dsse_pae
dsse_pae_inj type type' payload payload' e =
    let (_, numbered) = split_at_length (bytes "DSSEv1 ") (bytes "DSSEv1 ") _ _ refl e in
    let (type_length, typed) =
      digits_split _ _ _ _ (decimal-IsDigits (length type)) (decimal-IsDigits (length type'))
        numbered in
    let (types, rest) =
      split_at_length type type' _ _ (decimal_inj (length type) (length type') type_length) typed in
    let spaced : decimal (length payload) ++ b' ' ∷ payload
        ≡ decimal (length payload') ++ b' ' ∷ payload' =
      ground arith in
    let (_, payloads) =
      digits_split _ _ _ _ (decimal-IsDigits (length payload)) (decimal-IsDigits (length payload'))
        spaced in
    (types, payloads)
