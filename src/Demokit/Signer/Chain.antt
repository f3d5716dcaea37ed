-- ===== src/Demokit/Signer/Chain.antt =====
-- What the cryptography is relied on for, and what is shown of a signer and of a bundle: the checks of
-- signatures, certificates, their purposes and periods, and timestamps.
use mathlib.Core.List.{Mem}
use agent_governance_evidenc.Base.{
  ℕ, ◌+◌, ◌-◌, ◌*◌, ◌%◌, ◌≤◌, ◌≡◌, ◌≢◌, ◌↔◌, Bool, true, false, List, [], ◌∷◌, Option, some, Bytes,
  All,
}
use agent_governance_evidenc.Evidence.{second}
use agent_governance_evidenc.Demokit.Signer.Data.{
  Oid, KeyUsage, Extension, Crypto, Template, Certificate, Signer, Request, Timestamp, Bundle,
  oidc_issuer_v2_oid, eku_oid, eku_timestamping_oid, cert_sign, digital_signature, code_signing,
  time_stamping,
}
use agent_governance_evidenc.Demokit.Signer.{dsse_pae, payload_type}

abbrev pub subject_alt_name_oid : Oid
subject_alt_name_oid = 2 ∷ 5 ∷ 29 ∷ 17 ∷ []

abbrev pub basic_constraints_oid : Oid
basic_constraints_oid = 2 ∷ 5 ∷ 29 ∷ 19 ∷ []

abbrev pub key_usage_oid : Oid
key_usage_oid = 2 ∷ 5 ∷ 29 ∷ 15 ∷ []

abbrev pub Lacks : Oid → List Extension → Type 0
Lacks oid es = All (λ (e : Extension). e.id ≢ oid) es

-- The whole seconds of an instant.
unfoldable pub whole : ℕ → ℕ
whole t = t - t % second

-- The certificate is valid at a time.
abbrev pub IsCurrent : Certificate → ℕ → Type 0
IsCurrent x time = (x.fields.not_before ≤ time) × (time ≤ x.fields.not_after)

-- The certificate is valid from one instant to another, to the second.
abbrev pub IsFor : ℕ → ℕ → Certificate → Type 0
IsFor start stop x = (x.fields.not_before ≡ whole start) × (x.fields.not_after ≡ whole stop)

-- A certificate that may sign certificates.
pub record IsAuthority (x : Certificate) : Type 0 where
  pub ca : x.fields.is_ca ≡ true
  pub constraints : x.fields.basic_constraints_valid ≡ true
  pub usage : Mem cert_sign x.fields.key_usage

-- Verification: a signature over a digest, a certificate's signature, and a timestamp's signature
-- over a message, each by a public key; and the time that a timestamp names.
pub record Checks : Type 0 where
  pub verify : Bytes → Bytes → Bytes → Bool
  pub signed_by : Bytes → Certificate → Bool
  pub covers : Bytes → Bytes → Bytes → Bool
  pub time_of : Bytes → Option ℕ

module _ {S : Type 0} (c : Crypto S) (v : Checks) where
  -- A certificate that was made of a template for a public key, with a parent's key, and parsed. The
  -- constraints are written only where they are valid, an extra extension takes the place of the one
  -- that its id names, and times are written to the second.
  pub record IsIssued (t : Template) (pub_key key : Bytes) (x : Certificate) : Type 0 where
    pub name_kept : x.fields.common_name ≡ t.common_name
    pub emails_kept :
        Lacks subject_alt_name_oid t.extra_extensions → x.fields.email_addresses ≡ t.email_addresses
    pub ca_kept :
        Lacks basic_constraints_oid t.extra_extensions
        → t.basic_constraints_valid ≡ true
        → (x.fields.is_ca ≡ t.is_ca) × (x.fields.basic_constraints_valid ≡ true)
    pub no_ca :
        Lacks basic_constraints_oid t.extra_extensions
        → t.basic_constraints_valid ≡ false
        → x.fields.is_ca ≡ false
    pub usage_kept :
        Lacks key_usage_oid t.extra_extensions
        → (u : KeyUsage) → Mem u t.key_usage ↔ Mem u x.fields.key_usage
    pub purpose_kept : Lacks eku_oid t.extra_extensions → x.fields.ext_key_usage ≡ t.ext_key_usage
    pub purpose_read :
        (critical : Bool) (value : Bytes)
        → c.marshal_oids (eku_timestamping_oid ∷ []) ≡ some value
        → t.extra_extensions ≡ record { id = eku_oid; critical = critical; value = value } ∷ []
        → x.fields.ext_key_usage ≡ time_stamping ∷ []
    pub start_kept : x.fields.not_before ≡ whole t.not_before
    pub stop_kept : x.fields.not_after ≡ whole t.not_after
    pub extensions_kept : All (λ e. Mem e x.extensions) t.extra_extensions
    pub subject_key : x.public_key ≡ pub_key
    pub parsed : c.parse_certificate x.raw ≡ some x
    pub signed : v.signed_by (c.public_of key) x ≡ true

  -- What signs is verified by the key's public half; a request names the hash of its message; a
  -- response by the key of a certificate covers what it is given and names its time to the second;
  -- and what the clock reads from first to last lies within five minutes.
  pub record CryptoLaws : Type 0 where
    pub issues :
        (t parent : Template) (pub_key key der : Bytes) (s s' : S) (x : Certificate)
        → c.create_certificate t parent pub_key key s ≡ some (der, s')
        → c.parse_certificate der ≡ some x
        → IsIssued t pub_key key x
    pub signs :
        (key digest sig : Bytes) (s s' : S)
        → c.sign_asn1 key digest s ≡ some (sig, s')
        → v.verify (c.public_of key) digest sig ≡ true
    pub requests :
        (message query : Bytes) (r : Request)
        → c.create_request message ≡ some query
        → c.parse_request query ≡ some r
        → r.hashed_message ≡ c.sha256 message
    pub responds :
        (t : Timestamp) (leaf : Certificate) (key tsr : Bytes) (s s' : S)
        → leaf.public_key ≡ c.public_of key
        → c.create_response t leaf key s ≡ some (tsr, s')
        → (v.covers leaf.public_key tsr t.hashed_message ≡ true)
          × (v.time_of tsr ≡ some (whole t.time))
    pub begin : ℕ
    pub steady : (s : S) → (begin ≤ (c.now s).0) × ((c.now s).0 ≤ begin + 300 * second)

  -- The certificate authority: the root signs itself and both intermediates, the timestamping
  -- intermediate signs its leaf, and the signer holds the keys of the certificates it signs with.
  -- The three authorities may sign certificates, each intermediate serves one purpose, the leaf
  -- serves timestamps alone, and all are valid from an hour before to a day after what the clock
  -- read.
  pub record IsHierarchy (g : Signer) : Type 0 where
    pub root_signs_itself : v.signed_by g.root_cert.public_key g.root_cert ≡ true
    pub root_authority : IsAuthority g.root_cert
    pub fulcio_signed : v.signed_by g.root_cert.public_key g.fulcio_intermediate ≡ true
    pub fulcio_authority : IsAuthority g.fulcio_intermediate
    pub fulcio_purpose : g.fulcio_intermediate.fields.ext_key_usage ≡ code_signing ∷ []
    pub fulcio_key : g.fulcio_intermediate.public_key ≡ c.public_of g.fulcio_intermediate_key
    pub tsa_signed : v.signed_by g.root_cert.public_key g.tsa_intermediate ≡ true
    pub tsa_authority : IsAuthority g.tsa_intermediate
    pub tsa_purpose : g.tsa_intermediate.fields.ext_key_usage ≡ time_stamping ∷ []
    pub leaf_signed : v.signed_by g.tsa_intermediate.public_key g.tsa_leaf ≡ true
    pub leaf_key : g.tsa_leaf.public_key ≡ c.public_of g.tsa_leaf_key
    pub leaf_is_no_ca : g.tsa_leaf.fields.is_ca ≡ false
    pub leaf_usage : Mem digital_signature g.tsa_leaf.fields.key_usage
    pub leaf_purpose : g.tsa_leaf.fields.ext_key_usage ≡ time_stamping ∷ []
    pub purpose : Bytes
    pub purpose_is : c.marshal_oids (eku_timestamping_oid ∷ []) ≡ some purpose
    pub purpose_held :
        Mem (record { id = eku_oid; critical = true; value = purpose }) g.tsa_leaf.extensions
    pub before : S
    pub after : S
    pub start_is : g.validity_start ≡ (c.now before).0 - 3600 * second
    pub stop_is : g.validity_end ≡ (c.now after).0 + 86400 * second
    pub root_period : IsFor g.validity_start g.validity_end g.root_cert
    pub fulcio_period : IsFor g.validity_start g.validity_end g.fulcio_intermediate
    pub tsa_period : IsFor g.validity_start g.validity_end g.tsa_intermediate
    pub leaf_period : IsFor g.validity_start g.validity_end g.tsa_leaf

  -- A bundle whose certificates lead from the signer's root to the identity and the issuer, whose
  -- signature is over the statement, and whose timestamp is over the signature. The signing
  -- certificate is one for signing code, and at the time that the timestamp names it, the
  -- authorities above it and the timestamping certificates are valid.
  pub record IsVerified (g : Signer) (statement json : Bytes) : Type 0 where
    pub bundle : Bundle
    pub leaf : Certificate
    pub sig : Bytes
    pub tsr : Bytes
    pub encoded : c.marshal_bundle bundle ≡ some json
    pub payload_is : bundle.payload ≡ statement
    pub payload_type_is : bundle.payload_type ≡ payload_type
    pub certificates_are :
        bundle.certificates ≡ leaf.raw ∷ g.fulcio_intermediate.raw ∷ g.root_cert.raw ∷ []
    pub signatures_are : bundle.signatures ≡ sig ∷ []
    pub timestamps_are : bundle.signed_timestamps ≡ tsr ∷ []
    pub leaf_parses : c.parse_certificate leaf.raw ≡ some leaf
    pub leaf_signed : v.signed_by g.fulcio_intermediate.public_key leaf ≡ true
    pub fulcio_signed : v.signed_by g.root_cert.public_key g.fulcio_intermediate ≡ true
    pub fulcio_authority : IsAuthority g.fulcio_intermediate
    pub fulcio_purpose : g.fulcio_intermediate.fields.ext_key_usage ≡ code_signing ∷ []
    pub root_authority : IsAuthority g.root_cert
    pub leaf_is_no_ca : leaf.fields.is_ca ≡ false
    pub leaf_usage : Mem digital_signature leaf.fields.key_usage
    pub leaf_purpose : leaf.fields.ext_key_usage ≡ code_signing ∷ []
    pub stamper_usage : Mem digital_signature g.tsa_leaf.fields.key_usage
    pub stamper_purpose : g.tsa_leaf.fields.ext_key_usage ≡ time_stamping ∷ []
    pub stamper_signed : v.signed_by g.tsa_intermediate.public_key g.tsa_leaf ≡ true
    pub time : ℕ
    pub time_is : v.time_of tsr ≡ some time
    pub leaf_current : IsCurrent leaf time
    pub fulcio_current : IsCurrent g.fulcio_intermediate time
    pub root_current : IsCurrent g.root_cert time
    pub stamper_current : IsCurrent g.tsa_leaf time
    pub tsa_current : IsCurrent g.tsa_intermediate time
    pub identity_is : leaf.fields.email_addresses ≡ g.identity ∷ []
    pub issuer : Bytes
    pub issuer_is : c.marshal_utf8 g.issuer ≡ some issuer
    pub issuer_held :
        Mem (record { id = oidc_issuer_v2_oid; critical = false; value = issuer }) leaf.extensions
    pub statement_signed :
        v.verify leaf.public_key (c.sha256 (dsse_pae payload_type statement)) sig ≡ true
    pub timestamp_covers : v.covers g.tsa_leaf.public_key tsr (c.sha256 sig) ≡ true
