-- ===== src/Demokit/Signer/Data.antt =====
-- The data of internal/demokit/signer.go, what it calls of the packages for keys, certificates,
-- timestamps and bundles, and computations over the source of randomness and the clock.
use agent_governance_evidenc.Base.{
  ℕ, Bool, List, [], ◌∷◌, Option, none, some, Bytes, Error, Result, ok, err,
}

abbrev pub Oid : Type 0
Oid = List ℕ

abbrev pub oidc_issuer_v2_oid : Oid
oidc_issuer_v2_oid = 1 ∷ 3 ∷ 6 ∷ 1 ∷ 4 ∷ 1 ∷ 57264 ∷ 1 ∷ 8 ∷ []

abbrev pub eku_oid : Oid
eku_oid = 2 ∷ 5 ∷ 29 ∷ 37 ∷ []

abbrev pub eku_timestamping_oid : Oid
eku_timestamping_oid = 1 ∷ 3 ∷ 6 ∷ 1 ∷ 5 ∷ 5 ∷ 7 ∷ 3 ∷ 8 ∷ []

abbrev pub timestamp_policy_oid : Oid
timestamp_policy_oid = 1 ∷ 3 ∷ 6 ∷ 1 ∷ 4 ∷ 1 ∷ 57264 ∷ 2 ∷ []

pub data KeyUsage : Type 0 where
  cert_sign crl_sign digital_signature : KeyUsage

pub data ExtKeyUsage : Type 0 where
  code_signing time_stamping : ExtKeyUsage

pub record Extension : Type 0 where
  pub id : Oid
  pub critical : Bool
  pub value : Bytes

-- The fields of `x509.Certificate` that a template sets. What only a parsed certificate has, its
-- extensions, its public key and its raw bytes, is beside them.
pub record Template : Type 0 where
  pub serial_number : ℕ
  pub common_name : Bytes
  pub organization : List Bytes
  pub email_addresses : List Bytes
  pub not_before : ℕ
  pub not_after : ℕ
  pub key_usage : List KeyUsage
  pub ext_key_usage : List ExtKeyUsage
  pub basic_constraints_valid : Bool
  pub is_ca : Bool
  pub extra_extensions : List Extension

pub record Certificate : Type 0 where
  pub fields : Template
  pub extensions : List Extension
  pub public_key : Bytes
  pub raw : Bytes

pub record Signer : Type 0 where
  pub identity : Bytes
  pub issuer : Bytes
  pub root_cert : Certificate
  pub fulcio_intermediate : Certificate
  pub fulcio_intermediate_key : Bytes
  pub tsa_intermediate : Certificate
  pub tsa_leaf : Certificate
  pub tsa_leaf_key : Bytes
  pub validity_start : ℕ
  pub validity_end : ℕ

-- The parts of a parsed timestamp request that are read, and the timestamp that answers it.
pub record Request : Type 0 where
  pub hash_algorithm : ℕ
  pub hashed_message : Bytes
  pub extensions : List Extension

pub record Timestamp : Type 0 where
  pub hash_algorithm : ℕ
  pub hashed_message : Bytes
  pub time : ℕ
  pub policy : Oid
  pub ordering : Bool
  pub qualified : Bool
  pub extra_extensions : List Extension

pub record Bundle : Type 0 where
  pub media_type : Bytes
  pub certificates : List Bytes
  pub signed_timestamps : List Bytes
  pub payload : Bytes
  pub payload_type : Bytes
  pub signatures : List Bytes

pub record FulcioAuthority : Type 0 where
  pub root : Certificate
  pub intermediates : List Certificate
  pub validity_start : ℕ
  pub validity_end : ℕ
  pub uri : Bytes

pub record TimestampingAuthority : Type 0 where
  pub root : Certificate
  pub intermediates : List Certificate
  pub leaf : Certificate
  pub validity_start : ℕ
  pub validity_end : ℕ
  pub uri : Bytes

-- The standard library's cryptography and the packages for timestamps and bundles, over a state
-- `S` that holds the source of randomness and the clock.
pub record Crypto (S : Type 0) : Type 0 where
  pub generate_key : S → Option (Bytes × S)
  pub public_of : Bytes → Bytes
  pub random_serial : S → Option (ℕ × S)
  pub now : S → ℕ × S
  pub sha256 : Bytes → Bytes
  -- `x509.CreateCertificate` with a template, the parent's fields, the subject's public key and the
  -- parent's key, and `x509.ParseCertificate`.
  pub create_certificate : Template → Template → Bytes → Bytes → S → Option (Bytes × S)
  pub parse_certificate : Bytes → Option Certificate
  pub sign_asn1 : Bytes → Bytes → S → Option (Bytes × S)
  pub marshal_oids : List Oid → Option Bytes
  pub marshal_utf8 : Bytes → Option Bytes
  pub create_request : Bytes → Option Bytes
  pub parse_request : Bytes → Option Request
  pub create_response : Timestamp → Certificate → Bytes → S → Option (Bytes × S)
  pub marshal_bundle : Bundle → Option Bytes
  -- `root.NewTrustedRoot` with the two authorities and no logs, and `MarshalJSON`.
  pub new_trusted_root : FulcioAuthority → TimestampingAuthority → Option Bytes
  pub marshal_root : Bytes → Option Bytes

abbrev pub M : Type 0 → Type 0 → Type 0
M S A = S → Result (A × S)

infixl 5 ◌>>=◌
abbrev pub ◌>>=◌ : {S A B : Type 0} → M S A → (A → M S B) → M S B
◌>>=◌ m next s = elim (m s) [ err e ↦ err e | ok (a, s') ↦ next a s' ]

abbrev pub pure : {S A : Type 0} → A → M S A
pure a s = ok (a, s)

-- A call that may fail, with the state and without.
abbrev pub drawn : {S A : Type 0} → (S → Option (A × S)) → Error → M S A
drawn call e s = elim (call s) [ none ↦ err e | some r ↦ ok r ]

abbrev pub computed : {S A : Type 0} → Option A → Error → M S A
computed none e s = err e
computed (some a) e s = ok (a, s)
