-- ===== src/Demokit/Signer.antt =====
-- internal/demokit/signer.go: the demonstration's certificate authority. Randomness and the clock
-- are a state that the calls pass on; a method that fills fields of the signer returns what it
-- fills. Keys are their encoding.
pub mod Tests
pub mod Data
pub mod Pae
pub mod Chain
pub mod Issue
pub mod Hierarchy
pub mod Signed
use agent_governance_evidenc.Base.{
  ℕ, ◌+◌, ◌-◌, ◌*◌, Bool, true, false, List, [], ◌∷◌, ◌++◌, Option, none, some, Bytes, bytes, Error,
  plain, Result, ok, err, length,
}
use agent_governance_evidenc.Base.Decimal.{decimal}
use agent_governance_evidenc.Evidence.{second}
use agent_governance_evidenc.Demokit.Signer.Data.{
  Oid, oidc_issuer_v2_oid, eku_oid, eku_timestamping_oid, timestamp_policy_oid, KeyUsage,
  ExtKeyUsage, Extension, Template, Certificate, Signer, Request, Timestamp, Bundle,
  FulcioAuthority, TimestampingAuthority, Crypto, M, ◌>>=◌, pure, drawn, computed, cert_sign,
  crl_sign, digital_signature, code_signing, time_stamping,
}

abbrev pub hour : ℕ
hour = 3_600_000_000_000

abbrev pub organization_name : Bytes
organization_name = bytes "autogov-agent-governance-demo"

abbrev pub payload_type : Bytes
payload_type = bytes "application/vnd.in-toto+json"

abbrev pub ca_template : ℕ → Bytes → ℕ → ℕ → List ExtKeyUsage → Template
ca_template serial name start stop usages = record {
  serial_number = serial;
  common_name = name;
  organization = organization_name ∷ [];
  email_addresses = [];
  not_before = start;
  not_after = stop;
  key_usage = cert_sign ∷ crl_sign ∷ [];
  ext_key_usage = usages;
  basic_constraints_valid = true;
  is_ca = true;
  extra_extensions = [];
}

abbrev pub leaf_template : ℕ → Bytes → List Bytes → ℕ → ℕ → List ExtKeyUsage → Extension → Template
leaf_template serial name emails start stop usages extension = record {
  serial_number = serial;
  common_name = name;
  organization = [];
  email_addresses = emails;
  not_before = start;
  not_after = stop;
  key_usage = digital_signature ∷ [];
  ext_key_usage = usages;
  basic_constraints_valid = false;
  is_ca = false;
  extra_extensions = extension ∷ [];
}

abbrev timestamp_of : Request → ℕ → Timestamp
timestamp_of request time = record {
  hash_algorithm = request.hash_algorithm;
  hashed_message = request.hashed_message;
  time = time;
  policy = timestamp_policy_oid;
  ordering = false;
  qualified = false;
  extra_extensions = request.extensions;
}

-- `dssePAE`: "DSSEv1", the length and the text of the type, the length and the text of the payload.
unfoldable pub dsse_pae : Bytes → Bytes → Bytes
dsse_pae type payload =
    bytes "DSSEv1 "
    ++ (decimal (length type)
        ++ b' ' ∷ (type ++ b' ' ∷ (decimal (length payload) ++ b' ' ∷ payload)))

module _ {S : Type 0} (c : Crypto S) where
  -- A failing source of randomness is a panic. An error of a certificate or a timestamp is the text
  -- that its caller puts before it.
  unfoldable pub new_serial : M S ℕ
  new_serial = drawn c.random_serial (plain "panic: crypto/rand")

  unfoldable pub create_cert : Error → Template → Template → Bytes → Bytes → M S Certificate
  create_cert why template parent pub_key key = do
    der ← drawn (c.create_certificate template parent pub_key key) why
    computed (c.parse_certificate der) why

  unfoldable pub create_fulcio_intermediate :
      ℕ → ℕ → Certificate → Bytes → M S (Certificate × Bytes)
  create_fulcio_intermediate start stop root root_key = do
    key ← drawn c.generate_key (plain "ecdsa")
    serial ← new_serial
    cert ←
        create_cert (plain "failed to create demo Fulcio intermediate")
          (ca_template serial (bytes "autogov-agentgov-demo-fulcio") start stop (code_signing ∷ []))
          root.fields (c.public_of key) root_key
    pure (cert, key)

  -- The intermediate, the leaf and the leaf's key.
  unfoldable pub create_tsa : ℕ → ℕ → Certificate → Bytes → M S (Certificate × Certificate × Bytes)
  create_tsa start stop root root_key = do
    intermediate_key ← drawn c.generate_key (plain "ecdsa")
    intermediate_serial ← new_serial
    intermediate ←
        create_cert (plain "failed to create demo TSA intermediate")
          (ca_template intermediate_serial (bytes "autogov-agentgov-demo-tsa") start stop
            (time_stamping ∷ []))
          root.fields (c.public_of intermediate_key) root_key
    leaf_key ← drawn c.generate_key (plain "ecdsa")
    extension ← computed (c.marshal_oids (eku_timestamping_oid ∷ [])) (plain "asn1")
    serial ← new_serial
    leaf ←
        create_cert (plain "failed to create demo TSA leaf")
          (leaf_template serial (bytes "autogov-agentgov-demo-tsa-leaf") [] start stop []
            (record { id = eku_oid; critical = true; value = extension }))
          intermediate.fields (c.public_of leaf_key) intermediate_key
    pure (intermediate, leaf, leaf_key)

  unfoldable pub new_signer : Bytes → Bytes → M S Signer
  new_signer identity issuer = do
    before ← λ s. ok (c.now s)
    after ← λ s. ok (c.now s)
    root_key ← drawn c.generate_key (plain "ecdsa")
    serial ← new_serial
    let start = before - hour
    let stop = after + 24 * hour
    let template = ca_template serial (bytes "autogov-agentgov-demo-root") start stop []
    root ←
        create_cert (plain "failed to create demo root CA") template template (c.public_of root_key)
          root_key
    (fulcio, fulcio_key) ← create_fulcio_intermediate start stop root root_key
    (tsa, tsa_leaf, tsa_leaf_key) ← create_tsa start stop root root_key
    pure (record {
      identity = identity;
      issuer = issuer;
      root_cert = root;
      fulcio_intermediate = fulcio;
      fulcio_intermediate_key = fulcio_key;
      tsa_intermediate = tsa;
      tsa_leaf = tsa_leaf;
      tsa_leaf_key = tsa_leaf_key;
      validity_start = start;
      validity_end = stop;
    })

  unfoldable pub timestamp_response : Signer → Bytes → M S Bytes
  timestamp_response g sig = do
    query ← computed (c.create_request sig) (plain "failed to create RFC3161 timestamp")
    request ← computed (c.parse_request query) (plain "failed to create RFC3161 timestamp")
    time ← λ s. ok (c.now s)
    drawn (c.create_response (timestamp_of request time) g.tsa_leaf g.tsa_leaf_key)
        (plain "failed to create RFC3161 timestamp")

  -- The ephemeral certificate of one signature.
  unfoldable pub signing_cert : Signer → Bytes → M S Certificate
  signing_cert g leaf_key = do
    issuer ← computed (c.marshal_utf8 g.issuer) (plain "failed to encode Fulcio issuer extension")
    serial ← new_serial
    before ← λ s. ok (c.now s)
    after ← λ s. ok (c.now s)
    create_cert (plain "failed to create signing certificate")
        (leaf_template serial [] (g.identity ∷ []) (before - 300 * second) (after + hour)
          (code_signing ∷ [])
          (record { id = oidc_issuer_v2_oid; critical = false; value = issuer }))
        g.fulcio_intermediate.fields (c.public_of leaf_key) g.fulcio_intermediate_key

  abbrev bundle_of : Signer → Certificate → Bytes → Bytes → Bytes → Bundle
  bundle_of g leaf statement sig tsr = record {
    media_type = bytes "application/vnd.dev.sigstore.bundle+json;version=0.2";
    certificates = leaf.raw ∷ g.fulcio_intermediate.raw ∷ g.root_cert.raw ∷ [];
    signed_timestamps = tsr ∷ [];
    payload = statement;
    payload_type = payload_type;
    signatures = sig ∷ [];
  }

  unfoldable pub sign_statement : Signer → Bytes → M S Bytes
  sign_statement g statement = do
    leaf_key ← drawn c.generate_key (plain "ecdsa")
    leaf ← signing_cert g leaf_key
    sig ←
        drawn (c.sign_asn1 leaf_key (c.sha256 (dsse_pae payload_type statement)))
          (plain "failed to sign DSSE payload")
    tsr ← timestamp_response g sig
    computed (c.marshal_bundle (bundle_of g leaf statement sig tsr)) (plain "protojson")

  unfoldable pub trusted_root_json : Signer → Result Bytes
  trusted_root_json g =
      elim (c.new_trusted_root
        (record {
          root = g.root_cert;
          intermediates = g.fulcio_intermediate ∷ [];
          validity_start = g.validity_start;
          validity_end = g.validity_end;
          uri = bytes "https://demo.autogov.local/fulcio";
        })
        (record {
          root = g.root_cert;
          intermediates = g.tsa_intermediate ∷ [];
          leaf = g.tsa_leaf;
          validity_start = g.validity_start;
          validity_end = g.validity_end;
          uri = bytes "https://demo.autogov.local/tsa";
        })) [
          | none ↦ err (plain "failed to build trusted root")
          | some trusted ↦ elim (c.marshal_root trusted) [
            | none ↦ err (plain "trusted root JSON")
            | some json ↦ ok json
          ]
        ]
