-- ===== src/Demokit/Signer/Signed.antt =====
-- What a signer signs is verified.
use mathlib.Core.List.{Mem}
use agent_governance_evidenc.Evidence.{second}
use agent_governance_evidenc.Base.{
  ℕ, ◌+◌, ◌-◌, ◌*◌, ◌≤◌, ◌≢◌, arith, ◌≡◌, refl, sym, true, false, [], ◌∷◌, some, Bytes, plain, ok,
  subst,
}
use agent_governance_evidenc.Demokit.Signer.Data.{
  Crypto, Certificate, Signer, drawn, computed, oidc_issuer_v2_oid, eku_oid, code_signing,
}
use agent_governance_evidenc.Demokit.Signer.{
  new_serial, timestamp_response, timestamp_of, signing_cert, bundle_of, sign_statement, hour,
  dsse_pae, payload_type,
}
use agent_governance_evidenc.Demokit.Signer.Chain.{
  Checks, CryptoLaws, IsHierarchy, IsVerified, IsFor, IsCurrent, whole, basic_constraints_oid,
  key_usage_oid, subject_alt_name_oid,
}
use agent_governance_evidenc.Demokit.Signer.Issue.{
  >>=-eq-ok, drawn-eq-ok, computed-eq-ok, create_cert-IsIssued, IsLeafFor, IsLeafFor-of_issued,
}

whole_mono : (a b : ℕ) → a ≤ b → whole a ≤ whole b
unfolding whole
whole_mono a b h = omega arith

IsCurrent-of_period :
    (x : Certificate) (start stop t : ℕ)
    → IsFor start stop x
    → start ≤ t
    → t ≤ stop
    → IsCurrent x (whole t)
IsCurrent-of_period x start stop t (from_is, to_is) lo hi =
    (rw from_is (whole_mono start t lo), rw to_is (whole_mono t stop hi))

-- A time from `now - late` to `now + more`, where both readings lie within five minutes.
clock_covers :
    (begin now now' t : ℕ)
    → (begin ≤ now) × (now ≤ begin + 300 * second)
    → (begin ≤ now') × (now' ≤ begin + 300 * second)
    → (begin ≤ t) × (t ≤ begin + 300 * second)
    → ((now - 300 * second ≤ t) × (t ≤ now' + hour))
      × (now - 3600 * second ≤ t)
      × (t ≤ now' + 86400 * second)
clock_covers begin now now' t p q r = ground arith

issuer_apart :
    (oidc_issuer_v2_oid ≢ basic_constraints_oid)
    × (oidc_issuer_v2_oid ≢ key_usage_oid)
    × (oidc_issuer_v2_oid ≢ subject_alt_name_oid)
    × (oidc_issuer_v2_oid ≢ eku_oid)
issuer_apart =
    (λ h. ground (arith, h), λ h. ground (arith, h), λ h. ground (arith, h), λ h. ground (arith, h))

module _ {S : Type 0} (c : Crypto S) (v : Checks) (laws : CryptoLaws c v) where
  -- The certificate of one signature is issued by the Fulcio intermediate, to the signer's
  -- identity.
  record IsLeaf (g : Signer) (leaf_key : Bytes) (leaf : Certificate) : Type 0 where
    before : S
    after : S
    fits : IsLeafFor c v laws ((c.now before).0 - 300 * second) ((c.now after).0 + hour) leaf
    purpose : leaf.fields.ext_key_usage ≡ code_signing ∷ []
    emails : leaf.fields.email_addresses ≡ g.identity ∷ []
    key : leaf.public_key ≡ c.public_of leaf_key
    parses : c.parse_certificate leaf.raw ≡ some leaf
    signed : v.signed_by (c.public_of g.fulcio_intermediate_key) leaf ≡ true
    issuer : Bytes
    issuer_is : c.marshal_utf8 g.issuer ≡ some issuer
    issuer_held :
        Mem (record { id = oidc_issuer_v2_oid; critical = false; value = issuer }) leaf.extensions

  signing_cert-IsLeaf :
      (g : Signer) (leaf_key : Bytes) (s s' : S) (leaf : Certificate)
      → signing_cert c g leaf_key s ≡ ok (leaf, s')
      → IsLeaf g leaf_key leaf
  unfolding signing_cert
  signing_cert-IsLeaf g leaf_key s s' leaf e =
      let (issuer, s₁, marshalled, rest₁) =
        >>=-eq-ok (computed (c.marshal_utf8 g.issuer) _) _ s s' leaf e in
      let (serial, s₂, _, rest₂) = >>=-eq-ok (new_serial c) _ s₁ s' leaf rest₁ in
      let r = create_cert-IsIssued c v laws _ _ _ _ _ _ s' leaf rest₂ in
      record {
        before = s₂;
        after = (c.now s₂).1;
        fits =
            IsLeafFor-of_issued c v laws serial [] (g.identity ∷ []) _ _ (code_signing ∷ []) _ _ _
              leaf issuer_apart.0 issuer_apart.1 r;
        purpose = r.purpose_kept (issuer_apart.3, tt);
        emails = r.emails_kept (issuer_apart.2, tt);
        key = r.subject_key;
        parses = r.parsed;
        signed = r.signed;
        issuer = issuer;
        issuer_is = (computed-eq-ok _ _ s s₁ issuer marshalled).0;
        issuer_held = r.extensions_kept.0;
      }

  timestamp_response-covers :
      (g : Signer) (sig : Bytes) (s s' : S) (tsr : Bytes)
      → g.tsa_leaf.public_key ≡ c.public_of g.tsa_leaf_key
      → timestamp_response c g sig s ≡ ok (tsr, s')
      → (stamp : S) × (v.covers g.tsa_leaf.public_key tsr (c.sha256 sig) ≡ true)
        × (v.time_of tsr ≡ some (whole (c.now stamp).0))
  unfolding timestamp_response
  timestamp_response-covers g sig s s' tsr holds e =
      let (query, s₁, made, rest₁) = >>=-eq-ok (computed (c.create_request sig) _) _ s s' tsr e in
      let (request, s₂, read, rest₂) =
        >>=-eq-ok (computed (c.parse_request query) _) _ s₁ s' tsr rest₁ in
      let hashed =
        laws.requests sig query request (computed-eq-ok _ _ s s₁ query made).0
          (computed-eq-ok _ _ s₁ s₂ request read).0 in
      let time = c.now s₂ in
      let answered =
        drawn-eq-ok (c.create_response (timestamp_of request time.0) g.tsa_leaf g.tsa_leaf_key) _
          time.1 s' tsr rest₂ in
      let responded =
        laws.responds (timestamp_of request time.0) g.tsa_leaf g.tsa_leaf_key tsr time.1 s' holds
          answered in
      (s₂, subst (λ m. v.covers g.tsa_leaf.public_key tsr m ≡ true) hashed responded.0, responded.1)

  hierarchy-IsCurrent :
      (g : Signer)
      → IsHierarchy c v g
      → (stamp : S) (x : Certificate) → IsFor g.validity_start g.validity_end x
      → IsCurrent x (whole (c.now stamp).0)
  hierarchy-IsCurrent g holds stamp x period =
      let now = (c.now stamp).0 in
      let covered =
        clock_covers laws.begin (c.now holds.before).0 (c.now holds.after).0 now
          (laws.steady holds.before) (laws.steady holds.after) (laws.steady stamp) in
      IsCurrent-of_period x g.validity_start g.validity_end now period
        (subst (λ t. t ≤ now) (sym holds.start_is) covered.1)
        (subst (λ t. now ≤ t) (sym holds.stop_is) covered.2)

  leaf-IsCurrent :
      (g : Signer) (leaf_key : Bytes) (leaf : Certificate)
      → IsLeaf g leaf_key leaf
      → (stamp : S) → IsCurrent leaf (whole (c.now stamp).0)
  leaf-IsCurrent g leaf_key leaf l stamp =
      let covered =
        clock_covers laws.begin (c.now l.before).0 (c.now l.after).0 (c.now stamp).0
          (laws.steady l.before) (laws.steady l.after) (laws.steady stamp) in
      IsCurrent-of_period leaf _ _ (c.now stamp).0 l.fits.period covered.0.0 covered.0.1

  -- Where the laws of the cryptography hold, with a clock that reads within five minutes, what a
  -- signer that is a hierarchy signs is a bundle in which the payload is the statement, the
  -- certificates lead from the root to the signer's identity and issuer, the signature is over the
  -- encoded statement and the timestamp over the signature; the signing certificate is for signing
  -- code and no authority, those above it are authorities, the timestamping certificate is for
  -- timestamping; and at the time that the timestamp names, all five certificates are valid.
  pub sign_statement-IsVerified :
      (g : Signer) (statement json : Bytes) (s s' : S)
      → IsHierarchy c v g
      → sign_statement c g statement s ≡ ok (json, s')
      → IsVerified c v g statement json
  unfolding sign_statement
  sign_statement-IsVerified g statement json s s' holds e =
      let (key, s₁, _, rest₁) = >>=-eq-ok (drawn c.generate_key (plain "ecdsa")) _ s s' json e in
      let (leaf, s₂, made, rest₂) = >>=-eq-ok (signing_cert c g key) _ s₁ s' json rest₁ in
      let (sig, s₃, signed, rest₃) =
        >>=-eq-ok (drawn (c.sign_asn1 key (c.sha256 (dsse_pae payload_type statement))) _) _ s₂ s'
          json rest₂ in
      let (tsr, s₄, stamped, rest₄) = >>=-eq-ok (timestamp_response c g sig) _ s₃ s' json rest₃ in
      let l = signing_cert-IsLeaf g key s₁ s₂ leaf made in
      let digest = c.sha256 (dsse_pae payload_type statement) in
      let checked = laws.signs key digest sig s₂ s₃ (
        drawn-eq-ok (c.sign_asn1 key digest) (plain "failed to sign DSSE payload") s₂ s₃ sig
          signed) in
      let (stamp, covered, named) =
        timestamp_response-covers g sig s₃ s₄ tsr holds.leaf_key stamped in
      record {
        bundle = bundle_of c g leaf statement sig tsr;
        leaf = leaf;
        sig = sig;
        tsr = tsr;
        encoded = (computed-eq-ok _ _ s₄ s' json rest₄).0;
        payload_is = refl;
        payload_type_is = refl;
        certificates_are = refl;
        signatures_are = refl;
        timestamps_are = refl;
        leaf_parses = l.parses;
        leaf_signed = subst (λ k. v.signed_by k leaf ≡ true) (sym holds.fulcio_key) l.signed;
        fulcio_signed = holds.fulcio_signed;
        fulcio_authority = holds.fulcio_authority;
        fulcio_purpose = holds.fulcio_purpose;
        root_authority = holds.root_authority;
        leaf_is_no_ca = l.fits.no_authority;
        leaf_usage = l.fits.usage;
        leaf_purpose = l.purpose;
        stamper_usage = holds.leaf_usage;
        stamper_purpose = holds.leaf_purpose;
        stamper_signed = holds.leaf_signed;
        time = whole (c.now stamp).0;
        time_is = named;
        leaf_current = leaf-IsCurrent g key leaf l stamp;
        fulcio_current =
            hierarchy-IsCurrent g holds stamp g.fulcio_intermediate holds.fulcio_period;
        root_current = hierarchy-IsCurrent g holds stamp g.root_cert holds.root_period;
        stamper_current = hierarchy-IsCurrent g holds stamp g.tsa_leaf holds.leaf_period;
        tsa_current = hierarchy-IsCurrent g holds stamp g.tsa_intermediate holds.tsa_period;
        identity_is = l.emails;
        issuer = l.issuer;
        issuer_is = l.issuer_is;
        issuer_held = l.issuer_held;
        statement_signed =
            subst (λ k. v.verify k (c.sha256 (dsse_pae payload_type statement)) sig ≡ true)
              (sym l.key) checked;
        timestamp_covers = covered;
      }
