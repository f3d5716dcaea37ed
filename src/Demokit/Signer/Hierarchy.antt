-- ===== src/Demokit/Signer/Hierarchy.antt =====
-- A new signer is a hierarchy of certificates.
use mathlib.Core.List.{Mem}
use agent_governance_evidenc.Base.{
  ℕ, ◌+◌, ◌-◌, ◌*◌, ◌≢◌, ◌≡◌, refl, sym, true, [], ◌∷◌, some, Bytes, arith, plain, Result, ok,
  subst,
}
use agent_governance_evidenc.Evidence.{second}
use agent_governance_evidenc.Demokit.Signer.Data.{
  Crypto, Certificate, Signer, drawn, computed, eku_oid, eku_timestamping_oid, code_signing,
  time_stamping,
}
use agent_governance_evidenc.Demokit.Signer.{
  new_serial, create_cert, create_fulcio_intermediate, create_tsa, new_signer, hour,
}
use agent_governance_evidenc.Demokit.Signer.Chain.{
  Checks, CryptoLaws, IsHierarchy, basic_constraints_oid, key_usage_oid,
}
use agent_governance_evidenc.Demokit.Signer.Issue.{
  >>=-eq-ok, computed-eq-ok, create_cert-IsIssued, IsAuthorityFor, IsAuthorityFor-of_issued,
  IsLeafFor, IsLeafFor-of_issued,
}

ok-inj :
    {S : Type 0} {r r' : Signer × S} → ◌≡◌ {A = Result (Signer × S)} (ok r) (ok r') → r.0 ≡ r'.0
ok-inj e = ground arith

eku_apart : (eku_oid ≢ basic_constraints_oid) × (eku_oid ≢ key_usage_oid)
eku_apart = (λ h. ground (arith, h), λ h. ground (arith, h))

module _ {S : Type 0} (c : Crypto S) (v : Checks) (laws : CryptoLaws c v) where
  -- What the two methods fill in.
  record IsFulcio (start stop : ℕ) (root_key : Bytes) (r : Certificate × Bytes) : Type 0 where
    signed : v.signed_by (c.public_of root_key) r.0 ≡ true
    issued : IsAuthorityFor c v laws start stop (code_signing ∷ []) r.0
    key : r.0.public_key ≡ c.public_of r.1

  create_fulcio_intermediate-IsFulcio :
      (start stop : ℕ) (root : Certificate) (root_key : Bytes) (s s' : S) (r : Certificate × Bytes)
      → create_fulcio_intermediate c start stop root root_key s ≡ ok (r, s')
      → IsFulcio start stop root_key r
  unfolding create_fulcio_intermediate
  create_fulcio_intermediate-IsFulcio start stop root root_key s s' r e =
      let (key, s₁, _, rest₁) = >>=-eq-ok (drawn c.generate_key (plain "ecdsa")) _ s s' r e in
      let (serial, s₂, _, rest₂) = >>=-eq-ok (new_serial c) _ s₁ s' r rest₁ in
      let (cert, s₃, made, rest₃) = >>=-eq-ok (create_cert c _ _ _ _ _) _ s₂ s' r rest₂ in
      let issued = create_cert-IsIssued c v laws _ _ _ _ _ s₂ s₃ cert made in
      let same : (cert, key) ≡ r = ground arith in
      subst (λ x. IsFulcio start stop root_key x) same
        (record {
          signed = issued.signed;
          issued = IsAuthorityFor-of_issued c v laws serial _ start stop _ _ _ cert issued;
          key = issued.subject_key;
        })

  record IsTsa (start stop : ℕ) (root_key : Bytes) (r : Certificate × Certificate × Bytes)
      : Type 0 where
    signed : v.signed_by (c.public_of root_key) r.0 ≡ true
    issued : IsAuthorityFor c v laws start stop (time_stamping ∷ []) r.0
    leaf_signed : v.signed_by r.0.public_key r.1 ≡ true
    leaf_key : r.1.public_key ≡ c.public_of r.2
    leaf_issued : IsLeafFor c v laws start stop r.1
    leaf_purpose : r.1.fields.ext_key_usage ≡ time_stamping ∷ []
    usage : Bytes
    usage_is : c.marshal_oids (eku_timestamping_oid ∷ []) ≡ some usage
    usage_held : Mem (record { id = eku_oid; critical = true; value = usage }) r.1.extensions

  create_tsa-IsTsa :
      (start stop : ℕ) (root : Certificate) (root_key : Bytes) (s s' : S)
      (r : Certificate × Certificate × Bytes)
      → create_tsa c start stop root root_key s ≡ ok (r, s')
      → IsTsa start stop root_key r
  unfolding create_tsa
  create_tsa-IsTsa start stop root root_key s s' r e =
      let (key, s₁, _, rest₁) = >>=-eq-ok (drawn c.generate_key (plain "ecdsa")) _ s s' r e in
      let (serial, s₂, _, rest₂) = >>=-eq-ok (new_serial c) _ s₁ s' r rest₁ in
      let (cert, s₃, made, rest₃) = >>=-eq-ok (create_cert c _ _ _ _ _) _ s₂ s' r rest₂ in
      let (leaf_key, s₄, _, rest₄) =
        >>=-eq-ok (drawn c.generate_key (plain "ecdsa")) _ s₃ s' r rest₃ in
      let (usage, s₅, marshalled, rest₅) =
        >>=-eq-ok (computed (c.marshal_oids (eku_timestamping_oid ∷ [])) (plain "asn1")) _ s₄ s' r
          rest₄ in
      let (leaf_serial, s₆, _, rest₆) = >>=-eq-ok (new_serial c) _ s₅ s' r rest₅ in
      let (leaf, s₇, leaf_made, rest₇) = >>=-eq-ok (create_cert c _ _ _ _ _) _ s₆ s' r rest₆ in
      let issued = create_cert-IsIssued c v laws _ _ _ _ _ s₂ s₃ cert made in
      let leaf_issued = create_cert-IsIssued c v laws _ _ _ _ _ s₆ s₇ leaf leaf_made in
      let usage_is = (computed-eq-ok _ (plain "asn1") s₄ s₅ usage marshalled).0 in
      let same : (cert, leaf, leaf_key) ≡ r = ground arith in
      subst (λ x. IsTsa start stop root_key x) same
        (record {
          signed = issued.signed;
          issued = IsAuthorityFor-of_issued c v laws serial _ start stop _ _ _ cert issued;
          leaf_signed =
              subst (λ k. v.signed_by k leaf ≡ true) (sym issued.subject_key) leaf_issued.signed;
          leaf_key = leaf_issued.subject_key;
          leaf_issued =
              IsLeafFor-of_issued c v laws leaf_serial _ [] start stop [] _ _ _ leaf eku_apart.0
                eku_apart.1 leaf_issued;
          leaf_purpose = leaf_issued.purpose_read true usage usage_is refl;
          usage = usage;
          usage_is = usage_is;
          usage_held = leaf_issued.extensions_kept.0;
        })

  -- Where the laws of the cryptography hold, a new signer is a hierarchy: its root signs itself and
  -- the intermediates, and these three may sign certificates; the timestamping leaf is signed by its
  -- intermediate and may sign for timestamping alone; one intermediate serves code signing, the other
  -- timestamping; all four are valid, to the second, from an hour before the first reading of the
  -- clock to a day after the second; and the signer holds the keys and the given identity and issuer.
  pub new_signer-IsHierarchy :
      (identity issuer : Bytes) (s s' : S) (g : Signer)
      → new_signer c identity issuer s ≡ ok (g, s')
      → IsHierarchy c v g
        × (g.identity ≡ identity)
        × (g.issuer ≡ issuer)
        × (g.validity_start ≡ (c.now s).0 - 3600 * second)
        × (g.validity_end ≡ (c.now (c.now s).1).0 + 86400 * second)
  unfolding new_signer
  new_signer-IsHierarchy identity issuer s s' g e =
      let (root_key, s₁, _, rest₁) = >>=-eq-ok (drawn c.generate_key (plain "ecdsa")) _ _ s' g e in
      let (serial, s₂, _, rest₂) = >>=-eq-ok (new_serial c) _ s₁ s' g rest₁ in
      let (root, s₃, made, rest₃) = >>=-eq-ok (create_cert c _ _ _ _ _) _ s₂ s' g rest₂ in
      let (fulcio, s₄, fulcio_made, rest₄) =
        >>=-eq-ok (create_fulcio_intermediate c _ _ root root_key) _ s₃ s' g rest₃ in
      let (tsa, s₅, tsa_made, rest₅) = >>=-eq-ok (create_tsa c _ _ root root_key) _ s₄ s' g rest₄ in
      let before = c.now s in
      let after = c.now before.1 in
      let start = before.0 - hour in
      let stop = after.0 + 24 * hour in
      let r = create_cert-IsIssued c v laws _ _ _ _ _ s₂ s₃ root made in
      let f =
        create_fulcio_intermediate-IsFulcio start stop root root_key s₃ s₄ fulcio fulcio_made in
      let t = create_tsa-IsTsa start stop root root_key s₄ s₅ tsa tsa_made in
      let by_root = sym r.subject_key in
      let a = IsAuthorityFor-of_issued c v laws serial _ start stop [] _ _ root r in
      let built = ok-inj rest₅ in
      subst
        (λ x.
          IsHierarchy c v x
          × (x.identity ≡ identity)
          × (x.issuer ≡ issuer)
          × (x.validity_start ≡ (c.now s).0 - 3600 * second)
          × (x.validity_end ≡ (c.now (c.now s).1).0 + 86400 * second))
        built
        (
          record {
            root_signs_itself = subst (λ k. v.signed_by k root ≡ true) by_root r.signed;
            root_authority = a.authority;
            fulcio_signed = subst (λ k. v.signed_by k fulcio.0 ≡ true) by_root f.signed;
            fulcio_authority = f.issued.authority;
            fulcio_purpose = f.issued.purpose;
            fulcio_key = f.key;
            tsa_signed = subst (λ k. v.signed_by k tsa.0 ≡ true) by_root t.signed;
            tsa_authority = t.issued.authority;
            tsa_purpose = t.issued.purpose;
            leaf_signed = t.leaf_signed;
            leaf_key = t.leaf_key;
            leaf_is_no_ca = t.leaf_issued.no_authority;
            leaf_usage = t.leaf_issued.usage;
            leaf_purpose = t.leaf_purpose;
            purpose = t.usage;
            purpose_is = t.usage_is;
            purpose_held = t.usage_held;
            before = s;
            after = before.1;
            start_is = refl;
            stop_is = refl;
            root_period = a.period;
            fulcio_period = f.issued.period;
            tsa_period = t.issued.period;
            leaf_period = t.leaf_issued.period;
          },
          refl,
          refl,
          refl,
          refl,
        )
