-- ===== src/Demokit/Signer/Issue.antt =====
-- A computation that succeeds has run each of its steps, and a certificate that was created is
-- issued as the template says.
use mathlib.Core.List.{Mem, mem-cons_self}
use agent_governance_evidenc.Base.{
  ℕ, ◌≢◌, refl, List, false, Result-cases, Option-cases, inl, inr, ◌≡◌, Option, none, some, Bytes,
  arith, Error, ok,
}
use agent_governance_evidenc.Demokit.Signer.Data.{
  Crypto, Template, Certificate, M, Extension, ExtKeyUsage, cert_sign, digital_signature, ◌>>=◌,
  drawn, computed,
}
use agent_governance_evidenc.Demokit.Signer.{create_cert, ca_template, leaf_template}
use agent_governance_evidenc.Demokit.Signer.Chain.{
  Checks, IsIssued, CryptoLaws, IsAuthority, IsFor, basic_constraints_oid, key_usage_oid,
}

pub >>=-eq-ok :
    {S A B : Type 0} (m : M S A) (next : A → M S B) (s s' : S) (b : B)
    → (m >>= next) s ≡ ok (b, s')
    → (a : A) × (t : S) × (m s ≡ ok (a, t)) × (next a t ≡ ok (b, s'))
>>=-eq-ok m next s s' b e = elim (Result-cases (m s)) [
  | inl ((a, t), is) ↦ (a, t, is, ground (arith, is))
  | inr (x, failed) ↦ absurd (ground (arith, failed))
]

pub drawn-eq-ok :
    {S A : Type 0} (call : S → Option (A × S)) (why : Error) (s s' : S) (a : A)
    → drawn call why s ≡ ok (a, s')
    → call s ≡ some (a, s')
drawn-eq-ok call why s s' a e = elim (Option-cases (call s)) [
  | inl nothing ↦ absurd (ground (arith, nothing))
  | inr (r, is) ↦ ground (arith, is)
]

pub computed-eq-ok :
    {S A : Type 0} (o : Option A) (why : Error) (s s' : S) (a : A)
    → computed o why s ≡ ok (a, s')
    → (o ≡ some a) × (s ≡ s')
computed-eq-ok none why s s' a e = cc
computed-eq-ok (some b) why s s' a e = (ground arith, ground arith)

module _ {S : Type 0} (c : Crypto S) (v : Checks) (laws : CryptoLaws c v) where
  pub create_cert-IsIssued :
      (why : Error) (t parent : Template) (pub_key key : Bytes) (s s' : S) (x : Certificate)
      → create_cert c why t parent pub_key key s ≡ ok (x, s')
      → IsIssued c v t pub_key key x
  unfolding create_cert
  create_cert-IsIssued why t parent pub_key key s s' x e =
      let (der, u, made, rest) =
        >>=-eq-ok (drawn (c.create_certificate t parent pub_key key) why) _ s s' x e in
      let (parsed, _) = computed-eq-ok (c.parse_certificate der) why u s' x rest in
      laws.issues t parent pub_key key der s u x
        (drawn-eq-ok (c.create_certificate t parent pub_key key) why s u der made) parsed

  -- A certificate of the template for authorities.
  pub record IsAuthorityFor (start stop : ℕ) (usages : List ExtKeyUsage) (x : Certificate)
      : Type 0 where
    pub authority : IsAuthority x
    pub purpose : x.fields.ext_key_usage ≡ usages
    pub period : IsFor start stop x

  pub IsAuthorityFor-of_issued :
      (serial : ℕ) (name : Bytes) (start stop : ℕ) (usages : List ExtKeyUsage) (pub_key key : Bytes)
      (x : Certificate)
      → IsIssued c v (ca_template serial name start stop usages) pub_key key x
      → IsAuthorityFor start stop usages x
  IsAuthorityFor-of_issued serial name start stop usages pub_key key x i = record {
    authority = record {
      ca = (i.ca_kept tt refl).0;
      constraints = (i.ca_kept tt refl).1;
      usage = (i.usage_kept tt cert_sign).0 (mem-cons_self);
    };
    purpose = i.purpose_kept tt;
    period = (i.start_kept, i.stop_kept);
  }

  -- A certificate of the template for leaves.
  pub record IsLeafFor (start stop : ℕ) (x : Certificate) : Type 0 where
    pub no_authority : x.fields.is_ca ≡ false
    pub usage : Mem digital_signature x.fields.key_usage
    pub period : IsFor start stop x

  pub IsLeafFor-of_issued :
      (serial : ℕ) (name : Bytes) (emails : List Bytes) (start stop : ℕ) (usages : List ExtKeyUsage)
      (e : Extension) (pub_key key : Bytes) (x : Certificate)
      → e.id ≢ basic_constraints_oid
      → e.id ≢ key_usage_oid
      → IsIssued c v (leaf_template serial name emails start stop usages e) pub_key key x
      → IsLeafFor start stop x
  IsLeafFor-of_issued serial name emails start stop usages e pub_key key x p q i = record {
    no_authority = i.no_ca (p, tt) refl;
    usage = (i.usage_kept (q, tt) digital_signature).0 (mem-cons_self);
    period = (i.start_kept, i.stop_kept);
  }
