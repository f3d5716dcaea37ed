-- ===== src/Demokit/Signer/Tests.antt =====
-- A toy cryptography, which issues certificates from a table, and a statement signed with it.
use native.Mathlib.Decide.{ℕ_discrete}
use mathlib.Core.Bool.{Bool-discrete}
use mathlib.Core.List.{Mem, mem-cons_self, mem-cons_of_mem}
use agent_governance_evidenc.Base.Decimal.{decimal, decimal_from}
use agent_governance_evidenc.Demokit.Signer.{
  signing_cert, timestamp_response, create_cert, create_fulcio_intermediate, create_tsa, new_serial,
}
use agent_governance_evidenc.Demokit.Signer.Hierarchy.{new_signer-IsHierarchy}
use agent_governance_evidenc.Demokit.Signer.Signed.{sign_statement-IsVerified}
use agent_governance_evidenc.Demokit.Signer.Pae.{dsse_pae_inj}
use agent_governance_evidenc.Base.{
  equal-ne, ◌∙◌, ◌&&◌, if◌then◌else◌, ◌==◌, Option-cases, inl, inr, subst, ℕ, zero, suc, ◌+◌, ◌-◌,
  ◌*◌, ◌≡◌, refl, Bool, true, false, List, [], ◌∷◌, ◌++◌, Option, none, some, Bytes, bytes, equal,
  equal_refl, arith, All, ok, ap,
}
use agent_governance_evidenc.Demokit.Signer.Data.{
  Crypto, Template, Certificate, Extension, Signer, ExtKeyUsage, code_signing, time_stamping,
  eku_oid, oidc_issuer_v2_oid,
}
use agent_governance_evidenc.Demokit.Signer.{
  ca_template, leaf_template, dsse_pae, payload_type, new_signer, sign_statement, hour,
}
use agent_governance_evidenc.Evidence.{second}
use agent_governance_evidenc.Demokit.Signer.Chain.{
  Checks, IsIssued, CryptoLaws, IsHierarchy, IsVerified, whole, Lacks,
}

-- A template, a subject's key and the key that signs.
abbrev pub Entry : Type 0
Entry = Template × Bytes × Bytes

pub Entry-discrete : Discrete Entry
Entry-discrete = hlevel (ℕ_discrete, Bool-discrete)

-- The identity and issuer of the demonstration.
abbrev pub demo_identity : Bytes
demo_identity = bytes "agent-governance-demo@autogov.local"

abbrev pub demo_issuer : Bytes
demo_issuer = bytes "https://demo.autogov.local/oidc"

abbrev at_time : ℕ
at_time = 63_902_865_600_000_000_000

abbrev usage_ext : Extension
usage_ext = record { id = eku_oid; critical = true; value = bytes "timestamping" }

abbrev issuer_ext : Extension
issuer_ext = record { id = oidc_issuer_v2_oid; critical = false; value = bytes "issuer" }

abbrev start : ℕ
start = at_time - hour

abbrev stop : ℕ
stop = at_time + 24 * hour

-- The certificates of one run: keys and serial numbers count the draws.
abbrev table : List Entry
table =
    (ca_template 1 (bytes "autogov-agentgov-demo-root") start stop [], 0 ∷ [], 0 ∷ [])
    ∷ (
      ca_template 3 (bytes "autogov-agentgov-demo-fulcio") start stop (code_signing ∷ []),
      2 ∷ [],
      0 ∷ [],
    )
    ∷ (
      ca_template 5 (bytes "autogov-agentgov-demo-tsa") start stop (time_stamping ∷ []),
      4 ∷ [],
      0 ∷ [],
    )
    ∷ (
      leaf_template 7 (bytes "autogov-agentgov-demo-tsa-leaf") [] start stop [] usage_ext,
      6 ∷ [],
      4 ∷ [],
    )
    ∷ (
      leaf_template 9 [] (demo_identity ∷ []) (at_time - 300 * second) (at_time + hour)
          (code_signing ∷ []) issuer_ext,
      8 ∷ [],
      2 ∷ [],
    )
    ∷ []

index_of : List Entry → Entry → Option ℕ
index_of [] x = none
index_of (e ∷ es) x = elim (Entry-discrete e x) [
  | yes _ ↦ some 0
  | no _ ↦ elim (index_of es x) [ none ↦ none | some i ↦ some (suc i) ]
]

entry_at : List Entry → ℕ → Option Entry
entry_at [] i = none
entry_at (e ∷ es) zero = some e
entry_at (e ∷ es) (suc i) = entry_at es i

index_of-eq-some :
    (es : List Entry) (x : Entry) (i : ℕ) → index_of es x ≡ some i → entry_at es i ≡ some x
unfolding index_of entry_at
index_of-eq-some [] x i e = cc
index_of-eq-some (y ∷ es) x i e = elim (Entry-discrete y x) [
  | yes same ↦ let is : 0 ≡ i = ground (arith, same) in rw (← is) (ap some same)
  | no other ↦ elim (Option-cases (index_of es x)) [
    | inl nothing ↦ absurd (ground (arith, other, nothing))
    | inr (j, found) ↦
        let is : suc j ≡ i = ground (arith, other, found) in
        rw (← is) (index_of-eq-some es x j found)
  ]
]

-- Parsing: an extended key usage among the extra extensions is for timestamping, constraints that
-- are not valid are not there, and times are whole seconds.
abbrev purpose_of : List Extension → List ExtKeyUsage → List ExtKeyUsage
purpose_of (e ∷ []) usages = if equal e.id eku_oid then time_stamping ∷ [] else usages
purpose_of _ usages = usages

abbrev parsed_fields : Template → Template
parsed_fields t = record t {
  not_before = whole t.not_before;
  not_after = whole t.not_after;
  ext_key_usage = purpose_of t.extra_extensions t.ext_key_usage;
  is_ca = t.is_ca && t.basic_constraints_valid;
}

abbrev certificate_of : ℕ → Entry → Certificate
certificate_of i e = record {
  fields = parsed_fields e.0;
  extensions = e.0.extra_extensions;
  public_key = e.1;
  raw = i ∷ [];
}

unfoldable pub parse : Bytes → Option Certificate
unfolding entry_at
parse (i ∷ []) = elim (entry_at table i) [ none ↦ none | some e ↦ some (certificate_of i e) ]
parse _ = none

unfoldable pub issue : Template → Template → Bytes → Bytes → ℕ → Option (Bytes × ℕ)
unfolding index_of
issue t parent pub_key key s = elim (index_of table (t, pub_key, key)) [
  | none ↦ none
  | some i ↦ some (i ∷ [], s)
]

unfoldable pub signer_of : Bytes → Bytes → Bool
unfolding entry_at
signer_of pub_key (i ∷ []) = elim (entry_at table i) [ none ↦ false | some e ↦ equal e.2 pub_key ]
signer_of pub_key _ = false

-- A state counts the draws; each signature starts from the same state.
abbrev pub next : ℕ → ℕ
next s = if s == 9 then 8 else s + 1

abbrev pub toy : Crypto ℕ
toy = record {
  generate_key = λ s. some (s ∷ [], next s);
  public_of = λ key. key;
  random_serial = λ s. some (s, next s);
  now = λ s. (at_time, s);
  sha256 = λ m. m;
  create_certificate = issue;
  parse_certificate = parse;
  sign_asn1 = λ key digest s. some (key ++ digest, s);
  marshal_oids = λ _. some (bytes "timestamping");
  marshal_utf8 = λ _. some (bytes "issuer");
  create_request = λ m. some m;
  parse_request =
      λ query. some (record { hash_algorithm = 5; hashed_message = query; extensions = [] });
  create_response = λ t leaf key s. some (whole t.time ∷ (key ++ t.hashed_message), s);
  marshal_bundle = λ b. some b.payload;
  new_trusted_root = λ f t. some (bytes "root");
  marshal_root = λ r. some r;
}

abbrev pub toy_checks : Checks
toy_checks = record {
  verify = λ pub_key digest sig. equal sig (pub_key ++ digest);
  signed_by = λ pub_key x. signer_of pub_key x.raw;
  covers = λ pub_key tsr message. elim tsr [
    | [] ↦ false
    | time ∷ signed ↦ equal signed (pub_key ++ message)
  ];
  time_of = λ tsr. elim tsr [ [] ↦ none | time ∷ signed ↦ some time ];
}

All-of_mem :
    (P : Extension → Type 0) (xs : List Extension) → ((e : Extension) → Mem e xs → P e) → All P xs
All-of_mem P [] f = tt
All-of_mem P (x ∷ xs) f = (f x (mem-cons_self), All-of_mem P xs (λ e m. f e (mem-cons_of_mem x m)))

other_purpose :
    (es : List Extension) (usages : List ExtKeyUsage)
    → Lacks eku_oid es
    → purpose_of es usages ≡ usages
other_purpose [] usages lacks = refl
other_purpose (e ∷ []) usages (other, _) = rw (equal-ne other) refl
other_purpose (e ∷ e' ∷ es) usages lacks = refl

stamp_purpose :
    (es : List Extension) (usages : List ExtKeyUsage) (critical : Bool) (value : Bytes)
    → es ≡ record { id = eku_oid; critical = critical; value = value } ∷ []
    → purpose_of es usages ≡ time_stamping ∷ []
stamp_purpose es usages critical value extras =
    ap (λ xs. purpose_of xs usages) extras ∙ rw (equal_refl eku_oid) refl

issue-IsIssued :
    (t parent : Template) (pub_key key der : Bytes) (s s' : ℕ) (x : Certificate)
    → issue t parent pub_key key s ≡ some (der, s')
    → parse der ≡ some x
    → IsIssued toy toy_checks t pub_key key x
unfolding issue parse signer_of
issue-IsIssued t parent pub_key key der s s' x made parsed =
    elim (Option-cases (index_of table (t, pub_key, key))) [
      | inl nothing ↦ absurd (ground (arith, nothing))
      | inr (i, found) ↦
          let is : i ∷ [] ≡ der = ground (arith, found) in
          let entry = index_of-eq-some table (t, pub_key, key) i found in
          let same : certificate_of i (t, pub_key, key) ≡ x = ground (arith, is, entry) in
          subst (λ y. IsIssued toy toy_checks t pub_key key y) same
            (record {
              name_kept = refl;
              emails_kept = λ _. refl;
              ca_kept = λ _ valid. (ground (arith, valid), valid);
              no_ca = λ _ invalid. ground (arith, invalid);
              usage_kept = λ _ u. (λ m. m, λ m. m);
              purpose_kept = λ lacks. other_purpose t.extra_extensions t.ext_key_usage lacks;
              purpose_read = λ critical value _ extras.
                  stamp_purpose t.extra_extensions t.ext_key_usage critical value extras;
              start_kept = refl;
              stop_kept = refl;
              extensions_kept = All-of_mem _ t.extra_extensions (λ e m. m);
              subject_key = refl;
              parsed = rw (entry, parse);
              signed = rw (entry, signer_of) (equal_refl key);
            })
    ]

pub toy_laws : CryptoLaws toy toy_checks
toy_laws = record {
  issues = issue-IsIssued;
  signs = λ key digest sig s s' e.
      let is : key ++ digest ≡ sig = ground arith in rw (← is) (equal_refl (key ++ digest));
  requests = λ m query r made read. ground arith;
  responds = λ t leaf key tsr s s' holds e.
      let is : whole t.time ∷ (key ++ t.hashed_message) ≡ tsr = ground arith in
      rw (← is, holds) (equal_refl (key ++ t.hashed_message), refl);
  begin = at_time;
  steady = λ s. (omega arith, omega arith);
}

abbrev pub sample_signer : Signer
sample_signer = record {
  identity = demo_identity;
  issuer = demo_issuer;
  root_cert =
      certificate_of 0
        (ca_template 1 (bytes "autogov-agentgov-demo-root") start stop [], 0 ∷ [], 0 ∷ []);
  fulcio_intermediate = certificate_of 1 (
    ca_template 3 (bytes "autogov-agentgov-demo-fulcio") start stop (code_signing ∷ []),
    2 ∷ [],
    0 ∷ [],
  );
  fulcio_intermediate_key = 2 ∷ [];
  tsa_intermediate = certificate_of 2 (
    ca_template 5 (bytes "autogov-agentgov-demo-tsa") start stop (time_stamping ∷ []),
    4 ∷ [],
    0 ∷ [],
  );
  tsa_leaf = certificate_of 3 (
    leaf_template 7 (bytes "autogov-agentgov-demo-tsa-leaf") [] start stop [] usage_ext,
    6 ∷ [],
    4 ∷ [],
  );
  tsa_leaf_key = 6 ∷ [];
  validity_start = start;
  validity_end = stop;
}

pub sample_new_signer : new_signer toy (demo_identity) demo_issuer 0 ≡ ok (sample_signer, 8)
unfolding new_signer create_fulcio_intermediate create_tsa create_cert new_serial issue parse
    index_of entry_at Entry-discrete ℕ_discrete bytes whole equal
sample_new_signer = refl

pub sample_signs :
    (statement : Bytes) → sign_statement toy sample_signer statement 8 ≡ ok (statement, 8)
unfolding sign_statement signing_cert timestamp_response create_cert new_serial issue parse index_of
    entry_at Entry-discrete ℕ_discrete bytes whole equal dsse_pae decimal decimal_from
sample_signs statement = refl

sample-IsHierarchy :
    IsHierarchy toy toy_checks sample_signer
    × (sample_signer.identity ≡ demo_identity)
    × (sample_signer.issuer ≡ demo_issuer)
    × (sample_signer.validity_start ≡ (toy.now 0).0 - 3600 * second)
    × (sample_signer.validity_end ≡ (toy.now (toy.now 0).1).0 + 86400 * second)
sample-IsHierarchy =
    new_signer-IsHierarchy toy toy_checks toy_laws (demo_identity) demo_issuer 0 8 sample_signer
      sample_new_signer

new_signer_example :
    IsHierarchy toy toy_checks sample_signer
    × (sample_signer.identity ≡ demo_identity)
    × (sample_signer.issuer ≡ demo_issuer)
    × (sample_signer.validity_start ≡ (toy.now 0).0 - 3600 * second)
    × (sample_signer.validity_end ≡ (toy.now (toy.now 0).1).0 + 86400 * second)
new_signer_example =
    new_signer-IsHierarchy toy toy_checks toy_laws (demo_identity) demo_issuer 0 8 sample_signer
      sample_new_signer

sign_statement_example : IsVerified toy toy_checks sample_signer (bytes "{}") (bytes "{}")
sign_statement_example =
    sign_statement-IsVerified toy toy_checks toy_laws sample_signer (bytes "{}") (bytes "{}") 8 8
      sample-IsHierarchy.0 (sample_signs (bytes "{}"))

dsse_pae_example : (payload_type ≡ payload_type) × (bytes "{}" ≡ bytes "{}")
dsse_pae_example = dsse_pae_inj payload_type payload_type (bytes "{}") (bytes "{}") refl
