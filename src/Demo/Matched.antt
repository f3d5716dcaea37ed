-- ===== src/Demo/Matched.antt =====
-- What a case that matches has shown, and a demonstration that succeeds.
use agent_governance_evidenc.Base.{
  ◌≡◌, sym, ap, ◌∙◌, subst, ℕ, suc, ==_iff, Bool, true, List, [], ◌∷◌, ◌++◌, Bytes, bytes, arith,
  ok, guard_iff, if◌then◌else◌,
}
use agent_governance_evidenc.Demo.Expected.{expected_jobs}
use agent_governance_evidenc.Demo.Data.{CaseSpec, System, demo_identity, demo_issuer}
use agent_governance_evidenc.Demo.{jobs, pairs, case_file, run_case, run_cases, demonstrate}
use agent_governance_evidenc.Demo.Steps.{
  >>=-eq-ok, given-eq-ok, reading-eq-ok, changing-eq-ok, drawing-eq-ok,
}
use agent_governance_evidenc.Demokit.{Wire, BuiltCase, build_case}
use agent_governance_evidenc.Demokit.Signer.Data.{Crypto, Signer}
use agent_governance_evidenc.Demokit.Signer.{trusted_root_json}
use agent_governance_evidenc.Demokit.Signer.Chain.{Checks, CryptoLaws, IsHierarchy}
use agent_governance_evidenc.Demokit.Signer.Hierarchy.{new_signer-IsHierarchy}
use agent_governance_evidenc.Evidence.Host.{Host}
use agent_governance_evidenc.Demo.Case.{
  pure-eq-ok, compare_command-Reproduced, sign_case-Signed, enforce-Enforced, Reproduced, Signed,
  Enforced,
}

counted :
    (matched : Bool) (failures : ℕ)
    → (if matched then failures else suc failures) ≡ 0
    → (matched ≡ true) × (failures ≡ 0)
counted matched failures e = ground arith

module _ {R S : Type 0} (h : Host) (k : Wire) (c : Crypto R) (y : System S) (v : Checks) where
  -- A case that matched, from one state of the world to another.
  pub record Matched (g : Signer) (autogov evidence_binary companion workdir trusted_root : Bytes)
      (producer : Bytes) (tc : CaseSpec) (before after : R × S) : Type 0 where
    pub built : BuiltCase
    pub builds :
        build_case h k (
          y.open_file
            (y.join (
              companion
              ∷ bytes "fixtures"
              ∷ bytes "evidence"
              ∷ producer
              ∷ (tc.name ++ bytes ".json")
              ∷ []))
            before.1)
        ≡ ok built
    pub compared : S
    pub reproduced :
        Reproduced h k c y v evidence_binary workdir producer tc built before.1 compared
    pub stored : S
    pub signed :
        Signed h k c y v g
          (case_file h k c y workdir producer tc (bytes ".jsonl"))
          built
          compared
          stored
    pub enforced :
        Enforced h k c y v autogov companion workdir trusted_root producer tc built stored after.1

  -- The cases matched one after the other.
  abbrev pub AllMatched :
      Signer
      → Bytes
      → Bytes
      → Bytes
      → Bytes
      → Bytes
      → List (Bytes × CaseSpec)
      → R × S
      → R × S
      → Type 0
  AllMatched g autogov evidence_binary companion workdir trusted_root [] w w' = w ≡ w'
  AllMatched g autogov evidence_binary companion workdir trusted_root ((producer, tc) ∷ rest) w w' =
      (u : R × S) × Matched g autogov evidence_binary companion workdir trusted_root producer tc w u
      × AllMatched g autogov evidence_binary companion workdir trusted_root rest u w'

  module _ (laws : CryptoLaws c v) (autogov evidence_binary companion : Bytes) where
    run_case-Matched :
        (workdir trusted_root : Bytes) (g : Signer) (producer : Bytes) (tc : CaseSpec)
        (w w' : R × S)
        → IsHierarchy c v g
        → run_case h k c y autogov evidence_binary companion workdir trusted_root g producer tc w
          ≡ (ok true, w')
        → Matched g autogov evidence_binary companion workdir trusted_root producer tc w w'
    unfolding run_case
    run_case-Matched workdir trusted_root g producer tc w w' holds e =
        let (built, w₁, made, e₁) = >>=-eq-ok _ _ w w' true e in
        let (_, w₂, compared, e₂) = >>=-eq-ok _ _ w₁ w' true e₁ in
        let (_, w₃, signed, e₃) = >>=-eq-ok _ _ w₂ w' true e₂ in
        let read = reading-eq-ok _ w w₁ built made in
        record {
          built = built;
          builds = read.0;
          compared = w₂.1;
          reproduced =
              subst (λ u. Reproduced h k c y v evidence_binary workdir producer tc built u.1 w₂.1)
                (sym read.1)
                (compare_command-Reproduced h k c y v evidence_binary workdir producer tc built w₁
                  w₂ compared);
          stored = w₃.1;
          signed =
              sign_case-Signed h k c y v laws g
                (case_file h k c y workdir producer tc (bytes ".jsonl")) built w₂ w₃ holds signed;
          enforced =
              enforce-Enforced h k c y v autogov companion workdir trusted_root producer tc built w₃
                w' e₃;
        }

    run_cases-AllMatched :
        (workdir trusted_root : Bytes) (g : Signer) (todo : List (Bytes × CaseSpec)) (w w' : R × S)
        → IsHierarchy c v g
        → run_cases h k c y autogov evidence_binary companion workdir trusted_root g todo w
          ≡ (ok 0, w')
        → AllMatched g autogov evidence_binary companion workdir trusted_root todo w w'
    unfolding run_cases
    run_cases-AllMatched workdir trusted_root g [] w w' holds e = (pure-eq-ok _ w w' 0 e).1
    run_cases-AllMatched workdir trusted_root g ((producer, tc) ∷ rest) w w' holds e =
        let (matched, w₁, first, e₁) = >>=-eq-ok _ _ w w' 0 e in
        let (failures, w₂, others, e₂) = >>=-eq-ok _ _ w₁ w' 0 e₁ in
        let (count, last) = pure-eq-ok _ w₂ w' 0 e₂ in
        let (yes_matched, none_failed) = counted matched failures count in
        (
          w₁,
          run_case-Matched workdir trusted_root g producer tc w w₁ holds
              (first ∙ ap (λ b. (ok b, w₁)) yes_matched),
          run_cases-AllMatched workdir trusted_root g rest w₁ w' holds
              (others ∙ cc (none_failed, last)),
        )

    -- What a demonstration that succeeds has shown, the ten cases being written out in Expected.
    pub record Demonstrated (workdir : Bytes) (w w' : R × S) : Type 0 where
      pub signer : Signer
      pub hierarchy : IsHierarchy c v signer
      pub identity_is : signer.identity ≡ demo_identity
      pub issuer_is : signer.issuer ≡ demo_issuer
      pub root_json : Bytes
      pub exported : trusted_root_json c signer ≡ ok root_json
      pub start : R × S
      pub published :
          y.write_file (y.join (workdir ∷ bytes "trusted-root.json" ∷ [])) root_json w.1
          ≡ (true, start.1)
      pub all_matched :
          AllMatched signer autogov evidence_binary companion workdir
            (y.join (workdir ∷ bytes "trusted-root.json" ∷ []))
            expected_jobs
            start
            w'

    -- A demonstration that succeeds has shown this, where the laws of the cryptography hold.
    pub demonstrate-Demonstrated :
        (workdir : Bytes) (w w' : R × S)
        → demonstrate h k c y autogov evidence_binary companion workdir w ≡ (ok tt, w')
        → Demonstrated workdir w w'
    unfolding demonstrate pairs
    demonstrate-Demonstrated workdir w w' e =
        let (g, w₁, made, e₁) = >>=-eq-ok _ _ w w' tt e in
        let (root_json, w₂, exported, e₂) = >>=-eq-ok _ _ w₁ w' tt e₁ in
        let (_, w₃, wrote, e₃) = >>=-eq-ok _ _ w₂ w' tt e₂ in
        let (failures, w₄, ran, e₄) = >>=-eq-ok _ _ w₃ w' tt e₃ in
        let drawn = drawing-eq-ok _ w w₁ g made in
        let known = new_signer-IsHierarchy c v laws demo_identity demo_issuer w.0 w₁.0 g drawn.0 in
        let out = given-eq-ok _ w₁ w₂ root_json exported in
        let written = changing-eq-ok _ _ w₂ w₃ wrote in
        let last = given-eq-ok _ w₄ w' tt e₄ in
        let none_failed : failures ≡ 0 = (==_iff failures 0).0 ((guard_iff _ _).0 last.0) in
        record {
          signer = g;
          hierarchy = known.0;
          identity_is = known.1;
          issuer_is = known.2;
          root_json = root_json;
          exported = out.0;
          start = w₃;
          published =
              ap (λ s. y.write_file (y.join (workdir ∷ bytes "trusted-root.json" ∷ [])) root_json s)
                (drawn.1 ∙ ap (λ u. u.1) out.1)
              ∙ written.0;
          all_matched =
              run_cases-AllMatched workdir _ g jobs w₃ w' known.0 (ran ∙ cc (none_failed, last.1));
        }
