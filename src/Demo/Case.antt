-- ===== src/Demo/Case.antt =====
-- The three parts of a case: the command that reproduces the body, the signatures, the verifier.
use agent_governance_evidenc.Base.{
  some_or-eq-ok, ◌≡◌, sym, ap, ◌∙◌, subst, Bool, true, false, ◌&&◌, [], ◌∷◌, some, Bytes, bytes,
  equal_iff, arith, plain, ok, guard_iff,
}
use agent_governance_evidenc.Demo.Data.{CaseSpec, Process, System}
use agent_governance_evidenc.Demo.{
  exited_zero, same_bool, bundle_lines, case_file, offline_arguments, read_vsa_result,
  compare_command, sign_case, enforce,
}
use agent_governance_evidenc.Demo.Steps.{
  >>=-eq-ok, pure, given-eq-ok, reading-eq-ok, changing-eq-ok, calling-eq-ok, drawing-eq-ok,
}
use agent_governance_evidenc.Demokit.{Wire, BuiltCase}
use agent_governance_evidenc.Demokit.Signer.Data.{Crypto, Signer}
use agent_governance_evidenc.Demokit.Signer.Chain.{Checks, CryptoLaws, IsHierarchy, IsVerified}
use agent_governance_evidenc.Demokit.Signer.Signed.{sign_statement-IsVerified}
use agent_governance_evidenc.Evidence.Host.{Host}

same_bool-eq : (a b : Bool) → same_bool a b ≡ true → a ≡ b
same_bool-eq true b e = sym e
same_bool-eq false b e = ground arith

and-eq-true : (a b : Bool) → (a && b) ≡ true → (a ≡ true) × (b ≡ true)
and-eq-true a b e = ground arith

pub pure-eq-ok :
    {R S A : Type 0} (a : A) (w w' : R × S) (b : A) → pure a w ≡ (ok b, w') → (a ≡ b) × (w ≡ w')
pure-eq-ok a w w' b e = let first : ok a ≡ ok b = ap (λ x. x.0) e in (ground arith, ap (λ x. x.1) e)

module _ {R S : Type 0} (h : Host) (k : Wire) (c : Crypto R) (y : System S) (v : Checks) where
  -- The command that was run on the completed evidence wrote the body that was built.
  pub record Reproduced (evidence_binary workdir producer : Bytes) (tc : CaseSpec)
      (built : BuiltCase) (before after : S) : Type 0 where
    pub completed : Bytes
    pub encodes : y.marshal_evidence built.evidence ≡ some completed
    pub written : S
    pub writes :
        y.write_file
          (case_file h k c y workdir producer tc (bytes "-evidence.json"))
          completed
          before
        ≡ (true, written)
    pub process : Process
    pub runs :
        y.execute evidence_binary
          (bytes "--evidence-path"
            ∷ case_file h k c y workdir producer tc (bytes "-evidence.json")
            ∷ bytes "--output"
            ∷ case_file h k c y workdir producer tc (bytes "-predicate.json")
            ∷ [])
          written
        ≡ (process, after)
    pub succeeds : process.succeeds ≡ true
    pub same_bytes :
        y.read_file (case_file h k c y workdir producer tc (bytes "-predicate.json")) after
        ≡ some built.predicate_body

  pub compare_command-Reproduced :
      (evidence_binary workdir producer : Bytes) (tc : CaseSpec) (built : BuiltCase) (w w' : R × S)
      → compare_command h k c y evidence_binary workdir producer tc built w ≡ (ok tt, w')
      → Reproduced evidence_binary workdir producer tc built w.1 w'.1
  unfolding compare_command
  compare_command-Reproduced evidence_binary workdir producer tc built w w' e =
      let (completed, w₁, made, e₁) = >>=-eq-ok _ _ w w' tt e in
      let (_, w₂, wrote, e₂) = >>=-eq-ok _ _ w₁ w' tt e₁ in
      let (p, w₃, ran, e₃) = >>=-eq-ok _ _ w₂ w' tt e₂ in
      let (_, w₄, passed, e₄) = >>=-eq-ok _ _ w₃ w' tt e₃ in
      let (content, w₅, read, e₅) = >>=-eq-ok _ _ w₄ w' tt e₄ in
      let encoded = given-eq-ok _ w w₁ completed made in
      let written = changing-eq-ok _ _ w₁ w₂ wrote in
      let ran' = calling-eq-ok _ w₂ w₃ p ran in
      let checked = given-eq-ok _ w₃ w₄ tt passed in
      let found = reading-eq-ok _ w₄ w₅ content read in
      let last = given-eq-ok _ w₅ w' tt e₅ in
      let same : content ≡ built.predicate_body = (equal_iff _ _).0 ((guard_iff _ _).0 last.0) in
      subst (λ u. Reproduced evidence_binary workdir producer tc built u.1 w'.1) (sym encoded.1)
        (subst (λ u. Reproduced evidence_binary workdir producer tc built w₁.1 u.1)
          (checked.1 ∙ found.1 ∙ last.1)
          (record {
            completed = completed;
            encodes = some_or-eq-ok _ (plain "json") completed encoded.0;
            written = w₂.1;
            writes = written.0;
            process = p;
            runs = ran'.0;
            succeeds = (guard_iff _ _).0 checked.0;
            same_bytes =
                ap
                  (λ u.
                    y.read_file (case_file h k c y workdir producer tc (bytes "-predicate.json"))
                      u.1)
                  checked.1
                ∙ some_or-eq-ok _ (plain "read predicate") content found.0
                ∙ ap some same;
          }))

  -- The file of attestations holds a verified bundle of each of the two statements.
  pub record Signed (g : Signer) (attestations : Bytes) (built : BuiltCase) (before after : S)
      : Type 0 where
    pub deployment : Bytes
    pub test_result : Bytes
    pub deployment_verified : IsVerified c v g built.deployment_statement deployment
    pub test_result_verified : IsVerified c v g built.test_result_statement test_result
    pub writes :
        y.write_file attestations (bundle_lines deployment test_result) before ≡ (true, after)

  module _ (laws : CryptoLaws c v) where
    pub sign_case-Signed :
        (g : Signer) (attestations : Bytes) (built : BuiltCase) (w w' : R × S)
        → IsHierarchy c v g
        → sign_case h k c y g attestations built w ≡ (ok tt, w')
        → Signed g attestations built w.1 w'.1
    unfolding sign_case
    sign_case-Signed g attestations built w w' holds e =
        let (deployment, w₁, first, e₁) = >>=-eq-ok _ _ w w' tt e in
        let (test_result, w₂, second, e₂) = >>=-eq-ok _ _ w₁ w' tt e₁ in
        let one = drawing-eq-ok _ w w₁ deployment first in
        let two = drawing-eq-ok _ w₁ w₂ test_result second in
        let written = changing-eq-ok _ _ w₂ w' e₂ in
        record {
          deployment = deployment;
          test_result = test_result;
          deployment_verified =
              sign_statement-IsVerified c v laws g built.deployment_statement deployment w.0 w₁.0
                holds one.0;
          test_result_verified =
              sign_statement-IsVerified c v laws g built.test_result_statement test_result w₁.0 w₂.0
                holds two.0;
          writes =
              ap (y.write_file attestations (bundle_lines deployment test_result)) (one.1 ∙ two.1)
              ∙ written.0;
        }

  -- The verifier exited as expected and wrote the expected result.
  pub record Enforced (autogov companion workdir trusted_root producer : Bytes) (tc : CaseSpec)
      (built : BuiltCase) (before after : S) : Type 0 where
    pub process : Process
    pub runs :
        y.execute autogov
          (offline_arguments h k c y companion
            (case_file h k c y workdir producer tc (bytes ".jsonl"))
            trusted_root
            (case_file h k c y workdir producer tc (bytes "-vsa.json"))
            built)
          before
        ≡ (process, after)
    pub started : process.started ≡ true
    pub exit_is : exited_zero process ≡ tc.want_exit0
    pub summary : Bytes
    pub reads :
        y.read_file (case_file h k c y workdir producer tc (bytes "-vsa.json")) after ≡ some summary
    pub result_is : y.verification_result summary ≡ some tc.want_result

  pub enforce-Enforced :
      (autogov companion workdir trusted_root producer : Bytes) (tc : CaseSpec) (built : BuiltCase)
      (w w' : R × S)
      → enforce h k c y autogov companion workdir trusted_root producer tc built w ≡ (ok true, w')
      → Enforced autogov companion workdir trusted_root producer tc built w.1 w'.1
  unfolding enforce read_vsa_result
  enforce-Enforced autogov companion workdir trusted_root producer tc built w w' e =
      let (q, w₁, ran, e₁) = >>=-eq-ok _ _ w w' true e in
      let (_, w₂, began, e₂) = >>=-eq-ok _ _ w₁ w' true e₁ in
      let (_, w₃, ended, e₃) = >>=-eq-ok _ _ w₂ w' true e₂ in
      let (result, w₄, read, e₄) = >>=-eq-ok _ _ w₃ w' true e₃ in
      let (summary, w₅, opened, e₅) = >>=-eq-ok _ _ w₃ w₄ result read in
      let ran' = calling-eq-ok _ w w₁ q ran in
      let began' = given-eq-ok _ w₁ w₂ tt began in
      let ended' = given-eq-ok _ w₂ w₃ tt ended in
      let found = reading-eq-ok _ w₃ w₅ summary opened in
      let decoded = given-eq-ok _ w₅ w₄ result e₅ in
      let (end, both) = pure-eq-ok _ w₄ w' true e₄ in
      let matches = and-eq-true _ _ end in
      let same = (equal_iff result tc.want_result).0 matches.0 in
      subst (λ u. Enforced autogov companion workdir trusted_root producer tc built w.1 u.1)
        (began'.1 ∙ ended'.1 ∙ found.1 ∙ decoded.1 ∙ both)
        (record {
          process = q;
          runs = ran'.0;
          started = (guard_iff _ _).0 began'.0;
          exit_is = same_bool-eq _ _ matches.1;
          summary = summary;
          reads =
              ap (λ u. y.read_file (case_file h k c y workdir producer tc (bytes "-vsa.json")) u.1)
                (began'.1 ∙ ended'.1)
              ∙ some_or-eq-ok _ (plain "no VSA result") summary found.0;
          result_is = some_or-eq-ok _ (plain "no VSA result") result decoded.0 ∙ ap some same;
        })
