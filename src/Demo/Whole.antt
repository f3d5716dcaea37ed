-- ===== src/Demo/Whole.antt =====
-- What a whole run that succeeds has shown.
use agent_governance_evidenc.Base.{
  ◌≡◌, ap, ◌∙◌, Bool, true, Option, none, some, Bytes, plain, ok, guard_iff, some_or-eq-ok,
}
use agent_governance_evidenc.Demo.Data.{System}
use agent_governance_evidenc.Demo.{prepare_workdir, deferring, run}
use agent_governance_evidenc.Demo.Matched.{Demonstrated, demonstrate-Demonstrated}
use agent_governance_evidenc.Demo.Steps.{Io, >>=-eq-ok, reading-eq-ok}
use agent_governance_evidenc.Demokit.{Wire}
use agent_governance_evidenc.Demokit.Signer.Data.{Crypto}
use agent_governance_evidenc.Demokit.Signer.Chain.{Checks, CryptoLaws}
use agent_governance_evidenc.Evidence.Host.{Host}
use agent_governance_evidenc.Testutil.{validate_auto_gov_binary}

module _ {R S : Type 0} (h : Host) (k : Wire) (c : Crypto R) (y : System S) where
  deferring-eq-ok :
      (removed : Option Bytes) (m : Io R S (Unit {0})) (w w' : R × S)
      → deferring h k c y removed m w ≡ (ok tt, w')
      → (after : R × S) × (m w ≡ (ok tt, after))
  deferring-eq-ok none m w w' e = (w', e)
  deferring-eq-ok (some dir) m w w' e = ((m w).1, ap (λ r. (r.0, (m w).1)) e)

  module _ (v : Checks) (laws : CryptoLaws c v) (autogov evidence_binary companion : Bytes) where
    -- The checks in front passed, the directory was prepared, and the demonstration in it succeeded.
    pub record Shown (workdir : Bytes) (keep : Bool) (w : R × S) : Type 0 where
      pub path : Bytes
      pub verifier_is_valid : validate_auto_gov_binary (y.binaries w.1) autogov ≡ ok path
      pub binary_exists : y.exists evidence_binary w.1 ≡ true
      pub abs_companion : Bytes
      pub absolute : y.absolute companion w.1 ≡ some abs_companion
      pub dir : Bytes
      pub removed : Option Bytes
      pub before : R × S
      pub prepared : prepare_workdir h k c y workdir keep w ≡ (ok (dir, removed), before)
      pub after : R × S
      pub demonstrated :
          Demonstrated h k c y v laws autogov evidence_binary abs_companion dir before after

    -- Where the laws of the cryptography hold, with a clock that reads within five minutes, a run
    -- that succeeds has a valid verifier and an existing command and has prepared its directory;
    -- its signer is a hierarchy for the demonstration's identity whose trusted root was written,
    -- and for each of the ten cases in turn, allowed-action, denied-action, adapter-bypass, no-
    -- policy-loaded and unknown-outcome of the producers non-agt and agt: the case was built, the
    -- real command wrote the same body from it, both statements were signed in verified bundles,
    -- and the verifier that was given them exited and judged as expected, passing the first two
    -- and failing the other three.
    pub run-Shown :
        (workdir : Bytes) (keep : Bool) (w w' : R × S)
        → run h k c y autogov evidence_binary companion workdir keep w ≡ (ok tt, w')
        → Shown workdir keep w
    unfolding run
    run-Shown workdir keep w w' e =
        let (path, w₁, valid, e₁) = >>=-eq-ok _ _ w w' tt e in
        let (_, w₂, exists, e₂) = >>=-eq-ok _ _ w₁ w' tt e₁ in
        let (abs_companion, w₃, resolved, e₃) = >>=-eq-ok _ _ w₂ w' tt e₂ in
        let (prep, w₄, prepared, e₄) = >>=-eq-ok _ _ w₃ w' tt e₃ in
        let (after, demonstrated) = deferring-eq-ok prep.1 _ w₄ w' e₄ in
        let valid' = reading-eq-ok _ w w₁ path valid in
        let exists' = reading-eq-ok _ w₁ w₂ tt exists in
        let resolved' = reading-eq-ok _ w₂ w₃ abs_companion resolved in
        record {
          path = path;
          verifier_is_valid = valid'.0;
          binary_exists =
              ap (λ u. y.exists evidence_binary u.1) valid'.1 ∙ (guard_iff _ _).0 exists'.0;
          abs_companion = abs_companion;
          absolute =
              ap (λ u. y.absolute companion u.1) (valid'.1 ∙ exists'.1)
              ∙ some_or-eq-ok _ (plain "absolute path") abs_companion resolved'.0;
          dir = prep.0;
          removed = prep.1;
          before = w₄;
          prepared =
              ap (prepare_workdir h k c y workdir keep) (valid'.1 ∙ exists'.1 ∙ resolved'.1)
              ∙ prepared;
          after = after;
          demonstrated =
              demonstrate-Demonstrated h k c y v laws autogov evidence_binary abs_companion prep.0
                w₄ after demonstrated;
        }
