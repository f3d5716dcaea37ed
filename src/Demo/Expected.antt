-- ===== src/Demo/Expected.antt =====
-- The ten cases of the demonstration of cmd/demo/main.go, written out: the five cases of each of the
-- two producers, with the result and the exit that are expected of the verifier.
use agent_governance_evidenc.Base.{Bool, true, false, List, [], ◌∷◌, Bytes, bytes}
use agent_governance_evidenc.Demo.Data.{CaseSpec}

-- A case of a producer: its name, the result, whether the exit code is 0, and whether it is one of
-- the four mandatory cases.
abbrev pub expect : Bytes → Bytes → Bytes → Bool → Bool → Bytes × CaseSpec
expect producer name result exit0 mandatory = (
  producer,
  record { name = name; want_result = result; want_exit0 = exit0; mandatory = mandatory },
)

abbrev pub expected_jobs : List (Bytes × CaseSpec)
expected_jobs =
    expect (bytes "non-agt") (bytes "allowed-action") (bytes "PASSED") true true
    ∷ expect (bytes "non-agt") (bytes "denied-action") (bytes "PASSED") true true
    ∷ expect (bytes "non-agt") (bytes "adapter-bypass") (bytes "FAILED") false true
    ∷ expect (bytes "non-agt") (bytes "no-policy-loaded") (bytes "FAILED") false true
    ∷ expect (bytes "non-agt") (bytes "unknown-outcome") (bytes "FAILED") false false
    ∷ expect (bytes "agt") (bytes "allowed-action") (bytes "PASSED") true true
    ∷ expect (bytes "agt") (bytes "denied-action") (bytes "PASSED") true true
    ∷ expect (bytes "agt") (bytes "adapter-bypass") (bytes "FAILED") false true
    ∷ expect (bytes "agt") (bytes "no-policy-loaded") (bytes "FAILED") false true
    ∷ expect (bytes "agt") (bytes "unknown-outcome") (bytes "FAILED") false false
    ∷ []
