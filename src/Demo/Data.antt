-- ===== src/Demo/Data.antt =====
-- The data of cmd/demo/main.go, and the operating system that it calls.
use agent_governance_evidenc.Base.{ℕ, Bool, true, false, List, [], ◌∷◌, Option, Bytes, bytes, Error}
use agent_governance_evidenc.Evidence.{Deployment}
use agent_governance_evidenc.Evidence.Read.{File}
use agent_governance_evidenc.Testutil.{Binaries}

abbrev pub demo_identity : Bytes
demo_identity = bytes "agent-governance-demo@autogov.local"

abbrev pub demo_issuer : Bytes
demo_issuer = bytes "https://demo.autogov.local/oidc"

abbrev pub policy_uri : Bytes
policy_uri = bytes "https://github.com/liatrio/autogov/agent-governance/policy"

pub record CaseSpec : Type 0 where
  pub name : Bytes
  pub want_result : Bytes
  pub want_exit0 : Bool
  pub mandatory : Bool

abbrev pub case_spec : Bytes → Bytes → Bool → Bool → CaseSpec
case_spec name result exit0 mandatory = record {
  name = name;
  want_result = result;
  want_exit0 = exit0;
  mandatory = mandatory;
}

abbrev pub cases : List CaseSpec
cases =
    case_spec (bytes "allowed-action") (bytes "PASSED") true true
    ∷ case_spec (bytes "denied-action") (bytes "PASSED") true true
    ∷ case_spec (bytes "adapter-bypass") (bytes "FAILED") false true
    ∷ case_spec (bytes "no-policy-loaded") (bytes "FAILED") false true
    ∷ case_spec (bytes "unknown-outcome") (bytes "FAILED") false false
    ∷ []

-- A program that was run: whether it started (`ProcessState` is not nil), whether the error is nil,
-- and the exit code, which is -1 (none) where it was stopped by a signal.
pub record Process : Type 0 where
  pub started : Bool
  pub succeeds : Bool
  pub exit_code : Option ℕ

-- The operating system over the outside world: files, directories and programs.
pub record System (S : Type 0) : Type 0 where
  pub binaries : S → Binaries
  pub exists : Bytes → S → Bool
  pub absolute : Bytes → S → Option Bytes
  pub join : List Bytes → Bytes
  pub clean : Bytes → Bytes
  pub dir : Bytes → Bytes
  pub mkdir_all : Bytes → S → Bool × S
  pub mkdir : Bytes → S → Bool × S
  pub mkdir_temp : S → Option Bytes × S
  pub remove_all : Bytes → S → S
  pub write_file : Bytes → Bytes → S → Bool × S
  pub read_file : Bytes → S → Option Bytes
  pub open_file : Bytes → S → Option File
  pub execute : Bytes → List Bytes → S → Process × S
  -- `json.Marshal` of the evidence, and `json.Unmarshal` into the result of a summary.
  pub marshal_evidence : Deployment → Option Bytes
  pub verification_result : Bytes → Option Bytes

pub data Flags : Type 0 where
  help_requested : Flags
  refused : Error → Flags
  parsed : Bytes → Bytes → Bytes → Bytes → Bool → List Bytes → Flags
