-- ===== src/Checkpoint/Data.antt =====
-- The data of cmd/checkpoint/main.go: what the manifest covers, its entries and their order.
use agent_governance_evidenc.Base.{Bool, List, [], ◌∷◌, Bytes, bytes, equal, if◌then◌else◌}
use agent_governance_evidenc.Base.Order.{less}

abbrev pub manifest_filename : Bytes
manifest_filename = bytes "checkpoint.sha256.json"

abbrev pub baseline_commit : Bytes
baseline_commit = bytes "c11a1b0fbe02de266ba11963abedd0d07f427be9"

abbrev pub producers : List Bytes
producers = bytes "agt" ∷ bytes "non-agt" ∷ []

abbrev pub case_names : List Bytes
case_names =
    bytes "allowed-action"
    ∷ bytes "denied-action"
    ∷ bytes "adapter-bypass"
    ∷ bytes "no-policy-loaded"
    ∷ bytes "unknown-outcome"
    ∷ []

pub record Entry : Type 0 where
  pub kind : Bytes
  pub name : Bytes
  pub sha256 : Bytes

pub record Manifest : Type 0 where
  pub schema_version : Bytes
  pub baseline : Bytes
  pub entries : List Entry

-- The comparison that sorts the entries: by kind, and by name within a kind.
unfoldable pub entry_less : Entry → Entry → Bool
entry_less a b = if equal a.kind b.kind then less a.name b.name else less a.kind b.kind

abbrev pub frozen_inputs : List Bytes
frozen_inputs =
    bytes "adapters/agt/lock.sh"
    ∷ bytes "adapters/agt/pins.json"
    ∷ bytes "adapters/agt/producer.py"
    ∷ bytes "adapters/agt/requirements.lock.txt"
    ∷ bytes "adapters/agt/runtime_policy.yaml"
    ∷ bytes "adapters/agt/setup.sh"
    ∷ bytes "adapters/agt/verify_pins.sh"
    ∷ bytes "adapters/non-agt/producer.py"
    ∷ bytes "adapters/non-agt/runtime_policy.json"
    ∷ bytes "adapters/non-agt/toy_runtime.py"
    ∷ bytes "fixtures/agent/agent-image.txt"
    ∷ bytes "fixtures/evidence/agt/adapter-bypass.json"
    ∷ bytes "fixtures/evidence/agt/allowed-action.json"
    ∷ bytes "fixtures/evidence/agt/denied-action.json"
    ∷ bytes "fixtures/evidence/agt/no-policy-loaded.json"
    ∷ bytes "fixtures/evidence/agt/records/agt-adapter-bypass-001-outcome.json"
    ∷ bytes "fixtures/evidence/agt/records/agt-allowed-action-001-decision.json"
    ∷ bytes "fixtures/evidence/agt/records/agt-allowed-action-001-outcome.json"
    ∷ bytes "fixtures/evidence/agt/records/agt-denied-action-001-decision.json"
    ∷ bytes "fixtures/evidence/agt/records/agt-denied-action-001-outcome.json"
    ∷ bytes "fixtures/evidence/agt/records/agt-no-policy-loaded-001-decision.json"
    ∷ bytes "fixtures/evidence/agt/records/agt-no-policy-loaded-001-outcome.json"
    ∷ bytes "fixtures/evidence/agt/records/agt-unknown-outcome-001-decision.json"
    ∷ bytes "fixtures/evidence/agt/records/audit-config.json"
    ∷ bytes "fixtures/evidence/agt/records/audit-sink.json"
    ∷ bytes "fixtures/evidence/agt/records/identity.json"
    ∷ bytes "fixtures/evidence/agt/records/no-policy.json"
    ∷ bytes "fixtures/evidence/agt/unknown-outcome.json"
    ∷ bytes "fixtures/evidence/non-agt/adapter-bypass.json"
    ∷ bytes "fixtures/evidence/non-agt/allowed-action.json"
    ∷ bytes "fixtures/evidence/non-agt/denied-action.json"
    ∷ bytes "fixtures/evidence/non-agt/no-policy-loaded.json"
    ∷ bytes "fixtures/evidence/non-agt/records/audit-config.json"
    ∷ bytes "fixtures/evidence/non-agt/records/audit-sink.json"
    ∷ bytes "fixtures/evidence/non-agt/records/identity.json"
    ∷ bytes "fixtures/evidence/non-agt/records/no-policy.json"
    ∷ bytes "fixtures/evidence/non-agt/records/non-agt-adapter-bypass-001-outcome.json"
    ∷ bytes "fixtures/evidence/non-agt/records/non-agt-allowed-action-001-decision.json"
    ∷ bytes "fixtures/evidence/non-agt/records/non-agt-allowed-action-001-outcome.json"
    ∷ bytes "fixtures/evidence/non-agt/records/non-agt-denied-action-001-decision.json"
    ∷ bytes "fixtures/evidence/non-agt/records/non-agt-denied-action-001-outcome.json"
    ∷ bytes "fixtures/evidence/non-agt/records/non-agt-no-policy-loaded-001-decision.json"
    ∷ bytes "fixtures/evidence/non-agt/records/non-agt-no-policy-loaded-001-outcome.json"
    ∷ bytes "fixtures/evidence/non-agt/records/non-agt-unknown-outcome-001-decision.json"
    ∷ bytes "fixtures/evidence/non-agt/unknown-outcome.json"
    ∷ bytes "fixtures/write_marker.py"
    ∷ bytes "policy/agent_governance.rego"
    ∷ []
