-- ===== src/Cli/Tests.antt =====
-- The command line on the sample evidence.
use agent_governance_evidenc.Base.{
  ◌≡◌, ◌≢◌, refl, List, [], none, some, Bytes, bytes, equal, if◌then◌else◌, inl,
}
use agent_governance_evidenc.Evidence.Tests.Samples.{
  sample_host, evidence_file, answers, refusing, empty_world, target,
}
use agent_governance_evidenc.Evidence.Tests.Runs.{
  sample_commits, sample_fails, sample_target_is_named, sample_temporary_is_apart,
  sample_target_is_apart,
}
use agent_governance_evidenc.Evidence.Generate.Laws.{Prepared}
use agent_governance_evidenc.Base.{equal, bytes}
use agent_governance_evidenc.Evidence.Generate.{generate_deployment, prepare}
use agent_governance_evidenc.Evidence.Read.{read_evidence_file}
use agent_governance_evidenc.Cli.{parsed, run, report, execute, execute_fails, execute_succeeds}

abbrev evidence_path : Bytes
evidence_path = bytes "evidence.json"

sample_exits_0 :
    (execute sample_host
      (λ _. evidence_file)
      answers
      empty_world
      (parsed evidence_path target [])).0
    ≡ 0
unfolding bytes equal run report execute
sample_exits_0 = rw sample_commits refl

sample_exits_1 :
    (execute sample_host
      (λ _. evidence_file)
      refusing
      empty_world
      (parsed evidence_path target [])).0
    ≡ 1
unfolding bytes equal run report execute
sample_exits_1 = rw sample_fails refl

abbrev empty_arguments : List Bytes
empty_arguments = []

-- A file that does not open.
sample_exits_1_unopened :
    (execute sample_host (λ _. none) answers empty_world (parsed evidence_path target [])).0 ≡ 1
unfolding bytes equal run report execute generate_deployment prepare read_evidence_file
sample_exits_1_unopened = refl

execute_fails_example :
    ((execute sample_host
        (λ _. evidence_file)
        refusing
        empty_world
        (parsed evidence_path target [])).1
      ≢ none)
    × ((execute sample_host
          (λ _. evidence_file)
          refusing
          empty_world
          (parsed evidence_path target [])).2.stdout
        ≡ empty_world.stdout)
    × ((execute sample_host
            (λ _. evidence_file)
            refusing
            empty_world
            (parsed evidence_path target [])).2.files
          target
        ≡ empty_world.files target)
execute_fails_example =
    execute_fails sample_host (λ _. evidence_file) refusing empty_world evidence_path target target
      [] sample_target_is_named (inl sample_target_is_apart) sample_exits_1

execute_succeeds_example :
    (empty_arguments ≡ [])
    × ((output : Bytes) × Prepared sample_host evidence_file output
        × ((p : Bytes)
            → (execute sample_host
                  (λ _. evidence_file)
                  answers
                  empty_world
                  (parsed evidence_path target [])).2.files
                p
              ≡ (if equal target p
                  then some output
                  else if equal answers.temporary p
                  then none
                  else empty_world.files p)))
execute_succeeds_example =
    execute_succeeds sample_host (λ _. evidence_file) answers empty_world evidence_path target
      empty_arguments sample_target_is_named sample_temporary_is_apart sample_exits_0
