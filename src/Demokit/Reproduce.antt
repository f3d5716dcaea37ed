-- ===== src/Demokit/Reproduce.antt =====
-- The real command on the completed evidence, which the demonstration compares with what it built.
use agent_governance_evidenc.Base.{
  ◌≡◌, ◌≢◌, refl, true, [], Option, some, Bytes, equal-ne, equal_refl, ok,
}
use agent_governance_evidenc.Cli.{parsed, execute, run, report}
use agent_governance_evidenc.Demokit.{Wire, BuiltCase, build_parsed_case}
use agent_governance_evidenc.Demokit.Laws.{build_parsed_case_sound}
use agent_governance_evidenc.Evidence.{Deployment}
use agent_governance_evidenc.Evidence.Generate.{parse, prepare, generate_deployment}
use agent_governance_evidenc.Evidence.Generate.Laws.{generate_stable}
use agent_governance_evidenc.Evidence.Host.{Host, TimeLaws, JsonLaws}
use agent_governance_evidenc.Evidence.Output.{World, Answers, write_output, commit, rename}
use agent_governance_evidenc.Evidence.Read.{File, read_evidence_file}

-- The operating system refuses no call.
pub record AllSucceed (a : Answers) : Type 0 where
  pub creates : a.creates ≡ true
  pub writes : a.writes ≡ true
  pub closes : a.closes ≡ true
  pub renames : a.renames ≡ true

module _ (h : Host) (k : Wire) (times : TimeLaws h) (jsons : JsonLaws h) where
  prepare_reproduces :
      (d : Deployment) (b : BuiltCase) (file : Option File) (input : Bytes)
      → build_parsed_case h k d ≡ ok b
      → read_evidence_file file ≡ ok input
      → parse h input ≡ ok b.evidence
      → prepare h file ≡ ok b.predicate_body
  unfolding prepare
  prepare_reproduces d b file input built read parses =
      let known = build_parsed_case_sound h k d b built in
      let again = generate_stable h times jsons _ b.evidence b.predicate_body known.generates in
      rw (read, parses, again) refl

  module _ (open_file : Bytes → Option File) (a : Answers) (w : World) where
    -- Where the time and JSON laws hold and the operating system refuses no call: if a case was
    -- built and a file is read back as its evidence, the command on that file exits with 0 and
    -- leaves in the output file, byte for byte, the predicate body that was built.
    pub execute_reproduces :
        (d : Deployment) (b : BuiltCase) (input evidence_path output_path : Bytes)
        → build_parsed_case h k d ≡ ok b
        → read_evidence_file (open_file evidence_path) ≡ ok input
        → parse h input ≡ ok b.evidence
        → AllSucceed a
        → evidence_path ≢ []
        → output_path ≢ []
        → ((execute h open_file a w (parsed evidence_path output_path [])).0 ≡ 0)
          × ((execute h open_file a w (parsed evidence_path output_path [])).2.files output_path
              ≡ some b.predicate_body)
    unfolding execute run report generate_deployment write_output commit rename
    execute_reproduces d b input evidence_path output_path built read parses works given named =
        let prepared = prepare_reproduces d b (open_file evidence_path) input built read parses in
        rw
          (
            equal-ne given,
            prepared,
            equal-ne named,
            works.creates,
            works.writes,
            works.closes,
            works.renames,
            equal_refl output_path,
            execute,
            run,
            report,
            generate_deployment,
            write_output,
            commit,
            rename,
          )
          (refl, rw (equal_refl a.temporary) refl)
