-- ===== src/Checkpoint/Tests.antt =====
-- A checkout in which every file has one content, whose manifest is committed.
use agent_governance_evidenc.Base.{
  ◌≡◌, refl, sym, ap, ◌↔◌, inl, inr, Bool, true, false, ◌&&◌, List, [], ◌∷◌, ◌++◌, Option, some,
  none, Bytes, bytes, equal, equal_iff, equal_refl, arith, all, map, ok, if◌then◌else◌, Bool-cases,
}
use agent_governance_evidenc.Base.Sort.{sort}
use agent_governance_evidenc.Checkpoint.Data.{
  Entry, Manifest, entry_less, manifest_filename, baseline_commit, producers, case_names,
  frozen_inputs,
}
use agent_governance_evidenc.Checkpoint.{
  Flags, parsed, Visit, directory, file, System, ext, has_separator, is_policy_file, copied, gather,
  entry, fixture_name, frozen_input_paths, case_entries, frozen_entry, visit, visit_all,
  calculate_policy_directory_digest, gather_entries, build_manifest, run,
}
use agent_governance_evidenc.Checkpoint.Order.{all_keys, is_ascii, each_of, case_keys}
use agent_governance_evidenc.Checkpoint.Covers.{Manifested, build_manifest-Manifested}
use agent_governance_evidenc.Checkpoint.Verify.{
  Verified, run_iff, Reads, SameCheckpoint, run_detects,
}
use agent_governance_evidenc.Checkpoint.PolicyFiles.{ArePolicyFiles}
use agent_governance_evidenc.Checkpoint.PolicyDigest.{
  IsReadable, AreParts, joined, calculate_policy_directory_digest_iff,
}
use agent_governance_evidenc.Cli.{success}
use agent_governance_evidenc.Demokit.Tests.{demo_host, sample_wire, demo_builds, repeated}
use agent_governance_evidenc.Evidence.Tests.Samples.{evidence_file}

abbrev some_digest : Bytes
some_digest = repeated 64 b'9'

abbrev sample_entries : List Entry
sample_entries = map (λ k. entry k.0 k.1 some_digest) all_keys

abbrev sample_manifest : Manifest
sample_manifest = record {
  schema_version = bytes "1";
  baseline = baseline_commit;
  entries = sort entry_less sample_entries;
}

same_entries : List Entry → List Entry → Bool
same_entries [] [] = true
same_entries (a ∷ as') (b ∷ bs) =
    equal a.kind b.kind && equal a.name b.name && equal a.sha256 b.sha256 && same_entries as' bs
same_entries _ _ = false

same_manifest : Manifest → Manifest → Bool
same_manifest m n =
    equal m.schema_version n.schema_version
    && equal m.baseline n.baseline
    && same_entries m.entries n.entries

same_entries_iff : (es fs : List Entry) → (same_entries es fs ≡ true) ↔ (es ≡ fs)
unfolding same_entries
same_entries_iff [] [] = (λ e. refl, λ e. refl)
same_entries_iff (a ∷ es) (b ∷ fs) = ground (
  arith,
  equal_iff a.kind b.kind,
  equal_iff a.name b.name,
  equal_iff a.sha256 b.sha256,
  same_entries_iff es fs,
)
same_entries_iff es fs = ground arith

same_manifest_iff : (m n : Manifest) → (same_manifest m n ≡ true) ↔ (m ≡ n)
unfolding same_manifest
same_manifest_iff m n = ground (
  arith,
  equal_iff m.schema_version n.schema_version,
  equal_iff m.baseline n.baseline,
  same_entries_iff m.entries n.entries,
)

unfoldable encode : Manifest → Option Bytes
encode m = if same_manifest m sample_manifest then some (bytes "{}") else none

decode : Bytes → Option Manifest
decode s = if equal s (bytes "{}") then some sample_manifest else none

-- The checkout at the path "c"; paths are joined without separators.
abbrev path_join : List Bytes → Bytes
path_join [] = []
path_join (p ∷ ps) = p ++ path_join ps

abbrev committed_path : Bytes
committed_path = path_join (bytes "c" ∷ manifest_filename ∷ [])

read_sample : Bytes → Option Bytes
read_sample path = if equal path committed_path then some (bytes "{}\n") else some (bytes "content")

decode-encode : (m : Manifest) (output : Bytes) → encode m ≡ some output → decode output ≡ some m
unfolding encode decode
decode-encode m output e = elim (Bool-cases (same_manifest m sample_manifest)) [
  | inr other ↦ absurd (ground (arith, other))
  | inl is ↦
      let out : bytes "{}" ≡ output = ground (arith, is) in
      rw (← out, equal_refl (bytes "{}"))
        (ap some (sym ((same_manifest_iff m sample_manifest).0 is)))
]

sample_hex : (s : Bytes) → is_ascii (sample_wire.sha256_hex s) ≡ true
unfolding is_ascii repeated all
sample_hex s = refl

-- The checkout with these files in the policy directory.
abbrev system_with : List Visit → System
system_with visits = record {
  absolute = λ path. some path;
  join = path_join;
  rel = λ dir path. some path;
  from_slash = λ path. path;
  to_slash = λ path. path;
  open_file = λ path. evidence_file;
  read_file = read_sample;
  lstat_regular = λ path. some true;
  walk = λ dir. visits;
  marshal_manifest = encode;
}

abbrev verifying : Flags
verifying = parsed (bytes "c") false true []

abbrev policy_dir : Bytes
policy_dir = path_join (bytes "c" ∷ bytes "policy" ∷ [])

module _ (visits : List Visit) where
  sample-Reads_back : Reads (system_with visits) decode
  sample-Reads_back = record { reads_back = λ m output a b c e. decode-encode m output e }

  sample_case_entries :
      (p c : Bytes)
      → case_entries demo_host sample_wire (system_with visits) (bytes "c") p c
        ≡ ok (
            entry (bytes "predicate-body") (fixture_name p c) some_digest
            ∷ entry (bytes "test-result-statement") (fixture_name p c) some_digest
            ∷ [])
  unfolding case_entries
  sample_case_entries p c = rw demo_builds refl

  sample_frozen :
      gather (frozen_entry demo_host sample_wire (system_with visits) (bytes "c")) frozen_inputs
      ≡ ok (map (λ path. entry (bytes "frozen-input") path some_digest) frozen_inputs)
  unfolding gather frozen_entry read_sample bytes equal repeated
  sample_frozen = refl

  sample_cases :
      gather
        (λ p.
          gather (case_entries demo_host sample_wire (system_with visits) (bytes "c") p) case_names)
        producers
      ≡ ok (
          map
            (λ k. entry k.0 k.1 some_digest)
            (each_of (λ p. each_of (case_keys p) case_names) producers))
  unfolding gather
  sample_cases = simp sample_case_entries

  sample_regular :
      frozen_input_paths demo_host sample_wire (system_with visits) (bytes "c") frozen_inputs
      ≡ ok frozen_inputs
  unfolding frozen_input_paths
  sample_regular = refl

  sample_gathers :
      calculate_policy_directory_digest demo_host sample_wire (system_with visits) policy_dir
        ≡ ok some_digest
      → gather_entries demo_host sample_wire (system_with visits) (bytes "c") ≡ ok sample_entries
  unfolding gather_entries all_keys
  sample_gathers digest = rw (sample_regular, sample_cases, digest, sample_frozen) refl

  sample_encodes : encode sample_manifest ≡ some (bytes "{}")
  unfolding encode
  sample_encodes = rw ((same_manifest_iff sample_manifest sample_manifest).1 refl) refl

  sample_builds :
      calculate_policy_directory_digest demo_host sample_wire (system_with visits) policy_dir
        ≡ ok some_digest
      → build_manifest demo_host sample_wire (system_with visits) (bytes "c") ≡ ok (bytes "{}\n")
  unfolding build_manifest bytes
  sample_builds digest = rw (sample_gathers digest, sample_encodes) refl

  sample_reads : read_sample committed_path ≡ some (bytes "{}\n")
  unfolding read_sample
  sample_reads = rw (equal_refl committed_path) refl

  sample-Verified :
      calculate_policy_directory_digest demo_host sample_wire (system_with visits) policy_dir
        ≡ ok some_digest
      → Verified demo_host sample_wire (system_with visits) verifying
  sample-Verified digest = record {
    root = bytes "c";
    data_ = bytes "{}\n";
    flags_are = refl;
    built = sample_builds digest;
    committed = sample_reads;
  }

  sample_run :
      calculate_policy_directory_digest demo_host sample_wire (system_with visits) policy_dir
        ≡ ok some_digest
      → run demo_host sample_wire (system_with visits) verifying ≡ success
  sample_run digest =
      (run_iff demo_host sample_wire (system_with visits) verifying).1 (sample-Verified digest)

-- Two checkouts with different files beside the policy.
abbrev sample_system : System
sample_system = system_with (
    directory (bytes "policy")
    ∷ file (bytes "README.md")
    ∷ file (bytes "agent_governance.rego")
    ∷ [])

abbrev other_system : System
other_system = system_with (
    directory (bytes "policy")
    ∷ file (bytes "agent_governance.rego")
    ∷ file (bytes "NOTES.md")
    ∷ [])

sample_digest :
    calculate_policy_directory_digest demo_host sample_wire sample_system policy_dir
    ≡ ok some_digest
unfolding calculate_policy_directory_digest visit_all visit is_policy_file ext has_separator bytes
    equal repeated copied
sample_digest = refl

other_digest :
    calculate_policy_directory_digest demo_host sample_wire other_system policy_dir ≡ ok some_digest
unfolding calculate_policy_directory_digest visit_all visit is_policy_file ext has_separator bytes
    equal repeated copied
other_digest = refl

run_iff_example :
    (run demo_host sample_wire sample_system verifying ≡ success)
    ↔ Verified demo_host sample_wire sample_system verifying
run_iff_example = run_iff demo_host sample_wire sample_system verifying

build_manifest_example :
    Manifested demo_host sample_wire sample_system sample_hex (bytes "c") (bytes "{}\n")
build_manifest_example =
    build_manifest-Manifested demo_host sample_wire sample_system sample_hex (bytes "c")
      (bytes "{}\n") (sample_builds _ sample_digest)

run_detects_example :
    (abs_root : Bytes) × (abs_root' : Bytes) × (some (bytes "c") ≡ some abs_root)
    × (some (bytes "c") ≡ some abs_root')
    × SameCheckpoint demo_host sample_wire sample_hex sample_system other_system abs_root abs_root'
run_detects_example =
    run_detects demo_host sample_wire sample_hex sample_system other_system decode
      (sample-Reads_back _) (sample-Reads_back _) (bytes "c") (bytes "c")
      (sample_run _ sample_digest) (sample_run _ other_digest) refl

policy_digest_example :
    (calculate_policy_directory_digest demo_host sample_wire other_system policy_dir
      ≡ ok some_digest)
    ↔ (IsReadable (other_system.walk policy_dir)
        × ((paths : List Bytes) × ArePolicyFiles (other_system.walk policy_dir) paths
            × ((parts : List Bytes) × AreParts demo_host sample_wire other_system policy_dir paths
                  parts
                × (some_digest ≡ sample_wire.sha256_hex (joined parts)))))
policy_digest_example =
    calculate_policy_directory_digest_iff demo_host sample_wire other_system policy_dir some_digest
