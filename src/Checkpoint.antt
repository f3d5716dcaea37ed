-- ===== src/Checkpoint.antt =====
-- cmd/checkpoint/main.go: the verification of the committed manifest of SHA-256 digests. Flag
-- parsing, the file system and the JSON encoder are parameters.
pub mod Data
pub mod Order
mod Tests
pub mod Gather
pub mod Entries
pub mod Covers
pub mod Verify
pub mod PolicyFiles
pub mod PolicyDigest
use agent_governance_evidenc.Base.{
  Bool, true, false, not, ◌&&◌, ◌==◌, ◌||◌, List, [], ◌∷◌, ◌++◌, Option, none, some, Bytes, bytes,
  equal, contains, Error, plain, Result, ok, err, ◌>>=◌, ◌>>◌, guard, some_or, if◌then◌else◌,
}
use agent_governance_evidenc.Base.Sort.{sort}
use agent_governance_evidenc.Checkpoint.Data.{
  Entry, Manifest, entry_less, manifest_filename, baseline_commit, producers, case_names,
  frozen_inputs,
}
use agent_governance_evidenc.Cli.{Ending, help, failure, success, ending}
use agent_governance_evidenc.Demokit.{Wire, build_case}
use agent_governance_evidenc.Evidence.Host.{Host}
use agent_governance_evidenc.Evidence.Read.{Reader, end, broken, byte, File}

-- What `Parse` finds: a request for help, an error, or the flags -root, -write and -verify and the
-- other arguments.
pub data Flags : Type 0 where
  help_requested : Flags
  refused : Error → Flags
  parsed : Bytes → Bool → Bool → List Bytes → Flags

-- A call that `filepath.Walk` makes of its function: with an error, for a directory, or for
-- another file.
pub data Visit : Type 0 where
  unreadable : Error → Visit
  directory : Bytes → Visit
  file : Bytes → Visit

-- The file system as the command finds it, the functions of path/filepath that follow the
-- platform's conventions, and `json.MarshalIndent` of a manifest.
pub record System : Type 0 where
  pub absolute : Bytes → Option Bytes
  pub join : List Bytes → Bytes
  pub rel : Bytes → Bytes → Option Bytes
  pub from_slash : Bytes → Bytes
  pub to_slash : Bytes → Bytes
  pub open_file : Bytes → Option File
  pub read_file : Bytes → Option Bytes
  -- `os.Lstat`, and whether the mode is that of a regular file.
  pub lstat_regular : Bytes → Option Bool
  pub walk : Bytes → List Visit
  pub marshal_manifest : Manifest → Option Bytes

unfoldable pub has_separator : Bytes → Bool
has_separator [] = false
has_separator (c ∷ s) = c == b'/' || has_separator s

-- `filepath.Ext`: the text from the last dot on, if no separator follows that dot.
unfoldable pub ext : Bytes → Bytes
unfolding has_separator
ext [] = []
ext (c ∷ s) =
    let later = ext s in
    if not (equal later []) then later else if c == b'.' && not (has_separator s) then c ∷ s else []

-- Whether the policy digest takes a file in.
unfoldable pub is_policy_file : Bytes → Bool
unfolding ext
is_policy_file path =
    equal (ext path) (bytes ".rego")
    || equal (ext path) (bytes ".json")
    || equal (ext path) (bytes ".yaml")

-- `io.Copy` from a reader.
unfoldable pub copied : Reader → Result Bytes
copied end = ok []
copied broken = err (plain "read error")
copied (byte b r) = do rest ← copied r; ok (b ∷ rest)

-- A loop that appends what each element gives, and one that checks each.
unfoldable pub gather {ℓ κ} :
    {A : Type ℓ} {B : Type κ} → (A → Result (List B)) → List A → Result (List B)
gather f [] = ok []
gather f (x ∷ xs) = do found ← f x; rest ← gather f xs; ok (found ++ rest)

abbrev pub entry : Bytes → Bytes → Bytes → Entry
entry kind name sha256 = record { kind = kind; name = name; sha256 = sha256 }

abbrev pub fixture_name : Bytes → Bytes → Bytes
fixture_name producer case_name = producer ++ b'/' ∷ (case_name ++ bytes ".json")

-- The path of a frozen input, and of a case's evidence.
abbrev pub at_root : System → Bytes → Bytes → Bytes
at_root y root path = y.join (root ∷ y.from_slash path ∷ [])

abbrev pub fixture_path : System → Bytes → Bytes → Bytes → Bytes
fixture_path y root producer case_name =
    y.join
      (root ∷ bytes "fixtures" ∷ bytes "evidence" ∷ producer ∷ (case_name ++ bytes ".json") ∷ [])

module _ (h : Host) (k : Wire) (y : System) where
  unfoldable pub frozen_input_paths : Bytes → List Bytes → Result (List Bytes)
  frozen_input_paths root [] = ok []
  frozen_input_paths root (path ∷ paths) = do
    regular ← some_or (y.lstat_regular (at_root y root path)) (plain "resolve frozen input")
    guard regular (plain "frozen input must be a regular non-symlink file")
    rest ← frozen_input_paths root paths
    ok (path ∷ rest)

  unfoldable pub case_entries : Bytes → Bytes → Bytes → Result (List Entry)
  case_entries root producer case_name = do
    built ← build_case h k (y.open_file (fixture_path y root producer case_name))
    ok (
        entry (bytes "predicate-body") (fixture_name producer case_name)
          (k.sha256_hex built.predicate_body)
        ∷ entry (bytes "test-result-statement") (fixture_name producer case_name)
            (k.sha256_hex built.test_result_statement)
        ∷ [])

  unfoldable pub frozen_entry : Bytes → Bytes → Result (List Entry)
  frozen_entry root path = do
    content ← some_or (y.read_file (at_root y root path)) (plain "read frozen input")
    ok (entry (bytes "frozen-input") path (k.sha256_hex content) ∷ [])

  -- The function that `filepath.Walk` calls, on what was written to the hash before.
  unfoldable pub visit : Bytes → Visit → Bytes → Result Bytes
  unfolding is_policy_file copied
  visit dir (unreadable e) hashed = err e
  visit dir (directory path) hashed = ok hashed
  visit dir (file path) hashed =
      if is_policy_file path
      then (do
        rel ← some_or (y.rel dir path) (plain "relative path")
        opened ← some_or (y.open_file path) (plain "open")
        content ← copied opened.content
        guard opened.closes (plain "close")
        ok (hashed ++ (y.to_slash rel ++ content)))
      else ok hashed

  unfoldable pub visit_all : Bytes → List Visit → Bytes → Result Bytes
  unfolding visit
  visit_all dir [] hashed = ok hashed
  visit_all dir (v ∷ vs) hashed = do hashed' ← visit dir v hashed; visit_all dir vs hashed'

  unfoldable pub calculate_policy_directory_digest : Bytes → Result Bytes
  unfolding visit_all
  calculate_policy_directory_digest dir = do
    hashed ← visit_all dir (y.walk dir) []
    ok (k.sha256_hex hashed)

  -- The entries before they are sorted.
  unfoldable pub gather_entries : Bytes → Result (List Entry)
  unfolding gather case_entries frozen_entry
  gather_entries root = do
    frozen ← frozen_input_paths root frozen_inputs
    cases ← gather (λ p. gather (case_entries root p) case_names) producers
    digest ← calculate_policy_directory_digest (y.join (root ∷ bytes "policy" ∷ []))
    inputs ← gather (frozen_entry root) frozen
    ok (cases ++ entry (bytes "policy-bundle") (bytes "policy") digest ∷ inputs)

  -- `sort.Slice` is any sort by the comparison; no two entries tie.
  unfoldable pub build_manifest : Bytes → Result Bytes
  build_manifest root = do
    abs_root ← some_or (y.absolute root) (plain "resolve root")
    entries ← gather_entries abs_root
    output ←
        some_or
          (y.marshal_manifest (record {
            schema_version = bytes "1";
            baseline = baseline_commit;
            entries = sort entry_less entries;
          }))
          (plain "marshal manifest")
    ok (output ++ b'\n' ∷ [])

  unfoldable pub run : Flags → Ending
  run help_requested = help
  run (refused e) = failure e
  run (parsed root write verify (x ∷ xs)) = failure (plain "unexpected positional arguments")
  run (parsed root write verify []) = ending (do
    guard (not write) (plain "-write is disabled: the committed checkpoint is immutable")
    guard verify (plain "-verify is required: the post-checkpoint command is verify-only")
    data_ ← build_manifest root
    want ← some_or (y.read_file (y.join (root ∷ manifest_filename ∷ []))) (plain "read error")
    guard (equal data_ want) (plain "does not match generated checkpoint"))
