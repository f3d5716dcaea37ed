-- ===== src/Checkpoint/Entries.antt =====
-- What the entries record of each case and of each frozen input.
use mathlib.Core.List.{Mem, Perm, mem-cons_self, mem-cons_of_mem}
use agent_governance_evidenc.Base.{
  ◌≡◌, sym, ap, ◌∙◌, subst, true, List, [], ◌∷◌, some, Bytes, bytes, plain, ok, guard, guard_iff,
  some_or, some_or-eq-ok, ok-inj, >>=-eq-ok, arith, All, map,
}
use agent_governance_evidenc.Base.Sort.{IsSorted}
use agent_governance_evidenc.Checkpoint.Data.{
  Entry, entry_less, producers, case_names, frozen_inputs,
}
use agent_governance_evidenc.Checkpoint.{
  System, entry, fixture_name, at_root, fixture_path, frozen_input_paths, case_entries,
  frozen_entry, visit_all, calculate_policy_directory_digest,
}
use agent_governance_evidenc.Checkpoint.Order.{
  key, case_keys, frozen_keys, all_keys, is_ascii, IsAsciiKey,
}
use agent_governance_evidenc.Demokit.{Wire, BuiltCase, build_case}
use agent_governance_evidenc.Evidence.Host.{Host}
use agent_governance_evidenc.Checkpoint.Gather.{Within}

module _ (h : Host) (k : Wire) (y : System)
    (hex : (s : Bytes) → is_ascii (k.sha256_hex s) ≡ true) where
  pub frozen_input_paths-eq-ok :
      (root : Bytes) (paths found : List Bytes)
      → frozen_input_paths h k y root paths ≡ ok found
      → (found ≡ paths) × All (λ path. y.lstat_regular (at_root y root path) ≡ some true) paths
  unfolding frozen_input_paths
  frozen_input_paths-eq-ok root [] found e = (ground arith, tt)
  frozen_input_paths-eq-ok root (path ∷ paths) found e =
      let (regular, seen, e₁) = >>=-eq-ok (some_or (y.lstat_regular (at_root y root path)) _) _ e in
      let (_, is, e₂) = >>=-eq-ok (guard regular _) _ e₁ in
      let (rest, later, e₃) = >>=-eq-ok (frozen_input_paths h k y root paths) _ e₂ in
      let (same, others) = frozen_input_paths-eq-ok root paths rest later in
      let built : path ∷ rest ≡ found = ground arith in
      let yes : regular ≡ true = (guard_iff _ _).0 is in
      (
        cc (same, built),
        (
          some_or-eq-ok (y.lstat_regular (at_root y root path)) (plain "resolve frozen input")
                regular seen
              ∙ ap some yes,
          others,
        ),
      )

  -- What the entries record of a case, and of a frozen input.
  pub record CaseRecorded (root : Bytes) (es : List Entry) (producer case_name : Bytes)
      : Type 0 where
    pub built : BuiltCase
    pub builds : build_case h k (y.open_file (fixture_path y root producer case_name)) ≡ ok built
    pub body_recorded :
        Mem
          (entry
            (bytes "predicate-body")
            (fixture_name producer case_name)
            (k.sha256_hex built.predicate_body))
          es
    pub statement_recorded :
        Mem
          (entry
            (bytes "test-result-statement")
            (fixture_name producer case_name)
            (k.sha256_hex built.test_result_statement))
          es

  pub record InputRecorded (root : Bytes) (es : List Entry) (path : Bytes) : Type 0 where
    pub regular : y.lstat_regular (at_root y root path) ≡ some true
    pub content : Bytes
    pub reads : y.read_file (at_root y root path) ≡ some content
    pub recorded : Mem (entry (bytes "frozen-input") path (k.sha256_hex content)) es

  -- Each case, the policy and each frozen input has its entries, and there are no others.
  pub record Covers (root : Bytes) (es : List Entry) : Type 0 where
    pub sorted : IsSorted entry_less es
    pub keys : Perm (map key es) all_keys
    pub canonical : (fs : List Entry) → Perm fs es → IsSorted entry_less fs → fs ≡ es
    pub unique : (a b : Entry) → key a ≡ key b → Mem a es → Mem b es → a ≡ b
    pub cases : All (λ p. All (CaseRecorded root es p) case_names) producers
    pub inputs : All (InputRecorded root es) frozen_inputs
    pub digest : Bytes
    pub digest_is :
        calculate_policy_directory_digest h k y (y.join (root ∷ bytes "policy" ∷ [])) ≡ ok digest
    pub digests : All (λ e. is_ascii e.sha256 ≡ true) es
    pub ascii_keys : All (λ e. IsAsciiKey (key e)) es
    pub policy : Mem (entry (bytes "policy-bundle") (bytes "policy") digest) es

  pub case_entries-keys :
      (root p c : Bytes) (found : List Entry)
      → case_entries h k y root p c ≡ ok found
      → map key found ≡ case_keys p c
  unfolding case_entries
  case_entries-keys root p c found e =
      let (built, _, e₁) = >>=-eq-ok (build_case h k (y.open_file (fixture_path y root p c))) _ e in
      sym (ap (map key) (ok-inj e₁))

  pub frozen_entry-keys :
      (root path : Bytes) (found : List Entry)
      → frozen_entry h k y root path ≡ ok found
      → map key found ≡ frozen_keys path
  unfolding frozen_entry
  frozen_entry-keys root path found e =
      let (content, _, e₁) = >>=-eq-ok (some_or (y.read_file (at_root y root path)) _) _ e in
      sym (ap (map key) (ok-inj e₁))

  pub case_entries-digests :
      (root p c : Bytes) (found : List Entry)
      → case_entries h k y root p c ≡ ok found
      → All (λ e. is_ascii e.sha256 ≡ true) found
  unfolding case_entries
  case_entries-digests root p c found e =
      let (built, _, e₁) = >>=-eq-ok (build_case h k (y.open_file (fixture_path y root p c))) _ e in
      subst (All _) (ok-inj e₁) (hex built.predicate_body, (hex built.test_result_statement, tt))

  pub frozen_entry-digests :
      (root path : Bytes) (found : List Entry)
      → frozen_entry h k y root path ≡ ok found
      → All (λ e. is_ascii e.sha256 ≡ true) found
  unfolding frozen_entry
  frozen_entry-digests root path found e =
      let (content, _, e₁) = >>=-eq-ok (some_or (y.read_file (at_root y root path)) _) _ e in
      subst (All _) (ok-inj e₁) (hex content, tt)

  pub policy-digest :
      (dir digest : Bytes)
      → calculate_policy_directory_digest h k y dir ≡ ok digest
      → is_ascii digest ≡ true
  unfolding calculate_policy_directory_digest
  policy-digest dir digest e =
      let (hashed, _, e₁) = >>=-eq-ok (visit_all h k y dir (y.walk dir) []) _ e in
      subst (λ d. is_ascii d ≡ true) (ok-inj e₁) (hex hashed)

  pub Within-CaseRecorded :
      (root p c : Bytes) (es : List Entry)
      → Within (case_entries h k y root p) es c
      → CaseRecorded root es p c
  unfolding case_entries Within
  Within-CaseRecorded root p c es (found, made, within) =
      let (built, builds, e₁) =
        >>=-eq-ok (build_case h k (y.open_file (fixture_path y root p c))) _ made in
      let same = ok-inj e₁ in
      record {
        built = built;
        builds = builds;
        body_recorded = within _ (subst (Mem _) same mem-cons_self);
        statement_recorded = within _ (subst (Mem _) same (mem-cons_of_mem _ mem-cons_self));
      }

  pub Within-InputRecorded :
      (root path : Bytes) (es : List Entry)
      → y.lstat_regular (at_root y root path) ≡ some true
      → Within (frozen_entry h k y root) es path
      → InputRecorded root es path
  unfolding frozen_entry Within
  Within-InputRecorded root path es regular (found, made, within) =
      let (content, reads, e₁) = >>=-eq-ok (some_or (y.read_file (at_root y root path)) _) _ made in
      record {
        regular = regular;
        content = content;
        reads =
            some_or-eq-ok (y.read_file (at_root y root path)) (plain "read frozen input") content
              reads;
        recorded = within _ (subst (Mem _) (ok-inj e₁) mem-cons_self);
      }
