-- ===== src/Checkpoint/Verify.antt =====
-- What a verification that passes means, and what it detects.
use mathlib.Core.List.{Mem, append_cancel_right}
use agent_governance_evidenc.Base.{
  some_or-eq-ok, ◌≡◌, refl, sym, ap, ◌∙◌, subst, ◌↔◌, true, false, not, ◌&&◌, all, List, [], ◌∷◌,
  Option, some, Bytes, bytes, equal_iff, plain, Result, ok, err, guard, guard_iff, some_or,
  >>=-eq-ok, arith, All, All-zip, All-map,
}
use agent_governance_evidenc.Checkpoint.Data.{
  Entry, Manifest, manifest_filename, baseline_commit, producers, case_names, frozen_inputs,
}
use agent_governance_evidenc.Checkpoint.{
  Flags, parsed, System, entry, at_root, fixture_path, calculate_policy_directory_digest,
  build_manifest, run,
}
use agent_governance_evidenc.Checkpoint.Order.{key, is_ascii, IsAsciiKey}
use agent_governance_evidenc.Checkpoint.Covers.{Manifested, build_manifest-Manifested}
use agent_governance_evidenc.Checkpoint.Entries.{Covers, CaseRecorded, InputRecorded}
use agent_governance_evidenc.Cli.{success, ending}
use agent_governance_evidenc.Demokit.{Wire, BuiltCase, build_case}
use agent_governance_evidenc.Evidence.Host.{Host}

ending-success : (r : Result (Unit {0})) → ending r ≡ success → r ≡ ok tt
ending-success (ok tt) e = refl
ending-success (err x) e = absurd (ground arith)

module _ (h : Host) (k : Wire) (y : System) where
  -- The flags of a verification whose manifest is the committed one.
  pub record Verified (flags : Flags) : Type 0 where
    pub root : Bytes
    pub data_ : Bytes
    pub flags_are : flags ≡ parsed root false true []
    pub built : build_manifest h k y root ≡ ok data_
    pub committed : y.read_file (y.join (root ∷ manifest_filename ∷ [])) ≡ some data_

  run-eq-success : (flags : Flags) → run h k y flags ≡ success → Verified flags
  unfolding run
  run-eq-success (parsed root write verify []) e =
      let (_, no_write, e₁) = >>=-eq-ok (guard (not write) _) _ (ending-success _ e) in
      let (_, asked, e₂) = >>=-eq-ok (guard verify _) _ e₁ in
      let (data_, built, e₃) = >>=-eq-ok (build_manifest h k y root) _ e₂ in
      let (want, read, e₄) = >>=-eq-ok (some_or (y.read_file _) _) _ e₃ in
      let same : data_ ≡ want = (equal_iff data_ want).0 ((guard_iff _ _).0 e₄) in
      let unset : write ≡ false = ground (
        arith,
        guard_iff (not write) (plain "-write is disabled: the committed checkpoint is immutable"),
      ) in
      let set : verify ≡ true = (guard_iff _ _).0 asked in
      record {
        root = root;
        data_ = data_;
        flags_are = cc (unset, set);
        built = built;
        committed = some_or-eq-ok _ (plain "read error") want read ∙ ap some (sym same);
      }
  run-eq-success _ e = absurd (ground arith)

  success-of_Verified : (flags : Flags) → Verified flags → run h k y flags ≡ success
  unfolding run
  success-of_Verified flags v =
      let same = (equal_iff v.data_ v.data_).1 refl in
      rw (v.flags_are, run, v.built, v.committed, same) refl

  -- The command succeeds exactly when it is asked to verify, not to write, without other arguments,
  -- and the manifest that is built is, byte for byte, the committed file.
  pub run_iff : (flags : Flags) → (run h k y flags ≡ success) ↔ Verified flags
  run_iff flags = (run-eq-success flags, success-of_Verified flags)

parsed-inj :
    {root root' : Bytes} → parsed root false true [] ≡ parsed root' false true [] → root ≡ root'
parsed-inj e = ground arith

verified_root :
    (h : Host) (k : Wire) (y : System) (root : Bytes)
    → run h k y (parsed root false true []) ≡ success
    → (data_ : Bytes) × (build_manifest h k y root ≡ ok data_)
      × (y.read_file (y.join (root ∷ manifest_filename ∷ [])) ≡ some data_)
verified_root h k y root passed =
    let v = run-eq-success h k y _ passed in
    let same = parsed-inj v.flags_are in
    (
      v.data_,
      ap (build_manifest h k y) same ∙ v.built,
      ap (λ r. y.read_file (y.join (r ∷ manifest_filename ∷ []))) same ∙ v.committed,
    )

some-inj : {a b : Bytes} → ◌≡◌ {A = Option Bytes} (some a) (some b) → a ≡ b
some-inj e = ground arith

entries-inj :
    {v b v' b' : Bytes} {es fs : List Entry}
    → ◌≡◌ {A = Option Manifest}
        (some (record { schema_version = v; baseline = b; entries = es }))
        (some (record { schema_version = v'; baseline = b'; entries = fs }))
    → es ≡ fs
entries-inj e = ground arith

constants_ascii : (is_ascii (bytes "1") && is_ascii baseline_commit) ≡ true
unfolding is_ascii bytes all
constants_ascii = refl

-- A decoder that reads back what the encoder writes of manifests of ASCII text.
pub record Reads (y : System) (decode : Bytes → Option Manifest) : Type 0 where
  pub reads_back :
      (m : Manifest) (output : Bytes)
      → (is_ascii m.schema_version && is_ascii m.baseline) ≡ true
      → All (λ e. is_ascii e.sha256 ≡ true) m.entries
      → All (λ e. IsAsciiKey (key e)) m.entries
      → y.marshal_manifest m ≡ some output
      → decode output ≡ some m

module _ (h : Host) (k : Wire) (hex : (s : Bytes) → is_ascii (k.sha256_hex s) ≡ true)
    (y y' : System) where
  -- Two checkouts whose frozen inputs, cases and policies have the same digests.
  pub record SameInput (root root' path : Bytes) : Type 0 where
    pub content : Bytes
    pub content' : Bytes
    pub reads : y.read_file (at_root y root path) ≡ some content
    pub reads' : y'.read_file (at_root y' root' path) ≡ some content'
    pub same_digest : k.sha256_hex content ≡ k.sha256_hex content'

  pub record SameCase (root root' producer case_name : Bytes) : Type 0 where
    pub built : BuiltCase
    pub built' : BuiltCase
    pub builds : build_case h k (y.open_file (fixture_path y root producer case_name)) ≡ ok built
    pub builds' :
        build_case h k (y'.open_file (fixture_path y' root' producer case_name)) ≡ ok built'
    pub same_body : k.sha256_hex built.predicate_body ≡ k.sha256_hex built'.predicate_body
    pub same_statement :
        k.sha256_hex built.test_result_statement ≡ k.sha256_hex built'.test_result_statement

  pub record SameCheckpoint (root root' : Bytes) : Type 0 where
    pub inputs : All (SameInput root root') frozen_inputs
    pub cases : All (λ p. All (SameCase root root' p) case_names) producers
    pub policies :
        calculate_policy_directory_digest h k y (y.join (root ∷ bytes "policy" ∷ []))
        ≡ calculate_policy_directory_digest h k y' (y'.join (root' ∷ bytes "policy" ∷ []))

  module _ (root root' : Bytes) (es : List Entry) (covers : Covers h k y hex root es)
      (covers' : Covers h k y' hex root' es) where
    same_digest_of :
        (kind name digest digest' : Bytes)
        → Mem (entry kind name digest) es
        → Mem (entry kind name digest') es
        → digest ≡ digest'
    same_digest_of kind name digest digest' m n =
        ap (λ e. e.sha256)
          (covers.unique (entry kind name digest) (entry kind name digest') refl m n)

    Covers-SameCheckpoint : SameCheckpoint root root'
    Covers-SameCheckpoint = record {
      inputs =
          All-map
            {P = λ path.
              InputRecorded h k y hex root es path × InputRecorded h k y' hex root' es path}
            {Q = SameInput root root'}
            (λ path (i, i'). record {
              content = i.content;
              content' = i'.content;
              reads = i.reads;
              reads' = i'.reads;
              same_digest = same_digest_of _ _ _ _ i.recorded i'.recorded;
            })
            frozen_inputs
            (All-zip (InputRecorded h k y hex root es) (InputRecorded h k y' hex root' es)
              frozen_inputs covers.inputs covers'.inputs);
      cases =
          All-map
            {P = λ p.
              All (CaseRecorded h k y hex root es p) case_names
              × All (CaseRecorded h k y' hex root' es p) case_names}
            {Q = λ p. All (SameCase root root' p) case_names}
            (λ p (cs, cs').
              All-map
                {P = λ c. CaseRecorded h k y hex root es p c × CaseRecorded h k y' hex root' es p c}
                {Q = SameCase root root' p}
                (λ c (i, i'). record {
                  built = i.built;
                  built' = i'.built;
                  builds = i.builds;
                  builds' = i'.builds;
                  same_body = same_digest_of _ _ _ _ i.body_recorded i'.body_recorded;
                  same_statement =
                      same_digest_of _ _ _ _ i.statement_recorded i'.statement_recorded;
                })
                case_names
                (All-zip (CaseRecorded h k y hex root es p) (CaseRecorded h k y' hex root' es p)
                  case_names cs cs'))
            producers
            (All-zip (λ p. All (CaseRecorded h k y hex root es p) case_names)
              (λ p. All (CaseRecorded h k y' hex root' es p) case_names) producers covers.cases
              covers'.cases);
      policies =
          covers.digest_is
          ∙ ap ok (same_digest_of _ _ _ _ covers.policy covers'.policy)
          ∙ sym covers'.digest_is;
    }

  module _ (decode : Bytes → Option Manifest) (law : Reads y decode) (law' : Reads y' decode) where
    read_entries :
        (z : System) (root data_ : Bytes)
        → Reads z decode
        → (m : Manifested h k z hex root data_)
        → decode m.output
          ≡ some (record {
            schema_version = bytes "1";
            baseline = baseline_commit;
            entries = m.entries;
          })
    read_entries z root data_ l m =
        l.reads_back _ m.output constants_ascii m.covers.digests m.covers.ascii_keys m.encoded

    same_entries :
        (root root' data_ : Bytes) (m : Manifested h k y hex root data_)
        (m' : Manifested h k y' hex root' data_)
        → m.entries ≡ m'.entries
    same_entries root root' data_ m m' =
        let output : m.output ≡ m'.output =
          append_cancel_right m.output m'.output (b'\n' ∷ []) (sym m.newline ∙ m'.newline) in
        entries-inj (
          sym (read_entries y root data_ law m)
          ∙ ap decode output
          ∙ read_entries y' root' data_ law' m')

    -- Where SHA-256 is written in ASCII and the encoder's manifests can be read back, if the
    -- verification passes in two checkouts that have the same committed manifest, then in both
    -- every frozen input, every case that is built, and the policy directory have the same SHA-256
    -- digest.
    pub run_detects :
        (root root' : Bytes)
        → run h k y (parsed root false true []) ≡ success
        → run h k y' (parsed root' false true []) ≡ success
        → y.read_file (y.join (root ∷ manifest_filename ∷ []))
          ≡ y'.read_file (y'.join (root' ∷ manifest_filename ∷ []))
        → (abs_root : Bytes) × (abs_root' : Bytes) × (y.absolute root ≡ some abs_root)
          × (y'.absolute root' ≡ some abs_root')
          × SameCheckpoint abs_root abs_root'
    run_detects root root' passed passed' committed =
        let (data_, built, file) = verified_root h k y root passed in
        let (data', built', file') = verified_root h k y' root' passed' in
        let same : data_ ≡ data' = some-inj (sym file ∙ committed ∙ file') in
        let m = build_manifest-Manifested h k y hex root data_ built in
        let m' = build_manifest-Manifested h k y' hex root' data_ (built' ∙ ap ok (sym same)) in
        (
          m.abs_root,
          m'.abs_root,
          m.absolute,
          m'.absolute,
          Covers-SameCheckpoint m.abs_root m'.abs_root m.entries m.covers (
              subst (Covers h k y' hex m'.abs_root) (sym (same_entries root root' data_ m m'))
                m'.covers),
        )
