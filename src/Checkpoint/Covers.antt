-- ===== src/Checkpoint/Covers.antt =====
-- What a manifest covers.
use mathlib.Core.List.{
  Mem, Perm, mem-cons_self, mem-cons_of_mem, mem-append_left, mem-append_right, map-append,
}
use mathlib.Core.List.Perm
use agent_governance_evidenc.Base.{
  ◌≡◌, sym, ap, ◌∙◌, subst, true, List, [], ◌∷◌, ◌++◌, some, Bytes, bytes, plain, ok, some_or,
  some_or-eq-ok, ok-inj, >>=-eq-ok, All, All-map, All-zip, All-append, map,
}
use agent_governance_evidenc.Base.Sort.{
  sort, sort_of_IsSorted, sort-IsSorted, sort-All, sort-perm, sort-eq_of_perm,
}
use agent_governance_evidenc.Checkpoint.Data.{
  Entry, entry_less, baseline_commit, producers, case_names, frozen_inputs,
}
use agent_governance_evidenc.Checkpoint.{
  System, gather, entry, at_root, frozen_input_paths, case_entries, frozen_entry,
  calculate_policy_directory_digest, gather_entries, build_manifest,
}
use agent_governance_evidenc.Checkpoint.Order.{
  key, case_keys, each_of, frozen_keys, all_keys, all_keys-IsStrict, entry_less_asymm,
  entry_less_negtrans, same_key, Entries-set, is_ascii, all_keys-IsAscii,
}
use agent_governance_evidenc.Demokit.{Wire}
use agent_governance_evidenc.Evidence.Host.{Host}
use agent_governance_evidenc.Checkpoint.Gather.{gather-keys, gather-All, gather-Within, Within}
use agent_governance_evidenc.Checkpoint.Entries.{
  frozen_input_paths-eq-ok, case_entries-keys, frozen_entry-keys, case_entries-digests,
  frozen_entry-digests, policy-digest, Within-CaseRecorded, Within-InputRecorded, CaseRecorded,
  InputRecorded, Covers,
}

module _ (h : Host) (k : Wire) (y : System)
    (hex : (s : Bytes) → is_ascii (k.sha256_hex s) ≡ true) where
  module _ (root : Bytes) (cases inputs : List Entry) (digest : Bytes)
      (built : gather (λ p. gather (case_entries h k y root p) case_names) producers ≡ ok cases)
      (read : gather (frozen_entry h k y root) frozen_inputs ≡ ok inputs) where
    abbrev collected : List Entry
    collected = cases ++ entry (bytes "policy-bundle") (bytes "policy") digest ∷ inputs

    collected-keys : map key collected ≡ all_keys
    unfolding all_keys
    collected-keys =
        let of_cases =
          gather-keys (λ p. gather (case_entries h k y root p) case_names)
            (λ p. each_of (case_keys p) case_names)
            (λ p found.
              gather-keys (case_entries h k y root p) (case_keys p)
                (λ c. case_entries-keys h k y hex root p c) case_names found)
            producers cases built in
        let of_inputs =
          gather-keys (frozen_entry h k y root) frozen_keys
            (λ path. frozen_entry-keys h k y hex root path) frozen_inputs inputs read in
        map-append key cases _ ∙ cc (of_cases, of_inputs)

    collected-digests :
        calculate_policy_directory_digest h k y (y.join (root ∷ bytes "policy" ∷ [])) ≡ ok digest
        → All (λ e. is_ascii e.sha256 ≡ true) collected
    collected-digests calculated =
        All-append (λ e. is_ascii e.sha256 ≡ true) cases _
          (gather-All (λ p. gather (case_entries h k y root p) case_names) _
            (λ p found.
              gather-All (case_entries h k y root p) _
                (λ c. case_entries-digests h k y hex root p c) case_names found)
            producers cases built)
          (
            policy-digest h k y hex _ digest calculated,
            gather-All (frozen_entry h k y root) _
                (λ path. frozen_entry-digests h k y hex root path) frozen_inputs inputs read,
          )

    into : (e : Entry) → Mem e collected → Mem e (sort entry_less collected)
    into e = (Perm.mem_iff (sort-perm entry_less collected)).1

    collected-cases :
        All
          (λ p. All (CaseRecorded h k y hex root (sort entry_less collected) p) case_names)
          producers
    unfolding Within
    collected-cases =
        All-map {P = Within (λ p. gather (case_entries h k y root p) case_names) cases}
          (λ p (found, made, within).
            All-map {P = Within (case_entries h k y root p) found}
              (λ c (one, is, inner).
                Within-CaseRecorded h k y hex root p c _
                  (one, is, λ e m. into e (mem-append_left _ (within e (inner e m)))))
              case_names (gather-Within (case_entries h k y root p) case_names found made))
          producers
          (gather-Within (λ p. gather (case_entries h k y root p) case_names) producers cases built)

    collected-inputs :
        All (λ path. y.lstat_regular (at_root y root path) ≡ some true) frozen_inputs
        → All (InputRecorded h k y hex root (sort entry_less collected)) frozen_inputs
    unfolding Within
    collected-inputs regular =
        All-map
          {P = λ path.
            (y.lstat_regular (at_root y root path) ≡ some true)
            × Within (frozen_entry h k y root) inputs path}
          (λ path (is_regular, (found, made, within)).
            Within-InputRecorded h k y hex root path _ is_regular (
              found,
              made,
              λ e m. into e (mem-append_right cases (mem-cons_of_mem _ (within e m))),
            ))
          frozen_inputs
          (All-zip (λ path. y.lstat_regular (at_root y root path) ≡ some true)
            (Within (frozen_entry h k y root) inputs) frozen_inputs regular
            (gather-Within (frozen_entry h k y root) frozen_inputs inputs read))

    collected-Covers :
        All (λ path. y.lstat_regular (at_root y root path) ≡ some true) frozen_inputs
        → calculate_policy_directory_digest h k y (y.join (root ∷ bytes "policy" ∷ [])) ≡ ok digest
        → Covers h k y hex root (sort entry_less collected)
    collected-Covers regular calculated = record {
      sorted = sort-IsSorted _ entry_less_asymm entry_less_negtrans collected;
      keys =
          subst (λ ks. Perm (map key (sort entry_less collected)) ks) collected-keys
            (Perm.map key (sort-perm entry_less collected));
      canonical = λ fs p is_sorted.
          sym (sort_of_IsSorted entry_less fs is_sorted)
          ∙ sym (
              sort-eq_of_perm entry_less entry_less_asymm entry_less_negtrans Entries-set
                (Perm.symm (Perm.trans p (sort-perm entry_less collected)))
                (all_keys-IsStrict collected collected-keys));
      unique = λ a b same m n.
          same_key collected a b (all_keys-IsStrict collected collected-keys) same
            ((Perm.mem_iff (sort-perm entry_less collected)).0 m)
            ((Perm.mem_iff (sort-perm entry_less collected)).0 n);
      cases = collected-cases;
      inputs = collected-inputs regular;
      digest = digest;
      digest_is = calculated;
      digests = sort-All entry_less _ collected (collected-digests calculated);
      ascii_keys = sort-All entry_less _ collected (all_keys-IsAscii collected collected-keys);
      policy = into _ (mem-append_right cases mem-cons_self);
    }

  gather_entries-Covers :
      (root : Bytes) (es : List Entry)
      → gather_entries h k y root ≡ ok es
      → Covers h k y hex root (sort entry_less es)
  unfolding gather_entries
  gather_entries-Covers root es e =
      let (frozen, checked, e₁) = >>=-eq-ok (frozen_input_paths h k y root frozen_inputs) _ e in
      let (cases, built, e₂) =
        >>=-eq-ok (gather (λ p. gather (case_entries h k y root p) case_names) producers) _ e₁ in
      let (digest, calculated, e₃) =
        >>=-eq-ok (calculate_policy_directory_digest h k y (y.join (root ∷ bytes "policy" ∷ []))) _
          e₂ in
      let (inputs, read, e₄) = >>=-eq-ok (gather (frozen_entry h k y root) frozen) _ e₃ in
      let (all_frozen, regular) =
        frozen_input_paths-eq-ok h k y hex root frozen_inputs frozen checked in
      subst (λ x. Covers h k y hex root (sort entry_less x)) (ok-inj e₄)
        (collected-Covers root cases inputs digest built
          (ap (gather (frozen_entry h k y root)) (sym all_frozen) ∙ read) regular calculated)

  -- What a manifest encodes.
  pub record Manifested (root data_ : Bytes) : Type 0 where
    pub abs_root : Bytes
    pub absolute : y.absolute root ≡ some abs_root
    pub entries : List Entry
    pub covers : Covers h k y hex abs_root entries
    pub output : Bytes
    pub encoded :
        y.marshal_manifest
          (record { schema_version = bytes "1"; baseline = baseline_commit; entries = entries })
        ≡ some output
    pub newline : data_ ≡ output ++ b'\n' ∷ []

  -- Where SHA-256 is written in ASCII, a manifest that is built encodes, with a newline at the end,
  -- entries in a sorted order that no other order of them has: one with its digest for each case's
  -- body and statement, the policy and each frozen input, which is a regular file, and none
  -- besides.
  pub build_manifest-Manifested :
      (root data_ : Bytes) → build_manifest h k y root ≡ ok data_ → Manifested root data_
  unfolding build_manifest
  build_manifest-Manifested root data_ e =
      let (abs_root, absolute, e₁) = >>=-eq-ok (some_or (y.absolute root) _) _ e in
      let (entries, gathered, e₂) = >>=-eq-ok (gather_entries h k y abs_root) _ e₁ in
      let (output, encoded, e₃) = >>=-eq-ok (some_or (y.marshal_manifest _) _) _ e₂ in
      record {
        abs_root = abs_root;
        absolute = some_or-eq-ok (y.absolute root) (plain "resolve root") abs_root absolute;
        entries = sort entry_less entries;
        covers = gather_entries-Covers abs_root entries gathered;
        output = output;
        encoded = some_or-eq-ok _ (plain "marshal manifest") output encoded;
        newline = sym (ok-inj e₃);
      }
