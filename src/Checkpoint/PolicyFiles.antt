-- ===== src/Checkpoint/PolicyFiles.antt =====
-- Which files the policy digest takes in, by the ends of their paths.
use mathlib.Core.List.{append-nil}
use agent_governance_evidenc.Base.{
  ◌≡◌, refl, sym, ap, ◌∙◌, ◌↔◌, inl, inr, true, List, [], ◌∷◌, ◌++◌, Bytes, arith, Bool-cases,
  if◌then◌else◌, equal, equal_iff, equal-ne, bytes, ◌≢◌, ◌⊎◌, ◌&&◌, ◌==◌, not,
}
use agent_governance_evidenc.Checkpoint.{
  Visit, unreadable, directory, file, ext, has_separator, is_policy_file,
}

-- A policy file's path ends in one of three extensions.
abbrev pub IsPolicyFile : Bytes → Type 0
IsPolicyFile path =
    ((stem : Bytes) × (path ≡ stem ++ bytes ".rego"))
    ⊎ ((stem : Bytes) × (path ≡ stem ++ bytes ".json"))
    ⊎ ((stem : Bytes) × (path ≡ stem ++ bytes ".yaml"))

ext-suffix : (path : Bytes) → (stem : Bytes) × (path ≡ stem ++ ext path)
unfolding ext
ext-suffix [] = ([], refl)
ext-suffix (c ∷ s) =
    let (stem, is) = ext-suffix s in
    elim (Bool-cases (equal (ext s) [])) [
      | inr later ↦ (c ∷ stem, rw later (ap (λ t. c ∷ t) is))
      | inl nothing ↦ elim (Bool-cases (c == b'.' && not (has_separator s))) [
        | inl here ↦ ([], rw (nothing, here) refl)
        | inr other ↦ (c ∷ s, rw (nothing, other) (sym (append-nil (c ∷ s))))
      ]
    ]

-- What `filepath.Ext` returns of a text that ends in an extension.
ext-append :
    (stem suffix : Bytes) → ext suffix ≡ suffix → suffix ≢ [] → ext (stem ++ suffix) ≡ suffix
unfolding ext
ext-append [] suffix is some_text = is
ext-append (c ∷ stem) suffix is some_text =
    rw (ext-append stem suffix is some_text, equal-ne some_text) refl

ext-eq_iff :
    (path suffix : Bytes)
    → ext suffix ≡ suffix
    → suffix ≢ []
    → (equal (ext path) suffix ≡ true) ↔ ((stem : Bytes) × (path ≡ stem ++ suffix))
ext-eq_iff path suffix is some_text = (
  λ same.
      let (stem, split) = ext-suffix path in
      (stem, split ∙ ap (λ t. stem ++ t) ((equal_iff (ext path) suffix).0 same)),
  λ (stem, split).
      (equal_iff (ext path) suffix).1 (ap ext split ∙ ext-append stem suffix is some_text),
)

ext_rego : (ext (bytes ".rego") ≡ bytes ".rego") × (bytes ".rego" ≢ [])
unfolding ext has_separator bytes equal
ext_rego = (refl, λ e. cc)

ext_json : (ext (bytes ".json") ≡ bytes ".json") × (bytes ".json" ≢ [])
unfolding ext has_separator bytes equal
ext_json = (refl, λ e. cc)

ext_yaml : (ext (bytes ".yaml") ≡ bytes ".yaml") × (bytes ".yaml" ≢ [])
unfolding ext has_separator bytes equal
ext_yaml = (refl, λ e. cc)

is_policy_file_iff : (path : Bytes) → (is_policy_file path ≡ true) ↔ IsPolicyFile path
unfolding is_policy_file
is_policy_file_iff path = ground (
  arith,
  ext-eq_iff path (bytes ".rego") ext_rego.0 ext_rego.1,
  ext-eq_iff path (bytes ".json") ext_json.0 ext_json.1,
  ext-eq_iff path (bytes ".yaml") ext_yaml.0 ext_yaml.1,
)

-- The files that it meets and that are policy files.
unfoldable pub policy_files : List Visit → List Bytes
policy_files [] = []
policy_files (unreadable e ∷ vs) = policy_files vs
policy_files (directory path ∷ vs) = policy_files vs
policy_files (file path ∷ vs) =
    let rest = policy_files vs in if is_policy_file path then path ∷ rest else rest

-- These are the policy files that the walk meets, in its order.
abbrev pub ArePolicyFiles : List Visit → List Bytes → Type 0
ArePolicyFiles [] paths = paths ≡ []
ArePolicyFiles (unreadable e ∷ vs) paths = ArePolicyFiles vs paths
ArePolicyFiles (directory path ∷ vs) paths = ArePolicyFiles vs paths
ArePolicyFiles (file path ∷ vs) paths =
    (IsPolicyFile path × ((rest : List Bytes) × (paths ≡ path ∷ rest) × ArePolicyFiles vs rest))
    ⊎ ((IsPolicyFile path → ⊥) × ArePolicyFiles vs paths)

pub policy_files-ArePolicyFiles : (vs : List Visit) → ArePolicyFiles vs (policy_files vs)
unfolding policy_files
policy_files-ArePolicyFiles [] = refl
policy_files-ArePolicyFiles (unreadable e ∷ vs) = policy_files-ArePolicyFiles vs
policy_files-ArePolicyFiles (directory path ∷ vs) = policy_files-ArePolicyFiles vs
policy_files-ArePolicyFiles (file path ∷ vs) = elim (Bool-cases (is_policy_file path)) [
  | inl is ↦ rw is (
      inl ((is_policy_file_iff path).0 is, (policy_files vs, refl, policy_files-ArePolicyFiles vs)))
  | inr other ↦ rw other (
      inr
        (λ p. ground (arith, (is_policy_file_iff path).1 p, other), policy_files-ArePolicyFiles vs))
]

pub ArePolicyFiles-unique :
    (vs : List Visit) (paths : List Bytes) → ArePolicyFiles vs paths → paths ≡ policy_files vs
unfolding policy_files
ArePolicyFiles-unique [] paths e = e
ArePolicyFiles-unique (unreadable e ∷ vs) paths h = ArePolicyFiles-unique vs paths h
ArePolicyFiles-unique (directory path ∷ vs) paths h = ArePolicyFiles-unique vs paths h
ArePolicyFiles-unique (file path ∷ vs) paths (inl (p, (rest, e, h))) =
    rw ((is_policy_file_iff path).1 p) (e ∙ ap (λ r. path ∷ r) (ArePolicyFiles-unique vs rest h))
ArePolicyFiles-unique (file path ∷ vs) paths (inr (not_policy, h)) =
    elim (Bool-cases (is_policy_file path)) [
      | inl is ↦ absurd (not_policy ((is_policy_file_iff path).0 is))
      | inr other ↦ rw other (ArePolicyFiles-unique vs paths h)
    ]
