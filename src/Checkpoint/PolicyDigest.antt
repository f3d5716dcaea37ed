-- ===== src/Checkpoint/PolicyDigest.antt =====
-- The policy digest: it is that of the policy files' names and contents, in the order of the walk.
use mathlib.Core.List.{append-nil, append_assoc}
use agent_governance_evidenc.Base.{
  some_or-eq-ok, ok-inj, ◌≡◌, refl, sym, ap, ◌∙◌, ◌↔◌, inl, inr, true, false, List, [], ◌∷◌, ◌++◌,
  some, Bytes, arith, ok, guard, guard_iff, plain, some_or, ◌>>=◌, >>=-eq-ok, Bool-cases, subst,
}
use agent_governance_evidenc.Checkpoint.{
  Visit, unreadable, directory, file, System, copied, is_policy_file, visit, visit_all,
  calculate_policy_directory_digest,
}
use agent_governance_evidenc.Demokit.{Wire}
use agent_governance_evidenc.Evidence.Host.{Host}
use agent_governance_evidenc.Evidence.Read.{Reader, end, broken, byte, yielding}
use agent_governance_evidenc.Checkpoint.PolicyFiles.{
  ArePolicyFiles, policy_files, policy_files-ArePolicyFiles, ArePolicyFiles-unique,
}

copied-eq-ok : (r : Reader) (s : Bytes) → copied r ≡ ok s → r ≡ yielding s
unfolding copied
copied-eq-ok end s e = ap yielding (ok-inj e)
copied-eq-ok broken s e = cc
copied-eq-ok (byte b r) s e =
    let (rest, read, e₁) = >>=-eq-ok (copied r) _ e in
    ap (byte b) (copied-eq-ok r rest read) ∙ ap yielding (ok-inj e₁)

copied-yielding : (s : Bytes) → copied (yielding s) ≡ ok s
unfolding copied
copied-yielding [] = refl
copied-yielding (b ∷ s) = rw (copied-yielding s) refl

-- The walk meets no error.
abbrev pub IsReadable : List Visit → Type 0
IsReadable [] = Unit
IsReadable (unreadable e ∷ vs) = ⊥
IsReadable (directory path ∷ vs) = IsReadable vs
IsReadable (file path ∷ vs) = IsReadable vs

-- The texts one after the other.
unfoldable pub joined : List Bytes → Bytes
joined [] = []
joined (part ∷ parts) = part ++ joined parts

module _ (h : Host) (k : Wire) (y : System) (dir : Bytes) where
  -- The file can be opened, read to its end and closed, and this is its name and content.
  pub record IsPart (path part : Bytes) : Type 0 where
    pub name : Bytes
    pub content : Bytes
    pub rel_is : y.rel dir path ≡ some name
    pub opens : y.open_file path ≡ some (record { content = yielding content; closes = true })
    pub part_is : part ≡ y.to_slash name ++ content

  abbrev pub AreParts : List Bytes → List Bytes → Type 0
  AreParts [] [] = Unit
  AreParts (path ∷ paths) (part ∷ parts) = IsPart path part × AreParts paths parts
  AreParts _ _ = ⊥

  -- The walk's function takes a policy file in.
  visit-eq-ok :
      (path before after : Bytes)
      → is_policy_file path ≡ true
      → visit h k y dir (file path) before ≡ ok after
      → (part : Bytes) × IsPart path part × (after ≡ before ++ part)
  unfolding visit
  visit-eq-ok path before after is e =
      let (name, related, e₁) = >>=-eq-ok (some_or (y.rel dir path) _) _ (rw is at e) in
      let (opened, opens, e₂) = >>=-eq-ok (some_or (y.open_file path) _) _ e₁ in
      let (content, read, e₃) = >>=-eq-ok (copied opened.content) _ e₂ in
      let (_, closes, e₄) = >>=-eq-ok (guard opened.closes _) _ e₃ in
      let whole = copied-eq-ok opened.content content read in
      let closed : opened.closes ≡ true = (guard_iff _ _).0 closes in
      (
        y.to_slash name ++ content,
        record {
          name = name;
          content = content;
          rel_is = some_or-eq-ok (y.rel dir path) (plain "relative path") name related;
          opens = some_or-eq-ok (y.open_file path) (plain "open") opened opens ∙ cc (whole, closed);
          part_is = refl;
        },
        sym (ok-inj e₄),
      )

  visit-of_part :
      (path part before : Bytes)
      → is_policy_file path ≡ true
      → IsPart path part
      → visit h k y dir (file path) before ≡ ok (before ++ part)
  unfolding visit
  visit-of_part path part before is p =
      rw (is, p.rel_is, p.opens, copied-yielding p.content, p.part_is) refl

  visit-other :
      (path before : Bytes)
      → is_policy_file path ≡ false
      → visit h k y dir (file path) before ≡ ok before
  unfolding visit
  visit-other path before other = rw other refl

  abbrev Digested : List Visit → Bytes → Bytes → Type 0
  Digested vs before after =
      IsReadable vs
      × ((parts : List Bytes) × AreParts (policy_files vs) parts × (after ≡ before ++ joined parts))

  visit_all-eq-ok :
      (vs : List Visit) (before after : Bytes)
      → visit_all h k y dir vs before ≡ ok after
      → Digested vs before after
  unfolding visit_all policy_files joined
  visit_all-eq-ok [] before after e = (tt, ([], tt, sym (ok-inj e) ∙ sym (append-nil before)))
  visit_all-eq-ok (unreadable x ∷ vs) before after e = absurd (ground arith)
  visit_all-eq-ok (directory path ∷ vs) before after e = visit_all-eq-ok vs before after e
  visit_all-eq-ok (file path ∷ vs) before after e =
      let (middle, first, e₁) = >>=-eq-ok (visit h k y dir (file path) before) _ e in
      let (readable, (parts, are, sum)) = visit_all-eq-ok vs middle after e₁ in
      elim (Bool-cases (is_policy_file path)) [
        | inr other ↦
            let same : before ≡ middle = ok-inj (sym (visit-other path before other) ∙ first) in
            rw other (readable, (parts, are, sum ∙ ap (λ b. b ++ joined parts) (sym same)))
        | inl is ↦
            let (part, is_part, taken) = visit-eq-ok path before middle is first in
            rw is (
              readable,
              (
                part ∷ parts,
                (is_part, are),
                sum ∙ ap (λ b. b ++ joined parts) taken ∙ append_assoc before part (joined parts),
              ),
            )
      ]

  first-IsPart :
      (path : Bytes) (paths parts : List Bytes)
      → AreParts (path ∷ paths) parts
      → (part : Bytes) × (rest : List Bytes) × (parts ≡ part ∷ rest)
        × IsPart path part
        × AreParts paths rest
  first-IsPart path paths [] are = absurd are
  first-IsPart path paths (part ∷ rest) (p, are) = (part, rest, refl, p, are)

  visit_all-of_parts :
      (vs : List Visit) (parts : List Bytes) (before : Bytes)
      → IsReadable vs
      → AreParts (policy_files vs) parts
      → visit_all h k y dir vs before ≡ ok (before ++ joined parts)
  unfolding visit_all policy_files joined
  visit_all-of_parts [] [] before readable are = ap ok (sym (append-nil before))
  visit_all-of_parts [] (part ∷ parts) before readable are = absurd are
  visit_all-of_parts (unreadable x ∷ vs) parts before readable are = absurd readable
  visit_all-of_parts (directory path ∷ vs) parts before readable are =
      visit_all-of_parts vs parts before readable are
  visit_all-of_parts (file path ∷ vs) parts before readable are =
      elim (Bool-cases (is_policy_file path)) [
        | inr other ↦
            let are' : AreParts (policy_files vs) parts = rw other at are in
            ap (λ r. r >>= visit_all h k y dir vs) (visit-other path before other)
            ∙ visit_all-of_parts vs parts before readable are'
        | inl is ↦
            let are' : AreParts (path ∷ policy_files vs) parts = rw is at are in
            let (part, rest, same, p, are'') = first-IsPart path (policy_files vs) parts are' in
            ap (λ r. r >>= visit_all h k y dir vs) (visit-of_part path part before is p)
            ∙ visit_all-of_parts vs rest (before ++ part) readable are''
            ∙ ap ok
                (append_assoc before part (joined rest) ∙ ap (λ ps. before ++ joined ps) (sym same))
      ]

  -- The policy digest is calculated exactly when the walk meets no error and each policy file can
  -- be read and closed, and it is the SHA-256 of their names and contents in the order of the walk;
  -- a policy file is one whose path ends in .rego, .json or .yaml, and other files and directories
  -- do not matter.
  pub calculate_policy_directory_digest_iff :
      (digest : Bytes)
      → (calculate_policy_directory_digest h k y dir ≡ ok digest) ↔ (
          IsReadable (y.walk dir)
          × ((paths : List Bytes) × ArePolicyFiles (y.walk dir) paths
              × ((parts : List Bytes) × AreParts paths parts
                  × (digest ≡ k.sha256_hex (joined parts)))))
  unfolding calculate_policy_directory_digest
  calculate_policy_directory_digest_iff digest = (
    λ e.
        let (hashed, visited, e₁) = >>=-eq-ok (visit_all h k y dir (y.walk dir) []) _ e in
        let (readable, (parts, are, sum)) = visit_all-eq-ok (y.walk dir) [] hashed visited in
        (
          readable,
          (
            policy_files (y.walk dir),
            policy_files-ArePolicyFiles (y.walk dir),
            (parts, are, sym (ok-inj e₁) ∙ ap k.sha256_hex sum),
          ),
        ),
    λ (readable, (paths, listed, (parts, are, is))).
        let same = ArePolicyFiles-unique (y.walk dir) paths listed in
        let are' = subst (λ ps. AreParts ps parts) same are in
        rw (visit_all-of_parts (y.walk dir) parts [] readable are', is) refl,
  )
