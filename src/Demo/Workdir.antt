-- ===== src/Demo/Workdir.antt =====
-- Who removes the working directory: `run` removes what it made itself, as its last step, and
-- nothing else.
use agent_governance_evidenc.Base.{
  ◌≡◌, ◌≢◌, refl, sym, ap, ◌∙◌, ◌⊎◌, inl, inr, Bool, true, false, List, [], ◌∷◌, Option, some, none,
  Bytes, equal, equal_iff, arith, Error, Result, ok, Result-cases, Option-cases, Bool-cases,
  if◌then◌else◌,
}
use agent_governance_evidenc.Demo.Data.{CaseSpec, System}
use agent_governance_evidenc.Demo.{
  jobs, compare_command, sign_case, enforce, read_vsa_result, run_case, run_cases, prepare_workdir,
  deferring, demonstrate, run,
}
use agent_governance_evidenc.Demo.Steps.{
  Io, ◌>>=◌, >>=-eq-ok, given, reading, changing, calling, drawing,
}
use agent_governance_evidenc.Demokit.{Wire, BuiltCase}
use agent_governance_evidenc.Demokit.Signer.Data.{M, Crypto, Signer}
use agent_governance_evidenc.Evidence.Host.{Host}
use agent_governance_evidenc.Testutil.{validate_auto_gov_binary}

-- A property of the outside world that a computation keeps, whether it succeeds or fails.
module _ {R S : Type 0} (P : S → Type 0) where
  abbrev Keeps : {A : Type 0} → Io R S A → Type 0
  Keeps m = (w : R × S) → P w.1 → P (m w).1.1

  >>=-Keeps :
      {A B : Type 0} (m : Io R S A) (next : A → Io R S B)
      → Keeps m
      → ((a : A) → Keeps (next a))
      → Keeps (m >>= next)
  unfolding ◌>>=◌
  >>=-Keeps m next keeps later w p = elim (Result-cases (m w).0) [
    | inl (a, is) ↦ rw (is, ◌>>=◌) (later a (m w).1 (keeps w p))
    | inr (x, is) ↦ rw (is, ◌>>=◌) (keeps w p)
  ]

  given-Keeps : {A : Type 0} (r : Result A) → Keeps (given r)
  unfolding given
  given-Keeps r w p = p

  reading-Keeps : {A : Type 0} (f : S → Result A) → Keeps (reading f)
  unfolding reading
  reading-Keeps f w p = p

  drawing-Keeps : {A : Type 0} (m : M R A) → Keeps (drawing m)
  unfolding drawing
  drawing-Keeps m w p = elim (Result-cases (m w.0)) [
    | inl (r, is) ↦ rw (is, drawing) p
    | inr (x, is) ↦ rw (is, drawing) p
  ]

  calling-Keeps : {A : Type 0} (f : S → A × S) → ((s : S) → P s → P (f s).1) → Keeps (calling f)
  unfolding calling
  calling-Keeps f keeps w p = keeps w.1 p

  changing-Keeps :
      (f : S → Bool × S) (why : Error) → ((s : S) → P s → P (f s).1) → Keeps (changing f why)
  unfolding changing
  changing-Keeps f why keeps w p = elim (Bool-cases (f w.1).0) [
    | inl is ↦ rw (is, changing) (keeps w.1 p)
    | inr is ↦ rw (is, changing) (keeps w.1 p)
  ]

  module _ (h : Host) (k : Wire) (c : Crypto R) (y : System S)
      (writes : (path content : Bytes) (s : S) → P s → P (y.write_file path content s).1)
      (executes : (program : Bytes) (arguments : List Bytes) (s : S)
        → P s
        → P (y.execute program arguments s).1) where
    compare_command-Keeps :
        (evidence_binary workdir producer : Bytes) (tc : CaseSpec) (built : BuiltCase)
        → Keeps (compare_command h k c y evidence_binary workdir producer tc built)
    unfolding compare_command
    compare_command-Keeps evidence_binary workdir producer tc built =
        >>=-Keeps _ _ (given-Keeps _) (λ completed.
          >>=-Keeps _ _ (changing-Keeps _ _ (writes _ _)) (λ _.
            >>=-Keeps _ _ (calling-Keeps _ (executes _ _)) (λ p.
              >>=-Keeps _ _ (given-Keeps _)
                (λ _. >>=-Keeps _ _ (reading-Keeps _) (λ _. given-Keeps _)))))

    sign_case-Keeps :
        (g : Signer) (attestations : Bytes) (built : BuiltCase)
        → Keeps (sign_case h k c y g attestations built)
    unfolding sign_case
    sign_case-Keeps g attestations built =
        >>=-Keeps _ _ (drawing-Keeps _)
          (λ _. >>=-Keeps _ _ (drawing-Keeps _) (λ _. changing-Keeps _ _ (writes _ _)))

    enforce-Keeps :
        (autogov companion workdir trusted_root producer : Bytes) (tc : CaseSpec)
        (built : BuiltCase)
        → Keeps (enforce h k c y autogov companion workdir trusted_root producer tc built)
    unfolding enforce read_vsa_result
    enforce-Keeps autogov companion workdir trusted_root producer tc built =
        >>=-Keeps _ _ (calling-Keeps _ (executes _ _)) (λ q. >>=-Keeps _ _ (given-Keeps _) (λ _.
          >>=-Keeps _ _ (given-Keeps _) (λ _.
            >>=-Keeps _ _ (>>=-Keeps _ _ (reading-Keeps _) (λ _. given-Keeps _)) (λ _ w p. p))))

    run_case-Keeps :
        (autogov evidence_binary companion workdir trusted_root : Bytes) (g : Signer)
        (producer : Bytes) (tc : CaseSpec)
        → Keeps
            (run_case h k c y autogov evidence_binary companion workdir trusted_root g producer tc)
    unfolding run_case
    run_case-Keeps autogov evidence_binary companion workdir trusted_root g producer tc =
        >>=-Keeps _ _ (reading-Keeps _) (λ built.
          >>=-Keeps _ _ (compare_command-Keeps evidence_binary workdir producer tc built) (λ _.
            >>=-Keeps _ _ (sign_case-Keeps g _ built)
              (λ _. enforce-Keeps autogov companion workdir trusted_root producer tc built)))

    run_cases-Keeps :
        (autogov evidence_binary companion workdir trusted_root : Bytes) (g : Signer)
        (todo : List (Bytes × CaseSpec))
        → Keeps (run_cases h k c y autogov evidence_binary companion workdir trusted_root g todo)
    unfolding run_cases
    run_cases-Keeps autogov evidence_binary companion workdir trusted_root g [] = λ w p. p
    run_cases-Keeps autogov evidence_binary companion workdir trusted_root g
          ((producer, tc) ∷ rest) =
        >>=-Keeps _ _
          (run_case-Keeps autogov evidence_binary companion workdir trusted_root g producer tc)
          (λ matched.
            >>=-Keeps _ _
              (run_cases-Keeps autogov evidence_binary companion workdir trusted_root g rest)
              (λ _ w p. p))

    demonstrate-Keeps :
        (autogov evidence_binary companion workdir : Bytes)
        → Keeps (demonstrate h k c y autogov evidence_binary companion workdir)
    unfolding demonstrate
    demonstrate-Keeps autogov evidence_binary companion workdir =
        >>=-Keeps _ _ (drawing-Keeps _) (λ g. >>=-Keeps _ _ (given-Keeps _) (λ _.
          >>=-Keeps _ _ (changing-Keeps _ _ (writes _ _)) (λ _.
            >>=-Keeps _ _ (run_cases-Keeps autogov evidence_binary companion workdir _ g jobs)
              (λ _. given-Keeps _))))

module _ {R S : Type 0} (h : Host) (k : Wire) (c : Crypto R) (y : System S) where
  -- The directory to be removed is there exactly for a directory of `MkdirTemp` that is not kept.
  prepare_workdir-removed :
      (workdir : Bytes) (keep : Bool) (w u : R × S) (dir : Bytes) (removed : Option Bytes)
      → prepare_workdir h k c y workdir keep w ≡ (ok (dir, removed), u)
      → ((removed ≡ none) × ((workdir ≢ []) ⊎ (keep ≡ true)))
        ⊎ ((removed ≡ some dir) × (workdir ≡ []) × (keep ≡ false))
  unfolding prepare_workdir
  prepare_workdir-removed workdir keep w u dir removed e = elim (Bool-cases (equal workdir [])) [
    | inr given_path ↦
        let e' = rw (given_path, prepare_workdir) at e in
        let (_, w₁, _, e₁) = >>=-eq-ok _ _ w u (dir, removed) e' in
        let (_, w₂, _, e₂) = >>=-eq-ok _ _ w₁ u (dir, removed) e₁ in
        let nothing : none ≡ removed = ground arith in
        inl (sym nothing, inl (ground (arith, equal_iff workdir [])))
    | inl absent ↦
        let e' = rw (absent, prepare_workdir) at e in
        let (made, w₁, _, e₁) = >>=-eq-ok _ _ w u (dir, removed) e' in
        let (found, w₂, _, e₂) = >>=-eq-ok _ _ w₁ u (dir, removed) e₁ in
        let same_dir : found ≡ dir = ground arith in
        let same : (if keep then none else some found) ≡ removed = ground arith in
        elim (Bool-cases keep) [
          | inl kept ↦ inl (sym (rw kept at same), inr kept)
          | inr not_kept ↦ inr (
            sym (rw not_kept at same) ∙ ap some same_dir,
            (equal_iff workdir []).0 absent,
            not_kept,
          )
        ]
  ]

  -- The guards fail and nothing is done, or the demonstration runs in the directory.
  run_ends :
      (autogov evidence_binary companion workdir : Bytes) (keep : Bool) (w u : R × S) (dir : Bytes)
      (removed : Option Bytes)
      → prepare_workdir h k c y workdir keep w ≡ (ok (dir, removed), u)
      → ((run h k c y autogov evidence_binary companion workdir keep w).1 ≡ w)
        ⊎ ((abs_companion : Bytes) × (run h k c y autogov evidence_binary companion workdir keep w
              ≡ deferring h k c y removed
                  (demonstrate h k c y autogov evidence_binary abs_companion dir)
                  u))
  unfolding run ◌>>=◌ reading
  run_ends autogov evidence_binary companion workdir keep w u dir removed prepared =
      elim (Result-cases (validate_auto_gov_binary (y.binaries w.1) autogov)) [
        | inr (x, bad) ↦ inl (rw (bad, run, ◌>>=◌, reading) refl)
        | inl (path, valid) ↦ elim (Bool-cases (y.exists evidence_binary w.1)) [
          | inr missing ↦ inl (rw (valid, missing, run, ◌>>=◌, reading) refl)
          | inl found ↦ elim (Option-cases (y.absolute companion w.1)) [
            | inl unresolved ↦ inl (rw (valid, found, unresolved, run, ◌>>=◌, reading) refl)
            | inr (abs_companion, resolved) ↦ inr (
              abs_companion,
              rw (valid, found, resolved, prepared, run, ◌>>=◌, reading)
                  (ap
                    (λ r.
                      deferring h k c y removed
                        (demonstrate h k c y autogov evidence_binary abs_companion dir) r.1)
                    prepared),
            )
          ]
        ]
      ]

  -- How a run leaves the world: kept, or with the directory removed as the last step.
  abbrev pub Ends : (S → Type 0) → Bytes → Bool → Bytes → Option Bytes → S → Type 0
  Ends P workdir keep dir removed after =
      ((removed ≡ none) × ((workdir ≢ []) ⊎ (keep ≡ true)) × P after)
      ⊎ ((removed ≡ some dir)
          × (workdir ≡ [])
          × (keep ≡ false)
          × ((before : S) × P before × (after ≡ y.remove_all dir before)))

  -- Whether it succeeds or fails, a run that has prepared its working directory removes that
  -- directory exactly if it made it as a temporary one that is not to be kept, and does so as its
  -- last step: up to then, and at the end otherwise, every property holds that held of the prepared
  -- directory and that writing files and running programs keep. (Or a check before failed and the
  -- world is as it was.)
  pub run_workdir :
      (P : S → Type 0)
      → ((path content : Bytes) (s : S) → P s → P (y.write_file path content s).1)
      → ((program : Bytes) (arguments : List Bytes) (s : S)
          → P s
          → P (y.execute program arguments s).1)
      → (autogov evidence_binary companion workdir : Bytes) (keep : Bool) (w u : R × S)
        (dir : Bytes) (removed : Option Bytes)
      → prepare_workdir h k c y workdir keep w ≡ (ok (dir, removed), u)
      → P u.1
      → ((run h k c y autogov evidence_binary companion workdir keep w).1 ≡ w)
        ⊎ Ends P workdir keep dir removed
            (run h k c y autogov evidence_binary companion workdir keep w).1.1
  run_workdir P writes executes autogov evidence_binary companion workdir keep w u dir removed
        prepared start =
      let kept = λ (abs_companion : Bytes).
        demonstrate-Keeps P h k c y writes executes autogov evidence_binary abs_companion dir u
          start in
      elim (run_ends autogov evidence_binary companion workdir keep w u dir removed prepared) [
        | inl same ↦ inl same
        | inr (abs_companion, ran) ↦
            elim (prepare_workdir-removed workdir keep w u dir removed prepared) [
              | inl (stays, why) ↦ inr (inl (stays, why, rw (ran, stays) (kept abs_companion)))
              | inr (goes, temporary, not_kept) ↦ inr (
                  inr (
                    goes,
                    temporary,
                    not_kept,
                    (
                      (demonstrate h k c y autogov evidence_binary abs_companion dir u).1.1,
                      kept abs_companion,
                      rw (ran, goes) refl,
                    ),
                  ))
            ]
      ]
