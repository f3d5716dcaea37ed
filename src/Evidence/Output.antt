-- ===== src/Evidence/Output.antt =====
-- `writeOutput` of internal/evidence/output.go, over a file system that maps a path to the bytes
-- of the file there.
use agent_governance_evidenc.Base.{
  Bool, true, ◌≡◌, ◌≢◌, [], ◌++◌, ◌⊎◌, ap, Option, none, some, Bytes, arith, equal, equal_iff,
  Error, plain, Result, ok, err, if◌then◌else◌,
}

abbrev pub Files : Type 0
Files = Bytes → Option Bytes

abbrev pub update : Files → Bytes → Option Bytes → Files
update fs path content p = if equal path p then content else fs p

pub record World : Type 0 where
  pub files : Files
  pub stdout : Bytes

-- What the operating system answers: whether each call succeeds, the unused name that
-- `os.CreateTemp` picks, and what a write leaves in the file or the stream if it fails.
pub record Answers : Type 0 where
  pub stdout_accepts : Bool
  pub creates : Bool
  pub temporary : Bytes
  pub writes : Bool
  pub closes : Bool
  pub renames : Bool
  pub removes : Bool
  pub partial : Bytes

-- `os.Remove`, whose error is ignored.
unfoldable pub remove : Answers → Files → Bytes → Files
remove a fs path = if a.removes then update fs path none else fs

-- `os.Rename`: the target gets the content of the source in one step.
unfoldable pub rename : Files → Bytes → Bytes → Files
rename fs from target = update (update fs from none) target (fs from)

-- After `CreateTemp`: each failure runs the deferred removal.
unfoldable pub commit : Answers → Files → Bytes → Bytes → Result (Unit {0}) × Files
unfolding remove rename
commit a fs output target =
    if a.writes
    then (let written = update fs a.temporary (some output) in
        if a.closes
        then (if a.renames
            then (ok tt, rename written a.temporary target)
            else (err (plain "failed to commit output file"), remove a written a.temporary))
        else (err (plain "failed to write output file"), remove a written a.temporary))
    else (
      err (plain "failed to write output file"),
      remove a (update fs a.temporary (some a.partial)) a.temporary,
    )

unfoldable pub write_output : Answers → World → Bytes → Bytes → Result (Unit {0}) × World
unfolding commit
write_output a w output target =
    if equal target []
    then (if a.stdout_accepts
        then (ok tt, record w { stdout = w.stdout ++ output })
        else (err (plain "failed to write output"), record w { stdout = w.stdout ++ a.partial }))
    else if a.creates
    then (let (result, files) = commit a w.files output target in
        (result, record w { files = files }))
    else (err (plain "failed to write output file"), w)

module _ (a : Answers) (w : World) (output target : Bytes) (named : target ≢ []) where
  -- With a target and a temporary name that is another, success commits the whole output to the
  -- target; the temporary name is free again, and every other file is as it was.
  pub write_output_commits :
      a.temporary ≢ target
      → (write_output a w output target).0 ≡ ok tt
      → (p : Bytes)
      → (write_output a w output target).1.files p
        ≡ (if equal target p then some output else if equal a.temporary p then none else w.files p)
  unfolding write_output
  write_output_commits apart done p = ground (
    arith,
    equal_iff target [],
    equal_iff a.temporary p,
    equal_iff target p,
    equal_iff a.temporary a.temporary,
  )

  -- With a target, a failure leaves the standard output and every file as it was, the target too;
  -- of the temporary file this holds if its name was unused and the removal succeeds.
  pub write_output_fails :
      (e : Error) (p : Bytes)
      → (write_output a w output target).0 ≡ err e
      → (p ≢ a.temporary) ⊎ ((a.removes ≡ true) × (w.files a.temporary ≡ none))
      → ((write_output a w output target).1.stdout ≡ w.stdout)
        × ((write_output a w output target).1.files p ≡ w.files p)
  unfolding write_output
  write_output_fails e p failed safe = (
    ground (arith, equal_iff target []),
    ground (
      arith,
      equal_iff target [],
      equal_iff a.temporary p,
      ap w.files {x = a.temporary} {y = p},
      safe,
    ),
  )
