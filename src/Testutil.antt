-- ===== src/Testutil.antt =====
-- internal/testutil/autogov.go: the check of the verifier binary's path.
use agent_governance_evidenc.Base.{
  Bool, true, not, ◌≡◌, ◌≢◌, ◌↔◌, [], Option, some, Bytes, bytes, equal, equal_iff, arith, plain,
  Result, ok, ◌>>=◌, ◌>>◌, guard, some_or,
}

-- `filepath.IsAbs`, `os.Stat` with `Mode().IsRegular()`, and whether `exec.LookPath` finds the
-- path.
pub record Binaries : Type 0 where
  pub is_abs : Bytes → Bool
  pub stat_regular : Bytes → Option Bool
  pub look_path : Bytes → Bool

abbrev pub auto_gov_binary_env : Bytes
auto_gov_binary_env = bytes "AUTOGOV_BINARY"

unfoldable pub validate_auto_gov_binary : Binaries → Bytes → Result Bytes
validate_auto_gov_binary b path = do
  guard (not (equal path [])) (plain "AUTOGOV_BINARY is required")
  guard (b.is_abs path) (plain "AUTOGOV_BINARY must be an absolute path")
  regular ← some_or (b.stat_regular path) (plain "AUTOGOV_BINARY must name an existing executable")
  guard regular (plain "AUTOGOV_BINARY must name a regular executable file")
  guard (b.look_path path) (plain "AUTOGOV_BINARY must name a file executable by this process")
  ok path

-- With `os.Getenv`.
abbrev pub auto_gov_binary : Binaries → (Bytes → Bytes) → Result Bytes
auto_gov_binary b getenv = validate_auto_gov_binary b (getenv auto_gov_binary_env)

-- Exactly the paths are accepted, and returned as they are, that are not empty and absolute and
-- name a regular file that can be executed.
pub validate_auto_gov_binary_iff :
    (b : Binaries) (path found : Bytes)
    → (validate_auto_gov_binary b path ≡ ok found) ↔ (
        (found ≡ path)
        × (path ≢ [])
        × (b.is_abs path ≡ true)
        × (b.stat_regular path ≡ some true)
        × (b.look_path path ≡ true))
unfolding validate_auto_gov_binary
validate_auto_gov_binary_iff b path found = ground (arith, equal_iff path [])
