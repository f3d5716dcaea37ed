-- ===== src/Base/Text.antt =====
-- Go strings: sequences of bytes. A text literal stands for its code points, which are its bytes
-- where it is ASCII, as every constant of the program is.
use Prim.Native.Nat.{ℕ, ◌+◌}
use Prim.Native.Char.{code}
use Prim.Native.String.{String}
use mathlib.Core.Path.{◌≡◌, refl}
use mathlib.Core.Logic.{◌↔◌, ◌≢◌}
use mathlib.Core.Bool.{Bool, true, false, ◌&&◌, ◌||◌}
use mathlib.Core.Option.{Option, none, some}
use mathlib.Core.List.{List, [], ◌∷◌, ◌++◌, map}
use native.Mathlib.Omega.{arith}
use native.Mathlib.Decide.{ℕ_discrete}
use agent_governance_evidenc.Base.Tests.{leb, ◌==◌, if◌then◌else◌}

abbrev pub Bytes : Type 0
Bytes = List ℕ

pub Bytes-discrete : Discrete Bytes
Bytes-discrete = hlevel ℕ_discrete

pub Bytes-set : IsSet Bytes
Bytes-set = hlevel Bytes-discrete

unfoldable pub bytes : String → Bytes
bytes String.[] = []
bytes (String.◌∷◌ c s) = code c ∷ bytes s

-- Go's `==` on strings.
unfoldable pub equal : Bytes → Bytes → Bool
equal [] [] = true
equal (c ∷ s) (d ∷ t) = c == d && equal s t
equal s t = false

pub equal_iff : (s t : Bytes) → (equal s t ≡ true) ↔ (s ≡ t)
unfolding equal
equal_iff (c ∷ s) (d ∷ t) = ground (arith, equal_iff s t)
equal_iff s t = ground arith

pub equal_refl : (a : Bytes) → equal a a ≡ true
equal_refl a = (equal_iff a a).1 refl

pub equal-ne : {a b : Bytes} → a ≢ b → equal a b ≡ false
equal-ne {a} {b} h = ground (arith, equal_iff a b)

-- `slices.Contains`, and membership in a set of strings.
unfoldable pub contains : List Bytes → Bytes → Bool
contains [] s = false
contains (x ∷ xs) s = equal x s || contains xs s

-- `strings.HasPrefix` and `strings.TrimPrefix`, by what is left behind the prefix.
unfoldable pub trim_prefix : Bytes → Bytes → Option Bytes
trim_prefix [] s = some s
trim_prefix (p ∷ ps) [] = none
trim_prefix (p ∷ ps) (c ∷ s) = if p == c then trim_prefix ps s else none

unfoldable pub has_prefix : Bytes → Bytes → Bool
unfolding trim_prefix
has_prefix p s = elim (trim_prefix p s) [ none ↦ false | some _ ↦ true ]

pub trim_prefix-append : (p s : Bytes) → trim_prefix p (p ++ s) ≡ some s
unfolding trim_prefix
trim_prefix-append [] s = refl
trim_prefix-append (x ∷ p) s = ground (arith, trim_prefix-append p s)

pub trim_prefix_sound : (p s r : Bytes) → trim_prefix p s ≡ some r → s ≡ p ++ r
unfolding trim_prefix
trim_prefix_sound [] s r h = ground arith
trim_prefix_sound (x ∷ p) [] r h = ground arith
trim_prefix_sound (x ∷ p) (c ∷ s) r h = ground (arith, trim_prefix_sound p s r)

-- `strings.ToLower` on ASCII text.
unfoldable pub lower_byte : ℕ → ℕ
lower_byte c = if leb b'A' c && leb c b'Z' then c + 32 else c

unfoldable pub to_lower : Bytes → Bytes
unfolding lower_byte
to_lower s = map lower_byte s
