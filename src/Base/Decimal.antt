-- ===== src/Base/Decimal.antt =====
-- `%d` of a number that is not negative, and what makes its output readable again.
use Prim.Native.Nat.{ℕ, zero, suc, ◌+◌, ◌-◌, ◌*◌, ◌/◌, ◌%◌, ◌≤◌, ◌<◌}
use mathlib.Core.Path.{◌≡◌, refl, ap, sym, ◌∙◌}
use mathlib.Core.Logic.{inl, inr}
use mathlib.Core.List.{[], ◌∷◌, ◌++◌}
use native.Mathlib.Omega.{arith}
use agent_governance_evidenc.Base.Tests.{ltb, if◌then◌else◌, Bool-cases}
use agent_governance_evidenc.Base.Lists.{All, All-append, length}
use agent_governance_evidenc.Base.Text.{Bytes}

-- On fuel, which is the number itself and one more.
unfoldable pub decimal_from : ℕ → ℕ → Bytes
decimal_from zero n = []
decimal_from (suc fuel) n =
    let higher = decimal_from fuel (n / 10) in
    if ltb n 10 then (b'0' + n) ∷ [] else higher ++ (b'0' + n % 10) ∷ []

unfoldable pub decimal : ℕ → Bytes
unfolding decimal_from
decimal n = decimal_from (suc n) n

-- A digit is at least `0`, so that it is no space.
abbrev pub IsDigits : Bytes → Type 0
IsDigits s = All (λ c. (b'0' ≤ c) × (c ≤ b'9')) s

decimal_from-IsDigits : (fuel n : ℕ) → IsDigits (decimal_from fuel n)
unfolding decimal_from
decimal_from-IsDigits zero n = tt
decimal_from-IsDigits (suc fuel) n = elim (Bool-cases (ltb n 10)) [
  | inl small ↦ rw small ((ground arith, ground arith), tt)
  | inr large ↦ rw large (
      All-append _ (decimal_from fuel (n / 10)) _ (decimal_from-IsDigits fuel (n / 10))
        ((omega arith, omega arith), tt))
]

pub decimal-IsDigits : (n : ℕ) → IsDigits (decimal n)
unfolding decimal
decimal-IsDigits n = decimal_from-IsDigits (suc n) n

value_from : ℕ → Bytes → ℕ
value_from acc [] = acc
value_from acc (c ∷ s) = value_from (acc * 10 + (c - b'0')) s

value_from-snoc :
    (acc c : ℕ) (s : Bytes) → value_from acc (s ++ c ∷ []) ≡ value_from acc s * 10 + (c - b'0')
unfolding value_from
value_from-snoc acc c [] = refl
value_from-snoc acc c (d ∷ s) = value_from-snoc (acc * 10 + (d - b'0')) c s

value_from-decimal : (fuel n : ℕ) → n < fuel → value_from 0 (decimal_from fuel n) ≡ n
unfolding decimal_from value_from
value_from-decimal zero n h = elim h [ ]
value_from-decimal (suc fuel) n h = elim (Bool-cases (ltb n 10)) [
  | inl small ↦ rw small (omega arith)
  | inr large ↦
      let inner = value_from-decimal fuel (n / 10) (ground arith) in
      rw (large, value_from-snoc 0 (b'0' + n % 10) (decimal_from fuel (n / 10)), inner)
        (omega arith)
]

-- Two numbers that print alike are equal.
pub decimal_inj : (m n : ℕ) → decimal m ≡ decimal n → m ≡ n
unfolding decimal
decimal_inj m n e =
    sym (value_from-decimal (suc m) m (omega arith))
    ∙ ap (value_from 0) e
    ∙ value_from-decimal (suc n) n (omega arith)

-- Digits before a space are read back with what follows.
pub digits_split :
    (s t u v : Bytes) → IsDigits s → IsDigits t → s ++ b' ' ∷ u ≡ t ++ b' ' ∷ v → (s ≡ t) × (u ≡ v)
digits_split [] [] u v h k e = ground arith
digits_split [] (d ∷ t) u v h k e = absurd (ground arith)
digits_split (c ∷ s) [] u v h k e = absurd (ground arith)
digits_split (c ∷ s) (d ∷ t) u v (_, h) (_, k) e =
    let (first, rest) = digits_split s t u v h k (ground arith) in
    let same : c ≡ d = ground arith in (cc (first, same), rest)

-- Texts of one length before other texts are read back.
pub split_at_length : (s t u v : Bytes) → length s ≡ length t → s ++ u ≡ t ++ v → (s ≡ t) × (u ≡ v)
split_at_length [] [] u v h e = (refl, e)
split_at_length [] (d ∷ t) u v h e = absurd (omega arith)
split_at_length (c ∷ s) [] u v h e = absurd (omega arith)
split_at_length (c ∷ s) (d ∷ t) u v h e =
    let (first, rest) = split_at_length s t u v (omega arith) (ground arith) in
    let same : c ≡ d = ground arith in (cc (first, same), rest)
