-- ===== src/Base/Order.antt =====
-- The bytewise order of Go strings (`<` on strings), a strict total order.
use mathlib.Core.Path.{◌≡◌, refl}
use mathlib.Core.Bool.{Bool, true, false}
use mathlib.Core.List.{[], ◌∷◌}
use native.Mathlib.Omega.{arith}
use agent_governance_evidenc.Base.Tests.{ltb, ◌==◌, if◌then◌else◌, Bool-cases}
use mathlib.Core.Logic.{inl, inr}
use agent_governance_evidenc.Base.Text.{Bytes}

unfoldable pub less : Bytes → Bytes → Bool
less [] [] = false
less [] (y ∷ ys) = true
less (x ∷ xs) [] = false
less (x ∷ xs) (y ∷ ys) = if x == y then less xs ys else ltb x y

pub less_irrefl : (a : Bytes) → less a a ≡ false
unfolding less
less_irrefl [] = refl
less_irrefl (x ∷ a) = ground (arith, less_irrefl a)

pub less_trans : (a b c : Bytes) → less a b ≡ true → less b c ≡ true → less a c ≡ true
unfolding less
less_trans (x ∷ a) (y ∷ b) (z ∷ c) p q = ground (arith, less_trans a b c)
less_trans [] _ (z ∷ c) p q = refl
less_trans _ [] [] p q = cc
less_trans _ (y ∷ b) [] p q = cc
less_trans _ [] _ p q = ground arith

pub less_asymm : (a b : Bytes) → less a b ≡ true → less b a ≡ false
unfolding less
less_asymm (x ∷ a) (y ∷ b) p = ground (arith, less_asymm a b)
less_asymm _ _ p = ground arith

-- Any two strings are ordered or equal.
pub less_total : (a b : Bytes) → less a b ≡ false → less b a ≡ false → a ≡ b
unfolding less
less_total (x ∷ a) (y ∷ b) p q = ground (arith, less_total a b)
less_total _ _ p q = ground arith

-- "Not less" is transitive: what sorting relies on.
pub less_negtrans : (a b c : Bytes) → less b a ≡ false → less c b ≡ false → less c a ≡ false
less_negtrans a b c p q = elim (Bool-cases (less c a)) [
  | inr ge ↦ ge
  | inl lt ↦ elim (Bool-cases (less a b)) [
    | inl ab ↦ absurd (ground (arith, less_trans c a b lt ab))
    | inr ba ↦ let same : a ≡ b = less_total a b ba p in absurd (ground arith)
  ]
]
