-- ===== src/Base/Results.antt =====
-- Fallible code: Go's `(T, error)`, with the error as a value.
use Prim.Native.Nat.{ℕ}
use Prim.Native.String.{String}
use mathlib.Core.Path.{◌≡◌, refl}
use mathlib.Core.Logic.{◌↔◌, ◌⊎◌, inl, inr}
use mathlib.Core.Bool.{Bool, true, false}
use mathlib.Core.Option.{Option, none, some}
use native.Mathlib.Omega.{arith}
use agent_governance_evidenc.Base.Text.{Bytes}

-- Where an error lies: a field's name, the case at an index of `conformance.cases`, or a member
-- below another label.
pub data Label : Type 0 where
  here : String → Label
  case_at : ℕ → Label
  below : Label → String → Label

-- An error's text without its label, an error's text and the path or reference that is formatted
-- into it, or a failure that is passed on with its text.
pub data Error : Type 0 where
  at : Label → String → Error
  naming : Bytes → String → Error
  plain : String → Error

pub data Result {ℓ} (A : Type ℓ) : Type ℓ where
  err : Error → Result A
  ok : A → Result A

infixl 5 ◌>>=◌ ◌>>◌
-- The first error is the result.
abbrev pub ◌>>=◌ {ℓ κ} : {A : Type ℓ} {B : Type κ} → Result A → (A → Result B) → Result B
err why >>= next = err why
ok value >>= next = next value

-- A check before a computation.
abbrev pub ◌>>◌ {ℓ} : {B : Type ℓ} → Result (Unit {0}) → Result B → Result B
check >> rest = check >>= λ _. rest

-- `if cond { return err }`: the guard is the condition under which the code goes on.
abbrev pub guard : Bool → Error → Result (Unit {0})
guard false why = err why
guard true why = ok tt

abbrev pub some_or {ℓ} : {A : Type ℓ} → Option A → Error → Result A
some_or none e = err e
some_or (some a) e = ok a

pub >>=-eq-ok {ℓ κ} :
    {A : Type ℓ} {B : Type κ} (attempt : Result A) (next : A → Result B) {result : B}
    → (attempt >>= next) ≡ ok result
    → (value : A) × (attempt ≡ ok value) × (next value ≡ ok result)
>>=-eq-ok (ok value) next e = (value, refl, e)
>>=-eq-ok (err why) next e = cc

-- A step that only checks succeeds, with what follows, exactly when both do.
pub >>-eq-ok_iff {ℓ} :
    {B : Type ℓ} (m : Result (Unit {0})) (k : Result B) {b : B}
    → ((m >> k) ≡ ok b) ↔ ((m ≡ ok tt) × (k ≡ ok b))
>>-eq-ok_iff (ok tt) k = (λ h. (refl, h), λ (p, q). q)
>>-eq-ok_iff (err e) k = (λ h. cc, λ (p, q). cc)

pub guard_iff : (b : Bool) (e : Error) → (guard b e ≡ ok tt) ↔ (b ≡ true)
guard_iff b e = ground arith

pub Result-cases {ℓ} :
    {A : Type ℓ} (m : Result A) → ((a : A) × (m ≡ ok a)) ⊎ ((e : Error) × (m ≡ err e))
Result-cases (ok a) = inl (a, refl)
Result-cases (err e) = inr (e, refl)

pub some_or-eq-ok {ℓ} :
    {A : Type ℓ} (o : Option A) (why : Error) (a : A) → some_or o why ≡ ok a → o ≡ some a
some_or-eq-ok none why a h = cc
some_or-eq-ok (some b) why a h = ground arith

pub ok-inj {ℓ} : {A : Type ℓ} {a b : A} → ◌≡◌ {A = Result A} (ok a) (ok b) → a ≡ b
ok-inj e = ground arith
