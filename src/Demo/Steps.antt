-- ===== src/Demo/Steps.antt =====
-- Computations of cmd/demo/main.go: over the clock and the source of randomness and over the
-- outside world, which an error leaves as the steps before it made it.
use agent_governance_evidenc.Base.{
  Bool, true, false, Error, Result, ok, err, Result-cases, Bool-cases, inl, inr, ◌≡◌, refl, ap,
  arith,
}
use agent_governance_evidenc.Demokit.Signer.Data.{M}

abbrev pub Io : Type 0 → Type 0 → Type 0 → Type 0
Io R S A = R × S → Result A × (R × S)

infixl 5 ◌>>=◌ ◌>>◌
unfoldable pub ◌>>=◌ : {R S A B : Type 0} → Io R S A → (A → Io R S B) → Io R S B
◌>>=◌ m next w = let (result, w') = m w in elim result [ err e ↦ (err e, w') | ok a ↦ next a w' ]

abbrev pub ◌>>◌ : {R S B : Type 0} → Io R S (Unit {0}) → Io R S B → Io R S B
m >> rest = m >>= λ _. rest

abbrev pub pure : {R S A : Type 0} → A → Io R S A
pure a w = (ok a, w)

-- A result that does not touch the world, one that is read from it, and a check.
unfoldable pub given : {R S A : Type 0} → Result A → Io R S A
given r w = (r, w)

unfoldable pub reading : {R S A : Type 0} → (S → Result A) → Io R S A
reading f w = (f w.1, w)

-- A call that changes the outside world and tells whether it succeeds.
unfoldable pub changing : {R S : Type 0} → (S → Bool × S) → Error → Io R S (Unit {0})
changing f e w =
    let (succeeds, s) = f w.1 in
    elim succeeds [ true ↦ (ok tt, (w.0, s)) | false ↦ (err e, (w.0, s)) ]

unfoldable pub calling : {R S A : Type 0} → (S → A × S) → Io R S A
calling f w = let (a, s) = f w.1 in (ok a, (w.0, s))

-- A computation of the signer; what it drew before an error is not drawn again by anyone.
unfoldable pub drawing : {R S A : Type 0} → M R A → Io R S A
drawing m w = elim (m w.0) [ err e ↦ (err e, w) | ok (a, r) ↦ (ok a, (r, w.1)) ]

module _ {R S A : Type 0} where
  pub >>=-eq-ok :
      {B : Type 0} (m : Io R S A) (next : A → Io R S B) (w w' : R × S) (b : B)
      → (m >>= next) w ≡ (ok b, w')
      → (a : A) × (t : R × S) × (m w ≡ (ok a, t)) × (next a t ≡ (ok b, w'))
  unfolding ◌>>=◌
  >>=-eq-ok m next w w' b e = elim (Result-cases (m w).0) [
    | inl (a, is) ↦ (a, (m w).1, cc is, ground (arith, is))
    | inr (x, failed) ↦ absurd (ground (arith, failed))
  ]

  pub given-eq-ok :
      (r : Result A) (w w' : R × S) (a : A) → given r w ≡ (ok a, w') → (r ≡ ok a) × (w ≡ w')
  unfolding given
  given-eq-ok r w w' a e = (ap (λ x. x.0) e, ap (λ x. x.1) e)

  pub reading-eq-ok :
      (f : S → Result A) (w w' : R × S) (a : A)
      → reading f w ≡ (ok a, w')
      → (f w.1 ≡ ok a) × (w ≡ w')
  unfolding reading
  reading-eq-ok f w w' a e = (ap (λ x. x.0) e, ap (λ x. x.1) e)

  pub calling-eq-ok :
      (f : S → A × S) (w w' : R × S) (a : A)
      → calling f w ≡ (ok a, w')
      → (f w.1 ≡ (a, w'.1)) × (w.0 ≡ w'.0)
  unfolding calling
  calling-eq-ok f w w' a e =
      let first : (f w.1).0 ≡ a = ground arith in
      let second : (f w.1).1 ≡ w'.1 = ap (λ x. x.1.1) e in (cc (first, second), ap (λ x. x.1.0) e)

  pub drawing-eq-ok :
      (m : M R A) (w w' : R × S) (a : A)
      → drawing m w ≡ (ok a, w')
      → (m w.0 ≡ ok (a, w'.0)) × (w.1 ≡ w'.1)
  unfolding drawing
  drawing-eq-ok m w w' a e = elim (Result-cases (m w.0)) [
    | inl (r, is) ↦ ground (arith, is)
    | inr (x, failed) ↦ absurd (ground (arith, failed))
  ]

pub changing-eq-ok :
    {R S : Type 0} (f : S → Bool × S) (why : Error) (w w' : R × S)
    → changing f why w ≡ (ok tt, w')
    → (f w.1 ≡ (true, w'.1)) × (w.0 ≡ w'.0)
unfolding changing
changing-eq-ok {R} {S} f why w w' e = elim (Bool-cases (f w.1).0) [
  | inl is ↦
      let known : ◌≡◌ {A = Result (Unit {0}) × (R × S)} (ok tt, (w.0, (f w.1).1)) (ok tt, w') =
        rw (is, changing) at e in
      let later : (f w.1).1 ≡ w'.1 = ap (λ x. x.1.1) known in
      (cc (is, later), ap (λ x. x.1.0) known)
  | inr failed ↦ absurd (ground (arith, failed))
]

-- A step that succeeds goes on, and so does a computation of the signer.
pub >>=-of_ok :
    {R S A B : Type 0} (m : Io R S A) (next : A → Io R S B) (w t : R × S) (a : A)
    → m w ≡ (ok a, t)
    → (m >>= next) w ≡ next a t
unfolding ◌>>=◌
>>=-of_ok m next w t a is = rw (ap (λ x. x.0) is, ◌>>=◌) (ap (next a) (ap (λ x. x.1) is))

pub drawing-of_ok :
    {R S A : Type 0} (m : M R A) (w : R × S) (a : A) (r : R)
    → m w.0 ≡ ok (a, r)
    → drawing m w ≡ (ok a, (r, w.1))
unfolding drawing
drawing-of_ok m w a r is = rw (is, drawing) refl
