-- ===== src/Base/Sort.antt =====
-- `sort.SliceStable` by its contract, for a comparison `less`: insertion, each element going in
-- front of the first element that is not less than it, so that equal elements keep their order.
use mathlib.Core.Path.{◌≡◌, refl, subst, ◌∙◌}
use mathlib.Core.Logic.{◌⊎◌, inl, inr, ∥∥₁_elim}
use mathlib.Core.Bool.{Bool, true, false}
use mathlib.Core.List.{List, [], ◌∷◌, Perm, Permᴰ}
use mathlib.Core.List.Perm
use native.Mathlib.Omega.{arith}
use agent_governance_evidenc.Base.Tests.{if◌then◌else◌, Bool-cases}
use agent_governance_evidenc.Base.Lists.{All}

module _ {ℓ} {A : Type ℓ} (less : A → A → Bool) where
  unfoldable pub insert : A → List A → List A
  insert x [] = x ∷ []
  insert x (y ∷ ys) = if less y x then y ∷ insert x ys else x ∷ y ∷ ys

  unfoldable pub sort : List A → List A
  unfolding insert
  sort [] = []
  sort (x ∷ xs) = insert x (sort xs)

  -- No element stands behind one that it is less than.
  abbrev pub IsSorted : List A → Type 0
  IsSorted [] = Unit
  IsSorted (x ∷ xs) = All (λ y. less y x ≡ false) xs × IsSorted xs

  pub insert-All : (P : A → Type 0) (x : A) (ys : List A) → P x → All P ys → All P (insert x ys)
  unfolding insert
  insert-All P x [] p h = (p, tt)
  insert-All P x (y ∷ ys) p (q, h) = elim (Bool-cases (less y x)) [
    | inl lt ↦ rw (lt, insert) (q, insert-All P x ys p h)
    | inr ge ↦ rw (ge, insert) (p, (q, h))
  ]

  pub insert-perm : (x : A) (ys : List A) → Perm (insert x ys) (x ∷ ys)
  unfolding insert
  insert-perm x [] = Perm.refl (x ∷ [])
  insert-perm x (y ∷ ys) = elim (Bool-cases (less y x)) [
    | inl lt ↦ rw (lt, insert) (Perm.trans (Perm.cons y (insert-perm x ys)) (Perm.swap x y ys))
    | inr ge ↦ rw (ge, insert) (Perm.refl _)
  ]

  -- Sorting loses and invents nothing.
  pub sort-perm : (xs : List A) → Perm (sort xs) xs
  unfolding sort
  sort-perm [] = Perm.refl []
  sort-perm (x ∷ xs) = Perm.trans (insert-perm x (sort xs)) (Perm.cons x (sort-perm xs))

  pub sort-All : (P : A → Type 0) (xs : List A) → All P xs → All P (sort xs)
  unfolding sort
  sort-All P [] h = tt
  sort-All P (x ∷ xs) (p, h) = insert-All P x (sort xs) p (sort-All P xs h)

  insert-All_inv : (P : A → Type 0) (x : A) (ys : List A) → All P (insert x ys) → P x × All P ys
  unfolding insert
  insert-All_inv P x [] h = h
  insert-All_inv P x (y ∷ ys) h = elim (Bool-cases (less y x)) [
    | inl lt ↦
        let inside : P y × All P (insert x ys) = rw (lt, insert) at h in
        let rest = insert-All_inv P x ys inside.1 in (rest.0, (inside.0, rest.1))
    | inr ge ↦ let inside : P x × (P y × All P ys) = rw (ge, insert) at h in inside
  ]

  -- What holds of all sorted elements holds of all that were given.
  pub sort-All_inv : (P : A → Type 0) (xs : List A) → All P (sort xs) → All P xs
  unfolding sort
  sort-All_inv P [] h = tt
  sort-All_inv P (x ∷ xs) h =
      let rest = insert-All_inv P x (sort xs) h in (rest.0, sort-All_inv P xs rest.1)

  -- A sorted list is left as it is.
  pub insert_below : (x : A) (ys : List A) → All (λ y. less y x ≡ false) ys → insert x ys ≡ x ∷ ys
  unfolding insert
  insert_below x [] h = refl
  insert_below x (y ∷ ys) (p, h) = rw (p, insert)

  pub sort_of_IsSorted : (xs : List A) → IsSorted xs → sort xs ≡ xs
  unfolding sort
  sort_of_IsSorted [] h = refl
  sort_of_IsSorted (x ∷ xs) (below, h) = rw (sort_of_IsSorted xs h) (insert_below x xs below)

  -- Two elements that do not tie, and a list in which no two do.
  abbrev pub Apart : A → A → Type 0
  Apart x y = (less x y ≡ true) ⊎ (less y x ≡ true)

  abbrev pub IsStrict : List A → Type 0
  IsStrict [] = Unit
  IsStrict (x ∷ xs) = All (Apart x) xs × IsStrict xs

  Apart-symm : {x y : A} → Apart x y → Apart y x
  Apart-symm (inl p) = inr p
  Apart-symm (inr p) = inl p

  All-permᴰ : (P : A → Type 0) {xs ys : List A} → Permᴰ xs ys → All P xs → All P ys
  All-permᴰ P Permᴰ.nil h = tt
  All-permᴰ P (Permᴰ.cons e p) (q, h) = (rw e at q, All-permᴰ P p h)
  All-permᴰ P (Permᴰ.swap e f) (q, (r, h)) = (rw f at r, (rw e at q, h))
  All-permᴰ P (Permᴰ.trans p q) h = All-permᴰ P q (All-permᴰ P p h)

  IsStrict-permᴰ : {xs ys : List A} → Permᴰ xs ys → IsStrict xs → IsStrict ys
  IsStrict-permᴰ Permᴰ.nil h = tt
  IsStrict-permᴰ (Permᴰ.cons e p) (q, h) = (rw (← e) (All-permᴰ _ p q), IsStrict-permᴰ p h)
  IsStrict-permᴰ (Permᴰ.swap {a = x} {b = y} {a' = x'} {b' = y'} {l} e f) ((xy, hx), (hy, h)) =
      let same : y ∷ x ∷ l ≡ x' ∷ y' ∷ l = cc in subst IsStrict same ((Apart-symm xy, hy), (hx, h))
  IsStrict-permᴰ (Permᴰ.trans p q) h = IsStrict-permᴰ q (IsStrict-permᴰ p h)

  module _ (asymm : (a b : A) → less a b ≡ true → less b a ≡ false)
      (negtrans : (a b c : A) → less b a ≡ false → less c b ≡ false → less c a ≡ false) where
    All-not_less :
        (x y : A) (ys : List A)
        → less y x ≡ false
        → All (λ z. less z y ≡ false) ys
        → All (λ z. less z x ≡ false) ys
    All-not_less x y [] p h = tt
    All-not_less x y (z ∷ zs) p (q, h) = (negtrans x y z p q, All-not_less x y zs p h)

    pub insert-IsSorted : (x : A) (ys : List A) → IsSorted ys → IsSorted (insert x ys)
    unfolding insert
    insert-IsSorted x [] h = (tt, tt)
    insert-IsSorted x (y ∷ ys) (below, h) = elim (Bool-cases (less y x)) [
      | inl lt ↦ rw (lt, insert) (insert-All _ x ys (asymm y x lt) below, insert-IsSorted x ys h)
      | inr ge ↦ rw (ge, insert) ((ge, All-not_less x y ys ge below), (below, h))
    ]

    -- The result is sorted.
    pub sort-IsSorted : (xs : List A) → IsSorted (sort xs)
    unfolding sort
    sort-IsSorted [] = tt
    sort-IsSorted (x ∷ xs) = insert-IsSorted x (sort xs) (sort-IsSorted xs)

    insert_comm :
        (x y : A) (zs : List A)
        → (less x y ≡ true) ⊎ (less y x ≡ true)
        → insert x (insert y zs) ≡ insert y (insert x zs)
    unfolding insert
    insert_comm x y [] c = ground (arith, asymm x y, asymm y x)
    insert_comm x y (z ∷ zs) c =
        ground (arith, asymm x y, asymm y x, negtrans x y z, negtrans y x z, insert_comm x y zs c)

    sort-permᴰ : {xs ys : List A} → Permᴰ xs ys → IsStrict xs → sort xs ≡ sort ys
    unfolding sort
    sort-permᴰ Permᴰ.nil h = refl
    sort-permᴰ (Permᴰ.cons e p) (_, h) = rw (e, sort-permᴰ p h)
    sort-permᴰ (Permᴰ.swap {a} {b} {l} e f) ((ab, _), _) =
        rw (← e, ← f) (insert_comm a b (sort l) ab)
    sort-permᴰ (Permᴰ.trans p q) h = sort-permᴰ p h ∙ sort-permᴰ q (IsStrict-permᴰ p h)

    -- The order of the input does not matter where no two elements tie.
    pub sort-eq_of_perm :
        IsSet (List A) → {xs ys : List A} → Perm xs ys → IsStrict xs → sort xs ≡ sort ys
    sort-eq_of_perm set {xs} {ys} p h = ∥∥₁_elim p (set (sort xs) (sort ys)) (λ q. sort-permᴰ q h)
