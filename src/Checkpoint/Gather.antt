-- ===== src/Checkpoint/Gather.antt =====
-- The loop that collects the entries: its entries are those of its elements, in their order.
use mathlib.Core.List.{Mem, mem-append_left, mem-append_right, map-append}
use agent_governance_evidenc.Base.{
  ◌≡◌, sym, ap, subst, List, [], ◌∷◌, ◌++◌, Result, ok, ok-inj, >>=-eq-ok, arith, All, All-map,
  All-append, map,
}
use agent_governance_evidenc.Checkpoint.Data.{Entry}
use agent_governance_evidenc.Checkpoint.{gather}
use agent_governance_evidenc.Checkpoint.Order.{Key, key, each_of}

module _ {ℓ} {A : Type ℓ} (f : A → Result (List Entry)) where
  pub gather-keys :
      (g : A → List Key)
      → ((x : A) (found : List Entry) → f x ≡ ok found → map key found ≡ g x)
      → (xs : List A) (es : List Entry) → gather f xs ≡ ok es
      → map key es ≡ each_of g xs
  unfolding gather
  gather-keys g keys [] es e = let same : [] ≡ es = ground arith in ap (map key) (sym same)
  gather-keys g keys (x ∷ xs) es e =
      let (found, first, e₁) = >>=-eq-ok (f x) _ e in
      let (rest, later, e₂) = >>=-eq-ok (gather f xs) _ e₁ in
      let same : found ++ rest ≡ es = ground arith in
      let tails = gather-keys g keys xs rest later in
      rw (← same, map-append key found rest) (cc (keys x found first, tails))

  pub gather-All :
      (P : Entry → Type 0)
      → ((x : A) (found : List Entry) → f x ≡ ok found → All P found)
      → (xs : List A) (es : List Entry) → gather f xs ≡ ok es
      → All P es
  unfolding gather
  gather-All P each [] es e = subst (All P) (ok-inj e) tt
  gather-All P each (x ∷ xs) es e =
      let (found, first, e₁) = >>=-eq-ok (f x) _ e in
      let (rest, later, e₂) = >>=-eq-ok (gather f xs) _ e₁ in
      subst (All P) (ok-inj e₂)
        (All-append P found rest (each x found first) (gather-All P each xs rest later))

  unfoldable pub Within : List Entry → A → Type 0
  Within es x = (found : List Entry) × (f x ≡ ok found) × ((e : Entry) → Mem e found → Mem e es)

  pub gather-Within : (xs : List A) (es : List Entry) → gather f xs ≡ ok es → All (Within es) xs
  unfolding gather Within
  gather-Within [] es e = tt
  gather-Within (x ∷ xs) es e =
      let (found, first, e₁) = >>=-eq-ok (f x) _ e in
      let (rest, later, e₂) = >>=-eq-ok (gather f xs) _ e₁ in
      let same : found ++ rest ≡ es = ground arith in
      subst (λ all_es. All (Within all_es) (x ∷ xs)) same
        (
          (found, first, λ a m. mem-append_left rest m),
          All-map {P = Within rest}
              (λ y (some_found, is, within).
                (some_found, is, λ a m. mem-append_right found (within a m)))
              xs (gather-Within xs rest later),
        )
