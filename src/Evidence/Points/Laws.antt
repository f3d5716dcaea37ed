-- ===== src/Evidence/Points/Laws.antt =====
-- `dedupeSortStrings` returns the ascending list of the strings that occur.
use agent_governance_evidenc.Base.{
  List, [], ◌∷◌, true, false, ◌||◌, ◌≡◌, refl, ◌∙◌, sym, ap, arith, Bytes, contains, equal_iff,
  equal_refl, equal, Bool-cases, inl, inr, All, All-map,
}
use agent_governance_evidenc.Base.Order.{less, less_irrefl, less_asymm, less_total, less_negtrans}
use agent_governance_evidenc.Base.Sort.{insert, insert-All, sort, sort-All, IsSorted, sort-IsSorted}
use agent_governance_evidenc.Evidence.Points.{dedupe, dedupe_sort}

-- Every string is less than all that follow it: ascending, and none twice.
abbrev pub IsAscending : List Bytes → Type 0
IsAscending [] = Unit
IsAscending (x ∷ xs) = All (λ y. less x y ≡ true) xs × IsAscending xs

contains-insert :
    (x : Bytes) (ys : List Bytes) (s : Bytes)
    → contains (insert less x ys) s ≡ (equal x s || contains ys s)
unfolding contains insert
contains-insert x [] s = refl
contains-insert x (y ∷ ys) s = ground (arith, contains-insert x ys s)

contains-sort : (xs : List Bytes) (s : Bytes) → contains (sort less xs) s ≡ contains xs s
unfolding contains sort
contains-sort [] s = refl
contains-sort (x ∷ xs) s =
    contains-insert x (sort less xs) s ∙ ap (λ b. equal x s || b) (contains-sort xs s)

contains-dedupe :
    (seen xs : List Bytes) (s : Bytes)
    → contains seen s ≡ false
    → contains (dedupe seen xs) s ≡ contains xs s
unfolding contains dedupe
contains-dedupe seen [] s h = refl
contains-dedupe seen (x ∷ xs) s h =
    ground (arith, equal_iff x s, contains-dedupe seen xs s, contains-dedupe (x ∷ seen) xs s)

-- Deduplicating and sorting keeps exactly the strings of the input.
pub contains-dedupe_sort :
    (xs : List Bytes) (s : Bytes) → contains (dedupe_sort xs) s ≡ contains xs s
unfolding dedupe_sort contains
contains-dedupe_sort xs s = contains-sort (dedupe [] xs) s ∙ contains-dedupe [] xs s refl

-- No string of the list is in `seen`, and none occurs twice.
abbrev IsFresh : List Bytes → List Bytes → Type 0
IsFresh seen [] = Unit
IsFresh seen (x ∷ xs) = (contains seen x ≡ false) × IsFresh (x ∷ seen) xs

dedupe-IsFresh : (seen xs : List Bytes) → IsFresh seen (dedupe seen xs)
unfolding dedupe
dedupe-IsFresh seen [] = tt
dedupe-IsFresh seen (x ∷ xs) = elim (Bool-cases (contains seen x)) [
  | inl old ↦ rw (old, dedupe) (dedupe-IsFresh seen xs)
  | inr new ↦ rw (new, dedupe) (new, dedupe-IsFresh (x ∷ seen) xs)
]

-- Inequality of each string to all that follow.
abbrev IsNodup : List Bytes → Type 0
IsNodup [] = Unit
IsNodup (x ∷ xs) = All (λ y. equal x y ≡ false) xs × IsNodup xs

IsFresh-All : (seen xs : List Bytes) → IsFresh seen xs → All (λ y. contains seen y ≡ false) xs
unfolding contains
IsFresh-All seen [] h = tt
IsFresh-All seen (x ∷ xs) (new, h) =
    (new, All-map (λ y e. ground arith) xs (IsFresh-All (x ∷ seen) xs h))

IsFresh-IsNodup : (seen xs : List Bytes) → IsFresh seen xs → IsNodup xs
unfolding contains
IsFresh-IsNodup seen [] h = tt
IsFresh-IsNodup seen (x ∷ xs) (new, h) = (
  All-map (λ y e. ground arith) xs (IsFresh-All (x ∷ seen) xs h),
  IsFresh-IsNodup (x ∷ seen) xs h,
)

insert-IsNodup :
    (x : Bytes) (ys : List Bytes)
    → All (λ y. equal x y ≡ false) ys
    → IsNodup ys
    → IsNodup (insert less x ys)
unfolding insert
insert-IsNodup x [] h k = (tt, tt)
insert-IsNodup x (y ∷ ys) (p, h) (q, k) = elim (Bool-cases (less y x)) [
  | inl lt ↦
      let other : equal y x ≡ false = ground (arith, equal_iff x y, equal_iff y x) in
      rw (lt, insert) (insert-All less _ x ys other q, insert-IsNodup x ys h k)
  | inr ge ↦ rw (ge, insert) ((p, h), (q, k))
]

sort-IsNodup : (xs : List Bytes) → IsNodup xs → IsNodup (sort less xs)
unfolding sort
sort-IsNodup [] h = tt
sort-IsNodup (x ∷ xs) (p, h) =
    insert-IsNodup x (sort less xs) (sort-All less _ xs p) (sort-IsNodup xs h)

All-ascending :
    (x : Bytes) (xs : List Bytes)
    → All (λ y. less y x ≡ false) xs
    → All (λ y. equal x y ≡ false) xs
    → All (λ y. less x y ≡ true) xs
All-ascending x [] h k = tt
All-ascending x (y ∷ ys) (p, h) (q, k) =
    (ground (arith, equal_iff x y, less_total x y), All-ascending x ys h k)

IsSorted-IsAscending : (xs : List Bytes) → IsSorted less xs → IsNodup xs → IsAscending xs
IsSorted-IsAscending [] h k = tt
IsSorted-IsAscending (x ∷ xs) (p, h) (q, k) = (All-ascending x xs p q, IsSorted-IsAscending xs h k)

-- The deduplicated and sorted list is strictly ascending: sorted, with no string twice.
pub dedupe_sort-IsAscending : (xs : List Bytes) → IsAscending (dedupe_sort xs)
unfolding dedupe_sort
dedupe_sort-IsAscending xs =
    IsSorted-IsAscending _ (sort-IsSorted less less_asymm less_negtrans (dedupe [] xs))
      (sort-IsNodup (dedupe [] xs) (IsFresh-IsNodup [] _ (dedupe-IsFresh [] xs)))

contains-less :
    (x : Bytes) (ys : List Bytes) (s : Bytes)
    → All (λ y. less x y ≡ true) ys
    → contains ys s ≡ true
    → less x s ≡ true
unfolding contains
contains-less x [] s h c = cc
contains-less x (y ∷ ys) s (p, h) c = ground (arith, equal_iff y s, contains-less x ys s h)

-- An ascending list is given by the strings that it holds.
ascending_unique :
    (xs ys : List Bytes)
    → IsAscending xs
    → IsAscending ys
    → ((s : Bytes) → contains xs s ≡ contains ys s)
    → xs ≡ ys
unfolding contains
ascending_unique [] [] h k same = refl
ascending_unique [] (y ∷ ys) h k same = absurd (ground (arith, same y, equal_refl y))
ascending_unique (x ∷ xs) [] h k same = absurd (ground (arith, same x, equal_refl x))
ascending_unique (x ∷ xs) (y ∷ ys) (p, h) (q, k) same =
    let heads : x ≡ y = ground (
      arith,
      same x,
      same y,
      equal_iff x x,
      equal_iff y y,
      equal_iff x y,
      equal_iff y x,
      contains-less x xs y p,
      contains-less y ys x q,
      less_asymm x y,
    ) in
    let tails : (s : Bytes) → contains xs s ≡ contains ys s = λ s. ground (
      arith,
      same s,
      heads,
      equal_iff x s,
      equal_iff y s,
      contains-less x xs s p,
      contains-less y ys s q,
      less_irrefl s,
      Bool-cases (contains xs s),
      Bool-cases (contains ys s),
    ) in
    cc (heads, ascending_unique xs ys h k tails)

-- Inputs that hold the same strings, in any order and number, give the same list.
pub dedupe_sort_canonical :
    (xs ys : List Bytes)
    → ((s : Bytes) → contains xs s ≡ contains ys s)
    → dedupe_sort xs ≡ dedupe_sort ys
dedupe_sort_canonical xs ys same =
    ascending_unique _ _ (dedupe_sort-IsAscending xs) (dedupe_sort-IsAscending ys)
      λ s. contains-dedupe_sort xs s ∙ same s ∙ sym (contains-dedupe_sort ys s)

-- Doing it twice changes nothing more.
pub dedupe_sort_idem : (xs : List Bytes) → dedupe_sort (dedupe_sort xs) ≡ dedupe_sort xs
dedupe_sort_idem xs = dedupe_sort_canonical _ _ (contains-dedupe_sort xs)

-- An ascending list is left as it is.
pub dedupe_sort_of_IsAscending : (xs : List Bytes) → IsAscending xs → dedupe_sort xs ≡ xs
dedupe_sort_of_IsAscending xs h =
    ascending_unique _ _ (dedupe_sort-IsAscending xs) h (contains-dedupe_sort xs)
