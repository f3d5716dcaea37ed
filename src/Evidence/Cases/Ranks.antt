-- ===== src/Evidence/Cases/Ranks.antt =====
-- The order of the conformance cases, described by the list of the four kinds and without the
-- comparison of the code.
use mathlib.Core.List.{Perm}
use agent_governance_evidenc.Base.{
  ℕ, suc, ◌≡◌, ◌<◌, ◌⊎◌, inl, inr, false, refl, sym, List, [], ◌∷◌, Option, none, some, Bytes,
  bytes, equal, arith, All, All-map, Bool-cases, Option-cases, if◌then◌else◌, ◌==◌, ==_iff, ltb,
}
use agent_governance_evidenc.Base.Order.{less}
use agent_governance_evidenc.Base.Sort.{IsSorted}
use agent_governance_evidenc.Evidence.{Case}
use agent_governance_evidenc.Evidence.Cases.{kind_order, case_less, sort_cases}
use agent_governance_evidenc.Evidence.Cases.Laws.{sort_cases-IsSorted, sort_cases-Perm}

-- The place of a text in a list: its index, or the length where it is missing.
unfoldable pub place : List Bytes → Bytes → ℕ
place [] s = 0
place (x ∷ xs) s = let later = place xs s in if equal s x then 0 else suc later

abbrev pub kinds : List Bytes
kinds =
    bytes "allowed-action"
    ∷ bytes "denied-action"
    ∷ bytes "adapter-bypass"
    ∷ bytes "no-policy-loaded"
    ∷ []

-- A case stands in front of another: its kind comes earlier in the list of the kinds, an unlisted
-- kind coming last, or as early, and then its id is not behind that of the other.
abbrev pub Precedes : Case → Case → Type 0
Precedes a b =
    (place kinds a.kind < place kinds b.kind)
    ⊎ (place kinds a.kind ≡ place kinds b.kind) × (less b.id a.id ≡ false)

abbrev pub AllPrecede : List Case → Type 0
AllPrecede [] = Unit
AllPrecede (c ∷ cs) = All (Precedes c) cs × AllPrecede cs

abbrev place_of : Option ℕ → ℕ
place_of none = 4
place_of (some n) = n

kind_order-place : (kind : Bytes) → place kinds kind ≡ place_of (kind_order kind)
unfolding kind_order place
kind_order-place kind = ground arith

kind_order_bound : (kind : Bytes) (n : ℕ) → kind_order kind ≡ some n → n < 4
unfolding kind_order
kind_order_bound kind n e = ground arith

lt_of_tests : (m n : ℕ) → ltb n m ≡ false → (n == m) ≡ false → m < n
lt_of_tests m n later other = ground arith

case_less-Precedes : (a b : Case) → case_less b a ≡ false → Precedes a b
unfolding case_less
case_less-Precedes a b e =
    let first = kind_order-place a.kind in
    let second = kind_order-place b.kind in
    elim (Option-cases (kind_order a.kind)) [
      | inl none_a ↦ elim (Option-cases (kind_order b.kind)) [
        | inl none_b ↦ inr (rw (first, second, none_a, none_b) refl, rw (none_a, none_b) at e)
        | inr (n, is_b) ↦ absurd (ground (arith, none_a, is_b))
      ]
      | inr (m, is_a) ↦ elim (Option-cases (kind_order b.kind)) [
        | inl none_b ↦ inl (rw (first, second, is_a, none_b) (kind_order_bound a.kind m is_a))
        | inr (n, is_b) ↦ elim (Bool-cases (n == m)) [
          | inl same ↦ inr (
            rw (first, second, is_a, is_b) (sym ((==_iff n m).0 same)),
            rw (is_a, is_b, same) at e,
          )
          | inr other ↦
              let later : ltb n m ≡ false = rw (is_a, is_b, other) at e in
              inl (rw (first, second, is_a, is_b) (lt_of_tests m n later other))
        ]
      ]
    ]

AllPrecede-of_sorted : (cs : List Case) → IsSorted case_less cs → AllPrecede cs
AllPrecede-of_sorted [] h = tt
AllPrecede-of_sorted (c ∷ cs) (p, h) =
    (All-map (case_less-Precedes c) cs p, AllPrecede-of_sorted cs h)

-- The sorted cases are a permutation of the given ones, and each stands in front of all that follow
-- it: by the places of the kinds allowed-action, denied-action, adapter-bypass and no-policy-loaded
-- in this order, other kinds last, and by the ids where the places agree.
pub sort_cases-AllPrecede : (cs : List Case) → AllPrecede (sort_cases cs) × Perm (sort_cases cs) cs
sort_cases-AllPrecede cs =
    (AllPrecede-of_sorted (sort_cases cs) (sort_cases-IsSorted cs), sort_cases-Perm cs)
