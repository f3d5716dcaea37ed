-- ===== src/Evidence/Presence/Enough.antt =====
-- The presence walk answers: twice the nesting of the document is enough fuel, where no
-- definition of the schema is itself a reference (as in the embedded schema).
use Prim.Native.Nat.{max}
use agent_governance_evidenc.Base.{
  ℕ, zero, suc, ◌*◌, ◌/◌, Option, ◌≤◌, ◌≡◌, ◌≢◌, refl, ◌⊎◌, inl, inr, none, some, Bytes, bytes,
  arith, false, equal, Option-cases, Bool-cases, trim_prefix,
}
use agent_governance_evidenc.Evidence.Json.{
  Json, null, bool, number, string, array, object, Items, nil, cons, Members, end, member, find,
}
use agent_governance_evidenc.Evidence.Presence.{
  Reason, Walk, passed, failed, out_of_fuel, check_required, check_properties, check_items,
  check_object, check_array, check_type, resolve, walk, string_of, object_of, dotted, is_null, ◌>>◌,
}

-- The levels of the document: 1 for a scalar.
unfoldable mutual
  pub height : Json → ℕ
  height (object ms) = suc (height_members ms)
  height (array vs) = suc (height_items vs)
  height null = 1
  height (bool b) = 1
  height (number n) = 1
  height (string s) = 1

  pub height_items : Items → ℕ
  height_items nil = 0
  height_items (cons v vs) = max (height v) (height_items vs)

  pub height_members : Members → ℕ
  height_members end = 0
  height_members (member k v ms) = max (height v) (height_members ms)

height_pos : (v : Json) → 1 ≤ height v
unfolding height
height_pos null = omega arith
height_pos _ = omega arith

height-find :
    (name : Bytes) (ms : Members) (v : Json) → find name ms ≡ some v → height v ≤ height_members ms
unfolding find height
height-find name end v e = cc
height-find name (member k w ms) v e = elim (Bool-cases (equal k name)) [
  | inl same ↦ let is : w ≡ v = ground (arith, same) in rw (← is) (omega arith)
  | inr other ↦ let below = height-find name ms v (ground (arith, other)) in omega (arith, below)
]

check_required-total :
    (path : Bytes) (given : Members) (names : Items) → check_required path given names ≢ out_of_fuel
unfolding check_required
check_required-total path given nil = λ e. cc
check_required-total path given (cons (string name) names) =
    λ e. ground (arith, check_required-total path given names)
check_required-total path given (cons _ names) = λ e. cc

-- A walk that answers on every value of at most `k` levels.
module _ (inner : Json → Members → Bytes → Walk) (k : ℕ)
    (total : (v : Json) (s : Members) (p : Bytes) → height v ≤ k → inner v s p ≢ out_of_fuel) where
  >>-total : (m r : Walk) → m ≢ out_of_fuel → r ≢ out_of_fuel → (m >> r) ≢ out_of_fuel
  >>-total passed r hm hr = hr
  >>-total (failed p w) r hm hr = λ e. cc
  >>-total out_of_fuel r hm hr = hm

  check_properties-total :
      (path : Bytes) (given properties : Members)
      → height_members given ≤ k
      → check_properties inner path given properties ≢ out_of_fuel
  unfolding check_properties
  check_properties-total path given end h = λ e. cc
  check_properties-total path given (member name child_schema rest) h =
      let later = check_properties-total path given rest h in
      elim (Option-cases (find name given)) [
        | inl absent ↦ rw (absent, check_properties) later
        | inr (child, present) ↦ elim (Option-cases (object_of (some child_schema))) [
          | inl other ↦ rw (present, other, check_properties) (λ e. cc)
          | inr (schema, is_object) ↦
              rw (present, is_object, check_properties)
                (>>-total _ _
                  (total child schema (dotted path name)
                    (omega (arith, height-find name given child present)))
                  later)
        ]
      ]

  module _ (decimal : ℕ → Bytes) where
    check_items-total :
        (path : Bytes) (schema : Members) (i : ℕ) (vs : Items)
        → height_items vs ≤ k
        → check_items decimal inner path schema i vs ≢ out_of_fuel
    unfolding check_items height
    check_items-total path schema i nil h = λ e. cc
    check_items-total path schema i (cons v vs) h =
        >>-total _ _ (total v schema _ (omega arith))
          (check_items-total path schema (suc i) vs (omega arith))

    check_object-total :
        (v : Json) (schema : Members) (path : Bytes)
        → height v ≤ suc k
        → check_object decimal inner v schema path ≢ out_of_fuel
    unfolding check_object height
    check_object-total (object given) schema path h =
        >>-total _ _ (check_required-total path given _)
          (check_properties-total path given _ (omega arith))
    check_object-total _ schema path h = λ e. cc

    check_array-total :
        (v : Json) (schema : Members) (path : Bytes)
        → height v ≤ suc k
        → check_array decimal inner v schema path ≢ out_of_fuel
    unfolding check_array height
    check_array-total (array vs) schema path h =
        elim (Option-cases (object_of (find (bytes "items") schema))) [
          | inl absent ↦ rw (absent, check_array) (λ e. cc)
          | inr (item_schema, present) ↦
              rw (present, check_array) (check_items-total path item_schema 0 vs (omega arith))
        ]
    check_array-total _ schema path h = λ e. cc

    check_type-total :
        (type : Option Bytes) (v : Json) (schema : Members) (path : Bytes)
        → height v ≤ suc k
        → check_type decimal inner type v schema path ≢ out_of_fuel
    unfolding check_type
    check_type-total none v schema path h = λ e. cc
    check_type-total (some type) v schema path h =
        λ e. ground (arith, check_object-total v schema path h, check_array-total v schema path h)

resolve-cases :
    (definitions : Members) (ref : Bytes)
    → ((why : Reason) × (resolve definitions ref ≡ inl why))
      ⊎ ((t : Members) × (resolve definitions ref ≡ inr t))
resolve-cases definitions ref =
    elim (resolve definitions ref)
      as (λ r. ((why : Reason) × (r ≡ inl why)) ⊎ ((t : Members) × (r ≡ inr t))) [
        | inl why ↦ inl (why, refl)
        | inr t ↦ inr (t, refl)
      ]

-- No definition is itself a reference.
abbrev IsFlat : Option Members → Type 0
IsFlat none = Unit
IsFlat (some s) = string_of (find (bytes "$ref") s) ≡ none

abbrev pub HasFlatDefinitions : Members → Type 0
HasFlatDefinitions end = Unit
HasFlatDefinitions (member name v ms) = IsFlat (object_of (some v)) × HasFlatDefinitions ms

find-flat :
    (definitions : Members) (name : Bytes) (s : Members)
    → HasFlatDefinitions definitions
    → object_of (find name definitions) ≡ some s
    → string_of (find (bytes "$ref") s) ≡ none
unfolding find
find-flat end name s h e = cc
find-flat (member k (object ms) rest) name s (p, h) e = elim (Bool-cases (equal k name)) [
  | inl same ↦ let is : ms ≡ s = ground (arith, same) in rw is at p
  | inr other ↦ find-flat rest name s h (rw other at e)
]
find-flat (member k v rest) name s (p, h) e = elim (Bool-cases (equal k name)) [
  | inl same ↦ absurd (ground (arith, same))
  | inr other ↦ find-flat rest name s h (ground (arith, other))
]

resolve-flat :
    (definitions : Members)
    → HasFlatDefinitions definitions
    → (ref : Bytes) (s : Members) → resolve definitions ref ≡ inr s
    → string_of (find (bytes "$ref") s) ≡ none
unfolding resolve
resolve-flat definitions h ref s e =
    elim (Option-cases (trim_prefix (bytes "#/definitions/") ref)) [
      | inl other ↦ absurd (ground (arith, other))
      | inr (name, is) ↦ find-flat definitions name s h (ground (arith, is))
    ]

module _ (decimal : ℕ → Bytes) (definitions : Members) (flat : HasFlatDefinitions definitions) where
  walk_follows :
      (n : ℕ) (v : Json) (s : Members) (p ref : Bytes) (t : Members)
      → is_null v ≡ false
      → string_of (find (bytes "$ref") s) ≡ some ref
      → resolve definitions ref ≡ inr t
      → walk decimal (suc n) definitions v s p ≡ walk decimal n definitions v t p
  unfolding walk
  walk_follows n v s p ref t value is_ref found = rw (value, is_ref, found)

  walk_refused :
      (n : ℕ) (v : Json) (s : Members) (p ref : Bytes) (why : Reason)
      → is_null v ≡ false
      → string_of (find (bytes "$ref") s) ≡ some ref
      → resolve definitions ref ≡ inl why
      → walk decimal (suc n) definitions v s p ≢ out_of_fuel
  unfolding walk
  walk_refused n v s p ref why value is_ref refused = rw (value, is_ref, refused) (λ e. cc)

  -- At a schema that is no reference one unit of fuel less is enough.
  walk-total_flat :
      (n : ℕ)
      → ((v : Json) (s : Members) (p : Bytes)
          → 2 * height v ≤ n
          → walk decimal n definitions v s p ≢ out_of_fuel)
      → (v : Json) (s : Members) (p : Bytes) → string_of (find (bytes "$ref") s) ≡ none
      → 2 * height v ≤ suc (suc n)
      → walk decimal (suc n) definitions v s p ≢ out_of_fuel
  unfolding walk
  walk-total_flat n below v s p no_ref h = elim (Bool-cases (is_null v)) [
    | inl nothing ↦ rw nothing (λ e. cc)
    | inr value ↦
        rw (value, no_ref)
          (check_type-total (walk decimal n definitions) (n / 2)
            (λ w t q hw. below w t q (omega arith)) decimal (string_of (find (bytes "type") s)) v s
            p (omega arith))
  ]

  walk-total_ref :
      (n : ℕ) (v : Json) (s : Members) (p : Bytes) (ref : Bytes)
      → string_of (find (bytes "$ref") s) ≡ some ref
      → ((w : Json) (t : Members) (q : Bytes)
          → 2 * height w ≤ n
          → walk decimal n definitions w t q ≢ out_of_fuel)
      → 2 * height v ≤ suc (suc n)
      → walk decimal (suc (suc n)) definitions v s p ≢ out_of_fuel
  walk-total_ref n v s p ref is_ref below h = elim (Bool-cases (is_null v)) [
    | inl nothing ↦ unfold walk in rw nothing (λ e. cc)
    | inr value ↦ elim (resolve-cases definitions ref) [
      | inl (why, refused) ↦ walk_refused (suc n) v s p ref why value is_ref refused
      | inr (t, found) ↦
          rw (walk_follows (suc n) v s p ref t value is_ref found)
            (walk-total_flat n below v t p (resolve-flat definitions flat ref t found) h)
    ]
  ]

  walk-total_upto :
      (n : ℕ) (v : Json) (s : Members) (p : Bytes)
      → 2 * height v ≤ n
      → walk decimal n definitions v s p ≢ out_of_fuel
  walk-total_upto zero v s p h = absurd (omega (arith, height_pos v))
  walk-total_upto (suc zero) v s p h = absurd (omega (arith, height_pos v))
  walk-total_upto (suc (suc n)) v s p h = elim (Option-cases (string_of (find (bytes "$ref") s))) [
    | inl no_ref ↦ walk-total_flat (suc n) (walk-total_upto (suc n)) v s p no_ref (omega arith)
    | inr (ref, is_ref) ↦ walk-total_ref n v s p ref is_ref (walk-total_upto n) h
  ]

  -- Where no definition is itself a reference, fuel of twice the levels of the document is enough
  -- for the walk to answer.
  pub walk-total :
      (fuel : ℕ) (v : Json) (schema : Members) (path : Bytes)
      → 2 * height v ≤ fuel
      → walk decimal fuel definitions v schema path ≢ out_of_fuel
  walk-total fuel v schema path h = walk-total_upto fuel v schema path h
