-- ===== src/Evidence/Presence/Complete.antt =====
-- What the loops of the presence walk guarantee where they pass, and what its type assertions read.
use mathlib.Core.List.{reverse, reverse-reverse, reverse-append}
use agent_governance_evidenc.Base.{
  Option, ◌++◌, sym, ap, ◌∙◌, equal, equal_iff, trim_prefix, trim_prefix_sound, has_prefix, ℕ, zero,
  suc, true, false, ◌≡◌, ◌≢◌, refl, ◌⊎◌, inl, inr, none, some, Bytes, bytes, arith, Option-cases,
  Bool-cases,
}
use agent_governance_evidenc.Evidence.Json.{
  Json, null, string, object, Items, nil, cons, Members, end, member, find,
}
use agent_governance_evidenc.Evidence.Presence.{
  Walk, Reason, passed, failed, out_of_fuel, check_required, check_properties, walk, string_of,
  object_of, deferred, has_suffix, dotted, is_null, ◌>>◌,
}

-- The member that may be missing: the statement digest of a test result.
abbrev pub IsDeferred : Bytes → Bytes → Type 0
IsDeferred path name =
    (name ≡ bytes "statementDigest") × ((stem : Bytes) × (path ≡ stem ++ bytes ".testResult"))

deferred-IsDeferred : (path name : Bytes) → deferred path name ≡ true → IsDeferred path name
unfolding deferred has_suffix has_prefix
deferred-IsDeferred path name e =
    elim (Option-cases (trim_prefix (reverse (bytes ".testResult")) (reverse path))) [
      | inl other ↦ absurd (ground (arith, other))
      | inr (r, found) ↦
          let backwards =
            trim_prefix_sound (reverse (bytes ".testResult")) (reverse path) r found in
          let named : equal name (bytes "statementDigest") ≡ true = ground arith in
          (
            (equal_iff name (bytes "statementDigest")).0 named,
            (
              reverse r,
              sym (reverse-reverse path)
                  ∙ ap reverse backwards
                  ∙ reverse-append (reverse (bytes ".testResult")) r
                  ∙ ap (λ t. reverse r ++ t) (reverse-reverse (bytes ".testResult")),
            ),
          )
    ]

-- Every listed name is a text, and names a member of the object or the deferred one.
abbrev pub HasNames : Bytes → Members → Items → Type 0
HasNames path given nil = Unit
HasNames path given (cons (string name) names) =
    ((find name given ≢ none) ⊎ IsDeferred path name) × HasNames path given names
HasNames path given (cons _ names) = ⊥

pub check_required-HasNames :
    (path : Bytes) (given : Members) (names : Items)
    → check_required path given names ≡ passed
    → HasNames path given names
unfolding check_required
check_required-HasNames path given nil e = tt
check_required-HasNames path given (cons (string name) names) e =
    elim (Option-cases (find name given)) [
      | inl absent ↦ elim (Bool-cases (deferred path name)) [
        | inl later ↦ (
          inr (deferred-IsDeferred path name later),
          check_required-HasNames path given names (ground (arith, absent, later)),
        )
        | inr now ↦ absurd (ground (arith, absent, now))
      ]
      | inr (v, present) ↦ (
        inl (λ h. ground (arith, h, present)),
        check_required-HasNames path given names (ground (arith, present)),
      )
    ]
check_required-HasNames path given (cons _ names) e = cc

-- Every member of the object that the schema describes passes the walk along its own schema.
abbrev pub HasProperties : (Json → Members → Bytes → Walk) → Bytes → Members → Members → Type 0
HasProperties inner path given end = Unit
HasProperties inner path given (member name child_schema rest) =
    ((child : Json)
      → find name given ≡ some child
      → (s : Members) × (object_of (some child_schema) ≡ some s)
        × (inner child s (dotted path name) ≡ passed))
    × HasProperties inner path given rest

pub >>-passed : (m r : Walk) → (m >> r) ≡ passed → (m ≡ passed) × (r ≡ passed)
>>-passed passed r e = (refl, e)
>>-passed (failed p w) r e = cc
>>-passed out_of_fuel r e = cc

pub check_properties-HasProperties :
    (inner : Json → Members → Bytes → Walk) (path : Bytes) (given properties : Members)
    → check_properties inner path given properties ≡ passed
    → HasProperties inner path given properties
unfolding check_properties
check_properties-HasProperties inner path given end e = tt
check_properties-HasProperties inner path given (member name child_schema rest) e =
    elim (Option-cases (find name given)) [
      | inl absent ↦ (
        λ child present. absurd (ground (arith, absent, present)),
        check_properties-HasProperties inner path given rest (rw (absent, check_properties) at e),
      )
      | inr (v, present) ↦ elim (Option-cases (object_of (some child_schema))) [
        | inl other ↦ absurd (ground (arith, present, other))
        | inr (s, is_object) ↦
            let (first, later) =
              >>-passed (inner v s (dotted path name)) (check_properties inner path given rest)
                (rw (present, is_object, check_properties) at e) in
            (
              λ child found.
                  let same : v ≡ child = ground (arith, present, found) in
                  (s, is_object, rw same at first),
              check_properties-HasProperties inner path given rest later,
            )
      ]
    ]

abbrev pub IsNoReference : Members → Type 0
IsNoReference schema = (ref : Bytes) → find (bytes "$ref") schema ≢ some (string ref)

-- The object describes a member of this name by this schema.
abbrev pub Describes : Members → Bytes → Json → Type 0
Describes end name schema = ⊥
Describes (member n s rest) name schema = ((n ≡ name) × (s ≡ schema)) ⊎ Describes rest name schema

abbrev pub item_at : Items → ℕ → Option Json
item_at nil i = none
item_at (cons v vs) zero = some v
item_at (cons v vs) (suc i) = item_at vs i

pub string_of-eq-some : (o : Option Json) (s : Bytes) → string_of o ≡ some s → o ≡ some (string s)
string_of-eq-some none s e = cc
string_of-eq-some (some (string t)) s e = ground arith
string_of-eq-some (some _) s e = cc

pub object_of-eq-some : (o : Option Json) (s : Members) → object_of o ≡ some s → o ≡ some (object s)
object_of-eq-some none s e = cc
object_of-eq-some (some (object t)) s e = ground arith
object_of-eq-some (some _) s e = cc

pub described :
    (inner : Json → Members → Bytes → Walk) (path : Bytes) (given properties : Members)
    (name : Bytes) (schema child : Json)
    → HasProperties inner path given properties
    → Describes properties name schema
    → find name given ≡ some child
    → (s : Members) × (schema ≡ object s) × (inner child s (dotted path name) ≡ passed)
described inner path given end name schema child h listed found = absurd listed
described inner path given (member n c rest) name schema child (h, hs) (inl (e, e')) found =
    let (s, is, passes) = h child (rw e found) in
    let same : c ≡ object s = ground (arith, object_of-eq-some (some c) s is) in
    (s, sym e' ∙ same, rw (← e) passes)
described inner path given (member n c rest) name schema child (h, hs) (inr listed) found =
    described inner path given rest name schema child hs listed found

pub is_null-ne : (v : Json) → is_null v ≡ false → v ≢ null
is_null-ne v e h = ground (arith, e, ap is_null h)

pub Reason-cases :
    (r : Reason ⊎ Members) → ((why : Reason) × (r ≡ inl why)) ⊎ ((s : Members) × (r ≡ inr s))
Reason-cases (inl why) = inl (why, refl)
Reason-cases (inr s) = inr (s, refl)

module _ (decimal : ℕ → Bytes) (definitions : Members) where
  -- Null never passes, at any schema and with any fuel.
  pub walk-null :
      (fuel : ℕ) (schema : Members) (path : Bytes)
      → walk decimal fuel definitions null schema path ≢ passed
  unfolding walk
  walk-null zero schema path = λ e. cc
  walk-null (suc n) schema path = λ e. cc
