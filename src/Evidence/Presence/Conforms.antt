-- ===== src/Evidence/Presence/Conforms.antt =====
-- A document that passes the presence walk conforms to the schema, which is described without the
-- walk.
use agent_governance_evidenc.Base.{
  ◌∷◌, subst, [], ◌++◌, ◌+◌, ap, ◌∙◌, equal, equal_iff, trim_prefix, trim_prefix_sound, ℕ, zero,
  suc, ◌≡◌, ◌≢◌, inl, inr, some, Bytes, bytes, arith, Option-cases, Bool-cases,
}
use agent_governance_evidenc.Evidence.Json.{
  Json, null, string, object, array, Items, nil, cons, Members, find,
}
use agent_governance_evidenc.Evidence.Presence.{
  Walk, passed, check_object, walk, string_of, object_of, items_or_nil, members_or_nil, indexed,
  check_items, check_array, resolve, dotted, is_null, check_type,
}
use agent_governance_evidenc.Evidence.Presence.Complete.{
  HasProperties, HasNames, IsNoReference, Describes, item_at, >>-passed, check_required-HasNames,
  check_properties-HasProperties, described, string_of-eq-some, object_of-eq-some, is_null-ne,
  Reason-cases,
}

module _ (decimal : ℕ → Bytes) (definitions : Members) where
  -- A value conforms to a schema at a path: it is not null; along a reference into the definitions,
  -- to what it refers to; an object has every required member but the deferred one, and each of its
  -- members conforms to every schema that describes it; each item of an array conforms to the
  -- schema of the items.
  pub data Conforms : Json → Members → Bytes → Type 0 where
    by_reference :
        {v : Json} {schema resolved : Members} {path : Bytes} (name : Bytes)
        → v ≢ null
        → find (bytes "$ref") schema ≡ some (string (bytes "#/definitions/" ++ name))
        → find name definitions ≡ some (object resolved)
        → Conforms v resolved path
        → Conforms v schema path
    by_members :
        {given schema : Members} {path : Bytes}
        → IsNoReference schema
        → find (bytes "type") schema ≡ some (string (bytes "object"))
        → ((names : Items)
            → find (bytes "required") schema ≡ some (array names)
            → HasNames path given names)
        → ((properties : Members) (name : Bytes) (s child : Json)
            → find (bytes "properties") schema ≡ some (object properties)
            → Describes properties name s
            → find name given ≡ some child
            → (m : Members) × (s ≡ object m))
        → ((properties : Members) (name : Bytes) (s : Members) (child : Json)
            → find (bytes "properties") schema ≡ some (object properties)
            → Describes properties name (object s)
            → find name given ≡ some child
            → Conforms child s (path ++ b'.' ∷ name))
        → Conforms (object given) schema path
    by_items :
        {vs : Items} {schema item_schema : Members} {path : Bytes}
        → IsNoReference schema
        → find (bytes "type") schema ≡ some (string (bytes "array"))
        → find (bytes "items") schema ≡ some (object item_schema)
        → ((i : ℕ) (child : Json)
            → item_at vs i ≡ some child
            → Conforms child item_schema (path ++ b'[' ∷ (decimal i ++ b']' ∷ [])))
        → Conforms (array vs) schema path
    plain_value :
        {v : Json} {schema : Members} {path : Bytes}
        → v ≢ null
        → IsNoReference schema
        → find (bytes "type") schema ≢ some (string (bytes "object"))
        → find (bytes "type") schema ≢ some (string (bytes "array"))
        → Conforms v schema path

  check_items-each :
      (inner : Json → Members → Bytes → Walk) (path : Bytes) (schema : Members) (i : ℕ) (vs : Items)
      → check_items decimal inner path schema i vs ≡ passed
      → (j : ℕ) (child : Json) → item_at vs j ≡ some child
      → inner child schema (indexed decimal path (i + j)) ≡ passed
  unfolding check_items
  check_items-each inner path schema i nil e j child found = cc
  check_items-each inner path schema i (cons v vs) e zero child found =
      let (first, later) = >>-passed _ _ e in
      let same : v ≡ child = ground arith in
      let place : i + 0 ≡ i = omega arith in rw (place, ← same) first
  check_items-each inner path schema i (cons v vs) e (suc j) child found =
      let (first, later) = >>-passed _ _ e in
      let place : suc i + j ≡ i + suc j = omega arith in
      rw (← place) (check_items-each inner path schema (suc i) vs later j child found)

  resolve-eq-inr :
      (ref : Bytes) (resolved : Members)
      → resolve definitions ref ≡ inr resolved
      → (name : Bytes) × (ref ≡ bytes "#/definitions/" ++ name)
        × (find name definitions ≡ some (object resolved))
  unfolding resolve
  resolve-eq-inr ref resolved e = elim (Option-cases (trim_prefix (bytes "#/definitions/") ref)) [
    | inl other ↦ absurd (ground (arith, other))
    | inr (name, trimmed) ↦ elim (Option-cases (object_of (find name definitions))) [
      | inl nothing ↦ absurd (ground (arith, trimmed, nothing))
      | inr (s, is) ↦
          let same : s ≡ resolved = ground (arith, trimmed, is) in
          (
            name,
            trim_prefix_sound (bytes "#/definitions/") ref name trimmed,
            object_of-eq-some (find name definitions) resolved (is ∙ ap some same),
          )
    ]
  ]

  module _ (inner : Json → Members → Bytes → Walk)
      (sound : (v : Json) (schema : Members) (path : Bytes)
        → inner v schema path ≡ passed
        → Conforms v schema path) where
    check_object-Conforms :
        (v : Json) (schema : Members) (path : Bytes)
        → IsNoReference schema
        → find (bytes "type") schema ≡ some (string (bytes "object"))
        → check_object decimal inner v schema path ≡ passed
        → Conforms v schema path
    unfolding check_object
    check_object-Conforms (object given) schema path direct typed e =
        let properties = members_or_nil (find (bytes "properties") schema) in
        let (names, members) = >>-passed _ _ e in
        let each = check_properties-HasProperties inner path given properties members in
        by_members direct typed
          (λ listed required.
            subst (λ o. HasNames path given (items_or_nil o)) required
              (check_required-HasNames path given _ names))
          (λ ps name s child is listed found.
            let (m, same, _) =
              described inner path given ps name s child
                (subst (λ o. HasProperties inner path given (members_or_nil o)) is each) listed
                found in
            (m, same))
          (λ ps name s child is listed found.
            let (t, same, passes) =
              described inner path given ps name (object s) child
                (subst (λ o. HasProperties inner path given (members_or_nil o)) is each) listed
                found in
            let same' : t ≡ s = ground arith in
            sound child s (dotted path name) (rw (← same') passes))
    check_object-Conforms _ schema path direct typed e = absurd (cc e)

    check_array-Conforms :
        (v : Json) (schema : Members) (path : Bytes)
        → IsNoReference schema
        → find (bytes "type") schema ≡ some (string (bytes "array"))
        → check_array decimal inner v schema path ≡ passed
        → Conforms v schema path
    unfolding check_array
    check_array-Conforms (array vs) schema path direct typed e =
        elim (Option-cases (object_of (find (bytes "items") schema))) [
          | inl missing ↦ absurd (ground (arith, missing))
          | inr (s, is) ↦
              let items : check_items decimal inner path s 0 vs ≡ passed =
                rw (is, check_array) at e in
              by_items direct typed (object_of-eq-some _ s is) (λ i child found.
                let place : 0 + i ≡ i = omega arith in
                sound child s (indexed decimal path i)
                  (rw (← place) (check_items-each inner path s 0 vs items i child found)))
        ]
    check_array-Conforms _ schema path direct typed e = absurd (cc e)

    check_type-Conforms :
        (v : Json) (schema : Members) (path : Bytes)
        → v ≢ null
        → IsNoReference schema
        → check_type decimal inner (string_of (find (bytes "type") schema)) v schema path ≡ passed
        → Conforms v schema path
    unfolding check_type
    check_type-Conforms v schema path value direct e =
        elim (Option-cases (string_of (find (bytes "type") schema))) [
          | inl untyped ↦
              plain_value value direct (λ h. ground (arith, untyped, ap string_of h))
                (λ h. ground (arith, untyped, ap string_of h))
          | inr (type, is) ↦
              let typed = string_of-eq-some _ type is in
              elim (Bool-cases (equal type (bytes "object"))) [
                | inl object_type ↦
                    let same = (equal_iff type (bytes "object")).0 object_type in
                    check_object-Conforms v schema path direct
                      (typed ∙ ap (λ t. some (string t)) same) (rw (is, object_type) at e)
                | inr other ↦ elim (Bool-cases (equal type (bytes "array"))) [
                  | inl array_type ↦
                      let same = (equal_iff type (bytes "array")).0 array_type in
                      check_array-Conforms v schema path direct
                        (typed ∙ ap (λ t. some (string t)) same) (rw (is, other, array_type) at e)
                  | inr neither ↦
                      plain_value value direct
                        (λ h.
                          ground
                            (arith, is, other, ap string_of h, equal_iff type (bytes "object")))
                        (λ h.
                          ground
                            (arith, is, neither, ap string_of h, equal_iff type (bytes "array")))
                ]
              ]
        ]

  -- A document that passes the walk, with whatever fuel, conforms to the schema: nothing in it that
  -- the schema describes is null, every object has all required members but for the statement
  -- digest of a test result, and every described member and item conforms in its turn, through all
  -- references.
  pub walk-Conforms :
      (fuel : ℕ) (v : Json) (schema : Members) (path : Bytes)
      → walk decimal fuel definitions v schema path ≡ passed
      → Conforms v schema path
  unfolding walk
  walk-Conforms zero v schema path e = absurd (cc e)
  walk-Conforms (suc n) v schema path e = elim (Bool-cases (is_null v)) [
    | inl nothing ↦ absurd (ground (arith, nothing))
    | inr given ↦ elim (Option-cases (string_of (find (bytes "$ref") schema))) [
      | inr (ref, is) ↦ elim (Reason-cases (resolve definitions ref)) [
        | inl (why, failed_is) ↦ absurd (ground (arith, given, is, failed_is))
        | inr (resolved, found) ↦
            let (name, split, defined) = resolve-eq-inr ref resolved found in
            by_reference name (is_null-ne v given)
              (string_of-eq-some _ ref is ∙ ap (λ t. some (string t)) split) defined
              (walk-Conforms n v resolved path (rw (given, is, found) at e))
      ]
      | inl direct ↦
          check_type-Conforms (walk decimal n definitions) (walk-Conforms n) v schema path
            (is_null-ne v given) (λ ref h. ground (arith, direct, ap string_of h))
            (rw (given, direct) at e)
    ]
  ]
