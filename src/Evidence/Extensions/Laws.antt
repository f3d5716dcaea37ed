-- ===== src/Evidence/Extensions/Laws.antt =====
-- What `validateExtensions` accepts: the nesting, the widths and the sizes of the values.
use Prim.Native.Nat.{max}
use agent_governance_evidenc.Base.{
  ℕ, suc, ◌+◌, ◌≤◌, ◌≡◌, refl, ◌↔◌, List, [], ◌∷◌, none, some, Bytes, arith, All, length, here, ok,
  Option-cases, Result-cases, inl, inr,
}
use agent_governance_evidenc.Base.Sort.{insert, sort, sort-All, sort-All_inv}
use agent_governance_evidenc.Evidence.Extensions.{
  validate_depth, validate_items, validate_members, validate_value, validate_values,
  validate_extensions, key_less,
}
use agent_governance_evidenc.Evidence.Fields.Laws.{IsUri, validate_absolute_uri_iff}
use agent_governance_evidenc.Evidence.Host.{Host}
use agent_governance_evidenc.Evidence.Json.{
  Json, null, bool, number, string, array, object, Items, nil, cons, Members, end, member,
  items_length, members_length,
}

-- How deep arrays and objects are nested in each other.
mutual
  pub nesting : Json → ℕ
  nesting (object ms) = suc (nesting_members ms)
  nesting (array vs) = suc (nesting_items vs)
  nesting null = 0
  nesting (bool b) = 0
  nesting (number n) = 0
  nesting (string s) = 0

  pub nesting_items : Items → ℕ
  nesting_items nil = 0
  nesting_items (cons v vs) = max (nesting v) (nesting_items vs)

  pub nesting_members : Members → ℕ
  nesting_members end = 0
  nesting_members (member k v ms) = max (nesting v) (nesting_members ms)

-- The size of the largest array or object in the value.
mutual
  pub width : Json → ℕ
  width (object ms) = max (members_length ms) (width_members ms)
  width (array vs) = max (items_length vs) (width_items vs)
  width null = 0
  width (bool b) = 0
  width (number n) = 0
  width (string s) = 0

  pub width_items : Items → ℕ
  width_items nil = 0
  width_items (cons v vs) = max (width v) (width_items vs)

  pub width_members : Members → ℕ
  width_members end = 0
  width_members (member k v ms) = max (width v) (width_members ms)

mutual
  unfolding validate_depth nesting width

  validate_depth_at :
      (v : Json) (d : ℕ)
      → d ≤ 5
      → (validate_depth v d ≡ ok tt) ↔ ((d + nesting v ≤ 5) × (width v ≤ 16))
  validate_depth_at (object ms) d h = ground (arith, validate_members_at ms (suc d))
  validate_depth_at (array vs) d h = ground (arith, validate_items_at vs (suc d))
  validate_depth_at null d h = ground arith
  validate_depth_at (bool b) d h = ground arith
  validate_depth_at (number n) d h = ground arith
  validate_depth_at (string s) d h = ground arith

  validate_items_at :
      (vs : Items) (d : ℕ)
      → d ≤ 5
      → (validate_items vs d ≡ ok tt) ↔ ((d + nesting_items vs ≤ 5) × (width_items vs ≤ 16))
  validate_items_at nil d h = ground arith
  validate_items_at (cons v vs) d h =
      ground (arith, validate_depth_at v d h, validate_items_at vs d h)

  validate_members_at :
      (ms : Members) (d : ℕ)
      → d ≤ 5
      → (validate_members ms d ≡ ok tt) ↔ ((d + nesting_members ms ≤ 5) × (width_members ms ≤ 16))
  validate_members_at end d h = ground arith
  validate_members_at (member k v ms) d h =
      ground (arith, validate_depth_at v d h, validate_members_at ms d h)

-- A value is accepted exactly when its nesting is at most 4 and no array or object in it has more
-- than 16 parts.
pub validate_depth_iff :
    (v : Json) → (validate_depth v 1 ≡ ok tt) ↔ ((nesting v ≤ 4) × (width v ≤ 16))
validate_depth_iff v = ground (arith, validate_depth_at v 1)

-- The sizes of all values together.
abbrev pub total_size : List (Bytes × Bytes) → ℕ
total_size [] = 0
total_size (e ∷ es) = length e.1 + total_size es

total_size-insert :
    (e : Bytes × Bytes) (es : List (Bytes × Bytes))
    → total_size (insert key_less e es) ≡ length e.1 + total_size es
unfolding insert
total_size-insert e [] = refl
total_size-insert e (f ∷ es) = ground (arith, total_size-insert e es)

total_size-sort : (es : List (Bytes × Bytes)) → total_size (sort key_less es) ≡ total_size es
unfolding sort
total_size-sort [] = refl
total_size-sort (e ∷ es) = omega (arith, total_size-insert e (sort key_less es), total_size-sort es)

module _ (h : Host) where
  -- One extension: an absolute URI of at most 256 bytes for a key, and at most 4096 bytes of JSON
  -- with bounded nesting and widths.
  pub record IsExtension (e : Bytes × Bytes) : Type 0 where
    pub key_short : length e.0 ≤ 256
    pub key_uri : IsUri h none e.0
    pub value_short : length e.1 ≤ 4096
    pub value : Json
    pub decodes : h.decode_json e.1 ≡ some value
    pub shallow : nesting value ≤ 4
    pub narrow : width value ≤ 16

  validate_value_iff : (e : Bytes × Bytes) → (validate_value h e ≡ ok tt) ↔ IsExtension e
  unfolding validate_value
  validate_value_iff (key, raw) = elim (Option-cases (h.decode_json raw)) [
    | inl refused ↦
        (λ e. absurd (ground (arith, refused)), λ f. absurd (ground (arith, refused, f.decodes)))
    | inr (v, decodes) ↦ (
      λ e.
          let facts : (length key ≤ 256)
              × IsUri h none key
              × (length raw ≤ 4096)
              × (nesting v ≤ 4)
              × (width v ≤ 16) =
            ground (
              arith,
              decodes,
              validate_absolute_uri_iff h (here "extensions key") key none,
              validate_depth_iff v,
            ) in
          record {
            key_short = facts.0;
            key_uri = facts.1;
            value_short = facts.2;
            value = v;
            decodes = decodes;
            shallow = facts.3;
            narrow = facts.4;
          },
      λ f.
          let same : f.value ≡ v = ground (arith, decodes, f.decodes) in
          let nests : nesting v ≤ 4 = rw same at f.shallow in
          let wide : width v ≤ 16 = rw same at f.narrow in
          ground (
            arith,
            decodes,
            (validate_absolute_uri_iff h (here "extensions key") key none).1 f.key_uri,
            (validate_depth_iff v).1 (nests, wide),
          ),
    )
  ]

  validate_values_iff :
      (total : ℕ) (es : List (Bytes × Bytes)) (n : ℕ)
      → (validate_values h total es ≡ ok n) ↔ (All IsExtension es × (n ≡ total + total_size es))
  unfolding validate_values
  validate_values_iff total [] n = ground arith
  validate_values_iff total (e ∷ es) n =
      ground (arith, validate_value_iff e, validate_values_iff (total + length e.1) es n)

  -- What `validateExtensions` requires.
  pub record IsExtensions (es : List (Bytes × Bytes)) : Type 0 where
    pub few : length es ≤ 8
    pub each : All IsExtension es
    pub small : total_size es ≤ 16384

  -- The extensions are accepted exactly when there are at most 8, each has a URI for a short key
  -- and a short value of bounded nesting and widths, and the values together take at most 16384
  -- bytes.
  pub validate_extensions_iff :
      (es : List (Bytes × Bytes)) → (validate_extensions h es ≡ ok tt) ↔ IsExtensions es
  unfolding validate_extensions
  validate_extensions_iff [] = ground arith
  validate_extensions_iff (e ∷ es) =
      let all = e ∷ es in
      let size = total_size-sort all in
      elim (Result-cases (validate_values h 0 (sort key_less all))) [
        | inr (x, failed) ↦ (
          λ p. absurd (ground (arith, failed)),
          λ f.
              let passed =
                (validate_values_iff 0 (sort key_less all) (total_size all)).1
                  (sort-All key_less IsExtension all f.each, omega (arith, size)) in
              absurd (ground (arith, failed, passed)),
        )
        | inl (n, passed) ↦
            let values = (validate_values_iff 0 (sort key_less all) n).0 passed in
            (
              λ p. record {
                few = ground (arith, passed);
                each = sort-All_inv key_less IsExtension all values.0;
                small = ground (arith, passed, values.1, size);
              },
              λ f. ground (arith, passed, values.1, size, f.few, f.small),
            )
      ]
