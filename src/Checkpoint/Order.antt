-- ===== src/Checkpoint/Order.antt =====
-- The order of the manifest's entries, and that the keys that the checkpoint covers do not tie.
use mathlib.Core.List.{Mem}
use mathlib.Core.List.{Memᴰ}
use mathlib.Core.Logic.{∥∥₁_elim}
use agent_governance_evidenc.Base.{
  sym, ap, subst, ◌∙◌, ◌≡◌, refl, Bool, true, ◌&&◌, ◌||◌, List, [], ◌∷◌, ◌++◌, Bytes, Bytes-set,
  bytes, equal, equal_iff, arith, All, all, map, false, length, ltb, if◌then◌else◌,
}
use agent_governance_evidenc.Base.Order.{less, less_asymm, less_total, less_negtrans, less_irrefl}
use agent_governance_evidenc.Base.Sort.{IsStrict, Apart}
use agent_governance_evidenc.Checkpoint.Data.{
  Entry, entry_less, case_names, producers, frozen_inputs,
}
use agent_governance_evidenc.Checkpoint.{fixture_name}

abbrev pub Key : Type 0
Key = Bytes × Bytes

abbrev pub key : Entry → Key
key e = (e.kind, e.name)

unfoldable key_less : Key → Key → Bool
key_less (k, n) (k', n') = if equal k k' then less n n' else less k k'

unfoldable strict_keys : List Key → Bool
unfolding key_less all
strict_keys [] = true
strict_keys (x ∷ xs) = all (λ y. key_less x y || key_less y x) xs && strict_keys xs

abbrev pub case_keys : Bytes → Bytes → List Key
case_keys producer case_name =
    (bytes "predicate-body", fixture_name producer case_name)
    ∷ (bytes "test-result-statement", fixture_name producer case_name)
    ∷ []

abbrev pub each_of {ℓ κ} : {A : Type ℓ} {B : Type κ} → (A → List B) → List A → List B
each_of g [] = []
each_of g (x ∷ xs) = g x ++ each_of g xs

abbrev pub frozen_keys : Bytes → List Key
frozen_keys path = (bytes "frozen-input", path) ∷ []

-- What the checkpoint covers.
unfoldable pub all_keys : List Key
all_keys =
    each_of (λ p. each_of (case_keys p) case_names) producers
    ++ (bytes "policy-bundle", bytes "policy") ∷ each_of frozen_keys frozen_inputs

all_keys_strict : strict_keys all_keys ≡ true
unfolding all_keys strict_keys bytes equal less all
all_keys_strict = refl

pub all_keys_count : length all_keys ≡ 68
unfolding all_keys
all_keys_count = refl

unfoldable pub is_ascii : Bytes → Bool
unfolding all
is_ascii s = all (λ c. ltb c 128) s

abbrev pub IsAsciiKey : Key → Type 0
IsAsciiKey k = (is_ascii k.0 && is_ascii k.1) ≡ true

all_keys_ascii : all (λ k. is_ascii k.0 && is_ascii k.1) all_keys ≡ true
unfolding all_keys is_ascii bytes all
all_keys_ascii = refl

ascii_from :
    (es : List Entry)
    → all (λ k. is_ascii k.0 && is_ascii k.1) (map key es) ≡ true
    → All (λ e. IsAsciiKey (key e)) es
unfolding all
ascii_from [] h = tt
ascii_from (e ∷ es) h = (ground arith, ascii_from es (ground arith))

pub all_keys-IsAscii : (es : List Entry) → map key es ≡ all_keys → All (λ e. IsAsciiKey (key e)) es
all_keys-IsAscii es e = ascii_from es (rw e all_keys_ascii)

pub entry_less_asymm : (a b : Entry) → entry_less a b ≡ true → entry_less b a ≡ false
unfolding entry_less
entry_less_asymm a b h = ground (
  arith,
  equal_iff a.kind b.kind,
  equal_iff b.kind a.kind,
  less_asymm a.name b.name,
  less_asymm a.kind b.kind,
)

key_less_negtrans :
    (k n k' n' k'' n'' : Bytes)
    → key_less (k', n') (k, n) ≡ false
    → key_less (k'', n'') (k', n') ≡ false
    → key_less (k'', n'') (k, n) ≡ false
unfolding key_less
key_less_negtrans k n k' n' k'' n'' p q = ground (
  arith,
  equal_iff k' k,
  equal_iff k'' k',
  equal_iff k'' k,
  less_negtrans n n' n'',
  less_negtrans k k' k'',
  less_total k k',
)

pub entry_less_negtrans :
    (a b c : Entry) → entry_less b a ≡ false → entry_less c b ≡ false → entry_less c a ≡ false
unfolding entry_less key_less
entry_less_negtrans a b c p q = key_less_negtrans a.kind a.name b.kind b.name c.kind c.name p q

-- Two entries of one key do not tie with themselves.
Apart-key :
    (a b : Entry)
    → (key_less (key a) (key b) || key_less (key b) (key a)) ≡ true
    → Apart entry_less a b
unfolding entry_less key_less
Apart-key a b h = ground arith

Apart-of_keys :
    (a : Entry) (es : List Entry)
    → all (λ y. key_less (key a) y || key_less y (key a)) (map key es) ≡ true
    → All (Apart entry_less a) es
unfolding all
Apart-of_keys a [] h = tt
Apart-of_keys a (e ∷ es) h = (Apart-key a e (ground arith), Apart-of_keys a es (ground arith))

strict_keys-IsStrict : (es : List Entry) → strict_keys (map key es) ≡ true → IsStrict entry_less es
unfolding strict_keys
strict_keys-IsStrict [] h = tt
strict_keys-IsStrict (e ∷ es) h =
    (Apart-of_keys e es (ground arith), strict_keys-IsStrict es (ground arith))

pub all_keys-IsStrict : (es : List Entry) → map key es ≡ all_keys → IsStrict entry_less es
all_keys-IsStrict es e = strict_keys-IsStrict es (rw e all_keys_strict)

not_Apart : (a b : Entry) → key a ≡ key b → Apart entry_less a b → ⊥
unfolding entry_less
not_Apart a b e h =
    let kinds : a.kind ≡ b.kind = ap (λ k. k.0) e in
    let names : a.name ≡ b.name = ap (λ k. k.1) e in
    ground (
      arith,
      equal_iff a.kind b.kind,
      equal_iff b.kind a.kind,
      less_irrefl b.name,
      less_irrefl a.name,
    )

Apart-at :
    (a b : Entry) (es : List Entry) → All (Apart entry_less a) es → Memᴰ b es → Apart entry_less a b
Apart-at a b [] _ m = elim m [ ]
Apart-at a b (e ∷ es) (p, h) (Memᴰ.head same) = subst (Apart entry_less a) (sym same) p
Apart-at a b (e ∷ es) (p, h) (Memᴰ.tail m) = Apart-at a b es h m

same_keyᴰ :
    (es : List Entry) (a b : Entry)
    → IsStrict entry_less es
    → key a ≡ key b
    → Memᴰ a es
    → Memᴰ b es
    → a ≡ b
same_keyᴰ [] a b h e m n = elim m [ ]
same_keyᴰ (x ∷ es) a b h e (Memᴰ.head p) (Memᴰ.head q) = p ∙ sym q
same_keyᴰ (x ∷ es) a b (apart, h) e (Memᴰ.head p) (Memᴰ.tail n) =
    absurd (not_Apart x b (ap key (sym p) ∙ e) (Apart-at x b es apart n))
same_keyᴰ (x ∷ es) a b (apart, h) e (Memᴰ.tail m) (Memᴰ.head q) =
    absurd (not_Apart x a (ap key (sym q) ∙ sym e) (Apart-at x a es apart m))
same_keyᴰ (x ∷ es) a b (_, h) e (Memᴰ.tail m) (Memᴰ.tail n) = same_keyᴰ es a b h e m n

Entry-set : IsSet Entry
Entry-set = hlevel Bytes-set

pub Entries-set : IsSet (List Entry)
Entries-set = hlevel Bytes-set

-- Entries of one key in a list without ties are the same.
pub same_key :
    (es : List Entry) (a b : Entry)
    → IsStrict entry_less es
    → key a ≡ key b
    → Mem a es
    → Mem b es
    → a ≡ b
same_key es a b h e m n =
    ∥∥₁_elim m (Entry-set a b) (λ m'. ∥∥₁_elim n (Entry-set a b) (λ n'. same_keyᴰ es a b h e m' n'))
