-- ===== src/Evidence/Fields/Runes.antt =====
-- Go's `for _, r := range value` over a string, and `unicode.IsControl`: UTF-8 is decoded rune by
-- rune, and a byte that begins no valid encoding is one replacement rune.
pub mod Laws
use agent_governance_evidenc.Base.{
  ℕ, zero, suc, ◌+◌, ◌-◌, ◌*◌, Bool, false, ◌&&◌, ◌||◌, List, [], ◌∷◌, leb, ltb, ◌==◌,
  if◌then◌else◌, Bytes,
}

abbrev within : ℕ → ℕ → ℕ → Bool
within lo hi c = leb lo c && leb c hi

abbrev is_continuation : ℕ → Bool
is_continuation c = within 0x80 0xbf c

-- A rune and the number of bytes behind the first that encode it.
abbrev invalid : ℕ × ℕ
invalid = (0xfffd, 0)

-- The second byte's range depends on the first.
unfoldable pub second_in_3 : ℕ → ℕ → Bool
second_in_3 a b = within (if a == 0xe0 then 0xa0 else 0x80) (if a == 0xed then 0x9f else 0xbf) b

unfoldable pub second_in_4 : ℕ → ℕ → Bool
second_in_4 a b = within (if a == 0xf0 then 0x90 else 0x80) (if a == 0xf4 then 0x8f else 0xbf) b

unfoldable pub decode_2 : ℕ → Bytes → ℕ × ℕ
decode_2 a [] = invalid
decode_2 a (b ∷ _) = if is_continuation b then ((a - 0xc0) * 64 + (b - 0x80), 1) else invalid

unfoldable pub decode_3 : ℕ → Bytes → ℕ × ℕ
unfolding second_in_3
decode_3 a (b ∷ c ∷ _) =
    if second_in_3 a b && is_continuation c
    then ((a - 0xe0) * 4096 + (b - 0x80) * 64 + (c - 0x80), 2)
    else invalid
decode_3 a _ = invalid

unfoldable pub decode_4 : ℕ → Bytes → ℕ × ℕ
unfolding second_in_4
decode_4 a (b ∷ c ∷ d ∷ _) =
    if second_in_4 a b && (is_continuation c && is_continuation d)
    then ((a - 0xf0) * 262144 + (b - 0x80) * 4096 + (c - 0x80) * 64 + (d - 0x80), 3)
    else invalid
decode_4 a _ = invalid

-- `utf8.DecodeRuneInString` at the byte `a`, with `s` behind it.
unfoldable pub decode_rune : ℕ → Bytes → ℕ × ℕ
unfolding decode_2 decode_3 decode_4
decode_rune a s =
    if ltb a 0x80
    then (a, 0)
    else if within 0xc2 0xdf a
    then decode_2 a s
    else if within 0xe0 0xef a
    then decode_3 a s
    else if within 0xf0 0xf4 a
    then decode_4 a s
    else invalid

-- The runes of a text, the first `skip` bytes being the rest of a rune already taken.
unfoldable pub runes_from : ℕ → Bytes → List ℕ
unfolding decode_rune
runes_from skip [] = []
runes_from zero (a ∷ s) = let (rune, more) = decode_rune a s in rune ∷ runes_from more s
runes_from (suc skip) (a ∷ s) = runes_from skip s

unfoldable pub is_control : ℕ → Bool
is_control r = ltb r 0x20 || within 0x7f 0x9f r

unfoldable pub any_control : List ℕ → Bool
unfolding is_control
any_control [] = false
any_control (r ∷ rs) = is_control r || any_control rs

unfoldable pub has_control : Bytes → Bool
unfolding any_control runes_from
has_control s = any_control (runes_from 0 s)
