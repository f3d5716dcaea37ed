-- ===== src/Evidence/Fields/Runes/Laws.antt =====
-- The control characters of a text, found by decoding its runes and by looking at its bytes alone.
use agent_governance_evidenc.Base.{
  ℕ, zero, suc, ◌≤◌, Bool, false, ◌&&◌, ◌||◌, ◌≡◌, refl, ◌⊎◌, inl, inr, sym, ◌∙◌, [], ◌∷◌, arith,
  leb, ltb, ◌==◌, Bytes,
}
use agent_governance_evidenc.Evidence.Fields.Runes.{
  decode_2, decode_3, decode_4, second_in_3, second_in_4, decode_rune, runes_from, is_control,
  any_control, has_control,
}

-- A control byte of ASCII, and the first of the two bytes of U+0080 to U+009F.
abbrev low_control : ℕ → Bool
low_control a = ltb a 0x20 || a == 0x7f

abbrev leads_control : ℕ → Bytes → Bool
leads_control a [] = false
leads_control a (b ∷ s) = a == 0xc2 && (leb 0x80 b && leb b 0x9f)

-- A control character by the bytes.
pub control_bytes : Bytes → Bool
control_bytes [] = false
control_bytes (a ∷ s) = (low_control a || leads_control a s) || control_bytes s

-- The first `k` bytes, as far as there are any, continue an encoding.
abbrev Continues : ℕ → Bytes → Type 0
Continues zero s = Unit
Continues (suc k) [] = Unit
Continues (suc k) (b ∷ s) = (0x80 ≤ b) × (b ≤ 0xbf) × Continues k s

decode_2-Continues : (a : ℕ) (s : Bytes) → Continues (decode_2 a s).1 s
unfolding decode_2
decode_2-Continues a [] = tt
decode_2-Continues a (b ∷ s) = ground arith

decode_3-Continues : (a : ℕ) (s : Bytes) → Continues (decode_3 a s).1 s
unfolding decode_3 second_in_3
decode_3-Continues a [] = tt
decode_3-Continues a (b ∷ []) = tt
decode_3-Continues a (b ∷ c ∷ s) = ground arith

decode_4-Continues : (a : ℕ) (s : Bytes) → Continues (decode_4 a s).1 s
unfolding decode_4 second_in_4
decode_4-Continues a [] = tt
decode_4-Continues a (b ∷ []) = tt
decode_4-Continues a (b ∷ c ∷ []) = tt
decode_4-Continues a (b ∷ c ∷ d ∷ s) = ground arith

decode_rune-Continues : (a : ℕ) (s : Bytes) → Continues (decode_rune a s).1 s
unfolding decode_rune
decode_rune-Continues a s =
    ground (arith, decode_2-Continues a s, decode_3-Continues a s, decode_4-Continues a s)

decode_2-is_control :
    (a : ℕ) (s : Bytes) → 0xc2 ≤ a → a ≤ 0xdf → is_control (decode_2 a s).0 ≡ leads_control a s
unfolding decode_2 is_control
decode_2-is_control a [] lo hi = refl
decode_2-is_control a (b ∷ s) lo hi = ground arith

decode_3-is_control :
    (a : ℕ) (s : Bytes) → 0xe0 ≤ a → a ≤ 0xef → is_control (decode_3 a s).0 ≡ false
unfolding decode_3 is_control second_in_3
decode_3-is_control a [] lo hi = refl
decode_3-is_control a (b ∷ []) lo hi = refl
decode_3-is_control a (b ∷ c ∷ s) lo hi = ground arith

decode_4-is_control :
    (a : ℕ) (s : Bytes) → 0xf0 ≤ a → a ≤ 0xf4 → is_control (decode_4 a s).0 ≡ false
unfolding decode_4 is_control second_in_4
decode_4-is_control a [] lo hi = refl
decode_4-is_control a (b ∷ []) lo hi = refl
decode_4-is_control a (b ∷ c ∷ []) lo hi = refl
decode_4-is_control a (b ∷ c ∷ d ∷ s) lo hi = ground arith

leads_control-ne : (a : ℕ) (s : Bytes) → (a == 0xc2) ≡ false → leads_control a s ≡ false
leads_control-ne a [] h = refl
leads_control-ne a (b ∷ s) h = rw h

low_control-ne : (a : ℕ) → 0x80 ≤ a → low_control a ≡ false
low_control-ne a h = ground arith

-- Which decoder takes the byte.
decode_rune-by_range :
    (a : ℕ) (s : Bytes)
    → ((a ≤ 0x7f) × (decode_rune a s ≡ (a, 0)))
      ⊎ ((0xc2 ≤ a) × (a ≤ 0xdf) × (decode_rune a s ≡ decode_2 a s))
      ⊎ ((0xe0 ≤ a) × (a ≤ 0xef) × (decode_rune a s ≡ decode_3 a s))
      ⊎ ((0xf0 ≤ a) × (a ≤ 0xf4) × (decode_rune a s ≡ decode_4 a s))
      ⊎ ((0x80 ≤ a) × ((a == 0xc2) ≡ false) × (decode_rune a s ≡ (0xfffd, 0)))
unfolding decode_rune
decode_rune-by_range a s = ground arith

decode_rune-is_control :
    (a : ℕ) (s : Bytes) → is_control (decode_rune a s).0 ≡ (low_control a || leads_control a s)
unfolding is_control
decode_rune-is_control a s = elim (decode_rune-by_range a s) [
  | inl (hi, is) ↦ rw (is, leads_control-ne a s (ground arith)) (ground arith)
  | inr (inl (lo, hi, is)) ↦
      rw (is, low_control-ne a (ground arith)) (decode_2-is_control a s lo hi)
  | inr (inr (inl (lo, hi, is))) ↦
      rw (is, low_control-ne a (ground arith), leads_control-ne a s (ground arith))
        (decode_3-is_control a s lo hi)
  | inr (inr (inr (inl (lo, hi, is)))) ↦
      rw (is, low_control-ne a (ground arith), leads_control-ne a s (ground arith))
        (decode_4-is_control a s lo hi)
  | inr (inr (inr (inr (lo, ne, is)))) ↦ rw (is, low_control-ne a lo, leads_control-ne a s ne)
]

continuation_is_plain :
    (b : ℕ) (s : Bytes) → 0x80 ≤ b → b ≤ 0xbf → control_bytes (b ∷ s) ≡ control_bytes s
unfolding control_bytes
continuation_is_plain b [] h k = ground arith
continuation_is_plain b (c ∷ s) h k = ground arith

any_control-runes_from :
    (k : ℕ) (s : Bytes) → Continues k s → any_control (runes_from k s) ≡ control_bytes s
unfolding any_control runes_from control_bytes
any_control-runes_from zero [] h = refl
any_control-runes_from (suc k) [] h = refl
any_control-runes_from zero (a ∷ s) h = rw (
  decode_rune-is_control a s,
  any_control-runes_from (decode_rune a s).1 s (decode_rune-Continues a s),
)
any_control-runes_from (suc k) (b ∷ s) (lo, hi, h) =
    any_control-runes_from k s h ∙ sym (continuation_is_plain b s lo hi)

-- A text holds a control character, by its decoded runes, exactly when one of its bytes is an
-- ASCII control or a byte 0xc2 stands before a byte from 0x80 to 0x9F, valid UTF-8 or not.
pub has_control_lem : (s : Bytes) → has_control s ≡ control_bytes s
unfolding has_control
has_control_lem s = any_control-runes_from 0 s tt
