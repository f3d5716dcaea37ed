-- ===== src/Evidence/Pattern/Laws.antt =====
-- What the patterns accept, said without the matcher.
use agent_governance_evidenc.Base.{
  ℕ, ◌≤◌, Bool, true, ◌≡◌, ◌↔◌, ◌++◌, arith, all_iff, All, length, Bytes, trim_prefix,
  trim_prefix-append, trim_prefix_sound, Option-cases, inl, inr, ◌⊎◌,
}
use agent_governance_evidenc.Evidence.Pattern.{is_run, matches, is_hex, is_digit}

-- `s` is the literal and then a run of the class, of a length in the bounds.
pub record Run (literal : Bytes) (class : ℕ → Bool) (lo hi : ℕ) (s : Bytes) : Type 0 where
  pub rest : Bytes
  pub splits : s ≡ literal ++ rest
  pub in_class : All (λ c. class c ≡ true) rest
  pub long : lo ≤ length rest
  pub short : length rest ≤ hi

pub is_run_iff :
    (class : ℕ → Bool) (lo hi : ℕ) (s : Bytes)
    → (is_run class lo hi s ≡ true)
      ↔ (All (λ c. class c ≡ true) s × (lo ≤ length s) × (length s ≤ hi))
unfolding is_run
is_run_iff class lo hi s =
    ground (arith, all_iff class (λ c. class c ≡ true) (λ c. (λ h. h, λ h. h)) s)

module _ (literal : Bytes) (class : ℕ → Bool) (lo hi : ℕ) where
  pub matches_sound : (s : Bytes) → matches literal class lo hi s ≡ true → Run literal class lo hi s
  unfolding matches
  matches_sound s h = elim (Option-cases (trim_prefix literal s)) [
    | inl no_prefix ↦ absurd (ground (arith, no_prefix))
    | inr (rest, e) ↦
        let run = (is_run_iff class lo hi rest).0 (rw (e, matches) at h) in
        record {
          rest = rest;
          splits = trim_prefix_sound literal s rest e;
          in_class = run.0;
          long = run.1;
          short = run.2;
        }
  ]

  pub matches_complete :
      (s : Bytes) → Run literal class lo hi s → matches literal class lo hi s ≡ true
  unfolding matches
  matches_complete s r =
      rw (r.splits, trim_prefix-append literal r.rest, matches)
        ((is_run_iff class lo hi r.rest).1 (r.in_class, r.long, r.short))

-- A digit or a letter from a to f in either case.
abbrev pub IsHexDigit : ℕ → Type 0
IsHexDigit c = ((b'0' ≤ c) × (c ≤ b'9')) ⊎ ((b'a' ≤ c) × (c ≤ b'f')) ⊎ ((b'A' ≤ c) × (c ≤ b'F'))

pub is_hex_iff : (c : ℕ) → (is_hex c ≡ true) ↔ IsHexDigit c
unfolding is_hex is_digit
is_hex_iff c = ground arith
