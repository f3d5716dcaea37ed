-- ===== src/Evidence/Normalize/Times.antt =====
-- The timestamp and extension passes of `Normalize`: what they return, and what they leave alone.
use agent_governance_evidenc.Base.{
  ℕ, ◌%◌, ◌≡◌, refl, ◌⊎◌, inl, inr, List, [], ◌∷◌, some, Bytes, equal, equal_iff, arith, All, Label,
  below, case_at, ok, >>=-eq-ok, plain, Option-cases, Bool-cases, some_or, subst,
}
use agent_governance_evidenc.Evidence.{Case, TestResultRef, second}
use agent_governance_evidenc.Evidence.Digest.{IsDigest}
use agent_governance_evidenc.Evidence.Host.{Host, TimeLaws, JsonLaws}
use agent_governance_evidenc.Evidence.Json.{Json}
use agent_governance_evidenc.Evidence.Normalize.{
  normalize_timestamp, timestamp_at, optional_timestamp_at, normalize_case_timestamps,
  normalize_values,
}
use agent_governance_evidenc.Evidence.Normalize.Digests.{HasCaseDigests, HasDigest, labelled-eq-ok}

module _ (h : Host) where
  -- A text that `Format` wrote for a whole second.
  pub record IsStamp (s : Bytes) : Type 0 where
    pub instant : ℕ
    pub whole : instant % second ≡ 0
    pub written : s ≡ h.format_layout instant

  pub normalize_timestamp-IsStamp : (s t : Bytes) → normalize_timestamp h s ≡ ok t → IsStamp t
  unfolding normalize_timestamp
  normalize_timestamp-IsStamp s t e = elim (Option-cases (h.parse_rfc3339 s)) [
    | inl refused ↦ absurd (ground (arith, refused))
    | inr (instant, parsed) ↦ record {
      instant = instant;
      whole = ground (arith, parsed);
      written = ground (arith, parsed);
    }
  ]

  timestamp_at-IsStamp : (l : Label) (s t : Bytes) → timestamp_at h l s ≡ ok t → IsStamp t
  unfolding timestamp_at
  timestamp_at-IsStamp l s t e =
      normalize_timestamp-IsStamp s t (labelled-eq-ok l (normalize_timestamp h s) t e)

  optional_timestamp_at-IsStamp :
      (l : Label) (s t : Bytes) → optional_timestamp_at h l s ≡ ok t → (t ≡ []) ⊎ IsStamp t
  unfolding optional_timestamp_at
  optional_timestamp_at-IsStamp l s t e = elim (Bool-cases (equal s [])) [
    | inl absent ↦ inl (ground (arith, absent, equal_iff s []))
    | inr present ↦ inr (timestamp_at-IsStamp l s t (ground (arith, present)))
  ]

  -- The timestamps of a case, those of the observations being optional.
  pub record HasStamps (c : Case) : Type 0 where
    pub started : IsStamp c.started_at
    pub completed : IsStamp c.completed_at
    pub decided : (c.decision.observed_at ≡ []) ⊎ IsStamp c.decision.observed_at
    pub resulted : (c.outcome.observed_at ≡ []) ⊎ IsStamp c.outcome.observed_at

  pub normalize_case_timestamps-HasStamps :
      (i : ℕ) (c c' : Case) → normalize_case_timestamps h i c ≡ ok c' → HasStamps c'
  unfolding normalize_case_timestamps
  normalize_case_timestamps-HasStamps i c c' e = record {
    started = timestamp_at-IsStamp (below (case_at i) ".startedAt") c.started_at _ (ground arith);
    completed =
        timestamp_at-IsStamp (below (case_at i) ".completedAt") c.completed_at _ (ground arith);
    decided =
        optional_timestamp_at-IsStamp (below (case_at i) ".decision.observedAt")
          c.decision.observed_at _ (ground arith);
    resulted =
        optional_timestamp_at-IsStamp (below (case_at i) ".outcome.observedAt")
          c.outcome.observed_at _ (ground arith);
  }

  pub normalize_case_timestamps-HasCaseDigests :
      (i : ℕ) (c c' : Case)
      → normalize_case_timestamps h i c ≡ ok c'
      → HasCaseDigests c
      → HasCaseDigests c'
  unfolding normalize_case_timestamps
  normalize_case_timestamps-HasCaseDigests i c c' e k =
      let same_id : c.correlation_id ≡ c'.correlation_id = ground arith in
      let same_test : c.test_result ≡ c'.test_result = ground arith in
      let same_decision : c.decision.reference ≡ c'.decision.reference = ground arith in
      let same_outcome : c.outcome.reference ≡ c'.outcome.reference = ground arith in
      record {
        correlation = subst (λ s. IsDigest s) same_id k.correlation;
        statement =
            subst (λ (t : TestResultRef). IsDigest t.statement_digest) same_test k.statement;
        decision = subst HasDigest same_decision k.decision;
        outcome = subst HasDigest same_outcome k.outcome;
      }

  -- The layout reads each timestamp of the case that is there.
  pub record IsRead (c : Case) : Type 0 where
    pub started_read : (u : ℕ) × (h.parse_layout c.started_at ≡ some u)
    pub completed_read : (u : ℕ) × (h.parse_layout c.completed_at ≡ some u)
    pub decided_read :
        (c.decision.observed_at ≡ []) ⊎ ((u : ℕ) × (h.parse_layout c.decision.observed_at ≡ some u))
    pub resulted_read :
        (c.outcome.observed_at ≡ []) ⊎ ((u : ℕ) × (h.parse_layout c.outcome.observed_at ≡ some u))

  module _ (laws : TimeLaws h) where
    -- A stamp that the layout reads is left as it is.
    timestamp_at_fixed :
        (l : Label) (s : Bytes) (u : ℕ)
        → IsStamp s
        → h.parse_layout s ≡ some u
        → timestamp_at h l s ≡ ok s
    unfolding timestamp_at normalize_timestamp
    timestamp_at_fixed l s u stamp reads =
        let again : h.parse_rfc3339 s ≡ some stamp.instant =
          rw stamp.written
            (laws.rfc3339_reads stamp.instant u stamp.whole (rw stamp.written at reads)) in
        ground (arith, again, stamp.whole, stamp.written)

    optional_timestamp_at_fixed :
        (l : Label) (s : Bytes)
        → (s ≡ []) ⊎ IsStamp s
        → (s ≡ []) ⊎ ((u : ℕ) × (h.parse_layout s ≡ some u))
        → optional_timestamp_at h l s ≡ ok s
    unfolding optional_timestamp_at
    optional_timestamp_at_fixed l s (inl absent) r = ground (arith, equal_iff s [])
    optional_timestamp_at_fixed l s (inr stamp) (inl absent) = ground (arith, equal_iff s [])
    optional_timestamp_at_fixed l s (inr stamp) (inr (u, reads)) =
        ground (arith, timestamp_at_fixed l s u stamp reads)

    pub normalize_case_timestamps_fixed :
        (i : ℕ) (c : Case) → HasStamps c × IsRead c → normalize_case_timestamps h i c ≡ ok c
    unfolding normalize_case_timestamps
    normalize_case_timestamps_fixed i c (s, r) = rw (
      timestamp_at_fixed (below (case_at i) ".startedAt") c.started_at r.started_read.0 s.started
          r.started_read.1,
      timestamp_at_fixed (below (case_at i) ".completedAt") c.completed_at r.completed_read.0
          s.completed r.completed_read.1,
      optional_timestamp_at_fixed (below (case_at i) ".decision.observedAt") c.decision.observed_at
          s.decided r.decided_read,
      optional_timestamp_at_fixed (below (case_at i) ".outcome.observedAt") c.outcome.observed_at
          s.resulted r.resulted_read,
    )

  -- A value that `json.Marshal` wrote for something that was decoded.
  pub record IsCanonicalValue (e : Bytes × Bytes) : Type 0 where
    pub value : Json
    pub input : Bytes
    pub decoded : h.decode_json input ≡ some value
    pub written : h.marshal_json value ≡ some e.1

  pub normalize_values-IsCanonicalValue :
      (es fs : List (Bytes × Bytes)) → normalize_values h es ≡ ok fs → All IsCanonicalValue fs
  unfolding normalize_values
  normalize_values-IsCanonicalValue [] fs e = let same : [] ≡ fs = ground arith in rw (← same) tt
  normalize_values-IsCanonicalValue ((key, raw) ∷ es) fs e =
      let (v, read, e₁) =
        >>=-eq-ok (some_or (h.decode_json raw) (plain "extensions: value is not valid JSON")) _ e in
      let (canonical, wrote, e₂) =
        >>=-eq-ok (some_or (h.marshal_json v) (plain "extensions: failed to canonicalize value")) _
          e₁ in
      let (rest, others, e₃) = >>=-eq-ok (normalize_values h es) _ e₂ in
      let same : (key, canonical) ∷ rest ≡ fs = ground arith in
      rw (← same) (
        record { value = v; input = raw; decoded = ground arith; written = ground arith },
        normalize_values-IsCanonicalValue es rest others,
      )

  pub normalize_values_fixed :
      JsonLaws h
      → (es : List (Bytes × Bytes)) → All IsCanonicalValue es
      → normalize_values h es ≡ ok es
  unfolding normalize_values
  normalize_values_fixed laws [] a = refl
  normalize_values_fixed laws ((key, raw) ∷ es) (c, a) =
      let again : h.decode_json raw ≡ some c.value =
        laws.decode_marshal c.value c.input raw c.decoded c.written in
      rw (again, c.written, normalize_values_fixed laws es a)
