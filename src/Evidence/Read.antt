-- ===== src/Evidence/Read.antt =====
-- `readBoundedAgentGovernanceEvidence` and `ReadAgentGovernanceEvidenceFile` of
-- internal/evidence/deployment.go. A reader is the bytes that it yields up to its end or to a
-- failure.
use agent_governance_evidenc.Base.{
  ℕ, zero, suc, ◌≤◌, ◌<◌, Bool, ◌≡◌, refl, ◌↔◌, ap, [], ◌∷◌, Bytes, arith, leb, length, plain,
  Result, ok, err, ◌>>=◌, ◌>>◌, guard, Option, some_or, >>=-eq-ok, ◌∙◌,
}
use agent_governance_evidenc.Evidence.{max_predicate_bytes}

pub data Reader : Type 0 where
  end : Reader
  broken : Reader
  byte : ℕ → Reader → Reader

-- `io.ReadAll(io.LimitReader(reader, n))`.
unfoldable pub read_limited : ℕ → Reader → Result Bytes
read_limited zero r = ok []
read_limited (suc n) end = ok []
read_limited (suc n) broken = err (plain "read error")
read_limited (suc n) (byte b r) = do rest ← read_limited n r; ok (b ∷ rest)

-- The bound is a parameter, for the laws; the program's is `max_predicate_bytes`.
unfoldable pub read_at_most : ℕ → Reader → Result Bytes
read_at_most max r = do
  content ← read_limited (suc max) r
  guard (leb (length content) max) (plain "agent-governance evidence exceeds the byte input bound")
  ok content

unfoldable pub read_bounded : Reader → Result Bytes
read_bounded r = read_at_most max_predicate_bytes r

-- An opened file: what it yields, and whether closing it succeeds.
pub record File : Type 0 where
  pub content : Reader
  pub closes : Bool

-- A read or a close error makes the whole an error.
unfoldable pub read_evidence_file : Option File → Result Bytes
read_evidence_file opened = do
  file ← some_or opened (plain "failed to read evidence file")
  content ← read_bounded file.content
  guard file.closes (plain "failed to read evidence file")
  ok content

-- A reader that yields exactly these bytes and ends.
abbrev pub yielding : Bytes → Reader
yielding [] = end
yielding (b ∷ bs) = byte b (yielding bs)

read_limited_short :
    (n : ℕ) (r : Reader) (s : Bytes) → read_limited n r ≡ ok s → length s < n → r ≡ yielding s
unfolding read_limited
read_limited_short zero r s e h = absurd (ground arith)
read_limited_short (suc n) end s e h = let same : [] ≡ s = ground arith in ap yielding same
read_limited_short (suc n) broken s e h = cc
read_limited_short (suc n) (byte b r) s e h =
    let (rest, read, done) = >>=-eq-ok (read_limited n r) _ e in
    let same : b ∷ rest ≡ s = ground arith in
    let shorter : length rest < n = omega (arith, ap length same) in
    ap (byte b) (read_limited_short n r rest read shorter) ∙ ap yielding same

read_limited-yielding : (n : ℕ) (s : Bytes) → length s < n → read_limited n (yielding s) ≡ ok s
unfolding read_limited
read_limited-yielding zero s h = absurd (ground arith)
read_limited-yielding (suc n) [] h = refl
read_limited-yielding (suc n) (b ∷ s) h = rw (read_limited-yielding n s (ground arith))

pub read_at_most_iff :
    (max : ℕ) (r : Reader) (s : Bytes)
    → (read_at_most max r ≡ ok s) ↔ ((r ≡ yielding s) × (length s ≤ max))
unfolding read_at_most
read_at_most_iff max r s = (
  λ e.
      let (content, read, rest) = >>=-eq-ok (read_limited (suc max) r) _ e in
      let same : content ≡ s = ground arith in
      let small : length content ≤ max = ground arith in
      let fits : length s ≤ max = rw same at small in
      (read_limited_short (suc max) r s (rw same at read) (ground arith), fits),
  λ (e, h). rw e (ground (arith, read_limited-yielding (suc max) s (ground arith))),
)

-- The bounded reader returns the whole input exactly when it ends within 65,536 bytes; a longer
-- input and a read failure are errors.
pub read_bounded_iff :
    (r : Reader) (s : Bytes)
    → (read_bounded r ≡ ok s) ↔ ((r ≡ yielding s) × (length s ≤ max_predicate_bytes))
unfolding read_bounded
read_bounded_iff r s = read_at_most_iff max_predicate_bytes r s
