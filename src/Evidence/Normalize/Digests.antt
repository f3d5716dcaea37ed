-- ===== src/Evidence/Normalize/Digests.antt =====
-- The digest pass of `Normalize`: every digest of its result is canonical, and a body whose
-- digests are canonical passes unchanged.
use agent_governance_evidenc.Base.{
  ℕ, suc, ◌≡◌, refl, List, [], ◌∷◌, Option, none, some, Bytes, arith, All, Label, here, below,
  case_at, Result, ok, err, >>=-eq-ok, plain, at, naming,
}
use agent_governance_evidenc.Evidence.{Deployment, Case, RedactedReference}
use agent_governance_evidenc.Evidence.Digest.{
  normalize_digest, IsDigest, normalize_digest-IsDigest, normalize_digest_of_IsDigest,
}
use agent_governance_evidenc.Evidence.Normalize.{
  labelled, digest_at, reference_at, normalize_case_digests, each_case, normalize_digests,
}

pub labelled-eq-ok {ℓ} :
    {A : Type ℓ} (l : Label) (m : Result A) (a : A) → labelled l m ≡ ok a → m ≡ ok a
labelled-eq-ok l (ok b) a e = e
labelled-eq-ok l (err (plain m)) a e = cc
labelled-eq-ok l (err (at k m)) a e = cc
labelled-eq-ok l (err (naming s m)) a e = cc

digest_at-IsDigest : (l : Label) (s t : Bytes) → digest_at l s ≡ ok t → IsDigest t
unfolding digest_at
digest_at-IsDigest l s t e =
    normalize_digest-IsDigest s t (labelled-eq-ok l (normalize_digest s) t e)

digest_at_fixed : (l : Label) (s : Bytes) → IsDigest s → digest_at l s ≡ ok s
unfolding digest_at
digest_at_fixed l s h = rw (normalize_digest_of_IsDigest s h)

-- The digest of a reference, if there is one, is canonical.
abbrev pub HasDigest : Option RedactedReference → Type 0
HasDigest none = Unit
HasDigest (some r) = IsDigest r.digest

reference_at-HasDigest :
    (l : Label) (o p : Option RedactedReference) → reference_at l o ≡ ok p → HasDigest p
reference_at-HasDigest l none none e = tt
reference_at-HasDigest l none (some q) e = absurd (ground arith)
reference_at-HasDigest l (some r) none e = absurd (ground arith)
reference_at-HasDigest l (some r) (some q) e = digest_at-IsDigest l r.digest q.digest (ground arith)

reference_at_fixed :
    (l : Label) (o : Option RedactedReference) → HasDigest o → reference_at l o ≡ ok o
reference_at_fixed l none h = refl
reference_at_fixed l (some r) h = rw (digest_at_fixed l r.digest h)

-- The digests of a case.
pub record HasCaseDigests (c : Case) : Type 0 where
  pub correlation : IsDigest c.correlation_id
  pub statement : IsDigest c.test_result.statement_digest
  pub decision : HasDigest c.decision.reference
  pub outcome : HasDigest c.outcome.reference

pub normalize_case_digests-HasCaseDigests :
    (i : ℕ) (c c' : Case) → normalize_case_digests i c ≡ ok c' → HasCaseDigests c'
unfolding normalize_case_digests
normalize_case_digests-HasCaseDigests i c c' e = ground (
  arith,
  digest_at-IsDigest (below (case_at i) ".correlationId") c.correlation_id c'.correlation_id,
  digest_at-IsDigest (below (case_at i) ".testResult.statementDigest")
      c.test_result.statement_digest c'.test_result.statement_digest,
  reference_at-HasDigest (below (case_at i) ".decision.reference.digest") c.decision.reference
      c'.decision.reference,
  reference_at-HasDigest (below (case_at i) ".outcome.reference.digest") c.outcome.reference
      c'.outcome.reference,
)

normalize_case_digests_fixed :
    (i : ℕ) (c : Case) → HasCaseDigests c → normalize_case_digests i c ≡ ok c
unfolding normalize_case_digests
normalize_case_digests_fixed i c h = rw (
  digest_at_fixed (below (case_at i) ".correlationId") c.correlation_id h.correlation,
  digest_at_fixed (below (case_at i) ".testResult.statementDigest") c.test_result.statement_digest
      h.statement,
  reference_at_fixed (below (case_at i) ".decision.reference.digest") c.decision.reference
      h.decision,
  reference_at_fixed (below (case_at i) ".outcome.reference.digest") c.outcome.reference h.outcome,
)

-- What a pass gives each case holds of all its results.
pub each_case-All :
    (f : ℕ → Case → Result Case) (P : Case → Type 0)
    → ((i : ℕ) (c c' : Case) → f i c ≡ ok c' → P c')
    → (i : ℕ) (cs ds : List Case) → each_case f i cs ≡ ok ds
    → All P ds
unfolding each_case
each_case-All f P keep i [] ds e = let same : [] ≡ ds = ground arith in rw (← same) tt
each_case-All f P keep i (c ∷ cs) ds e =
    let (c', first, later) = >>=-eq-ok (f i c) _ e in
    let (cs', rest, final) = >>=-eq-ok (each_case f (suc i) cs) _ later in
    let same : c' ∷ cs' ≡ ds = ground arith in
    rw (← same) (keep i c c' first, each_case-All f P keep (suc i) cs cs' rest)

-- A pass that carries one fact over to another carries it over for all cases.
pub each_case-All_of :
    (f : ℕ → Case → Result Case) (P Q : Case → Type 0)
    → ((i : ℕ) (c c' : Case) → f i c ≡ ok c' → P c → Q c')
    → (i : ℕ) (cs ds : List Case) → each_case f i cs ≡ ok ds
    → All P cs
    → All Q ds
unfolding each_case
each_case-All_of f P Q keep i [] ds e h = let same : [] ≡ ds = ground arith in rw (← same) tt
each_case-All_of f P Q keep i (c ∷ cs) ds e (p, h) =
    let (c', first, later) = >>=-eq-ok (f i c) _ e in
    let (cs', rest, final) = >>=-eq-ok (each_case f (suc i) cs) _ later in
    let same : c' ∷ cs' ≡ ds = ground arith in
    rw (← same) (keep i c c' first p, each_case-All_of f P Q keep (suc i) cs cs' rest h)

-- A pass that changes no case of the list returns the list.
pub each_case_fixed :
    (f : ℕ → Case → Result Case) (P : Case → Type 0)
    → ((i : ℕ) (c : Case) → P c → f i c ≡ ok c)
    → (i : ℕ) (cs : List Case) → All P cs
    → each_case f i cs ≡ ok cs
unfolding each_case
each_case_fixed f P keep i [] h = refl
each_case_fixed f P keep i (c ∷ cs) (p, h) = rw (keep i c p, each_case_fixed f P keep (suc i) cs h)

-- Every digest of the body is canonical.
pub record HasDigests (d : Deployment) : Type 0 where
  pub agent : IsDigest d.agent.artifact_digest
  pub runtime : IsDigest d.runtime.artifact.digest
  pub adapter : IsDigest d.adapter.artifact.digest
  pub linked : IsDigest d.adapter.runtime_digest
  pub policy : IsDigest d.runtime_policy.artifact.digest
  pub subject : IsDigest d.identity.subject.digest
  pub sink : IsDigest d.audit.sink.digest
  pub configuration : IsDigest d.audit.configuration_digest
  pub tool : IsDigest d.conformance.controlled_tool.artifact.digest
  pub cases : All HasCaseDigests d.conformance.cases

pub normalize_digests-HasDigests : (d e : Deployment) → normalize_digests d ≡ ok e → HasDigests e
unfolding normalize_digests
normalize_digests-HasDigests d e h = record {
  agent = digest_at-IsDigest (here "agent.artifactDigest") d.agent.artifact_digest _ (ground arith);
  runtime =
      digest_at-IsDigest (here "runtime.artifact.digest") d.runtime.artifact.digest _
        (ground arith);
  adapter =
      digest_at-IsDigest (here "adapter.artifact.digest") d.adapter.artifact.digest _
        (ground arith);
  linked =
      digest_at-IsDigest (here "adapter.runtimeDigest") d.adapter.runtime_digest _ (ground arith);
  policy =
      digest_at-IsDigest (here "runtimePolicy.artifact.digest") d.runtime_policy.artifact.digest _
        (ground arith);
  subject =
      digest_at-IsDigest (here "identity.subject.digest") d.identity.subject.digest _
        (ground arith);
  sink = digest_at-IsDigest (here "audit.sink.digest") d.audit.sink.digest _ (ground arith);
  configuration =
      digest_at-IsDigest (here "audit.configurationDigest") d.audit.configuration_digest _
        (ground arith);
  tool =
      digest_at-IsDigest (here "conformance.controlledTool.artifact.digest")
        d.conformance.controlled_tool.artifact.digest _ (ground arith);
  cases =
      each_case-All normalize_case_digests HasCaseDigests normalize_case_digests-HasCaseDigests 0
        d.conformance.cases _ (ground arith);
}

pub normalize_digests_fixed : (d : Deployment) → HasDigests d → normalize_digests d ≡ ok d
unfolding normalize_digests
normalize_digests_fixed d h = rw (
  digest_at_fixed (here "agent.artifactDigest") d.agent.artifact_digest h.agent,
  digest_at_fixed (here "runtime.artifact.digest") d.runtime.artifact.digest h.runtime,
  digest_at_fixed (here "adapter.artifact.digest") d.adapter.artifact.digest h.adapter,
  digest_at_fixed (here "adapter.runtimeDigest") d.adapter.runtime_digest h.linked,
  digest_at_fixed (here "runtimePolicy.artifact.digest") d.runtime_policy.artifact.digest h.policy,
  digest_at_fixed (here "identity.subject.digest") d.identity.subject.digest h.subject,
  digest_at_fixed (here "audit.sink.digest") d.audit.sink.digest h.sink,
  digest_at_fixed (here "audit.configurationDigest") d.audit.configuration_digest h.configuration,
  digest_at_fixed (here "conformance.controlledTool.artifact.digest")
      d.conformance.controlled_tool.artifact.digest h.tool,
  each_case_fixed normalize_case_digests HasCaseDigests normalize_case_digests_fixed 0
      d.conformance.cases h.cases,
)
