-- ===== src/Evidence/Validate/Distinct.antt =====
-- The sets `seenIDs` and `seenKinds` of `validateConformance` find exactly the repeated fields.
use agent_governance_evidenc.Base.{
  false, ◌≡◌, ◌≢◌, refl, ◌↔◌, List, [], ◌∷◌, Bytes, arith, equal_iff, contains, All,
}
use agent_governance_evidenc.Evidence.{Case}
use agent_governance_evidenc.Evidence.Cases.Laws.{DistinctBy}

module _ (f : Case → Bytes) where
  -- No case has a field that is in the set or was seen before it.
  abbrev pub FreshBy : List Bytes → List Case → Type 0
  FreshBy seen [] = Unit
  FreshBy seen (c ∷ cs) = (contains seen (f c) ≡ false) × FreshBy (f c ∷ seen) cs

  All-fresh_cons :
      (x : Bytes) (seen : List Bytes) (cs : List Case)
      → All (λ d. contains (x ∷ seen) (f d) ≡ false) cs
        ↔ (All (λ d. x ≢ f d) cs × All (λ d. contains seen (f d) ≡ false) cs)
  unfolding contains
  All-fresh_cons x seen [] = (λ _. (tt, tt), λ _. tt)
  All-fresh_cons x seen (c ∷ cs) = ground (arith, equal_iff x (f c), All-fresh_cons x seen cs)

  FreshBy-iff :
      (seen : List Bytes) (cs : List Case)
      → FreshBy seen cs ↔ (All (λ d. contains seen (f d) ≡ false) cs × DistinctBy f cs)
  FreshBy-iff seen [] = (λ _. (tt, tt), λ _. tt)
  FreshBy-iff seen (c ∷ cs) =
      ground (arith, FreshBy-iff (f c ∷ seen) cs, All-fresh_cons (f c) seen cs)

  All-none_seen : (cs : List Case) → All (λ d. contains [] (f d) ≡ false) cs
  unfolding contains
  All-none_seen [] = tt
  All-none_seen (c ∷ cs) = (refl, All-none_seen cs)

  pub FreshBy-nil_iff : (cs : List Case) → FreshBy [] cs ↔ DistinctBy f cs
  FreshBy-nil_iff cs = ground (arith, FreshBy-iff [] cs, All-none_seen cs)
