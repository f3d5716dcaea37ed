-- ===== src/Demokit/Binding.antt =====
-- What binding a statement digest into the one case of a body leaves as it is.
use mathlib.Core.List.{Perm}
use mathlib.Core.List.Perm
use agent_governance_evidenc.Base.{
  refl, ap, ◌∙◌, map, ◌≡◌, ◌⊎◌, inl, inr, List, [], ◌∷◌, Bytes, arith, length, subst,
}
use agent_governance_evidenc.Evidence.{Deployment, Case}
use agent_governance_evidenc.Evidence.Normalize.Facts.{case_facts, HasSameFacts}
use agent_governance_evidenc.Evidence.Normalize.Sole.{HasSole}
use agent_governance_evidenc.Demokit.{set_digest, bind_digest}

List-cases : (cs : List Case) → (cs ≡ []) ⊎ ((c : Case) × (rest : List Case) × (cs ≡ c ∷ rest))
List-cases [] = inl refl
List-cases (c ∷ cs) = inr (c, cs, refl)

set_digest-facts :
    (digest : Bytes) (cs : List Case) → map case_facts (set_digest digest cs) ≡ map case_facts cs
set_digest-facts digest [] = refl
set_digest-facts digest (c ∷ cs) = refl

-- Binding a digest before and after two normalisations changes no facts.
pub bound-HasSameFacts :
    (before after : Bytes) (d e : Deployment) (b : Deployment)
    → HasSameFacts (bind_digest before d) e
    → HasSameFacts (bind_digest after (bind_digest [] e)) b
    → HasSameFacts d b
bound-HasSameFacts before after d e b first second = record {
  body = second.body ∙ first.body;
  required = λ s. second.required s ∙ first.required s;
  observed = λ s. second.observed s ∙ first.observed s;
  cases =
      let unbound = set_digest-facts [] e.conformance.cases in
      let inner = set_digest-facts after (set_digest [] e.conformance.cases) ∙ unbound in
      let outer = set_digest-facts before d.conformance.cases in
      Perm.trans (subst (λ cs. Perm (map case_facts b.conformance.cases) cs) inner second.cases)
        (subst (λ cs. Perm (map case_facts e.conformance.cases) cs) outer first.cases);
}

pub sole_of_length :
    (d : Deployment) → length d.conformance.cases ≡ 1 → (digest : Bytes) × HasSole d digest
sole_of_length d one = elim (List-cases d.conformance.cases) [
  | inl none_given ↦ absurd (ground (arith, one, none_given))
  | inr (c, rest, given) ↦ elim (List-cases rest) [
    | inl no_more ↦ (
      c.test_result.statement_digest,
      record { case = c; cases_are = given ∙ ap (λ cs. c ∷ cs) no_more; digest_is = refl },
    )
    | inr (c', rest', more) ↦ absurd (ground (arith, one, given, more))
  ]
]

pub sole-bound :
    (d : Deployment) (digest old : Bytes) → HasSole d old → HasSole (bind_digest digest d) digest
sole-bound d digest old one = record {
  case = record (one.case) {
    test_result = record (one.case.test_result) { statement_digest = digest };
  };
  cases_are = ap (set_digest digest) one.cases_are;
  digest_is = refl;
}
