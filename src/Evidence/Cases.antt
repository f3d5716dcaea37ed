-- ===== src/Evidence/Cases.antt =====
-- The case order of internal/evidence/deployment.go: the fixed kind order, then the id.
pub mod Laws
pub mod Ranks
use agent_governance_evidenc.Base.{
  ℕ, List, Bool, true, false, Option, none, some, Bytes, equal, if◌then◌else◌, ltb, ◌==◌,
}
use agent_governance_evidenc.Base.Order.{less}
use agent_governance_evidenc.Base.Sort.{sort}
use agent_governance_evidenc.Evidence.{
  Case, allowed_action, denied_action, adapter_bypass, no_policy_loaded,
}

-- A lookup in `agentGovernanceCaseKindOrder`.
unfoldable pub kind_order : Bytes → Option ℕ
kind_order kind =
    if equal kind allowed_action
    then some 0
    else if equal kind denied_action
    then some 1
    else if equal kind adapter_bypass
    then some 2
    else if equal kind no_policy_loaded
    then some 3
    else none

-- The comparison that `Normalize` gives to `sort.SliceStable`, on the two lookups.
unfoldable pub order_less : Option ℕ → Option ℕ → Case → Case → Bool
order_less (some ao) (some bo) a b = if ao == bo then less a.id b.id else ltb ao bo
order_less (some ao) none a b = true
order_less none (some bo) a b = false
order_less none none a b = less a.id b.id

unfoldable pub case_less : Case → Case → Bool
unfolding order_less
case_less a b = order_less (kind_order a.kind) (kind_order b.kind) a b

unfoldable pub sort_cases : List Case → List Case
sort_cases cases = sort case_less cases
