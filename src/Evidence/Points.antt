-- ===== src/Evidence/Points.antt =====
-- `dedupeSortStrings` of internal/evidence/deployment.go, for the intervention points.
pub mod Laws
use agent_governance_evidenc.Base.{List, [], ◌∷◌, true, false, Bytes, contains}
use agent_governance_evidenc.Base.Order.{less}
use agent_governance_evidenc.Base.Sort.{sort}

-- The loop that keeps the first occurrence of each string; `seen` is the set of those before.
unfoldable pub dedupe : List Bytes → List Bytes → List Bytes
unfolding contains
dedupe seen [] = []
dedupe seen (s ∷ ss) = elim (contains seen s) [
  | true ↦ dedupe seen ss
  | false ↦ s ∷ dedupe (s ∷ seen) ss
]

-- `sort.Strings` is any sort: equal strings cannot be told apart.
unfoldable pub dedupe_sort : List Bytes → List Bytes
unfolding dedupe less sort
dedupe_sort ss = sort less (dedupe [] ss)
