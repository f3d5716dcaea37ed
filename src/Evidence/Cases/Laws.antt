-- ===== src/Evidence/Cases/Laws.antt =====
-- The case order compares the places of the kinds in the list of the four kinds, and then the ids;
-- it orders cases that have distinct ids totally, so those are brought into one order.
use agent_governance_evidenc.Base.{
  List, [], ◌∷◌, true, false, ◌≡◌, ◌≢◌, arith, All, All-map, Bytes-set, Bytes,
}
use agent_governance_evidenc.Base.Order.{less_asymm, less_total, less_negtrans}
use agent_governance_evidenc.Base.Sort.{
  IsSorted, IsStrict, Apart, sort-IsSorted, sort-perm, sort-eq_of_perm, sort_of_IsSorted, sort-All,
}
use mathlib.Core.List.{Perm}
use agent_governance_evidenc.Evidence.{Case}
use agent_governance_evidenc.Evidence.Cases.{case_less, sort_cases}

case_less_asymm : (a b : Case) → case_less a b ≡ true → case_less b a ≡ false
unfolding case_less
case_less_asymm a b h = ground (arith, less_asymm a.id b.id)

case_less_negtrans :
    (a b c : Case) → case_less b a ≡ false → case_less c b ≡ false → case_less c a ≡ false
unfolding case_less
case_less_negtrans a b c p q = ground (arith, less_negtrans a.id b.id c.id)

-- No two cases agree in a field.
abbrev pub DistinctBy : (Case → Bytes) → List Case → Type 0
DistinctBy f [] = Unit
DistinctBy f (c ∷ cs) = All (λ d. f c ≢ f d) cs × DistinctBy f cs

abbrev pub HasDistinctIds : List Case → Type 0
HasDistinctIds = DistinctBy (λ c. c.id)

abbrev pub HasDistinctKinds : List Case → Type 0
HasDistinctKinds = DistinctBy (λ c. c.kind)

Apart-of_id-ne : (c d : Case) → c.id ≢ d.id → Apart case_less c d
unfolding case_less
Apart-of_id-ne c d h = ground (arith, less_total c.id d.id)

IsStrict-of_distinct : (cs : List Case) → HasDistinctIds cs → IsStrict case_less cs
IsStrict-of_distinct [] h = tt
IsStrict-of_distinct (c ∷ cs) (p, h) = (All-map (Apart-of_id-ne c) cs p, IsStrict-of_distinct cs h)

pub List_Case-set : IsSet (List Case)
List_Case-set = hlevel Bytes-set

pub sort_cases-IsSorted : (cs : List Case) → IsSorted case_less (sort_cases cs)
unfolding sort_cases
sort_cases-IsSorted cs = sort-IsSorted _ case_less_asymm case_less_negtrans cs

pub sort_cases-Perm : (cs : List Case) → Perm (sort_cases cs) cs
unfolding sort_cases
sort_cases-Perm cs = sort-perm _ cs

pub sort_cases_of_IsSorted : (cs : List Case) → IsSorted case_less cs → sort_cases cs ≡ cs
unfolding sort_cases
sort_cases_of_IsSorted cs = sort_of_IsSorted case_less cs

pub sort_cases-All : (P : Case → Type 0) (cs : List Case) → All P cs → All P (sort_cases cs)
unfolding sort_cases
sort_cases-All P cs = sort-All case_less P cs

-- Cases with distinct ids are brought into one order, whatever order they come in.
pub sort_cases_canonical :
    (cs ds : List Case) → Perm cs ds → HasDistinctIds cs → sort_cases cs ≡ sort_cases ds
unfolding sort_cases
sort_cases_canonical cs ds p h =
    sort-eq_of_perm case_less case_less_asymm case_less_negtrans List_Case-set p
      (IsStrict-of_distinct cs h)
