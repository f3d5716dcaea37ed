-- ===== src/Evidence/Normalize/Laws.antt =====
-- `Normalize` returns a canonical body, and leaves a canonical body that `Validate` accepts as it
-- is.
use agent_governance_evidenc.Base.{
  ◌≡◌, sym, ◌∙◌, ap, subst, List, Bytes, arith, All, All-zip, ok, >>=-eq-ok,
}
use agent_governance_evidenc.Base.Sort.{IsSorted}
use agent_governance_evidenc.Evidence.{Deployment, Case}
use agent_governance_evidenc.Evidence.Cases.{case_less, sort_cases}
use agent_governance_evidenc.Evidence.Cases.Laws.{
  sort_cases-IsSorted, sort_cases_of_IsSorted, sort_cases-All,
}
use agent_governance_evidenc.Evidence.Host.{Host, TimeLaws, JsonLaws}
use agent_governance_evidenc.Evidence.Normalize.{
  normalize_digests, normalize_points, with_cases, normalize_case_timestamps, normalize_timestamps,
  each_case, normalize_values, normalize_extensions, normalize,
}
use agent_governance_evidenc.Evidence.Normalize.Digests.{
  HasDigests, HasCaseDigests, normalize_digests-HasDigests, normalize_digests_fixed, each_case-All,
  each_case-All_of, each_case_fixed,
}
use agent_governance_evidenc.Evidence.Normalize.Times.{
  HasStamps, IsRead, IsCanonicalValue, normalize_case_timestamps-HasStamps,
  normalize_case_timestamps-HasCaseDigests, normalize_case_timestamps_fixed,
  normalize_values-IsCanonicalValue, normalize_values_fixed,
}
use agent_governance_evidenc.Evidence.Points.Laws.{
  IsAscending, dedupe_sort-IsAscending, dedupe_sort_of_IsAscending,
}

module _ (h : Host) where
  -- A canonical body: canonical digests, ascending points, stamps that `Format` wrote, cases in
  -- order, and extension values that `json.Marshal` wrote.
  pub record IsCanonical (d : Deployment) : Type 0 where
    pub digests : HasDigests d
    pub required : IsAscending d.enforcement.required_intervention_points
    pub observed : IsAscending d.enforcement.observed_intervention_points
    pub stamps : All (λ c. HasStamps h c) d.conformance.cases
    pub ordered : IsSorted case_less d.conformance.cases
    pub values : All (λ e. IsCanonicalValue h e) d.extensions

  -- The body that the passes leave, from what the first, the third and the last of them return.
  abbrev assembled : Deployment → List Case → List (Bytes × Bytes) → Deployment
  assembled d cs vs = record (with_cases (normalize_points d) (sort_cases cs)) { extensions = vs }

  timestamps_step :
      (d e : Deployment)
      → normalize_timestamps h d ≡ ok e
      → (cs : List Case) × (each_case (normalize_case_timestamps h) 0 d.conformance.cases ≡ ok cs)
        × (e ≡ with_cases d cs)
  unfolding normalize_timestamps
  timestamps_step d e eq =
      let (cs, passed, done) =
        >>=-eq-ok (each_case (normalize_case_timestamps h) 0 d.conformance.cases) _ eq in
      (cs, passed, ground arith)

  extensions_step :
      (d e : Deployment)
      → normalize_extensions h d ≡ ok e
      → (vs : List (Bytes × Bytes)) × (normalize_values h d.extensions ≡ ok vs)
        × (e ≡ record d { extensions = vs })
  unfolding normalize_extensions
  extensions_step d e eq =
      let (vs, passed, done) = >>=-eq-ok (normalize_values h d.extensions) _ eq in
      (vs, passed, ground arith)

  pub record Trace (d e : Deployment) : Type 0 where
    pub digested : Deployment
    pub cases : List Case
    pub values : List (Bytes × Bytes)
    pub digests_pass : normalize_digests d ≡ ok digested
    pub cases_pass : each_case (normalize_case_timestamps h) 0 digested.conformance.cases ≡ ok cases
    pub values_pass : normalize_values h digested.extensions ≡ ok values
    pub result : e ≡ assembled digested cases values

  pub normalize-Trace : (d e : Deployment) → normalize h d ≡ ok e → Trace d e
  unfolding normalize normalize_points
  normalize-Trace d e eq =
      let (digested, e₁, rest₁) = >>=-eq-ok (normalize_digests d) _ eq in
      let (timed, e₂, rest₂) =
        >>=-eq-ok (normalize_timestamps h (normalize_points digested)) _ rest₁ in
      let (cases, e₃, timed_is) = timestamps_step (normalize_points digested) timed e₂ in
      let (values, e₄, done) =
        extensions_step (with_cases timed (sort_cases timed.conformance.cases)) e rest₂ in
      record {
        digested = digested;
        cases = cases;
        values = values;
        digests_pass = e₁;
        cases_pass = e₃;
        values_pass = sym (ap (λ (t : Deployment). normalize_values h t.extensions) timed_is) ∙ e₄;
        result =
            done
            ∙ ap
                (λ (t : Deployment). record (with_cases t (sort_cases t.conformance.cases)) {
                  extensions = values;
                })
                timed_is;
      }

  assembled-IsCanonical :
      (d : Deployment) (cs : List Case) (vs : List (Bytes × Bytes))
      → HasDigests d
      → All HasCaseDigests cs
      → All (λ c. HasStamps h c) cs
      → All (λ e. IsCanonicalValue h e) vs
      → IsCanonical (assembled d cs vs)
  unfolding normalize_points
  assembled-IsCanonical d cs vs digests case_digests stamps values = record {
    digests = record {
      agent = digests.agent;
      runtime = digests.runtime;
      adapter = digests.adapter;
      linked = digests.linked;
      policy = digests.policy;
      subject = digests.subject;
      sink = digests.sink;
      configuration = digests.configuration;
      tool = digests.tool;
      cases = sort_cases-All HasCaseDigests cs case_digests;
    };
    required = dedupe_sort-IsAscending d.enforcement.required_intervention_points;
    observed = dedupe_sort-IsAscending d.enforcement.observed_intervention_points;
    stamps = sort_cases-All _ cs stamps;
    ordered = sort_cases-IsSorted cs;
    values = values;
  }

  -- What `Normalize` returns is canonical: every digest in lower case, the points ascending with
  -- none twice, every timestamp as `Format` writes a whole second, the cases in their order, and
  -- every extension value as `json.Marshal` writes what was decoded.
  pub normalize-IsCanonical : (d e : Deployment) → normalize h d ≡ ok e → IsCanonical e
  normalize-IsCanonical d e eq =
      let t = normalize-Trace d e eq in
      let digests = normalize_digests-HasDigests d t.digested t.digests_pass in
      subst (λ x. IsCanonical x) (sym t.result)
        (assembled-IsCanonical t.digested t.cases t.values digests
          (each_case-All_of (normalize_case_timestamps h) HasCaseDigests HasCaseDigests
            (normalize_case_timestamps-HasCaseDigests h) 0 t.digested.conformance.cases t.cases
            t.cases_pass digests.cases)
          (each_case-All (normalize_case_timestamps h) (λ c. HasStamps h c)
            (normalize_case_timestamps-HasStamps h) 0 t.digested.conformance.cases t.cases
            t.cases_pass)
          (normalize_values-IsCanonicalValue h t.digested.extensions t.values t.values_pass))

  -- Where the time and JSON laws hold, `Normalize` succeeds on a canonical body whose timestamps
  -- the layout reads and leaves it as it is.
  pub normalize_of_IsCanonical :
      TimeLaws h
      → JsonLaws h
      → (d : Deployment) → IsCanonical d
      → All (λ c. IsRead h c) d.conformance.cases
      → normalize h d ≡ ok d
  unfolding normalize normalize_timestamps normalize_extensions normalize_points
  normalize_of_IsCanonical times jsons d c reads = rw (
    normalize_digests_fixed d c.digests,
    dedupe_sort_of_IsAscending d.enforcement.required_intervention_points c.required,
    dedupe_sort_of_IsAscending d.enforcement.observed_intervention_points c.observed,
    each_case_fixed (normalize_case_timestamps h) (λ x. HasStamps h x × IsRead h x)
        (normalize_case_timestamps_fixed h times) 0 d.conformance.cases
        (All-zip _ _ d.conformance.cases c.stamps reads),
    sort_cases_of_IsSorted d.conformance.cases c.ordered,
    normalize_values_fixed h jsons d.extensions c.values,
  )
