-- ===== src/Analysis/Pipeline/Malformed.antt =====
-- Responses on which the analysis of a group ends by an exception.
use nguyen_dinh_b.Prelude.{
  String, ◌≡◌, refl, sym, ap, ◌∙◌, ◌⊎◌, inl, inr, true, false, Option, none, List, [], ◌∷◌, Any,
}
use nguyen_dinh_b.Json.{Json, obj, Fields, is_obj, truthy}
use nguyen_dinh_b.Effect.{Result-cases}
use nguyen_dinh_b.Python.{Exc, err, ok, ◌>>=◌, PyText, bind-cases, ok-injective}
use nguyen_dinh_b.Allowlist.{Allowlist}
use nguyen_dinh_b.Grouping.Build.{FindingGroup}
use nguyen_dinh_b.Analysis.Provenance.{
  as_dict, iterate, list_or_empty, get_list, location_errors, knowledge_errors, Supplied,
  provenance_errors, validate_provenance,
}
use nguyen_dinh_b.Analysis.Provenance.Laws.{as_dict-eq}
use nguyen_dinh_b.Analysis.Pipeline.{GroupAnalysisResult, Environment, ResponseErrors, says}
use nguyen_dinh_b.Analysis.Pipeline.Group.{supplied, validate_response}
use nguyen_dinh_b.Analysis.Pipeline.Retry.{analyze_one_group}
use nguyen_dinh_b.Analysis.Pipeline.Checked.{obj-injective}

-- The response is no object, or its `knowledge_refs` have an entry that is none.
abbrev pub IsMalformed : Json → Type 0
IsMalformed response =
    (is_obj response ≡ false)
    ⊎ ((fs : Fields) × (krefs : List Json) × (response ≡ obj fs)
        × (iterate (get_list "knowledge_refs" fs) ≡ ok krefs)
        × Any (λ v. is_obj v ≡ false) krefs)

not_both : {fs : Fields} (v : Json) → v ≡ obj fs → ¬ (is_obj v ≡ false)
not_both v e h = cc (ap is_obj e, h)

module _ ⦃py : PyText⦄ where
  knowledge_errors-raises :
      (krefs : List Json) (paths found : List String)
      → Any (λ v. is_obj v ≡ false) krefs
      → ¬ (knowledge_errors krefs paths ≡ ok found)
  unfolding knowledge_errors
  knowledge_errors-raises [] paths found bad h = bad
  knowledge_errors-raises (kref ∷ krefs) paths found (inl bad) h =
      bind-cases (as_dict kref) _ h λ fs p h1. not_both kref (as_dict-eq kref p) bad
  knowledge_errors-raises (kref ∷ krefs) paths found (inr bad) h =
      bind-cases (as_dict kref) _ h λ fs p h1.
        bind-cases (knowledge_errors krefs paths) _ h1
          λ rest q h2. knowledge_errors-raises krefs paths rest bad q

  provenance_errors-raises :
      (fs : Fields) (s : Supplied) (krefs : List Json) (found : List String)
      → iterate (get_list "knowledge_refs" fs) ≡ ok krefs
      → Any (λ v. is_obj v ≡ false) krefs
      → ¬ (provenance_errors fs s ≡ ok found)
  unfolding provenance_errors
  provenance_errors-raises fs s krefs found from bad h =
      bind-cases (location_errors (list_or_empty (get_list "locations" fs)) s.locations) _ h
        λ locations p h1. bind-cases (iterate (get_list "knowledge_refs" fs)) _ h1 λ krefs' q h2.
          bind-cases (knowledge_errors krefs' s.knowledge_paths) _ h2 λ knowledge r h3.
            knowledge_errors-raises krefs s.knowledge_paths knowledge bad
              (rw (ok-injective (sym q ∙ from)) at r)

  validate_response-raises :
      (env : Environment) (response : Json) (group : FindingGroup) (a : GroupAnalysisResult)
      (al : Option Allowlist) (errors : ResponseErrors)
      → IsMalformed response
      → ¬ (validate_response env response group a al ≡ ok errors)
  unfolding validate_response validate_provenance
  validate_response-raises env response group a al errors (inl bad) h =
      bind-cases (as_dict response) _ h λ fs p h1. not_both response (as_dict-eq response p) bad
  validate_response-raises env response group a al errors (inr (fs, krefs, is, from, bad)) h =
      bind-cases (as_dict response) _ h λ gs p h1.
        bind-cases (validate_provenance gs (supplied group a)) _ h1 λ verdict q h2.
          bind-cases (provenance_errors gs (supplied group a)) _ q λ found r h3.
            provenance_errors-raises gs (supplied group a) krefs found
              (rw (obj-injective (sym is ∙ as_dict-eq response p)) at from) bad r

  -- A first response that is no object, or whose `knowledge_refs` have an entry that is none, ends
  -- the analysis of its group by the exception that the check of this response raises, whatever the
  -- schema says of the response, however many retries are allowed and whatever a second call would
  -- give.
  pub analyze_one_group-raises :
      (env : Environment) (al : Option Allowlist) (group : FindingGroup)
      (first : GroupAnalysisResult)
      → env.analyze group none ≡ ok first
      → says first.llm_result.error ≡ false
      → truthy first.llm_result.parsed_response ≡ true
      → IsMalformed first.llm_result.parsed_response
      → (e : Exc) × (validate_response env first.llm_result.parsed_response group first al ≡ err e)
        × (analyze_one_group env group al ≡ err e)
  unfolding analyze_one_group ◌>>=◌
  analyze_one_group-raises env al group first answer no_error something malformed =
      let value = first.llm_result.parsed_response in
      elim (Result-cases (validate_response env value group first al)) [
        | inr (errors, v) ↦
            absurd (validate_response-raises env value group first al errors malformed v)
        | inl (e, v) ↦ (e, v, rw (answer, no_error, something, ◌>>=◌, v) refl)
      ]
