-- ===== src/Analysis/Pipeline/Keys.antt =====
-- The outcome of a group has the key of the group.
use nguyen_dinh_b.Prelude.{
  String, ◌≡◌, refl, sym, ap, ◌∙◌, inl, inr, not, ◌||◌, Option, none, some, Bool-cases,
}
use nguyen_dinh_b.Json.{Json, obj, Fields, get_null, truthy}
use nguyen_dinh_b.Python.{ok, PyText, bind-cases, ok-injective, Returns, Returns-ok, Returns-bind}
use nguyen_dinh_b.Allowlist.{Allowlist}
use nguyen_dinh_b.Calibration.{calibrate_record}
use nguyen_dinh_b.Grouping.Build.{FindingGroup}
use nguyen_dinh_b.Analysis.Provenance.{as_dict}
use nguyen_dinh_b.Analysis.Pipeline.{
  GroupAnalysisResult, Environment, ResponseErrors, says, has_any, blocks_the_record, GroupOutcome,
}
use nguyen_dinh_b.Analysis.Pipeline.Group.{
  validate_response, measured_reachability, keep_record, settled_fields, is_null, count_objective,
  settle,
}
use nguyen_dinh_b.Analysis.Pipeline.Retry.{
  counted, observed, unanswered, recalled, noted, feedback_prompt, error_text, retry, no_retries,
  settle_first, started, analyze_one_group,
}

noted-key : (errors : ResponseErrors) (o : GroupOutcome) → (noted errors o).group_key ≡ o.group_key
noted-key errors o = elim (Bool-cases (has_any errors)) [ inl e ↦ rw e refl | inr e ↦ rw e refl ]

count_objective-key :
    (error : Option String) (fs : Fields) (o : GroupOutcome)
    → (count_objective error fs o).group_key ≡ o.group_key
count_objective-key (some text) fs o = refl
count_objective-key none fs o = elim (Bool-cases (is_null (get_null "verification_objective" fs))) [
  | inl e ↦ rw e refl
  | inr e ↦ rw e refl
]

module _ ⦃py : PyText⦄ (env : Environment) (al : Option Allowlist) (group : FindingGroup) where
  -- The outcome has the key of the group.
  abbrev HasKey : GroupOutcome → Type 0
  HasKey o = o.group_key ≡ group.group_key

  keep-HasKey :
      (fs : Fields) (o : GroupOutcome) → HasKey o → Returns HasKey (keep_record env group fs o)
  unfolding keep_record
  keep-HasKey fs o h = Returns-bind (measured_reachability env group fs) _ λ measured m.
      Returns-bind (calibrate_record env.denials (obj fs) measured) _
        λ (r, calibration) e. Returns-ok h

  settle-HasKey :
      (o : GroupOutcome) (response : Json) (errors : ResponseErrors)
      → HasKey o
      → Returns HasKey (settle env o response errors group)
  unfolding settle
  settle-HasKey o response errors h = elim (Bool-cases (blocks_the_record errors)) [
    | inl b ↦ rw (b, settle) (Returns-ok h)
    | inr b ↦
        rw (b, settle)
          (Returns-bind (as_dict response) _ λ fs p.
            keep-HasKey (settled_fields errors.objective fs) (count_objective errors.objective fs o)
              (count_objective-key errors.objective fs o ∙ h))
  ]

  retry-HasKey :
      (response : Json) (errors : ResponseErrors) (o : GroupOutcome) (prompt : String)
      → HasKey o
      → Returns HasKey (retry env group al response errors o prompt)
  unfolding retry
  retry-HasKey response errors o prompt h =
      Returns-bind (env.analyze group (some prompt)) _ λ again a.
        elim (Bool-cases (truthy again.llm_result.parsed_response)) [
          | inr e ↦
              rw (e, retry)
                (settle-HasKey
                  (unanswered
                    (error_text again.llm_result.error
                      "Empty or unparseable JSON response on retry")
                    (recalled again.llm_result o))
                  response errors h)
          | inl e ↦
              rw (e, retry)
                (Returns-bind
                  (validate_response env again.llm_result.parsed_response group again al) _
                  λ retry_errors v.
                    settle-HasKey (noted retry_errors (recalled again.llm_result o))
                      again.llm_result.parsed_response retry_errors
                      (noted-key retry_errors (recalled again.llm_result o) ∙ h))
        ]

  settle_first-HasKey :
      (first : GroupAnalysisResult) (errors : ResponseErrors) (o : GroupOutcome)
      → HasKey o
      → Returns HasKey (settle_first env group al first errors o)
  unfolding settle_first
  settle_first-HasKey first errors o h = elim (Bool-cases (has_any errors)) [
    | inr e ↦
        rw (e, settle_first)
          (Returns-bind (as_dict first.llm_result.parsed_response) _
            λ fs p. keep-HasKey fs (counted fs o) h)
    | inl e ↦
        elim (Bool-cases
          (not (blocks_the_record errors) || no_retries env.validation_max_retries)) [
            | inl stop ↦
                rw (e, settle_first, stop)
                  (settle-HasKey (observed errors o) first.llm_result.parsed_response errors h)
            | inr again ↦
                rw (e, settle_first, again)
                  (retry-HasKey first.llm_result.parsed_response errors (observed errors o)
                    (feedback_prompt env al first errors) h)
          ]
  ]

  -- The outcome of a group, where there is one, has the key of the group.
  pub analyze_one_group-HasKey :
      (o : GroupOutcome) → analyze_one_group env group al ≡ ok o → HasKey o
  unfolding analyze_one_group
  analyze_one_group-HasKey o h = bind-cases (env.analyze group none) _ h λ first a h1.
      elim (Bool-cases
        (says first.llm_result.error || not (truthy first.llm_result.parsed_response))) [
          | inl failed ↦
              sym (ap (λ (x : GroupOutcome). x.group_key) (ok-injective (rw failed at h1)))
          | inr answered ↦
              bind-cases (validate_response env first.llm_result.parsed_response group first al) _
                (rw answered at h1)
                λ errors v h2. (settle_first-HasKey first errors (started group first) refl).at o h2
        ]
