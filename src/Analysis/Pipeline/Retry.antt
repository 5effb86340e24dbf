-- ===== src/Analysis/Pipeline/Retry.antt =====
-- analysis/pipeline.py: the analysis of one group, with the one retry.
use nguyen_dinh_b.Prelude.{
  ◌+◌, String, Bool, true, false, not, ◌||◌, Option, none, some, [], ◌∷◌, ◌++◌, ◌==◌, ltb,
  if◌then◌else◌, is_empty, concat,
}
use nguyen_dinh_b.Prelude.Int.{ℤ, pos, negsuc}
use nguyen_dinh_b.Json.{Fields, Json, get_null, truthy}
use nguyen_dinh_b.Python.{Result, ok, ◌>>=◌, PyText}
use nguyen_dinh_b.Allowlist.{Allowlist}
use nguyen_dinh_b.Grouping.Build.{FindingGroup}
use nguyen_dinh_b.Analysis.Provenance.{as_dict}
use nguyen_dinh_b.Analysis.Pipeline.{
  LlmResult, GroupAnalysisResult, Environment, ResponseErrors, says, has_any, blocks_the_record,
  as_reasons, GroupOutcome, add_tokens, one_if,
}
use nguyen_dinh_b.Analysis.Pipeline.Group.{
  feedback, validate_response, keep_record, is_null, settle,
}

-- `lr.error or default`
abbrev pub error_text : Option String → String → String
error_text none default = default
error_text (some s) default = if s == "" then default else s

-- The outcome after the first call, before its response is checked.
abbrev pub started : FindingGroup → GroupAnalysisResult → GroupOutcome
started group analysis = add_tokens analysis.llm_result (record {
  kept_record = none;
  prompt_sha256 = analysis.prompt_sha256;
  llm_call_count = 1;
  retry_count = 0;
  invalid_output_count = 0;
  invalid_responses_observed = 0;
  calibrated = false;
  group_key = group.group_key;
  unsafe_output_count = 0;
  unsafe_responses_observed = 0;
  invalid_objective_count = 0;
  valid_objective_count = 0;
  prompt_tokens = none;
  completion_tokens = none;
  total_tokens = none;
  validation_errors = [];
})

-- A response with errors, noted in the outcome.
abbrev pub observed : ResponseErrors → GroupOutcome → GroupOutcome
observed errors o = record o {
  invalid_responses_observed = o.invalid_responses_observed + 1;
  unsafe_responses_observed = o.unsafe_responses_observed + one_if (not (is_empty errors.unsafe));
  validation_errors = o.validation_errors ++ as_reasons errors;
}

-- A call that gave no response, noted in the outcome.
abbrev pub unanswered : String → GroupOutcome → GroupOutcome
unanswered message o = record o {
  invalid_responses_observed = o.invalid_responses_observed + 1;
  validation_errors = o.validation_errors ++ concat ("schema: " ∷ message ∷ []) ∷ [];
}

-- `config.validation_max_retries < 1`
abbrev pub no_retries : ℤ → Bool
no_retries (pos n) = ltb n 1
no_retries (negsuc n) = true

-- The outcome with a second call noted.
abbrev pub recalled : LlmResult → GroupOutcome → GroupOutcome
recalled rlr o =
    add_tokens rlr (record o { retry_count = 1; llm_call_count = o.llm_call_count + 1 })

-- The outcome with the errors of a second response noted, if it has any.
abbrev pub noted : ResponseErrors → GroupOutcome → GroupOutcome
noted errors o = if has_any errors then observed errors o else o

-- The outcome with the proposal of a response without errors counted, if it has one.
abbrev pub counted : Fields → GroupOutcome → GroupOutcome
counted fs o = record o {
  valid_objective_count = one_if (not (is_null (get_null "verification_objective" fs)));
}

module _ ⦃py : PyText⦄ (env : Environment) where
  abbrev pub feedback_prompt : Option Allowlist → GroupAnalysisResult → ResponseErrors → String
  feedback_prompt al analysis errors = concat (
      analysis.system_prompt
      ∷ "\n\n[System Note: Your previous output failed validation: "
      ∷ feedback env al errors
      ∷ ". Correct all schema/provenance errors and return valid JSON only.]"
      ∷ [])

  -- from `retry_res` on: `o` has the first response noted, `errors` are its errors
  unfoldable pub retry :
      FindingGroup
      → Option Allowlist
      → Json
      → ResponseErrors
      → GroupOutcome
      → String
      → Result GroupOutcome
  unfolding validate_response settle as_reasons
  retry group al response errors o prompt = do
    again ← env.analyze group (some prompt)
    let rlr = again.llm_result
    let o1 = recalled rlr o
    elim (truthy rlr.parsed_response) [
      | false ↦
          settle env
            (unanswered (error_text rlr.error "Empty or unparseable JSON response on retry") o1)
            response errors group
      | true ↦ do
        retry_errors ← validate_response env rlr.parsed_response group again al
        settle env (noted retry_errors o1) rlr.parsed_response retry_errors group
    ]

  -- the first response, with its errors
  unfoldable pub settle_first :
      FindingGroup
      → Option Allowlist
      → GroupAnalysisResult
      → ResponseErrors
      → GroupOutcome
      → Result GroupOutcome
  unfolding retry keep_record feedback as_dict
  settle_first group al analysis errors o =
      let response = analysis.llm_result.parsed_response in
      elim (has_any errors) [
        | false ↦ do fs ← as_dict response; keep_record env group fs (counted fs o)
        | true ↦ elim (not (blocks_the_record errors) || no_retries env.validation_max_retries) [
          | true ↦ settle env (observed errors o) response errors group
          | false ↦
              retry group al response errors (observed errors o)
                (feedback_prompt al analysis errors)
        ]
      ]

  -- `_analyze_one_group`
  unfoldable pub analyze_one_group : FindingGroup → Option Allowlist → Result GroupOutcome
  unfolding settle_first validate_response
  analyze_one_group group al = do
    analysis ← env.analyze group none
    let lr = analysis.llm_result
    let o = started group analysis
    elim (says lr.error || not (truthy lr.parsed_response)) [
      | true ↦
          ok (record (unanswered (error_text lr.error "Empty or unparseable JSON response") o) {
            invalid_output_count = 1;
          })
      | false ↦ do
        errors ← validate_response env lr.parsed_response group analysis al
        settle_first group al analysis errors o
    ]
