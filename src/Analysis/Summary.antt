-- ===== src/Analysis/Summary.antt =====
-- analysis/pipeline.py: `run_pipeline`, the records of all groups and the summary of the run. The two
-- files that it writes are its result. `patterns` are those of the redaction, `normalize_reason` is
-- `_normalize_reason`; the two fields that tell the time and the model, and the rounding of the rate
-- of valid proposals, are left out.
pub mod Tally
pub mod Accounted
pub mod Complete
use nguyen_dinh_b.Prelude.{
  ℕ, zero, suc, ◌+◌, ◌-◌, ◌*◌, ◌≤◌, ◌<◌, min, max, String, ◌≡◌, refl, sym, ap, ◌∙◌, ◌≢◌, ◌↔◌, ◌⊎◌,
  inl, inr, Bool, true, false, not, ◌&&◌, ◌||◌, false≢true, Option, none, some, List, [], ◌∷◌, ◌++◌,
  map, arith, ◌==◌, eq_iff, eq_refl, ltb, leb, eqb, if◌then◌else◌, leb→le, ltb→lt, Bool-cases,
  Option-cases, is_some, length, length-append, is_empty, All, Any, All-append, All-map, Any-map,
  Any-All, any, all, any-false, keep, find_first, find_first-some, find_first-none, codes, mem_str,
  mem_str-Any, Any-mem_str, has_code, has_prefix, ne_of_test, has_infix, is_blank, split_space,
  strip, rstrip, concat, repeat,
}
use nguyen_dinh_b.Prelude.Int.{ℤ, pos}
use nguyen_dinh_b.Prelude.Dict.{insert}
use nguyen_dinh_b.Json.{Json, int, str, arr, obj, Items, nil, cons, Fields, end, field}
use nguyen_dinh_b.Python.{Result, ok, ◌>>=◌, PyText}
use nguyen_dinh_b.Redaction.{Pattern, total, redact_structure}
use nguyen_dinh_b.Allowlist.{Allowlist}
use nguyen_dinh_b.Grouping.{NormalizedFinding}
use nguyen_dinh_b.Grouping.Build.{FindingGroup, group_findings, text_items}
use nguyen_dinh_b.Analysis.Pipeline.{Environment, GroupOutcome, plus, one_if}
use nguyen_dinh_b.Analysis.Pipeline.Retry.{analyze_one_group}

-- The variables of the loop over the outcomes.
pub record Totals : Type 0 where
  pub records : List Json
  pub llm_call_count : ℕ
  pub retry_count : ℕ
  pub invalid_output_count : ℕ
  pub invalid_responses_observed : ℕ
  pub invalid_reasons : List (String × ℕ)
  pub unresolved_group_reasons : List (String × List String)
  pub calibrated_record_count : ℕ
  pub unsafe_output_count : ℕ
  pub unsafe_responses_observed : ℕ
  pub invalid_objective_count : ℕ
  pub valid_objective_count : ℕ
  pub missing_group_keys : List String
  pub total_prompt_tokens : Option ℕ
  pub total_completion_tokens : Option ℕ
  pub total_llm_tokens : Option ℕ
  pub last_prompt_sha256 : String

abbrev pub no_totals : Totals
no_totals = record {
  records = [];
  llm_call_count = 0;
  retry_count = 0;
  invalid_output_count = 0;
  invalid_responses_observed = 0;
  invalid_reasons = [];
  unresolved_group_reasons = [];
  calibrated_record_count = 0;
  unsafe_output_count = 0;
  unsafe_responses_observed = 0;
  invalid_objective_count = 0;
  valid_objective_count = 0;
  missing_group_keys = [];
  total_prompt_tokens = none;
  total_completion_tokens = none;
  total_llm_tokens = none;
  last_prompt_sha256 = "";
}

-- the loop over `outcome.validation_errors`
unfoldable pub count_reasons :
    (String → String) → List String → List (String × ℕ) → List (String × ℕ)
count_reasons normalize_reason [] reasons = reasons
count_reasons normalize_reason (e ∷ es) reasons =
    let norm = normalize_reason e in
    count_reasons normalize_reason es (insert norm (total norm reasons + 1) reasons)

-- `outcome.group_key or "(khong ro group_key)"`
abbrev pub key_of_outcome : GroupOutcome → String
key_of_outcome o = if o.group_key == "" then "(khong ro group_key)" else o.group_key

-- the end of a round: the record, or the key of a group without one
abbrev pub add_record : GroupOutcome → Option Json → Totals → Totals
add_record o (some r) t = record t { records = t.records ++ r ∷ [] }
add_record o none t = record t {
  missing_group_keys = t.missing_group_keys ++ key_of_outcome o ∷ [];
  unresolved_group_reasons =
      if is_empty o.validation_errors
      then t.unresolved_group_reasons
      else insert (key_of_outcome o) o.validation_errors t.unresolved_group_reasons;
}

-- one round of the loop
unfoldable pub add_outcome : (String → String) → GroupOutcome → Totals → Totals
unfolding count_reasons
add_outcome normalize_reason o t = add_record o o.kept_record (record t {
  llm_call_count = t.llm_call_count + o.llm_call_count;
  retry_count = t.retry_count + o.retry_count;
  invalid_output_count = t.invalid_output_count + o.invalid_output_count;
  invalid_responses_observed = t.invalid_responses_observed + o.invalid_responses_observed;
  calibrated_record_count = t.calibrated_record_count + one_if o.calibrated;
  unsafe_output_count = t.unsafe_output_count + o.unsafe_output_count;
  unsafe_responses_observed = t.unsafe_responses_observed + o.unsafe_responses_observed;
  invalid_objective_count = t.invalid_objective_count + o.invalid_objective_count;
  valid_objective_count = t.valid_objective_count + o.valid_objective_count;
  last_prompt_sha256 = o.prompt_sha256;
  invalid_reasons = count_reasons normalize_reason o.validation_errors t.invalid_reasons;
  total_prompt_tokens = plus t.total_prompt_tokens o.prompt_tokens;
  total_completion_tokens = plus t.total_completion_tokens o.completion_tokens;
  total_llm_tokens = plus t.total_llm_tokens o.total_tokens;
})

unfoldable pub add_outcomes : (String → String) → List GroupOutcome → Totals → Totals
unfolding add_outcome
add_outcomes normalize_reason [] t = t
add_outcomes normalize_reason (o ∷ os) t =
    add_outcomes normalize_reason os (add_outcome normalize_reason o t)

-- `analysis-summary.json`
pub record RunSummary : Type 0 where
  pub completeness : String
  pub input_finding_count : ℕ
  pub group_count : ℕ
  pub output_record_count : ℕ
  pub missing_group_keys : List String
  pub llm_call_count : ℕ
  pub retry_count : ℕ
  pub invalid_output_count : ℕ
  pub unresolved_groups : ℕ
  pub invalid_responses_observed : ℕ
  pub invalid_reasons : Json
  pub unresolved_group_reasons : Json
  pub calibrated_record_count : ℕ
  pub unsafe_output_count : ℕ
  pub unsafe_responses_observed : ℕ
  pub invalid_objective_count : ℕ
  pub valid_objective_count : ℕ
  pub allowlist_loaded : Bool
  pub degraded_reasons : List String
  pub prompt_tokens : Option ℕ
  pub completion_tokens : Option ℕ
  pub total_tokens : Option ℕ
  pub prompt_sha256 : String

abbrev count_fields : List (String × ℕ) → Fields
count_fields [] = end
count_fields ((k, n) ∷ rest) = field k (int (pos n)) (count_fields rest)

abbrev reason_fields : List (String × List String) → Fields
reason_fields [] = end
reason_fields ((k, rs) ∷ rest) = field k (arr (text_items rs)) (reason_fields rest)

abbrev pub reasons_given : Option String → List String
reasons_given none = []
reasons_given (some problem) = problem ∷ []

unfoldable pub summarize :
    List Pattern → ℕ → ℕ → Option Allowlist → Option String → Totals → RunSummary
summarize patterns input_finding_count group_count al problem t = record {
  completeness =
      if is_empty t.missing_group_keys && is_empty (reasons_given problem)
      then "COMPLETE"
      else "PARTIAL";
  input_finding_count = input_finding_count;
  group_count = group_count;
  output_record_count = length t.records;
  missing_group_keys = t.missing_group_keys;
  llm_call_count = t.llm_call_count;
  retry_count = t.retry_count;
  invalid_output_count = t.invalid_output_count;
  unresolved_groups = t.invalid_output_count;
  invalid_responses_observed = t.invalid_responses_observed;
  invalid_reasons = (redact_structure patterns (obj (count_fields t.invalid_reasons))).0;
  unresolved_group_reasons =
      (redact_structure patterns (obj (reason_fields t.unresolved_group_reasons))).0;
  calibrated_record_count = t.calibrated_record_count;
  unsafe_output_count = t.unsafe_output_count;
  unsafe_responses_observed = t.unsafe_responses_observed;
  invalid_objective_count = t.invalid_objective_count;
  valid_objective_count = t.valid_objective_count;
  allowlist_loaded = is_some al;
  degraded_reasons = reasons_given problem;
  prompt_tokens = t.total_prompt_tokens;
  completion_tokens = t.total_completion_tokens;
  total_tokens = t.total_llm_tokens;
  prompt_sha256 = t.last_prompt_sha256;
}

module _ ⦃py : PyText⦄ (env : Environment) where
  -- `_analyze_groups`: the outcomes in the order of the groups, whatever the number of threads
  unfoldable pub analyze_groups : List FindingGroup → Option Allowlist → Result (List GroupOutcome)
  unfolding analyze_one_group
  analyze_groups [] al = ok []
  analyze_groups (g ∷ gs) al = do
    o ← analyze_one_group env g al
    rest ← analyze_groups gs al
    ok (o ∷ rest)

  -- `run_pipeline` on the findings that were loaded; `al` and `problem` are `_load_allowlist`. For no
  -- groups the code has the same summary written out.
  unfoldable pub run_pipeline :
      (lower md5 normalize_reason : String → String)
      → List Pattern
      → ℤ
      → List NormalizedFinding
      → Option Allowlist
      → Option String
      → Result (List Json × RunSummary)
  unfolding analyze_groups group_findings summarize add_outcomes
  run_pipeline lower md5 normalize_reason patterns threshold findings al problem = do
    let groups = group_findings lower md5 threshold findings
    outcomes ← analyze_groups groups al
    let t = add_outcomes normalize_reason outcomes no_totals
    ok (t.records, summarize patterns (length findings) (length groups) al problem t)
