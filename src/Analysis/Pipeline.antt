-- ===== src/Analysis/Pipeline.antt =====
-- analysis/pipeline.py: the analysis of a group by the model, the checks on its response, the one
-- retry, and the record that is kept.
pub mod Group
pub mod Retry
pub mod Checked
pub mod Vetted
pub mod Counts
pub mod Keys
pub mod Malformed
use nguyen_dinh_b.Prelude.{
  ℕ, zero, suc, ◌+◌, ◌-◌, ◌*◌, ◌≤◌, ◌<◌, min, max, String, ◌≡◌, refl, sym, ap, ◌∙◌, ◌≢◌, ◌↔◌, ◌⊎◌,
  inl, inr, Bool, true, false, not, ◌&&◌, ◌||◌, false≢true, Option, none, some, List, [], ◌∷◌, ◌++◌,
  map, arith, ◌==◌, eq_iff, eq_refl, ltb, leb, eqb, if◌then◌else◌, leb→le, ltb→lt, Bool-cases,
  Option-cases, is_some, length, length-append, is_empty, All, Any, All-append, All-map, Any-map,
  Any-All, any, all, any-false, keep, find_first, find_first-some, find_first-none, codes, mem_str,
  mem_str-Any, Any-mem_str, has_code, has_prefix, ne_of_test, has_infix, is_blank, split_space,
  strip, rstrip, concat, repeat,
}
use nguyen_dinh_b.Prelude.Int.{ℤ}
use nguyen_dinh_b.Prelude.Order.{str_leb, sort}
use nguyen_dinh_b.Json.{Json, Fields}
use nguyen_dinh_b.Python.{Result}
use nguyen_dinh_b.Allowlist.{Allowlist, AllowlistRule}
use nguyen_dinh_b.Proposal.{Reason}
use nguyen_dinh_b.Prelude.Dict.{lookup}
use nguyen_dinh_b.Grouping.Build.{FindingGroup}
use nguyen_dinh_b.Analysis.OutputSafety.{UnsafePattern}

-- `LLMResult`, as far as the pipeline reads it. A response may be any JSON value.
pub record LlmResult : Type 0 where
  pub parsed_response : Json
  pub prompt_tokens : Option ℕ
  pub completion_tokens : Option ℕ
  pub total_tokens : Option ℕ
  pub error : Option String

pub record KnowledgeHit : Type 0 where
  pub path : String
  pub score : Json

-- `GroupAnalysisResult`: the answer of the model, and of the packet what the checks read.
pub record GroupAnalysisResult : Type 0 where
  pub knowledge_hits : List KnowledgeHit
  pub source_evidence : List Fields
  pub system_prompt : String
  pub prompt_sha256 : String
  pub llm_result : LlmResult

-- What the pipeline takes from elsewhere: `analyze` is `analyze_finding_group` with the model
-- behind it, for a group and the prompt that replaces its own; `schema_error` the message of
-- `jsonschema` on a value that the schema refuses; `unsafe` and `denials` the regular expressions;
-- `reason_text` the sentence of a reason, and `dumps` `json.dumps` of a payload kind.
pub record Environment : Type 0 where
  pub analyze : FindingGroup → Option String → Result GroupAnalysisResult
  pub schema_error : Json → Option String
  pub unsafe : List UnsafePattern
  pub denials : List (String → Bool)
  pub reason_text : Reason → String
  pub dumps : Option String → String
  pub validation_max_retries : ℤ

pub record ResponseErrors : Type 0 where
  pub schema : Option String
  pub provenance : List String
  pub unsafe : List String
  pub objective : Option String

-- `bool(text)` of a text or `None`
abbrev pub says : Option String → Bool
says none = false
says (some s) = not (s == "")

-- `_ResponseErrors.any`
abbrev pub has_any : ResponseErrors → Bool
has_any e =
    says e.schema || not (is_empty e.provenance) || not (is_empty e.unsafe) || says e.objective

abbrev pub blocks_the_record : ResponseErrors → Bool
blocks_the_record e = says e.schema || not (is_empty e.provenance) || not (is_empty e.unsafe)

-- `sep.join(parts)`
unfoldable pub join : String → List String → String
join sep [] = ""
join sep (s ∷ []) = s
join sep (s ∷ t ∷ ts) = concat (s ∷ sep ∷ join sep (t ∷ ts) ∷ [])

-- the text, after a prefix, if there is one
abbrev pub prefixed : String → Option String → List String
prefixed label none = []
prefixed label (some s) = if s == "" then [] else concat (label ∷ s ∷ []) ∷ []

-- `_ResponseErrors.as_reasons`
unfoldable pub as_reasons : ResponseErrors → List String
as_reasons e =
    prefixed "schema: " e.schema
    ++ (map (λ s. concat ("provenance: " ∷ s ∷ [])) e.provenance
        ++ (map (λ s. concat ("unsafe: " ∷ s ∷ [])) e.unsafe ++ prefixed "objective: " e.objective))

pub record GroupOutcome : Type 0 where
  pub kept_record : Option Json
  pub prompt_sha256 : String
  pub llm_call_count : ℕ
  pub retry_count : ℕ
  pub invalid_output_count : ℕ
  pub invalid_responses_observed : ℕ
  pub calibrated : Bool
  pub group_key : String
  pub unsafe_output_count : ℕ
  pub unsafe_responses_observed : ℕ
  pub invalid_objective_count : ℕ
  pub valid_objective_count : ℕ
  pub prompt_tokens : Option ℕ
  pub completion_tokens : Option ℕ
  pub total_tokens : Option ℕ
  pub validation_errors : List String

-- one round of `add_tokens`
abbrev pub plus : Option ℕ → Option ℕ → Option ℕ
plus current none = current
plus none (some n) = some n
plus (some m) (some n) = some (m + n)

abbrev pub add_tokens : LlmResult → GroupOutcome → GroupOutcome
add_tokens lr o = record o {
  prompt_tokens = plus o.prompt_tokens lr.prompt_tokens;
  completion_tokens = plus o.completion_tokens lr.completion_tokens;
  total_tokens = plus o.total_tokens lr.total_tokens;
}

-- `1 if test else 0`
abbrev pub one_if : Bool → ℕ
one_if true = 1
one_if false = 0

-- `rule.allowed_template_ids`, as the combinations of one rule
unfoldable pub combinations_of :
    (Option String → String) → Allowlist → AllowlistRule → List String → List String
combinations_of dumps al r [] = []
combinations_of dumps al r (id ∷ ids) =
    let more = combinations_of dumps al r ids in
    elim (lookup id al.templates) [
      | none ↦ more
      | some t ↦
          if t.method == r.method
          then concat (
              "{\"endpoint_hint\": \""
              ∷ r.method
              ∷ " "
              ∷ r.path
              ∷ "\", \"payload_kind\": "
              ∷ dumps t.payload_kind
              ∷ "}"
              ∷ [])
            ∷ more
          else more
    ]

unfoldable pub combinations :
    (Option String → String) → Allowlist → List AllowlistRule → List String
unfolding combinations_of
combinations dumps al [] = []
combinations dumps al (r ∷ rs) =
    combinations_of dumps al r r.allowed_template_ids ++ combinations dumps al rs

abbrev pub distinct_texts : List String → List String
distinct_texts [] = []
distinct_texts (s ∷ ss) = let rest = distinct_texts ss in if mem_str s rest then rest else s ∷ rest

-- `_allowed_endpoints_hint`
unfoldable pub allowed_endpoints_hint : (Option String → String) → Option Allowlist → String
unfolding combinations join
allowed_endpoints_hint dumps none = ""
allowed_endpoints_hint dumps (some al) =
    let found = combinations dumps al al.rules in
    if is_empty found
    then ""
    else concat (
        " Chỉ các tổ hợp sau được duyệt, dùng nguyên văn một trong số chúng "
        ∷ "hoặc đặt verification_objective = null: "
        ∷ join "; " (sort str_leb (distinct_texts found))
        ∷ [])
