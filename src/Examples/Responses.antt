-- ===== src/Examples/Responses.antt =====
-- The theorems on the responses of the model and on the pipeline around them.
use nguyen_dinh_b.Prelude.{
  ℕ, zero, suc, ◌+◌, ◌-◌, ◌*◌, ◌≤◌, ◌<◌, min, max, String, ◌≡◌, refl, sym, ap, ◌∙◌, ◌≢◌, ◌↔◌, ◌⊎◌,
  inl, inr, Bool, true, false, not, ◌&&◌, ◌||◌, false≢true, Option, none, some, List, [], ◌∷◌, ◌++◌,
  map, arith, ◌==◌, eq_iff, eq_refl, ltb, leb, eqb, if◌then◌else◌, leb→le, ltb→lt, Bool-cases,
  Option-cases, is_some, length, length-append, is_empty, All, Any, All-append, All-map, Any-map,
  Any-All, any, all, any-false, keep, find_first, find_first-some, find_first-none, codes, mem_str,
  mem_str-Any, Any-mem_str, has_code, has_prefix, ne_of_test, has_infix, is_blank, split_space,
  strip, rstrip, concat, repeat,
}
use mathlib.Core.Path.{subst}
use nguyen_dinh_b.Prelude.Int.{pos}
use nguyen_dinh_b.Prelude.Order.{In}
use nguyen_dinh_b.Json.{
  Json, null, bool, int, str, arr, obj, Items, nil, cons, Fields, end, field, get, get_or, get_null,
  put, truthy,
}
use nguyen_dinh_b.Python.{Exc, Result, ok, err, ok-injective}
use nguyen_dinh_b.Grouping.{NormalizedFinding}
use nguyen_dinh_b.Grouping.Build.{FindingGroup, group_findings}
use nguyen_dinh_b.Analysis.OutputSafety.{UnsafePattern, agent_authored_fields, scan_unsafe_output}
use nguyen_dinh_b.Analysis.OutputSafety.Clean.{CleanAt, CleanObjective, scan_unsafe_output_iff}
use nguyen_dinh_b.Analysis.Provenance.{Supplied, iterate, validate_provenance}
use nguyen_dinh_b.Analysis.Provenance.Evidence.{HasPaths}
use nguyen_dinh_b.Analysis.Provenance.Faithful.{IsFaithful, validate_provenance-IsFaithful}
use nguyen_dinh_b.Analysis.Pipeline.{GroupAnalysisResult, Environment, GroupOutcome}
use nguyen_dinh_b.Analysis.Pipeline.Group.{validate_response}
use nguyen_dinh_b.Analysis.Pipeline.Retry.{started, analyze_one_group}
use nguyen_dinh_b.Analysis.Pipeline.Checked.{IsVetted}
use nguyen_dinh_b.Analysis.Pipeline.Vetted.{analyze_one_group-IsVetted}
use nguyen_dinh_b.Analysis.Pipeline.Counts.{IsCounted, analyze_one_group-IsCounted}
use nguyen_dinh_b.Analysis.Pipeline.Malformed.{analyze_one_group-raises}
use nguyen_dinh_b.Analysis.Summary.{no_totals, RunSummary, summarize, run_pipeline}
use nguyen_dinh_b.Analysis.Summary.Accounted.{IsAccounted}
use nguyen_dinh_b.Analysis.Summary.Complete.{
  IsComplete, run_pipeline-IsComplete, IsFromGroup, run_pipeline-IsFromGroup,
}
use nguyen_dinh_b.Examples.{plain_text, two_endpoints, objective}
use nguyen_dinh_b.Examples.Groups.{same, finding_at}

-- a pattern for "DROP TABLE"
abbrev drop_table : UnsafePattern
drop_table = record {
  kind = "destructive_sql";
  search = λ s. if has_infix (codes "DROP TABLE") (codes s) then some "DROP TABLE" else none;
}

abbrev quote_of : String → Fields
quote_of content = field "type" (str "source") (
    field "path" (str "A.java") (
      field "start_line" (str "1")
        (field "end_line" (str "9") (field "content" (str content) end))))

-- a response about the finding "f1", with a proposal that the inventory covers
abbrev good_response : Fields
good_response = field "source_finding_ids" (arr (cons (str "f1") nil)) (
    field "group_key" (str "group-f1") (
      field "cwe" (arr (cons (str "CWE-89") nil)) (
        field "evidence"
          (arr (cons (obj (quote_of "<untrusted_app_response>x </untrusted_app_response>")) nil))
          (field "explanation" (str "the query is built from text") (
            field "disposition" (str "likely")
              (field "severity" (str "high") (field "verification_objective" objective end)))))))

scan_unsafe_output_iff_example : (scan_unsafe_output (drop_table ∷ []) (obj good_response) ≡ []) ↔ (
    CleanAt (drop_table ∷ []) agent_authored_fields good_response
    × CleanObjective (drop_table ∷ []) (get_null "verification_objective" good_response))
scan_unsafe_output_iff_example = scan_unsafe_output_iff (drop_table ∷ []) good_response

abbrev packet : Supplied
packet = record {
  finding_ids = "f1" ∷ [];
  locations = [];
  knowledge_paths = [];
  cwes = "CWE-89" ∷ [];
  owasps = [];
  source_evidence = quote_of "x" ∷ [];
  group_key = some "group-f1";
  knowledge_hits = [];
}

validate_provenance-IsFaithful_example : IsFaithful good_response packet
unfolding get get_or truthy keep strip validate_provenance nguyen_dinh_b.Python.◌>>=◌
    nguyen_dinh_b.Python.◌>>◌ nguyen_dinh_b.Python.raise_if nguyen_dinh_b.Prelude.Order.sort
    nguyen_dinh_b.Prelude.Lines.join_lines nguyen_dinh_b.Prelude.Lines.lines_after
    nguyen_dinh_b.Prelude.Lines.remove_from
validate_provenance-IsFaithful_example =
    validate_provenance-IsFaithful good_response packet [] ((λ _. ("A.java", refl)), tt) refl

abbrev answer : Json → GroupAnalysisResult
answer response = record {
  knowledge_hits = [];
  source_evidence = quote_of "x" ∷ [];
  system_prompt = "";
  prompt_sha256 = "";
  llm_result = record {
    parsed_response = response;
    prompt_tokens = some 3;
    completion_tokens = none;
    total_tokens = none;
    error = none;
  };
}

-- the same, with no source quoted
abbrev plain_response : Fields
plain_response = field "source_finding_ids" (arr (cons (str "f1") nil)) (
    field "group_key" (str "group-f1") (
      field "explanation" (str "text") (
        field "disposition" (str "likely")
          (field "severity" (str "high") (field "verification_objective" objective end)))))

-- A model that answers badly first, and well when it is asked again.
abbrev second_time : Option String → Json
second_time none = obj (put "group_key" (str "other") plain_response)
second_time (some _) = obj plain_response

abbrev model : (Option String → Json) → Environment
model response = record {
  analyze = λ group prompt. ok (answer (response prompt));
  schema_error = λ v. none;
  unsafe = drop_table ∷ [];
  denials = [];
  reason_text = λ reason. "";
  dumps = λ kind. "";
  validation_max_retries = pos 1;
}

abbrev one_group : FindingGroup
one_group = record {
  group_key = "group-f1";
  rule_id = "sqli";
  title = "SQL";
  severity = "high";
  cwe = "CWE-89" ∷ [];
  owasp = [];
  source_finding_ids = "f1" ∷ [];
  locations = [];
  scanner_severities = "high" ∷ [];
  findings = finding_at "f1" "high" 10 ∷ [];
}

abbrev value_of : {A : Type 0} → Result A → A → A
value_of (ok a) default = a
value_of (err e) default = default

paths_of :
    (prompt : Option String) (a : GroupAnalysisResult)
    → answer (second_time prompt) ≡ a
    → HasPaths a.source_evidence
unfolding get get_or
paths_of prompt a h = subst (λ x. HasPaths x.source_evidence) h ((λ _. ("A.java", refl)), tt)

abbrev no_outcome : GroupOutcome
no_outcome = started one_group (answer null)

abbrev good_outcome : GroupOutcome
good_outcome =
    value_of (analyze_one_group (model second_time) one_group (some two_endpoints)) no_outcome

abbrev kept_of : Option Json → Json
kept_of none = null
kept_of (some r) = r

analyze_one_group-IsVetted_example :
    IsVetted (model second_time) (some two_endpoints) one_group (kept_of good_outcome.kept_record)
unfolding analyze_one_group nguyen_dinh_b.Python.◌>>=◌ nguyen_dinh_b.Python.◌>>◌
    nguyen_dinh_b.Python.raise_if nguyen_dinh_b.Prelude.Order.sort
    nguyen_dinh_b.Prelude.Lines.join_lines nguyen_dinh_b.Prelude.Lines.lines_after
    nguyen_dinh_b.Prelude.Lines.remove_from nguyen_dinh_b.Proposal.validate_objective
    nguyen_dinh_b.Proposal.check_kind nguyen_dinh_b.Proposal.check_hint
    nguyen_dinh_b.Proposal.check_parts nguyen_dinh_b.Proposal.check_route
    nguyen_dinh_b.Allowlist.resolve_in nguyen_dinh_b.Allowlist.pick_template
    nguyen_dinh_b.Probe.payload_type nguyen_dinh_b.Prelude.Dict.lookup
    nguyen_dinh_b.Allowlist.is_allowed nguyen_dinh_b.Allowlist.resolve_template keep truthy get
    get_or put split_space has_code has_prefix has_infix mem_str strip nguyen_dinh_b.Json.remove
    nguyen_dinh_b.Calibration.is_measured nguyen_dinh_b.Calibration.put_if
    nguyen_dinh_b.Calibration.calibrate_fields nguyen_dinh_b.Calibration.conclude
analyze_one_group-IsVetted_example =
    analyze_one_group-IsVetted (model second_time) (some two_endpoints) one_group good_outcome
      (kept_of good_outcome.kept_record) (λ prompt a h. paths_of prompt a (ok-injective h)) refl
      refl

analyze_one_group-IsCounted_example : IsCounted good_outcome
unfolding analyze_one_group nguyen_dinh_b.Python.◌>>=◌ nguyen_dinh_b.Python.◌>>◌
    nguyen_dinh_b.Python.raise_if nguyen_dinh_b.Prelude.Order.sort
    nguyen_dinh_b.Prelude.Lines.join_lines nguyen_dinh_b.Prelude.Lines.lines_after
    nguyen_dinh_b.Prelude.Lines.remove_from nguyen_dinh_b.Proposal.validate_objective
    nguyen_dinh_b.Proposal.check_kind nguyen_dinh_b.Proposal.check_hint
    nguyen_dinh_b.Proposal.check_parts nguyen_dinh_b.Proposal.check_route
    nguyen_dinh_b.Allowlist.resolve_in nguyen_dinh_b.Allowlist.pick_template
    nguyen_dinh_b.Probe.payload_type nguyen_dinh_b.Prelude.Dict.lookup
    nguyen_dinh_b.Allowlist.is_allowed nguyen_dinh_b.Allowlist.resolve_template keep truthy get
    get_or put split_space has_code has_prefix has_infix mem_str strip nguyen_dinh_b.Json.remove
    nguyen_dinh_b.Calibration.is_measured nguyen_dinh_b.Calibration.put_if
    nguyen_dinh_b.Calibration.calibrate_fields nguyen_dinh_b.Calibration.conclude
analyze_one_group-IsCounted_example =
    analyze_one_group-IsCounted (model second_time) (some two_endpoints) one_group good_outcome refl

-- a response that the schema of the repository refuses, since a reference is a text
abbrev bad_response : Json
bad_response = obj (field "knowledge_refs" (arr (cons (str "owasp.md") nil)) good_response)

analyze_one_group-raises_example :
    (e : Exc) × (validate_response
        (model (λ prompt. bad_response))
        bad_response
        one_group
        (answer bad_response)
        (some two_endpoints)
      ≡ err e)
    × (analyze_one_group (model (λ prompt. bad_response)) one_group (some two_endpoints) ≡ err e)
unfolding iterate get get_or truthy
analyze_one_group-raises_example =
    analyze_one_group-raises (model (λ prompt. bad_response)) (some two_endpoints) one_group
      (answer bad_response) refl refl refl (inr (_, str "owasp.md" ∷ [], refl, refl, inl refl))

abbrev findings : List NormalizedFinding
findings = finding_at "f1" "high" 10 ∷ []

abbrev no_summary : List Json × RunSummary
no_summary = ([], summarize [] 0 0 none none no_totals)

abbrev whole_run : List Json × RunSummary
whole_run =
    value_of
      (run_pipeline (model second_time) same same same [] (pos 5) findings (some two_endpoints)
        none)
      no_summary

run_pipeline-IsComplete_example :
    IsComplete whole_run.0 whole_run.1
    × IsAccounted
        (model second_time)
        (some two_endpoints)
        (group_findings same same (pos 5) findings)
        whole_run.0
        whole_run.1.missing_group_keys
unfolding run_pipeline nguyen_dinh_b.Python.◌>>=◌ nguyen_dinh_b.Python.◌>>◌
    nguyen_dinh_b.Python.raise_if nguyen_dinh_b.Prelude.Order.sort
    nguyen_dinh_b.Prelude.Lines.join_lines nguyen_dinh_b.Prelude.Lines.lines_after
    nguyen_dinh_b.Prelude.Lines.remove_from nguyen_dinh_b.Proposal.validate_objective
    nguyen_dinh_b.Proposal.check_kind nguyen_dinh_b.Proposal.check_hint
    nguyen_dinh_b.Proposal.check_parts nguyen_dinh_b.Proposal.check_route
    nguyen_dinh_b.Allowlist.resolve_in nguyen_dinh_b.Allowlist.pick_template
    nguyen_dinh_b.Probe.payload_type nguyen_dinh_b.Prelude.Dict.lookup
    nguyen_dinh_b.Allowlist.is_allowed nguyen_dinh_b.Allowlist.resolve_template keep truthy get
    get_or put split_space has_code has_prefix has_infix mem_str strip nguyen_dinh_b.Json.remove
    nguyen_dinh_b.Calibration.is_measured nguyen_dinh_b.Calibration.put_if
    nguyen_dinh_b.Calibration.calibrate_fields nguyen_dinh_b.Calibration.conclude
    nguyen_dinh_b.Grouping.merge_near nguyen_dinh_b.Grouping.fill nguyen_dinh_b.Grouping.one_pass
    nguyen_dinh_b.Grouping.absorb nguyen_dinh_b.Grouping.Build.distinct
    nguyen_dinh_b.Grouping.Build.dedupe
run_pipeline-IsComplete_example =
    run_pipeline-IsComplete (model second_time) (some two_endpoints) same same same [] (pos 5)
      findings none whole_run.0 whole_run.1 refl

run_pipeline-IsFromGroup_example :
    All
      (IsFromGroup
        (model second_time)
        (some two_endpoints)
        (group_findings same same (pos 5) findings))
      whole_run.0
unfolding run_pipeline nguyen_dinh_b.Python.◌>>=◌ nguyen_dinh_b.Python.◌>>◌
    nguyen_dinh_b.Python.raise_if nguyen_dinh_b.Prelude.Order.sort
    nguyen_dinh_b.Prelude.Lines.join_lines nguyen_dinh_b.Prelude.Lines.lines_after
    nguyen_dinh_b.Prelude.Lines.remove_from nguyen_dinh_b.Proposal.validate_objective
    nguyen_dinh_b.Proposal.check_kind nguyen_dinh_b.Proposal.check_hint
    nguyen_dinh_b.Proposal.check_parts nguyen_dinh_b.Proposal.check_route
    nguyen_dinh_b.Allowlist.resolve_in nguyen_dinh_b.Allowlist.pick_template
    nguyen_dinh_b.Probe.payload_type nguyen_dinh_b.Prelude.Dict.lookup
    nguyen_dinh_b.Allowlist.is_allowed nguyen_dinh_b.Allowlist.resolve_template keep truthy get
    get_or put split_space has_code has_prefix has_infix mem_str strip nguyen_dinh_b.Json.remove
    nguyen_dinh_b.Calibration.is_measured nguyen_dinh_b.Calibration.put_if
    nguyen_dinh_b.Calibration.calibrate_fields nguyen_dinh_b.Calibration.conclude
    nguyen_dinh_b.Grouping.merge_near nguyen_dinh_b.Grouping.fill nguyen_dinh_b.Grouping.one_pass
    nguyen_dinh_b.Grouping.absorb nguyen_dinh_b.Grouping.Build.distinct
    nguyen_dinh_b.Grouping.Build.dedupe
run_pipeline-IsFromGroup_example =
    run_pipeline-IsFromGroup (model second_time) (some two_endpoints) same same same [] (pos 5)
      findings none whole_run.0 whole_run.1 (λ g prompt a h. paths_of prompt a (ok-injective h))
      refl
