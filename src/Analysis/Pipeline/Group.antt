-- ===== src/Analysis/Pipeline/Group.antt =====
-- analysis/pipeline.py: the analysis of one group.
use nguyen_dinh_b.Prelude.{
  String, Bool, true, false, not, ◌&&◌, ◌||◌, Option, none, some, List, [], ◌∷◌, ◌++◌, map, ◌==◌,
  if◌then◌else◌, is_empty, mem_str, concat,
}
use nguyen_dinh_b.Json.{Json, null, str, arr, obj, nil, Fields, end, field, get_null, put, truthy}
use nguyen_dinh_b.Python.{Result, ok, ◌>>=◌, PyText}
use nguyen_dinh_b.Allowlist.{Allowlist}
use nguyen_dinh_b.Proposal.{validate_objective}
use nguyen_dinh_b.Calibration.{calibrate_record}
use nguyen_dinh_b.Grouping.{NormalizedFinding}
use nguyen_dinh_b.Grouping.Build.{FindingGroup, location_fields, AnalysisLocation}
use nguyen_dinh_b.Analysis.OutputSafety.{scan_unsafe_output}
use nguyen_dinh_b.Analysis.Provenance.{
  Supplied, validate_provenance, iterate, hashed_all, as_dict, mem,
}
use nguyen_dinh_b.Analysis.Pipeline.{
  KnowledgeHit, GroupAnalysisResult, Environment, ResponseErrors, blocks_the_record, join,
  GroupOutcome, one_if, allowed_endpoints_hint,
}

abbrev pub hit_fields : KnowledgeHit → Fields
hit_fields h = field "path" (str h.path) (field "score" h.score end)

abbrev pub hit_path : KnowledgeHit → String
hit_path h = h.path

-- the end of `_extract_measured_reachability`
unfoldable pub judge : List String → Option String
judge strengths =
    if mem_str "reachable" strengths || mem_str "reachable_and_alerted" strengths
    then some "proven"
    else if mem_str "route_known_not_reached" strengths
    then some "not_proven"
    else none

-- what `_settle` does with the proposed request
abbrev pub settled_fields : Option String → Fields → Fields
settled_fields none fs = fs
settled_fields (some _) fs = put "verification_objective" null fs

abbrev pub is_null : Json → Bool
is_null null = true
is_null _ = false

abbrev pub count_objective : Option String → Fields → GroupOutcome → GroupOutcome
count_objective (some _) fs o = record o { invalid_objective_count = 1 }
count_objective none fs o =
    if is_null (get_null "verification_objective" fs)
    then o
    else record o { valid_objective_count = 1 }

-- the arguments of `validate_provenance`
abbrev pub supplied : FindingGroup → GroupAnalysisResult → Supplied
supplied group analysis = record {
  finding_ids = group.source_finding_ids;
  locations = map (λ (l : AnalysisLocation). obj (location_fields l)) group.locations;
  knowledge_paths = map hit_path analysis.knowledge_hits;
  cwes = group.cwe;
  owasps = group.owasp;
  source_evidence = analysis.source_evidence;
  group_key = some group.group_key;
  knowledge_hits = map hit_fields analysis.knowledge_hits;
}

module _ ⦃py : PyText⦄ (env : Environment) where
  -- `_ResponseErrors.feedback`
  unfoldable pub feedback : Option Allowlist → ResponseErrors → String
  unfolding join allowed_endpoints_hint
  feedback al e =
      let given : List String = elim e.schema [
        | none ↦ []
        | some s ↦ if s == "" then [] else s ∷ []
      ] in
      let packet = if is_empty e.provenance then [] else join "; " e.provenance ∷ [] in
      let unsafe =
        if is_empty e.unsafe
        then []
        else concat ("Output chứa nội dung không an toàn: " ∷ join "; " e.unsafe ∷ []) ∷ [] in
      let objective : List String = elim e.objective [
        | none ↦ []
        | some s ↦
            if s == "" then [] else concat (s ∷ allowed_endpoints_hint env.dumps al ∷ []) ∷ []
      ] in
      join "; " (given ++ (packet ++ (unsafe ++ objective)))

  abbrev pub refused : Option Allowlist → Json → Option String
  refused none objective = none
  refused (some al) objective =
      let decision = validate_objective objective al in
      if decision.accepted
      then none
      else some (
          concat (
            "verification_objective bị allowlist từ chối: " ∷ env.reason_text decision.reason ∷ []))

  unfoldable pub objective_error_of : Json → Option Allowlist → Option String
  objective_error_of null al = none
  objective_error_of objective al = refused al objective

  -- `_objective_error`
  abbrev pub objective_error : Fields → Option Allowlist → Option String
  objective_error fs al = objective_error_of (get_null "verification_objective" fs) al

  -- `_validate_response`, of which the second check asks for a `dict`
  unfoldable pub validate_response :
      Json → FindingGroup → GroupAnalysisResult → Option Allowlist → Result ResponseErrors
  unfolding validate_provenance as_dict scan_unsafe_output objective_error_of
  validate_response response group analysis al = do
    fs ← as_dict response
    (valid, errors) ← validate_provenance fs (supplied group analysis)
    ok (record {
      schema = env.schema_error response;
      provenance = if valid then [] else errors;
      unsafe = scan_unsafe_output env.unsafe response;
      objective = objective_error fs al;
    })

  -- `re_block.get("strength")` of a finding among those that the record names
  abbrev pub strength_of : List Json → NormalizedFinding → List String
  strength_of ids f =
      if not (f.id == "") && mem (str f.id) ids
      then elim f.runtime_evidence [
        | some (obj block) ↦
            let strength = get_null "strength" block in
            if truthy strength then py.to_str strength ∷ [] else []
        | _ ↦ []
      ]
      else []

  abbrev pub strengths_of : List Json → List NormalizedFinding → List String
  strengths_of ids [] = []
  strengths_of ids (f ∷ fs) = strength_of ids f ++ strengths_of ids fs

  -- `_extract_measured_reachability`
  unfoldable pub measured_reachability : FindingGroup → Fields → Result (Option String)
  unfolding iterate hashed_all judge
  measured_reachability group fs = do
    let given = get_null "source_finding_ids" fs
    listed ← iterate (if truthy given then given else arr nil)
    ids ← hashed_all listed
    ok (if is_empty ids then none else judge (strengths_of ids group.findings))

  -- the record that is kept, calibrated
  unfoldable pub keep_record : FindingGroup → Fields → GroupOutcome → Result GroupOutcome
  unfolding measured_reachability calibrate_record
  keep_record group fs o = do
    measured ← measured_reachability group fs
    (kept, calibration) ← calibrate_record env.denials (obj fs) measured
    ok (record o { kept_record = some kept; calibrated = not (is_empty calibration.rules) })

  -- `_settle`
  unfoldable pub settle : GroupOutcome → Json → ResponseErrors → FindingGroup → Result GroupOutcome
  unfolding keep_record as_dict
  settle o response errors group = elim (blocks_the_record errors) [
    | true ↦ ok (record o {
      invalid_output_count = 1;
      unsafe_output_count = one_if (not (is_empty errors.unsafe));
    })
    | false ↦ do
      fs ← as_dict response
      keep_record group (settled_fields errors.objective fs) (count_objective errors.objective fs o)
  ]
