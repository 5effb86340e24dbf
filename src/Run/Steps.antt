-- ===== src/Run/Steps.antt =====
-- orchestrator/steps/propose.py: the choice of the objective, and the step that stops a run until the
-- operator has decided.
pub mod Chosen
use nguyen_dinh_b.Prelude.{
  ℕ, zero, suc, ◌+◌, ◌-◌, ◌*◌, ◌≤◌, ◌<◌, min, max, String, ◌≡◌, refl, sym, ap, ◌∙◌, ◌≢◌, ◌↔◌, ◌⊎◌,
  inl, inr, Bool, true, false, not, ◌&&◌, ◌||◌, false≢true, Option, none, some, List, [], ◌∷◌, ◌++◌,
  map, arith, ◌==◌, eq_iff, eq_refl, ltb, leb, eqb, if◌then◌else◌, leb→le, ltb→lt, Bool-cases,
  Option-cases, is_some, length, length-append, is_empty, All, Any, All-append, All-map, Any-map,
  Any-All, any, all, any-false, keep, find_first, find_first-some, find_first-none, codes, mem_str,
  mem_str-Any, Any-mem_str, has_code, has_prefix, ne_of_test, has_infix, is_blank, split_space,
  strip, concat, repeat,
}
use nguyen_dinh_b.Json.{Json, null, bool, str, obj, Fields, end, field, get, get_null, truthy}
use nguyen_dinh_b.Python.{
  value_error, PyText, Result, ok, err, raise_if, type_error, attribute_error, ◌>>=◌, ◌>>◌,
}
use nguyen_dinh_b.Allowlist.{Allowlist}
use nguyen_dinh_b.Probe.{SafeProbe}
use nguyen_dinh_b.Proposal.{ProposalDecision, validate_objective}
use nguyen_dinh_b.Approval.{Artifact, value, ApprovalRequest, build_request, requires_approval}
use nguyen_dinh_b.Verdict.{finding_ids}
use nguyen_dinh_b.Audit.{keys}
use nguyen_dinh_b.Run.{RunState, awaiting_approval}

-- An objective that a record of the analysis has, with the record's id and findings.
pub record Candidate : Type 0 where
  pub analysis_id : Json
  pub finding_ids : List String
  pub objective : Json

-- A candidate with the decision on it.
pub record Choice : Type 0 where
  pub analysis_id : Json
  pub finding_ids : List String
  pub objective : Json
  pub decision : ProposalDecision

-- `item[3].probe is not None and item[3].probe.payload_kind == "empty_value"`
abbrev pub is_mild : Choice → Bool
is_mild c = elim c.decision.probe [
  | none ↦ false
  | some probe ↦ elim probe.payload_kind [ str kind ↦ kind == "empty_value" | _ ↦ false ]
]

-- the first of the choices, or `default`
abbrev pub first_or : Choice → List Choice → Choice
first_or default [] = default
first_or default (c ∷ cs) = c

-- the choice that was found, or `default`
abbrev pub found_or : Choice → Option Choice → Choice
found_or default none = default
found_or default (some c) = c

-- the mild one among the accepted, or else the first of them
unfoldable pub pick : Choice → List Choice → Choice
pick default accepted = found_or (first_or default accepted) (find_first is_mild accepted)

module _ ⦃py : PyText⦄ where
  abbrev pub evaluate : Allowlist → Candidate → Choice
  evaluate al c = record {
    analysis_id = c.analysis_id;
    finding_ids = c.finding_ids;
    objective = c.objective;
    decision = validate_objective c.objective al;
  }

  -- the choice where there is no candidate
  abbrev pub no_candidate : Allowlist → Choice
  no_candidate al = record {
    analysis_id = null;
    finding_ids = [];
    objective = null;
    decision = validate_objective null al;
  }

  -- `_choose_objective`
  unfoldable pub choose_objective : List Candidate → Allowlist → Choice
  choose_objective candidates al =
      let evaluated = map (evaluate al) candidates in
      let accepted = keep (λ (c : Choice). c.decision.accepted) evaluated in
      if is_empty accepted
      then first_or (no_candidate al) evaluated
      else pick (no_candidate al) accepted

-- What `step_approval` comes to: no request to approve, a request that needs no approval, or a run
-- that waits, with the request that the operator is shown.
pub data Gate : Type 0 where
  nothing_to_send : Gate
  no_approval_needed : Gate
  waits : ApprovalRequest → Gate

abbrev pub probe_fields : List String
probe_fields = "method" ∷ "path" ∷ "payload_kind" ∷ []

-- a text among the arguments
unfoldable pub text_argument : String → Fields → Result String
text_argument k fs = elim (get k fs) [
  | some (str s) ↦ ok s
  | some _ ↦ err attribute_error
  | none ↦ err type_error
]

-- the arguments are just the three of `SafeProbe`
unfoldable pub check_arguments : Fields → Result (Unit {0})
check_arguments fs =
    raise_if
      (any (λ k. not (mem_str k probe_fields)) (keys fs)
        || any (λ k. not (is_some (get k fs))) probe_fields)
      type_error

-- `SafeProbe(**proposal["probe"])` for the sending. A method or a path that is no text is an exception
-- here already; the code meets it at the first use, for which `Run.Probing` asks `odd_route`.
unfoldable pub probe_of : Json → Result SafeProbe
probe_of (obj fs) = do
  check_arguments fs
  method ← text_argument "method" fs
  path ← text_argument "path" fs
  ok (record { method = method; path = path; payload_kind = get_null "payload_kind" fs })
probe_of _ = err type_error

-- a path as it is put into a text
abbrev pub path_text : ⦃py : PyText⦄ → Json → String
path_text (str s) = s
path_text ⦃py⦄ v = py.to_str v

-- `SafeProbe(**proposal["probe"])` for the approval, which uses the path in texts only and so takes any
-- value for it; a method that is no text is met at its `upper`.
unfoldable pub asked_probe : ⦃py : PyText⦄ → Json → Result SafeProbe
asked_probe ⦃py⦄ (obj fs) = do
  check_arguments fs
  method ← text_argument "method" fs
  ok (record {
    method = method;
    path = path_text (get_null "path" fs);
    payload_kind = get_null "payload_kind" fs;
  })
asked_probe _ = err type_error

-- `objective.get("description") or "Kiểm chứng finding"`, as the text that is shown
abbrev pub purpose_of : ⦃py : PyText⦄ → Json → String
purpose_of ⦃py⦄ (obj objective) =
    if truthy (get_null "description" objective)
    then py.to_str (get_null "description" objective)
    else "Kiểm chứng finding"
purpose_of _ = "Kiểm chứng finding"

module _ ⦃py : PyText⦄ where
  -- from the test of the need of an approval on
  unfoldable pub ask : String → (purpose : String) → SafeProbe → Result Gate
  ask run_id purpose probe =
      let asked = (do request ← build_request run_id probe purpose; ok (waits request)) in
      if requires_approval probe then asked else ok no_approval_needed

  -- `step_approval` on the proposal that was read; an exception is a failed step
  unfoldable pub step_approval : String → Fields → Result Gate
  step_approval run_id proposal =
      let asked = (do
        probe ← asked_probe (get_null "probe" proposal)
        ask run_id (purpose_of (get_null "objective" proposal)) probe) in
      if not (truthy (get_null "accepted" proposal)) || not (truthy (get_null "probe" proposal))
      then ok nothing_to_send
      else asked

-- the state after the step
unfoldable pub state_after : Gate → RunState → RunState
state_after (waits _) before = awaiting_approval
state_after _ before = before

-- the loop of `step_propose` over the lines of analysis.jsonl; `loads` is `json.loads`, with `none` for
-- a line that is no JSON. `value_error` is the failed step.
unfoldable pub read_candidates : (String → Option Json) → List String → Result (List Candidate)
read_candidates loads [] = ok []
read_candidates loads (line ∷ lines) =
    let rest = read_candidates loads lines in
    if is_blank (codes line) then rest else elim (loads line) [
      | some (obj entry) ↦
          if truthy (get_null "verification_objective" entry)
          then (rest >>= λ more. ok (
              record {
                analysis_id = get_null "analysis_id" entry;
                finding_ids = finding_ids entry;
                objective = get_null "verification_objective" entry;
              }
              ∷ more))
          else rest
      | _ ↦ err value_error
    ]

-- `_load_proposal`
unfoldable pub load_proposal : Artifact → Result Fields
load_proposal (value (obj proposal)) = ok proposal
load_proposal _ = err value_error

module _ ⦃py : PyText⦄ where
  -- the choice of `step_propose`, for the operator's own objective or for the candidates
  unfoldable pub propose : Option Json → List Candidate → Allowlist → Choice
  propose none candidates al = choose_objective candidates al
  propose (some objective) candidates al =
      evaluate al
        (record { analysis_id = str "operator-override"; finding_ids = []; objective = objective })
