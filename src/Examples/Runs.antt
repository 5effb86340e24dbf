-- ===== src/Examples/Runs.antt =====
-- The theorems on the execution of a run.
use nguyen_dinh_b.Prelude.{
  ℕ, suc, String, All, ◌≤◌, ◌≡◌, refl, true, false, none, some, List, [], ◌∷◌, length, any, mem_str,
}
use nguyen_dinh_b.Prelude.Int.{pos}
use nguyen_dinh_b.Json.{bool, str, obj, Fields, end, field}
use nguyen_dinh_b.Python.{Result, ok, err, PyText}
use nguyen_dinh_b.Probe.{HttpRequest, HttpResponse, empty_value}
use nguyen_dinh_b.Approval.{ApprovalRequest, to_dict, value, typed, prompt_cli, request_fingerprint}
use nguyen_dinh_b.Proposal.{validate_objective}
use nguyen_dinh_b.Run.{
  numbered, step_names, RunRecord, RunState, awaiting_approval, new_run, Phase, returns, Trace,
  execute,
}
use nguyen_dinh_b.Run.Resume.{Disk, Move, acquire, load, choose, enter, at_rest, moves}
use nguyen_dinh_b.Run.Steps.{Candidate, choose_objective, waits}
use nguyen_dinh_b.Run.Steps.Chosen.{choose_objective-accepted}
use nguyen_dinh_b.Run.Resume.Once.{moves-once}
use nguyen_dinh_b.Run.Probing.{StepContext, sent_by, step_probe}
use nguyen_dinh_b.Run.Probing.Gated.{IsGuarded, step_probe-IsGuarded}
use nguyen_dinh_b.Run.Phase.Total.{IsTimed, execute-total}
use nguyen_dinh_b.Examples.{decision_fields, fingerprint, objective, plain_text, two_endpoints}

abbrev waiting : Disk
waiting = record { state = awaiting_approval; decision = some "yes"; claim = none }

abbrev race : List Move
race = acquire 1 ∷ acquire 2 ∷ load 1 ∷ load 2 ∷ choose 1 ∷ choose 2 ∷ enter 1 ∷ enter 2 ∷ []

moves-once_example : length (moves (λ s. s) "run" race (at_rest waiting)).probes ≤ 1
moves-once_example = moves-once (λ s. s) "run" race waiting

-- The bound is reached: in this race one process enters phase two.
race_test : length (moves (λ s. s) "run" race (at_rest waiting)).probes ≡ 1
unfolding moves nguyen_dinh_b.Run.Resume.move nguyen_dinh_b.Run.Resume.enter_from
    nguyen_dinh_b.Run.Resume.choose_from nguyen_dinh_b.Run.Resume.load_from
    nguyen_dinh_b.Run.Resume.acquire_from nguyen_dinh_b.Run.Resume.claim_key
    nguyen_dinh_b.Run.Resume.claims nguyen_dinh_b.Run.Resume.resume_refusal
race_test = refl

abbrev fresh_run : RunRecord
fresh_run = new_run "run" "now"

abbrev two_steps : Phase
two_steps = ("scan", returns) ∷ ("normalize", returns) ∷ []

abbrev executed : RunRecord × List Trace
executed = elim (execute (λ _ _. ok (pos 0)) (λ s. s) "now" two_steps fresh_run) [
  | ok out ↦ out
  | err e ↦ (fresh_run, [])
]

abbrev candidates : List Candidate
candidates = record { analysis_id = str "a1"; finding_ids = []; objective = objective } ∷ []

choose_objective-accepted_example :
    ((choose_objective candidates two_endpoints).decision
      ≡ validate_objective (choose_objective candidates two_endpoints).objective two_endpoints)
    × ((choose_objective candidates two_endpoints).decision.accepted
        ≡ any
            (λ (c : Candidate). (validate_objective c.objective two_endpoints).accepted)
            candidates)
choose_objective-accepted_example = choose_objective-accepted candidates two_endpoints

abbrev proposal : Fields
proposal = field "accepted" (bool true) (
    field "probe"
      (obj (
        field "method" (str "POST")
          (field "path" (str "/login") (field "payload_kind" (str "empty_value") end))))
      end)

abbrev asked : ApprovalRequest
asked = record {
  run_id = "run";
  method = "POST";
  endpoint = "/login";
  payload = "{\"value\": \"\"}";
  purpose = "Kiểm chứng finding";
  risk_reason = "Request POST có thể làm thay đổi trạng thái phía ứng dụng.";
  request_fingerprint = fingerprint;
}

-- No step of a new run has started.
numbered-IsTimed :
    (i : ℕ) (names : List String)
    → All (IsTimed (λ _ _. ok (pos 0)) (λ s. s) "now") (numbered i names)
numbered-IsTimed i [] = tt
numbered-IsTimed i (name ∷ names) = (λ t h. absurd (cc h), numbered-IsTimed (suc i) names)

execute-total_example :
    (out : RunRecord × List Trace) × (execute (λ _ _. ok (pos 0)) (λ s. s) "now" two_steps fresh_run
      ≡ ok out)
unfolding mem_str
execute-total_example =
    execute-total (λ _ _. ok (pos 0)) (λ s. s) "now" (pos 0, refl) two_steps fresh_run
      (refl, (refl, tt)) (numbered-IsTimed 1 step_names) ((λ q h. h), ((λ q h. h), tt))

abbrev context : StepContext
context = record {
  patterns = [];
  allowlist = ok two_endpoints;
  gateway_api_key = "key";
  request_id = "req-1";
  transport = λ _. ok (record {
    status_code = some 200;
    headers = [];
    body = "hello";
    response_bytes_observed = 5;
    truncated = false;
    elapsed_ms = 100;
    error_class = none;
    error_reason = none;
  });
  append_audit = λ _. ok tt;
  append_line = λ _. ok tt;
  now = "now";
  elapsed = λ _ _. ok (pos 0);
  why = λ _. "error";
}

step_probe-IsGuarded_example :
    IsGuarded context (value (obj proposal)) (value (obj decision_fields)) (
      sent_by
        (step_probe context (value (obj proposal)) (value (obj decision_fields)) fresh_run).deeds)
step_probe-IsGuarded_example =
    step_probe-IsGuarded context (value (obj proposal)) (value (obj decision_fields)) fresh_run

-- the record that the step returns
abbrev probed : RunRecord
probed =
    elim (step_probe context (value (obj proposal)) (value (obj decision_fields))
      fresh_run).outcome [ returns r ↦ r | _ ↦ fresh_run ]
