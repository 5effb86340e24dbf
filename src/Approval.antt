-- ===== src/Approval.antt =====
-- guardrails/approval.py: the operator's gate in front of a request that may do harm.
pub mod Decision
pub mod Fingerprint
use nguyen_dinh_b.Prelude.{
  ℕ, zero, suc, ◌+◌, ◌-◌, ◌*◌, ◌≤◌, ◌<◌, min, max, String, ◌≡◌, refl, sym, ap, ◌∙◌, ◌≢◌, ◌↔◌, ◌⊎◌,
  inl, inr, Bool, true, false, not, ◌&&◌, ◌||◌, false≢true, Option, none, some, List, [], ◌∷◌, ◌++◌,
  map, arith, ◌==◌, eq_iff, eq_refl, ltb, leb, eqb, if◌then◌else◌, leb→le, ltb→lt, Bool-cases,
  Option-cases, is_some, length, length-append, is_empty, All, Any, All-append, All-map, Any-map,
  Any-All, any, all, any-false, keep, find_first, find_first-some, find_first-none, codes, mem_str,
  mem_str-Any, Any-mem_str, has_code, has_prefix, ne_of_test, has_infix, is_blank, strip, concat,
  repeat,
}
use nguyen_dinh_b.Json.{
  Json, null, bool, int, float, str, arr, obj, Fields, end, field, get, get_or, get_null, as_str,
}
use nguyen_dinh_b.Python.{PyText, Result, ok, err, value_error, raise_if, need, ◌>>=◌, ◌>>◌}
use nguyen_dinh_b.Probe.{SafeProbe, payload_body, payload_for}

pub record ApprovalRequest : Type 0 where
  pub run_id : String
  pub method : String
  pub endpoint : String
  pub payload : String
  pub purpose : String
  pub risk_reason : String
  pub request_fingerprint : String

pub record ApprovalDecision : Type 0 where
  pub approved : Bool
  pub decided_at : String
  pub decided_by : String
  pub request_fingerprint : String

-- `ApprovalDecision.to_dict`
unfoldable pub to_dict : ApprovalDecision → Json
to_dict d = obj (
    field "approved" (bool d.approved) (
      field "decided_at" (str d.decided_at) (
        field "decided_by" (str d.decided_by)
          (field "request_fingerprint" (str d.request_fingerprint) end))))

-- `isinstance(value, bool)`: the value, if it is one
abbrev as_bool : Json → Option Bool
as_bool (bool b) = some b
as_bool _ = none

-- the round of the loop over "decided_at" and "decided_by" for one of them
unfoldable pub need_text : String → Fields → Result String
need_text name fs = do
  s ← need (as_str (get_null name fs))
  raise_if (is_blank (codes s)) value_error
  ok s

-- `ApprovalDecision.from_dict`: only the literals `true` and `false` are a decision.
unfoldable pub from_dict : Json → Result ApprovalDecision
from_dict (obj fs) = do
  approved ← need (as_bool (get_null "approved" fs))
  decided_at ← need_text "decided_at" fs
  decided_by ← need_text "decided_by" fs
  fingerprint ← need (as_str (get_or "request_fingerprint" (str "") fs))
  ok (record {
    approved = approved;
    decided_at = decided_at;
    decided_by = decided_by;
    request_fingerprint = fingerprint;
  })
from_dict _ = err value_error

-- A JSON file: not there, not JSON, or a value.
pub data Artifact : Type 0 where
  missing : Artifact
  garbage : Artifact
  value : Json → Artifact

-- `read_decision`: no file is no decision yet, and a broken one raises.
unfoldable pub read_decision : Artifact → Result (Option ApprovalDecision)
read_decision missing = ok none
read_decision garbage = err value_error
read_decision (value v) = do d ← from_dict v; ok (some d)

-- the JSON text of the payload, or "" without one
unfoldable pub payload_of : Json → Result String
payload_of null = ok ""
payload_of kind = do t ← payload_for kind; ok (payload_body t)

-- What the operator types, or the end of input or an interrupt.
pub data Answer : Type 0 where
  typed : String → Answer
  interrupted : Answer

module _ ⦃py : PyText⦄ where
  -- what is hashed
  abbrev pub raw_request : String → String → String → String
  raw_request method path payload = concat (py.upper method ∷ "|" ∷ path ∷ "|" ∷ payload ∷ [])

  unfoldable pub request_fingerprint : SafeProbe → Result String
  request_fingerprint probe = do
    payload ← payload_of probe.payload_kind
    ok (py.sha256 (raw_request probe.method probe.path payload))

  unfoldable pub requires_approval : SafeProbe → Bool
  requires_approval probe =
      py.upper probe.method == "POST" || elim probe.payload_kind [ null ↦ false | _ ↦ true ]

  unfoldable pub build_request : String → SafeProbe → String → Result ApprovalRequest
  build_request run_id probe purpose = do
    payload ← payload_of probe.payload_kind
    let risk =
        if py.upper probe.method == "POST"
        then "Request POST có thể làm thay đổi trạng thái phía ứng dụng."
        else concat (
            "Payload đặc biệt loại '"
            ∷ py.to_str probe.payload_kind
            ∷ "' dùng để dò hành vi xử lý đầu vào."
            ∷ [])
    fingerprint ← request_fingerprint probe
    ok (record {
      run_id = run_id;
      method = py.upper probe.method;
      endpoint = probe.path;
      payload = payload;
      purpose = purpose;
      risk_reason = risk;
      request_fingerprint = fingerprint;
    })

  -- `answer.strip().casefold() == "approve"`
  unfoldable pub says_approve : Answer → Bool
  says_approve (typed s) = py.casefold (strip s) == "approve"
  says_approve interrupted = false

  -- `prompt_cli`; `now` is the time of the decision
  unfoldable pub prompt_cli : ApprovalRequest → Answer → String → ApprovalDecision
  prompt_cli request answer now = record {
    approved = says_approve answer;
    decided_at = now;
    decided_by = "cli-operator";
    request_fingerprint = request.request_fingerprint;
  }
