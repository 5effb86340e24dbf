-- ===== src/Examples/Sending.antt =====
-- The theorems on the approval and the sending of a request.
use nguyen_dinh_b.Prelude.{
  ◌+◌, ◌-◌, ◌*◌, ◌≤◌, String, ◌≡◌, Option, refl, ◌↔◌, ◌⊎◌, inl, inr, true, false, none, some, [],
  ◌∷◌, arith, has_code, is_blank,
}
use nguyen_dinh_b.Json.{obj, Fields}
use nguyen_dinh_b.Python.{Result, ok, err, PyText}
use nguyen_dinh_b.Probe.{SafeProbe, HttpRequest, HttpResponse, empty_value}
use nguyen_dinh_b.Approval.{
  ApprovalRequest, ApprovalDecision, to_dict, from_dict, read_decision, value, typed, prompt_cli,
  request_fingerprint, requires_approval, payload_of, raw_request,
}
use nguyen_dinh_b.Approval.Decision.{States, from_dict_iff, read-to_dict}
use nguyen_dinh_b.Approval.Fingerprint.{IsCollision, request_fingerprint-binds}
use nguyen_dinh_b.Send.{Sender, send_probe}
use nguyen_dinh_b.Send.Quiet.{Transmits}
use nguyen_dinh_b.Send.Gate.{
  IsPayload, IsAuthorised, IsGated, send_probe-IsGated, send_probe-Transmits,
}
use nguyen_dinh_b.Allowlist.{resolve_template}
use nguyen_dinh_b.RateLimit.{minute, ToolRateLimiter, new_limiter, attempts}
use nguyen_dinh_b.RateLimit.Budget.{attempts-within_budget}
use nguyen_dinh_b.Examples.{
  decision_fields, fingerprint, plain_text, post_empty, post_empty-Grants, two_endpoints, yes,
}

abbrev sender : Sender
sender = record {
  patterns = [];
  logs = true;
  events = true;
  request_id = "req-1";
  run_id = none;
  api_key = "key";
  approval = some yes;
  transport = λ _. ok (record {
    status_code = some 200;
    headers = [];
    body = "hello";
    response_bytes_observed = 5;
    truncated = false;
    elapsed_ms = 100;
    error_class = none;
    error_reason = none;
  });
  append_audit = λ _. ok tt;
  append_line = λ _. ok tt;
}

send_probe-IsGated_example :
    IsGated two_endpoints sender post_empty (send_probe two_endpoints sender post_empty)
send_probe-IsGated_example = send_probe-IsGated two_endpoints sender post_empty

post_empty-IsAuthorised :
    IsAuthorised two_endpoints sender post_empty "empty" (some "{\"value\": \"\"}")
unfolding has_code request_fingerprint nguyen_dinh_b.Probe.payload_type
    nguyen_dinh_b.Probe.payload_body nguyen_dinh_b.Python.◌>>=◌ nguyen_dinh_b.Approval.payload_of
    nguyen_dinh_b.Probe.payload_for
post_empty-IsAuthorised = record {
  plain = (refl, refl);
  ruled = inr (inl (refl, refl));
  kind = some "empty_value";
  payload = inr ("empty_value", empty_value, refl, refl, refl, refl);
  granted = post_empty-Grants;
  consent = inr (fingerprint, refl, (yes, refl, refl, refl));
}

send_probe-Transmits_example :
    (kind : Option String) × (picked : String) × IsPayload post_empty.payload_kind kind
      (some "{\"value\": \"\"}")
    × (resolve_template two_endpoints post_empty.method post_empty.path kind ≡ some picked)
    × Transmits two_endpoints sender post_empty
        (send_probe two_endpoints sender post_empty)
        picked
        (some "{\"value\": \"\"}")
send_probe-Transmits_example =
    send_probe-Transmits two_endpoints sender post_empty "empty" (some "{\"value\": \"\"}")
      post_empty-IsAuthorised

request_fingerprint-binds_example :
    (x : String) × (y : String) × (payload_of post_empty.payload_kind ≡ ok x)
    × (payload_of post_empty.payload_kind ≡ ok y)
    × (((plain_text.upper post_empty.method ≡ plain_text.upper post_empty.method)
          × (post_empty.path ≡ post_empty.path)
          × (post_empty.payload_kind ≡ post_empty.payload_kind))
        ⊎ IsCollision
            (raw_request post_empty.method post_empty.path x)
            (raw_request post_empty.method post_empty.path y))
unfolding request_fingerprint has_code nguyen_dinh_b.Python.◌>>=◌ nguyen_dinh_b.Approval.payload_of
    nguyen_dinh_b.Probe.payload_for nguyen_dinh_b.Probe.payload_type
    nguyen_dinh_b.Probe.payload_body
request_fingerprint-binds_example =
    request_fingerprint-binds post_empty post_empty fingerprint refl refl refl refl

from_dict_iff_example :
    (from_dict (obj decision_fields) ≡ ok yes)
    ↔ ((fs : Fields) × (obj decision_fields ≡ obj fs) × States fs yes)
from_dict_iff_example = from_dict_iff (obj decision_fields) yes

read-to_dict_example : read_decision (value (to_dict yes)) ≡ ok (some yes)
unfolding is_blank
read-to_dict_example = read-to_dict yes refl refl

abbrev limiter : ToolRateLimiter
limiter = record { rate = 30; capacity = 300000; tokens = 300000; updated_at = 0 }

attempts-within_budget_example :
    (attempts (0 ∷ 0 ∷ 0 ∷ 0 ∷ 0 ∷ 0 ∷ []) limiter).0 * minute ≤ 5 * minute + (4000 - 0) * 30
unfolding new_limiter nguyen_dinh_b.Python.◌>>◌ nguyen_dinh_b.Python.raise_if
attempts-within_budget_example =
    attempts-within_budget 30 5 0 4000 (0 ∷ 0 ∷ 0 ∷ 0 ∷ 0 ∷ 0 ∷ []) limiter refl (
      omega arith,
      (omega arith, (omega arith, (omega arith, (omega arith, (omega arith, omega arith))))),
    )
