-- ===== src/Send.antt =====
-- probe/tool.py: the only way by which a request leaves the system.
pub mod Quiet
pub mod Gate
use nguyen_dinh_b.Prelude.{
  ℕ, String, Bool, true, false, not, ◌&&◌, Option, none, some, List, [], ◌∷◌, ◌==◌, if◌then◌else◌,
  concat,
}
use nguyen_dinh_b.Json.{Json, null, bool, int, float, str, Fields, end, field}
use nguyen_dinh_b.Prelude.Int.{pos}
use nguyen_dinh_b.Python.{Result, PyText}
use nguyen_dinh_b.Allowlist.{Allowlist, is_listed, resolve_template}
use nguyen_dinh_b.Redaction.{Pattern, RedactionEvent, redact}
use nguyen_dinh_b.Probe.{
  SafeProbe, SafePayloadType, payload_type, payload_body, HttpRequest, HttpResponse,
}
use nguyen_dinh_b.Approval.{ApprovalDecision, request_fingerprint, requires_approval}
use nguyen_dinh_b.Audit.{GuardEvent, max_preview, take_utf8, log_request, append_event}
use nguyen_dinh_b.Effect.{Act, pure, emit, lift, when, audit, event, waited, sent, ◌>>=◌, ◌>>◌}

pub record ProbeOutcome : Type 0 where
  pub sent : Bool
  pub status_code : Option ℕ
  pub body_preview : String
  pub elapsed_ms : ℕ
  pub error_class : Option String
  pub error_reason : Option String
  pub denied_reason : Option String
  pub redactions : List RedactionEvent

-- `ProbeOutcome(sent=False, denied_reason=reason)`
abbrev pub denied : String → ProbeOutcome
denied reason = record {
  sent = false;
  status_code = none;
  body_preview = "";
  elapsed_ms = 0;
  error_class = none;
  error_reason = none;
  denied_reason = some reason;
  redactions = [];
}

-- What a call of `send_probe` is given beside the request: `logs` and `events` say whether there is
-- a `log_path` and an `events_path`, `request_id` is the fresh one, and `transport` is
-- `send_request` of the transport, which may raise; `append_audit` and `append_line` are the appending
-- of a line to the two files, which may raise as well.
pub record Sender : Type 0 where
  pub patterns : List Pattern
  pub logs : Bool
  pub events : Bool
  pub request_id : String
  pub run_id : Option String
  pub api_key : String
  pub approval : Option ApprovalDecision
  pub transport : HttpRequest → Result HttpResponse
  pub append_audit : Fields → Result (Unit {0})
  pub append_line : GuardEvent → Result (Unit {0})

-- `_safe_preview`: masked first, cut after
unfoldable pub safe_preview : List Pattern → String → String × List RedactionEvent
safe_preview patterns body =
    if body == ""
    then ("", [])
    else let (cleaned, events) = redact patterns body in (take_utf8 max_preview cleaned, events)

-- `if log_path: log_request(…)`
unfoldable pub write_log : Sender → Fields → Act (Unit {0})
write_log s row =
    when s.logs
      (do line ← lift (log_request s.patterns row); lift (s.append_audit line); emit (audit line))

-- `run_id or request_id`
abbrev pub event_run : Sender → String
event_run s = elim s.run_id [ none ↦ s.request_id | some r ↦ if r == "" then s.request_id else r ]

-- `if test and events_path: append_event(…)`
unfoldable pub write_event : Sender → Bool → String → Fields → Act (Unit {0})
write_event s test kind detail = when (s.events && test) (do
  line ← lift (append_event s.patterns (event_run s) kind detail)
  lift (s.append_line line)
  emit (event line))

abbrev pub text_or_null : Option String → Json
text_or_null none = null
text_or_null (some t) = str t

abbrev pub code_or_null : Option ℕ → Json
code_or_null none = null
code_or_null (some n) = int (pos n)

-- the audit row of a refusal; the one for an invalid payload has no `payload_type`
abbrev pub denied_row : Sender → SafeProbe → (with_type : Bool) → (class reason : String) → Fields
denied_row s probe with_type class reason =
    let tail = field "status" (str "DENIED") (
      field "policy_decision" (str "DENIED")
        (field "error_class" (str class) (field "error_reason" (str reason) end))) in
    field "request_id" (str s.request_id) (
      field "method" (str probe.method) (
        field "path" (str probe.path)
          (if with_type then field "payload_type" probe.payload_kind tail else tail)))

-- the detail of an `allowlist_block`
abbrev pub block_detail : Sender → SafeProbe → String → Fields
block_detail s probe reason = field "request_id" (str s.request_id) (
    field "method" (str probe.method)
      (field "path" (str probe.path) (field "reason" (str reason) end)))

-- the detail of an `approval` event that refuses
abbrev pub refusal_detail : Sender → SafeProbe → String → Fields
refusal_detail s probe reason = field "request_id" (str s.request_id) (
    field "approved" (bool false) (
      field "reason" (str reason)
        (field "method" (str probe.method) (field "path" (str probe.path) end))))

-- `approval_reason`, which is `None` if the decision lets the request through
unfoldable pub approval_reason : Option ApprovalDecision → String → Option String
approval_reason none expected =
    some "Request cần được phê duyệt nhưng chưa có quyết định approve hợp lệ."
approval_reason (some d) expected =
    if not d.approved
    then some "Người vận hành đã từ chối request này."
    else if not (d.request_fingerprint == expected)
    then some "Quyết định phê duyệt không khớp với request này (phiếu duyệt cho một request khác)."
    else none

abbrev pub gateway_origin : String
gateway_origin = "http://127.0.0.1:9080"

abbrev pub outgoing : Sender → SafeProbe → (template_id : String) → Option String → HttpRequest
outgoing s probe template_id body = record {
  method = probe.method;
  url = concat (gateway_origin ∷ probe.path ∷ []);
  headers = ("X-Sentinel-API-Key", s.api_key) ∷ ("X-Sentinel-Template", template_id) ∷ [];
  body = body;
}

-- the audit row of a request that was sent
abbrev pub sent_row : Sender → SafeProbe → String → HttpResponse → (preview : String) → Fields
sent_row s probe template_id response preview = field "request_id" (str s.request_id) (
    field "method" (str probe.method) (
      field "path" (str probe.path) (
        field "payload_type" probe.payload_kind (
          field "template_id" (str template_id) (
            field "status" (str "SENT") (
              field "status_code" (code_or_null response.status_code) (
                field "elapsed_ms" (float (pos response.elapsed_ms) 2) (
                  field "response_bytes_observed" (int (pos response.response_bytes_observed)) (
                    field "truncated" (bool response.truncated) (
                      field "response_preview" (if preview == "" then null else str preview) (
                        field "error_class" (text_or_null response.error_class) (
                          field "error_reason" (text_or_null response.error_reason)
                            (field "policy_decision" (str "ALLOWED") end)))))))))))))

-- the detail of an `approval` event for a request that was sent
abbrev pub approved_detail : Sender → SafeProbe → Fields
approved_detail s probe = field "request_id" (str s.request_id) (
    field "approved" (bool true) (
      field "method" (str probe.method) (
        field "path" (str probe.path) (
          field "decided_by" (str (elim s.approval [ none ↦ "none" | some d ↦ d.decided_by ]))
            end))))

abbrev pub outcome_of : Sender → HttpResponse → ProbeOutcome
outcome_of s response =
    let (preview, redactions) = safe_preview s.patterns response.body in
    record {
      sent = true;
      status_code = response.status_code;
      body_preview = preview;
      elapsed_ms = response.elapsed_ms;
      error_class = response.error_class;
      error_reason = response.error_reason;
      denied_reason = none;
      redactions = redactions;
    }

module _ ⦃py : PyText⦄ (al : Allowlist) (s : Sender) (probe : SafeProbe) where
  -- the refusal of a route or of a template
  unfoldable pub refuse_route : String → Act ProbeOutcome
  refuse_route reason = do
    write_log s (denied_row s probe true "AllowlistViolation" reason)
    write_event s true "allowlist_block" (block_detail s probe reason)
    pure (denied reason)

  -- the refusal of a payload that is none of the four; it is logged but is no event
  unfoldable pub refuse_kind : Act ProbeOutcome
  refuse_kind = do
    let reason = concat ("payload_kind không hợp lệ: " ∷ py.repr probe.payload_kind ∷ [])
    write_log s (denied_row s probe false "InvalidPayloadKind" reason)
    pure (denied reason)

  unfoldable pub refuse_approval : String → Act ProbeOutcome
  refuse_approval reason = do
    write_log s (denied_row s probe true "ApprovalRequired" reason)
    write_event s true "approval" (refusal_detail s probe reason)
    pure (denied reason)

  -- from `limiter.wait()` on
  unfoldable pub transmit : String → Option String → Act ProbeOutcome
  transmit template_id body = do
    emit waited
    emit (sent (outgoing s probe template_id body))
    response ← lift (s.transport (outgoing s probe template_id body))
    write_log s (sent_row s probe template_id response (safe_preview s.patterns response.body).0)
    write_event s (requires_approval probe) "approval" (approved_detail s probe)
    pure (outcome_of s response)

  -- the end of the test of the approval
  unfoldable pub send_checked : String → Option String → Option String → Act ProbeOutcome
  send_checked template_id body (some reason) = refuse_approval reason
  send_checked template_id body none = transmit template_id body

  -- from `if requires_approval(probe)` on
  unfoldable pub send_granted : String → Option String → Act ProbeOutcome
  send_granted template_id body =
      let checked = (do
        expected ← lift (request_fingerprint probe)
        send_checked template_id body (approval_reason s.approval expected)) in
      if requires_approval probe then checked else transmit template_id body

  -- the test on `template_id`
  unfoldable pub send_template : Option String → Option String → Act ProbeOutcome
  send_template body (some template_id) = send_granted template_id body
  send_template body none = refuse_route (
      concat (
        "payload_kind="
        ∷ py.repr probe.payload_kind
        ∷ " không khớp template nào đã được review cho '"
        ∷ probe.method
        ∷ " "
        ∷ probe.path
        ∷ "'."
        ∷ []))

  -- the body of a payload that was looked up
  unfoldable pub send_payload : String → Option SafePayloadType → Act ProbeOutcome
  send_payload kind none = refuse_kind
  send_payload kind (some t) =
      send_template (some (payload_body t))
        (resolve_template al probe.method probe.path (some kind))

  -- from the test of the payload on
  unfoldable pub send_kind : Json → Act ProbeOutcome
  send_kind null = send_template none (resolve_template al probe.method probe.path none)
  send_kind (str kind) = send_payload kind (payload_type kind)
  send_kind _ = refuse_kind

  unfoldable pub send_probe : Act ProbeOutcome
  send_probe =
      if not (is_listed al probe.method probe.path)
      then refuse_route (
          concat
            ("'" ∷ probe.method ∷ " " ∷ probe.path ∷ "' không có trong allowlist Gateway." ∷ []))
      else send_kind probe.payload_kind
