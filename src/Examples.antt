-- ===== src/Examples.antt =====
-- What the examples share: an inventory of two endpoints, a request and its approval, and simple
-- functions in the place of Python's. The children apply the theorems to them.
mod Sending
mod Routes
mod Runs
mod Conclusions
mod Inventory
mod Masking
mod Groups
mod Responses
use nguyen_dinh_b.Prelude.{
  ℕ, zero, suc, ◌+◌, ◌-◌, ◌*◌, ◌≤◌, ◌<◌, min, max, String, ◌≡◌, refl, sym, ap, ◌∙◌, ◌≢◌, ◌↔◌, ◌⊎◌,
  inl, inr, Bool, true, false, not, ◌&&◌, ◌||◌, false≢true, Option, none, some, List, [], ◌∷◌, ◌++◌,
  map, arith, ◌==◌, eq_iff, eq_refl, ltb, leb, eqb, if◌then◌else◌, leb→le, ltb→lt, Bool-cases,
  Option-cases, is_some, length, length-append, is_empty, All, Any, All-append, All-map, Any-map,
  Any-All, any, all, any-false, keep, find_first, find_first-some, find_first-none, codes, mem_str,
  mem_str-Any, Any-mem_str, has_code, has_prefix, ne_of_test, has_infix, is_blank, split_space,
  strip, concat, repeat,
}
use Prim.Native.String.{len}
use nguyen_dinh_b.Prelude.Int.{pos}
use nguyen_dinh_b.Json.{
  Json, null, bool, int, str, arr, obj, nil, cons, Fields, end, field, get, get_or, get_null,
  truthy,
}
use nguyen_dinh_b.Python.{Result, ok, err, PyText}
use nguyen_dinh_b.Allowlist.{
  ProbeTemplate, AllowlistRule, Allowlist, is_allowed, is_listed, is_reviewed, resolve_template,
}
use nguyen_dinh_b.Allowlist.Lookup.{
  IsPlainPath, HasRule, Grants, resolve_template_sound, resolve_template_complete, is_listed_iff,
  is_reviewed_iff,
}
use nguyen_dinh_b.Allowlist.Parse.{from_json}
use nguyen_dinh_b.Allowlist.Parse.Laws.{IsWellFormed, from_json-IsWellFormed}
use nguyen_dinh_b.Redaction.{
  Pattern, RedactionEvent, redact, merge_events, redact_structure, walk_fields,
}
use nguyen_dinh_b.Redaction.Events.{
  count_of, events_of, substitutions, merge_events_lem, redact-counts,
}
use nguyen_dinh_b.Redaction.Structure.{AllText, redact_structure-AllText}
use nguyen_dinh_b.Probe.{SafeProbe, HttpRequest, HttpResponse, empty_value}
use nguyen_dinh_b.Approval.{
  ApprovalRequest, ApprovalDecision, to_dict, from_dict, read_decision, value, typed, prompt_cli,
  request_fingerprint, requires_approval,
}
use nguyen_dinh_b.Approval.Decision.{States, from_dict_iff, read-to_dict}
use nguyen_dinh_b.Approval.Fingerprint.{request_fingerprint-binds}
use nguyen_dinh_b.Proposal.{validate_objective}
use nguyen_dinh_b.Proposal.Accepted.{IsCovered, validate_objective-IsCovered}
use nguyen_dinh_b.Audit.{log_request}
use nguyen_dinh_b.Audit.Records.{IsReviewedLine, log_request-IsReviewedLine}
use nguyen_dinh_b.Send.{Sender, send_probe, safe_preview}
use nguyen_dinh_b.Send.Quiet.{Transmits}
use nguyen_dinh_b.Send.Gate.{IsAuthorised, IsGated, send_probe-IsGated, send_probe-Transmits}
use nguyen_dinh_b.RateLimit.{minute, ToolRateLimiter, new_limiter, attempts}
use nguyen_dinh_b.RateLimit.Budget.{attempts-within_budget}
use nguyen_dinh_b.Calibration.{Calibration, calibrate_record}
use nguyen_dinh_b.Calibration.Record.{IsCapped, calibrate_record-IsCapped, calibrate_record-kept}
use nguyen_dinh_b.Verdict.{ProbeVerdict, decide_verdict, contains, body_of}
use nguyen_dinh_b.Verdict.Grounds.{IsJust, decide_verdict-IsJust}
use nguyen_dinh_b.Run.{
  RunRecord, RunState, awaiting_approval, new_run, Phase, returns, Trace, execute, stops,
  is_terminal, failed,
}
use nguyen_dinh_b.Run.Phase.{IsPrefix, names_run, on_disk}
use nguyen_dinh_b.Run.Resume.{Disk, Move, acquire, load, choose, enter, at_rest, moves}
use nguyen_dinh_b.Injection.{Span, merge_spans, sort_spans}
use nguyen_dinh_b.Injection.Spans.{IsApart, IsInside, merge_spans_lem}
use nguyen_dinh_b.Run.Steps.{Candidate, choose_objective, waits, probe_of, step_approval}
use nguyen_dinh_b.Run.Steps.Chosen.{choose_objective-accepted}
use nguyen_dinh_b.Run.Resume.Once.{moves-once}

abbrev pub as_text : Json → String
as_text (str s) = s
as_text _ = ""

abbrev pub same_text : Json → Json → Bool
same_text (str a) (str b) = a == b
same_text _ _ = false

pub same_text-str : (v : Json) (s : String) → same_text v (str s) ≡ true → v ≡ str s
same_text-str (str t) s h = ap str ((eq_iff t s).0 h)
same_text-str null s h = cc
same_text-str (bool b) s h = cc
same_text-str (int n) s h = cc
same_text-str (Json.float m k) s h = cc
same_text-str (arr vs) s h = cc
same_text-str (obj fs) s h = cc

pub same_text_trans :
    (u v w : Json) → same_text u v ≡ true → same_text v w ≡ true → same_text u w ≡ true
same_text_trans u v (str s) h k = rw (same_text-str v s k) at h
same_text_trans u (str t) null h k = cc
same_text_trans u (str t) (bool b) h k = cc
same_text_trans u (str t) (int n) h k = cc
same_text_trans u (str t) (Json.float m j) h k = cc
same_text_trans u (str t) (arr vs) h k = cc
same_text_trans u (str t) (obj fs) h k = cc
same_text_trans u v w h k = cc

-- A `PyText` on which the examples compute.
instance abbrev pub plain_text : PyText
plain_text = record {
  equal = same_text;
  upper = λ s. s;
  casefold = λ s. s;
  to_str = as_text;
  repr = as_text;
  sha256 = λ s. s;
  upper-get = refl;
  upper-post = refl;
  equal-str = same_text-str;
  equal-trans = same_text_trans;
  to_str-str = λ s. refl;
}

abbrev pub rule : (method id : String) → AllowlistRule
rule method id = record {
  method = method;
  path = "/login";
  match = "exact";
  endpoint_id = "login";
  allowed_template_ids = id ∷ [];
  allowed_request_headers = [];
  max_response_bytes = 4096;
}

abbrev pub template : (id method : String) → Option String → ProbeTemplate
template id method kind = record {
  template_id = id;
  method = method;
  payload_kind = kind;
  purpose = "";
  source = "";
}

abbrev pub two_endpoints : Allowlist
two_endpoints = record {
  rules = rule "GET" "read" ∷ rule "POST" "empty" ∷ [];
  templates =
      ("read", template "read" "GET" none)
      ∷ ("empty", template "empty" "POST" (some "empty_value"))
      ∷ [];
}

abbrev pub post_empty : SafeProbe
post_empty = record { method = "POST"; path = "/login"; payload_kind = str "empty_value" }

abbrev pub fingerprint : String
fingerprint = "POST|/login|{\"value\": \"\"}"

abbrev pub yes : ApprovalDecision
yes = record {
  approved = true;
  decided_at = "now";
  decided_by = "me";
  request_fingerprint = fingerprint;
}

pub post_empty-Grants : Grants two_endpoints "POST" "/login" (some "empty_value") "empty"
unfolding nguyen_dinh_b.Prelude.Dict.lookup
post_empty-Grants = (inr (inl (refl, refl, inl refl)), (_, refl, refl, refl))

abbrev pub objective : Json
objective = obj (
    field "description" (str "d") (
      field "endpoint_hint" (str "POST /login")
        (field "payload_kind" (str "empty_value") (field "rationale" (str "r") end))))

abbrev pub decision_fields : Fields
decision_fields = field "approved" (bool true) (
    field "decided_at" (str "now")
      (field "decided_by" (str "me") (field "request_fingerprint" (str fingerprint) end)))

-- a pattern that masks the whole text, once
abbrev pub mask_all : Pattern
mask_all = record { kind = "token"; subn = λ s. ("[REDACTED]", 1) }

abbrev pub masked_patterns : List Pattern
masked_patterns = mask_all ∷ []
