-- ===== src/Audit.antt =====
-- The append-only records of what the guardrails did: one audit line for each request that was to be
-- sent (gateway/request_log.py), and one line for each security event (guardrails/events.py). The
-- time stamp of a line is left out.
pub mod Records
use nguyen_dinh_b.Prelude.{
  ℕ, zero, suc, ◌+◌, ◌-◌, ◌*◌, ◌≤◌, ◌<◌, min, max, String, ◌≡◌, refl, sym, ap, ◌∙◌, ◌≢◌, ◌↔◌, ◌⊎◌,
  inl, inr, Bool, true, false, not, ◌&&◌, ◌||◌, false≢true, Option, none, some, List, [], ◌∷◌, ◌++◌,
  map, arith, ◌==◌, eq_iff, eq_refl, ltb, leb, eqb, if◌then◌else◌, leb→le, ltb→lt, Bool-cases,
  Option-cases, is_some, length, length-append, is_empty, All, Any, All-append, All-map, Any-map,
  Any-All, any, all, any-false, keep, find_first, find_first-some, find_first-none, codes, mem_str,
  mem_str-Any, Any-mem_str, has_code, has_prefix, ne_of_test, has_infix, is_blank, split_space,
  strip, concat, repeat,
}
use Prim.Native.Char.{len_utf8}
use Prim.Native.String
use Prim.Native.String.{len}
use nguyen_dinh_b.Json.{
  get_or, Json, null, bool, int, float, str, arr, obj, Items, nil, cons, Fields, end, field, get,
  get_null, put,
}
use nguyen_dinh_b.Python.{type_error, Result, ok, err, value_error, raise_if, need, ◌>>=◌, ◌>>◌}
use nguyen_dinh_b.Redaction.{is_container, Pattern, redact_structure}

-- `AUDIT_FIELD_NAMES`
abbrev pub audit_fields : List String
audit_fields =
    "request_id" ∷ "candidate_id" ∷ "objective_id" ∷ "proposal_id" ∷ "endpoint_id" ∷ "template_id"
    ∷ "method" ∷ "path" ∷ "payload_type" ∷ "status" ∷ "status_code" ∷ "elapsed_ms"
    ∷ "response_bytes_observed" ∷ "truncated" ∷ "response_preview" ∷ "error_class" ∷ "error_reason"
    ∷ "policy_decision" ∷ []

-- `MAX_AUDIT_PREVIEW_BYTES`, and `MAX_PREVIEW_BYTES` of probe/tool.py
abbrev pub max_preview : ℕ
max_preview = 512

-- `s.encode("utf-8")[:n].decode("utf-8", errors="ignore")`: the longest prefix of whole characters
-- that n bytes hold
unfoldable pub take_utf8 : ℕ → String → String
take_utf8 n String.[] = ""
take_utf8 n (String.◌∷◌ c s) =
    let rest = take_utf8 (n - len_utf8 c) s in if leb (len_utf8 c) n then String.◌∷◌ c rest else ""

unfoldable pub keys : Fields → List String
keys end = []
keys (field k v fs) = k ∷ keys fs

-- the test on `response_preview`
unfoldable pub check_preview : Json → Result (Unit {0})
check_preview null = ok tt
check_preview (str s) = raise_if (ltb max_preview (len s)) value_error
check_preview _ = err value_error

abbrev pub fields_of : Json → Fields
fields_of (obj fs) = fs
fields_of _ = end

-- the second cut, of the masked `response_preview`
unfoldable pub bound_preview : Json → Fields → Fields
bound_preview (str s) fs =
    if ltb max_preview (len s)
    then put "response_preview" (str (take_utf8 max_preview s)) fs
    else fs
bound_preview _ fs = fs

-- `log_request`: the line that is written
unfoldable pub log_request : List Pattern → Fields → Result Fields
log_request patterns fields = do
  raise_if (any (λ k. not (mem_str k audit_fields)) (keys fields)) value_error
  check_preview (get_null "response_preview" fields)
  let safe = fields_of (redact_structure patterns (obj fields)).0
  ok (bound_preview (get_null "response_preview" safe) safe)

abbrev pub event_kinds : List String
event_kinds = "redaction" ∷ "injection" ∷ "approval" ∷ "allowlist_block" ∷ []

pub record GuardEvent : Type 0 where
  pub run_id : String
  pub kind : String
  pub detail : Json

-- `append_event`: the line that is written
unfoldable pub append_event : List Pattern → String → String → Fields → Result GuardEvent
append_event patterns run_id kind detail = do
  raise_if (not (mem_str kind event_kinds)) value_error
  ok (record { run_id = run_id; kind = kind; detail = (redact_structure patterns (obj detail)).0 })

-- `read_events` on the lines of the file; `loads` is `json.loads`, with `none` for a `ValueError`
unfoldable pub read_events : (String → Option Json) → List String → List Fields
read_events loads [] = []
read_events loads (line ∷ lines) =
    let rest = read_events loads lines in
    if is_blank (codes line)
    then rest
    else elim (loads line) [ some (obj fs) ↦ fs ∷ rest | _ ↦ rest ]

-- one more of a kind
unfoldable pub count_one : (Json → Json → Bool) → Json → List (Json × ℕ) → List (Json × ℕ)
count_one same kind [] = (kind, 1) ∷ []
count_one same kind ((k, n) ∷ counts) =
    let rest = count_one same kind counts in
    if same k kind then (k, n + 1) ∷ counts else (k, n) ∷ rest

-- `count_by_kind`; `same` is the equality of the keys of a `dict`, and a list or a `dict` is no key
unfoldable pub count_by_kind :
    (Json → Json → Bool) → List (Json × ℕ) → List Fields → Result (List (Json × ℕ))
count_by_kind same counts [] = ok counts
count_by_kind same counts (event ∷ events) = do
  raise_if (is_container (get_or "kind" (str "unknown") event)) type_error
  count_by_kind same (count_one same (get_or "kind" (str "unknown") event) counts) events
