-- ===== src/Probe.antt =====
-- The safe payloads (gateway/models.py, gateway/payloads.py, probe/payload_kinds.py), the request
-- that may leave the system (`SafeProbe` of probe/proposal.py) and the HTTP messages
-- (probe/http_models.py).
use nguyen_dinh_b.Prelude.{
  ℕ, String, Bool, Option, none, some, List, [], ◌∷◌, ◌==◌, if◌then◌else◌, is_some, concat, repeat,
}
use nguyen_dinh_b.Json.{Json, str, arr, obj}
use nguyen_dinh_b.Python.{Result, ok, err, key_error, type_error}

-- `SafePayloadType`
pub data SafePayloadType : Type 0 where
  long_string special_chars empty_value wrong_type : SafePayloadType

-- `json.dumps({"value": SAFE_PAYLOADS[t]}, ensure_ascii=False)`: the whole body of the request
unfoldable pub payload_body : SafePayloadType → String
payload_body long_string = concat ("{\"value\": \"" ∷ repeat 1024 "A" ∷ "\"}" ∷ [])
payload_body special_chars = "{\"value\": \"!@#$%^&*()'\\\"<>;\"}"
payload_body empty_value = "{\"value\": \"\"}"
payload_body wrong_type = "{\"value\": 12345}"

-- `PAYLOAD_KIND_TO_TYPE.get(kind)`
unfoldable pub payload_type : String → Option SafePayloadType
payload_type kind =
    if kind == "long_string"
    then some long_string
    else if kind == "special_chars"
    then some special_chars
    else if kind == "empty_value"
    then some empty_value
    else if kind == "wrong_type"
    then some wrong_type
    else none

-- `kind in PAYLOAD_KIND_TO_TYPE`
abbrev pub is_kind : String → Bool
is_kind kind = is_some (payload_type kind)

-- The payload that `payload_value_for(kind)` finds; a list or a `dict` is no key at all.
unfoldable pub payload_for : Json → Result SafePayloadType
payload_for (str kind) = elim (payload_type kind) [ none ↦ err key_error | some t ↦ ok t ]
payload_for (arr _) = err type_error
payload_for (obj _) = err type_error
payload_for _ = err key_error

-- `payload_kind` is whatever value the caller passed; `null` is `None`.
pub record SafeProbe : Type 0 where
  pub method : String
  pub path : String
  pub payload_kind : Json

pub record HttpRequest : Type 0 where
  pub method : String
  pub url : String
  pub headers : List (String × String)
  pub body : Option String

-- `elapsed_ms` is counted in hundredths of a millisecond, to which the transport rounds it.
pub record HttpResponse : Type 0 where
  pub status_code : Option ℕ
  pub headers : List (String × String)
  pub body : String
  pub response_bytes_observed : ℕ
  pub truncated : Bool
  pub elapsed_ms : ℕ
  pub error_class : Option String
  pub error_reason : Option String
