-- ===== src/Run/Probing/Odd.antt =====
-- probe/tool.py and gateway/allowlist.py: `send_probe` on a request with a field that is no text, for
-- which `is_allowed` may answer before it meets that field. The probe step takes the fields of the
-- proposal as they are.
use nguyen_dinh_b.Prelude.{Bool, false, ◌||◌, String, [], ◌∷◌, ◌==◌, any, codes, has_code, concat}
use nguyen_dinh_b.Json.{Json, str, arr, obj, Items, nil, cons, Fields, end, field, get_null}
use nguyen_dinh_b.Python.{attribute_error, Result, ok, err, PyText}
use nguyen_dinh_b.Allowlist.{Allowlist}
use nguyen_dinh_b.Probe.{SafeProbe}
use nguyen_dinh_b.Audit.{keys}
use nguyen_dinh_b.Run.Steps.{path_text}

-- the arguments of `SafeProbe`, where they are an object
abbrev pub entries : Json → Fields
entries (obj fs) = fs
entries _ = end

abbrev is_mark : String → Bool
is_mark s = s == "?" || s == "#"

abbrev has_mark_item : Items → Bool
has_mark_item nil = false
has_mark_item (cons (str s) items) = is_mark s || has_mark_item items
has_mark_item (cons _ items) = has_mark_item items

-- `"?" in path or "#" in path`, where that is no exception
abbrev has_mark : Json → Bool
has_mark (str s) = has_code b'?' (codes s) || has_code b'#' (codes s)
has_mark (arr items) = has_mark_item items
has_mark (obj fs) = any is_mark (keys fs)
has_mark _ = false

-- The inventory was read, and the request has a method or a path that is no text, but a path with a
-- mark; `is_allowed` refuses it before it uses either as a text.
unfoldable pub odd_route : Result SafeProbe → Result Allowlist → Fields → Bool
unfolding keys
odd_route (err attribute_error) (ok al) fs = has_mark (get_null "path" fs)
odd_route _ _ fs = false

module _ ⦃py : PyText⦄ where
  abbrev pub odd_reason : Fields → String
  odd_reason fs = concat (
      "'"
      ∷ path_text (get_null "method" fs)
      ∷ " "
      ∷ path_text (get_null "path" fs)
      ∷ "' không có trong allowlist Gateway."
      ∷ [])

-- the audit row and the event of that refusal
abbrev pub odd_row : (request_id : String) → Fields → (reason : String) → Fields
odd_row request_id fs reason = field "request_id" (str request_id) (
    field "method" (get_null "method" fs) (
      field "path" (get_null "path" fs) (
        field "payload_type" (get_null "payload_kind" fs) (
          field "status" (str "DENIED") (
            field "policy_decision" (str "DENIED") (
              field "error_class" (str "AllowlistViolation")
                (field "error_reason" (str reason) end)))))))

abbrev pub odd_detail : (request_id : String) → Fields → (reason : String) → Fields
odd_detail request_id fs reason = field "request_id" (str request_id) (
    field "method" (get_null "method" fs)
      (field "path" (get_null "path" fs) (field "reason" (str reason) end)))
