-- ===== src/Allowlist/Parse.antt =====
-- `Allowlist.from_json` of gateway/allowlist.py, on the value that `json.loads` returns. A wrong
-- document raises; every message is left out.
pub mod Laws
use nguyen_dinh_b.Prelude.{
  ℕ, zero, suc, ◌+◌, ◌-◌, ◌*◌, ◌≤◌, ◌<◌, min, max, String, ◌≡◌, refl, sym, ap, ◌∙◌, ◌≢◌, ◌↔◌, ◌⊎◌,
  inl, inr, Bool, true, false, not, ◌&&◌, ◌||◌, false≢true, Option, none, some, List, [], ◌∷◌, ◌++◌,
  map, arith, ◌==◌, eq_iff, eq_refl, ltb, leb, eqb, if◌then◌else◌, leb→le, ltb→lt, Bool-cases,
  Option-cases, is_some, length, length-append, is_empty, All, Any, All-append, All-map, Any-map,
  Any-All, any, all, any-false, keep, find_first, find_first-some, find_first-none, codes, mem_str,
  mem_str-Any, Any-mem_str, has_code, has_prefix, ne_of_test, has_infix, is_blank, strip, concat,
  repeat,
}
use nguyen_dinh_b.Prelude.Int.{ℤ, pos}
use nguyen_dinh_b.Prelude.Dict.{lookup, insert, has_key}
use nguyen_dinh_b.Json.{
  Json, null, bool, int, str, arr, obj, Items, nil, Fields, end, field, items, truthy, get_or,
  get_null, as_str,
}
use nguyen_dinh_b.Python.{
  PyText, Result, ok, err, value_error, type_error, attribute_error, raise_if, need, ◌>>=◌, ◌>>◌,
}
use nguyen_dinh_b.Allowlist.{ProbeTemplate, AllowlistRule, Allowlist, init}

abbrev keys : Fields → List Json
keys end = []
keys (field k v fs) = str k ∷ keys fs

chars : String → List Json
chars String.[] = []
chars (String.◌∷◌ c s) = str (String.◌∷◌ c String.[]) ∷ chars s

-- `for x in value`
unfoldable pub iterate : Json → Result (List Json)
unfolding chars
iterate (arr vs) = ok (items vs)
iterate (obj fs) = ok (keys fs)
iterate (str s) = ok (chars s)
iterate _ = err type_error

-- `value or default`
abbrev pub or_else : Json → Json → Json
or_else v default = if truthy v then v else default

-- `method in {"GET", "POST"}`
abbrev pub is_method : String → Bool
is_method m = m == "GET" || m == "POST"

abbrev is_kind : Json → Bool
is_kind null = true
is_kind (str s) = true
is_kind _ = false

-- `isinstance(x, int)` and in 1 … 65536. `True` is the integer 1.
unfoldable pub response_limit : Json → Option ℕ
response_limit (int (pos n)) = if eqb n 0 || ltb 65536 n then none else some n
response_limit (bool true) = some 1
response_limit _ = none

-- The texts of a list whose elements are all non-empty texts.
unfoldable pub nonempty_texts : List Json → Option (List String)
nonempty_texts [] = some []
nonempty_texts (str s ∷ vs) = elim (nonempty_texts vs) [
  | none ↦ none
  | some ss ↦ if s == "" then none else some (s ∷ ss)
]
nonempty_texts (_ ∷ vs) = none

-- `[v for v in values if isinstance(v, str)]`
abbrev only_texts : List Json → List String
only_texts [] = []
only_texts (str s ∷ vs) = s ∷ only_texts vs
only_texts (_ ∷ vs) = only_texts vs

-- A `path` entry that a rule may have.
abbrev pub is_path : String → Bool
is_path p = has_prefix (codes "/") (codes p) && not (has_code b'?' (codes p))

abbrev as_list : Json → Option (List Json)
as_list (arr vs) = some (items vs)
as_list _ = none

-- What the guard of an endpoint entry lets through.
pub record Entry : Type 0 where
  pub endpoint_id : String
  pub path : String
  pub methods : List Json
  pub template_ids : List Json

-- The guard of an endpoint entry.
unfoldable pub check_entry : List String → Fields → Result Entry
check_entry seen_ids fs = do
  id ← need (as_str (get_null "endpoint_id" fs))
  path ← need (as_str (get_null "path" fs))
  methods ← need (as_list (get_null "allowed_methods" fs))
  ids ← need (as_list (get_null "allowed_template_ids" fs))
  raise_if
      (id == "" || mem_str id seen_ids || not (is_path path) || is_empty methods || is_empty ids)
      value_error
  ok (record { endpoint_id = id; path = path; methods = methods; template_ids = ids })

-- every template that a rule lists is registered
abbrev pub all_registered : List (String × ProbeTemplate) → List AllowlistRule → Bool
all_registered templates =
    all (λ (r : AllowlistRule). all (λ id. has_key id templates) r.allowed_template_ids)

module _ ⦃py : PyText⦄ where
  -- one round of the loop over the templates
  unfoldable pub add_template :
      List (String × ProbeTemplate) → Json → Result (List (String × ProbeTemplate))
  add_template templates (obj fs) = do
    id ← need (as_str (get_null "template_id" fs))
    let method = py.upper (py.to_str (get_or "method" (str "") fs))
    let kind = get_null "payload_kind" fs
    raise_if (id == "" || has_key id templates || not (is_method method) || not (is_kind kind))
        value_error
    let template : ProbeTemplate = record {
      template_id = id;
      method = method;
      payload_kind = as_str kind;
      purpose = py.to_str (get_or "purpose" (str "") fs);
      source = py.to_str (get_or "source" (str "") fs);
    }
    ok (insert id template templates)
  add_template templates _ = err value_error

  unfoldable pub parse_templates :
      List (String × ProbeTemplate) → List Json → Result (List (String × ProbeTemplate))
  parse_templates templates [] = ok templates
  parse_templates templates (v ∷ vs) = do more ← add_template templates v; parse_templates more vs

  -- The loop over `headers_policy.items()`.
  unfoldable pub parse_headers : List (String × List String) → Fields → List (String × List String)
  parse_headers parsed end = parsed
  parse_headers parsed (field name (arr vs) fs) =
      parse_headers (insert (py.casefold name) (only_texts (items vs)) parsed) fs
  parse_headers parsed (field name _ fs) = parse_headers parsed fs

  unfoldable pub headers_of : Json → List (String × List String)
  headers_of (obj fs) = parse_headers [] fs
  headers_of _ = []

  -- The loop over the methods of an endpoint.
  unfoldable pub rules_for :
      (endpoint_id path : String)
      → List String
      → List (String × List String)
      → ℕ
      → List Json
      → Result (List AllowlistRule)
  rules_for id path ids headers limit [] = ok []
  rules_for id path ids headers limit (v ∷ vs) =
      let method = py.upper (py.to_str v) in
      let rest = rules_for id path ids headers limit vs in
      if is_method method
      then (do
        rs ← rest
        ok (
            record {
              method = method;
              path = path;
              match = "exact";
              endpoint_id = id;
              allowed_template_ids = ids;
              allowed_request_headers = headers;
              max_response_bytes = limit;
            }
            ∷ rs))
      else err value_error

  -- One round of the loop over the endpoints: the rules that it appends, and its id.
  unfoldable pub parse_endpoint : List String → Json → Result (List AllowlistRule × String)
  parse_endpoint seen_ids (obj fs) = do
    entry ← check_entry seen_ids fs
    limit ← need (response_limit (get_or "max_response_bytes" (int (pos 65536)) fs))
    ids ← need (nonempty_texts entry.template_ids)
    let headers = headers_of (or_else (get_null "allowed_request_headers" fs) (obj end))
    rs ← rules_for entry.endpoint_id entry.path ids headers limit entry.methods
    ok (rs, entry.endpoint_id)
  parse_endpoint seen_ids _ = err attribute_error

  unfoldable pub parse_endpoints : List String → List Json → Result (List AllowlistRule)
  parse_endpoints seen_ids [] = ok []
  parse_endpoints seen_ids (v ∷ vs) = do
    (rs, id) ← parse_endpoint seen_ids v
    more ← parse_endpoints (id ∷ seen_ids) vs
    ok (rs ++ more)

  unfoldable pub from_json : Json → Result Allowlist
  from_json (obj fs) = do
    let endpoints = as_list (get_null "endpoints" fs)
    vs ← need endpoints
    raise_if (is_empty vs) value_error
    entries ← iterate (or_else (get_null "templates" fs) (arr nil))
    templates ← parse_templates [] entries
    rules ← parse_endpoints [] vs
    raise_if (not (all_registered templates rules)) value_error
    init rules templates
  from_json _ = err attribute_error
