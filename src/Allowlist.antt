-- ===== src/Allowlist.antt =====
-- gateway/allowlist.py: the inventory of endpoints and reviewed templates, and its queries. The
-- construction of an inventory from the JSON file is in `Allowlist.Parse`.
pub mod Lookup
pub mod Parse
use nguyen_dinh_b.Prelude.{
  ℕ, String, Bool, true, false, not, ◌&&◌, ◌||◌, Option, none, some, List, [], ◌∷◌, ◌==◌,
  if◌then◌else◌, is_some, is_empty, any, find_first, codes, mem_str, has_code,
}
use nguyen_dinh_b.Prelude.Dict.{lookup}
use nguyen_dinh_b.Python.{PyText, Result, ok, value_error, raise_if, ◌>>◌}

pub record ProbeTemplate : Type 0 where
  pub template_id : String
  pub method : String
  pub payload_kind : Option String
  pub purpose : String
  pub source : String

pub record AllowlistRule : Type 0 where
  pub method : String
  pub path : String
  pub match : String
  pub endpoint_id : String
  pub allowed_template_ids : List String
  pub allowed_request_headers : List (String × List String)
  pub max_response_bytes : ℕ

pub record Allowlist : Type 0 where
  pub rules : List AllowlistRule
  pub templates : List (String × ProbeTemplate)

-- `Allowlist.__init__`
unfoldable pub init : List AllowlistRule → List (String × ProbeTemplate) → Result Allowlist
init rules templates = do
  raise_if (is_empty rules) value_error
  raise_if (any (λ r. not (r.match == "exact")) rules) value_error
  ok (record { rules = rules; templates = templates })

-- `a == b` on values that are a text or `None`
abbrev pub same : Option String → Option String → Bool
same none none = true
same (some a) (some b) = a == b
same _ _ = false

-- `rule.method == method and rule.path == path`
abbrev pub covers : AllowlistRule → String → String → Bool
covers r method path = r.method == method && r.path == path

-- a template that fits the method and the payload
abbrev pub fits : ProbeTemplate → String → Option String → Bool
fits t method kind = t.method == method && same t.payload_kind kind

abbrev pub fits? : Option ProbeTemplate → String → Option String → Bool
fits? none method kind = false
fits? (some t) method kind = fits t method kind

-- the loop over `rule.allowed_template_ids`
unfoldable pub pick_template :
    List (String × ProbeTemplate) → String → Option String → List String → Option String
pick_template templates method kind [] = none
pick_template templates method kind (id ∷ ids) =
    if fits? (lookup id templates) method kind
    then some id
    else pick_template templates method kind ids

-- the loop over the rules; a rule without a fitting template leaves it to the next ones
unfoldable pub resolve_in :
    List (String × ProbeTemplate)
    → String
    → String
    → Option String
    → List AllowlistRule
    → Option String
resolve_in templates method path kind [] = none
resolve_in templates method path kind (r ∷ rs) =
    let rest = resolve_in templates method path kind rs in
    if covers r method path
    then elim (pick_template templates method kind r.allowed_template_ids) [
      | some id ↦ some id
      | none ↦ rest
    ]
    else rest

-- The tests of one round of the loop of `is_allowed`, up to its first `return`.
abbrev pub admits : AllowlistRule → String → String → Option String → Option String → Bool
admits r method path endpoint_id template_id =
    covers r method path
    && elim endpoint_id [ none ↦ true | some e ↦ r.endpoint_id == e ]
    && elim template_id [ none ↦ true | some t ↦ mem_str t r.allowed_template_ids ]

module _ ⦃py : PyText⦄ where
  unfoldable pub get_rule : Allowlist → String → String → Option AllowlistRule
  get_rule al endpoint_id method =
      find_first (λ r. r.endpoint_id == endpoint_id && r.method == py.upper method) al.rules

  unfoldable pub resolve_template : Allowlist → String → String → Option String → Option String
  resolve_template al method path kind =
      resolve_in al.templates (py.upper method) path kind al.rules

  unfoldable pub is_allowed :
      Allowlist
      → String
      → String
      → (endpoint_id template_id payload_kind : Option String) → (enforce_template : Bool) → Bool
  is_allowed al method path endpoint_id template_id kind enforce =
      if has_code b'?' (codes path) || has_code b'#' (codes path)
      then false
      else if any (λ r. admits r (py.upper method) path endpoint_id template_id) al.rules
      then (if enforce || is_some kind
          then is_some (resolve_template al (py.upper method) path kind)
          else true)
      else false

  -- `allowlist.is_allowed(method, path)`
  abbrev pub is_listed : Allowlist → String → String → Bool
  is_listed al method path = is_allowed al method path none none none false

  -- `allowlist.is_allowed(method, path, payload_kind=kind, enforce_template=True)`
  abbrev pub is_reviewed : Allowlist → String → String → String → Bool
  is_reviewed al method path kind = is_allowed al method path none none (some kind) true
