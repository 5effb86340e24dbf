-- ===== src/Examples/Inventory.antt =====
-- The theorems on the inventory and the proposal.
use nguyen_dinh_b.Prelude.{
  ℕ, zero, suc, ◌+◌, ◌-◌, ◌*◌, ◌≤◌, ◌<◌, min, max, String, ◌≡◌, refl, sym, ap, ◌∙◌, ◌≢◌, ◌↔◌, ◌⊎◌,
  inl, inr, Bool, true, false, not, ◌&&◌, ◌||◌, false≢true, Option, none, some, List, [], ◌∷◌, ◌++◌,
  map, arith, ◌==◌, eq_iff, eq_refl, ltb, leb, eqb, if◌then◌else◌, leb→le, ltb→lt, Bool-cases,
  Option-cases, is_some, length, length-append, is_empty, All, Any, All-append, All-map, Any-map,
  Any-All, any, all, any-false, keep, find_first, find_first-some, find_first-none, codes, mem_str,
  mem_str-Any, Any-mem_str, has_code, has_prefix, ne_of_test, has_infix, is_blank, split_space,
  strip, concat, repeat,
}
use nguyen_dinh_b.Json.{Json, str, arr, obj, nil, cons, end, field, get, get_or, truthy}
use nguyen_dinh_b.Python.{Result, ok, err, PyText}
use nguyen_dinh_b.Allowlist.{
  ProbeTemplate, AllowlistRule, Allowlist, is_allowed, is_listed, is_reviewed, resolve_template,
}
use nguyen_dinh_b.Allowlist.Lookup.{
  IsPlainPath, HasRule, Grants, resolve_template_sound, is_listed_iff, is_reviewed_iff,
}
use nguyen_dinh_b.Allowlist.Parse.{from_json}
use nguyen_dinh_b.Allowlist.Parse.Laws.{IsWellFormed, from_json-IsWellFormed}
use nguyen_dinh_b.Probe.{SafeProbe, HttpRequest, HttpResponse, empty_value}
use nguyen_dinh_b.Proposal.{validate_objective}
use nguyen_dinh_b.Proposal.Accepted.{IsCovered, validate_objective-IsCovered}
use nguyen_dinh_b.Merge.{Merged, HasOwnIds, merge_files, nothing_merged, merge_files-HasOwnIds}
use nguyen_dinh_b.Examples.{objective, plain_text, two_endpoints}

validate_objective-IsCovered_example :
    (probe : SafeProbe) × ((validate_objective objective two_endpoints).probe ≡ some probe)
    × IsCovered two_endpoints probe
unfolding validate_objective nguyen_dinh_b.Proposal.check_kind nguyen_dinh_b.Proposal.check_hint
    nguyen_dinh_b.Proposal.check_parts nguyen_dinh_b.Proposal.check_route
    nguyen_dinh_b.Allowlist.resolve_in nguyen_dinh_b.Allowlist.pick_template
    nguyen_dinh_b.Probe.payload_type nguyen_dinh_b.Prelude.Dict.lookup is_allowed resolve_template
    keep truthy get get_or split_space has_code has_prefix mem_str
validate_objective-IsCovered_example = validate_objective-IsCovered objective two_endpoints refl

abbrev document : Json
document = obj (
    field "endpoints"
      (arr (
        cons
          (obj (
            field "endpoint_id" (str "login") (
              field "path" (str "/login") (
                field "allowed_methods" (arr (cons (str "GET") nil))
                  (field "allowed_template_ids" (arr (cons (str "read") nil)) end)))))
          nil))
      (field "templates"
        (arr (cons (obj (field "template_id" (str "read") (field "method" (str "GET") end))) nil))
        end))

abbrev one_endpoint : Allowlist
one_endpoint = elim (from_json document) [ ok al ↦ al | err e ↦ two_endpoints ]

from_json-IsWellFormed_example : IsWellFormed one_endpoint
unfolding from_json nguyen_dinh_b.Allowlist.Parse.iterate
    nguyen_dinh_b.Allowlist.Parse.response_limit nguyen_dinh_b.Allowlist.Parse.nonempty_texts
    nguyen_dinh_b.Allowlist.Parse.check_entry nguyen_dinh_b.Allowlist.Parse.add_template
    nguyen_dinh_b.Allowlist.Parse.parse_templates nguyen_dinh_b.Allowlist.Parse.parse_headers
    nguyen_dinh_b.Allowlist.Parse.headers_of nguyen_dinh_b.Allowlist.Parse.rules_for
    nguyen_dinh_b.Allowlist.Parse.parse_endpoint nguyen_dinh_b.Allowlist.Parse.parse_endpoints
    nguyen_dinh_b.Allowlist.init nguyen_dinh_b.Python.◌>>=◌ nguyen_dinh_b.Python.◌>>◌
    nguyen_dinh_b.Python.raise_if nguyen_dinh_b.Python.need nguyen_dinh_b.Prelude.Dict.insert
    nguyen_dinh_b.Prelude.Dict.lookup truthy get get_or has_code has_prefix mem_str
from_json-IsWellFormed_example = from_json-IsWellFormed document one_endpoint refl

resolve_template_sound_example : Grants two_endpoints "POST" "/login" (some "empty_value") "empty"
unfolding resolve_template nguyen_dinh_b.Allowlist.resolve_in nguyen_dinh_b.Allowlist.pick_template
    nguyen_dinh_b.Prelude.Dict.lookup
resolve_template_sound_example =
    resolve_template_sound two_endpoints "POST" "/login" (some "empty_value") "empty" refl

is_listed_iff_example :
    (is_listed two_endpoints "GET" "/login" ≡ true)
    ↔ (IsPlainPath "/login" × HasRule two_endpoints "GET" "/login")
is_listed_iff_example = is_listed_iff two_endpoints "GET" "/login"

is_reviewed_iff_example : (is_reviewed two_endpoints "POST" "/login" "empty_value" ≡ true) ↔ (
    IsPlainPath "/login"
    × (id : String) × Grants two_endpoints "POST" "/login" (some "empty_value") id)
is_reviewed_iff_example = is_reviewed_iff two_endpoints "POST" "/login" "empty_value" refl

abbrev scanner_file : Json
scanner_file = obj (
    field "source" (str "zap") (
      field "findings"
        (arr (cons (obj (field "id" (str "f1") end)) (cons (obj (field "id" (str "f2") end)) nil)))
        end))

abbrev one_file : List (String × Json)
one_file = ("a.json", scanner_file) ∷ []

abbrev merged_file : Merged
merged_file = elim (merge_files nothing_merged one_file) [ ok out ↦ out | err e ↦ nothing_merged ]

merge_files-HasOwnIds_example :
    HasOwnIds merged_file.findings × (length merged_file.sources ≡ length one_file)
unfolding merge_files nguyen_dinh_b.Python.◌>>=◌ nguyen_dinh_b.Merge.findings_of get_or get
    nguyen_dinh_b.Merge.add_findings nguyen_dinh_b.Python.◌>>◌ nguyen_dinh_b.Python.raise_if truthy
    mem_str
merge_files-HasOwnIds_example = merge_files-HasOwnIds one_file merged_file refl
