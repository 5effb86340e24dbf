-- ===== src/Analysis/Correlation.antt =====
-- analysis/correlation.py: which findings in source code stand behind a route that the dynamic scan has
-- reached. The routes that the regular expressions find in a file are a parameter.
pub mod Reached
use nguyen_dinh_b.Prelude.{
  ℕ, zero, suc, ◌+◌, ◌-◌, ◌*◌, ◌≤◌, ◌<◌, min, max, String, ◌≡◌, refl, sym, ap, ◌∙◌, ◌≢◌, ◌↔◌, ◌⊎◌,
  inl, inr, Bool, true, false, not, ◌&&◌, ◌||◌, false≢true, Option, none, some, List, [], ◌∷◌, ◌++◌,
  map, arith, ◌==◌, eq_iff, eq_refl, ltb, leb, eqb, if◌then◌else◌, leb→le, ltb→lt, Bool-cases,
  Option-cases, is_some, length, length-append, is_empty, All, Any, All-append, All-map, Any-map,
  Any-All, any, all, any-false, keep, find_first, find_first-some, find_first-none, codes, mem_str,
  mem_str-Any, Any-mem_str, has_code, has_prefix, ne_of_test, has_infix, is_blank, split_space,
  strip, rstrip, concat, repeat,
}
use nguyen_dinh_b.Prelude.Order.{str_leb, sort}
use nguyen_dinh_b.Json.{
  Json, null, str, arr, obj, Items, nil, cons, Fields, end, field, get, get_null, put, truthy,
}
use nguyen_dinh_b.Python.{Exc, key_error, Result, err, ok, ◌>>=◌, PyText}
use nguyen_dinh_b.Analysis.Provenance.{iterate, as_dict}
use nguyen_dinh_b.Grouping.Build.{text_items}
use Prim.Native.Char.{code}
use Prim.Native.String

-- `s.lstrip("/")`
unfoldable pub lstrip_slash : String → String
lstrip_slash String.[] = ""
lstrip_slash (String.◌∷◌ c s) =
    let rest = lstrip_slash s in if eqb (code c) 47 then rest else String.◌∷◌ c s

-- `s.rstrip("/")`
unfoldable pub rstrip_slash : String → String
rstrip_slash String.[] = ""
rstrip_slash (String.◌∷◌ c s) =
    let rest = rstrip_slash s in if rest == "" && eqb (code c) 47 then "" else String.◌∷◌ c rest

-- `s.strip("/")`
abbrev pub strip_slash : String → String
strip_slash s = rstrip_slash (lstrip_slash s)

-- `path.endswith(suffix)`
unfoldable pub ends_with : (suffix path : String) → Bool
ends_with suffix String.[] = "" == suffix
ends_with suffix (String.◌∷◌ c s) =
    let rest = ends_with suffix s in String.◌∷◌ c s == suffix || rest

-- `_join`
unfoldable pub join_route : Option String → String → String
join_route none suffix = concat ("/" ∷ lstrip_slash suffix ∷ [])
join_route (some prefix) suffix =
    if prefix == ""
    then concat ("/" ∷ lstrip_slash suffix ∷ [])
    else concat ("/" ∷ strip_slash prefix ∷ "/" ∷ lstrip_slash suffix ∷ [])

-- What the two patterns find in a file: where they match, and the route in the match.
pub record Mappings : Type 0 where
  pub class_match : Option (ℕ × String)
  pub method_matches : List (ℕ × String)

-- the loop over the matches in `extract_route`
unfoldable pub first_method : Option ℕ → List (ℕ × String) → Option String
first_method class_start [] = none
first_method none ((start, route) ∷ rest) = some route
first_method (some at_class) ((start, route) ∷ rest) =
    let later = first_method (some at_class) rest in
    if eqb start at_class then later else some route

abbrev start_of : Option (ℕ × String) → Option ℕ
start_of none = none
start_of (some (start, _)) = some start

abbrev prefix_of : Option (ℕ × String) → Option String
prefix_of none = none
prefix_of (some (_, prefix)) = some prefix

-- the route of a class without methods
abbrev class_route : Option String → Option String
class_route none = none
class_route (some prefix) = if prefix == "" then none else some (join_route none prefix)

-- `extract_route`, with nothing for a file that cannot be read
unfoldable pub extract_route : Option Mappings → Option String
extract_route none = none
extract_route (some m) = elim (first_method (start_of m.class_match) m.method_matches) [
  | some route ↦ some (join_route (prefix_of m.class_match) route)
  | none ↦ class_route (prefix_of m.class_match)
]

-- the end of a path that belongs to a route
abbrev pub suffix_of : String → String
suffix_of route = String.◌++◌ "/" (strip_slash route)

-- `_route_matches` on the paths in the order in which the set gives them
unfoldable pub route_matches : String → List String → Option String
route_matches route observed =
    find_first (λ path. path == suffix_of route || ends_with (suffix_of route) path) observed

abbrev pub distinct_ids : List String → List String
distinct_ids [] = []
distinct_ids (s ∷ ss) = let rest = distinct_ids ss in if mem_str s rest then rest else s ∷ rest

-- `alerts_by_path.get(path, [])`, where the dict is the list of its entries
abbrev pub alerts_at : String → List (String × String) → List String
alerts_at path [] = []
alerts_at path ((p, id) ∷ rest) =
    if p == path then id ∷ alerts_at path rest else alerts_at path rest

module _ ⦃py : PyText⦄ where
  -- `str(finding.get("tool")) == "zap"`
  abbrev pub is_zap : Fields → Bool
  is_zap fs = py.to_str (get_null "tool" fs) == "zap"

  -- `str(value or "")`
  abbrev pub text_or_empty : Json → String
  text_or_empty v = if truthy v then py.to_str v else ""

  -- the paths of the endpoints, as the elements of a set
  abbrev pub observed_paths : List Fields → List String
  observed_paths [] = []
  observed_paths (e ∷ es) =
      if truthy (get_null "path" e)
      then py.to_str (get_null "path" e) ∷ observed_paths es
      else observed_paths es

  -- `alerts_by_path.setdefault(path, []).append(str(finding["id"]))`, for a path that is not empty
  unfoldable pub alert_entry : String → Option Json → Result (List (String × String))
  alert_entry path none = if path == "" then ok [] else err key_error
  alert_entry path (some id) = if path == "" then ok [] else ok ((path, py.to_str id) ∷ [])

  -- the loop over the instances of an alert; `url_path` is `urlsplit(url).path`
  unfoldable pub instance_alerts :
      (String → Result String) → Fields → List Json → Result (List (String × String))
  instance_alerts url_path fs [] = ok []
  instance_alerts url_path fs (v ∷ vs) = do
    i ← as_dict v
    path ← url_path (text_or_empty (get_null "url" i))
    entry ← alert_entry path (get "id" fs)
    rest ← instance_alerts url_path fs vs
    ok (entry ++ rest)

  -- the loop that fills `alerts_by_path`
  unfoldable pub alerts_by_path :
      (String → Result String) → List Fields → Result (List (String × String))
  alerts_by_path url_path [] = ok []
  alerts_by_path url_path (fs ∷ rest) =
      let own = (do
        let given = get_null "instances" fs
        instances ← iterate (if truthy given then given else arr nil)
        found ← instance_alerts url_path fs instances
        more ← alerts_by_path url_path rest
        ok (found ++ more)) in
      let others = alerts_by_path url_path rest in if is_zap fs then own else others

  -- `{"route": …, …}`
  abbrev pub evidence_block :
      (route source observed : Json) (strength : String) → List String → Json
  evidence_block route source observed strength alerts = obj (
      field "route" route (
        field "route_source" source (
          field "observed" observed
            (field "strength" (str strength) (field "dast_alerts" (arr (text_items alerts)) end)))))

  -- the block of a finding with a route, by the path that matches it
  unfoldable pub block_for : (route source : String) → Option String → List (String × String) → Json
  block_for route source none alerts =
      evidence_block (str route) (str source) null "route_known_not_reached" []
  block_for route source (some path) alerts =
      let ids = sort str_leb (distinct_ids (alerts_at path alerts)) in
      evidence_block (str route) (str source) (str path)
        (if is_empty ids then "reachable" else "reachable_and_alerted") ids

  -- the route of a finding; `mappings` is what the file at a path under the root holds
  abbrev pub route_of : (String → Option Mappings) → Fields → Option String
  route_of mappings fs =
      let relative = text_or_empty (get_null "file_or_url" fs) in
      let route = extract_route (mappings relative) in if relative == "" then none else route

  -- `if not route`
  unfoldable pub block_of : Option String → String → List String → List (String × String) → Json
  block_of none relative observed alerts = evidence_block null null null "no_route" []
  block_of (some route) relative observed alerts =
      if route == ""
      then evidence_block null null null "no_route" []
      else block_for route relative (route_matches route observed) alerts

  -- one round of the last loop
  unfoldable pub correlate_one :
      (String → Option Mappings) → List String → List (String × String) → Fields → Fields
  correlate_one mappings observed alerts fs =
      let relative = text_or_empty (get_null "file_or_url" fs) in
      let block = block_of (route_of mappings fs) relative observed alerts in
      if is_zap fs then fs else put "runtime_evidence" block fs

  -- `correlate`; `order` is the order in which a set gives its elements
  unfoldable pub correlate :
      (String → Result String)
      → (String → Option Mappings)
      → (List String → List String)
      → List Fields
      → List Fields
      → Result (List Fields)
  correlate url_path mappings order findings endpoints = do
    alerts ← alerts_by_path url_path findings
    ok (map (correlate_one mappings (order (observed_paths endpoints)) alerts) findings)
