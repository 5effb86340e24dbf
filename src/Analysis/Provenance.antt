-- ===== src/Analysis/Provenance.antt =====
-- analysis/validators.py: `validate_provenance`, the comparison of a response of the model with the
-- packet that it was given. Each of the numbered rules of the code is a function that returns the
-- messages of the rule, or raises where the code does: it runs on responses that the schema has
-- refused as well. `py.equal` is `==`.
pub mod Laws
pub mod Evidence
pub mod Faithful
use nguyen_dinh_b.Prelude.{
  ℕ, zero, suc, ◌+◌, ◌-◌, ◌*◌, ◌≤◌, ◌<◌, min, max, String, ◌≡◌, refl, sym, ap, ◌∙◌, ◌≢◌, ◌↔◌, ◌⊎◌,
  inl, inr, Bool, true, false, not, ◌&&◌, ◌||◌, false≢true, Option, none, some, List, [], ◌∷◌, ◌++◌,
  map, arith, ◌==◌, eq_iff, eq_refl, ltb, leb, eqb, if◌then◌else◌, leb→le, ltb→lt, Bool-cases,
  Option-cases, is_some, length, length-append, is_empty, All, Any, All-append, All-map, Any-map,
  Any-All, any, all, any-false, keep, find_first, find_first-some, find_first-none, codes, mem_str,
  mem_str-Any, Any-mem_str, has_code, has_prefix, ne_of_test, has_infix, is_blank, split_space,
  strip, rstrip, concat, repeat,
}
use nguyen_dinh_b.Prelude.Order.{str_leb, sort}
use nguyen_dinh_b.Prelude.Lines.{replace_all, splitlines, join_lines}
use nguyen_dinh_b.Json.{
  Json, null, bool, int, float, str, arr, obj, Items, nil, cons, Fields, end, field, items, get,
  get_or, get_null, is_str, is_obj, truthy,
}
use nguyen_dinh_b.Python.{
  Exc, type_error, attribute_error, Result, err, ok, ◌>>=◌, ◌>>◌, raise_if, PyText,
}
use Prim.Native.String

-- `hash(value)` returns
abbrev pub hashable : Json → Bool
hashable (arr _) = false
hashable (obj _) = false
hashable _ = true

abbrev chars : String → List Json
chars String.[] = []
chars (String.◌∷◌ c s) = str (String.◌∷◌ c "") ∷ chars s

abbrev keys : Fields → List Json
keys end = []
keys (field k v fs) = str k ∷ keys fs

-- `for x in value`
unfoldable pub iterate : Json → Result (List Json)
iterate (arr vs) = ok (items vs)
iterate (str s) = ok (chars s)
iterate (obj fs) = ok (keys fs)
iterate _ = err type_error

-- `value.get`, which only a `dict` has
unfoldable pub as_dict : Json → Result Fields
as_dict (obj fs) = ok fs
as_dict _ = err attribute_error

-- `x if isinstance(x, list) else []`
abbrev pub list_or_empty : Json → List Json
list_or_empty (arr vs) = items vs
list_or_empty _ = []

-- an element of a set of values, or of a dict keyed by them
unfoldable pub hashed : Json → Result Json
hashed v = if hashable v then ok v else err type_error

unfoldable pub hashed_all : List Json → Result (List Json)
hashed_all [] = ok []
hashed_all (v ∷ vs) = do h ← hashed v; rest ← hashed_all vs; ok (h ∷ rest)

abbrev pub messages : (Json → Bool) → (Json → String) → List Json → List String
messages bad message [] = []
messages bad message (v ∷ vs) =
    let rest = messages bad message vs in if bad v then message v ∷ rest else rest

-- the entries of a list of `dict`s under a key that they have
abbrev pub under : String → List Json → List Json
under key [] = []
under key (obj fs ∷ vs) = elim (get key fs) [ none ↦ under key vs | some v ↦ v ∷ under key vs ]
under key (_ ∷ vs) = under key vs

-- `(loc["file"], loc["line"])`, where the entry has both; a pair is a list of two
abbrev pub pair : Json → Json → Json
pair a b = arr (cons a (cons b nil))

unfoldable pub spots : List Json → Result (List Json)
spots [] = ok []
spots (obj fs ∷ vs) = elim (get "file" fs) [
  | none ↦ spots vs
  | some file ↦ elim (get "line" fs) [
    | none ↦ spots vs
    | some line ↦ do f ← hashed file; l ← hashed line; rest ← spots vs; ok (pair f l ∷ rest)
  ]
]
spots (_ ∷ vs) = spots vs

module _ ⦃py : PyText⦄ where
  -- `x in values`
  abbrev pub mem : Json → List Json → Bool
  mem x values = any (py.equal x) values

  -- the elements of a set, each once
  unfoldable pub set_of : List Json → List Json
  set_of [] = []
  set_of (v ∷ vs) = let rest = set_of vs in if mem v rest then rest else v ∷ rest

  -- `sorted(a - b, key=str)`
  unfoldable pub difference : (Json → String) → List Json → List Json → List Json
  unfolding set_of
  difference shown a b =
      sort (λ x y. str_leb (shown x) (shown y)) (keep (λ v. not (mem v b)) (set_of a))

  -- `str` of a pair of a file and a line
  abbrev pub pair_text : Json → String
  pair_text (arr (cons a (cons b nil))) = concat ("(" ∷ py.repr a ∷ ", " ∷ py.repr b ∷ ")" ∷ [])
  pair_text v = py.to_str v

  abbrev pub quoted : (before after : String) → (Json → String) → Json → String
  quoted before after shown v = concat (before ∷ shown v ∷ after ∷ [])

  -- rule 1
  unfoldable pub id_errors : List Json → List String → List String
  id_errors rec_ids ids =
      messages (λ fid. not (any (λ s. py.equal fid (str s)) ids))
        (quoted "Invented source_finding_id '" "' not present in input group" py.to_str) rec_ids
      ++ messages (λ fid. not (mem fid rec_ids))
          (quoted "Dropped source_finding_id '" "' supplied in the input group" py.to_str)
          (map str ids)

  -- one half of rule 2: what was invented, then what was dropped
  abbrev pub set_errors : (Json → String) → String → List Json → List Json → List String
  set_errors shown what said given =
      map (quoted (concat ("Invented " ∷ what ∷ " '" ∷ [])) "' not present in input group" shown)
        (difference shown said given)
      ++ map (quoted (concat ("Dropped " ∷ what ∷ " '" ∷ [])) "' supplied in the input group" shown)
          (difference shown given said)

  -- rule 2
  unfoldable pub location_errors : List Json → List Json → Result (List String)
  unfolding difference spots hashed_all
  location_errors rec_locs locations = do
    given ← spots locations
    given_urls ← hashed_all (under "url" locations)
    said ← spots rec_locs
    said_urls ← hashed_all (under "url" rec_locs)
    ok (
        set_errors pair_text "location" said given
        ++ set_errors py.to_str "URL location" said_urls given_urls)

  -- rule 3
  unfoldable pub knowledge_errors : List Json → List String → Result (List String)
  unfolding as_dict
  knowledge_errors [] paths = ok []
  knowledge_errors (kref ∷ krefs) paths = do
    fs ← as_dict kref
    rest ← knowledge_errors krefs paths
    ok (
        messages (λ path. not (any (λ s. py.equal path (str s)) paths))
          (quoted "Invented knowledge_ref path '" "' not in retrieved hits" py.to_str)
          (get_null "path" fs ∷ [])
        ++ rest)

  -- rules 4 and 5
  unfoldable pub class_errors : String → List Json → List String → Result (List String)
  unfolding hashed_all
  class_errors what said given = do
    values ← hashed_all said
    ok (
        messages (λ c. not (any (λ s. py.equal c (str s)) given))
          (quoted (concat ("Invented " ∷ what ∷ " '" ∷ [])) "' not present in input group"
            py.to_str)
          values)

  -- `{ev.get("path") for ev in input_source_evidence if ev.get("path")}`
  abbrev pub evidence_paths : List Fields → List Json
  evidence_paths [] = []
  evidence_paths (ev ∷ evs) =
      let path = get_null "path" ev in
      if truthy path then path ∷ evidence_paths evs else evidence_paths evs

  -- rule 6
  unfoldable pub source_errors : List Json → List Json → Result (List String)
  unfolding as_dict hashed
  source_errors [] paths = ok []
  source_errors (item ∷ rest) paths = do
    ev ← as_dict item
    let path = get_null "path" ev
    let test = is_str "source" (get_null "type" ev)
    raise_if (test && truthy path && not (hashable path)) type_error
    more ← source_errors rest paths
    ok (
        if test && (not (truthy path) || not (mem path paths))
        then quoted "Invented source evidence path '" "' not present in input evidence" py.to_str
            path
          ∷ more
        else more)

  -- rule 7
  unfoldable pub group_errors : Json → Option String → List String
  group_errors said none = []
  group_errors said (some key) =
      if py.equal said (str key)
      then []
      else concat ("group_key '" ∷ py.to_str said ∷ "' khong khop input '" ∷ key ∷ "'" ∷ []) ∷ []

  -- `_normalise_evidence_content`
  unfoldable pub normalise_content : Json → String
  normalise_content (str s) =
      let bare =
        replace_all "</untrusted_app_response>"
          (replace_all "<untrusted_app_response>" (strip s)) in
      join_lines (map (λ l. rstrip l) (splitlines (strip bare)))
  normalise_content _ = ""

  -- the test of rule 8 on a candidate
  abbrev pub same_evidence : Fields → Fields → Bool
  same_evidence ev candidate =
      normalise_content (get_null "content" ev) == normalise_content (get_null "content" candidate)
      && py.equal (get_null "start_line" ev) (get_null "start_line" candidate)
      && py.equal (get_null "end_line" ev) (get_null "end_line" candidate)

  -- `by_path.get(path, [])`
  abbrev pub candidates : Json → List Fields → List Fields
  candidates (str path) evs = keep (λ ev. is_str path (get_null "path" ev)) evs
  candidates _ evs = []

  -- one round of rule 8
  unfoldable pub content_error : Json → List Fields → List String
  unfolding normalise_content
  content_error (obj ev) given =
      let path = get_null "path" ev in
      let found = candidates path given in
      if is_str "source" (get_null "type" ev)
        && not (is_empty found)
        && not (any (same_evidence ev) found)
      then concat (
          "Source evidence cho '"
          ∷ py.to_str path
          ∷ "' khong khop input: content/start_line/end_line da bi doi hoac bia ra"
          ∷ [])
        ∷ []
      else []
  content_error _ given = []

  unfoldable pub content_errors : List Json → List Fields → List String
  unfolding content_error
  content_errors [] given = []
  content_errors (item ∷ rest) given = content_error item given ++ content_errors rest given

  -- `scores.get(path)` of the dict that the hits give, of which the last for a path stays
  unfoldable pub score_of : Json → List Fields → Option Json
  score_of path [] = none
  score_of path (hit ∷ hits) = elim (score_of path hits) [
    | some score ↦ some score
    | none ↦ if py.equal path (get_null "path" hit) then some (get_null "score" hit) else none
  ]

  -- one round of rule 9
  unfoldable pub score_error : Fields → List Fields → List String
  unfolding score_of
  score_error kref hits =
      let path = get_null "path" kref in
      let said = get_null "score" kref in
      elim (score_of path hits) [
        | none ↦ []
        | some score ↦
            if py.equal said score
            then []
            else concat (
                "knowledge_ref '"
                ∷ py.to_str path
                ∷ "' co score "
                ∷ py.to_str said
                ∷ " khong khop score that "
                ∷ py.to_str score
                ∷ [])
              ∷ []
      ]

  -- rule 9; an entry that is no `dict` is passed over
  unfoldable pub score_errors : List Json → List Fields → Result (List String)
  unfolding hashed score_error
  score_errors [] hits = ok []
  score_errors (obj kref ∷ krefs) hits = do
    path ← hashed (get_null "path" kref)
    rest ← score_errors krefs hits
    ok (score_error kref hits ++ rest)
  score_errors (_ ∷ krefs) hits = score_errors krefs hits

-- The arguments of `validate_provenance` beside the record; a missing list is an empty one.
pub record Supplied : Type 0 where
  pub finding_ids : List String
  pub locations : List Json
  pub knowledge_paths : List String
  pub cwes : List String
  pub owasps : List String
  pub source_evidence : List Fields
  pub group_key : Option String
  pub knowledge_hits : List Fields

-- `record_dict.get(key, [])`
abbrev pub get_list : String → Fields → Json
get_list key fs = get_or key (arr nil) fs

module _ ⦃py : PyText⦄ where
  -- rules 8 and 9, for which the evidence and the hits are asked first
  abbrev pub content_rule : List Json → Supplied → List String
  content_rule evidence s =
      if is_empty s.source_evidence then [] else content_errors evidence s.source_evidence

  unfoldable pub score_rule : List Json → Supplied → Result (List String)
  unfolding score_errors
  score_rule krefs s = if is_empty s.knowledge_hits then ok [] else do
    _ ← hashed_all (map (λ hit. get_null "path" hit) s.knowledge_hits)
    score_errors krefs s.knowledge_hits

  -- the messages of all the rules
  unfoldable pub provenance_errors : Fields → Supplied → Result (List String)
  unfolding location_errors iterate knowledge_errors class_errors source_errors score_rule id_errors
      group_errors content_errors
  provenance_errors fs s = do
    let rec_ids = list_or_empty (get_list "source_finding_ids" fs)
    locations ← location_errors (list_or_empty (get_list "locations" fs)) s.locations
    krefs ← iterate (get_list "knowledge_refs" fs)
    knowledge ← knowledge_errors krefs s.knowledge_paths
    cwe ← iterate (get_list "cwe" fs)
    cwes ← class_errors "CWE" cwe s.cwes
    owasp ← iterate (get_list "owasp" fs)
    owasps ← class_errors "OWASP" owasp s.owasps
    paths ← hashed_all (evidence_paths s.source_evidence)
    evidence ← iterate (get_list "evidence" fs)
    sources ← source_errors evidence paths
    scores ← score_rule krefs s
    ok (
        id_errors rec_ids s.finding_ids
        ++ (locations
            ++ (knowledge
                ++ (cwes
                    ++ (owasps
                        ++ (sources
                            ++ (group_errors (get_null "group_key" fs) s.group_key
                                ++ (content_rule evidence s ++ scores))))))))

  unfoldable pub validate_provenance : Fields → Supplied → Result (Bool × List String)
  unfolding provenance_errors
  validate_provenance fs s = do errors ← provenance_errors fs s; ok (is_empty errors, errors)
