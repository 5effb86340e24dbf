-- ===== src/Redaction.antt =====
-- guardrails/redaction.py: masking of sensitive data. Python's `re` does the substitutions of the
-- patterns, so a pattern is its kind and its `subn`; everything the code does around them is here.
pub mod Events
pub mod Structure
use nguyen_dinh_b.Prelude.{
  ℕ, zero, suc, ◌+◌, ◌-◌, ◌*◌, ◌≤◌, ◌<◌, min, max, String, ◌≡◌, refl, sym, ap, ◌∙◌, ◌≢◌, ◌↔◌, ◌⊎◌,
  inl, inr, Bool, true, false, not, ◌&&◌, ◌||◌, false≢true, Option, none, some, List, [], ◌∷◌, ◌++◌,
  map, arith, ◌==◌, eq_iff, eq_refl, ltb, leb, eqb, if◌then◌else◌, leb→le, ltb→lt, Bool-cases,
  Option-cases, is_some, length, length-append, is_empty, All, Any, All-append, All-map, Any-map,
  Any-All, any, all, any-false, keep, find_first, find_first-some, find_first-none, codes, mem_str,
  mem_str-Any, Any-mem_str, has_code, has_prefix, ne_of_test, has_infix, is_blank, concat, repeat,
}
use nguyen_dinh_b.Prelude.Dict.{lookup, insert}
use nguyen_dinh_b.Json.{
  Json, null, bool, int, float, str, arr, obj, Items, nil, cons, Fields, end, field,
}

pub record RedactionEvent : Type 0 where
  pub kind : String
  pub count : ℕ

-- An entry of `_PATTERNS`; `subn text` is `pattern.subn(replacement, text)`.
pub record Pattern : Type 0 where
  pub kind : String
  pub subn : String → String × ℕ

-- `totals.get(kind, 0)`
abbrev pub total : String → List (String × ℕ) → ℕ
total kind totals = elim (lookup kind totals) [ none ↦ 0 | some n ↦ n ]

-- the loop of `merge_events`
unfoldable pub add_events : List (String × ℕ) → List RedactionEvent → List (String × ℕ)
add_events totals [] = totals
add_events totals (e ∷ es) = add_events (insert e.kind (total e.kind totals + e.count) totals) es

abbrev pub to_events : List (String × ℕ) → List RedactionEvent
to_events [] = []
to_events ((kind, count) ∷ totals) = record { kind = kind; count = count } ∷ to_events totals

unfoldable pub merge_events : List RedactionEvent → List RedactionEvent
unfolding add_events
merge_events events = to_events (add_events [] events)

-- the loop of `redact` over the patterns
unfoldable pub run_patterns :
    List Pattern → String → List RedactionEvent → String × List RedactionEvent
run_patterns [] result events = (result, events)
run_patterns (p ∷ ps) result events =
    let (next, count) = p.subn result in
    run_patterns ps next
      (if eqb count 0 then events else events ++ record { kind = p.kind; count = count } ∷ [])

unfoldable pub redact : List Pattern → String → String × List RedactionEvent
redact patterns text =
    if text == ""
    then (text, [])
    else let (result, events) = run_patterns patterns text [] in (result, merge_events events)

-- `SKIP_KEYS`: the keys whose values are evidence of provenance
abbrev pub skip_keys : List String
skip_keys =
    "prompt_sha256" ∷ "analysis_id" ∷ "run_id" ∷ "group_key" ∷ "request_id" ∷ "candidate_id"
    ∷ "objective_id" ∷ "proposal_id" ∷ "endpoint_id" ∷ "template_id" ∷ []

-- `isinstance(node, (dict, list, tuple, set))`
abbrev pub is_container : Json → Bool
is_container (arr _) = true
is_container (obj _) = true
is_container _ = false

-- `walk` of `redact_structure`. A value without cycles never meets its `seen` set. The events come
-- in the order of the walk.
module _ (patterns : List Pattern) where
  unfoldable mutual
    pub walk : Json → Json × List RedactionEvent
    walk (str s) = let (cleaned, found) = redact patterns s in (str cleaned, found)
    walk (arr vs) = let (ws, found) = walk_items vs in (arr ws, found)
    walk (obj fs) = let (gs, found) = walk_fields fs in (obj gs, found)
    walk v = (v, [])

    pub walk_items : Items → Items × List RedactionEvent
    walk_items nil = (nil, [])
    walk_items (cons v vs) =
        let (w, found) = walk v in let (ws, more) = walk_items vs in (cons w ws, found ++ more)

    pub walk_fields : Fields → Fields × List RedactionEvent
    walk_fields end = (end, [])
    walk_fields (field k v fs) =
        let walked = walk v in
        let (w, found) = if mem_str k skip_keys && not (is_container v) then (v, []) else walked in
        let (gs, more) = walk_fields fs in (field k w gs, found ++ more)

  unfoldable pub redact_structure : Json → Json × List RedactionEvent
  redact_structure value = let (cleaned, found) = walk value in (cleaned, merge_events found)
