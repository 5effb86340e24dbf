-- ===== src/Analysis/OutputSafety.antt =====
-- analysis/output_safety.py: the search for exploit payloads in what the model has written.
pub mod Clean
use nguyen_dinh_b.Prelude.{
  ℕ, zero, suc, ◌+◌, ◌-◌, ◌*◌, ◌≤◌, ◌<◌, min, max, String, ◌≡◌, refl, sym, ap, ◌∙◌, ◌≢◌, ◌↔◌, ◌⊎◌,
  inl, inr, Bool, true, false, not, ◌&&◌, ◌||◌, false≢true, Option, none, some, List, [], ◌∷◌, ◌++◌,
  map, arith, ◌==◌, eq_iff, eq_refl, ltb, leb, eqb, if◌then◌else◌, leb→le, ltb→lt, Bool-cases,
  Option-cases, is_some, length, length-append, is_empty, All, Any, All-append, All-map, Any-map,
  Any-All, any, all, any-false, keep, find_first, find_first-some, find_first-none, codes, mem_str,
  mem_str-Any, Any-mem_str, has_code, has_prefix, ne_of_test, has_infix, is_blank, split_space,
  strip, concat, repeat,
}
use nguyen_dinh_b.Json.{
  Json, null, bool, int, float, str, arr, obj, Items, nil, cons, Fields, end, field, get_null,
}
use nguyen_dinh_b.Python.{PyText}
use nguyen_dinh_b.Grouping.Build.{str_take}

-- An entry of `_UNSAFE`; `search text` is `match.group(0)` of `pattern.search(text)`.
pub record UnsafePattern : Type 0 where
  pub kind : String
  pub search : String → Option String

-- `AGENT_AUTHORED_FIELDS`
abbrev pub agent_authored_fields : List String
agent_authored_fields =
    "explanation" ∷ "confidence_rationale" ∷ "preconditions" ∷ "verification_steps" ∷ "remediation"
    ∷ "limitations" ∷ []

abbrev pub objective_fields : List String
objective_fields = "description" ∷ "rationale" ∷ "expected_signal" ∷ []

-- `_texts`
unfoldable mutual
  pub texts : Json → List String
  texts (str s) = s ∷ []
  texts (arr vs) = texts_items vs
  texts (obj fs) = texts_fields fs
  texts _ = []

  pub texts_items : Items → List String
  texts_items nil = []
  texts_items (cons v vs) = texts v ++ texts_items vs

  pub texts_fields : Fields → List String
  texts_fields end = []
  texts_fields (field k v fs) = texts v ++ texts_fields fs

module _ ⦃py : PyText⦄ where
  abbrev pub problem : (label kind found : String) → String
  problem label kind found =
      concat (label ∷ ": " ∷ kind ∷ " — " ∷ py.repr (str (str_take 60 found)) ∷ [])

  -- the loop of `_problems_in`
  unfoldable pub problems_by : List UnsafePattern → String → String → List String
  problems_by [] label text = []
  problems_by (p ∷ ps) label text =
      let more = problems_by ps label text in
      elim (p.search text) [ none ↦ more | some found ↦ problem label p.kind found ∷ more ]

-- the loop that leaves out what is in `seen`
unfoldable pub unique : List String → List String → List String
unique seen [] = []
unique seen (p ∷ ps) =
    let again = unique seen ps in
    let new = p ∷ unique (p ∷ seen) ps in if mem_str p seen then again else new

module _ ⦃py : PyText⦄ (unsafe : List UnsafePattern) where
  -- `_problems_in`
  abbrev pub problems_in : String → String → List String
  problems_in label text = problems_by unsafe label text

  unfoldable pub problems_of : String → List String → List String
  unfolding problems_by
  problems_of label [] = []
  problems_of label (t ∷ ts) = problems_in label t ++ problems_of label ts

  -- the loop over some fields, each under the label that `prefix` makes of its name
  unfoldable pub scan_fields : (prefix : String) → List String → Fields → List String
  unfolding problems_of texts
  scan_fields prefix [] fs = []
  scan_fields prefix (name ∷ names) fs =
      problems_of (concat (prefix ∷ name ∷ [])) (texts (get_null name fs))
      ++ scan_fields prefix names fs

  unfoldable pub scan_objective : Json → List String
  unfolding scan_fields
  scan_objective (obj os) = scan_fields "verification_objective." objective_fields os
  scan_objective _ = []

  unfoldable pub scan_unsafe_output : Json → List String
  unfolding scan_fields scan_objective unique
  scan_unsafe_output (obj fs) = unique [] (
      scan_fields "" agent_authored_fields fs
      ++ scan_objective (get_null "verification_objective" fs))
  scan_unsafe_output _ = []
