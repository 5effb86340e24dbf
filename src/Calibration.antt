-- ===== src/Calibration.antt =====
-- analysis/calibration.py: the conclusion of the model, lowered to what the evidence bears. The regular
-- expressions that find a denial in the prose are Python's: each is given by its `search`.
pub mod Ceiling
pub mod Record
use nguyen_dinh_b.Prelude.{
  ℕ, zero, suc, ◌+◌, ◌-◌, ◌*◌, ◌≤◌, ◌<◌, min, max, String, ◌≡◌, refl, sym, ap, ◌∙◌, ◌≢◌, ◌↔◌, ◌⊎◌,
  inl, inr, Bool, true, false, not, ◌&&◌, ◌||◌, false≢true, Option, none, some, List, [], ◌∷◌, ◌++◌,
  map, arith, ◌==◌, eq_iff, eq_refl, ltb, leb, eqb, if◌then◌else◌, leb→le, ltb→lt, Bool-cases,
  Option-cases, is_some, length, length-append, is_empty, All, Any, All-append, All-map, Any-map,
  Any-All, any, all, any-false, keep, find_first, find_first-some, find_first-none, codes, mem_str,
  mem_str-Any, Any-mem_str, has_code, has_prefix, ne_of_test, has_infix, is_blank, split_space,
  strip, concat, repeat,
}
use nguyen_dinh_b.Json.{
  is_str, Json, null, bool, int, float, str, arr, obj, Items, nil, cons, Fields, end, field, get,
  get_or, get_null, put, remove,
}
use nguyen_dinh_b.Python.{Result, ok, err, type_error}

-- The place of a severity in `SEVERITY_ORDER`, if it is one.
unfoldable pub rank : String → Option ℕ
rank severity =
    if severity == "info"
    then some 0
    else if severity == "low"
    then some 1
    else if severity == "medium"
    then some 2
    else if severity == "high"
    then some 3
    else if severity == "critical"
    then some 4
    else none

abbrev pub dispositions : List String
dispositions = "confirmed" ∷ "likely" ∷ "needs_review" ∷ "false_positive" ∷ []

abbrev pub proof_values : List String
proof_values = "proven" ∷ "not_proven" ∷ "not_applicable" ∷ []

-- `SEVERITY_CEILING[disposition]` for one of the four
unfoldable pub ceiling : String → String
ceiling disposition =
    if disposition == "confirmed"
    then "critical"
    else if disposition == "likely"
    then "high"
    else if disposition == "needs_review"
    then "medium"
    else "info"

pub record Calibration : Type 0 where
  pub rules : List String
  pub severity_from : Json
  pub severity_to : Json
  pub disposition_from : Json
  pub disposition_to : Json

abbrev pub untouched : List String → Calibration
untouched rules = record {
  rules = rules;
  severity_from = null;
  severity_to = null;
  disposition_from = null;
  disposition_to = null;
}

abbrev texts : List String → Items
texts [] = nil
texts (s ∷ ss) = cons (str s) (texts ss)

-- `Calibration.as_dict`
unfoldable pub as_dict : Calibration → Json
as_dict c = obj (
    field "rules" (arr (texts c.rules)) (
      field "severity_from" c.severity_from (
        field "severity_to" c.severity_to (
          field "disposition_from" c.disposition_from
            (field "disposition_to" c.disposition_to end)))))

-- `SEVERITY_ORDER.index(severity) <= SEVERITY_ORDER.index(ceiling)`, where both are there
abbrev pub exceeds : Option ℕ → Option ℕ → Bool
exceeds (some a) (some b) = not (leb a b)
exceeds _ _ = false

-- `_cap`
unfoldable pub cap : String → String → String
cap severity limit = if exceeds (rank severity) (rank limit) then limit else severity

-- the two rules on a severity that is a text
unfoldable pub limit_text :
    (not_proven : Bool) → (disposition severity : String) → List String → String × List String
limit_text not_proven disposition severity rules =
    let capped = cap severity (ceiling disposition) in
    let rules1 =
      if capped == severity then rules else rules ++ "severity_ceiling_for_disposition" ∷ [] in
    let lowered = if not_proven then cap capped "medium" else capped in
    (lowered, if lowered == capped then rules1 else rules1 ++ "attacker_control_not_proven" ∷ [])

unfoldable pub limit_severity :
    Json → (disposition : String) → Json → List String → Json × List String
limit_severity control disposition (str severity) rules =
    let (lowered, more) = limit_text (is_str "not_proven" control) disposition severity rules in
    (str lowered, more)
limit_severity control disposition severity rules = (severity, rules)

-- `severity != original_severity`: a value that is no text is never replaced
abbrev pub differs : Json → Json → Bool
differs (str a) (str b) = not (a == b)
differs _ _ = false

-- `if test: result[k] = v`
unfoldable pub put_if : Bool → String → Json → Fields → Fields
put_if test k v fs = if test then put k v fs else fs

-- `measured_reachability`: its value in the record, the value of `reachability`, and the rule that ran
unfoldable pub is_measured : Option String → Fields → Bool
is_measured none fs = false
is_measured (some m) fs = mem_str m proof_values && not (is_str m (get_null "reachability" fs))

abbrev pub measured_value : Option String → Json
measured_value none = null
measured_value (some m) = str m

-- the first rule on the disposition
abbrev pub needs_proof : (disposition : String) → (control reachability : Json) → Bool
needs_proof disposition control reachability =
    disposition == "confirmed" && not (is_str "proven" control && is_str "proven" reachability)

-- `disposition in _DISPOSITIONS_OPEN_TO_DENIAL`
abbrev pub is_open : String → Bool
is_open disposition = disposition == "confirmed" || disposition == "likely"

-- `attacker_control` after the rule on it
abbrev pub control_of : Json → Json
control_of claimed = if is_str "proven" claimed then str "not_proven" else claimed

-- the end: what changed is written into the record
unfoldable pub write_back :
    Fields
    → (original disposition : String) → (severity limited : Json) → List String
    → Fields × Calibration
write_back fs original disposition severity limited rules =
    let moved = not (disposition == original) in
    let cut = differs limited severity in
    let calibration : Calibration = record {
      rules = rules;
      severity_from = if cut then severity else null;
      severity_to = if cut then limited else null;
      disposition_from = if moved then str original else null;
      disposition_to = if moved then str disposition else null;
    } in
    let fs1 = put_if moved "disposition" (str disposition) fs in
    let fs2 = put_if cut "severity" limited fs1 in
    (put_if (not (is_empty rules)) "calibration" (as_dict calibration) fs2, calibration)

module _ (patterns : List (String → Bool)) where
  abbrev denies_text : Json → Bool
  denies_text (str text) = any (λ search. search text) patterns
  denies_text _ = false

  -- `_denies_the_vulnerability`
  unfoldable pub denies : Fields → Bool
  denies fs =
      denies_text (get_null "explanation" fs) || denies_text (get_null "confidence_rationale" fs)

  -- the disposition after the two rules on it, of which the second reads the prose in `fs`
  unfoldable pub final_disposition : Fields → String → (control reachability : Json) → String
  final_disposition fs original control reachability =
      let d1 = if needs_proof original control reachability then "needs_review" else original in
      if is_open d1 && denies fs then "needs_review" else d1

  -- the rules on the disposition that ran
  unfoldable pub disposition_rules :
      Fields → String → (control reachability : Json) → List String → List String
  disposition_rules fs original control reachability rules =
      let unproven = needs_proof original control reachability in
      let d1 = if unproven then "needs_review" else original in
      let more = if unproven then rules ++ "confirmed_requires_proof" ∷ [] else rules in
      if is_open d1 && denies fs && not (mem_str "prose_contradicts_disposition" more)
      then more ++ "prose_contradicts_disposition" ∷ []
      else more

  -- from the rule on `attacker_control` on: `fs` is the record so far
  unfoldable pub conclude : Fields → String → Json → List String → Fields × Calibration
  conclude fs original reachability rules =
      let severity = get_null "severity" fs in
      let claimed = get_null "attacker_control" fs in
      let lowers = is_str "proven" claimed in
      let control = control_of claimed in
      let fs1 = put_if lowers "attacker_control" (str "not_proven") fs in
      let rules1 = if lowers then rules ++ "attacker_control_unverifiable" ∷ [] else rules in
      let disposition = final_disposition fs1 original control reachability in
      let rules2 = disposition_rules fs1 original control reachability rules1 in
      let (limited, rules3) = limit_severity control disposition severity rules2 in
      write_back fs1 original disposition severity limited rules3

  -- the test on the disposition; a list or a `dict` is no member that could be looked for
  unfoldable pub calibrate_fields : Fields → Json → Json → List String → Result (Json × Calibration)
  calibrate_fields fs (str d) reachability rules =
      let (result, calibration) = conclude fs d reachability rules in
      if mem_str d dispositions then ok (obj result, calibration) else ok (obj fs, untouched rules)
  calibrate_fields fs (arr _) reachability rules = err type_error
  calibrate_fields fs (obj _) reachability rules = err type_error
  calibrate_fields fs _ reachability rules = ok (obj fs, untouched rules)

  unfoldable pub calibrate_record : Json → Option String → Result (Json × Calibration)
  calibrate_record (obj given) measured =
      let fs = remove "calibration" given in
      let taken = is_measured measured fs in
      let fs1 = put_if taken "reachability" (measured_value measured) fs in
      calibrate_fields fs1 (get_null "disposition" fs)
        (if taken then measured_value measured else get_null "reachability" fs)
        (if taken then "reachability_measured" ∷ [] else [])
  calibrate_record value measured = ok (value, untouched [])
