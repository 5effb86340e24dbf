-- ===== src/Run/Document.antt =====
-- orchestrator/state.py: the JSON form of a run, as `state.json` holds it.
use nguyen_dinh_b.Prelude.{String, ◌≡◌, refl, Option, none, some, List, [], ◌∷◌, ◌==◌, find_first}
use nguyen_dinh_b.Prelude.Int.{pos}
use nguyen_dinh_b.Json.{Json, null, int, float, str, arr, obj, Items, nil, cons, end, field}
use nguyen_dinh_b.Python.{Result, ok, err, value_error}
use nguyen_dinh_b.Run.{
  RunState, idle, scanning, normalizing, analyzing, awaiting_approval, probing, scrubbing,
  reporting, done, rejected, failed, StepRecord, RunRecord,
}

-- the value of the `Enum`
abbrev pub state_text : RunState → String
state_text idle = "IDLE"
state_text scanning = "SCANNING"
state_text normalizing = "NORMALIZING"
state_text analyzing = "ANALYZING"
state_text awaiting_approval = "AWAITING_APPROVAL"
state_text probing = "PROBING"
state_text scrubbing = "SCRUBBING"
state_text reporting = "REPORTING"
state_text done = "DONE"
state_text rejected = "REJECTED"
state_text failed = "FAILED"

abbrev pub all_states : List RunState
all_states =
    idle ∷ scanning ∷ normalizing ∷ analyzing ∷ awaiting_approval ∷ probing ∷ scrubbing ∷ reporting
    ∷ done ∷ rejected ∷ failed ∷ []

-- `RunState(value)`
unfoldable pub state_of : Json → Result RunState
state_of (str text) = elim (find_first (λ s. state_text s == text) all_states) [
  | some s ↦ ok s
  | none ↦ err value_error
]
state_of _ = err value_error

abbrev pub text_or_null : Option String → Json
text_or_null none = null
text_or_null (some t) = str t

abbrev pub json_or_null : Option Json → Json
json_or_null none = null
json_or_null (some v) = v

-- `asdict(step)`
unfoldable pub step_to_dict : StepRecord → Json
step_to_dict s = obj (
    field "index" (int (pos s.index)) (
      field "name" (str s.name) (
        field "status" (str s.status) (
          field "started_at" (text_or_null s.started_at) (
            field "finished_at" (text_or_null s.finished_at) (
              field "elapsed_ms" (float s.elapsed_ms 2)
                (field "detail" (json_or_null s.detail) end)))))))

unfoldable pub steps_to_list : List StepRecord → Items
steps_to_list [] = nil
steps_to_list (s ∷ ss) = cons (step_to_dict s) (steps_to_list ss)

-- `RunRecord.to_dict`
unfoldable pub run_to_dict : RunRecord → Json
run_to_dict r = obj (
    field "run_id" (str r.run_id) (
      field "state" (str (state_text r.state)) (
        field "created_at" (str r.created_at) (
          field "updated_at" (str r.updated_at) (
            field "error" (text_or_null r.error)
              (field "steps" (arr (steps_to_list r.steps)) end))))))

-- Every state is read back from its value.
pub state_of-state_text : (s : RunState) → state_of (str (state_text s)) ≡ ok s
unfolding state_of find_first
state_of-state_text idle = refl
state_of-state_text scanning = refl
state_of-state_text normalizing = refl
state_of-state_text analyzing = refl
state_of-state_text awaiting_approval = refl
state_of-state_text probing = refl
state_of-state_text scrubbing = refl
state_of-state_text reporting = refl
state_of-state_text done = refl
state_of-state_text rejected = refl
state_of-state_text failed = refl
