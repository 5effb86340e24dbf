-- ===== src/Run.antt =====
-- orchestrator/state.py and orchestrator/runner.py: the record of a run, its steps, and the execution of
-- a phase. The functions of the steps are parameters; the time is an argument.
pub mod Phase
pub mod Resume
pub mod Steps
pub mod Document
pub mod Probing
use nguyen_dinh_b.Prelude.{
  ℕ, zero, suc, ◌+◌, ◌-◌, ◌*◌, ◌≤◌, ◌<◌, min, max, String, ◌≡◌, refl, sym, ap, ◌∙◌, ◌≢◌, ◌↔◌, ◌⊎◌,
  inl, inr, Bool, true, false, not, ◌&&◌, ◌||◌, false≢true, Option, none, some, List, [], ◌∷◌, ◌++◌,
  map, arith, ◌==◌, eq_iff, eq_refl, ltb, leb, eqb, if◌then◌else◌, leb→le, ltb→lt, Bool-cases,
  Option-cases, is_some, length, length-append, is_empty, All, Any, All-append, All-map, Any-map,
  Any-All, any, all, any-false, keep, find_first, find_first-some, find_first-none, codes, mem_str,
  mem_str-Any, Any-mem_str, has_code, has_prefix, ne_of_test, has_infix, is_blank, split_space,
  strip, concat, repeat,
}
use nguyen_dinh_b.Prelude.Int.{ℤ, pos}
use nguyen_dinh_b.Json.{Json, null, str, obj, Fields, end, field}
use nguyen_dinh_b.Python.{Result, ok, err, value_error, key_error, raise_if, ◌>>=◌, ◌>>◌}

pub data RunState : Type 0 where
  idle scanning normalizing analyzing awaiting_approval probing scrubbing reporting done rejected
        failed :
      RunState

-- `RunState.is_terminal`
abbrev pub is_terminal : RunState → Bool
is_terminal done = true
is_terminal rejected = true
is_terminal failed = true
is_terminal _ = false

abbrev pub is_awaiting : RunState → Bool
is_awaiting awaiting_approval = true
is_awaiting _ = false

-- `record.state in (RunState.FAILED, RunState.AWAITING_APPROVAL)`
abbrev pub stops : RunState → Bool
stops failed = true
stops awaiting_approval = true
stops _ = false

abbrev pub step_names : List String
step_names =
    "scan" ∷ "normalize" ∷ "analyze" ∷ "propose" ∷ "approval" ∷ "probe" ∷ "scrub" ∷ "report"
    ∷ "finalize" ∷ []

abbrev pub valid_statuses : List String
valid_statuses = "pending" ∷ "running" ∷ "done" ∷ "failed" ∷ "skipped" ∷ []

-- `elapsed_ms` is counted in hundredths of a millisecond, to which the code rounds it.
pub record StepRecord : Type 0 where
  pub index : ℕ
  pub name : String
  pub status : String
  pub started_at : Option String
  pub finished_at : Option String
  pub elapsed_ms : ℤ
  pub detail : Option Json

-- `RunRecord` without its `root`, the directory of the run.
pub record RunRecord : Type 0 where
  pub run_id : String
  pub state : RunState
  pub created_at : String
  pub updated_at : String
  pub steps : List StepRecord
  pub error : Option String

-- `RunRecord.step`
unfoldable pub step : String → List StepRecord → Result StepRecord
step name [] = err key_error
step name (s ∷ ss) = if s.name == name then ok s else step name ss

-- an update of the step that `step` finds
unfoldable pub update_step : String → (StepRecord → StepRecord) → List StepRecord → List StepRecord
update_step name f [] = []
update_step name f (s ∷ ss) =
    let rest = update_step name f ss in if s.name == name then f s ∷ ss else s ∷ rest

-- the steps of `new_run`
abbrev pub numbered : ℕ → List String → List StepRecord
numbered i [] = []
numbered i (name ∷ names) =
    record {
      index = i;
      name = name;
      status = "pending";
      started_at = none;
      finished_at = none;
      elapsed_ms = pos 0;
      detail = none;
    }
    ∷ numbered (suc i) names

-- `new_run`, once the directory is made
abbrev pub new_run : (run_id now : String) → RunRecord
new_run run_id now = record {
  run_id = run_id;
  state = idle;
  created_at = now;
  updated_at = now;
  steps = numbered 1 step_names;
  error = none;
}

-- What a step does to the run: it returns the record, raises `StepFailure` or raises something else;
-- a step that raises may have changed the record before.
pub data Outcome : Type 0 where
  returns : RunRecord → Outcome
  fails : RunRecord → (message : String) → Outcome
  crashes : RunRecord → (message : String) → Outcome

abbrev pub StepFunction : Type 0
StepFunction = RunRecord → Outcome

abbrev pub Phase : Type 0
Phase = List (String × StepFunction)

-- What the execution of a phase does beside: a step function runs, `state.json` is written, a line is
-- appended to the log of the run.
pub data Trace : Type 0 where
  ran : String → Trace
  saved : RunRecord → Trace
  logged : (step level message : String) → Trace

-- `elapsed` is the time between two time stamps, which raises where `datetime.fromisoformat` does, and
-- `mask` is `redact`.
module _ (elapsed : String → String → Result ℤ) (mask : String → String) (now : String) where
  -- `target.elapsed_ms` after `mark_step`
  unfoldable pub span_of : String → StepRecord → Result ℤ
  span_of status s =
      let over = status == "done" || status == "failed" || status == "skipped" in
      elim s.started_at [
        | none ↦ ok s.elapsed_ms
        | some t ↦
            if not (status == "running") && over && not (t == "")
            then elapsed t now
            else ok s.elapsed_ms
      ]

  -- the effect of `mark_step` on the step itself
  unfoldable pub mark : String → ℤ → Option Json → StepRecord → StepRecord
  mark status span detail s =
      let running = status == "running" in
      let over = status == "done" || status == "failed" || status == "skipped" in
      record {
        index = s.index;
        name = s.name;
        status = status;
        started_at = if running then some now else s.started_at;
        finished_at = if running then none else if over then some now else s.finished_at;
        elapsed_ms = span;
        detail = elim detail [ none ↦ s.detail | some d ↦ some d ];
      }

  -- `RunRecord.mark_step`
  unfoldable pub mark_step : String → String → Option Json → RunRecord → Result RunRecord
  mark_step name status detail r = do
    raise_if (not (mem_str status valid_statuses)) value_error
    found ← step name r.steps
    span ← span_of status found
    ok (record {
      run_id = r.run_id;
      state = r.state;
      created_at = r.created_at;
      updated_at = now;
      steps = update_step name (mark status span detail) r.steps;
      error = r.error;
    })

  abbrev pub with_state : RunState → RunRecord → RunRecord
  with_state state r = record {
    run_id = r.run_id;
    state = state;
    created_at = r.created_at;
    updated_at = r.updated_at;
    steps = r.steps;
    error = r.error;
  }

  abbrev pub with_error : String → RunRecord → RunRecord
  with_error message r = record {
    run_id = r.run_id;
    state = failed;
    created_at = r.created_at;
    updated_at = r.updated_at;
    steps = r.steps;
    error = some message;
  }

  -- `_record_failure`
  unfoldable pub record_failure : String → String → RunRecord → Result (RunRecord × List Trace)
  record_failure name message r = do
    marked ← mark_step name "failed" (some (obj (field "error" (str (mask message)) end))) r
    let r1 = with_error (mask message) marked
    ok (r1, logged name "error" (mask message) ∷ saved r1 ∷ [])

  -- the start of a round of `_execute`
  unfoldable pub begin : String → RunRecord → Result (RunRecord × List Trace)
  begin name r = do
    s ← step name r.steps
    let started = (do marked ← mark_step name "running" none r; ok (marked, saved marked ∷ []))
    if s.status == "pending" then started else ok (r, [])

  -- the record after `record.state = terminal_state`
  abbrev pub kept_state : (before : RunState) → RunRecord → RunRecord
  kept_state before r = if is_terminal before then with_state before r else r

  -- the rest of a round; `rest` is the loop from the next round on
  unfoldable pub settle :
      String
      → (before : RunState) → (RunRecord → Result (RunRecord × List Trace))
      → Outcome
      → Result (RunRecord × List Trace)
  settle name before rest (fails r message) = record_failure name message r
  settle name before rest (crashes r message) =
      record_failure name (concat ("Lỗi ngoài dự kiến ở bước " ∷ name ∷ ": " ∷ message ∷ [])) r
  settle name before rest (returns r) =
      let r1 = kept_state before r in
      let later = (do more ← rest r1; ok (more.0, saved r1 ∷ more.1)) in
      if is_awaiting r1.state then ok (r1, saved r1 ∷ []) else later

  -- `_execute`
  unfoldable pub execute : Phase → RunRecord → Result (RunRecord × List Trace)
  execute [] r = ok (r, [])
  execute ((name, function) ∷ phase) r = do
    begun ← begin name r
    settled ← settle name r.state (execute phase) (function begun.0)
    ok (settled.0, begun.1 ++ ran name ∷ settled.1)

  -- the two calls of `_execute` in `execute_run`
  unfoldable pub execute_run : Phase → Phase → RunRecord → Result (RunRecord × List Trace)
  execute_run phase_one phase_two r = do
    first ← execute phase_one r
    let continued = (do
      second ← execute phase_two first.0
      ok (second.0, first.1 ++ second.1 ++ saved second.0 ∷ []))
    if stops first.0.state then ok first else continued
