-- ===== src/Run/Phase.antt =====
-- How a phase runs: its steps in order, the state it ends in, and what stands on disk after it.
pub mod Total
use nguyen_dinh_b.Prelude.{String, ◌≡◌, ◌⊎◌, Bool, true, not, List, [], ◌∷◌, map, if◌then◌else◌}
use nguyen_dinh_b.Prelude.Int.{ℤ}
use nguyen_dinh_b.Json.{Json}
use nguyen_dinh_b.Python.{Result}
use nguyen_dinh_b.Run.{
  RunState, failed, is_terminal, stops, RunRecord, Phase, Trace, ran, saved, logged,
}

-- The names of the steps that ran.
abbrev pub names_run : List Trace → List String
names_run [] = []
names_run (ran name ∷ es) = name ∷ names_run es
names_run (_ ∷ es) = names_run es

-- The record that stands on disk, after a run from one on which `r` stands.
abbrev pub on_disk : RunRecord → List Trace → RunRecord
on_disk r [] = r
on_disk r (saved s ∷ es) = on_disk s es
on_disk r (_ ∷ es) = on_disk r es

-- What is left of the phase after the steps `names`.
abbrev pub IsPrefix : Phase → List String → Bool → Type 0
IsPrefix phase [] whole = if whole then (map (λ p. p.0) phase ≡ []) else Unit {0}
IsPrefix [] (name ∷ names) whole = ⊥
IsPrefix ((n, _) ∷ phase) (name ∷ names) whole = (n ≡ name) × IsPrefix phase names whole

-- A step was recorded as failed.
abbrev pub HasFailed : List Trace → Type 0
HasFailed [] = ⊥
HasFailed (logged name level message ∷ es) = (level ≡ "error") ⊎ HasFailed es
HasFailed (_ ∷ es) = HasFailed es

-- The outcome of a phase that began in the state `before` with `r` on disk.
record IsExecuted (phase : Phase) (before : RunState) (r : RunRecord) (out : RunRecord × List Trace)
    : Type 0 where
  -- the steps that ran are the first ones of the phase, all of them unless the run stops
  in_order : IsPrefix phase (names_run out.1) (not (stops out.0.state))
  -- a terminal state stays, unless a step fails
  terminal :
      is_terminal before ≡ true
      → (out.0.state ≡ before) ⊎ ((out.0.state ≡ failed) × HasFailed out.1)
  -- the record on disk is the one that is returned
  durable : on_disk r out.1 ≡ out.0

module _ (elapsed : String → String → Result ℤ) (mask : String → String) (now : String) where
  -- what the part of a round after the step gives
  abbrev Settles : RunState → RunRecord × List Trace → Type 0
  Settles before out =
      (is_terminal before ≡ true
        → (out.0.state ≡ before) ⊎ ((out.0.state ≡ failed) × HasFailed out.1))
      × ((r : RunRecord) → on_disk r out.1 ≡ out.0)

  -- What a round gives after its step has run.
  record IsSettled (phase : Phase) (before : RunState) (out : RunRecord × List Trace) : Type 0 where
    in_order : IsPrefix phase (names_run out.1) (not (stops out.0.state))
    terminal :
        is_terminal before ≡ true
        → (out.0.state ≡ before) ⊎ ((out.0.state ≡ failed) × HasFailed out.1)
    durable : (d : RunRecord) → on_disk d out.1 ≡ out.0
