-- ===== src/Run/Resume.antt =====
-- orchestrator/run_lock.py and `resume_run` of orchestrator/runner.py: many processes that resume the
-- same run, in any order of their steps.
pub mod Once
use nguyen_dinh_b.Prelude.{
  ℕ, zero, suc, ◌+◌, ◌-◌, ◌*◌, ◌≤◌, ◌<◌, min, max, String, ◌≡◌, refl, sym, ap, ◌∙◌, ◌≢◌, ◌↔◌, ◌⊎◌,
  inl, inr, Bool, true, false, not, ◌&&◌, ◌||◌, false≢true, Option, none, some, List, [], ◌∷◌, ◌++◌,
  map, arith, ◌==◌, eq_iff, eq_refl, ltb, leb, eqb, if◌then◌else◌, leb→le, ltb→lt, Bool-cases,
  Option-cases, is_some, length, length-append, is_empty, All, Any, All-append, All-map, Any-map,
  Any-All, any, all, any-false, keep, find_first, find_first-some, find_first-none, codes, mem_str,
  mem_str-Any, Any-mem_str, has_code, has_prefix, ne_of_test, has_infix, is_blank, split_space,
  strip, concat, repeat,
}
use nguyen_dinh_b.Python.{PyText}
use nguyen_dinh_b.Run.{RunState, awaiting_approval, probing, is_terminal, is_awaiting}

-- the bytes of `decision.json`, or none
abbrev pub payload_or_empty : Option String → String
payload_or_empty none = ""
payload_or_empty (some text) = text

-- `idempotency_key`; `hash` is the first half of the SHA-256 of a text
unfoldable pub idempotency_key :
    (hash : String → String) → (run_id : String) → Option String → String
idempotency_key hash run_id decision =
    concat (run_id ∷ ":" ∷ hash (concat (run_id ∷ "\0" ∷ payload_or_empty decision ∷ [])) ∷ [])

-- The files of one run: the state in `state.json`, the text of `decision.json` and the key in
-- `probe-claim.json`, if there are such files and they can be read.
pub record Disk : Type 0 where
  pub state : RunState
  pub decision : Option String
  pub claim : Option String

pub data Refusal : Type 0 where
  ended not_awaiting undecided : Refusal

-- `_resume_refusal`
unfoldable pub resume_refusal : RunState → Option String → Option Refusal
resume_refusal state decision =
    if is_terminal state
    then some ended
    else if not (is_awaiting state)
    then some not_awaiting
    else elim decision [ none ↦ some undecided | some _ ↦ none ]

-- `claim is not None and claim.get("idempotency_key") == key`
abbrev pub is_claimed : Option String → String → Bool
is_claimed none key = false
is_claimed (some k) key = k == key

-- What `resume_run` does under the lock: the key that it claims, if it goes on, for the state that it
-- has loaded.
unfoldable pub claims :
    (hash : String → String) → (run_id : String) → RunState → Disk → Option String
claims hash run_id loaded disk = elim (resume_refusal loaded disk.decision) [
  | some _ ↦ none
  | none ↦
      let key = idempotency_key hash run_id disk.decision in
      if is_claimed disk.claim key then none else some key
]

-- Where a process stands in `resume_run`: outside, with the lock, with the state that it has loaded,
-- with the claim written, or in phase two.
pub data Place : Type 0 where
  outside locked running : Place
  loaded : RunState → Place
  claimed : String → Place

-- The run and all processes, with the process that holds `flock`, and the keys of the times that phase
-- two was entered.
pub record World : Type 0 where
  pub disk : Disk
  pub holder : Option ℕ
  pub places : ℕ → Place
  pub probes : List String

-- One step of a process, a change of `decision.json` by the operator, or the death of a process, on
-- which the system releases its lock. `save` is a `save_run` of phase two.
pub data Move : Type 0 where
  acquire load choose enter finish crash : ℕ → Move
  save : ℕ → RunState → Move
  decide : Option String → Move

abbrev pub is_outside : Place → Bool
is_outside outside = true
is_outside _ = false

abbrev pub set_place : ℕ → Place → (ℕ → Place) → ℕ → Place
set_place p c places q = if eqb p q then c else places q

abbrev pub at_place : ℕ → Place → World → World
at_place p c w = record {
  disk = w.disk;
  holder = w.holder;
  places = set_place p c w.places;
  probes = w.probes;
}

-- the end of `with run_lock(root)`
abbrev pub release : ℕ → World → World
release p w = record {
  disk = w.disk;
  holder = none;
  places = set_place p outside w.places;
  probes = w.probes;
}

-- `flock(handle, LOCK_EX | LOCK_NB)`: a second process is turned away.
unfoldable pub acquire_from : ℕ → Option ℕ → World → World
acquire_from p none w = record {
  disk = w.disk;
  holder = some p;
  places = set_place p locked w.places;
  probes = w.probes;
}
acquire_from p (some _) w = w

-- `load_run` under the lock
unfoldable pub load_from : ℕ → Place → World → World
load_from p locked w = at_place p (loaded w.disk.state) w
load_from p _ w = w

-- `write_claim`, where there is a key to claim
unfoldable pub claim_key : ℕ → Option String → World → World
claim_key p none w = release p w
claim_key p (some key) w = record {
  disk = record { state = w.disk.state; decision = w.disk.decision; claim = some key };
  holder = w.holder;
  places = set_place p (claimed key) w.places;
  probes = w.probes;
}

module _ (hash : String → String) (run_id : String) where
  unfoldable pub choose_from : ℕ → Place → World → World
  choose_from p (loaded state) w = claim_key p (claims hash run_id state w.disk) w
  choose_from p _ w = w

-- the new state is saved, and phase two begins
unfoldable pub enter_from : ℕ → Place → World → World
enter_from p (claimed key) w = record {
  disk = record { state = probing; decision = w.disk.decision; claim = w.disk.claim };
  holder = w.holder;
  places = set_place p running w.places;
  probes = key ∷ w.probes;
}
enter_from p _ w = w

-- No step of phase two makes a run wait again.
unfoldable pub save_from : RunState → Place → World → World
save_from awaiting_approval _ w = w
save_from state running w = record {
  disk = record { state = state; decision = w.disk.decision; claim = w.disk.claim };
  holder = w.holder;
  places = w.places;
  probes = w.probes;
}
save_from state _ w = w

unfoldable pub finish_from : ℕ → Place → World → World
finish_from p running w = release p w
finish_from p _ w = w

unfoldable pub crash_from : ℕ → Place → World → World
crash_from p outside w = w
crash_from p _ w = release p w

module _ (hash : String → String) (run_id : String) where
  unfoldable pub move : Move → World → World
  move (acquire p) w = if is_outside (w.places p) then acquire_from p w.holder w else w
  move (load p) w = load_from p (w.places p) w
  move (choose p) w = choose_from hash run_id p (w.places p) w
  move (enter p) w = enter_from p (w.places p) w
  move (save p state) w = save_from state (w.places p) w
  move (finish p) w = finish_from p (w.places p) w
  move (crash p) w = crash_from p (w.places p) w
  move (decide decision) w = record {
    disk = record { state = w.disk.state; decision = decision; claim = w.disk.claim };
    holder = w.holder;
    places = w.places;
    probes = w.probes;
  }

  unfoldable pub moves : List Move → World → World
  moves [] w = w
  moves (m ∷ ms) w = moves ms (move m w)

-- A run on which nobody works.
abbrev pub at_rest : Disk → World
at_rest disk = record { disk = disk; holder = none; places = λ _. outside; probes = [] }
