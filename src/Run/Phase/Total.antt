-- ===== src/Run/Phase/Total.antt =====
-- A phase returns.
use nguyen_dinh_b.Prelude.{
  Bool, false, ◌&&◌, ◌||◌, some, Option-cases, if◌then◌else◌, String, ◌≡◌, refl, ap, ◌∙◌, inl, inr,
  true, not, Option, none, List, [], ◌∷◌, arith, ◌==◌, Bool-cases, All, mem_str,
}
use nguyen_dinh_b.Prelude.Int.{ℤ}
use nguyen_dinh_b.Json.{Json}
use nguyen_dinh_b.Python.{Result, ok, bind-eq, raise_if-eq}
use nguyen_dinh_b.Run.{
  is_terminal, span_of, RunState, is_awaiting, valid_statuses, StepRecord, RunRecord, step,
  update_step, Outcome, returns, fails, crashes, Phase, Trace, saved, mark, mark_step,
  record_failure, begin, kept_state, settle, execute,
}

-- The names of the steps of a record.
abbrev pub names : List StepRecord → List String
names [] = []
names (s ∷ ss) = s.name ∷ names ss

-- The record as a step leaves it.
abbrev pub left : Outcome → RunRecord
left (returns r) = r
left (fails r _) = r
left (crashes r _) = r

-- The record has a step of this name.
abbrev pub HasStep : RunRecord → String → Type 0
HasStep r name = mem_str name (names r.steps) ≡ true

step-found :
    (P : StepRecord → Type 0) (name : String) (ss : List StepRecord)
    → mem_str name (names ss) ≡ true
    → All P ss
    → (s : StepRecord) × (step name ss ≡ ok s) × P s
unfolding step mem_str
step-found P name [] h k = cc
step-found P name (s ∷ ss) h (p, k) = elim (Bool-cases (s.name == name)) [
  | inl e ↦ (s, rw e refl, p)
  | inr e ↦ let (t, found, q) = step-found P name ss (ground arith) k in (t, rw e found, q)
]

names-update_step :
    (name : String) (f : StepRecord → StepRecord) (ss : List StepRecord)
    → ((s : StepRecord) → (f s).name ≡ s.name)
    → names (update_step name f ss) ≡ names ss
unfolding update_step
names-update_step name f [] h = refl
names-update_step name f (s ∷ ss) h = elim (Bool-cases (s.name == name)) [
  | inl e ↦ rw e (ap (λ n. n ∷ names ss) (h s))
  | inr e ↦ rw e (ap (λ ns. s.name ∷ ns) (names-update_step name f ss h))
]

update_step-All :
    (P : StepRecord → Type 0) (name : String) (f : StepRecord → StepRecord) (ss : List StepRecord)
    → ((s : StepRecord) → P s → P (f s))
    → All P ss
    → All P (update_step name f ss)
unfolding update_step
update_step-All P name f [] h k = tt
update_step-All P name f (s ∷ ss) h (p, k) = elim (Bool-cases (s.name == name)) [
  | inl e ↦ rw e (h s p, k)
  | inr e ↦ rw e (p, update_step-All P name f ss h k)
]

some-eq : {A : Type 0} {a b : A} → some a ≡ some b → a ≡ b
some-eq h = cc

module _ (elapsed : String → String → Result ℤ) (mask : String → String) (now : String) where
  -- The time of the start of a step, if it has one, can be read.
  abbrev pub IsTimed : StepRecord → Type 0
  IsTimed s = (t : String) → s.started_at ≡ some t → (span : ℤ) × (elapsed t now ≡ ok span)

  -- The record has just the steps of these names, with times that can be read.
  abbrev pub IsSound : List String → RunRecord → Type 0
  IsSound all_names r = (names r.steps ≡ all_names) × All IsTimed r.steps

  module _ (now_reads : (span : ℤ) × (elapsed now now ≡ ok span)) where
    span_of-ok :
        (status : String) (s : StepRecord)
        → IsTimed s
        → (span : ℤ) × (span_of elapsed mask now status s ≡ ok span)
    unfolding span_of
    span_of-ok status s timed = elim (Option-cases s.started_at) [
      | inl e ↦ rw e (_, refl)
      | inr (t, e) ↦
          let over = status == "done" || status == "failed" || status == "skipped" in
          elim (Bool-cases (not (status == "running") && over && not (t == ""))) [
            | inl b ↦ rw (e, b) (timed t e)
            | inr b ↦ rw (e, b) (_, refl)
          ]
    ]

    started-IsTimed :
        (b : Bool) (s : StepRecord) (t : String)
        → IsTimed s
        → (if b then some now else s.started_at) ≡ some t
        → (span : ℤ) × (elapsed t now ≡ ok span)
    started-IsTimed true s t timed e = rw (← (some-eq e)) now_reads
    started-IsTimed false s t timed e = timed t e

    mark_step-ok :
        (all_names : List String) (name status : String) (detail : Option Json) (r : RunRecord)
        → mem_str status valid_statuses ≡ true
        → mem_str name all_names ≡ true
        → IsSound all_names r
        → (m : RunRecord) × (mark_step elapsed mask now name status detail r ≡ ok m)
          × IsSound all_names m
    unfolding mark_step mark
    mark_step-ok all_names name status detail r valid h (same, timed) =
        let (s, found, t) = step-found IsTimed name r.steps (rw same h) timed in
        let (span, e) = span_of-ok status s t in
        (
          _,
          raise_if-eq _ (ap not valid) (bind-eq _ s found (bind-eq _ span e refl)),
          (
            names-update_step name _ r.steps (λ t. refl) ∙ same,
            update_step-All IsTimed name _ r.steps
                (λ q k u v. started-IsTimed (status == "running") q u k v) timed,
          ),
        )

    record_failure-ok :
        (all_names : List String) (name message : String) (r : RunRecord)
        → mem_str name all_names ≡ true
        → IsSound all_names r
        → (out : RunRecord × List Trace) × (record_failure elapsed mask now name message r ≡ ok out)
    unfolding record_failure mem_str
    record_failure-ok all_names name message r h k =
        let (m, e, _) = mark_step-ok all_names name "failed" _ r refl h k in (_, bind-eq _ m e refl)

    begin-ok :
        (all_names : List String) (name : String) (r : RunRecord)
        → mem_str name all_names ≡ true
        → IsSound all_names r
        → (out : RunRecord × List Trace) × (begin elapsed mask now name r ≡ ok out)
          × IsSound all_names out.0
    unfolding begin mem_str
    begin-ok all_names name r h k =
        let (s, found, _) = step-found IsTimed name r.steps (rw (k.0) h) k.1 in
        let (m, e, sound) = mark_step-ok all_names name "running" none r refl h k in
        elim (Bool-cases (s.status == "pending")) [
          | inl p ↦ ((m, saved m ∷ []), bind-eq _ s found (rw p (bind-eq _ m e refl)), sound)
          | inr p ↦ ((r, []), bind-eq _ s found (rw p refl), k)
        ]

    kept_state-IsSound :
        (all_names : List String) (before : RunState) (r : RunRecord)
        → IsSound all_names r
        → IsSound all_names (kept_state elapsed mask now before r)
    kept_state-IsSound all_names before r k = elim (Bool-cases (is_terminal before)) [
      | inl e ↦ rw e k
      | inr e ↦ rw e k
    ]

    settle-ok :
        (all_names : List String) (name : String) (before : RunState)
        (rest : RunRecord → Result (RunRecord × List Trace))
        → mem_str name all_names ≡ true
        → ((r : RunRecord)
            → IsSound all_names r
            → (out : RunRecord × List Trace) × (rest r ≡ ok out))
        → (o : Outcome) → IsSound all_names (left o)
        → (out : RunRecord × List Trace) × (settle elapsed mask now name before rest o ≡ ok out)
    unfolding settle
    settle-ok all_names name before rest h ih (fails r message) k =
        record_failure-ok all_names name message r h k
    settle-ok all_names name before rest h ih (crashes r message) k =
        record_failure-ok all_names name _ r h k
    settle-ok all_names name before rest h ih (returns r) k =
        let r1 = kept_state elapsed mask now before r in
        let (more, m) = ih r1 (kept_state-IsSound all_names before r k) in
        elim (Bool-cases (is_awaiting r1.state)) [
          | inl a ↦ ((r1, saved r1 ∷ []), rw a refl)
          | inr a ↦ ((more.0, saved r1 ∷ more.1), rw a (bind-eq _ more m refl))
        ]

    execute-ok :
        (all_names : List String) (phase : Phase) (r : RunRecord)
        → All (λ p. mem_str p.0 all_names ≡ true) phase
        → All (λ p. (q : RunRecord) → IsSound all_names q → IsSound all_names (left (p.1 q))) phase
        → IsSound all_names r
        → (out : RunRecord × List Trace) × (execute elapsed mask now phase r ≡ ok out)
    unfolding execute
    execute-ok all_names [] r h k sound = ((r, []), refl)
    execute-ok all_names ((name, function) ∷ phase) r (h, hs) (k, ks) sound =
        let (begun, b, same) = begin-ok all_names name r h sound in
        let (settled, s) =
          settle-ok all_names name r.state (execute elapsed mask now phase) h
            (λ q. execute-ok all_names phase q hs ks) (function begun.0) (k begun.0 same) in
        (_, bind-eq _ begun b (bind-eq _ settled s refl))

    -- Where state.json and the log can be written, a phase returns, whether its steps succeed, fail or
    -- crash, if the record has a step of every name
    -- in it, the times at which its steps have started can be read and the present time can, and no
    -- step function changes the names of the steps or leaves a time of a start that cannot be read.
    pub execute-total :
        (phase : Phase) (r : RunRecord)
        → All (λ p. HasStep r p.0) phase
        → All IsTimed r.steps
        → All
            (λ p.
              (q : RunRecord) → IsSound (names r.steps) q → IsSound (names r.steps) (left (p.1 q)))
            phase
        → (out : RunRecord × List Trace) × (execute elapsed mask now phase r ≡ ok out)
    execute-total phase r h timed k = execute-ok (names r.steps) phase r h k (refl, timed)
