-- ===== src/Run/Resume/Once.antt =====
-- Phase two is entered at most once.
use nguyen_dinh_b.Prelude.{
  ℕ, suc, ◌≤◌, String, ◌≡◌, refl, sym, ap, ◌∙◌, ◌≢◌, ◌⊎◌, inl, inr, false, false≢true, Option, none,
  some, List, [], ◌∷◌, arith, eqb, Bool-cases, Option-cases, length,
}
use mathlib.Core.Path.{subst}
use nguyen_dinh_b.Run.Resume.{
  Move, acquire, load, choose, enter, finish, crash, save, decide, save_from, move, moves, at_rest,
}
use nguyen_dinh_b.Run.{RunState, awaiting_approval, probing, is_awaiting}
use nguyen_dinh_b.Run.Resume.{
  Disk, resume_refusal, claims, Place, outside, locked, running, loaded, claimed, World, is_outside,
  set_place, release, acquire_from, load_from, claim_key, choose_from, enter_from, finish_from,
  crash_from,
}

-- What the place of a process says about the state on disk.
abbrev IsHonest : Place → RunState → Type 0
IsHonest (loaded s) state = state ≡ s
IsHonest (claimed _) state = state ≡ awaiting_approval
IsHonest _ state = Unit

record IsOrderly (w : World) : Type 0 where
  quiet : (q : ℕ) → w.holder ≢ some q → w.places q ≡ outside
  honest : (q : ℕ) → IsHonest (w.places q) w.disk.state
  once : (w.probes ≡ []) ⊎ ((length w.probes ≡ 1) × (is_awaiting w.disk.state ≡ false))

-- A process inside is the one that holds the lock.
inside-holder :
    (w : World) → IsOrderly w → (p : ℕ) → is_outside (w.places p) ≡ false → w.holder ≡ some p
inside-holder w v p h = elim (Option-cases w.holder) [
  | inl e ↦ absurd (false≢true (sym h ∙ ap is_outside (v.quiet p (λ k. cc))))
  | inr (x, e) ↦ elim (Bool-cases (eqb x p)) [
    | inl same ↦ let k : x ≡ p = ground arith in e ∙ ap some k
    | inr other ↦
        absurd (
          false≢true (sym h ∙ ap is_outside (v.quiet p (λ k. let k2 : x ≡ p = cc in ground arith))))
  ]
]

-- The process `p` holds the lock, moves to `c`, and the state on disk becomes `state`.
held-IsOrderly :
    (w : World) (p : ℕ) (c : Place) (disk : Disk) (probes : List String)
    → IsOrderly w
    → w.holder ≡ some p
    → IsHonest c disk.state
    → (probes ≡ []) ⊎ ((length probes ≡ 1) × (is_awaiting disk.state ≡ false))
    → IsOrderly (record {
      disk = disk;
      holder = w.holder;
      places = set_place p c w.places;
      probes = probes;
    })
held-IsOrderly w p c disk probes v h honest once = record {
  quiet = λ q k. elim (Bool-cases (eqb p q)) [
    | inl e ↦ let same : p ≡ q = ground arith in absurd (k (h ∙ ap some same))
    | inr e ↦ rw e (v.quiet q k)
  ];
  honest = λ q. elim (Bool-cases (eqb p q)) [
    | inl e ↦ rw e honest
    | inr e ↦
        let other : w.holder ≢ some q = λ k. let same : p ≡ q = cc in ground arith in
        rw (e, v.quiet q other) tt
  ];
  once = once;
}

released-IsOrderly : (w : World) (p : ℕ) → IsOrderly w → w.holder ≡ some p → IsOrderly (release p w)
released-IsOrderly w p v h =
    let out : (q : ℕ) → set_place p outside w.places q ≡ outside = λ q.
      elim (Bool-cases (eqb p q)) [
        | inl e ↦ rw e refl
        | inr e ↦
            let other : w.holder ≢ some q = λ k. let same : p ≡ q = cc in ground arith in
            rw e (v.quiet q other)
      ] in
    record { quiet = λ q _. out q; honest = λ q. rw (out q) tt; once = v.once }

acquired-IsOrderly :
    (w : World) (p : ℕ) (o : Option ℕ) → w.holder ≡ o → IsOrderly w → IsOrderly (acquire_from p o w)
unfolding acquire_from
acquired-IsOrderly w p (some x) h v = v
acquired-IsOrderly w p none h v =
    let all_out : (q : ℕ) → w.places q ≡ outside = λ q. v.quiet q (λ k. cc) in
    record {
      quiet = λ q k. elim (Bool-cases (eqb p q)) [
        | inl e ↦ let same : p ≡ q = ground arith in absurd (k (ap some same))
        | inr e ↦ rw e (all_out q)
      ];
      honest = λ q. elim (Bool-cases (eqb p q)) [ inl e ↦ rw e tt | inr e ↦ rw (e, all_out q) tt ];
      once = v.once;
    }

-- Only a run that waits for its approval is claimed.
claims-awaiting :
    (hash : String → String) (run_id : String) (s : RunState) (disk : Disk) (key : String)
    → claims hash run_id s disk ≡ some key
    → s ≡ awaiting_approval
unfolding claims resume_refusal
claims-awaiting hash run_id awaiting_approval disk key h = refl
claims-awaiting hash run_id _ disk key h = absurd (cc h)

module _ (w : World) (p : ℕ) (v : IsOrderly w) where
  -- where a process stands that is not outside
  holds : (c : Place) → w.places p ≡ c → is_outside c ≡ false → w.holder ≡ some p
  holds c e h = inside-holder w v p (ap is_outside e ∙ h)

  load-IsOrderly : (c : Place) → w.places p ≡ c → IsOrderly (load_from p c w)
  unfolding load_from
  load-IsOrderly locked e =
      held-IsOrderly w p (loaded w.disk.state) w.disk w.probes v (holds locked e refl) refl v.once
  load-IsOrderly _ e = v

  claim-IsOrderly :
      (key : Option String)
      → w.holder ≡ some p
      → ((k : String) → key ≡ some k → w.disk.state ≡ awaiting_approval)
      → IsOrderly (claim_key p key w)
  unfolding claim_key
  claim-IsOrderly none h k = released-IsOrderly w p v h
  claim-IsOrderly (some key) h k =
      held-IsOrderly w p (claimed key)
        (record { state = w.disk.state; decision = w.disk.decision; claim = some key }) w.probes v h
        (k key refl) v.once

  choose-IsOrderly :
      (hash : String → String) (run_id : String) (c : Place)
      → w.places p ≡ c
      → IsOrderly (choose_from hash run_id p c w)
  unfolding choose_from
  choose-IsOrderly hash run_id (loaded s) e =
      let fresh : w.disk.state ≡ s = subst (λ c. IsHonest c w.disk.state) e (v.honest p) in
      claim-IsOrderly (claims hash run_id s w.disk) (holds (loaded s) e refl)
        (λ k h. fresh ∙ claims-awaiting hash run_id s w.disk k h)
  choose-IsOrderly hash run_id _ e = v

  enter-IsOrderly : (c : Place) → w.places p ≡ c → IsOrderly (enter_from p c w)
  unfolding enter_from
  enter-IsOrderly (claimed key) e =
      let waits : w.disk.state ≡ awaiting_approval =
        subst (λ c. IsHonest c w.disk.state) e (v.honest p) in
      let first : w.probes ≡ [] = elim v.once [
        | inl k ↦ k
        | inr (_, k) ↦ absurd (false≢true (sym k ∙ ap is_awaiting waits))
      ] in
      held-IsOrderly w p running
        (record { state = probing; decision = w.disk.decision; claim = w.disk.claim })
        (key ∷ w.probes) v (holds (claimed key) e refl) tt
        (inr (ap (λ ps. suc (length ps)) first, refl))
  enter-IsOrderly _ e = v

  finish-IsOrderly : (c : Place) → w.places p ≡ c → IsOrderly (finish_from p c w)
  unfolding finish_from
  finish-IsOrderly running e = released-IsOrderly w p v (holds running e refl)
  finish-IsOrderly _ e = v

  crash-IsOrderly : (c : Place) → w.places p ≡ c → IsOrderly (crash_from p c w)
  unfolding crash_from
  crash-IsOrderly outside e = v
  crash-IsOrderly c e = released-IsOrderly w p v (holds c e refl)

  saved-IsOrderly :
      (state : RunState)
      → is_awaiting state ≡ false
      → w.places p ≡ running
      → IsOrderly (record {
        disk = record { state = state; decision = w.disk.decision; claim = w.disk.claim };
        holder = w.holder;
        places = w.places;
        probes = w.probes;
      })
  saved-IsOrderly state h e =
      let mine = holds running e refl in
      record {
        quiet = v.quiet;
        honest = λ q. elim (Bool-cases (eqb p q)) [
          | inl k ↦
              let same : p ≡ q = ground arith in
              subst (λ x. IsHonest (w.places x) state) same (rw e tt)
          | inr k ↦
              let other : w.holder ≢ some q = λ k2. let same : p ≡ q = cc in ground arith in
              rw (v.quiet q other) tt
        ];
        once = elim v.once [ inl k ↦ inl k | inr (k, _) ↦ inr (k, h) ];
      }

  save-IsOrderly : (state : RunState) (c : Place) → w.places p ≡ c → IsOrderly (save_from state c w)
  unfolding save_from
  save-IsOrderly awaiting_approval c e = v
  save-IsOrderly state running e = saved-IsOrderly state refl e
  save-IsOrderly state _ e = v

module _ (hash : String → String) (run_id : String) where
  move-IsOrderly : (m : Move) (w : World) → IsOrderly w → IsOrderly (move hash run_id m w)
  unfolding move
  move-IsOrderly (acquire p) w v = elim (Bool-cases (is_outside (w.places p))) [
    | inl e ↦ rw e (acquired-IsOrderly w p w.holder refl v)
    | inr e ↦ rw e v
  ]
  move-IsOrderly (load p) w v = load-IsOrderly w p v (w.places p) refl
  move-IsOrderly (choose p) w v = choose-IsOrderly w p v hash run_id (w.places p) refl
  move-IsOrderly (enter p) w v = enter-IsOrderly w p v (w.places p) refl
  move-IsOrderly (save p state) w v = save-IsOrderly w p v state (w.places p) refl
  move-IsOrderly (finish p) w v = finish-IsOrderly w p v (w.places p) refl
  move-IsOrderly (crash p) w v = crash-IsOrderly w p v (w.places p) refl
  move-IsOrderly (decide decision) w v = record {
    quiet = v.quiet;
    honest = v.honest;
    once = v.once;
  }

  moves-IsOrderly : (ms : List Move) (w : World) → IsOrderly w → IsOrderly (moves hash run_id ms w)
  unfolding moves
  moves-IsOrderly [] w v = v
  moves-IsOrderly (m ∷ ms) w v = moves-IsOrderly ms (move hash run_id m w) (move-IsOrderly m w v)

  -- From a run on which nobody works: in whatever order any number of processes take the steps of
  -- `resume_run`, die or are turned away, and however the operator changes the decision, phase two is
  -- entered at most once, as long as none of its steps makes the run wait again.
  pub moves-once :
      (ms : List Move) (disk : Disk) → length (moves hash run_id ms (at_rest disk)).probes ≤ 1
  moves-once ms disk =
      let rest : IsOrderly (at_rest disk) = record {
        quiet = λ q _. refl;
        honest = λ q. tt;
        once = inl refl;
      } in
      elim (moves-IsOrderly ms (at_rest disk) rest).once [
        | inl e ↦ rw e (omega arith)
        | inr (e, _) ↦ rw e (omega arith)
      ]
