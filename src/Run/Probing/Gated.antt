-- ===== src/Run/Probing/Gated.antt =====
-- What `step_probe` may send.
use nguyen_dinh_b.Prelude.{
  String, ◌≡◌, refl, ap, ◌∙◌, ◌⊎◌, inl, inr, true, Option, none, some, List, [], ◌∷◌, ◌++◌, map,
  Bool-cases,
}
use nguyen_dinh_b.Json.{Fields, get_null, truthy}
use nguyen_dinh_b.Python.{
  value_error, attribute_error, type_error, key_error, os_error, Result, ok, err, PyText,
}
use nguyen_dinh_b.Allowlist.{Allowlist}
use nguyen_dinh_b.Probe.{SafeProbe, HttpRequest}
use nguyen_dinh_b.Approval.{Artifact, ApprovalDecision, read_decision}
use nguyen_dinh_b.Audit.{log_request, append_event}
use nguyen_dinh_b.Effect.{Result-cases, Action, audit, event, waited, sent, requests, ◌>>=◌, ◌>>◌}
use nguyen_dinh_b.Send.{ProbeOutcome, denied, event_run, outgoing, send_probe}
use nguyen_dinh_b.Send.Gate.{IsAuthorised, send_probe-IsGated}
use nguyen_dinh_b.Run.{RunRecord}
use nguyen_dinh_b.Run.Steps.{load_proposal, probe_of}
use nguyen_dinh_b.Run.Probing.Odd.{entries, odd_route, odd_reason, odd_row, odd_detail}
use nguyen_dinh_b.Run.Probing.{
  Deed, gateway, Probing, sent_by, StepContext, with_allowlist, marking, two_lines, broken_lines,
  broken_row, refuse_odd, broken_detail, broken, sender, finished, call, send_from, proposed,
  decided, loaded, step_probe,
}

-- The requests of what was done at the gateway, where the rest makes none.
pub sent_by-gateway :
    (done : List Action) (deeds : List Deed) {rs : List HttpRequest}
    → requests done ≡ rs
    → sent_by deeds ≡ []
    → sent_by (map gateway done ++ deeds) ≡ rs
sent_by-gateway [] deeds p h = h ∙ p
sent_by-gateway (audit _ ∷ done) deeds p h = sent_by-gateway done deeds p h
sent_by-gateway (event _ ∷ done) deeds p h = sent_by-gateway done deeds p h
sent_by-gateway (waited ∷ done) deeds p h = sent_by-gateway done deeds p h
sent_by-gateway (sent r ∷ done) deeds p h =
    ap (λ rs. r ∷ rs) (sent_by-gateway done deeds refl h) ∙ p

module _ ⦃py : PyText⦄ (ctx : StepContext) where
  two_lines-quiet :
      (run_id : String) (row : Fields) (kind : String) (detail : Fields)
      → requests (two_lines ctx run_id row kind detail).trace ≡ []
  unfolding two_lines ◌>>◌
  two_lines-quiet run_id row kind detail = elim (Result-cases (log_request ctx.patterns row)) [
    | inl (e, q) ↦ rw (q, ◌>>=◌) refl
    | inr (written, q) ↦ elim (Result-cases (ctx.append_audit written)) [
      | inl (e, a) ↦ rw (q, ◌>>=◌, a) refl
      | inr (_, a) ↦ elim (Result-cases (append_event ctx.patterns run_id kind detail)) [
        | inl (e, k) ↦ rw (q, ◌>>=◌, a, k) refl
        | inr (line, k) ↦ elim (Result-cases (ctx.append_line line)) [
          | inl (e, t) ↦ rw (q, ◌>>=◌, a, k, t) refl
          | inr (_, t) ↦ rw (q, ◌>>=◌, a, k, t) refl
        ]
      ]
    ]
  ]

  -- What holds of no requests and of those that the rest makes holds of those of a marked step.
  marking-each :
      (P : List HttpRequest → Type 0) (r : RunRecord) (m : Result RunRecord)
      (rest : RunRecord → Probing)
      → P []
      → ((marked : RunRecord) → P (sent_by (rest marked).deeds))
      → P (sent_by (marking ctx r m rest).deeds)
  unfolding marking
  marking-each P r (err e) rest p h = p
  marking-each P r (ok marked) rest p h = h marked

  pub broken-quiet : (r : RunRecord) (reason : String) → sent_by (broken ctx r reason).deeds ≡ []
  unfolding broken
  broken-quiet r reason =
      let lines = broken_lines ctx r.run_id reason in
      let none_sent =
        two_lines-quiet r.run_id (broken_row r.run_id reason) "approval" (broken_detail reason) in
      elim (Result-cases lines.result) [
        | inl (e, q) ↦ rw q (sent_by-gateway lines.trace [] none_sent refl)
        | inr (_, q) ↦ rw q (
            sent_by-gateway lines.trace _ none_sent
              (marking-each (λ rs. rs ≡ []) _ _ _ refl (λ marked. refl)))
      ]

  pub finished-quiet :
      (decision : Option ApprovalDecision) (o : ProbeOutcome) (r : RunRecord)
      → sent_by (finished ctx decision o r).deeds ≡ []
  unfolding finished
  finished-quiet decision o r = elim (Bool-cases o.sent) [
    | inl e ↦ rw e (marking-each (λ rs. rs ≡ []) _ _ _ refl (λ marked. refl))
    | inr e ↦ rw e (marking-each (λ rs. rs ≡ []) _ _ _ refl (λ marked. refl))
  ]

  pub refuse_odd-quiet :
      (decision : Option ApprovalDecision) (fs : Fields) (r : RunRecord)
      → sent_by (refuse_odd ctx decision fs r).deeds ≡ []
  unfolding refuse_odd
  refuse_odd-quiet decision fs r =
      let reason = odd_reason fs in
      let run_id = event_run (sender ctx decision r.run_id) in
      let row = odd_row ctx.request_id fs reason in
      let detail = odd_detail ctx.request_id fs reason in
      let lines = two_lines ctx run_id row "allowlist_block" detail in
      let none_sent = two_lines-quiet run_id row "allowlist_block" detail in
      elim (Result-cases lines.result) [
        | inl (e, q) ↦ rw q (sent_by-gateway lines.trace [] none_sent refl)
        | inr (_, q) ↦ rw q (
            sent_by-gateway lines.trace (finished ctx decision (denied reason) r).deeds none_sent
              (finished-quiet decision (denied reason) r))
      ]

  -- The requests of the call are those of `send_probe`.
  pub call-sent :
      (verdict : Option ApprovalDecision) (al : Allowlist) (probe : SafeProbe) (r : RunRecord)
      {rs : List HttpRequest}
      → requests (send_probe al (sender ctx verdict r.run_id) probe).trace ≡ rs
      → sent_by (call ctx verdict al probe r).deeds ≡ rs
  unfolding call
  call-sent verdict al probe r h =
      let act = send_probe al (sender ctx verdict r.run_id) probe in
      elim (Result-cases act.result) [
        | inl (e, q) ↦ rw q (sent_by-gateway act.trace [] h refl)
        | inr (o, q) ↦ rw q (
            sent_by-gateway act.trace (finished ctx verdict o r).deeds h
              (finished-quiet verdict o r))
      ]

  -- What stands behind the one request that the step makes: both files, the inventory, and for the
  -- request in the proposal everything that `send_probe` demands, with the decision that was read.
  pub record IsSent (proposal decision : Artifact) (rs : List HttpRequest) : Type 0 where
    pub fs : Fields
    pub verdict : Option ApprovalDecision
    pub probe : SafeProbe
    pub al : Allowlist
    pub run_id : String
    pub id : String
    pub body : Option String
    pub proposal_read : load_proposal proposal ≡ ok fs
    pub accepted : truthy (get_null "accepted" fs) ≡ true
    pub decision_read : read_decision decision ≡ ok verdict
    pub probe_read : probe_of (get_null "probe" fs) ≡ ok probe
    pub al_read : ctx.allowlist ≡ ok al
    pub authorised : IsAuthorised al (sender ctx verdict run_id) probe id body
    pub made : rs ≡ outgoing (sender ctx verdict run_id) probe id body ∷ []

  -- No request, or one with all that.
  abbrev pub IsGuarded : Artifact → Artifact → List HttpRequest → Type 0
  IsGuarded proposal decision rs = (rs ≡ []) ⊎ IsSent proposal decision rs

  with_allowlist-ok :
      (m : Result SafeProbe) (a : Result Allowlist) (probe : SafeProbe) (al : Allowlist)
      → with_allowlist m a ≡ ok (probe, al)
      → (m ≡ ok probe) × (a ≡ ok al)
  unfolding with_allowlist
  with_allowlist-ok (ok p) (ok b) probe al h = (cc, cc)
  with_allowlist-ok (ok p) (err e) probe al h = absurd (cc h)
  with_allowlist-ok (err attribute_error) (ok b) probe al h = absurd (cc h)
  with_allowlist-ok (err attribute_error) (err e) probe al h = absurd (cc h)
  with_allowlist-ok (err value_error) a probe al h = absurd (cc h)
  with_allowlist-ok (err type_error) a probe al h = absurd (cc h)
  with_allowlist-ok (err key_error) a probe al h = absurd (cc h)
  with_allowlist-ok (err os_error) a probe al h = absurd (cc h)

  module _ (proposal decision : Artifact) (fs : Fields) (verdict : Option ApprovalDecision)
      (loaded : load_proposal proposal ≡ ok fs) (read : read_decision decision ≡ ok verdict) where
    call-IsGuarded :
        (al : Allowlist) (probe : SafeProbe) (r : RunRecord)
        → truthy (get_null "accepted" fs) ≡ true
        → probe_of (get_null "probe" fs) ≡ ok probe
        → ctx.allowlist ≡ ok al
        → IsGuarded proposal decision (sent_by (call ctx verdict al probe r).deeds)
    call-IsGuarded al probe r accepted is_probe is_al =
        let s = sender ctx verdict r.run_id in
        elim (send_probe-IsGated al s probe) [
          | inl (reason, d) ↦ inl (call-sent verdict al probe r d.made)
          | inr (id, body, authorised, d) ↦ inr (record {
            fs = fs;
            verdict = verdict;
            probe = probe;
            al = al;
            run_id = r.run_id;
            id = id;
            body = body;
            proposal_read = loaded;
            accepted = accepted;
            decision_read = read;
            probe_read = is_probe;
            al_read = is_al;
            authorised = authorised;
            made = call-sent verdict al probe r d.made;
          })
        ]

    send_from-IsGuarded :
        (r : RunRecord)
        → truthy (get_null "accepted" fs) ≡ true
        → IsGuarded proposal decision (sent_by (send_from ctx verdict fs r).deeds)
    unfolding send_from
    send_from-IsGuarded r accepted =
        let given = probe_of (get_null "probe" fs) in
        let odd = entries (get_null "probe" fs) in
        marking-each (IsGuarded proposal decision) _ _ _ (inl refl) λ marked.
          elim (Bool-cases (odd_route given ctx.allowlist odd)) [
            | inl o ↦ rw o (inl (refuse_odd-quiet verdict odd marked))
            | inr o ↦ elim (Result-cases (with_allowlist given ctx.allowlist)) [
              | inl (e, q) ↦ rw (o, q) (inl refl)
              | inr ((probe, al), q) ↦
                  let (p, a) = with_allowlist-ok _ _ probe al q in
                  rw (o, q) (call-IsGuarded al probe marked accepted p a)
            ]
          ]

    proposed-IsGuarded :
        (r : RunRecord) → IsGuarded proposal decision (sent_by (proposed ctx verdict fs r).deeds)
    unfolding proposed
    proposed-IsGuarded r = elim (Bool-cases (truthy (get_null "accepted" fs))) [
      | inr e ↦ rw e (marking-each (IsGuarded proposal decision) _ _ _ (inl refl) (λ _. inl refl))
      | inl e ↦ elim (Bool-cases (truthy (get_null "probe" fs))) [
        | inr q ↦
            rw (e, q) (marking-each (IsGuarded proposal decision) _ _ _ (inl refl) (λ _. inl refl))
        | inl q ↦ rw (e, q) (send_from-IsGuarded r e)
      ]
    ]

  decided-IsGuarded :
      (proposal decision : Artifact) (fs : Fields) (m : Result (Option ApprovalDecision))
      (r : RunRecord)
      → load_proposal proposal ≡ ok fs
      → read_decision decision ≡ m
      → IsGuarded proposal decision (sent_by (decided ctx fs m r).deeds)
  unfolding decided
  decided-IsGuarded proposal decision fs (err value_error) r loaded read = inl (broken-quiet r _)
  decided-IsGuarded proposal decision fs (err type_error) r loaded read = inl refl
  decided-IsGuarded proposal decision fs (err key_error) r loaded read = inl refl
  decided-IsGuarded proposal decision fs (err attribute_error) r loaded read = inl refl
  decided-IsGuarded proposal decision fs (err os_error) r loaded read = inl refl
  decided-IsGuarded proposal decision fs (ok none) r loaded read =
      proposed-IsGuarded proposal decision fs none loaded read r
  decided-IsGuarded proposal decision fs (ok (some d)) r loaded read =
      marking-each (IsGuarded proposal decision) _ _ _ (inl refl)
        λ marked. proposed-IsGuarded proposal decision fs (some d) loaded read marked

  loaded-IsGuarded :
      (proposal decision : Artifact) (m : Result Fields) (r : RunRecord)
      → load_proposal proposal ≡ m
      → IsGuarded proposal decision (sent_by (loaded ctx m decision r).deeds)
  unfolding loaded
  loaded-IsGuarded proposal decision (err e) r h = inl refl
  loaded-IsGuarded proposal decision (ok fs) r h = decided-IsGuarded proposal decision fs _ r h refl

  -- Whatever the two files hold: the step makes no request, or it makes just one. Then the proposal
  -- was read and says that it is accepted, its request was read, `decision.json` is missing or is a
  -- decision, the inventory was read, and the request is one that this inventory covers and a
  -- reviewed template grants, for which, where it needs an approval, that decision is one.
  pub step_probe-IsGuarded :
      (proposal decision : Artifact) (r : RunRecord)
      → IsGuarded proposal decision (sent_by (step_probe ctx proposal decision r).deeds)
  unfolding step_probe
  step_probe-IsGuarded proposal decision r = loaded-IsGuarded proposal decision _ r refl
