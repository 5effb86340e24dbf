-- ===== src/Run/Probing.antt =====
-- orchestrator/steps/probe.py: `step_probe`, which sends the request that was proposed and approved.
-- The two files it reads are arguments; what it does beside the record is kept in order.
pub mod Odd
pub mod Gated
pub mod Placed
use nguyen_dinh_b.Prelude.{
  ℕ, zero, suc, ◌+◌, ◌-◌, ◌*◌, ◌≤◌, ◌<◌, min, max, String, ◌≡◌, refl, sym, ap, ◌∙◌, ◌≢◌, ◌↔◌, ◌⊎◌,
  inl, inr, Bool, true, false, not, ◌&&◌, ◌||◌, false≢true, Option, none, some, List, [], ◌∷◌, ◌++◌,
  map, arith, ◌==◌, eq_iff, eq_refl, ltb, leb, eqb, if◌then◌else◌, leb→le, ltb→lt, Bool-cases,
  Option-cases, is_some, length, length-append, is_empty, All, Any, All-append, All-map, Any-map,
  Any-All, any, all, any-false, keep, find_first, find_first-some, find_first-none, codes, mem_str,
  mem_str-Any, Any-mem_str, has_code, has_prefix, ne_of_test, has_infix, is_blank, split_space,
  strip, rstrip, concat, repeat,
}
use nguyen_dinh_b.Prelude.Int.{ℤ, pos}
use nguyen_dinh_b.Json.{
  Json, bool, int, float, str, arr, obj, Items, nil, cons, Fields, end, field, get_or, get_null,
  truthy,
}
use nguyen_dinh_b.Python.{Exc, value_error, attribute_error, key_error, Result, ok, err, PyText}
use nguyen_dinh_b.Allowlist.{Allowlist}
use nguyen_dinh_b.Redaction.{Pattern, RedactionEvent}
use nguyen_dinh_b.Probe.{SafeProbe, HttpRequest, HttpResponse}
use nguyen_dinh_b.Approval.{Artifact, ApprovalDecision, read_decision}
use nguyen_dinh_b.Audit.{GuardEvent, log_request, append_event}
use nguyen_dinh_b.Effect.{Act, Action, audit, event, lift, emit, sent, ◌>>=◌, ◌>>◌}
use nguyen_dinh_b.Send.{
  Sender, ProbeOutcome, denied, event_run, send_probe, text_or_null, code_or_null,
}
use nguyen_dinh_b.Run.{
  RunRecord, RunState, Outcome, returns, fails, crashes, mark_step, with_state, probing, rejected,
}
use nguyen_dinh_b.Run.Steps.{load_proposal, probe_of}
use nguyen_dinh_b.Run.Probing.Odd.{entries, odd_route, odd_reason, odd_row, odd_detail}

-- What the step does: something at the gateway, the writing of `probe-result.json`, a line in the log
-- of the run.
pub data Deed : Type 0 where
  gateway : Action → Deed
  wrote : Fields → Deed
  reported : (level message : String) → Deed

pub record Probing : Type 0 where
  pub deeds : List Deed
  pub outcome : Outcome

abbrev pub stop : Outcome → Probing
stop outcome = record { deeds = []; outcome = outcome }

abbrev pub after : List Deed → Probing → Probing
after deeds p = record { deeds = deeds ++ p.deeds; outcome = p.outcome }

-- The requests among some deeds.
abbrev pub sent_by : List Deed → List HttpRequest
sent_by [] = []
sent_by (gateway (sent r) ∷ deeds) = r ∷ sent_by deeds
sent_by (_ ∷ deeds) = sent_by deeds

-- What the step is given: `allowlist` is `Allowlist.from_json(ctx.allowlist_path)`, `why` the text of an
-- exception, `request_id` the fresh one of `send_probe`, `now` and `elapsed` the clock.
pub record StepContext : Type 0 where
  pub patterns : List Pattern
  pub allowlist : Result Allowlist
  pub gateway_api_key : String
  pub request_id : String
  pub transport : HttpRequest → Result HttpResponse
  pub append_audit : Fields → Result (Unit {0})
  pub append_line : GuardEvent → Result (Unit {0})
  pub now : String
  pub elapsed : String → String → Result ℤ
  pub why : Exc → String

-- `{"sent": False, "denied_reason": reason}`
abbrev pub refused_fields : Json → Fields
refused_fields reason = field "sent" (bool false) (field "denied_reason" reason end)

abbrev redaction_items : List RedactionEvent → Items
redaction_items [] = nil
redaction_items (e ∷ es) =
    cons (obj (field "kind" (str e.kind) (field "count" (int (pos e.count)) end)))
      (redaction_items es)

-- `probe-result.json` after a call of `send_probe`
abbrev pub result_fields : ProbeOutcome → Fields
result_fields o = field "sent" (bool o.sent) (
    field "status_code" (code_or_null o.status_code) (
      field "body_preview" (str o.body_preview) (
        field "elapsed_ms" (float (pos o.elapsed_ms) 2) (
          field "error_class" (text_or_null o.error_class) (
            field "error_reason" (text_or_null o.error_reason) (
              field "denied_reason" (text_or_null o.denied_reason)
                (field "redactions" (arr (redaction_items o.redactions)) end)))))))

-- the audit row and the event for a decision that cannot be read
abbrev pub broken_row : (run_id reason : String) → Fields
broken_row run_id reason = field "request_id" (str (concat ("req-" ∷ run_id ∷ []))) (
    field "status" (str "DENIED") (
      field "policy_decision" (str "DENIED") (
        field "error_class" (str "InvalidApprovalDecision")
          (field "error_reason" (str reason) end))))

abbrev pub broken_detail : String → Fields
broken_detail reason = field "approved" (bool false) (field "reason" (str reason) end)

-- `decision is not None and not decision.approved`
abbrev pub is_denial : Option ApprovalDecision → Bool
is_denial none = false
is_denial (some d) = not d.approved

-- The request and the inventory; a request with a field that is no text is met by `send_probe` only,
-- after the inventory was read.
unfoldable pub with_allowlist : Result SafeProbe → Result Allowlist → Result (SafeProbe × Allowlist)
with_allowlist (ok probe) (ok al) = ok (probe, al)
with_allowlist (ok probe) (err e) = err e
with_allowlist (err attribute_error) (ok al) = err attribute_error
with_allowlist (err attribute_error) (err e) = err e
with_allowlist (err e) _ = err e

module _ ⦃py : PyText⦄ (ctx : StepContext) where
  abbrev pub marked_step : String → String → Json → RunRecord → Result RunRecord
  marked_step name status detail r =
      mark_step ctx.elapsed (λ s. s) ctx.now name status (some detail) r

  abbrev pub in_state : RunState → RunRecord → RunRecord
  in_state state r = with_state ctx.elapsed (λ s. s) ctx.now state r

  -- `record.mark_step(…)`, and what comes after it
  unfoldable pub marking : RunRecord → Result RunRecord → (RunRecord → Probing) → Probing
  marking r (err e) rest = stop (crashes r (ctx.why e))
  marking r (ok marked) rest = rest marked

  -- an audit line and an event
  unfoldable pub two_lines : String → (row : Fields) → (kind : String) → Fields → Act (Unit {0})
  two_lines run_id row kind detail = do
    written ← lift (log_request ctx.patterns row)
    lift (ctx.append_audit written)
    emit (audit written)
    line ← lift (append_event ctx.patterns run_id kind detail)
    lift (ctx.append_line line)
    emit (event line)

  -- the two lines for a decision that cannot be read
  abbrev pub broken_lines : String → String → Act (Unit {0})
  broken_lines run_id reason =
      two_lines run_id (broken_row run_id reason) "approval" (broken_detail reason)

  -- a decision that cannot be read
  unfoldable pub broken : RunRecord → String → Probing
  broken r reason =
      let lines = broken_lines r.run_id reason in
      let detail = refused_fields (str reason) in
      after (wrote detail ∷ map gateway lines.trace) (elim lines.result [
        | err e ↦ stop (crashes r (ctx.why e))
        | ok _ ↦ after (reported "error" reason ∷ []) (
            marking r (marked_step "probe" "skipped" (obj detail) r)
              (λ marked. stop (fails marked reason)))
      ])

  abbrev pub sender : Option ApprovalDecision → String → Sender
  sender decision run_id = record {
    patterns = ctx.patterns;
    logs = true;
    events = true;
    request_id = ctx.request_id;
    run_id = some run_id;
    api_key = ctx.gateway_api_key;
    approval = decision;
    transport = ctx.transport;
    append_audit = ctx.append_audit;
    append_line = ctx.append_line;
  }

  abbrev denial_text : Option String → String
  denial_text none = "None"
  denial_text (some reason) = reason

  -- from `probe-result.json` on
  unfoldable pub finished : Option ApprovalDecision → ProbeOutcome → RunRecord → Probing
  finished decision o r =
      let over =
        marking r
          (marked_step "probe" "done" (obj (field "status_code" (code_or_null o.status_code) end))
            r)
          (λ marked.
            after (reported "info" "Đã gửi request qua Gateway" ∷ []) (stop (returns marked))) in
      let r1 = in_state (if is_denial decision then rejected else probing) r in
      let kept =
        marking r1
          (marked_step "probe" "skipped"
            (obj (field "denied_reason" (text_or_null o.denied_reason) end)) r1)
          (λ marked.
            after
              (reported "warn" (concat ("Không gửi request: " ∷ denial_text o.denied_reason ∷ []))
                ∷ [])
              (stop (returns marked))) in
      after (wrote (result_fields o) ∷ []) (if o.sent then over else kept)

  -- the call of `send_probe`
  unfoldable pub call : Option ApprovalDecision → Allowlist → SafeProbe → RunRecord → Probing
  call decision al probe r =
      let act = send_probe al (sender decision r.run_id) probe in
      after (map gateway act.trace)
        (elim act.result [ err e ↦ stop (crashes r (ctx.why e)) | ok o ↦ finished decision o r ])

  -- `except (OSError, TypeError, ValueError)`
  abbrev pub unusable : Exc → RunRecord → Outcome
  unusable attribute_error r = crashes r (ctx.why attribute_error)
  unusable key_error r = crashes r (ctx.why key_error)
  unusable e r = fails r (concat ("Không dựng được probe an toàn: " ∷ ctx.why e ∷ []))

  -- `send_probe` on a request with a field that is no text and a path that has a mark: the refusal of
  -- `is_allowed`
  unfoldable pub refuse_odd : Option ApprovalDecision → Fields → RunRecord → Probing
  refuse_odd decision fs r =
      let reason = odd_reason fs in
      let lines =
        two_lines (event_run (sender decision r.run_id)) (odd_row ctx.request_id fs reason)
          "allowlist_block" (odd_detail ctx.request_id fs reason) in
      after (map gateway lines.trace) (elim lines.result [
        | err e ↦ stop (crashes r (ctx.why e))
        | ok _ ↦ finished decision (denied reason) r
      ])

  -- from `record.state = RunState.PROBING` on
  unfoldable pub send_from : Option ApprovalDecision → Fields → RunRecord → Probing
  send_from decision proposal r =
      let r1 = in_state probing r in
      marking r1 (mark_step ctx.elapsed (λ s. s) ctx.now "probe" "running" none r1) λ marked.
        let given = probe_of (get_null "probe" proposal) in
        let usual : Probing = elim (with_allowlist given ctx.allowlist) [
          | err e ↦ stop (unusable e marked)
          | ok (probe, al) ↦ call decision al probe marked
        ] in
        let odd = refuse_odd decision (entries (get_null "probe" proposal)) marked in
        if odd_route given ctx.allowlist (entries (get_null "probe" proposal)) then odd else usual

  -- from the test of the proposal on
  unfoldable pub proposed : Option ApprovalDecision → Fields → RunRecord → Probing
  proposed decision proposal r =
      let detail = refused_fields (get_or "reason" (str "Không có probe") proposal) in
      let skipped = after (wrote detail ∷ []) (
        marking r (marked_step "probe" "skipped" (obj detail) r)
          (λ marked. stop (returns marked))) in
      let going = send_from decision proposal r in
      if not (truthy (get_null "accepted" proposal)) || not (truthy (get_null "probe" proposal))
      then skipped
      else going

  -- the decision, once it was read
  unfoldable pub decided : Fields → Result (Option ApprovalDecision) → RunRecord → Probing
  decided proposal (err value_error) r =
      broken r (concat ("decision.json không hợp lệ: " ∷ ctx.why value_error ∷ []))
  decided proposal (err e) r = stop (crashes r (ctx.why e))
  decided proposal (ok none) r = proposed none proposal r
  decided proposal (ok (some d)) r =
      marking r (marked_step "approval" "done" (obj (field "approved" (bool d.approved) end)) r)
        (λ marked. proposed (some d) proposal marked)

  -- the proposal, once it was read
  unfoldable pub loaded : Result Fields → Artifact → RunRecord → Probing
  loaded (err e) decision r = stop (fails r (ctx.why e))
  loaded (ok proposal) decision r = decided proposal (read_decision decision) r

  -- `step_probe` on `proposal.json` and `decision.json`
  unfoldable pub step_probe : (proposal decision : Artifact) → RunRecord → Probing
  step_probe proposal decision r = loaded (load_proposal proposal) decision r
