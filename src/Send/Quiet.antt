-- ===== src/Send/Quiet.antt =====
-- What the steps of `send_probe` do: a refusal makes no request, and the part that transmits makes
-- just one.
use nguyen_dinh_b.Prelude.{
  ◌≤◌, String, ◌≡◌, refl, ap, inl, inr, Bool, true, false, not, ◌&&◌, Option, List, [], ◌∷◌, arith,
  ◌==◌, ltb, if◌then◌else◌, Bool-cases, any, mem_str,
}
use Prim.Native.String.{len}
use nguyen_dinh_b.Json.{null, str, Fields, get, get_or, get_null}
use nguyen_dinh_b.Python.{ok, PyText, raise_if, raise_if-eq, then-eq}
use nguyen_dinh_b.Allowlist.{Allowlist}
use nguyen_dinh_b.Redaction.{Pattern, redact}
use nguyen_dinh_b.Probe.{SafeProbe, HttpRequest, HttpResponse}
use nguyen_dinh_b.Audit.{
  GuardEvent, audit_fields, event_kinds, max_preview, keys, check_preview, log_request,
  append_event,
}
use nguyen_dinh_b.Audit.Records.{len-take_utf8}
use nguyen_dinh_b.Effect.{
  Action, audit, event, emit, requests, Does-pure, Does->>=, Act, Does, Does->>, Does->>-waited,
  Does->>-sent, Does-when,
}
use nguyen_dinh_b.Send.{
  ProbeOutcome, denied, Sender, safe_preview, write_log, write_event, event_run, denied_row,
  sent_row, outgoing, outcome_of, refuse_route, refuse_kind, refuse_approval, transmit,
}

-- The preview of a body is at most 512 bytes of UTF-8 long.
pub safe_preview-len :
    (patterns : List Pattern) (body : String) → len (safe_preview patterns body).0 ≤ max_preview
unfolding safe_preview
safe_preview-len patterns body = elim (Bool-cases (body == "")) [
  | inl e ↦ rw e (omega arith)
  | inr e ↦ rw e (len-take_utf8 max_preview (redact patterns body).0)
]

-- `log_request` accepts a row of reviewed fields with a short preview.
log_request-ok :
    (patterns : List Pattern) (row : Fields)
    → any (λ k. not (mem_str k audit_fields)) (keys row) ≡ false
    → check_preview (get_null "response_preview" row) ≡ ok tt
    → (line : Fields) × (log_request patterns row ≡ ok line)
unfolding log_request
log_request-ok patterns row known short = (_, raise_if-eq _ known (then-eq short refl))

-- Whatever is asked of the files and of the network works.
pub record Works (s : Sender) : Type 0 where
  pub answers : (r : HttpRequest) → (p : HttpResponse) × (s.transport r ≡ ok p)
  pub logs : (line : Fields) → s.append_audit line ≡ ok tt
  pub tells : (line : GuardEvent) → s.append_line line ≡ ok tt

-- It makes no request.
abbrev Quiet : Sender → Act (Unit {0}) → Type 0
Quiet s m = Does m (Works s) [] (λ _. Unit)

emit-Does : {W : Type 0} (a : Action) → requests (a ∷ []) ≡ [] → Does (emit a) W [] (λ _. Unit)
emit-Does a h = record { made = h; if_returned = λ _ _. tt; returned = λ _. (tt, refl) }

write_log-Does :
    (s : Sender) (row : Fields)
    → any (λ k. not (mem_str k audit_fields)) (keys row) ≡ false
    → check_preview (get_null "response_preview" row) ≡ ok tt
    → Quiet s (write_log s row)
unfolding write_log
write_log-Does s row known short = Does-when s.logs _ (
    Does->>= _ _ refl (λ _. log_request-ok s.patterns row known short)
      λ line _.
        Does->> _ _
          (record { made = refl; if_returned = λ _ _. tt; returned = λ w. (tt, w.logs line) })
          (emit-Does (audit line) refl))

append_event-ok :
    (patterns : List Pattern) (run kind : String) (detail : Fields)
    → mem_str kind event_kinds ≡ true
    → (line : GuardEvent) × (append_event patterns run kind detail ≡ ok line)
unfolding append_event
append_event-ok patterns run kind detail known = (_, raise_if-eq _ (ap not known) refl)

write_event-Does :
    (s : Sender) (test : Bool) (kind : String) (detail : Fields)
    → mem_str kind event_kinds ≡ true
    → Quiet s (write_event s test kind detail)
unfolding write_event
write_event-Does s test kind detail known = Does-when (s.events && test) _ (
    Does->>= _ _ refl (λ _. append_event-ok s.patterns (event_run s) kind detail known)
      λ line _.
        Does->> _ _
          (record { made = refl; if_returned = λ _ _. tt; returned = λ w. (tt, w.tells line) })
          (emit-Does (event line) refl))

denied_row-Does :
    (s : Sender) (probe : SafeProbe) (with_type : Bool) (class reason : String)
    → Quiet s (write_log s (denied_row s probe with_type class reason))
unfolding keys mem_str check_preview get get_or
denied_row-Does s probe true class reason = write_log-Does s _ refl refl
denied_row-Does s probe false class reason = write_log-Does s _ refl refl

check_preview-short :
    (p : String) → len p ≤ max_preview → check_preview (if p == "" then null else str p) ≡ ok tt
unfolding check_preview raise_if
check_preview-short p h = elim (Bool-cases (p == "")) [
  | inl e ↦ rw e refl
  | inr e ↦ let fits : ltb max_preview (len p) ≡ false = ground arith in rw (e, fits) refl
]

sent_row-Does :
    (s : Sender) (probe : SafeProbe) (id : String) (r : HttpResponse)
    → Quiet s (write_log s (sent_row s probe id r (safe_preview s.patterns r.body).0))
unfolding keys mem_str get get_or
sent_row-Does s probe id r =
    write_log-Does s _ refl (check_preview-short _ (safe_preview-len s.patterns r.body))

module _ ⦃py : PyText⦄ (al : Allowlist) (s : Sender) (probe : SafeProbe) where
  -- A call that was refused: it makes no request, and returns an outcome that says so, if it can
  -- write its lines.
  abbrev pub Refused : Act ProbeOutcome → Type 0
  Refused m = (reason : String) × Does m (Works s) [] (λ o. o ≡ denied reason)

  pub refuse_route-Refused : (reason : String) → Refused (refuse_route al s probe reason)
  unfolding refuse_route mem_str
  refuse_route-Refused reason = (
    reason,
    Does->> _ _ (denied_row-Does s probe true _ reason)
        (Does->> _ _ (write_event-Does s true _ _ refl) (Does-pure _ refl)),
  )

  pub refuse_kind-Refused : Refused (refuse_kind al s probe)
  unfolding refuse_kind
  refuse_kind-Refused = (_, Does->> _ _ (denied_row-Does s probe false _ _) (Does-pure _ refl))

  pub refuse_approval-Refused : (reason : String) → Refused (refuse_approval al s probe reason)
  unfolding refuse_approval mem_str
  refuse_approval-Refused reason = (
    reason,
    Does->> _ _ (denied_row-Does s probe true _ reason)
        (Does->> _ _ (write_event-Does s true _ _ refl) (Does-pure _ refl)),
  )

  -- The outcome is that of the transport's response to the request.
  abbrev pub IsAnswered : HttpRequest → ProbeOutcome → Type 0
  IsAnswered r o = (p : HttpResponse) × (s.transport r ≡ ok p) × (o ≡ outcome_of s p)

  -- A call that went through: just one request, the outgoing one, and the outcome of its response, if
  -- there is one and the lines can be written.
  abbrev pub Transmits : Act ProbeOutcome → String → Option String → Type 0
  Transmits m id body =
      Does m (Works s) (outgoing s probe id body ∷ []) (IsAnswered (outgoing s probe id body))

  pub transmit-Transmits :
      (id : String) (body : Option String) → Transmits (transmit al s probe id body) id body
  unfolding transmit mem_str
  transmit-Transmits id body =
      let r = outgoing s probe id body in
      Does->>-waited (
        Does->>-sent (
          Does->>= _ _ refl (λ w. w.answers r)
            λ p e.
              Does->> _ _ (sent_row-Does s probe id p)
                (Does->> _ _ (write_event-Does s _ _ _ refl) (Does-pure _ (p, e, refl)))))
