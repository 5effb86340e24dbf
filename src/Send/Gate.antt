-- ===== src/Send/Gate.antt =====
-- When a request leaves the system.
use nguyen_dinh_b.Prelude.{
  String, ◌≡◌, refl, sym, ap, ◌∙◌, ◌⊎◌, inl, inr, true, false, Option, none, some, ◌==◌, eq_iff,
  Bool-cases, Option-cases, is_some,
}
use nguyen_dinh_b.Json.{Json, null, bool, int, float, str, arr, obj}
use nguyen_dinh_b.Python.{bind-eq, ok, PyText}
use nguyen_dinh_b.Allowlist.{Allowlist, is_listed, resolve_template}
use nguyen_dinh_b.Allowlist.Lookup.{
  IsPlainPath, HasRule, Grants, is_listed_iff, resolve_template_sound, resolve_template_complete,
}
use nguyen_dinh_b.Probe.{SafeProbe, SafePayloadType, payload_type, payload_body, payload_for}
use nguyen_dinh_b.Approval.{ApprovalDecision, request_fingerprint, requires_approval, payload_of}
use nguyen_dinh_b.Effect.{Act, ◌>>=◌}
use nguyen_dinh_b.Send.{
  Sender, ProbeOutcome, approval_reason, send_checked, send_granted, send_template, send_payload,
  send_kind, send_probe,
}
use nguyen_dinh_b.Send.Quiet.{
  Refused, Transmits, refuse_route-Refused, refuse_kind-Refused, refuse_approval-Refused,
  transmit-Transmits,
}

-- The payload of a request is none at all or one of the four, and `body` is its text.
abbrev pub IsPayload : Json → Option String → Option String → Type 0
IsPayload v kind body =
    ((v ≡ null) × (kind ≡ none) × (body ≡ none))
    ⊎ ((k : String) × (t : SafePayloadType) × (v ≡ str k)
        × (payload_type k ≡ some t)
        × (kind ≡ some k)
        × (body ≡ some (payload_body t)))

-- The operator has approved the request with this fingerprint.
abbrev pub Approves : Option ApprovalDecision → String → Type 0
Approves approval expected =
    (d : ApprovalDecision) × (approval ≡ some d)
    × (d.approved ≡ true)
    × (d.request_fingerprint ≡ expected)

module _ ⦃py : PyText⦄ (al : Allowlist) (s : Sender) (probe : SafeProbe) where
  -- Where the request needs an approval, there is one for just this request.
  abbrev pub HasConsent : Type 0
  HasConsent =
      (requires_approval probe ≡ false)
      ⊎ ((expected : String) × (request_fingerprint probe ≡ ok expected)
          × Approves s.approval expected)

  -- Everything that a request needs before it may leave with the template `id` and the body `body`.
  pub record IsAuthorised (id : String) (body : Option String) : Type 0 where
    pub plain : IsPlainPath probe.path
    pub ruled : HasRule al (py.upper probe.method) probe.path
    pub kind : Option String
    pub payload : IsPayload probe.payload_kind kind body
    pub granted : Grants al (py.upper probe.method) probe.path kind id
    pub consent : HasConsent

  -- A call is refused without a request, or it makes just one, authorised.
  abbrev pub IsGated : Act ProbeOutcome → Type 0
  IsGated m =
      Refused al s probe m
      ⊎ ((id : String) × (body : Option String) × IsAuthorised id body
          × Transmits al s probe m id body)

approval_reason_cases :
    (approval : Option ApprovalDecision) (expected : String)
    → ((reason : String) × (approval_reason approval expected ≡ some reason))
      ⊎ ((approval_reason approval expected ≡ none) × Approves approval expected)
unfolding approval_reason
approval_reason_cases none expected = inl (_, refl)
approval_reason_cases (some d) expected = elim (Bool-cases d.approved) [
  | inr e ↦ rw e (inl (_, refl))
  | inl a ↦ elim (Bool-cases (d.request_fingerprint == expected)) [
    | inr e ↦ rw (a, e) (inl (_, refl))
    | inl e ↦
        let open_gate : approval_reason (some d) expected ≡ none = rw (a, e) refl in
        inr (open_gate, (d, refl, a, (eq_iff d.request_fingerprint expected).0 e))
  ]
]

approval_reason-none :
    (approval : Option ApprovalDecision) (expected : String)
    → Approves approval expected
    → approval_reason approval expected ≡ none
unfolding approval_reason
approval_reason-none approval expected (d, e, a, f) =
    let same = (eq_iff d.request_fingerprint expected).1 f in rw (e, a, same) refl

is_some_lem : {A : Type 0} (o : Option A) → is_some o ≡ true → (a : A) × (o ≡ some a)
is_some_lem none h = cc
is_some_lem (some a) h = (a, refl)

module _ ⦃py : PyText⦄ where
  payload_of-ok :
      (v : Json) (kind body : Option String)
      → IsPayload v kind body
      → (text : String) × (payload_of v ≡ ok text)
  unfolding payload_of payload_for
  payload_of-ok v kind body (inl (e, _, _)) = (_, ap payload_of e)
  payload_of-ok v kind body (inr (k, t, e, h, _, _)) =
      let found : payload_for (str k) ≡ ok t = rw (payload_for, h) refl in
      (_, ap payload_of e ∙ bind-eq _ t found refl)

  -- A request whose payload is one of the four, or none, has a fingerprint.
  fingerprinted :
      (probe : SafeProbe) (kind body : Option String)
      → IsPayload probe.payload_kind kind body
      → (expected : String) × (request_fingerprint probe ≡ ok expected)
  unfolding request_fingerprint
  fingerprinted probe kind body h =
      let (text, e) = payload_of-ok probe.payload_kind kind body h in (_, bind-eq _ text e refl)

module _ ⦃py : PyText⦄ (al : Allowlist) (s : Sender) (probe : SafeProbe)
    (plain : IsPlainPath probe.path) (ruled : HasRule al (py.upper probe.method) probe.path)
    (kind body : Option String) (payload : IsPayload probe.payload_kind kind body) where
  send_granted-IsGated :
      (id : String)
      → Grants al (py.upper probe.method) probe.path kind id
      → IsGated al s probe (send_granted al s probe id body)
  unfolding send_granted send_checked ◌>>=◌
  send_granted-IsGated id g = elim (Bool-cases (requires_approval probe)) [
    | inr free ↦ rw free (
        inr (
          id,
          body,
          record {
            plain = plain;
            ruled = ruled;
            kind = kind;
            payload = payload;
            granted = g;
            consent = inl free;
          },
          transmit-Transmits al s probe id body,
        ))
    | inl needs ↦
        let (expected, e) = fingerprinted probe kind body payload in
        elim (approval_reason_cases s.approval expected) [
          | inl (reason, r) ↦ rw (needs, e, r) (inl (refuse_approval-Refused al s probe reason))
          | inr (r, approves) ↦
              rw (needs, e, r)
                (inr (
                  id,
                  body,
                  record {
                    plain = plain;
                    ruled = ruled;
                    kind = kind;
                    payload = payload;
                    granted = g;
                    consent = inr (expected, e, approves);
                  },
                  transmit-Transmits al s probe id body,
                ))
        ]
  ]

  send_template-IsGated :
      IsGated al s probe
        (send_template al s probe body (resolve_template al probe.method probe.path kind))
  unfolding send_template
  send_template-IsGated = elim (Option-cases (resolve_template al probe.method probe.path kind)) [
    | inl e ↦ rw e (inl (refuse_route-Refused al s probe _))
    | inr (id, e) ↦
        rw e (send_granted-IsGated id (resolve_template_sound al probe.method probe.path kind id e))
  ]

module _ ⦃py : PyText⦄ (al : Allowlist) (s : Sender) (probe : SafeProbe) where
  is_listed-parts :
      is_listed al probe.method probe.path ≡ true
      → IsPlainPath probe.path × HasRule al (py.upper probe.method) probe.path
  is_listed-parts = (is_listed_iff al probe.method probe.path).0

  send_kind-IsGated :
      is_listed al probe.method probe.path ≡ true
      → (v : Json) → v ≡ probe.payload_kind
      → IsGated al s probe (send_kind al s probe v)
  unfolding send_kind send_payload
  send_kind-IsGated h null e =
      let (plain, ruled) = is_listed-parts h in
      send_template-IsGated al s probe plain ruled none none (inl (sym e, refl, refl))
  send_kind-IsGated h (str k) e = elim (Option-cases (payload_type k)) [
    | inl unknown ↦ rw unknown (inl (refuse_kind-Refused al s probe))
    | inr (t, known) ↦
        let (plain, ruled) = is_listed-parts h in
        rw known (
          send_template-IsGated al s probe plain ruled (some k) (some (payload_body t))
            (inr (k, t, sym e, known, refl, refl)))
  ]
  send_kind-IsGated h (bool _) e = inl (refuse_kind-Refused al s probe)
  send_kind-IsGated h (int _) e = inl (refuse_kind-Refused al s probe)
  send_kind-IsGated h (float _ _) e = inl (refuse_kind-Refused al s probe)
  send_kind-IsGated h (arr _) e = inl (refuse_kind-Refused al s probe)
  send_kind-IsGated h (obj _) e = inl (refuse_kind-Refused al s probe)

  -- Whatever the request, its payload and the approval, and whatever fails of the files and the
  -- network: either `send_probe` makes no request, or it makes just one. That one is for a plain path
  -- that a rule covers, carries one of the four payloads or none, with a reviewed template for just
  -- that method, path and payload, and, where an approval is needed, the operator has approved just
  -- this request. If it returns, its outcome is a refusal in the first case and in the second that of
  -- the transport's response; and it returns if the transport answers and the lines can be written.
  pub send_probe-IsGated : IsGated al s probe (send_probe al s probe)
  unfolding send_probe
  send_probe-IsGated = elim (Bool-cases (is_listed al probe.method probe.path)) [
    | inr e ↦ rw e (inl (refuse_route-Refused al s probe _))
    | inl e ↦ rw e (send_kind-IsGated e probe.payload_kind refl)
  ]

  consented :
      HasConsent al s probe
      → (id : String) (body : Option String)
      → Transmits al s probe (send_granted al s probe id body) id body
  unfolding send_granted send_checked ◌>>=◌
  consented (inl free) id body = rw free (transmit-Transmits al s probe id body)
  consented (inr (expected, e, approves)) id body = elim (Bool-cases (requires_approval probe)) [
    | inr free ↦ rw free (transmit-Transmits al s probe id body)
    | inl needs ↦
        rw (needs, e, approval_reason-none s.approval expected approves)
          (transmit-Transmits al s probe id body)
  ]

  -- the stage at which the payload is tested, for a payload that is as it should be
  send_kind-payload :
      (kind body : Option String)
      → IsPayload probe.payload_kind kind body
      → send_kind al s probe probe.payload_kind
        ≡ send_template al s probe body (resolve_template al probe.method probe.path kind)
  unfolding send_kind send_payload
  send_kind-payload kind body (inl (v, k, b)) = simp (v, k, b) refl
  send_kind-payload kind body (inr (k, t, v, known, kind_eq, b)) = simp (v, known, kind_eq, b) refl

  -- A request that has everything it needs is sent, once, with the template that the inventory resolves
  -- for its method, path and payload; if the call returns, its outcome is that of the transport's
  -- response, and it returns if the transport answers and the lines can be written.
  pub send_probe-Transmits :
      (id : String) (body : Option String)
      → IsAuthorised al s probe id body
      → (kind : Option String) × (picked : String) × IsPayload probe.payload_kind kind body
        × (resolve_template al probe.method probe.path kind ≡ some picked)
        × Transmits al s probe (send_probe al s probe) picked body
  unfolding send_probe send_template
  send_probe-Transmits id body a =
      let listed = (is_listed_iff al probe.method probe.path).1 (a.plain, a.ruled) in
      let (picked, e) =
        is_some_lem _ (resolve_template_complete al probe.method probe.path a.kind id a.granted) in
      (
        a.kind,
        picked,
        a.payload,
        e,
        rw (listed, send_kind-payload a.kind body a.payload, e) (consented a.consent picked body),
      )
