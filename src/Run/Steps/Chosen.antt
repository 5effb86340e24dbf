-- ===== src/Run/Steps/Chosen.antt =====
-- Which objective is chosen, and what the operator is asked.
use nguyen_dinh_b.Prelude.{
  String, ◌≡◌, refl, sym, ap, ◌∙◌, inl, inr, Bool, true, false, not, false≢true, some, List, [],
  ◌∷◌, map, arith, Bool-cases, Option-cases, is_empty, All, any, keep, find_first,
}
use mathlib.Core.Path.{subst}
use nguyen_dinh_b.Python.{PyText, ok}
use nguyen_dinh_b.Allowlist.{Allowlist}
use nguyen_dinh_b.Probe.{SafeProbe}
use nguyen_dinh_b.Proposal.{validate_objective}
use nguyen_dinh_b.Approval.{ApprovalRequest, request_fingerprint, payload_of}
use nguyen_dinh_b.Run.Steps.{
  Candidate, Choice, is_mild, first_or, pick, evaluate, no_candidate, choose_objective,
}

-- Every choice in the list satisfies `P`, and so does the default.
first_or-All :
    (P : Choice → Type 0) (d : Choice) (cs : List Choice) → P d → All P cs → P (first_or d cs)
first_or-All P d [] p h = p
first_or-All P d (c ∷ cs) p (q, _) = q

keep-All :
    (P : Choice → Type 0) (p : Choice → Bool) (cs : List Choice)
    → All P cs
    → All (λ c. P c × (p c ≡ true)) (keep p cs)
unfolding keep
keep-All P p [] h = tt
keep-All P p (c ∷ cs) (q, h) = elim (Bool-cases (p c)) [
  | inl e ↦ rw e ((q, e), keep-All P p cs h)
  | inr e ↦ rw e (keep-All P p cs h)
]

find-All :
    (P : Choice → Type 0) (cs : List Choice) (c : Choice)
    → All P cs
    → find_first is_mild cs ≡ some c
    → P c
unfolding find_first
find-All P [] c h e = cc
find-All P (d ∷ cs) c (q, h) e = elim (Bool-cases (is_mild d)) [
  | inl m ↦ let same : d ≡ c = ground arith in subst P same q
  | inr m ↦ find-All P cs c h (rw m at e)
]

pick-All :
    (P : Choice → Type 0) (d : Choice) (cs : List Choice)
    → All P cs
    → is_empty cs ≡ false
    → P (pick d cs)
unfolding pick
pick-All P d [] h e = absurd (false≢true (sym e))
pick-All P d (c ∷ cs) (q, h) e = elim (Option-cases (find_first is_mild (c ∷ cs))) [
  | inl none_mild ↦ rw none_mild q
  | inr (m, found) ↦ rw found (find-All P (c ∷ cs) m (q, h) found)
]

module _ ⦃py : PyText⦄ where
  -- the decision of a choice is the one on its objective
  abbrev IsOwn : Allowlist → Choice → Type 0
  IsOwn al c = c.decision ≡ validate_objective c.objective al

  evaluate-All : (al : Allowlist) (cs : List Candidate) → All (IsOwn al) (map (evaluate al) cs)
  evaluate-All al [] = tt
  evaluate-All al (c ∷ cs) = (refl, evaluate-All al cs)

  any-kept :
      (al : Allowlist) (cs : List Candidate)
      → is_empty (keep (λ (c : Choice). c.decision.accepted) (map (evaluate al) cs))
        ≡ not (any (λ (c : Candidate). (validate_objective c.objective al).accepted) cs)
  unfolding keep
  any-kept al [] = refl
  any-kept al (c ∷ cs) = elim (Bool-cases (validate_objective c.objective al).accepted) [
    | inl e ↦ rw e refl
    | inr e ↦ rw e (any-kept al cs)
  ]

  evaluate-rejected :
      (al : Allowlist) (cs : List Candidate)
      → any (λ (c : Candidate). (validate_objective c.objective al).accepted) cs ≡ false
      → All (λ c. IsOwn al c × (c.decision.accepted ≡ false)) (map (evaluate al) cs)
  evaluate-rejected al [] h = tt
  evaluate-rejected al (c ∷ cs) h =
      let no : (validate_objective c.objective al).accepted ≡ false = ground arith in
      let later : any (λ (d : Candidate). (validate_objective d.objective al).accepted) cs ≡ false =
        ground arith in
      ((refl, no), evaluate-rejected al cs later)

  -- The decision that is chosen is the one on the objective that is chosen, and it accepts exactly if
  -- some candidate is accepted.
  pub choose_objective-accepted :
      (cs : List Candidate) (al : Allowlist)
      → ((choose_objective cs al).decision
          ≡ validate_objective (choose_objective cs al).objective al)
        × ((choose_objective cs al).decision.accepted
            ≡ any (λ (c : Candidate). (validate_objective c.objective al).accepted) cs)
  unfolding choose_objective validate_objective
  choose_objective-accepted cs al =
      let accepted = keep (λ (c : Choice). c.decision.accepted) (map (evaluate al) cs) in
      let some_accepted =
        any (λ (c : Candidate). (validate_objective c.objective al).accepted) cs in
      elim (Bool-cases some_accepted) [
        | inl e ↦
            let full : is_empty accepted ≡ false = any-kept al cs ∙ ap not e in
            let (own, taken) =
              pick-All (λ c. IsOwn al c × (c.decision.accepted ≡ true)) (no_candidate al) accepted
                (keep-All (IsOwn al) (λ (c : Choice). c.decision.accepted) _ (evaluate-All al cs))
                full in
            rw full (own, taken ∙ sym e)
        | inr e ↦
            let none_kept : is_empty accepted ≡ true = any-kept al cs ∙ ap not e in
            let (own, refused) =
              first_or-All (λ c. IsOwn al c × (c.decision.accepted ≡ false)) (no_candidate al) _
                (refl, refl) (evaluate-rejected al cs e) in
            rw none_kept (own, refused ∙ sym e)
      ]

  -- The operator is shown what is sent: the method, the path and the payload of the request, with its
  -- fingerprint.
  pub record IsShown (run_id : String) (probe : SafeProbe) (request : ApprovalRequest)
      : Type 0 where
    pub run : request.run_id ≡ run_id
    pub method : request.method ≡ py.upper probe.method
    pub endpoint : request.endpoint ≡ probe.path
    pub payload : payload_of probe.payload_kind ≡ ok request.payload
    pub print : request_fingerprint probe ≡ ok request.request_fingerprint
