-- ===== src/Verdict/Grounds.antt =====
-- On what grounds a request counts for or against a finding.
use nguyen_dinh_b.Prelude.{
  String, ◌≡◌, refl, ◌⊎◌, inl, inr, true, false, not, ◌||◌, some, arith, ◌==◌, if◌then◌else◌,
  Bool-cases, Option-cases, codes, is_blank,
}
use nguyen_dinh_b.Json.{Json, str, obj, Fields, get_null, truthy}
use nguyen_dinh_b.Python.{ok, PyText, Returns, Returns-ok, Returns-err}
use nguyen_dinh_b.Verdict.{
  ProbeVerdict, evidence_text, finding_ids, path_of, signal_of, body_of, contains, linked_record,
  judge_signal, judge_path, judge_record, is_override, judge_sent, decide_verdict,
}

-- The grounds of a verdict for or against: the request was sent, belongs to the finding `entry` of the
-- analyses, the evidence of `entry` names its path, and a signal was declared.
pub record IsGrounded ⦃py : PyText⦄ (proposal probe analyses : Json) (d : ProbeVerdict)
    : Type 0 where
  pub plan : Fields
  pub outcome : Fields
  pub is_plan : proposal ≡ obj plan
  pub is_outcome : probe ≡ obj outcome
  pub sent : truthy (get_null "sent" outcome) ≡ true
  pub not_chosen_by_hand : is_override plan ≡ false
  pub entry : Fields
  pub linked : linked_record analyses (get_null "source_analysis_id" plan) ≡ some entry
  pub path : String
  pub is_path : path_of (get_null "probe" plan) ≡ str path
  pub nonempty : (path == "") ≡ false
  pub named : contains path (evidence_text entry) ≡ true
  pub signal : String
  pub is_signal : signal_of (get_null "objective" plan) ≡ str signal
  pub declared : is_blank (codes signal) ≡ false
  -- which of the two it is depends only on whether the response has the signal
  pub answer : d.verdict ≡ (
      if contains signal (body_of (get_null "body_preview" outcome)) then "supports" else "refutes")
  pub ids : d.source_finding_ids ≡ finding_ids entry

-- A verdict is inconclusive, or grounded.
abbrev pub IsJust : ⦃py : PyText⦄ → (proposal probe analyses : Json) → ProbeVerdict → Type 0
IsJust proposal probe analyses d =
    (d.verdict ≡ "inconclusive") ⊎ IsGrounded proposal probe analyses d

module _ ⦃py : PyText⦄ (body : String) (id : Json) (r : Fields) where
  -- a verdict that a declared signal decides
  abbrev Decides : (signal : Json) → ProbeVerdict → Type 0
  Decides v d =
      (s : String) × (v ≡ str s)
      × (is_blank (codes s) ≡ false)
      × (d.verdict ≡ (if contains s body then "supports" else "refutes"))
      × (d.source_finding_ids ≡ finding_ids r)

  judge_signal_declared :
      (s : String) (path : Json)
      → is_blank (codes s) ≡ false
      → Decides (str s) (judge_signal (str s) body id r path)
  unfolding judge_signal
  judge_signal_declared s path h = elim (Bool-cases (contains s body)) [
    | inl e ↦ (s, refl, h, rw (h, e) refl, rw (h, e) refl)
    | inr e ↦ (s, refl, h, rw (h, e) refl, rw (h, e) refl)
  ]

  judge_signal_answer :
      (s : String) (path : Json)
      → is_blank (codes s) ≡ false
      → (judge_signal (str s) body id r path).verdict
        ≡ (if contains s body then "supports" else "refutes")
  unfolding judge_signal
  judge_signal_answer s path h = elim (Bool-cases (contains s body)) [
    | inl e ↦ rw (h, e) refl
    | inr e ↦ rw (h, e) refl
  ]

  judge_signal_cases :
      (v path : Json)
      → ((judge_signal v body id r path).verdict ≡ "inconclusive")
        ⊎ Decides v (judge_signal v body id r path)
  unfolding judge_signal
  judge_signal_cases (str s) path = elim (Bool-cases (is_blank (codes s))) [
    | inl e ↦ inl (rw e refl)
    | inr e ↦ inr (judge_signal_declared s path e)
  ]
  judge_signal_cases _ path = inl refl

  -- a verdict on a path that the evidence names
  abbrev Names : (path signal : Json) → ProbeVerdict → Type 0
  Names path v d =
      (p : String) × (path ≡ str p)
      × ((p == "") ≡ false)
      × (contains p (evidence_text r) ≡ true)
      × Decides v d

  judge_path_cases :
      (path v : Json)
      → Returns (λ d. (d.verdict ≡ "inconclusive") ⊎ Names path v d) (judge_path path v body id r)
  unfolding judge_path
  judge_path_cases (str p) v = elim (Bool-cases (p == "" || not (contains p (evidence_text r)))) [
    | inl e ↦ rw e (Returns-ok (inl refl))
    | inr e ↦
        let full : (p == "") ≡ false = ground arith in
        let named : contains p (evidence_text r) ≡ true = ground arith in
        rw e (
          Returns-ok (elim (judge_signal_cases v (str p)) [
            | inl k ↦ inl k
            | inr k ↦ inr (p, refl, full, named, k)
          ]))
  ]
  judge_path_cases path v = elim (Bool-cases (truthy path)) [
    | inl e ↦ rw e Returns-err
    | inr e ↦ rw e (Returns-ok (inl refl))
  ]

module _ ⦃py : PyText⦄ where
  judge_sent_cases :
      (plan outcome : Fields) (analyses : Json)
      → truthy (get_null "sent" outcome) ≡ true
      → Returns (IsJust (obj plan) (obj outcome) analyses) (judge_sent plan outcome analyses)
  unfolding judge_sent judge_record
  judge_sent_cases plan outcome analyses h = elim (Bool-cases (is_override plan)) [
    | inl e ↦ rw e (Returns-ok (inl refl))
    | inr e ↦
        let body = body_of (get_null "body_preview" outcome) in
        let id = get_null "source_analysis_id" plan in
        elim (Option-cases (linked_record analyses id)) [
          | inl none_linked ↦ rw (e, none_linked) (Returns-ok (inl refl))
          | inr (r, l) ↦
              rw (e, l)
                (record {
                  at = λ d returned. elim ((judge_path_cases body id r _ _).at d returned) [
                    | inl k ↦ inl k
                    | inr (p, is_p, full, named, (s, is_s, declared, answer, ids)) ↦ inr (record {
                      plan = plan;
                      outcome = outcome;
                      is_plan = refl;
                      is_outcome = refl;
                      sent = h;
                      not_chosen_by_hand = e;
                      entry = r;
                      linked = l;
                      path = p;
                      is_path = is_p;
                      nonempty = full;
                      named = named;
                      signal = s;
                      is_signal = is_s;
                      declared = declared;
                      answer = answer;
                      ids = ids;
                    })
                  ];
                })
        ]
  ]

  decide_verdict-Returns :
      (proposal probe analyses : Json)
      → Returns (IsJust proposal probe analyses) (decide_verdict proposal probe analyses)
  unfolding decide_verdict
  decide_verdict-Returns (obj plan) (obj outcome) analyses =
      elim (Bool-cases (truthy (get_null "sent" outcome))) [
        | inl e ↦ rw e (judge_sent_cases plan outcome analyses e)
        | inr e ↦ rw e (Returns-ok (inl refl))
      ]
  decide_verdict-Returns _ _ analyses = Returns-ok (inl refl)

  -- A verdict that is returned is inconclusive, unless a request was sent, was not chosen by hand,
  -- belongs to a finding of the analyses whose evidence names its path, and declared the signal to
  -- look for. Then it supports the finding if the response has the signal, and refutes it if not.
  pub decide_verdict-IsJust :
      (proposal probe analyses : Json) (d : ProbeVerdict)
      → decide_verdict proposal probe analyses ≡ ok d
      → IsJust proposal probe analyses d
  decide_verdict-IsJust proposal probe analyses d h =
      (decide_verdict-Returns proposal probe analyses).at d h
