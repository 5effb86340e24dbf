-- ===== src/Analysis/Pipeline/Counts.antt =====
-- What the outcome of a group counts, and when there is no outcome.
use nguyen_dinh_b.Prelude.{
  ℕ, ◌+◌, ◌≤◌, ◌<◌, String, ◌≡◌, refl, inl, inr, Bool, true, false, not, ◌||◌, Option, none, some,
  arith, Bool-cases, is_some, is_empty,
}
use mathlib.Core.Path.{subst}
use nguyen_dinh_b.Json.{Json, obj, Fields, get_null, truthy}
use nguyen_dinh_b.Python.{ok, PyText, bind-cases, ok-injective, Returns, Returns-ok, Returns-bind}
use nguyen_dinh_b.Allowlist.{Allowlist}
use nguyen_dinh_b.Calibration.{calibrate_record}
use nguyen_dinh_b.Grouping.Build.{FindingGroup}
use nguyen_dinh_b.Analysis.Provenance.{as_dict}
use nguyen_dinh_b.Analysis.Pipeline.{
  LlmResult, GroupAnalysisResult, Environment, ResponseErrors, says, has_any, blocks_the_record,
  GroupOutcome, one_if,
}
use nguyen_dinh_b.Analysis.Pipeline.Group.{
  validate_response, measured_reachability, keep_record, settled_fields, is_null, count_objective,
  settle,
}
use nguyen_dinh_b.Analysis.Pipeline.Retry.{
  counted, observed, unanswered, recalled, noted, feedback_prompt, retry, no_retries, settle_first,
  started, analyze_one_group,
}

-- What holds of the counts of a finished group: a group is unresolved just if it has no record, each
-- call beyond the first is the one retry, no more responses are bad than there were calls, no more
-- of them unsafe than bad, and a proposal is counted as valid or as invalid, not as both, and only
-- where there is a record.
pub record IsCounted (o : GroupOutcome) : Type 0 where
  pub unresolved : o.invalid_output_count + one_if (is_some o.kept_record) ≡ 1
  pub calls : o.llm_call_count ≡ 1 + o.retry_count
  pub one_retry : o.retry_count ≤ 1
  pub bad : o.invalid_responses_observed ≤ o.llm_call_count
  pub unsafe_bad : o.unsafe_responses_observed ≤ o.invalid_responses_observed
  pub unsafe_lost : o.unsafe_output_count ≤ o.invalid_output_count
  pub proposals :
      o.valid_objective_count + o.invalid_objective_count ≤ one_if (is_some o.kept_record)

-- The counts before the response of the last call is settled.
record IsOpen (o : GroupOutcome) : Type 0 where
  no_record : o.kept_record ≡ none
  none_lost : o.invalid_output_count ≡ 0
  none_unsafe : o.unsafe_output_count ≡ 0
  no_valid : o.valid_objective_count ≡ 0
  no_invalid : o.invalid_objective_count ≡ 0
  calls : o.llm_call_count ≡ 1 + o.retry_count
  one_retry : o.retry_count ≤ 1
  bad : o.invalid_responses_observed ≤ o.llm_call_count
  unsafe_bad : o.unsafe_responses_observed ≤ o.invalid_responses_observed

-- The same, of a call whose response is still to be noted.
record IsFresh (o : GroupOutcome) : Type 0 where
  is_open : IsOpen o
  room : o.invalid_responses_observed < o.llm_call_count

one_if-le : (b : Bool) → one_if b ≤ 1
one_if-le true = omega arith
one_if-le false = omega arith

observed-IsOpen :
    (errors : ResponseErrors) (o : GroupOutcome) → IsFresh o → IsOpen (observed errors o)
observed-IsOpen errors o f =
    let h = f.is_open in
    record {
      no_record = h.no_record;
      none_lost = h.none_lost;
      none_unsafe = h.none_unsafe;
      no_valid = h.no_valid;
      no_invalid = h.no_invalid;
      calls = h.calls;
      one_retry = h.one_retry;
      bad = omega (arith, f.room);
      unsafe_bad = omega (arith, h.unsafe_bad, one_if-le (not (is_empty errors.unsafe)));
    }

unanswered-IsOpen :
    (message : String) (o : GroupOutcome) → IsFresh o → IsOpen (unanswered message o)
unanswered-IsOpen message o f =
    let h = f.is_open in
    record {
      no_record = h.no_record;
      none_lost = h.none_lost;
      none_unsafe = h.none_unsafe;
      no_valid = h.no_valid;
      no_invalid = h.no_invalid;
      calls = h.calls;
      one_retry = h.one_retry;
      bad = omega (arith, f.room);
      unsafe_bad = omega (arith, h.unsafe_bad);
    }

noted-IsOpen : (errors : ResponseErrors) (o : GroupOutcome) → IsFresh o → IsOpen (noted errors o)
noted-IsOpen errors o f = elim (Bool-cases (has_any errors)) [
  | inl e ↦ rw e (observed-IsOpen errors o f)
  | inr e ↦ rw e f.is_open
]

recalled-IsFresh :
    (lr : LlmResult) (o : GroupOutcome) → o.retry_count ≡ 0 → IsOpen o → IsFresh (recalled lr o)
recalled-IsFresh lr o first h = record {
  is_open = record {
    no_record = h.no_record;
    none_lost = h.none_lost;
    none_unsafe = h.none_unsafe;
    no_valid = h.no_valid;
    no_invalid = h.no_invalid;
    calls = omega (arith, h.calls, first);
    one_retry = omega arith;
    bad = omega (arith, h.bad);
    unsafe_bad = h.unsafe_bad;
  };
  room = omega (arith, h.bad);
}

-- The counts of an outcome that is about to get its record.
record IsReady (o : GroupOutcome) : Type 0 where
  none_lost : o.invalid_output_count ≡ 0
  none_unsafe : o.unsafe_output_count ≡ 0
  proposals : o.valid_objective_count + o.invalid_objective_count ≤ 1
  calls : o.llm_call_count ≡ 1 + o.retry_count
  one_retry : o.retry_count ≤ 1
  bad : o.invalid_responses_observed ≤ o.llm_call_count
  unsafe_bad : o.unsafe_responses_observed ≤ o.invalid_responses_observed

ready :
    (o : GroupOutcome) (valid invalid : ℕ)
    → valid + invalid ≤ 1
    → IsOpen o
    → IsReady (record o { valid_objective_count = valid; invalid_objective_count = invalid })
ready o valid invalid most h = record {
  none_lost = h.none_lost;
  none_unsafe = h.none_unsafe;
  proposals = most;
  calls = h.calls;
  one_retry = h.one_retry;
  bad = h.bad;
  unsafe_bad = h.unsafe_bad;
}

count_objective-IsReady :
    (error : Option String) (fs : Fields) (o : GroupOutcome)
    → IsOpen o
    → IsReady (count_objective error fs o)
count_objective-IsReady (some text) fs o h =
    ready o o.valid_objective_count 1 (omega (arith, h.no_valid)) h
count_objective-IsReady none fs o h =
    elim (Bool-cases (is_null (get_null "verification_objective" fs))) [
      | inl e ↦ rw e (
          ready o o.valid_objective_count o.invalid_objective_count
            (omega (arith, h.no_valid, h.no_invalid)) h)
      | inr e ↦ rw e (ready o 1 o.invalid_objective_count (omega (arith, h.no_invalid)) h)
    ]

counted-IsReady : (fs : Fields) (o : GroupOutcome) → IsOpen o → IsReady (counted fs o)
counted-IsReady fs o h =
    ready o _ o.invalid_objective_count
      (omega
        (arith, h.no_invalid, one_if-le (not (is_null (get_null "verification_objective" fs)))))
      h

started-IsFresh : (group : FindingGroup) (a : GroupAnalysisResult) → IsFresh (started group a)
started-IsFresh group a = record {
  is_open = record {
    no_record = refl;
    none_lost = refl;
    none_unsafe = refl;
    no_valid = refl;
    no_invalid = refl;
    calls = refl;
    one_retry = omega arith;
    bad = omega arith;
    unsafe_bad = omega arith;
  };
  room = omega arith;
}

module _ ⦃py : PyText⦄ (env : Environment) (al : Option Allowlist) (group : FindingGroup) where
  keep-IsCounted :
      (fs : Fields) (o : GroupOutcome) → IsReady o → Returns IsCounted (keep_record env group fs o)
  unfolding keep_record
  keep-IsCounted fs o h = Returns-bind (measured_reachability env group fs) _ λ measured m.
      Returns-bind (calibrate_record env.denials (obj fs) measured) _ λ (r, calibration) e.
        Returns-ok (record {
          unresolved = omega (arith, h.none_lost);
          calls = h.calls;
          one_retry = h.one_retry;
          bad = h.bad;
          unsafe_bad = h.unsafe_bad;
          unsafe_lost = omega (arith, h.none_unsafe);
          proposals = h.proposals;
        })

  settle-IsCounted :
      (o : GroupOutcome) (response : Json) (errors : ResponseErrors)
      → IsOpen o
      → Returns IsCounted (settle env o response errors group)
  unfolding settle
  settle-IsCounted o response errors h = elim (Bool-cases (blocks_the_record errors)) [
    | inl b ↦
        rw (b, settle)
          (Returns-ok (record {
            unresolved = rw h.no_record refl;
            calls = h.calls;
            one_retry = h.one_retry;
            bad = h.bad;
            unsafe_bad = h.unsafe_bad;
            unsafe_lost = one_if-le (not (is_empty errors.unsafe));
            proposals = omega (arith, h.no_valid, h.no_invalid);
          }))
    | inr b ↦
        rw (b, settle)
          (Returns-bind (as_dict response) _ λ fs p.
            keep-IsCounted (settled_fields errors.objective fs) _
              (count_objective-IsReady errors.objective fs o h))
  ]

  retry-IsCounted :
      (response : Json) (errors : ResponseErrors) (o : GroupOutcome) (prompt : String)
      → o.retry_count ≡ 0
      → IsOpen o
      → Returns IsCounted (retry env group al response errors o prompt)
  unfolding retry
  retry-IsCounted response errors o prompt first h =
      Returns-bind (env.analyze group (some prompt)) _ λ again a.
        let fresh = recalled-IsFresh again.llm_result o first h in
        elim (Bool-cases (truthy again.llm_result.parsed_response)) [
          | inr e ↦
              rw (e, retry)
                (settle-IsCounted _ response errors
                  (unanswered-IsOpen _ (recalled again.llm_result o) fresh))
          | inl e ↦
              rw (e, retry)
                (Returns-bind
                  (validate_response env again.llm_result.parsed_response group again al) _
                  λ retry_errors v.
                    settle-IsCounted _ again.llm_result.parsed_response retry_errors
                      (noted-IsOpen retry_errors (recalled again.llm_result o) fresh))
        ]

  settle_first-IsCounted :
      (first : GroupAnalysisResult) (errors : ResponseErrors) (o : GroupOutcome)
      → o.retry_count ≡ 0
      → IsFresh o
      → Returns IsCounted (settle_first env group al first errors o)
  unfolding settle_first
  settle_first-IsCounted first errors o once f = elim (Bool-cases (has_any errors)) [
    | inr e ↦
        rw (e, settle_first)
          (Returns-bind (as_dict first.llm_result.parsed_response) _
            λ fs p. keep-IsCounted fs (counted fs o) (counted-IsReady fs o f.is_open))
    | inl e ↦
        let noted_ = observed-IsOpen errors o f in
        elim (Bool-cases
          (not (blocks_the_record errors) || no_retries env.validation_max_retries)) [
            | inl stop ↦
                rw (e, settle_first, stop)
                  (settle-IsCounted (observed errors o) first.llm_result.parsed_response errors
                    noted_)
            | inr again ↦
                rw (e, settle_first, again)
                  (retry-IsCounted first.llm_result.parsed_response errors (observed errors o)
                    (feedback_prompt env al first errors) once noted_)
          ]
  ]

  -- Whatever the model answers and the checks say: the outcome of a group, where there is one, counts
  -- one call and at most one retry; the group is unresolved just if it has no record; no more
  -- responses are bad than there were calls and no more unsafe than bad; and a proposal is counted,
  -- as valid or as invalid, at most once and only where there is a record.
  pub analyze_one_group-IsCounted :
      (o : GroupOutcome) → analyze_one_group env group al ≡ ok o → IsCounted o
  unfolding analyze_one_group
  analyze_one_group-IsCounted o h = bind-cases (env.analyze group none) _ h λ first a h1.
      elim (Bool-cases
        (says first.llm_result.error || not (truthy first.llm_result.parsed_response))) [
          | inl failed ↦ subst IsCounted (ok-injective (rw failed at h1)) (record {
            unresolved = refl;
            calls = refl;
            one_retry = omega arith;
            bad = omega arith;
            unsafe_bad = omega arith;
            unsafe_lost = omega arith;
            proposals = omega arith;
          })
          | inr answered ↦
              bind-cases (validate_response env first.llm_result.parsed_response group first al) _
                (rw answered at h1)
                λ errors v h2.
                  (settle_first-IsCounted first errors (started group first) refl
                      (started-IsFresh group first)).at
                    o h2
        ]
