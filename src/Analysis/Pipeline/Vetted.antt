-- ===== src/Analysis/Pipeline/Vetted.antt =====
-- What the record of a group has been through.
use nguyen_dinh_b.Prelude.{
  ◌≡◌, refl, sym, ◌∙◌, inl, inr, Bool, true, false, not, ◌||◌, Option, none, some, if◌then◌else◌,
  Bool-cases,
}
use mathlib.Core.Path.{subst}
use nguyen_dinh_b.Json.{Json, truthy}
use nguyen_dinh_b.Python.{ok, PyText, bind-cases, Returns, Returns-bind}
use nguyen_dinh_b.Allowlist.{Allowlist}
use nguyen_dinh_b.Grouping.Build.{FindingGroup}
use nguyen_dinh_b.Analysis.Provenance.{as_dict}
use nguyen_dinh_b.Analysis.Provenance.Laws.{as_dict-eq}
use nguyen_dinh_b.Analysis.Pipeline.{
  GroupAnalysisResult, Environment, ResponseErrors, says, has_any, blocks_the_record, GroupOutcome,
}
use nguyen_dinh_b.Analysis.Pipeline.Group.{objective_error, validate_response}
use nguyen_dinh_b.Analysis.Pipeline.Retry.{
  counted, feedback_prompt, observed, recalled, retry, no_retries, settle_first, started,
  analyze_one_group,
}
use nguyen_dinh_b.Analysis.Pipeline.Checked.{
  no_errors, obj-injective, objective_error-IsAllowed, objective-says, IsVetted, HasVetted,
  IsChecked, HasTextPaths, validate_response-IsChecked, keep-HasVetted, settle-HasVetted,
}

blocked_of : (a b : Bool) → (not a || b) ≡ false → a ≡ true
blocked_of true b h = refl
blocked_of false b h = cc

kept_if :
    (b : Bool) (o p : GroupOutcome)
    → o.kept_record ≡ none
    → p.kept_record ≡ none
    → (if b then o else p).kept_record ≡ none
kept_if true o p h k = h
kept_if false o p h k = k

module _ ⦃py : PyText⦄ where
  module _ (env : Environment) (al : Option Allowlist) (group : FindingGroup) where
    retry-HasVetted :
        (first : GroupAnalysisResult) (errors : ResponseErrors) (o : GroupOutcome)
        → env.analyze group none ≡ ok first
        → validate_response env first.llm_result.parsed_response group first al ≡ ok errors
        → HasTextPaths env al group
        → blocks_the_record errors ≡ true
        → o.kept_record ≡ none
        → Returns (HasVetted env al group) (
            retry env group al first.llm_result.parsed_response errors o
              (feedback_prompt env al first errors))
    unfolding retry
    retry-HasVetted first errors o called found texts blocked new =
        Returns-bind (env.analyze group (some (feedback_prompt env al first errors))) _ λ again a.
          elim (Bool-cases (truthy again.llm_result.parsed_response)) [
            | inr e ↦
                rw (e, retry)
                  (settle-HasVetted env al group first errors _ (λ b. absurd (cc (b, blocked))) new)
            | inl e ↦
                rw (e, retry)
                  (Returns-bind
                    (validate_response env again.llm_result.parsed_response group again al) _
                    λ retry_errors v.
                      settle-HasVetted env al group again retry_errors _
                        (validate_response-IsChecked env al group again retry_errors
                          (inr (first, errors, called, found, blocked, a)) (texts _ again a) v)
                        (kept_if (has_any retry_errors)
                          (observed retry_errors (recalled again.llm_result o))
                          (recalled again.llm_result o) new new))
          ]

    settle_first-HasVetted :
        (first : GroupAnalysisResult) (errors : ResponseErrors) (o : GroupOutcome)
        → env.analyze group none ≡ ok first
        → validate_response env first.llm_result.parsed_response group first al ≡ ok errors
        → HasTextPaths env al group
        → (blocks_the_record errors ≡ false → IsChecked env al group first errors)
        → o.kept_record ≡ none
        → Returns (HasVetted env al group) (settle_first env group al first errors o)
    unfolding settle_first
    settle_first-HasVetted first errors o called found texts checked new =
        elim (Bool-cases (has_any errors)) [
          | inr none_ ↦
              let c = checked (no_errors errors none_).0 in
              rw (none_, settle_first)
                (Returns-bind (as_dict first.llm_result.parsed_response) _ λ fs p.
                  let same : c.response ≡ fs =
                    obj-injective
                      (sym c.answered ∙ as_dict-eq first.llm_result.parsed_response p) in
                  keep-HasVetted env al group first errors fs (counted fs o) c (inl (sym same)) (
                    objective_error-IsAllowed env al _ (
                      subst (λ x. objective_error env x al ≡ none) same
                        (objective-says env al _
                          (subst (λ x. says x ≡ false) c.objective (no_errors errors none_).1)))))
          | inl some_ ↦
              elim (Bool-cases
                (not (blocks_the_record errors) || no_retries env.validation_max_retries)) [
                  | inl stop ↦
                      rw (some_, settle_first, stop)
                        (settle-HasVetted env al group first errors (observed errors o) checked new)
                  | inr again ↦
                      rw (some_, settle_first, again)
                        (retry-HasVetted first errors (observed errors o) called found texts
                          (blocked_of _ _ again) new)
                ]
        ]

    -- If the evidence in the packets of the group has texts for its paths where it has paths: a
    -- record that the analysis of the group keeps comes from the response of the model to the
    -- first call for this group, or to the second, whose prompt has the errors of the first, where
    -- these blocked it; the schema accepts the response, it agrees with the packet of its call, and it has
    -- no exploit payload where the model writes; the request that it proposes, if it proposes one,
    -- is covered by the inventory, if there is one, or else it is taken out; and the record is
    -- calibrated with the reachability that was measured for the group.
    pub analyze_one_group-IsVetted :
        (o : GroupOutcome) (r : Json)
        → HasTextPaths env al group
        → analyze_one_group env group al ≡ ok o
        → o.kept_record ≡ some r
        → IsVetted env al group r
    unfolding analyze_one_group
    analyze_one_group-IsVetted o r texts h kept =
        bind-cases (env.analyze group none) _ h λ first a h1.
          elim (Bool-cases
            (says first.llm_result.error || not (truthy first.llm_result.parsed_response))) [
              | inl failed ↦ absurd (cc (rw failed at h1, kept))
              | inr answered ↦
                  bind-cases (validate_response env first.llm_result.parsed_response group first al)
                    _ (rw answered at h1)
                    λ errors v h2.
                      (settle_first-HasVetted first errors (started group first) a v texts
                          (validate_response-IsChecked env al group first errors (inl a)
                            (texts none first a) v)
                          refl).at
                        o h2 r kept
            ]
