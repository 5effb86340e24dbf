-- ===== src/Analysis/Summary/Complete.antt =====
-- What the summary of a run counts, which groups its records are of, and what the records of a run have been through.
use nguyen_dinh_b.Prelude.{
  ℕ, suc, ◌+◌, ◌≤◌, String, ◌≡◌, refl, ap, ◌↔◌, inl, inr, ◌&&◌, Option, some, List, [], ◌∷◌, arith,
  if◌then◌else◌, length, is_empty, All, all, ne_of_test,
}
use mathlib.Core.Path.{subst}
use nguyen_dinh_b.Prelude.Order.{In}
use nguyen_dinh_b.Json.{Json}
use nguyen_dinh_b.Python.{ok, PyText, bind-cases, ok-injective}
use nguyen_dinh_b.Redaction.{Pattern}
use nguyen_dinh_b.Grouping.{NormalizedFinding}
use nguyen_dinh_b.Prelude.Int.{ℤ}
use nguyen_dinh_b.Allowlist.{Allowlist}
use nguyen_dinh_b.Grouping.Build.{FindingGroup, group_findings}
use nguyen_dinh_b.Analysis.Pipeline.{Environment, GroupOutcome}
use nguyen_dinh_b.Analysis.Pipeline.Retry.{analyze_one_group}
use nguyen_dinh_b.Analysis.Pipeline.Checked.{IsVetted, HasTextPaths}
use nguyen_dinh_b.Analysis.Pipeline.Vetted.{analyze_one_group-IsVetted}
use nguyen_dinh_b.Analysis.Pipeline.Counts.{IsCounted, analyze_one_group-IsCounted}
use nguyen_dinh_b.Analysis.Summary.{
  summarize, run_pipeline, no_totals, add_outcomes, reasons_given, Totals, RunSummary,
  analyze_groups,
}
use nguyen_dinh_b.Analysis.Summary.Accounted.{IsAccounted, add_outcomes-IsAccounted}
use nguyen_dinh_b.Analysis.Summary.Tally.{IsTallied, add_outcomes-IsTallied, add_outcomes-All}

-- The counts of the summary agree: as many records and missing keys as groups, and the calls, the
-- unresolved groups and the proposals with them.
pub record IsComplete (records : List Json) (s : RunSummary) : Type 0 where
  pub written : length records ≡ s.output_record_count
  pub each_group : s.output_record_count + length s.missing_group_keys ≡ s.group_count
  pub unresolved : s.unresolved_groups ≡ length s.missing_group_keys
  pub calls : s.llm_call_count ≡ s.group_count + s.retry_count
  pub retries : s.retry_count ≤ s.group_count
  pub bad : s.invalid_responses_observed ≤ s.llm_call_count
  pub proposals : s.valid_objective_count + s.invalid_objective_count ≤ s.output_record_count
  pub complete :
      (s.completeness ≡ "COMPLETE")
      ↔ ((s.output_record_count ≡ s.group_count) × (s.degraded_reasons ≡ []))

abbrev completeness : List String → List String → String
completeness missing degraded =
    if is_empty missing && is_empty degraded then "COMPLETE" else "PARTIAL"

complete_iff :
    (missing degraded : List String) (written n : ℕ)
    → written + length missing ≡ n
    → (completeness missing degraded ≡ "COMPLETE") ↔ ((written ≡ n) × (degraded ≡ []))
complete_iff [] [] written n h = (λ _. (omega (arith, h), refl), λ _. refl)
complete_iff [] (d ∷ ds) written n h =
    (λ e. absurd (ne_of_test "PARTIAL" "COMPLETE" refl e), λ (_, e). absurd (cc e))
complete_iff (m ∷ ms) degraded written n h =
    (λ e. absurd (ne_of_test "PARTIAL" "COMPLETE" refl e), λ (e, _). absurd (omega (arith, e, h)))

module _ ⦃py : PyText⦄ (env : Environment) (al : Option Allowlist) where
  summarize-IsComplete :
      (patterns : List Pattern) (found n : ℕ) (problem : Option String) (t : Totals)
      → IsTallied n t
      → IsComplete t.records (summarize patterns found n al problem t)
  unfolding summarize
  summarize-IsComplete patterns found n problem t h = record {
    written = refl;
    each_group = h.each_group;
    unresolved = h.lost;
    calls = h.calls;
    retries = h.retries;
    bad = h.bad;
    proposals = h.proposals;
    complete =
        complete_iff t.missing_group_keys (reasons_given problem) (length t.records) n h.each_group;
  }

  -- The record comes from one of the groups.
  abbrev pub IsFromGroup : List FindingGroup → Json → Type 0
  IsFromGroup groups r = (g : FindingGroup) × In g groups × IsVetted env al g r

  analyze_groups-IsCounted :
      (gs : List FindingGroup) (os : List GroupOutcome)
      → analyze_groups env gs al ≡ ok os
      → All IsCounted os × (length os ≡ length gs)
  unfolding analyze_groups
  analyze_groups-IsCounted [] os h = rw (← ok-injective h) (tt, refl)
  analyze_groups-IsCounted (g ∷ gs) os h = bind-cases (analyze_one_group env g al) _ h λ o p h1.
      bind-cases (analyze_groups env gs al) _ h1 λ rest q h2.
        let (cs, len) = analyze_groups-IsCounted gs rest q in
        rw (← ok-injective h2) ((analyze_one_group-IsCounted env al g o p, cs), ap suc len)

  analyze_groups-IsFromGroup :
      (all gs : List FindingGroup) (os : List GroupOutcome)
      → ((g : FindingGroup) → HasTextPaths env al g)
      → ((g : FindingGroup) → In g gs → In g all)
      → analyze_groups env gs al ≡ ok os
      → All (λ o. (r : Json) → o.kept_record ≡ some r → IsFromGroup all r) os
  unfolding analyze_groups
  analyze_groups-IsFromGroup all [] os texts sub h = rw (← ok-injective h) tt
  analyze_groups-IsFromGroup all (g ∷ gs) os texts sub h =
      bind-cases (analyze_one_group env g al) _ h λ o p h1.
        bind-cases (analyze_groups env gs al) _ h1 λ rest q h2. rw (← ok-injective h2) (
          (λ r k. (g, sub g (inl refl), analyze_one_group-IsVetted env al g o r (texts g) p k)),
          analyze_groups-IsFromGroup all gs rest texts (λ x i. sub x (inr i)) q,
        )

  -- Whatever the model answers: if a run returns, its records and the missing keys of its summary are
  -- those of the groups of its findings, in their order: for each group the record that the analysis of
  -- that group keeps, or the key of that group if it keeps none. The calls are one for each group and
  -- one for each retry, of which there is at most one for a group; the unresolved groups are as many as
  -- the missing ones; no more responses are bad than there were calls, and no more proposals counted
  -- than records written; and the run calls itself complete just if there are as many records as groups
  -- and the inventory could be loaded.
  pub run_pipeline-IsComplete :
      (lower md5 norm : String → String) (patterns : List Pattern) (threshold : ℤ)
      (findings : List NormalizedFinding) (problem : Option String) (records : List Json)
      (s : RunSummary)
      → run_pipeline env lower md5 norm patterns threshold findings al problem ≡ ok (records, s)
      → IsComplete records s
        × IsAccounted env al
            (group_findings lower md5 threshold findings)
            records
            s.missing_group_keys
  unfolding run_pipeline summarize
  run_pipeline-IsComplete lower md5 norm patterns threshold findings problem records s h =
      let groups = group_findings lower md5 threshold findings in
      bind-cases (analyze_groups env groups al) _ h λ os p h1.
        let (counted, len) = analyze_groups-IsCounted groups os p in
        let t = add_outcomes norm os no_totals in
        let tally = add_outcomes-IsTallied norm os 0 no_totals counted (record {
          each_group = refl;
          calls = refl;
          retries = omega arith;
          lost = refl;
          bad = omega arith;
          proposals = omega arith;
        }) in
        subst (λ r. IsComplete r.0 r.1 × IsAccounted env al groups r.0 r.1.missing_group_keys)
          (ok-injective h1)
          (
            summarize-IsComplete patterns (length findings) (length groups) problem t
                (subst (λ n. IsTallied n t) (omega (arith, len)) tally),
            add_outcomes-IsAccounted env al norm groups os p,
          )

  -- If the evidence in the packets has texts for its paths where it has paths: every record that a
  -- run writes comes from a group of its findings, by a response of the model to the group's own packet that passed the checks.
  pub run_pipeline-IsFromGroup :
      (lower md5 norm : String → String) (patterns : List Pattern) (threshold : ℤ)
      (findings : List NormalizedFinding) (problem : Option String) (records : List Json)
      (s : RunSummary)
      → ((g : FindingGroup) → HasTextPaths env al g)
      → run_pipeline env lower md5 norm patterns threshold findings al problem ≡ ok (records, s)
      → All (IsFromGroup (group_findings lower md5 threshold findings)) records
  unfolding run_pipeline
  run_pipeline-IsFromGroup lower md5 norm patterns threshold findings problem records s texts h =
      let groups = group_findings lower md5 threshold findings in
      bind-cases (analyze_groups env groups al) _ h λ os p h1.
        subst (λ r. All (IsFromGroup groups) r.0) (ok-injective h1)
          (add_outcomes-All (IsFromGroup groups) norm os no_totals
            (analyze_groups-IsFromGroup groups groups os texts (λ g i. i) p) tt)
