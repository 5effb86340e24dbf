-- ===== src/Analysis/Summary/Tally.antt =====
-- The totals of the loop over the outcomes of the groups.
use nguyen_dinh_b.Prelude.{
  ℕ, ◌+◌, ◌≤◌, String, ◌≡◌, refl, Option, none, some, List, [], ◌∷◌, arith, is_some, length,
  length-append, All, All-append,
}
use mathlib.Core.Path.{subst}
use nguyen_dinh_b.Json.{Json}
use nguyen_dinh_b.Analysis.Pipeline.{GroupOutcome, one_if}
use nguyen_dinh_b.Analysis.Pipeline.Counts.{IsCounted}
use nguyen_dinh_b.Analysis.Summary.{Totals, add_record, key_of_outcome, add_outcome, add_outcomes}

-- The totals after `n` outcomes.
pub record IsTallied (n : ℕ) (t : Totals) : Type 0 where
  pub each_group : length t.records + length t.missing_group_keys ≡ n
  pub calls : t.llm_call_count ≡ n + t.retry_count
  pub retries : t.retry_count ≤ n
  pub lost : t.invalid_output_count ≡ length t.missing_group_keys
  pub bad : t.invalid_responses_observed ≤ t.llm_call_count
  pub proposals : t.valid_objective_count + t.invalid_objective_count ≤ length t.records

-- The totals of `n` outcomes and of one more, whose record is still to be added.
record IsAdded (n : ℕ) (kept : Option Json) (t : Totals) : Type 0 where
  each_group : length t.records + length t.missing_group_keys ≡ n
  calls : t.llm_call_count ≡ n + 1 + t.retry_count
  retries : t.retry_count ≤ n + 1
  lost : t.invalid_output_count + one_if (is_some kept) ≡ length t.missing_group_keys + 1
  bad : t.invalid_responses_observed ≤ t.llm_call_count
  proposals :
      t.valid_objective_count + t.invalid_objective_count ≤ length t.records + one_if (is_some kept)

add_record-IsTallied :
    (o : GroupOutcome) (kept : Option Json) (n : ℕ) (t : Totals)
    → IsAdded n kept t
    → IsTallied (n + 1) (add_record o kept t)
add_record-IsTallied o (some r) n t h =
    let len = length-append t.records (r ∷ []) in
    record {
      each_group = omega (arith, len, h.each_group);
      calls = h.calls;
      retries = h.retries;
      lost = omega (arith, h.lost);
      bad = h.bad;
      proposals = omega (arith, len, h.proposals);
    }
add_record-IsTallied o none n t h =
    let len = length-append t.missing_group_keys (key_of_outcome o ∷ []) in
    record {
      each_group = omega (arith, len, h.each_group);
      calls = h.calls;
      retries = h.retries;
      lost = omega (arith, len, h.lost);
      bad = h.bad;
      proposals = omega (arith, h.proposals);
    }

add_outcome-IsTallied :
    (norm : String → String) (o : GroupOutcome) (n : ℕ) (t : Totals)
    → IsCounted o
    → IsTallied n t
    → IsTallied (n + 1) (add_outcome norm o t)
unfolding add_outcome
add_outcome-IsTallied norm o n t c h = add_record-IsTallied o o.kept_record n _ (record {
  each_group = h.each_group;
  calls = omega (arith, h.calls, c.calls);
  retries = omega (arith, h.retries, c.one_retry);
  lost = omega (arith, h.lost, c.unresolved);
  bad = omega (arith, h.bad, c.bad);
  proposals = omega (arith, h.proposals, c.proposals);
})

pub add_outcomes-IsTallied :
    (norm : String → String) (os : List GroupOutcome) (n : ℕ) (t : Totals)
    → All IsCounted os
    → IsTallied n t
    → IsTallied (n + length os) (add_outcomes norm os t)
unfolding add_outcomes
add_outcomes-IsTallied norm [] n t c h = subst (λ m. IsTallied m t) (omega arith) h
add_outcomes-IsTallied norm (o ∷ os) n t (c, cs) h =
    subst (λ m. IsTallied m (add_outcomes norm os (add_outcome norm o t))) (omega arith)
      (add_outcomes-IsTallied norm os (n + 1) (add_outcome norm o t) cs
        (add_outcome-IsTallied norm o n t c h))

-- The records of the outcomes have `P`, and those that were there.
add_record-All :
    (P : Json → Type 0) (o : GroupOutcome) (kept : Option Json) (t : Totals)
    → ((r : Json) → kept ≡ some r → P r)
    → All P t.records
    → All P (add_record o kept t).records
add_record-All P o none t p h = h
add_record-All P o (some r) t p h = All-append P t.records (r ∷ []) h (p r refl, tt)

pub add_outcomes-All :
    (P : Json → Type 0) (norm : String → String) (os : List GroupOutcome) (t : Totals)
    → All (λ o. (r : Json) → o.kept_record ≡ some r → P r) os
    → All P t.records
    → All P (add_outcomes norm os t).records
unfolding add_outcomes add_outcome
add_outcomes-All P norm [] t ps h = h
add_outcomes-All P norm (o ∷ os) t (p, ps) h =
    add_outcomes-All P norm os (add_outcome norm o t) ps (add_record-All P o o.kept_record _ p h)
