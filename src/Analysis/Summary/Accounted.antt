-- ===== src/Analysis/Summary/Accounted.antt =====
-- analysis/pipeline.py: the records of a run and the keys of its missing groups, group by group.
use nguyen_dinh_b.Prelude.{
  String, ◌≡◌, refl, sym, ap, ◌∙◌, ◌⊎◌, inl, inr, Option, none, some, List, [], ◌∷◌, ◌++◌, ◌==◌,
  if◌then◌else◌,
}
use mathlib.Core.List.{append_assoc, append-nil}
use nguyen_dinh_b.Json.{Json}
use nguyen_dinh_b.Python.{ok, PyText, bind-cases, ok-injective}
use nguyen_dinh_b.Allowlist.{Allowlist}
use nguyen_dinh_b.Grouping.Build.{FindingGroup}
use nguyen_dinh_b.Analysis.Pipeline.{Environment, GroupOutcome}
use nguyen_dinh_b.Analysis.Pipeline.Retry.{analyze_one_group}
use nguyen_dinh_b.Analysis.Pipeline.Keys.{analyze_one_group-HasKey}
use nguyen_dinh_b.Analysis.Summary.{
  Totals, no_totals, add_record, key_of_outcome, add_outcome, add_outcomes, analyze_groups,
}

-- A group as the summary names it.
abbrev pub shown_key : FindingGroup → String
shown_key g = if g.group_key == "" then "(khong ro group_key)" else g.group_key

module _ ⦃py : PyText⦄ (env : Environment) (al : Option Allowlist) where
  -- The records and the missing keys are those of the groups, in their order: of each, the record that
  -- its own analysis keeps, or its key if that keeps none.
  unfoldable pub IsAccounted : List FindingGroup → List Json → List String → Type 0
  IsAccounted [] records missing = (records ≡ []) × (missing ≡ [])
  IsAccounted (g ∷ gs) records missing =
      (o : GroupOutcome) × (analyze_one_group env g al ≡ ok o)
      × (((r : Json) × (rest : List Json) × (o.kept_record ≡ some r)
            × (records ≡ r ∷ rest)
            × IsAccounted gs rest missing)
          ⊎ ((rest : List String) × (o.kept_record ≡ none)
              × (missing ≡ shown_key g ∷ rest)
              × IsAccounted gs records rest))

  -- What the loop adds to the records and the missing keys that were there.
  record HasAdded (gs : List FindingGroup) (before : List Json) (lost : List String)
      (after : Totals) : Type 0 where
    records : List Json
    missing : List String
    appended : after.records ≡ before ++ records
    named : after.missing_group_keys ≡ lost ++ missing
    accounted : IsAccounted gs records missing

  shown_key-outcome :
      (g : FindingGroup) (o : GroupOutcome)
      → analyze_one_group env g al ≡ ok o
      → key_of_outcome o ≡ shown_key g
  shown_key-outcome g o h = rw (analyze_one_group-HasKey env al g o h) refl

  add_record-HasAdded :
      (g : FindingGroup) (gs : List FindingGroup) (o : GroupOutcome) (kept : Option Json)
      (t after : Totals)
      → analyze_one_group env g al ≡ ok o
      → o.kept_record ≡ kept
      → HasAdded gs (add_record o kept t).records (add_record o kept t).missing_group_keys after
      → HasAdded (g ∷ gs) t.records t.missing_group_keys after
  unfolding IsAccounted
  add_record-HasAdded g gs o (some r) t after h k a = record {
    records = r ∷ a.records;
    missing = a.missing;
    appended = a.appended ∙ append_assoc t.records (r ∷ []) a.records;
    named = a.named;
    accounted = (o, h, inl (r, a.records, k, refl, a.accounted));
  }
  add_record-HasAdded g gs o none t after h k a = record {
    records = a.records;
    missing = key_of_outcome o ∷ a.missing;
    appended = a.appended;
    named = a.named ∙ append_assoc t.missing_group_keys (key_of_outcome o ∷ []) a.missing;
    accounted =
        (o, h, inr (a.missing, k, ap (λ s. s ∷ a.missing) (shown_key-outcome g o h), a.accounted));
  }

  add_outcomes-HasAdded :
      (norm : String → String) (gs : List FindingGroup) (os : List GroupOutcome) (t : Totals)
      → analyze_groups env gs al ≡ ok os
      → HasAdded gs t.records t.missing_group_keys (add_outcomes norm os t)
  unfolding analyze_groups add_outcomes add_outcome IsAccounted
  add_outcomes-HasAdded norm [] os t h = rw (← ok-injective h) (record {
    records = [];
    missing = [];
    appended = sym (append-nil t.records);
    named = sym (append-nil t.missing_group_keys);
    accounted = (refl, refl);
  })
  add_outcomes-HasAdded norm (g ∷ gs) os t h = bind-cases (analyze_one_group env g al) _ h λ o p h1.
      bind-cases (analyze_groups env gs al) _ h1 λ rest q h2. rw (← ok-injective h2) (
        add_record-HasAdded g gs o o.kept_record _ _ p refl
          (add_outcomes-HasAdded norm gs rest (add_outcome norm o t) q))

  -- The records and missing keys of the whole loop are those of the groups.
  pub add_outcomes-IsAccounted :
      (norm : String → String) (gs : List FindingGroup) (os : List GroupOutcome)
      → analyze_groups env gs al ≡ ok os
      → IsAccounted gs
          (add_outcomes norm os no_totals).records
          (add_outcomes norm os no_totals).missing_group_keys
  add_outcomes-IsAccounted norm gs os h =
      let a = add_outcomes-HasAdded norm gs os no_totals h in rw (a.appended, a.named) a.accounted
