-- ===== src/Examples/Groups.antt =====
-- The theorems on the grouping of findings.
use nguyen_dinh_b.Prelude.{ℕ, String, ◌≡◌, refl, none, List, [], ◌∷◌, length, All, keep, mem_str}
use mathlib.Core.List.{Perm}
use nguyen_dinh_b.Prelude.Int.{pos}
use nguyen_dinh_b.Grouping.{NormalizedFinding, Bucket, is_near, merge_near, fill, values}
use nguyen_dinh_b.Grouping.Settled.{IsSettled, merge_near-IsSettled}
use nguyen_dinh_b.Grouping.Build.{group_findings}
use nguyen_dinh_b.Grouping.Groups.{reported, group_findings-perm}
use nguyen_dinh_b.Grouping.Summary.{IsSummary, group_findings-IsSummary}

abbrev pub same : String → String
same s = s

abbrev pub finding_at : (id severity : String) → ℕ → NormalizedFinding
finding_at id severity line = record {
  id = id;
  rule_id = "sqli";
  title = "SQL";
  severity = severity;
  confidence = "high";
  location = record { file = "A.java"; line = pos line };
  fingerprint = none;
  cwe = "CWE-89" ∷ [];
  owasp = [];
  message = "";
  runtime_evidence = none;
  tool = "opengrep";
  instances = [];
  instances_total = pos 0;
}

-- The first and the last are near, the one between them is not.
abbrev pub three_findings : List NormalizedFinding
three_findings =
    finding_at "f2" "low" 10 ∷ finding_at "f3" "high" 90 ∷ finding_at "f1" "high" 13 ∷ []

abbrev three_buckets : List Bucket
three_buckets = values (fill [] three_findings)

merged_test : length (merge_near (pos 5) three_buckets) ≡ 2
unfolding merge_near fill nguyen_dinh_b.Grouping.one_pass nguyen_dinh_b.Grouping.same_key
    nguyen_dinh_b.Grouping.key_by nguyen_dinh_b.Grouping.absorb is_near mem_str keep
merged_test = refl

merge_near-IsSettled_example : IsSettled 5 (merge_near (pos 5) three_buckets)
merge_near-IsSettled_example = merge_near-IsSettled 5 three_buckets

group_findings-perm_example :
    Perm (reported (group_findings same same (pos 5) three_findings)) three_findings
group_findings-perm_example = group_findings-perm same same (pos 5) three_findings

group_findings-IsSummary_example :
    All (IsSummary same) (group_findings same same (pos 5) three_findings)
group_findings-IsSummary_example = group_findings-IsSummary same same (pos 5) three_findings
