-- ===== src/Grouping/Build.antt =====
-- analysis/grouping.py: the groups that are reported. `lower` is `str.lower` and `md5` is
-- `hashlib.md5(text.encode()).hexdigest()`.
use nguyen_dinh_b.Prelude.{
  ℕ, zero, suc, String, Bool, not, ◌&&◌, ◌||◌, List, [], ◌∷◌, ◌++◌, map, ◌==◌, ltb, eqb,
  if◌then◌else◌, any, codes, mem_str, has_prefix, concat,
}
use nguyen_dinh_b.Prelude.Int.{ℤ, pos}
use nguyen_dinh_b.Prelude.Order.{int_eqb, int_leb, str_leb, sort}
use nguyen_dinh_b.Json.{int, str, arr, obj, Items, nil, cons, Fields, end, field}
use nguyen_dinh_b.Grouping.{NormalizedFinding, Bucket, members, fill, values, merge_near}
use Prim.Native.String

pub record AnalysisLocation : Type 0 where
  pub file : String
  pub line : ℤ

pub record FindingGroup : Type 0 where
  pub group_key : String
  pub rule_id : String
  pub title : String
  pub severity : String
  pub cwe : List String
  pub owasp : List String
  pub source_finding_ids : List String
  pub locations : List AnalysisLocation
  pub scanner_severities : List String
  pub findings : List NormalizedFinding

-- `SEVERITY_RANK.get(s, 5)`
unfoldable pub severity_rank : String → ℕ
severity_rank s =
    if s == "critical"
    then 0
    else if s == "high"
    then 1
    else if s == "medium"
    then 2
    else if s == "low"
    then 3
    else if s == "info"
    then 4
    else 5

-- `_dedupe_list`, with the items that were seen
unfoldable pub dedupe : List String → List String → List String
dedupe seen [] = []
dedupe seen (x ∷ xs) =
    let skipped = dedupe seen xs in
    let added = x ∷ dedupe (x ∷ seen) xs in
    if not (x == "") && not (mem_str x seen) then added else skipped

abbrev pub dedupe_list : List String → List String
dedupe_list items = dedupe [] items

-- `{(f.location.file, f.location.line) for f in members}`
abbrev pub same_location : AnalysisLocation → AnalysisLocation → Bool
same_location a b = a.file == b.file && int_eqb a.line b.line

unfoldable pub distinct : List AnalysisLocation → List AnalysisLocation
distinct [] = []
distinct (l ∷ ls) = let rest = distinct ls in if any (same_location l) rest then rest else l ∷ rest

-- the order by `(file, line)`
abbrev pub location_leb : AnalysisLocation → AnalysisLocation → Bool
location_leb a b = if a.file == b.file then int_leb a.line b.line else str_leb a.file b.file

-- `s[:n]`
unfoldable pub str_take : ℕ → String → String
str_take zero s = ""
str_take (suc n) String.[] = ""
str_take (suc n) (String.◌∷◌ c s) = String.◌∷◌ c (str_take n s)

-- `",".join(texts)`
unfoldable pub join_comma : List String → String
join_comma [] = ""
join_comma (s ∷ []) = s
join_comma (s ∷ t ∷ ts) = String.◌++◌ s (String.◌++◌ "," (join_comma (t ∷ ts)))

abbrev pub id_of : NormalizedFinding → String
id_of f = f.id

abbrev pub severity_of : NormalizedFinding → String
severity_of f = f.severity

abbrev pub location_of : NormalizedFinding → AnalysisLocation
location_of f = record { file = f.location.file; line = f.location.line }

-- `members.sort(key=lambda f: f.id)`
abbrev pub id_leb : NormalizedFinding → NormalizedFinding → Bool
id_leb a b = str_leb a.id b.id

abbrev pub all_texts : (NormalizedFinding → List String) → List NormalizedFinding → List String
all_texts texts [] = []
all_texts texts (f ∷ fs) = texts f ++ all_texts texts fs

-- the rule or the title of `members[0]`
abbrev pub of_first : (NormalizedFinding → String) → List NormalizedFinding → String
of_first text [] = ""
of_first text (f ∷ fs) = text f

-- the primary location of a group, for the order
abbrev pub first_location : List AnalysisLocation → AnalysisLocation
first_location [] = record { file = ""; line = pos 0 }
first_location (l ∷ ls) = l

module _ (lower : String → String) where
  -- `min(severities, key=...)`: the first of the least
  unfoldable pub most_severe : String → List String → String
  most_severe best [] = best
  most_severe best (s ∷ ss) =
      most_severe (if ltb (severity_rank (lower s)) (severity_rank (lower best)) then s else best)
        ss

  unfoldable pub highest_severity : List String → String
  highest_severity [] = "medium"
  highest_severity (s ∷ ss) = lower (most_severe s ss)

module _ (lower md5 : String → String) where
  unfoldable pub key_of_ids : List String → String
  key_of_ids ids = concat ("group-" ∷ str_take 10 (md5 (join_comma (sort str_leb ids))) ∷ [])

  -- the body of the loop over `group_list`
  unfoldable pub build : Bucket → FindingGroup
  unfolding highest_severity key_of_ids
  build bucket =
      let sorted = sort id_leb (members bucket) in
      let ids = dedupe_list (map id_of sorted) in
      record {
        group_key = key_of_ids ids;
        rule_id = of_first (λ f. f.rule_id) sorted;
        title = of_first (λ f. f.title) sorted;
        severity = highest_severity lower (map severity_of sorted);
        cwe = dedupe_list (all_texts (λ f. f.cwe) sorted);
        owasp = dedupe_list (all_texts (λ f. f.owasp) sorted);
        source_finding_ids = ids;
        locations = sort location_leb (distinct (map location_of sorted));
        scanner_severities = map severity_of sorted;
        findings = sorted;
      }

  abbrev pub rank_of : FindingGroup → ℕ
  rank_of g = severity_rank (lower g.severity)

  -- the order of `final_groups.sort`
  unfoldable pub group_leb : FindingGroup → FindingGroup → Bool
  group_leb g h =
      let a = first_location g.locations in
      let b = first_location h.locations in
      if not (eqb (rank_of g) (rank_of h))
      then ltb (rank_of g) (rank_of h)
      else if not (a.file == b.file)
      then str_leb a.file b.file
      else if not (int_eqb a.line b.line)
      then int_leb a.line b.line
      else str_leb g.group_key h.group_key

  unfoldable pub group_findings : ℤ → List NormalizedFinding → List FindingGroup
  unfolding build
  group_findings near_dup_line_threshold findings =
      sort group_leb (map build (merge_near near_dup_line_threshold (values (fill [] findings))))

-- `file.startswith("http://") or file.startswith("https://")`
abbrev pub is_url : String → Bool
is_url file =
    has_prefix (codes "http://") (codes file) || has_prefix (codes "https://") (codes file)

abbrev pub location_fields : AnalysisLocation → Fields
location_fields loc =
    if is_url loc.file
    then field "url" (str loc.file) end
    else field "file" (str loc.file) (field "line" (int loc.line) end)

abbrev pub location_items : List AnalysisLocation → Items
location_items [] = nil
location_items (l ∷ ls) = cons (obj (location_fields l)) (location_items ls)

abbrev pub text_items : List String → Items
text_items [] = nil
text_items (s ∷ ss) = cons (str s) (text_items ss)

-- `FindingGroup.to_packet_group_dict`
unfoldable pub to_packet_group_dict : FindingGroup → Fields
to_packet_group_dict g = field "group_key" (str g.group_key) (
    field "rule_id" (str g.rule_id) (
      field "title" (str g.title) (
        field "severity" (str g.severity) (
          field "cwe" (arr (text_items g.cwe)) (
            field "owasp" (arr (text_items g.owasp)) (
              field "source_finding_ids" (arr (text_items g.source_finding_ids)) (
                field "locations" (arr (location_items g.locations))
                  (field "scanner_severities" (arr (text_items g.scanner_severities)) end))))))))
