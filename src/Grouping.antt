-- ===== src/Grouping.antt =====
-- analysis/grouping.py: the findings of the scanners in groups, one for each distinct problem.
-- A bucket of the code is never empty, since it is made for a finding: it is that finding and the
-- others. A loop that pops from the list it runs over is a recursion on what is left of it.
pub mod Near
pub mod Settled
pub mod Partition
pub mod Build
pub mod Groups
pub mod Summary
use nguyen_dinh_b.Prelude.{
  ℕ, zero, suc, ◌+◌, ◌-◌, ◌*◌, ◌≤◌, ◌<◌, min, max, String, ◌≡◌, refl, sym, ap, ◌∙◌, ◌≢◌, ◌↔◌, ◌⊎◌,
  inl, inr, Bool, true, false, not, ◌&&◌, ◌||◌, false≢true, Option, none, some, List, [], ◌∷◌, ◌++◌,
  map, arith, ◌==◌, eq_iff, eq_refl, ltb, leb, eqb, if◌then◌else◌, leb→le, ltb→lt, Bool-cases,
  Option-cases, is_some, length, length-append, is_empty, All, Any, All-append, All-map, Any-map,
  Any-All, any, all, any-false, keep, find_first, find_first-some, find_first-none, codes, mem_str,
  mem_str-Any, Any-mem_str, has_code, has_prefix, ne_of_test, has_infix, is_blank, split_space,
  strip, concat, repeat,
}
use nguyen_dinh_b.Prelude.Dict.{lookup}
use nguyen_dinh_b.Prelude.Int.{ℤ, pos, negsuc}
use nguyen_dinh_b.Prelude.Order.{distance, int_eqb, int_leb, str_leb, sort}
use nguyen_dinh_b.Json.{Json}

pub record NormalizedLocation : Type 0 where
  pub file : String
  pub line : ℤ

pub record NormalizedFinding : Type 0 where
  pub id : String
  pub rule_id : String
  pub title : String
  pub severity : String
  pub confidence : String
  pub location : NormalizedLocation
  pub fingerprint : Option String
  pub cwe : List String
  pub owasp : List String
  pub message : String
  pub runtime_evidence : Option Json
  pub tool : String
  pub instances : List Json
  pub instances_total : ℤ

pub record Bucket : Type 0 where
  pub first : NormalizedFinding
  pub others : List NormalizedFinding

abbrev pub members : Bucket → List NormalizedFinding
members b = b.first ∷ b.others

-- `g1.extend(g2)`
abbrev pub extend : Bucket → Bucket → Bucket
extend g h = record { first = g.first; others = g.others ++ members h }

-- `("fp", fingerprint)` or `("rule_loc", rule_id, file, line)`
pub data Key : Type 0 where
  fp : String → Key
  rule_loc : (rule file : String) → ℤ → Key

unfoldable pub same_key : Key → Key → Bool
same_key (fp s) (fp t) = s == t
same_key (rule_loc r f l) (rule_loc s g m) = r == s && f == g && int_eqb l m
same_key _ _ = false

unfoldable pub key_by : Option String → NormalizedFinding → Key
key_by none f = rule_loc f.rule_id f.location.file f.location.line
key_by (some s) f =
    if not (s == "") && not (strip s == "")
    then fp (strip s)
    else rule_loc f.rule_id f.location.file f.location.line

abbrev pub key_of : NormalizedFinding → Key
key_of f = key_by f.fingerprint f

-- `raw_buckets[key].append(f)`, with a new bucket for a new key
unfoldable pub add_finding : Key → NormalizedFinding → List (Key × Bucket) → List (Key × Bucket)
add_finding k f [] = (k, record { first = f; others = [] }) ∷ []
add_finding k f ((j, b) ∷ rest) =
    if same_key j k
    then (j, record b { others = b.others ++ f ∷ [] }) ∷ rest
    else (j, b) ∷ add_finding k f rest

-- the loop that fills `raw_buckets`
unfoldable pub fill : List (Key × Bucket) → List NormalizedFinding → List (Key × Bucket)
unfolding add_finding
fill buckets [] = buckets
fill buckets (f ∷ fs) = fill (add_finding (key_of f) f buckets) fs

abbrev pub values : List (Key × Bucket) → List Bucket
values [] = []
values ((_, b) ∷ rest) = b ∷ values rest

-- `[f.location.line for f in g if f.location.file == c_file]`
abbrev pub line_of : NormalizedFinding → ℤ
line_of f = f.location.line

abbrev pub file_of : NormalizedFinding → String
file_of f = f.location.file

abbrev pub lines_in : String → Bucket → List ℤ
lines_in file g = map line_of (keep (λ f. file_of f == file) (members g))

-- `abs(l1 - l2) for l1 in lines1 for l2 in lines2`
abbrev pub distances : List ℤ → List ℤ → List ℕ
distances [] ms = []
distances (l ∷ ls) ms = map (distance l) ms ++ distances ls ms

-- `min(...)`, which no file that both groups have leaves without a value
abbrev pub least : List ℕ → Option ℕ
least [] = none
least (n ∷ ns) = elim (least ns) [ none ↦ some n | some m ↦ some (if leb n m then n else m) ]

abbrev pub within : ℕ → Option ℕ → Bool
within threshold none = false
within threshold (some n) = leb n threshold

-- the loop over `common_files`, with the `break` at the first that is near
unfoldable pub should_merge : ℕ → Bucket → Bucket → Bool
should_merge threshold g h =
    let files1 = map file_of (members g) in
    let files2 = map file_of (members h) in
    any
      (λ c. mem_str c files2 && within threshold (least (distances (lines_in c g) (lines_in c h))))
      files1

unfoldable pub is_near : ℕ → Bucket → Bucket → Bool
unfolding should_merge
is_near threshold g h = g.first.rule_id == h.first.rule_id && should_merge threshold g h

-- The loop over `j`: the group at `i`, what is left behind it, and whether a group was popped.
pub record Absorbed : Type 0 where
  pub group : Bucket
  pub kept : List Bucket
  pub merged : Bool

unfoldable pub absorb : ℕ → Bucket → List Bucket → Absorbed
absorb threshold g [] = record { group = g; kept = []; merged = false }
absorb threshold g (h ∷ rest) = elim (is_near threshold g h) [
  | true ↦ record (absorb threshold (extend g h) rest) { merged = true }
  | false ↦ let a = absorb threshold g rest in record a { kept = h ∷ a.kept }
]

-- The loop over `i`, with the number of groups as fuel.
unfoldable pub one_pass : ℕ → ℕ → List Bucket → List Bucket × Bool
one_pass threshold zero groups = (groups, false)
one_pass threshold (suc n) [] = ([], false)
one_pass threshold (suc n) (g ∷ rest) =
    let a = absorb threshold g rest in
    let (others, merged) = one_pass threshold n a.kept in (a.group ∷ others, a.merged || merged)

-- `while merged`
unfoldable pub merge_rounds : ℕ → ℕ → List Bucket → List Bucket
merge_rounds threshold zero groups = groups
merge_rounds threshold (suc n) groups =
    let (next, merged) = one_pass threshold (length groups) groups in
    elim merged [ true ↦ merge_rounds threshold n next | false ↦ next ]

-- A round that merges leaves fewer groups, so that there are at most as many rounds as groups.
unfoldable pub merge_near : ℤ → List Bucket → List Bucket
unfolding merge_rounds
merge_near (pos threshold) groups = merge_rounds threshold (suc (length groups)) groups
merge_near (negsuc _) groups = groups
