-- ===== src/Grouping/Summary.antt =====
-- What a reported group says of its findings.
use nguyen_dinh_b.Prelude.{
  ℕ, ◌≤◌, String, ◌≡◌, refl, sym, ◌∙◌, ◌≢◌, ◌↔◌, inl, inr, Bool, true, false, not, ◌&&◌, List, [],
  ◌∷◌, map, arith, ◌==◌, eq_iff, ltb, if◌then◌else◌, Bool-cases, All, any, mem_str, ne_of_test,
}
use mathlib.Core.Path.{subst}
use nguyen_dinh_b.Prelude.Int.{ℤ, pos, negsuc}
use nguyen_dinh_b.Prelude.Order.{In, In-map, map-In, sort, In-sort, sort-In, any-In, int_eqb}
use nguyen_dinh_b.Grouping.{NormalizedFinding, Bucket, members, fill, values, merge_near}
use nguyen_dinh_b.Grouping.Build.{
  AnalysisLocation, FindingGroup, severity_rank, dedupe, id_of, severity_of, location_of, id_leb,
  location_leb, same_location, distinct, most_severe, highest_severity, build, group_leb,
  group_findings,
}

-- whether `_dedupe_list` keeps the text
abbrev is_new : String → List String → Bool
is_new x seen = not (x == "") && not (mem_str x seen)

is_new-true :
    (x : String) (seen : List String) → x ≢ "" → mem_str x seen ≡ false → is_new x seen ≡ true
is_new-true x seen ne new = ground (arith, eq_iff x "")

is_new-parts :
    (x : String) (seen : List String) → is_new x seen ≡ true → (x ≢ "") × (mem_str x seen ≡ false)
is_new-parts x seen h = (λ e. absurd (ground (arith, eq_iff x "")), ground arith)

behind : (y x : String) (seen : List String) → mem_str x (y ∷ seen) ≡ false → mem_str x seen ≡ false
unfolding mem_str
behind y x seen h = ground arith

dedupe-In :
    (seen items : List String) (x : String)
    → x ≢ ""
    → mem_str x seen ≡ false
    → In x items
    → In x (dedupe seen items)
unfolding dedupe mem_str
dedupe-In seen [] x ne new i = absurd i
dedupe-In seen (y ∷ ys) x ne new i = elim (Bool-cases (y == x)) [
  | inl same ↦
      let e = (eq_iff y x).0 same in
      rw (is_new-true y seen (λ q. ne (sym e ∙ q)) (rw e new)) (inl e)
  | inr other ↦
      let rest : In x ys = elim i [ inl e ↦ absurd (ne_of_test y x other e) | inr j ↦ j ] in
      elim (Bool-cases (is_new y seen)) [
        | inl t ↦ rw t (inr (dedupe-In (y ∷ seen) ys x ne (rw (mem_str, other, new) refl) rest))
        | inr f ↦ rw f (dedupe-In seen ys x ne new rest)
      ]
]

In-dedupe :
    (seen items : List String) (x : String)
    → In x (dedupe seen items)
    → In x items × (x ≢ "") × (mem_str x seen ≡ false)
unfolding dedupe
In-dedupe seen [] x i = absurd i
In-dedupe seen (y ∷ ys) x i = elim (Bool-cases (is_new y seen)) [
  | inl t ↦ elim (rw t at i) [
    | inl e ↦ let (ne, new) = is_new-parts y seen t in (inl e, rw (← e) ne, rw (← e) new)
    | inr j ↦ let (k, ne, new) = In-dedupe (y ∷ seen) ys x j in (inr k, ne, behind y x seen new)
  ]
  | inr f ↦ let (j, ne, new) = In-dedupe seen ys x (rw f at i) in (inr j, ne, new)
]

int_eqb-eq : (a b : ℤ) → int_eqb a b ≡ true → a ≡ b
int_eqb-eq (pos a) (pos b) h = ground arith
int_eqb-eq (negsuc a) (negsuc b) h = ground arith
int_eqb-eq (pos a) (negsuc b) h = cc
int_eqb-eq (negsuc a) (pos b) h = cc

same_location-eq : (a b : AnalysisLocation) → same_location a b ≡ true → a ≡ b
same_location-eq a b h = ground (arith, eq_iff a.file b.file, int_eqb-eq a.line b.line)

distinct-In : (l : AnalysisLocation) (ls : List AnalysisLocation) → In l ls → In l (distinct ls)
unfolding distinct
distinct-In l [] i = absurd i
distinct-In l (k ∷ ks) i = elim (Bool-cases (any (same_location k) (distinct ks))) [
  | inl t ↦ rw t (elim i [
    | inl e ↦
        let (m, j, q) = any-In (same_location k) (distinct ks) t in
        subst (λ x. In x (distinct ks)) (sym (same_location-eq k m q) ∙ e) j
    | inr j ↦ distinct-In l ks j
  ])
  | inr f ↦ rw f (elim i [ inl e ↦ inl e | inr j ↦ inr (distinct-In l ks j) ])
]

In-distinct : (l : AnalysisLocation) (ls : List AnalysisLocation) → In l (distinct ls) → In l ls
unfolding distinct
In-distinct l [] i = absurd i
In-distinct l (k ∷ ks) i = elim (Bool-cases (any (same_location k) (distinct ks))) [
  | inl t ↦ inr (In-distinct l ks (rw t at i))
  | inr f ↦ elim (rw f at i) [ inl e ↦ inl e | inr j ↦ inr (In-distinct l ks j) ]
]

-- one of the severities, and none is worse
record IsWorst (lower : String → String) (s : String) (all : List String) : Type 0 where
  given : In s all
  least : All (λ t. severity_rank (lower s) ≤ severity_rank (lower t)) all

module _ (lower : String → String) where
  -- the severity that one step of `min` keeps
  abbrev worse : String → String → String
  worse s t = if ltb (severity_rank (lower s)) (severity_rank (lower t)) then s else t

  abbrev rank_in : String → ℕ
  rank_in s = severity_rank (lower s)

  worse_least :
      (s t : String) → (rank_in (worse s t) ≤ rank_in s) × (rank_in (worse s t) ≤ rank_in t)
  worse_least s t = ground arith

  most_severe-least :
      (best : String) (ss : List String) → rank_in (most_severe lower best ss) ≤ rank_in best
  unfolding most_severe
  most_severe-least best [] = omega arith
  most_severe-least best (s ∷ ss) =
      omega (arith, most_severe-least (worse s best) ss, (worse_least s best).1)

  most_severe-IsWorst :
      (best : String) (ss : List String) → IsWorst lower (most_severe lower best ss) (best ∷ ss)
  unfolding most_severe
  most_severe-IsWorst best [] = record { given = inl refl; least = (omega arith, tt) }
  most_severe-IsWorst best (s ∷ ss) =
      let w = most_severe-IsWorst (worse s best) ss in
      let below = most_severe-least (worse s best) ss in
      let (a, b) = worse_least s best in
      record {
        given = among s best ss _ w.given;
        least = (omega (arith, below, b), (omega (arith, below, a), w.least.1));
      }
    where
      among :
          (s best : String) (ss : List String) (x : String)
          → In x (worse s best ∷ ss)
          → In x (best ∷ s ∷ ss)
      among s best ss x (inr i) = inr (inr i)
      among s best ss x (inl e) = elim (Bool-cases (ltb (rank_in s) (rank_in best))) [
        | inl t ↦ let q = rw t at e in inr (inl q)
        | inr f ↦ let q = rw f at e in inl q
      ]

-- What a group says of the findings in it: the names of the findings that have one and each once,
-- just the places of the findings, and the worst of their severities.
pub record IsSummary (lower : String → String) (g : FindingGroup) : Type 0 where
  pub finding : NormalizedFinding
  pub not_empty : In finding g.findings
  pub ids : (x : String) → In x g.source_finding_ids ↔ (In x (map id_of g.findings) × (x ≢ ""))
  pub places : (l : AnalysisLocation) → In l g.locations ↔ In l (map location_of g.findings)
  pub severity : String
  pub given : In severity (map severity_of g.findings)
  pub says : g.severity ≡ lower severity
  pub worst :
      All
        (λ s. severity_rank (lower severity) ≤ severity_rank (lower s))
        (map severity_of g.findings)

highest_severity-IsWorst :
    (lower : String → String) (x : String) (all : List String)
    → In x all
    → (w : String) × (highest_severity lower all ≡ lower w) × IsWorst lower w all
unfolding highest_severity
highest_severity-IsWorst lower x [] i = absurd i
highest_severity-IsWorst lower x (s ∷ ss) i =
    (most_severe lower s ss, refl, most_severe-IsWorst lower s ss)

build-IsSummary : (lower md5 : String → String) (b : Bucket) → IsSummary lower (build lower md5 b)
unfolding build mem_str
build-IsSummary lower md5 b =
    let fs = sort id_leb (members b) in
    let kept = In-sort id_leb b.first (members b) (inl refl) in
    let (w, says, worst) =
      highest_severity-IsWorst lower b.first.severity (map severity_of fs)
        (In-map severity_of b.first fs kept) in
    record {
      finding = b.first;
      not_empty = kept;
      ids = λ x. (
        (λ i. let (j, ne, _) = In-dedupe [] (map id_of fs) x i in (j, ne)),
        (λ (i, ne). dedupe-In [] (map id_of fs) x ne refl i),
      );
      places = λ l. (
        (λ i. In-distinct l (map location_of fs) (sort-In location_leb l _ i)),
        (λ i. In-sort location_leb l _ (distinct-In l (map location_of fs) i)),
      );
      severity = w;
      given = worst.given;
      says = says;
      worst = worst.least;
    }

All-In : {A : Type 0} (P : A → Type 0) (xs : List A) → ((a : A) → In a xs → P a) → All P xs
All-In P [] h = tt
All-In P (x ∷ xs) h = (h x (inl refl), All-In P xs (λ a i. h a (inr i)))

-- Every group that `group_findings` reports is about at least one finding; it has the identifiers of
-- its findings that are not empty, and no other; just the places of its findings; and the severity,
-- in lower case, of one of its findings that no other finding exceeds.
pub group_findings-IsSummary :
    (lower md5 : String → String) (threshold : ℤ) (findings : List NormalizedFinding)
    → All (IsSummary lower) (group_findings lower md5 threshold findings)
unfolding group_findings
group_findings-IsSummary lower md5 threshold findings =
    let buckets = merge_near threshold (values (fill [] findings)) in
    All-In (IsSummary lower) _ λ g i.
      let j = sort-In (group_leb lower md5) g (map (build lower md5) buckets) i in
      let (b, k, e) = map-In (build lower md5) g buckets j in
      subst (IsSummary lower) e (build-IsSummary lower md5 b)
