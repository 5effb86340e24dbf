-- ===== src/Grouping/Groups.antt =====
-- What `group_findings` reports of the findings.
use nguyen_dinh_b.Prelude.{
  String, ◌≡◌, refl, ap, true, false, List, [], ◌∷◌, ◌++◌, map, arith, eq_iff, codes,
}
use mathlib.Core.List.{Perm, Perm-prop, Permᴰ}
use mathlib.Core.List.Perm
use mathlib.Core.Logic.{∥∥₁_elim}
use nguyen_dinh_b.Prelude.Int.{ℤ, pos, negsuc}
use nguyen_dinh_b.Prelude.Order.{
  IsSorted, sort-IsSorted, sort-perm, codes_leb_total, str_leb, int_leb, int_eqb,
}
use nguyen_dinh_b.Grouping.{NormalizedFinding, Bucket, members, fill, values, merge_near}
use nguyen_dinh_b.Grouping.Partition.{
  findings_of, same_perm, perm_exchange, merge_near-perm, fill-empty-perm,
}
use nguyen_dinh_b.Grouping.Build.{
  FindingGroup, id_leb, build, first_location, group_leb, group_findings,
}

-- The findings of all the groups that are reported.
abbrev pub reported : List FindingGroup → List NormalizedFinding
reported [] = []
reported (g ∷ gs) = g.findings ++ reported gs

reported-permd : {gs hs : List FindingGroup} → Permᴰ gs hs → Perm (reported gs) (reported hs)
reported-permd Permᴰ.nil = Perm.refl []
reported-permd (Permᴰ.cons e p) =
    Perm.append (same_perm (ap (λ (g : FindingGroup). g.findings) e)) (reported-permd p)
reported-permd (Permᴰ.swap {a} {b} {a'} {b'} {l} e k) =
    Perm.trans (perm_exchange a.findings b.findings (reported l)) (same_perm (cc (e, k)))
reported-permd (Permᴰ.trans p q) = Perm.trans (reported-permd p) (reported-permd q)

reported-perm : {gs hs : List FindingGroup} → Perm gs hs → Perm (reported gs) (reported hs)
reported-perm p = ∥∥₁_elim p Perm-prop reported-permd

module _ (lower md5 : String → String) where
  build-perm :
      (buckets : List Bucket)
      → Perm (reported (map (build lower md5) buckets)) (findings_of buckets)
  unfolding build
  build-perm [] = Perm.refl []
  build-perm (b ∷ bs) = Perm.append (sort-perm id_leb (members b)) (build-perm bs)

  -- Every finding is in just one of the groups that are reported, unchanged, and the groups have no
  -- other finding.
  pub group_findings-perm :
      (threshold : ℤ) (findings : List NormalizedFinding)
      → Perm (reported (group_findings lower md5 threshold findings)) findings
  unfolding group_findings
  group_findings-perm threshold findings =
      let merged = merge_near threshold (values (fill [] findings)) in
      Perm.trans (reported-perm (sort-perm (group_leb lower md5) (map (build lower md5) merged))) (
        Perm.trans (build-perm merged) (
          Perm.trans (merge_near-perm threshold (values (fill [] findings)))
            (fill-empty-perm findings)))

str_leb_total : (s t : String) → str_leb s t ≡ false → str_leb t s ≡ true
unfolding str_leb
str_leb_total s t h = codes_leb_total (codes s) (codes t) h

int_leb_total : (a b : ℤ) → int_leb a b ≡ false → int_leb b a ≡ true
int_leb_total (pos a) (pos b) h = ground arith
int_leb_total (pos a) (negsuc b) h = refl
int_leb_total (negsuc a) (pos b) h = cc
int_leb_total (negsuc a) (negsuc b) h = ground arith

int_eqb_sym : (a b : ℤ) → int_eqb a b ≡ int_eqb b a
int_eqb_sym (pos a) (pos b) = ground arith
int_eqb_sym (pos a) (negsuc b) = refl
int_eqb_sym (negsuc a) (pos b) = refl
int_eqb_sym (negsuc a) (negsuc b) = ground arith

module _ (lower md5 : String → String) where
  group_leb_total :
      (g h : FindingGroup) → group_leb lower md5 g h ≡ false → group_leb lower md5 h g ≡ true
  unfolding group_leb
  group_leb_total g h e =
      let a = first_location g.locations in
      let b = first_location h.locations in
      ground (
        arith,
        eq_iff a.file b.file,
        eq_iff b.file a.file,
        str_leb_total a.file b.file,
        int_eqb_sym a.line b.line,
        int_leb_total a.line b.line,
        str_leb_total g.group_key h.group_key,
      )

  -- The groups are reported in order: by severity, then by the file and the line of the first place,
  -- then by their key.
  pub group_findings-IsSorted :
      (threshold : ℤ) (findings : List NormalizedFinding)
      → IsSorted (group_leb lower md5) (group_findings lower md5 threshold findings)
  unfolding group_findings
  group_findings-IsSorted threshold findings =
      sort-IsSorted (group_leb lower md5) group_leb_total
        (map (build lower md5) (merge_near threshold (values (fill [] findings))))
