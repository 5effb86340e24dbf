-- ===== src/Grouping/Partition.antt =====
-- `group_findings` neither loses, repeats nor changes a finding.
use nguyen_dinh_b.Prelude.{
  ℕ, zero, suc, ◌≡◌, sym, inl, inr, List, [], ◌∷◌, ◌++◌, Bool-cases, length,
}
use mathlib.Core.List.{
  Perm, append-nil, append_assoc, perm_append_singleton, perm_append_comm, perm_middle,
}
use mathlib.Core.List.Perm
use mathlib.Core.Path.{subst}
use nguyen_dinh_b.Prelude.Int.{ℤ, pos, negsuc}
use nguyen_dinh_b.Grouping.{
  NormalizedFinding, Bucket, members, extend, Key, same_key, key_of, add_finding, fill, values,
  is_near, absorb, one_pass, merge_rounds, merge_near,
}

-- The findings of all groups.
abbrev pub findings_of : List Bucket → List NormalizedFinding
findings_of [] = []
findings_of (g ∷ rest) = members g ++ findings_of rest

-- One more behind a part of a list is one more at its head.
perm_behind : {A : Type 0} (x : A) (xs ys : List A) → Perm ((xs ++ x ∷ []) ++ ys) (x ∷ (xs ++ ys))
perm_behind x xs ys = Perm.append_right ys (perm_append_singleton x xs)

pub same_perm : {A : Type 0} {xs ys : List A} → xs ≡ ys → Perm xs ys
same_perm {xs = xs} e = subst (λ l. Perm xs l) e (Perm.refl xs)

pub perm_exchange : {A : Type 0} (xs ys zs : List A) → Perm (xs ++ (ys ++ zs)) (ys ++ (xs ++ zs))
perm_exchange xs ys zs =
    Perm.trans (same_perm (sym (append_assoc xs ys zs))) (
      Perm.trans (Perm.append_right zs (perm_append_comm xs ys))
        (same_perm (append_assoc ys xs zs)))

add_finding-perm :
    (k : Key) (f : NormalizedFinding) (buckets : List (Key × Bucket))
    → Perm (findings_of (values (add_finding k f buckets))) (f ∷ findings_of (values buckets))
unfolding add_finding
add_finding-perm k f [] = Perm.refl (f ∷ [])
add_finding-perm k f ((j, b) ∷ rest) = elim (Bool-cases (same_key j k)) [
  | inl e ↦ rw e (perm_behind f (members b) (findings_of (values rest)))
  | inr e ↦ rw e (
      Perm.trans (Perm.append_left (members b) (add_finding-perm k f rest))
        (perm_middle (members b) (findings_of (values rest))))
]

fill-perm :
    (buckets : List (Key × Bucket)) (fs : List NormalizedFinding)
    → Perm (findings_of (values (fill buckets fs))) (findings_of (values buckets) ++ fs)
unfolding fill
fill-perm buckets [] = rw append-nil (Perm.refl _)
fill-perm buckets (f ∷ fs) = Perm.trans (fill-perm (add_finding (key_of f) f buckets) fs) (
    Perm.trans (Perm.append_right fs (add_finding-perm (key_of f) f buckets))
      (Perm.symm (perm_middle (findings_of (values buckets)) fs)))

absorb-perm :
    (t : ℕ) (g : Bucket) (rest : List Bucket)
    → Perm
        (members (absorb t g rest).group ++ findings_of (absorb t g rest).kept)
        (members g ++ findings_of rest)
unfolding absorb
absorb-perm t g [] = Perm.refl _
absorb-perm t g (h ∷ rest) = elim (Bool-cases (is_near t g h)) [
  | inl e ↦
      let ih = absorb-perm t (extend g h) rest in
      rw (e, absorb)
        (Perm.trans ih (same_perm (append_assoc (members g) (members h) (findings_of rest))))
  | inr e ↦
      let a = absorb t g rest in
      rw (e, absorb)
        (Perm.trans (perm_exchange (members a.group) (members h) (findings_of a.kept)) (
          Perm.trans (Perm.append_left (members h) (absorb-perm t g rest))
            (perm_exchange (members h) (members g) (findings_of rest))))
]

one_pass-perm :
    (t n : ℕ) (groups : List Bucket)
    → Perm (findings_of (one_pass t n groups).0) (findings_of groups)
unfolding one_pass
one_pass-perm t zero groups = Perm.refl _
one_pass-perm t (suc n) [] = Perm.refl []
one_pass-perm t (suc n) (g ∷ rest) =
    let a = absorb t g rest in
    Perm.trans (Perm.append_left (members a.group) (one_pass-perm t n a.kept))
      (absorb-perm t g rest)

merge_rounds-perm :
    (t n : ℕ) (groups : List Bucket)
    → Perm (findings_of (merge_rounds t n groups)) (findings_of groups)
unfolding merge_rounds
merge_rounds-perm t zero groups = Perm.refl _
merge_rounds-perm t (suc n) groups =
    let p = one_pass t (length groups) groups in
    let once = one_pass-perm t (length groups) groups in
    elim (Bool-cases p.1) [
      | inl e ↦ rw (e, merge_rounds) (Perm.trans (merge_rounds-perm t n p.0) once)
      | inr e ↦ rw (e, merge_rounds) once
    ]

pub merge_near-perm :
    (threshold : ℤ) (groups : List Bucket)
    → Perm (findings_of (merge_near threshold groups)) (findings_of groups)
unfolding merge_near
merge_near-perm (pos t) groups = merge_rounds-perm t (suc (length groups)) groups
merge_near-perm (negsuc n) groups = Perm.refl _

pub fill-empty-perm : (fs : List NormalizedFinding) → Perm (findings_of (values (fill [] fs))) fs
fill-empty-perm fs = fill-perm [] fs
