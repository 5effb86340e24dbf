-- ===== src/Grouping/Settled.antt =====
-- The merging of near duplicates in `group_findings` ends, and leaves no two groups that are close.
use nguyen_dinh_b.Prelude.{
  ℕ, zero, suc, ◌≤◌, ◌<◌, ◌≡◌, refl, sym, ap, ◌∙◌, inl, inr, Bool, true, false, ◌||◌, false≢true,
  List, [], ◌∷◌, arith, Bool-cases, length, All, All-map,
}
use mathlib.Core.Path.{subst}
use nguyen_dinh_b.Prelude.Int.{pos}
use nguyen_dinh_b.Grouping.{
  Bucket, extend, is_near, Absorbed, absorb, one_pass, merge_rounds, merge_near,
}
use nguyen_dinh_b.Grouping.Near.{IsClose, is_near_iff}

-- No group is near one that stands behind it.
abbrev IsApart : ℕ → List Bucket → Type 0
IsApart t [] = Unit
IsApart t (g ∷ rest) = All (λ h. is_near t g h ≡ false) rest × IsApart t rest

-- what `absorb` leaves, by whether it has merged
record IsShorter (g : Bucket) (t : ℕ) (rest : List Bucket) (a : Absorbed) : Type 0 where
  fewer : a.merged ≡ true → length a.kept < length rest
  at_most : length a.kept ≤ length rest
  same : a.merged ≡ false → (a.kept ≡ rest) × (a.group ≡ g)
  apart : a.merged ≡ false → All (λ h. is_near t g h ≡ false) rest

absorb-IsShorter : (t : ℕ) (g : Bucket) (rest : List Bucket) → IsShorter g t rest (absorb t g rest)
unfolding absorb
absorb-IsShorter t g [] = record {
  fewer = λ e. absurd (cc e);
  at_most = omega arith;
  same = λ e. (refl, refl);
  apart = λ e. tt;
}
absorb-IsShorter t g (h ∷ rest) = elim (Bool-cases (is_near t g h)) [
  | inl e ↦
      let s = absorb-IsShorter t (extend g h) rest in
      rw (e, absorb)
        (record {
          fewer = λ _. omega (arith, s.at_most);
          at_most = omega (arith, s.at_most);
          same = λ q. absurd (cc q);
          apart = λ q. absurd (cc q);
        })
  | inr e ↦
      let s = absorb-IsShorter t g rest in
      rw (e, absorb)
        (record {
          fewer = λ q. omega (arith, s.fewer q);
          at_most = omega (arith, s.at_most);
          same = λ q. (ap (λ l. h ∷ l) (s.same q).0, (s.same q).1);
          apart = λ q. (e, s.apart q);
        })
]

-- the flag of the rest of a pass, where the group at its head has merged with none
later : {a b r : Bool} → a ≡ false → (a || b) ≡ r → b ≡ r
later e q = rw e at q

record IsPass (t : ℕ) (groups : List Bucket) (next : List Bucket) (merged : Bool) : Type 0 where
  fewer : merged ≡ true → length next < length groups
  at_most : length next ≤ length groups
  same : merged ≡ false → next ≡ groups
  apart : merged ≡ false → IsApart t groups

one_pass-IsPass :
    (t n : ℕ) (groups : List Bucket)
    → length groups ≤ n
    → IsPass t groups (one_pass t n groups).0 (one_pass t n groups).1
unfolding one_pass
one_pass-IsPass t zero [] h = record {
  fewer = λ e. absurd (cc e);
  at_most = omega arith;
  same = λ e. refl;
  apart = λ e. tt;
}
one_pass-IsPass t zero (g ∷ rest) h = absurd (omega arith)
one_pass-IsPass t (suc n) [] h = record {
  fewer = λ e. absurd (cc e);
  at_most = omega arith;
  same = λ e. refl;
  apart = λ e. tt;
}
one_pass-IsPass t (suc n) (g ∷ rest) h =
    let s = absorb-IsShorter t g rest in
    let p = one_pass-IsPass t n (absorb t g rest).kept (omega (arith, s.at_most)) in
    elim (Bool-cases (absorb t g rest).merged) [
      | inl e ↦ record {
        fewer = λ _. omega (arith, s.fewer e, p.at_most);
        at_most = omega (arith, s.at_most, p.at_most);
        same = λ q. absurd (cc (e, q));
        apart = λ q. absurd (cc (e, q));
      }
      | inr e ↦
          let (k, gr) = s.same e in
          record {
            fewer = λ q. omega (arith, s.at_most, p.fewer (later e q));
            at_most = omega (arith, s.at_most, p.at_most);
            same = λ q. rw (gr, p.same (later e q), k) refl;
            apart = λ q. (s.apart e, subst (IsApart t) k (p.apart (later e q)));
          }
    ]

merge_rounds-IsApart :
    (t n : ℕ) (groups : List Bucket) → length groups < n → IsApart t (merge_rounds t n groups)
unfolding merge_rounds
merge_rounds-IsApart t zero groups h = elim h [ ]
merge_rounds-IsApart t (suc n) groups h =
    let p = one_pass-IsPass t (length groups) groups (omega arith) in
    elim (Bool-cases (one_pass t (length groups) groups).1) [
      | inl e ↦
          rw (e, merge_rounds)
            (merge_rounds-IsApart t n (one_pass t (length groups) groups).0
              (omega (arith, p.fewer e)))
      | inr e ↦ rw (e, merge_rounds) (subst (IsApart t) (sym (p.same e)) (p.apart e))
    ]

-- No group is close to one that stands behind it.
abbrev pub IsSettled : ℕ → List Bucket → Type 0
IsSettled t [] = Unit
IsSettled t (g ∷ rest) = All (λ h. ¬ IsClose t g h) rest × IsSettled t rest

IsApart-IsSettled : (t : ℕ) (groups : List Bucket) → IsApart t groups → IsSettled t groups
IsApart-IsSettled t [] _ = tt
IsApart-IsSettled t (g ∷ rest) (p, h) = (
  All-map _ _ (λ b e c. false≢true (sym e ∙ (is_near_iff t g b).1 c)) rest p,
  IsApart-IsSettled t rest h,
)

-- The loop of near duplicates ends by its own test, whatever the groups, and no two of the groups
-- that it leaves are of one rule with findings in one file at most `threshold` lines apart.
pub merge_near-IsSettled :
    (threshold : ℕ) (groups : List Bucket) → IsSettled threshold (merge_near (pos threshold) groups)
unfolding merge_near
merge_near-IsSettled threshold groups =
    IsApart-IsSettled threshold _
      (merge_rounds-IsApart threshold (suc (length groups)) groups (omega arith))
