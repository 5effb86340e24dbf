-- ===== src/Grouping/Near.antt =====
-- Which groups `group_findings` takes for near duplicates.
use nguyen_dinh_b.Prelude.{
  ℕ, ◌≤◌, String, ◌≡◌, refl, sym, ◌∙◌, ◌↔◌, inl, inr, Bool, true, false, ◌&&◌, List, [], ◌∷◌, map,
  arith, ◌==◌, eq_iff, leb, leb→le, any, keep, mem_str, Any-mem_str,
}
use mathlib.Core.Path.{subst}
use nguyen_dinh_b.Prelude.Int.{ℤ}
use nguyen_dinh_b.Prelude.Order.{
  distance, In, In-any, any-In, In-keep, keep-In, In-map, map-In, In-append_left, In-append_right,
  append-In,
}
use nguyen_dinh_b.Grouping.{
  NormalizedFinding, Bucket, members, line_of, file_of, lines_in, distances, least, within,
  should_merge, is_near,
}

-- Both groups are of one rule, and have findings in one file at most `threshold` lines apart.
pub record IsClose (threshold : ℕ) (g h : Bucket) : Type 0 where
  pub same_rule : g.first.rule_id ≡ h.first.rule_id
  pub one : NormalizedFinding
  pub other : NormalizedFinding
  pub in_one : In one (members g)
  pub in_other : In other (members h)
  pub same_file : file_of one ≡ file_of other
  pub near : distance (line_of one) (line_of other) ≤ threshold

within-least : (t : ℕ) (ns : List ℕ) → within t (least ns) ≡ any (λ n. leb n t) ns
within-least t [] = refl
within-least t (n ∷ ns) = ground (arith, within-least t ns)

In-distances : (l m : ℤ) (ls ms : List ℤ) → In l ls → In m ms → In (distance l m) (distances ls ms)
In-distances l m [] ms i j = absurd i
In-distances l m (x ∷ ls) ms (inl e) j =
    rw e (In-append_left _ (map (distance l) ms) (distances ls ms) (In-map (distance l) m ms j))
In-distances l m (x ∷ ls) ms (inr i) j =
    In-append_right _ (map (distance x) ms) (distances ls ms) (In-distances l m ls ms i j)

distances-In :
    (n : ℕ) (ls ms : List ℤ)
    → In n (distances ls ms)
    → (l : ℤ) × (m : ℤ) × In l ls × In m ms × (distance l m ≡ n)
distances-In n [] ms i = absurd i
distances-In n (x ∷ ls) ms i = elim (append-In n (map (distance x) ms) (distances ls ms) i) [
  | inl j ↦ let (m, k, e) = map-In (distance x) n ms j in (x, m, inl refl, k, e)
  | inr j ↦ let (l, m, k, q, e) = distances-In n ls ms j in (l, m, inr k, q, e)
]

In-lines_in :
    (c : String) (f : NormalizedFinding) (g : Bucket)
    → In f (members g)
    → file_of f ≡ c
    → In (line_of f) (lines_in c g)
In-lines_in c f g i e =
    let kept = In-keep (λ x. file_of x == c) f (members g) ((eq_iff (file_of f) c).1 e) i in
    In-map line_of f (keep (λ x. file_of x == c) (members g)) kept

lines_in-In :
    (c : String) (l : ℤ) (g : Bucket)
    → In l (lines_in c g)
    → (f : NormalizedFinding) × In f (members g) × (file_of f ≡ c) × (line_of f ≡ l)
lines_in-In c l g i =
    let (f, k, e) = map-In line_of l (keep (λ x. file_of x == c) (members g)) i in
    let (m, q) = keep-In (λ x. file_of x == c) f (members g) k in
    (f, m, (eq_iff (file_of f) c).0 q, e)

le→leb : (a b : ℕ) → a ≤ b → leb a b ≡ true
le→leb a b h = ground arith

both : {a b : Bool} → a ≡ true → b ≡ true → (a && b) ≡ true
both h k = rw (h, k)

both_of : (a b : Bool) → (a && b) ≡ true → (a ≡ true) × (b ≡ true)
both_of true b h = (refl, h)
both_of false b h = cc

-- what `should_merge` asks of a file of the first group
abbrev shares : ℕ → Bucket → Bucket → String → Bool
shares t g h c =
    mem_str c (map file_of (members h))
    && within t (least (distances (lines_in c g) (lines_in c h)))

module _ (t : ℕ) (g h : Bucket) where
  is_near_complete : IsClose t g h → is_near t g h ≡ true
  unfolding is_near
  is_near_complete c =
      let file = file_of c.one in
      let i = In-lines_in file c.one g c.in_one refl in
      let j = In-lines_in file c.other h c.in_other (sym c.same_file) in
      let d =
        In-any (λ n. leb n t) (distance (line_of c.one) (line_of c.other))
          (distances (lines_in file g) (lines_in file h)) (le→leb _ _ c.near)
          (In-distances _ _ (lines_in file g) (lines_in file h) i j) in
      let shared = Any-mem_str file (map file_of (members h)) (
        subst (λ s. In s (map file_of (members h))) (sym c.same_file)
          (In-map file_of c.other (members h) c.in_other)) in
      let found =
        In-any (shares t g h) file (map file_of (members g))
          (both shared (within-least t (distances (lines_in file g) (lines_in file h)) ∙ d))
          (In-map file_of c.one (members g) c.in_one) in
      both ((eq_iff _ _).1 c.same_rule) found

  is_near_sound : is_near t g h ≡ true → IsClose t g h
  unfolding is_near
  is_near_sound e =
      let (rule, merge) = both_of (g.first.rule_id == h.first.rule_id) (should_merge t g h) e in
      let (file, i, q) = any-In (shares t g h) (map file_of (members g)) merge in
      let (_, near) = both_of (mem_str file (map file_of (members h))) _ q in
      let ns = distances (lines_in file g) (lines_in file h) in
      let (n, k, le) = any-In (λ n. leb n t) ns (sym (within-least t ns) ∙ near) in
      let (l, m, p, r, d) = distances-In n (lines_in file g) (lines_in file h) k in
      let (one, in_one, f1, l1) = lines_in-In file l g p in
      let (other, in_other, f2, l2) = lines_in-In file m h r in
      record {
        same_rule = (eq_iff _ _).0 rule;
        one = one;
        other = other;
        in_one = in_one;
        in_other = in_other;
        same_file = f1 ∙ sym f2;
        near = rw (l1, l2, d) (leb→le _ _ le);
      }

-- Two groups are taken for near duplicates exactly when they are close.
pub is_near_iff : (t : ℕ) (g h : Bucket) → (is_near t g h ≡ true) ↔ IsClose t g h
is_near_iff t g h = (is_near_sound t g h, is_near_complete t g h)
