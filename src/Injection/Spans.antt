-- ===== src/Injection/Spans.antt =====
-- The spans that are cut out.
use nguyen_dinh_b.Prelude.{
  ℕ, ◌≤◌, ◌<◌, max, ◌≡◌, refl, ◌↔◌, inl, inr, List, [], ◌∷◌, arith, leb, leb→le, Bool-cases, Any,
}
use nguyen_dinh_b.Injection.{Span, before, insert_span, sort_spans, merge_from, merge_spans}

-- Sorted and apart: each span begins after the end of the one before.
abbrev pub IsApart : List Span → Type 0
IsApart [] = Unit
IsApart (s ∷ []) = Unit
IsApart (s ∷ t ∷ ts) = (s.1 < t.0) × IsApart (t ∷ ts)

-- The position stands in some span.
abbrev pub IsInside : ℕ → List Span → Type 0
IsInside i = Any (λ s. (s.0 ≤ i) × (i < s.1))

-- The spans begin in order, from `start` on.
abbrev IsSorted : ℕ → List Span → Type 0
IsSorted start [] = Unit
IsSorted start (s ∷ ss) = (start ≤ s.0) × IsSorted s.0 ss

IsSorted-weaken : (a b : ℕ) (ss : List Span) → a ≤ b → IsSorted b ss → IsSorted a ss
IsSorted-weaken a b [] h k = tt
IsSorted-weaken a b (s ∷ ss) h (p, k) = (omega (arith, h, p), k)

insert_span-IsSorted :
    (a : ℕ) (s : Span) (ss : List Span) → a ≤ s.0 → IsSorted a ss → IsSorted a (insert_span s ss)
unfolding insert_span
insert_span-IsSorted a s [] h k = (h, tt)
insert_span-IsSorted a s (t ∷ ts) h (p, k) = elim (Bool-cases (before s t)) [
  | inl e ↦ let le : s.0 ≤ t.0 = ground arith in rw e (h, (le, k))
  | inr e ↦ let le : t.0 ≤ s.0 = ground arith in rw e (p, insert_span-IsSorted t.0 s ts le k)
]

sort_spans-IsSorted : (ss : List Span) → IsSorted 0 (sort_spans ss)
unfolding sort_spans
sort_spans-IsSorted [] = tt
sort_spans-IsSorted (s ∷ ss) =
    insert_span-IsSorted 0 s (sort_spans ss) (omega arith) (sort_spans-IsSorted ss)

Covered-insert :
    (i : ℕ) (s : Span) (ss : List Span) → IsInside i (insert_span s ss) ↔ IsInside i (s ∷ ss)
unfolding insert_span
Covered-insert i s [] = (λ h. h, λ h. h)
Covered-insert i s (t ∷ ts) = elim (Bool-cases (before s t)) [
  | inl e ↦ rw e (λ h. h, λ h. h)
  | inr e ↦ rw e (ground (arith, Covered-insert i s ts), ground (arith, Covered-insert i s ts))
]

Covered-sort : (i : ℕ) (ss : List Span) → IsInside i (sort_spans ss) ↔ IsInside i ss
unfolding sort_spans
Covered-sort i [] = (λ h. h, λ h. h)
Covered-sort i (s ∷ ss) = ground (arith, Covered-insert i s (sort_spans ss), Covered-sort i ss)

merge_from-IsApart :
    (start end : ℕ) (ss : List Span)
    → (b : ℕ) × (first : List Span) × (merge_from start end ss ≡ (start, b) ∷ first)
      × IsApart (merge_from start end ss)
unfolding merge_from
merge_from-IsApart start end [] = (end, [], refl, tt)
merge_from-IsApart start end ((a, b) ∷ ss) = elim (Bool-cases (leb a end)) [
  | inl e ↦ rw e (merge_from-IsApart start (max end b) ss)
  | inr e ↦
      let (c, rest, same, h) = merge_from-IsApart a b ss in
      let gap : end < a = ground arith in
      let apart : IsApart ((start, end) ∷ merge_from a b ss) = rw same (gap, rw same at h) in
      rw e (end, merge_from a b ss, refl, apart)
]

Covered-merge_from :
    (i start end : ℕ) (ss : List Span)
    → IsSorted start ss
    → IsInside i (merge_from start end ss) ↔ IsInside i ((start, end) ∷ ss)
unfolding merge_from
Covered-merge_from i start end [] h = (λ k. k, λ k. k)
Covered-merge_from i start end ((a, b) ∷ ss) (p, h) = elim (Bool-cases (leb a end)) [
  | inl e ↦
      let le = leb→le a end e in
      rw e (
        ground
          (arith, le, Covered-merge_from i start (max end b) ss (IsSorted-weaken start a ss p h)))
  | inr e ↦ rw e (ground (arith, Covered-merge_from i a b ss h))
]

Covered-merge :
    (i : ℕ) (ss : List Span) → IsSorted 0 ss → IsInside i (merge_spans ss) ↔ IsInside i ss
unfolding merge_spans
Covered-merge i [] h = (λ k. k, λ k. k)
Covered-merge i ((start, end) ∷ ss) (_, h) = Covered-merge_from i start end ss h

merge-IsApart : (ss : List Span) → IsApart (merge_spans ss)
unfolding merge_spans
merge-IsApart [] = tt
merge-IsApart ((start, end) ∷ ss) = let (_, _, _, h) = merge_from-IsApart start end ss in h

-- The spans that are cut out stand in order and apart from each other, and a position stands in one of
-- them exactly if some match covers it, in whatever order the matches were found.
pub merge_spans_lem :
    (i : ℕ) (spans : List Span)
    → IsApart (merge_spans (sort_spans spans))
      × (IsInside i (merge_spans (sort_spans spans)) ↔ IsInside i spans)
merge_spans_lem i spans =
    let merged = Covered-merge i (sort_spans spans) (sort_spans-IsSorted spans) in
    let sorted = Covered-sort i spans in
    (merge-IsApart (sort_spans spans), (λ h. sorted.0 (merged.0 h), λ h. merged.1 (sorted.1 h)))
