-- ===== src/Injection.antt =====
-- guardrails/injection.py: the scan of text that comes from the application. The search of a pattern is
-- Python's `finditer`, which gives the spans of its matches; a text is its code points.
pub mod Spans
use nguyen_dinh_b.Prelude.{
  ℕ, zero, suc, ◌+◌, ◌-◌, ◌*◌, ◌≤◌, ◌<◌, min, max, String, ◌≡◌, refl, sym, ap, ◌∙◌, ◌≢◌, ◌↔◌, ◌⊎◌,
  inl, inr, Bool, true, false, not, ◌&&◌, ◌||◌, false≢true, Option, none, some, List, [], ◌∷◌, ◌++◌,
  map, arith, ◌==◌, eq_iff, eq_refl, ltb, leb, eqb, if◌then◌else◌, leb→le, ltb→lt, Bool-cases,
  Option-cases, is_some, length, length-append, is_empty, All, Any, All-append, All-map, Any-map,
  Any-All, any, all, any-false, keep, find_first, find_first-some, find_first-none, codes, mem_str,
  mem_str-Any, Any-mem_str, has_code, has_prefix, ne_of_test, has_infix, is_blank, split_space,
  strip, concat, repeat,
}

abbrev pub Span : Type 0
Span = ℕ × ℕ

-- An entry of `_PATTERNS`.
pub record InjectionPattern : Type 0 where
  pub name : String
  pub finditer : List ℕ → List Span

pub record InjectionMatch : Type 0 where
  pub pattern_name : String
  pub excerpt : List ℕ

pub record InjectionVerdict : Type 0 where
  pub verdict : String
  pub matches : List InjectionMatch
  pub sanitized_text : List ℕ

unfoldable pub take : ℕ → List ℕ → List ℕ
take zero text = []
take (suc n) [] = []
take (suc n) (c ∷ text) = c ∷ take n text

unfoldable pub drop : ℕ → List ℕ → List ℕ
drop zero text = text
drop (suc n) [] = []
drop (suc n) (c ∷ text) = drop n text

-- `text[start:end]`
abbrev pub slice : ℕ → ℕ → List ℕ → List ℕ
slice start end text = take (end - start) (drop start text)

-- `MAX_EXCERPT_CHARS`
abbrev pub max_excerpt : ℕ
max_excerpt = 120

-- the match with its surroundings
abbrev pub match_of : String → List ℕ → Span → InjectionMatch
match_of name text (start, end) = record {
  pattern_name = name;
  excerpt = take max_excerpt (slice (start - 20) (min (length text) (end + 20)) text);
}

-- the loop over the patterns: the matches and their spans
unfoldable pub find_all : List InjectionPattern → List ℕ → List InjectionMatch × List Span
find_all [] text = ([], [])
find_all (p ∷ ps) text =
    let found = p.finditer text in
    let (matches, spans) = find_all ps text in
    (map (match_of p.name text) found ++ matches, found ++ spans)

-- the order of pairs
abbrev pub before : Span → Span → Bool
before (a, b) (c, d) = ltb a c || (eqb a c && leb b d)

unfoldable pub insert_span : Span → List Span → List Span
insert_span s [] = s ∷ []
insert_span s (t ∷ ts) = let rest = insert_span s ts in if before s t then s ∷ t ∷ ts else t ∷ rest

-- `sorted(spans)`
unfoldable pub sort_spans : List Span → List Span
sort_spans [] = []
sort_spans (s ∷ ss) = insert_span s (sort_spans ss)

-- the loop that merges sorted spans; `(start, end)` is the last one of `merged`
unfoldable pub merge_from : ℕ → ℕ → List Span → List Span
merge_from start end [] = (start, end) ∷ []
merge_from start end ((a, b) ∷ spans) =
    let joined = merge_from start (max end b) spans in
    let apart = merge_from a b spans in if leb a end then joined else (start, end) ∷ apart

unfoldable pub merge_spans : List Span → List Span
merge_spans [] = []
merge_spans ((start, end) ∷ spans) = merge_from start end spans

abbrev pub marker : List ℕ
marker = codes "[REMOVED_INJECTION_ATTEMPT]"

-- the loop that cuts the merged spans out
unfoldable pub cut_from : ℕ → List Span → List ℕ → List ℕ
cut_from cursor [] text = drop cursor text
cut_from cursor ((start, end) ∷ spans) text =
    slice cursor start text ++ (marker ++ cut_from end spans text)

-- `_remove_spans`
unfoldable pub remove_spans : List ℕ → List Span → List ℕ
remove_spans text spans = cut_from 0 (merge_spans (sort_spans spans)) text

unfoldable pub scan : List InjectionPattern → List ℕ → InjectionVerdict
scan patterns text =
    let matches = (find_all patterns text).0 in
    let spans = (find_all patterns text).1 in
    if is_empty text || is_empty matches
    then record { verdict = "clean"; matches = []; sanitized_text = text }
    else record {
      verdict = "suspicious";
      matches = matches;
      sanitized_text = remove_spans text spans;
    }
