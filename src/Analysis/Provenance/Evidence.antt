-- ===== src/Analysis/Provenance/Evidence.antt =====
-- Rules 6 and 8 of `validate_provenance`: the pieces of source that a response quotes.
use nguyen_dinh_b.Prelude.{
  String, ◌≡◌, refl, sym, ap, ◌∙◌, inl, inr, Bool, true, false, not, ◌&&◌, ◌||◌, List, [], ◌∷◌,
  arith, eq_iff, eq_refl, if◌then◌else◌, Bool-cases, is_empty, All, any, keep,
}
use mathlib.Core.Path.{subst}
use nguyen_dinh_b.Prelude.Order.{In, any-In, In-keep, keep-In}
use nguyen_dinh_b.Json.{
  Json, null, bool, int, float, str, arr, obj, Fields, get_null, is_str, truthy,
}
use nguyen_dinh_b.Python.{ok, raise_if-ok, PyText, >>=-eq-ok, ok-injective}
use nguyen_dinh_b.Analysis.Provenance.{
  as_dict, mem, evidence_paths, source_errors, same_evidence, candidates, content_error,
  content_errors, Supplied, content_rule,
}
use nguyen_dinh_b.Analysis.Provenance.Laws.{append-empty, as_dict-eq}

is_str-eq : (s : String) (v : Json) → is_str s v ≡ true → v ≡ str s
is_str-eq s (str t) h = ap str ((eq_iff t s).0 h)
is_str-eq s null h = cc
is_str-eq s (bool b) h = cc
is_str-eq s (int n) h = cc
is_str-eq s (float m k) h = cc
is_str-eq s (arr vs) h = cc
is_str-eq s (obj fs) h = cc

In-nonempty : {A : Type 0} (a : A) (xs : List A) → In a xs → is_empty xs ≡ false
In-nonempty a [] i = absurd i
In-nonempty a (x ∷ xs) i = refl

-- What rule 6 has found of an item that adds no message.
passed :
    (source named known : Bool) (message : String) (more : List String)
    → (if source && (not named || not known) then message ∷ more else more) ≡ []
    → (source ≡ true → known ≡ true) × (more ≡ [])
passed false named known message more h = (λ e. cc, h)
passed true true true message more h = (λ e. refl, h)
passed true true false message more h = cc
passed true false true message more h = cc
passed true false false message more h = cc

module _ ⦃py : PyText⦄ where
  -- The packet holds the piece of source that the item quotes: the same path, lines and content.
  abbrev pub IsQuoted : List Fields → Fields → Type 0
  IsQuoted given ev =
      (c : Fields) × In c given
      × (get_null "path" c ≡ get_null "path" ev)
      × (same_evidence ev c ≡ true)

  -- An item of evidence, with what is asked of it where it is a piece of source.
  abbrev pub IsBacked : List Fields → Json → Type 0
  IsBacked given item =
      (ev : Fields) × (item ≡ obj ev)
      × (is_str "source" (get_null "type" ev) ≡ true → IsQuoted given ev)

  -- The evidence in the packet has texts for its paths, where it has paths.
  abbrev pub HasPaths : List Fields → Type 0
  HasPaths given =
      All (λ c. truthy (get_null "path" c) ≡ true → (s : String) × (get_null "path" c ≡ str s))
        given

  evidence_path-of :
      (given : List Fields) (p : Json)
      → HasPaths given
      → In p (evidence_paths given)
      → (c : Fields) × (s : String) × In c given × (get_null "path" c ≡ p) × (p ≡ str s)
  evidence_path-of [] p h i = absurd i
  evidence_path-of (c ∷ cs) p (text, h) i = elim (Bool-cases (truthy (get_null "path" c))) [
    | inl t ↦ elim (rw t at i) [
      | inl q ↦ let (s, e) = text t in (c, s, inl refl, q, sym q ∙ e)
      | inr j ↦ let (d, u, k, q, r) = evidence_path-of cs p h j in (d, u, inr k, q, r)
    ]
    | inr f ↦ let (d, u, k, q, r) = evidence_path-of cs p h (rw f at i) in (d, u, inr k, q, r)
  ]

  content_error-any :
      (given : List Fields) (ev : Fields)
      → is_str "source" (get_null "type" ev) ≡ true
      → content_error (obj ev) given ≡ []
      → is_empty (candidates (get_null "path" ev) given) ≡ false
      → any (same_evidence ev) (candidates (get_null "path" ev) given) ≡ true
  unfolding content_error
  content_error-any given ev source clean some_found =
      elim (Bool-cases (any (same_evidence ev) (candidates (get_null "path" ev) given))) [
        | inl t ↦ t
        | inr f ↦ cc (rw (source, some_found, f) at clean)
      ]

  -- rules 6 and 8 on one item
  content_error-IsQuoted :
      (given : List Fields) (ev : Fields)
      → HasPaths given
      → is_str "source" (get_null "type" ev) ≡ true
      → mem (get_null "path" ev) (evidence_paths given) ≡ true
      → content_error (obj ev) given ≡ []
      → IsQuoted given ev
  unfolding content_error
  content_error-IsQuoted given ev texts source known clean =
      let (p, i, e) = any-In (py.equal (get_null "path" ev)) (evidence_paths given) known in
      let (c, s, j, at, is) = evidence_path-of given p texts i in
      let path : get_null "path" ev ≡ str s = py.equal-str (get_null "path" ev) s (rw is at e) in
      let kept = In-keep (λ d. is_str s (get_null "path" d)) c given (rw (at, is) (eq_refl s)) j in
      let some_found =
        content_error-any given ev source clean
          (subst (λ v. is_empty (candidates v given) ≡ false) (sym path) (In-nonempty c _ kept)) in
      let (d, k, q) =
        any-In (same_evidence ev) (candidates (str s) given)
          (subst (λ v. any (same_evidence ev) (candidates v given) ≡ true) path some_found) in
      let (m, r) = keep-In (λ x. is_str s (get_null "path" x)) d given k in
      (d, m, is_str-eq s (get_null "path" d) r ∙ sym path, q)

  pub source_errors-known :
      (evidence paths : List Json)
      → source_errors evidence paths ≡ ok []
      → All
          (λ item.
            (ev : Fields) × (item ≡ obj ev)
            × (is_str "source" (get_null "type" ev) ≡ true → mem (get_null "path" ev) paths ≡ true))
          evidence
  unfolding source_errors
  source_errors-known [] paths h = tt
  source_errors-known (item ∷ rest) paths h =
      let (ev, (p, h1)) = >>=-eq-ok (as_dict item) _ h in
      let h2 = raise_if-ok _ _ _ h1 in
      let (more, (q, h3)) = >>=-eq-ok (source_errors rest paths) _ h2 in
      let (a, b) = passed _ (truthy (get_null "path" ev)) _ _ more (ok-injective h3) in
      ((ev, as_dict-eq item p, a), source_errors-known rest paths (q ∙ ap ok b))

  content_errors-each :
      (evidence : List Json) (given : List Fields)
      → content_errors evidence given ≡ []
      → All (λ item. content_error item given ≡ []) evidence
  unfolding content_errors
  content_errors-each [] given h = tt
  content_errors-each (item ∷ rest) given h =
      let (a, b) = append-empty (content_error item given) (content_errors rest given) h in
      (a, content_errors-each rest given b)

  -- rules 6 and 8 on all items
  pub evidence-IsBacked :
      (evidence : List Json) (given : List Fields)
      → HasPaths given
      → All
          (λ item.
            (ev : Fields) × (item ≡ obj ev)
            × (is_str "source" (get_null "type" ev) ≡ true
                → mem (get_null "path" ev) (evidence_paths given) ≡ true))
          evidence
      → All (λ item. content_error item given ≡ []) evidence
      → All (IsBacked given) evidence
  evidence-IsBacked [] given texts _ _ = tt
  evidence-IsBacked (item ∷ rest) given texts ((ev, e, known), ks) (clean, cs) = (
    (
      ev,
      e,
      λ source.
          content_error-IsQuoted given ev texts source (known source)
            (subst (λ v. content_error v given ≡ []) e clean),
    ),
    evidence-IsBacked rest given texts ks cs,
  )

  candidates-none : (v : Json) → candidates v [] ≡ []
  unfolding keep
  candidates-none (str s) = refl
  candidates-none _ = refl

  content_errors-none :
      (evidence : List Json) (given : List Fields)
      → is_empty given ≡ true
      → content_errors evidence given ≡ []
  unfolding content_errors content_error
  content_errors-none [] given h = refl
  content_errors-none (obj ev ∷ rest) [] h =
      rw (candidates-none (get_null "path" ev), content_errors-none rest [] h) (ground arith)
  content_errors-none (null ∷ rest) [] h = content_errors-none rest [] h
  content_errors-none (bool b ∷ rest) [] h = content_errors-none rest [] h
  content_errors-none (int n ∷ rest) [] h = content_errors-none rest [] h
  content_errors-none (float m k ∷ rest) [] h = content_errors-none rest [] h
  content_errors-none (str s ∷ rest) [] h = content_errors-none rest [] h
  content_errors-none (arr vs ∷ rest) [] h = content_errors-none rest [] h
  content_errors-none evidence (g ∷ gs) h = cc

  pub content_rule-each :
      (evidence : List Json) (s : Supplied)
      → content_rule evidence s ≡ []
      → All (λ item. content_error item s.source_evidence ≡ []) evidence
  content_rule-each evidence s h = elim (Bool-cases (is_empty s.source_evidence)) [
    | inl e ↦
        content_errors-each evidence s.source_evidence
          (content_errors-none evidence s.source_evidence e)
    | inr e ↦ content_errors-each evidence s.source_evidence (rw e at h)
  ]
