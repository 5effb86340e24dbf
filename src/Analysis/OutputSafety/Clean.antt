-- ===== src/Analysis/OutputSafety/Clean.antt =====
-- When the search for exploit payloads finds nothing.
use nguyen_dinh_b.Prelude.{
  String, ◌≡◌, refl, sym, ap, ◌∙◌, ◌↔◌, inl, inr, none, List, [], ◌∷◌, ◌++◌, Option-cases, All,
  mem_str, concat,
}
use mathlib.Core.List.{append_assoc, append-nil}
use nguyen_dinh_b.Json.{
  Json, null, bool, int, float, str, arr, obj, Items, nil, cons, Fields, end, field, get_null,
}
use nguyen_dinh_b.Python.{PyText}
use nguyen_dinh_b.Analysis.OutputSafety.{
  UnsafePattern, agent_authored_fields, objective_fields, texts, texts_items, texts_fields,
  problems_by, problems_of, scan_fields, scan_objective, unique, scan_unsafe_output,
}

-- The text has no match of any of the patterns.
abbrev pub IsClean : List UnsafePattern → String → Type 0
IsClean unsafe text = All (λ p. p.search text ≡ none) unsafe

-- Every text in the value is clean, however deep it stands; keys are left out of account.
module _ (unsafe : List UnsafePattern) where
  mutual
    pub AllClean : Json → Type 0
    AllClean (str s) = IsClean unsafe s
    AllClean (arr vs) = CleanItems vs
    AllClean (obj fs) = CleanFields fs
    AllClean _ = Unit

    pub CleanItems : Items → Type 0
    CleanItems nil = Unit
    CleanItems (cons v vs) = AllClean v × CleanItems vs

    pub CleanFields : Fields → Type 0
    CleanFields end = Unit
    CleanFields (field k v fs) = AllClean v × CleanFields fs

  -- Every text under one of the names is clean.
  abbrev pub CleanAt : List String → Fields → Type 0
  CleanAt names fs = All (λ name. AllClean (get_null name fs)) names

  -- what is asked of the proposed request, if there is one
  abbrev pub CleanObjective : Json → Type 0
  CleanObjective (obj os) = CleanAt objective_fields os
  CleanObjective _ = Unit

append-empty : {A : Type 0} (xs ys : List A) → (xs ++ ys) ≡ [] → (xs ≡ []) × (ys ≡ [])
append-empty [] ys h = (refl, h)
append-empty (x ∷ xs) ys h = cc

empty-append : {A : Type 0} {xs ys : List A} → xs ≡ [] → ys ≡ [] → (xs ++ ys) ≡ []
empty-append h k = rw (h, k)

module _ ⦃py : PyText⦄ (unsafe : List UnsafePattern) where
  problems_by_iff :
      (ps : List UnsafePattern) (label text : String)
      → (problems_by ps label text ≡ []) ↔ IsClean ps text
  unfolding problems_by
  problems_by_iff [] label text = (λ _. tt, λ _. refl)
  problems_by_iff (p ∷ ps) label text =
      let ih = problems_by_iff ps label text in
      elim (Option-cases (p.search text)) [
        | inl e ↦ rw (e, problems_by) ((λ h. (refl, ih.0 h)), (λ (_, h). ih.1 h))
        | inr (found, e) ↦ rw (e, problems_by) ((λ h. absurd (cc h)), (λ (h, _). absurd (cc h)))
      ]

  problems_of-append :
      (label : String) (ss ts : List String)
      → problems_of unsafe label (ss ++ ts)
        ≡ problems_of unsafe label ss ++ problems_of unsafe label ts
  unfolding problems_of
  problems_of-append label [] ts = refl
  problems_of-append label (s ∷ ss) ts =
      ap (λ l. problems_by unsafe label s ++ l) (problems_of-append label ss ts)
      ∙ sym (append_assoc (problems_by unsafe label s) _ (problems_of unsafe label ts))

  -- two parts of a list of texts without problems
  both_clean :
      {P Q : Type 0} (label : String) (ss ts : List String)
      → (problems_of unsafe label ss ≡ []) ↔ P
      → (problems_of unsafe label ts ≡ []) ↔ Q
      → (problems_of unsafe label (ss ++ ts) ≡ []) ↔ (P × Q)
  both_clean label ss ts p q = rw problems_of-append (
      (
        (λ h. let (a, b) = append-empty _ (problems_of unsafe label ts) h in (p.0 a, q.0 b)),
        (λ (a, b). empty-append (p.1 a) (q.1 b)),
      ))

  mutual
    unfolding problems_of texts AllClean

    clean_texts :
        (label : String) (v : Json) → (problems_of unsafe label (texts v) ≡ []) ↔ AllClean unsafe v
    clean_texts label (str s) = rw append-nil (problems_by_iff unsafe label s)
    clean_texts label (arr vs) = clean_items label vs
    clean_texts label (obj fs) = clean_fields label fs
    clean_texts label null = (λ _. tt, λ _. refl)
    clean_texts label (bool b) = (λ _. tt, λ _. refl)
    clean_texts label (int n) = (λ _. tt, λ _. refl)
    clean_texts label (float m k) = (λ _. tt, λ _. refl)

    clean_items :
        (label : String) (vs : Items)
        → (problems_of unsafe label (texts_items vs) ≡ []) ↔ CleanItems unsafe vs
    clean_items label nil = (λ _. tt, λ _. refl)
    clean_items label (cons v vs) =
        both_clean label (texts v) (texts_items vs) (clean_texts label v) (clean_items label vs)

    clean_fields :
        (label : String) (fs : Fields)
        → (problems_of unsafe label (texts_fields fs) ≡ []) ↔ CleanFields unsafe fs
    clean_fields label end = (λ _. tt, λ _. refl)
    clean_fields label (field k v fs) =
        both_clean label (texts v) (texts_fields fs) (clean_texts label v) (clean_fields label fs)

  scan_fields_iff :
      (prefix : String) (names : List String) (fs : Fields)
      → (scan_fields unsafe prefix names fs ≡ []) ↔ CleanAt unsafe names fs
  unfolding scan_fields
  scan_fields_iff prefix [] fs = (λ _. tt, λ _. refl)
  scan_fields_iff prefix (name ∷ names) fs =
      let ih = scan_fields_iff prefix names fs in
      let here = clean_texts (concat (prefix ∷ name ∷ [])) (get_null name fs) in
      (
        (λ h.
            let (a, b) = append-empty _ (scan_fields unsafe prefix names fs) h in
            (here.0 a, ih.0 b)),
        (λ (a, b). empty-append (here.1 a) (ih.1 b)),
      )

  scan_objective_iff : (v : Json) → (scan_objective unsafe v ≡ []) ↔ CleanObjective unsafe v
  unfolding scan_objective
  scan_objective_iff (obj os) = scan_fields_iff "verification_objective." objective_fields os
  scan_objective_iff null = (λ _. tt, λ _. refl)
  scan_objective_iff (bool b) = (λ _. tt, λ _. refl)
  scan_objective_iff (int n) = (λ _. tt, λ _. refl)
  scan_objective_iff (float m k) = (λ _. tt, λ _. refl)
  scan_objective_iff (str s) = (λ _. tt, λ _. refl)
  scan_objective_iff (arr vs) = (λ _. tt, λ _. refl)

  unique-empty : (ps : List String) → (unique [] ps ≡ []) ↔ (ps ≡ [])
  unfolding unique mem_str
  unique-empty [] = (λ _. refl, λ _. refl)
  unique-empty (p ∷ ps) = (λ h. absurd (cc h), λ h. absurd (cc h))

  -- A response passes the search exactly when none of the patterns has a match in any text, however
  -- deep, under the six fields that the model writes and, where it proposes a request, under the
  -- three fields of the proposal. So nothing else of the record, its evidence included, can make it
  -- fail.
  pub scan_unsafe_output_iff :
      (fs : Fields)
      → (scan_unsafe_output unsafe (obj fs) ≡ []) ↔ (
          CleanAt unsafe agent_authored_fields fs
          × CleanObjective unsafe (get_null "verification_objective" fs))
  unfolding scan_unsafe_output
  scan_unsafe_output_iff fs =
      let fields = scan_fields_iff "" agent_authored_fields fs in
      let objective = scan_objective_iff (get_null "verification_objective" fs) in
      let nothing = unique-empty (
        scan_fields unsafe "" agent_authored_fields fs
        ++ scan_objective unsafe (get_null "verification_objective" fs)) in
      (
        (λ h.
            let (a, b) =
              append-empty (scan_fields unsafe "" agent_authored_fields fs) _ (nothing.0 h) in
            (fields.0 a, objective.0 b)),
        (λ (a, b). nothing.1 (empty-append (fields.1 a) (objective.1 b))),
      )
