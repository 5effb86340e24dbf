-- ===== src/Calibration/Ceiling.antt =====
-- How far a calibrated record can go.
use nguyen_dinh_b.Prelude.{
  ℕ, ◌≤◌, String, ◌≡◌, refl, sym, ap, ◌∙◌, ◌≢◌, inl, inr, Bool, true, false, ◌&&◌, false≢true,
  Option, none, some, List, arith, ◌==◌, eq_iff, if◌then◌else◌, Bool-cases, ne_of_test,
}
use nguyen_dinh_b.Json.{
  is_str, Json, null, bool, int, float, str, arr, obj, Fields, get_null, get_or-put,
}
use nguyen_dinh_b.Calibration.{
  rank, ceiling, exceeds, cap, limit_text, limit_severity, differs, put_if, needs_proof, is_open,
  control_of, denies, final_disposition, write_back,
}

-- The first rank does not exceed the second, where there are two.
abbrev pub AtMost : Option ℕ → Option ℕ → Type 0
AtMost (some a) (some b) = a ≤ b
AtMost _ _ = Unit

AtMost-refl : (a : Option ℕ) → AtMost a a
AtMost-refl none = tt
AtMost-refl (some a) = omega arith

exceeds-false : (a b : Option ℕ) → exceeds a b ≡ false → AtMost a b
exceeds-false none b h = tt
exceeds-false (some a) none h = tt
exceeds-false (some a) (some b) h = ground arith

exceeds_below : (a c b : Option ℕ) → exceeds a c ≡ true → AtMost a b → AtMost c b
exceeds_below (some a) (some c) (some b) h k = ground arith
exceeds_below (some a) (some c) none h k = tt
exceeds_below (some a) none b h k = absurd (false≢true h)
exceeds_below none c b h k = absurd (false≢true h)

cap_over : (x l : String) → exceeds (rank x) (rank l) ≡ true → cap x l ≡ l
unfolding cap
cap_over x l h = ap (λ (b : Bool). if b then l else x) h

cap_under : (x l : String) → exceeds (rank x) (rank l) ≡ false → cap x l ≡ x
unfolding cap
cap_under x l h = ap (λ (b : Bool). if b then l else x) h

cap_limit : (x l : String) → AtMost (rank (cap x l)) (rank l)
cap_limit x l = elim (Bool-cases (exceeds (rank x) (rank l))) [
  | inl e ↦ rw (cap_over x l e) (AtMost-refl (rank l))
  | inr e ↦ rw (cap_under x l e) (exceeds-false (rank x) (rank l) e)
]

cap_below : (x l : String) (b : Option ℕ) → AtMost (rank x) b → AtMost (rank (cap x l)) b
cap_below x l b h = elim (Bool-cases (exceeds (rank x) (rank l))) [
  | inl e ↦ rw (cap_over x l e) (exceeds_below (rank x) (rank l) b e h)
  | inr e ↦ rw (cap_under x l e) h
]

-- What the rules on the severity leave of the severity `given`.
pub record IsLimited (disposition : String) (control : Json) (given left : String) : Type 0 where
  pub never_raised : AtMost (rank left) (rank given)
  pub below_ceiling : AtMost (rank left) (rank (ceiling disposition))
  pub below_medium : control ≡ str "not_proven" → AtMost (rank left) (rank "medium")

pub limit_text-IsLimited :
    (control : Json) (d s : String) (rules : List String)
    → IsLimited d control s (limit_text (is_str "not_proven" control) d s rules).0
unfolding limit_text
limit_text-IsLimited control d s rules = elim (Bool-cases (is_str "not_proven" control)) [
  | inl e ↦ rw e (record {
    never_raised =
        cap_below (cap s (ceiling d)) "medium" (rank s)
          (cap_below s (ceiling d) (rank s) (AtMost-refl (rank s)));
    below_ceiling =
        cap_below (cap s (ceiling d)) "medium" (rank (ceiling d)) (cap_limit s (ceiling d));
    below_medium = λ _. cap_limit (cap s (ceiling d)) "medium";
  })
  | inr e ↦ rw e (record {
    never_raised = cap_below s (ceiling d) (rank s) (AtMost-refl (rank s));
    below_ceiling = cap_limit s (ceiling d);
    below_medium = λ h. absurd (false≢true (sym e ∙ ap (is_str "not_proven") h));
  })
]

pub get_null-put_if :
    (j k : String) (b : Bool) (v : Json) (fs : Fields)
    → get_null j (put_if b k v fs) ≡ (if b && k == j then v else get_null j fs)
unfolding put_if
get_null-put_if j k true v fs = get_or-put k j v null fs
get_null-put_if j k false v fs = refl

pub control_unproven : (v : Json) → is_str "proven" (control_of v) ≡ false
control_unproven v = elim (Bool-cases (is_str "proven" v)) [
  | inl e ↦ rw e refl
  | inr e ↦ rw (e, e) refl
]

claimed-unconfirmed :
    (d : String) (v reachability : Json)
    → (if needs_proof d (control_of v) reachability then "needs_review" else d) ≢ "confirmed"
claimed-unconfirmed d v reachability = elim (Bool-cases (d == "confirmed")) [
  | inl e ↦ rw (e, control_unproven v) (ne_of_test "needs_review" "confirmed" refl)
  | inr e ↦ rw e (ne_of_test d "confirmed" e)
]

pub final_disposition-unconfirmed :
    (patterns : List (String → Bool)) (fs : Fields) (d : String) (v reachability : Json)
    → final_disposition patterns fs d (control_of v) reachability ≢ "confirmed"
unfolding final_disposition
final_disposition-unconfirmed patterns fs d v reachability =
    let d1 = if needs_proof d (control_of v) reachability then "needs_review" else d in
    elim (Bool-cases (is_open d1 && denies patterns fs)) [
      | inl e ↦ rw e (ne_of_test "needs_review" "confirmed" refl)
      | inr e ↦ rw e (claimed-unconfirmed d v reachability)
    ]

differs-false : (v w : Json) (s t : String) → v ≡ str s → w ≡ str t → differs v w ≡ false → v ≡ w
differs-false v w s t hv hw h = ground (arith, eq_iff s t)

pub limit_severity-kept :
    (control : Json) (d : String) (v : Json) (rules : List String)
    → differs (limit_severity control d v rules).0 v ≡ false
    → (limit_severity control d v rules).0 ≡ v
unfolding limit_severity
limit_severity-kept control d (str s) rules h = differs-false _ (str s) _ s refl refl h
limit_severity-kept control d null rules h = refl
limit_severity-kept control d (bool _) rules h = refl
limit_severity-kept control d (int _) rules h = refl
limit_severity-kept control d (float _ _) rules h = refl
limit_severity-kept control d (arr _) rules h = refl
limit_severity-kept control d (obj _) rules h = refl

module _ (fs : Fields) (original d : String) (severity limited : Json) (rules : List String) where
  pub write_back-disposition :
      get_null "disposition" fs ≡ str original
      → get_null "disposition" (write_back fs original d severity limited rules).0 ≡ str d
  unfolding write_back
  write_back-disposition h =
      rw (get_null-put_if, get_null-put_if, get_null-put_if) (ground (arith, eq_iff d original, h))

  pub write_back-severity :
      get_null "severity" fs ≡ severity
      → (differs limited severity ≡ false → limited ≡ severity)
      → get_null "severity" (write_back fs original d severity limited rules).0 ≡ limited
  unfolding write_back
  write_back-severity h k =
      rw (get_null-put_if, get_null-put_if, get_null-put_if) (ground (arith, h, k))

  -- Only three entries are written.
  pub write_back-other :
      (j : String)
      → j ≢ "disposition"
      → j ≢ "severity"
      → j ≢ "calibration"
      → get_null j (write_back fs original d severity limited rules).0 ≡ get_null j fs
  unfolding write_back
  write_back-other j h k l =
      rw (get_null-put_if, get_null-put_if, get_null-put_if)
        (ground (arith, eq_iff "disposition" j, eq_iff "severity" j, eq_iff "calibration" j))
