-- ===== src/Calibration/Record.antt =====
-- What `calibrate_record` guarantees of a record with a valid disposition.
use nguyen_dinh_b.Prelude.{
  String, ◌≡◌, refl, sym, ap, ◌∙◌, ◌≢◌, ◌⊎◌, inl, inr, Bool, true, false, Option, List, [], ◌∷◌,
  arith, ◌==◌, eq_iff, if◌then◌else◌, Bool-cases, mem_str, ne_of_test,
}
use mathlib.Core.Path.{subst}
use nguyen_dinh_b.Python.{ok}
use nguyen_dinh_b.Json.{is_str, Json, null, str, obj, Fields, get_null, remove, get_or-remove}
use nguyen_dinh_b.Calibration.{
  rank, ceiling, Calibration, dispositions, calibrate_fields, calibrate_record, is_measured,
  measured_value, limit_text, limit_severity, put_if, control_of, conclude,
}
use nguyen_dinh_b.Calibration.Ceiling.{
  AtMost, control_unproven, IsLimited, limit_text-IsLimited, get_null-put_if,
  final_disposition-unconfirmed, limit_severity-kept, write_back-disposition, write_back-severity,
  write_back-other,
}

-- The keys that the rules may write.
abbrev pub touched : List String
touched = "calibration" ∷ "reachability" ∷ "attacker_control" ∷ "disposition" ∷ "severity" ∷ []

-- What the record `out` is that the rules make of `given`.
record IsCalibrated (given out : Fields) : Type 0 where
  disposition : String
  says : get_null "disposition" out ≡ str disposition
  unconfirmed : disposition ≢ "confirmed"
  control : get_null "attacker_control" out ≡ control_of (get_null "attacker_control" given)
  severity :
      (s : String)
      → get_null "severity" given ≡ str s
      → (left : String) × (get_null "severity" out ≡ str left)
        × IsLimited disposition (control_of (get_null "attacker_control" given)) s left
  kept : (j : String) → mem_str j touched ≡ false → get_null j out ≡ get_null j given

-- a value under another key
get_null-put_if-other :
    (j k : String) (b : Bool) (v : Json) (fs : Fields)
    → (k == j) ≡ false
    → get_null j (put_if b k v fs) ≡ get_null j fs
get_null-put_if-other j k b v fs h = rw (get_null-put_if, h) (ground arith)

control_of-put_if :
    (fs : Fields)
    → get_null "attacker_control" (
        put_if
          (is_str "proven" (get_null "attacker_control" fs))
          "attacker_control"
          (str "not_proven")
          fs)
      ≡ control_of (get_null "attacker_control" fs)
control_of-put_if fs = rw get_null-put_if (ground arith)

limit_severity-IsLimited :
    (control : Json) (d s : String) (v : Json) (rules : List String)
    → v ≡ str s
    → (left : String) × ((limit_severity control d v rules).0 ≡ str left)
      × IsLimited d control s left
unfolding limit_severity
limit_severity-IsLimited control d s v rules e = rw e (
  (limit_text (is_str "not_proven" control) d s rules).0,
  refl,
  limit_text-IsLimited control d s rules,
)

not_touched :
    (j : String)
    → mem_str j touched ≡ false
    → (("calibration" == j) ≡ false)
      × (("reachability" == j) ≡ false)
      × (("attacker_control" == j) ≡ false)
      × (("disposition" == j) ≡ false)
      × (("severity" == j) ≡ false)
unfolding mem_str
not_touched j h = ground arith

conclude-IsCalibrated :
    (patterns : List (String → Bool)) (fs : Fields) (d : String) (reachability : Json)
    (rules : List String)
    → get_null "disposition" fs ≡ str d
    → IsCalibrated fs (conclude patterns fs d reachability rules).0
unfolding conclude
conclude-IsCalibrated patterns fs d reachability rules h = record {
  disposition = _;
  says = write_back-disposition _ d _ _ _ _ (get_null-put_if-other "disposition" _ _ _ fs refl ∙ h);
  unconfirmed =
      final_disposition-unconfirmed patterns _ d (get_null "attacker_control" fs) reachability;
  control =
      write_back-other _ d _ _ _ _ "attacker_control" (ne_of_test _ _ refl) (ne_of_test _ _ refl)
        (ne_of_test _ _ refl)
      ∙ control_of-put_if fs;
  severity = λ s e.
      let (left, l, limited) = limit_severity-IsLimited _ _ s (get_null "severity" fs) _ e in
      (
        left,
        write_back-severity _ d _ _ _ _ (get_null-put_if-other "severity" _ _ _ fs refl)
              (limit_severity-kept _ _ _ _)
            ∙ l,
        limited,
      );
  kept = λ j k.
      let (c, r, a, x, y) = not_touched j k in
      write_back-other _ d _ _ _ _ j (λ e. ne_of_test _ _ x (sym e)) (λ e. ne_of_test _ _ y (sym e))
        (λ e. ne_of_test _ _ c (sym e))
      ∙ get_null-put_if-other j _ _ _ fs a;
}

-- the record before the rules run: without a `calibration`, and with the measured reachability
unfoldable prepared : Fields → Option String → Fields
prepared given measured =
    let fs = remove "calibration" given in
    put_if (is_measured measured fs) "reachability" (measured_value measured) fs

get_null-prepared :
    (given : Fields) (measured : Option String) (j : String)
    → ("calibration" == j) ≡ false
    → ("reachability" == j) ≡ false
    → get_null j (prepared given measured) ≡ get_null j given
unfolding prepared
get_null-prepared given measured j c r =
    get_null-put_if-other j "reachability" _ _ _ r
    ∙ get_or-remove "calibration" j null given
    ∙ ap (λ (b : Bool). if b then null else get_null j given) c

prepared-IsCalibrated :
    (given : Fields) (measured : Option String) (out : Fields)
    → IsCalibrated (prepared given measured) out
    → IsCalibrated given out
prepared-IsCalibrated given measured out h =
    let control = get_null-prepared given measured "attacker_control" refl refl in
    let severity = get_null-prepared given measured "severity" refl refl in
    record {
      disposition = h.disposition;
      says = h.says;
      unconfirmed = h.unconfirmed;
      control = h.control ∙ ap control_of control;
      severity = λ s e.
          let (left, l, limited) = h.severity s (severity ∙ e) in
          (left, l, subst (λ v. IsLimited h.disposition (control_of v) s left) control limited);
      kept = λ j k.
          let (c, r, _, _, _) = not_touched j k in
          h.kept j k ∙ get_null-prepared given measured j c r;
    }

calibrate_fields-valid :
    (patterns : List (String → Bool)) (fs : Fields) (d : String) (v reachability : Json)
    (rules : List String)
    → v ≡ str d
    → mem_str d dispositions ≡ true
    → calibrate_fields patterns fs v reachability rules
      ≡ ok (
        obj (conclude patterns fs d reachability rules).0,
        (conclude patterns fs d reachability rules).1,
      )
unfolding calibrate_fields
calibrate_fields-valid patterns fs d v reachability rules e valid = rw (e, valid) refl

calibrate_record-IsCalibrated :
    (patterns : List (String → Bool)) (given : Fields) (measured : Option String) (d : String)
    → get_null "disposition" given ≡ str d
    → mem_str d dispositions ≡ true
    → (out : Fields) × (c : Calibration) × (calibrate_record patterns (obj given) measured
        ≡ ok (obj out, c))
      × IsCalibrated given out
unfolding calibrate_record prepared
calibrate_record-IsCalibrated patterns given measured d h valid =
    let kept : get_null "disposition" (remove "calibration" given) ≡ str d =
      get_or-remove "calibration" "disposition" null given ∙ h in
    (
      _,
      _,
      calibrate_fields-valid patterns _ d _ _ _ kept valid,
      prepared-IsCalibrated given measured _ (
          conclude-IsCalibrated patterns _ d _ _
            (get_null-prepared given measured "disposition" refl refl ∙ h)),
    )

is_str-eq : (t : String) (v : Json) → is_str t v ≡ true → v ≡ str t
is_str-eq t (str s) h = ap str ((eq_iff s t).0 h)
is_str-eq t _ h = absurd (cc h)

-- What the record `out` is that the rules make of one with the severity `given`.
pub record IsCapped (given : String) (out : Fields) : Type 0 where
  pub disposition : String
  pub says : get_null "disposition" out ≡ str disposition
  pub unconfirmed : disposition ≢ "confirmed"
  pub not_claimed : is_str "proven" (get_null "attacker_control" out) ≡ false
  pub severity : String
  pub left : get_null "severity" out ≡ str severity
  pub never_raised : AtMost (rank severity) (rank given)
  pub below_ceiling : AtMost (rank severity) (rank (ceiling disposition))
  pub below_medium :
      (is_str "not_proven" (get_null "attacker_control" out) ≡ false)
      ⊎ AtMost (rank severity) (rank "medium")

-- A record with one of the four dispositions and a severity is calibrated without an exception. It
-- does not come out "confirmed" and claims no proven attacker control; its severity is not raised,
-- is at most the ceiling of the disposition that it comes out with and, where attacker control comes
-- out "not_proven", at most medium.
pub calibrate_record-IsCapped :
    (patterns : List (String → Bool)) (given : Fields) (measured : Option String) (d s : String)
    → get_null "disposition" given ≡ str d
    → mem_str d dispositions ≡ true
    → get_null "severity" given ≡ str s
    → (out : Fields) × (c : Calibration) × (calibrate_record patterns (obj given) measured
        ≡ ok (obj out, c))
      × IsCapped s out
calibrate_record-IsCapped patterns given measured d s h valid e =
    let (out, c, returned, done) =
      calibrate_record-IsCalibrated patterns given measured d h valid in
    let (left, l, limited) = done.severity s e in
    (
      out,
      c,
      returned,
      record {
        disposition = done.disposition;
        says = done.says;
        unconfirmed = done.unconfirmed;
        not_claimed = rw done.control (control_unproven (get_null "attacker_control" given));
        severity = left;
        left = l;
        never_raised = limited.never_raised;
        below_ceiling = limited.below_ceiling;
        below_medium = elim (Bool-cases (is_str "not_proven" (get_null "attacker_control" out))) [
          | inr k ↦ inl k
          | inl k ↦ inr (limited.below_medium (sym done.control ∙ is_str-eq "not_proven" _ k))
        ];
      },
    )

-- An entry other than the five that the rules write comes out as it was, if the disposition is one of
-- the four.
pub calibrate_record-kept :
    (patterns : List (String → Bool)) (given : Fields) (measured : Option String) (d j : String)
    → get_null "disposition" given ≡ str d
    → mem_str d dispositions ≡ true
    → mem_str j touched ≡ false
    → (out : Fields) × (c : Calibration) × (calibrate_record patterns (obj given) measured
        ≡ ok (obj out, c))
      × (get_null j out ≡ get_null j given)
calibrate_record-kept patterns given measured d j h valid other =
    let (out, c, returned, done) =
      calibrate_record-IsCalibrated patterns given measured d h valid in
    (out, c, returned, done.kept j other)
