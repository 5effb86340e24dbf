-- ===== src/Analysis/Pipeline/Checked.antt =====
-- A response that the checks of the pipeline do not stop.
use nguyen_dinh_b.Prelude.{
  String, ◌≡◌, refl, sym, ap, ◌∙◌, ◌⊎◌, inl, inr, Bool, true, false, not, ◌||◌, false≢true, Option,
  none, some, List, [], ◌∷◌, ◌==◌, eq_iff, if◌then◌else◌, Bool-cases, is_empty, concat,
}
use mathlib.Core.Path.{subst}
use text.Mathlib.TextLemmas.{cons-append}
use nguyen_dinh_b.Json.{Json, null, obj, Fields, get_null, put, get_or-put}
use nguyen_dinh_b.Python.{ok, PyText, bind-cases, ok-injective, Returns, Returns-ok, Returns-bind}
use nguyen_dinh_b.Allowlist.{Allowlist}
use nguyen_dinh_b.Probe.{SafeProbe}
use nguyen_dinh_b.Proposal.{validate_objective}
use nguyen_dinh_b.Proposal.Accepted.{IsCovered, validate_objective-IsCovered}
use nguyen_dinh_b.Calibration.{Calibration, calibrate_record}
use nguyen_dinh_b.Grouping.Build.{FindingGroup}
use nguyen_dinh_b.Analysis.OutputSafety.{agent_authored_fields, scan_unsafe_output}
use nguyen_dinh_b.Analysis.OutputSafety.Clean.{CleanAt, CleanObjective, scan_unsafe_output_iff}
use nguyen_dinh_b.Analysis.Provenance.{Supplied, validate_provenance, as_dict}
use nguyen_dinh_b.Analysis.Provenance.Laws.{as_dict-eq}
use nguyen_dinh_b.Analysis.Provenance.Evidence.{HasPaths}
use nguyen_dinh_b.Analysis.Provenance.Faithful.{
  IsFaithful, validate_provenance-IsFaithful, validate_provenance-verdict,
}
use nguyen_dinh_b.Analysis.Pipeline.{
  GroupAnalysisResult, Environment, ResponseErrors, says, has_any, blocks_the_record, GroupOutcome,
}
use nguyen_dinh_b.Analysis.Pipeline.Group.{
  supplied, refused, objective_error_of, objective_error, validate_response, measured_reachability,
  keep_record, settled_fields, count_objective, settle,
}
use nguyen_dinh_b.Analysis.Pipeline.Retry.{feedback_prompt}

some-eq : {A : Type 0} {a b : A} → some a ≡ some b → a ≡ b
some-eq h = cc

pub obj-injective : {fs gs : Fields} → obj fs ≡ obj gs → fs ≡ gs
obj-injective h = cc

is_empty-eq : {A : Type 0} (xs : List A) → not (is_empty xs) ≡ false → xs ≡ []
is_empty-eq [] h = refl
is_empty-eq (x ∷ xs) h = cc

-- What does not stop a response from being kept.
unblocked_parts :
    (e : ResponseErrors)
    → blocks_the_record e ≡ false
    → (says e.schema ≡ false) × (e.provenance ≡ []) × (e.unsafe ≡ [])
unblocked_parts e h =
    let (a, b, c) = three _ _ _ h in (a, is_empty-eq e.provenance b, is_empty-eq e.unsafe c)
  where
    three : (a b c : Bool) → (a || b || c) ≡ false → (a ≡ false) × (b ≡ false) × (c ≡ false)
    three false false false h = (refl, refl, refl)
    three false false true h = cc
    three false true c h = cc
    three true b c h = cc

pub no_errors :
    (e : ResponseErrors)
    → has_any e ≡ false
    → (blocks_the_record e ≡ false) × (says e.objective ≡ false)
no_errors e h = four (says e.schema) (not (is_empty e.provenance)) (not (is_empty e.unsafe)) _ h
  where
    four : (a b c d : Bool) → (a || b || c || d) ≡ false → ((a || b || c) ≡ false) × (d ≡ false)
    four false false false d h = (refl, h)
    four true b c d h = cc
    four false true c d h = cc
    four false false true d h = cc

is_nil : String → Bool
is_nil String.[] = true
is_nil (String.◌∷◌ c s) = false

nonempty :
    (t : String) → (concat ("verification_objective bị allowlist từ chối: " ∷ t ∷ []) == "") ≡ false
unfolding is_nil
nonempty t =
    elim (Bool-cases (concat ("verification_objective bị allowlist từ chối: " ∷ t ∷ []) == "")) [
      | inr e ↦ e
      | inl e ↦
          let starts = cons-append "v" "erification_objective bị allowlist từ chối: " t in
          absurd (false≢true (ap is_nil (sym starts ∙ (eq_iff _ "").0 e)))
    ]

module _ ⦃py : PyText⦄ where
  -- The record proposes no request, or one that the inventory covers, if there is an inventory.
  abbrev pub IsAllowed : Option Allowlist → Json → Type 0
  IsAllowed none objective = Unit
  IsAllowed (some al) objective =
      (objective ≡ null)
      ⊎ ((probe : SafeProbe) × ((validate_objective objective al).probe ≡ some probe)
          × IsCovered al probe)

  refused-none :
      (env : Environment) (al : Allowlist) (v : Json)
      → refused env (some al) v ≡ none
      → (validate_objective v al).accepted ≡ true
  refused-none env al v h = elim (Bool-cases (validate_objective v al).accepted) [
    | inl e ↦ e
    | inr e ↦ cc (rw e at h)
  ]

  pub objective_error-IsAllowed :
      (env : Environment) (al : Option Allowlist) (v : Json)
      → objective_error_of env v al ≡ none
      → IsAllowed al v
  unfolding objective_error_of
  objective_error-IsAllowed env none v h = tt
  objective_error-IsAllowed env (some al) null h = inl refl
  objective_error-IsAllowed env (some al) v h =
      inr (validate_objective-IsCovered v al (refused-none env al v h))

  pub objective-says :
      (env : Environment) (al : Option Allowlist) (v : Json)
      → says (objective_error_of env v al) ≡ false
      → objective_error_of env v al ≡ none
  unfolding objective_error_of
  objective-says env none null h = refl
  objective-says env none v h = refl
  objective-says env (some al) null h = refl
  objective-says env (some al) v h = elim (Bool-cases (validate_objective v al).accepted) [
    | inl e ↦ rw e refl
    | inr e ↦ cc (rw e at h, nonempty (env.reason_text (validate_objective v al).reason))
  ]

  no_objective : (al : Option Allowlist) (v : Json) → v ≡ null → IsAllowed al v
  no_objective none v h = tt
  no_objective (some al) v h = inl h

  passed :
      (fs : Fields) (s : Supplied) (valid : Bool) (found : List String)
      → HasPaths s.source_evidence
      → validate_provenance fs s ≡ ok (valid, found)
      → (if valid then [] else found) ≡ []
      → IsFaithful fs s
  passed fs s true found texts h e = validate_provenance-IsFaithful fs s found texts h
  passed fs s false found texts h e =
      absurd (cc (validate_provenance-verdict fs s false found h refl, ap is_empty e))

  module _ (env : Environment) (al : Option Allowlist) (group : FindingGroup) where
    -- The answer is that of the first call of the model for the group, or that of the second call, with
    -- the errors of the first one, which blocked its response, in the prompt.
    abbrev pub IsAsked : GroupAnalysisResult → Type 0
    IsAsked analysis =
        (env.analyze group none ≡ ok analysis)
        ⊎ ((first : GroupAnalysisResult) × (errors : ResponseErrors) × (env.analyze group none
              ≡ ok first)
            × (validate_response env first.llm_result.parsed_response group first al ≡ ok errors)
            × (blocks_the_record errors ≡ true)
            × (env.analyze group (some (feedback_prompt env al first errors)) ≡ ok analysis))

    -- Where a record comes from: a response of the model that the checks let through, with its
    -- proposal taken out where that was refused, and calibrated.
    pub record IsVetted (r : Json) : Type 0 where
      pub analysis : GroupAnalysisResult
      pub asked : IsAsked analysis
      pub response : Fields
      pub answered : analysis.llm_result.parsed_response ≡ obj response
      pub schema_valid : says (env.schema_error (obj response)) ≡ false
      pub faithful : IsFaithful response (supplied group analysis)
      pub clean : CleanAt env.unsafe agent_authored_fields response
      pub clean_objective : CleanObjective env.unsafe (get_null "verification_objective" response)
      pub kept : Fields
      pub kept_as : (kept ≡ response) ⊎ (kept ≡ put "verification_objective" null response)
      pub allowed : IsAllowed al (get_null "verification_objective" kept)
      pub measured : Option String
      pub measured_from : measured_reachability env group kept ≡ ok measured
      pub calibration : Calibration
      pub calibrated : calibrate_record env.denials (obj kept) measured ≡ ok (r, calibration)

    -- The outcome has a vetted record or none.
    abbrev pub HasVetted : GroupOutcome → Type 0
    HasVetted o = (r : Json) → o.kept_record ≡ some r → IsVetted r

    -- A response with just the errors that do not block it.
    pub record IsChecked (analysis : GroupAnalysisResult) (errors : ResponseErrors) : Type 0 where
      pub asked : IsAsked analysis
      pub response : Fields
      pub answered : analysis.llm_result.parsed_response ≡ obj response
      pub schema : says (env.schema_error (obj response)) ≡ false
      pub faithful : IsFaithful response (supplied group analysis)
      pub safe : scan_unsafe_output env.unsafe (obj response) ≡ []
      pub objective : errors.objective ≡ objective_error env response al

    -- The evidence in the packets of the group has texts for its paths.
    abbrev pub HasTextPaths : Type 0
    HasTextPaths =
        (prompt : Option String) (a : GroupAnalysisResult)
        → env.analyze group prompt ≡ ok a
        → HasPaths a.source_evidence

    pub validate_response-IsChecked :
        (analysis : GroupAnalysisResult) (errors : ResponseErrors)
        → IsAsked analysis
        → HasPaths analysis.source_evidence
        → validate_response env analysis.llm_result.parsed_response group analysis al ≡ ok errors
        → blocks_the_record errors ≡ false
        → IsChecked analysis errors
    unfolding validate_response
    validate_response-IsChecked analysis errors asked texts h unblocked =
        let value = analysis.llm_result.parsed_response in
        bind-cases (as_dict value) _ h λ fs p h1.
          bind-cases (validate_provenance fs (supplied group analysis)) _ h1 λ (valid, found) q h2.
            let same = ok-injective h2 in
            let is_fs = as_dict-eq value p in
            let e0 : ResponseErrors = record {
              schema = env.schema_error value;
              provenance = if valid then [] else found;
              unsafe = scan_unsafe_output env.unsafe value;
              objective = objective_error env fs al;
            } in
            let (schema, packet, safe) =
              unblocked_parts e0 (subst (λ e. blocks_the_record e ≡ false) (sym same) unblocked) in
            record {
              asked = asked;
              response = fs;
              answered = is_fs;
              schema = subst (λ v. says (env.schema_error v) ≡ false) is_fs schema;
              faithful = passed fs (supplied group analysis) valid found texts q packet;
              safe = subst (λ v. scan_unsafe_output env.unsafe v ≡ []) is_fs safe;
              objective = sym (ap (λ (e : ResponseErrors). e.objective) same);
            }

    pub keep-HasVetted :
        (analysis : GroupAnalysisResult) (errors : ResponseErrors) (kept : Fields)
        (o : GroupOutcome) (c : IsChecked analysis errors)
        → (kept ≡ c.response) ⊎ (kept ≡ put "verification_objective" null c.response)
        → IsAllowed al (get_null "verification_objective" kept)
        → Returns HasVetted (keep_record env group kept o)
    unfolding keep_record
    keep-HasVetted analysis errors kept o c kept_as allowed =
        let (clean, clean_objective) = (scan_unsafe_output_iff env.unsafe c.response).0 c.safe in
        Returns-bind (measured_reachability env group kept) _ λ measured m.
          Returns-bind (calibrate_record env.denials (obj kept) measured) _ λ (r, calibration) e.
            Returns-ok λ r' same. record {
              analysis = analysis;
              asked = c.asked;
              response = c.response;
              answered = c.answered;
              schema_valid = c.schema;
              faithful = c.faithful;
              clean = clean;
              clean_objective = clean_objective;
              kept = kept;
              kept_as = kept_as;
              allowed = allowed;
              measured = measured;
              measured_from = m;
              calibration = calibration;
              calibrated = e ∙ ap (λ v. ok (v, calibration)) (some-eq same);
            }

    -- Without an error in the proposal it is kept, and otherwise there is none left.
    settled-IsAllowed :
        (error : Option String) (fs : Fields)
        → error ≡ objective_error env fs al
        → ((settled_fields error fs ≡ fs)
            ⊎ (settled_fields error fs ≡ put "verification_objective" null fs))
          × IsAllowed al (get_null "verification_objective" (settled_fields error fs))
    settled-IsAllowed none fs h =
        (inl refl, objective_error-IsAllowed env al (get_null "verification_objective" fs) (sym h))
    settled-IsAllowed (some text) fs h = (
      inr refl,
      no_objective al _ (get_or-put "verification_objective" "verification_objective" null null fs),
    )

    pub settle-HasVetted :
        (analysis : GroupAnalysisResult) (errors : ResponseErrors) (o : GroupOutcome)
        → (blocks_the_record errors ≡ false → IsChecked analysis errors)
        → o.kept_record ≡ none
        → Returns HasVetted (settle env o analysis.llm_result.parsed_response errors group)
    unfolding settle
    settle-HasVetted analysis errors o checked before =
        elim (Bool-cases (blocks_the_record errors)) [
          | inl b ↦ rw (b, settle) (Returns-ok (λ r h. absurd (cc (h, before))))
          | inr b ↦
              let c = checked b in
              let (kept_as, allowed) = settled-IsAllowed errors.objective c.response c.objective in
              rw (b, settle)
                (Returns-bind (as_dict analysis.llm_result.parsed_response) _ λ fs p.
                  let same : c.response ≡ fs =
                    obj-injective
                      (sym c.answered ∙ as_dict-eq analysis.llm_result.parsed_response p) in
                  subst
                    (λ x. Returns HasVetted (
                      keep_record env group (settled_fields errors.objective x)
                        (count_objective errors.objective x o)))
                    same
                    (keep-HasVetted analysis errors (settled_fields errors.objective c.response)
                      (count_objective errors.objective c.response o) c kept_as allowed))
        ]
