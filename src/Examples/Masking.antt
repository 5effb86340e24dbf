-- ===== src/Examples/Masking.antt =====
-- The theorems on masking, log lines and the scan.
use nguyen_dinh_b.Prelude.{
  ◌≤◌, String, ◌≡◌, refl, ◌↔◌, inl, inr, List, [], ◌∷◌, arith, ◌==◌, eq_iff, Bool-cases, mem_str,
  ne_of_test,
}
use Prim.Native.String.{len}
use nguyen_dinh_b.Json.{str, obj, Fields, end, field, get, get_or}
use nguyen_dinh_b.Python.{Result, ok, err, PyText}
use nguyen_dinh_b.Redaction.{
  Pattern, RedactionEvent, redact, merge_events, redact_structure, walk_fields,
}
use nguyen_dinh_b.Redaction.Events.{
  count_of, events_of, substitutions, merge_events_lem, redact-counts,
}
use nguyen_dinh_b.Redaction.Structure.{AllText, redact_structure-AllText}
use nguyen_dinh_b.Audit.{log_request}
use nguyen_dinh_b.Audit.Records.{IsReviewedLine, log_request-IsReviewedLine}
use nguyen_dinh_b.Injection.{Span, merge_spans, sort_spans}
use nguyen_dinh_b.Injection.Spans.{IsApart, IsInside, merge_spans_lem}
use nguyen_dinh_b.Examples.{decision_fields, mask_all, masked_patterns, plain_text}

abbrev two_events : List RedactionEvent
two_events = record { kind = "token"; count = 1 } ∷ record { kind = "token"; count = 2 } ∷ []

merge_events_lem_example :
    (count_of "token" (merge_events two_events) ≡ count_of "token" two_events)
    × (events_of "token" (merge_events two_events) ≤ 1)
merge_events_lem_example = merge_events_lem "token" two_events

redact-counts_example :
    (count_of "token" (redact (mask_all ∷ []) "secret").1
      ≡ substitutions "token" (mask_all ∷ []) "secret")
    × (events_of "token" (redact (mask_all ∷ []) "secret").1 ≤ 1)
redact-counts_example = redact-counts "token" (mask_all ∷ []) "secret" (ne_of_test "secret" "" refl)

-- what the mask leaves is shorter than eleven bytes
short_after_mask : (s : String) → len (redact masked_patterns s).0 ≤ 10
unfolding redact nguyen_dinh_b.Redaction.run_patterns
short_after_mask s = elim (Bool-cases (s == "")) [
  | inl e ↦ let same : s ≡ "" = (eq_iff s "").0 e in rw (e, same) (omega arith)
  | inr e ↦ rw e (omega arith)
]

redact_structure-AllText_example :
    AllText (λ s. len s ≤ 10) (redact_structure masked_patterns (obj decision_fields)).0
redact_structure-AllText_example =
    redact_structure-AllText masked_patterns (λ s. len s ≤ 10) short_after_mask
      (obj decision_fields)

abbrev row : Fields
row = field "method" (str "GET") (field "response_preview" (str "hello") end)

log_request-IsReviewedLine_example : IsReviewedLine row
unfolding log_request nguyen_dinh_b.Python.◌>>◌ nguyen_dinh_b.Python.raise_if
    nguyen_dinh_b.Audit.keys mem_str nguyen_dinh_b.Audit.check_preview get_or get
    nguyen_dinh_b.Audit.bound_preview redact_structure nguyen_dinh_b.Redaction.walk redact
    nguyen_dinh_b.Redaction.run_patterns
log_request-IsReviewedLine_example = log_request-IsReviewedLine [] row row refl

abbrev spans : List Span
spans = (5, 9) ∷ (0, 3) ∷ (2, 4) ∷ []

merge_spans_lem_example :
    IsApart (merge_spans (sort_spans spans))
    × (IsInside 3 (merge_spans (sort_spans spans)) ↔ IsInside 3 spans)
merge_spans_lem_example = merge_spans_lem 3 spans
