-- ===== src/Examples/Conclusions.antt =====
-- The theorems on calibration and verdict.
use nguyen_dinh_b.Prelude.{◌≡◌, refl, true, some, [], mem_str, has_infix, is_blank}
use nguyen_dinh_b.Json.{
  bool, str, arr, obj, nil, cons, Fields, end, field, get, get_or, get_null, truthy,
}
use nguyen_dinh_b.Python.{ok}
use nguyen_dinh_b.Calibration.{Calibration, calibrate_record}
use nguyen_dinh_b.Calibration.Record.{IsCapped, calibrate_record-IsCapped, calibrate_record-kept}
use nguyen_dinh_b.Verdict.{ProbeVerdict, decide_verdict, contains, body_of}
use nguyen_dinh_b.Verdict.Grounds.{IsJust, decide_verdict-IsJust}
use nguyen_dinh_b.Examples.{plain_text}

abbrev claimed_record : Fields
claimed_record = field "disposition" (str "confirmed") (
    field "severity" (str "critical")
      (field "attacker_control" (str "proven") (field "title" (str "t") end)))

calibrate_record-IsCapped_example :
    (out : Fields) × (c : Calibration) × (calibrate_record []
        (obj claimed_record)
        (some "not_proven")
      ≡ ok (obj out, c))
    × IsCapped "critical" out
unfolding get get_or mem_str
calibrate_record-IsCapped_example =
    calibrate_record-IsCapped [] claimed_record (some "not_proven") "confirmed" "critical" refl refl
      refl

calibrate_record-kept_example :
    (out : Fields) × (c : Calibration) × (calibrate_record []
        (obj claimed_record)
        (some "not_proven")
      ≡ ok (obj out, c))
    × (get_null "title" out ≡ get_null "title" claimed_record)
unfolding get get_or mem_str
calibrate_record-kept_example =
    calibrate_record-kept [] claimed_record (some "not_proven") "confirmed" "title" refl refl refl

abbrev finding : Fields
finding = field "analysis_id" (str "a1") (field "explanation" (str "see /login") end)

abbrev plan : Fields
plan = field "source_analysis_id" (str "a1") (
    field "probe" (obj (field "path" (str "/login") end))
      (field "objective" (obj (field "expected_signal" (str "500") end)) end))

abbrev outcome : Fields
outcome = field "sent" (bool true) (field "body_preview" (str "error 500") end)

abbrev the_verdict : ProbeVerdict
the_verdict = record {
  verdict = "supports";
  reason = "Response chứa dấu hiệu đã khai trước: `500`.";
  evidence_kind = "declared_signal";
  analysis_id = str "a1";
  source_finding_ids = [];
  probed_path = str "/login";
}

decide_verdict-IsJust_example :
    IsJust (obj plan) (obj outcome) (arr (cons (obj finding) nil)) the_verdict
unfolding decide_verdict truthy get_or get nguyen_dinh_b.Verdict.judge_sent
    nguyen_dinh_b.Verdict.judge_record nguyen_dinh_b.Verdict.linked_record
    nguyen_dinh_b.Verdict.find_record nguyen_dinh_b.Verdict.judge_path has_infix
    nguyen_dinh_b.Verdict.evidence_text nguyen_dinh_b.Verdict.evidence_parts
    nguyen_dinh_b.Verdict.location_parts nguyen_dinh_b.Verdict.judge_signal is_blank
    nguyen_dinh_b.Verdict.id_texts
decide_verdict-IsJust_example =
    decide_verdict-IsJust (obj plan) (obj outcome) (arr (cons (obj finding) nil)) the_verdict refl
