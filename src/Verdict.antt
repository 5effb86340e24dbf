-- ===== src/Verdict.antt =====
-- orchestrator/verdict.py: what a request that was sent says of the finding that it is to verify.
pub mod Grounds
use nguyen_dinh_b.Prelude.{
  ℕ, zero, suc, ◌+◌, ◌-◌, ◌*◌, ◌≤◌, ◌<◌, min, max, String, ◌≡◌, refl, sym, ap, ◌∙◌, ◌≢◌, ◌↔◌, ◌⊎◌,
  inl, inr, Bool, true, false, not, ◌&&◌, ◌||◌, false≢true, Option, none, some, List, [], ◌∷◌, ◌++◌,
  map, arith, ◌==◌, eq_iff, eq_refl, ltb, leb, eqb, if◌then◌else◌, leb→le, ltb→lt, Bool-cases,
  Option-cases, is_some, length, length-append, is_empty, All, Any, All-append, All-map, Any-map,
  Any-All, any, all, any-false, keep, find_first, find_first-some, find_first-none, codes, mem_str,
  mem_str-Any, Any-mem_str, has_code, has_prefix, ne_of_test, has_infix, is_blank, split_space,
  strip, concat, repeat,
}
use nguyen_dinh_b.Json.{
  is_str, Json, null, bool, int, float, str, arr, obj, Items, nil, cons, Fields, end, field,
  get_null, truthy,
}
use nguyen_dinh_b.Python.{Result, ok, err, type_error, PyText}

pub record ProbeVerdict : Type 0 where
  pub verdict : String
  pub reason : String
  pub evidence_kind : String
  pub analysis_id : Json
  pub source_finding_ids : List String
  pub probed_path : Json

-- `"\n".join(parts)`
abbrev pub join_lines : List String → String
join_lines [] = ""
join_lines (s ∷ []) = s
join_lines (s ∷ t ∷ ts) = concat (s ∷ "\n" ∷ join_lines (t ∷ ts) ∷ [])

-- the value as a part of the evidence, if it is a text
abbrev pub text_part : Json → List String
text_part (str s) = s ∷ []
text_part _ = []

-- the loop over `record["evidence"]`
unfoldable pub evidence_parts : Items → List String
evidence_parts nil = []
evidence_parts (cons (obj item) vs) =
    text_part (get_null "content" item) ++ text_part (get_null "path" item) ++ evidence_parts vs
evidence_parts (cons _ vs) = evidence_parts vs

-- the loop over `record["locations"]`
unfoldable pub location_parts : Items → List String
location_parts nil = []
location_parts (cons (obj location) vs) = text_part (get_null "file" location) ++ location_parts vs
location_parts (cons _ vs) = location_parts vs

-- the items, if the value is a list
abbrev pub list_of : Json → Items
list_of (arr vs) = vs
list_of _ = nil

-- `_evidence_text`
unfoldable pub evidence_text : Fields → String
evidence_text r = join_lines (
    evidence_parts (list_of (get_null "evidence" r))
    ++ text_part (get_null "explanation" r)
    ++ text_part (get_null "title" r)
    ++ location_parts (list_of (get_null "locations" r)))

-- the loop of `_finding_ids`
unfoldable pub id_texts : Items → List String
id_texts nil = []
id_texts (cons (str s) vs) = let rest = id_texts vs in if s == "" then rest else s ∷ rest
id_texts (cons _ vs) = id_texts vs

-- `_finding_ids`
abbrev pub finding_ids : Fields → List String
finding_ids r = id_texts (list_of (get_null "source_finding_ids" r))

-- `probe_spec.get("path") if isinstance(probe_spec, dict) else None`
abbrev pub path_of : Json → Json
path_of (obj spec) = get_null "path" spec
path_of _ = null

-- `objective.get("expected_signal") if isinstance(objective, dict) else None`
abbrev pub signal_of : Json → Json
signal_of (obj objective) = get_null "expected_signal" objective
signal_of _ = null

-- `body if isinstance(body, str) else ""`
abbrev pub body_of : Json → String
body_of (str s) = s
body_of _ = ""

-- `part in text`
abbrev pub contains : String → String → Bool
contains part text = has_infix (codes part) (codes text)

-- `_inconclusive` without a finding
abbrev pub inconclusive : (reason kind : String) → (path : Json) → ProbeVerdict
inconclusive reason kind path = record {
  verdict = "inconclusive";
  reason = reason;
  evidence_kind = kind;
  analysis_id = null;
  source_finding_ids = [];
  probed_path = path;
}

-- a verdict on the finding `r`
abbrev pub about :
    (verdict reason kind : String) → (id : Json) → Fields → (path : Json) → ProbeVerdict
about verdict reason kind id r path = record {
  verdict = verdict;
  reason = reason;
  evidence_kind = kind;
  analysis_id = id;
  source_finding_ids = finding_ids r;
  probed_path = path;
}

module _ ⦃py : PyText⦄ where
  -- the loop of `_linked_record`
  unfoldable pub find_record : Json → Items → Option Fields
  find_record id nil = none
  find_record id (cons (obj entry) vs) =
      let rest = find_record id vs in
      if py.equal (get_null "analysis_id" entry) id then some entry else rest
  find_record id (cons _ vs) = find_record id vs

  -- `_linked_record`
  unfoldable pub linked_record : Json → Json → Option Fields
  linked_record (arr vs) id = if truthy id then find_record id vs else none
  linked_record _ id = none

  unfoldable pub judge_signal :
      (signal : Json) → (body : String) → (id : Json) → Fields → (path : Json) → ProbeVerdict
  judge_signal (str signal) body id r path =
      if is_blank (codes signal)
      then about "inconclusive"
          "Đề xuất không khai trước dấu hiệu cần quan sát, nên response quan sát được không đủ để kết luận theo hướng nào."
          "no_declared_signal" id r path
      else if contains signal body
      then about "supports"
          (concat ("Response chứa dấu hiệu đã khai trước: `" ∷ signal ∷ "`." ∷ []))
          "declared_signal" id r path
      else about "refutes"
          (concat (
            "Dấu hiệu đã khai trước `" ∷ signal ∷ "` không xuất hiện trong response quan sát được."
            ∷ []))
          "declared_signal" id r path
  judge_signal _ body id r path =
      about "inconclusive"
        "Đề xuất không khai trước dấu hiệu cần quan sát, nên response quan sát được không đủ để kết luận theo hướng nào."
        "no_declared_signal" id r path

  -- the request is for an endpoint that the finding does not name
  abbrev pub unrelated : (id : Json) → Fields → (path : Json) → ProbeVerdict
  unrelated id r path =
      about "inconclusive"
        (concat (
          "Endpoint `"
          ∷ py.to_str path
          ∷ "` không nằm trong bằng chứng của finding `"
          ∷ py.to_str id
          ∷ "`, nên mã trạng thái trả về không nói gì về lỗ hổng đó."
          ∷ []))
        "unrelated_endpoint" id r path

  -- from the test of the path on; only a text can be looked for in a text
  unfoldable pub judge_path :
      (path signal : Json) → (body : String) → (id : Json) → Fields → Result ProbeVerdict
  judge_path (str p) signal body id r =
      if p == "" || not (contains p (evidence_text r))
      then ok (unrelated id r (str p))
      else ok (judge_signal signal body id r (str p))
  judge_path path signal body id r =
      if truthy path then err type_error else ok (unrelated id r path)

  -- the test on the record
  unfoldable pub judge_record :
      Option Fields → (path signal : Json) → (body : String) → (id : Json) → Result ProbeVerdict
  judge_record none path signal body id = ok (
      inconclusive "Đề xuất không trỏ tới một finding có thật trong analysis.jsonl." "not_linked"
        path)
  judge_record (some r) path signal body id = judge_path path signal body id r

  -- `operator_override` or the id that stands for it
  abbrev pub is_override : Fields → Bool
  is_override proposal =
      truthy (get_null "operator_override" proposal)
      || is_str "operator-override" (get_null "source_analysis_id" proposal)

  unfoldable pub judge_sent : Fields → Fields → Json → Result ProbeVerdict
  judge_sent proposal probe analyses =
      let path = path_of (get_null "probe" proposal) in
      let id = get_null "source_analysis_id" proposal in
      if is_override proposal
      then ok (
          inconclusive
            "Request do người vận hành chỉ định, không gắn với finding nào, nên không khẳng định hay bác bỏ được lỗ hổng nào."
            "not_linked" path)
      else judge_record (linked_record analyses id) path (signal_of (get_null "objective" proposal))
          (body_of (get_null "body_preview" probe)) id

  -- `probe.get("denied_reason") or …`
  abbrev pub denial_text : Json → String
  denial_text reason = if truthy reason then py.to_str reason else "không có request nào được gửi"

  unfoldable pub decide_verdict : (proposal probe analyses : Json) → Result ProbeVerdict
  decide_verdict (obj proposal) (obj probe) analyses =
      if not (truthy (get_null "sent" probe))
      then ok (
          inconclusive
            (concat (
              "Không có bằng chứng từ ứng dụng: "
              ∷ denial_text (get_null "denied_reason" probe)
              ∷ "."
              ∷ []))
            "none" null)
      else judge_sent proposal probe analyses
  decide_verdict _ _ analyses =
      ok (inconclusive "Không đọc được proposal hoặc probe-result của lần chạy này." "none" null)
