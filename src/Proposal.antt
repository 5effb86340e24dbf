-- ===== src/Proposal.antt =====
-- probe/proposal.py: the clamp on what the model proposes to send.
pub mod Accepted
use nguyen_dinh_b.Prelude.{
  ℕ, zero, suc, ◌+◌, ◌-◌, ◌*◌, ◌≤◌, ◌<◌, min, max, String, ◌≡◌, refl, sym, ap, ◌∙◌, ◌≢◌, ◌↔◌, ◌⊎◌,
  inl, inr, Bool, true, false, not, ◌&&◌, ◌||◌, false≢true, Option, none, some, List, [], ◌∷◌, ◌++◌,
  map, arith, ◌==◌, eq_iff, eq_refl, ltb, leb, eqb, if◌then◌else◌, leb→le, ltb→lt, Bool-cases,
  Option-cases, is_some, length, length-append, is_empty, All, Any, All-append, All-map, Any-map,
  Any-All, any, all, any-false, keep, find_first, find_first-some, find_first-none, codes, mem_str,
  mem_str-Any, Any-mem_str, has_code, has_prefix, ne_of_test, has_infix, is_blank, split_space,
  strip, concat, repeat,
}
use nguyen_dinh_b.Json.{Json, null, bool, str, obj, Fields, truthy, get_or, get_null, as_str}
use nguyen_dinh_b.Python.{PyText}
use nguyen_dinh_b.Allowlist.{Allowlist, is_allowed, is_listed, is_reviewed}
use nguyen_dinh_b.Probe.{SafeProbe, is_kind, payload_type}

-- The `reason` of a decision: the sentence, and what is put into it.
pub data Reason : Type 0 where
  no_objective not_object kind_not_text hint_not_text : Reason
  missing_fields : List String → Reason
  unsafe_kind bad_hint bad_method bad_path : String → Reason
  not_listed : (method path : String) → Reason
  not_reviewed : (kind method path : String) → Reason
  approved : (method path : String) → Reason

pub record ProposalDecision : Type 0 where
  pub accepted : Bool
  pub probe : Option SafeProbe
  pub reason : Reason

-- `_reject`
abbrev pub reject : Reason → ProposalDecision
reject reason = record { accepted = false; probe = none; reason = reason }

abbrev pub required_fields : List String
required_fields = "description" ∷ "endpoint_hint" ∷ "payload_kind" ∷ "rationale" ∷ []

-- `method in ALLOWED_METHODS`
abbrev pub is_method : String → Bool
is_method m = m == "GET" || m == "POST"

-- `path.startswith("/")` and no "?" in it
abbrev pub is_path : String → Bool
is_path path = has_prefix (codes "/") (codes path) && not (has_code b'?' (codes path))

module _ ⦃py : PyText⦄ where
  -- from the test of the method on
  unfoldable pub check_route : Allowlist → String → String → String → ProposalDecision
  check_route al kind method path =
      if not (is_method method)
      then reject (bad_method method)
      else if not (is_path path)
      then reject (bad_path path)
      else if not (is_listed al method path)
      then reject (not_listed method path)
      else if not (is_reviewed al method path kind)
      then reject (not_reviewed kind method path)
      else record {
        accepted = true;
        probe = some (record { method = method; path = path; payload_kind = str kind });
        reason = approved method path;
      }

  -- the test on the parts of `endpoint_hint`
  unfoldable pub check_parts : Allowlist → String → String → List String → ProposalDecision
  check_parts al kind hint (method ∷ path ∷ []) = check_route al kind (py.upper method) path
  check_parts al kind hint _ = reject (bad_hint hint)

  -- from the value of `endpoint_hint` on
  unfoldable pub check_hint : Allowlist → String → Json → ProposalDecision
  check_hint al kind (str hint) = check_parts al kind hint (split_space hint)
  check_hint al kind _ = reject hint_not_text

  -- from the value of `payload_kind` on
  unfoldable pub check_kind : Allowlist → Fields → Json → ProposalDecision
  check_kind al fs (str kind) =
      if not (is_kind kind)
      then reject (unsafe_kind kind)
      else check_hint al kind (get_null "endpoint_hint" fs)
  check_kind al fs _ = reject kind_not_text

  unfoldable pub validate_objective : Json → Allowlist → ProposalDecision
  validate_objective null al = reject no_objective
  validate_objective (obj fs) al =
      let missing = keep (λ name. not (truthy (get_null name fs))) required_fields in
      if is_empty missing
      then check_kind al fs (get_null "payload_kind" fs)
      else reject (missing_fields missing)
  validate_objective _ al = reject not_object
