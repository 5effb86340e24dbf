-- ===== src/Approval/Decision.antt =====
-- Which documents are a decision, and what the prompt decides.
use nguyen_dinh_b.Prelude.{String, ◌≡◌, refl, ap, ◌↔◌, Bool, false, some, codes, is_blank}
use nguyen_dinh_b.Json.{
  get_or-some, get-get_null, Json, null, bool, str, obj, Fields, get, get_or, as_str,
}
use nguyen_dinh_b.Python.{
  ok, ◌>>=◌, Returns, Returns-ok, Returns-bind, Returns-raise_if, need-eq-ok, need-eq, bind-eq,
  raise_if-eq,
}
use nguyen_dinh_b.Approval.{
  ApprovalDecision, to_dict, as_bool, need_text, from_dict, value, read_decision,
}

-- The document states the decision `d`: `approved` is the very literal, the two signatures are texts
-- that are not blank, and the fingerprint is a text, "" if it is left out.
pub record States (fs : Fields) (d : ApprovalDecision) : Type 0 where
  pub approved : get "approved" fs ≡ some (bool d.approved)
  pub decided_at : get "decided_at" fs ≡ some (str d.decided_at)
  pub at_some_time : is_blank (codes d.decided_at) ≡ false
  pub decided_by : get "decided_by" fs ≡ some (str d.decided_by)
  pub by_someone : is_blank (codes d.decided_by) ≡ false
  pub fingerprint : get_or "request_fingerprint" (str "") fs ≡ str d.request_fingerprint

as_str-some : (v : Json) (s : String) → as_str v ≡ some s → v ≡ str s
as_str-some (str t) s h = cc
as_str-some _ s h = cc

as_bool-some : (v : Json) (b : Bool) → as_bool v ≡ some b → v ≡ bool b
as_bool-some (bool c) b h = cc
as_bool-some _ b h = cc

need_text-Returns :
    (name : String) (fs : Fields)
    → Returns (λ s. (get name fs ≡ some (str s)) × (is_blank (codes s) ≡ false)) (need_text name fs)
unfolding need_text
need_text-Returns name fs = Returns-bind _ _ λ s found. Returns-raise_if _ _ _ λ filled.
    Returns-ok
      (get-get_null name fs (str s) (λ e. cc) (as_str-some _ s (need-eq-ok _ found)), filled)

from_dict-States : (fs : Fields) → Returns (States fs) (from_dict (obj fs))
unfolding from_dict
from_dict-States fs = Returns-bind _ _ λ approved e₁. Returns-bind _ _ λ decided_at e₂.
    Returns-bind _ _ λ decided_by e₃. Returns-bind _ _ λ fingerprint e₄.
      let (at, at_filled) = (need_text-Returns "decided_at" fs).at decided_at e₂ in
      let (by, by_filled) = (need_text-Returns "decided_by" fs).at decided_by e₃ in
      Returns-ok (record {
        approved =
            get-get_null "approved" fs (bool approved) (λ e. cc)
              (as_bool-some _ approved (need-eq-ok _ e₁));
        decided_at = at;
        at_some_time = at_filled;
        decided_by = by;
        by_someone = by_filled;
        fingerprint = as_str-some _ fingerprint (need-eq-ok _ e₄);
      })

need_text-ok :
    (name : String) (fs : Fields) (s : String)
    → get name fs ≡ some (str s)
    → is_blank (codes s) ≡ false
    → need_text name fs ≡ ok s
unfolding need_text
need_text-ok name fs s h k =
    bind-eq _ s (need-eq (ap as_str (get_or-some name null (str s) fs h))) (raise_if-eq _ k refl)

from_dict-accepts : (fs : Fields) (d : ApprovalDecision) → States fs d → from_dict (obj fs) ≡ ok d
unfolding from_dict
from_dict-accepts fs d h =
    bind-eq _ d.approved
      (need-eq (ap as_bool (get_or-some "approved" null (bool d.approved) fs h.approved)))
      (bind-eq _ d.decided_at
        (need_text-ok "decided_at" fs d.decided_at h.decided_at h.at_some_time)
        (bind-eq _ d.decided_by
          (need_text-ok "decided_by" fs d.decided_by h.decided_by h.by_someone)
          (bind-eq _ d.request_fingerprint (need-eq (ap as_str h.fingerprint)) refl)))

-- A document is read as the decision `d` exactly when it is an object that states `d`. So no number
-- and no text counts as an approval, and a document that is not understood is no refusal either.
pub from_dict_iff :
    (v : Json) (d : ApprovalDecision)
    → (from_dict v ≡ ok d) ↔ ((fs : Fields) × (v ≡ obj fs) × States fs d)
from_dict_iff (obj fs) d = (
  λ h. (fs, refl, (from_dict-States fs).at d h),
  λ h. let (gs, same, states) = h in rw same (from_dict-accepts gs d states),
)
from_dict_iff v d = (
  λ h. absurd (unfold from_dict in cc),
  λ h. let (gs, same, states) = h in rw same (from_dict-accepts gs d states),
)

-- Writing a decision and reading it back gives the same decision, if it says when and by whom.
pub read-to_dict :
    (d : ApprovalDecision)
    → is_blank (codes d.decided_at) ≡ false
    → is_blank (codes d.decided_by) ≡ false
    → read_decision (value (to_dict d)) ≡ ok (some d)
unfolding to_dict read_decision ◌>>=◌ get get_or
read-to_dict d h k =
    rw
      (from_dict-accepts _ d (record {
        approved = refl;
        decided_at = refl;
        at_some_time = h;
        decided_by = refl;
        by_someone = k;
        fingerprint = refl;
      }))
      refl
