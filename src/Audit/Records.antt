-- ===== src/Audit/Records.antt =====
-- What can stand in an audit line.
use nguyen_dinh_b.Prelude.{
  ℕ, ◌+◌, ◌-◌, ◌≤◌, String, ◌≡◌, refl, ap, inl, inr, true, false, not, List, [], ◌∷◌, arith, ◌==◌,
  ltb, leb, leb→le, Bool-cases, All, any, mem_str,
}
use Prim.Native.Char.{len_utf8}
use Prim.Native.String
use Prim.Native.String.{len}
use nguyen_dinh_b.Json.{
  Json, null, bool, int, float, str, arr, obj, Fields, end, field, get_null, put, get_or-put,
}
use nguyen_dinh_b.Python.{ok, Returns, Returns-ok, Returns-then, Returns-raise_if}
use nguyen_dinh_b.Redaction.{Pattern, redact_structure, walk, walk_fields}
use nguyen_dinh_b.Audit.{audit_fields, max_preview, take_utf8, keys, bound_preview, log_request}

pub len-take_utf8 : (n : ℕ) (s : String) → len (take_utf8 n s) ≤ n
unfolding take_utf8
len-take_utf8 n String.[] = omega arith
len-take_utf8 n (String.◌∷◌ c s) = elim (Bool-cases (leb (len_utf8 c) n)) [
  | inl fits ↦
      let le = leb→le (len_utf8 c) n fits in
      let room : len_utf8 c + len (take_utf8 (n - len_utf8 c) s) ≤ n =
        omega (arith, le, len-take_utf8 (n - len_utf8 c) s) in
      rw fits (rw (String.len.cons c) room)
  | inr full ↦ rw full (omega arith)
]

-- The preview of a line is a text of at most 512 bytes, if it is a text.
abbrev IsBounded : Json → Type 0
IsBounded (str s) = len s ≤ max_preview
IsBounded _ = Unit

-- A line has reviewed fields only, and a bounded preview.
pub record IsReviewedLine (line : Fields) : Type 0 where
  pub reviewed : All (λ k. mem_str k audit_fields ≡ true) (keys line)
  pub bounded : IsBounded (get_null "response_preview" line)

keys-walk_fields :
    (patterns : List Pattern) (fs : Fields) → keys (walk_fields patterns fs).0 ≡ keys fs
unfolding keys walk_fields
keys-walk_fields patterns end = refl
keys-walk_fields patterns (field k v fs) = ap (λ ks. k ∷ ks) (keys-walk_fields patterns fs)

keys-put :
    (k : String) (v : Json) (fs : Fields)
    → All (λ j. mem_str j audit_fields ≡ true) (keys fs)
    → mem_str k audit_fields ≡ true
    → All (λ j. mem_str j audit_fields ≡ true) (keys (put k v fs))
unfolding keys put
keys-put k v end _ h = (h, tt)
keys-put k v (field j w fs) (p, q) h = elim (Bool-cases (j == k)) [
  | inl e ↦ rw e (p, q)
  | inr e ↦ rw e (p, keys-put k v fs q h)
]

none_unreviewed :
    (ks : List String)
    → any (λ k. not (mem_str k audit_fields)) ks ≡ false
    → All (λ k. mem_str k audit_fields ≡ true) ks
none_unreviewed [] h = tt
none_unreviewed (k ∷ ks) h = ground (arith, none_unreviewed ks)

bound_preview_lem :
    (v : Json) (fs : Fields)
    → get_null "response_preview" fs ≡ v
    → All (λ k. mem_str k audit_fields ≡ true) (keys fs)
    → IsReviewedLine (bound_preview v fs)
unfolding bound_preview mem_str
bound_preview_lem (str s) fs e h = elim (Bool-cases (ltb max_preview (len s))) [
  | inl over ↦ rw over (record {
    reviewed = keys-put "response_preview" _ fs h refl;
    bounded = rw get_or-put (len-take_utf8 max_preview s);
  })
  | inr fine ↦ rw fine (record { reviewed = h; bounded = rw e (ground arith) })
]
bound_preview_lem null fs e h = record { reviewed = h; bounded = rw e tt }
bound_preview_lem (bool _) fs e h = record { reviewed = h; bounded = rw e tt }
bound_preview_lem (int _) fs e h = record { reviewed = h; bounded = rw e tt }
bound_preview_lem (float _ _) fs e h = record { reviewed = h; bounded = rw e tt }
bound_preview_lem (arr _) fs e h = record { reviewed = h; bounded = rw e tt }
bound_preview_lem (obj _) fs e h = record { reviewed = h; bounded = rw e tt }

log_request-Returns :
    (patterns : List Pattern) (fields : Fields)
    → Returns IsReviewedLine (log_request patterns fields)
unfolding log_request redact_structure walk
log_request-Returns patterns fields = Returns-raise_if _ _ _ λ known.
    let reviewed : All (λ k. mem_str k audit_fields ≡ true) (keys (walk_fields patterns fields).0) =
      rw keys-walk_fields (none_unreviewed (keys fields) known) in
    Returns-then _ _ (Returns-ok (bound_preview_lem _ _ refl reviewed))

-- A line that `log_request` writes has reviewed fields only, and its preview, masked, is still at
-- most 512 bytes of UTF-8.
pub log_request-IsReviewedLine :
    (patterns : List Pattern) (fields line : Fields)
    → log_request patterns fields ≡ ok line
    → IsReviewedLine line
log_request-IsReviewedLine patterns fields line h = (log_request-Returns patterns fields).at line h
