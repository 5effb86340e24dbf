-- ===== src/Json.antt =====
-- The Python values that `json.loads` returns, and what the program asks of them: `isinstance`
-- tests, truth, `dict.get` and the other operations of `dict`. The code that reads an artifact of a
-- run (`state.json`, `proposal.json`, `decision.json`, the allowlist, a record of
-- `analysis.jsonl`) works on such values.
use nguyen_dinh_b.Prelude.{
  ℕ, String, ◌≡◌, refl, ◌≢◌, Bool, true, false, not, Option, none, some, List, [], ◌∷◌, arith, ◌==◌,
  eq_iff, if◌then◌else◌,
}
use nguyen_dinh_b.Prelude.Int.{ℤ, is_zero}

-- A `float` is the number m · 10⁻ᵏ, which every finite one is for some m and k.
mutual
  pub data Json : Type 0 where
    null : Json
    bool : Bool → Json
    int : ℤ → Json
    float : ℤ → ℕ → Json
    str : String → Json
    arr : Items → Json
    obj : Fields → Json

  pub data Items : Type 0 where
    nil : Items
    cons : Json → Items → Items

  -- A `dict`, in insertion order. Where a key stands twice the first entry is the one read.
  pub data Fields : Type 0 where
    end : Fields
    field : String → Json → Fields → Fields

abbrev pub items : Items → List Json
items nil = []
items (cons v vs) = v ∷ items vs

-- `bool(value)`
unfoldable pub truthy : Json → Bool
truthy null = false
truthy (bool b) = b
truthy (int n) = not (is_zero n)
truthy (float m k) = not (is_zero m)
truthy (str s) = not (s == "")
truthy (arr nil) = false
truthy (arr (cons v vs)) = true
truthy (obj end) = false
truthy (obj (field k v fs)) = true

-- `d.get(k)`, with `none` for a missing key
unfoldable pub get : String → Fields → Option Json
get k end = none
get k (field j v fs) = if j == k then some v else get k fs

-- `d.get(k, default)`
unfoldable pub get_or : String → Json → Fields → Json
get_or k default fs = elim (get k fs) [ none ↦ default | some v ↦ v ]

-- `d.get(k)`, with `None` for a missing key
abbrev pub get_null : String → Fields → Json
get_null k fs = get_or k null fs

pub get_or-some : (k : String) (d v : Json) (fs : Fields) → get k fs ≡ some v → get_or k d fs ≡ v
unfolding get_or
get_or-some k d v fs h = ground arith

pub get-get_null :
    (k : String) (fs : Fields) (v : Json) → v ≢ null → get_null k fs ≡ v → get k fs ≡ some v
unfolding get_or
get-get_null k fs v ne h = ground arith

-- `d[k] = v`
unfoldable pub put : String → Json → Fields → Fields
put k v end = field k v end
put k v (field j w fs) = if j == k then field j v fs else field j w (put k v fs)

-- `d.pop(k, None)`
unfoldable pub remove : String → Fields → Fields
remove k end = end
remove k (field j v fs) = let rest = remove k fs in if j == k then rest else field j v rest

pub get-put :
    (k j : String) (v : Json) (fs : Fields)
    → get j (put k v fs) ≡ (if k == j then some v else get j fs)
unfolding get put
get-put k j v end = refl
get-put k j v (field i w fs) = ground (arith, eq_iff k j, eq_iff i k, eq_iff i j, get-put k j v fs)

pub get-remove :
    (k j : String) (fs : Fields) → get j (remove k fs) ≡ (if k == j then none else get j fs)
unfolding get remove
get-remove k j end = ground arith
get-remove k j (field i w fs) =
    ground (arith, eq_iff k j, eq_iff i k, eq_iff i j, get-remove k j fs)

pub get_or-put :
    (k j : String) (v d : Json) (fs : Fields)
    → get_or j d (put k v fs) ≡ (if k == j then v else get_or j d fs)
unfolding get_or
get_or-put k j v d fs = ground (arith, get-put k j v fs)

pub get_or-remove :
    (k j : String) (d : Json) (fs : Fields)
    → get_or j d (remove k fs) ≡ (if k == j then d else get_or j d fs)
unfolding get_or
get_or-remove k j d fs = ground (arith, get-remove k j fs)

-- The `str` of a value, if it is one.
abbrev pub as_str : Json → Option String
as_str (str s) = some s
as_str _ = none

abbrev pub as_obj : Json → Option Fields
as_obj (obj fs) = some fs
as_obj _ = none

-- `isinstance(value, dict)`
abbrev pub is_obj : Json → Bool
is_obj (obj fs) = true
is_obj _ = false

-- `isinstance(value, str) and value`
abbrev pub is_text : Json → Bool
is_text (str s) = not (s == "")
is_text _ = false

-- `value == text`
abbrev pub is_str : String → Json → Bool
is_str t (str s) = s == t
is_str t _ = false
