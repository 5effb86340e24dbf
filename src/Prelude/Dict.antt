-- ===== src/Prelude/Dict.antt =====
-- A Python `dict` with text keys, as a list of entries in insertion order.
use Prim.Native.String.{String}
use mathlib.Core.Path.{◌≡◌, refl}
use mathlib.Core.Bool.{Bool}
use mathlib.Core.Option.{Option, none, some}
use mathlib.Core.List.{List, [], ◌∷◌}
use native.Mathlib.Omega.{arith}
use text.Mathlib.Text.{◌==◌}
use text.Mathlib.TextEquality.{eq_iff}
use nguyen_dinh_b.Prelude.Tests.{if◌then◌else◌, is_some}

module _ {V : Type 0} where
  -- `d.get(k)`
  unfoldable pub lookup : (key : String) → List (String × V) → Option V
  lookup key [] = none
  lookup key ((other, v) ∷ entries) = if other == key then some v else lookup key entries

  -- `d[k] = v`
  unfoldable pub insert : (key : String) → V → List (String × V) → List (String × V)
  insert key v [] = (key, v) ∷ []
  insert key v ((other, w) ∷ entries) =
      if other == key then (other, v) ∷ entries else (other, w) ∷ insert key v entries

  -- `k in d`
  abbrev pub has_key : String → List (String × V) → Bool
  has_key key entries = is_some (lookup key entries)

  pub lookup-insert :
      (key asked : String) (v : V) (entries : List (String × V))
      → lookup asked (insert key v entries)
        ≡ (if key == asked then some v else lookup asked entries)
  unfolding lookup insert
  lookup-insert key asked v [] = refl
  lookup-insert key asked v ((other, w) ∷ entries) = ground (
    arith,
    eq_iff key asked,
    eq_iff other key,
    eq_iff other asked,
    lookup-insert key asked v entries,
  )
