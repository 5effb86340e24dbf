-- ===== src/Prelude/Text.antt =====
-- Texts: membership tests, prefixes, white space, and what the program takes of Python's `str`.
use Prim.Native.Nat.{ℕ, zero, suc}
use Prim.Native.Char.{code}
use Prim.Native.String
use Prim.Native.String.{String}
use mathlib.Core.Path.{◌≡◌, refl, sym, ◌∙◌}
use mathlib.Core.Logic.{◌≢◌}
use mathlib.Core.Bool.{Bool, true, false, false≢true, ◌&&◌, ◌||◌}
use mathlib.Core.List.{List, [], ◌∷◌}
use native.Mathlib.Omega.{arith}
use text.Mathlib.Text.{◌==◌}
use text.Mathlib.TextEquality.{eq_iff}
use nguyen_dinh_b.Prelude.Tests.{leb, eqb, if◌then◌else◌}
use nguyen_dinh_b.Prelude.Lists.{Any}

pub ne_of_test : (s t : String) → (s == t) ≡ false → s ≢ t
ne_of_test s t h e = false≢true (sym h ∙ (eq_iff s t).1 e)

-- The code points of a text.
abbrev pub codes : String → List ℕ
codes String.[] = []
codes (String.◌∷◌ c s) = code c ∷ codes s

-- `x in xs` for a collection of texts
unfoldable pub mem_str : String → List String → Bool
mem_str x [] = false
mem_str x (y ∷ ys) = y == x || mem_str x ys

pub mem_str-Any : (x : String) (xs : List String) → mem_str x xs ≡ true → Any (λ y. y ≡ x) xs
unfolding mem_str
mem_str-Any x [] h = cc
mem_str-Any x (y ∷ ys) h = ground (arith, eq_iff y x, mem_str-Any x ys)

pub Any-mem_str : (x : String) (xs : List String) → Any (λ y. y ≡ x) xs → mem_str x xs ≡ true
unfolding mem_str
Any-mem_str x [] h = absurd h
Any-mem_str x (y ∷ ys) h = ground (arith, eq_iff y x, Any-mem_str x ys)

-- `chr(k) in s`
unfoldable pub has_code : ℕ → List ℕ → Bool
has_code k [] = false
has_code k (c ∷ s) = eqb c k || has_code k s

-- `s.startswith(p)` on code points
unfoldable pub has_prefix : List ℕ → List ℕ → Bool
has_prefix [] s = true
has_prefix (c ∷ p) [] = false
has_prefix (c ∷ p) (d ∷ s) = eqb c d && has_prefix p s

-- `p in s` on code points
unfoldable pub has_infix : List ℕ → List ℕ → Bool
unfolding has_prefix
has_infix p [] = has_prefix p []
has_infix p (c ∷ s) = has_prefix p (c ∷ s) || has_infix p s

-- The characters that `str.strip()` removes: those for which `str.isspace()` holds.
unfoldable pub is_space : ℕ → Bool
is_space c =
    (leb 9 c && leb c 13)
    || (leb 28 c && leb c 32)
    || eqb c 0x85
    || eqb c 0xa0
    || eqb c 0x1680
    || (leb 0x2000 c && leb c 0x200a)
    || eqb c 0x2028
    || eqb c 0x2029
    || eqb c 0x202f
    || eqb c 0x205f
    || eqb c 0x3000

-- `not s.strip()`
unfoldable pub is_blank : List ℕ → Bool
unfolding is_space
is_blank [] = true
is_blank (c ∷ s) = is_space c && is_blank s

abbrev push_head : List String → (String → String) → List String
push_head [] f = []
push_head (s ∷ ss) f = f s ∷ ss

-- `s.split(" ")`
unfoldable pub split_space : String → List String
split_space String.[] = "" ∷ []
split_space (String.◌∷◌ c s) =
    let rest = split_space s in
    if eqb (code c) 32 then "" ∷ rest else push_head rest (λ t. String.◌∷◌ c t)

-- `s.lstrip()`, `s.rstrip()` and `s.strip()`
unfoldable pub lstrip : String → String
lstrip String.[] = ""
lstrip (String.◌∷◌ c s) = let rest = lstrip s in if is_space (code c) then rest else String.◌∷◌ c s

unfoldable pub rstrip : String → String
rstrip String.[] = ""
rstrip (String.◌∷◌ c s) =
    let rest = rstrip s in if is_space (code c) && rest == "" then "" else String.◌∷◌ c rest

unfoldable pub strip : String → String
unfolding lstrip rstrip is_space
strip s = rstrip (lstrip s)

-- The text of an f-string, part by part.
abbrev pub concat : List String → String
concat [] = ""
concat (s ∷ []) = s
concat (s ∷ t ∷ ts) = String.◌++◌ s (concat (t ∷ ts))

-- `s * n`
unfoldable pub repeat : ℕ → String → String
repeat zero s = ""
repeat (suc n) s = let rest = repeat n s in String.◌++◌ s rest

blank_test : (is_blank (codes " \t") ≡ true) × (has_infix (codes "bc") (codes "abcd") ≡ true)
unfolding is_blank has_infix
blank_test = (refl, refl)
