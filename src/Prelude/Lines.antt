-- ===== src/Prelude/Lines.antt =====
-- What the program takes of Python's `str` on lines: `replace` by nothing, `splitlines`, `join`.
use Prim.Native.Nat.{ℕ, zero, suc, ◌-◌}
use Prim.Native.Char.{code}
use Prim.Native.String
use Prim.Native.String.{String}
use mathlib.Core.Path.{◌≡◌, refl}
use mathlib.Core.Bool.{Bool, false, ◌&&◌, ◌||◌}
use mathlib.Core.List.{List, [], ◌∷◌, map}
use nguyen_dinh_b.Prelude.Tests.{leb, eqb, if◌then◌else◌}
use nguyen_dinh_b.Prelude.Lists.{length}
use nguyen_dinh_b.Prelude.Text.{codes, has_prefix, rstrip, strip}

-- The rest of the text after `skip` characters, without what is at hand of `tag`.
unfoldable pub remove_from : ℕ → List ℕ → String → String
unfolding has_prefix
remove_from skip tag String.[] = ""
remove_from (suc skip) tag (String.◌∷◌ c s) = remove_from skip tag s
remove_from zero tag (String.◌∷◌ c s) =
    let kept = String.◌∷◌ c (remove_from zero tag s) in
    let cut = remove_from (length tag - 1) tag s in
    if has_prefix tag (code c ∷ codes s) then cut else kept

-- `text.replace(tag, "")`
abbrev pub replace_all : String → String → String
replace_all tag s = remove_from 0 (codes tag) s

-- The characters that end a line for `splitlines`.
unfoldable pub ends_line : ℕ → Bool
ends_line c =
    (leb 10 c && leb c 13) || (leb 28 c && leb c 30) || eqb c 0x85 || eqb c 0x2028 || eqb c 0x2029

abbrev first_line : List String → (String → String) → List String
first_line [] f = f "" ∷ []
first_line (l ∷ ls) f = f l ∷ ls

-- `text.splitlines()`; the flag says that the text stands behind a "\r", whose "\n" is no line of
-- its own.
unfoldable pub lines_after : Bool → String → List String
unfolding ends_line
lines_after cr String.[] = []
lines_after cr (String.◌∷◌ c s) =
    let inside = first_line (lines_after false s) (λ l. String.◌∷◌ c l) in
    let ended = "" ∷ lines_after (eqb (code c) 13) s in
    let joined = lines_after false s in
    if cr && eqb (code c) 10 then joined else if ends_line (code c) then ended else inside

abbrev pub splitlines : String → List String
splitlines s = lines_after false s

-- `"\n".join(lines)`
unfoldable pub join_lines : List String → String
join_lines [] = ""
join_lines (l ∷ []) = l
join_lines (l ∷ m ∷ ls) = String.◌++◌ l (String.◌++◌ "\n" (join_lines (m ∷ ls)))

lines_test : join_lines (map rstrip (splitlines (replace_all "<a>" "x <a>\r\ny<a> \n"))) ≡ "x\ny"
unfolding lines_after remove_from join_lines rstrip nguyen_dinh_b.Prelude.Text.is_space
lines_test = refl
