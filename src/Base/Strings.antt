-- ===== src/Base/Strings.antt =====
-- Go's `strings` package on the native strings, which are lists of code points.
use Prim.Native.Char.{code}
use Prim.Native.String.{String}
use oginstagram.Base.Tests.{leb, ◌==◌, if◌then◌else◌}
use oginstagram.Base.Text.{Text, codes, text_eq, has_prefix}
use mathlib.Core.Bool.{Bool, true, false, ◌&&◌, ◌||◌}
use mathlib.Core.List.{[], ◌∷◌}
use Prim.Native.Nat.{ℕ}

unfoldable pub is_empty : String → Bool
is_empty String.[] = true
is_empty (String.◌∷◌ c s) = false

unfoldable pub string_eq : String → String → Bool
unfolding text_eq
string_eq s t = text_eq (codes s) (codes t)

-- `cmp.Or` on strings.
unfoldable pub or_else : String → String → String
or_else String.[] d = d
or_else (String.◌∷◌ c s) d = String.◌∷◌ c s

-- `unicode.IsSpace`
unfoldable pub is_space : ℕ → Bool
is_space c =
    leb 9 c && leb c 13
    || c == 32
    || c == 133
    || c == 160
    || c == 5760
    || leb 8192 c && leb c 8202
    || leb 8232 c && leb c 8233
    || c == 8239
    || c == 8287
    || c == 12288

-- `strings.TrimSpace`
unfoldable pub trim_space_left : String → String
trim_space_left String.[] = String.[]
trim_space_left (String.◌∷◌ c s) = elim (is_space (code c)) [
  | true ↦ trim_space_left s
  | false ↦ String.◌∷◌ c s
]

unfoldable pub trim_space_right : String → String
trim_space_right String.[] = String.[]
trim_space_right (String.◌∷◌ c s) = elim (trim_space_right s) [
  | String.[] ↦ if is_space (code c) then String.[] else String.◌∷◌ c String.[]
  | String.◌∷◌ d t ↦ String.◌∷◌ c (String.◌∷◌ d t)
]

unfoldable pub trim_space : String → String
unfolding trim_space_left trim_space_right
trim_space s = trim_space_right (trim_space_left s)

-- `strings.Contains`
unfoldable pub has_part : Text → Text → Bool
has_part [] t = has_prefix [] t
has_part (c ∷ s) t = elim (has_prefix (c ∷ s) t) [ true ↦ true | false ↦ has_part s t ]
