-- ===== src/Fetch/Json.antt =====
-- The lookups of `github.com/tidwall/gjson`, which is not part of the repository: an answer's body is
-- opaque, and the server reads it at paths only.
use Prim.Native.String.{String}
use oginstagram.Base.{Bool, List}
use oginstagram.Base.Int.{ℤ}
use oginstagram.Base.Text.{Text}

pub record Gjson : Type 0 where
  -- `gjson.Valid(body)`
  pub valid : Text → Bool
  -- `gjson.Get(body, path)` with `.String()`, `.Int()` and `.Bool()`.
  pub text_at : Text → String → String
  pub int_at : Text → String → ℤ
  pub bool_at : Text → String → Bool
  -- Whether the value at the path is `true`, and `false`.
  pub is_true : Text → String → Bool
  pub is_false : Text → String → Bool
  -- The JSON of the value at the path, and of the elements of the array there.
  pub raw_at : Text → String → Text
  pub elements_at : Text → String → List Text
