-- ===== src/UrlQuery.antt =====
-- `url.ParseQuery` of the Go library.
pub mod Plain
use oginstagram.Base.{
  ℕ, ◌+◌, ◌-◌, ◌*◌, List, [], ◌∷◌, ◌++◌, Bool, true, false, ◌&&◌, not, Option, none, some, ◌>>=◌,
  leb, ◌==◌, any, if◌then◌else◌,
}
use oginstagram.Base.Text.{Text, is_digit}
use oginstagram.Base.Assoc.{lookup, insert}
use oginstagram.Query.{Values}
use oginstagram.Routes.{split}

unfoldable pub unhex : ℕ → Option ℕ
unhex c =
    if is_digit c
    then some (c - b'0')
    else (if leb b'a' c && leb c b'f'
        then some (c - b'a' + 10)
        else (if leb b'A' c && leb c b'F' then some (c - b'A' + 10) else none))

unfoldable pub plus_as_space : ℕ → ℕ
plus_as_space c = if c == b'+' then b' ' else c

-- `url.QueryUnescape`
unfoldable pub unescape : Text → Option Text
unescape [] = some []
unescape (c ∷ []) = if c == b'%' then none else some (plus_as_space c ∷ [])
unescape (c ∷ d ∷ []) = elim (c == b'%') [
  | true ↦ none
  | false ↦ unescape (d ∷ []) >>= λ rest. some (plus_as_space c ∷ rest)
]
unescape (c ∷ d ∷ e ∷ s) = elim (c == b'%') [
  | true ↦
      unhex d >>= λ high. unhex e >>= λ low. unescape s >>= λ rest. some ((high * 16 + low) ∷ rest)
  | false ↦ unescape (d ∷ e ∷ s) >>= λ rest. some (plus_as_space c ∷ rest)
]

-- `strings.Cut`, without the flag.
unfoldable pub cut : ℕ → Text → Text × Text
cut sep [] = ([], [])
cut sep (c ∷ s) = let rest = cut sep s in if c == sep then ([], s) else (c ∷ rest.0, rest.1)

-- `m[key] = append(m[key], value)`
unfoldable pub append_value : Text → Text → Values → Values
append_value key value m =
    insert key ((elim (lookup key m) [ none ↦ [] | some vs ↦ vs ]) ++ value ∷ []) m

-- One piece of the query: an error, or the values with the piece added.
unfoldable pub parse_piece : Text → Values → Option Values
parse_piece piece m = if any (λ c. c == b';') piece then none else (elim piece [
  | [] ↦ some m
  | c ∷ s ↦
      let (key, value) = cut b'=' (c ∷ s) in
      unescape key >>= λ k. unescape value >>= λ v. some (append_value k v m)
])

unfoldable pub parse_pieces : List Text → Values → Option Values
parse_pieces [] m = some m
parse_pieces (piece ∷ pieces) m = parse_piece piece m >>= λ m'. parse_pieces pieces m'

-- `none` is an error.
unfoldable pub parse_query : Text → Option Values
parse_query query = parse_pieces (split b'&' query) []

-- `(*url.URL).Query`: pieces that are malformed are left out.
unfoldable pub query_pieces : List Text → Values → Values
query_pieces [] m = m
query_pieces (piece ∷ pieces) m =
    query_pieces pieces (elim (parse_piece piece m) [ none ↦ m | some m' ↦ m' ])
