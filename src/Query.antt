-- ===== src/Query.antt =====
-- server/query.go: canonical decimals and the choice of a media index.
pub mod Canonical
use oginstagram.Base.{
  ℕ, ◌-◌, Bool, true, false, not, ◌&&◌, List, [], ◌∷◌, Option, none, some, is_some, ◌==◌, min,
  if◌then◌else◌,
}
use oginstagram.Base.Text.{Text, codes, text_eq}
use oginstagram.Base.Assoc.{lookup}
use oginstagram.Decimal.{parse_uint}

abbrev pub max_cached_media_items : ℕ
max_cached_media_items = 50

-- `none` is `ok == false`.
unfoldable pub parse_canonical_decimal : Text → Option ℕ
parse_canonical_decimal [] = none
parse_canonical_decimal (c ∷ s) =
    if not (text_eq (c ∷ s) (codes "0")) && c == b'0' then none else parse_uint 53 (c ∷ s)

-- `url.Values`: each key with its values.
abbrev pub Values : Type 0
Values = List (Text × List Text)

-- `values.Get(key)`
abbrev pub get : Values → Text → Text
get values key = elim (lookup key values) [ none ↦ [] | some vs ↦ elim vs [ [] ↦ [] | v ∷ _ ↦ v ] ]

-- `boundedMediaIndex(n - base)`: where `n - base` is negative the source takes the index 0, as the
-- subtraction on ℕ gives at once.
unfoldable pub bounded_media_index : ℕ → ℕ → ℕ
bounded_media_index n base = min (max_cached_media_items - 1) (n - base)

unfoldable pub from_query : Values → List (Text × ℕ) → ℕ × Bool
from_query values [] = (0, false)
from_query values ((key, base) ∷ qs) =
    let rest = from_query values qs in
    if is_some (lookup key values)
    then (
      bounded_media_index
          (elim (parse_canonical_decimal (get values key)) [ none ↦ 0 | some n ↦ n ]) base,
      true,
    )
    else rest

abbrev pub index_keys : List (Text × ℕ)
index_keys = (codes "img_index", 1) ∷ (codes "index", 0) ∷ (codes "order", 0) ∷ []

-- `pathIndex` is -1 where the path has no index: here `none`.
unfoldable pub media_selection : Values → Option ℕ → ℕ × Bool
media_selection values (some n) = (bounded_media_index n 1, true)
media_selection values none = from_query values index_keys
