-- ===== src/Routes.antt =====
-- server/routes.go: the shapes of the embed paths; and the name patterns of profile.go and story.go.
pub mod Grammar
pub mod Paths
pub mod Names
use oginstagram.Base.{
  ℕ, ◌≡◌, Bool, true, false, ◌&&◌, ◌||◌, not, List, [], ◌∷◌, ◌++◌, Option, none, some, leb, ◌==◌,
  all, length, if◌then◌else◌,
}
use oginstagram.Base.Text.{Text, codes, text_eq, is_digit, is_alpha}
use oginstagram.Query.{parse_canonical_decimal}

-- `path_index` is -1 in the source where the path has none.
pub record EmbedRoute : Type 0 where
  pub post_type : Text
  pub shortcode : Text
  pub path_index : Option ℕ

abbrev pub shortcode_byte : ℕ → Bool
shortcode_byte c = is_alpha c || is_digit c || c == b'_' || c == b'-'

-- `^[A-Za-z0-9_-]{1,24}$`
unfoldable pub valid_shortcode : Text → Bool
valid_shortcode s = leb 1 (length s) && leb (length s) 24 && all shortcode_byte s

abbrev pub username_byte : ℕ → Bool
username_byte c = is_alpha c || is_digit c || c == b'.' || c == b'_'

-- `^[A-Za-z0-9._]{1,30}$`
unfoldable pub valid_username : Text → Bool
valid_username s = leb 1 (length s) && leb (length s) 30 && all username_byte s

-- `^[0-9]{1,32}$`
unfoldable pub valid_story_id : Text → Bool
valid_story_id s = leb 1 (length s) && leb (length s) 32 && all is_digit s

unfoldable pub normalize_post_type : Text → Text
normalize_post_type value =
    if text_eq value (codes "reel") || text_eq value (codes "reels")
    then codes "reel"
    else codes "p"

unfoldable pub is_post_route_type : Text → Bool
is_post_route_type value =
    text_eq value (codes "p") || text_eq value (codes "reel") || text_eq value (codes "reels")

-- What one round of the loop over the two readings of a path does: `continue`, `return nil`, or a
-- route.
pub data Shape : Type 0 where
  mismatch reject : Shape
  route : EmbedRoute → Shape

unfoldable pub match_shape : List Text → Shape
match_shape (t ∷ code ∷ []) =
    if not (is_post_route_type t) || not (valid_shortcode code)
    then mismatch
    else route (record { post_type = normalize_post_type t; shortcode = code; path_index = none })
match_shape (t ∷ code ∷ i ∷ []) =
    if not (is_post_route_type t) || not (valid_shortcode code)
    then mismatch
    else (elim (parse_canonical_decimal i) [
      | none ↦ reject
      | some n ↦
          route
            (record { post_type = normalize_post_type t; shortcode = code; path_index = some n })
    ])
match_shape _ = mismatch

unfoldable pub parse_embed_segments : List Text → Option EmbedRoute
parse_embed_segments [] = none
parse_embed_segments (first ∷ rest) = elim (match_shape (first ∷ rest)) [
  | reject ↦ none
  | route r ↦ some r
  | mismatch ↦
      if text_eq first (codes "share") || not (valid_username first)
      then none
      else elim (match_shape rest) [ mismatch ↦ none | reject ↦ none | route r ↦ some r ]
]

-- `strings.Split` at one byte.
unfoldable pub prepend : ℕ → List Text → List Text
prepend c [] = (c ∷ []) ∷ []
prepend c (p ∷ ps) = (c ∷ p) ∷ ps

unfoldable pub split : ℕ → Text → List Text
split sep [] = [] ∷ []
split sep (c ∷ s) = let rest = split sep s in if c == sep then [] ∷ rest else prepend c rest

-- `strings.Join` with one byte.
unfoldable pub join : ℕ → List Text → Text
join sep [] = []
join sep (p ∷ []) = p
join sep (p ∷ q ∷ ps) = p ++ sep ∷ join sep (q ∷ ps)

-- `strings.Trim` of one byte.
unfoldable pub trim_left : ℕ → Text → Text
trim_left c [] = []
trim_left c (d ∷ s) = elim (d == c) [ true ↦ trim_left c s | false ↦ d ∷ s ]

unfoldable pub trim_right : ℕ → Text → Text
trim_right c [] = []
trim_right c (d ∷ s) = elim (trim_right c s) [
  | [] ↦ if d == c then [] else d ∷ []
  | e ∷ t ↦ d ∷ e ∷ t
]

unfoldable pub split_path : Text → List Text
unfolding trim_left trim_right split
split_path path = elim (trim_right b'/' (trim_left b'/' path)) [
  | [] ↦ []
  | c ∷ s ↦ split b'/' (c ∷ s)
]
