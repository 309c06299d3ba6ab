-- ===== src/Tests/Posts.antt =====
-- Routes, queries and errors on concrete inputs.
use oginstagram.Base.{◌^◌, ◌<◌, ◌≡◌, ◌↔◌, List, [], ◌∷◌, some}
use oginstagram.Base.Text.{Text, codes}
use oginstagram.Decimal.{itoa}
use oginstagram.Errors.{AppError, ig_err, caused_err, not_found, connection}
use oginstagram.Query.{Values, parse_canonical_decimal}
use oginstagram.Query.Canonical.{parse_canonical_decimal_iff}
use oginstagram.Routes.{EmbedRoute, parse_embed_segments}
use oginstagram.Routes.Grammar.{Accepts, parse_embed_segments_iff}

abbrev route : EmbedRoute
route = record { post_type = codes "reel"; shortcode = codes "ABC"; path_index = some 2 }

abbrev segments : List Text
segments = codes "some.user" ∷ codes "reels" ∷ codes "ABC" ∷ codes "2" ∷ []

parse_embed_segments_example : (parse_embed_segments segments ≡ some route) ↔ Accepts segments route
parse_embed_segments_example = parse_embed_segments_iff segments route

parse_canonical_decimal_example :
    (parse_canonical_decimal (codes "12") ≡ some 12) ↔ (codes "12" ≡ itoa 12) × (12 < 2 ^ 53)
parse_canonical_decimal_example = parse_canonical_decimal_iff (codes "12") 12

abbrev values : Values
values = (codes "index", codes "9" ∷ []) ∷ (codes "img_index", itoa 3 ∷ []) ∷ []

abbrev missing : AppError
missing = ig_err 404 not_found "Post not found."

abbrev broken : AppError
broken = caused_err 502 connection "Connection failed." "dial"
