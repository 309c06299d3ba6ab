-- ===== src/Tests/Gateways.antt =====
-- Routes of the gateway on concrete requests.
use oginstagram.Base.{◌∷◌, ◌↔◌, ◌≤◌, ℕ, ◌≡◌, refl, true, false, [], none, some}
use oginstagram.Base.Text.{Text, codes, text_eq, has_prefix}
use oginstagram.Decimal.{itoa, read, parse_uint}
use oginstagram.Query.{parse_canonical_decimal, media_selection, bounded_media_index}
use oginstagram.Routes.{
  split, split_path, prepend, trim_left, trim_right, parse_embed_segments, match_shape,
  valid_shortcode, is_post_route_type,
}
use oginstagram.Offload.Route.{Url, post}
use oginstagram.Gateway.Resolve.{
  Request, GatewayRoute, media, plain_route, is_story_path, is_offload_path, segments_route,
  post_or_account_route, post_gateway_route, resolve_gateway_route,
}
use oginstagram.UrlQuery.{parse_query}
use oginstagram.Gateway.Preview.{preview_query, preview_query_iff}
use oginstagram.Gateway.Resolve.Flags.{Flags, resolve_gateway_route-Flags}

abbrev same_text : Text → Text
same_text s = s

abbrev path_of : Url → Text
path_of u = u.path

abbrev direct_request : Request
direct_request = record {
  host = codes "d.example.org";
  url = record { path = codes "/p/ABC/2"; raw_path = []; raw_query = [] };
}

abbrev direct_route : GatewayRoute
direct_route = record {
  handle = media (post (codes "ABC") 1 false);
  human_redirect = none;
  category = some (codes "posts");
  offload = false;
  direct = true;
  card = false;
}

direct_request_route : resolve_gateway_route same_text path_of direct_request ≡ some direct_route
unfolding resolve_gateway_route segments_route post_or_account_route post_gateway_route plain_route
    is_story_path is_offload_path split_path split prepend trim_left trim_right parse_embed_segments
    match_shape valid_shortcode is_post_route_type parse_canonical_decimal parse_uint read
    media_selection bounded_media_index text_eq has_prefix
direct_request_route = refl

resolve_gateway_route-Flags_example : Flags direct_request direct_route
resolve_gateway_route-Flags_example =
    resolve_gateway_route-Flags same_text path_of direct_request direct_route direct_request_route

preview_query_example :
    (preview_query (codes "img_index=3") true ≡ true)
    ↔ (true ≡ true)
      × (n : ℕ) × (parse_query (codes "img_index=3") ≡ some ((codes "img_index", itoa n ∷ []) ∷ []))
      × (1 ≤ n)
      × (n ≤ 50)
preview_query_example = preview_query_iff b'i' (codes "mg_index=3") true
