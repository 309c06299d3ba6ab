-- ===== src/Gateway/Resolve.antt =====
-- server/gateway.go, `resolveGatewayRoute`: what a request asks for.
pub mod Flags
use oginstagram.Base.{
  ℕ, ◌+◌, Bool, true, false, not, ◌&&◌, ◌||◌, List, [], ◌∷◌, ◌++◌, Option, none, some, ◌>>=◌,
  is_some, if◌then◌else◌,
}
use oginstagram.Base.Text.{Text, codes, text_eq, has_prefix, contains}
use oginstagram.Decimal.{itoa}
use oginstagram.Query.{Values, media_selection}
use oginstagram.Routes.{
  EmbedRoute, split, split_path, parse_embed_segments, normalize_post_type, valid_username,
  valid_story_id,
}
use oginstagram.UrlQuery.{query_pieces}
use oginstagram.Offload.Route.{Url, Handler, story, post, offload_route}

abbrev pub instagram_origin : Text
instagram_origin = codes "https://www.instagram.com"

pub record Request : Type 0 where
  pub host : Text
  pub url : Url

-- `(*url.URL).Query`
unfoldable pub query_values : Url → Values
query_values u = query_pieces (split b'&' u.raw_query) []

-- The handler closures with the arguments that they capture.
pub data Action : Type 0 where
  web_finger : Action
  media : Handler → Action
  story_card : Text → Text → Bool → Action
  post_card : Text → Text → ℕ → Bool → Bool → Action
  collection : Text → Text → Action
  profile_card : Text → Bool → Action

-- An empty text of the source is `none`.
pub record GatewayRoute : Type 0 where
  pub handle : Action
  pub human_redirect : Option Text
  pub category : Option Text
  pub offload : Bool
  pub direct : Bool
  pub card : Bool

unfoldable pub plain_route : Action → GatewayRoute
plain_route action = record {
  handle = action;
  human_redirect = none;
  category = none;
  offload = false;
  direct = false;
  card = false;
}

unfoldable pub is_story_path : List Text → Bool
is_story_path (first ∷ username ∷ id ∷ []) =
    text_eq first (codes "stories")
    && not (text_eq username (codes "highlights"))
    && valid_username username
    && valid_story_id id
is_story_path _ = false

unfoldable pub is_offload_path : List Text → Bool
is_offload_path [] = false
is_offload_path (first ∷ _) = text_eq first (codes "offload")

-- `path_escape` is `url.PathEscape`, `escaped_path` is `(*url.URL).EscapedPath`.
module _ (path_escape : Text → Text) (escaped_path : Url → Text) where
  unfoldable pub story_origin_url : Text → Text → Text
  story_origin_url username id =
      instagram_origin
      ++ codes "/stories/"
      ++ path_escape username
      ++ codes "/"
      ++ path_escape id
      ++ codes "/"

  unfoldable pub instagram_post_url : Text → Text → ℕ → Bool → Text
  instagram_post_url post_type shortcode media_index specified =
      let target =
        instagram_origin
        ++ codes "/"
        ++ normalize_post_type post_type
        ++ codes "/"
        ++ path_escape shortcode
        ++ codes "/" in
      if specified then target ++ codes "?img_index=" ++ itoa (media_index + 1) else target

  unfoldable pub profile_url : Text → Text
  profile_url username = instagram_origin ++ codes "/" ++ path_escape username ++ codes "/"

  unfoldable pub story_gateway_route : Request → Text → Text → GatewayRoute
  story_gateway_route r username id =
      if has_prefix r.host (codes "d.")
      then record (plain_route (media (story username id false))) {
        category = some (codes "stories");
        direct = true;
      }
      else record (plain_route (story_card username id (has_prefix r.host (codes "g.")))) {
        category = some (codes "stories");
        card = true;
        human_redirect = some (story_origin_url username id);
      }

  unfoldable pub post_gateway_route : Request → EmbedRoute → GatewayRoute
  post_gateway_route r e =
      let (index, specified) = media_selection (query_values r.url) e.path_index in
      if has_prefix r.host (codes "d.")
      then record (plain_route (media (post e.shortcode index false))) {
        category = some (codes "posts");
        direct = true;
      }
      else record (plain_route
          (post_card e.post_type e.shortcode index specified (has_prefix r.host (codes "g.")))) {
            category = some (codes "posts");
            card = true;
            human_redirect = some (instagram_post_url e.post_type e.shortcode index specified);
          }

  -- The routes behind posts: the collections of an actor, and a profile.
  unfoldable pub account_route : Request → List Text → Option GatewayRoute
  account_route r (username ∷ []) =
      if valid_username username
      then some (record (plain_route (profile_card username (has_prefix r.host (codes "g.")))) {
        category = some (codes "profile");
        human_redirect = some (profile_url username);
      })
      else none
  account_route r (username ∷ name ∷ []) =
      if valid_username username
        && contains (codes "inbox" ∷ codes "outbox" ∷ codes "followers" ∷ codes "following" ∷ [])
            name
      then some (plain_route (collection username name))
      else none
  account_route r _ = none

  unfoldable pub post_or_account_route : Request → List Text → Option GatewayRoute
  post_or_account_route r segments = elim (parse_embed_segments segments) [
    | some e ↦ some (post_gateway_route r e)
    | none ↦ account_route r segments
  ]

  unfoldable pub segments_route : Request → List Text → Option GatewayRoute
  segments_route r (first ∷ username ∷ id ∷ []) =
      if is_story_path (first ∷ username ∷ id ∷ [])
      then some (story_gateway_route r username id)
      else post_or_account_route r (first ∷ username ∷ id ∷ [])
  segments_route r segments = post_or_account_route r segments

  -- `none` is a false `ok`.
  unfoldable pub resolve_gateway_route : Request → Option GatewayRoute
  resolve_gateway_route r =
      if text_eq r.url.path (codes "/.well-known/webfinger")
      then some (plain_route web_finger)
      else (if is_offload_path (split_path r.url.path)
          then (offload_route escaped_path r.url >>= λ found.
              some (record (plain_route (media found.1)) { offload = true }))
          else segments_route r (split_path r.url.path))
