-- ===== src/Tests/Serving.antt =====
-- The gateway's decision and the edge's copies on concrete requests.
use oginstagram.Base.{
  ℕ, ◌+◌, ◌-◌, ◌*◌, ◌≡◌, ◌≤◌, refl, Bool, true, false, not, ◌||◌, List, [], ◌∷◌, Option, none, some,
  is_some, arith,
}
use oginstagram.Base.Text.{Text, codes, contains, text_eq}
use oginstagram.Base.Int.{pos, to_nat}
use oginstagram.Config.{second}
use oginstagram.Fetch.Staged.{success}
use oginstagram.Gateway.Bots.{Limiter}
use oginstagram.Gateway.Edge.{edge, offload_edge_ttl}
use oginstagram.Gateway.Edge.Kept.{offload_edge_ttl-within, offload_post-edge}
use oginstagram.Gateway.Resolve.{GatewayRoute, Action, profile_card, resolve_gateway_route}
use oginstagram.Gateway.Serve.{World, Settings, Incoming, reads, public_origin, redirect_for, serve}
use oginstagram.Gateway.Serve.Guards.{IsPeer, IsHost, Passed, serve-Passed}
use oginstagram.Models.{Post}
use oginstagram.Models.Lifetime.{WithinExpiry}
use oginstagram.Offload.Route.{Url}
use oginstagram.Server.{Resp, text_resp, redirect_resp, partial_resp}

abbrev profile_link : Url
profile_link = record { path = codes "/ada"; raw_path = []; raw_query = [] }

abbrev world : World
world = record {
  hmac = λ key message. key;
  escaped_path = λ u. u.path;
  path_escape = λ s. s;
  parse_url = λ t. none;
  raw_query = λ t. none;
  problem_json = λ status detail. [];
  visitor_of = λ ip. ip;
  is_asset = λ r. false;
  render = λ r route. text_resp 200 (codes "ada");
}

abbrev settings : Settings
settings = record {
  development = false;
  allowed_hosts = codes "og.example" ∷ [];
  signer = record { active = codes "k"; keys = [] };
}

abbrev incoming : Incoming
incoming = record {
  method = codes "GET";
  host = codes "og.example";
  link = profile_link;
  header = λ name. [];
  trusted_peer = true;
  loopback = false;
  bare_host = codes "og.example";
}

abbrev ada_route : GatewayRoute
ada_route = record {
  handle = profile_card (codes "ada") false;
  human_redirect = some (codes "https://www.instagram.com/ada/");
  category = some (codes "profile");
  offload = false;
  direct = false;
  card = false;
}

abbrev bots : Limiter
bots = oginstagram.Gateway.Bots.init

serve-Passed_example :
    IsPeer world settings 7 incoming
    × IsHost world settings 7 incoming
    × (true ≡ true)
    × (contains reads incoming.method ≡ true)
    × (resolve_gateway_route world.path_escape world.escaped_path
          (record { host = incoming.host; url = incoming.link })
        ≡ some ada_route)
    × (redirect_for incoming ada_route ≡ none)
    × Passed world settings 7 incoming ada_route (text_resp 200 (codes "ada"))
unfolding serve text_eq public_origin contains resolve_gateway_route
    oginstagram.Gateway.Resolve.is_offload_path oginstagram.Routes.split_path
    oginstagram.Routes.prepend oginstagram.Gateway.Resolve.segments_route
    oginstagram.Gateway.Resolve.post_or_account_route oginstagram.Routes.parse_embed_segments
    oginstagram.Routes.match_shape oginstagram.Routes.valid_username
    oginstagram.Gateway.Resolve.account_route oginstagram.Gateway.Resolve.plain_route
    oginstagram.Base.Text.has_prefix oginstagram.Gateway.Resolve.profile_url text_resp edge
serve-Passed_example =
    serve-Passed world settings 7 incoming true bots bots ada_route (text_resp 200 (codes "ada"))
      refl

abbrev signed : Url
signed = record { path = codes "/offload/ABC"; raw_path = []; raw_query = codes "exp=9" }

offload_edge_ttl-within_example :
    (offload_edge_ttl
          (λ t. none)
          (λ t. some (codes "oe=ffff"))
          signed
          (codes "https://a.fbcdn.net/x")
          7
        * second
      ≤ to_nat (pos (62_135_596_809 * second)) - 7)
    × WithinExpiry
        (λ t. some (codes "oe=ffff"))
        7
        (offload_edge_ttl
            (λ t. none)
            (λ t. some (codes "oe=ffff"))
            signed
            (codes "https://a.fbcdn.net/x")
            7
          * second)
        (codes "https://a.fbcdn.net/x")
unfolding oginstagram.Gateway.Edge.parse_expiry oginstagram.Base.Assoc.lookup
    oginstagram.Gateway.Resolve.query_values oginstagram.UrlQuery.query_pieces
    oginstagram.Routes.split oginstagram.Routes.prepend oginstagram.UrlQuery.parse_piece
    oginstagram.UrlQuery.unescape oginstagram.UrlQuery.cut oginstagram.UrlQuery.append_value
    oginstagram.Base.Assoc.insert text_eq oginstagram.UrlQuery.plus_as_space
    oginstagram.Decimal.parse_uint oginstagram.Decimal.read oginstagram.Instant.unix_time
offload_edge_ttl-within_example =
    offload_edge_ttl-within (λ t. none) (λ t. some (codes "oe=ffff")) signed
      (codes "https://a.fbcdn.net/x") 7 (pos (62_135_596_809 * second)) (omega arith) refl

abbrev partial_post : Post
partial_post = record {
  shortcode = codes "ABC";
  username = codes "ada";
  full_name = [];
  profile_pic = [];
  is_verified = false;
  caption = [];
  stats_line = [];
  attachments = [];
  created_at = 0;
  is_partial = true;
}

abbrev offload_link : GatewayRoute
offload_link = record ada_route { offload = true; category = none; human_redirect = none }

offload_post-edge_example :
    edge
      (λ t. none)
      (λ t. none)
      offload_link
      signed
      true
      7
      (partial_resp (redirect_resp (codes "https://www.instagram.com/p/ABC/") 302) partial_post)
    ≡ partial_resp (redirect_resp (codes "https://www.instagram.com/p/ABC/") 302) partial_post
unfolding oginstagram.Server.Handlers.offload_post
offload_post-edge_example =
    offload_post-edge (λ t. none) (λ t. none) (λ t. success ([], [])) (codes "https://og.example")
      (codes "https://www.instagram.com/p/ABC/") false partial_post 2 false
      (partial_resp (redirect_resp (codes "https://www.instagram.com/p/ABC/") 302) partial_post)
      offload_link signed true 7 refl refl
