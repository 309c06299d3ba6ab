-- ===== src/Gateway/Serve.antt =====
-- server/gateway.go, `ServeHTTP`, `publicOrigin`, `allowMethod`, `recordMetric`, `hasClearance`, the answers of
-- `serveEmbed`, and `writeResult`. Parameters: what the network library says of the peer and the host,
-- the static files, the rendering of a route, and the libraries' functions that the routes use.
-- Logging, the request's id and the timing header are left out.
pub mod Guards
use Prim.Native.String.{String}
use oginstagram.Base.{
  ℕ, ◌+◌, ◌-◌, ◌*◌, ◌/◌, Bool, true, false, not, ◌&&◌, ◌||◌, List, [], ◌∷◌, ◌++◌, Option, none,
  some, is_some, leb, ltb, ◌==◌, length, if◌then◌else◌,
}
use oginstagram.Base.Assoc.{lookup, insert}
use oginstagram.Base.Text.{Text, codes, text_eq, contains, to_lower}
use oginstagram.Config.{second}
use oginstagram.Decimal.{itoa}
use oginstagram.Errors.{ErrorCode, restricted}
use oginstagram.Gateway.Bots.{Limiter, admit}
use oginstagram.Gateway.Edge.{edge}
use oginstagram.Gateway.Resolve.{Request, GatewayRoute, resolve_gateway_route, query_values}
use oginstagram.Models.Valid.{Url}
use oginstagram.Offload.Route.{Url as LinkUrl}
use oginstagram.Offload.Signer.{Signer, authorize, unix_epoch}
use oginstagram.Query.{get}
use oginstagram.Server.{Resp, edge_control, with_header, text_resp, problem_resp}

-- A request as the gateway sees it; `header` is `r.Header.Get`.
pub record Incoming : Type 0 where
  pub method : Text
  pub host : Text
  pub link : LinkUrl
  pub header : Text → Text
  pub trusted_peer : Bool
  pub loopback : Bool
  -- The host without its port, in lower case.
  pub bare_host : Text

pub record Settings : Type 0 where
  pub development : Bool
  pub allowed_hosts : List Text
  pub signer : Signer

-- What `ServeHTTP` does with a request: its own answers, the pages and endpoints it hands over to, and
-- the response to a route, with the metric to record.
pub data Served : Type 0 where
  answered : List (Text × Text) → Resp → Served
  not_allowed : List Text → Served
  home asset embed_endpoint status_endpoint : Served
  sent_on : Text → Served
  rendered : GatewayRoute → Resp → Served

abbrev pub reads : List Text
reads = codes "GET" ∷ codes "HEAD" ∷ []

-- `allowMethod` before what it lets through.
unfoldable pub allow_method : Incoming → List Text → Served → Served
unfolding contains
allow_method r methods served = if contains methods r.method then served else not_allowed methods

abbrev pub is_local_host : Text → Bool
is_local_host host =
    text_eq host (codes "localhost")
    || text_eq host (codes "127.0.0.1")
    || text_eq host (codes "::1")

unfoldable pub public_origin : Settings → Incoming → Option Text
public_origin cfg r =
    if cfg.development && r.loopback && is_local_host r.bare_host
    then some (codes "http://" ++ r.host)
    else if text_eq r.host r.bare_host && contains cfg.allowed_hosts r.bare_host
    then some (codes "https://" ++ r.bare_host)
    else none

-- `r.URL.EscapedPath() != r.URL.Path` for the two endpoints.
unfoldable pub is_aliased : (LinkUrl → Text) → LinkUrl → Bool
is_aliased escaped_path u =
    (text_eq u.path (codes "/api/embed") || text_eq u.path (codes "/api/status"))
    && not (text_eq (escaped_path u) u.path)

unfoldable pub is_navigation : Incoming → Bool
is_navigation r =
    text_eq (r.header (codes "Sec-Fetch-Mode")) (codes "navigate")
    && text_eq (r.header (codes "Sec-Fetch-Dest")) (codes "document")

unfoldable pub is_limited_bot : Incoming → Bool
is_limited_bot r = text_eq (r.header (codes "X-OG-Bot-Class")) (codes "limited")

-- Where a browser is sent instead.
unfoldable pub redirect_for : Incoming → GatewayRoute → Option Text
unfolding is_navigation
redirect_for r route = if is_navigation r then route.human_redirect else none

-- Whether the peer is trusted, or is this machine in development.
unfoldable pub peer_is_ok : Settings → Incoming → Bool
peer_is_ok cfg r = r.trusted_peer || cfg.development && r.loopback

-- The edge keeps the refusal of a link under a known key for a day.
unfoldable pub refusal_ttl : Settings → LinkUrl → Text
refusal_ttl cfg u =
    if is_some (lookup (get (query_values u) (codes "kid")) cfg.signer.keys)
    then codes "86400"
    else codes "60"

-- `hasClearance`: the values of the `cf_clearance` cookies.
unfoldable pub has_clearance : List Text → Bool
has_clearance (value ∷ []) = not (text_eq value []) && leb (length value) 4096
has_clearance _ = false

-- The status of a preview that did not resolve; 0 where the preview is written.
unfoldable pub preview_status : Resp → ℕ
preview_status r = elim (leb 400 r.origin_status && leb r.origin_status 599) [
  | false ↦ 0
  | true ↦ elim r.error_type [
    | restricted ↦ 451
    | _ ↦
        if r.origin_status == 429
        then 502
        else if r.origin_status == 499
        then 504
        else r.origin_status
  ]
]

-- `recordMetric`: the category and the status that are counted.
unfoldable pub metric_of : GatewayRoute → Resp → Option (Text × ℕ × ErrorCode)
metric_of route r = elim route.category [
  | none ↦ none
  | some category ↦
      if r.cache_hit
      then none
      else some
          (category, (if ltb 0 r.origin_status then r.origin_status else r.status), r.error_type)
]

-- The libraries and the parts of the gateway that are not modelled.
pub record World : Type 0 where
  pub hmac : Text → Text → Text
  pub escaped_path : LinkUrl → Text
  pub path_escape : Text → Text
  pub parse_url : Text → Option Url
  pub raw_query : Text → Option Text
  pub problem_json : ℕ → String → Text
  pub visitor_of : Text → Text
  pub is_asset : Incoming → Bool
  pub render : Incoming → GatewayRoute → Resp

-- `now` is in nanoseconds since Go's zero time.
abbrev pub unix_seconds : ℕ → ℕ
unix_seconds now = now / second - unix_epoch

module _ (w : World) (cfg : Settings) (now : ℕ) (r : Incoming) where
  abbrev pub refuse : ℕ → String → Served
  refuse status detail = answered [] (problem_resp w.problem_json status detail)

  -- `authorize` of the signer.
  abbrev pub is_authorized : Bool
  is_authorized = authorize w.hmac w.escaped_path cfg.signer r.link (unix_seconds now)

  -- A route that may be rendered, and the edge's copy of it.
  unfoldable pub respond : GatewayRoute → Served
  unfolding refusal_ttl problem_resp
  respond route =
      if route.offload && not is_authorized
      then answered ((edge_control, codes "max-age=" ++ refusal_ttl cfg r.link) ∷ [])
          (problem_resp w.problem_json 404 "not found")
      else rendered route (
          edge w.parse_url w.raw_query route r.link (text_eq r.method (codes "GET")) now
            (w.render r route))

  -- An unverified bot spends its budget.
  unfoldable pub after_bots : GatewayRoute → Limiter × Bool × ℕ → Limiter × Served
  unfolding respond problem_resp
  after_bots route (bots, true, wait) = (bots, respond route)
  after_bots route (bots, false, wait) = (
    bots,
    answered ((codes "Retry-After", itoa (wait / second + 1)) ∷ [])
        (problem_resp w.problem_json 429 "rate limited"),
  )

  unfoldable pub on_budget : Bool → Limiter → GatewayRoute → Limiter × Served
  unfolding after_bots respond
  on_budget true bots route =
      after_bots route
        (admit w.visitor_of bots (r.header (codes "CF-Connecting-IP")) (now - unix_epoch * second))
  on_budget false bots route = (bots, respond route)

  unfoldable pub on_found : Limiter → GatewayRoute → Option Text → Limiter × Served
  unfolding on_budget is_limited_bot
  on_found bots route (some target) = (bots, sent_on target)
  on_found bots route none = on_budget (is_limited_bot r) bots route

  unfoldable pub on_route : Limiter → Option GatewayRoute → Limiter × Served
  unfolding on_found redirect_for problem_resp
  on_route bots none = (bots, refuse 404 "not found")
  on_route bots (some route) = on_found bots route (redirect_for r route)

  -- Behind the slot: the endpoints, the method and the route.
  unfoldable pub dispatch : Limiter → Limiter × Served
  unfolding on_route
  dispatch bots =
      if text_eq r.link.path (codes "/api/embed")
      then (bots, embed_endpoint)
      else if text_eq r.link.path (codes "/api/status")
      then (bots, status_endpoint)
      else if not (contains reads r.method)
      then (bots, not_allowed reads)
      else on_route bots (
          resolve_gateway_route w.path_escape w.escaped_path
            (record { host = r.host; url = r.link }))

  unfoldable pub after_origin : Bool → Limiter → Limiter × Served
  unfolding dispatch is_aliased
  after_origin free bots =
      if is_aliased w.escaped_path r.link
      then (bots, refuse 404 "not found")
      else if text_eq r.link.path (codes "/")
      then (bots, allow_method r reads home)
      else if w.is_asset r
      then (bots, asset)
      else if not free
      then (
        bots,
        answered ((codes "Retry-After", codes "1") ∷ [])
            (problem_resp w.problem_json 503 "overloaded"),
      )
      else dispatch bots

  -- `free` tells that one of the gateway's slots is.
  unfoldable pub serve : Bool → Limiter → Limiter × Served
  unfolding after_origin peer_is_ok
  serve free bots =
      if text_eq r.link.path (codes "/readyz")
      then (
        bots,
        if r.loopback
            then allow_method r reads (answered [] (text_resp 200 (codes "ok\n")))
            else refuse 404 "not found",
      )
      else if not (peer_is_ok cfg r)
      then (bots, refuse 403 "forbidden")
      else if not (is_some (public_origin cfg r))
      then (bots, refuse 421 "unrecognized host")
      else after_origin free bots
