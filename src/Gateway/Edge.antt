-- ===== src/Gateway/Edge.antt =====
-- server/gateway.go, `offloadEdgeTTL`, `directEdgeTTL` and the part of `ServeHTTP` that lets the edge keep
-- a response. `url.Parse` is a parameter. An instant is in nanoseconds since Go's zero time.
pub mod Kept
use oginstagram.Base.{
  ℕ, ◌+◌, ◌-◌, ◌*◌, ◌/◌, ◌^◌, Bool, true, false, not, ◌&&◌, ◌||◌, List, [], ◌∷◌, ◌++◌, Option, none,
  some, ◌>>=◌, min, ltb, leb, ◌==◌, if◌then◌else◌,
}
use oginstagram.Base.Text.{Text, codes, text_eq, has_prefix}
use oginstagram.Config.{second, cdn_fallback_ttl, cdn_ttl_margin}
use oginstagram.Decimal.{itoa, parse_uint}
use oginstagram.Gateway.Resolve.{GatewayRoute, query_values}
use oginstagram.Models.Lifetime.{cache_ttl_from_urls, cdn_expiry}
use oginstagram.Base.Int.{ℤ, pos, negsuc, to_nat}
use oginstagram.Instant.{unix_time, sub_time, minus}
use oginstagram.Offload.Signer.{unix_epoch}
use oginstagram.Models.Valid.{Url, trusted_media_url}
use oginstagram.Offload.Route.{Url as LinkUrl}
use oginstagram.Query.{get}
use oginstagram.Server.{Resp, content_type, location, edge_control, header_of, with_header}

abbrev pub card_edge_ttl : ℕ
card_edge_ttl = 3600

-- `time.Unix(-n, 0)`
unfoldable pub before_unix : ℕ → ℤ
before_unix n =
    if leb n unix_epoch
    then pos ((unix_epoch - n) * second)
    else negsuc ((n - unix_epoch) * second - 1)

-- `strconv.ParseInt(s, 10, 64)`, as the instant of these seconds.
unfoldable pub parse_expiry : Text → Option ℤ
unfolding before_unix
parse_expiry [] = none
parse_expiry (c ∷ s) =
    if c == b'-'
    then (parse_uint 64 s >>= λ n. if leb n (2 ^ 63) then some (before_unix n) else none)
    else if c == b'+'
    then (parse_uint 63 s >>= λ n. some (unix_time n))
    else (parse_uint 63 (c ∷ s) >>= λ n. some (unix_time n))

-- No longer than until the link expires, if its expiry reads; a time in the past leaves 0.
unfoldable pub cap_expiry : ℕ → Option ℤ → ℕ → ℕ
unfolding to_nat
cap_expiry ttl none now = ttl
cap_expiry ttl (some expiry) now = min ttl (to_nat (sub_time expiry now))

unfoldable pub max_age : ℕ → Text
max_age ttl = codes "max-age=" ++ itoa ttl

module _ (parse_url : Text → Option Url) (raw_query : Text → Option Text) where
  unfoldable pub offload_edge_ttl : LinkUrl → Text → ℕ → ℕ
  unfolding parse_expiry cap_expiry
  offload_edge_ttl link target now =
      cap_expiry (cache_ttl_from_urls raw_query now (target ∷ []))
        (parse_expiry (get (query_values link) (codes "exp"))) now
      / second

  unfoldable pub direct_edge_ttl : Text → ℕ → ℕ
  unfolding to_nat
  direct_edge_ttl target now =
      if not (trusted_media_url (parse_url target))
      then 0
      else (elim (cdn_expiry raw_query target) [
        | none ↦ 0
        | some expiry ↦
            min cdn_fallback_ttl (to_nat (minus (sub_time expiry now) cdn_ttl_margin)) / second
      ])

  -- `cmp.Or(result.headers["Location"], result.mediaURL)`
  unfoldable pub target_of : Resp → Text
  target_of r = if text_eq (header_of location r) [] then r.media_url else header_of location r

  unfoldable pub offload_edge : GatewayRoute → LinkUrl → ℕ → Resp → Resp
  unfolding offload_edge_ttl target_of max_age with_header
  offload_edge route link now r =
      if route.offload && (r.status == 302 || r.status == 200) && r.origin_status == 0
      then with_header edge_control (max_age (offload_edge_ttl link (target_of r) now)) r
      else r

  unfoldable pub direct_edge : GatewayRoute → ℕ → Resp → Resp
  unfolding direct_edge_ttl max_age with_header
  direct_edge route now r =
      if route.direct
        && r.status == 302
        && r.origin_status == 0
        && ltb 0 (direct_edge_ttl (header_of location r) now)
      then with_header edge_control
          (max_age (direct_edge_ttl (header_of location r) now) ++ codes ", must-revalidate") r
      else r

  unfoldable pub card_edge : GatewayRoute → Bool → Resp → Resp
  unfolding max_age with_header
  card_edge route is_get r =
      if route.card
        && is_get
        && r.status == 200
        && r.origin_status == 0
        && has_prefix (header_of content_type r) (codes "text/html")
      then with_header edge_control (max_age card_edge_ttl) r
      else r

  -- What the edge may keep of the response to a route.
  unfoldable pub edge : GatewayRoute → LinkUrl → Bool → ℕ → Resp → Resp
  unfolding offload_edge direct_edge card_edge
  edge route link is_get now r =
      card_edge route is_get (direct_edge route now (offload_edge route link now r))
