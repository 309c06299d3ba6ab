-- ===== src/Gateway/Edge/Kept.antt =====
-- server/gateway.go, `ServeHTTP`: how long the edge may keep a response, and which it may not keep.
use oginstagram.Base.{
  ℕ, ◌-◌, ◌*◌, ◌/◌, ◌≡◌, ◌≤◌, subst, Bool, true, false, not, ◌&&◌, [], ◌∷◌, Option, none, some,
  get_elem?, min, ◌==◌, if◌then◌else◌, both_branches, arith,
}
use oginstagram.Base.Text.{Text, codes}
use mathlib.Core.Option.{some-injective}
use oginstagram.Config.{second}
use oginstagram.Gateway.Edge.{
  parse_expiry, cap_expiry, offload_edge_ttl, offload_edge, direct_edge, card_edge, edge,
}
use oginstagram.Base.Int.{ℤ, to_nat}
use oginstagram.Instant.{sub_time, last_instant, sub_time-bound}
use oginstagram.Gateway.Resolve.{GatewayRoute, query_values}
use oginstagram.Models.{Attachment, Post}
use oginstagram.Models.Lifetime.{
  cache_ttl_from_urls, WithinExpiry, WithinExpiry-mono, cache_ttl_from_urls-within,
}
use oginstagram.Models.Valid.{Url}
use oginstagram.Offload.Route.{Url as LinkUrl}
use oginstagram.Fetch.Staged.{Result}
use oginstagram.Query.{get}
use oginstagram.Server.{Resp, partial_resp, redirect_resp}
use oginstagram.Server.Handlers.{offload_post, offload_media, offload_resp, media_index_for}

module _ (parse_url : Text → Option Url) (raw_query : Text → Option Text) where
  -- A response with an origin status is left as its handler made it.
  edge_lem :
      (route : GatewayRoute) (link : LinkUrl) (is_get : Bool) (now : ℕ) (r : Resp)
      → (r.origin_status == 0) ≡ false
      → edge parse_url raw_query route link is_get now r ≡ r
  unfolding edge offload_edge direct_edge card_edge
  edge_lem route link is_get now r h = ground arith

  partial_resp-origin_status :
      (r : Resp) (post : Post)
      → post.is_partial ≡ true
      → ((partial_resp r post).origin_status == 0) ≡ false
  unfolding partial_resp
  partial_resp-origin_status r post h = ground arith

  offload_media_lem :
      (copy : Text → Result (Text × Text)) (base_url : Text) (thumbnail : Bool) (post : Post)
      (media : Option Attachment) (r : Resp) (route : GatewayRoute) (link : LinkUrl) (is_get : Bool)
      (now : ℕ)
      → post.is_partial ≡ true
      → offload_media parse_url copy base_url thumbnail post media ≡ some r
      → edge parse_url raw_query route link is_get now r ≡ r
  unfolding offload_media
  offload_media_lem copy base_url thumbnail post none r route link is_get now h e = absurd cc
  offload_media_lem copy base_url thumbnail post (some media) r route link is_get now h e =
      edge_lem route link is_get now r (
        subst (λ (y : Resp). (y.origin_status == 0) ≡ false) (some-injective _ _ e)
          (partial_resp-origin_status
            (offload_resp parse_url copy base_url (if thumbnail then media.thumbnail else media.url)
              false)
            post h))

  -- What an offload link of a partial post answers is never kept by the gateway's rules, whatever the
  -- route: a full post may replace it.
  pub offload_post-edge :
      (copy : Text → Result (Text × Text)) (base_url fallback : Text) (thumbnail : Bool)
      (post : Post) (index : ℕ) (avatar : Bool) (r : Resp) (route : GatewayRoute) (link : LinkUrl)
      (is_get : Bool) (now : ℕ)
      → post.is_partial ≡ true
      → offload_post parse_url copy base_url fallback thumbnail post index avatar ≡ some r
      → edge parse_url raw_query route link is_get now r ≡ r
  unfolding offload_post
  offload_post-edge copy base_url fallback thumbnail post index avatar r route link is_get now h e =
      let Left : Option Resp → Type 0 =
        λ (o : Option Resp). o ≡ some r → edge parse_url raw_query route link is_get now r ≡ r in
      let left : (x : Resp) → Left (some (partial_resp x post)) = λ x same.
        edge_lem route link is_get now r (
          subst (λ (y : Resp). (y.origin_status == 0) ≡ false) (some-injective _ _ same)
            (partial_resp-origin_status x post h)) in
      let media = get_elem? post.attachments (media_index_for post index) in
      both_branches Left (post.is_partial && not avatar && not (index == 0))
        (some (partial_resp (redirect_resp fallback 302) post))
        (if avatar
          then some (partial_resp (offload_resp parse_url copy base_url post.profile_pic true) post)
          else offload_media parse_url copy base_url thumbnail post media)
        (left (redirect_resp fallback 302))
        (both_branches Left avatar
          (some (partial_resp (offload_resp parse_url copy base_url post.profile_pic true) post))
          (offload_media parse_url copy base_url thumbnail post media)
          (left (offload_resp parse_url copy base_url post.profile_pic true))
          (offload_media_lem copy base_url thumbnail post media r route link is_get now h))
        e

  -- Until the year 2262: the edge keeps the answer of a link whose `exp` reads as an expiry for whole
  -- seconds that end by that expiry, and, where the media link that it points at names its expiry, before
  -- the margin of half an hour to it, but for the least lifetime of a minute.
  pub offload_edge_ttl-within :
      (link : LinkUrl) (target : Text) (now : ℕ) (expiry : ℤ)
      → now ≤ last_instant
      → parse_expiry (get (query_values link) (codes "exp")) ≡ some expiry
      → (offload_edge_ttl parse_url raw_query link target now * second ≤ to_nat expiry - now)
        × WithinExpiry raw_query now
            (offload_edge_ttl parse_url raw_query link target now * second)
            target
  unfolding offload_edge_ttl cap_expiry
  offload_edge_ttl-within link target now expiry soon h =
      let long = cache_ttl_from_urls raw_query now (target ∷ []) in
      let left = to_nat (sub_time expiry now) in
      let within = (cache_ttl_from_urls-within raw_query now (target ∷ []) soon).0 in
      let over = sub_time-bound expiry now in
      rw h (
        omega (arith, over),
        WithinExpiry-mono raw_query now (min long left / second * second) long target (omega arith)
            within,
      )
