-- ===== src/Gateway/Serve/Guards.antt =====
-- server/gateway.go, `ServeHTTP`: what a request has passed when its route is rendered.
use oginstagram.Base.{
  ℕ, ◌≡◌, ◌-◌, ◌*◌, ◌⊎◌, refl, ap, subst, Bool, true, false, not, ◌||◌, Option, none, some, is_some,
  arith,
}
use oginstagram.Base.Text.{Text, codes, text_eq, contains}
use oginstagram.Gateway.Bots.{Limiter, admit}
use oginstagram.Gateway.Edge.{edge}
use oginstagram.Gateway.Resolve.{GatewayRoute, resolve_gateway_route}
use oginstagram.Gateway.Serve.{
  is_local_host, World, Settings, Incoming, Served, rendered, reads, public_origin, is_authorized,
  respond, after_bots, is_limited_bot, on_budget, on_found, on_route, redirect_for, dispatch,
  peer_is_ok, after_origin, serve, allow_method,
}
use oginstagram.Config.{second}
use oginstagram.Offload.Signer.{unix_epoch}
use oginstagram.Server.{Resp}

module _ (w : World) (cfg : Settings) (now : ℕ) (r : Incoming) where
  -- What `respond` renders is authorized where it is an offload link, and is what the edge may keep of it.
  unfoldable pub Passed : GatewayRoute → Resp → Type 0
  Passed route result =
      ((not route.offload || is_authorized w cfg now r) ≡ true)
      × (result
          ≡ edge w.parse_url w.raw_query route r.link (text_eq r.method (codes "GET")) now
              (w.render r route))

  respond_lem :
      (given route : GatewayRoute) (result : Resp)
      → respond w cfg now r given ≡ rendered route result
      → (given ≡ route) × Passed route result
  unfolding respond Passed
  respond_lem given route result e = ground arith

  after_bots_lem :
      (given route : GatewayRoute) (b : Limiter × Bool × ℕ) (bots : Limiter) (result : Resp)
      → after_bots w cfg now r given b ≡ (bots, rendered route result)
      → (given ≡ route) × Passed route result
  unfolding after_bots
  after_bots_lem given route (rest, true, wait) bots result e =
      respond_lem given route result (ap (λ (x : Limiter × Served). x.1) e)
  after_bots_lem given route (rest, false, wait) bots result e = absurd cc

  on_budget_lem :
      (limited : Bool) (given route : GatewayRoute) (before bots : Limiter) (result : Resp)
      → on_budget w cfg now r limited before given ≡ (bots, rendered route result)
      → (given ≡ route) × Passed route result
  unfolding on_budget
  on_budget_lem true given route before bots result e =
      after_bots_lem given route
        (admit w.visitor_of before (r.header (codes "CF-Connecting-IP"))
          (now - unix_epoch * second))
        bots result e
  on_budget_lem false given route before bots result e =
      respond_lem given route result (ap (λ (x : Limiter × Served). x.1) e)

  on_found_lem :
      (sent : Option Text) (given route : GatewayRoute) (before bots : Limiter) (result : Resp)
      → redirect_for r given ≡ sent
      → on_found w cfg now r before given sent ≡ (bots, rendered route result)
      → (some given ≡ some route) × (redirect_for r route ≡ none) × Passed route result
  unfolding on_found
  on_found_lem (some target) given route before bots result same e = absurd cc
  on_found_lem none given route before bots result same e =
      let (here, passed) = on_budget_lem (is_limited_bot r) given route before bots result e in
      (ap some here, subst (λ x. redirect_for r x ≡ none) here same, passed)

  on_route_lem :
      (found : Option GatewayRoute) (route : GatewayRoute) (before bots : Limiter) (result : Resp)
      → on_route w cfg now r before found ≡ (bots, rendered route result)
      → (found ≡ some route) × (redirect_for r route ≡ none) × Passed route result
  unfolding on_route
  on_route_lem none route before bots result e = absurd cc
  on_route_lem (some given) route before bots result e =
      on_found_lem (redirect_for r given) given route before bots result refl e

  -- A trusted peer, or in development the machine itself.
  abbrev pub IsPeer : Type 0
  IsPeer = (r.trusted_peer ≡ true) ⊎ (cfg.development ≡ true) × (r.loopback ≡ true)

  -- One of our hosts without a port, or in development a name of the machine itself.
  abbrev pub IsHost : Type 0
  IsHost =
      (contains cfg.allowed_hosts r.bare_host ≡ true) × (text_eq r.host r.bare_host ≡ true)
      ⊎ (cfg.development ≡ true) × (r.loopback ≡ true) × (is_local_host r.bare_host ≡ true)

  peer_is_ok-IsPeer : peer_is_ok cfg r ≡ true → IsPeer
  unfolding peer_is_ok
  peer_is_ok-IsPeer h = ground arith

  public_origin-IsHost : is_some (public_origin cfg r) ≡ true → IsHost
  unfolding public_origin
  public_origin-IsHost h = ground arith

  serve_checks :
      (free : Bool) (before bots : Limiter) (route : GatewayRoute) (result : Resp)
      → serve w cfg now r free before ≡ (bots, rendered route result)
      → (peer_is_ok cfg r ≡ true)
        × (is_some (public_origin cfg r) ≡ true)
        × (free ≡ true)
        × (contains reads r.method ≡ true)
        × (resolve_gateway_route w.path_escape w.escaped_path
              (record { host = r.host; url = r.link })
            ≡ some route)
        × (redirect_for r route ≡ none)
        × Passed route result
  unfolding serve after_origin dispatch allow_method
  serve_checks free before bots route result e =
      let found =
        resolve_gateway_route w.path_escape w.escaped_path
          (record { host = r.host; url = r.link }) in
      ground (arith, on_route_lem found route before bots result)

  -- Where `serve` ends with the rendering of a route, which the preview endpoint is not: the peer is
  -- trusted, or in development the machine itself; the host is one of ours, or in development and for
  -- the machine itself one of its local names; a slot is free; the method reads, and the path resolves to
  -- the route; no browser is sent on to Instagram; an offload link is authorized; and the response is
  -- what the edge may keep of the rendering.
  pub serve-Passed :
      (free : Bool) (before bots : Limiter) (route : GatewayRoute) (result : Resp)
      → serve w cfg now r free before ≡ (bots, rendered route result)
      → IsPeer
        × IsHost
        × (free ≡ true)
        × (contains reads r.method ≡ true)
        × (resolve_gateway_route w.path_escape w.escaped_path
              (record { host = r.host; url = r.link })
            ≡ some route)
        × (redirect_for r route ≡ none)
        × Passed route result
  serve-Passed free before bots route result e =
      let (peer, host, slot, method, path, stays, passed) =
        serve_checks free before bots route result e in
      (peer_is_ok-IsPeer peer, public_origin-IsHost host, slot, method, path, stays, passed)
