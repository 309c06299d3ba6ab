-- ===== src/Gateway/Resolve/Flags.antt =====
-- What the flags of a resolved route say of it.
use oginstagram.Base.{
  ◌≡◌, refl, subst, Bool, true, false, not, ◌&&◌, ◌||◌, List, [], ◌∷◌, none, some, is_some,
  Option-cases, Bool-cases, inl, inr, arith,
}
use oginstagram.Base.Text.{Text, codes, text_eq, has_prefix}
use oginstagram.Routes.{EmbedRoute, parse_embed_segments, split_path}
use oginstagram.Offload.Route.{Url, offload_route}
use oginstagram.Gateway.Resolve.{
  Request, Action, media, GatewayRoute, plain_route, story_gateway_route, post_gateway_route,
  account_route, post_or_account_route, is_story_path, segments_route, is_offload_path,
  resolve_gateway_route,
}

abbrev pub is_media : Action → Bool
is_media (media h) = true
is_media _ = false

-- Whether the category is that of a post or a story.
abbrev pub has_media : GatewayRoute → Bool
has_media route = elim route.category [
  | none ↦ false
  | some c ↦ text_eq c (codes "posts") || text_eq c (codes "stories")
]

abbrev pub Flags : Request → GatewayRoute → Type 0
Flags r route =
    (route.card ≡ (has_media route && not (has_prefix r.host (codes "d."))))
    × (route.direct ≡ (has_media route && has_prefix r.host (codes "d.")))
    × (is_media route.handle ≡ (route.direct || route.offload))
    × (is_some route.human_redirect ≡ (is_some route.category && not route.direct))

module _ (path_escape : Text → Text) (escaped_path : Url → Text) (r : Request) where
  story-Flags : (u id : Text) → Flags r (story_gateway_route path_escape escaped_path r u id)
  unfolding story_gateway_route plain_route text_eq
  story-Flags u id = elim (Bool-cases (has_prefix r.host (codes "d."))) [
    | inl direct ↦ rw direct (refl, refl, refl, refl)
    | inr shown ↦ rw shown (refl, refl, refl, refl)
  ]

  post-Flags : (e : EmbedRoute) → Flags r (post_gateway_route path_escape escaped_path r e)
  unfolding post_gateway_route plain_route text_eq
  post-Flags e = elim (Bool-cases (has_prefix r.host (codes "d."))) [
    | inl direct ↦ rw direct (refl, refl, refl, refl)
    | inr shown ↦ rw shown (refl, refl, refl, refl)
  ]

  account-Flags :
      (segments : List Text) (route : GatewayRoute)
      → account_route path_escape escaped_path r segments ≡ some route
      → Flags r route
  unfolding account_route plain_route text_eq
  account-Flags [] route h = absurd (ground arith)
  account-Flags (u ∷ []) route h = ground arith
  account-Flags (u ∷ name ∷ []) route h = ground arith
  account-Flags (_ ∷ _ ∷ _ ∷ _) route h = absurd (ground arith)

  post_or_account-Flags :
      (segments : List Text) (route : GatewayRoute)
      → post_or_account_route path_escape escaped_path r segments ≡ some route
      → Flags r route
  unfolding post_or_account_route
  post_or_account-Flags segments route h = elim (Option-cases (parse_embed_segments segments)) [
    | inl other ↦ account-Flags segments route (ground (arith, other))
    | inr (e, found) ↦
        let same : post_gateway_route path_escape escaped_path r e ≡ route =
          ground (arith, found) in
        subst (Flags r) same (post-Flags e)
  ]

  segments-Flags :
      (segments : List Text) (route : GatewayRoute)
      → segments_route path_escape escaped_path r segments ≡ some route
      → Flags r route
  unfolding segments_route
  segments-Flags [] route h = post_or_account-Flags [] route h
  segments-Flags (a ∷ []) route h = post_or_account-Flags (a ∷ []) route h
  segments-Flags (a ∷ b ∷ []) route h = post_or_account-Flags (a ∷ b ∷ []) route h
  segments-Flags (a ∷ u ∷ id ∷ []) route h = elim (Bool-cases (is_story_path (a ∷ u ∷ id ∷ []))) [
    | inl told ↦
        let same : story_gateway_route path_escape escaped_path r u id ≡ route =
          ground (arith, told) in
        subst (Flags r) same (story-Flags u id)
    | inr other ↦ post_or_account-Flags (a ∷ u ∷ id ∷ []) route (ground (arith, other))
  ]
  segments-Flags (a ∷ b ∷ c ∷ d ∷ segments) route h =
      post_or_account-Flags (a ∷ b ∷ c ∷ d ∷ segments) route h

  -- Of a resolved route: it is a card exactly for a post or a story outside the `d.` host, and direct
  -- exactly for one on that host; media are served exactly by the direct and the offload routes; and a
  -- browser is sent to Instagram exactly where there is a category and the route is not direct.
  pub resolve_gateway_route-Flags :
      (route : GatewayRoute)
      → resolve_gateway_route path_escape escaped_path r ≡ some route
      → Flags r route
  unfolding resolve_gateway_route plain_route
  resolve_gateway_route-Flags route h =
      elim (Bool-cases (text_eq r.url.path (codes "/.well-known/webfinger"))) [
        | inl finger ↦ ground (arith, finger)
        | inr other ↦ elim (Bool-cases (is_offload_path (split_path r.url.path))) [
          | inr shown ↦ segments-Flags (split_path r.url.path) route (ground (arith, other, shown))
          | inl offloaded ↦ elim (Option-cases (offload_route escaped_path r.url)) [
            | inl bad ↦ absurd (ground (arith, other, offloaded, bad))
            | inr (found, good) ↦ ground (arith, other, offloaded, good)
          ]
        ]
      ]
