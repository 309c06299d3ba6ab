-- ===== src/Offload/Route/Canonical.antt =====
-- The canonical form of an offload path: it is read back as itself, with the same handler.
use oginstagram.Base.{
  ℕ, ◌≡◌, refl, subst, sym, ap, ◌∙◌, Bool, true, false, List, [], ◌∷◌, arith, Option-cases,
  Bool-cases, ◌==◌, All, take, some, inl, inr,
}
use oginstagram.Base.Text.{
  Text, codes, text_eq, text_eq_refl, text_eq_of_eq, eq_of_text_eq, to_lower,
}
use oginstagram.Query.{parse_canonical_decimal, max_cached_media_items}
use oginstagram.Routes.{join, split_path, valid_username, valid_story_id}
use oginstagram.Routes.Paths.{IsSegment, split_path-join}
use oginstagram.Routes.Names.{
  valid_shortcode-IsSegment, valid_username-IsSegment, valid_story_id-IsSegment, to_lower_idem,
  valid_username-to_lower, canonical_decimal-IsSegment,
}
use oginstagram.Offload.Route.{
  Url, Handler, story, profile_gallery_max, story_segments, story_route, media_number, post_route,
  profile_route, media_route, offload_segments, offload_route,
}

-- What holds of an accepted list of segments: they can stand in a path, and are read as themselves.
abbrev pub Fixed : List Text × Handler → Type 0
Fixed found =
    (rest : List Text) × (found.0 ≡ codes "offload" ∷ rest)
    × All IsSegment (found.0)
    × (offload_segments rest ≡ some found)

offload-IsSegment : IsSegment (codes "offload")
offload-IsSegment = (λ e. cc, refl)

avatar-IsSegment : IsSegment (codes "avatar")
avatar-IsSegment = (λ e. cc, refl)

lower-IsSegment : (u : Text) → valid_username u ≡ true → IsSegment (to_lower u)
lower-IsSegment u h = valid_username-IsSegment (to_lower u) (valid_username-to_lower u ∙ h)

story_kind-IsSegment : IsSegment (codes "story")
story_kind-IsSegment = (λ e. cc, refl)

-- A story's path, once it is valid.
story-Fixed :
    (u id : Text) (avatar : Bool)
    → valid_username u ≡ true
    → valid_story_id id ≡ true
    → Fixed (story_segments (to_lower u) id avatar, story (to_lower u) id avatar)
unfolding story_segments offload_segments story_route text_eq
story-Fixed u id true hu hi = (
  _,
  refl,
  (
    offload-IsSegment,
    (
      story_kind-IsSegment,
      (lower-IsSegment u hu, (valid_story_id-IsSegment id hi, (avatar-IsSegment, tt))),
    ),
  ),
  ground (arith, to_lower_idem u, valid_username-to_lower u),
)
story-Fixed u id false hu hi = (
  _,
  refl,
  (
    offload-IsSegment,
    (story_kind-IsSegment, (lower-IsSegment u hu, (valid_story_id-IsSegment id hi, tt))),
  ),
  ground (arith, to_lower_idem u, valid_username-to_lower u),
)

story_route-Fixed :
    (u id : Text) (avatar : Bool) (found : List Text × Handler)
    → story_route u id avatar ≡ some found
    → Fixed found
unfolding story_route
story_route-Fixed u id avatar found h =
    let same : (story_segments (to_lower u) id avatar, story (to_lower u) id avatar) ≡ found =
      ground arith in
    subst Fixed same (story-Fixed u id avatar (ground arith) (ground arith))

-- The third segment, when a number is read from it or it is `avatar`.
media_number-All :
    (rest : List Text) (max_index n : ℕ)
    → media_number rest max_index ≡ some n
    → rest ≡ take 1 rest
    → All IsSegment rest
unfolding media_number
media_number-All [] max_index n h one = tt
media_number-All (i ∷ []) max_index n h one = elim (Bool-cases (text_eq i (codes "avatar"))) [
  | inl e ↦ (subst IsSegment (sym (eq_of_text_eq i (codes "avatar") e)) avatar-IsSegment, tt)
  | inr other ↦ elim (Option-cases (parse_canonical_decimal i)) [
    | inl bad ↦ absurd (ground (arith, bad, other))
    | inr (m, good) ↦ (canonical_decimal-IsSegment i m good, tt)
  ]
]
media_number-All (i ∷ j ∷ rest) max_index n h one = absurd (ground arith)

-- The segments behind `offload` for a post or a profile.
media-Fixed :
    (name : Text) (rest : List Text) (found : List Text × Handler)
    → rest ≡ take 1 rest
    → found.0 ≡ codes "offload" ∷ name ∷ rest
    → IsSegment name
    → All IsSegment rest
    → media_route name rest ≡ some found
    → Fixed found
unfolding offload_segments
media-Fixed name [] found one e hname hrest same =
    (name ∷ [], e, subst (All IsSegment) (sym e) (offload-IsSegment, (hname, hrest)), same)
media-Fixed name (i ∷ []) found one e hname hrest same =
    (name ∷ i ∷ [], e, subst (All IsSegment) (sym e) (offload-IsSegment, (hname, hrest)), same)
media-Fixed name (i ∷ j ∷ rest) found one e hname hrest same = absurd (ground arith)

post_route-Fixed :
    (code : Text) (rest : List Text) (found : List Text × Handler)
    → rest ≡ take 1 rest
    → media_route code rest ≡ post_route code rest
    → post_route code rest ≡ some found
    → Fixed found
unfolding post_route
post_route-Fixed code rest found one same h =
    elim (Option-cases (media_number rest max_cached_media_items)) [
      | inl bad ↦ absurd (ground (arith, bad))
      | inr (n, good) ↦
          media-Fixed code rest found one (ground (arith, good))
            (valid_shortcode-IsSegment code (ground arith))
            (media_number-All rest max_cached_media_items n good one) (same ∙ h)
    ]

profile_route-Fixed :
    (u : Text) (rest : List Text) (found : List Text × Handler)
    → rest ≡ take 1 rest
    → profile_route u rest ≡ some found
    → Fixed found
unfolding profile_route media_route
profile_route-Fixed u rest found one h =
    elim (Option-cases (media_number rest profile_gallery_max)) [
      | inl bad ↦ absurd (ground (arith, bad))
      | inr (n, good) ↦
          media-Fixed (b'@' ∷ to_lower u) rest found one (ground (arith, good))
            (λ e. cc, (lower-IsSegment u (ground arith)).1)
            (media_number-All rest profile_gallery_max n good one)
            (ground (arith, good, to_lower_idem u, valid_username-to_lower u))
    ]

media_route-Fixed :
    (name : Text) (rest : List Text) (found : List Text × Handler)
    → rest ≡ take 1 rest
    → media_route name rest ≡ some found
    → Fixed found
unfolding media_route
media_route-Fixed [] rest found one h = post_route-Fixed [] rest found one refl h
media_route-Fixed (c ∷ name) rest found one h = elim (Bool-cases (c == b'@')) [
  | inl at ↦ profile_route-Fixed name rest found one (ground (arith, at))
  | inr other ↦
      post_route-Fixed (c ∷ name) rest found one (ground (arith, other)) (ground (arith, other))
]

offload_segments-Fixed :
    (rest : List Text) (found : List Text × Handler)
    → offload_segments rest ≡ some found
    → Fixed found
unfolding offload_segments
offload_segments-Fixed [] found h = absurd (ground arith)
offload_segments-Fixed (name ∷ []) found h = media_route-Fixed name [] found refl h
offload_segments-Fixed (name ∷ i ∷ []) found h = media_route-Fixed name (i ∷ []) found refl h
offload_segments-Fixed (kind ∷ u ∷ id ∷ []) found h =
    story_route-Fixed u id false found (ground arith)
offload_segments-Fixed (kind ∷ u ∷ id ∷ last ∷ []) found h =
    story_route-Fixed u id true found (ground arith)
offload_segments-Fixed (_ ∷ _ ∷ _ ∷ _ ∷ _ ∷ _) found h = absurd (ground arith)

module _ (escaped_path : Url → Text) where
  -- What an accepted URL is.
  pub accepted :
      (u : Url) (path : Text) (handler : Handler)
      → offload_route escaped_path u ≡ some (path, handler)
      → (rest : List Text) × (found : List Text × Handler) × (offload_segments rest ≡ some found)
        × (path ≡ b'/' ∷ join b'/' found.0)
        × (handler ≡ found.1)
  unfolding offload_route
  accepted u path handler h = go (split_path (u.path)) refl
    where
      go :
          (segments : List Text)
          → split_path (u.path) ≡ segments
          → (rest : List Text) × (found : List Text × Handler) × (offload_segments rest
              ≡ some found)
            × (path ≡ b'/' ∷ join b'/' found.0)
            × (handler ≡ found.1)
      go [] e = absurd (ground (arith, e))
      go (first ∷ rest) e = elim (Option-cases (offload_segments rest)) [
        | inl bad ↦ absurd (ground (arith, e, bad))
        | inr (found, good) ↦ (rest, found, good, ground (arith, e, good), ground (arith, e, good))
      ]

  pub accepts :
      (v : Url) (rest : List Text) (found : List Text × Handler)
      → split_path (v.path) ≡ codes "offload" ∷ rest
      → escaped_path v ≡ b'/' ∷ join b'/' (codes "offload" ∷ rest)
      → offload_segments rest ≡ some found
      → offload_route escaped_path v ≡ some (b'/' ∷ join b'/' found.0, found.1)
  unfolding offload_route
  accepts v rest found split escaped good =
      let same =
        text_eq_of_eq (escaped_path v) (b'/' ∷ join b'/' (codes "offload" ∷ rest)) escaped in
      ground (arith, split, same, good, text_eq_refl (codes "offload"))

  -- The canonical form of an accepted offload path is itself accepted, as its own canonical form and
  -- with the same handler, by every URL whose path and escaped path it is.
  pub offload_route-canonical :
      (u v : Url) (path : Text) (handler : Handler)
      → offload_route escaped_path u ≡ some (path, handler)
      → v.path ≡ path
      → escaped_path v ≡ path
      → offload_route escaped_path v ≡ some (path, handler)
  offload_route-canonical u v path handler h hp he =
      let (rest, found, good, printed, chosen) = accepted u path handler h in
      let (again, joined, segments, fixed) = offload_segments-Fixed rest found good in
      let spelled = printed ∙ ap (λ s. b'/' ∷ join b'/' s) joined in
      let split =
        ap split_path (hp ∙ spelled)
        ∙ split_path-join (codes "offload") again (subst (All IsSegment) joined segments) in
      accepts v again found split (he ∙ spelled) fixed
      ∙ ap some (ap (λ p. (p, found.1)) (sym printed) ∙ ap (λ q. (path, q)) (sym chosen))
