-- ===== src/Server/Handlers.antt =====
-- server/main.go, `handleOffload`, `handleProfileOffload`, `handlePost`, `handleProfile`, `errorCardResp`;
-- server/story.go, `handleStory`, `handleStoryOffload`; server/media.go; server/component_embed.go,
-- `cardResp`; server/activity.go, `apLinks`, `activityResp`. Parameters: `url.PathEscape`, `url.Parse`, and
-- the documents of cards and objects. What `getPost` and its kin return is an argument, with whether a
-- fetch was made.
use Prim.Native.String.{String}
use oginstagram.Base.{
  ℕ, ◌-◌, Bool, true, false, not, ◌&&◌, List, [], ◌∷◌, ◌++◌, ◌==◌, Option, none, some, min, ltb,
  length, get_elem?, if◌then◌else◌,
}
use oginstagram.Base.Strings.{is_empty, has_part}
use oginstagram.Base.Text.{Text, codes, text_eq, contains}
use oginstagram.Config.{max_avatar_bytes}
use oginstagram.Errors.{AppError, ErrorCode, ig_err, upstream}
use oginstagram.Errors.Card.{error_card}
use oginstagram.Fetch.Staged.{Result, success, failure}
use oginstagram.Gateway.Resolve.{instagram_origin}
use oginstagram.Models.{Attachment, Post, Story, Profile}
use oginstagram.Models.Valid.{Url, trusted_media_url}
use oginstagram.Server.{
  Resp, plain_resp, content_type, edge_control, with_header, redirect_resp, tag_fetch, partial_resp,
  offload_error_resp, activity_error_resp,
}

-- What a getter returns, and whether its flight fetched.
pub record Fetched {ℓ} (V : Type ℓ) : Type ℓ where
  pub result : Result V
  pub fetched : Bool

abbrev pub default_avatar_path : Text
default_avatar_path = codes "/default-avatar.jpg"

unfoldable pub media_index_for : Post → ℕ → ℕ
media_index_for post requested = min requested (length post.attachments - 1)

-- `fetchAvatar` behind the connection: what `client.Do` and the body gave.
pub data AvatarAnswer : Type 0 where
  broken : AppError → AvatarAnswer
  answered : ℕ → Text → Result Text → AvatarAnswer

abbrev pub avatar_types : List Text
avatar_types =
    codes "image/jpeg"
    ∷ codes "image/png"
    ∷ codes "image/webp"
    ∷ codes "image/gif"
    ∷ codes "image/avif"
    ∷ []

-- `statusOnly`, the test of the type, the read and its limit.
unfoldable pub fetch_avatar : (ℕ → String) → AvatarAnswer → Result (Text × Text)
fetch_avatar status_text (broken e) = failure e
fetch_avatar status_text (answered status type body) =
    if not (status == 200)
    then failure (ig_err status upstream (status_text status))
    else if not (contains avatar_types type)
    then failure (ig_err 502 upstream "avatar is not an image")
    else (elim body [
      | failure e ↦ failure e
      | success bytes ↦
          if ltb max_avatar_bytes (length bytes)
          then failure (ig_err 502 upstream "avatar too large")
          else success (type, bytes)
    ])

-- `linkValue` and `apLinks`.
unfoldable pub link_value : Text → Text → Text → Text
link_value href rel media_type =
    codes "<" ++ href ++ codes ">; rel=\"" ++ rel ++ codes "\"; type=\"" ++ media_type ++ codes "\""

abbrev pub as_media_type : Text
as_media_type = codes "application/activity+json"

unfoldable pub ap_links : Text → Text → Text → Text
ap_links id id_type actor =
    let header = link_value id (codes "alternate") id_type in
    if text_eq actor []
    then header
    else header ++ codes ", " ++ link_value actor (codes "author") as_media_type

unfoldable pub activity_resp : Text → Text → Text → Resp
activity_resp body id actor =
    plain_resp 200
      ((content_type, as_media_type)
        ∷ (codes "Vary", codes "Accept")
        ∷ (codes "Link", ap_links id (codes "text/html") actor)
        ∷ [])
      body

abbrev pub embed_header : Text
embed_header = codes "X-OGInstagram-Embed"

unfoldable pub card_resp : Text → Text → Text → Resp
unfolding with_header
card_resp document id actor =
    let bare : Resp =
      plain_resp 200
        ((content_type, codes "text/html; charset=utf-8")
          ∷ (codes "Vary", codes "Accept")
          ∷ (embed_header, codes "opengraph")
          ∷ [])
        document in
    let linked : Resp =
      if text_eq id []
      then bare
      else with_header (codes "Link") (ap_links id as_media_type actor) bare in
    if has_part document (codes "id=\"discord:component-embed\"")
    then with_header embed_header (codes "component") linked
    else linked

unfoldable pub error_card_resp : Text → AppError → ErrorCode → Bool → Resp
unfolding card_resp tag_fetch
error_card_resp document err header_code fetched =
    tag_fetch
      (record (card_resp document [] []) { origin_status = err.status; error_type = header_code })
      fetched

-- `avatarResp`: a trusted avatar is copied, and a failed copy falls back to the redirect.
module _ (parse_url : Text → Option Url) (copy : Text → Result (Text × Text)) where
  unfoldable pub avatar_resp : Text → Resp
  unfolding redirect_resp with_header
  avatar_resp target =
      if not (trusted_media_url (parse_url target))
      then redirect_resp target 302
      else (elim (copy target) [
        | failure e ↦
            with_header edge_control (codes "max-age=60")
              (record (redirect_resp target 302) { origin_status = e.status; error_type = e.code })
        | success found ↦ record (plain_resp 200 ((content_type, found.0) ∷ []) found.1) {
          media_url = target;
        }
      ])

  module _ (base_url : Text) where
    unfoldable pub offload_resp : Text → Bool → Resp
    unfolding avatar_resp redirect_resp
    offload_resp given avatar =
        let target = if text_eq given [] then base_url ++ default_avatar_path else given in
        if avatar then avatar_resp target else redirect_resp target 302

    unfoldable pub offload_media : Bool → Post → Option Attachment → Option Resp
    unfolding offload_resp partial_resp
    offload_media thumbnail post none = none
    offload_media thumbnail post (some media) =
        some (
          partial_resp (offload_resp (if thumbnail then media.thumbnail else media.url) false) post)

    -- What `handleOffload` answers for a post that it has; `none` is an index out of range.
    unfoldable pub offload_post : Text → Bool → Post → ℕ → Bool → Option Resp
    unfolding offload_media offload_resp partial_resp media_index_for redirect_resp
    offload_post fallback thumbnail post index avatar =
        if post.is_partial && not avatar && not (index == 0)
        then some (partial_resp (redirect_resp fallback 302) post)
        else if avatar
        then some (partial_resp (offload_resp post.profile_pic true) post)
        else offload_media thumbnail post (get_elem? post.attachments (media_index_for post index))

    -- A partial post at hand, without a full one, need not wait for the flight.
    unfoldable pub handle_offload :
        (Text → Text) → Option Post → Bool → Fetched Post → Bool → Text → ℕ → Bool → Option Resp
    unfolding offload_post tag_fetch offload_error_resp
    handle_offload path_escape og cached got thumbnail shortcode index avatar =
        let fallback = instagram_origin ++ codes "/p/" ++ path_escape shortcode ++ codes "/" in
        elim (if cached then none else og) [
          | some post ↦ elim (offload_post fallback thumbnail post index avatar) [
            | none ↦ none
            | some r ↦ some (tag_fetch r false)
          ]
          | none ↦ elim got.result [
            | failure e ↦ some (tag_fetch (offload_error_resp e fallback) got.fetched)
            | success post ↦ elim (offload_post fallback thumbnail post index avatar) [
              | none ↦ none
              | some r ↦ some (tag_fetch r got.fetched)
            ]
          ]
        ]

    unfoldable pub handle_profile_offload : (Text → Text) → Fetched Profile → Text → ℕ → Resp
    unfolding offload_resp tag_fetch offload_error_resp
    handle_profile_offload path_escape got username n = elim got.result [
      | failure e ↦
          tag_fetch
            (offload_error_resp e
              (instagram_origin ++ codes "/" ++ path_escape username ++ codes "/"))
            got.fetched
      | success p ↦
          if n == 0
          then tag_fetch (offload_resp p.profile_pic true) got.fetched
          else (elim (get_elem? p.recent_media (n - 1)) [
            | none ↦ plain_resp 404 [] []
            | some media ↦ tag_fetch (offload_resp media.thumbnail false) got.fetched
          ])
    ]

    unfoldable pub handle_story_offload : Fetched Story → Text → Bool → Bool → Resp
    unfolding offload_resp tag_fetch offload_error_resp
    handle_story_offload got fallback thumbnail avatar = elim got.result [
      | failure e ↦ tag_fetch (offload_error_resp e fallback) got.fetched
      | success story ↦
          let target =
            if avatar
            then story.profile_pic
            else if thumbnail
            then story.media.thumbnail
            else story.media.url in
          tag_fetch (offload_resp target avatar) got.fetched
    ]

-- The card handlers. Their documents are parameters: the card and the object of what was found, with
-- the object's id and actor, and the card of an error by its title and description.
pub record Documents {ℓ} (V : Type ℓ) : Type ℓ where
  pub card_of : V → Text
  pub object_of : V → Text
  pub id_of : V → Text
  pub actor_of : V → Text
  pub status_card : Text → Text → Text

module _ {ℓ} {V : Type ℓ} (docs : Documents V) where
  -- The answer for an error of `handlePost`: a gate's own card replaces the default one.
  unfoldable pub post_error : AppError → Bool → Resp
  unfolding error_card_resp
  post_error err fetched =
      let (title, desc) = error_card (codes "post") err.code in
      if not (is_empty err.card_title)
      then error_card_resp (docs.status_card (codes err.card_title) (codes err.card_desc)) err
          err.card_code fetched
      else error_card_resp (docs.status_card title desc) err err.code fetched

  -- `handleStory` and `handleProfile` by their kind.
  unfoldable pub kind_error : Text → AppError → Bool → Resp
  unfolding error_card_resp
  kind_error kind err fetched =
      let (title, desc) = error_card kind err.code in
      error_card_resp (docs.status_card title desc) err err.code fetched

  unfoldable pub handle_card :
      (ℕ → String → Text) → (AppError → Bool → Resp) → Bool → Fetched V → Resp
  unfolding activity_error_resp activity_resp card_resp tag_fetch
  handle_card problem_json on_error activity got = elim got.result [
    | failure e ↦
        if activity
        then tag_fetch (activity_error_resp problem_json e) got.fetched
        else on_error e got.fetched
    | success v ↦
        tag_fetch
          (if activity
            then activity_resp (docs.object_of v) (docs.id_of v) (docs.actor_of v)
            else card_resp (docs.card_of v) (docs.id_of v) (docs.actor_of v))
          got.fetched
  ]

unfoldable pub handle_post : Documents Post → (ℕ → String → Text) → Bool → Fetched Post → Resp
unfolding handle_card post_error partial_resp card_resp tag_fetch
handle_post docs problem_json activity got = elim got.result [
  | failure e ↦ handle_card docs problem_json (post_error docs) activity got
  | success post ↦
      if activity
      then handle_card docs problem_json (post_error docs) activity got
      else tag_fetch
          (partial_resp (card_resp (docs.card_of post) (docs.id_of post) (docs.actor_of post)) post)
          got.fetched
]

unfoldable pub handle_story : Documents Story → (ℕ → String → Text) → Bool → Fetched Story → Resp
unfolding handle_card kind_error
handle_story docs problem_json activity got =
    handle_card docs problem_json (kind_error docs (codes "story")) activity got

-- A profile has no author of its own.
unfoldable pub handle_profile :
    Documents Profile → (ℕ → String → Text) → Bool → Fetched Profile → Resp
unfolding handle_card kind_error
handle_profile docs problem_json activity got =
    handle_card (record docs { actor_of = λ p. [] }) problem_json
      (kind_error docs (codes "profile")) activity got
