-- ===== src/Models/Valid.antt =====
-- server/cache.go, `validCached…`, `cloneAndValidateCacheValue`, `validSourceModel`; server/media.go,
-- `trustedMediaURL`; server/helpers.go, `normalizeCDNHost`: what a parsed model must be to enter a
-- cache. `url.Parse` and `URL.String` are parameters, and so is
-- the clone of a model: `jsonClone`, which encodes it as JSON and decodes that.
pub mod Normal
use oginstagram.Base.{
  ℕ, Bool, true, false, not, ◌&&◌, ◌||◌, [], ◌∷◌, map, reverse, Option, none, some, length, leb,
  all, if◌then◌else◌,
}
use oginstagram.Base.Int.{ℤ, pos, negsuc, leb_int}
use oginstagram.Base.Text.{Text, codes, text_eq, has_prefix, to_lower}
use oginstagram.Offload.Route.{profile_gallery_max}
use oginstagram.Query.{max_cached_media_items}
use oginstagram.Errors.{AppError, ig_err, upstream}
use oginstagram.Fetch.Staged.{Result, success, failure}
use oginstagram.Models.{Attachment, Post, Story, Profile, ProfileMedia}
use oginstagram.Routes.{valid_shortcode, valid_username, valid_story_id}

-- What the source reads of a `url.URL`; `hostname` and `port` are the parts of `host`.
pub record Url : Type 0 where
  pub scheme : Text
  pub has_user : Bool
  pub host : Text
  pub hostname : Text
  pub port : Text
  pub opaque_part : Text

-- `strings.HasSuffix`
unfoldable pub has_suffix : Text → Text → Bool
unfolding has_prefix
has_suffix s t = has_prefix (reverse s) (reverse t)

-- `strings.EqualFold` on ASCII text.
abbrev pub equal_fold : Text → Text → Bool
equal_fold s t = text_eq (to_lower s) (to_lower t)

-- `strings.TrimSuffix(s, ".")`
unfoldable pub trim_dot : Text → Text
trim_dot [] = []
trim_dot (c ∷ []) = if text_eq (c ∷ []) (codes ".") then [] else c ∷ []
trim_dot (c ∷ d ∷ s) = c ∷ trim_dot (d ∷ s)

abbrev pub is_cdn_host : Text → Bool
is_cdn_host host =
    text_eq host (codes "cdninstagram.com")
    || has_suffix host (codes ".cdninstagram.com")
    || text_eq host (codes "fbcdn.net")
    || has_suffix host (codes ".fbcdn.net")

unfoldable pub trusted_media_url : Option Url → Bool
unfolding trim_dot has_suffix text_eq
trusted_media_url none = false
trusted_media_url (some u) =
    if not (text_eq u.scheme (codes "https"))
      || u.has_user
      || not (text_eq u.port [])
      || not (text_eq u.opaque_part [])
    then false
    else is_cdn_host (trim_dot (to_lower u.hostname))

-- `strings.Cut` at one byte: the parts before and after it, or nothing.
unfoldable pub cut_at : ℕ → Text → Option (Text × Text)
cut_at sep [] = none
cut_at sep (c ∷ s) = elim (text_eq (c ∷ []) (sep ∷ [])) [
  | true ↦ some ([], s)
  | false ↦ elim (cut_at sep s) [ none ↦ none | some p ↦ some (c ∷ p.0, p.1) ]
]

abbrev pub max_dimension : ℤ
max_dimension = pos 100_000

unfoldable pub valid_cached_dimensions : ℤ → ℤ → Bool
unfolding leb_int
valid_cached_dimensions width height =
    leb_int (pos 0) width
    && leb_int width max_dimension
    && leb_int (pos 0) height
    && leb_int height max_dimension

module _ (parse_url : Text → Option Url) where
  unfoldable pub valid_cached_url : Text → Bool
  unfolding trusted_media_url
  valid_cached_url raw = trusted_media_url (parse_url raw)

  unfoldable pub valid_optional_cached_url : Text → Bool
  valid_optional_cached_url raw = text_eq raw [] || valid_cached_url raw

  unfoldable pub valid_cached_attachment : Attachment → Bool
  valid_cached_attachment a =
      if not (text_eq a.kind (codes "image")) && not (text_eq a.kind (codes "video"))
      then false
      else valid_cached_url a.url
        && valid_optional_cached_url a.thumbnail
        && valid_cached_dimensions a.width a.height

  unfoldable pub valid_cached_post : Text → Post → Bool
  valid_cached_post key post =
      if not (valid_shortcode post.shortcode)
        || not (text_eq post.shortcode key)
        || not (valid_username post.username)
        || leb (length post.attachments) 0
        || not (leb (length post.attachments) max_cached_media_items)
        || not (valid_optional_cached_url post.profile_pic)
      then false
      else all valid_cached_attachment post.attachments

  abbrev pub valid_gallery_media : ProfileMedia → Bool
  valid_gallery_media m =
      not (text_eq m.thumbnail [])
      && valid_cached_url m.thumbnail
      && valid_cached_dimensions m.width m.height

  unfoldable pub valid_cached_profile : Text → Profile → Bool
  valid_cached_profile key profile =
      if not (valid_username profile.username)
        || not (equal_fold profile.username key)
        || not (valid_optional_cached_url profile.profile_pic)
        || not (leb (length profile.recent_media) profile_gallery_max)
        || not (leb_int (pos 0) profile.follower_count)
        || not (leb_int (negsuc 0) profile.media_count)
      then false
      else all valid_gallery_media profile.recent_media

  unfoldable pub valid_cached_story : Text → Story → Bool
  valid_cached_story key story = elim (cut_at b'/' key) [
    | none ↦ false
    | some parts ↦
        valid_username story.username
        && equal_fold story.username parts.0
        && valid_story_id story.id
        && text_eq story.id parts.1
        && valid_optional_cached_url story.profile_pic
        && valid_cached_attachment story.media
  ]

  module _ (render : Url → Text) where
    unfoldable pub normalize_cdn_host : Text → Text
    normalize_cdn_host raw = elim (parse_url raw) [
      | none ↦ raw
      | some u ↦
          if text_eq raw [] || text_eq u.host []
          then raw
          else if has_suffix u.hostname (codes ".fbcdn.net")
              || has_suffix u.hostname (codes ".cdninstagram.com")
          then render (record u { host = codes "scontent.cdninstagram.com" })
          else raw
    ]

    unfoldable pub normalize_cached_attachment : Attachment → Attachment
    normalize_cached_attachment a = record a {
      url = normalize_cdn_host a.url;
      thumbnail = normalize_cdn_host a.thumbnail;
    }

    unfoldable pub normalize_post : Post → Post
    normalize_post post = record post {
      profile_pic = normalize_cdn_host post.profile_pic;
      attachments = map normalize_cached_attachment post.attachments;
    }

    unfoldable pub normalize_gallery_media : ProfileMedia → ProfileMedia
    normalize_gallery_media m = record m { thumbnail = normalize_cdn_host m.thumbnail }

    unfoldable pub normalize_profile : Profile → Profile
    normalize_profile profile = record profile {
      profile_pic = normalize_cdn_host profile.profile_pic;
      recent_media = map normalize_gallery_media profile.recent_media;
    }

    unfoldable pub normalize_story : Story → Story
    normalize_story story = record story {
      profile_pic = normalize_cdn_host story.profile_pic;
      media = normalize_cached_attachment story.media;
    }

    -- The clone is normalized, and then tested.
    unfoldable pub clone_and_validate_post : (Post → Post) → Text → Post → Post × Bool
    clone_and_validate_post clone key post =
        let normal = normalize_post (clone post) in (normal, valid_cached_post key normal)

    unfoldable pub clone_and_validate_profile :
        (Profile → Profile) → Text → Profile → Profile × Bool
    clone_and_validate_profile clone key profile =
        let normal = normalize_profile (clone profile) in (normal, valid_cached_profile key normal)

    unfoldable pub clone_and_validate_story : (Story → Story) → Text → Story → Story × Bool
    clone_and_validate_story clone key story =
        let normal = normalize_story (clone story) in (normal, valid_cached_story key normal)

-- `validSourceModel` over the `cloneAndValidateCacheValue` of one type.
abbrev pub invalid_model : AppError
invalid_model = ig_err 502 upstream "upstream returned an invalid cache model"

unfoldable pub valid_source_model {ℓ} : {V : Type ℓ} → (V → V × Bool) → Result V → Result V
valid_source_model check (failure e) = failure e
valid_source_model check (success v) = if (check v).1 then success v else failure invalid_model
