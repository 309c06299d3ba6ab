-- ===== src/Server/Profiles.antt =====
-- server/profile.go, `fetchProfile`, `getProfile`, `parseProfileRoot`, `parseProfilePosts`, `profileCDNURLs` and
-- `profileStatsLine`: how a profile is put together of two queries and the embed page.
use oginstagram.Base.{
  ℕ, zero, suc, ◌≤◌, Bool, true, false, not, List, [], ◌∷◌, Option, none, some, map, length,
  if◌then◌else◌, arith,
}
use oginstagram.Base.Int.{ℤ, pos, negsuc, to_nat}
use oginstagram.Base.Strings.{is_empty}
use oginstagram.Base.Text.{Text, codes, text_eq, to_lower}
use oginstagram.Errors.{ig_err, upstream, not_found, preferred_error}
use oginstagram.Fetch.Json.{Gjson}
use oginstagram.Fetch.Staged.{Result, success, failure}
use oginstagram.Models.{Profile, ProfileMedia}
use oginstagram.Models.Valid.{valid_source_model}
use oginstagram.Offload.Route.{profile_gallery_max}
use oginstagram.Routes.{valid_username}

abbrev pub unknown_count : ℤ
unknown_count = negsuc 0

-- The value at `data.xig_user_by_username`: missing, `null`, or there.
pub data User : Type 0 where
  missing no_user : User
  user : Text → User

module _ (json : Gjson) where
  unfoldable pub profile_of : Text → Profile
  profile_of u = record {
    username = codes (json.text_at u "username");
    full_name = codes (json.text_at u "full_name");
    biography = codes (json.text_at u "biography");
    profile_pic = codes (json.text_at u "profile_pic_url");
    follower_count = pos (to_nat (json.int_at u "follower_count"));
    media_count = unknown_count;
    is_private = json.bool_at u "is_private";
    is_verified = json.is_true u "is_verified";
    recent_media = [];
  }

  unfoldable pub parse_profile_root : User → Result Profile
  unfolding ig_err
  parse_profile_root missing = failure (ig_err 502 upstream "profile response had no user")
  parse_profile_root no_user =
      failure (record (ig_err 404 not_found "user not found") { final = true })
  parse_profile_root (user u) =
      if is_empty (json.text_at u "username")
      then failure (ig_err 502 upstream "profile had no username")
      else success (profile_of u)

  -- The loop over the edges, with the room that is left in the gallery.
  unfoldable pub thumbnails : ℕ → List Text → List ProfileMedia
  thumbnails zero edges = []
  thumbnails (suc room) [] = []
  thumbnails (suc room) (e ∷ edges) =
      let thumb = codes (json.text_at e "node.display_uri") in
      elim (text_eq thumb []) [
        | true ↦ thumbnails (suc room) edges
        | false ↦
            record { thumbnail = thumb; width = pos 0; height = pos 0 } ∷ thumbnails room edges
      ]

  unfoldable pub parse_profile_posts : Text → List ProfileMedia
  unfolding thumbnails
  parse_profile_posts body =
      thumbnails profile_gallery_max (
        json.elements_at body "data.xig_user_by_username.polaris_ordered_timeline_connection.edges")

  length-thumbnails : (room : ℕ) (edges : List Text) → length (thumbnails room edges) ≤ room
  unfolding thumbnails
  length-thumbnails zero edges = omega arith
  length-thumbnails (suc room) [] = omega arith
  length-thumbnails (suc room) (e ∷ edges) =
      ground (arith, length-thumbnails (suc room) edges, length-thumbnails room edges)

  -- The gallery never outgrows what the cache takes.
  pub length-parse_profile_posts :
      (body : Text) → length (parse_profile_posts body) ≤ profile_gallery_max
  unfolding parse_profile_posts
  length-parse_profile_posts body = length-thumbnails profile_gallery_max _

unfoldable pub profile_cdn_urls : Profile → List Text
profile_cdn_urls p = p.profile_pic ∷ map (λ m. m.thumbnail) p.recent_media

-- The end of the wait for the thumbnails: they came, failed, or did not come in time.
unfoldable pub with_gallery : Option (Result (List ProfileMedia)) → Profile → Profile
with_gallery (some (success media)) p = record p { recent_media = media }
with_gallery _ p = p

-- The answer of `fetchProfile`: a profile or an error, and whether it is persisted. The embed page is
-- asked only where the root query fails without a verdict.
unfoldable pub fetch_profile :
    (Profile → Profile × Bool)
    → Result Profile
    → Option (Result (List ProfileMedia))
    → Result Profile
    → Result Profile × Bool
unfolding with_gallery valid_source_model preferred_error
fetch_profile check (success p) posts embed =
    (valid_source_model check (success (with_gallery posts p)), true)
fetch_profile check (failure root) posts embed =
    if root.final then (failure root, false) else (elim (valid_source_model check embed) [
      | success p ↦ (success p, false)
      | failure err ↦ elim (preferred_error (some root) (some err)) [
        | none ↦ (failure err, false)
        | some e ↦ (failure e, false)
      ]
    ])

-- `getProfile`: the key, or the refusal of a name that none can have.
unfoldable pub profile_key : Text → Result Text
unfolding ig_err
profile_key username =
    if not (valid_username username)
    then failure (ig_err 404 not_found "invalid username")
    else success (to_lower username)
