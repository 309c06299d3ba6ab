-- ===== src/Offload/Route.antt =====
-- server/gateway.go `offloadRoute`: the validation of an offload path, its canonical form and the
-- handler that it selects.
pub mod Canonical
use oginstagram.Base.{
  ℕ, suc, ◌-◌, Bool, true, false, ◌&&◌, ◌||◌, not, List, [], ◌∷◌, ◌++◌, Option, none, some, ◌>>=◌,
  ltb, ◌==◌, is_some, length, if◌then◌else◌,
}
use oginstagram.Base.Text.{Text, codes, text_eq, to_lower}
use oginstagram.Query.{parse_canonical_decimal, max_cached_media_items}
use oginstagram.Routes.{join, split_path, valid_shortcode, valid_username, valid_story_id}

abbrev pub profile_gallery_max : ℕ
profile_gallery_max = 6

-- The fields of `url.URL` that the source reads.
pub record Url : Type 0 where
  pub path : Text
  pub raw_path : Text
  pub raw_query : Text

-- The handler closures with the arguments that they capture: `handleStoryOffload`, `handleOffload`
-- and `handleProfileOffload`.
pub data Handler : Type 0 where
  story : Text → Text → Bool → Handler
  post : Text → ℕ → Bool → Handler
  profile : Text → ℕ → Handler

-- The segments behind `offload` for a story: the account, the id and perhaps `avatar`.
unfoldable pub story_segments : Text → Text → Bool → List Text
story_segments username id true =
    codes "offload" ∷ codes "story" ∷ username ∷ id ∷ codes "avatar" ∷ []
story_segments username id false = codes "offload" ∷ codes "story" ∷ username ∷ id ∷ []

unfoldable pub story_route : Text → Text → Bool → Option (List Text × Handler)
story_route username id avatar =
    if not (valid_username username) || not (valid_story_id id)
    then none
    else some (story_segments (to_lower username) id avatar, story (to_lower username) id avatar)

-- The index in the third segment, `n` in the source: 0 without one or for `avatar`.
unfoldable pub media_number : List Text → ℕ → Option ℕ
media_number [] max_index = some 0
media_number (i ∷ _) max_index =
    if text_eq i (codes "avatar")
    then some 0
    else (parse_canonical_decimal i >>= λ n. if ltb n 1 || ltb max_index n then none else some n)

unfoldable pub is_avatar : List Text → Bool
is_avatar [] = false
is_avatar (i ∷ _) = text_eq i (codes "avatar")

-- `rest` holds the third segment, if there is one.
unfoldable pub post_route : Text → List Text → Option (List Text × Handler)
post_route shortcode rest =
    if not (valid_shortcode shortcode)
    then none
    else (media_number rest max_cached_media_items >>= λ n.
        some (codes "offload" ∷ shortcode ∷ rest, post shortcode (n - 1) (is_avatar rest)))

unfoldable pub profile_route : Text → List Text → Option (List Text × Handler)
profile_route username rest =
    if not (valid_username username)
    then none
    else (media_number rest profile_gallery_max >>= λ n.
        some (codes "offload" ∷ (b'@' ∷ to_lower username) ∷ rest, profile (to_lower username) n))

-- `strings.CutPrefix(s[1], "@")` chooses between the two.
unfoldable pub media_route : Text → List Text → Option (List Text × Handler)
media_route [] rest = post_route [] rest
media_route (c ∷ name) rest =
    if c == b'@' then profile_route name rest else post_route (c ∷ name) rest

-- The segments behind `offload`.
unfoldable pub offload_segments : List Text → Option (List Text × Handler)
offload_segments [] = none
offload_segments (name ∷ []) = media_route name []
offload_segments (name ∷ i ∷ []) = media_route name (i ∷ [])
offload_segments (kind ∷ username ∷ id ∷ []) =
    if text_eq kind (codes "story") then story_route username id false else none
offload_segments (kind ∷ username ∷ id ∷ last ∷ []) =
    if text_eq kind (codes "story") && text_eq last (codes "avatar")
    then story_route username id true
    else none
offload_segments _ = none

-- `escaped_path` is `(*url.URL).EscapedPath`.
module _ (escaped_path : Url → Text) where
  unfoldable pub offload_route : Url → Option (Text × Handler)
  offload_route u = elim (split_path (u.path)) [
    | [] ↦ none
    | first ∷ rest ↦
        if not (text_eq first (codes "offload"))
          || not (text_eq (escaped_path u) (b'/' ∷ join b'/' (first ∷ rest)))
        then none
        else (offload_segments rest >>= λ found. some (b'/' ∷ join b'/' found.0, found.1))
  ]
