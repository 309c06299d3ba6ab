-- ===== src/Tests/Links.antt =====
-- Offload links on concrete inputs: server/offload_signer.go and `offloadRoute`.
use oginstagram.Base.{
  ℕ, zero, suc, ◌+◌, ◌*◌, ◌%◌, ◌<◌, ◌≤◌, ◌≡◌, refl, true, false, [], ◌∷◌, none, some, arith, All,
  length, replicate, length-replicate,
}
use oginstagram.Base.Text.{Text, codes, text_eq, lower}
use oginstagram.Base.Assoc.{lookup}
use oginstagram.Base64.{encode}
use oginstagram.Base64.RoundTrip.{IsByte}
use oginstagram.Config.{second, hour}
use oginstagram.Decimal.{itoa, read, parse_uint}
use oginstagram.Query.{parse_canonical_decimal}
use oginstagram.Routes.{
  split_path, split, join, trim_left, trim_right, prepend, valid_shortcode, valid_username,
  valid_story_id,
}
use oginstagram.Offload.Route.{
  Url, Handler, story, post, profile, offload_route, offload_segments, story_route, story_segments,
  media_route, post_route, profile_route, media_number, is_avatar,
}
use oginstagram.Offload.Route.Canonical.{offload_route-canonical}
use oginstagram.Offload.Signer.{
  Signer, canonical_query, expiry, offload_mac, signature, signed_query, authorize, unix_epoch,
}
use oginstagram.Offload.Signer.RoundTrip.{IsDigest, authorize-signed_query}
use oginstagram.Offload.Signer.Soundness.{IsSigned, authorize-IsSigned}

-- A digest that only counts.
abbrev count_hmac : Text → Text → Text
count_hmac key message = replicate 32 ((length key + length message) % 256)

replicate-IsByte : (n a : ℕ) → a < 256 → All IsByte (replicate n a)
replicate-IsByte zero a h = tt
replicate-IsByte (suc n) a h = (h, replicate-IsByte n a h)

count_hmac-IsDigest : IsDigest count_hmac
count_hmac-IsDigest key message = (
  length-replicate 32 ((length key + length message) % 256),
  replicate-IsByte 32 ((length key + length message) % 256) (omega arith),
)

abbrev plain_escape : Url → Text
plain_escape u = u.path

abbrev signer : Signer
signer = record { active = codes "k1"; keys = (codes "k1", replicate 32 1) ∷ [] }

abbrev link_path : Text
link_path = codes "/offload/ABC/2"

abbrev made_at : ℕ
made_at = unix_epoch * second + 5 * hour + 7

abbrev link_query : Text
link_query = canonical_query (codes "2") (codes "k1") (itoa (expiry made_at)) (
    encode (
      offload_mac count_hmac plain_escape (replicate 32 1) (codes "k1") link_path (expiry made_at)))

abbrev link : Url
link = record { path = link_path; raw_path = []; raw_query = link_query }

link_route : offload_route plain_escape link ≡ some (link_path, post (codes "ABC") 1 false)
unfolding offload_route split_path split prepend trim_left trim_right join offload_segments
    media_route post_route media_number is_avatar parse_canonical_decimal parse_uint read
    valid_shortcode text_eq
link_route = refl

link_signed :
    signed_query count_hmac plain_escape signer link_path false (expiry made_at) ≡ some link_query
unfolding signed_query signature lookup text_eq
link_signed = refl

link_authorized : authorize count_hmac plain_escape signer link 20000 ≡ true
link_authorized =
    authorize-signed_query count_hmac plain_escape count_hmac-IsDigest signer link link_path
      link_query (post (codes "ABC") 1 false) false made_at 20000 refl link_route link_signed refl
      (omega arith) (omega arith) (omega arith) (omega arith)

authorize-signed_query_example : authorize count_hmac plain_escape signer link 20000 ≡ true
authorize-signed_query_example =
    authorize-signed_query count_hmac plain_escape count_hmac-IsDigest signer link link_path
      link_query (post (codes "ABC") 1 false) false made_at 20000 refl link_route link_signed refl
      (omega arith) (omega arith) (omega arith) (omega arith)

authorize-IsSigned_example :
    (path kid : Text) × (handler : Handler) × (expires : ℕ) × (offload_route plain_escape link
      ≡ some (path, handler))
    × (20000 < expires)
    × (expires ≤ 20000 + 30 * 24 * 60 * 60)
    × IsSigned count_hmac plain_escape signer path kid expires link_query
authorize-IsSigned_example =
    authorize-IsSigned count_hmac plain_escape signer link 20000 link_authorized

abbrev profile_link : Text → Url
profile_link path = record { path = path; raw_path = []; raw_query = [] }

profile_route_lowered :
    offload_route plain_escape (profile_link (codes "/offload/@Ab.C/2"))
    ≡ some (codes "/offload/@ab.c/2", profile (codes "ab.c") 2)
unfolding offload_route split_path split prepend trim_left trim_right join offload_segments
    media_route profile_route media_number is_avatar parse_canonical_decimal parse_uint read
    valid_username text_eq lower
profile_route_lowered = refl

offload_route-canonical_example :
    offload_route plain_escape (profile_link (codes "/offload/@ab.c/2"))
    ≡ some (codes "/offload/@ab.c/2", profile (codes "ab.c") 2)
offload_route-canonical_example =
    offload_route-canonical plain_escape (profile_link (codes "/offload/@Ab.C/2"))
      (profile_link (codes "/offload/@ab.c/2")) (codes "/offload/@ab.c/2")
      (profile (codes "ab.c") 2) profile_route_lowered refl refl

-- A story link, and links that are no canonical spelling or out of range.
story_link :
    offload_route plain_escape (profile_link (codes "/offload/story/ab/12/avatar"))
    ≡ some (codes "/offload/story/ab/12/avatar", story (codes "ab") (codes "12") true)
unfolding offload_route split_path split prepend trim_left trim_right join offload_segments
    story_route story_segments valid_username valid_story_id text_eq lower
story_link = refl

slash_refused : offload_route plain_escape (profile_link (codes "/offload/ABC/")) ≡ none
unfolding offload_route split_path split prepend trim_left trim_right join text_eq
slash_refused = refl

profile_range : offload_route plain_escape (profile_link (codes "/offload/@ab/7")) ≡ none
unfolding offload_route split_path split prepend trim_left trim_right join offload_segments
    media_route profile_route media_number parse_canonical_decimal parse_uint read valid_username
    text_eq lower
profile_range = refl
