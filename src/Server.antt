-- ===== src/Server.antt =====
-- server/main.go, server/media.go, server/activity.go: the responses, and the handlers that make them of
-- what the caches and Instagram answered.
pub mod Handlers
pub mod Profiles
use Prim.Native.String.{String}
use oginstagram.Base.{
  ℕ, Bool, true, false, not, ◌&&◌, ◌||◌, List, [], ◌∷◌, ◌++◌, ◌==◌, Option, none, some,
  if◌then◌else◌,
}
use oginstagram.Base.Assoc.{insert, lookup}
use oginstagram.Base.Text.{Text, codes, text_eq}
use oginstagram.Errors.{AppError, ErrorCode, no_code, is_transient, restricted, geo_blocked}
use oginstagram.Models.{Post}

pub record Resp : Type 0 where
  pub status : ℕ
  pub headers : List (Text × Text)
  pub body : Text
  -- Read by the gateway; never sent to clients.
  pub origin_status : ℕ
  pub error_type : ErrorCode
  pub cache_hit : Bool
  pub media_url : Text

-- A `resp` of which a status, headers and a body are given.
abbrev pub plain_resp : ℕ → List (Text × Text) → Text → Resp
plain_resp status headers body = record {
  status = status;
  headers = headers;
  body = body;
  origin_status = 0;
  error_type = no_code;
  cache_hit = false;
  media_url = [];
}

abbrev pub content_type : Text
content_type = codes "Content-Type"

abbrev pub location : Text
location = codes "Location"

abbrev pub edge_control : Text
edge_control = codes "Cloudflare-CDN-Cache-Control"

unfoldable pub header_of : Text → Resp → Text
header_of name r = elim (lookup name r.headers) [ none ↦ [] | some v ↦ v ]

unfoldable pub with_header : Text → Text → Resp → Resp
with_header name value r = record r { headers = insert name value r.headers }

unfoldable pub json_resp : ℕ → Text → Resp
json_resp status body = plain_resp status ((content_type, codes "application/json") ∷ []) body

unfoldable pub text_resp : ℕ → Text → Resp
text_resp status text =
    plain_resp status ((content_type, codes "text/plain; charset=utf-8") ∷ []) text

unfoldable pub redirect_resp : Text → ℕ → Resp
redirect_resp target status =
    plain_resp status ((location, target) ∷ (content_type, codes "text/plain; charset=utf-8") ∷ [])
      []

-- `problem_json` is the body that `jsonBytes` makes of the status and the detail.
unfoldable pub problem_resp : (ℕ → String → Text) → ℕ → String → Resp
problem_resp problem_json status detail =
    plain_resp status ((content_type, codes "application/problem+json") ∷ [])
      (problem_json status detail)

unfoldable pub tag_fetch : Resp → Bool → Resp
tag_fetch r fetched = record r { cache_hit = not fetched }

unfoldable pub partial_resp : Resp → Post → Resp
partial_resp r post =
    if post.is_partial && r.origin_status == 0 then record r { origin_status = 203 } else r

unfoldable pub offload_error_resp : AppError → Text → Resp
unfolding redirect_resp text_resp is_transient
offload_error_resp err fallback_url =
    let r =
      if not (is_transient err.code)
      then text_resp err.status (codes err.public_message)
      else redirect_resp fallback_url 302 in
    record r { origin_status = err.status; error_type = err.code }

abbrev pub is_restriction : ErrorCode → Bool
is_restriction restricted = true
is_restriction geo_blocked = true
is_restriction _ = false

unfoldable pub activity_error_resp : (ℕ → String → Text) → AppError → Resp
unfolding problem_resp with_header is_transient
activity_error_resp problem_json err =
    let vary = codes "Vary" in
    let accept = codes "Accept" in
    let r : Resp =
      if is_transient err.code
      then with_header (codes "Retry-After") (codes "60")
          (with_header vary accept (problem_resp problem_json 503 "temporarily unavailable"))
      else with_header vary accept (
          if is_restriction err.code
          then problem_resp problem_json 451 "restricted by Instagram"
          else problem_resp problem_json 404 "not found") in
    record r { origin_status = err.status; error_type = err.code }
