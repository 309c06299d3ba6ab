-- ===== src/Fetch/Interpret.antt =====
-- server/fetch.go, `statusOnly`, `instagramJSON`, `graphQLJSON` and the `interpret` functions of `pageSpec`
-- and `oembedSpec`: what an answer's status and body mean. `nil` is `none`; `http.StatusText` is a
-- parameter.
use Prim.Native.String.{String}
use oginstagram.Base.{
  ℕ, Bool, true, not, ◌&&◌, ◌||◌, [], ◌∷◌, any, Option, none, some, ltb, leb, ◌==◌, if◌then◌else◌,
}
use oginstagram.Base.Int.{ℤ, pos, int_eq}
use oginstagram.Base.Strings.{string_eq, or_else, trim_space, has_part}
use oginstagram.Base.Text.{Text, codes, has_prefix}
use oginstagram.Errors.{
  AppError, ErrorCode, ig_err, caused_err, upstream, bad_request, unauthorized, forbidden,
  not_found, rate_limited, login_required, json_decode, graphql,
}
use oginstagram.Fetch.Json.{Gjson}

abbrev pub graphql_rate_limited_code : ℤ
graphql_rate_limited_code = pos 1_675_004

-- The code for a refusal of Instagram.
unfoldable pub status_code : ℕ → ErrorCode
status_code status =
    if status == 400
    then bad_request
    else if status == 401
    then unauthorized
    else if status == 403
    then forbidden
    else if status == 404
    then not_found
    else if status == 429
    then rate_limited
    else upstream

module _ (json : Gjson) (status_text : ℕ → String) where
  unfoldable pub status_only : ℕ → Option AppError
  status_only status =
      if status == 200 then none else some (ig_err status upstream (status_text status))

  -- `msg` of a refusal.
  unfoldable pub refusal : ℕ → Text → String
  refusal status body =
      if json.valid body
      then or_else (trim_space (json.text_at body "message")) (status_text status)
      else status_text status

  unfoldable pub instagram_json : ℕ → Text → Option AppError
  instagram_json status body =
      if leb 400 status
      then some
          (caused_err status (status_code status) "Instagram request failed" (refusal status body))
      else if has_prefix body (codes "<!DOCTYPE html") || json.bool_at body "require_login"
      then some (ig_err 401 login_required "Instagram requires login to view this content")
      else if not (json.valid body)
      then some (ig_err 502 json_decode "Instagram returned an unreadable response")
      else if string_eq (json.text_at body "status") "fail"
      then some (
          caused_err 502 graphql "Instagram request failed"
            (or_else (trim_space (json.text_at body "message")) "Instagram request failed"))
      else none

  -- The status is the fault of the endpoint, neither of the post nor of the exit address.
  unfoldable pub is_endpoint_fault : ℕ → Bool
  is_endpoint_fault status =
      leb 400 status && not (status == 401) && not (status == 403) && not (status == 429)

  -- The cause of a throttled query prints its code with `fmt`, which is a parameter.
  module _ (print_cause : ℤ → String → String) where
    unfoldable pub graphql_json : ℕ → Text → Option AppError
    graphql_json status raw = elim (instagram_json status raw) [
      | some err ↦ some (if is_endpoint_fault status then record err { code = graphql } else err)
      | none ↦
          let code = json.int_at raw "errors.0.code" in
          let msg = json.text_at raw "errors.0.message" in
          if int_eq code graphql_rate_limited_code || has_part (codes msg) (codes "Please wait")
          then some (
              caused_err 429 rate_limited "Instagram rate limited the request"
                (print_cause code msg))
          else none
    ]

  unfoldable pub interpret_page : ℕ → Option AppError
  interpret_page status =
      if leb 300 status && ltb status 400
      then some (ig_err 502 login_required "Instagram redirected to login or verification")
      else if status == 404
      then some (ig_err 404 not_found "Instagram has no such page")
      else status_only status

  -- `raw` is `none` where the source passes `nil`.
  unfoldable pub interpret_oembed : ℕ → Option Text → Option AppError
  interpret_oembed status none = instagram_json status []
  interpret_oembed status (some raw) =
      if status == 429 || leb 500 status then instagram_json status raw else none

  -- One element of the loop of `mutedMusic`.
  unfoldable pub muted_medium : Text → Bool
  muted_medium m = int_eq (json.int_at m "media_type") (pos 2) && json.is_false m "has_audio"

  unfoldable pub muted_music : Text → Bool
  muted_music body =
      let item = json.raw_at body "data.xdt_api__v1__media__shortcode__web_info.items.0" in
      if json.bool_at item "clips_metadata.music_info.music_consumption_info.should_mute_audio"
      then true
      else any muted_medium (item ∷ json.elements_at item "carousel_media")
