-- ===== src/Post/Oembed.antt =====
-- server/fetch.go, `oembedOutcome`, `oembedVerdict` and `parseOembedPost`; server/parse.go, `uintOf`:
-- what Instagram's oEmbed answer says of a post. `url.Parse` and the name that the answer's HTML
-- holds (a pattern and `html.UnescapeString`) are parameters.
use Prim.Native.String.{String}
use oginstagram.Base.{
  ℕ, ◌≡◌, ◌⊎◌, refl, ap, or-true, Bool, true, false, not, ◌&&◌, ◌||◌, [], ◌∷◌, Option, none, some,
  leb, ltb, if◌then◌else◌, arith,
}
use oginstagram.Base.Int.{pos, int_eq, to_nat}
use oginstagram.Base.Strings.{is_empty, string_eq}
use oginstagram.Base.Text.{Text, codes, text_eq, text_eq_refl}
use oginstagram.Errors.{
  AppError, ErrorCode, connection, json_decode, login_required, unauthorized, forbidden,
  rate_limited, upstream, graphql, bad_request, not_found, media_not_found, captcha_required,
  geo_blocked, restricted, no_code, other,
}
use oginstagram.Fetch.Json.{Gjson}
use oginstagram.Models.{Post}
use oginstagram.Models.Valid.{
  Url, valid_cached_url, valid_cached_dimensions, valid_cached_post, valid_cached_attachment,
  valid_optional_cached_url, clone_and_validate_post, normalize_post,
}
use oginstagram.Models.Valid.Normal.{Rehosts, normalize_post-valid}
use oginstagram.Routes.{valid_shortcode, valid_username}

pub record OembedOutcome : Type 0 where
  pub status : ℕ
  pub body : Text
  pub ok : Bool

-- `oembedVerdict` returns a post or an error; the other of the two is the zero post or `nil`.
pub data Verdict : Type 0 where
  card : Post → Verdict
  refused : AppError → Verdict

-- The card code of a message: the constants of server/errors.go by their text.
unfoldable pub code_of : String → ErrorCode
unfolding string_eq
code_of s =
    if string_eq s ""
    then no_code
    else if string_eq s "connection_error"
    then connection
    else if string_eq s "json_decode_error"
    then json_decode
    else if string_eq s "login_required"
    then login_required
    else if string_eq s "unauthorized"
    then unauthorized
    else if string_eq s "forbidden"
    then forbidden
    else if string_eq s "rate_limited"
    then rate_limited
    else if string_eq s "upstream_error"
    then upstream
    else if string_eq s "graphql_error"
    then graphql
    else if string_eq s "bad_request"
    then bad_request
    else if string_eq s "not_found"
    then not_found
    else if string_eq s "media_not_found"
    then media_not_found
    else if string_eq s "captcha_required"
    then captcha_required
    else if string_eq s "geo_block_required"
    then geo_blocked
    else if string_eq s "restricted"
    then restricted
    else other (codes s)

module _ (json : Gjson) (parse_url : Text → Option Url) (shared_by : String → Text) where
  unfoldable pub uint_of : Text → String → ℕ
  uint_of value path = to_nat (json.int_at value path)

  unfoldable pub oembed_post : Text → Text → Post
  oembed_post shortcode body =
      let thumb = codes (json.text_at body "thumbnail_url") in
      record {
        shortcode = shortcode;
        username = codes (json.text_at body "author_name");
        full_name = shared_by (json.text_at body "html");
        profile_pic = [];
        is_verified = false;
        caption = codes (json.text_at body "title");
        stats_line = [];
        attachments =
            record {
              kind = codes "image";
              url = thumb;
              thumbnail = thumb;
              width = pos (uint_of body "thumbnail_width");
              height = pos (uint_of body "thumbnail_height");
            }
            ∷ [];
        created_at = 0;
        is_partial = true;
      }

  unfoldable pub parse_oembed_post : Text → Text → Option Post
  parse_oembed_post shortcode body =
      if not (valid_shortcode shortcode)
        || not (valid_username (codes (json.text_at body "author_name")))
        || not (valid_cached_url parse_url (codes (json.text_at body "thumbnail_url")))
      then none
      else if not (
          valid_cached_dimensions (pos (uint_of body "thumbnail_width"))
            (pos (uint_of body "thumbnail_height")))
      then none
      else some (oembed_post shortcode body)

  -- The gate that a refusal with the message "geoblock_required" stands for.
  unfoldable pub gated : Text → AppError → AppError
  unfolding int_eq
  gated body base =
      if int_eq (json.int_at body "gating_type_thrift") (pos 2)
      then record base { code = geo_blocked; status = 451; ephemeral = false; final = false }
      else record base { code = restricted; status = 403; ephemeral = false; final = false }

  -- The card of a refusal, where the message and the title are there.
  unfoldable pub carded : Text → ErrorCode → Bool → AppError → AppError
  carded body msg has_msg base =
      let title = json.text_at body "title" in
      if has_msg && not (is_empty title)
      then record base {
        card_code = msg;
        card_title = title;
        card_desc = json.text_at body "description";
      }
      else base

  unfoldable pub oembed_refusal : Text → AppError → AppError
  oembed_refusal body base =
      if not (string_eq (json.text_at body "status") "fail")
      then base
      else (let msg = json.text_at body "message" in
          if string_eq msg "geoblock_required"
          then (let g = gated body base in carded body g.code true g)
          else carded body (code_of msg) (not (is_empty msg)) base)

  unfoldable pub oembed_verdict : OembedOutcome → Text → AppError → Verdict
  oembed_verdict o shortcode base =
      if not o.ok || not (json.valid o.body)
      then refused base
      else (elim (parse_oembed_post shortcode o.body) [
        | none ↦ refused (oembed_refusal o.body base)
        | some post ↦
            if leb 200 o.status && ltb o.status 300
            then card post
            else refused (oembed_refusal o.body base)
      ])

  -- A refusal keeps the code of the failure before it, or is a gate.
  pub oembed_refusal-code :
      (body : Text) (base : AppError)
      → ((oembed_refusal body base).code ≡ base.code)
        ⊎ ((oembed_refusal body base).code ≡ restricted)
        ⊎ ((oembed_refusal body base).code ≡ geo_blocked)
  unfolding oembed_refusal gated carded
  oembed_refusal-code body base = ground arith

  pub oembed_verdict-refused :
      (o : OembedOutcome) (shortcode : Text) (base e : AppError)
      → oembed_verdict o shortcode base ≡ refused e
      → (e.code ≡ base.code) ⊎ (e.code ≡ restricted) ⊎ (e.code ≡ geo_blocked)
  unfolding oembed_verdict
  oembed_verdict-refused o shortcode base e h = ground (arith, oembed_refusal-code o.body base)

  parse_oembed_post-tests :
      (shortcode body : Text) (p : Post)
      → parse_oembed_post shortcode body ≡ some p
      → (p ≡ oembed_post shortcode body)
        × (valid_shortcode shortcode ≡ true)
        × (valid_username (codes (json.text_at body "author_name")) ≡ true)
        × (valid_cached_url parse_url (codes (json.text_at body "thumbnail_url")) ≡ true)
        × (valid_cached_dimensions
              (pos (uint_of body "thumbnail_width"))
              (pos (uint_of body "thumbnail_height"))
            ≡ true)
  unfolding parse_oembed_post
  parse_oembed_post-tests shortcode body p h = ground arith

  oembed_post-valid :
      (shortcode body : Text)
      → valid_shortcode shortcode ≡ true
      → valid_username (codes (json.text_at body "author_name")) ≡ true
      → valid_cached_url parse_url (codes (json.text_at body "thumbnail_url")) ≡ true
      → valid_cached_dimensions
          (pos (uint_of body "thumbnail_width"))
          (pos (uint_of body "thumbnail_height"))
        ≡ true
      → valid_cached_post parse_url shortcode (oembed_post shortcode body) ≡ true
  unfolding oembed_post valid_cached_post valid_cached_attachment valid_optional_cached_url text_eq
  oembed_post-valid shortcode body code name thumb size =
      let same = text_eq_refl shortcode in simp (code, name, thumb, size, same, or-true)

  oembed_verdict-post :
      (o : OembedOutcome) (shortcode : Text) (base : AppError) (p : Post)
      → oembed_verdict o shortcode base ≡ card p
      → (valid_cached_post parse_url shortcode p ≡ true) × (p ≡ oembed_post shortcode o.body)
  unfolding oembed_verdict
  oembed_verdict-post o shortcode base p h =
      let parsed : parse_oembed_post shortcode o.body ≡ some p = ground arith in
      let (e, code, name, thumb, size) = parse_oembed_post-tests shortcode o.body p parsed in
      rw e (oembed_post-valid shortcode o.body code name thumb size, refl)

  -- The card that oEmbed gives is not tested by `validSourceModel`, and need not be: the clone that the
  -- cache makes of it, with its media moved to the common host, passes the tests of the cache, belongs to
  -- the shortcode asked for and is marked as partial. This is so where the JSON of the card is decoded to
  -- the card, and a URL whose host was replaced is printed and parsed with the new host.
  pub oembed_verdict-valid :
      (render : Url → Text) (clone : Post → Post) (o : OembedOutcome) (shortcode : Text)
      (base : AppError) (p : Post)
      → Rehosts parse_url render
      → clone p ≡ p
      → oembed_verdict o shortcode base ≡ card p
      → (clone_and_validate_post parse_url render clone shortcode p
          ≡ (normalize_post parse_url render p, true))
        × ((normalize_post parse_url render p).shortcode ≡ shortcode)
        × ((normalize_post parse_url render p).is_partial ≡ true)
  unfolding oembed_post clone_and_validate_post normalize_post
  oembed_verdict-valid render clone o shortcode base p rehosts same h =
      let (valid, e) = oembed_verdict-post o shortcode base p h in
      let kept : valid_cached_post parse_url shortcode (normalize_post parse_url render p) ≡ true =
        normalize_post-valid parse_url render rehosts shortcode p valid in
      (
        rw same (ap (λ (b : Bool). (normalize_post parse_url render p, b)) kept),
        ap (λ (x : Post). x.shortcode) e,
        ap (λ (x : Post). x.is_partial) e,
      )
