-- ===== src/Post/Get.antt =====
-- server/app.go, `getPost`, `fetchPost`, `keepAfterFlight`, `storeHelperPost` and `publishGate`; server/helpers.go,
-- `shortcodePK` and `shortcodeTime`. The cache's `get` is an argument by what it returns, the race of
-- the sources by its answer.
use Prim.Native.String.{String}
use oginstagram.Base.{
  ℕ, ◌+◌, ◌-◌, ◌*◌, ◌/◌, ◌^◌, ◌%◌, Bool, true, false, not, ◌&&◌, ◌||◌, [], ◌∷◌, ◌++◌, Option, none,
  some, ◌>>=◌, min, ltb, ◌==◌, length, replicate, if◌then◌else◌,
}
use oginstagram.Base64.{decode}
use oginstagram.Base.Int.{int_eq, pos}
use oginstagram.Base.Text.{Text}
use oginstagram.Config.{second, transient_error_cache_seconds}
use oginstagram.Errors.{AppError, ContextEnd, deadline_exceeded, canceled, ig_err, not_found}
use oginstagram.Fetch.Json.{Gjson}
use oginstagram.Fetch.Staged.{Result, success, failure}
use oginstagram.Models.{Post}
use oginstagram.Models.Valid.{Url, valid_source_model}
use oginstagram.Offload.Signer.{unix_epoch}
use oginstagram.Post.Hidden.{Answer, found, failed, gate_or_retry}
use oginstagram.Post.Oembed.{OembedOutcome, card, refused, oembed_verdict}
use oginstagram.Routes.{valid_shortcode}

-- `big.Int.SetBytes`
unfoldable pub set_bytes : ℕ → Text → ℕ
set_bytes n [] = n
set_bytes n (b ∷ bytes) = set_bytes (n * 256 + b) bytes

-- `none` is `nil`.
unfoldable pub shortcode_pk : Text → Option ℕ
unfolding set_bytes
shortcode_pk shortcode =
    decode (replicate ((4 - length shortcode % 4) % 4) b'A' ++ shortcode) >>= λ raw.
    some (set_bytes 0 raw)

abbrev pub is_int64 : ℕ → Bool
is_int64 n = ltb n (2 ^ 63)

abbrev pub ig_epoch_ms : ℕ
ig_epoch_ms = 1_314_220_021_721

-- In nanoseconds since Go's zero time, which stands for no time.
unfoldable pub shortcode_time : ℕ → Text → ℕ
unfolding shortcode_pk
shortcode_time now shortcode = elim (shortcode_pk shortcode) [
  | none ↦ 0
  | some pk ↦
      let t = unix_epoch * second + (pk / 2 ^ 23 + ig_epoch_ms) * 1_000_000 in
      if pk == 0 || not (is_int64 pk) || ltb now t then 0 else t
]

-- The check of `getPost`: a code that cannot be a media id is not looked up.
unfoldable pub is_media_code : Text → Bool
unfolding shortcode_pk
is_media_code shortcode =
    valid_shortcode shortcode
    && (elim (shortcode_pk shortcode) [ none ↦ false | some pk ↦ is_int64 pk ])

-- What a request whose deadline passed still gets: a partial post of the flight, or a gate notice.
unfoldable pub at_deadline : Option Post → Option AppError → Result Post → Result Post
at_deadline og notice (success post) = success post
at_deadline (some p) notice (failure e) = success p
at_deadline none (some gate) (failure e) = failure gate
at_deadline none none (failure e) = failure e

-- The context's end, the flight's result, and the partial post and the notice at hand.
unfoldable pub get_post :
    Text → Option ContextEnd → Option Post → Option AppError → Result Post → Result Post
unfolding is_media_code at_deadline ig_err
get_post shortcode end og notice got =
    if not (is_media_code shortcode)
    then failure (ig_err 404 not_found "invalid shortcode")
    else (elim end [
      | none ↦ got
      | some why ↦ elim why [ deadline_exceeded ↦ at_deadline og notice got | canceled ↦ got ]
    ])

-- `store`: a post without a time takes that of its shortcode.
unfoldable pub with_time : ℕ → Text → Post → Post
unfolding shortcode_time
with_time now shortcode post =
    if post.created_at == 0 then record post { created_at = shortcode_time now shortcode } else post

-- What becomes of the helper behind a flight: `cancel`, left to finish and store its post, or nothing.
pub data HelperEnd : Type 0 where
  cancels keeps : HelperEnd

-- `keepAfterFlight`: whether the helper has begun, is done, and a slot for it is free.
unfoldable pub keep_after_flight : Bool → Bool → Bool → HelperEnd
keep_after_flight begun is_done slot = if begun && not is_done && slot then keeps else cancels

abbrev pub is_unfinished : Answer → Bool
is_unfinished (found p ttl persist) = p.is_partial
is_unfinished (failed e) = true

-- The `defer` of `fetchPost`.
unfoldable pub helper_end : Bool → Answer → Bool → Bool → Bool → HelperEnd
unfolding keep_after_flight
helper_end hidden answer begun is_done slot =
    if hidden && is_unfinished answer then keep_after_flight begun is_done slot else cancels

unfoldable pub stamp : ℕ → Text → Answer → Answer
unfolding with_time
stamp now shortcode (found p ttl persist) = found (with_time now shortcode p) ttl persist
stamp now shortcode (failed e) = failed e

abbrev pub graphql_field_exception_code : ℕ
graphql_field_exception_code = 1_675_030

module _ (json : Gjson) where
  -- The GraphQL source: the request's error, or the parsed body, whose failure with the code of a gated
  -- post is final; and whether the post is hidden.
  unfoldable pub graphql_source :
      (Post → Post × Bool) → Result Text → (Text → Result Post) → Result Post × Bool
  unfolding int_eq valid_source_model
  graphql_source check (failure e) parse = (failure e, false)
  graphql_source check (success body) parse = elim (parse body) [
    | success post ↦ (valid_source_model check (success post), false)
    | failure perr ↦
        if int_eq (json.int_at body "errors.0.code") (pos graphql_field_exception_code)
        then (failure (record perr { final = true }), true)
        else (failure perr, false)
  ]

  module _ (parse_url : Text → Option Url) (shared_by : String → Text) where
    -- The answer of `fetchPost` before its `defer`: that of the race, of `hiddenPost`, or of oEmbed.
    unfoldable pub fetch_post :
        (Post → ℕ) → Bool → Bool → Text → Bool → Result Post → Answer → OembedOutcome → Answer
    unfolding oembed_verdict gate_or_retry
    fetch_post post_ttl has_helper asked shortcode hidden (success post) from_hidden oembed =
        found post (post_ttl post) true
    fetch_post post_ttl has_helper asked shortcode hidden (failure err) from_hidden oembed =
        if hidden
        then from_hidden
        else (elim (oembed_verdict json parse_url shared_by oembed shortcode err) [
          | card p ↦ found p (min (post_ttl p) (transient_error_cache_seconds * second)) false
          | refused e ↦ failed (gate_or_retry has_helper asked e)
        ])
