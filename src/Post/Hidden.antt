-- ===== src/Post/Hidden.antt =====
-- server/app.go, `hiddenPost`, `helperAsked` and `gateOrRetry`: the hunt for a post that GraphQL reports
-- as gated, hidden or gone. The helper and oEmbed start at once, and oEmbed's answer picks the
-- follow-ups; one event is one case of the `select`. What each source does, and logging, are left out.
pub mod Ends
pub mod Verdicts
use Prim.Native.String.{String}
use oginstagram.Base.{
  ℕ, ◌+◌, ◌-◌, ◌*◌, Bool, true, false, not, ◌&&◌, ◌||◌, List, [], ◌∷◌, ◌++◌, Option, none, some,
  is_some, min, leb, ◌==◌, if◌then◌else◌,
}
use oginstagram.Base.Int.{int_eq, pos}
use oginstagram.Base.Strings.{is_empty}
use oginstagram.Base.Text.{Text}
use oginstagram.Config.{
  second, partial_post_ttl, permanent_error_cache_seconds, transient_error_cache_seconds,
}
use oginstagram.Errors.{
  AppError, ErrorCode, ContextEnd, ig_err, context_app_error, connection, rate_limited, upstream,
  graphql, media_not_found, restricted, geo_blocked,
}
use oginstagram.Fetch.Json.{Gjson}
use oginstagram.Fetch.Staged.{Result, success, failure}
use oginstagram.Models.{Post}
use oginstagram.Models.Valid.{Url}
use oginstagram.Post.Oembed.{OembedOutcome, Verdict, card, refused, oembed_verdict}

abbrev pub is_code_connection : ErrorCode → Bool
is_code_connection connection = true
is_code_connection _ = false

abbrev pub is_code_rate_limited : ErrorCode → Bool
is_code_rate_limited rate_limited = true
is_code_rate_limited _ = false

abbrev pub is_gate_code : ErrorCode → Bool
is_gate_code restricted = true
is_gate_code geo_blocked = true
is_gate_code _ = false

-- `none` is `nil`.
unfoldable pub helper_asked : Option AppError → Bool
helper_asked none = false
helper_asked (some err) =
    not err.ephemeral && not (is_code_connection err.code) && not (is_code_rate_limited err.code)

-- `gateOrRetry`: whether there is a helper, and whether it finished and reached Instagram.
unfoldable pub gate_or_retry : Bool → Bool → AppError → AppError
gate_or_retry has_helper asked err =
    if has_helper && not asked && is_gate_code err.code then record err { code = upstream } else err

-- Which goroutines have been started and have not been heard.
pub record Jobs : Type 0 where
  pub helper : Bool
  pub oembed : Bool
  pub og : Bool
  pub dc : Bool
  pub missing : Bool

-- The variables of the loop. A post without a shortcode is `none`.
pub record Hunt : Type 0 where
  pub partial_post : Option Post
  pub gate : Option AppError
  pub oembed_status : ℕ
  pub helper_err : Option AppError
  pub pending : ℕ
  pub jobs : Jobs

pub data Event : Type 0 where
  helper_done : Result Post → Event
  oembed_done : OembedOutcome → Event
  og_done : Option Post → Event
  dc_done : Option Post → Event
  missing_done : Bool → Event
  -- The context ended; the flag is `helper.asked()` for a helper that finished without being heard.
  ended : ContextEnd → Bool → Event

-- The results of `hiddenPost`: a post, its lifetime and whether it is persisted, or an error.
pub data Answer : Type 0 where
  found : Post → ℕ → Bool → Answer
  failed : AppError → Answer

-- What the loop changes outside itself: `ogPosts.put`, `publishGate` and `helper.cancel`.
pub data Effect : Type 0 where
  put_og : Post → ℕ → Effect
  publish_gate : AppError → Effect
  cancel_helper : Effect

pub data Progress : Type 0 where
  runs : Hunt → Progress
  answers : Answer → Progress

pub record Turn : Type 0 where
  pub effects : List Effect
  pub progress : Progress

abbrev pub base_error : AppError
base_error = ig_err 502 graphql "Instagram could not load this post"

abbrev pub missing_error : AppError
missing_error = ig_err 404 media_not_found "This post isn't available."

abbrev pub init : Hunt
init = record {
  partial_post = none;
  gate = none;
  oembed_status = 0;
  helper_err = none;
  pending = 1;
  jobs = record { helper = true; oembed = true; og = false; dc = false; missing = false };
}

abbrev pub follow_og : Hunt → Hunt
follow_og h = record h { pending = h.pending + 1; jobs = record h.jobs { og = true } }

-- GraphQL already went through DC where there is no IPv6.
abbrev pub retry_dc : Bool → Hunt → Hunt
retry_dc has_v6 h =
    if has_v6 then record h { pending = h.pending + 1; jobs = record h.jobs { dc = true } } else h

abbrev pub follow_missing : Hunt → Hunt
follow_missing h = record h { pending = h.pending + 1; jobs = record h.jobs { missing = true } }

abbrev pub quiet : Progress → Turn
quiet p = record { effects = []; progress = p }

-- `helper.asked()`: the helper was heard, or the flag.
abbrev pub asked_by_now : Hunt → Bool → Bool
asked_by_now h late = elim h.helper_err [ none ↦ late | some e ↦ helper_asked (some e) ]

module _ (json : Gjson) (parse_url : Text → Option Url) (shared_by : String → Text) where
  module _ (post_ttl : Post → ℕ) (has_helper has_v6 : Bool) (shortcode : Text) where
    -- `ttl` of the answer with a partial post.
    unfoldable pub partial_ttl : Hunt → Post → AppError → ℕ
    partial_ttl h p helper_err =
        let ttl = min (post_ttl p) (permanent_error_cache_seconds * second) in
        if p.is_partial && not (helper_asked (some helper_err)) || h.oembed_status == 200
        then min ttl (transient_error_cache_seconds * second)
        else ttl

    -- The cases of `answer`, by `partial` and `gate`.
    unfoldable pub answer_by : Option Post → Option AppError → Hunt → Bool → AppError → Answer
    answer_by (some p) gate h asked helper_err = found p (partial_ttl h p helper_err) false
    answer_by none (some gate) h asked helper_err = failed (gate_or_retry has_helper asked gate)
    answer_by none none h asked helper_err =
        if h.oembed_status == 404 && helper_err.status == 404
        then failed missing_error
        else failed base_error

    unfoldable pub answer : Hunt → Bool → AppError → Answer
    unfolding answer_by
    answer h asked helper_err = answer_by h.partial_post h.gate h asked helper_err

    -- The test at the top of the loop, by `helperErr`.
    unfoldable pub settle : Option AppError → Hunt → Progress
    settle none h = runs h
    settle (some e) h =
        if h.pending == 0 then answers (answer h (helper_asked (some e)) e) else runs h

    unfoldable pub continue : Hunt → Progress
    unfolding settle
    continue h = settle h.helper_err h

    unfoldable pub follow_gate : Text → Hunt → Hunt
    unfolding int_eq
    follow_gate body h =
        if int_eq (json.int_at body "gating_type_thrift") (pos 3)
        then follow_og h
        else if int_eq (json.int_at body "gating_type_thrift") (pos 2)
        then retry_dc has_v6 (follow_og h)
        else h

    unfoldable pub on_verdict : Hunt → OembedOutcome → Verdict → Turn
    on_verdict h o (card p) = record {
      effects = put_og p (min (post_ttl p) partial_post_ttl) ∷ [];
      progress = continue (retry_dc has_v6 (record h { partial_post = some p }));
    }
    on_verdict h o (refused err) =
        if not (is_empty err.card_title)
        then record {
          effects = publish_gate err ∷ [];
          progress = continue (follow_gate o.body (record h { gate = some err }));
        }
        else if o.ok && o.status == 404
        then quiet (continue (follow_missing h))
        else quiet (continue h)

    unfoldable pub on_oembed : Hunt → OembedOutcome → Turn
    on_oembed was o =
        let h : Hunt = record was {
          pending = was.pending - 1;
          oembed_status = o.status;
          jobs = record was.jobs { oembed = false };
        } in
        on_verdict h o (oembed_verdict json parse_url shared_by o shortcode base_error)

    unfoldable pub on_og : Hunt → Option Post → Turn
    on_og h none = quiet (continue h)
    on_og h (some p) = record {
      effects = put_og p (min (post_ttl p) partial_post_ttl) ∷ [];
      progress = continue (record h { partial_post = some p });
    }

    unfoldable pub step : Hunt → Event → Turn
    unfolding on_oembed on_og
    step h (helper_done (success p)) = quiet (answers (found p (post_ttl p) true))
    step h (helper_done (failure e)) =
        quiet (continue (record h { helper_err = some e; jobs = record h.jobs { helper = false } }))
    step h (oembed_done o) = on_oembed h o
    step h (og_done og) =
        on_og (record h { pending = h.pending - 1; jobs = record h.jobs { og = false } }) og
    step h (dc_done (some p)) = quiet (answers (found p (post_ttl p) true))
    step h (dc_done none) =
        quiet (continue (record h { pending = h.pending - 1; jobs = record h.jobs { dc = false } }))
    step h (missing_done true) = record {
      effects = cancel_helper ∷ [];
      progress = answers (failed missing_error);
    }
    step h (missing_done false) =
        quiet (
          continue (record h { pending = h.pending - 1; jobs = record h.jobs { missing = false } }))
    step h (ended end late) =
        quiet (answers (answer h (asked_by_now h late) (context_app_error end)))

    -- Events behind the answer are not seen.
    unfoldable pub run : Progress → List Event → Progress
    unfolding step
    run p [] = p
    run (answers a) (x ∷ xs) = answers a
    run (runs h) (x ∷ xs) = run (step h x).progress xs

    unfoldable pub hidden_post : List Event → Progress
    unfolding run
    hidden_post events = run (runs init) events
