-- ===== src/Tests/Hunts.antt =====
-- The hunt for a hidden post, and oEmbed's verdicts, on concrete inputs.
use oginstagram.Base.{
  ℕ, ◌≡◌, ◌≤◌, ◌*◌, ◌-◌, refl, Bool, true, false, not, List, [], ◌∷◌, Option, none, some, All,
  arith, length, ◌++◌, ap, min, ◌<◌, inl, inr,
}
use oginstagram.Base.Int.{ℤ, pos}
use oginstagram.Base.Text.{Text, codes}
use oginstagram.Config.{minute, hour, cdn_fallback_ttl}
use oginstagram.Errors.{ig_err, not_found}
use oginstagram.Fetch.Json.{Gjson}
use oginstagram.Fetch.Staged.{failure}
use oginstagram.Models.{Attachment, Post}
use oginstagram.Models.Lifetime.{post_cache_ttl, post_cache_ttl-within, WithinExpiry, media_urls}
use oginstagram.Models.Valid.{Url, clone_and_validate_post, normalize_post}
use oginstagram.Models.Valid.Normal.{cdn_host, Rehosts}
use mathlib.Core.Option.{some-injective}
use oginstagram.Helpers.{
  AttachmentSelection, select_activity_attachments, activity_max_images, gallery_emoji,
}
use oginstagram.Helpers.Selection.{IsAt, is_asked, gallery_items, select_activity_attachments-shows}
use oginstagram.Post.Hidden.{
  Event, Answer, Progress, helper_done, oembed_done, missing_done, answers, failed, hidden_post,
  missing_error, base_error,
}
use oginstagram.Post.Hidden.Ends.{hidden_post-ends}
use oginstagram.Post.Hidden.Verdicts.{SoundFrom, hidden_post-Sound}
use oginstagram.Post.Oembed.{OembedOutcome, oembed_verdict, oembed_verdict-valid, card, oembed_post}

-- A body without values but for the names of the fields that a card needs.
abbrev json : Gjson
json = record {
  valid = λ body. true;
  text_at = λ body path. "ada";
  int_at = λ body path. pos 1;
  bool_at = λ body path. false;
  is_true = λ body path. false;
  is_false = λ body path. false;
  raw_at = λ body path. body;
  elements_at = λ body path. [];
}

abbrev cdn : Url
cdn = record {
  scheme = codes "https";
  has_user = false;
  host = codes "a.fbcdn.net";
  hostname = codes "a.fbcdn.net";
  port = [];
  opaque_part = [];
}

abbrev gone : OembedOutcome
gone = record { status = 404; body = []; ok = true }

abbrev events : List Event
events =
    helper_done (failure (ig_err 404 not_found "no post"))
    ∷ oembed_done gone
    ∷ missing_done true
    ∷ missing_done true
    ∷ []

hidden_post-Sound_example : SoundFrom (λ p. minute) true false (failed missing_error) events
unfolding hidden_post oginstagram.Post.Hidden.continue oginstagram.Post.Hidden.on_verdict
    oembed_verdict oginstagram.Post.Oembed.parse_oembed_post oginstagram.Routes.valid_shortcode
    oginstagram.Routes.valid_username oginstagram.Models.Valid.valid_cached_url
    oginstagram.Base.Strings.is_empty oginstagram.Post.Oembed.oembed_refusal
    oginstagram.Base.Strings.string_eq ig_err
hidden_post-Sound_example =
    hidden_post-Sound json (λ t. none) (λ s. []) (λ p. minute) true true (codes "ABC") events
      (failed missing_error) refl

hidden_post-ends_example :
    (a : Answer) × (hidden_post json
        (λ t. none)
        (λ s. [])
        (λ p. minute)
        true
        true
        (codes "ABC")
        events
      ≡ answers a)
unfolding oginstagram.Post.Hidden.Ends.Possible oginstagram.Post.Hidden.Ends.CanHappen
    oginstagram.Post.Hidden.step oginstagram.Post.Hidden.continue oginstagram.Post.Hidden.on_verdict
    oembed_verdict oginstagram.Post.Oembed.parse_oembed_post oginstagram.Routes.valid_shortcode
    oginstagram.Routes.valid_username oginstagram.Models.Valid.valid_cached_url
    oginstagram.Base.Strings.is_empty oginstagram.Post.Oembed.oembed_refusal
    oginstagram.Base.Strings.string_eq ig_err
hidden_post-ends_example =
    hidden_post-ends json (λ t. none) (λ s. []) (λ p. minute) true true (codes "ABC") events
      (refl, (refl, (refl, tt))) (omega arith)

abbrev good_answer : OembedOutcome
good_answer = record { status = 200; body = []; ok = true }

abbrev from_oembed : Post
from_oembed = oembed_post json (λ t. some cdn) (λ s. []) (codes "ABC") []

abbrev parses_cdn : Text → Option Url
parses_cdn raw = some (record cdn { host = cdn_host; hostname = cdn_host })

parses_cdn-Rehosts : Rehosts parses_cdn (λ u. u.host)
parses_cdn-Rehosts raw u e h =
    let same = some-injective _ _ e in
    (
      record cdn { host = cdn_host; hostname = cdn_host },
      refl,
      ap (λ (x : Url). x.scheme) same,
      ap (λ (x : Url). x.has_user) same,
      refl,
      refl,
      refl,
    )

abbrev from_cdn : Post
from_cdn = oembed_post json parses_cdn (λ s. []) (codes "ABC") []

oembed_verdict-valid_example :
    (clone_and_validate_post parses_cdn (λ u. u.host) (λ p. p) (codes "ABC") from_cdn
      ≡ (normalize_post parses_cdn (λ u. u.host) from_cdn, true))
    × ((normalize_post parses_cdn (λ u. u.host) from_cdn).shortcode ≡ codes "ABC")
    × ((normalize_post parses_cdn (λ u. u.host) from_cdn).is_partial ≡ true)
unfolding oembed_verdict oginstagram.Post.Oembed.parse_oembed_post
    oginstagram.Routes.valid_shortcode oginstagram.Routes.valid_username
    oginstagram.Models.Valid.valid_cached_url oginstagram.Base.Text.lower
    oginstagram.Models.Valid.valid_cached_dimensions oginstagram.Post.Oembed.uint_of
    oginstagram.Base.Int.to_nat
oembed_verdict-valid_example =
    oembed_verdict-valid json parses_cdn (λ s. []) (λ u. u.host) (λ p. p) good_answer (codes "ABC")
      base_error from_cdn parses_cdn-Rehosts refl refl

post_cache_ttl-within_example :
    (minute ≤ post_cache_ttl (λ t. some (codes "oe=ffff")) hour from_oembed)
    × (post_cache_ttl (λ t. some (codes "oe=ffff")) hour from_oembed ≤ cdn_fallback_ttl)
    × All
        (WithinExpiry
          (λ t. some (codes "oe=ffff"))
          hour
          (post_cache_ttl (λ t. some (codes "oe=ffff")) hour from_oembed))
        (from_oembed.profile_pic ∷ media_urls (λ t. some (codes "oe=ffff")) from_oembed.attachments)
post_cache_ttl-within_example =
    post_cache_ttl-within (λ t. some (codes "oe=ffff")) hour from_oembed (omega arith)

abbrev picture : Text → Attachment
picture kind = record {
  kind = kind;
  url = codes "https://a.fbcdn.net/x";
  thumbnail = [];
  width = pos 1;
  height = pos 1;
}

-- A picture, a video and a picture.
abbrev gallery : Post
gallery = record from_oembed {
  attachments = picture (codes "image") ∷ picture (codes "video") ∷ picture (codes "image") ∷ [];
}

select_activity_attachments_run :
    select_activity_attachments gallery 0 false
    ≡ some (record {
      items = (picture (codes "image"), 0) ∷ (picture (codes "image"), 2) ∷ [];
      indicator = gallery_emoji ++ codes " 3";
    })
unfolding select_activity_attachments oginstagram.Base.Text.text_eq oginstagram.Decimal.itoa
select_activity_attachments_run = refl

select_activity_attachments-shows_example :
    (s : AttachmentSelection) × (select_activity_attachments gallery 7 false ≡ some s)
    × All (IsAt gallery.attachments) s.items
    × (length s.items ≤ activity_max_images)
    × (0 < length s.items)
    × (is_asked gallery false ≡ true
        → (a : Attachment) × (s.items ≡ (a, min 7 (length gallery.attachments - 1)) ∷ []))
    × (is_asked gallery false ≡ false → s.items ≡ gallery_items gallery.attachments)
unfolding oginstagram.Base.Text.text_eq
select_activity_attachments-shows_example =
    select_activity_attachments-shows gallery 7 false (omega arith)
      (inl refl, (inr refl, (inl refl, tt)))
