-- ===== src/Models/Lifetime.antt =====
-- server/helpers.go, `cdnExpiry` and `cacheTTLFromURLs`; server/app.go, `postCacheTTL`: how long the
-- media links of a model live. `raw_query` is `url.Parse`, of which only the raw query is read.
use oginstagram.Base.{
  ℕ, ◌+◌, ◌-◌, ◌*◌, ◌^◌, ◌≤◌, ◌≡◌, refl, List, [], ◌∷◌, Option, none, some, ◌>>=◌, min, max, ltb,
  ◌==◌, if◌then◌else◌, All, arith,
}
use oginstagram.Base.Text.{Text, codes, text_eq}
use oginstagram.Base.Int.{ℤ, to_nat}
use oginstagram.Instant.{unix_time, sub_time, minus, last_instant, minus-bound}
use oginstagram.Config.{second, minute, cdn_fallback_ttl, cdn_ttl_margin}
use oginstagram.Models.{Attachment, Post}
use oginstagram.Offload.Signer.{unix_epoch}
use oginstagram.Query.{get}
use oginstagram.Routes.{split}
use oginstagram.UrlQuery.{query_pieces, unhex}

unfoldable pub read_hex : ℕ → Text → Option ℕ
read_hex n [] = some n
read_hex n (c ∷ s) = unhex c >>= λ d. read_hex (n * 16 + d) s

-- `strconv.ParseInt(s, 16, 64)` with the test for a positive number behind it.
unfoldable pub positive_hex : Text → Option ℕ
positive_hex s =
    let digits : Text = (elim s [ [] ↦ [] | c ∷ t ↦ if c == b'+' then t else c ∷ t ]) in
    if text_eq digits []
    then none
    else read_hex 0 digits >>= λ n. if n == 0 then none else if ltb n (2 ^ 63) then some n else none

module _ (raw_query : Text → Option Text) where
  -- The seconds that a link's `oe` names.
  unfoldable pub cdn_seconds : Text → Option ℕ
  cdn_seconds raw = raw_query raw >>= λ query.
      positive_hex (get (query_pieces (split b'&' query) []) (codes "oe"))

  unfoldable pub cdn_expiry : Text → Option ℤ
  cdn_expiry raw = elim (cdn_seconds raw) [ none ↦ none | some n ↦ some (unix_time n) ]

  -- One round of the loop.
  unfoldable pub shorten : ℕ → ℕ → Text → ℕ
  unfolding to_nat
  shorten now ttl raw = elim (cdn_expiry raw) [
    | none ↦ ttl
    | some expiry ↦ min ttl (max (to_nat (minus (sub_time expiry now) cdn_ttl_margin)) minute)
  ]

  unfoldable pub shorten_all : ℕ → ℕ → List Text → ℕ
  shorten_all now ttl [] = ttl
  shorten_all now ttl (raw ∷ urls) = shorten_all now (shorten now ttl raw) urls

  unfoldable pub cache_ttl_from_urls : ℕ → List Text → ℕ
  cache_ttl_from_urls now urls = shorten_all now cdn_fallback_ttl urls

  unfoldable pub media_urls : List Attachment → List Text
  media_urls [] = []
  media_urls (a ∷ rest) = a.url ∷ a.thumbnail ∷ media_urls rest

  unfoldable pub post_cache_ttl : ℕ → Post → ℕ
  post_cache_ttl now post = cache_ttl_from_urls now (post.profile_pic ∷ media_urls post.attachments)

  -- The lifetime ends before the margin of the link, but for the least lifetime of a minute.
  unfoldable pub WithinExpiry : ℕ → ℕ → Text → Type 0
  WithinExpiry now ttl raw = elim (cdn_seconds raw) [
    | none ↦ ttl ≤ cdn_fallback_ttl
    | some n ↦ ttl ≤ max ((n + unix_epoch) * second - now - cdn_ttl_margin) minute
  ]

  shorten_le : (now ttl : ℕ) (raw : Text) → shorten now ttl raw ≤ ttl
  unfolding shorten
  shorten_le now ttl raw = ground arith

  shorten_ge : (now ttl : ℕ) (raw : Text) → minute ≤ ttl → minute ≤ shorten now ttl raw
  unfolding shorten
  shorten_ge now ttl raw h = ground arith

  shorten-WithinExpiry :
      (now ttl : ℕ) (raw : Text)
      → now ≤ last_instant
      → ttl ≤ cdn_fallback_ttl
      → WithinExpiry now (shorten now ttl raw) raw
  unfolding shorten WithinExpiry cdn_expiry
  shorten-WithinExpiry now ttl raw soon h = go (cdn_seconds raw) refl
    where
      go : (o : Option ℕ) → cdn_seconds raw ≡ o → WithinExpiry now (shorten now ttl raw) raw
      go none e = ground arith
      go (some n) e = ground (arith, minus-bound n now soon)

  pub WithinExpiry-mono :
      (now a b : ℕ) (raw : Text) → a ≤ b → WithinExpiry now b raw → WithinExpiry now a raw
  unfolding WithinExpiry
  WithinExpiry-mono now a b raw h w = ground arith

  shorten_all_le : (now ttl : ℕ) (urls : List Text) → shorten_all now ttl urls ≤ ttl
  unfolding shorten_all
  shorten_all_le now ttl [] = omega arith
  shorten_all_le now ttl (raw ∷ urls) =
      omega (arith, shorten_le now ttl raw, shorten_all_le now (shorten now ttl raw) urls)

  shorten_all_ge :
      (now ttl : ℕ) (urls : List Text) → minute ≤ ttl → minute ≤ shorten_all now ttl urls
  unfolding shorten_all
  shorten_all_ge now ttl [] h = h
  shorten_all_ge now ttl (raw ∷ urls) h =
      shorten_all_ge now (shorten now ttl raw) urls (shorten_ge now ttl raw h)

  shorten_all-WithinExpiry :
      (now ttl : ℕ) (urls : List Text)
      → now ≤ last_instant
      → ttl ≤ cdn_fallback_ttl
      → All (WithinExpiry now (shorten_all now ttl urls)) urls
  unfolding shorten_all
  shorten_all-WithinExpiry now ttl [] soon h = tt
  shorten_all-WithinExpiry now ttl (raw ∷ urls) soon h =
      let smaller = shorten_le now ttl raw in
      let rest = shorten_all-WithinExpiry now (shorten now ttl raw) urls soon (omega arith) in
      (
        WithinExpiry-mono now (shorten_all now (shorten now ttl raw) urls) (shorten now ttl raw) raw
            (shorten_all_le now (shorten now ttl raw) urls)
            (shorten-WithinExpiry now ttl raw soon h),
        rest,
      )

  pub cache_ttl_from_urls-within :
      (now : ℕ) (urls : List Text)
      → now ≤ last_instant
      → All (WithinExpiry now (cache_ttl_from_urls now urls)) urls
  unfolding cache_ttl_from_urls
  cache_ttl_from_urls-within now urls soon =
      shorten_all-WithinExpiry now cdn_fallback_ttl urls soon (omega arith)

  -- Until the year 2262: a post is kept for a minute at least and a day at most, and where the link of
  -- the profile picture, an attachment or a thumbnail names the seconds of its expiry, the post is gone
  -- half an hour before them, unless that leaves less than the minute.
  pub post_cache_ttl-within :
      (now : ℕ) (post : Post)
      → now ≤ last_instant
      → (minute ≤ post_cache_ttl now post)
        × (post_cache_ttl now post ≤ cdn_fallback_ttl)
        × All
            (WithinExpiry now (post_cache_ttl now post))
            (post.profile_pic ∷ media_urls post.attachments)
  unfolding post_cache_ttl cache_ttl_from_urls
  post_cache_ttl-within now post soon =
      let urls = post.profile_pic ∷ media_urls post.attachments in
      (
        shorten_all_ge now cdn_fallback_ttl urls (omega arith),
        shorten_all_le now cdn_fallback_ttl urls,
        shorten_all-WithinExpiry now cdn_fallback_ttl urls soon (omega arith),
      )
