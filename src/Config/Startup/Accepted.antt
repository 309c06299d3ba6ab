-- ===== src/Config/Startup/Accepted.antt =====
-- server/config.go: what `validate` guarantees of a configuration that it accepts.
use oginstagram.Base.{
  ◌⊎◌, ◌≡◌, ◌<◌, refl, Bool, true, false, List, [], ◌∷◌, Option, none, some, All, any, length,
  arith,
}
use oginstagram.Base.Text.{Text, codes, text_eq}
use oginstagram.Config.Startup.{
  valid_discord_emoji_id, Prefix, BaseUrl, Config, is_blank, is_unbounded, check_base,
  check_production, validate, bad_emoji, emoji_ids,
}

-- A range of peers with an end.
abbrev pub IsBounded : Prefix → Type 0
IsBounded p = (p.is_valid ≡ true) × (0 < p.bits)

-- An origin that is reached over HTTPS: a host, and nothing but an empty path or a slash.
abbrev pub IsHttpsOrigin : BaseUrl → Type 0
IsHttpsOrigin base =
    (text_eq base.scheme (codes "https") ≡ true)
    × (is_blank base.hostname ≡ false)
    × (is_blank base.port ≡ true)
    × (base.has_user ≡ false)
    × (is_blank base.raw_query ≡ true)
    × (is_blank base.fragment ≡ true)
    × ((is_blank base.path ≡ true) ⊎ (text_eq base.path (codes "/") ≡ true))

-- Of an id that is set: 17 to 20 decimal digits of a positive number below 2 ^ 64.
abbrev pub IsEmoji : Text → Type 0
IsEmoji id = (is_blank id ≡ true) ⊎ (valid_discord_emoji_id id ≡ true)

-- Of a public server: an HTTPS origin without a port, an account for the proxies, keys for the signer
-- and the challenge, and some ranges of peers, each of them bounded.
abbrev pub IsPublic : Config → BaseUrl → Type 0
IsPublic cfg base =
    IsHttpsOrigin base
    × (is_blank cfg.proxy_user ≡ false)
    × (is_blank cfg.proxy_pass ≡ false)
    × (is_blank cfg.offload_signing_keys ≡ false)
    × (is_blank cfg.turnstile_site_key ≡ false)
    × (is_blank cfg.turnstile_secret_key ≡ false)
    × (0 < length cfg.trusted_proxies)
    × All IsBounded cfg.trusted_proxies

any_unbounded-All : (ps : List Prefix) → any is_unbounded ps ≡ false → All IsBounded ps
any_unbounded-All [] h = tt
any_unbounded-All (p ∷ ps) h = ((ground arith, ground arith), any_unbounded-All ps (ground arith))

check_base-IsPublic :
    (cfg : Config) (emoji : Option Text) (base : BaseUrl)
    → cfg.development ≡ false
    → check_base cfg emoji base ≡ none
    → IsPublic cfg base
unfolding check_base check_production
check_base-IsPublic cfg emoji base d h = (
  (
    ground arith,
    ground arith,
    ground arith,
    ground arith,
    ground arith,
    ground arith,
    ground arith,
  ),
  ground arith,
  ground arith,
  ground arith,
  ground arith,
  ground arith,
  ground arith,
  any_unbounded-All cfg.trusted_proxies (ground arith),
)

bad_emoji-none :
    (e : Text × Text) (es : List (Text × Text))
    → bad_emoji (e ∷ es) ≡ none
    → IsEmoji e.1 × (bad_emoji es ≡ none)
unfolding bad_emoji
bad_emoji-none e es h = (ground arith, ground arith)

check_base-emoji :
    (cfg : Config) (emoji : Option Text) (base : BaseUrl)
    → check_base cfg emoji base ≡ none
    → emoji ≡ none
unfolding check_base
check_base-emoji cfg emoji base h = ground arith

emoji_ids-IsEmoji :
    (brand_first : Bool) (cfg : Config)
    → bad_emoji (emoji_ids brand_first cfg) ≡ none
    → IsEmoji cfg.discord_brand_emoji_id × IsEmoji cfg.discord_verified_emoji_id
unfolding emoji_ids
emoji_ids-IsEmoji true cfg h =
    let (brand, rest) = bad_emoji-none _ _ h in (brand, (bad_emoji-none _ _ rest).0)
emoji_ids-IsEmoji false cfg h =
    let (verified, rest) = bad_emoji-none _ _ h in ((bad_emoji-none _ _ rest).0, verified)

-- A configuration that `validate` accepts outside development is that of a public server: its base URL
-- parses to an HTTPS origin without a user, a query, a fragment, a port or a path but `/`; the proxies'
-- account, the signing keys and the challenge's keys are set; the trusted peers are some ranges, each
-- valid and not the whole Internet; and an emoji id that is set is a valid one.
pub validate-IsPublic :
    (parse : Text → Option BaseUrl) (brand_first : Bool) (cfg : Config)
    → cfg.development ≡ false
    → validate parse brand_first cfg ≡ none
    → (base : BaseUrl) × (parse cfg.base_url ≡ some base)
      × IsPublic cfg base
      × IsEmoji cfg.discord_brand_emoji_id
      × IsEmoji cfg.discord_verified_emoji_id
unfolding validate
validate-IsPublic parse brand_first cfg d h = go (parse cfg.base_url) refl
  where
    go :
        (o : Option BaseUrl)
        → parse cfg.base_url ≡ o
        → (base : BaseUrl) × (parse cfg.base_url ≡ some base)
          × IsPublic cfg base
          × IsEmoji cfg.discord_brand_emoji_id
          × IsEmoji cfg.discord_verified_emoji_id
    go none e = absurd (ground arith)
    go (some base) e =
        let checked : check_base cfg (bad_emoji (emoji_ids brand_first cfg)) base ≡ none =
          rw (e, validate) at h in
        let ids = check_base-emoji cfg (bad_emoji (emoji_ids brand_first cfg)) base checked in
        let (brand, verified) = emoji_ids-IsEmoji brand_first cfg ids in
        (
          base,
          e,
          check_base-IsPublic cfg (bad_emoji (emoji_ids brand_first cfg)) base d checked,
          brand,
          verified,
        )
