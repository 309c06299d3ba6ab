-- ===== src/Config/Startup.antt =====
-- server/config.go: what the environment configures, and the checks before the server starts.
-- A text is a list of bytes. `url.Parse`, `netip.Prefix` and the space that `strings.TrimSpace`
-- removes are parameters; so is the order in which Go walks a map.
pub mod Accepted
use oginstagram.Base.{
  ℕ, ◌+◌, ◌-◌, ◌*◌, ◌^◌, Bool, true, false, not, ◌&&◌, ◌||◌, List, [], ◌∷◌, ◌++◌, Option, none,
  some, length, any, ltb, leb, ◌==◌, if◌then◌else◌,
}
use oginstagram.Base.Text.{Text, codes, text_eq, is_digit, to_lower}
use oginstagram.Decimal.{parse_uint, read}
use oginstagram.Routes.{split, trim_right}

abbrev is_blank : Text → Bool
is_blank s = text_eq s []

unfoldable pub valid_discord_emoji_id : Text → Bool
unfolding parse_uint
valid_discord_emoji_id id =
    leb 17 (length id)
    && leb (length id) 20
    && (elim (parse_uint 64 id) [ none ↦ false | some n ↦ not (n == 0) ])

-- `envList`, on the value of the key.
unfoldable pub list_values : (Text → Text) → List Text → List Text
list_values trim [] = []
list_values trim (v ∷ vs) =
    let rest = list_values trim vs in
    let value = to_lower (trim v) in if is_blank value then rest else value ∷ rest

unfoldable pub env_list : (Text → Text) → Text → List Text
unfolding list_values
env_list trim value = list_values trim (split b',' value)

-- A `netip.Prefix`: whether it is valid, and its bits.
pub record Prefix : Type 0 where
  pub is_valid : Bool
  pub bits : ℕ

-- The parts of a parsed base URL that are read.
pub record BaseUrl : Type 0 where
  pub scheme : Text
  pub has_user : Bool
  pub hostname : Text
  pub port : Text
  pub path : Text
  pub raw_query : Text
  pub fragment : Text

pub record Config : Type 0 where
  pub version : Text
  pub proxy_user : Text
  pub proxy_pass : Text
  pub egress_socket : Text
  pub egress_percent : ℕ
  pub base_url : Text
  pub offload_signing_keys : Text
  pub discord_brand_emoji_id : Text
  pub discord_verified_emoji_id : Text
  pub data_dir : Text
  pub assets_dir : Text
  pub allowed_hosts : List Text
  pub trusted_proxies : List Prefix
  pub turnstile_site_key : Text
  pub turnstile_secret_key : Text
  pub development : Bool

-- `TRUSTED_PROXIES`: a prefix, or an address as the prefix of all its bits. What is neither stays, as
-- the invalid prefix that the parser returned.
unfoldable pub trusted_proxies_of :
    (Text → Prefix × Bool) → (Text → Option Prefix) → List Text → List Prefix
trusted_proxies_of parse_prefix parse_addr [] = []
trusted_proxies_of parse_prefix parse_addr (raw ∷ raws) =
    (if (parse_prefix raw).1
      then (parse_prefix raw).0
      else elim (parse_addr raw) [ none ↦ (parse_prefix raw).0 | some p ↦ p ])
    ∷ trusted_proxies_of parse_prefix parse_addr raws

-- The hosts that are ours.
unfoldable pub hosts_of : (Text → Option BaseUrl) → Text → List Text
hosts_of parse base_url = elim (parse base_url) [
  | none ↦ []
  | some base ↦
      let h = to_lower base.hostname in
      if is_blank base.hostname
      then []
      else h ∷ (codes "www." ++ h) ∷ (codes "d." ++ h) ∷ (codes "g." ++ h) ∷ []
]

pub data ConfigError : Type 0 where
  base_url_origin : ConfigError
  unbounded_proxies : ConfigError
  proxy_pair : ConfigError
  emoji_id : Text → ConfigError
  no_proxy_account : ConfigError
  no_boundary : ConfigError
  no_signing_keys : ConfigError
  base_url_port : ConfigError

abbrev pub is_origin : Bool → BaseUrl → Bool
is_origin development base =
    not (is_blank base.hostname)
    && not base.has_user
    && is_blank base.raw_query
    && is_blank base.fragment
    && (is_blank base.path || text_eq base.path (codes "/"))
    && (text_eq base.scheme (codes "https") || development && text_eq base.scheme (codes "http"))

abbrev pub is_unbounded : Prefix → Bool
is_unbounded p = not p.is_valid || p.bits == 0

abbrev pub bool_eq : Bool → Bool → Bool
bool_eq true b = b
bool_eq false b = not b

-- The first emoji id that is set and wrong; the pairs are the key and the id.
unfoldable pub bad_emoji : List (Text × Text) → Option Text
unfolding valid_discord_emoji_id
bad_emoji [] = none
bad_emoji (e ∷ es) =
    let rest = bad_emoji es in
    if not (is_blank e.1) && not (valid_discord_emoji_id e.1) then some e.0 else rest

unfoldable pub check_production : Config → BaseUrl → Option ConfigError
check_production cfg base =
    if not cfg.development && is_blank cfg.proxy_user
    then some no_proxy_account
    else if not cfg.development
        && (leb (length cfg.trusted_proxies) 0
            || is_blank cfg.turnstile_site_key
            || is_blank cfg.turnstile_secret_key)
    then some no_boundary
    else if not cfg.development && is_blank cfg.offload_signing_keys
    then some no_signing_keys
    else if not cfg.development && not (is_blank base.port)
    then some base_url_port
    else none

-- The checks of `validate` on the parsed base URL and the key of a wrong emoji id.
unfoldable pub check_base : Config → Option Text → BaseUrl → Option ConfigError
unfolding check_production
check_base cfg emoji base =
    if not (is_origin cfg.development base)
    then some base_url_origin
    else if any is_unbounded cfg.trusted_proxies
    then some unbounded_proxies
    else if not (bool_eq (is_blank cfg.proxy_user) (is_blank cfg.proxy_pass))
    then some proxy_pair
    else (elim emoji [ some key ↦ some (emoji_id key) | none ↦ check_production cfg base ])

-- The map of the two emoji ids is walked from either of them.
unfoldable pub emoji_ids : Bool → Config → List (Text × Text)
emoji_ids true cfg =
    (codes "DISCORD_BRAND_EMOJI_ID", cfg.discord_brand_emoji_id)
    ∷ (codes "DISCORD_VERIFIED_EMOJI_ID", cfg.discord_verified_emoji_id)
    ∷ []
emoji_ids false cfg =
    (codes "DISCORD_VERIFIED_EMOJI_ID", cfg.discord_verified_emoji_id)
    ∷ (codes "DISCORD_BRAND_EMOJI_ID", cfg.discord_brand_emoji_id)
    ∷ []

unfoldable pub validate : (Text → Option BaseUrl) → Bool → Config → Option ConfigError
unfolding check_base bad_emoji emoji_ids
validate parse brand_first cfg = elim (parse cfg.base_url) [
  | none ↦ some base_url_origin
  | some base ↦ check_base cfg (bad_emoji (emoji_ids brand_first cfg)) base
]

-- `strconv.Atoi`: whether the number is negative, and its magnitude.
unfoldable pub atoi : Text → Option (Bool × ℕ)
unfolding read
atoi [] = none
atoi (c ∷ s) =
    let signed = c == b'+' || c == b'-' in
    let digits = if signed then s else c ∷ s in
    let bound = if c == b'-' then 2 ^ 63 else 2 ^ 63 - 1 in
    elim (read 0 digits) [
      | none ↦ none
      | some n ↦ if is_blank digits || ltb bound n then none else some (c == b'-', n)
    ]

unfoldable pub egress_percent_of : Text → ℕ
unfolding atoi
egress_percent_of raw = elim (atoi raw) [
  | none ↦ 100
  | some n ↦ if n.0 && ltb 0 n.1 || ltb 100 n.1 then 100 else n.1
]

-- `cmp.Or` on bytes.
abbrev pub or_default : Text → Text → Text
or_default [] d = d
or_default (c ∷ s) d = c ∷ s

-- What is read of the environment: the trimmed value of a key, `strings.TrimSpace` and the parsers.
pub record Environment : Type 0 where
  pub env : Text → Text
  pub trim : Text → Text
  pub parse_url : Text → Option BaseUrl
  pub parse_prefix : Text → Prefix × Bool
  pub parse_addr : Text → Option Prefix

unfoldable pub config_from_env : Environment → Config
unfolding hosts_of trusted_proxies_of env_list egress_percent_of
config_from_env e =
    let url = or_default (e.env (codes "BASE_URL")) (codes "https://oginstagram.com") in
    record {
      version = or_default (e.env (codes "OG_VERSION")) (codes "dev");
      proxy_user = e.env (codes "PROXY_USERNAME");
      proxy_pass = e.env (codes "PROXY_PASSWORD");
      egress_socket = e.env (codes "EGRESS_SOCKET");
      egress_percent = egress_percent_of (e.env (codes "EGRESS_PERCENT"));
      base_url = trim_right b'/' url;
      offload_signing_keys = e.env (codes "OFFLOAD_SIGNING_KEYS");
      discord_brand_emoji_id =
          or_default (e.env (codes "DISCORD_BRAND_EMOJI_ID")) (codes "1556597080229810266");
      discord_verified_emoji_id =
          or_default (e.env (codes "DISCORD_VERIFIED_EMOJI_ID")) (codes "1556598045670514798");
      data_dir = or_default (e.env (codes "DATA_DIR")) (codes "./data");
      assets_dir = or_default (e.env (codes "ASSETS_DIR")) (codes "../web/dist");
      allowed_hosts = hosts_of e.parse_url url;
      trusted_proxies =
          trusted_proxies_of e.parse_prefix e.parse_addr
            (env_list e.trim (e.env (codes "TRUSTED_PROXIES")));
      turnstile_site_key = e.env (codes "TURNSTILE_SITE_KEY");
      turnstile_secret_key = e.env (codes "TURNSTILE_SECRET_KEY");
      development = text_eq (e.env (codes "DEVELOPMENT")) (codes "true");
    }
