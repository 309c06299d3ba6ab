-- ===== src/Tests/Startups.antt =====
-- Configurations on concrete inputs.
use oginstagram.Base.{◌≡◌, refl, true, false, [], Option, none, some}
use oginstagram.Base.Text.{Text, codes, text_eq}
use oginstagram.Config.Startup.{
  BaseUrl, Config, Environment, config_from_env, validate, egress_percent_of, emoji_id,
}
use oginstagram.Config.Startup.Accepted.{IsEmoji, IsPublic, validate-IsPublic}

abbrev home : BaseUrl
home = record {
  scheme = codes "https";
  has_user = false;
  hostname = codes "oginstagram.com";
  port = [];
  path = [];
  raw_query = [];
  fragment = [];
}

-- Every value is the same text, which the parsers accept.
abbrev filled : Text → Environment
filled value = record {
  env = λ key. value;
  trim = λ text. text;
  parse_url = λ text. some home;
  parse_prefix = λ text. (record { is_valid = true; bits = 8 }, true);
  parse_addr = λ text. none;
}

abbrev public : Config
public = config_from_env (filled (codes "1556597080229810266"))

validate_emoji_run :
    validate (λ text. some home) false (config_from_env (filled (codes "x")))
    ≡ some (emoji_id (codes "DISCORD_VERIFIED_EMOJI_ID"))
unfolding validate text_eq config_from_env oginstagram.Routes.split oginstagram.Routes.prepend
validate_emoji_run = refl

egress_percent_of_run : egress_percent_of (codes "-0") ≡ 0
unfolding egress_percent_of text_eq
egress_percent_of_run = refl

abbrev finds_home : Text → Option BaseUrl
finds_home url = some home

validate-IsPublic_example :
    (base : BaseUrl) × (finds_home public.base_url ≡ some base)
    × IsPublic public base
    × IsEmoji public.discord_brand_emoji_id
    × IsEmoji public.discord_verified_emoji_id
unfolding config_from_env text_eq validate oginstagram.Routes.split oginstagram.Routes.prepend
validate-IsPublic_example = validate-IsPublic finds_home true public refl refl
