-- ===== src/Config.antt =====
-- server/config.go: the constants that the components share. A duration is a number of nanoseconds,
-- as in Go's time package, and an instant is the nanoseconds since Go's zero time, so that
-- `IsZero` is a test for 0.
pub mod Startup
use oginstagram.Base.{ℕ, ◌*◌}

abbrev pub second : ℕ
second = 1_000_000_000

abbrev pub minute : ℕ
minute = 60 * second

abbrev pub hour : ℕ
hour = 60 * minute

abbrev pub transient_error_cache_seconds : ℕ
transient_error_cache_seconds = 60

abbrev pub permanent_error_cache_seconds : ℕ
permanent_error_cache_seconds = 3600

abbrev pub ipv6_page_attempt_timeout : ℕ
ipv6_page_attempt_timeout = 1_500_000_000

abbrev pub ipv6_strikes : ℕ
ipv6_strikes = 3

abbrev pub ipv6_window : ℕ
ipv6_window = 10

abbrev pub ipv6_pause_min : ℕ
ipv6_pause_min = 2 * minute

abbrev pub ipv6_pause_max : ℕ
ipv6_pause_max = hour

abbrev pub rotate_cooldown : ℕ
rotate_cooldown = 3 * second

abbrev pub bot_hourly_limit : ℕ
bot_hourly_limit = 50

abbrev pub partial_post_ttl : ℕ
partial_post_ttl = 10 * minute

abbrev pub cdn_fallback_ttl : ℕ
cdn_fallback_ttl = 24 * hour

abbrev pub cdn_ttl_margin : ℕ
cdn_ttl_margin = 30 * minute

abbrev pub proxy_session_count : ℕ
proxy_session_count = 10

abbrev pub www_sessions : ℕ
www_sessions = 3

abbrev pub max_avatar_bytes : ℕ
max_avatar_bytes = 524_288
