-- ===== src/Gateway/Bots.antt =====
-- server/gateway.go, `botLimiter`: unverified bots are counted for each visitor and clock hour. The
-- mutex makes a call one step; the clock is an argument, in nanoseconds since the Unix epoch.
pub mod Budget
use oginstagram.Base.{
  ℕ, zero, suc, ◌+◌, ◌-◌, ◌*◌, ◌/◌, Bool, true, false, not, ◌&&◌, ◌||◌, List, [], ◌∷◌, Option, none,
  some, is_some, leb, ◌==◌, length, if◌then◌else◌,
}
use oginstagram.Base.Text.{Text}
use oginstagram.Base.Assoc.{lookup, insert}
use oginstagram.Config.{hour, bot_hourly_limit}

abbrev pub max_bot_limiter_keys : ℕ
max_bot_limiter_keys = 100_000

-- `counts` is none while the source's map is nil.
pub record Limiter : Type 0 where
  pub hour : ℕ
  pub counts : Option (List (Text × ℕ))

abbrev pub init : Limiter
init = record { hour = 0; counts = none }

abbrev pub counts_of : Limiter → List (Text × ℕ)
counts_of l = elim l.counts [ none ↦ [] | some m ↦ m ]

-- A new window where the hour changed or nothing was counted yet.
unfoldable pub roll : Limiter → ℕ → Limiter
roll l h =
    if not (h == l.hour) || not (is_some l.counts) then record { hour = h; counts = some [] } else l

abbrev pub count : List (Text × ℕ) → Text → ℕ
count m visitor = elim (lookup visitor m) [ none ↦ 0 | some n ↦ n ]

-- `visitor_of` is what the source makes of an address: that of an IPv6 address is its /64 prefix.
-- The answer is whether the request is let through, and the wait.
unfoldable pub admit : (Text → Text) → Limiter → Text → ℕ → Limiter × Bool × ℕ
admit visitor_of l ip now =
    let visitor = visitor_of ip in
    let rolled = roll l (now / hour) in
    let m = counts_of rolled in
    if leb bot_hourly_limit (count m visitor)
      || not (is_some (lookup visitor m)) && leb max_bot_limiter_keys (length m)
    then (rolled, false, (now / hour + 1) * hour - now)
    else (record rolled { counts = some (insert visitor (count m visitor + 1) m) }, true, 0)
