-- ===== src/Instant.antt =====
-- Instants and durations as Go's package time counts them, in nanoseconds. An instant is counted from
-- Go's zero time, and may lie before it; the clock never does, so that its reading is a number. A
-- duration has 64 bits: `Sub` saturates, and a subtraction of durations wraps.
use oginstagram.Base.{ℕ, ◌+◌, ◌-◌, ◌*◌, ◌^◌, ◌≤◌, min, ltb, leb, if◌then◌else◌, arith}
use oginstagram.Base.Int.{ℤ, pos, negsuc, to_nat}
use oginstagram.Config.{second, cdn_ttl_margin}
use oginstagram.Offload.Signer.{unix_epoch}

-- `time.Unix(n, 0)`: seconds past the int64 range wrap into the far past.
unfoldable pub unix_time : ℕ → ℤ
unix_time n =
    if ltb (n + unix_epoch) (2 ^ 63)
    then pos ((n + unix_epoch) * second)
    else negsuc ((2 ^ 64 - (n + unix_epoch)) * second - 1)

-- `t.Sub(now)`, between the least and the greatest duration.
unfoldable pub sub_time : ℤ → ℕ → ℤ
sub_time (pos t) now =
    if leb now t then pos (min (t - now) (2 ^ 63 - 1)) else negsuc (min (now - t) (2 ^ 63) - 1)
sub_time (negsuc t) now = negsuc (min (now + t) (2 ^ 63 - 1))

-- `d - margin` on 64 bits.
unfoldable pub minus : ℤ → ℕ → ℤ
minus (pos d) margin = if leb margin d then pos (d - margin) else negsuc (margin - d - 1)
minus (negsuc d) margin =
    if ltb (d + margin) (2 ^ 63) then negsuc (d + margin) else pos (2 ^ 64 - (d + margin) - 1)

-- Up to this instant, in the year 2262, no link of the Unix time lies so far back that the subtraction
-- of the margin wraps.
abbrev pub last_instant : ℕ
last_instant = unix_epoch * second + 2 ^ 63 - cdn_ttl_margin

pub sub_time-bound : (t : ℤ) (now : ℕ) → to_nat (sub_time t now) ≤ to_nat t - now
unfolding sub_time to_nat
sub_time-bound (pos t) now = ground arith
sub_time-bound (negsuc t) now = ground arith

pub minus-bound :
    (n now : ℕ)
    → now ≤ last_instant
    → to_nat (minus (sub_time (unix_time n) now) cdn_ttl_margin)
      ≤ (n + unix_epoch) * second - now - cdn_ttl_margin
unfolding sub_time minus unix_time to_nat
minus-bound n now soon = ground arith
