-- ===== src/Fetch/Gate.antt =====
-- server/fetch.go, `v6Gate`: IPv6 is paused for one operation after several failures among its
-- latest attempts. The mutex makes each method one step; the clock is an argument.
pub mod Invariant
pub mod Pauses
use oginstagram.Base.{
  ℕ, ◌+◌, ◌-◌, ◌*◌, ◌%◌, Bool, true, false, List, ◌&&◌, ◌||◌, not, min, max, ltb, ◌==◌,
  if◌then◌else◌, get_or, set, replicate,
}
use oginstagram.Config.{
  ipv6_page_attempt_timeout, ipv6_strikes, ipv6_window, ipv6_pause_min, ipv6_pause_max,
}

-- `recent` holds ipv6_window flags, `true` for a failed attempt.
pub record Gate : Type 0 where
  pub recent : List Bool
  pub next : ℕ
  pub failures : ℕ
  pub until : ℕ
  pub pause : ℕ
  pub probe_at : ℕ

-- The zero value, which `App.v6Gate` stores for a new operation.
abbrev pub init : Gate
init = record {
  recent = replicate ipv6_window false;
  next = 0;
  failures = 0;
  until = 0;
  pause = 0;
  probe_at = 0;
}

unfoldable pub allow : Gate → ℕ → Gate × Bool
allow g now =
    if g.until == 0
    then (g, true)
    else if ltb now g.until || ltb (now - g.probe_at) (ipv6_page_attempt_timeout * 2)
    then (g, false)
    else (record g { probe_at = now }, true)

unfoldable pub release : Gate → Gate
release g = record g { probe_at = 0 }

unfoldable pub note : Gate → Bool → Gate
note g failed = record g {
  recent = set g.recent g.next failed;
  next = (g.next + 1) % ipv6_window;
  failures =
      (if get_or g.recent g.next false then g.failures - 1 else g.failures)
      + (if failed then 1 else 0);
}

unfoldable pub succeed : Gate → Gate
unfolding note
succeed g = if not (g.until == 0) then init else note g false

unfoldable pub fail : Gate → ℕ → Gate
unfolding note
fail g now =
    if ltb now g.until
    then g
    else (let h = note g true in
        if h.until == 0 && ltb h.failures ipv6_strikes
        then h
        else (let pause = min (max (h.pause * 2) ipv6_pause_min) ipv6_pause_max in
            record h { pause = pause; until = now + pause; probe_at = 0 }))
