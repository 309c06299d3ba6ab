-- ===== src/Tests/Gates.antt =====
-- The IPv6 gate and the story side door on concrete inputs.
use oginstagram.Base.{
  ◌+◌, ◌*◌, ◌^◌, ◌≤◌, ◌≡◌, ◌≢◌, ◌↔◌, refl, ap, subst, min, true, false, [], ◌∷◌, ◌++◌, arith,
  replicate, leb, ltb, ◌&&◌,
}
use oginstagram.Base.Ring.{window, slide, count_true}
use oginstagram.Config.{second, minute, hour, ipv6_strikes, ipv6_pause_max}
use oginstagram.Fetch.Gate.{Gate, init, allow, note, fail, release}
use oginstagram.Fetch.Gate.Invariant.{IsValid, step, run, asks, succeeds, fails, run-init-IsValid}
use oginstagram.Story.Door
use oginstagram.Story.Door.{ring_size, closed_percent, closed}
use oginstagram.Story.Door.Window
use oginstagram.Fetch.Gate.Pauses.{fail-pauses_iff, allow-one_probe, retry, retry-pause}

-- The gate behind two failures, and behind a third at the first hour.
abbrev struck : Gate
struck = record {
  recent = true ∷ true ∷ replicate 8 false;
  next = 2;
  failures = 2;
  until = 0;
  pause = 0;
  probe_at = 0;
}

abbrev paused : Gate
paused = record {
  recent = true ∷ true ∷ true ∷ replicate 7 false;
  next = 3;
  failures = 3;
  until = hour + 2 * minute;
  pause = 2 * minute;
  probe_at = 0;
}

run-struck : run init ((hour, fails) ∷ (hour, fails) ∷ []) ≡ struck
unfolding run step fail note
run-struck = refl

paused_fail : fail struck hour ≡ paused
unfolding fail note
paused_fail = refl

struck-IsValid : IsValid struck
struck-IsValid = subst IsValid run-struck (run-init-IsValid ((hour, fails) ∷ (hour, fails) ∷ []))

paused-IsValid : IsValid paused
unfolding fail note run step
paused-IsValid =
    subst IsValid (ap (λ g. fail g hour) run-struck)
      (run-init-IsValid ((hour, fails) ∷ (hour, fails) ∷ (hour, fails) ∷ []))

run-init-IsValid_example : IsValid (
    run init
      ((hour, fails) ∷ (hour, fails) ∷ (hour, fails) ∷ (hour, asks) ∷ (2 * hour, succeeds) ∷ []))
run-init-IsValid_example =
    run-init-IsValid
      ((hour, fails) ∷ (hour, fails) ∷ (hour, fails) ∷ (hour, asks) ∷ (2 * hour, succeeds) ∷ [])

fail-pauses_example :
    ((fail struck hour).until ≢ 0)
    ↔ (ipv6_strikes ≤ count_true (slide (window 2 struck.recent) true))
fail-pauses_example = fail-pauses_iff struck struck-IsValid hour refl

allow-one_probe_example :
    (allow (allow paused (2 * hour)).0 (2 * hour + second) ≡ ((allow paused (2 * hour)).0, false))
    × ((allow (release (allow paused (2 * hour)).0) (2 * hour + second)).1 ≡ true)
unfolding allow
allow-one_probe_example =
    allow-one_probe paused paused-IsValid (2 * hour) (2 * hour + second) (λ e. omega arith) refl
      (omega arith) (omega arith) (omega arith)

-- Two failed probes, one at the end of its pause and one a second behind it, and a third after an hour.
retry-pause_example :
    ((retry (0 ∷ second ∷ []) paused).pause ≡ min (2 * minute * 2 ^ 2) ipv6_pause_max)
    × ((fail (retry (0 ∷ second ∷ []) paused) ((retry (0 ∷ second ∷ []) paused).until + hour)).until
        ≡ (retry (0 ∷ second ∷ []) paused).until + hour + min (2 * minute * 2 ^ 3) ipv6_pause_max)
retry-pause_example =
    retry-pause (0 ∷ second ∷ []) hour paused (λ e. omega arith) (omega arith) (omega arith)

closed-latest_example :
    let known = min (60 + 1) ring_size in
    (closed (Window.run Door.init (replicate 60 true)) true).1 ≡ (
      leb 50 known
      && ltb
          (known * closed_percent)
          (count_true (Window.latest (replicate 60 true ++ true ∷ [])) * 100)
      && true)
closed-latest_example = Window.closed-latest (replicate 60 true) true
