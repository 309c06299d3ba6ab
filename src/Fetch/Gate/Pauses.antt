-- ===== src/Fetch/Gate/Pauses.antt =====
-- When the gate pauses, for how long, and who gets through.
use native.Mathlib.Nat.{pow-suc, mul-le-mul_right}
use oginstagram.Base.{
  ℕ, zero, suc, ◌+◌, ◌*◌, ◌^◌, ◌≤◌, ◌<◌, ◌≡◌, ◌≢◌, ◌↔◌, inl, inr, sym, ap, ◌∙◌, Bool, true, false,
  List, [], ◌∷◌, length, arith, min, leb, Bool-cases,
}
use oginstagram.Base.Ring.{count_true, count_true-window, window, window-set, slide}
use oginstagram.Config.{second, minute, ipv6_strikes, ipv6_window, ipv6_pause_min, ipv6_pause_max}
use oginstagram.Fetch.Gate.{Gate, allow, release, note, fail}
use oginstagram.Fetch.Gate.Invariant.{IsValid, note_counted}

-- `record` slides the window of the latest ten outcomes.
pub note-window :
    (g : Gate) (failed : Bool)
    → IsValid g
    → window (note g failed).next (note g failed).recent ≡ slide (window g.next g.recent) failed
unfolding note
note-window g failed v = window-set ipv6_window g.next g.recent failed v.size v.position

module _ (g : Gate) (v : IsValid g) where
  note_failures :
      (failed : Bool)
      → (note g failed).failures ≡ count_true (slide (window g.next g.recent) failed)
  note_failures failed =
      note_counted g failed v
      ∙ sym (count_true-window (note g failed).next (note g failed).recent)
      ∙ ap count_true (note-window g failed v)

  -- A running gate is paused by a failure exactly when at least three of the latest ten outcomes,
  -- that failure included, are failures.
  pub fail-pauses_iff :
      (now : ℕ)
      → g.until ≡ 0
      → ((fail g now).until ≢ 0) ↔ (ipv6_strikes ≤ count_true (slide (window g.next g.recent) true))
  unfolding fail
  fail-pauses_iff now running =
      (ground (arith, note_failures true), ground (arith, note_failures true))

  -- A failure outside a pause that pauses the gate keeps every request out for two minutes.
  pub fail-refuses :
      (now t : ℕ)
      → g.until ≤ now
      → (fail g now).until ≢ 0
      → t < now + 2 * minute
      → allow (fail g now) t ≡ (fail g now, false)
  unfolding fail allow note
  fail-refuses now t over paused early = ground arith

  -- Behind a pause, once a probe got through, no other does in the three seconds after it; but one
  -- does as soon as the probe is released. The clock stands at three seconds at least.
  pub allow-one_probe :
      (t later : ℕ)
      → g.until ≢ 0
      → (allow g t).1 ≡ true
      → t ≤ later
      → later < t + 3 * second
      → 3 * second ≤ later
      → (allow (allow g t).0 later ≡ ((allow g t).0, false))
        × ((allow (release (allow g t).0) later).1 ≡ true)
  unfolding allow release
  allow-one_probe t later paused through after soon late = ground arith

-- Probes that all fail, each so long after the pause before it is over.
unfoldable pub retry : List ℕ → Gate → Gate
retry [] g = g
retry (late ∷ rest) g = retry rest (fail g (g.until + late))

-- One more failed probe doubles the pause, up to an hour.
fail-doubles :
    (g : Gate) (now : ℕ)
    → g.until ≢ 0
    → g.until ≤ now
    → ipv6_pause_min ≤ g.pause
    → ((fail g now).pause ≡ min (g.pause * 2) ipv6_pause_max)
      × ((fail g now).until ≡ now + (fail g now).pause)
unfolding fail
fail-doubles g now paused over long = ground arith

pow-positive : (n : ℕ) → 1 ≤ 2 ^ n
pow-positive zero = omega arith
pow-positive (suc n) = omega (arith, pow-suc 2 n, pow-positive n)

min-doubles :
    (p q n : ℕ)
    → q ≡ min (p * 2) ipv6_pause_max
    → min (q * 2 ^ n) ipv6_pause_max ≡ min (p * 2 ^ suc n) ipv6_pause_max
min-doubles p q n e = rw (pow-suc 2 n) (elim (Bool-cases (leb (p * 2) ipv6_pause_max)) [
  | inl small ↦ let exact : q ≡ p * 2 = ground arith in rw exact (omega arith)
  | inr large ↦
      let over : ipv6_pause_max ≤ p * 2 = ground arith in
      omega (
        arith,
        pow-positive n,
        mul-le-mul_right (2 ^ n) over,
        ap (λ (t : ℕ). t * 2 ^ n) (let capped : q ≡ ipv6_pause_max = omega arith in capped),
      )
])

-- The pause of a paused gate doubles with every failed probe, however long after the pause the probe
-- is sent, and is capped at an hour; and once it has failed, the gate is paused again for that long.
pub retry-pause :
    (lates : List ℕ) (late : ℕ) (g : Gate)
    → g.until ≢ 0
    → ipv6_pause_min ≤ g.pause
    → g.pause ≤ ipv6_pause_max
    → ((retry lates g).pause ≡ min (g.pause * 2 ^ length lates) ipv6_pause_max)
      × ((fail (retry lates g) ((retry lates g).until + late)).until
          ≡ (retry lates g).until + late + min (g.pause * 2 ^ suc (length lates)) ipv6_pause_max)
unfolding retry
retry-pause [] late g paused long bounded =
    let (pause, until) = fail-doubles g (g.until + late) paused (omega arith) long in
    (omega arith, omega (arith, pow-suc 2 0))
retry-pause (first ∷ rest) late g paused long bounded =
    let (pause, until) = fail-doubles g (g.until + first) paused (omega arith) long in
    let (later, next) =
      retry-pause rest late (fail g (g.until + first)) (λ e. omega arith) (omega arith)
        (omega arith) in
    (
      later ∙ min-doubles g.pause _ (length rest) pause,
      next
          ∙ ap (λ (d : ℕ). (retry rest (fail g (g.until + first))).until + late + d)
              (min-doubles g.pause _ (suc (length rest)) pause),
    )
