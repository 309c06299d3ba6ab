-- ===== src/Fetch/Gate/Invariant.antt =====
-- The gate's bookkeeping is right after every call.
use oginstagram.Base.{
  ℕ, ◌≤◌, ◌<◌, ◌≡◌, ◌≢◌, ◌⊎◌, inl, inr, refl, ◌∙◌, Bool, true, false, List, [], ◌∷◌, arith, length,
  length-set, Bool-cases, ◌==◌,
}
use oginstagram.Base.Ring.{count_true, count_true-set, flag-le-count_true, next_position-lt}
use oginstagram.Config.{ipv6_strikes, ipv6_window, ipv6_pause_min, ipv6_pause_max}
use oginstagram.Fetch.Gate.{Gate, init, allow, release, note, succeed, fail}

pub record IsValid (g : Gate) : Type 0 where
  pub size : length g.recent ≡ ipv6_window
  pub position : g.next < ipv6_window
  pub counted : g.failures ≡ count_true g.recent
  pub bounded : g.pause ≤ ipv6_pause_max
  pub paused :
      (g.until ≡ 0) × (g.pause ≡ 0) × (g.failures < ipv6_strikes)
      ⊎ ((g.until ≢ 0) × (ipv6_pause_min ≤ g.pause))

pub init-IsValid : IsValid init
init-IsValid = record {
  size = refl;
  position = omega arith;
  counted = refl;
  bounded = omega arith;
  paused = inl (refl, refl, omega arith);
}

note_size : (g : Gate) (b : Bool) → IsValid g → length (note g b).recent ≡ ipv6_window
unfolding note
note_size g b v = length-set g.recent g.next b ∙ v.size

pub note_counted :
    (g : Gate) (b : Bool) → IsValid g → (note g b).failures ≡ count_true (note g b).recent
unfolding note
note_counted g b v =
    ground (arith, count_true-set g.recent g.next b, flag-le-count_true g.recent g.next)

note_position : (g : Gate) (b : Bool) → IsValid g → (note g b).next < ipv6_window
unfolding note
note_position g b v = next_position-lt ipv6_window g.next v.position

note_failures-le : (g : Gate) → IsValid g → (note g false).failures ≤ g.failures
unfolding note
note_failures-le g v = ground arith

pub allow-IsValid : (g : Gate) (now : ℕ) → IsValid g → IsValid (allow g now).0
unfolding allow
allow-IsValid g now v = ground arith

pub release-IsValid : (g : Gate) → IsValid g → IsValid (release g)
unfolding release
release-IsValid g v = ground arith

module _ (g : Gate) (v : IsValid g) where
  running_failures : g.until ≡ 0 → (g.pause ≡ 0) × (g.failures < ipv6_strikes)
  running_failures running = ground arith

  noted_success : g.until ≡ 0 → IsValid (note g false)
  noted_success running = record {
    size = note_size g false v;
    position = note_position g false v;
    counted = note_counted g false v;
    bounded = unfold note in v.bounded;
    paused = inl (
        unfold note in
        (
          running,
          (running_failures running).0,
          omega (arith, (running_failures running).1, note_failures-le g v),
        ));
  }

  pub succeed-IsValid : IsValid (succeed g)
  unfolding succeed
  succeed-IsValid = elim (Bool-cases (g.until == 0)) [
    | inl running ↦ rw running (noted_success (ground arith))
    | inr paused ↦ rw paused init-IsValid
  ]

  pub fail-IsValid : (now : ℕ) → IsValid (fail g now)
  unfolding fail
  fail-IsValid now = record {
    size = ground (arith, note_size g true v);
    position = ground (arith, note_position g true v);
    counted = ground (arith, note_counted g true v);
    bounded = ground arith;
    paused = ground arith;
  }

-- What the callers of `fetchViaProxy` do to the gate of one operation, at an instant.
pub data Event : Type 0 where
  asks releases succeeds fails : Event

unfoldable pub step : Gate → ℕ × Event → Gate
step g (now, asks) = (allow g now).0
step g (now, releases) = release g
step g (now, succeeds) = succeed g
step g (now, fails) = fail g now

step-IsValid : (g : Gate) (e : ℕ × Event) → IsValid g → IsValid (step g e)
unfolding step
step-IsValid g (now, asks) v = allow-IsValid g now v
step-IsValid g (now, releases) v = release-IsValid g v
step-IsValid g (now, succeeds) v = succeed-IsValid g v
step-IsValid g (now, fails) v = fail-IsValid g v now

unfoldable pub run : Gate → List (ℕ × Event) → Gate
run g [] = g
run g (e ∷ es) = run (step g e) es

run-IsValid : (g : Gate) (es : List (ℕ × Event)) → IsValid g → IsValid (run g es)
unfolding run
run-IsValid g [] v = v
run-IsValid g (e ∷ es) v = run-IsValid (step g e) es (step-IsValid g e v)

-- After any sequence of calls on a new gate: the ring has its ten flags and the position lies in
-- it, `failures` is the number of failed attempts that the ring holds, the pause is at most an hour,
-- and the gate either runs with fewer than three failures and no pause, or is paused for at least
-- two minutes.
pub run-init-IsValid : (es : List (ℕ × Event)) → IsValid (run init es)
run-init-IsValid es = run-IsValid init es init-IsValid
