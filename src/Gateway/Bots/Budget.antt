-- ===== src/Gateway/Bots/Budget.antt =====
-- How many requests of a visitor the limiter lets through, and when a refused one may come back.
use oginstagram.Base.{
  ℕ, ◌+◌, ◌-◌, ◌*◌, ◌/◌, ◌≤◌, ◌<◌, ◌≡◌, refl, ap, true, false, not, ◌&&◌, ◌||◌, List, [], ◌∷◌, some,
  is_some, leb, ltb, ◌==◌, length, arith, Bool-cases, inl, inr, if◌then◌else◌,
}
use oginstagram.Base.Ring.{flag}
use oginstagram.Base.Text.{Text, text_eq, eq_of_text_eq}
use oginstagram.Base.Assoc.{lookup, insert, lookup-insert}
use oginstagram.Config.{hour, bot_hourly_limit}
use oginstagram.Gateway.Bots.{Limiter, init, counts_of, roll, count, admit, max_bot_limiter_keys}

count-insert :
    (m : List (Text × ℕ)) (k v : Text) (n : ℕ)
    → count (insert k n m) v ≡ (if text_eq k v then n else count m v)
count-insert m k v n = ground (arith, lookup-insert k v n m)

module _ (visitor_of : Text → Text) (v : Text) (h : ℕ) where
  -- What the visitor may still ask for in the hour `h`.
  abbrev remaining : Limiter → ℕ
  remaining l =
      if ltb h l.hour
      then 0
      else (if l.hour == h then bot_hourly_limit - count (counts_of l) v else bot_hourly_limit)

  -- 1 where the call is one of the visitor in the hour, and is let through.
  abbrev pub grants : Limiter → Text → ℕ → ℕ
  grants l ip now =
      flag ((admit visitor_of l ip now).1 && text_eq (visitor_of ip) v && (now / hour == h))

  roll-hour : (l : Limiter) (k : ℕ) → (roll l k).hour ≡ k
  unfolding roll
  roll-hour l k = ground arith

  roll-remaining : (l : Limiter) (k : ℕ) → l.hour ≤ k → remaining (roll l k) ≤ remaining l
  unfolding roll
  roll-remaining l k le = ground arith

  -- Counting one more request of a visitor that is below the limit.
  counted :
      (l : Limiter) (k : Text) (low : count (counts_of l) k < bot_hourly_limit)
      → flag (text_eq k v && (l.hour == h))
          + remaining
              (record l { counts = some (insert k (count (counts_of l) k + 1) (counts_of l)) })
        ≤ remaining l
  counted l k low =
      let written = count-insert (counts_of l) k v (count (counts_of l) k + 1) in
      elim (Bool-cases (text_eq k v)) [
        | inl same ↦
            let here = ap (count (counts_of l)) (eq_of_text_eq k v same) in
            ground (arith, same, written, here, low)
        | inr other ↦ ground (arith, other, written)
      ]

  admit-remaining :
      (l : Limiter) (ip : Text) (now : ℕ)
      → l.hour ≤ now / hour
      → ((admit visitor_of l ip now).0.hour ≡ now / hour)
        × (grants l ip now + remaining (admit visitor_of l ip now).0 ≤ remaining l)
  unfolding admit
  admit-remaining l ip now later =
      let rolled = roll l (now / hour) in
      let less = roll-remaining l (now / hour) later in
      let there = roll-hour l (now / hour) in
      let k = visitor_of ip in
      elim (Bool-cases (
        leb bot_hourly_limit (count (counts_of rolled) k)
        || not (is_some (lookup k (counts_of rolled)))
          && leb max_bot_limiter_keys (length (counts_of rolled)))) [
            | inl refused ↦ rw refused (there, omega (arith, less))
            | inr open_now ↦
                let low : count (counts_of rolled) k < bot_hourly_limit =
                  ground (arith, open_now) in
                let one : flag (text_eq k v && (now / hour == h))
                    ≡ flag (text_eq k v && (rolled.hour == h)) =
                  rw there refl in
                rw open_now (there, omega (arith, one, counted rolled k low, less))
          ]

  -- The calls in their order: an address and an instant each.
  abbrev pub granted : Limiter → List (Text × ℕ) → ℕ
  granted l [] = 0
  granted l ((ip, now) ∷ xs) = grants l ip now + granted (admit visitor_of l ip now).0 xs

  -- The hours of the calls never fall below `k`, nor below that of an earlier call.
  abbrev pub Ordered : ℕ → List (Text × ℕ) → Type 0
  Ordered k [] = Unit
  Ordered k ((ip, now) ∷ xs) = (k ≤ now / hour) × Ordered (now / hour) xs

  granted-remaining :
      (l : Limiter) (xs : List (Text × ℕ)) → Ordered l.hour xs → granted l xs ≤ remaining l
  granted-remaining l [] o = omega arith
  granted-remaining l ((ip, now) ∷ xs) (later, o) =
      let (there, less) = admit-remaining l ip now later in
      let rest = granted-remaining (admit visitor_of l ip now).0 xs (rw there o) in
      omega (arith, less, rest)

  -- Over any calls at non-decreasing times, a visitor gets at most fifty requests through in one
  -- clock hour.
  pub granted-limit : (xs : List (Text × ℕ)) → Ordered 0 xs → granted init xs ≤ bot_hourly_limit
  granted-limit xs o = ground (arith, granted-remaining init xs o)

module _ (visitor_of : Text → Text) (l : Limiter) (ip : Text) (now : ℕ) where
  -- The first request of a new hour is let through.
  admit-new_hour : (now / hour == l.hour) ≡ false → (admit visitor_of l ip now).1 ≡ true
  unfolding admit roll lookup
  admit-new_hour other = rw other refl

  admit-refused :
      (admit visitor_of l ip now).1 ≡ false
      → admit visitor_of l ip now ≡ (roll l (now / hour), false, (now / hour + 1) * hour - now)
  unfolding admit
  admit-refused refused = ground (arith, refused)

-- A refused request is told to wait for at most an hour, and the same visitor's next request after
-- exactly that wait is let through.
pub admit-retry :
    (visitor_of : Text → Text) (l : Limiter) (ip : Text) (now : ℕ)
    → (admit visitor_of l ip now).1 ≡ false
    → (1 ≤ (admit visitor_of l ip now).2)
      × ((admit visitor_of l ip now).2 ≤ hour)
      × ((admit visitor_of (admit visitor_of l ip now).0 ip (now + (admit visitor_of l ip now).2)).1
          ≡ true)
admit-retry visitor_of l ip now refused =
    let answer = admit-refused visitor_of l ip now refused in
    let same : (roll l (now / hour)).hour ≡ now / hour =
      roll-hour visitor_of ip now l (now / hour) in
    let back : now + ((now / hour + 1) * hour - now) ≡ (now / hour + 1) * hour = omega arith in
    let next : (now / hour + 1) * hour / hour ≡ now / hour + 1 = omega arith in
    let other : ((now / hour + 1) * hour / hour == (roll l (now / hour)).hour) ≡ false =
      rw (next, same) (ground arith) in
    rw answer (
      omega arith,
      omega arith,
      rw back (admit-new_hour visitor_of (roll l (now / hour)) ip ((now / hour + 1) * hour) other),
    )
