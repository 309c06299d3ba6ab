-- ===== src/Cache/Flight/Moves.antt =====
-- Any order of requests and flights.
use oginstagram.Base.{
  ℕ, ◌+◌, ◌≡◌, refl, List, [], ◌∷◌, Option, none, some, ◌>>=◌, ◌==◌, arith, inl, inr, Option-cases,
  Bool-cases,
}
use oginstagram.Base.Text.{Text}
use oginstagram.Base.Assoc.{lookup}
use oginstagram.Cache.Local.Defs.{Local, empty, local_get}
use oginstagram.Cache.Local.Invariant.{IsValid, empty-IsValid}
use oginstagram.Cache.Local.Read.{local_get-IsValid, stores, step, step-Runs}
use oginstagram.Cache.Flight.{Landing, State, look, join, store_landing, release_flight, put}
use oginstagram.Cache.Flight.Single.{IsSingle, opened-IsSingle, closed-IsSingle}

-- The steps of requests and flights: a look, the part of `get` under the lock, the flight of a key that
-- stores its entry, the flight that is released (nothing, where the key has none), and `put`.
pub data Move {ℓ} (V : Type ℓ) : Type ℓ where
  looks joins : Text → ℕ → Move V
  stores_entry releases : Text → Landing V → Move V
  puts : Text → V → ℕ → ℕ → Move V

module _ {ℓ} {V : Type ℓ} (marshal : V → Option Text) (validate : Text → V → Option V) where
  unfoldable pub move : State V → Move V → Option (State V)
  move s (looks key now) = some (look s key now).0
  move s (joins key now) = some (join s key now).0
  move s (stores_entry key l) = elim (lookup key s.flights) [
    | none ↦ some s
    | some id ↦ store_landing marshal s key l
  ]
  move s (releases key l) = elim (lookup key s.flights) [
    | none ↦ some s
    | some id ↦ some (release_flight s key id l)
  ]
  move s (puts key v ttl now) = put marshal validate s key v ttl now

  unfoldable pub moves : State V → List (Move V) → Option (State V)
  moves s [] = some s
  moves s (x ∷ xs) = move s x >>= λ s'. moves s' xs

  abbrev pub Sound : Option (State V) → Type ℓ
  Sound r = (s : State V) × (r ≡ some s) × IsSingle s × IsValid s.local

  -- The fields that the flights use stay as they are.
  relocated : (s : State V) (c : Local V) → IsSingle s → IsSingle (record s { local = c })
  relocated s c v = record {
    distinct = v.distinct;
    own = v.own;
    below = v.below;
    under_way = v.under_way;
    numbered = v.numbered;
    served = v.served;
  }

  join-Sound :
      (s : State V) (key : Text) (now : ℕ)
      → IsSingle s
      → IsValid s.local
      → Sound (some (join s key now).0)
  unfolding join
  join-Sound s key now v w = elim (Option-cases (lookup key s.flights)) [
    | inr (id, flies) ↦ rw (join, flies) (s, refl, v, w)
    | inl new ↦
        let kept = local_get-IsValid s.local w key now in
        let moved = relocated s (local_get s.local key now).0 v in
        elim (Option-cases (local_get s.local key now).1) [
          | inr (e, found) ↦ rw (join, new, found) (_, refl, moved, kept)
          | inl missed ↦ rw (join, new, missed) (_, refl, opened-IsSingle _ key moved new, kept)
        ]
  ]

  store_landing-Sound :
      (s : State V) (key : Text) (l : Landing V)
      → IsSingle s
      → IsValid s.local
      → Sound (store_landing marshal s key l)
  unfolding store_landing step
  store_landing-Sound s key l v w = elim (Option-cases l.entry) [
    | inl none_kept ↦ rw (store_landing, none_kept) (_, refl, relocated s s.local v, w)
    | inr (e, kept) ↦
        let (c, stored, valid) = step-Runs marshal s.local (stores key e) w in
        rw (store_landing, kept, stored) (_, refl, relocated s c v, valid)
  ]

  put-Sound :
      (s : State V) (key : Text) (value : V) (ttl now : ℕ)
      → IsSingle s
      → IsValid s.local
      → Sound (put marshal validate s key value ttl now)
  unfolding put step
  put-Sound s key value ttl now v w = elim (Option-cases (validate key value)) [
    | inl refused ↦ rw (put, refused) (s, refl, v, w)
    | inr (x, good) ↦ elim (Bool-cases (ttl == 0)) [
      | inl over ↦ rw (put, good, over) (s, refl, v, w)
      | inr lives ↦
          let (c, stored, valid) =
            step-Runs marshal s.local
              (stores key (record { value = x; err = none; expires_at = now + ttl; size = 0 })) w in
          rw (put, good, lives, stored) (_, refl, relocated s c v, valid)
    ]
  ]

  move-Sound : (s : State V) (x : Move V) → IsSingle s → IsValid s.local → Sound (move s x)
  unfolding move look release_flight
  move-Sound s (looks key now) v w =
      (_, refl, relocated s (local_get s.local key now).0 v, local_get-IsValid s.local w key now)
  move-Sound s (joins key now) v w = join-Sound s key now v w
  move-Sound s (stores_entry key l) v w = elim (Option-cases (lookup key s.flights)) [
    | inl idle ↦ rw (move, idle) (s, refl, v, w)
    | inr (id, flies) ↦ rw (move, flies) (store_landing-Sound s key l v w)
  ]
  move-Sound s (releases key l) v w = elim (Option-cases (lookup key s.flights)) [
    | inl idle ↦ rw (move, idle) (s, refl, v, w)
    | inr (id, flies) ↦
        rw (move, flies, release_flight) (_, refl, closed-IsSingle s key id l v flies, w)
  ]
  move-Sound s (puts key value ttl now) v w = put-Sound s key value ttl now v w

  moves-Sound :
      (s : State V) (xs : List (Move V)) → IsSingle s → IsValid s.local → Sound (moves s xs)
  unfolding moves
  moves-Sound s [] v w = (s, refl, v, w)
  moves-Sound s (x ∷ xs) v w =
      let (t, moved, v', w') = move-Sound s x v w in rw moved (moves-Sound t xs v' w')

  abbrev pub initial : ℕ → State V
  initial max_bytes = record { local = empty max_bytes; flights = []; next = 0; landed = [] }

  initial-IsSingle : (max_bytes : ℕ) → IsSingle (initial max_bytes)
  unfolding lookup
  initial-IsSingle max_bytes = record {
    distinct = tt;
    own = λ k j id hk hj. absurd (ground arith);
    below = λ k id hk. absurd (ground arith);
    under_way = λ k id hk. refl;
    numbered = λ id h. refl;
    served = λ id h. absurd (omega arith);
  }

  -- No order of looks, joins, stores and releases of flights, and puts on an empty cache panics; in the state that it leaves
  -- the local cache is valid, a key has at most one flight, and each flight number that a request waits
  -- for is that of one flight under way or has landed, never both.
  pub moves-Single : (max_bytes : ℕ) (xs : List (Move V)) → Sound (moves (initial max_bytes) xs)
  moves-Single max_bytes xs =
      moves-Sound (initial max_bytes) xs (initial-IsSingle max_bytes) (empty-IsValid max_bytes)
