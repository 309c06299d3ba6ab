-- ===== src/Cache/Flight.antt =====
-- server/cache.go, `get`, `runFlight` and `put`: requests for one key share one lookup. A part that runs under a mutex is one step. The persistent store, the slots and the fetch are
-- seen through what they give: `Work`. Logging is left out.
pub mod Settle
pub mod Single
pub mod Moves
use oginstagram.Base.{
  ℕ, zero, suc, ◌+◌, ◌*◌, ◌≡◌, Bool, true, false, not, ◌&&◌, ◌||◌, List, [], ◌∷◌, Option, none,
  some, ◌>>=◌, is_some, ◌==◌, if◌then◌else◌,
}
use oginstagram.Base.Text.{Text}
use oginstagram.Base.Assoc.{lookup, insert, remove}
use oginstagram.Config.{second}
use oginstagram.Errors.{
  AppError, ContextEnd, ephemeral_err, upstream, context_app_error, error_cache_seconds,
}
use oginstagram.Cache.Local.Defs.{Entry, Local, local_get, store_local}

-- What `fetch` returns; a negative lifetime counts as 0 does.
pub record Fetch {ℓ} (V : Type ℓ) : Type ℓ where
  pub value : V
  pub ttl : ℕ
  pub persist : Bool
  pub err : Option AppError

-- How a flight goes: the store has the key, no slot was free in time, or the fetch returned, by when
-- the flight's context may have ended. A fetch that panics returns an ephemeral error.
pub data Work {ℓ} (V : Type ℓ) : Type ℓ where
  hit : Entry V → Work V
  no_slot : ContextEnd → Work V
  work : Fetch V → Option ContextEnd → ℕ → Work V

-- What a flight leaves: `call.value`, `call.err` and `call.fetched`, the entry to store and whether it
-- also goes to the persistent store, where there is one.
pub record Landing {ℓ} (V : Type ℓ) : Type ℓ where
  pub value : V
  pub err : Option AppError
  pub fetched : Bool
  pub entry : Option (Entry V)
  pub persisted : Bool

abbrev pub invalid_model : AppError
invalid_model = ephemeral_err 502 upstream "upstream returned an invalid cache model"

-- `zero_value` is Go's zero value, `validate` is `cloneAndValidateCacheValue`.
module _ {ℓ} {V : Type ℓ} (zero_value : V) (validate : Text → V → Option V) where
  unfoldable pub fails : AppError → Landing V
  fails e = record {
    value = zero_value;
    err = some e;
    fetched = true;
    entry = none;
    persisted = false;
  }

  -- `size` is set when the entry is stored.
  unfoldable pub lands_with : V → Option AppError → ℕ → Bool → ℕ → Landing V
  lands_with value err ttl persist now = record {
    value = value;
    err = err;
    fetched = true;
    entry =
        if ttl == 0
        then none
        else some (record { value = value; err = err; expires_at = now + ttl; size = 0 });
    persisted = not (ttl == 0) && not (is_some err) && persist;
  }

  unfoldable pub settle_error : V → AppError → Option ContextEnd → ℕ → Landing V
  settle_error value e (some end) now = fails (context_app_error end)
  settle_error value e none now =
      if e.ephemeral || e.status == 499
      then fails e
      else lands_with value (some (record e { cause = none })) (error_cache_seconds e.code * second)
          false now

  unfoldable pub settle_fetch : Text → Fetch V → Option ContextEnd → ℕ → Landing V
  settle_fetch key f ended now = elim f.err [
    | some e ↦ settle_error f.value e ended now
    | none ↦ elim (validate key f.value) [
      | none ↦ fails invalid_model
      | some value ↦ lands_with value none f.ttl f.persist now
    ]
  ]

  unfoldable pub settle : Text → Work V → Landing V
  settle key (hit entry) = record {
    value = entry.value;
    err = none;
    fetched = false;
    entry = some entry;
    persisted = false;
  }
  settle key (no_slot end) = fails (context_app_error end)
  settle key (work f ended now) = settle_fetch key f ended now

-- The cache with its flights: the number of the flight of each key, the next number, and what the
-- flights that ended have left for their waiters.
pub record State {ℓ} (V : Type ℓ) : Type ℓ where
  pub local : Local V
  pub flights : List (Text × ℕ)
  pub next : ℕ
  pub landed : List (ℕ × Landing V)

-- `get` behind the first look: an answer, or the flight to wait for.
pub data Joined {ℓ} (V : Type ℓ) : Type ℓ where
  answered : Entry V → Joined V
  waits : ℕ → Joined V

module _ {ℓ} {V : Type ℓ} where
  -- The first look of `get`.
  unfoldable pub look : State V → Text → ℕ → State V × Option (Entry V)
  look s key now =
      let (local, found) = local_get s.local key now in (record s { local = local }, found)

  -- The part of `get` under `flightMu`.
  unfoldable pub join : State V → Text → ℕ → State V × Joined V
  join s key now = elim (lookup key s.flights) [
    | some id ↦ (s, waits id)
    | none ↦
        let (local, found) = local_get s.local key now in
        elim found [
          | some e ↦ (record s { local = local }, answered e)
          | none ↦ (
            record s { local = local; flights = insert key s.next s.flights; next = s.next + 1 },
            waits s.next,
          )
        ]
  ]

  -- The flight stores its entry, if it leaves one. `none` is the panic of `storeLocal`.
  unfoldable pub store_landing : (V → Option Text) → State V → Text → Landing V → Option (State V)
  store_landing marshal s key landing =
      (elim landing.entry [ none ↦ some s.local | some e ↦ store_local marshal s.local key e ])
      >>= λ local. some (record s { local = local })

  -- `release`: the waiters get the answer, and the key has no flight.
  unfoldable pub release_flight : State V → Text → ℕ → Landing V → State V
  release_flight s key id landing = record s {
    flights = remove key s.flights;
    landed = (id, landing) ∷ s.landed;
  }

  -- The end of a flight that no other request comes between.
  unfoldable pub land : (V → Option Text) → State V → Text → ℕ → Landing V → Option (State V)
  unfolding store_landing release_flight
  land marshal s key id landing =
      store_landing marshal s key landing >>= λ stored. some (release_flight stored key id landing)

  -- `put`: nothing where the value is refused or has no lifetime left.
  unfoldable pub put :
      (V → Option Text) → (Text → V → Option V) → State V → Text → V → ℕ → ℕ → Option (State V)
  put marshal validate s key value ttl now = elim (validate key value) [
    | none ↦ some s
    | some v ↦
        if ttl == 0
        then some s
        else (store_local marshal s.local key
              (record { value = v; err = none; expires_at = now + ttl; size = 0 })
            >>= λ local. some (record s { local = local }))
  ]
