-- ===== src/Cache/Flight/Settle.antt =====
-- What a flight keeps, and that later requests get what its waiters got.
use oginstagram.Base.{
  ℕ, ◌+◌, ◌*◌, ◌≤◌, ◌<◌, ◌≡◌, ◌≢◌, refl, ap, sym, subst, ◌∙◌, Bool, true, false, ◌∷◌, Option, none,
  some, is_some, arith, ◌⊎◌, inl, inr,
}
use mathlib.Core.Option.{some-injective}
use oginstagram.Base.Text.{Text}
use oginstagram.Base.Assoc.{remove}
use oginstagram.Config.{second}
use oginstagram.Errors.{AppError, ContextEnd, error_cache_seconds}
use oginstagram.Cache.Local.Defs.{Entry, Local, entry_memory_size}
use oginstagram.Cache.Local.Invariant.{IsValid}
use oginstagram.Cache.Local.Read.{local_get-store_local, local_get-store_error}
use oginstagram.Cache.Flight.{
  Fetch, Work, hit, no_slot, work, Landing, fails, lands_with, settle_error, settle_fetch, settle,
  State, look, land, store_landing, release_flight,
}

module _ {ℓ} {V : Type ℓ} where
  -- What an entry that a flight leaves at `now` is: the waiters' answer, alive, and no error but a
  -- verdict that is kept for its time.
  pub record Kept (landing : Landing V) (now : ℕ) (e : Entry V) : Type ℓ where
    pub same_value : e.value ≡ landing.value
    pub same_err : e.err ≡ landing.err
    pub alive : now < e.expires_at
    pub verdict :
        (e.err ≡ none)
        ⊎ (a : AppError) × (e.err ≡ some a)
          × (a.ephemeral ≡ false)
          × (a.status ≢ 499)
          × (a.cause ≡ none)
          × (e.expires_at ≡ now + error_cache_seconds a.code * second)

module _ {ℓ} {V : Type ℓ} (zero_value : V) (validate : Text → V → Option V) where
  error_cache_seconds-positive : (e : AppError) → 0 < error_cache_seconds e.code * second
  unfolding error_cache_seconds
  error_cache_seconds-positive e = ground arith

  settle_error-Kept :
      (value : V) (a : AppError) (ended : Option ContextEnd) (now : ℕ) (e : Entry V)
      → (settle_error zero_value validate value a ended now).entry ≡ some e
      → Kept (settle_error zero_value validate value a ended now) now e
  unfolding settle_error fails lands_with
  settle_error-Kept value a (some end) now e h = absurd (ground arith)
  settle_error-Kept value a none now e h = record {
    same_value = ground (arith, error_cache_seconds-positive a);
    same_err = ground (arith, error_cache_seconds-positive a);
    alive = ground (arith, error_cache_seconds-positive a);
    verdict = inr (
      record a { cause = none },
      ground (arith, error_cache_seconds-positive a),
      ground (arith, error_cache_seconds-positive a),
      ground (arith, error_cache_seconds-positive a),
      refl,
      ground (arith, error_cache_seconds-positive a),
    );
  }

  lands_with-Kept :
      (value : V) (ttl : ℕ) (persist : Bool) (now : ℕ) (e : Entry V)
      → (lands_with zero_value validate value none ttl persist now).entry ≡ some e
      → Kept (lands_with zero_value validate value none ttl persist now) now e
  unfolding lands_with
  lands_with-Kept value ttl persist now e h = record {
    same_value = ground arith;
    same_err = ground arith;
    alive = ground arith;
    verdict = inl (ground arith);
  }

  settle_fetch-Kept :
      (key : Text) (f : Fetch V) (ended : Option ContextEnd) (now : ℕ) (e : Entry V)
      → (settle zero_value validate key (work f ended now)).entry ≡ some e
      → Kept (settle zero_value validate key (work f ended now)) now e
  unfolding settle settle_fetch fails
  settle_fetch-Kept key f ended now e h = go f.err (validate key f.value) refl refl
    where
      go :
          (err : Option AppError) (valid : Option V)
          → f.err ≡ err
          → validate key f.value ≡ valid
          → Kept (settle zero_value validate key (work f ended now)) now e
      go (some a) valid fe ve =
          rw (settle, settle_fetch, fe)
            (settle_error-Kept f.value a ended now e (ground (arith, fe, h)))
      go none none fe ve = absurd (ground (arith, fe, ve))
      go none (some v) fe ve =
          rw (settle, settle_fetch, fe, ve)
            (lands_with-Kept v f.ttl f.persist now e (ground (arith, fe, ve, h)))

  -- The flight ends at `now`: a fetch returned then, or the store has an entry that is alive then;
  -- the store keeps no errors.
  unfoldable pub EndsAt : ℕ → Work V → Type 0
  EndsAt now (hit entry) = (entry.err ≡ none) × (now < entry.expires_at)
  EndsAt now (no_slot end) = Unit
  EndsAt now (work f ended t) = t ≡ now

  -- An entry that a flight leaves is the answer of its waiters, value and error, and is still alive;
  -- where it is an error, it is neither ephemeral nor a cancellation, carries no cause, and lives for
  -- the time of its code. A fetch ends at that time; a hit of the persistent store is alive and no error.
  pub settle-Kept :
      (key : Text) (w : Work V) (now : ℕ) (e : Entry V)
      → EndsAt now w
      → (settle zero_value validate key w).entry ≡ some e
      → Kept (settle zero_value validate key w) now e
  unfolding settle fails EndsAt
  settle-Kept key (hit entry) now e ends h = record {
    same_value = ap (λ (x : Entry V). x.value) (sym (some-injective _ _ h));
    same_err = ap (λ (x : Entry V). x.err) (sym (some-injective _ _ h)) ∙ ends.0;
    alive = subst (λ (x : Entry V). now < x.expires_at) (some-injective _ _ h) ends.1;
    verdict = inl (ap (λ (x : Entry V). x.err) (sym (some-injective _ _ h)) ∙ ends.0);
  }
  settle-Kept key (no_slot end) now e ends h = absurd cc
  settle-Kept key (work f ended t) now e ends h =
      subst (λ (x : ℕ). Kept (settle zero_value validate key (work f ended t)) x e) ends
        (settle_fetch-Kept key f ended t e h)

-- Once a flight that keeps its answer has landed, a request that looks before the entry expires is
-- answered with the value and the error that the waiters of the flight got; that holds for every
-- error, and for a value whose size is within the limit of the cache.
pub land-look {ℓ} :
    {V : Type ℓ} (marshal : V → Option Text) (s : State V) (key : Text) (id now : ℕ)
    (landing : Landing V) (e : Entry V)
    → IsValid s.local
    → landing.entry ≡ some e
    → e.value ≡ landing.value
    → e.err ≡ landing.err
    → now < e.expires_at
    → (is_some e.err ≡ true)
      ⊎ (e.err ≡ none) × (entry_memory_size marshal key e ≤ s.local.max_bytes)
    → (s' : State V) × (found : Entry V) × (land marshal s key id landing ≡ some s')
      × (look s' key now ≡ (s', some found))
      × (found.value ≡ landing.value)
      × (found.err ≡ landing.err)
unfolding land look store_landing release_flight
land-look {V = V} marshal s key id now landing e v kept value err alive size = elim size [
  | inl failed ↦
      let (c, stored, found) = local_get-store_error marshal s.local v key e now failed alive in
      (landed_state c, e, rw (kept, stored) refl, rw found refl, value, err)
  | inr (plain, fits) ↦
      let (c, stored, found) = local_get-store_local marshal s.local v key e now plain fits alive in
      (
        landed_state c,
        record e { size = entry_memory_size marshal key e },
        rw (kept, stored) refl,
        rw found refl,
        value,
        err,
      )
]
  where
    landed_state : Local V → State V
    landed_state c = record s {
      local = c;
      flights = remove key s.flights;
      landed = (id, landing) ∷ s.landed;
    }
