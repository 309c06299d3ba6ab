-- ===== src/Tests/Flights.antt =====
-- Flights of the cache on concrete inputs.
use oginstagram.Base.{ℕ, ◌+◌, ◌*◌, ◌≡◌, refl, true, [], ◌∷◌, Option, none, some, arith, inr}
use oginstagram.Base.Text.{Text, codes}
use oginstagram.Config.{second}
use oginstagram.Errors.{ig_err, not_found, is_transient, error_cache_seconds}
use oginstagram.Cache.Local.Defs.{Entry, empty, entry_memory_size}
use oginstagram.Cache.Local.Invariant.{empty-IsValid}
use oginstagram.Cache.Flight.{
  Fetch, work, Landing, State, settle, settle_fetch, settle_error, lands_with, fails, look, land,
}
use oginstagram.Cache.Flight.Settle.{Kept, EndsAt, settle-Kept, land-look}
use oginstagram.Cache.Flight.Moves.{
  looks, joins, stores_entry, releases, moves, initial, Sound, moves-Single,
}

abbrev encoded : ℕ → Option Text
encoded n = some (n ∷ n ∷ [])

abbrev accepted : Text → ℕ → Option ℕ
accepted key n = some n

abbrev post_key : Text
post_key = codes "p:ABC"

abbrev not_there : Fetch ℕ
not_there = record {
  value = 0;
  ttl = 0;
  persist = true;
  err = some (ig_err 404 not_found "Post not found.");
}

abbrev kept_error : Entry ℕ
kept_error = record {
  value = 0;
  err = some (ig_err 404 not_found "Post not found.");
  expires_at = 10 + 3600 * second;
  size = 0;
}

abbrev fresh_entry : Entry ℕ
fresh_entry = record { value = 7; err = none; expires_at = 1000; size = 0 }

settle-Kept_example : Kept (settle 0 accepted post_key (work not_there none 10)) 10 kept_error
unfolding EndsAt settle settle_fetch settle_error lands_with fails ig_err error_cache_seconds
    is_transient
settle-Kept_example =
    settle-Kept 0 accepted post_key (work not_there none 10) 10 kept_error refl refl

abbrev landing : Landing ℕ
landing = record {
  value = 7;
  err = none;
  fetched = true;
  entry = some fresh_entry;
  persisted = true;
}

abbrev flying : State ℕ
flying = record { local = empty 4000; flights = (post_key, 0) ∷ []; next = 1; landed = [] }

land-look_example :
    (s : State ℕ) × (found : Entry ℕ) × (land encoded flying post_key 0 landing ≡ some s)
    × (look s post_key 999 ≡ (s, some found))
    × (found.value ≡ 7)
    × (found.err ≡ none)
unfolding entry_memory_size
land-look_example =
    land-look encoded flying post_key 0 999 landing fresh_entry (empty-IsValid 4000) refl refl refl
      (omega arith) (inr (refl, omega arith))

moves-Single_example : Sound encoded accepted (
    moves encoded accepted (initial encoded accepted 4000) (
      looks post_key 1
      ∷ joins post_key 1
      ∷ joins post_key 2
      ∷ stores_entry post_key landing
      ∷ releases post_key landing
      ∷ looks post_key 3
      ∷ []))
moves-Single_example = moves-Single encoded accepted 4000 (
    looks post_key 1
    ∷ joins post_key 1
    ∷ joins post_key 2
    ∷ stores_entry post_key landing
    ∷ releases post_key landing
    ∷ looks post_key 3
    ∷ [])
