-- ===== src/Tests/Caches.antt =====
-- The local cache on concrete inputs.
use oginstagram.Base.{ℕ, ◌≡◌, refl, [], ◌∷◌, Option, none, some, arith}
use oginstagram.Base.Text.{Text, codes}
use oginstagram.Errors.{ig_err, not_found}
use oginstagram.Cache.Local.Defs.{Entry, Local, empty, entry_memory_size, store_local, local_get}
use oginstagram.Cache.Local.Invariant.{IsValid, empty-IsValid}
use oginstagram.Cache.Local.Store.{Stored, store_local-value}
use oginstagram.Cache.Local.StoreError.{StoredError, store_local-error}
use oginstagram.Cache.Local.Read.{reads, stores, run, run-empty-Runs, local_get-store_local}

-- A value is encoded as its two bytes.
abbrev encoded : ℕ → Option Text
encoded n = some (n ∷ n ∷ [])

abbrev fresh : ℕ → Entry ℕ
fresh n = record { value = n; err = none; expires_at = 1000; size = 0 }

abbrev gone : Entry ℕ
gone = record {
  value = 0;
  err = some (ig_err 404 not_found "Post not found.");
  expires_at = 1000;
  size = 0;
}

abbrev key : Text
key = codes "p:ABC"

abbrev sized : ℕ → ℕ → Entry ℕ
sized n size = record { value = n; err = none; expires_at = 1000; size = size }

abbrev limit : ℕ
limit = 4000

store_local-value_example :
    Stored
      (empty limit)
      key
      (record (fresh 7) { size = entry_memory_size encoded key (fresh 7) })
      (store_local encoded (empty limit) key (fresh 7))
unfolding entry_memory_size
store_local-value_example =
    store_local-value encoded (empty limit) (empty-IsValid limit) key (fresh 7) refl (omega arith)

store_local-error_example :
    StoredError (empty limit) key gone (store_local encoded (empty limit) key gone)
store_local-error_example =
    store_local-error (empty limit) (empty-IsValid limit) key gone encoded refl

local_get-store_local_example :
    (c : Local ℕ) × (store_local encoded (empty limit) key (fresh 7) ≡ some c)
    × (local_get c key 999
        ≡ (c, some (record (fresh 7) { size = entry_memory_size encoded key (fresh 7) })))
unfolding entry_memory_size
local_get-store_local_example =
    local_get-store_local encoded (empty limit) (empty-IsValid limit) key (fresh 7) 999 refl
      (omega arith) (omega arith)

run-empty_example :
    (c : Local ℕ) × (run encoded
        (empty limit)
        (stores key (fresh 7) ∷ stores key gone ∷ reads key 2000 ∷ [])
      ≡ some c)
    × IsValid c
run-empty_example =
    run-empty-Runs encoded limit (stores key (fresh 7) ∷ stores key gone ∷ reads key 2000 ∷ [])
