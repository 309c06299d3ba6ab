-- ===== src/Cache/Local/Defs.antt =====
-- server/cache.go: the entries, their sizes, and the methods `localGet`, `removeLocalLocked` and
-- `storeLocal`.
use oginstagram.Base.{
  ℕ, ◌+◌, ◌-◌, ◌*◌, ◌||◌, List, [], ◌∷◌, ◌++◌, Option, none, some, ◌>>=◌, is_some, length, ltb, leb,
  if◌then◌else◌,
}
use oginstagram.Base.Text.{Text}
use oginstagram.Base.Assoc.{erase, lookup, insert, remove}
use oginstagram.Errors.{AppError}

abbrev pub persistent_local_entry_cap : ℕ
persistent_local_entry_cap = 8192

abbrev pub error_local_entry_cap : ℕ
error_local_entry_cap = 8192

abbrev pub cache_entry_memory_overhead : ℕ
cache_entry_memory_overhead = 512

pub record Entry {ℓ} (V : Type ℓ) : Type ℓ where
  pub value : V
  pub err : Option AppError
  pub expires_at : ℕ
  pub size : ℕ

-- The fields of `cache` that `mu` guards, and `maxBytes`.
pub record Local {ℓ} (V : Type ℓ) : Type ℓ where
  pub max_bytes : ℕ
  pub entries : List (Text × Entry V)
  pub order : List Text
  pub used_bytes : ℕ
  pub err_entries : List (Text × Entry V)
  pub err_order : List Text

abbrev pub empty {ℓ} : {V : Type ℓ} → ℕ → Local V
empty max_bytes = record {
  max_bytes = max_bytes;
  entries = [];
  order = [];
  used_bytes = 0;
  err_entries = [];
  err_order = [];
}

module _ {ℓ} {V : Type ℓ} where
  unfoldable pub entry_memory_size : (V → Option Text) → Text → Entry V → ℕ
  entry_memory_size marshal key entry =
      cache_entry_memory_overhead
      + length key * 2
      + (elim (marshal entry.value) [ none ↦ 0 | some encoded ↦ length encoded * 2 ])

  unfoldable pub remove_local : Local V → Text → Entry V → Local V
  remove_local c key entry =
      if is_some entry.err
      then record c { err_entries = remove key c.err_entries; err_order = erase key c.err_order }
      else record c {
        used_bytes = c.used_bytes - entry.size;
        entries = remove key c.entries;
        order = erase key c.order;
      }

  -- `entry, ok := c.entries[key]`, and the errors where that misses.
  unfoldable pub find : Local V → Text → Option (Entry V)
  find c key = elim (lookup key c.entries) [
    | none ↦ lookup key c.err_entries
    | some entry ↦ some entry
  ]

  unfoldable pub local_get : Local V → Text → ℕ → Local V × Option (Entry V)
  local_get c key now = elim (find c key) [
    | none ↦ (c, none)
    | some entry ↦
        if ltb now entry.expires_at then (c, some entry) else (remove_local c key entry, none)
  ]

  -- The eviction loop, on the order: oldest entries go while there are too many bytes or entries.
  -- `none` is the panic of `c.entries[oldest].size` at a key that has no entry.
  unfoldable pub evict :
      ℕ → List Text → List (Text × Entry V) → ℕ → Option (List Text × List (Text × Entry V) × ℕ)
  evict max_bytes [] entries used = some ([], entries, used)
  evict max_bytes (oldest ∷ order) entries used =
      let rest = lookup oldest entries >>= λ entry.
      evict max_bytes order (remove oldest entries) (used - entry.size) in
      if ltb max_bytes used || ltb persistent_local_entry_cap (length entries)
      then rest
      else some (oldest ∷ order, entries, used)

  -- `removeLocalLocked`, where the map had an entry.
  unfoldable pub remove_old : Local V → Text → Option (Entry V) → Local V
  remove_old c key none = c
  remove_old c key (some old) = remove_local c key old

  -- The new map and order of errors, without the oldest where the order is over the cap.
  unfoldable pub trim_errors : Local V → List (Text × Entry V) → List Text → Local V
  trim_errors c entries [] = record c { err_entries = entries; err_order = [] }
  trim_errors c entries (oldest ∷ rest) =
      if ltb error_local_entry_cap (length (oldest ∷ rest))
      then record c { err_entries = remove oldest entries; err_order = rest }
      else record c { err_entries = entries; err_order = oldest ∷ rest }

  unfoldable pub add_error : Local V → Text → Entry V → Local V
  add_error c key entry = trim_errors c (insert key entry c.err_entries) (c.err_order ++ key ∷ [])

  unfoldable pub add_value : Local V → Text → Entry V → Option (Local V)
  add_value c key entry = do
    (order, entries, used) ←
        evict c.max_bytes (c.order ++ key ∷ []) (insert key entry c.entries)
          (c.used_bytes + entry.size)
    some (record c { order = order; entries = entries; used_bytes = used })

  unfoldable pub remove_both : Local V → Text → Local V
  remove_both c key =
      remove_old (remove_old c key (lookup key c.entries)) key (lookup key c.err_entries)

  unfoldable pub store_local : (V → Option Text) → Local V → Text → Entry V → Option (Local V)
  store_local marshal c key entry =
      if is_some entry.err
      then some (add_error (remove_both c key) key entry)
      else (let size = entry_memory_size marshal key entry in
          if leb size 0 || ltb c.max_bytes size
          then some c
          else add_value (remove_both c key) key (record entry { size = size }))
