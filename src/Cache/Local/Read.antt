-- ===== src/Cache/Local/Read.antt =====
-- What a read finds, and the cache over any sequence of reads and writes.
use oginstagram.Base.{
  ℕ, ◌≤◌, ◌<◌, ◌≡◌, refl, ap, true, false, List, [], ◌∷◌, Option, none, some, ◌>>=◌, is_some, arith,
  Bool-cases, Option-cases, inl, inr, ltb, leb, leb→le,
}
use oginstagram.Base.Text.{Text}
use oginstagram.Base.Assoc.{lookup, lookup-remove_self}
use oginstagram.Cache.Local.Defs.{
  Entry, Local, empty, find, local_get, store_local, entry_memory_size,
}
use oginstagram.Cache.Local.Entries.{lookup-last, lookup-suffix}
use oginstagram.Cache.Local.Invariant.{
  IsValid, empty-IsValid, cleared, cleared-IsValid, remove_local-cleared,
}
use oginstagram.Cache.Local.Store.{store_local-value}
use oginstagram.Cache.Local.StoreError.{store_local-error}

module _ {ℓ} {V : Type ℓ} (c : Local V) (key : Text) (e : Entry V) where
  find_value : lookup key c.entries ≡ some e → find c key ≡ some e
  unfolding find
  find_value hit = ground arith

  find_error : lookup key c.entries ≡ none → lookup key c.err_entries ≡ some e → find c key ≡ some e
  unfolding find
  find_error miss hit = ground arith

module _ {ℓ} {V : Type ℓ} (c : Local V) (v : IsValid c) (key : Text) (now : ℕ) where
  -- An entry is returned before its expiry, and afterwards it is removed and missed. Every other
  -- key is missed, and the cache stays valid.
  pub local_get-find :
      ((e : Entry V) → find c key ≡ some e → now < e.expires_at → local_get c key now ≡ (c, some e))
      × ((e : Entry V)
          → find c key ≡ some e
          → e.expires_at ≤ now
          → local_get c key now ≡ (cleared c key, none))
      × (find c key ≡ none → local_get c key now ≡ (c, none))
  unfolding local_get
  local_get-find = (
    λ e hit fresh. ground arith,
    λ e hit old. ground (arith, remove_local-cleared c v key e hit),
    λ miss. ground arith,
  )

  pub local_get-IsValid : IsValid (local_get c key now).0
  local_get-IsValid = elim (Option-cases (find c key)) [
    | inl miss ↦ rw (local_get-find.2 miss) v
    | inr (e, hit) ↦ elim (Bool-cases (ltb now e.expires_at)) [
      | inl fresh ↦ rw (local_get-find.0 e hit (ground arith)) v
      | inr over ↦ rw (local_get-find.1 e hit (ground arith)) (cleared-IsValid c v key)
    ]
  ]

module _ {ℓ} {V : Type ℓ} (marshal : V → Option Text) (c : Local V) (v : IsValid c) (key : Text)
    (e : Entry V) where
  -- A value of a size within the limit is read back until it expires.
  pub local_get-store_local :
      (now : ℕ)
      → e.err ≡ none
      → entry_memory_size marshal key e ≤ c.max_bytes
      → now < e.expires_at
      → (c' : Local V) × (store_local marshal c key e ≡ some c')
        × (local_get c' key now ≡ (c', some (record e { size = entry_memory_size marshal key e })))
  local_get-store_local now plain fits fresh =
      let s = store_local-value marshal c v key e plain fits in
      let gone = rw s.old_entries at (lookup-remove_self key c.entries v.distinct) in
      let last = lookup-last key s.kept _ (lookup-suffix key s.gone s.kept gone) in
      (
        s.state,
        s.success,
        (local_get-find s.state s.valid key now).0 _
            (find_value s.state key _ (rw s.new_entries last)) fresh,
      )

  -- A negative answer is read back until it expires.
  pub local_get-store_error :
      (now : ℕ)
      → is_some e.err ≡ true
      → now < e.expires_at
      → (c' : Local V) × (store_local marshal c key e ≡ some c')
        × (local_get c' key now ≡ (c', some e))
  local_get-store_error now failed fresh =
      let s = store_local-error c v key e marshal failed in
      let missing = rw (← s.values_kept) at (lookup-remove_self key c.entries v.distinct) in
      (
        s.state,
        s.success,
        (local_get-find s.state s.valid key now).0 e (find_error s.state key e missing s.found)
            fresh,
      )

-- The calls of one cache: a read at an instant, and an entry to store.
pub data Call {ℓ} (V : Type ℓ) : Type ℓ where
  reads : Text → ℕ → Call V
  stores : Text → Entry V → Call V

module _ {ℓ} {V : Type ℓ} (marshal : V → Option Text) where
  unfoldable pub step : Local V → Call V → Option (Local V)
  step c (reads key now) = some (local_get c key now).0
  step c (stores key e) = store_local marshal c key e

  unfoldable pub run : Local V → List (Call V) → Option (Local V)
  run c [] = some c
  run c (x ∷ xs) = do c' ← step c x; run c' xs

  abbrev pub Runs : Option (Local V) → Type ℓ
  Runs r = (c' : Local V) × (r ≡ some c') × IsValid c'

  refused :
      (c : Local V) (key : Text) (e : Entry V)
      → is_some e.err ≡ false
      → c.max_bytes < entry_memory_size marshal key e
      → store_local marshal c key e ≡ some c
  unfolding store_local
  refused c key e plain large = ground arith

  pub step-Runs : (c : Local V) (x : Call V) → IsValid c → Runs (step c x)
  unfolding step
  step-Runs c (reads key now) v = ((local_get c key now).0, refl, local_get-IsValid c v key now)
  step-Runs c (stores key e) v = elim (Option-cases e.err) [
    | inr (err, failed) ↦
        let s = store_local-error c v key e marshal (ap is_some failed) in
        (s.state, s.success, s.valid)
    | inl plain ↦ elim (Bool-cases (leb (entry_memory_size marshal key e) c.max_bytes)) [
      | inl fits ↦
          let s = store_local-value marshal c v key e plain (leb→le _ _ fits) in
          (s.state, s.success, s.valid)
      | inr large ↦ (c, refused c key e (ap is_some plain) (ground arith), v)
    ]
  ]

  run-Runs : (c : Local V) (xs : List (Call V)) → IsValid c → Runs (run c xs)
  unfolding run
  run-Runs c [] v = (c, refl, v)
  run-Runs c (x ∷ xs) v = let (d, e, w) = step-Runs c x v in rw e (run-Runs d xs w)

  -- No sequence of reads and writes on an empty cache panics, and it leaves a valid cache.
  pub run-empty-Runs : (max_bytes : ℕ) (xs : List (Call V)) → Runs (run (empty max_bytes) xs)
  run-empty-Runs max_bytes xs = run-Runs (empty max_bytes) xs (empty-IsValid max_bytes)
