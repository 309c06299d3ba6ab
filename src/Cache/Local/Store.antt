-- ===== src/Cache/Local/Store.antt =====
-- What storing an entry does, and what a read finds afterwards.
use oginstagram.Base.{
  ℕ, ◌+◌, ◌≤◌, ◌<◌, ◌≡◌, ◌⊎◌, refl, ap, ◌∙◌, true, false, List, [], ◌∷◌, ◌++◌, Option, none, some,
  is_some, length, length-append, arith, Bool-cases, inl, inr, ltb, leb,
}
use oginstagram.Base.Text.{Text, text_eq, eq_of_text_eq}
use oginstagram.Base.Assoc.{
  Distinct, Distinct-append, keys, lookup, insert_new, remove, contains-keys, lookup-remove_self,
}
use oginstagram.Cache.Local.Defs.{
  Entry, Local, add_value, remove_both, store_local, entry_memory_size, persistent_local_entry_cap,
}
use oginstagram.Cache.Local.Entries.{
  total, total-append, AllErr-suffix, AllErr-snoc, keys-append, lookup-suffix, lookup-snoc_ne,
  lookup-of_suffix, Distinct-suffix,
}
use oginstagram.Cache.Local.Evict.{Eviction, evict-Eviction, Fits}
use oginstagram.Cache.Local.Invariant.{IsValid, cleared, remove_both-cleared, cleared-IsValid}

module _ {ℓ} {V : Type ℓ} (c : Local V) (v : IsValid c) (key : Text) (e : Entry V) where
  abbrev sized : ℕ → Entry V
  sized size = record e { size = size }

  -- The value cache behind the insertion of `e` into the cleared cache.
  abbrev added : (size : ℕ) → Eviction c.max_bytes (remove key c.entries) key (sized size) → Local V
  added size ev = record (cleared c key) {
    entries = ev.kept ++ (key, sized size) ∷ [];
    order = keys (ev.kept ++ (key, sized size) ∷ []);
    used_bytes = total (ev.kept ++ (key, sized size) ∷ []);
  }

  add_value-added :
      (size : ℕ) (ev : Eviction c.max_bytes (remove key c.entries) key (sized size))
      → add_value (remove_both c key) key (sized size) ≡ some (added size ev)
  unfolding add_value
  add_value-added size ev =
      let w = cleared-IsValid c v key in
      let gone : lookup key (remove key c.entries) ≡ none =
        lookup-remove_self key c.entries v.distinct in
      let sum : total (remove key c.entries ++ (key, sized size) ∷ [])
          ≡ total (remove key c.entries) + size =
        omega (arith, total-append (remove key c.entries) ((key, sized size) ∷ [])) in
      let names = keys-append (remove key c.entries) ((key, sized size) ∷ []) in
      rw (
        remove_both-cleared c v key,
        insert_new key (sized size) (remove key c.entries) gone,
        ← w.same_keys,
        ← names,
        ← sum,
        ev.result,
      )

  module _ (size : ℕ) (ev : Eviction c.max_bytes (remove key c.entries) key (sized size)) where
    kept_without : lookup key ev.kept ≡ none
    kept_without =
        lookup-suffix key ev.gone ev.kept
          (rw ev.split at (lookup-remove_self key c.entries v.distinct))

    kept-Distinct : Distinct (keys (ev.kept ++ (key, sized size) ∷ []))
    kept-Distinct =
        let all =
          rw (ev.split, keys-append ev.gone ev.kept) at ((cleared-IsValid c v key).distinct) in
        rw (keys-append ev.kept ((key, sized size) ∷ [])) (
          Distinct-append key (keys ev.kept) (Distinct-suffix (keys ev.gone) (keys ev.kept) all)
            (contains-keys key ev.kept ∙ ap is_some kept_without))

    kept_apart :
        (k : Text)
        → is_some (lookup k (ev.kept ++ (key, sized size) ∷ [])) ≡ true
        → lookup k (remove key c.err_entries) ≡ none
    kept_apart k h = elim (Bool-cases (text_eq key k)) [
      | inl same ↦
          rw (← eq_of_text_eq key k same) (lookup-remove_self key c.err_entries v.err_distinct)
      | inr other ↦ (cleared-IsValid c v key).apart k (
          rw ev.split (
            lookup-of_suffix k ev.gone ev.kept
              (rw (lookup-snoc_ne key k ev.kept (sized size) other) at h)))
    ]

    added-IsValid : is_some e.err ≡ false → IsValid (added size ev)
    added-IsValid plain =
        let w = cleared-IsValid c v key in
        record {
          same_keys = refl;
          distinct = kept-Distinct;
          used = refl;
          within = ev.fits.0;
          few = ev.fits.1;
          values =
              AllErr-snoc false ev.kept key (sized size)
                (AllErr-suffix false ev.gone ev.kept (rw ev.split at w.values)) plain;
          err_same_keys = w.err_same_keys;
          err_distinct = w.err_distinct;
          err_few = w.err_few;
          errors = w.errors;
          apart = kept_apart;
        }

crowded {ℓ} :
    {V : Type ℓ} (max_bytes : ℕ) (m : List (Text × Entry V)) (key : Text) (e : Entry V)
    → ¬ Fits max_bytes (m ++ (key, e) ∷ [])
    → (max_bytes < total m + e.size) ⊎ (persistent_local_entry_cap ≤ length m)
crowded max_bytes m key e over =
    ground (arith, total-append m ((key, e) ∷ []), length-append m ((key, e) ∷ []))

-- The outcome of storing a value: `state` is the new cache, `gone` what was dropped for it.
pub record Stored {ℓ} {V : Type ℓ} (c : Local V) (key : Text) (e : Entry V) (r : Option (Local V))
    : Type ℓ where
  pub state : Local V
  pub gone : List (Text × Entry V)
  pub kept : List (Text × Entry V)
  pub success : r ≡ some state
  pub valid : IsValid state
  pub old_entries : remove key c.entries ≡ gone ++ kept
  pub new_entries : state.entries ≡ kept ++ (key, e) ∷ []
  pub errors_kept : state.err_entries ≡ remove key c.err_entries
  pub lazily :
      (gone ≡ [])
      ⊎ (c.max_bytes < total (remove key c.entries) + e.size)
      ⊎ (persistent_local_entry_cap ≤ length (remove key c.entries))

module _ {ℓ} {V : Type ℓ} (marshal : V → Option Text) (c : Local V) (v : IsValid c) (key : Text)
    (e : Entry V) where
  store_local-add_value :
      e.err ≡ none
      → entry_memory_size marshal key e ≤ c.max_bytes
      → store_local marshal c key e
        ≡ add_value (remove_both c key) key (record e { size = entry_memory_size marshal key e })
  unfolding store_local
  store_local-add_value plain fits =
      let large : leb (entry_memory_size marshal key e) 0 ≡ false =
        unfold entry_memory_size in ground arith in
      let small : ltb c.max_bytes (entry_memory_size marshal key e) ≡ false = ground arith in
      let value : is_some e.err ≡ false = ap is_some plain in rw (value, large, small)

  -- A value whose size is within the limit is stored without a panic and the cache stays valid: the
  -- value is the newest entry, the other values lose only a beginning of the order of insertion, and
  -- none where the new value fits beside them, and of the errors only that of the key goes.
  pub store_local-value :
      e.err ≡ none
      → entry_memory_size marshal key e ≤ c.max_bytes
      → Stored c key
          (record e { size = entry_memory_size marshal key e })
          (store_local marshal c key e)
  store_local-value plain fits =
      let size = entry_memory_size marshal key e in
      let ev =
        evict-Eviction c.max_bytes (remove key c.entries) key (record e { size = size }) fits in
      record {
        state = added c v key e size ev;
        gone = ev.gone;
        kept = ev.kept;
        success = store_local-add_value plain fits ∙ add_value-added c v key e size ev;
        valid = added-IsValid c v key e size ev (ap is_some plain);
        old_entries = ev.split;
        new_entries = refl;
        errors_kept = refl;
        lazily = elim ev.lazily [
          | inl none_gone ↦ inl none_gone
          | inr over ↦
              inr (crowded c.max_bytes (remove key c.entries) key (record e { size = size }) over)
        ];
      }
