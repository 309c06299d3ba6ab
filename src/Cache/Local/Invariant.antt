-- ===== src/Cache/Local/Invariant.antt =====
-- The invariant of the local cache, and the state after the old entries of a key are removed.
use oginstagram.Base.{
  ℕ, ◌-◌, ◌≤◌, ◌≡◌, refl, ap, ◌∙◌, true, false, none, some, is_some, length, arith, Option-cases,
  inl, inr, Bool-cases,
}
use oginstagram.Base.Text.{Text, text_eq, eq_of_text_eq}
use oginstagram.Base.Assoc.{
  Distinct, Distinct-erase, erase, keys, lookup, remove, keys-remove, contains-keys,
  lookup-remove_self, lookup-remove_ne, length-remove,
}
use oginstagram.Cache.Local.Defs.{
  Entry, Local, empty, remove_local, remove_old, remove_both, find, persistent_local_entry_cap,
  error_local_entry_cap,
}
use oginstagram.Cache.Local.Entries.{
  total, total-remove, total-remove-le, AllErr, AllErr-remove, AllErr-lookup, remove_absent,
  erase_absent,
}

module _ {ℓ} {V : Type ℓ} where
  -- Each order lists the keys of its map once; `usedBytes` is the sum of the sizes and within the
  -- limit; both maps are within their caps; values and errors are in the right map, and no key is
  -- in both.
  pub record IsValid (c : Local V) : Type ℓ where
    pub same_keys : keys c.entries ≡ c.order
    pub distinct : Distinct (keys c.entries)
    pub used : c.used_bytes ≡ total c.entries
    pub within : c.used_bytes ≤ c.max_bytes
    pub few : length c.entries ≤ persistent_local_entry_cap
    pub values : AllErr false c.entries
    pub err_same_keys : keys c.err_entries ≡ c.err_order
    pub err_distinct : Distinct (keys c.err_entries)
    pub err_few : length c.err_entries ≤ error_local_entry_cap
    pub errors : AllErr true c.err_entries
    pub apart : (k : Text) → is_some (lookup k c.entries) ≡ true → lookup k c.err_entries ≡ none

  pub empty-IsValid : (max_bytes : ℕ) → IsValid (empty {V = V} max_bytes)
  unfolding lookup
  empty-IsValid max_bytes = record {
    same_keys = refl;
    distinct = tt;
    used = refl;
    within = omega arith;
    few = omega arith;
    values = tt;
    err_same_keys = refl;
    err_distinct = tt;
    err_few = omega arith;
    errors = tt;
    apart = λ k h. refl;
  }

  -- The cache without the entries of a key.
  abbrev pub cleared : Local V → Text → Local V
  cleared c key = record c {
    entries = remove key c.entries;
    order = erase key c.order;
    used_bytes = total (remove key c.entries);
    err_entries = remove key c.err_entries;
    err_order = erase key c.err_order;
  }

  module _ (c : Local V) (v : IsValid c) (key : Text) where
    erase_value : lookup key c.entries ≡ none → erase key c.order ≡ c.order
    erase_value h =
        erase_absent key c.order (rw (← v.same_keys) (contains-keys key c.entries ∙ ap is_some h))

    erase_error : lookup key c.err_entries ≡ none → erase key c.err_order ≡ c.err_order
    erase_error h =
        erase_absent key c.err_order
          (rw (← v.err_same_keys) (contains-keys key c.err_entries ∙ ap is_some h))

    remove_local_value :
        (old : Entry V) → lookup key c.entries ≡ some old → remove_local c key old ≡ cleared c key
    unfolding remove_local
    remove_local_value old hit =
        let absent : lookup key c.err_entries ≡ none = v.apart key (ap is_some hit) in
        let plain : is_some old.err ≡ false = AllErr-lookup false key c.entries old v.values hit in
        let sum = total-remove key c.entries old hit in
        let less : c.used_bytes - old.size ≡ total (remove key c.entries) = omega (arith, v.used) in
        ground (arith, plain, less, erase_error absent, remove_absent key c.err_entries absent)

    remove_local_error :
        (old : Entry V)
        → lookup key c.entries ≡ none
        → lookup key c.err_entries ≡ some old
        → remove_local c key old ≡ cleared c key
    unfolding remove_local
    remove_local_error old miss hit =
        let failed : is_some old.err ≡ true =
          AllErr-lookup true key c.err_entries old v.errors hit in
        ground (arith, failed, v.used, erase_value miss, remove_absent key c.entries miss)

    hit_none :
        lookup key c.entries ≡ none
        → lookup key c.err_entries ≡ none
        → remove_both c key ≡ cleared c key
    unfolding remove_both remove_old
    hit_none miss miss' =
        rw (miss, miss')
          (ground (
            arith,
            v.used,
            erase_value miss,
            erase_error miss',
            remove_absent key c.entries miss,
            remove_absent key c.err_entries miss',
          ))

    pub remove_both-cleared : remove_both c key ≡ cleared c key
    unfolding remove_both remove_old
    remove_both-cleared = elim (Option-cases (lookup key c.entries)) [
      | inl miss ↦ elim (Option-cases (lookup key c.err_entries)) [
        | inl miss' ↦ hit_none miss miss'
        | inr (old, hit) ↦ ground (arith, remove_local_error old miss hit)
      ]
      | inr (old, hit) ↦ ground (arith, v.apart key (ap is_some hit), remove_local_value old hit)
    ]

    cleared-apart :
        (k : Text)
        → is_some (lookup k (remove key c.entries)) ≡ true
        → lookup k (remove key c.err_entries) ≡ none
    cleared-apart k h = elim (Bool-cases (text_eq key k)) [
      | inl same ↦
          rw (← eq_of_text_eq key k same) (lookup-remove_self key c.err_entries v.err_distinct)
      | inr other ↦
          lookup-remove_ne key k c.err_entries other
          ∙ v.apart k (rw (lookup-remove_ne key k c.entries other) at h)
    ]

    pub cleared-IsValid : IsValid (cleared c key)
    cleared-IsValid = record {
      same_keys = keys-remove key c.entries ∙ ap (erase key) v.same_keys;
      distinct = rw (keys-remove key c.entries) (Distinct-erase key (keys c.entries) v.distinct);
      used = refl;
      within = omega (arith, v.used, v.within, total-remove-le key c.entries);
      few = omega (arith, v.few, length-remove key c.entries);
      values = AllErr-remove false key c.entries v.values;
      err_same_keys = keys-remove key c.err_entries ∙ ap (erase key) v.err_same_keys;
      err_distinct =
          rw (keys-remove key c.err_entries)
            (Distinct-erase key (keys c.err_entries) v.err_distinct);
      err_few = omega (arith, v.err_few, length-remove key c.err_entries);
      errors = AllErr-remove true key c.err_entries v.errors;
      apart = cleared-apart;
    }

    -- A found entry is the only one of its key.
    pub remove_local-cleared :
        (e : Entry V) → find c key ≡ some e → remove_local c key e ≡ cleared c key
    unfolding find
    remove_local-cleared e hit = elim (Option-cases (lookup key c.entries)) [
      | inl miss ↦ remove_local_error e miss (ground arith)
      | inr (old, here) ↦ remove_local_value e (ground arith)
    ]
