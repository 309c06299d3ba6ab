-- ===== src/Cache/Local/StoreError.antt =====
-- What storing a negative answer does.
use oginstagram.Base.{
  suc, ◌≤◌, ◌≡◌, refl, sym, ap, ◌∙◌, true, List, [], ◌∷◌, ◌++◌, Option, none, some, is_some, length,
  length-append, arith, Bool-cases, inl, inr, ltb, if◌then◌else◌,
}
use oginstagram.Base.Text.{Text, text_eq, eq_of_text_eq}
use oginstagram.Base.Assoc.{
  Distinct, Distinct-append, erase, keys, lookup, insert_new, remove, contains-keys,
  lookup-remove_self,
}
use oginstagram.Cache.Local.Defs.{
  Entry, trim_errors, Local, add_error, remove_both, store_local, error_local_entry_cap,
}
use oginstagram.Cache.Local.Entries.{
  AllErr, AllErr-snoc, keys-append, lookup-snoc_ne, lookup-remove_tail, lookup-last,
}
use oginstagram.Cache.Local.Evict.{remove_first}
use oginstagram.Cache.Local.Invariant.{IsValid, cleared, remove_both-cleared, cleared-IsValid}

module _ {ℓ} {V : Type ℓ} where
  -- The list without its oldest entry, where it is over the cap.
  abbrev pub capped : List (Text × Entry V) → List (Text × Entry V)
  capped [] = []
  capped (x ∷ m) = if ltb error_local_entry_cap (length (x ∷ m)) then m else x ∷ m

  length-keys : (m : List (Text × Entry V)) → length (keys m) ≡ length m
  length-keys [] = refl
  length-keys (x ∷ m) = ap suc (length-keys m)

  trim_errors-capped :
      (c : Local V) (m : List (Text × Entry V))
      → trim_errors c m (keys m) ≡ record c { err_entries = capped m; err_order = keys (capped m) }
  unfolding trim_errors
  trim_errors-capped c [] = refl
  trim_errors-capped c ((k, e) ∷ m) =
      elim (Bool-cases (ltb error_local_entry_cap (length ((k, e) ∷ m)))) [
        | inl over ↦ rw (length-keys m, over, remove_first k e m)
        | inr inside ↦ rw (length-keys m, inside)
      ]

  capped-few :
      (m : List (Text × Entry V))
      → length m ≤ suc error_local_entry_cap
      → length (capped m) ≤ error_local_entry_cap
  capped-few [] h = omega arith
  capped-few (x ∷ m) h = ground arith

  capped-Distinct : (m : List (Text × Entry V)) → Distinct (keys m) → Distinct (keys (capped m))
  capped-Distinct [] d = d
  capped-Distinct (x ∷ m) d = ground arith

  capped-AllErr : (m : List (Text × Entry V)) → AllErr true m → AllErr true (capped m)
  capped-AllErr [] h = h
  capped-AllErr (x ∷ m) h = ground arith

  capped-lookup :
      (k : Text) (m : List (Text × Entry V)) → lookup k m ≡ none → lookup k (capped m) ≡ none
  capped-lookup k [] h = h
  capped-lookup k (x ∷ m) h = ground (arith, lookup-remove_tail k x m)

  -- The newest entry stays.
  capped-last :
      (key : Text) (e : Entry V) (m : List (Text × Entry V))
      → lookup key m ≡ none
      → lookup key (capped (m ++ (key, e) ∷ [])) ≡ some e
  capped-last key e [] h = lookup-last key [] e h
  capped-last key e (x ∷ m) h =
      ground (arith, lookup-last key (x ∷ m) e, lookup-last key m e, lookup-remove_tail key x m)

-- The outcome of storing a negative answer.
pub record StoredError {ℓ} {V : Type ℓ} (c : Local V) (key : Text) (e : Entry V)
    (r : Option (Local V)) : Type ℓ where
  pub state : Local V
  pub success : r ≡ some state
  pub valid : IsValid state
  pub values_kept : state.entries ≡ remove key c.entries
  pub order_kept : state.order ≡ erase key c.order
  pub err_entries : state.err_entries ≡ capped (remove key c.err_entries ++ (key, e) ∷ [])
  pub found : lookup key state.err_entries ≡ some e

module _ {ℓ} {V : Type ℓ} (c : Local V) (v : IsValid c) (key : Text) (e : Entry V) where
  abbrev extended : List (Text × Entry V)
  extended = remove key c.err_entries ++ (key, e) ∷ []

  abbrev errored : Local V
  errored = record (cleared c key) {
    err_entries = capped extended;
    err_order = keys (capped extended);
  }

  gone : lookup key (remove key c.err_entries) ≡ none
  gone = lookup-remove_self key c.err_entries v.err_distinct

  add_error-errored : add_error (remove_both c key) key e ≡ errored
  unfolding add_error
  add_error-errored =
      let w = cleared-IsValid c v key in
      let names =
        ap (λ ks. ks ++ key ∷ []) (sym w.err_same_keys)
        ∙ sym (keys-append (remove key c.err_entries) ((key, e) ∷ [])) in
      rw (remove_both-cleared c v key, insert_new key e (remove key c.err_entries) gone)
        (ap (trim_errors (cleared c key) extended) names
          ∙ trim_errors-capped (cleared c key) extended)

  extended-Distinct : Distinct (keys extended)
  extended-Distinct = rw (keys-append (remove key c.err_entries) ((key, e) ∷ [])) (
      Distinct-append key (keys (remove key c.err_entries)) (cleared-IsValid c v key).err_distinct
        (contains-keys key (remove key c.err_entries) ∙ ap is_some gone))

  errored-apart :
      (k : Text)
      → is_some (lookup k (remove key c.entries)) ≡ true
      → lookup k (capped extended) ≡ none
  errored-apart k h = elim (Bool-cases (text_eq key k)) [
    | inl same ↦
        let none_here : lookup k (remove key c.entries) ≡ none =
          rw (← eq_of_text_eq key k same) (lookup-remove_self key c.entries v.distinct) in
        ground arith
    | inr other ↦ capped-lookup k extended (
        lookup-snoc_ne key k (remove key c.err_entries) e other
        ∙ (cleared-IsValid c v key).apart k h)
  ]

  errored-IsValid : is_some e.err ≡ true → IsValid errored
  errored-IsValid failed =
      let w = cleared-IsValid c v key in
      record {
        same_keys = w.same_keys;
        distinct = w.distinct;
        used = w.used;
        within = w.within;
        few = w.few;
        values = w.values;
        err_same_keys = refl;
        err_distinct = capped-Distinct extended extended-Distinct;
        err_few =
            capped-few extended
              (omega (arith, w.err_few, length-append (remove key c.err_entries) ((key, e) ∷ [])));
        errors =
            capped-AllErr extended
              (AllErr-snoc true (remove key c.err_entries) key e w.errors failed);
        apart = errored-apart;
      }

  store_local-add_error :
      (marshal : V → Option Text)
      → is_some e.err ≡ true
      → store_local marshal c key e ≡ some (add_error (remove_both c key) key e)
  unfolding store_local
  store_local-add_error marshal failed = rw failed

  -- Storing a negative answer never panics and keeps the cache valid. The values lose at most the one
  -- of that key; the answer is the newest error, the oldest one goes where there would be too many.
  pub store_local-error :
      (marshal : V → Option Text)
      → is_some e.err ≡ true
      → StoredError c key e (store_local marshal c key e)
  store_local-error marshal failed = record {
    state = errored;
    success = store_local-add_error marshal failed ∙ ap some add_error-errored;
    valid = errored-IsValid failed;
    values_kept = refl;
    order_kept = refl;
    err_entries = refl;
    found = capped-last key e (remove key c.err_entries) gone;
  }
