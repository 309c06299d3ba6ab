-- ===== src/Cache/Local/Evict.antt =====
-- The eviction loop drops a beginning of the order, and never the newest entry.
use oginstagram.Base.{
  ℕ, ◌+◌, ◌-◌, ◌≤◌, ◌≡◌, ◌⊎◌, refl, ap, true, false, List, [], ◌∷◌, ◌++◌, some, length, arith, ltb,
  ◌||◌, Bool-cases, inl, inr,
}
use oginstagram.Base.Text.{Text, text_eq_refl}
use oginstagram.Base.Assoc.{keys, lookup, remove}
use oginstagram.Cache.Local.Defs.{Entry, evict, persistent_local_entry_cap}
use oginstagram.Cache.Local.Entries.{total}

module _ {ℓ} {V : Type ℓ} where
  pub remove_first :
      (k : Text) (e : Entry V) (m : List (Text × Entry V)) → remove k ((k, e) ∷ m) ≡ m
  unfolding remove
  remove_first k e m = rw (text_eq_refl k, remove)

  lookup_first :
      (k : Text) (e : Entry V) (m : List (Text × Entry V)) → lookup k ((k, e) ∷ m) ≡ some e
  unfolding lookup
  lookup_first k e m = rw (text_eq_refl k, lookup)

  abbrev pub Fits : ℕ → List (Text × Entry V) → Type 0
  Fits max_bytes m = (total m ≤ max_bytes) × (length m ≤ persistent_local_entry_cap)

  abbrev pub EvictsTo : ℕ → List (Text × Entry V) → List (Text × Entry V) → Type ℓ
  EvictsTo max_bytes m kept =
      evict max_bytes (keys m) m (total m) ≡ some (keys kept, kept, total kept)

  evict_fitting :
      (max_bytes : ℕ) (m : List (Text × Entry V)) → Fits max_bytes m → EvictsTo max_bytes m m
  unfolding evict
  evict_fitting max_bytes [] h = refl
  evict_fitting max_bytes ((k, e) ∷ m) h = ground arith

  evict_over :
      (max_bytes : ℕ) (k : Text) (e : Entry V) (m kept : List (Text × Entry V))
      → (ltb max_bytes (total ((k, e) ∷ m)) || ltb persistent_local_entry_cap (length ((k, e) ∷ m)))
        ≡ true
      → EvictsTo max_bytes m kept
      → EvictsTo max_bytes ((k, e) ∷ m) kept
  unfolding evict
  evict_over max_bytes k e m kept over ih =
      let less : e.size + total m - e.size ≡ total m = omega arith in
      rw (over, lookup_first k e m, remove_first k e m, less) ih

  -- What the loop does behind the insertion of `key`: the old entries `gone` are dropped, from the
  -- oldest on, the rest and the new entry fit, and nothing is dropped from what fits already.
  pub record Eviction (max_bytes : ℕ) (m : List (Text × Entry V)) (key : Text) (e : Entry V)
      : Type ℓ where
    pub gone : List (Text × Entry V)
    pub kept : List (Text × Entry V)
    pub split : m ≡ gone ++ kept
    pub result : EvictsTo max_bytes (m ++ (key, e) ∷ []) (kept ++ (key, e) ∷ [])
    pub fits : Fits max_bytes (kept ++ (key, e) ∷ [])
    pub lazily : (gone ≡ []) ⊎ (¬ Fits max_bytes (m ++ (key, e) ∷ []))

  not_over :
      (max_bytes : ℕ) (m : List (Text × Entry V))
      → (ltb max_bytes (total m) || ltb persistent_local_entry_cap (length m)) ≡ false
      → Fits max_bytes m
  not_over max_bytes m h = ground arith

  -- The eviction loop behind the insertion of an entry that alone is within the limit does not panic:
  -- it drops a beginning of the order, keeps the new entry last, ends within the limits on bytes and
  -- entries, and drops nothing where all entries are within them.
  pub evict-Eviction :
      (max_bytes : ℕ) (m : List (Text × Entry V)) (key : Text) (e : Entry V)
      → e.size ≤ max_bytes
      → Eviction max_bytes m key e
  evict-Eviction max_bytes [] key e h = record {
    gone = [];
    kept = [];
    split = refl;
    result = evict_fitting max_bytes ((key, e) ∷ []) (omega arith);
    fits = omega arith;
    lazily = inl refl;
  }
  evict-Eviction max_bytes ((j, w) ∷ m) key e h =
      let rest = evict-Eviction max_bytes m key e h in
      let all = (j, w) ∷ m ++ (key, e) ∷ [] in
      elim (Bool-cases (ltb max_bytes (total all) || ltb persistent_local_entry_cap (length all))) [
        | inl over ↦ record {
          gone = (j, w) ∷ rest.gone;
          kept = rest.kept;
          split = ap (◌∷◌ (j, w)) rest.split;
          result = evict_over max_bytes j w (m ++ (key, e) ∷ []) _ over rest.result;
          fits = rest.fits;
          lazily = inr (λ f. ground arith);
        }
        | inr inside ↦ record {
          gone = [];
          kept = (j, w) ∷ m;
          split = refl;
          result = evict_fitting max_bytes all (not_over max_bytes all inside);
          fits = not_over max_bytes all inside;
          lazily = inl refl;
        }
      ]
