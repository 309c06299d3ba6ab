-- ===== src/Cache/Local/Entries.antt =====
-- Facts about the maps of entries: sizes, removal, concatenation.
use oginstagram.Base.{
  ℕ, ◌+◌, ◌≤◌, ◌≡◌, refl, ap, Bool, true, false, List, [], ◌∷◌, ◌++◌, none, some, is_some, All,
  arith,
}
use oginstagram.Base.Text.{Text, text_eq, text_eq_refl, contains}
use oginstagram.Base.Assoc.{Distinct, erase, keys, lookup, remove}
use oginstagram.Cache.Local.Defs.{Entry}

module _ {ℓ} {V : Type ℓ} where
  abbrev pub total : List (Text × Entry V) → ℕ
  total [] = 0
  total (e ∷ m) = e.1.size + total m

  pub total-append : (m n : List (Text × Entry V)) → total (m ++ n) ≡ total m + total n
  total-append [] n = omega arith
  total-append (e ∷ m) n = omega (arith, total-append m n)

  pub total-remove :
      (k : Text) (m : List (Text × Entry V)) (e : Entry V)
      → lookup k m ≡ some e
      → total (remove k m) + e.size ≡ total m
  unfolding lookup remove
  total-remove k [] e h = cc
  total-remove k ((j, w) ∷ m) e h = ground (arith, total-remove k m e)

  pub total-remove-le : (k : Text) (m : List (Text × Entry V)) → total (remove k m) ≤ total m
  unfolding remove
  total-remove-le k [] = omega arith
  total-remove-le k ((j, w) ∷ m) = ground (arith, total-remove-le k m)

  -- A property of every entry, by its error.
  abbrev pub AllErr : Bool → List (Text × Entry V) → Type 0
  AllErr b = All (λ e. is_some e.1.err ≡ b)

  pub AllErr-remove :
      (b : Bool) (k : Text) (m : List (Text × Entry V)) → AllErr b m → AllErr b (remove k m)
  unfolding remove
  AllErr-remove b k [] h = tt
  AllErr-remove b k ((j, w) ∷ m) h = ground (arith, AllErr-remove b k m h.1)

  pub AllErr-lookup :
      (b : Bool) (k : Text) (m : List (Text × Entry V)) (e : Entry V)
      → AllErr b m
      → lookup k m ≡ some e
      → is_some e.err ≡ b
  unfolding lookup
  AllErr-lookup b k [] e h p = cc
  AllErr-lookup b k ((j, w) ∷ m) e h p = ground (arith, AllErr-lookup b k m e h.1)

  pub AllErr-suffix : (b : Bool) (m n : List (Text × Entry V)) → AllErr b (m ++ n) → AllErr b n
  AllErr-suffix b [] n h = h
  AllErr-suffix b (e ∷ m) n h = AllErr-suffix b m n h.1

  pub AllErr-snoc :
      (b : Bool) (m : List (Text × Entry V)) (k : Text) (e : Entry V)
      → AllErr b m
      → is_some e.err ≡ b
      → AllErr b (m ++ (k, e) ∷ [])
  AllErr-snoc b [] k e h p = (p, tt)
  AllErr-snoc b (x ∷ m) k e h p = (h.0, AllErr-snoc b m k e h.1 p)

  pub remove_absent : (k : Text) (m : List (Text × Entry V)) → lookup k m ≡ none → remove k m ≡ m
  unfolding lookup remove
  remove_absent k [] h = refl
  remove_absent k ((j, w) ∷ m) h = ground (arith, remove_absent k m)

  pub keys-append : (m n : List (Text × Entry V)) → keys (m ++ n) ≡ keys m ++ keys n
  keys-append [] n = refl
  keys-append (e ∷ m) n = ap (◌∷◌ e.0) (keys-append m n)

  pub lookup-suffix :
      (k : Text) (m n : List (Text × Entry V)) → lookup k (m ++ n) ≡ none → lookup k n ≡ none
  unfolding lookup
  lookup-suffix k [] n h = h
  lookup-suffix k ((j, w) ∷ m) n h = ground (arith, lookup-suffix k m n)

  pub lookup-last :
      (k : Text) (m : List (Text × Entry V)) (e : Entry V)
      → lookup k m ≡ none
      → lookup k (m ++ (k, e) ∷ []) ≡ some e
  unfolding lookup
  lookup-last k [] e h = ground (arith, text_eq_refl k)
  lookup-last k ((j, w) ∷ m) e h = ground (arith, lookup-last k m e)

  pub lookup-snoc_ne :
      (k j : Text) (m : List (Text × Entry V)) (e : Entry V)
      → text_eq k j ≡ false
      → lookup j (m ++ (k, e) ∷ []) ≡ lookup j m
  unfolding lookup
  lookup-snoc_ne k j [] e h = ground arith
  lookup-snoc_ne k j ((i, w) ∷ m) e h = ground (arith, lookup-snoc_ne k j m e)

  pub lookup-remove_tail :
      (k : Text) (x : Text × Entry V) (m : List (Text × Entry V))
      → lookup k (x ∷ m) ≡ none
      → lookup k m ≡ none
  lookup-remove_tail k x m h = lookup-suffix k (x ∷ []) m h

  -- What an end part of the map holds, the whole map holds.
  pub lookup-of_suffix :
      (k : Text) (m n : List (Text × Entry V))
      → is_some (lookup k n) ≡ true
      → is_some (lookup k (m ++ n)) ≡ true
  unfolding lookup
  lookup-of_suffix k [] n h = h
  lookup-of_suffix k ((j, w) ∷ m) n h = ground (arith, lookup-of_suffix k m n)

pub Distinct-suffix : (js ks : List Text) → Distinct (js ++ ks) → Distinct ks
Distinct-suffix [] ks d = d
Distinct-suffix (j ∷ js) ks d = Distinct-suffix js ks d.1

pub erase_absent : (k : Text) (ks : List Text) → contains ks k ≡ false → erase k ks ≡ ks
unfolding contains erase
erase_absent k [] h = refl
erase_absent k (j ∷ ks) h = ground (arith, erase_absent k ks)
