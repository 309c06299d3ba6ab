-- ===== src/Base/Assoc.antt =====
-- Go maps with text keys as association lists, and the key slices that some components keep beside
-- them. The list keeps the order of insertion, which no operation of a map shows.
use oginstagram.Base.{
  ◌+◌, ◌≤◌, ◌≡◌, refl, false, List, [], ◌∷◌, ◌++◌, map, arith, if◌then◌else◌, Option, none, some,
  is_some, length,
}
use oginstagram.Base.Text.{Text, text_eq, text_eq_refl, eq_of_text_eq, text_eq_of_eq, contains}

-- `slices.Index` and `slices.Delete`: the first occurrence goes.
unfoldable pub erase : Text → List Text → List Text
erase k [] = []
erase k (j ∷ js) = if text_eq j k then js else j ∷ erase k js

-- No text stands twice in the list.
abbrev pub Distinct : List Text → Type 0
Distinct [] = Unit
Distinct (k ∷ ks) = (contains ks k ≡ false) × Distinct ks

module _ {ℓ} {V : Type ℓ} where
  abbrev pub keys : List (Text × V) → List Text
  keys = map (λ e. e.0)

  unfoldable pub lookup : Text → List (Text × V) → Option V
  lookup k [] = none
  lookup k ((j, v) ∷ m) = if text_eq j k then some v else lookup k m

  -- `m[k] = v`
  unfoldable pub insert : Text → V → List (Text × V) → List (Text × V)
  insert k v [] = (k, v) ∷ []
  insert k v ((j, w) ∷ m) = if text_eq j k then (j, v) ∷ m else (j, w) ∷ insert k v m

  -- `delete(m, k)`
  unfoldable pub remove : Text → List (Text × V) → List (Text × V)
  remove k [] = []
  remove k ((j, w) ∷ m) = if text_eq j k then m else (j, w) ∷ remove k m

  pub keys-remove : (k : Text) (m : List (Text × V)) → keys (remove k m) ≡ erase k (keys m)
  unfolding remove erase
  keys-remove k [] = refl
  keys-remove k ((j, w) ∷ m) = ground (arith, keys-remove k m)

  pub contains-keys : (k : Text) (m : List (Text × V)) → contains (keys m) k ≡ is_some (lookup k m)
  unfolding contains lookup
  contains-keys k [] = refl
  contains-keys k ((j, w) ∷ m) = ground (arith, contains-keys k m)

  pub lookup-insert :
      (k j : Text) (v : V) (m : List (Text × V))
      → lookup j (insert k v m) ≡ (if text_eq k j then some v else lookup j m)
  unfolding lookup insert
  lookup-insert k j v [] = refl
  lookup-insert k j v ((i, w) ∷ m) = ground (
    arith,
    eq_of_text_eq i k,
    eq_of_text_eq i j,
    eq_of_text_eq k j,
    text_eq_of_eq i j,
    text_eq_refl k,
    text_eq_refl j,
    lookup-insert k j v m,
  )

  -- A new key goes to the end.
  pub insert_new :
      (k : Text) (v : V) (m : List (Text × V)) → lookup k m ≡ none → insert k v m ≡ m ++ (k, v) ∷ []
  unfolding lookup insert
  insert_new k v [] h = refl
  insert_new k v ((j, w) ∷ m) h = ground (arith, insert_new k v m)

  pub insert-Distinct :
      (k : Text) (v : V) (m : List (Text × V)) → Distinct (keys m) → Distinct (keys (insert k v m))
  unfolding insert contains lookup
  insert-Distinct k v [] d = (refl, tt)
  insert-Distinct k v ((j, w) ∷ m) d = ground (
    arith,
    contains-keys j (insert k v m),
    contains-keys j m,
    lookup-insert k j v m,
    eq_of_text_eq k j,
    text_eq_refl j,
    insert-Distinct k v m,
  )

  pub length-insert :
      (k : Text) (v : V) (m : List (Text × V))
      → length (insert k v m) ≡ (if is_some (lookup k m) then length m else length m + 1)
  unfolding lookup insert
  length-insert k v [] = refl
  length-insert k v ((j, w) ∷ m) = ground (arith, length-insert k v m)

  pub length-remove : (k : Text) (m : List (Text × V)) → length (remove k m) ≤ length m
  unfolding remove
  length-remove k [] = omega arith
  length-remove k ((j, w) ∷ m) = ground (arith, length-remove k m)

  pub lookup-remove_ne :
      (k j : Text) (m : List (Text × V)) → text_eq k j ≡ false → lookup j (remove k m) ≡ lookup j m
  unfolding lookup remove
  lookup-remove_ne k j [] h = refl
  lookup-remove_ne k j ((i, w) ∷ m) h =
      ground (arith, eq_of_text_eq i k, eq_of_text_eq i j, text_eq_refl j, lookup-remove_ne k j m)

  pub lookup-remove_self :
      (k : Text) (m : List (Text × V)) → Distinct (keys m) → lookup k (remove k m) ≡ none
  unfolding lookup remove
  lookup-remove_self k [] d = refl
  lookup-remove_self k ((i, w) ∷ m) d =
      ground (arith, eq_of_text_eq i k, contains-keys k m, lookup-remove_self k m)

pub contains-erase :
    (k j : Text) (ks : List Text) → contains ks j ≡ false → contains (erase k ks) j ≡ false
unfolding contains erase
contains-erase k j [] h = refl
contains-erase k j (i ∷ ks) h = ground (arith, contains-erase k j ks)

pub Distinct-erase : (k : Text) (ks : List Text) → Distinct ks → Distinct (erase k ks)
unfolding erase
Distinct-erase k [] d = tt
Distinct-erase k (j ∷ ks) d = ground (arith, contains-erase k j ks, Distinct-erase k ks d.1)

pub contains-append :
    (k j : Text) (ks : List Text)
    → contains ks j ≡ false
    → text_eq k j ≡ false
    → contains (ks ++ k ∷ []) j ≡ false
unfolding contains
contains-append k j [] h n = ground arith
contains-append k j (i ∷ ks) h n = ground (arith, contains-append k j ks)

pub Distinct-append :
    (k : Text) (ks : List Text) → Distinct ks → contains ks k ≡ false → Distinct (ks ++ k ∷ [])
unfolding contains
Distinct-append k [] d h = (refl, tt)
Distinct-append k (j ∷ ks) d h =
    ground
      (arith, contains-append k j ks, Distinct-append k ks d.1, eq_of_text_eq k j, text_eq_refl j)
