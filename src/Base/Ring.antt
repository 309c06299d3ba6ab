-- ===== src/Base/Ring.antt =====
-- A ring of flags with a write position, as two components keep their latest outcomes.
use native.Mathlib.Nat.{mod_self}
use native.Mathlib.Numerals.{add-one}
use oginstagram.Base.{
  ℕ, zero, suc, ◌+◌, ◌%◌, ◌≤◌, ◌<◌, ◌≡◌, refl, sym, ap, ◌∙◌, ◌⊎◌, inl, inr, Bool, true, false, List,
  [], ◌∷◌, ◌++◌, append-nil, append_assoc, arith, ltb, ltb→lt, Bool-cases, length, length-append,
  length-drop, length-take, get_or, set, take, drop, replicate, length-set, drop_of_length-le,
  take_of_length-le,
}

abbrev pub flag : Bool → ℕ
flag true = 1
flag false = 0

abbrev pub count_true : List Bool → ℕ
count_true [] = 0
count_true (b ∷ bs) = flag b + count_true bs

pub count_true-append : (xs ys : List Bool) → count_true (xs ++ ys) ≡ count_true xs + count_true ys
count_true-append [] ys = omega arith
count_true-append (x ∷ xs) ys = omega (arith, count_true-append xs ys)

pub count_true-le : (xs : List Bool) → count_true xs ≤ length xs
count_true-le [] = omega arith
count_true-le (true ∷ xs) = omega (arith, count_true-le xs)
count_true-le (false ∷ xs) = omega (arith, count_true-le xs)

-- A write replaces one flag in the count.
pub count_true-set :
    (xs : List Bool) (i : ℕ) (b : Bool)
    → i < length xs
    → count_true (set xs i b) + flag (get_or xs i false) ≡ count_true xs + flag b
count_true-set [] i b h = absurd (omega arith)
count_true-set (x ∷ xs) zero b h = omega arith
count_true-set (x ∷ xs) (suc i) b h = omega (arith, count_true-set xs i b (omega arith))

pub count_true-replicate : (n : ℕ) → count_true (replicate n false) ≡ 0
count_true-replicate zero = refl
count_true-replicate (suc n) = omega (arith, count_true-replicate n)

-- The ring read from its oldest flag to its newest.
abbrev pub window : ℕ → List Bool → List Bool
window i xs = drop i xs ++ take i xs

-- Forget the oldest flag and add a newest one.
abbrev pub slide : List Bool → Bool → List Bool
slide [] b = []
slide (x ∷ xs) b = xs ++ b ∷ []

pub count_true-window : (i : ℕ) (xs : List Bool) → count_true (window i xs) ≡ count_true xs
count_true-window zero xs = omega (arith, ap count_true (append-nil xs))
count_true-window (suc i) [] = refl
count_true-window (suc i) (x ∷ xs) = omega (
  arith,
  count_true-append (drop i xs) (x ∷ take i xs),
  count_true-append (drop i xs) (take i xs),
  count_true-window i xs,
)

-- Inside the ring: the write at `i` and the step to `i + 1`.
slide-set :
    (i : ℕ) (xs pre : List Bool) (b : Bool)
    → i < length xs
    → drop (suc i) (set xs i b) ++ (pre ++ take (suc i) (set xs i b))
      ≡ slide (drop i xs ++ (pre ++ take i xs)) b
slide-set i [] pre b h = absurd (omega arith)
slide-set zero (x ∷ xs) pre b h = simp (append_assoc, append-nil)
slide-set (suc i) (x ∷ xs) pre b h =
    let step = slide-set i xs (pre ++ x ∷ []) b (omega arith) in simp append_assoc at step

-- Where the position goes from `i`.
next_position :
    (n i : ℕ) → i < n → (suc i < n) × ((i + 1) % n ≡ suc i) ⊎ (n ≡ suc i) × ((i + 1) % n ≡ 0)
next_position n i h = elim (Bool-cases (ltb (suc i) n)) [
  | inl inside ↦ inl (ltb→lt _ _ inside, grind arith)
  | inr last ↦ let e : n ≡ suc i = ground arith in inr (e, rw (e, add-one) (mod_self (suc i)))
]

-- A write at the position and a step of it slide the window: the position wraps behind the last flag.
pub window-set :
    (n i : ℕ) (xs : List Bool) (b : Bool)
    → length xs ≡ n
    → i < n
    → window ((i + 1) % n) (set xs i b) ≡ slide (window i xs) b
window-set n i xs b e h =
    let step = slide-set i xs [] b (omega arith) in
    let full : n ≡ suc i → length (set xs i b) ≤ suc i = λ l. omega (arith, length-set xs i b) in
    let past : n ≡ suc i → drop (suc i) (set xs i b) ≡ [] = λ l. drop_of_length-le _ _ (full l) in
    let whole : n ≡ suc i → take (suc i) (set xs i b) ≡ set xs i b =
      λ l. take_of_length-le _ _ (full l) in
    elim (next_position n i h) [
      | inl (inside, p) ↦ rw p step
      | inr (last, p) ↦ rw (p, append-nil) (rw (past last, whole last) at step)
    ]

pub next_position-lt : (n i : ℕ) → i < n → (i + 1) % n < n
next_position-lt n i h = grind arith

pub flag-le-count_true : (xs : List Bool) (i : ℕ) → flag (get_or xs i false) ≤ count_true xs
flag-le-count_true [] i = omega arith
flag-le-count_true (x ∷ xs) zero = omega arith
flag-le-count_true (x ∷ xs) (suc i) = omega (arith, flag-le-count_true xs i)

get_or-drop :
    (i : ℕ) (xs ys : List Bool)
    → i < length xs
    → get_or (drop i xs ++ ys) 0 false ≡ get_or xs i false
get_or-drop i [] ys h = absurd (omega arith)
get_or-drop zero (x ∷ xs) ys h = refl
get_or-drop (suc i) (x ∷ xs) ys h = get_or-drop i xs ys (omega arith)

-- The flag at the position is the oldest.
pub window-head :
    (i : ℕ) (xs : List Bool) → i < length xs → get_or (window i xs) 0 false ≡ get_or xs i false
window-head i xs h = get_or-drop i xs (take i xs) h

-- Sliding in a whole list of flags.
abbrev pub slide_all : List Bool → List Bool → List Bool
slide_all w [] = w
slide_all w (b ∷ bs) = slide_all (slide w b) bs

pub length-slide : (w : List Bool) (b : Bool) → length (slide w b) ≡ length w
length-slide [] b = refl
length-slide (x ∷ w) b = omega (arith, length-append w (b ∷ []))

pub slide_all-drop : (w bs : List Bool) → 0 < length w → slide_all w bs ≡ drop (length bs) (w ++ bs)
slide_all-drop w [] h = sym (append-nil w)
slide_all-drop [] (b ∷ bs) h = absurd (omega arith)
slide_all-drop (x ∷ w) (b ∷ bs) h =
    slide_all-drop (w ++ b ∷ []) bs (omega (arith, length-slide (x ∷ w) b))
    ∙ ap (drop (length bs)) (append_assoc w (b ∷ []) bs)

get_or-append :
    (k : ℕ) (xs ys : List Bool) → k < length xs → get_or (xs ++ ys) k false ≡ get_or xs k false
get_or-append k [] ys h = absurd (omega arith)
get_or-append zero (x ∷ xs) ys h = refl
get_or-append (suc k) (x ∷ xs) ys h = get_or-append k xs ys (omega arith)

pub get_or-slide :
    (k : ℕ) (w : List Bool) (b : Bool)
    → suc k < length w
    → get_or (slide w b) k false ≡ get_or w (suc k) false
get_or-slide k [] b h = absurd (omega arith)
get_or-slide k (x ∷ w) b h = get_or-append k w (b ∷ []) (omega arith)

pub get_or-replicate : (n k : ℕ) → get_or (replicate n false) k false ≡ false
get_or-replicate zero k = refl
get_or-replicate (suc n) zero = refl
get_or-replicate (suc n) (suc k) = get_or-replicate n k

pub window-length : (i : ℕ) (xs : List Bool) → length (window i xs) ≡ length xs
window-length i xs =
    omega (arith, length-append (drop i xs) (take i xs), length-drop i xs, length-take i xs)
