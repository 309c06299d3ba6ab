-- ===== src/Decimal/RoundTrip.antt =====
-- Printing and reading are inverse on the texts with no superfluous zero.
use oginstagram.Base.{
  ℕ, zero, suc, ◌+◌, ◌-◌, ◌*◌, ◌/◌, ◌%◌, ◌^◌, ◌≤◌, ◌<◌, ◌≡◌, ◌≢◌, refl, ap, ◌∙◌, true, false, ◌⊎◌,
  inl, inr, [], ◌∷◌, ◌++◌, append_assoc, append-nil, some, ◌>>=◌, arith, ltb, Bool-cases,
  Option-cases, lt→ltb,
}
use oginstagram.Base.Text.{Text, is_digit}
use oginstagram.Decimal.{print, itoa, read, parse_uint}

-- More fuel prints the same.
print_fuel : (f g n : ℕ) → n < f → n < g → print f n ≡ print g n
unfolding print
print_fuel zero g n h k = absurd (omega arith)
print_fuel (suc f) zero n h k = absurd (omega arith)
print_fuel (suc f) (suc g) n h k = elim (Bool-cases (ltb n 10)) [
  | inl small ↦ rw (print, small)
  | inr large ↦ rw (print, large, print_fuel f g (n / 10) (ground arith) (ground arith))
]

itoa_digit : (d : ℕ) → d < 10 → itoa d ≡ (b'0' + d) ∷ []
unfolding itoa
itoa_digit d h = ground arith

itoa_snoc : (n d : ℕ) → 1 ≤ n → d < 10 → itoa (n * 10 + d) ≡ itoa n ++ (b'0' + d) ∷ []
unfolding itoa print
itoa_snoc n d h k =
    let large : ltb (n * 10 + d) 10 ≡ false = ground arith in
    let q : (n * 10 + d) / 10 ≡ n = omega arith in
    let r : (n * 10 + d) % 10 ≡ d = omega arith in
    rw (print, large, q, r, print_fuel (n * 10 + d) (suc n) n (omega arith) (omega arith))

read-append : (n : ℕ) (s t : Text) → read n (s ++ t) ≡ (read n s >>= λ m. read m t)
unfolding read
read-append n [] t = refl
read-append n (c ∷ s) t = ground (arith, read-append (n * 10 + (c - b'0')) s t)

read-print : (f n : ℕ) → n < f → read 0 (print f n) ≡ some n
unfolding print read
read-print zero n h = absurd (omega arith)
read-print (suc f) n h = elim (Bool-cases (ltb n 10)) [
  | inl small ↦ rw (print, small) (ground arith)
  | inr large ↦
      rw (print, large, read-append 0 (print f (n / 10)), read-print f (n / 10) (ground arith))
        (ground arith)
]

pub read-itoa : (n : ℕ) → read 0 (itoa n) ≡ some n
unfolding itoa
read-itoa n = read-print (suc n) n (omega arith)

-- Digits behind a positive number are its print's continuation.
itoa-read : (n r : ℕ) (s : Text) → 1 ≤ n → read n s ≡ some r → itoa r ≡ itoa n ++ s
unfolding read
itoa-read n r [] h e = let same : r ≡ n = cc in rw (same, append-nil)
itoa-read n r (c ∷ s) h e =
    let digit : is_digit c ≡ true = ground arith in
    let back : b'0' + (c - b'0') ≡ c = ground arith in
    let small : c - b'0' < 10 = ground arith in
    let rest = itoa-read (n * 10 + (c - b'0')) r s (omega arith) (ground arith) in
    rest ∙ rw (itoa_snoc n (c - b'0') h small, back, append_assoc (itoa n) (c ∷ []) s)

-- A text with no superfluous zero: `0`, or one that begins with another byte.
abbrev pub IsCanonical : Text → Type 0
IsCanonical [] = ⊥
IsCanonical (c ∷ s) = (s ≡ []) ⊎ (c ≢ b'0')

itoa-read_canonical : (r : ℕ) (s : Text) → IsCanonical s → read 0 s ≡ some r → itoa r ≡ s
unfolding read
itoa-read_canonical r [] canonical e = elim canonical [ ]
itoa-read_canonical r (c ∷ s) canonical e =
    let digit : is_digit c ≡ true = ground arith in
    let back : b'0' + (c - b'0') ≡ c = ground arith in
    let small : c - b'0' < 10 = ground arith in
    let first : itoa (c - b'0') ≡ c ∷ [] = rw (itoa_digit (c - b'0') small, back) in
    elim canonical [
      | inl alone ↦ let value : r ≡ c - b'0' = ground arith in rw (value, alone) first
      | inr other ↦
          let rest = itoa-read (c - b'0') r s (omega arith) (ground arith) in
          rest ∙ ap (λ t. t ++ s) first
    ]

-- The first digit of a positive number is no zero.
print_head : (f n : ℕ) → n < f → 1 ≤ n → (c : ℕ) × (t : Text) × (print f n ≡ c ∷ t) × (c ≢ b'0')
unfolding print
print_head zero n h k = absurd (omega arith)
print_head (suc f) n h k = elim (Bool-cases (ltb n 10)) [
  | inl small ↦ (b'0' + n, [], rw (print, small), λ e. omega arith)
  | inr large ↦
      let (c, t, e, other) = print_head f (n / 10) (ground arith) (ground arith) in
      (c, t ++ (b'0' + n % 10) ∷ [], rw (print, large, e), other)
]

print_head_lem : (s : Text) (c : ℕ) (t : Text) → s ≡ c ∷ t → c ≢ b'0' → IsCanonical s
print_head_lem [] c t e h = cc
print_head_lem (d ∷ s) c t e h = inr (λ z. h (ground arith))

pub itoa-IsCanonical : (n : ℕ) → IsCanonical (itoa n)
unfolding itoa
itoa-IsCanonical zero = inl refl
itoa-IsCanonical (suc n) =
    let (c, t, e, other) = print_head (suc (suc n)) (suc n) (omega arith) (omega arith) in
    print_head_lem (print (suc (suc n)) (suc n)) c t e other

pub parse_uint-itoa : (bits n : ℕ) → n < 2 ^ bits → parse_uint bits (itoa n) ≡ some n
unfolding parse_uint
parse_uint-itoa bits n h = go (itoa n) (itoa-IsCanonical n) (read-itoa n)
  where
    go : (s : Text) → IsCanonical s → read 0 s ≡ some n → parse_uint bits s ≡ some n
    go [] canonical e = elim canonical [ ]
    go (c ∷ s) canonical e = ground (arith, lt→ltb n (2 ^ bits) h)

pub itoa-parse_uint :
    (bits n : ℕ) (s : Text)
    → IsCanonical s
    → parse_uint bits s ≡ some n
    → (itoa n ≡ s) × (n < 2 ^ bits)
unfolding parse_uint
itoa-parse_uint bits n [] canonical e = elim canonical [ ]
itoa-parse_uint bits n (c ∷ s) canonical e = elim (Option-cases (read 0 (c ∷ s))) [
  | inl miss ↦ ground arith
  | inr (m, hit) ↦
      let here : m ≡ n = ground arith in
      (itoa-read_canonical n (c ∷ s) canonical (hit ∙ ap some here), ground arith)
]
