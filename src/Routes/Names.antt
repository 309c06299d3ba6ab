-- ===== src/Routes/Names.antt =====
-- The names that the patterns accept: they are path segments, and lower case keeps an account name.
use oginstagram.Base.{
  ℕ, ◌+◌, ◌*◌, ◌-◌, Option-cases, ◌≡◌, refl, ap, Bool, true, false, [], ◌∷◌, arith, Bool-cases, inl,
  inr, ◌==◌, ==_iff, length, all, some,
}
use oginstagram.Base.Text.{Text, is_digit, lower, to_lower}
use oginstagram.Routes.{
  shortcode_byte, username_byte, valid_shortcode, valid_username, valid_story_id,
}
use oginstagram.Routes.Paths.{Lacks, IsSegment}
use oginstagram.Query.{parse_canonical_decimal}
use oginstagram.Decimal.{read, parse_uint}

pub all-Lacks : (p : ℕ → Bool) (s : Text) → p b'/' ≡ false → all p s ≡ true → Lacks b'/' s
all-Lacks p [] e h = refl
all-Lacks p (c ∷ s) e h = elim (Bool-cases (c == b'/')) [
  | inl slash ↦ let same = ap p ((==_iff c b'/').0 slash) in absurd (ground (arith, same))
  | inr other ↦ ground (arith, other, all-Lacks p s e)
]

pub valid_shortcode-IsSegment : (s : Text) → valid_shortcode s ≡ true → IsSegment s
unfolding valid_shortcode
valid_shortcode-IsSegment [] h = absurd (ground arith)
valid_shortcode-IsSegment (c ∷ s) h =
    (λ e. cc, all-Lacks shortcode_byte (c ∷ s) refl (ground arith))

pub valid_username-IsSegment : (s : Text) → valid_username s ≡ true → IsSegment s
unfolding valid_username
valid_username-IsSegment [] h = absurd (ground arith)
valid_username-IsSegment (c ∷ s) h = (λ e. cc, all-Lacks username_byte (c ∷ s) refl (ground arith))

pub valid_story_id-IsSegment : (s : Text) → valid_story_id s ≡ true → IsSegment s
unfolding valid_story_id
valid_story_id-IsSegment [] h = absurd (ground arith)
valid_story_id-IsSegment (c ∷ s) h = (λ e. cc, all-Lacks is_digit (c ∷ s) refl (ground arith))

lower_idem : (c : ℕ) → lower (lower c) ≡ lower c
unfolding lower
lower_idem c = ground arith

pub to_lower_idem : (s : Text) → to_lower (to_lower s) ≡ to_lower s
to_lower_idem [] = refl
to_lower_idem (c ∷ s) = rw (lower_idem c, to_lower_idem s) refl

length-to_lower : (s : Text) → length (to_lower s) ≡ length s
length-to_lower [] = refl
length-to_lower (c ∷ s) = omega (arith, length-to_lower s)

lower-username_byte : (c : ℕ) → username_byte (lower c) ≡ username_byte c
unfolding lower
lower-username_byte c = ground arith

to_lower-username_byte : (s : Text) → all username_byte (to_lower s) ≡ all username_byte s
to_lower-username_byte [] = refl
to_lower-username_byte (c ∷ s) = rw (lower-username_byte c, to_lower-username_byte s) refl

pub valid_username-to_lower : (s : Text) → valid_username (to_lower s) ≡ valid_username s
unfolding valid_username
valid_username-to_lower s = rw (length-to_lower s, to_lower-username_byte s) refl

pub read-digits : (n m : ℕ) (s : Text) → read n s ≡ some m → all is_digit s ≡ true
unfolding read
read-digits n m [] h = refl
read-digits n m (c ∷ s) h = ground (arith, read-digits (n * 10 + (c - b'0')) m s)

pub canonical_decimal-IsSegment :
    (s : Text) (n : ℕ) → parse_canonical_decimal s ≡ some n → IsSegment s
unfolding parse_canonical_decimal parse_uint
canonical_decimal-IsSegment [] n h = absurd (ground arith)
canonical_decimal-IsSegment (c ∷ s) n h = elim (Option-cases (read 0 (c ∷ s))) [
  | inl bad ↦ absurd (ground (arith, bad))
  | inr (m, good) ↦ (λ e. cc, all-Lacks is_digit (c ∷ s) refl (read-digits 0 m (c ∷ s) good))
]
