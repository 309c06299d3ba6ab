-- ===== src/UrlQuery/Plain.antt =====
-- Queries whose keys and values need no escape.
use oginstagram.Base.{
  ℕ, ◌≡◌, refl, ap, Bool, true, false, ◌&&◌, [], ◌∷◌, ◌++◌, arith, ◌==◌, ==_iff, all, any,
  Bool-cases, inl, inr, some,
}
use oginstagram.Base.Text.{Text}
use oginstagram.Query.{Values}
use oginstagram.Routes.{shortcode_byte}
use oginstagram.Routes.Paths.{Lacks}
use oginstagram.UrlQuery.{unescape, plus_as_space, cut, append_value, parse_piece}

abbrev pub IsPlain : Text → Type 0
IsPlain s = all shortcode_byte s ≡ true

byte_ne : (c d : ℕ) → shortcode_byte c ≡ true → shortcode_byte d ≡ false → (c == d) ≡ false
byte_ne c d hc hd = elim (Bool-cases (c == d)) [
  | inl e ↦ let same = ap shortcode_byte ((==_iff c d).0 e) in absurd (ground (arith, same))
  | inr other ↦ other
]

pub IsPlain-Lacks : (s : Text) (d : ℕ) → shortcode_byte d ≡ false → IsPlain s → Lacks d s
IsPlain-Lacks [] d hd h = refl
IsPlain-Lacks (c ∷ s) d hd h = ground (arith, byte_ne c d, IsPlain-Lacks s d hd)

IsPlain-cons : (c : ℕ) (s : Text) → IsPlain (c ∷ s) → (shortcode_byte c ≡ true) × IsPlain s
IsPlain-cons c s h = and_true (shortcode_byte c) (all shortcode_byte s) h
  where
    and_true : (a b : Bool) → (a && b) ≡ true → (a ≡ true) × (b ≡ true)
    and_true true b h = (refl, h)
    and_true false b h = absurd (ground arith)

keeps_byte : (c : ℕ) → shortcode_byte c ≡ true → ((c == b'%') ≡ false) × (plus_as_space c ≡ c)
unfolding plus_as_space
keeps_byte c h = let plus = byte_ne c b'+' h refl in (byte_ne c b'%' h refl, rw plus refl)

unescape-IsPlain : (s : Text) → IsPlain s → unescape s ≡ some s
unfolding unescape
unescape-IsPlain [] h = refl
unescape-IsPlain (c ∷ []) h =
    let (percent, kept) = keeps_byte c (IsPlain-cons c [] h).0 in rw (percent, kept) refl
unescape-IsPlain (c ∷ d ∷ []) h =
    let (byte, plain) = IsPlain-cons c (d ∷ []) h in
    let (percent, kept) = keeps_byte c byte in
    let rest = unescape-IsPlain (d ∷ []) plain in rw (unescape, percent, kept, rest) refl
unescape-IsPlain (c ∷ d ∷ e ∷ s) h =
    let (byte, plain) = IsPlain-cons c (d ∷ e ∷ s) h in
    let (percent, kept) = keeps_byte c byte in
    let rest = unescape-IsPlain (d ∷ e ∷ s) plain in rw (unescape, percent, kept, rest) refl

cut-append : (sep : ℕ) (p s : Text) → Lacks sep p → cut sep (p ++ sep ∷ s) ≡ (p, s)
unfolding cut
cut-append sep [] s h = ground arith
cut-append sep (c ∷ p) s h = ground (arith, cut-append sep p s)

no_semicolon : (p s : Text) → IsPlain p → IsPlain s → any (λ c. c == b';') (p ++ b'=' ∷ s) ≡ false
no_semicolon [] [] hp hs = refl
no_semicolon [] (c ∷ s) hp hs = ground (arith, byte_ne c b';', no_semicolon [] s)
no_semicolon (c ∷ p) s hp hs = ground (arith, byte_ne c b';', no_semicolon p s)

-- A piece whose key and value are plain adds the value to the key.
pub parse_piece-IsPlain :
    (c : ℕ) (key value : Text) (m : Values)
    → IsPlain (c ∷ key)
    → IsPlain value
    → parse_piece (c ∷ key ++ b'=' ∷ value) m ≡ some (append_value (c ∷ key) value m)
unfolding parse_piece
parse_piece-IsPlain c key value m hk hv =
    rw
      (
        no_semicolon (c ∷ key) value hk hv,
        cut-append b'=' (c ∷ key) value (IsPlain-Lacks (c ∷ key) b'=' refl hk),
        unescape-IsPlain (c ∷ key) hk,
        unescape-IsPlain value hv,
      )
      refl
