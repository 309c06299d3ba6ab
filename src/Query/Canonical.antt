-- ===== src/Query/Canonical.antt =====
-- What `parseCanonicalDecimal` accepts, and the range of a selected index.
use oginstagram.Base.{
  ℕ, ◌-◌, ◌^◌, ◌≤◌, ◌<◌, ◌≡◌, refl, sym, ap, ◌∙◌, true, ◌⊎◌, inl, inr, ◌↔◌, List, [], ◌∷◌, Option,
  none, some, arith, ◌==◌, Bool-cases,
}
use oginstagram.Base.Text.{Text, codes, text_eq}
use oginstagram.Base.Assoc.{lookup}
use oginstagram.Decimal.{itoa, parse_uint}
use oginstagram.Decimal.RoundTrip.{IsCanonical, itoa-IsCanonical, parse_uint-itoa, itoa-parse_uint}
use oginstagram.Query.{
  parse_canonical_decimal, bounded_media_index, Values, from_query, media_selection, index_keys,
  max_cached_media_items,
}

leading_zero_cases :
    (c : ℕ) (s : Text)
    → IsCanonical (c ∷ s) × (parse_canonical_decimal (c ∷ s) ≡ parse_uint 53 (c ∷ s))
      ⊎ (¬ IsCanonical (c ∷ s)) × (parse_canonical_decimal (c ∷ s) ≡ none)
unfolding parse_canonical_decimal text_eq
leading_zero_cases c [] = inl (inl refl, ground arith)
leading_zero_cases c (d ∷ s) = elim (Bool-cases (c == b'0')) [
  | inl zero ↦ inr (λ e. ground arith, ground arith)
  | inr other ↦ inl (inr (λ e. ground arith), ground arith)
]

-- The accepted texts are exactly the decimal prints of the numbers below 2 ^ 53, each read as the
-- number that it prints.
pub parse_canonical_decimal_iff :
    (s : Text) (n : ℕ) → (parse_canonical_decimal s ≡ some n) ↔ (s ≡ itoa n) × (n < 2 ^ 53)
unfolding parse_canonical_decimal
parse_canonical_decimal_iff s n = (reads s, λ h. prints s h.0 h.1)
  where
    reads : (s : Text) → parse_canonical_decimal s ≡ some n → (s ≡ itoa n) × (n < 2 ^ 53)
    reads [] e = cc
    reads (c ∷ s) e = elim (leading_zero_cases c s) [
      | inl (canonical, same) ↦
          let (print, small) = itoa-parse_uint 53 n (c ∷ s) canonical (sym same ∙ e) in
          (sym print, small)
      | inr (_, refused) ↦ cc
    ]

    prints : (s : Text) → s ≡ itoa n → n < 2 ^ 53 → parse_canonical_decimal s ≡ some n
    prints [] e h = absurd (rw (← e) at (itoa-IsCanonical n))
    prints (c ∷ s) e h = elim (leading_zero_cases c s) [
      | inl (_, same) ↦ same ∙ ap (parse_uint 53) e ∙ parse_uint-itoa 53 n h
      | inr (bad, _) ↦ absurd (bad (rw (← e) at (itoa-IsCanonical n)))
    ]

from_query_bound :
    (values : Values) (qs : List (Text × ℕ)) → (from_query values qs).0 < max_cached_media_items
unfolding from_query bounded_media_index
from_query_bound values [] = omega arith
from_query_bound values ((key, base) ∷ qs) = ground (arith, from_query_bound values qs)

-- Whatever the request says, the selected index is below the number of items that a post can have.
pub media_selection-bound :
    (values : Values) (path_index : Option ℕ)
    → (media_selection values path_index).0 < max_cached_media_items
unfolding media_selection bounded_media_index
media_selection-bound values (some n) = omega arith
media_selection-bound values none = from_query_bound values index_keys

-- A canonical `img_index` of an item, counted from 1, selects that item, as the same index in the
-- path does, whatever other parameters say.
pub media_selection-img_index :
    (values : Values) (vs : List Text) (n : ℕ)
    → lookup (codes "img_index") values ≡ some (itoa n ∷ vs)
    → 1 ≤ n
    → n ≤ max_cached_media_items
    → (media_selection values none ≡ (n - 1, true))
      × (media_selection values (some n) ≡ (n - 1, true))
unfolding media_selection from_query bounded_media_index parse_canonical_decimal
media_selection-img_index values vs n found low high =
    let parsed = (parse_canonical_decimal_iff (itoa n) n).1 (refl, omega arith) in
    (rw (found, parsed) (ground arith), ground arith)
