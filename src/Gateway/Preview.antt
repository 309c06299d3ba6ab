-- ===== src/Gateway/Preview.antt =====
-- server/gateway.go, `previewQuery`: the queries that a preview may have.
use oginstagram.Base.{
  ℕ, ◌≤◌, ◌≡◌, refl, ap, ◌∙◌, Bool, true, false, ◌&&◌, inl, inr, ◌↔◌, [], ◌∷◌, Option, none, some,
  leb, ltb, arith, Option-cases, if◌then◌else◌,
}
use oginstagram.Base.Text.{Text, codes, text_eq, text_eq_iff}
use oginstagram.Decimal.{itoa}
use oginstagram.Query.{Values, parse_canonical_decimal, max_cached_media_items}
use oginstagram.Query.Canonical.{parse_canonical_decimal_iff}
use oginstagram.UrlQuery.{parse_query}

-- `len(query) == 1 && len(query["img_index"]) == 1`, and the value.
unfoldable pub single_index : Values → Option Text
single_index ((key, value ∷ []) ∷ []) = if text_eq key (codes "img_index") then some value else none
single_index _ = none

-- Whether the text of an index is that of an item, counted from 1.
unfoldable pub item_number : Text → Bool
item_number value = elim (parse_canonical_decimal value) [
  | none ↦ false
  | some n ↦ ltb 0 n && leb n max_cached_media_items
]

unfoldable pub preview_query : Text → Bool → Bool
preview_query [] is_post = true
preview_query (c ∷ raw) is_post = elim (parse_query (c ∷ raw)) [
  | none ↦ false
  | some values ↦
      is_post && (elim (single_index values) [ none ↦ false | some value ↦ item_number value ])
]

item_number_lem :
    (value : Text)
    → (item_number value ≡ true)
      ↔ ((n : ℕ) × (value ≡ itoa n) × (1 ≤ n) × (n ≤ max_cached_media_items))
unfolding item_number
item_number_lem value = (reads, writes)
  where
    reads :
        item_number value ≡ true
        → (n : ℕ) × (value ≡ itoa n) × (1 ≤ n) × (n ≤ max_cached_media_items)
    reads h = elim (Option-cases (parse_canonical_decimal value)) [
      | inl bad ↦ absurd (ground (arith, bad))
      | inr (n, good) ↦ (
        n,
        ((parse_canonical_decimal_iff value n).0 good).0,
        ground (arith, good),
        ground (arith, good),
      )
    ]

    writes :
        (n : ℕ) × (value ≡ itoa n) × (1 ≤ n) × (n ≤ max_cached_media_items)
        → item_number value ≡ true
    writes (n, print, low, high) =
        let good = (parse_canonical_decimal_iff value n).1 (print, omega arith) in
        ground (arith, good)

single_index_lem :
    (values : Values) (value : Text)
    → (single_index values ≡ some value) ↔ (values ≡ (codes "img_index", value ∷ []) ∷ [])
unfolding single_index
single_index_lem [] value = (λ h. absurd (ground arith), λ h. cc)
single_index_lem ((key, []) ∷ m) value = (λ h. absurd (ground arith), λ h. cc)
single_index_lem ((key, v ∷ []) ∷ []) value = (
  λ h. ground (arith, text_eq_iff key (codes "img_index")),
  λ h. ground (arith, text_eq_iff key (codes "img_index")),
)
single_index_lem ((key, v ∷ w ∷ vs) ∷ m) value = (λ h. absurd (ground arith), λ h. cc)
single_index_lem ((key, v ∷ []) ∷ e ∷ m) value = (λ h. absurd (ground arith), λ h. cc)

-- A query that is not empty is previewed exactly for a post whose parsed query is one `img_index` with
-- one value, the canonical print of the number of an item that a post can have.
pub preview_query_iff :
    (c : ℕ) (raw : Text) (is_post : Bool)
    → (preview_query (c ∷ raw) is_post ≡ true)
      ↔ (is_post ≡ true)
        × (n : ℕ) × (parse_query (c ∷ raw) ≡ some ((codes "img_index", itoa n ∷ []) ∷ []))
        × (1 ≤ n)
        × (n ≤ max_cached_media_items)
unfolding preview_query
preview_query_iff c raw is_post = (reads, λ h. writes h.0 h.1 h.2 h.3 h.4)
  where
    reads :
        preview_query (c ∷ raw) is_post ≡ true
        → (is_post ≡ true)
          × (n : ℕ) × (parse_query (c ∷ raw) ≡ some ((codes "img_index", itoa n ∷ []) ∷ []))
          × (1 ≤ n)
          × (n ≤ max_cached_media_items)
    reads h = elim (Option-cases (parse_query (c ∷ raw))) [
      | inl bad ↦ absurd (ground (arith, bad))
      | inr (m, parsed) ↦ elim (Option-cases (single_index m)) [
        | inl other ↦ absurd (ground (arith, parsed, other))
        | inr (value, one) ↦
            let (n, print, low, high) = (item_number_lem value).0 (ground (arith, parsed, one)) in
            (
              ground (arith, parsed, one),
              n,
              parsed
                  ∙ ap some (
                      (single_index_lem m value).0 one
                      ∙ ap (λ t. (codes "img_index", t ∷ []) ∷ []) print),
              low,
              high,
            )
      ]
    ]

    writes :
        is_post ≡ true
        → (n : ℕ) → parse_query (c ∷ raw) ≡ some ((codes "img_index", itoa n ∷ []) ∷ [])
        → 1 ≤ n
        → n ≤ max_cached_media_items
        → preview_query (c ∷ raw) is_post ≡ true
    writes shown n parsed low high =
        let one = (single_index_lem ((codes "img_index", itoa n ∷ []) ∷ []) (itoa n)).1 refl in
        let good = (item_number_lem (itoa n)).1 (n, refl, low, high) in
        ground (arith, shown, parsed, one, good)
