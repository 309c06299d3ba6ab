-- ===== src/Routes/Grammar.antt =====
-- `parseEmbedSegments` decides a grammar.
use oginstagram.Base.{
  ℕ, ◌^◌, ◌<◌, ◌≡◌, ◌≢◌, true, false, ◌⊎◌, inl, inr, ◌↔◌, List, [], ◌∷◌, Option, none, some, arith,
  not, ◌||◌, Option-cases,
}
use oginstagram.Base.Text.{Text, codes, text_eq, text_eq_iff}
use oginstagram.Decimal.{itoa}
use oginstagram.Query.{parse_canonical_decimal}
use oginstagram.Query.Canonical.{parse_canonical_decimal_iff}
use oginstagram.Routes.{
  EmbedRoute, mismatch, route, match_shape, parse_embed_segments, is_post_route_type,
  valid_shortcode, valid_username, normalize_post_type,
}

abbrev pub IsPost : Text → Text → Option ℕ → EmbedRoute → Type 0
IsPost t code index r =
    (is_post_route_type t ≡ true)
    × (valid_shortcode code ≡ true)
    × (r ≡ record { post_type = normalize_post_type t; shortcode = code; path_index = index })

abbrev pub IsIndexed : Text → Text → Text → EmbedRoute → Type 0
IsIndexed t code i r = (n : ℕ) × (i ≡ itoa n) × (n < 2 ^ 53) × IsPost t code (some n) r

-- An account name before the post; `share` is none.
abbrev pub IsAccount : Text → Type 0
IsAccount u = (valid_username u ≡ true) × (u ≢ codes "share")

-- The paths /p/X, /p/X/n, /user/p/X and /user/p/X/n; where the third could be read as the second it
-- is not read as the third.
abbrev pub Accepts : List Text → EmbedRoute → Type 0
Accepts [] r = ⊥
Accepts (a ∷ []) r = ⊥
Accepts (t ∷ code ∷ []) r = IsPost t code none r
Accepts (a ∷ b ∷ c ∷ []) r =
    IsIndexed a b c r
    ⊎ IsAccount a
      × ((is_post_route_type a ≡ false) ⊎ (valid_shortcode b ≡ false))
      × IsPost b c none r
Accepts (u ∷ t ∷ code ∷ i ∷ []) r = IsAccount u × IsIndexed t code i r
Accepts (_ ∷ _ ∷ _ ∷ _ ∷ _ ∷ _) r = ⊥

-- The outcome of one reading, with the facts that it rests on.
shape_two :
    (t code : Text) (r : EmbedRoute)
    → (match_shape (t ∷ code ∷ []) ≡ route r) ↔ IsPost t code none r
unfolding match_shape
shape_two t code r = (λ h. ground arith, λ h. ground arith)

shape_three :
    (t code i : Text) (r : EmbedRoute)
    → (match_shape (t ∷ code ∷ i ∷ []) ≡ route r) ↔ IsIndexed t code i r
unfolding match_shape
shape_three t code i r = (reads, writes)
  where
    reads : match_shape (t ∷ code ∷ i ∷ []) ≡ route r → IsIndexed t code i r
    reads h = elim (Option-cases (parse_canonical_decimal i)) [
      | inl bad ↦ ground (arith, bad)
      | inr (n, good) ↦
          let spelled = (parse_canonical_decimal_iff i n).0 good in
          (n, spelled.0, spelled.1, ground (arith, good))
    ]

    writes : IsIndexed t code i r → match_shape (t ∷ code ∷ i ∷ []) ≡ route r
    writes (n, print, small, post) =
        let good = (parse_canonical_decimal_iff i n).1 (print, small) in ground (arith, good)

-- Whether the first reading is skipped.
shape_mismatch :
    (t code i : Text)
    → (match_shape (t ∷ code ∷ i ∷ []) ≡ mismatch)
      ↔ ((is_post_route_type t ≡ false) ⊎ (valid_shortcode code ≡ false))
unfolding match_shape
shape_mismatch t code i = elim (Option-cases (parse_canonical_decimal i)) [
  | inl bad ↦ (λ h. ground (arith, bad), λ h. ground (arith, bad))
  | inr (n, good) ↦ (λ h. ground (arith, good), λ h. ground (arith, good))
]

account_lem :
    (u : Text) → ((text_eq u (codes "share") || not (valid_username u)) ≡ false) ↔ IsAccount u
account_lem u = (
  λ h. ground (arith, text_eq_iff u (codes "share")),
  λ h. ground (arith, text_eq_iff u (codes "share")),
)

-- A path is read as a post exactly when it is `/p/X`, `/p/X/n`, `/user/p/X` or `/user/p/X/n` with a
-- shortcode X, a canonical number n and an account name other than `share`, and the route is the one
-- that the path spells; a path that reads as `/p/X/…` in its first two segments is not read with an
-- account.
pub parse_embed_segments_iff :
    (segments : List Text) (r : EmbedRoute)
    → (parse_embed_segments segments ≡ some r) ↔ Accepts segments r
unfolding parse_embed_segments match_shape
parse_embed_segments_iff [] r = (λ h. ground arith, λ h. absurd h)
parse_embed_segments_iff (a ∷ []) r = (λ h. ground arith, λ h. absurd h)
parse_embed_segments_iff (t ∷ code ∷ []) r =
    (λ h. ground (arith, shape_two t code r), λ h. ground (arith, shape_two t code r))
parse_embed_segments_iff (a ∷ b ∷ c ∷ []) r = (
  λ h. ground (arith, shape_three a b c r, shape_mismatch a b c, account_lem a, shape_two b c r),
  λ h. ground (arith, shape_three a b c r, shape_mismatch a b c, account_lem a, shape_two b c r),
)
parse_embed_segments_iff (u ∷ t ∷ code ∷ i ∷ []) r = (
  λ h. ground (arith, shape_three t code i r, account_lem u),
  λ h. ground (arith, shape_three t code i r, account_lem u),
)
parse_embed_segments_iff (_ ∷ _ ∷ _ ∷ _ ∷ _ ∷ _) r = (λ h. ground arith, λ h. absurd h)
