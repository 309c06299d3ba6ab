-- ===== src/Offload/Signer/Query.antt =====
-- What `url.ParseQuery` reads from the query that the signer writes.
use oginstagram.Base.{
  ℕ, ◌≡◌, refl, ap, ◌∙◌, Bool, true, false, List, [], ◌∷◌, ◌++◌, arith, some, if◌then◌else◌,
}
use oginstagram.Base.Text.{Text, codes, text_eq}
use oginstagram.Base.Assoc.{lookup, insert}
use oginstagram.Query.{Values, get}
use oginstagram.Routes.{split}
use oginstagram.Routes.Paths.{Lacks, split-append, split-Lacks}
use oginstagram.UrlQuery.{append_value, parse_pieces, parse_query}
use oginstagram.UrlQuery.Plain.{IsPlain, IsPlain-Lacks, parse_piece-IsPlain}
use oginstagram.Offload.Signer.{canonical_query, thumbnail_prefix}

Lacks-append : (d : ℕ) (p s : Text) → Lacks d p → Lacks d s → Lacks d (p ++ s)
Lacks-append d [] s hp hs = hs
Lacks-append d (c ∷ p) s hp hs = ground (arith, Lacks-append d p s)

piece-Lacks :
    (c : ℕ) (key value : Text)
    → IsPlain (c ∷ key)
    → IsPlain value
    → Lacks b'&' (c ∷ key ++ b'=' ∷ value)
piece-Lacks c key value hk hv =
    Lacks-append b'&' (c ∷ key) (b'=' ∷ value) (IsPlain-Lacks (c ∷ key) b'&' refl hk)
      (IsPlain-Lacks value b'&' refl hv)

parse_pieces-thumbnail :
    (pieces : List Text)
    → parse_pieces (codes "thumbnail=1" ∷ pieces) []
      ≡ parse_pieces pieces (append_value (codes "thumbnail") (codes "1") [])
unfolding parse_pieces
parse_pieces-thumbnail pieces =
    rw (parse_piece-IsPlain b't' (codes "humbnail") (codes "1") [] refl refl) refl

abbrev signed_pieces : Text → Text → Text → Text → List Text
signed_pieces v kid exp sig =
    (codes "v=" ++ v) ∷ (codes "kid=" ++ kid) ∷ (codes "exp=" ++ exp) ∷ (codes "sig=" ++ sig) ∷ []

module _ (v kid exp sig : Text) (hv : IsPlain v) (hk : IsPlain kid) (he : IsPlain exp)
    (hs : IsPlain sig) where
  pub split-canonical_query :
      split b'&' (canonical_query v kid exp sig) ≡ signed_pieces v kid exp sig
  unfolding canonical_query
  split-canonical_query =
      split-append b'&' (codes "v=" ++ v) _ (piece-Lacks b'v' [] v refl hv)
      ∙ ap (◌∷◌ (codes "v=" ++ v)) (
          split-append b'&' (codes "kid=" ++ kid) _ (piece-Lacks b'k' (codes "id") kid refl hk)
          ∙ ap (◌∷◌ (codes "kid=" ++ kid)) (
              split-append b'&' (codes "exp=" ++ exp) _ (piece-Lacks b'e' (codes "xp") exp refl he)
              ∙ ap (◌∷◌ (codes "exp=" ++ exp)) (
                  split-Lacks b'&' (codes "sig=" ++ sig)
                    (piece-Lacks b's' (codes "ig") sig refl hs))))

  pub parse_pieces-signed :
      (m : Values)
      → parse_pieces (signed_pieces v kid exp sig) m
        ≡ some (
            append_value (codes "sig") sig (
              append_value
                (codes "exp")
                exp
                (append_value (codes "kid") kid (append_value (codes "v") v m))))
  unfolding parse_pieces
  parse_pieces-signed m =
      rw
        (
          parse_piece-IsPlain b'v' [] v m refl hv,
          parse_piece-IsPlain b'k' (codes "id") kid (append_value (codes "v") v m) refl hk,
          parse_piece-IsPlain b'e' (codes "xp") exp
              (append_value (codes "kid") kid (append_value (codes "v") v m)) refl he,
          parse_piece-IsPlain b's' (codes "ig") sig
              (append_value (codes "exp") exp
                (append_value (codes "kid") kid (append_value (codes "v") v m)))
              refl hs,
        )
        refl

  -- The values that `authorize` finds in a signed query.
  pub parse_query-signed :
      (thumbnail : Bool)
      → (m : Values) × (parse_query (
            if thumbnail
            then thumbnail_prefix ++ canonical_query v kid exp sig
            else canonical_query v kid exp sig)
          ≡ some m)
        × (get m (codes "v") ≡ v)
        × (get m (codes "kid") ≡ kid)
        × (get m (codes "exp") ≡ exp)
        × (get m (codes "sig") ≡ sig)
  unfolding parse_query parse_pieces append_value insert lookup text_eq
  parse_query-signed false = (
    _,
    ap (λ ps. parse_pieces ps []) split-canonical_query ∙ parse_pieces-signed [],
    refl,
    refl,
    refl,
    refl,
  )
  parse_query-signed true = (
    _,
    ap (λ ps. parse_pieces ps [])
          (split-append b'&' (codes "thumbnail=1") (canonical_query v kid exp sig) refl
            ∙ ap (◌∷◌ (codes "thumbnail=1")) split-canonical_query)
        ∙ parse_pieces-thumbnail (signed_pieces v kid exp sig)
        ∙ parse_pieces-signed (append_value (codes "thumbnail") (codes "1") []),
    refl,
    refl,
    refl,
    refl,
  )
