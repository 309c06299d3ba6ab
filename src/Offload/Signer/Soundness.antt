-- ===== src/Offload/Signer/Soundness.antt =====
-- Only the queries that a configured key signs are authorized.
use oginstagram.Base.{
  ℕ, ◌+◌, ◌≡◌, ◌≤◌, ◌<◌, sym, ap, ◌∙◌, true, ◌++◌, arith, length, some, Option-cases, ◌⊎◌, inl, inr,
}
use oginstagram.Base.Text.{Text, codes, text_eq, eq_of_text_eq}
use oginstagram.Base64.{encode, decode}
use oginstagram.Decimal.{itoa, parse_uint}
use oginstagram.Query.{get}
use oginstagram.UrlQuery.{parse_query}
use oginstagram.Offload.Route.{Url, Handler, offload_route}
use oginstagram.Offload.Signer.{
  Signer, key_of, canonical_query, thumbnail_prefix, offload_mac, signature_matches, authorized,
  authorize, capability_seconds, offload_signing_key_size,
}

module _ (hmac : Text → Text → Text) (escaped_path : Url → Text) where
  signature_matches-encode_eq :
      (key kid path : Text) (expires : ℕ) (sig : Text)
      → signature_matches hmac escaped_path key kid path expires sig ≡ true
      → sig ≡ encode (offload_mac hmac escaped_path key kid path expires)
  unfolding signature_matches
  signature_matches-encode_eq key kid path expires sig h = elim (Option-cases (decode sig)) [
    | inl bad ↦ absurd (ground (arith, bad))
    | inr (signature, good) ↦
        let printed = eq_of_text_eq (encode signature) sig (ground (arith, good)) in
        let same =
          eq_of_text_eq signature (offload_mac hmac escaped_path key kid path expires)
            (ground (arith, good)) in
        sym printed ∙ ap encode same
  ]

  -- What the query of an authorized request is.
  abbrev pub IsSigned : Signer → Text → Text → ℕ → Text → Type 0
  IsSigned s path kid expires raw_query =
      let query =
        canonical_query (codes "2") kid (itoa expires)
          (encode (offload_mac hmac escaped_path (key_of s kid) kid path expires)) in
      (length (key_of s kid) ≡ offload_signing_key_size)
      × ((raw_query ≡ query) ⊎ (raw_query ≡ thumbnail_prefix ++ query))

  authorized-IsSigned :
      (s : Signer) (path v kid exp sig raw_query : Text) (now : ℕ)
      → authorized hmac escaped_path s path v kid exp sig raw_query now ≡ true
      → (expires : ℕ) × (now < expires)
        × (expires ≤ now + capability_seconds)
        × IsSigned s path kid expires raw_query
  unfolding authorized
  authorized-IsSigned s path v kid exp sig raw_query now h =
      elim (Option-cases (parse_uint 63 exp)) [
        | inl bad ↦ absurd (ground (arith, bad))
        | inr (expires, good) ↦
            let version = eq_of_text_eq v (codes "2") (ground (arith, good)) in
            let printed = eq_of_text_eq (itoa expires) exp (ground (arith, good)) in
            let signed =
              signature_matches-encode_eq (key_of s kid) kid path expires sig
                (ground (arith, good)) in
            let same : canonical_query v kid exp sig
                ≡ canonical_query (codes "2") kid (itoa expires)
                    (encode (offload_mac hmac escaped_path (key_of s kid) kid path expires)) =
              cc in
            let raw : (text_eq raw_query (canonical_query v kid exp sig) ≡ true)
                ⊎ (text_eq raw_query (thumbnail_prefix ++ canonical_query v kid exp sig) ≡ true) =
              ground (arith, good) in
            (
              expires,
              ground (arith, good),
              ground (arith, good),
              (
                ground (arith, good),
                (elim raw [
                  | inl plain ↦
                      inl (eq_of_text_eq raw_query (canonical_query v kid exp sig) plain ∙ same)
                  | inr prefixed ↦ inr (
                      eq_of_text_eq raw_query (thumbnail_prefix ++ canonical_query v kid exp sig)
                        prefixed
                      ∙ ap (λ q. thumbnail_prefix ++ q) same)
                ]),
              ),
            )
      ]

  -- An authorized request asks for an accepted path at a time before an expiry that is at most 30
  -- days away, and its query is byte for byte one that a configured key of the right size signs for
  -- that path and expiry.
  pub authorize-IsSigned :
      (s : Signer) (u : Url) (now : ℕ)
      → authorize hmac escaped_path s u now ≡ true
      → (path kid : Text) × (handler : Handler) × (expires : ℕ) × (offload_route escaped_path u
          ≡ some (path, handler))
        × (now < expires)
        × (expires ≤ now + capability_seconds)
        × IsSigned s path kid expires u.raw_query
  unfolding authorize
  authorize-IsSigned s u now h = elim (Option-cases (offload_route escaped_path u)) [
    | inl bad ↦ absurd (ground (arith, bad))
    | inr ((path, handler), routed) ↦ elim (Option-cases (parse_query u.raw_query)) [
      | inl bad ↦ absurd (ground (arith, routed, bad))
      | inr (m, parsed) ↦
          let (expires, later, soon, signed) =
            authorized-IsSigned s path (get m (codes "v")) (get m (codes "kid"))
              (get m (codes "exp")) (get m (codes "sig")) u.raw_query now
              (ground (arith, routed, parsed)) in
          (path, get m (codes "kid"), handler, expires, routed, later, soon, signed)
    ]
  ]
