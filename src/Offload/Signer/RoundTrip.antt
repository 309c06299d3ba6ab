-- ===== src/Offload/Signer/RoundTrip.antt =====
-- Links that the signer made are authorized while they last.
use oginstagram.Base.{
  ℕ, ◌+◌, ◌-◌, ◌*◌, ◌/◌, ◌^◌, ◌≡◌, ◌≤◌, ◌<◌, refl, Bool, true, false, ◌||◌, [], ◌∷◌, ◌++◌, arith,
  All, all, length, some, if◌then◌else◌,
}
use oginstagram.Base.Text.{Text, codes, is_digit, text_eq, text_eq_refl}
use oginstagram.Base64.{encode}
use oginstagram.Base64.RoundTrip.{IsByte, decode-encode, encode-bytes}
use oginstagram.Config.{second}
use oginstagram.Decimal.{itoa}
use oginstagram.Decimal.RoundTrip.{parse_uint-itoa, read-itoa}
use oginstagram.Routes.Names.{read-digits}
use oginstagram.UrlQuery.Plain.{IsPlain}
use oginstagram.Offload.Route.{Url, Handler, offload_route}
use oginstagram.Offload.Signer.{
  Signer, key_of, mac_input, canonical_query, thumbnail_prefix, expiry, offload_mac, signature,
  signed_query, signature_matches, authorized, authorize, capability_seconds, unix_epoch,
  offload_signing_key_size, sha_size,
}
use oginstagram.Offload.Signer.Query.{parse_query-signed}

-- The second at which a link made at `t` expires lies within the last hour of the 30 days.
expiry-window :
    (t : ℕ)
    → unix_epoch * second ≤ t
    → (expiry t ≤ t / second - unix_epoch + capability_seconds)
      × (t / second - unix_epoch + capability_seconds < expiry t + 60 * 60)
unfolding expiry
expiry-window t h = (omega arith, omega arith)

digits-IsPlain : (s : Text) → all is_digit s ≡ true → IsPlain s
digits-IsPlain [] h = refl
digits-IsPlain (c ∷ s) h = ground (arith, digits-IsPlain s)

itoa-IsPlain : (n : ℕ) → IsPlain (itoa n)
itoa-IsPlain n = digits-IsPlain (itoa n) (read-digits 0 n (itoa n) (read-itoa n))

-- A digest of 32 bytes for every key and message, as HMAC-SHA256 gives.
abbrev pub IsDigest : (Text → Text → Text) → Type 0
IsDigest hmac =
    (key message : Text) → (length (hmac key message) ≡ sha_size) × All IsByte (hmac key message)

module _ (hmac : Text → Text → Text) (escaped_path : Url → Text) (digest : IsDigest hmac) where
  signature_matches-encode :
      (key kid path : Text) (expires : ℕ)
      → signature_matches hmac escaped_path key kid path expires
          (encode (offload_mac hmac escaped_path key kid path expires))
        ≡ true
  unfolding signature_matches offload_mac
  signature_matches-encode key kid path expires =
      let made = digest key (mac_input kid path expires) in
      let decoded = decode-encode (hmac key (mac_input kid path expires)) made.1 in
      let same = text_eq_refl (encode (hmac key (mac_input kid path expires))) in
      let equal = text_eq_refl (hmac key (mac_input kid path expires)) in
      ground (arith, decoded, made.0, same, equal)

  raw_query-matches :
      (thumbnail : Bool) (query : Text)
      → (text_eq (if thumbnail then thumbnail_prefix ++ query else query) query
          || text_eq
              (if thumbnail then thumbnail_prefix ++ query else query)
              (thumbnail_prefix ++ query))
        ≡ true
  raw_query-matches false query = rw (text_eq_refl query) refl
  raw_query-matches true query = ground (arith, text_eq_refl (thumbnail_prefix ++ query))

  authorized-signed :
      (s : Signer) (path sig : Text) (thumbnail : Bool) (expires now : ℕ)
      → length (key_of s s.active) ≡ offload_signing_key_size
      → signature_matches hmac escaped_path (key_of s s.active) s.active path expires sig ≡ true
      → now < expires
      → expires ≤ now + capability_seconds
      → expires < 2 ^ 63
      → authorized hmac escaped_path s path
          (codes "2")
          s.active
          (itoa expires)
          sig
          (if thumbnail
            then thumbnail_prefix ++ canonical_query (codes "2") s.active (itoa expires) sig
            else canonical_query (codes "2") s.active (itoa expires) sig)
          now
        ≡ true
  unfolding authorized
  authorized-signed s path sig thumbnail expires now key good later soon small =
      let raw =
        raw_query-matches thumbnail (canonical_query (codes "2") s.active (itoa expires) sig) in
      let parsed = parse_uint-itoa 63 expires small in
      let printed = text_eq_refl (itoa expires) in
      let version = text_eq_refl (codes "2") in ground (arith, raw, parsed, printed, version)

  authorize-signed :
      (s : Signer) (u : Url) (path sig : Text) (handler : Handler) (thumbnail : Bool)
      (expires now : ℕ)
      → IsPlain s.active
      → IsPlain sig
      → length (key_of s s.active) ≡ offload_signing_key_size
      → signature_matches hmac escaped_path (key_of s s.active) s.active path expires sig ≡ true
      → offload_route escaped_path u ≡ some (path, handler)
      → u.raw_query ≡ (
          if thumbnail
          then thumbnail_prefix ++ canonical_query (codes "2") s.active (itoa expires) sig
          else canonical_query (codes "2") s.active (itoa expires) sig)
      → now < expires
      → expires ≤ now + capability_seconds
      → expires < 2 ^ 63
      → authorize hmac escaped_path s u now ≡ true
  unfolding authorize
  authorize-signed s u path sig handler thumbnail expires now plain plain_sig key good routed raw
        later soon small =
      let (m, parsed, hv, hk, he, hs) =
        parse_query-signed (codes "2") s.active (itoa expires) sig refl plain (itoa-IsPlain expires)
          plain_sig thumbnail in
      let accepted = authorized-signed s path sig thumbnail expires now key good later soon small in
      rw (authorize, routed, raw, parsed, hv, hk, he, hs, raw) accepted

  -- A link that the signer made at the instant `t` is authorized for 30 days less an hour, at least:
  -- with a configured key whose id is plain and a digest of 32 bytes, at every second from that of
  -- `t` on, for the accepted path that was signed, with `thumbnail=1` or without. The instant lies
  -- behind the Unix epoch and within 63 bits of seconds.
  pub authorize-signed_query :
      (s : Signer) (u : Url) (path query : Text) (handler : Handler) (thumbnail : Bool) (t now : ℕ)
      → IsPlain s.active
      → offload_route escaped_path u ≡ some (path, handler)
      → signed_query hmac escaped_path s path thumbnail (expiry t) ≡ some query
      → u.raw_query ≡ query
      → unix_epoch * second ≤ t
      → t / second - unix_epoch ≤ now
      → now + 60 * 60 ≤ t / second - unix_epoch + capability_seconds
      → t < 2 ^ 63 * second
      → authorize hmac escaped_path s u now ≡ true
  unfolding signed_query signature offload_mac
  authorize-signed_query s u path query handler thumbnail t now plain routed signed raw epoch made
        lasts small =
      let key : length (key_of s s.active) ≡ offload_signing_key_size = ground arith in
      let window = expiry-window t epoch in
      let made_bytes = digest (key_of s s.active) (mac_input s.active path (expiry t)) in
      let sig =
        encode (offload_mac hmac escaped_path (key_of s s.active) s.active path (expiry t)) in
      authorize-signed s u path sig handler thumbnail (expiry t) now plain
        (encode-bytes (offload_mac hmac escaped_path (key_of s s.active) s.active path (expiry t))
          made_bytes.1)
        key (signature_matches-encode (key_of s s.active) s.active path (expiry t)) routed
        (ground (arith, key)) (omega (arith, window)) (omega (arith, window))
        (omega (arith, window))
