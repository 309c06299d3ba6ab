-- ===== src/Offload/Signer.antt =====
-- server/offload_signer.go: the signed capabilities of the offload links.
pub mod Query
pub mod RoundTrip
pub mod Soundness
use oginstagram.Base.{
  ℕ, ◌+◌, ◌-◌, ◌*◌, ◌/◌, ◌%◌, Bool, true, false, ◌&&◌, ◌||◌, not, List, [], ◌∷◌, ◌++◌, Option, none,
  some, ltb, leb, ◌==◌, length, if◌then◌else◌,
}
use oginstagram.Base.Text.{Text, codes, text_eq}
use oginstagram.Base.Assoc.{lookup}
use oginstagram.Base64.{encode, decode}
use oginstagram.Config.{second, hour}
use oginstagram.Decimal.{itoa, parse_uint}
use oginstagram.Query.{Values, get}
use oginstagram.Routes.{trim_right}
use oginstagram.UrlQuery.{parse_query}
use oginstagram.Offload.Route.{Url, offload_route}

abbrev pub offload_signing_key_size : ℕ
offload_signing_key_size = 32

-- `sha256.Size`
abbrev pub sha_size : ℕ
sha_size = 32

-- `offloadCapabilityTTL / time.Second`
abbrev pub capability_seconds : ℕ
capability_seconds = 30 * 24 * 60 * 60

-- The seconds from Go's zero time to the Unix epoch.
abbrev pub unix_epoch : ℕ
unix_epoch = 62135596800

pub record Signer : Type 0 where
  pub active : Text
  pub keys : List (Text × Text)

-- `s.keys[kid]`: a missing key is empty.
abbrev pub key_of : Signer → Text → Text
key_of s kid = elim (lookup kid s.keys) [ none ↦ [] | some key ↦ key ]

-- The text that is hashed.
unfoldable pub mac_input : Text → Text → ℕ → Text
mac_input key_id path expires =
    codes "oginstagram-offload-capability"
    ++ 10 ∷ codes "v=2"
    ++ 10 ∷ codes "kid="
    ++ key_id
    ++ 10 ∷ codes "exp="
    ++ itoa expires
    ++ 10 ∷ codes "path="
    ++ path
    ++ 10 ∷ []

-- `"v=" + v + "&kid=" + kid + "&exp=" + exp + "&sig=" + sig`
unfoldable pub canonical_query : Text → Text → Text → Text → Text
canonical_query v kid exp sig =
    codes "v="
    ++ (v ++ (codes "&kid=" ++ (kid ++ (codes "&exp=" ++ (exp ++ (codes "&sig=" ++ sig))))))

abbrev pub thumbnail_prefix : Text
thumbnail_prefix = codes "thumbnail=1&"

-- `time.Now().Add(offloadCapabilityTTL).Truncate(time.Hour).Unix()`, of a time in nanoseconds since
-- Go's zero time, from which `Truncate` counts.
unfoldable pub expiry : ℕ → ℕ
expiry now =
    let until = now + capability_seconds * second in (until - until % hour) / second - unix_epoch

-- `hmac` is HMAC-SHA256 of a key and a message, `escaped_path` is `(*url.URL).EscapedPath`.
module _ (hmac : Text → Text → Text) (escaped_path : Url → Text) where
  unfoldable pub offload_mac : Text → Text → Text → ℕ → Text
  offload_mac key key_id path expires = hmac key (mac_input key_id path expires)

  -- `none` is the panic over an active key that is not configured.
  unfoldable pub signature : Signer → Text → ℕ → Option Text
  signature s path expires =
      let key = key_of s s.active in
      if not (length key == offload_signing_key_size)
      then none
      else some (encode (offload_mac key s.active path expires))

  -- The query of `url`.
  unfoldable pub signed_query : Signer → Text → Bool → ℕ → Option Text
  signed_query s path thumbnail expires = elim (signature s path expires) [
    | none ↦ none
    | some sig ↦
        let query = canonical_query (codes "2") s.active (itoa expires) sig in
        some (if thumbnail then thumbnail_prefix ++ query else query)
  ]

  unfoldable pub url : Signer → Text → Text → Bool → ℕ → Option Text
  url s base_url path thumbnail now = elim (signed_query s path thumbnail (expiry now)) [
    | none ↦ none
    | some query ↦ some (trim_right b'/' base_url ++ path ++ b'?' ∷ query)
  ]

  -- The check of a signature.
  unfoldable pub signature_matches : Text → Text → Text → ℕ → Text → Bool
  signature_matches key kid path expires sig = elim (decode sig) [
    | none ↦ false
    | some signature ↦
        if not (length signature == sha_size) || not (text_eq (encode signature) sig)
        then false
        else text_eq signature (offload_mac key kid path expires)
  ]

  -- The checks on the values of the query. A negative time, which `strconv.ParseInt` reads too, is
  -- refused by `expires <= now.Unix()`: here the text of one is not a number.
  unfoldable pub authorized : Signer → Text → Text → Text → Text → Text → Text → ℕ → Bool
  authorized s path v kid exp sig raw_query now =
      let canonical = canonical_query v kid exp sig in
      if not (text_eq raw_query canonical)
          && not (text_eq raw_query (thumbnail_prefix ++ canonical))
        || not (text_eq v (codes "2"))
        || not (length (key_of s kid) == offload_signing_key_size)
      then false
      else (elim (parse_uint 63 exp) [
        | none ↦ false
        | some expires ↦
            if not (text_eq (itoa expires) exp)
              || leb expires now
              || ltb (now + capability_seconds) expires
            then false
            else signature_matches (key_of s kid) kid path expires sig
      ])

  -- `now` is `now.Unix()`.
  unfoldable pub authorize : Signer → Url → ℕ → Bool
  authorize s u now = elim (offload_route escaped_path u) [
    | none ↦ false
    | some route ↦ elim (parse_query u.raw_query) [
      | none ↦ false
      | some values ↦
          authorized s route.0 (get values (codes "v")) (get values (codes "kid"))
            (get values (codes "exp")) (get values (codes "sig")) u.raw_query now
    ]
  ]
