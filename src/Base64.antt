-- ===== src/Base64.antt =====
-- `base64.RawURLEncoding` of the Go library: no padding, `-` and `_` for 62 and 63.
pub mod RoundTrip
use oginstagram.Base.{
  ℕ, ◌+◌, ◌-◌, ◌*◌, ◌/◌, ◌%◌, List, [], ◌∷◌, Bool, true, false, ◌||◌, ◌&&◌, leb, Option, none, some,
  ◌>>=◌, ltb, ◌==◌, if◌then◌else◌,
}
use oginstagram.Base.Text.{Text, is_digit}

unfoldable pub encode_sextet : ℕ → ℕ
encode_sextet n =
    if ltb n 26
    then b'A' + n
    else (if ltb n 52
        then b'a' + (n - 26)
        else (if ltb n 62 then b'0' + (n - 52) else (if n == 62 then b'-' else b'_')))

unfoldable pub decode_sextet : ℕ → Option ℕ
decode_sextet c =
    if is_upper c
    then some (c - b'A')
    else (if is_lower c
        then some (c - b'a' + 26)
        else (if is_digit c
            then some (c - b'0' + 52)
            else (if c == b'-' then some 62 else (if c == b'_' then some 63 else none))))
  where
    is_upper : ℕ → Bool
    is_upper c = leb b'A' c && leb c b'Z'

    is_lower : ℕ → Bool
    is_lower c = leb b'a' c && leb c b'z'

-- `EncodeToString`
unfoldable pub encode : Text → Text
encode [] = []
encode (a ∷ []) = encode_sextet (a / 4) ∷ encode_sextet (a % 4 * 16) ∷ []
encode (a ∷ b ∷ []) =
    encode_sextet (a / 4) ∷ encode_sextet (a % 4 * 16 + b / 16) ∷ encode_sextet (b % 16 * 4) ∷ []
encode (a ∷ b ∷ c ∷ s) =
    encode_sextet (a / 4)
    ∷ encode_sextet (a % 4 * 16 + b / 16)
    ∷ encode_sextet (b % 16 * 4 + c / 64)
    ∷ encode_sextet (c % 64)
    ∷ encode s

-- The bytes of four sextets and the rest; one sextet alone is an error, and the bits that are left
-- over are not looked at.
unfoldable pub decode_sextets : List ℕ → Option Text
decode_sextets [] = some []
decode_sextets (a ∷ []) = none
decode_sextets (a ∷ b ∷ []) = some ((a * 4 + b / 16) ∷ [])
decode_sextets (a ∷ b ∷ c ∷ []) = some ((a * 4 + b / 16) ∷ (b % 16 * 16 + c / 4) ∷ [])
decode_sextets (a ∷ b ∷ c ∷ d ∷ s) = decode_sextets s >>= λ rest.
    some ((a * 4 + b / 16) ∷ (b % 16 * 16 + c / 4) ∷ (c % 4 * 64 + d) ∷ rest)

-- The sextets of a text; line breaks are skipped.
unfoldable pub sextets : Text → Option (List ℕ)
sextets [] = some []
sextets (c ∷ s) =
    let rest = sextets s in
    if c == 10 || c == 13 then rest else (decode_sextet c >>= λ n. rest >>= λ ns. some (n ∷ ns))

-- `DecodeString`
unfoldable pub decode : Text → Option Text
decode s = sextets s >>= λ ns. decode_sextets ns
