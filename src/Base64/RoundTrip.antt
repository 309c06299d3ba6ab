-- ===== src/Base64/RoundTrip.antt =====
-- Decoding what was encoded.
use oginstagram.Base.{
  ℕ, ◌+◌, ◌*◌, ◌/◌, ◌%◌, ◌≡◌, ◌<◌, refl, List, [], ◌∷◌, true, some, arith, All, all, map,
}
use oginstagram.Base.Text.{Text}
use oginstagram.Routes.{shortcode_byte}
use oginstagram.Base64.{encode_sextet, decode_sextet, encode, decode, decode_sextets, sextets}

decode_sextet-encode_sextet : (n : ℕ) → n < 64 → decode_sextet (encode_sextet n) ≡ some n
unfolding decode_sextet encode_sextet
decode_sextet-encode_sextet n h = ground arith

encode_sextet-byte : (n : ℕ) → n < 64 → shortcode_byte (encode_sextet n) ≡ true
unfolding encode_sextet
encode_sextet-byte n h = ground arith

abbrev pub IsByte : ℕ → Type 0
IsByte c = c < 256

-- The sextets that a text is made of.
abbrev regroup : Text → List ℕ
regroup [] = []
regroup (a ∷ []) = (a / 4) ∷ (a % 4 * 16) ∷ []
regroup (a ∷ b ∷ []) = (a / 4) ∷ (a % 4 * 16 + b / 16) ∷ (b % 16 * 4) ∷ []
regroup (a ∷ b ∷ c ∷ s) =
    (a / 4) ∷ (a % 4 * 16 + b / 16) ∷ (b % 16 * 4 + c / 64) ∷ (c % 64) ∷ regroup s

abbrev IsSextet : ℕ → Type 0
IsSextet n = n < 64

encode-regroup : (s : Text) → encode s ≡ map encode_sextet (regroup s)
unfolding encode
encode-regroup [] = refl
encode-regroup (a ∷ []) = refl
encode-regroup (a ∷ b ∷ []) = refl
encode-regroup (a ∷ b ∷ c ∷ s) = rw (encode-regroup s) refl

regroup-All : (s : Text) → All IsByte s → All IsSextet (regroup s)
regroup-All [] h = tt
regroup-All (a ∷ []) (ha, _) = (omega arith, (omega arith, tt))
regroup-All (a ∷ b ∷ []) (ha, (hb, _)) = (omega arith, (omega arith, (omega arith, tt)))
regroup-All (a ∷ b ∷ c ∷ s) (ha, (hb, (hc, hs))) =
    (omega arith, (omega arith, (omega arith, (omega arith, regroup-All s hs))))

decode_sextets-regroup : (s : Text) → All IsByte s → decode_sextets (regroup s) ≡ some s
unfolding decode_sextets
decode_sextets-regroup [] h = refl
decode_sextets-regroup (a ∷ []) (ha, _) = ground arith
decode_sextets-regroup (a ∷ b ∷ []) (ha, (hb, _)) = ground arith
decode_sextets-regroup (a ∷ b ∷ c ∷ s) (ha, (hb, (hc, hs))) =
    ground (arith, decode_sextets-regroup s hs)

sextets-map : (ns : List ℕ) → All IsSextet ns → sextets (map encode_sextet ns) ≡ some ns
unfolding sextets encode_sextet
sextets-map [] h = refl
sextets-map (n ∷ ns) (h, hs) = ground (arith, decode_sextet-encode_sextet n h, sextets-map ns hs)

bytes-map : (ns : List ℕ) → All IsSextet ns → all shortcode_byte (map encode_sextet ns) ≡ true
bytes-map [] h = refl
bytes-map (n ∷ ns) (h, hs) = ground (arith, encode_sextet-byte n h, bytes-map ns hs)

-- The encoding of bytes is read back as the same bytes.
pub decode-encode : (s : Text) → All IsByte s → decode (encode s) ≡ some s
unfolding decode
decode-encode s h =
    let read = sextets-map (regroup s) (regroup-All s h) in
    rw (encode-regroup s, read) (decode_sextets-regroup s h)

pub encode-bytes : (s : Text) → All IsByte s → all shortcode_byte (encode s) ≡ true
encode-bytes s h = rw (encode-regroup s) (bytes-map (regroup s) (regroup-All s h))
