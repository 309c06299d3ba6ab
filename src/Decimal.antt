-- ===== src/Decimal.antt =====
-- `strconv.Itoa`, `strconv.FormatInt(n, 10)` and `strconv.ParseUint(s, 10, bits)` of the Go library, on
-- the natural numbers.
pub mod RoundTrip
use oginstagram.Base.{
  ℕ, zero, suc, ◌+◌, ◌-◌, ◌*◌, ◌/◌, ◌%◌, ◌^◌, List, [], ◌∷◌, ◌++◌, Option, none, some, ◌>>=◌, Bool,
  true, false, ltb, if◌then◌else◌,
}
use oginstagram.Base.Text.{Text, is_digit}

print : ℕ → ℕ → Text
print zero n = []
print (suc fuel) n = elim (ltb n 10) [
  | true ↦ (b'0' + n) ∷ []
  | false ↦ print fuel (n / 10) ++ (b'0' + n % 10) ∷ []
]

-- Every call divides by ten, so `n + 1` calls are enough.
unfoldable pub itoa : ℕ → Text
unfolding print
itoa n = print (suc n) n

-- The number that digits spell behind `n`.
unfoldable pub read : ℕ → Text → Option ℕ
read n [] = some n
read n (c ∷ s) = let rest = read (n * 10 + (c - b'0')) s in if is_digit c then rest else none

unfoldable pub parse_uint : ℕ → Text → Option ℕ
parse_uint bits [] = none
parse_uint bits (c ∷ s) = do n ← read 0 (c ∷ s); if ltb n (2 ^ bits) then some n else none
