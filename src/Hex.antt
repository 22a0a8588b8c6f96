-- ===== src/Hex.antt =====
-- encoding/hex, as the program uses it: EncodeToString and DecodeString over the bytes of a text.
pub mod RoundTrip
use colossus_x.Prelude.{
  ℕ, ◌+◌, ◌-◌, ◌*◌, ◌/◌, ◌%◌, Bool, true, false, ◌&&◌, Option, none, some, [], ◌∷◌, ltb, leb,
  if◌then◌else◌, Result, ok, err, panic, ◌>>=◌, bad_hex,
}
use colossus_x.Bytes.{Bytes}

unfoldable pub hex_digit : ℕ → ℕ
hex_digit v = if ltb v 10 then v + b'0' else v - 10 + b'a'

unfoldable pub hex_encode : Bytes → Bytes
hex_encode [] = []
hex_encode (b ∷ r) = hex_digit (b / 16) ∷ hex_digit (b % 16) ∷ hex_encode r

-- the value of a digit, in either case
unfoldable pub hex_value : ℕ → Option ℕ
hex_value c =
    if leb b'0' c && leb c b'9'
    then some (c - b'0')
    else if leb b'a' c && leb c b'f'
    then some (c - b'a' + 10)
    else if leb b'A' c && leb c b'F'
    then some (c - b'A' + 10)
    else none

abbrev join_digits : Option ℕ → Option ℕ → Result ℕ
join_digits none lo = err bad_hex
join_digits (some hi) none = err bad_hex
join_digits (some hi) (some lo) = ok (hi * 16 + lo)

-- an odd digit and a byte that is no digit are errors
unfoldable pub hex_decode : Bytes → Result Bytes
hex_decode [] = ok []
hex_decode (c ∷ []) = err bad_hex
hex_decode (c ∷ d ∷ r) = do
  b ← join_digits (hex_value c) (hex_value d)
  rest ← hex_decode r
  ok (b ∷ rest)
