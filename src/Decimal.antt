-- ===== src/Decimal.antt =====
-- The decimal texts of numbers, as the program uses them: strconv.FormatUint, strconv.ParseUint with
-- 64 bits, `%d` of a uint64, and String and SetString of a big.Int.
pub mod RoundTrip
use colossus_x.Prelude.{
  ℕ, zero, suc, ◌+◌, ◌-◌, ◌*◌, ◌/◌, ◌%◌, ◌^◌, Bool, true, false, ◌&&◌, Option, none, some, List, [],
  ◌∷◌, ◌++◌, ltb, leb, if◌then◌else◌, Result, ok, err, bad_integer,
}
use colossus_x.Prelude.Int.{ℤ, pos, negsuc}
use colossus_x.Bytes.{Bytes}

-- the digits of a number below the fuel
unfoldable pub digits_upto : ℕ → ℕ → Bytes
digits_upto zero n = []
digits_upto (suc fuel) n = elim (ltb n 10) [
  | true ↦ (b'0' + n) ∷ []
  | false ↦ digits_upto fuel (n / 10) ++ ((b'0' + n % 10) ∷ [])
]

-- FormatUint(n, 10)
unfoldable pub format_uint : ℕ → Bytes
format_uint n = digits_upto (suc n) n

abbrev pub is_digit : ℕ → Bool
is_digit c = leb b'0' c && leb c b'9'

-- the number that the digits to come continue
unfoldable pub parse_digits : ℕ → Bytes → Option ℕ
parse_digits acc [] = some acc
parse_digits acc (c ∷ r) =
    let rest = parse_digits (acc * 10 + (c - b'0')) r in if is_digit c then rest else none

-- ParseUint(s, 10, 64): a number of 64 bits
abbrev word_or_error : Option ℕ → Result ℕ
word_or_error none = err bad_integer
word_or_error (some n) = if ltb n (2 ^ 64) then ok n else err bad_integer

unfoldable pub parse_uint : Bytes → Result ℕ
parse_uint [] = err bad_integer
parse_uint (c ∷ r) = word_or_error (parse_digits 0 (c ∷ r))

-- SetString(s, 10) past the sign
abbrev natural : Bytes → Option ℕ
natural [] = none
natural (c ∷ r) = parse_digits 0 (c ∷ r)

abbrev negative : ℕ → ℤ
negative zero = pos 0
negative (suc n) = negsuc n

abbrev positive_or_error : Option ℕ → Result ℤ
positive_or_error none = err bad_integer
positive_or_error (some n) = ok (pos n)

abbrev negative_or_error : Option ℕ → Result ℤ
negative_or_error none = err bad_integer
negative_or_error (some n) = ok (negative n)

-- SetString(s, 10), with one sign before the digits at most
unfoldable pub set_string : Bytes → Result ℤ
set_string [] = err bad_integer
set_string (c ∷ r) =
    if leb b'-' c && leb c b'-'
    then negative_or_error (natural r)
    else if leb b'+' c && leb c b'+'
    then positive_or_error (natural r)
    else positive_or_error (natural (c ∷ r))
