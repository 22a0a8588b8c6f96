-- ===== src/Hex/RoundTrip.antt =====
-- Decoding what was encoded, and the order of the encoded texts.
use colossus_x.Prelude.{ℕ, ◌+◌, ◌*◌, ◌/◌, ◌%◌, ◌<◌, ◌≡◌, refl, ap, some, [], ◌∷◌, arith, length, ok}
use colossus_x.Bytes.{Bytes, All, IsArray}
use colossus_x.Hex.{hex_digit, hex_encode, hex_value, hex_decode}

hex_value-hex_digit : (v : ℕ) → v < 16 → hex_value (hex_digit v) ≡ some v
unfolding hex_value hex_digit
hex_value-hex_digit v h = ground arith

-- DecodeString gives back the bytes that EncodeToString wrote.
pub hex_decode-hex_encode : (b : Bytes) → All (λ x. x < 256) b → hex_decode (hex_encode b) ≡ ok b
unfolding hex_decode hex_encode
hex_decode-hex_encode [] h = refl
hex_decode-hex_encode (x ∷ b) h =
    let hi = hex_value-hex_digit (x / 16) (omega (arith, h.0)) in
    let lo = hex_value-hex_digit (x % 16) (omega arith) in
    let byte : x / 16 * 16 + x % 16 ≡ x = omega arith in
    rw (hi, lo, hex_decode-hex_encode b h.1, byte)

pub length-hex_encode : (b : Bytes) → length (hex_encode b) ≡ 2 * length b
unfolding hex_encode
length-hex_encode [] = refl
length-hex_encode (x ∷ b) = omega (arith, length-hex_encode b)

pub hex_encode-injective :
    (a b : Bytes) → IsArray 32 a → IsArray 32 b → hex_encode a ≡ hex_encode b → a ≡ b
hex_encode-injective a b p q e =
    let left = hex_decode-hex_encode a p.bytes in
    let right = hex_decode-hex_encode b q.bytes in let same = ap hex_decode e in cc
