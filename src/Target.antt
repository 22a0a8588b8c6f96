-- ===== src/Target.antt =====
-- colossusx/target.go: targets are 32 bytes, big-endian, and a digest is compared with one.
pub mod Order
use colossus_x.Prelude.{
  ℕ, Bool, true, false, not, [], ◌∷◌, length, ltb, ◌==◌, if◌then◌else◌, Result, ok, err, ◌>>=◌,
  ◌>>◌, require, bad_length, arith,
}
use colossus_x.Bytes.{Bytes}
use colossus_x.Hex.{hex_decode, hex_encode}

-- ParseTargetHex
unfoldable pub parse_target_hex : Bytes → Result Bytes
parse_target_hex s = do b ← hex_decode s; require (length b == 32) bad_length; ok b

-- Target.String
abbrev pub target_string : Bytes → Bytes
target_string t = hex_encode t

-- LessOrEqualBE, byte by byte from the most significant one
unfoldable pub less_or_equal_be : Bytes → Bytes → Bool
less_or_equal_be [] b = true
less_or_equal_be (x ∷ a) [] = true
less_or_equal_be (x ∷ a) (y ∷ b) =
    let rest = less_or_equal_be a b in if ltb x y then true else if ltb y x then false else rest
