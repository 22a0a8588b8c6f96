-- ===== src/Target/Order.antt =====
-- The comparison of digests with targets is the order of the numbers, and targets read back.
use colossus_x.Prelude.{
  ℕ, ◌+◌, ◌*◌, ◌^◌, ◌<◌, ◌≤◌, ◌≡◌, ◌↔◌, refl, ap, true, [], ◌∷◌, arith, length, ok,
}
use colossus_x.Bytes.{Bytes, All, IsArray}
use colossus_x.Bytes.Words.{from_be, from_be-cons, from_be-lt}
use colossus_x.Hex.RoundTrip.{hex_decode-hex_encode}
use colossus_x.Target.{parse_target_hex, target_string, less_or_equal_be}

high_lt : (x y p a : ℕ) → x < y → a < p → x * p + a < y * p
high_lt x y p a h k = grind arith

-- LessOrEqualBE decides the order of the big-endian numbers: two arrays of bytes of one size pass
-- exactly when the first is at most the second.
pub less_or_equal_be_iff :
    (a b : Bytes)
    → length a ≡ length b
    → All (λ x. x < 256) a
    → All (λ x. x < 256) b
    → (less_or_equal_be a b ≡ true) ↔ (from_be a ≤ from_be b)
unfolding less_or_equal_be
less_or_equal_be_iff [] [] n p q = (λ _. omega arith, λ _. refl)
less_or_equal_be_iff [] (y ∷ b) n p q = absurd (omega arith)
less_or_equal_be_iff (x ∷ a) [] n p q = absurd (omega arith)
less_or_equal_be_iff (x ∷ a) (y ∷ b) n p q =
    let same : length a ≡ length b = omega arith in
    let power : 256 ^ length a ≡ 256 ^ length b = ap (λ k. 256 ^ k) same in
    ground (
      arith,
      from_be-cons x a,
      from_be-cons y b,
      power,
      less_or_equal_be_iff a b same p.1 q.1,
      from_be-lt a p.1,
      from_be-lt b q.1,
      high_lt x y (256 ^ length a) (from_be a),
      high_lt y x (256 ^ length a) (from_be b),
    )

-- ParseTargetHex reads back what Target.String writes, for every 32-byte target.
pub parse_target_hex-target_string :
    (t : Bytes) → IsArray 32 t → parse_target_hex (target_string t) ≡ ok t
unfolding parse_target_hex
parse_target_hex-target_string t h = rw (hex_decode-hex_encode t h.bytes, h.size)
