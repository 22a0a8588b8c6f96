-- ===== src/Consensus/Work/Choice.antt =====
-- The choice between two tips: more work wins, and the smaller hash breaks a tie.
use native.Mathlib.Nat.{le_antisymm, mul-le-mul_right}
use colossus_x.Prelude.{
  leb, ℕ, suc, sym, ap, subst, ◌∙◌, ◌+◌, ◌*◌, ◌/◌, ◌%◌, ◌^◌, ◌<◌, ◌≤◌, ◌≡◌, ◌⊎◌, ◌↔◌, inl, inr,
  refl, true, not, [], ◌∷◌, arith, length, ltb, Bool-cases,
}
use colossus_x.Bytes.{Bytes, All, IsArray}
use colossus_x.Bytes.Words.{from_be, from_be-cons, from_be-lt}
use colossus_x.Hex.{hex_digit, hex_encode}
use colossus_x.Target.{less_or_equal_be}
use colossus_x.Target.Order.{less_or_equal_be_iff}
use colossus_x.Consensus.Work.{bytes_lt, select_best_chain}

hex_digit-ltb : (u v : ℕ) → u < 16 → v < 16 → ltb (hex_digit u) (hex_digit v) ≡ ltb u v
unfolding hex_digit
hex_digit-ltb u v p q = ground arith

-- the texts of two hashes are in the order of their bytes
hex_encode-bytes_lt :
    (a b : Bytes)
    → All (λ x. x < 256) a
    → All (λ x. x < 256) b
    → bytes_lt (hex_encode a) (hex_encode b) ≡ bytes_lt a b
unfolding bytes_lt hex_encode
hex_encode-bytes_lt [] [] p q = refl
hex_encode-bytes_lt (x ∷ a) [] p q = refl
hex_encode-bytes_lt [] (y ∷ b) p q = refl
hex_encode-bytes_lt (x ∷ a) (y ∷ b) p q =
    let ih = hex_encode-bytes_lt a b p.1 q.1 in
    ground (
      arith,
      ih,
      hex_digit-ltb (x / 16) (y / 16),
      hex_digit-ltb (y / 16) (x / 16),
      hex_digit-ltb (x % 16) (y % 16),
      hex_digit-ltb (y % 16) (x % 16),
    )

bytes_lt-not_le : (a b : Bytes) → length a ≡ length b → bytes_lt a b ≡ not (less_or_equal_be b a)
unfolding bytes_lt less_or_equal_be
bytes_lt-not_le [] [] n = refl
bytes_lt-not_le [] (y ∷ b) n = absurd (omega arith)
bytes_lt-not_le (x ∷ a) [] n = absurd (omega arith)
bytes_lt-not_le (x ∷ a) (y ∷ b) n = ground (arith, bytes_lt-not_le a b)

not_above : (x y p m n : ℕ) → m < p → n < p → x * p + m ≡ y * p + n → x ≤ y
not_above x y p m n h k e = elim (Bool-cases (leb x y)) [
  | inl l ↦ ground arith
  | inr l ↦
      let above : suc y ≤ x = ground arith in
      let scaled = mul-le-mul_right p above in absurd (omega (arith, scaled))
]

from_be-split : (x y p m n : ℕ) → m < p → n < p → x * p + m ≡ y * p + n → (x ≡ y) × (m ≡ n)
from_be-split x y p m n h k e =
    let same : x ≡ y = le_antisymm (not_above x y p m n h k e) (not_above y x p n m k h (sym e)) in
    let scaled : x * p ≡ y * p = ap (λ t. t * p) same in (same, omega (arith, scaled))

from_be-injective_of_size :
    (a b : Bytes)
    → length a ≡ length b
    → All (λ x. x < 256) a
    → All (λ x. x < 256) b
    → from_be a ≡ from_be b
    → a ≡ b
from_be-injective_of_size [] [] n p q e = refl
from_be-injective_of_size [] (y ∷ b) n p q e = absurd (omega arith)
from_be-injective_of_size (x ∷ a) [] n p q e = absurd (omega arith)
from_be-injective_of_size (x ∷ a) (y ∷ b) n p q e =
    let same : length a ≡ length b = omega arith in
    let power : 256 ^ length a ≡ 256 ^ length b = ap (λ k. 256 ^ k) same in
    let parts =
      from_be-split x y (256 ^ length a) (from_be a) (from_be b) (from_be-lt a p.1)
        (subst (λ (k : ℕ). from_be b < k) (sym power) (from_be-lt b q.1))
        (sym (from_be-cons x a) ∙ e ∙ from_be-cons y b ∙ ap (λ k. y * k + from_be b) (sym power)) in
    let rest = from_be-injective_of_size a b same p.1 q.1 parts.1 in cc

pub from_be-injective : (a b : Bytes) → IsArray 32 a → IsArray 32 b → from_be a ≡ from_be b → a ≡ b
from_be-injective a b p q e =
    from_be-injective_of_size a b (omega (arith, p.size, q.size)) p.bytes q.bytes e

bytes_lt-decides :
    (a b : Bytes)
    → IsArray 32 a
    → IsArray 32 b
    → (bytes_lt (hex_encode a) (hex_encode b) ≡ true) ↔ (from_be a < from_be b)
bytes_lt-decides a b p q =
    let order = less_or_equal_be_iff b a (omega (arith, p.size, q.size)) q.bytes p.bytes in
    let text = hex_encode-bytes_lt a b p.bytes q.bytes in
    let flip = bytes_lt-not_le a b (omega (arith, p.size, q.size)) in
    elim (Bool-cases (less_or_equal_be b a)) [
      | inl e ↦ ground (arith, order, text, flip, e)
      | inr e ↦ ground (arith, order, text, flip, e)
    ]

-- SelectBestChainByTotalWork, for 32-byte hashes, takes the candidate exactly when it has more total
-- work, or the same work and the hash that is smaller as a big-endian number; it keeps the
-- current tip otherwise.
pub select_best_chain_lem :
    (a b : Bytes) (v w : ℕ)
    → IsArray 32 a
    → IsArray 32 b
    → ((v < w) ⊎ ((v ≡ w) × (from_be b < from_be a)) → select_best_chain a v b w ≡ b)
      × ((w < v) ⊎ ((v ≡ w) × (from_be a ≤ from_be b)) → select_best_chain a v b w ≡ a)
unfolding select_best_chain
select_best_chain_lem a b v w p q =
    let tie = bytes_lt-decides b a q p in
    elim (Bool-cases (bytes_lt (hex_encode b) (hex_encode a))) [
      | inl e ↦ (λ h. ground (arith, tie, e), λ h. ground (arith, tie, e))
      | inr e ↦ (λ h. ground (arith, tie, e), λ h. ground (arith, tie, e))
    ]

-- Two nodes that see two tips in opposite orders end on the same tip, for 32-byte hashes.
select_best_chain_comm :
    (a b : Bytes) (v w : ℕ)
    → IsArray 32 a
    → IsArray 32 b
    → select_best_chain a v b w ≡ select_best_chain b w a v
unfolding select_best_chain
select_best_chain_comm a b v w p q =
    let one = bytes_lt-decides b a q p in
    let two = bytes_lt-decides a b p q in
    let same = from_be-injective a b p q in
    elim (Bool-cases (bytes_lt (hex_encode b) (hex_encode a))) [
      | inl e ↦ elim (Bool-cases (bytes_lt (hex_encode a) (hex_encode b))) [
        | inl d ↦ ground (arith, one, two, e, d)
        | inr d ↦ ground (arith, one, two, e, d)
      ]
      | inr e ↦ elim (Bool-cases (bytes_lt (hex_encode a) (hex_encode b))) [
        | inl d ↦ ground (arith, one, two, e, d)
        | inr d ↦ ground (arith, one, two, same, e, d)
      ]
    ]
