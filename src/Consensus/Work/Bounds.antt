-- ===== src/Consensus/Work/Bounds.antt =====
-- The work of a block: a harder target is more work, and every target but zero is some.
use native.Mathlib.Nat.{mul_comm, mul-div-le, mul-le-mul_left, le-div_iff_mul-le}
use colossus_x.Prelude.{ℕ, ◌+◌, ◌*◌, ◌/◌, ◌^◌, ◌<◌, ◌≤◌, arith, subst}
use colossus_x.Bytes.{Bytes, IsArray}
use colossus_x.Bytes.Words.{from_be, from_be-lt}
use colossus_x.Consensus.Work.{calc_block_work}

div_anti : (a m n : ℕ) → 0 < m → m ≤ n → a / n ≤ a / m
div_anti a m n p h =
    let scaled : a / n * m ≤ a / n * n = mul-le-mul_left (a / n) h in
    (le-div_iff_mul-le p).1 (omega (arith, scaled, mul-div-le a n, mul_comm n (a / n)))

div_pos : (a n : ℕ) → 0 < n → n ≤ a → 1 ≤ a / n
div_pos a n p h = (le-div_iff_mul-le p).1 (omega arith)

from_be-lt_256 : (t : Bytes) → IsArray 32 t → from_be t < 2 ^ 256
from_be-lt_256 t a = subst (λ (k : ℕ). from_be t < 256 ^ k) a.size (from_be-lt t a.bytes)

-- CalcBlockWork grows as the target falls: of two targets that are not zero the smaller one is at
-- least as much work; every 32-byte target that is not zero is work between 1 and 2^255.
pub calc_block_work_bounds :
    (s t : Bytes)
    → IsArray 32 t
    → 0 < from_be s
    → from_be s ≤ from_be t
    → (calc_block_work t ≤ calc_block_work s)
      × (1 ≤ calc_block_work t)
      × (calc_block_work s ≤ 2 ^ 255)
unfolding calc_block_work
calc_block_work_bounds s t a p h =
    let room = from_be-lt_256 t a in
    let anti = div_anti (2 ^ 256) (from_be s + 1) (from_be t + 1) (omega arith) (omega arith) in
    let some = div_pos (2 ^ 256) (from_be t + 1) (omega arith) (omega arith) in
    let half = div_anti (2 ^ 256) 2 (from_be s + 1) (omega arith) (omega arith) in
    ground (arith, anti, some, half)
