-- ===== src/Nonce.antt =====
-- colossusx/nonce.go: the one implementation of Nonce, a uint64.
use colossus_x.Prelude.{
  ℕ, ◌+◌, ◌-◌, ◌^◌, ◌<◌, ◌≡◌, Option, none, some, ◌++◌, arith, ltb, if◌then◌else◌, ◌%◌,
}
use colossus_x.Bytes.{Bytes}
use colossus_x.Bytes.Words.{le_bytes}
use colossus_x.Spec.{max_uint64}

-- AppendTo
unfoldable pub append_to : ℕ → Bytes → Bytes
append_to n dst = dst ++ le_bytes 8 n

-- AddUint64: `nil, false` where the sum would leave the 64 bits
unfoldable pub add_uint64 : ℕ → ℕ → Option ℕ
add_uint64 n delta = if ltb (max_uint64 - n) delta then none else some ((n + delta) % 2 ^ 64)

-- AddUint64 never wraps: on two words it gives the sum where that is a word, and nothing otherwise.
pub add_uint64_lem :
    (n delta : ℕ)
    → n < 2 ^ 64
    → add_uint64 n delta ≡ (if ltb (n + delta) (2 ^ 64) then some (n + delta) else none)
unfolding add_uint64
add_uint64_lem n delta h = ground arith
