-- ===== src/Chain.antt =====
-- pkg/chain: the interface of a block store, as a record of its operations. An operation that
-- changes the store returns the store with its result, since what was written before an error stays
-- written. `S` is the state behind the interface. Total work is a big integer that is never negative.
pub mod Memory
pub mod Codec
pub mod Disk
use colossus_x.Prelude.{ℕ, Bool, Result}
use colossus_x.Bytes.{Bytes}
use colossus_x.Types.{Block, BlockHeader}

-- Store
pub record Store (S : Type 0) : Type 0 where
  pub store_block : S → Block → ℕ → Result (Unit {0}) × S
  pub get_block : S → Bytes → Result Block
  pub get_header : S → Bytes → Result BlockHeader
  pub get_block_by_height : S → ℕ → Result Block
  pub current_tip : S → Result (Block × ℕ)
  pub set_current_tip : S → Bytes → Result (Unit {0}) × S
  pub total_work : S → Bytes → Result ℕ
  pub has_block : S → Bytes → Bool
