-- ===== src/Consensus/Insert.antt =====
-- pkg/consensus/validator.go: InsertBlock, over any store. Each step returns the store with its
-- result, so that what was written before an error stays written.
pub mod Weights
pub mod Memory
pub mod Keeps
pub mod Tips
use colossus_x.Prelude.{
  ℕ, ◌+◌, Bool, true, false, arith, ◌==◌, if◌then◌else◌, Result, ok, err, panic, ◌>>=◌,
}
use colossus_x.Prelude.Int.{ℤ}
use colossus_x.Bytes.{Bytes, bytes_eq}
use colossus_x.Crypto.{Crypto}
use colossus_x.Types.{Block, block_hash}
use colossus_x.Chain.{Store}
use colossus_x.Consensus.Work.{calc_block_work, select_best_chain}
use colossus_x.Consensus.Header.{Validator, validate_block}

-- `if err != nil { return err }` in code that holds a store
abbrev pub and_then {ℓ κ} :
    {S : Type 0} {A : Type ℓ} {B : Type κ} → Result A → S → (A → Result B × S) → Result B × S
and_then (ok a) s f = f a
and_then (err e) s f = (err e, s)
and_then panic s f = (panic, s)

module _ (c : Crypto) {S : Type 0} (ops : Store S) where
  -- the total work of a new block
  unfoldable pub total_work_of : S → Block → Result ℕ
  total_work_of s block =
      if block.header.height == 0 then ok (calc_block_work block.header.target) else (do
        parent ← ops.total_work s block.header.parent_hash
        ok (calc_block_work block.header.target + parent))

  -- SetCurrentTip of the new block, which then is the best
  unfoldable pub move_tip : S → Bytes → ℕ → Result (ℕ × Bool) × S
  move_tip s hash total =
      let (moved, s') = ops.set_current_tip s hash in and_then moved s' λ _. (ok (total, true), s')

  -- the choice of the tip, once the block is stored
  unfoldable pub choose_tip : S → Bytes → ℕ → Result (ℕ × Bool) × S
  choose_tip s hash total = elim (ops.current_tip s) [
    | err _ ↦ move_tip s hash total
    | panic ↦ (panic, s)
    | ok (current, work) ↦
        if bytes_eq (select_best_chain (block_hash c current) work hash total) hash
        then move_tip s hash total
        else (ok (total, false), s)
  ]

  -- InsertBlock of a valid block that the store does not have
  unfoldable pub insert_new : S → Block → Result (ℕ × Bool) × S
  insert_new s block = and_then (total_work_of s block) s λ total.
      let (stored, s') = ops.store_block s block total in
      and_then stored s' λ _. choose_tip s' (block_hash c block) total

  -- InsertBlock past the validation
  unfoldable pub insert_valid : S → Block → Result (ℕ × Bool) × S
  insert_valid s block =
      if ops.has_block s (block_hash c block)
      then ((do work ← ops.total_work s (block_hash c block); ok (work, false)), s)
      else insert_new s block

  -- InsertBlock: the total work of the block, and whether it is the new tip
  unfoldable pub insert_block : ℤ → Validator → S → Block → Result (ℕ × Bool) × S
  insert_block now v s block =
      and_then (validate_block c ops now v s block) s λ _. insert_valid s block
