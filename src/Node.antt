-- ===== src/Node.antt =====
-- pkg/node/node.go: the header that a node mines on its tip, and the handler of a received block.
-- Logs and broadcasts are left out. `now` is the reading of the clock in seconds; the text that is
-- hashed into the transaction root is a parameter, as fmt.Sprintf makes it.
pub mod Template
pub mod Handlers
pub mod Receive
pub mod Alone
use colossus_x.Prelude.{
  ℕ, ◌+◌, ◌%◌, ◌^◌, Bool, true, false, arith, if◌then◌else◌, Result, ok, err, panic, ◌>>=◌,
}
use colossus_x.Prelude.Int.{ℤ, pos, ltb_ℤ, ◌+ℤ◌}
use colossus_x.Bytes.{Bytes, bytes_eq, zero_hash}
use colossus_x.Hex.{hex_encode}
use colossus_x.Crypto.{Crypto}
use colossus_x.Spec.{Spec, resolved_for_height}
use colossus_x.Types.{Block, BlockHeader, block_hash, epoch_seed_for_height}
use colossus_x.Chain.{Store}
use colossus_x.Consensus.Header.{Validator}
use colossus_x.Consensus.Insert.{insert_block}

-- max
unfoldable pub max_time : ℤ → ℤ → ℤ
max_time a b = if ltb_ℤ b a then a else b

-- the end of onNewBlock: the status is broadcast for a new tip, an error is logged
abbrev pub after_insert : {S : Type 0} → Result (ℕ × Bool) × S → Result Bool × S
after_insert (ok (_, became_tip), s) = (ok became_tip, s)
after_insert (err _, s) = (ok false, s)
after_insert (panic, s) = (panic, s)

module _ (c : Crypto) where
  -- the header of mineNextBlock, for the spec resolved at its height
  abbrev pub template : Spec → Bytes → ℤ → (ℕ → Bytes) → Block → BlockHeader
  template resolved bits now height_text tip =
      let height = (tip.header.height + 1) % 2 ^ 64 in
      record {
        version = 1;
        algorithm_version = resolved.algorithm_version;
        height = height;
        parent_hash = block_hash c tip;
        timestamp = max_time now (tip.header.timestamp +ℤ pos 1);
        target = bits;
        nonce = 0;
        epoch_seed = epoch_seed_for_height c resolved height;
        dag_size_bytes = resolved.dag_size_bytes;
        dag_merkle_root = zero_hash;
        tx_root = c.sha256 (height_text height);
        state_root = c.sha256 (hex_encode (block_hash c tip));
      }

  -- mineNextBlock up to SealBlock
  unfoldable pub next_header : Spec → Bytes → ℤ → (ℕ → Bytes) → Block → Result BlockHeader
  next_header spec bits now height_text tip = do
    resolved ← resolved_for_height spec ((tip.header.height + 1) % 2 ^ 64)
    ok (template resolved bits now height_text tip)

  -- onNewBlock, when nothing else uses the store: the store after it, and whether the status is
  -- broadcast. Node/Handlers has its calls of the store one by one.
  unfoldable pub on_new_block : {S : Type 0} → Store S → ℤ → Validator → S → Block → Result Bool × S
  on_new_block ops now v s block =
      if bytes_eq (block_hash c block) zero_hash
      then (ok false, s)
      else if ops.has_block s (block_hash c block)
      then (ok false, s)
      else after_insert (insert_block c ops now v s block)

  -- localStatus: the hash, the height and the total work of the tip. The work is sent in decimal.
  unfoldable pub local_status : {S : Type 0} → Store S → S → Result (Bytes × ℕ × ℕ)
  local_status ops s = do
    (tip, work) ← ops.current_tip s
    ok (block_hash c tip, tip.header.height, work)
