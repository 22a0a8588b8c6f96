-- ===== src/Chain/Memory.antt =====
-- pkg/chain/memory.go: MemoryStore. A Go map is a function into Option. The lock makes every method
-- one step.
use colossus_x.Prelude.{
  ℕ, Bool, true, false, ◌&&◌, Option, none, some, ◌==◌, if◌then◌else◌, Result, ok, err, ◌>>=◌,
  block_not_found,
}
use colossus_x.Prelude.{[]}
use colossus_x.Prelude.Int.{pos}
use colossus_x.Bytes.{Bytes, bytes_eq, zero_hash}
use colossus_x.Crypto.{Crypto}
use colossus_x.Types.{Block, BlockHeader, block_hash}
use colossus_x.Chain.{Store}

pub record MemoryStore : Type 0 where
  pub genesis_hash : Bytes
  pub tip : Bytes
  pub blocks : Bytes → Option Block
  pub heights : ℕ → Option Bytes
  pub works : Bytes → Option ℕ

-- NewMemoryStore
abbrev pub new_memory_store : MemoryStore
new_memory_store = record {
  genesis_hash = zero_hash;
  tip = zero_hash;
  blocks = λ _. none;
  heights = λ _. none;
  works = λ _. none;
}

-- m[k] = v, for the two kinds of key
abbrev pub put {ℓ} : {V : Type ℓ} → (Bytes → Option V) → Bytes → V → Bytes → Option V
put m k v j = if bytes_eq k j then some v else m j

abbrev pub put_height {ℓ} : {V : Type ℓ} → (ℕ → Option V) → ℕ → V → ℕ → Option V
put_height m k v j = if k == j then some v else m j

-- `v, ok := m[k]; if !ok { return ErrBlockNotFound }`
abbrev pub or_not_found {ℓ} : {V : Type ℓ} → Option V → Result V
or_not_found none = err block_not_found
or_not_found (some v) = ok v

module _ (c : Crypto) where
  -- StoreBlock
  unfoldable pub store_block : MemoryStore → Block → ℕ → MemoryStore
  store_block m block work =
      let hash = block_hash c block in
      record {
        genesis_hash =
            if block.header.height == 0 && bytes_eq m.genesis_hash zero_hash
            then hash
            else m.genesis_hash;
        tip = if bytes_eq m.tip zero_hash then hash else m.tip;
        blocks = put m.blocks hash block;
        heights = put_height m.heights block.header.height hash;
        works = put m.works hash work;
      }

-- GetBlock
unfoldable pub get_block : MemoryStore → Bytes → Result Block
get_block m hash = or_not_found (m.blocks hash)

-- GetHeader
unfoldable pub get_header : MemoryStore → Bytes → Result BlockHeader
unfolding get_block
get_header m hash = do block ← get_block m hash; ok block.header

-- m.blocks[hash], which is the zero block on a missing key
abbrev pub block_or : Block → Option Block → Block
block_or d none = d
block_or d (some b) = b

abbrev pub work_or_zero : Option ℕ → ℕ
work_or_zero none = 0
work_or_zero (some w) = w

-- Block{}
abbrev pub zero_block : Block
zero_block = record {
  header = record {
    version = 0;
    algorithm_version = 0;
    height = 0;
    parent_hash = zero_hash;
    timestamp = pos 0;
    target = zero_hash;
    nonce = 0;
    epoch_seed = zero_hash;
    dag_size_bytes = 0;
    dag_merkle_root = zero_hash;
    tx_root = zero_hash;
    state_root = zero_hash;
  };
  transactions = [];
  solution = none;
  compact = none;
}

-- GetBlockByHeight
unfoldable pub get_block_by_height : MemoryStore → ℕ → Result Block
get_block_by_height m height = do
  hash ← or_not_found (m.heights height)
  ok (block_or zero_block (m.blocks hash))

-- CurrentTip
unfoldable pub current_tip : MemoryStore → Result (Block × ℕ)
current_tip m =
    if bytes_eq m.tip zero_hash
    then err block_not_found
    else ok (block_or zero_block (m.blocks m.tip), work_or_zero (m.works m.tip))

-- HasBlock
unfoldable pub has_block : MemoryStore → Bytes → Bool
has_block m hash = elim (m.blocks hash) [ none ↦ false | some _ ↦ true ]

-- SetCurrentTip
unfoldable pub set_current_tip : MemoryStore → Bytes → Result (Unit {0}) × MemoryStore
unfolding has_block
set_current_tip m hash =
    if has_block m hash then (ok tt, record m { tip = hash }) else (err block_not_found, m)

-- TotalWork
unfoldable pub total_work : MemoryStore → Bytes → Result ℕ
total_work m hash = or_not_found (m.works hash)

-- *MemoryStore as a Store
abbrev pub memory_store : Crypto → Store MemoryStore
memory_store c = record {
  store_block = λ m block work. (ok tt, store_block c m block work);
  get_block = get_block;
  get_header = get_header;
  get_block_by_height = get_block_by_height;
  current_tip = current_tip;
  set_current_tip = set_current_tip;
  total_work = total_work;
  has_block = has_block;
}
