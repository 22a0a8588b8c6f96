-- ===== src/Types.antt =====
-- pkg/types/types.go: blocks, their encoding and hashes, the genesis block and the epoch seed.
-- A Unix time is an integer of 64 bits; a text is the list of its bytes.
pub mod Encoding
use colossus_x.Prelude.{
  ℕ, ◌+◌, ◌-◌, ◌/◌, ◌%◌, ◌^◌, ◌<◌, ◌≤◌, Option, none, some, List, [], ◌++◌, arith, ◌==◌,
  if◌then◌else◌, Result, ok, err, panic, ◌>>=◌,
}
use colossus_x.Prelude.Int.{ℤ, pos, negsuc, pos_part, neg_part}
use colossus_x.Bytes.{Bytes, IsArray, zero_hash}
use colossus_x.Bytes.Words.{be_bytes}
use colossus_x.Crypto.{Crypto}
use colossus_x.Spec.{Spec, resolved_for_height}
use colossus_x.Solution.{Solution, CompactSolution}

pub record BlockHeader : Type 0 where
  pub version : ℕ
  pub algorithm_version : ℕ
  pub height : ℕ
  pub parent_hash : Bytes
  pub timestamp : ℤ
  pub target : Bytes
  pub nonce : ℕ
  pub epoch_seed : Bytes
  pub dag_size_bytes : ℕ
  pub dag_merkle_root : Bytes
  pub tx_root : Bytes
  pub state_root : Bytes

-- the fields are values of their Go types
pub record IsHeader (h : BlockHeader) : Type 0 where
  pub version_word : h.version < 2 ^ 32
  pub algorithm_word : h.algorithm_version < 2 ^ 32
  pub height_word : h.height < 2 ^ 64
  pub parent_array : IsArray 32 h.parent_hash
  pub time_high : pos_part h.timestamp < 2 ^ 63
  pub time_low : neg_part h.timestamp ≤ 2 ^ 63
  pub target_array : IsArray 32 h.target
  pub nonce_word : h.nonce < 2 ^ 64
  pub seed_array : IsArray 32 h.epoch_seed
  pub size_word : h.dag_size_bytes < 2 ^ 64
  pub merkle_array : IsArray 32 h.dag_merkle_root
  pub tx_array : IsArray 32 h.tx_root
  pub state_array : IsArray 32 h.state_root

pub record Block : Type 0 where
  pub header : BlockHeader
  pub transactions : List Bytes
  pub solution : Option Solution
  pub compact : Option CompactSolution

pub record GenesisConfig : Type 0 where
  pub chain_id : Bytes
  pub message : Bytes
  pub timestamp : ℤ
  pub bits : Bytes
  pub spec : Spec
  pub extra_data : Bytes

pub record ChainConfig : Type 0 where
  pub network_id : Bytes
  pub spec : Spec

-- uint64(t) of an int64
unfoldable pub to_uint64 : ℤ → ℕ
to_uint64 (pos n) = n % 2 ^ 64
to_uint64 (negsuc n) = 2 ^ 64 - 1 - n % 2 ^ 64

-- EncodeForMining
unfoldable pub encode_for_mining : BlockHeader → Bytes
encode_for_mining h =
    be_bytes 4 h.version
    ++ (be_bytes 4 h.algorithm_version
        ++ (be_bytes 8 h.height
            ++ (h.parent_hash
                ++ (be_bytes 8 (to_uint64 h.timestamp)
                    ++ (h.target
                        ++ (h.epoch_seed
                            ++ (be_bytes 8 h.dag_size_bytes
                                ++ (h.dag_merkle_root ++ (h.tx_root ++ h.state_root)))))))))

-- Encode
unfoldable pub encode : BlockHeader → Bytes
encode h = encode_for_mining h ++ be_bytes 8 h.nonce

module _ (c : Crypto) where
  -- HeaderHash
  unfoldable pub header_hash : BlockHeader → Bytes
  header_hash h = c.sha256 (encode h)

  -- BlockHash
  abbrev pub block_hash : Block → Bytes
  block_hash b = header_hash b.header

  -- EpochSeedForHeight
  unfoldable pub epoch_seed_for_height : Spec → ℕ → Bytes
  epoch_seed_for_height spec height =
      let epoch = if spec.epoch_blocks == 0 then 0 else height / spec.epoch_blocks in
      c.sha3_256 (be_bytes 8 epoch ++ spec.genesis_hash)

  -- NewGenesisBlock
  unfoldable pub new_genesis_block : GenesisConfig → Result Block
  new_genesis_block cfg = do
    resolved ← resolved_for_height cfg.spec 0
    ok (record {
      header = record {
        version = 1;
        algorithm_version = resolved.algorithm_version;
        height = 0;
        parent_hash = zero_hash;
        timestamp = cfg.timestamp;
        target = cfg.bits;
        nonce = 0;
        epoch_seed = epoch_seed_for_height resolved 0;
        dag_size_bytes = resolved.dag_size_bytes;
        dag_merkle_root = zero_hash;
        tx_root = c.sha256 cfg.message;
        state_root = c.sha256 cfg.extra_data;
      };
      transactions = [];
      solution = none;
      compact = none;
    })
