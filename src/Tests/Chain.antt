-- ===== src/Tests/Chain.antt =====
-- A chain on a memory store.
use colossus_x.Prelude.{inl, ◌≡◌, ◌≢◌, ◌↔◌, refl, false, List, [], ◌∷◌, replicate, arith, ok}
use colossus_x.Prelude.Int.{ℤ, pos}
use colossus_x.Bytes.{Bytes, bytes_eq, bytes_eq_iff, zeros, zero_hash}
use colossus_x.Spec.{Spec, InRange, colossus_x_spec, initial_dag_size, growth_dag_size_per_epoch}
use colossus_x.Spec.Validate.{IsValid}
use colossus_x.Bytes.Words.{be_bytes}
use colossus_x.Types.{
  to_uint64, BlockHeader, Block, header_hash, block_hash, encode, encode_for_mining,
}
use colossus_x.Chain.Memory.{new_memory_store, memory_store}
use colossus_x.Consensus.Header.{Validator, validate_linkage, header_block}
use colossus_x.Consensus.Header.Rules.{LinkageOk, validate_linkage_iff}
use colossus_x.Consensus.Insert.Memory.{Inv}
use colossus_x.Consensus.Insert.Tips.{insert_all, insert_all_lem, insert_all-same_tip}
use colossus_x.Tests.Hashes.{toy_crypto, toy_crypto-HasSizes, toy}

-- a specification of the lattice hash, whose mode is left out
abbrev pub light_spec : Spec
light_spec = record colossus_x_spec {
  mode = "";
  dag_size_bytes = 512;
  initial_dag_size_bytes = 512;
  dag_growth_bytes_per_epoch = 256;
  epoch_blocks = 100;
  algorithm_version = 1;
}

-- a validator whose backend finds every nonce good enough
abbrev pub a_validator : Validator
a_validator = record {
  config = record { network_id = []; spec = light_spec };
  alloc = λ size. ok size;
  backend_hash = λ spec header nonce dag. ok (record { pow256 = zeros 32; full512 = zeros 64 });
}

abbrev pub root_header : BlockHeader
root_header = record {
  version = 1;
  algorithm_version = 1;
  height = 0;
  parent_hash = zero_hash;
  timestamp = pos 1700000000;
  target = replicate 32 255;
  nonce = 0;
  epoch_seed = toy 32 (zeros 40);
  dag_size_bytes = 512;
  dag_merkle_root = zero_hash;
  tx_root = zero_hash;
  state_root = zero_hash;
}

pub light_spec-IsValid : IsValid light_spec
unfolding initial_dag_size growth_dag_size_per_epoch
light_spec-IsValid = record {
  initial_pos = omega arith;
  node_fixed = refl;
  reads_pos = omega arith;
  epoch_pos = omega arith;
  initial_aligned = refl;
  growth_aligned = refl;
  mode_known = inl refl;
}

pub light_spec-InRange : InRange light_spec
light_spec-InRange = record {
  size = omega arith;
  initial = omega arith;
  growth = omega arith;
  reads = omega arith;
  epoch = omega arith;
}

abbrev pub root_block : Block
root_block = header_block toy_crypto root_header

pub differs : (a b : Bytes) → bytes_eq a b ≡ false → a ≢ b
differs a b other e = let yes = (bytes_eq_iff a b).1 e in cc

root_fresh : block_hash toy_crypto root_block ≢ zero_hash
unfolding header_hash encode encode_for_mining be_bytes bytes_eq to_uint64
root_fresh = differs (block_hash toy_crypto root_block) zero_hash refl

validate_linkage_example :
    (validate_linkage toy_crypto
        (memory_store toy_crypto)
        (pos 1700000000)
        a_validator
        new_memory_store
        root_header
      ≡ ok tt)
    ↔ LinkageOk toy_crypto
        (memory_store toy_crypto)
        (pos 1700000000)
        a_validator
        new_memory_store
        root_header
validate_linkage_example =
    validate_linkage_iff toy_crypto (memory_store toy_crypto) (pos 1700000000) a_validator
      new_memory_store root_header light_spec-IsValid light_spec-InRange

abbrev pub a_run : List (ℤ × Block)
a_run = (pos 1700000000, root_block) ∷ []

insert_all_example : Inv toy_crypto (insert_all toy_crypto a_validator new_memory_store a_run)
insert_all_example =
    insert_all_lem toy_crypto toy_crypto-HasSizes a_validator a_run (root_fresh, tt)

insert_all-same_tip_example :
    (insert_all toy_crypto a_validator new_memory_store a_run).tip
    ≡ (insert_all toy_crypto a_validator new_memory_store a_run).tip
insert_all-same_tip_example =
    insert_all-same_tip toy_crypto toy_crypto-HasSizes a_validator a_validator a_run a_run
      (root_fresh, tt) (root_fresh, tt) (λ h. refl)
