-- ===== src/Consensus/Header.antt =====
-- pkg/consensus/validator.go: validateEpochParameters, validateHeader, validatePoW, ValidateHeader
-- and ValidateBlock, for a validator whose caches are empty. `alloc` is the size of the buffer
-- that the validator's allocator returns, `now` the reading of the clock in seconds, and
-- `backend_hash` the Hash of the validator's backend, for which CPUBackend's is given. The text
-- that a returned error wraps is left out; the kind that it has in errors.Is is kept.
pub mod Rules
use text.Mathlib.Text.{◌==◌ as str_eq}
use colossus_x.Prelude.{
  ℕ, ◌+◌, ◌-◌, ◌%◌, ◌^◌, Bool, true, false, ◌&&◌, ◌||◌, not, Option, none, some, List, [], arith,
  Error, ltb, leb, ◌==◌, if◌then◌else◌, Result, ok, err, panic, ◌>>=◌, ◌>>◌, require,
  invalid_parent, invalid_timestamp, invalid_target, invalid_pow, invalid_epoch,
}
use colossus_x.Prelude.Int.{ℤ, pos, ltb_ℤ, ◌+ℤ◌}
use colossus_x.Bytes.{Bytes, bytes_eq, zero_hash}
use colossus_x.Crypto.{Crypto}
use colossus_x.Spec.{
  Spec, dag_size_for_height, resolved_for_height, validate, mode_colossus_x,
  colossus_x_epoch_grace_blocks,
}
use colossus_x.Types.{Block, BlockHeader, ChainConfig, epoch_seed_for_height, encode_for_mining}
use colossus_x.Chain.{Store}
use colossus_x.Target.{less_or_equal_be}
use colossus_x.Hash.{DagAccessor, HashResult, colossus_x_hash, lattice_hash}
use colossus_x.Dag.{new_dag_with_allocator, generate_dag, dag_cells}
use colossus_x.Merkle.{streaming_root}
use colossus_x.Solution.{Solution, verify_solution, expand_solution}

-- a call that fails becomes an error of the given kind
abbrev pub wrap {ℓ} : {A : Type ℓ} → Result A → Error → Result A
wrap (ok a) e = ok a
wrap (err _) e = err e
wrap panic e = panic

-- what the validator is built with
pub record Validator : Type 0 where
  pub config : ChainConfig
  pub alloc : ℕ → Result ℕ
  pub backend_hash : Spec → Bytes → Option ℕ → DagAccessor → Result HashResult

module _ (c : Crypto) where
  -- CPUBackend.Hash
  unfoldable pub cpu_backend_hash : Spec → Bytes → Option ℕ → DagAccessor → Result HashResult
  cpu_backend_hash spec header nonce dag =
      if leb 2 spec.algorithm_version
      then colossus_x_hash c spec header nonce dag
      else lattice_hash c spec header nonce dag

  -- NewValidator: with no backend given the CPU one hashes; the allocator is sliceAllocator, whose
  -- buffers have the size asked for
  unfoldable pub new_validator :
      ChainConfig
      → Option (Spec → Bytes → Option ℕ → DagAccessor → Result HashResult)
      → Result Validator
  new_validator config backend = do
    validate config.spec
    ok (record {
      config = config;
      alloc = λ size. ok size;
      backend_hash = elim backend [ none ↦ cpu_backend_hash | some hash ↦ hash ];
    })

  -- the size and the seed that a height has
  unfoldable pub epoch_matches : Spec → BlockHeader → ℕ → Result Bool
  epoch_matches spec header height = do
    size ← dag_size_for_height spec height
    ok (
        (header.dag_size_bytes == size)
        && bytes_eq header.epoch_seed (epoch_seed_for_height c spec height))

  -- validateEpochParameters past the test of the current epoch
  unfoldable pub previous_epoch : Spec → BlockHeader → Result (Unit {0})
  previous_epoch spec header = do
    require (not (spec.epoch_blocks == 0)) invalid_epoch
    require (leb spec.epoch_blocks header.height) invalid_epoch
    require (ltb (header.height % spec.epoch_blocks) colossus_x_epoch_grace_blocks) invalid_epoch
    previous ← epoch_matches spec header (header.height - spec.epoch_blocks)
    require previous invalid_epoch

  -- validateEpochParameters
  unfoldable pub validate_epoch_parameters : Spec → BlockHeader → Result (Unit {0})
  validate_epoch_parameters spec header = do
    current ← epoch_matches spec header header.height
    if current then ok tt else previous_epoch spec header

  -- header.AlgorithmVersion >= 2 || v.config.Spec.Mode == cx.ModeColossusX
  abbrev pub is_colossus_x : Spec → BlockHeader → Bool
  is_colossus_x spec header = leb 2 header.algorithm_version || str_eq spec.mode mode_colossus_x

  -- cachedDAGForHeader on a missing entry: the spec of the DAG and its nodes
  unfoldable pub dag_for_header : Validator → BlockHeader → Result (Spec × DagAccessor)
  dag_for_header v header = do
    resolved ← resolved_for_height v.config.spec header.height
    let spec = record resolved { dag_size_bytes = header.dag_size_bytes }
    size ← new_dag_with_allocator v.alloc spec
    dag ← generate_dag c spec size header.epoch_seed
    ok (spec, dag)

  -- merkleRootForDAG on a missing entry
  unfoldable pub merkle_root_for_dag : DagAccessor → Result Bytes
  merkle_root_for_dag dag = do cells ← dag_cells dag; ok (streaming_root c.blake3 cells)

  -- validateDAGMerkleRoot
  unfoldable pub validate_dag_merkle_root : Validator → BlockHeader → Result (Unit {0})
  validate_dag_merkle_root v header = do
    (spec, dag) ← dag_for_header v header
    root ← merkle_root_for_dag dag
    require (bytes_eq root header.dag_merkle_root) invalid_pow

  -- the solution of a block: the full one, or the compact one expanded
  unfoldable pub block_solution : Block → Result Solution
  block_solution block = elim block.solution [
    | some s ↦ ok s
    | none ↦ elim block.compact [
      | some s ↦ wrap (expand_solution s) invalid_pow
      | none ↦ err invalid_pow
    ]
  ]

  -- the two branches of validatePoW
  unfoldable pub colossus_x_pow : Spec → DagAccessor → Block → Result (Unit {0})
  colossus_x_pow spec dag block = do
    solution ← block_solution block
    root ← merkle_root_for_dag dag
    require (bytes_eq root block.header.dag_merkle_root) invalid_pow
    wrap (verify_solution c spec (encode_for_mining block.header) block.header.target root solution)
        invalid_pow

  unfoldable pub backend_pow : Validator → Spec → DagAccessor → BlockHeader → Result (Unit {0})
  backend_pow v spec dag header = do
    hash ← v.backend_hash spec (encode_for_mining header) (some header.nonce) dag
    require (less_or_equal_be hash.pow256 header.target) invalid_pow

  -- validatePoW
  unfoldable pub validate_pow : Validator → Block → Result (Unit {0})
  validate_pow v block = do
    (spec, dag) ← dag_for_header v block.header
    if is_colossus_x v.config.spec block.header
        then colossus_x_pow spec dag block
        else backend_pow v spec dag block.header

  -- types.Block{Header: header}
  abbrev pub header_block : BlockHeader → Block
  header_block header = record {
    header = header;
    transactions = [];
    solution = none;
    compact = none;
  }

  module _ {S : Type 0} (ops : Store S) (now : ℤ) (v : Validator) (store : S) where
    unfoldable pub validate_child : BlockHeader → Result (Unit {0})
    validate_child header = do
      parent ← wrap (ops.get_header store header.parent_hash) invalid_parent
      require ((parent.height + 1) % 2 ^ 64 == header.height) invalid_parent
      require (ltb_ℤ parent.timestamp header.timestamp) invalid_timestamp

    -- the tests of validateHeader against the parent
    unfoldable pub validate_parent : BlockHeader → Result (Unit {0})
    validate_parent header =
        if header.height == 0
        then require (bytes_eq header.parent_hash zero_hash) invalid_parent
        else validate_child header

    -- validateHeader before the proof of work
    unfoldable pub validate_linkage : BlockHeader → Result (Unit {0})
    validate_linkage header = do
      require (header.algorithm_version == v.config.spec.algorithm_version) invalid_epoch
      validate_epoch_parameters v.config.spec header
      require (not (bytes_eq header.target zero_hash)) invalid_target
      validate_parent header
      require (not (ltb_ℤ (now +ℤ pos 7200) header.timestamp)) invalid_timestamp

    -- the tests of validateHeader on the Merkle root of the DAG
    unfoldable pub validate_root : BlockHeader → Bool → Result (Unit {0})
    validate_root header verify_dag_merkle = do
      require (not (bytes_eq header.dag_merkle_root zero_hash)) invalid_pow
      if verify_dag_merkle then validate_dag_merkle_root v header else ok tt

    -- validateHeader
    unfoldable pub validate_header : BlockHeader → Bool → Result (Unit {0})
    validate_header header verify_dag_merkle = do
      validate_linkage header
      if is_colossus_x v.config.spec header
          then validate_root header verify_dag_merkle
          else validate_pow v (header_block header)

    -- ValidateHeader
    unfoldable pub validate_header_full : BlockHeader → Result (Unit {0})
    validate_header_full header = validate_header header true

    -- ValidateBlock
    unfoldable pub validate_block : Block → Result (Unit {0})
    validate_block block = do validate_header block.header false; validate_pow v block
