-- ===== src/Consensus/Cache.antt =====
-- pkg/consensus/validator.go: the DAGs and the Merkle roots that a validator keeps. Every operation
-- returns the caches with its result. The lock makes each of them one step, and a DAG that leaves
-- the caches is closed. The names of allocators are ASCII texts, as those of the program are.
pub mod Keys
pub mod Made
pub mod Coherent
pub mod Keeps
pub mod Agrees
pub mod Runs
use text.Mathlib.Text.{◌==◌ as str_eq}
use colossus_x.Prelude.{
  ℕ, Bool, true, false, ◌||◌, Option, none, some, List, [], ◌∷◌, ◌++◌, length, leb, if◌then◌else◌,
  Result, with_state, ok, err, panic, ◌>>=◌, ◌>>◌, require, not, invalid_pow,
}
use colossus_x.Prelude.Int.{ℤ}
use colossus_x.Bytes.{Bytes, bytes_eq, zero_hash}
use colossus_x.Bytes.Maps.{lookup, insert, remove_keys}
use colossus_x.Bytes.Texts.{codes, to_lower, trim_space, contains}
use colossus_x.Crypto.{Crypto}
use colossus_x.Decimal.{format_uint}
use colossus_x.Hex.{hex_encode}
use colossus_x.Spec.{Spec, mode_colossus_x}
use colossus_x.Types.{Block, BlockHeader, ChainConfig, encode_for_mining}
use colossus_x.Chain.{Store}
use colossus_x.Hash.{DagAccessor, HashResult}
use colossus_x.Solution.{verify_solution}
use colossus_x.Consensus.Header.{
  Validator, wrap, dag_for_header, merkle_root_for_dag, block_solution, is_colossus_x, backend_pow,
  validate_linkage, header_block,
}

-- an Allocator: its name, what Alloc returns, and ValidationCanReuseDAG where it has that method
pub record Allocator : Type 0 where
  pub name : Bytes
  pub alloc : ℕ → Result ℕ
  pub reuse : Option Bool

-- sliceAllocator
abbrev pub slice_allocator : Allocator
slice_allocator = record { name = codes "go-slice"; alloc = λ size. ok size; reuse = some true }

-- Hash of a HashBackend
abbrev pub Backend : Type 0
Backend = Spec → Bytes → Option ℕ → DagAccessor → Result HashResult

-- the fields of a Validator that are no caches; none stands for nil
pub record Setup : Type 0 where
  pub config : ChainConfig
  pub backend : Backend
  pub allocator : Allocator
  pub mining_backend : Option Backend
  pub mining_allocator : Option Allocator

abbrev pub Dag : Type 0
Dag = Spec × DagAccessor

-- sharedDAGs, fallbackValidationDAGs and colossusxMerkleRoots
pub record Caches : Type 0 where
  pub shared : List (Bytes × Dag)
  pub fallback : List (Bytes × Dag)
  pub roots : List (Bytes × Bytes)

abbrev pub no_caches : Caches
no_caches = record { shared = []; fallback = []; roots = [] }

abbrev pub or_default {ℓ} : {A : Type ℓ} → Option A → A → A
or_default none d = d
or_default (some a) d = a

-- MiningBackend, MiningAllocatorName and miningAllocatorOrDefault
unfoldable pub mining_backend_of : Setup → Backend
mining_backend_of v = or_default v.mining_backend v.backend

unfoldable pub mining_allocator_name : Setup → Bytes
mining_allocator_name v = elim v.mining_allocator [ none ↦ [] | some a ↦ a.name ]

unfoldable pub mining_allocator_or_default : Setup → Allocator
mining_allocator_or_default v = or_default v.mining_allocator v.allocator

-- the names of allocators whose memory the processor can read
unfoldable pub is_host_name : Bytes → Bool
is_host_name name =
    bytes_eq name []
    || (bytes_eq name (codes "go")
        || (bytes_eq name (codes "go-slice")
            || (bytes_eq name (codes "go-heap")
                || (bytes_eq name (codes "auto")
                    || (bytes_eq name (codes "pinned") || bytes_eq name (codes "pinned-host"))))))

-- canValidationReuseMiningDAG, and DAGReuseEnabled
unfoldable pub can_reuse : Setup → Bool
can_reuse v =
    let allocator = mining_allocator_or_default v in
    let name = to_lower (trim_space allocator.name) in
    elim allocator.reuse [
      | some reusable ↦ reusable
      | none ↦ is_host_name name || contains name (codes "unified")
    ]

-- sharedDAGCacheKey
unfoldable pub shared_key : BlockHeader → Bytes
shared_key header = hex_encode header.epoch_seed ++ (b'/' ∷ format_uint header.dag_size_bytes)

-- fallbackValidationDAGCacheKey
unfoldable pub fallback_key : BlockHeader → Allocator → Bytes
fallback_key header allocator =
    shared_key header ++ (b'/' ∷ (allocator.name ++ codes "/validation"))

-- SharedCacheSize and ValidationCacheSize
unfoldable pub shared_cache_size : Caches → ℕ
shared_cache_size s = length s.shared

unfoldable pub validation_cache_size : Caches → ℕ
validation_cache_size s = length s.fallback

-- the map that cachedDAGForHeader is given
pub data Place : Type 0 where
  in_shared in_fallback : Place

abbrev pub dags : Place → Caches → List (Bytes × Dag)
dags in_shared s = s.shared
dags in_fallback s = s.fallback

abbrev pub keep_dag : Place → Bytes → Dag → Caches → Caches
keep_dag in_shared key dag s = record s { shared = insert s.shared key dag }
keep_dag in_fallback key dag s = record s { fallback = insert s.fallback key dag }

-- cacheMerkleRoot
unfoldable pub cache_merkle_root : Bytes → Bytes → Caches → Caches
cache_merkle_root key root s = record s { roots = insert s.roots key root }

-- the validator that the parts without a cache are given
abbrev pub plain : Setup → Allocator → Validator
plain v allocator = record { config = v.config; alloc = allocator.alloc; backend_hash = v.backend }

-- NewValidator, past Spec.Validate
unfoldable pub new_setup : ChainConfig → Backend → Setup
new_setup config backend = record {
  config = config;
  backend = backend;
  allocator = slice_allocator;
  mining_backend = some backend;
  mining_allocator = some slice_allocator;
}

-- SetMiningBackend
unfoldable pub set_mining_backend :
    Option Backend → Option Allocator → Setup → Caches → Setup × Caches
set_mining_backend backend allocator v s = (
  record v {
    mining_backend = elim backend [ none ↦ v.mining_backend | some b ↦ some b ];
    mining_allocator = elim allocator [ none ↦ v.mining_allocator | some a ↦ some a ];
  },
  record s { shared = []; roots = [] },
)

-- Close
unfoldable pub close : Caches → Caches
close s = record {
  shared = [];
  fallback = [];
  roots = remove_keys (remove_keys s.roots s.fallback) s.shared;
}

module _ (c : Crypto) where
  -- cachedDAGForHeader
  unfoldable pub generate_kept :
      Setup → BlockHeader → Allocator → Place → Bytes → Caches → Result Dag × Caches
  generate_kept v header allocator place key s =
      with_state (dag_for_header c (plain v allocator) header, s)
        λ (spec, dag) s.
          if leb 2 spec.algorithm_version || str_eq spec.mode mode_colossus_x
          then (with_state (merkle_root_for_dag c dag, keep_dag place key (spec, dag) s)
              λ root s. (ok (spec, dag), cache_merkle_root key root s))
          else (ok (spec, dag), keep_dag place key (spec, dag) s)

  unfoldable pub cached_dag_for_header :
      Setup → BlockHeader → Allocator → Place → Bytes → Caches → Result Dag × Caches
  cached_dag_for_header v header allocator place key s = elim (lookup (dags place s) key) [
    | some dag ↦ (ok dag, s)
    | none ↦ generate_kept v header allocator place key s
  ]

  -- sharedMiningDAGForHeader
  unfoldable pub shared_mining_dag_for_header : Setup → BlockHeader → Caches → Result Dag × Caches
  shared_mining_dag_for_header v header s =
      cached_dag_for_header v header (mining_allocator_or_default v) in_shared (shared_key header) s

  -- validationDAGForHeader
  unfoldable pub validation_dag_for_header : Setup → BlockHeader → Caches → Result Dag × Caches
  validation_dag_for_header v header s =
      if can_reuse v
      then shared_mining_dag_for_header v header s
      else cached_dag_for_header v header v.allocator in_fallback (fallback_key header v.allocator)
          s

  -- merkleRootForDAG
  unfoldable pub merkle_root_kept : BlockHeader → DagAccessor → Caches → Result Bytes × Caches
  merkle_root_kept header dag s = elim (lookup s.roots (shared_key header)) [
    | some root ↦ (ok root, s)
    | none ↦
        with_state (merkle_root_for_dag c dag, s)
          λ root s. (ok root, cache_merkle_root (shared_key header) root s)
  ]

  -- validateDAGMerkleRootWithRoot
  unfoldable pub validate_dag_merkle_root_with_root : BlockHeader → Bytes → Result (Unit {0})
  validate_dag_merkle_root_with_root header root =
      require (bytes_eq root header.dag_merkle_root) invalid_pow

  -- validateDAGMerkleRoot
  unfoldable pub validate_dag_merkle_root_kept :
      Setup → BlockHeader → Caches → Result (Unit {0}) × Caches
  validate_dag_merkle_root_kept v header s =
      with_state (validation_dag_for_header v header s) λ (spec, dag) s.
        with_state (merkle_root_kept header dag s)
          λ root s. (validate_dag_merkle_root_with_root header root, s)

  -- the two branches of validatePoW
  unfoldable pub colossus_x_pow_kept : Dag → Block → Caches → Result (Unit {0}) × Caches
  colossus_x_pow_kept (spec, dag) block s =
      with_state (block_solution c block, s)
        λ solution s. with_state (merkle_root_kept block.header dag s) λ root s. (
          (do
            validate_dag_merkle_root_with_root block.header root
            wrap
                (verify_solution c spec (encode_for_mining block.header) block.header.target root
                  solution)
                invalid_pow),
          s,
        )

  -- validatePoW
  unfoldable pub validate_pow_kept : Setup → Block → Caches → Result (Unit {0}) × Caches
  validate_pow_kept v block s =
      with_state (validation_dag_for_header v block.header s) λ (spec, dag) s.
        if is_colossus_x c v.config.spec block.header
        then colossus_x_pow_kept (spec, dag) block s
        else (backend_pow c (plain v v.allocator) spec dag block.header, s)

  module _ {S : Type 0} (ops : Store S) (now : ℤ) (v : Setup) (store : S) where
    -- validateHeader
    unfoldable pub validate_header_kept : BlockHeader → Bool → Caches → Result (Unit {0}) × Caches
    validate_header_kept header verify_dag_merkle s =
        with_state (validate_linkage c ops now (plain v v.allocator) store header, s)
          λ _ s.
            if is_colossus_x c v.config.spec header
            then (with_state
                (require (not (bytes_eq header.dag_merkle_root zero_hash)) invalid_pow, s)
                λ _ s.
                  if verify_dag_merkle
                  then validate_dag_merkle_root_kept v header s
                  else (ok tt, s))
            else validate_pow_kept v (header_block c header) s

    -- ValidateBlock
    unfoldable pub validate_block_kept : Block → Caches → Result (Unit {0}) × Caches
    validate_block_kept block s =
        with_state (validate_header_kept block.header false s) λ _ s. validate_pow_kept v block s
