-- ===== src/Strategy.antt =====
-- memory_strategy.go: the allocators of the DAG, and the choice between them. The allocations of
-- drivers, which files for cgo builds make, and the runtime that offers devices are parameters; a
-- runtime that is nil offers none. Of an allocation the size of its buffer is kept.
pub mod Reuse
use Prim.Native.String.{String}
use text.Mathlib.Text.{◌==◌ as str_eq}
use colossus_x.Prelude.{
  ℕ, Bool, true, false, ◌&&◌, ◌||◌, Option, none, some, List, [], ◌∷◌, ◌++◌, if◌then◌else◌, Result,
  ok, err, panic, alloc_failed, bad_mode, bad_strategy, not_ready,
}
use colossus_x.Bytes.{Bytes, bytes_eq}
use colossus_x.Bytes.Texts.{codes, to_lower, trim_space}
use colossus_x.Spec.{mode_colossus_x}
use colossus_x.Consensus.Cache.{Allocator}

-- OpenCLContext: whether its two pointers are set
pub record OpenclContext : Type 0 where
  pub has_context : Bool
  pub has_device : Bool

-- OpenCLContext.valid
abbrev pub valid : OpenclContext → Bool
valid context = context.has_context && context.has_device

-- the runtime: a CUDA device, an OpenCL context, and a Metal context, by whether its device is set
pub record Runtime : Type 0 where
  pub cuda : Option ℕ
  pub opencl : Option OpenclContext
  pub metal : Option Bool

abbrev pub no_runtime : Runtime
no_runtime = record { cuda = none; opencl = none; metal = none }

-- allocPinnedHost, allocCUDAManaged and allocOpenCLSVM, and whether make([]byte, size) of the Go run
-- time has room for a size; it panics otherwise
pub record Drivers : Type 0 where
  pub has_room : ℕ → Bool
  pub alloc_pinned : ℕ → Result ℕ
  pub alloc_cuda : ℕ → ℕ → Result ℕ
  pub alloc_opencl : OpenclContext → ℕ → Result ℕ

-- GoHeapMemory, PinnedMemory, CUDAManagedMemory, OpenCLSVM and MetalSharedMemory
pub data Memory : Type 0 where
  go_heap pinned : Memory
  cuda_managed : ℕ → Bool → Memory
  opencl_svm : OpenclContext → Memory
  metal_shared : Bool → Memory

-- MemoryStrategy: one of them, or a fallbackMemoryStrategy with its name
pub data MemoryStrategy : Type 0 where
  single : Memory → MemoryStrategy
  fallback : Bytes → List Memory → MemoryStrategy

-- Name of the five
unfoldable pub memory_name : Memory → Bytes
memory_name go_heap = codes "go-heap"
memory_name pinned = codes "pinned-host"
memory_name (cuda_managed _ _) = codes "cuda-managed"
memory_name (opencl_svm _) = codes "opencl-svm"
memory_name (metal_shared _) = codes "metal-shared"

-- ValidationCanReuseDAG of the five
unfoldable pub memory_reuse : Memory → Bool
memory_reuse go_heap = true
memory_reuse pinned = true
memory_reuse (cuda_managed _ ready) = ready
memory_reuse (opencl_svm context) = valid context
memory_reuse (metal_shared device) = device

-- Name
unfoldable pub strategy_name : MemoryStrategy → Bytes
strategy_name (single m) = memory_name m
strategy_name (fallback [] _) = codes "fallback"
strategy_name (fallback (b ∷ r) _) = b ∷ r

-- ValidationCanReuseDAG, a method that a fallback does not have
unfoldable pub strategy_reuse : MemoryStrategy → Option Bool
strategy_reuse (single m) = some (memory_reuse m)
strategy_reuse (fallback _ _) = none

module _ (drivers : Drivers) where
  -- make([]byte, size)
  unfoldable pub make_bytes : ℕ → Result ℕ
  make_bytes size = if drivers.has_room size then ok size else panic

  -- Alloc of the five
  unfoldable pub memory_alloc : Memory → ℕ → Result ℕ
  memory_alloc go_heap size = make_bytes size
  memory_alloc pinned size = drivers.alloc_pinned size
  memory_alloc (cuda_managed ordinal ready) size =
      if ready then drivers.alloc_cuda ordinal size else err not_ready
  memory_alloc (opencl_svm context) size =
      if valid context then drivers.alloc_opencl context size else err not_ready
  memory_alloc (metal_shared device) size = if device then make_bytes size else err not_ready

  -- the loop of fallbackMemoryStrategy.Alloc: the first allocation that succeeds
  unfoldable pub first_alloc : List Memory → ℕ → Result ℕ
  first_alloc [] size = err alloc_failed
  first_alloc (m ∷ r) size =
      let rest = first_alloc r size in
      elim (memory_alloc m size) [ ok n ↦ ok n | err _ ↦ rest | panic ↦ panic ]

  unfoldable pub strategy_alloc : MemoryStrategy → ℕ → Result ℕ
  strategy_alloc (single m) size = memory_alloc m size
  strategy_alloc (fallback _ memories) size = first_alloc memories size

  -- a MemoryStrategy as the Allocator that it is
  abbrev pub as_allocator : MemoryStrategy → Allocator
  as_allocator s = record {
    name = strategy_name s;
    alloc = strategy_alloc s;
    reuse = strategy_reuse s;
  }

-- `if o, ok := ...; ok { strategies = append(strategies, ...) }`
abbrev pub offered {ℓ} : {A : Type ℓ} → Option A → (A → Memory) → List Memory
offered none f = []
offered (some a) f = f a ∷ []

-- autoColossusXStrategies
unfoldable pub auto_strategies : Runtime → List Memory
auto_strategies runtime =
    offered runtime.cuda (λ ordinal. cuda_managed ordinal true)
    ++ (offered runtime.opencl (λ context. opencl_svm context)
        ++ (offered runtime.metal (λ device. metal_shared device) ++ (go_heap ∷ [])))

abbrev pub or_bad {ℓ} : {A : Type ℓ} → Option A → (A → Memory) → Result MemoryStrategy
or_bad none f = err bad_strategy
or_bad (some a) f = ok (single (f a))

-- resolveColossusX
unfoldable pub resolve_colossus_x : Runtime → Bytes → Result MemoryStrategy
resolve_colossus_x runtime choice =
    if bytes_eq choice (codes "auto")
    then ok (fallback (codes "auto") (auto_strategies runtime))
    else if bytes_eq choice (codes "go") || bytes_eq choice (codes "go-heap")
    then ok (single go_heap)
    else if bytes_eq choice (codes "pinned") || bytes_eq choice (codes "pinned-host")
    then ok (single pinned)
    else if bytes_eq choice (codes "cuda-managed")
    then or_bad runtime.cuda (λ ordinal. cuda_managed ordinal true)
    else if bytes_eq choice (codes "opencl-svm")
    then or_bad runtime.opencl (λ context. opencl_svm context)
    else if bytes_eq choice (codes "metal-shared")
    then or_bad runtime.metal (λ device. metal_shared device)
    else err bad_strategy

-- the choice of Resolve, in lower case
unfoldable pub choice_of : Bytes → Bytes
choice_of dag_alloc =
    let text = to_lower (trim_space dag_alloc) in if bytes_eq text [] then codes "auto" else text

-- Resolve: no choice stands for auto
unfoldable pub resolve : String → Runtime → Bytes → Result MemoryStrategy
resolve mode runtime dag_alloc =
    if str_eq mode "" || str_eq mode mode_colossus_x
    then resolve_colossus_x runtime (choice_of dag_alloc)
    else err bad_mode
