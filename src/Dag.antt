-- ===== src/Dag.antt =====
-- colossusx/dag.go and colossusx/dag_colossusx_v2.go: the DAG and its generation. The buffer of an
-- allocation is the list of its nodes; bytes past the last whole node are never read. The progress
-- reports and the tuning of the garbage collector are left out.
pub mod Ranges
pub mod Schedule
pub mod Ending
pub mod Stateless
pub mod Prover
use text.Mathlib.Text.{◌==◌ as str_eq}
use colossus_x.Prelude.{
  ℕ, zero, suc, ◌+◌, ◌-◌, ◌*◌, ◌/◌, ◌%◌, ◌^◌, Bool, true, false, not, ◌&&◌, ◌||◌, Option, none,
  some, List, [], ◌∷◌, ◌++◌, arith, length, take, get_or, set, bit_xor, ltb, leb, ◌==◌,
  if◌then◌else◌, Result, ok, err, panic, ◌>>=◌, ◌>>◌, require, alloc_small, seed_empty, traverse,
  length-append, length-take,
}
use colossus_x.Bytes.{Bytes, zeros, xor_bytes}
use colossus_x.Bytes.Words.{le_bytes, from_le}
use colossus_x.Crypto.{Crypto}
use colossus_x.Spec.{
  Spec, initial_dag_size, node_count, validate, colossus_x_initial_dag_size_bytes, mode_colossus_x,
}
use colossus_x.Hash.{DagAccessor, fnv1a32}

abbrev pub seed_cache_bytes : ℕ
seed_cache_bytes = 512 * 1024 * 1024

abbrev pub min_cache_entries : ℕ
min_cache_entries = 1024

-- colossusXCacheEntriesForSpec; an entry has 64 bytes
unfoldable pub cache_entries_for_spec : Spec → ℕ
cache_entries_for_spec s =
    let initial = initial_dag_size s in
    let scaled = initial / 64 in
    let bytes =
      if not (initial == 0) && ltb initial colossus_x_initial_dag_size_bytes
      then (if ltb scaled (min_cache_entries * 64) then min_cache_entries * 64 else scaled)
      else seed_cache_bytes in
    let entries = bytes / 64 in if ltb entries min_cache_entries then min_cache_entries else entries

-- cache[i]; every index below is in range
abbrev pub entry : List Bytes → ℕ → Bytes
entry cache i = get_or cache i (zeros 64)

module _ (c : Crypto) where
  -- cache[i] = sha3.Sum512(cache[i-1]) for the entries to go
  unfoldable pub chain_entries : ℕ → Bytes → List Bytes
  chain_entries zero last = []
  chain_entries (suc n) last = last ∷ chain_entries n (c.sha3_512 last)

  -- one entry of a pass
  unfoldable pub mix_entry : List Bytes → ℕ → List Bytes
  mix_entry cache i =
      let target = from_le (take 4 (entry cache i)) % length cache in
      set cache i (c.sha3_512 (xor_bytes (entry cache i) (entry cache target)))

  -- a pass over the entries to go, from i
  unfoldable pub pass_entries : List Bytes → ℕ → ℕ → List Bytes
  pass_entries cache zero i = cache
  pass_entries cache (suc n) i = pass_entries (mix_entry cache i) n (i + 1)

  unfoldable pub passes : List Bytes → ℕ → List Bytes
  passes cache zero = cache
  passes cache (suc n) = passes (pass_entries cache (length cache) 0) n

  -- buildColossusXV2SeedCache
  unfoldable pub build_seed_cache : Bytes → ℕ → List Bytes
  build_seed_cache seed entries = passes (chain_entries entries (c.sha3_512 (c.sha3_256 seed))) 3

  -- the lookups of colossusXNodeInto, for the rounds to go
  unfoldable pub lookup_rounds : ℕ → List Bytes → ℕ → ℕ → Bytes → Bytes
  lookup_rounds index cache zero j mix = mix
  lookup_rounds index cache (suc n) j mix =
      let mi = get_or mix (j % 64) 0 in
      let at = fnv1a32 (bit_xor (index % 2 ^ 32) j) mi % (length cache % 2 ^ 32) in
      lookup_rounds index cache n (j + 1) (c.sha3_512 (xor_bytes mix (entry cache at)))

  -- colossusXNodeInto for a node of the given size
  unfoldable pub colossus_x_node : ℕ → ℕ → List Bytes → Bytes
  colossus_x_node index node_size cache =
      let idx = le_bytes 8 index in
      let initial = xor_bytes (entry cache (index % length cache)) (idx ++ zeros 56) in
      let mix = lookup_rounds index cache 128 0 (c.sha3_512 initial) in
      c.blake3_keyed (take 32 mix) (mix ++ idx) node_size

-- the nodes of a worker: the quotient, and 1 when there are more workers than nodes
unfoldable pub chunk_of : ℕ → ℕ → ℕ
chunk_of workers count = let quotient = count / workers in if quotient == 0 then 1 else quotient

-- The range of nodes of worker w: `from` and `to`, none where the loop over the workers breaks
unfoldable pub worker_range : ℕ → ℕ → ℕ → Option (ℕ × ℕ)
worker_range workers count w =
    let chunk = chunk_of workers count in
    let from = w * chunk % 2 ^ 64 in
    let to = (from + chunk) % 2 ^ 64 in
    if leb count from
    then none
    else some (from, (if (w + 1 == workers) || ltb count to then count else to))

-- the ranges of the workers to go, from w
unfoldable pub ranges_from : ℕ → ℕ → ℕ → ℕ → List (ℕ × ℕ)
ranges_from workers count zero w = []
ranges_from workers count (suc n) w =
    let rest = ranges_from workers count n (w + 1) in
    elim (worker_range workers count w) [ none ↦ [] | some r ↦ r ∷ rest ]

unfoldable pub ranges : ℕ → ℕ → List (ℕ × ℕ)
ranges workers count = ranges_from workers count workers 0

-- the nodes i, i+1, ... of a range, n of them
unfoldable pub indices : ℕ → ℕ → List ℕ
indices i zero = []
indices i (suc n) = i ∷ indices (i + 1) n

-- NewDAGWithAllocator: `alloc` is the size of the buffer that the allocator returns
unfoldable pub new_dag_with_allocator : (ℕ → Result ℕ) → Spec → Result ℕ
new_dag_with_allocator alloc spec = do
  size ← alloc spec.dag_size_bytes
  validate spec
  require (leb spec.dag_size_bytes size) alloc_small
  ok size

module _ (c : Crypto) where
  -- the inner loop of generateDAG, from a position of the node on, for the rounds to go: `room` is what
  -- is left of the node; a digest that does not fit ends it
  unfoldable pub fill_node : ℕ → ℕ → Bytes → Bytes
  fill_node zero room sum = []
  fill_node (suc n) room sum =
      let later = fill_node n (room - length sum) (c.keccak512 sum) in
      take room sum ++ (if ltb room (length sum) then [] else later)

  -- the loop body of generateDAG for node i; a round fills 64 bytes
  unfoldable pub worker_node : ℕ → Bytes → ℕ → Bytes
  worker_node node_size seed i =
      fill_node ((node_size + 63) / 64) node_size (c.keccak512 (seed ++ le_bytes 8 i))

  -- the node that a worker writes, by the mode of the spec
  unfoldable pub dag_node : Spec → Bytes → ℕ → Bytes
  dag_node spec seed =
      let cache = build_seed_cache c seed (cache_entries_for_spec spec) in
      if str_eq spec.mode mode_colossus_x
      then (λ i. colossus_x_node c i spec.node_size cache)
      else (λ i. worker_node spec.node_size seed i)

  -- generateDAG and PopulateDAG over a buffer of the given size. The nodes are those that every
  -- finished run of the workers leaves in the buffer (Dag/Schedule); reading past them panics.
  unfoldable pub generate_dag : Spec → ℕ → Bytes → Result DagAccessor
  generate_dag spec size seed = do
    validate spec
    require (not (length seed == 0)) seed_empty
    require (leb spec.dag_size_bytes size) alloc_small
    let node = dag_node spec seed
    ok (record {
      count = node_count spec;
      read_node = λ i. if ltb i (node_count spec) then ok (node i) else panic;
    })

-- dagMerkleLeaves and dagMerkleRootStreaming read every node
unfoldable pub dag_cells : DagAccessor → Result (List Bytes)
unfolding indices
dag_cells dag = traverse dag.read_node (indices 0 dag.count)
