-- ===== src/Spec.antt =====
-- colossusx/spec.go: the parameters of the chain, their validation, and the DAG size of an epoch.
-- A uint64 or uint32 is a number; `InRange` says that the fields are such words.
pub mod Size
pub mod Validate
use Prim.Native.String.{String}
use text.Mathlib.Text.{◌==◌ as str_eq}
use colossus_x.Prelude.{
  ℕ, ◌+◌, ◌-◌, ◌*◌, ◌/◌, ◌%◌, ◌^◌, ◌<◌, Bool, true, false, not, ◌||◌, arith, ltb, ◌==◌,
  if◌then◌else◌, Result, ok, err, panic, ◌>>=◌, ◌>>◌, require, bad_initial, bad_growth,
  bad_node_size, bad_reads, bad_epoch_blocks, initial_unaligned, growth_unaligned, bad_mode,
}
use colossus_x.Bytes.{Bytes, zero_hash}

abbrev pub max_uint64 : ℕ
max_uint64 = 2 ^ 64 - 1

abbrev pub colossus_x_initial_dag_size_bytes : ℕ
colossus_x_initial_dag_size_bytes = 32 * 1024 * 1024 * 1024

abbrev pub default_dag_growth_bytes_per_epoch : ℕ
default_dag_growth_bytes_per_epoch = 256 * 1024 * 1024

abbrev pub colossus_x_node_size : ℕ
colossus_x_node_size = 256

abbrev pub colossus_x_epoch_grace_blocks : ℕ
colossus_x_epoch_grace_blocks = 64

abbrev pub mode_colossus_x : String
mode_colossus_x = "colossusx"

pub record Spec : Type 0 where
  pub mode : String
  pub dag_size_bytes : ℕ
  pub initial_dag_size_bytes : ℕ
  pub dag_growth_bytes_per_epoch : ℕ
  pub node_size : ℕ
  pub reads_per_hash : ℕ
  pub epoch_blocks : ℕ
  pub tile_size_bytes : ℕ
  pub mat_dim : ℕ
  pub compute_rounds : ℕ
  pub compute_precision : String
  pub memory_model_required : String
  pub device_execution_only : Bool
  pub round_commit_interval : ℕ
  pub algorithm_version : ℕ
  pub genesis_hash : Bytes

pub record InRange (s : Spec) : Type 0 where
  pub size : s.dag_size_bytes < 2 ^ 64
  pub initial : s.initial_dag_size_bytes < 2 ^ 64
  pub growth : s.dag_growth_bytes_per_epoch < 2 ^ 64
  pub reads : s.reads_per_hash < 2 ^ 64
  pub epoch : s.epoch_blocks < 2 ^ 64

-- ColossusXSpec
abbrev pub colossus_x_spec : Spec
colossus_x_spec = record {
  mode = mode_colossus_x;
  dag_size_bytes = colossus_x_initial_dag_size_bytes;
  initial_dag_size_bytes = colossus_x_initial_dag_size_bytes;
  dag_growth_bytes_per_epoch = default_dag_growth_bytes_per_epoch;
  node_size = colossus_x_node_size;
  reads_per_hash = 128;
  epoch_blocks = 7200;
  tile_size_bytes = 4096;
  mat_dim = 16;
  compute_rounds = 64;
  compute_precision = "int8";
  memory_model_required = "unified-shared";
  device_execution_only = true;
  round_commit_interval = 8;
  algorithm_version = 2;
  genesis_hash = zero_hash;
}

-- ColossusXSpecWithGrowth: a zero keeps the default
unfoldable pub colossus_x_spec_with_growth : ℕ → ℕ → Spec
colossus_x_spec_with_growth initial growth =
    let s = colossus_x_spec in
    let t =
      if initial == 0
      then s
      else record s { initial_dag_size_bytes = initial; dag_size_bytes = initial } in
    if growth == 0 then t else record t { dag_growth_bytes_per_epoch = growth }

-- initialDAGSize
unfoldable pub initial_dag_size : Spec → ℕ
initial_dag_size s =
    if s.initial_dag_size_bytes == 0 then s.dag_size_bytes else s.initial_dag_size_bytes

-- growthDAGSizePerEpoch
unfoldable pub growth_dag_size_per_epoch : Spec → ℕ
growth_dag_size_per_epoch s =
    if s.dag_growth_bytes_per_epoch == 0
    then default_dag_growth_bytes_per_epoch
    else s.dag_growth_bytes_per_epoch

-- Validate: the first check that fails decides the error
unfoldable pub validate : Spec → Result (Unit {0})
validate s = do
  let mode = if str_eq s.mode "" then mode_colossus_x else s.mode
  let initial = initial_dag_size s
  let growth = growth_dag_size_per_epoch s
  require (not (initial == 0)) bad_initial
  require (not (growth == 0)) bad_growth
  require (s.node_size == colossus_x_node_size) bad_node_size
  require (not (s.reads_per_hash == 0)) bad_reads
  require (not (s.epoch_blocks == 0)) bad_epoch_blocks
  require (initial % s.node_size == 0) initial_unaligned
  require (growth % s.node_size == 0) growth_unaligned
  require (str_eq mode mode_colossus_x) bad_mode

-- DAGSizeForEpoch. The remainder by a node size of 0 panics.
unfoldable pub dag_size_for_epoch : Spec → ℕ → Result ℕ
dag_size_for_epoch s epoch =
    let initial = initial_dag_size s in
    let growth = growth_dag_size_per_epoch s in
    if initial == 0
    then ok 0
    else if growth == 0 || epoch == 0
    then ok initial
    else if ltb ((max_uint64 - initial) / growth) epoch
    then (if s.node_size == 0 then panic else ok (max_uint64 - max_uint64 % s.node_size))
    else ok ((initial + epoch * growth % 2 ^ 64) % 2 ^ 64)

-- DAGSizeForHeight
unfoldable pub dag_size_for_height : Spec → ℕ → Result ℕ
dag_size_for_height s height =
    if s.epoch_blocks == 0
    then dag_size_for_epoch s 0
    else dag_size_for_epoch s (height / s.epoch_blocks)

-- ResolvedForHeight
unfoldable pub resolved_for_height : Spec → ℕ → Result Spec
resolved_for_height s height = do
  size ← dag_size_for_height s height
  ok (record s { dag_size_bytes = size })

-- NodeCount. At height 0 DAGSizeForHeight is the initial size (`dag_size_for_height-zero`).
unfoldable pub node_count : Spec → ℕ
node_count s =
    let size = if s.dag_size_bytes == 0 then initial_dag_size s else s.dag_size_bytes in
    if s.node_size == 0 then 0 else size / s.node_size
