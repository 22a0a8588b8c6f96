-- ===== src/Verify.antt =====
-- cmd/colossusx/main.go: the verify command, past the parsing of its flags: loadVerifyInput,
-- specFromHeader and the rest of runVerify. The readers of the two JSON files are parameters. What
-- the command prints is left out.
pub mod Agrees
use Prim.Native.String.{String}
use text.Mathlib.Text.{◌==◌ as str_eq}
use colossus_x.Prelude.{
  ℕ, ◌*◌, ◌%◌, ◌^◌, Bool, true, false, not, ◌&&◌, ◌||◌, Option, none, some, arith, leb, ◌==◌,
  if◌then◌else◌, Result, ok, err, panic, ◌>>=◌, ◌>>◌, require, bad_mode, no_input, two_inputs,
  size_mismatch, version_mismatch, seed_mismatch, missing_block, missing_solution, missing_root,
  pow_failed,
}
use colossus_x.Bytes.{bytes_eq, zero_hash}
use colossus_x.Crypto.{Crypto}
use colossus_x.Spec.{
  Spec, validate, resolved_for_height, colossus_x_spec_with_growth, mode_colossus_x,
}
use colossus_x.Types.{Block, BlockHeader, epoch_seed_for_height, encode_for_mining}
use colossus_x.Solution.{Solution, verify_solution, expand_solution}
use colossus_x.Dag.Stateless.{verify_header_stateless}

-- the flags of the command, with -dag-mib taken into -initial-dag-mib by `initial_mib`
pub record VerifyFlags : Type 0 where
  pub mode : String
  pub header_path : String
  pub block_path : String
  pub initial_dag_mib : ℕ
  pub dag_mib : ℕ
  pub dag_growth_mib : ℕ

unfoldable pub initial_mib : VerifyFlags → ℕ
initial_mib flags = if flags.dag_mib == 0 then flags.initial_dag_mib else flags.dag_mib

-- (*initialDAGMiB)*1024*1024
unfoldable pub mib : ℕ → ℕ
mib n = n * 1024 % 2 ^ 64 * 1024 % 2 ^ 64

-- specFromHeader: the cases of the two sizes are those of ColossusXSpecWithGrowth
unfoldable pub spec_from_header : String → BlockHeader → ℕ → ℕ → Result Spec
spec_from_header mode header initial growth = do
  require (str_eq mode mode_colossus_x) bad_mode
  let spec = colossus_x_spec_with_growth initial growth
  validate spec
  resolved ← resolved_for_height spec header.height
  require (header.dag_size_bytes == resolved.dag_size_bytes) size_mismatch
  require (header.algorithm_version == spec.algorithm_version) version_mismatch
  ok spec

-- the solution that a block carries: the full one, or the compact one expanded
unfoldable pub given_solution : Block → Result Solution
given_solution block = elim block.solution [
  | some s ↦ ok s
  | none ↦ elim block.compact [ some s ↦ expand_solution s | none ↦ err missing_solution ]
]

-- loadVerifyInput
unfoldable pub load_verify_input :
    (String → Result BlockHeader)
    → (String → Result Block)
    → String
    → String
    → Result (BlockHeader × Option Block)
load_verify_input read_header read_block header_path block_path =
    if str_eq header_path "" && str_eq block_path ""
    then err no_input
    else if not (str_eq header_path "") && not (str_eq block_path "")
    then err two_inputs
    else if not (str_eq block_path "")
    then (do block ← read_block block_path; ok (block.header, some block))
    else do header ← read_header header_path; ok (header, none)

module _ (c : Crypto) where
  -- the branch of runVerify for a block with a solution
  unfoldable pub verify_solved : Spec → BlockHeader → Option Block → Result (Unit {0})
  verify_solved resolved header none = err missing_block
  verify_solved resolved header (some block) = do
    solution ← given_solution block
    require (not (bytes_eq header.dag_merkle_root zero_hash)) missing_root
    verify_solution c resolved (encode_for_mining header) header.target header.dag_merkle_root
        solution

  -- the end of runVerify
  unfoldable pub verify_hashed : Spec → BlockHeader → Result (Unit {0})
  verify_hashed resolved header = do
    (hash, good) ←
        verify_header_stateless c resolved (encode_for_mining header) (some header.nonce)
          header.epoch_seed header.target
    require good pow_failed

  unfoldable pub verify_resolved : Spec → BlockHeader → Option Block → Result (Unit {0})
  verify_resolved resolved header block =
      if leb 2 resolved.algorithm_version || str_eq resolved.mode mode_colossus_x
      then verify_solved resolved header block
      else verify_hashed resolved header

  -- runVerify past specFromHeader
  unfoldable pub verify_with : Spec → BlockHeader → Option Block → Result (Unit {0})
  verify_with spec header block = do
    require (bytes_eq (epoch_seed_for_height c spec header.height) header.epoch_seed) seed_mismatch
    found ← resolved_for_height spec header.height
    verify_resolved (record found { dag_size_bytes = header.dag_size_bytes }) header block

  -- runVerify past loadVerifyInput, for sizes in bytes
  unfoldable pub verify_input : String → ℕ → ℕ → BlockHeader → Option Block → Result (Unit {0})
  verify_input mode initial growth header block = do
    spec ← spec_from_header mode header initial growth
    verify_with spec header block

  -- runVerify
  unfoldable pub run_verify :
      (String → Result BlockHeader) → (String → Result Block) → VerifyFlags → Result (Unit {0})
  run_verify read_header read_block flags = do
    (header, block) ← load_verify_input read_header read_block flags.header_path flags.block_path
    verify_input flags.mode (mib (initial_mib flags)) (mib flags.dag_growth_mib) header block
