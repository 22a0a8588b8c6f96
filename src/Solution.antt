-- ===== src/Solution.antt =====
-- colossusx/colossusx_solution.go: building, verifying, compacting and expanding the solution of a
-- ColossusX block.
pub mod Rounds
pub mod Complete
pub mod Sound
pub mod Audit
pub mod Interning
pub mod RoundTrip
use colossus_x.Prelude.{
  ℕ, zero, suc, ◌+◌, ◌%◌, ◌^◌, Bool, true, false, Option, none, some, List, [], ◌∷◌, ◌++◌, map,
  arith, length, get_elem?, leb, ◌==◌, if◌then◌else◌, Result, ok, err, panic, ◌>>=◌, ◌>>◌, require,
  traverse, dag_empty, leaf_count_mismatch, mining_count, mining_index, mining_size, mining_proof,
  mix_mismatch, pow_mismatch, audit_count, audit_index, audit_proof, bad_proof_ref,
}
use colossus_x.Bytes.{Bytes, bytes_eq}
use colossus_x.Bytes.Words.{le_bytes}
use colossus_x.Crypto.{Crypto}
use colossus_x.Target.{less_or_equal_be}
use colossus_x.Spec.{Spec, node_count}
use colossus_x.Hash.{
  DagAccessor, Trace, colossus_x_round_mix, round_index, colossus_x_trace_hash,
  colossus_x_audit_indices,
}
use colossus_x.Merkle.{
  LevelProver, leaf_count, prover_root, prover_proof, new_merkle_prover, verify_merkle_proof,
}

abbrev pub colossus_x_audit_cell_count : ℕ
colossus_x_audit_cell_count = 32

pub record SolutionCell : Type 0 where
  pub index : ℕ
  pub bytes : Bytes
  pub proof : List Bytes

pub record Solution : Type 0 where
  pub nonce : ℕ
  pub mix_digest : Bytes
  pub mining_cells : List SolutionCell
  pub audit_cells : List SolutionCell

pub record CompactCell : Type 0 where
  pub index : ℕ
  pub bytes : Bytes
  pub proof_refs : List ℕ

pub record CompactSolution : Type 0 where
  pub nonce : ℕ
  pub mix_digest : Bytes
  pub siblings : List Bytes
  pub mining_cells : List CompactCell
  pub audit_cells : List CompactCell

-- one round of the cell loops of BuildColossusXSolutionWithProver
unfoldable pub build_cell : DagAccessor → LevelProver → ℕ → Result SolutionCell
build_cell dag prover idx = do
  cell ← dag.read_node idx
  proof ← prover_proof prover idx
  ok (record { index = idx % 2 ^ 32; bytes = cell; proof = proof })

module _ (c : Crypto) where
  -- the cells of a trace, past the checks of BuildColossusXSolutionWithProver
  unfoldable pub build_cells : DagAccessor → LevelProver → ℕ → Trace → Result (Solution × Bytes)
  build_cells dag prover nonce trace = do
    mining ← traverse (build_cell dag prover) trace.accessed
    let audit = colossus_x_audit_indices c trace.solution_hash dag.count colossus_x_audit_cell_count
    audits ← traverse (build_cell dag prover) audit
    ok (
      record {
        nonce = nonce;
        mix_digest = trace.mix_digest;
        mining_cells = mining;
        audit_cells = audits;
      },
      prover_root prover,
    )

  -- BuildColossusXSolutionWithProver
  unfoldable pub build_solution_with_prover :
      Spec → Bytes → ℕ → DagAccessor → LevelProver → Result (Solution × Bytes)
  unfolding build_cells
  build_solution_with_prover spec header nonce dag prover = do
    require (leb 1 dag.count) dag_empty
    require (leaf_count prover == dag.count) leaf_count_mismatch
    trace ← colossus_x_trace_hash c spec header (some nonce) dag
    build_cells dag prover nonce trace

  -- BuildColossusXSolution
  unfoldable pub build_solution :
      Spec → Bytes → ℕ → DagAccessor → List Bytes → Result (Solution × Bytes)
  unfolding build_solution_with_prover
  build_solution spec header nonce dag leaves = do
    prover ← new_merkle_prover c.blake3 leaves
    build_solution_with_prover spec header nonce dag prover

  -- one round of the mining loop of VerifyColossusXSolution: the next mix
  unfoldable pub check_mining_cell : Spec → Bytes → ℕ → Bytes → SolutionCell → Result Bytes
  check_mining_cell spec root round mix cell = do
    expect ← if node_count spec == 0 then panic else ok (round_index c round mix (node_count spec))
    require (cell.index == expect % 2 ^ 32) mining_index
    require (length cell.bytes == spec.node_size) mining_size
    require (verify_merkle_proof c.blake3 root (c.blake3 cell.bytes) cell.index cell.proof)
        mining_proof
    ok (colossus_x_round_mix c mix cell.bytes)

  -- the mining loop: the last mix
  unfoldable pub check_mining : Spec → Bytes → ℕ → Bytes → List SolutionCell → Result Bytes
  check_mining spec root round mix [] = ok mix
  check_mining spec root round mix (cell ∷ r) = do
    mix' ← check_mining_cell spec root round mix cell
    check_mining spec root (round + 1) mix' r

  -- one round of the audit loop
  unfoldable pub check_audit_cell : Bytes → SolutionCell → ℕ → Result (Unit {0})
  check_audit_cell root cell expect = do
    require (cell.index == expect) audit_index
    require (verify_merkle_proof c.blake3 root (c.blake3 cell.bytes) cell.index cell.proof)
        audit_proof

  -- the audit loop, over two lists of one length
  unfoldable pub check_audit : Bytes → List SolutionCell → List ℕ → Result (Unit {0})
  check_audit root [] expect = ok tt
  check_audit root (cell ∷ r) [] = panic
  check_audit root (cell ∷ r) (e ∷ expect) = do
    check_audit_cell root cell e
    check_audit root r expect

  -- the checks of VerifyColossusXSolution after the mining loop
  unfoldable pub check_digest : Spec → Bytes → Bytes → Solution → Bytes → Bytes → Result (Unit {0})
  check_digest spec target root solution initial mix = do
    require (bytes_eq mix solution.mix_digest) mix_mismatch
    require (less_or_equal_be (c.blake3 (initial ++ mix)) target) pow_mismatch
    let solution_hash = c.blake3 ((initial ++ mix) ++ le_bytes 8 solution.nonce)
    let expect =
        colossus_x_audit_indices c solution_hash (node_count spec) colossus_x_audit_cell_count
    require (length solution.audit_cells == length expect) audit_count
    check_audit root solution.audit_cells expect

  -- VerifyColossusXSolution. `int(spec.ReadsPerHash)` is the number itself where it is a length.
  unfoldable pub verify_solution : Spec → Bytes → Bytes → Bytes → Solution → Result (Unit {0})
  unfolding check_digest
  verify_solution spec header target root solution = do
    let initial = c.sha3_512 (header ++ le_bytes 8 solution.nonce)
    require (length solution.mining_cells == spec.reads_per_hash) mining_count
    mix ← check_mining spec root 0 initial solution.mining_cells
    check_digest spec target root solution initial mix

-- The state of CompactColossusXSolution: the pool, and the map from a sibling to its place.
pub record Pool : Type 0 where
  pub siblings : List Bytes
  pub index_by_sibling : List (Bytes × ℕ)

abbrev pub empty_pool : Pool
empty_pool = record { siblings = []; index_by_sibling = [] }

unfoldable pub lookup_sibling : Bytes → List (Bytes × ℕ) → Option ℕ
lookup_sibling h [] = none
lookup_sibling h ((k, i) ∷ m) = if bytes_eq k h then some i else lookup_sibling h m

-- one sibling of encodeCell
unfoldable pub intern : Pool → Bytes → ℕ × Pool
intern pool sib = elim (lookup_sibling sib pool.index_by_sibling) [
  | some ref ↦ (ref, pool)
  | none ↦
      let ref = length pool.siblings % 2 ^ 32 in
      (
        ref,
        record {
          siblings = pool.siblings ++ sib ∷ [];
          index_by_sibling = (sib, ref) ∷ pool.index_by_sibling;
        },
      )
]

unfoldable pub intern_all : Pool → List Bytes → List ℕ × Pool
intern_all pool [] = ([], pool)
intern_all pool (sib ∷ r) =
    let (ref, pool') = intern pool sib in
    let (refs, pool'') = intern_all pool' r in (ref ∷ refs, pool'')

-- encodeCell
unfoldable pub encode_cell : Pool → SolutionCell → CompactCell × Pool
encode_cell pool cell =
    let (refs, pool') = intern_all pool cell.proof in
    (record { index = cell.index; bytes = cell.bytes; proof_refs = refs }, pool')

unfoldable pub encode_cells : Pool → List SolutionCell → List CompactCell × Pool
encode_cells pool [] = ([], pool)
encode_cells pool (cell ∷ r) =
    let (compact, pool') = encode_cell pool cell in
    let (rest, pool'') = encode_cells pool' r in (compact ∷ rest, pool'')

-- CompactColossusXSolution
unfoldable pub compact_solution : Solution → CompactSolution
compact_solution s =
    let (mining, pool) = encode_cells empty_pool s.mining_cells in
    let (audit, pool') = encode_cells pool s.audit_cells in
    record {
      nonce = s.nonce;
      mix_digest = s.mix_digest;
      siblings = pool'.siblings;
      mining_cells = mining;
      audit_cells = audit;
    }

unfoldable pub decode_ref : List Bytes → ℕ → Result Bytes
decode_ref siblings ref = elim (get_elem? siblings ref) [ none ↦ err bad_proof_ref | some h ↦ ok h ]

-- decodeCell
unfoldable pub decode_cell : List Bytes → CompactCell → Result SolutionCell
decode_cell siblings cell = do
  proof ← traverse (decode_ref siblings) cell.proof_refs
  ok (record { index = cell.index; bytes = cell.bytes; proof = proof })

-- ExpandCompactColossusXSolution
unfoldable pub expand_solution : CompactSolution → Result Solution
expand_solution s = do
  mining ← traverse (decode_cell s.siblings) s.mining_cells
  audit ← traverse (decode_cell s.siblings) s.audit_cells
  ok (record {
    nonce = s.nonce;
    mix_digest = s.mix_digest;
    mining_cells = mining;
    audit_cells = audit;
  })
