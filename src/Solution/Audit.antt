-- ===== src/Solution/Audit.antt =====
-- What the audit cells of an accepted solution prove: VerifyColossusXSolution compares the size of a
-- mining cell with the node size, and does not look at the size of an audit cell.
use colossus_x.Prelude.{
  ℕ, ◌≤◌, ◌≡◌, ◌≢◌, some, get_elem?, ◌∙◌, refl, true, List, [], ◌∷◌, ◌++◌, map, arith, length,
  length-map, ok, ◌==◌, ==_iff, require, >>=-eq-ok, require-eq-ok, mining_count,
}
use colossus_x.Bytes.{Bytes, All, bytes_eq}
use colossus_x.Bytes.Words.{le_bytes}
use colossus_x.Crypto.{Crypto}
use colossus_x.Target.{less_or_equal_be}
use colossus_x.Spec.{Spec, node_count}
use colossus_x.Hash.{colossus_x_audit_indices}
use colossus_x.Merkle.{verify_merkle_proof, build_merkle_leaves, build_merkle_root}
use colossus_x.Merkle.Depth.{verify_merkle_proof_forged}
use colossus_x.Solution.{
  SolutionCell, Solution, check_mining, check_audit_cell, check_audit, check_digest,
  verify_solution, colossus_x_audit_cell_count,
}

-- an audit cell whose data are replaced by `d` and whose proof is dropped
abbrev pub forge_cell : Bytes → SolutionCell → SolutionCell
forge_cell d cell = record cell { bytes = d; proof = [] }

abbrev pub forge : Bytes → Solution → Solution
forge d s = record s { audit_cells = map (forge_cell d) s.audit_cells }

module _ (c : Crypto) (spec : Spec) (root d : Bytes) where
  abbrev Opens : Type 0
  Opens = (i : ℕ) → verify_merkle_proof c.blake3 root (c.blake3 d) i [] ≡ true

  check_audit_cell-forge :
      (cell : SolutionCell) (i : ℕ)
      → Opens
      → check_audit_cell c root cell i ≡ ok tt
      → check_audit_cell c root (forge_cell d cell) i ≡ ok tt
  unfolding check_audit_cell
  check_audit_cell-forge cell i opens e =
      let (u, indexed, e') = >>=-eq-ok _ _ e in
      let at : (cell.index == i) ≡ true = require-eq-ok _ _ indexed in rw (at, opens cell.index)

  check_audit-forge :
      (cells : List SolutionCell) (idxs : List ℕ)
      → Opens
      → check_audit c root cells idxs ≡ ok tt
      → check_audit c root (map (forge_cell d) cells) idxs ≡ ok tt
  unfolding check_audit
  check_audit-forge [] idxs opens e = refl
  check_audit-forge (cell ∷ r) [] opens e = absurd (cc)
  check_audit-forge (cell ∷ r) (i ∷ idxs) opens e =
      let (u, here, rest) = >>=-eq-ok _ _ e in
      rw (check_audit_cell-forge cell i opens here) (check_audit-forge r idxs opens rest)

  abbrev expected : Bytes → Bytes → Solution → List ℕ
  expected initial mix s =
      colossus_x_audit_indices c (c.blake3 ((initial ++ mix) ++ le_bytes 8 s.nonce))
        (node_count spec) colossus_x_audit_cell_count

  check_digest-parts :
      (target initial mix : Bytes) (s : Solution)
      → check_digest c spec target root s initial mix ≡ ok tt
      → (bytes_eq mix s.mix_digest ≡ true)
        × (less_or_equal_be (c.blake3 (initial ++ mix)) target ≡ true)
        × (length s.audit_cells ≡ length (expected initial mix s))
        × (check_audit c root s.audit_cells (expected initial mix s) ≡ ok tt)
  unfolding check_digest
  check_digest-parts target initial mix s e = ground arith

  check_digest-forge :
      (target initial mix : Bytes) (s : Solution)
      → Opens
      → check_digest c spec target root s initial mix ≡ ok tt
      → check_digest c spec target root (forge d s) initial mix ≡ ok tt
  unfolding check_digest
  check_digest-forge target initial mix s opens e =
      let (same, meets, counted, checked) = check_digest-parts target initial mix s e in
      let counted' = (==_iff _ _).1 (length-map s.audit_cells (forge_cell d) ∙ counted) in
      rw (same, meets, counted')
        (check_audit-forge s.audit_cells (expected initial mix s) opens checked)

  verify_solution-forge :
      (header target : Bytes) (s : Solution)
      → Opens
      → verify_solution c spec header target root s ≡ ok tt
      → verify_solution c spec header target root (forge d s) ≡ ok tt
  unfolding verify_solution
  verify_solution-forge header target s opens e =
      let (u, counted, e') =
        >>=-eq-ok (require (length s.mining_cells == spec.reads_per_hash) mining_count) _ e in
      let initial = c.sha3_512 (header ++ le_bytes 8 s.nonce) in
      let (last, mined, digest) =
        >>=-eq-ok (check_mining c spec root 0 initial s.mining_cells) _ e' in
      let size : (length s.mining_cells == spec.reads_per_hash) ≡ true =
        require-eq-ok _ _ counted in
      rw (size, mined) (check_digest-forge target initial last s opens digest)

-- The audit cells prove nothing about the DAG: for every DAG of two cells or more, whose size is
-- not 64 bytes, there are 64 bytes that are none of its cells, such that any solution that is accepted
-- against its Merkle root stays accepted when the data of all its audit cells are replaced by these
-- bytes and their proofs are dropped. Digests are taken to have 32 bytes.
pub verify_solution-forge_audit :
    (c : Crypto) (spec : Spec) (cells : List Bytes)
    → ((x : Bytes) → length (c.blake3 x) ≡ 32)
    → All (λ x. length x ≡ spec.node_size) cells
    → spec.node_size ≢ 64
    → 2 ≤ length cells
    → (d : Bytes) × (length d ≡ 64)
      × ((i : ℕ) → get_elem? cells i ≢ some d)
      × ((header target : Bytes) (s : Solution)
          → verify_solution c spec header target
              (build_merkle_root c.blake3 (build_merkle_leaves c.blake3 cells))
              s
            ≡ ok tt
          → verify_solution c spec header target
              (build_merkle_root c.blake3 (build_merkle_leaves c.blake3 cells))
              (forge d s)
            ≡ ok tt)
verify_solution-forge_audit c spec cells size wide ne n =
    let (d, long, foreign, opens) =
      verify_merkle_proof_forged c.blake3 spec.node_size size cells wide ne n in
    (
      d,
      long,
      foreign,
      λ header target s e.
          verify_solution-forge c spec
            (build_merkle_root c.blake3 (build_merkle_leaves c.blake3 cells)) d header target s
            opens e,
    )
