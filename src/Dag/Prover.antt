-- ===== src/Dag/Prover.antt =====
-- colossusx/merkle.go: NewMerkleProverFromAccessor, which hashes the nodes of a DAG one by one.
use colossus_x.Prelude.{
  ℕ, not, map, ◌==◌, Result, ok, ◌>>=◌, ◌>>◌, require, dag_empty, no_node_size,
}
use colossus_x.Bytes.{Bytes}
use colossus_x.Hash.{DagAccessor}
use colossus_x.Merkle.{LevelProver, build_merkle_levels}
use colossus_x.Dag.{dag_cells}

-- NewMerkleProverFromAccessor
unfoldable pub new_merkle_prover_from_accessor :
    (Bytes → Bytes) → DagAccessor → ℕ → Result LevelProver
new_merkle_prover_from_accessor blake3 dag node_size = do
  require (not (dag.count == 0)) dag_empty
  require (not (node_size == 0)) no_node_size
  cells ← dag_cells dag
  ok (record { levels = build_merkle_levels blake3 (map blake3 cells) })
