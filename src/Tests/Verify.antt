-- ===== src/Tests/Verify.antt =====
-- The verify command on a chain whose first DAG is one cell.
use colossus_x.Prelude.{◌≡◌, ◌≢◌, ◌↔◌, inr, refl, some, replicate, arith, ok}
use colossus_x.Bytes.{bytes_eq, zero_hash}
use colossus_x.Crypto.{Crypto}
use colossus_x.Dag.{new_dag_with_allocator, generate_dag, dag_cells, indices}
use colossus_x.Merkle.{streaming_root, add_leaves, add_leaf, close_frontier}
use colossus_x.Spec.{
  resolved_for_height, dag_size_for_height, dag_size_for_epoch, validate, node_count, InRange,
  colossus_x_spec_with_growth, mode_colossus_x, initial_dag_size, growth_dag_size_per_epoch,
}
use colossus_x.Spec.Validate.{IsValid}
use colossus_x.Types.{Block}
use colossus_x.Consensus.Header.{
  header_block, validate_dag_merkle_root, validate_pow, dag_for_header, merkle_root_for_dag,
}
use colossus_x.Consensus.Header.Rules.{HasEpoch}
use colossus_x.Verify.{verify_input}
use colossus_x.Verify.Agrees.{on_chain, verify_input-validate_pow}
use colossus_x.Tests.Hashes.{toy_crypto}
use colossus_x.Tests.Chain.{a_validator, root_header, differs}

cell_chain-IsValid : IsValid (colossus_x_spec_with_growth 256 256)
unfolding initial_dag_size growth_dag_size_per_epoch colossus_x_spec_with_growth
cell_chain-IsValid = record {
  initial_pos = omega arith;
  node_fixed = refl;
  reads_pos = omega arith;
  epoch_pos = omega arith;
  initial_aligned = refl;
  growth_aligned = refl;
  mode_known = inr refl;
}

cell_chain-InRange : InRange (colossus_x_spec_with_growth 256 256)
unfolding colossus_x_spec_with_growth
cell_chain-InRange = record {
  size = omega arith;
  initial = omega arith;
  growth = omega arith;
  reads = omega arith;
  epoch = omega arith;
}

-- toy hash functions with one BLAKE3 digest
abbrev flat_crypto : Crypto
flat_crypto = record toy_crypto { blake3 = λ b. replicate 32 1 }

abbrev cell_block : Block
cell_block = header_block flat_crypto (record root_header {
  algorithm_version = 2;
  dag_size_bytes = 256;
  dag_merkle_root = replicate 32 1;
})

cell_named : cell_block.header.dag_merkle_root ≢ zero_hash
unfolding bytes_eq
cell_named = differs (replicate 32 1) zero_hash refl

cell_rooted :
    validate_dag_merkle_root flat_crypto
      (on_chain flat_crypto a_validator 256 256)
      cell_block.header
    ≡ ok tt
unfolding validate_dag_merkle_root dag_for_header merkle_root_for_dag resolved_for_height
    dag_size_for_height dag_size_for_epoch initial_dag_size growth_dag_size_per_epoch
    colossus_x_spec_with_growth new_dag_with_allocator validate generate_dag node_count dag_cells
    indices streaming_root add_leaves add_leaf close_frontier bytes_eq
cell_rooted = refl

verify_input-validate_pow_example :
    (verify_input flat_crypto mode_colossus_x 256 256 cell_block.header (some cell_block) ≡ ok tt)
    ↔ ((2 ≡ (colossus_x_spec_with_growth 256 256).algorithm_version)
        × HasEpoch flat_crypto (colossus_x_spec_with_growth 256 256) cell_block.header 0
        × (validate_pow flat_crypto (on_chain flat_crypto a_validator 256 256) cell_block ≡ ok tt))
verify_input-validate_pow_example =
    verify_input-validate_pow flat_crypto a_validator 256 256 cell_block cell_chain-IsValid
      cell_chain-InRange cell_named cell_rooted
