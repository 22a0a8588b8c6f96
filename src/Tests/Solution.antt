-- ===== src/Tests/Solution.antt =====
-- A solution over the DAG of five cells of two bytes: two mining rounds and the audit.
use colossus_x.Prelude.{
  ℕ, ◌+◌, ◌^◌, ◌<◌, ◌≡◌, ◌≢◌, ◌⊎◌, refl, sym, subst, true, [], ◌∷◌, replicate, arith, length,
  get_elem?, none, some, Result, ok, err, panic,
}
use colossus_x.Bytes.{Bytes, All, zeros}
use colossus_x.Spec.{Spec, colossus_x_spec, node_count}
use colossus_x.Target.{less_or_equal_be}
use colossus_x.Nonce.{append_to}
use colossus_x.Bytes.Words.{le_bytes, from_le}
use colossus_x.Hash.{
  colossus_x_trace_hash, trace_from, trace_rounds, round_index, colossus_x_round_mix, fnv1a32,
  words, mix_words, mix_quarters, words_bytes, audit_loop, DagAccessor, HashResult, colossus_x_hash,
  colossus_x_audit_indices,
}
use colossus_x.Merkle.{
  prover_proof, proof_loop, sibling_index, leaf_count, prover_root, hash_pair, next_level,
  levels_loop, build_merkle_levels, new_merkle_prover, build_merkle_leaves, build_merkle_root,
}
use colossus_x.Merkle.Soundness.{Collision}
use colossus_x.Solution.{
  build_solution_with_prover, build_cells, build_cell, Solution, build_solution, verify_solution,
  compact_solution, expand_solution,
}
use colossus_x.Solution.Rounds.{Holds, IsWordBelow, audit_indices_bounds}
use colossus_x.Solution.Complete.{verify-build_solution}
use colossus_x.Solution.Sound.{HasProofs, verify_solution_sound}
use colossus_x.Solution.Audit.{forge, verify_solution-forge_audit}
use colossus_x.Solution.RoundTrip.{proof_nodes, expand_solution-compact_solution}
use colossus_x.Tests.Hashes.{toy, toy_crypto, toy_crypto-HasSizes}
use colossus_x.Tests.Merkle.{five_cells, five_cells_wide, toy_size}

abbrev small_spec : Spec
small_spec = record colossus_x_spec { dag_size_bytes = 10; node_size = 2; reads_per_hash = 2 }

abbrev small_dag : DagAccessor
small_dag = record {
  count = 5;
  read_node = λ i. elim (get_elem? five_cells i) [ none ↦ panic | some cell ↦ ok cell ];
}

small_reads :
    (i : ℕ) (cell : Bytes) → get_elem? five_cells i ≡ some cell → small_dag.read_node i ≡ ok cell
small_reads i cell e = rw e refl

small_Holds : Holds small_spec small_dag five_cells
unfolding node_count
small_Holds = record {
  filled = omega arith;
  counted = refl;
  sized = refl;
  reads = small_reads;
  widths = (refl, (refl, (refl, (refl, (refl, tt)))));
}

abbrev a_header : Bytes
a_header = 1 ∷ 2 ∷ 3 ∷ []

abbrev small_root : Bytes
small_root = build_merkle_root (toy 32) (build_merkle_leaves (toy 32) five_cells)

verify-build_solution_example :
    (r : HashResult) × (s : Solution) × (colossus_x_hash toy_crypto small_spec a_header
        (some 5)
        small_dag
      ≡ ok r)
    × (build_solution toy_crypto small_spec a_header 5 small_dag
          (build_merkle_leaves (toy 32) five_cells)
        ≡ ok (s, small_root))
    × ((target : Bytes)
        → less_or_equal_be r.pow256 target ≡ true
        → verify_solution toy_crypto small_spec a_header target small_root s ≡ ok tt)
verify-build_solution_example =
    verify-build_solution toy_crypto small_spec small_dag five_cells a_header 5 toy_crypto-HasSizes
      small_Holds

abbrev dummy : Solution
dummy = record { nonce = 0; mix_digest = []; mining_cells = []; audit_cells = [] }

abbrev solution_of : Result (Solution × Bytes) → Solution
solution_of (ok (s, _)) = s
solution_of (err _) = dummy
solution_of panic = dummy

abbrev a_solution : Solution
a_solution = solution_of (
    build_solution toy_crypto small_spec a_header 5 small_dag
      (build_merkle_leaves (toy 32) five_cells))

audit_indices_example :
    (length (colossus_x_audit_indices toy_crypto (zeros 32) 5 4) ≡ 4)
    × All (IsWordBelow 5) (colossus_x_audit_indices toy_crypto (zeros 32) 5 4)
audit_indices_example =
    audit_indices_bounds toy_crypto (zeros 32) 5 4 toy_crypto-HasSizes (omega arith)

verify_solution-forge_audit_example :
    (d : Bytes) × (length d ≡ 64)
    × ((i : ℕ) → get_elem? five_cells i ≢ some d)
    × ((header target : Bytes) (s : Solution)
        → verify_solution toy_crypto small_spec header target
            (build_merkle_root (toy 32) (build_merkle_leaves (toy 32) five_cells))
            s
          ≡ ok tt
        → verify_solution toy_crypto small_spec header target
            (build_merkle_root (toy 32) (build_merkle_leaves (toy 32) five_cells))
            (forge d s)
          ≡ ok tt)
verify_solution-forge_audit_example =
    verify_solution-forge_audit toy_crypto small_spec five_cells toy_size five_cells_wide
      (omega arith) (omega arith)

built_is :
    (r : Result (Solution × Bytes)) (s : Solution) (root : Bytes)
    → r ≡ ok (s, root)
    → solution_of r ≡ s
built_is r s root e = rw e refl

abbrev a_result : Result HashResult
a_result = colossus_x_hash toy_crypto small_spec a_header (some 5) small_dag

abbrev pow_of : Result HashResult → Bytes
pow_of (ok r) = r.pow256
pow_of (err _) = []
pow_of panic = []

pow_is : (r : Result HashResult) (h : HashResult) → r ≡ ok h → pow_of r ≡ h.pow256
pow_is r h e = rw e refl

-- the hash of the nonce meets the easiest target
a_result_meets : less_or_equal_be (pow_of a_result) (replicate 32 255) ≡ true
unfolding less_or_equal_be colossus_x_hash colossus_x_trace_hash trace_from trace_rounds round_index
    colossus_x_round_mix fnv1a32 words mix_words mix_quarters words_bytes append_to le_bytes from_le
a_result_meets = refl

-- and so the solution does
a_solution_accepted :
    verify_solution toy_crypto small_spec a_header (replicate 32 255) small_root a_solution ≡ ok tt
a_solution_accepted =
    let (r, s, hashed, made, accepted) =
      verify-build_solution toy_crypto small_spec small_dag five_cells a_header 5
        toy_crypto-HasSizes small_Holds in
    subst
      (λ (t : Solution).
        verify_solution toy_crypto small_spec a_header (replicate 32 255) small_root t ≡ ok tt)
      (sym (
        built_is
          (build_solution toy_crypto small_spec a_header 5 small_dag
            (build_merkle_leaves (toy 32) five_cells))
          s small_root made))
      (accepted (replicate 32 255) (
        subst (λ (p : Bytes). less_or_equal_be p (replicate 32 255) ≡ true)
          (pow_is a_result r hashed) a_result_meets))

a_solution_HasProofs : HasProofs a_solution.mining_cells
unfolding colossus_x_hash colossus_x_trace_hash trace_from trace_rounds round_index
    colossus_x_round_mix fnv1a32 words mix_words mix_quarters words_bytes append_to le_bytes from_le
    build_solution build_solution_with_prover build_cells build_cell prover_proof proof_loop
    sibling_index leaf_count prover_root hash_pair next_level levels_loop build_merkle_levels
    new_merkle_prover build_merkle_leaves colossus_x_audit_indices audit_loop node_count
a_solution_HasProofs = ((refl, (refl, (refl, tt))), ((refl, (refl, (refl, tt))), tt))

verify_solution_sound_example :
    ((r : HashResult) × (colossus_x_hash toy_crypto small_spec a_header
          (some a_solution.nonce)
          small_dag
        ≡ ok r)
      × (less_or_equal_be r.pow256 (replicate 32 255) ≡ true))
    ⊎ Collision (toy 32)
verify_solution_sound_example =
    verify_solution_sound toy_crypto small_spec small_dag five_cells a_header (replicate 32 255)
      a_solution toy_size small_Holds (omega arith) a_solution_HasProofs a_solution_accepted

a_solution_small : proof_nodes a_solution.mining_cells + proof_nodes a_solution.audit_cells < 2 ^ 32
unfolding colossus_x_hash colossus_x_trace_hash trace_from trace_rounds round_index
    colossus_x_round_mix fnv1a32 words mix_words mix_quarters words_bytes append_to le_bytes from_le
    build_solution build_solution_with_prover build_cells build_cell prover_proof proof_loop
    sibling_index leaf_count prover_root hash_pair next_level levels_loop build_merkle_levels
    new_merkle_prover build_merkle_leaves colossus_x_audit_indices audit_loop node_count
a_solution_small = omega arith

expand_solution_example : expand_solution (compact_solution a_solution) ≡ ok a_solution
expand_solution_example = expand_solution-compact_solution a_solution a_solution_small
