-- ===== src/Tests/Merkle.antt =====
-- Instances for the Merkle trees, over five cells of two bytes.
use colossus_x.Prelude.{
  ℕ, ◌+◌, ◌≡◌, ◌≢◌, ◌⊎◌, refl, true, some, List, [], ◌∷◌, arith, length, get_elem?, map,
  length-replicate,
}
use colossus_x.Bytes.{Bytes, All}
use colossus_x.Merkle.{
  new_merkle_prover, levels_loop, prover_proof, proof_loop, next_level, hash_pair, sibling_index,
  leaf_count, build_merkle_leaves, build_merkle_root, build_merkle_levels, build_merkle_proof,
  verify_merkle_proof, streaming_root,
}
use colossus_x.Merkle.Proofs.{verify-build_merkle_proof}
use colossus_x.Merkle.Soundness.{Are32, Collision, verify_merkle_proof_sound}
use colossus_x.Merkle.Depth.{verify_merkle_proof_forged, verify_merkle_proof_cell}
use colossus_x.Merkle.Streaming.{streaming_root-eq-build_merkle_root}
use colossus_x.Tests.Hashes.{toy, checksum}

abbrev pub five_cells : List Bytes
five_cells = (1 ∷ 2 ∷ []) ∷ (3 ∷ 4 ∷ []) ∷ (5 ∷ 6 ∷ []) ∷ (7 ∷ 8 ∷ []) ∷ (9 ∷ 10 ∷ []) ∷ []

abbrev pub five_leaves : List Bytes
five_leaves = map (toy 32) five_cells

abbrev a_cell : Bytes
a_cell = 5 ∷ 6 ∷ []

pub toy_size : (x : Bytes) → length (toy 32 x) ≡ 32
toy_size x = length-replicate 32 (checksum 7 x)

verify-build_merkle_proof_example :
    verify_merkle_proof
      (toy 32)
      (build_merkle_root (toy 32) five_leaves)
      (toy 32 (9 ∷ 10 ∷ []))
      4
      (build_merkle_proof (toy 32) five_leaves 4)
    ≡ true
verify-build_merkle_proof_example =
    verify-build_merkle_proof (toy 32) five_leaves 4 (toy 32 (9 ∷ 10 ∷ [])) refl

streaming_root_example :
    streaming_root (toy 32) five_cells
    ≡ build_merkle_root (toy 32) (build_merkle_leaves (toy 32) five_cells)
streaming_root_example = streaming_root-eq-build_merkle_root (toy 32) five_cells

pub five_leaves-Are32 : Are32 five_leaves
five_leaves-Are32 = (refl, (refl, (refl, (refl, (refl, tt)))))

accepted :
    verify_merkle_proof
      (toy 32)
      (build_merkle_root (toy 32) five_leaves)
      (toy 32 (5 ∷ 6 ∷ []))
      2
      (build_merkle_proof (toy 32) five_leaves 2)
    ≡ true
accepted = verify-build_merkle_proof (toy 32) five_leaves 2 (toy 32 (5 ∷ 6 ∷ [])) refl

-- the proof of leaf 2, which has one node for each level below the root
proof_depth :
    length (build_merkle_proof (toy 32) five_leaves 2) + 1
    ≡ length (build_merkle_levels (toy 32) five_leaves)
unfolding build_merkle_proof build_merkle_levels new_merkle_prover levels_loop prover_proof
    proof_loop next_level hash_pair sibling_index leaf_count
proof_depth = refl

proof_Are32 : Are32 (build_merkle_proof (toy 32) five_leaves 2)
unfolding build_merkle_proof build_merkle_levels new_merkle_prover levels_loop prover_proof
    proof_loop next_level hash_pair sibling_index leaf_count
proof_Are32 = (refl, (refl, (refl, tt)))

verify_merkle_proof_sound_example : (toy 32 (5 ∷ 6 ∷ []) ≡ toy 32 (5 ∷ 6 ∷ [])) ⊎ Collision (toy 32)
verify_merkle_proof_sound_example =
    verify_merkle_proof_sound (toy 32) toy_size five_leaves 2 (toy 32 (5 ∷ 6 ∷ []))
      (toy 32 (5 ∷ 6 ∷ [])) (build_merkle_proof (toy 32) five_leaves 2) five_leaves-Are32 refl
      (toy_size (5 ∷ 6 ∷ [])) proof_Are32 proof_depth accepted

pub five_cells_wide : All (λ (x : Bytes). length x ≡ 2) five_cells
five_cells_wide = (refl, (refl, (refl, (refl, (refl, tt)))))

verify_merkle_proof_cell_example : (a_cell ≡ a_cell) ⊎ Collision (toy 32)
unfolding build_merkle_leaves
verify_merkle_proof_cell_example =
    verify_merkle_proof_cell (toy 32) 2 toy_size five_cells 2 a_cell a_cell
      (build_merkle_proof (toy 32) five_leaves 2) (refl, (refl, (refl, (refl, (refl, tt))))) refl
      refl (omega arith) proof_Are32 accepted

verify_merkle_proof_forged_example :
    (d : Bytes) × (length d ≡ 64)
    × ((i : ℕ) → get_elem? five_cells i ≢ some d)
    × ((i : ℕ)
        → verify_merkle_proof
            (toy 32)
            (build_merkle_root (toy 32) (build_merkle_leaves (toy 32) five_cells))
            (toy 32 d)
            i
            []
          ≡ true)
verify_merkle_proof_forged_example =
    verify_merkle_proof_forged (toy 32) 2 toy_size five_cells five_cells_wide (omega arith)
      (omega arith)
