-- ===== src/Merkle/Proofs.antt =====
-- Completeness: the proof that the prover gives for a leaf is accepted against its root.
use colossus_x.Prelude.{
  ℕ, zero, suc, ◌/◌, ◌≤◌, ◌≡◌, refl, sym, ap, ◌∙◌, true, inl, inr, some, List, [], ◌∷◌, arith,
  length, get_elem?, get_elem?-lt, ltb, Bool-cases, ok,
}
use colossus_x.Bytes.{Bytes, bytes_eq_self}
use colossus_x.Merkle.{
  proof_loop, last_level, first_or_zero, prover_root, prover_proof, next_level, levels_loop,
  build_merkle_levels, build_merkle_root, new_merkle_prover, build_merkle_proof, climb,
  verify_merkle_proof,
}
use colossus_x.Merkle.Levels.{
  prover_proof-build, parent_of, get_elem?-next_level, length-next_level, index_some,
  proof_loop-cons, last_level-cons, root_loop-eq-last_level,
}

module _ (blake3 : Bytes → Bytes) where
  -- a proof of the levels above `l`, along which the node `h` at `i` climbs to the root
  abbrev pub Climbs : List (List Bytes) → ℕ → Bytes → Type 0
  Climbs levels i h =
      (p : List Bytes) × (proof_loop levels i ≡ ok p)
      × (climb blake3 h i p ≡ first_or_zero (last_level levels))

  top-climb :
      (l : List Bytes) (i : ℕ) (h : Bytes)
      → length l ≤ 1
      → get_elem? l i ≡ some h
      → Climbs (l ∷ []) i h
  unfolding climb proof_loop
  top-climb [] i h n e = absurd (cc)
  top-climb (a ∷ []) zero h n e = ([], refl, cc)
  top-climb (a ∷ []) (suc i) h n e = absurd (cc)
  top-climb (a ∷ b ∷ r) i h n e = absurd (omega arith)

  levels-climb :
      (f : ℕ) (l : List Bytes) (i : ℕ) (h : Bytes)
      → length l ≤ suc f
      → get_elem? l i ≡ some h
      → Climbs (levels_loop blake3 f l) i h
  unfolding levels_loop climb
  levels-climb zero l i h n e = top-climb l i h n e
  levels-climb (suc f) l i h n e = elim (Bool-cases (ltb 1 (length l))) [
    | inl many ↦
        let m = next_level blake3 l in
        let (s, at, above) = get_elem?-next_level blake3 l i h e in
        let (p, made, up) =
          levels-climb f m (i / 2) (parent_of blake3 i h s)
            (ground (arith, length-next_level blake3 l)) above in
        (
          s ∷ p,
          rw (many, proof_loop-cons blake3 f l m i, index_some l _ at, made),
          rw (many, last_level-cons blake3 f l m) up,
        )
    | inr one ↦ let (p, made, up) = top-climb l i h (ground arith) e in (p, rw one made, rw one up)
  ]

  -- BuildMerkleRoot is the root of the prover that NewMerkleProverFromLeaves makes
  pub build_merkle_root-eq-prover_root :
      (leaves : List Bytes)
      → build_merkle_root blake3 leaves
        ≡ prover_root (record { levels = build_merkle_levels blake3 leaves })
  unfolding build_merkle_root prover_root build_merkle_levels
  build_merkle_root-eq-prover_root leaves =
      ap first_or_zero (root_loop-eq-last_level blake3 (length leaves) leaves)

  -- the prover made from the leaves gives each of them a proof that climbs to the root
  pub prover_proof-climbs :
      (leaves : List Bytes) (i : ℕ) (leaf : Bytes)
      → get_elem? leaves i ≡ some leaf
      → (p : List Bytes) × (prover_proof (record { levels = build_merkle_levels blake3 leaves }) i
          ≡ ok p)
        × (climb blake3 leaf i p ≡ build_merkle_root blake3 leaves)
  unfolding build_merkle_levels prover_root
  prover_proof-climbs leaves i leaf e =
      let (p, made, up) = levels-climb (length leaves) leaves i leaf (omega arith) e in
      (
        p,
        prover_proof-build blake3 leaves i (get_elem?-lt leaves i e) ∙ made,
        up ∙ sym (build_merkle_root-eq-prover_root leaves),
      )

  build_merkle_proof_eq :
      (leaves : List Bytes) (i : ℕ) (leaf : Bytes) (p : List Bytes)
      → get_elem? leaves i ≡ some leaf
      → prover_proof (record { levels = build_merkle_levels blake3 leaves }) i ≡ ok p
      → build_merkle_proof blake3 leaves i ≡ p
  unfolding build_merkle_proof new_merkle_prover
  build_merkle_proof_eq [] i leaf p e made = absurd (cc)
  build_merkle_proof_eq (a ∷ r) i leaf p e made = rw (made, build_merkle_proof)

  -- Every leaf has a proof that VerifyMerkleProof accepts: BuildMerkleProof's proof of the leaf at
  -- an index is accepted at that index against the root that BuildMerkleRoot computes, for every
  -- number of leaves and every hash function.
  pub verify-build_merkle_proof :
      (leaves : List Bytes) (i : ℕ) (leaf : Bytes)
      → get_elem? leaves i ≡ some leaf
      → verify_merkle_proof blake3
          (build_merkle_root blake3 leaves)
          leaf
          i
          (build_merkle_proof blake3 leaves i)
        ≡ true
  unfolding verify_merkle_proof
  verify-build_merkle_proof leaves i leaf e =
      let (p, made, up) = prover_proof-climbs leaves i leaf e in
      rw (build_merkle_proof_eq leaves i leaf p e made, up) (bytes_eq_self _)
