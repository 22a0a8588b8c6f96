-- ===== src/Merkle/Levels.antt =====
-- The levels of the Merkle tree: their sizes, and what stands above a node and its sibling.
use colossus_x.Prelude.{
  ℕ, zero, suc, ◌+◌, ◌/◌, ◌%◌, ◌<◌, ◌≡◌, refl, inl, inr, some, List, [], ◌∷◌, arith, length,
  get_elem?, ltb, ◌==◌, if◌then◌else◌, Bool-cases, ok, ◌>>=◌,
}
use colossus_x.Prelude.Bits.{bit_xor-one}
use colossus_x.Bytes.{Bytes}
use colossus_x.Merkle.{
  index, sibling_index, proof_loop, last_level, hash_pair, next_level, levels_loop, root_loop,
  prover_proof, build_merkle_levels,
}

-- two places further on, the sibling is two places further on
sibling_index_shift :
    (n i : ℕ) → sibling_index (suc (suc n)) (suc (suc i)) ≡ suc (suc (sibling_index n i))
unfolding sibling_index
sibling_index_shift n i = ground (arith, bit_xor-one i, bit_xor-one (suc (suc i)))

pub sibling_index-zero : (n : ℕ) → sibling_index (suc (suc n)) 0 ≡ 1
unfolding sibling_index
sibling_index-zero n = ground (arith, bit_xor-one 0)

pub sibling_index_single : sibling_index 1 0 ≡ 0
unfolding sibling_index
sibling_index_single = refl

pub sibling_index-one : (n : ℕ) → sibling_index (suc (suc n)) 1 ≡ 0
unfolding sibling_index
sibling_index-one n = ground (arith, bit_xor-one 1)

pub index_some {ℓ} :
    {A : Type ℓ} (l : List A) (i : ℕ) {x : A} → get_elem? l i ≡ some x → index l i ≡ ok x
index_some l i e = rw (e, index)

prover_proof_in_range :
    (l : List Bytes) (r : List (List Bytes)) (i : ℕ)
    → i < length l
    → prover_proof (record { levels = l ∷ r }) i ≡ proof_loop (l ∷ r) i
unfolding prover_proof
prover_proof_in_range l r i h = ground arith

module _ (blake3 : Bytes → Bytes) where
  -- the node above a node and its sibling
  abbrev pub parent_of : ℕ → Bytes → Bytes → Bytes
  parent_of i h s = if i % 2 == 0 then hash_pair blake3 h s else hash_pair blake3 s h

  abbrev pub Joined : List Bytes → ℕ → Bytes → Type 0
  Joined l i h =
      (s : Bytes) × (get_elem? l (sibling_index (length l) i) ≡ some s)
      × (get_elem? (next_level blake3 l) (i / 2) ≡ some (parent_of i h s))

  pub get_elem?-next_level :
      (l : List Bytes) (i : ℕ) (h : Bytes) → get_elem? l i ≡ some h → Joined l i h
  unfolding next_level
  get_elem?-next_level [] i h e = absurd (cc)
  get_elem?-next_level (a ∷ []) zero h e = (a, rw sibling_index_single, cc)
  get_elem?-next_level (a ∷ []) (suc i) h e = absurd (cc)
  get_elem?-next_level (a ∷ b ∷ r) zero h e = (b, rw (sibling_index-zero (length r)), cc)
  get_elem?-next_level (a ∷ b ∷ r) (suc zero) h e = (a, rw (sibling_index-one (length r)), cc)
  get_elem?-next_level (a ∷ b ∷ r) (suc (suc i)) h e =
      let (s, at, above) = get_elem?-next_level r i h e in
      let half : suc (suc i) / 2 ≡ suc (i / 2) = omega arith in
      let parity : suc (suc i) % 2 ≡ i % 2 = omega arith in
      (s, rw (sibling_index_shift (length r) i) at, rw (half, parity) above)

  pub length-next_level : (l : List Bytes) → length (next_level blake3 l) ≡ (length l + 1) / 2
  unfolding next_level
  length-next_level [] = refl
  length-next_level (a ∷ []) = refl
  length-next_level (a ∷ b ∷ r) = omega (arith, length-next_level r)

  -- the first level is the one that the loop starts from
  pub levels_loop-cons :
      (f : ℕ) (l : List Bytes) → (r : List (List Bytes)) × (levels_loop blake3 f l ≡ l ∷ r)
  unfolding levels_loop
  levels_loop-cons zero l = ([], refl)
  levels_loop-cons (suc f) l = elim (Bool-cases (ltb 1 (length l))) [
    | inl e ↦ (levels_loop blake3 f (next_level blake3 l), rw e)
    | inr e ↦ ([], rw e)
  ]

  pub proof_loop-cons :
      (f : ℕ) (l m : List Bytes) (i : ℕ)
      → proof_loop (l ∷ levels_loop blake3 f m) i ≡ (
          index l (sibling_index (length l) i) >>= λ h.
          proof_loop (levels_loop blake3 f m) (i / 2) >>= λ rest. ok (h ∷ rest))
  unfolding proof_loop
  proof_loop-cons f l m i = let (r, e) = levels_loop-cons f m in rw e

  pub last_level-cons :
      (f : ℕ) (l m : List Bytes)
      → last_level (l ∷ levels_loop blake3 f m) ≡ last_level (levels_loop blake3 f m)
  last_level-cons f l m = let (r, e) = levels_loop-cons f m in rw e

  -- BuildMerkleRoot and the prover work on the same levels
  pub root_loop-eq-last_level :
      (f : ℕ) (l : List Bytes) → root_loop blake3 f l ≡ last_level (levels_loop blake3 f l)
  unfolding root_loop levels_loop
  root_loop-eq-last_level zero l = refl
  root_loop-eq-last_level (suc f) l = elim (Bool-cases (ltb 1 (length l))) [
    | inl e ↦
        rw (e, last_level-cons f l (next_level blake3 l))
          (root_loop-eq-last_level f (next_level blake3 l))
    | inr e ↦ rw e
  ]

  pub prover_proof-build :
      (leaves : List Bytes) (i : ℕ)
      → i < length leaves
      → prover_proof (record { levels = build_merkle_levels blake3 leaves }) i
        ≡ proof_loop (build_merkle_levels blake3 leaves) i
  unfolding build_merkle_levels
  prover_proof-build leaves i h =
      let (r, e) = levels_loop-cons (length leaves) leaves in
      rw e (prover_proof_in_range leaves r i h)
