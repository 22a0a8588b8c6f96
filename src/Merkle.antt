-- ===== src/Merkle.antt =====
-- colossusx/merkle.go and the streaming root of pkg/consensus/validator.go. The hash blake3.Sum256
-- comes from a package outside the repository and is a parameter. An `int` index is a number, since
-- every caller passes an index that came from an unsigned one.
pub mod Levels
pub mod Proofs
pub mod Soundness
pub mod Depth
pub mod Streaming
use colossus_x.Prelude.{
  ℕ, zero, suc, ◌+◌, ◌/◌, ◌%◌, ◌≡◌, Bool, true, false, Option, none, some, List, [], ◌∷◌, ◌++◌, map,
  arith, length, get_elem?, bit_xor, ltb, leb, ◌==◌, if◌then◌else◌, Result, ok, err, panic, ◌>>=◌,
  prover_empty, index_out_of_range, leaves_empty,
}
use colossus_x.Bytes.{Bytes, bytes_eq, zero_hash}

-- levelMerkleProver: the leaves first, the root's level last
pub record LevelProver : Type 0 where
  pub levels : List (List Bytes)

-- nodes[i], which panics out of range
abbrev pub index {ℓ} : {A : Type ℓ} → List A → ℕ → Result A
index l i = elim (get_elem? l i) [ none ↦ panic | some x ↦ ok x ]

-- LeafCount
unfoldable pub leaf_count : LevelProver → ℕ
leaf_count p = elim p.levels [ [] ↦ 0 | l ∷ _ ↦ length l ]

-- p.levels[len(p.levels)-1]
abbrev pub last_level : List (List Bytes) → List Bytes
last_level [] = []
last_level (l ∷ []) = l
last_level (l ∷ m ∷ r) = last_level (m ∷ r)

-- top[0], or the zero hash where there is none
abbrev pub first_or_zero : List Bytes → Bytes
first_or_zero [] = zero_hash
first_or_zero (h ∷ _) = h

-- Root
unfoldable pub prover_root : LevelProver → Bytes
prover_root p = first_or_zero (last_level p.levels)

-- `sibling := idx ^ 1; if sibling >= len(nodes) { sibling = idx }`
unfoldable pub sibling_index : ℕ → ℕ → ℕ
sibling_index count idx = if leb count (bit_xor idx 1) then idx else bit_xor idx 1

-- the loop of Proof, over every level but the last
unfoldable pub proof_loop : List (List Bytes) → ℕ → Result (List Bytes)
proof_loop [] idx = ok []
proof_loop (nodes ∷ []) idx = ok []
proof_loop (nodes ∷ above ∷ r) idx = do
  h ← index nodes (sibling_index (length nodes) idx)
  rest ← proof_loop (above ∷ r) (idx / 2)
  ok (h ∷ rest)

-- Proof
unfoldable pub prover_proof : LevelProver → ℕ → Result (List Bytes)
prover_proof p idx = elim p.levels [
  | [] ↦ err prover_empty
  | leaves ∷ above ↦
      if leb (length leaves) idx then err index_out_of_range else proof_loop (leaves ∷ above) idx
]

module _ (blake3 : Bytes → Bytes) where
  -- hashPair, hashMerklePair
  unfoldable pub hash_pair : Bytes → Bytes → Bytes
  hash_pair left right = blake3 (left ++ right)

  -- the inner loop of buildMerkleLevels: an odd last node is paired with itself
  unfoldable pub next_level : List Bytes → List Bytes
  next_level [] = []
  next_level (a ∷ []) = hash_pair a a ∷ []
  next_level (a ∷ b ∷ r) = hash_pair a b ∷ next_level r

  -- `for len(level) > 1`, on fuel; every round leaves fewer nodes, so the number of leaves is enough
  unfoldable pub levels_loop : ℕ → List Bytes → List (List Bytes)
  levels_loop zero level = level ∷ []
  levels_loop (suc f) level =
      let above = levels_loop f (next_level level) in
      if ltb 1 (length level) then level ∷ above else level ∷ []

  -- buildMerkleLevels
  unfoldable pub build_merkle_levels : List Bytes → List (List Bytes)
  build_merkle_levels leaves = levels_loop (length leaves) leaves

  -- NewMerkleProverFromLeaves
  unfoldable pub new_merkle_prover : List Bytes → Result LevelProver
  new_merkle_prover [] = err leaves_empty
  new_merkle_prover (l ∷ r) = ok (record { levels = build_merkle_levels (l ∷ r) })

  -- BuildMerkleLeaves
  unfoldable pub build_merkle_leaves : List Bytes → List Bytes
  build_merkle_leaves cells = map blake3 cells

  -- the loop of BuildMerkleRoot, which keeps one level at a time
  unfoldable pub root_loop : ℕ → List Bytes → List Bytes
  root_loop zero level = level
  root_loop (suc f) level =
      let above = root_loop f (next_level level) in if ltb 1 (length level) then above else level

  -- BuildMerkleRoot
  unfoldable pub build_merkle_root : List Bytes → Bytes
  build_merkle_root leaves = first_or_zero (root_loop (length leaves) leaves)

  -- BuildMerkleProof, which answers nil where there is no proof
  unfoldable pub build_merkle_proof : List Bytes → ℕ → List Bytes
  build_merkle_proof leaves idx = elim (new_merkle_prover leaves >>= λ p. prover_proof p idx) [
    | ok proof ↦ proof
    | err e ↦ []
    | panic ↦ []
  ]

  -- the loop of VerifyMerkleProof
  unfoldable pub climb : Bytes → ℕ → List Bytes → Bytes
  climb h idx [] = h
  climb h idx (sib ∷ proof) =
      climb (if idx % 2 == 0 then hash_pair h sib else hash_pair sib h) (idx / 2) proof

  -- VerifyMerkleProof
  unfoldable pub verify_merkle_proof : Bytes → Bytes → ℕ → List Bytes → Bool
  verify_merkle_proof root leaf idx proof = bytes_eq (climb leaf idx proof) root

  -- The carry loop of dagMerkleRootStreaming: `none` is a level that is not present. `frontier` and
  -- `present` grow by one where the carry leaves them.
  unfoldable pub add_leaf : List (Option Bytes) → Bytes → List (Option Bytes)
  add_leaf [] h = some h ∷ []
  add_leaf (none ∷ f) h = some h ∷ f
  add_leaf (some left ∷ f) h = none ∷ add_leaf f (hash_pair left h)

  -- the loop over the nodes of the DAG
  unfoldable pub add_leaves : List (Option Bytes) → List Bytes → List (Option Bytes)
  add_leaves f [] = f
  add_leaves f (h ∷ r) = add_leaves (add_leaf f h) r

  -- `for accLevel < level { acc = hashMerklePair(acc, acc); accLevel++ }`, for the rounds to go
  unfoldable pub lift_acc : ℕ → Bytes → Bytes
  lift_acc zero acc = acc
  lift_acc (suc n) acc = lift_acc n (hash_pair acc acc)

  -- The closing loop: the accumulator is `hasAcc`, `acc` and how far `accLevel` lags behind `level`.
  unfoldable pub close_frontier : Option (Bytes × ℕ) → List (Option Bytes) → Bytes
  close_frontier none [] = zero_hash
  close_frontier (some (acc, lag)) [] = acc
  close_frontier none (none ∷ f) = close_frontier none f
  close_frontier (some (acc, lag)) (none ∷ f) = close_frontier (some (acc, suc lag)) f
  close_frontier none (some node ∷ f) = close_frontier (some (node, 1)) f
  close_frontier (some (acc, lag)) (some node ∷ f) =
      close_frontier (some (hash_pair node (lift_acc lag acc), 0)) f

  -- dagMerkleRootStreaming over the cells of the DAG
  unfoldable pub streaming_root : List Bytes → Bytes
  streaming_root cells = close_frontier none (add_leaves [] (map blake3 cells))
