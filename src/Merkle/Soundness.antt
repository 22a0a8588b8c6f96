-- ===== src/Merkle/Soundness.antt =====
-- Soundness: what an accepted Merkle proof says of the leaf, and what it does not say where the
-- length of the proof is left unchecked.
use colossus_x.Prelude.{
  ℕ, zero, suc, ◌+◌, ◌/◌, ◌%◌, ◌≤◌, ◌≡◌, ◌≢◌, ◌⊎◌, refl, sym, ◌∙◌, true, inl, inr, some, List, [],
  ◌∷◌, ◌++◌, arith, length, get_elem?, ltb, ◌==◌, Bool-cases, length-append,
}
use colossus_x.Bytes.{Bytes, All, bytes_eq, bytes_eq_self, bytes_eq_iff, append-injective}
use colossus_x.Merkle.{
  last_level, first_or_zero, prover_root, hash_pair, next_level, levels_loop, root_loop,
  build_merkle_levels, build_merkle_root, climb, verify_merkle_proof,
}
use colossus_x.Merkle.Levels.{
  parent_of, get_elem?-next_level, length-next_level, levels_loop-cons, last_level-cons,
}
use colossus_x.Merkle.Proofs.{build_merkle_root-eq-prover_root}

abbrev pub Are32 : List Bytes → Type 0
Are32 = All (λ h. length h ≡ 32)

Are32-get : (l : List Bytes) (i : ℕ) {h : Bytes} → Are32 l → get_elem? l i ≡ some h → length h ≡ 32
Are32-get [] i a e = absurd (cc)
Are32-get (x ∷ l) zero a e = ground (arith, a.0)
Are32-get (x ∷ l) (suc i) a e = Are32-get l i a.1 e

-- two inputs that the hash function confuses
abbrev pub Collision : (Bytes → Bytes) → Type 0
Collision blake3 = (x y : Bytes) × (x ≢ y) × (blake3 x ≡ blake3 y)

pub eq_or_Collision :
    (blake3 : Bytes → Bytes) (x y : Bytes) → blake3 x ≡ blake3 y → (x ≡ y) ⊎ Collision blake3
eq_or_Collision blake3 x y e = elim (Bool-cases (bytes_eq x y)) [
  | inl same ↦ inl ((bytes_eq_iff x y).0 same)
  | inr other ↦ inr (x, y, (λ p. cc ((bytes_eq_iff x y).1 p)), e)
]

module _ (blake3 : Bytes → Bytes) (size : (x : Bytes) → length (blake3 x) ≡ 32) where
  next_level-Are32 : (l : List Bytes) → Are32 (next_level blake3 l)
  unfolding next_level hash_pair
  next_level-Are32 [] = tt
  next_level-Are32 (a ∷ []) = (size (a ++ a), tt)
  next_level-Are32 (a ∷ b ∷ r) = (size (a ++ b), next_level-Are32 r)

  -- equal parents have equal children, or there is a collision
  parent_of-injective :
      (i : ℕ) (h s h' s' : Bytes)
      → length h ≡ length h'
      → length s ≡ length s'
      → parent_of blake3 i h s ≡ parent_of blake3 i h' s'
      → (h ≡ h') ⊎ Collision blake3
  unfolding hash_pair
  parent_of-injective i h s h' s' p q e = elim (Bool-cases (i % 2 == 0)) [
    | inl even ↦ elim (eq_or_Collision blake3 (h ++ s) (h' ++ s') (rw even at e)) [
      | inl same ↦ inl (append-injective h h' s s' p same).0
      | inr c ↦ inr c
    ]
    | inr odd ↦ elim (eq_or_Collision blake3 (s ++ h) (s' ++ h') (rw odd at e)) [
      | inl same ↦ inl (append-injective s s' h h' q same).1
      | inr c ↦ inr c
    ]
  ]

  abbrev Sound : List (List Bytes) → ℕ → Bytes → Bytes → List Bytes → Type 0
  Sound levels i h h' p =
      length h' ≡ 32
      → Are32 p
      → length p + 1 ≡ length levels
      → climb blake3 h' i p ≡ first_or_zero (last_level levels)
      → (h' ≡ h) ⊎ Collision blake3

  top-Sound :
      (l : List Bytes) (i : ℕ) (h h' : Bytes) (p : List Bytes)
      → length l ≤ 1
      → get_elem? l i ≡ some h
      → Sound (l ∷ []) i h h' p
  unfolding climb
  top-Sound [] i h h' p n e = absurd (cc)
  top-Sound (a ∷ []) (suc i) h h' p n e = absurd (cc)
  top-Sound (a ∷ []) zero h h' [] n e = λ q ps d up. inl (cc)
  top-Sound (a ∷ []) zero h h' (s ∷ p) n e = λ q ps d up. absurd (omega arith)
  top-Sound (a ∷ b ∷ r) i h h' p n e = absurd (omega arith)

  pub length-parent_of : (i : ℕ) (h s : Bytes) → length (parent_of blake3 i h s) ≡ 32
  unfolding hash_pair
  length-parent_of i h s = elim (Bool-cases (i % 2 == 0)) [
    | inl even ↦ rw even (size (h ++ s))
    | inr odd ↦ rw odd (size (s ++ h))
  ]

  -- one level down: a node whose parent is the right one is the right one
  step_sound :
      (l : List Bytes) (i : ℕ) (h h' s : Bytes)
      → Are32 l
      → get_elem? l i ≡ some h
      → length h' ≡ 32
      → length s ≡ 32
      → ((g : Bytes)
          → get_elem? (next_level blake3 l) (i / 2) ≡ some g
          → (parent_of blake3 i h' s ≡ g) ⊎ Collision blake3)
      → (h' ≡ h) ⊎ Collision blake3
  step_sound l i h h' s a e q t above =
      let (s', at, up) = get_elem?-next_level blake3 l i h e in
      elim (above (parent_of blake3 i h s') up) [
        | inl same ↦
            parent_of-injective i h' s h s' (q ∙ sym (Are32-get l i a e))
              (t ∙ sym (Are32-get l _ a at)) same
        | inr c ↦ inr c
      ]

  levels-Sound :
      (f : ℕ) (l : List Bytes) (i : ℕ) (h h' : Bytes) (p : List Bytes)
      → length l ≤ suc f
      → Are32 l
      → get_elem? l i ≡ some h
      → Sound (levels_loop blake3 f l) i h h' p
  unfolding levels_loop climb
  levels-Sound zero l i h h' p n a e = top-Sound l i h h' p n e
  levels-Sound (suc f) l i h h' [] n a e = elim (Bool-cases (ltb 1 (length l))) [
    | inr one ↦ rw one (top-Sound l i h h' [] (ground arith) e)
    | inl many ↦
        let (r, first) = levels_loop-cons blake3 f (next_level blake3 l) in
        rw (many, first) (λ q ps d up. absurd (omega arith))
  ]
  levels-Sound (suc f) l i h h' (s ∷ p) n a e = elim (Bool-cases (ltb 1 (length l))) [
    | inr one ↦ rw one (top-Sound l i h h' (s ∷ p) (ground arith) e)
    | inl many ↦
        let m = next_level blake3 l in
        rw (many, last_level-cons blake3 f l m)
          (λ q ps d up. step_sound l i h h' s a e q ps.0 (λ g at.
            levels-Sound f m (i / 2) g (parent_of blake3 i h' s) p
              (ground (arith, length-next_level blake3 l)) (next_level-Are32 l) at
              (length-parent_of i h' s) ps.1 (omega arith) up))
  ]

  -- An accepted proof of the tree's depth authenticates its leaf: if VerifyMerkleProof accepts a
  -- 32-byte leaf at an index against the root of the leaves, with a proof of 32-byte nodes that has
  -- one node for each level below the root, then the leaf is the one at that index, or two inputs
  -- on which the hash function collides are at hand.
  pub verify_merkle_proof_sound :
      (leaves : List Bytes) (i : ℕ) (leaf leaf' : Bytes) (proof : List Bytes)
      → Are32 leaves
      → get_elem? leaves i ≡ some leaf
      → length leaf' ≡ 32
      → Are32 proof
      → length proof + 1 ≡ length (build_merkle_levels blake3 leaves)
      → verify_merkle_proof blake3 (build_merkle_root blake3 leaves) leaf' i proof ≡ true
      → (leaf' ≡ leaf) ⊎ Collision blake3
  unfolding build_merkle_levels verify_merkle_proof prover_root
  verify_merkle_proof_sound leaves i leaf leaf' proof a e q ps d accepted =
      levels-Sound (length leaves) leaves i leaf leaf' proof (omega arith) a e q ps d
        ((bytes_eq_iff _ _).0 accepted ∙ build_merkle_root-eq-prover_root blake3 leaves)

  root_loop-single : (f : ℕ) (h : Bytes) → root_loop blake3 f (h ∷ []) ≡ h ∷ []
  unfolding root_loop
  root_loop-single zero h = refl
  root_loop-single (suc f) h = refl

  abbrev IsJoin : List Bytes → Type 0
  IsJoin top = (x y : Bytes) × (length (x ++ y) ≡ 64) × (top ≡ hash_pair blake3 x y ∷ [])

  root_loop-IsJoin :
      (f : ℕ) (l : List Bytes)
      → 2 ≤ length l
      → length l ≤ suc f
      → Are32 l
      → IsJoin (root_loop blake3 f l)
  unfolding root_loop next_level
  root_loop-IsJoin f [] n m a = absurd (omega arith)
  root_loop-IsJoin f (x ∷ []) n m a = absurd (omega arith)
  root_loop-IsJoin zero (x ∷ y ∷ r) n m a = absurd (omega arith)
  root_loop-IsJoin (suc f) (x ∷ y ∷ []) n m a = (
    x,
    y,
    omega (arith, length-append x y, a.0, a.1.0),
    root_loop-single f (hash_pair blake3 x y),
  )
  root_loop-IsJoin (suc f) (x ∷ y ∷ z ∷ r) n m a =
      let many : ltb 1 (length (x ∷ y ∷ z ∷ r)) ≡ true = ground arith in
      let shorter = length-next_level blake3 (z ∷ r) in
      rw many (
        root_loop-IsJoin f (next_level blake3 (x ∷ y ∷ z ∷ r)) (omega (arith, shorter))
          (omega (arith, shorter)) (next_level-Are32 (x ∷ y ∷ z ∷ r)))

  -- The length of the proof is not checked: for any tree of two leaves or more there are 64 bytes
  -- whose hash VerifyMerkleProof accepts as a leaf at every index with the empty proof.
  pub verify_merkle_proof_short :
      (leaves : List Bytes)
      → Are32 leaves
      → 2 ≤ length leaves
      → (d : Bytes) × (length d ≡ 64)
        × ((i : ℕ)
            → verify_merkle_proof blake3 (build_merkle_root blake3 leaves) (blake3 d) i [] ≡ true)
  unfolding verify_merkle_proof climb build_merkle_root hash_pair
  verify_merkle_proof_short leaves a n =
      let (x, y, long, top) = root_loop-IsJoin (length leaves) leaves n (omega arith) a in
      (x ++ y, long, λ i. rw top (bytes_eq_self (blake3 (x ++ y))))
