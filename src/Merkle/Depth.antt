-- ===== src/Merkle/Depth.antt =====
-- The depth of an accepted proof. A leaf is the digest of a cell, a node above the leaves is the
-- digest of 64 bytes; where cells have another size, a proof that is too short or too long would
-- show an input of either kind with one digest.
use colossus_x.Prelude.{
  ℕ, zero, suc, ◌+◌, ◌/◌, ◌%◌, ◌≤◌, ◌<◌, ◌≡◌, ◌≢◌, ◌⊎◌, refl, sym, ap, ◌∙◌, true, inl, inr, some,
  List, [], ◌∷◌, ◌++◌, arith, length, get_elem?, get_elem?-lt, get_elem?-map, ltb, ◌==◌,
  if◌then◌else◌, Bool-cases, length-append, length-map, subst,
}
use colossus_x.Bytes.{Bytes, All, bytes_eq_iff, append-injective}
use colossus_x.Merkle.{
  first_or_zero, hash_pair, next_level, levels_loop, root_loop, build_merkle_levels,
  build_merkle_root, climb, verify_merkle_proof, build_merkle_leaves,
}
use colossus_x.Merkle.Levels.{parent_of, length-next_level}
use colossus_x.Merkle.Soundness.{
  length-parent_of, Are32, Collision, eq_or_Collision, verify_merkle_proof_sound,
  verify_merkle_proof_short,
}

module _ (blake3 : Bytes → Bytes) (width : ℕ) where
  -- a tree of a given height over cells of one width
  data IsTree : ℕ → Bytes → Type 0 where
    leaf : {h : Bytes} (cell : Bytes) → length cell ≡ width → h ≡ blake3 cell → IsTree zero h
    join :
        {n : ℕ} {h : Bytes} (x y : Bytes)
        → IsTree n x
        → IsTree n y
        → length x ≡ 32
        → length y ≡ 32
        → h ≡ blake3 (x ++ y)
        → IsTree (suc n) h

  abbrev AreTrees : ℕ → List Bytes → Type 0
  AreTrees n = All (λ h. IsTree n h × (length h ≡ 32))

  get_leaf :
      (cells : List Bytes) (i : ℕ) (cell : Bytes)
      → get_elem? cells i ≡ some cell
      → get_elem? (build_merkle_leaves blake3 cells) i ≡ some (blake3 cell)
  unfolding build_merkle_leaves
  get_leaf cells i cell at = get_elem?-map blake3 cells i at

  plus_zero : (n : ℕ) (h : Bytes) → IsTree n h → IsTree (0 + n) h
  plus_zero n h t = let e : n ≡ 0 + n = omega arith in subst (λ k. IsTree k h) e t

  module _ (size : (x : Bytes) → length (blake3 x) ≡ 32) where
    next_level-AreTrees :
        (n : ℕ) (l : List Bytes) → AreTrees n l → AreTrees (suc n) (next_level blake3 l)
    unfolding next_level hash_pair
    next_level-AreTrees n [] a = tt
    next_level-AreTrees n (x ∷ []) a = ((join x x a.0.0 a.0.0 a.0.1 a.0.1 refl, size (x ++ x)), tt)
    next_level-AreTrees n (x ∷ y ∷ r) a =
        ((join x y a.0.0 a.1.0.0 a.0.1 a.1.0.1 refl, size (x ++ y)), next_level-AreTrees n r a.1.1)

    -- the root is a tree whose height is the number of levels above the leaves
    root-IsTree :
        (f n : ℕ) (l : List Bytes)
        → 0 < length l
        → length l ≤ suc f
        → AreTrees n l
        → (k : ℕ) × (k + 1 ≡ length (levels_loop blake3 f l))
          × IsTree (k + n) (first_or_zero (root_loop blake3 f l))
    unfolding levels_loop root_loop
    root-IsTree f n [] p q a = absurd (omega arith)
    root-IsTree zero n (x ∷ []) p q a = (0, refl, plus_zero n x a.0.0)
    root-IsTree (suc f) n (x ∷ []) p q a = (0, refl, plus_zero n x a.0.0)
    root-IsTree zero n (x ∷ y ∷ r) p q a = absurd (omega arith)
    root-IsTree (suc f) n (x ∷ y ∷ r) p q a =
        let l = x ∷ y ∷ r in
        let shorter = length-next_level blake3 l in
        let many : ltb 1 (length l) ≡ true = ground arith in
        let (k, e, t) =
          root-IsTree f (suc n) (next_level blake3 l) (omega (arith, shorter))
            (omega (arith, shorter)) (next_level-AreTrees n l a) in
        let up : k + suc n ≡ suc k + n = omega arith in
        rw many (
          suc k,
          omega (arith, e),
          subst (λ j. IsTree j (first_or_zero (root_loop blake3 f (next_level blake3 l)))) up t,
        )

    -- a node that climbs to a tree is a tree itself, as much lower as the proof is long
    abbrev Descends : ℕ → Bytes → List Bytes → Type 0
    Descends n h p = ((k : ℕ) × (k + length p ≡ n) × IsTree k h) ⊎ Collision blake3

    child_trees :
        (n : ℕ) (g h s : Bytes)
        → IsTree n g
        → g ≡ blake3 (h ++ s)
        → length h ≡ 32
        → length s ≡ 32
        → width ≢ 64
        → ((k : ℕ) × (suc k ≡ n) × IsTree k h × IsTree k s) ⊎ Collision blake3
    child_trees n g h s (leaf cell w e) up p q ne = inr (
      cell,
      h ++ s,
      λ same. ne (omega (arith, w, ap (λ (b : Bytes). length b) same, length-append h s, p, q)),
      sym e ∙ up,
    )
    child_trees n g h s (join {n = k} x y tx ty px py e) up p q ne =
        elim (eq_or_Collision blake3 (x ++ y) (h ++ s) (sym e ∙ up)) [
          | inl same ↦
              let (left, right) = append-injective x h y s (px ∙ sym p) same in
              inl (k, refl, subst (IsTree k) left tx, subst (IsTree k) right ty)
          | inr c ↦ inr c
        ]

    -- one step of a proof, on either side
    step-IsTree :
        (n i : ℕ) (h s : Bytes)
        → IsTree n (if i % 2 == 0 then hash_pair blake3 h s else hash_pair blake3 s h)
        → length h ≡ 32
        → length s ≡ 32
        → width ≢ 64
        → ((k : ℕ) × (suc k ≡ n) × IsTree k h) ⊎ Collision blake3
    unfolding hash_pair
    step-IsTree n i h s t p q ne = elim (Bool-cases (i % 2 == 0)) [
      | inl even ↦ elim (child_trees n (blake3 (h ++ s)) h s (rw even at t) refl p q ne) [
        | inl (k, e, th, ts) ↦ inl (k, e, th)
        | inr c ↦ inr c
      ]
      | inr odd ↦ elim (child_trees n (blake3 (s ++ h)) s h (rw odd at t) refl q p ne) [
        | inl (k, e, ts, th) ↦ inl (k, e, th)
        | inr c ↦ inr c
      ]
    ]

    climb-Descends :
        (p : List Bytes) (h : Bytes) (i n : ℕ)
        → IsTree n (climb blake3 h i p)
        → length h ≡ 32
        → Are32 p
        → width ≢ 64
        → Descends n h p
    unfolding climb
    climb-Descends [] h i n t q ps ne = inl (n, omega arith, t)
    climb-Descends (s ∷ p) h i n t q ps ne =
        elim (climb-Descends p (parent_of blake3 i h s) (i / 2) n t
          (length-parent_of blake3 size i h s) ps.1 ne) [
            | inl (k, e, up) ↦ elim (step-IsTree k i h s up q ps.0 ne) [
              | inl (j, e', th) ↦ inl (j, omega arith, th)
              | inr c ↦ inr c
            ]
            | inr c ↦ inr c
          ]

    -- a cell's digest is a tree of height 0
    cell-IsTree :
        (n : ℕ) (h d : Bytes)
        → IsTree n h
        → h ≡ blake3 d
        → length d ≡ width
        → width ≢ 64
        → (n ≡ 0) ⊎ Collision blake3
    cell-IsTree n h d (leaf cell w e) hd wd ne = inl refl
    cell-IsTree n h d (join x y tx ty px py e) hd wd ne = inr (
      x ++ y,
      d,
      λ same. ne (omega (arith, wd, ap (λ (b : Bytes). length b) same, length-append x y, px, py)),
      sym e ∙ hd,
    )

    leaves-AreTrees :
        (cells : List Bytes)
        → All (λ cell. length cell ≡ width) cells
        → AreTrees 0 (build_merkle_leaves blake3 cells)
    unfolding build_merkle_leaves
    leaves-AreTrees [] a = tt
    leaves-AreTrees (x ∷ r) a = ((leaf x a.0 refl, size x), leaves-AreTrees r a.1)

    leaves-Are32 : (cells : List Bytes) → Are32 (build_merkle_leaves blake3 cells)
    unfolding build_merkle_leaves
    leaves-Are32 [] = tt
    leaves-Are32 (x ∷ r) = (size x, leaves-Are32 r)

    depth_of_accepted :
        (leaves : List Bytes) (d : Bytes) (i : ℕ) (proof : List Bytes)
        → 0 < length leaves
        → AreTrees 0 leaves
        → length d ≡ width
        → width ≢ 64
        → Are32 proof
        → climb blake3 (blake3 d) i proof ≡ build_merkle_root blake3 leaves
        → (length proof + 1 ≡ length (build_merkle_levels blake3 leaves)) ⊎ Collision blake3
    unfolding build_merkle_levels build_merkle_root
    depth_of_accepted leaves d i proof n a w ne ps up =
        let (k, e, t) = root-IsTree (length leaves) 0 leaves n (omega arith) a in
        elim (climb-Descends proof (blake3 d) i (k + 0) (rw up t) (size d) ps ne) [
          | inr c ↦ inr c
          | inl (j, f, td) ↦ elim (cell-IsTree j (blake3 d) d td refl w ne) [
            | inr c ↦ inr c
            | inl bottom ↦ inl (omega (arith, e, f, bottom))
          ]
        ]

    -- For cells of one width other than 64 bytes, VerifyMerkleProof needs no check of the proof's
    -- length: if it accepts the digest of bytes of that width at the index of a cell, against the
    -- root of the cells and with a proof of 32-byte nodes of any length, then the bytes are that
    -- cell, or two inputs on which the hash function collides are at hand.
    pub verify_merkle_proof_cell :
        (cells : List Bytes) (i : ℕ) (cell d : Bytes) (proof : List Bytes)
        → All (λ x. length x ≡ width) cells
        → get_elem? cells i ≡ some cell
        → length d ≡ width
        → width ≢ 64
        → Are32 proof
        → verify_merkle_proof blake3
            (build_merkle_root blake3 (build_merkle_leaves blake3 cells))
            (blake3 d)
            i
            proof
          ≡ true
        → (d ≡ cell) ⊎ Collision blake3
    unfolding verify_merkle_proof
    verify_merkle_proof_cell cells i cell d proof a at w ne ps accepted =
        let leaves = build_merkle_leaves blake3 cells in
        let leaf_at = get_leaf cells i cell at in
        elim (depth_of_accepted leaves d i proof (omega (arith, get_elem?-lt leaves i leaf_at))
          (leaves-AreTrees cells a) w ne ps ((bytes_eq_iff _ _).0 accepted)) [
            | inr c ↦ inr c
            | inl deep ↦
                elim (verify_merkle_proof_sound blake3 size leaves i (blake3 cell) (blake3 d) proof
                  (leaves-Are32 cells) leaf_at (size d) ps deep accepted) [
                    | inr c ↦ inr c
                    | inl same ↦ eq_or_Collision blake3 d cell same
                  ]
          ]

    get-width :
        (cells : List Bytes) (i : ℕ) {d : Bytes}
        → All (λ cell. length cell ≡ width) cells
        → get_elem? cells i ≡ some d
        → length d ≡ width
    get-width [] i a e = absurd cc
    get-width (x ∷ cells) zero a e =
        let same : x ≡ _ = cc in ap (λ (b : Bytes). length b) (sym same) ∙ a.0
    get-width (x ∷ cells) (suc i) a e = get-width cells i a.1 e

    -- VerifyMerkleProof does not check the length of the proof, so that the check of a cell's width
    -- is needed: for two cells or more of one width other than 64 bytes there are 64 bytes that are
    -- none of the cells, and whose digest is accepted at every index with the empty proof.
    pub verify_merkle_proof_forged :
        (cells : List Bytes)
        → All (λ x. length x ≡ width) cells
        → width ≢ 64
        → 2 ≤ length cells
        → (d : Bytes) × (length d ≡ 64)
          × ((i : ℕ) → get_elem? cells i ≢ some d)
          × ((i : ℕ)
              → verify_merkle_proof blake3
                  (build_merkle_root blake3 (build_merkle_leaves blake3 cells))
                  (blake3 d)
                  i
                  []
                ≡ true)
    unfolding build_merkle_leaves
    verify_merkle_proof_forged cells a ne many =
        let leaves = build_merkle_leaves blake3 cells in
        let enough : 2 ≤ length leaves = omega (arith, many, length-map cells blake3) in
        let (d, long, opens) =
          verify_merkle_proof_short blake3 size leaves (leaves-Are32 cells) enough in
        (d, long, λ i e. ne (sym (get-width cells i a e) ∙ long), opens)
