-- ===== src/Merkle/Streaming.antt =====
-- dagMerkleRootStreaming computes the root that BuildMerkleRoot computes. The frontier after all the
-- leaves is a binary counter: its lowest entry is the odd leaf, and the entries above it are the
-- frontier of the full pairs.
use colossus_x.Prelude.{
  ℕ, zero, suc, ◌≤◌, ◌<◌, ◌≡◌, refl, ap, ◌∙◌, true, inl, inr, some, none, Option, List, [], ◌∷◌,
  ◌++◌, arith, length, ltb, Bool-cases, Option-cases, ◌*◌, map,
}
use colossus_x.Bytes.{Bytes}
use colossus_x.Merkle.{
  first_or_zero, hash_pair, next_level, root_loop, build_merkle_root, build_merkle_leaves, add_leaf,
  add_leaves, lift_acc, close_frontier, streaming_root,
}
use colossus_x.Merkle.Levels.{length-next_level}

abbrev odd_last : List Bytes → Option Bytes
odd_last [] = none
odd_last (a ∷ []) = some a
odd_last (a ∷ b ∷ r) = odd_last r

module _ (blake3 : Bytes → Bytes) where
  abbrev full_pairs : List Bytes → List Bytes
  full_pairs [] = []
  full_pairs (a ∷ []) = []
  full_pairs (a ∷ b ∷ r) = hash_pair blake3 a b ∷ full_pairs r

  add_leaves_carry :
      (f : List (Option Bytes)) (l : List Bytes)
      → add_leaves blake3 (none ∷ f) l ≡ odd_last l ∷ add_leaves blake3 f (full_pairs l)
  unfolding add_leaves add_leaf
  add_leaves_carry f [] = refl
  add_leaves_carry f (a ∷ []) = refl
  add_leaves_carry f (a ∷ b ∷ r) = add_leaves_carry (add_leaf blake3 f (hash_pair blake3 a b)) r

  add_leaves-digits :
      (a : Bytes) (r : List Bytes)
      → add_leaves blake3 [] (a ∷ r) ≡ odd_last (a ∷ r) ∷ add_leaves blake3 [] (full_pairs (a ∷ r))
  unfolding add_leaves add_leaf
  add_leaves-digits a r = add_leaves_carry [] (a ∷ r)

  lift_acc-suc :
      (n : ℕ) (x : Bytes)
      → lift_acc blake3 (suc n) x ≡ hash_pair blake3 (lift_acc blake3 n x) (lift_acc blake3 n x)
  unfolding lift_acc
  lift_acc-suc zero x = refl
  lift_acc-suc (suc n) x = lift_acc-suc n (hash_pair blake3 x x)

  root_loop_fuel :
      (f g : ℕ) (l : List Bytes)
      → length l ≤ suc f
      → length l ≤ suc g
      → root_loop blake3 f l ≡ root_loop blake3 g l
  unfolding root_loop
  root_loop_fuel zero zero l p q = refl
  root_loop_fuel zero (suc g) l p q = ground arith
  root_loop_fuel (suc f) zero l p q = ground arith
  root_loop_fuel (suc f) (suc g) l p q = elim (Bool-cases (ltb 1 (length l))) [
    | inl e ↦
        let s = length-next_level blake3 l in
        rw (e, root_loop_fuel f g (next_level blake3 l) (ground (arith, s)) (ground (arith, s)))
    | inr e ↦ rw e
  ]

  -- one round of BuildMerkleRoot
  build_merkle_root-next_level :
      (l : List Bytes)
      → 2 ≤ length l
      → build_merkle_root blake3 l ≡ build_merkle_root blake3 (next_level blake3 l)
  unfolding build_merkle_root root_loop
  build_merkle_root-next_level [] n = absurd (omega arith)
  build_merkle_root-next_level (a ∷ r) n =
      let many : ltb 1 (length (a ∷ r)) ≡ true = ground arith in
      let m = next_level blake3 (a ∷ r) in
      let s = length-next_level blake3 (a ∷ r) in
      rw many
        (ap first_or_zero (root_loop_fuel (length r) (length m) m (omega (arith, s)) (omega arith)))

  next_level-even : (l : List Bytes) → odd_last l ≡ none → next_level blake3 l ≡ full_pairs l
  unfolding next_level
  next_level-even [] e = refl
  next_level-even (a ∷ []) e = absurd (cc)
  next_level-even (a ∷ b ∷ r) e = ap (◌∷◌ (hash_pair blake3 a b)) (next_level-even r e)

  next_level-odd :
      (l : List Bytes) (y : Bytes)
      → odd_last l ≡ some y
      → next_level blake3 l ≡ full_pairs l ++ hash_pair blake3 y y ∷ []
  unfolding next_level
  next_level-odd [] y e = absurd (cc)
  next_level-odd (a ∷ []) y e = ground arith
  next_level-odd (a ∷ b ∷ r) y e = ap (◌∷◌ (hash_pair blake3 a b)) (next_level-odd r y e)

  next_level-even_more :
      (l : List Bytes) (x : Bytes)
      → odd_last l ≡ none
      → next_level blake3 (l ++ x ∷ []) ≡ full_pairs l ++ hash_pair blake3 x x ∷ []
  unfolding next_level
  next_level-even_more [] x e = refl
  next_level-even_more (a ∷ []) x e = absurd (cc)
  next_level-even_more (a ∷ b ∷ r) x e =
      ap (◌∷◌ (hash_pair blake3 a b)) (next_level-even_more r x e)

  next_level-odd_more :
      (l : List Bytes) (x y : Bytes)
      → odd_last l ≡ some y
      → next_level blake3 (l ++ x ∷ []) ≡ full_pairs l ++ hash_pair blake3 y x ∷ []
  unfolding next_level
  next_level-odd_more [] x y e = absurd (cc)
  next_level-odd_more (a ∷ []) x y e = ground arith
  next_level-odd_more (a ∷ b ∷ r) x y e =
      ap (◌∷◌ (hash_pair blake3 a b)) (next_level-odd_more r x y e)

  length-full_pairs : (l : List Bytes) → 2 * length (full_pairs l) ≤ length l
  length-full_pairs [] = omega arith
  length-full_pairs (a ∷ []) = omega arith
  length-full_pairs (a ∷ b ∷ r) = omega (arith, length-full_pairs r)

  -- closing the frontier of some leaves gives their root, and closing it with an accumulator that
  -- lags behind gives the root of the leaves with the lifted accumulator behind them
  abbrev Closes : List Bytes → Type 0
  Closes l =
      (close_frontier blake3 none (add_leaves blake3 [] l) ≡ build_merkle_root blake3 l)
      × ((x : Bytes) (lag : ℕ)
          → close_frontier blake3 (some (x, lag)) (add_leaves blake3 [] l)
            ≡ build_merkle_root blake3 (l ++ lift_acc blake3 lag x ∷ []))

  Closes-single : (a : Bytes) → Closes (a ∷ [])
  unfolding close_frontier add_leaves add_leaf build_merkle_root root_loop next_level
  Closes-single a = (refl, λ x lag. refl)

  Closes-even :
      (a b : Bytes) (r : List Bytes)
      → odd_last r ≡ none
      → Closes (full_pairs (a ∷ b ∷ r))
      → Closes (a ∷ b ∷ r)
  unfolding close_frontier
  Closes-even a b r e (plain, acc) =
      let l = a ∷ b ∷ r in
      let digits =
        add_leaves-digits a (b ∷ r) ∙ ap (λ o. o ∷ add_leaves blake3 [] (full_pairs l)) e in
      (
        rw (digits, build_merkle_root-next_level l (omega arith), next_level-even l e) plain,
        λ x lag.
            rw
              (
                digits,
                build_merkle_root-next_level (l ++ lift_acc blake3 lag x ∷ []) (omega (arith)),
                next_level-even_more l (lift_acc blake3 lag x) e,
                ← lift_acc-suc lag x,
              )
              (acc x (suc lag)),
      )

  Closes-odd :
      (a b y : Bytes) (r : List Bytes)
      → odd_last r ≡ some y
      → Closes (full_pairs (a ∷ b ∷ r))
      → Closes (a ∷ b ∷ r)
  unfolding close_frontier lift_acc
  Closes-odd a b y r e (plain, acc) =
      let l = a ∷ b ∷ r in
      let digits =
        add_leaves-digits a (b ∷ r) ∙ ap (λ o. o ∷ add_leaves blake3 [] (full_pairs l)) e in
      (
        rw (digits, build_merkle_root-next_level l (omega arith), next_level-odd l y e) (acc y 1),
        λ x lag.
            rw
              (
                digits,
                build_merkle_root-next_level (l ++ lift_acc blake3 lag x ∷ []) (omega (arith)),
                next_level-odd_more l (lift_acc blake3 lag x) y e,
              )
              (acc (hash_pair blake3 y (lift_acc blake3 lag x)) 0),
      )

  Closes-all : (k : ℕ) (a : Bytes) (r : List Bytes) → length r < k → Closes (a ∷ r)
  Closes-all zero a r h = absurd (omega arith)
  Closes-all (suc k) a [] h = Closes-single a
  Closes-all (suc k) a (b ∷ r) h =
      let ih =
        Closes-all k (hash_pair blake3 a b) (full_pairs r) (omega (arith, length-full_pairs r)) in
      elim (Option-cases (odd_last r)) [
        | inl e ↦ Closes-even a b r e ih
        | inr (y, e) ↦ Closes-odd a b y r e ih
      ]

  streaming_root_empty : streaming_root blake3 [] ≡ build_merkle_root blake3 []
  unfolding streaming_root add_leaves close_frontier build_merkle_root root_loop
  streaming_root_empty = refl

  -- The one-pass root of the validator is the root of the batch construction, for every list of
  -- cells, the empty one included, and every hash function.
  pub streaming_root-eq-build_merkle_root :
      (cells : List Bytes)
      → streaming_root blake3 cells ≡ build_merkle_root blake3 (build_merkle_leaves blake3 cells)
  unfolding streaming_root build_merkle_leaves
  streaming_root-eq-build_merkle_root [] = streaming_root_empty
  streaming_root-eq-build_merkle_root (c ∷ r) =
      (Closes-all (suc (length (map blake3 r))) (blake3 c) (map blake3 r) (omega arith)).0
