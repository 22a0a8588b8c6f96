-- ===== src/Consensus/Insert/Tips.antt =====
-- Runs of InsertBlock from an empty memory store, and the tip that they end on.
use colossus_x.Prelude.{
  ℕ, ◌≡◌, ◌≢◌, inl, inr, refl, sym, ◌∙◌, ap, Option-cases, none, some, List, [], ◌∷◌, arith,
}
use colossus_x.Prelude.Int.{ℤ}
use colossus_x.Bytes.{Bytes, All, zero_hash}
use colossus_x.Bytes.Words.{from_be}
use colossus_x.Crypto.{Crypto, HasSizes}
use colossus_x.Types.{Block, block_hash}
use colossus_x.Chain.Memory.{MemoryStore, new_memory_store, memory_store}
use colossus_x.Consensus.Work.Choice.{from_be-injective}
use colossus_x.Consensus.Header.{Validator}
use colossus_x.Consensus.Insert.{insert_block}
use colossus_x.Consensus.Insert.Weights.{Weighs-more, Weighs-once}
use colossus_x.Consensus.Insert.Memory.{AtLeast, TipOk, Inv}
use colossus_x.Consensus.Insert.Keeps.{insert_block-Inv, tip-IsArray}

none≢some {ℓ} : {A : Type ℓ} {a : A} → none ≡ some a → ⊥
none≢some e = cc

module _ (c : Crypto) where
  -- the blocks that reach a node one after the other, each with the time it is inserted at
  abbrev pub insert_all : Validator → MemoryStore → List (ℤ × Block) → MemoryStore
  insert_all v m [] = m
  insert_all v m ((now, block) ∷ rest) =
      insert_all v (insert_block c (memory_store c) now v m block).1 rest

  pub new_memory_store-Inv : Inv c new_memory_store
  new_memory_store-Inv = record {
    keyed = λ h b e. absurd (none≢some e);
    worked = λ h w e. absurd (none≢some e);
    chained = λ h w e. absurd (none≢some e);
    weighed = λ h b e. absurd (none≢some e);
    tip_ok = inl (refl, λ h. refl);
  }

  module _ (sizes : HasSizes c) where
    insert_all-Inv :
        (v : Validator) (m : MemoryStore) (blocks : List (ℤ × Block))
        → Inv c m
        → All (λ (p : ℤ × Block). block_hash c p.1 ≢ zero_hash) blocks
        → Inv c (insert_all v m blocks)
    insert_all-Inv v m [] inv fresh = inv
    insert_all-Inv v m ((now, block) ∷ rest) inv fresh =
        insert_all-Inv v (insert_block c (memory_store c) now v m block).1 rest
          (insert_block-Inv c sizes now v m block inv fresh.0) fresh.1

    -- Any sequence of blocks inserted into a new memory store, valid or not and in any order,
    -- leaves a block tree: each block is stored under its hash with its parent's total work plus
    -- its own, which is what the chain of its blocks weighs, and the tip is a stored block that no
    -- stored block beats. The hash of no block in the sequence is zero.
    pub insert_all_lem :
        (v : Validator) (blocks : List (ℤ × Block))
        → All (λ (p : ℤ × Block). block_hash c p.1 ≢ zero_hash) blocks
        → Inv c (insert_all v new_memory_store blocks)
    insert_all_lem v blocks fresh =
        insert_all-Inv v new_memory_store blocks new_memory_store-Inv fresh

    beaten : (a b : Bytes) (v w : ℕ) → AtLeast c a v b w → AtLeast c b w a v → from_be a ≡ from_be b
    beaten a b v w p q = omega (arith, p, q)

    same_tip :
        (m n : MemoryStore)
        → Inv c m
        → Inv c n
        → ((h : Bytes) → m.works h ≡ n.works h)
        → TipOk c m
        → TipOk c n
        → m.tip ≡ n.tip
    same_tip m n i j e (inl (p, _)) (inl (q, _)) = p ∙ sym q
    same_tip m n i j e (inl (p, nothing)) (inr (_, (b, w, at, work, _))) =
        let (b', at', _) = i.worked n.tip w (e n.tip ∙ work) in
        let missing = nothing n.tip in absurd cc
    same_tip m n i j e (inr (_, (b, w, at, work, _))) (inl (q, nothing)) =
        let (b', at', _) = j.worked m.tip w (sym (e m.tip) ∙ work) in
        let missing = nothing m.tip in absurd cc
    same_tip m n i j e (inr (_, best)) (inr (_, best')) =
        let (b, w, at, work, top) = best in
        let (b', w', at', work', top') = best' in
        from_be-injective m.tip n.tip (tip-IsArray c sizes m i best) (tip-IsArray c sizes n j best')
          (beaten m.tip n.tip w w' (top n.tip w' (e n.tip ∙ work'))
            (top' m.tip w (sym (e m.tip) ∙ work)))

    -- the total works of two stores with the same blocks
    works_agree :
        (m n : MemoryStore)
        → Inv c m
        → Inv c n
        → ((h : Bytes) → m.blocks h ≡ n.blocks h)
        → (h : Bytes) (w : ℕ) → m.works h ≡ some w
        → n.works h ≡ some w
    works_agree m n i j e h w work =
        let (b, at, _) = i.worked h w work in
        let (v, is) = j.weighed h b (sym (e h) ∙ at) in
        let one =
          Weighs-once n.blocks h v w (j.chained h v is)
            (Weighs-more m.blocks n.blocks h w (λ k a f. sym (e k) ∙ f) (i.chained h w work)) in
        is ∙ ap (λ (x : ℕ). some x) one

    same_works :
        (m n : MemoryStore)
        → Inv c m
        → Inv c n
        → ((h : Bytes) → m.blocks h ≡ n.blocks h)
        → (h : Bytes) → m.works h ≡ n.works h
    same_works m n i j e h = elim (Option-cases (m.works h)) [
      | inr (w, is) ↦ is ∙ sym (works_agree m n i j e h w is)
      | inl none_here ↦ elim (Option-cases (n.works h)) [
        | inl none_there ↦ none_here ∙ sym none_there
        | inr (w, is) ↦ let other = works_agree n m j i (λ k. sym (e k)) h w is in absurd cc
      ]
    ]

    -- Two nodes that end with the same stored blocks end on the same tip, whatever the orders in
    -- which the blocks reached them and whatever other blocks they refused on the way. The hash
    -- of no block is zero.
    pub insert_all-same_tip :
        (u v : Validator) (xs ys : List (ℤ × Block))
        → All (λ (p : ℤ × Block). block_hash c p.1 ≢ zero_hash) xs
        → All (λ (p : ℤ × Block). block_hash c p.1 ≢ zero_hash) ys
        → ((h : Bytes)
            → (insert_all u new_memory_store xs).blocks h
              ≡ (insert_all v new_memory_store ys).blocks h)
        → (insert_all u new_memory_store xs).tip ≡ (insert_all v new_memory_store ys).tip
    insert_all-same_tip u v xs ys p q e =
        let i = insert_all_lem u xs p in
        let j = insert_all_lem v ys q in
        let m = insert_all u new_memory_store xs in
        let n = insert_all v new_memory_store ys in
        same_tip m n i j (same_works m n i j e) i.tip_ok j.tip_ok
