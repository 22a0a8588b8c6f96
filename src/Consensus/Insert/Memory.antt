-- ===== src/Consensus/Insert/Memory.antt =====
-- InsertBlock keeps the block tree of a memory store.
use colossus_x.Prelude.{
  ℕ, ◌+◌, ◌<◌, ◌≤◌, ◌≡◌, ◌≢◌, ◌⊎◌, inl, inr, refl, sym, ap, ◌∙◌, subst, false, Bool-cases, Option,
  none, some, arith, if◌then◌else◌,
}
use colossus_x.Bytes.{Bytes, bytes_eq, bytes_eq_iff, bytes_eq_self, zero_hash, IsArray}
use colossus_x.Bytes.Words.{from_be}
use colossus_x.Crypto.{Crypto}
use colossus_x.Types.{Block, block_hash}
use colossus_x.Chain.Memory.{MemoryStore, put, store_block, work_or_zero}
use colossus_x.Consensus.Work.{calc_block_work, select_best_chain}
use colossus_x.Consensus.Work.Choice.{select_best_chain_lem}
use colossus_x.Consensus.Insert.Weights.{Weighs, first_block, next_block, Weighs-more}

module _ {ℓ} {V : Type ℓ} where
  pub put-same : (m : Bytes → Option V) (k : Bytes) (v : V) → put m k v k ≡ some v
  put-same m k v = rw (bytes_eq_self k) refl

  pub put-other : (m : Bytes → Option V) (k j : Bytes) (v : V) → k ≢ j → put m k v j ≡ m j
  put-other m k j v ne = elim (Bool-cases (bytes_eq k j)) [
    | inl e ↦ absurd (ne ((bytes_eq_iff k j).0 e))
    | inr e ↦ rw e refl
  ]

  pub put-cases :
      (m : Bytes → Option V) (k j : Bytes) (v : V) {x : V}
      → put m k v j ≡ some x
      → ((k ≡ j) × (v ≡ x)) ⊎ ((k ≢ j) × (m j ≡ some x))
  put-cases m k j v {x} h = elim (Bool-cases (bytes_eq k j)) [
    | inl e ↦
        let same = (bytes_eq_iff k j).0 e in
        let value : some v ≡ some x =
          sym (subst (λ b. (if b then some v else m j) ≡ some v) (sym e) refl) ∙ h in
        inl (same, cc)
    | inr e ↦
        inr
          (λ q. absurd (true≢false q e), sym (put-other m k j v (λ q. absurd (true≢false q e))) ∙ h)
  ]
    where
      true≢false : k ≡ j → bytes_eq k j ≡ false → ⊥
      true≢false q e = let yes = (bytes_eq_iff k j).1 q in cc

  pub put-old :
      (m : Bytes → Option V) (k j : Bytes) (v : V) {x : V}
      → m k ≡ none
      → m j ≡ some x
      → put m k v j ≡ some x
  put-old m k j v {x} new old =
      put-other m k j v (λ q. differ (subst (λ (i : Bytes). m i ≡ none) q new) old) ∙ old
    where
      differ : {o : Option V} → o ≡ none → o ≡ some x → ⊥
      differ p q = cc

module _ (c : Crypto) where
  -- the first tip is at least as good as the second
  abbrev pub AtLeast : Bytes → ℕ → Bytes → ℕ → Type 0
  AtLeast a v b w = (w < v) ⊎ ((w ≡ v) × (from_be a ≤ from_be b))

  -- the total work of a stored block is its own work and, past height 0, its parent's
  abbrev pub WorkOk : MemoryStore → Block → ℕ → Type 0
  WorkOk m b w =
      ((b.header.height ≡ 0) × (w ≡ calc_block_work b.header.target))
      ⊎ ((0 < b.header.height)
          × (parent : ℕ) × (m.works b.header.parent_hash ≡ some parent)
          × (w ≡ calc_block_work b.header.target + parent))

  -- the tip is a stored block, and no stored block is better
  abbrev pub BestAt : Bytes → (Bytes → Option Block) → (Bytes → Option ℕ) → Type 0
  BestAt tip blocks works =
      (b : Block) × (w : ℕ) × (blocks tip ≡ some b)
      × (works tip ≡ some w)
      × ((h : Bytes) (v : ℕ) → works h ≡ some v → AtLeast tip w h v)

  -- an empty store has no tip
  abbrev pub TipOk : MemoryStore → Type 0
  TipOk m =
      ((m.tip ≡ zero_hash) × ((h : Bytes) → m.blocks h ≡ none))
      ⊎ ((m.tip ≢ zero_hash) × BestAt m.tip m.blocks m.works)

  pub record Inv (m : MemoryStore) : Type 0 where
    pub keyed : (h : Bytes) (b : Block) → m.blocks h ≡ some b → block_hash c b ≡ h
    pub worked :
        (h : Bytes) (w : ℕ)
        → m.works h ≡ some w
        → (b : Block) × (m.blocks h ≡ some b) × WorkOk m b w
    pub chained : (h : Bytes) (w : ℕ) → m.works h ≡ some w → Weighs m.blocks h w
    pub weighed : (h : Bytes) (b : Block) → m.blocks h ≡ some b → (w : ℕ) × (m.works h ≡ some w)
    pub tip_ok : TipOk m

  -- the store with the new block and the tip that InsertBlock chooses
  abbrev pub inserted : MemoryStore → Block → ℕ → MemoryStore
  inserted m block total = record (store_block c m block total) {
    tip =
        if bytes_eq m.tip zero_hash
        then block_hash c block
        else select_best_chain m.tip (work_or_zero (m.works m.tip)) (block_hash c block) total;
  }

  inserted-WorkOk :
      (m : MemoryStore) (block : Block) (total : ℕ)
      → m.works (block_hash c block) ≡ none
      → (b : Block) (w : ℕ) → WorkOk m b w
      → WorkOk (inserted m block total) b w
  unfolding store_block
  inserted-WorkOk m block total new b w (inl root) = inl root
  inserted-WorkOk m block total new b w (inr (above, parent, at, sum)) =
      inr
        (above, parent, put-old m.works (block_hash c block) b.header.parent_hash total new at, sum)

  pub inserted-worked :
      (m : MemoryStore) (block : Block) (total : ℕ)
      → Inv m
      → m.works (block_hash c block) ≡ none
      → WorkOk m block total
      → (h : Bytes) (w : ℕ) → put m.works (block_hash c block) total h ≡ some w
      → (b : Block) × (put m.blocks (block_hash c block) block h ≡ some b)
        × WorkOk (inserted m block total) b w
  unfolding store_block
  inserted-worked m block total inv new ok_work h w e =
      elim (put-cases m.works (block_hash c block) h total e) [
        | inl (same, value) ↦ (
          block,
          subst (λ (k : Bytes). put m.blocks (block_hash c block) block k ≡ some block) same
              (put-same m.blocks (block_hash c block) block),
          inserted-WorkOk m block total new block w
              (subst (λ (k : ℕ). WorkOk m block k) value ok_work),
        )
        | inr (ne, old) ↦
            let (b, at, work) = inv.worked h w old in
            (
              b,
              put-other m.blocks (block_hash c block) h block ne ∙ at,
              inserted-WorkOk m block total new b w work,
            )
      ]

  WorkOk-Weighs :
      (m : MemoryStore) (block : Block) (total : ℕ)
      → Inv m
      → m.blocks (block_hash c block) ≡ none
      → WorkOk m block total
      → Weighs (put m.blocks (block_hash c block) block) (block_hash c block) total
  WorkOk-Weighs m block total inv absent (inl (low, is)) =
      first_block block (put-same m.blocks (block_hash c block) block) low is
  WorkOk-Weighs m block total inv absent (inr (high, parent, at, is)) =
      let hash = block_hash c block in
      next_block block parent (put-same m.blocks hash block) high
        (Weighs-more m.blocks (put m.blocks hash block) block.header.parent_hash parent
          (λ k b e. put-old m.blocks hash k block absent e)
          (inv.chained block.header.parent_hash parent at))
        is

  pub inserted-chained :
      (m : MemoryStore) (block : Block) (total : ℕ)
      → Inv m
      → m.blocks (block_hash c block) ≡ none
      → WorkOk m block total
      → (h : Bytes) (w : ℕ) → put m.works (block_hash c block) total h ≡ some w
      → Weighs (put m.blocks (block_hash c block) block) h w
  inserted-chained m block total inv absent ok_work h w e =
      let hash = block_hash c block in
      let more = put m.blocks hash block in
      elim (put-cases m.works hash h total e) [
        | inl (same, value) ↦
            subst (λ (k : Bytes). Weighs more k w) same
              (subst (λ (v : ℕ). Weighs more hash v) value
                (WorkOk-Weighs m block total inv absent ok_work))
        | inr (_, old) ↦
            Weighs-more m.blocks more h w (λ k b f. put-old m.blocks hash k block absent f)
              (inv.chained h w old)
      ]

  pub inserted-weighed :
      (m : MemoryStore) (block : Block) (total : ℕ)
      → Inv m
      → m.works (block_hash c block) ≡ none
      → (h : Bytes) (b : Block) → put m.blocks (block_hash c block) block h ≡ some b
      → (w : ℕ) × (put m.works (block_hash c block) total h ≡ some w)
  inserted-weighed m block total inv new h b e =
      let hash = block_hash c block in
      elim (put-cases m.blocks hash h block e) [
        | inl (same, _) ↦ (
          total,
          subst (λ (k : Bytes). put m.works hash total k ≡ some total) same
              (put-same m.works hash total),
        )
        | inr (_, old) ↦
            let (w, is) = inv.weighed h b old in (w, put-old m.works hash h total new is)
      ]

  pub inserted-keyed :
      (m : MemoryStore) (block : Block)
      → Inv m
      → (h : Bytes) (b : Block) → put m.blocks (block_hash c block) block h ≡ some b
      → block_hash c b ≡ h
  inserted-keyed m block inv h b e = elim (put-cases m.blocks (block_hash c block) h block e) [
    | inl (same, value) ↦ sym (ap (block_hash c) value) ∙ same
    | inr (ne, old) ↦ inv.keyed h b old
  ]

  AtLeast-trans : (a b d : Bytes) (u v w : ℕ) → AtLeast a u b v → AtLeast b v d w → AtLeast a u d w
  AtLeast-trans a b d u v w p q = omega (arith, p, q)

  compare_tips :
      (a b : Bytes) (v w : ℕ)
      → ((v < w) ⊎ ((v ≡ w) × (from_be b < from_be a)))
        ⊎ ((w < v) ⊎ ((v ≡ w) × (from_be a ≤ from_be b)))
  compare_tips a b v w = ground arith

  stays :
      (hash tip h : Bytes) (total w v : ℕ) (works : Bytes → Option ℕ)
      → AtLeast tip w hash total
      → ((k : Bytes) (u : ℕ) → works k ≡ some u → AtLeast tip w k u)
      → put works hash total h ≡ some v
      → AtLeast tip w h v
  stays hash tip h total w v works new best e = elim (put-cases works hash h total e) [
    | inl (same, value) ↦
        subst (λ (k : Bytes). AtLeast tip w k v) same
          (subst (λ (u : ℕ). AtLeast tip w hash u) value new)
    | inr (ne, old) ↦ best h v old
  ]

  -- the choice between the old tip and the new block
  pub chosen-BestAt :
      (m : MemoryStore) (block : Block) (total : ℕ)
      → IsArray 32 m.tip
      → IsArray 32 (block_hash c block)
      → m.blocks (block_hash c block) ≡ none
      → m.works (block_hash c block) ≡ none
      → BestAt m.tip m.blocks m.works
      → let hash = block_hash c block in
        let tip = select_best_chain m.tip (work_or_zero (m.works m.tip)) hash total in
        ((tip ≡ m.tip) ⊎ (tip ≡ hash))
        × BestAt tip (put m.blocks hash block) (put m.works hash total)
  chosen-BestAt m block total p q absent new (b, w, at, work, best) =
      let hash = block_hash c block in
      let rule = select_best_chain_lem m.tip hash (work_or_zero (m.works m.tip)) total p q in
      let known : work_or_zero (m.works m.tip) ≡ w = ap work_or_zero work in
      elim (compare_tips m.tip hash (work_or_zero (m.works m.tip)) total) [
        | inl better ↦
            let taken = rule.0 better in
            (
              inr taken,
              subst (λ (t : Bytes). BestAt t (put m.blocks hash block) (put m.works hash total))
                  (sym taken)
                  (
                    block,
                    total,
                    put-same m.blocks hash block,
                    put-same m.works hash total,
                    λ h v e.
                        stays hash hash h total total v m.works (inr (refl, omega arith))
                          (λ k u f.
                            AtLeast-trans hash m.tip k total w u (omega (arith, better, known))
                              (best k u f))
                          e,
                  ),
            )
        | inr worse ↦
            let taken = rule.1 worse in
            (
              inl taken,
              subst (λ (t : Bytes). BestAt t (put m.blocks hash block) (put m.works hash total))
                  (sym taken)
                  (
                    b,
                    w,
                    put-old m.blocks hash m.tip block absent at,
                    put-old m.works hash m.tip total new work,
                    λ h v e.
                        stays hash m.tip h total w v m.works (omega (arith, worse, known)) best e,
                  ),
            )
      ]
