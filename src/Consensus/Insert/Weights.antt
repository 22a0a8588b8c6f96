-- ===== src/Consensus/Insert/Weights.antt =====
-- The total work of a block from the stored blocks alone, apart from the code.
use colossus_x.Prelude.{ℕ, ◌+◌, ◌<◌, ◌≡◌, sym, ap, ◌∙◌, subst, Option, some, arith}
use colossus_x.Bytes.{Bytes}
use colossus_x.Types.{Block}
use colossus_x.Consensus.Work.{calc_block_work}

-- What a chain of stored blocks weighs, from the blocks alone: the work of a block at height 0, and
-- past it the work of a block with what the chain of its parent weighs.
pub data Weighs (blocks : Bytes → Option Block) : Bytes → ℕ → Type 0 where
  first_block :
      {h : Bytes} {w : ℕ} (b : Block)
      → blocks h ≡ some b
      → b.header.height ≡ 0
      → w ≡ calc_block_work b.header.target
      → Weighs blocks h w
  next_block :
      {h : Bytes} {w : ℕ} (b : Block) (above : ℕ)
      → blocks h ≡ some b
      → 0 < b.header.height
      → Weighs blocks b.header.parent_hash above
      → w ≡ calc_block_work b.header.target + above
      → Weighs blocks h w

-- more blocks leave the weight of a chain as it is
pub Weighs-more :
    (blocks more : Bytes → Option Block) (h : Bytes) (w : ℕ)
    → ((k : Bytes) (b : Block) → blocks k ≡ some b → more k ≡ some b)
    → Weighs blocks h w
    → Weighs more h w
Weighs-more blocks more h w keep (first_block b at low is) = first_block b (keep h b at) low is
Weighs-more blocks more h w keep (next_block b above at high rest is) =
    next_block b above (keep h b at) high
      (Weighs-more blocks more b.header.parent_hash above keep rest) is

one_block : {o : Option Block} {a b : Block} → o ≡ some a → o ≡ some b → a ≡ b
one_block p q = cc

-- a chain has one weight
pub Weighs-once :
    (blocks : Bytes → Option Block) (h : Bytes) (v w : ℕ)
    → Weighs blocks h v
    → Weighs blocks h w
    → v ≡ w
Weighs-once blocks h v w (first_block a at low is) (first_block b at' low' is') =
    is ∙ ap (λ (x : Block). calc_block_work x.header.target) (one_block at at') ∙ sym is'
Weighs-once blocks h v w (first_block a at low is) (next_block b above at' high rest is') =
    let same = ap (λ (x : Block). x.header.height) (one_block at at') in
    absurd (omega (arith, same, low, high))
Weighs-once blocks h v w (next_block a above at high rest is) (first_block b at' low is') =
    let same = ap (λ (x : Block). x.header.height) (one_block at at') in
    absurd (omega (arith, same, low, high))
Weighs-once blocks h v w (next_block a above at high rest is)
      (next_block b above' at' high' rest' is') =
    let same = one_block at at' in
    let parents = ap (λ (x : Block). x.header.parent_hash) same in
    let weights =
      Weighs-once blocks a.header.parent_hash above above' rest
        (subst (λ (k : Bytes). Weighs blocks k above') (sym parents) rest') in
    let own = ap (λ (x : Block). calc_block_work x.header.target) same in
    omega (arith, is, is', weights, own)
