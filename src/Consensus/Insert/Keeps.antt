-- ===== src/Consensus/Insert/Keeps.antt =====
-- Every InsertBlock on a memory store, whatever comes of it, keeps the block tree and its tip.
use colossus_x.Prelude.{
  ℕ, ◌+◌, ◌≤◌, ◌≡◌, ◌≢◌, ◌⊎◌, inl, inr, refl, sym, ap, ap₂, ◌∙◌, subst, Bool, true, false,
  Bool-cases, Option, none, some, Option-cases, arith, ◌==◌, if◌then◌else◌, Result, ok, err, panic,
  ◌>>=◌, >>=-eq-ok,
}
use colossus_x.Prelude.Int.{ℤ}
use colossus_x.Bytes.{Bytes, bytes_eq, bytes_eq_iff, zero_hash, IsArray}
use colossus_x.Bytes.Words.{from_be}
use colossus_x.Crypto.{Crypto, HasSizes}
use colossus_x.Types.{Block, block_hash, header_hash}
use colossus_x.Chain.Memory.{
  MemoryStore, put, store_block, memory_store, work_or_zero, current_tip, has_block,
  set_current_tip, total_work, or_not_found,
}
use colossus_x.Consensus.Work.{calc_block_work, select_best_chain}
use colossus_x.Consensus.Work.Choice.{select_best_chain_lem}
use colossus_x.Consensus.Header.{Validator, validate_block}
use colossus_x.Consensus.Insert.{
  and_then, total_work_of, move_tip, choose_tip, insert_new, insert_valid, insert_block,
}
use colossus_x.Consensus.Insert.Memory.{
  put-same, put-cases, put-old, WorkOk, BestAt, TipOk, Inv, inserted, inserted-keyed,
  inserted-worked, inserted-chained, inserted-weighed, chosen-BestAt,
}

bytes_eq-ne : (a b : Bytes) → a ≢ b → bytes_eq a b ≡ false
bytes_eq-ne a b ne = elim (Bool-cases (bytes_eq a b)) [
  | inl e ↦ absurd (ne ((bytes_eq_iff a b).0 e))
  | inr e ↦ e
]

module _ (c : Crypto) (sizes : HasSizes c) where
  block_hash-IsArray : (b : Block) → IsArray 32 (block_hash c b)
  unfolding header_hash
  block_hash-IsArray b = sizes.sha256_size _

  pub tip-IsArray : (m : MemoryStore) → Inv c m → BestAt c m.tip m.blocks m.works → IsArray 32 m.tip
  tip-IsArray m inv (b, w, at, _, _) =
      subst (λ (t : Bytes). IsArray 32 t) (inv.keyed m.tip b at) (block_hash-IsArray b)

  works-none : (m : MemoryStore) (h : Bytes) → Inv c m → m.blocks h ≡ none → m.works h ≡ none
  works-none m h inv absent = elim (Option-cases (m.works h)) [
    | inl e ↦ e
    | inr (w, e) ↦ let (b, at, _) = inv.worked h w e in absurd cc
  ]

  TipOk-inserted :
      (m : MemoryStore) (block : Block) (total : ℕ)
      → Inv c m
      → block_hash c block ≢ zero_hash
      → m.blocks (block_hash c block) ≡ none
      → TipOk c m
      → TipOk c (inserted c m block total)
  unfolding store_block
  TipOk-inserted m block total inv fresh absent (inl (empty, nothing)) =
      let hash = block_hash c block in
      let first : bytes_eq m.tip zero_hash ≡ true = (bytes_eq_iff m.tip zero_hash).1 empty in
      let is : (inserted c m block total).tip ≡ hash = rw first refl in
      inr (
        λ q. fresh (sym is ∙ q),
        subst (λ (t : Bytes). BestAt c t (put m.blocks hash block) (put m.works hash total))
            (sym is)
            (
              block,
              total,
              put-same m.blocks hash block,
              put-same m.works hash total,
              λ h v e. elim (put-cases m.works hash h total e) [
                | inl (same, value) ↦
                    inr (
                      sym value,
                      subst (λ (k : Bytes). from_be hash ≤ from_be k) same (omega arith),
                    )
                | inr (_, old) ↦
                    let (b, at, _) = inv.worked h v old in let missing = nothing h in absurd cc
              ],
            ),
      )
  TipOk-inserted m block total inv fresh absent (inr (live, best)) =
      let hash = block_hash c block in
      let not_first = bytes_eq-ne m.tip zero_hash live in
      let is : (inserted c m block total).tip
          ≡ select_best_chain m.tip (work_or_zero (m.works m.tip)) hash total =
        rw not_first refl in
      let (which, chosen) =
        chosen-BestAt c m block total (tip-IsArray m inv best) (block_hash-IsArray block) absent
          (works-none m hash inv absent) best in
      inr (
        elim which [
          | inl old ↦ λ q. live (sym old ∙ sym is ∙ q)
          | inr new ↦ λ q. fresh (sym new ∙ sym is ∙ q)
        ],
        subst (λ (t : Bytes). BestAt c t (put m.blocks hash block) (put m.works hash total))
            (sym is) chosen,
      )

  Inv-inserted :
      (m : MemoryStore) (block : Block) (total : ℕ)
      → Inv c m
      → block_hash c block ≢ zero_hash
      → m.blocks (block_hash c block) ≡ none
      → WorkOk c m block total
      → Inv c (inserted c m block total)
  unfolding store_block
  Inv-inserted m block total inv fresh absent work = record {
    keyed = inserted-keyed c m block inv;
    worked =
        inserted-worked c m block total inv (works-none m (block_hash c block) inv absent) work;
    chained = inserted-chained c m block total inv absent work;
    weighed = inserted-weighed c m block total inv (works-none m (block_hash c block) inv absent);
    tip_ok = TipOk-inserted m block total inv fresh absent inv.tip_ok;
  }

  choose_tip-run :
      (m : MemoryStore) (hash : Bytes) (total : ℕ) (current : Block) (work : ℕ)
      → current_tip m ≡ ok (current, work)
      → has_block m hash ≡ true
      → choose_tip c (memory_store c) m hash total ≡ (
          if bytes_eq (select_best_chain (block_hash c current) work hash total) hash
          then (ok (total, true), record m { tip = hash })
          else (ok (total, false), m))
  unfolding choose_tip move_tip set_current_tip
  choose_tip-run m hash total current work is has = rw (is, choose_tip, has) refl

  true≢false : {b : Bool} → b ≡ true → b ≡ false → ⊥
  true≢false p q = cc

  -- the choice of the tip on a store that has the new block
  choose_tip-memory :
      (m : MemoryStore) (hash : Bytes) (total : ℕ) (current : Block) (work : ℕ)
      → current_tip m ≡ ok (current, work)
      → has_block m hash ≡ true
      → let tip = select_best_chain (block_hash c current) work hash total in
        (tip ≡ m.tip) ⊎ (tip ≡ hash)
        → choose_tip c (memory_store c) m hash total
          ≡ (ok (total, bytes_eq tip hash), record m { tip = tip })
  choose_tip-memory m hash total current work is has which =
      let best = select_best_chain (block_hash c current) work hash total in
      elim (Bool-cases (bytes_eq best hash)) [
        | inl e ↦
            let new = (bytes_eq_iff best hash).0 e in
            choose_tip-run m hash total current work is has
            ∙ rw e refl
            ∙ ap (λ t. (ok (total, true), record m { tip = t })) (sym new)
            ∙ rw e refl
        | inr e ↦
            let old : best ≡ m.tip = elim which [
              | inl o ↦ o
              | inr n ↦ absurd (true≢false ((bytes_eq_iff best hash).1 n) e)
            ] in
            choose_tip-run m hash total current work is has
            ∙ rw e refl
            ∙ ap (λ t. (ok (total, false), record m { tip = t })) (sym old)
            ∙ rw e refl
      ]

  current_tip-some :
      (m : MemoryStore) (b : Block) (w : ℕ)
      → m.tip ≢ zero_hash
      → m.blocks m.tip ≡ some b
      → m.works m.tip ≡ some w
      → current_tip m ≡ ok (b, w)
  unfolding current_tip
  current_tip-some m b w live at work = rw (bytes_eq-ne m.tip zero_hash live, at, work) refl

  -- the tip of the store between StoreBlock and SetCurrentTip
  stored-current_tip :
      (m : MemoryStore) (block : Block) (total : ℕ)
      → Inv c m
      → block_hash c block ≢ zero_hash
      → m.blocks (block_hash c block) ≡ none
      → TipOk c m
      → (current : Block) × (work : ℕ) × (current_tip (store_block c m block total)
          ≡ ok (current, work))
        × (select_best_chain (block_hash c current) work (block_hash c block) total
            ≡ (inserted c m block total).tip)
        × ((select_best_chain (block_hash c current) work (block_hash c block) total
              ≡ (store_block c m block total).tip)
            ⊎ (select_best_chain (block_hash c current) work (block_hash c block) total
                ≡ block_hash c block))
  unfolding store_block current_tip
  stored-current_tip m block total inv fresh absent (inl (empty, nothing)) =
      let hash = block_hash c block in
      let stored = store_block c m block total in
      let first = (bytes_eq_iff m.tip zero_hash).1 empty in
      let is : stored.tip ≡ hash = rw first refl in
      let self =
        select_best_chain_lem hash hash total total (block_hash-IsArray block)
          (block_hash-IsArray block) in
      (
        block,
        total,
        current_tip-some stored block total (λ q. fresh (sym is ∙ q))
            (subst (λ (t : Bytes). put m.blocks hash block t ≡ some block) (sym is)
              (put-same m.blocks hash block))
            (subst (λ (t : Bytes). put m.works hash total t ≡ some total) (sym is)
              (put-same m.works hash total)),
        self.1 (inr (refl, omega arith)) ∙ rw first refl,
        inr (self.1 (inr (refl, omega arith))),
      )
  stored-current_tip m block total inv fresh absent (inr (live, best)) =
      let (b, w, at, work, _) = best in
      let hash = block_hash c block in
      let stored = store_block c m block total in
      let not_first = bytes_eq-ne m.tip zero_hash live in
      let is : stored.tip ≡ m.tip = rw not_first refl in
      let same : select_best_chain (block_hash c b) w hash total
          ≡ select_best_chain m.tip (work_or_zero (m.works m.tip)) hash total =
        ap₂ (λ t v. select_best_chain t v hash total) (inv.keyed m.tip b at)
          (sym (ap work_or_zero work)) in
      let (which, _) =
        chosen-BestAt c m block total (tip-IsArray m inv best) (block_hash-IsArray block) absent
          (works-none m hash inv absent) best in
      (
        b,
        w,
        current_tip-some stored b w (λ q. live (sym is ∙ q))
            (subst (λ (t : Bytes). put m.blocks hash block t ≡ some b) (sym is)
              (put-old m.blocks hash m.tip block absent at))
            (subst (λ (t : Bytes). put m.works hash total t ≡ some w) (sym is)
              (put-old m.works hash m.tip total (works-none m hash inv absent) work)),
        same ∙ rw not_first refl,
        elim which [ inl old ↦ inl (same ∙ old ∙ sym is) | inr new ↦ inr (same ∙ new) ],
      )

  has_block-some :
      (m : MemoryStore) (h : Bytes) {b : Block} → m.blocks h ≡ some b → has_block m h ≡ true
  unfolding has_block
  has_block-some m h e = rw (e, has_block) refl

  has_block-none : (m : MemoryStore) (h : Bytes) → m.blocks h ≡ none → has_block m h ≡ false
  unfolding has_block
  has_block-none m h e = rw (e, has_block) refl

  stored-has_block :
      (m : MemoryStore) (block : Block) (total : ℕ)
      → has_block (store_block c m block total) (block_hash c block) ≡ true
  unfolding store_block
  stored-has_block m block total =
      has_block-some (store_block c m block total) (block_hash c block)
        (put-same m.blocks (block_hash c block) block)

  -- InsertBlock of a block that the store does not have
  insert_new-memory :
      (m : MemoryStore) (block : Block) (total : ℕ)
      → Inv c m
      → block_hash c block ≢ zero_hash
      → m.blocks (block_hash c block) ≡ none
      → total_work_of c (memory_store c) m block ≡ ok total
      → insert_new c (memory_store c) m block ≡ (
        ok (total, bytes_eq (inserted c m block total).tip (block_hash c block)),
        inserted c m block total,
      )
  unfolding insert_new
  insert_new-memory m block total inv fresh absent work =
      let (current, old, is, best, which) =
        stored-current_tip m block total inv fresh absent inv.tip_ok in
      let chosen =
        choose_tip-memory (store_block c m block total) (block_hash c block) total current old is
          (stored-has_block m block total) which in
      rw work (
        chosen
        ∙ ap
            (λ t. (
              ok (total, bytes_eq t (block_hash c block)),
              record (store_block c m block total) { tip = t },
            ))
            best)

  -- the total work that InsertBlock computes is that of the block tree
  total_work_of-WorkOk :
      (m : MemoryStore) (block : Block) (total : ℕ)
      → total_work_of c (memory_store c) m block ≡ ok total
      → WorkOk c m block total
  unfolding total_work_of total_work
  total_work_of-WorkOk m block total e = elim (Bool-cases (block.header.height == 0)) [
    | inl z ↦ inl (ground (arith, z), ground (arith, z, e))
    | inr z ↦
        let sum =
          >>=-eq-ok (or_not_found (m.works block.header.parent_hash))
            (λ parent. ok (calc_block_work block.header.target + parent)) (past z e) in
        let (parent, at, is) = sum in
        inr (
          ground (arith, z),
          parent,
          found (m.works block.header.parent_hash) at,
          ground (arith, is),
        )
  ]
    where
      past :
          (block.header.height == 0) ≡ false
          → (if block.header.height == 0
              then ok (calc_block_work block.header.target)
              else (or_not_found (m.works block.header.parent_hash) >>= λ parent.
                  ok (calc_block_work block.header.target + parent)))
            ≡ ok total
          → (or_not_found (m.works block.header.parent_hash) >>= λ parent.
              ok (calc_block_work block.header.target + parent))
            ≡ ok total
      past z e = ground (arith, z, e)

      found : (o : Option ℕ) {w : ℕ} → or_not_found o ≡ ok w → o ≡ some w
      found none e = absurd cc
      found (some u) e = cc

  insert_new-Inv :
      (m : MemoryStore) (block : Block)
      → Inv c m
      → block_hash c block ≢ zero_hash
      → m.blocks (block_hash c block) ≡ none
      → Inv c (insert_new c (memory_store c) m block).1
  unfolding insert_new
  insert_new-Inv m block inv fresh absent = go (total_work_of c (memory_store c) m block) refl
    where
      go :
          (r : Result ℕ)
          → total_work_of c (memory_store c) m block ≡ r
          → Inv c (insert_new c (memory_store c) m block).1
      go (ok total) e =
          subst (λ (t : Result (ℕ × Bool) × MemoryStore). Inv c t.1)
            (sym (insert_new-memory m block total inv fresh absent e))
            (Inv-inserted m block total inv fresh absent (total_work_of-WorkOk m block total e))
      go (err x) e = rw e inv
      go panic e = rw e inv

  -- InsertBlock on a memory store keeps the invariant of the block tree, whether it accepts the
  -- block, has it already or returns an error at any stage; the hash of the block is not zero.
  pub insert_block-Inv :
      (now : ℤ) (v : Validator) (m : MemoryStore) (block : Block)
      → Inv c m
      → block_hash c block ≢ zero_hash
      → Inv c (insert_block c (memory_store c) now v m block).1
  unfolding insert_block insert_valid
  insert_block-Inv now v m block inv fresh = go (validate_block c (memory_store c) now v m block)
    where
      go :
          (r : Result (Unit {0}))
          → Inv c (and_then r m λ _. insert_valid c (memory_store c) m block).1
      go (ok _) = elim (Option-cases (m.blocks (block_hash c block))) [
        | inl e ↦ rw (has_block-none m (block_hash c block) e) (insert_new-Inv m block inv fresh e)
        | inr (b, e) ↦ rw (has_block-some m (block_hash c block) e) inv
      ]
      go (err _) = inv
      go panic = inv
