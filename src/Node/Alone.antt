-- ===== src/Node/Alone.antt =====
-- A handler that has the store to itself does what onNewBlock does in one piece.
use colossus_x.Prelude.{
  ℕ, zero, suc, ◌≡◌, refl, inl, inr, Bool, true, false, Bool-cases, Result, Result-cases, ok, err,
  panic,
}
use colossus_x.Prelude.Int.{ℤ}
use colossus_x.Bytes.{bytes_eq, zero_hash}
use colossus_x.Crypto.{Crypto}
use colossus_x.Types.{Block, block_hash}
use colossus_x.Chain.{Store}
use colossus_x.Consensus.Work.{select_best_chain}
use colossus_x.Consensus.Header.{Validator, validate_block}
use colossus_x.Consensus.Insert.{
  and_then, total_work_of, move_tip, choose_tip, insert_new, insert_valid, insert_block,
}
use colossus_x.Node.{on_new_block, after_insert}
use colossus_x.Node.Handlers.{
  Handler, received, unknown, valid, fresh, stored, better, returned, advance, on_ok, after_tip,
}

module _ (c : Crypto) {S : Type 0} (ops : Store S) (v : Validator) (now : ℤ) where
  -- calls of one handler after the other
  abbrev alone : ℕ → Handler × S → Handler × S
  alone zero s = s
  alone (suc n) (h, s) = alone n (advance c ops v now h s)

  abbrev as_returned : Result Bool × S → Handler × S
  as_returned (r, s) = (returned r, s)

  returned_stays : (n : ℕ) (r : Result Bool) (s : S) → alone n (returned r, s) ≡ (returned r, s)
  unfolding advance
  returned_stays zero r s = refl
  returned_stays (suc n) r s = returned_stays n r s

  move_alone :
      (b : Block) (total : ℕ) (s : S)
      → advance c ops v now (better b total) s
        ≡ as_returned (after_insert (move_tip c ops s (block_hash c b) total))
  unfolding advance move_tip
  move_alone b total s = let (r, t) = ops.set_current_tip s (block_hash c b) in go r t
    where
      go :
          (r : Result (Unit {0})) (t : S)
          → (on_ok r λ _. returned (ok true), t)
            ≡ as_returned (after_insert (and_then r t λ _. (ok (total, true), t)))
      go (ok _) t = refl
      go (err _) t = refl
      go panic t = refl

  choose_alone :
      (b : Block) (total : ℕ) (s : S)
      → advance c ops v now (after_tip c b total (ops.current_tip s)) s
        ≡ as_returned (after_insert (choose_tip c ops s (block_hash c b) total))
  unfolding choose_tip
  choose_alone b total s = elim (Result-cases (ops.current_tip s)) [
    | inl ((current, work), e) ↦
        let best = select_best_chain (block_hash c current) work (block_hash c b) total in
        elim (Bool-cases (bytes_eq best (block_hash c b))) [
          | inl f ↦ rw (e, choose_tip, f) (move_alone b total s)
          | inr f ↦ rw (e, choose_tip, f) (returned_stays 1 (ok false) s)
        ]
    | inr (inl (x, e)) ↦ rw (e, choose_tip) (move_alone b total s)
    | inr (inr e) ↦ rw (e, choose_tip) (returned_stays 1 panic s)
  ]

  -- past StoreBlock
  store_alone :
      (b : Block) (total : ℕ) (r : Result (Unit {0})) (s : S)
      → alone 2 (on_ok r λ _. stored b total, s)
        ≡ as_returned (after_insert (and_then r s λ _. choose_tip c ops s (block_hash c b) total))
  unfolding advance
  store_alone b total (ok _) s = choose_alone b total s
  store_alone b total (err _) s = refl
  store_alone b total panic s = refl

  insert_alone :
      (b : Block) (s : S) → alone 4 (fresh b, s) ≡ as_returned (after_insert (insert_new c ops s b))
  unfolding insert_new advance
  insert_alone b s = elim (Result-cases (total_work_of c ops s b)) [
    | inr (inl (x, e)) ↦ rw (e, insert_new) refl
    | inr (inr e) ↦ rw (e, insert_new) refl
    | inl (total, e) ↦
        rw (e, insert_new)
          (store_alone b total (ops.store_block s b total).0 (ops.store_block s b total).1)
  ]

  valid_alone :
      (b : Block) (s : S)
      → alone 5 (valid b, s) ≡ as_returned (after_insert (insert_valid c ops s b))
  unfolding insert_valid advance
  valid_alone b s = elim (Bool-cases (ops.has_block s (block_hash c b))) [
    | inr e ↦ rw (e, insert_valid) (insert_alone b s)
    | inl e ↦ elim (Result-cases (ops.total_work s (block_hash c b))) [
      | inl (work, f) ↦ rw (e, insert_valid, f) refl
      | inr (inl (x, f)) ↦ rw (e, insert_valid, f) refl
      | inr (inr f) ↦ rw (e, insert_valid, f) refl
    ]
  ]

  unknown_alone :
      (b : Block) (s : S)
      → alone 6 (unknown b, s) ≡ as_returned (after_insert (insert_block c ops now v s b))
  unfolding insert_block advance
  unknown_alone b s = elim (Result-cases (validate_block c ops now v s b)) [
    | inl (_, e) ↦ rw (e, insert_block) (valid_alone b s)
    | inr (inl (x, e)) ↦ rw (e, insert_block) refl
    | inr (inr e) ↦ rw (e, insert_block) refl
  ]

  -- The handler of one connection that has a store to itself, the calls of the store one by one, ends
  -- as onNewBlock and InsertBlock in one piece, errors and panics included.
  alone-eq-on_new_block :
      (b : Block) (s : S) → alone 7 (received b, s) ≡ as_returned (on_new_block c ops now v s b)
  unfolding on_new_block advance
  alone-eq-on_new_block b s = elim (Bool-cases (bytes_eq (block_hash c b) zero_hash)) [
    | inl e ↦ rw (e, on_new_block) refl
    | inr e ↦ elim (Bool-cases (ops.has_block s (block_hash c b))) [
      | inl f ↦ rw (e, on_new_block, f) refl
      | inr f ↦ rw (e, on_new_block, f) (unknown_alone b s)
    ]
  ]
