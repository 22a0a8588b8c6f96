-- ===== src/Node/Handlers.antt =====
-- onNewBlock of pkg/node/node.go with InsertBlock of pkg/consensus/validator.go, as the handlers of
-- several connections run them at once: no lock is held from one call of the store to the next, so
-- that a step of a handler makes one such call, which the store's own lock makes atomic. ValidateBlock
-- reads the store once.
use colossus_x.Prelude.{
  ℕ, Bool, true, false, none, some, List, [], ◌∷◌, get_elem?, set, if◌then◌else◌, Result, ok, err,
  panic,
}
use colossus_x.Prelude.Int.{ℤ}
use colossus_x.Bytes.{bytes_eq, zero_hash}
use colossus_x.Crypto.{Crypto}
use colossus_x.Types.{Block, block_hash}
use colossus_x.Chain.{Store}
use colossus_x.Consensus.Work.{select_best_chain}
use colossus_x.Consensus.Header.{Validator, validate_block}
use colossus_x.Consensus.Insert.{total_work_of}

-- how far a handler has come with its block: called, past HasBlock, past ValidateBlock, past the
-- HasBlock of InsertBlock (new, or there already), with the total work of the block, past StoreBlock,
-- past CurrentTip with the block the better one, and returned: whether it broadcasts, or a panic
pub data Handler : Type 0 where
  received unknown valid old fresh : Block → Handler
  weighed stored better : Block → ℕ → Handler
  returned : Result Bool → Handler

-- an error is logged
abbrev pub on_ok {ℓ} : {A : Type ℓ} → Result A → (A → Handler) → Handler
on_ok (ok a) f = f a
on_ok (err _) f = returned (ok false)
on_ok panic f = returned panic

-- what follows CurrentTip: without a tip, or with a worse one, the block is the better one
abbrev pub after_tip : Crypto → Block → ℕ → Result (Block × ℕ) → Handler
after_tip c b total (err _) = better b total
after_tip c b total panic = returned panic
after_tip c b total (ok (current, work)) =
    if bytes_eq (select_best_chain (block_hash c current) work (block_hash c b) total)
      (block_hash c b)
    then better b total
    else returned (ok false)

module _ (c : Crypto) {S : Type 0} (ops : Store S) where
  -- the next call of the store that a handler makes
  unfoldable pub advance : Validator → ℤ → Handler → S → Handler × S
  advance v now (received b) s = (
    if bytes_eq (block_hash c b) zero_hash
        then returned (ok false)
        else if ops.has_block s (block_hash c b)
        then returned (ok false)
        else unknown b,
    s,
  )
  advance v now (unknown b) s = (on_ok (validate_block c ops now v s b) λ _. valid b, s)
  advance v now (valid b) s = (if ops.has_block s (block_hash c b) then old b else fresh b, s)
  advance v now (old b) s = (on_ok (ops.total_work s (block_hash c b)) λ _. returned (ok false), s)
  advance v now (fresh b) s = (on_ok (total_work_of c ops s b) λ total. weighed b total, s)
  advance v now (weighed b total) s =
      let (r, s') = ops.store_block s b total in (on_ok r λ _. stored b total, s')
  advance v now (stored b total) s = (after_tip c b total (ops.current_tip s), s)
  advance v now (better b total) s =
      let (r, s') = ops.set_current_tip s (block_hash c b) in (on_ok r λ _. returned (ok true), s')
  advance v now (returned r) s = (returned r, s)

  -- the turn of handler k
  unfoldable pub turn : Validator → ℕ → ℤ → List Handler → S → List Handler × S
  turn v k now hs s = elim (get_elem? hs k) [
    | none ↦ (hs, s)
    | some h ↦ let (h', s') = advance v now h s in (set hs k h', s')
  ]

  -- a run: whose turn it is, and the clock
  unfoldable pub run : Validator → List (ℕ × ℤ) → List Handler → S → List Handler × S
  run v [] hs s = (hs, s)
  run v ((k, now) ∷ later) hs s = let (hs', s') = turn v k now hs s in run v later hs' s'
