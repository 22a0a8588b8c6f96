-- ===== src/Node/Receive.antt =====
-- A node on a memory store whose peers send blocks at once.
use colossus_x.Prelude.{ℕ, ◌≡◌, ◌≢◌, ◌⊎◌, inl, refl, none, some, List}
use colossus_x.Bytes.{Bytes, All, zero_hash}
use colossus_x.Crypto.{Crypto}
use colossus_x.Types.{Block, block_hash}
use colossus_x.Chain.Memory.{MemoryStore, new_memory_store}
use colossus_x.Node.Handlers.{
  Handler, received, unknown, valid, old, fresh, weighed, stored, better, returned,
}

none≢some {ℓ} : {A : Type ℓ} {a : A} → none ≡ some a → ⊥
none≢some e = cc

module _ (c : Crypto) where
  -- the tip is a stored block with a total work, and only an empty store has none
  abbrev pub TipStored : MemoryStore → Type 0
  TipStored m =
      ((m.tip ≡ zero_hash) × ((h : Bytes) → m.blocks h ≡ none))
      ⊎ ((m.tip ≢ zero_hash) × ((b : Block) × (m.blocks m.tip ≡ some b)))

  pub record IsStore (m : MemoryStore) : Type 0 where
    pub keyed : (h : Bytes) (b : Block) → m.blocks h ≡ some b → block_hash c b ≡ h
    pub weighed_all : (h : Bytes) (b : Block) → m.blocks h ≡ some b → (w : ℕ) × (m.works h ≡ some w)
    pub tip_stored : TipStored m

  pub new_memory_store-IsStore : IsStore new_memory_store
  new_memory_store-IsStore = record {
    keyed = λ h b e. absurd (none≢some e);
    weighed_all = λ h b e. absurd (none≢some e);
    tip_stored = inl (refl, λ h. refl);
  }

  -- a handler that goes on with a block has seen that its hash is not zero
  abbrev Named : Handler → Type 0
  Named (unknown b) = block_hash c b ≢ zero_hash
  Named (valid b) = block_hash c b ≢ zero_hash
  Named (fresh b) = block_hash c b ≢ zero_hash
  Named (weighed b total) = block_hash c b ≢ zero_hash
  Named (stored b total) = block_hash c b ≢ zero_hash
  Named (better b total) = block_hash c b ≢ zero_hash
  Named (received b) = Unit {0}
  Named (old b) = Unit {0}
  Named (returned r) = Unit {0}

  abbrev Safe : List Handler × MemoryStore → Type 0
  Safe (hs, m) = All Named hs × IsStore m
