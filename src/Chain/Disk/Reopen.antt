-- ===== src/Chain/Disk/Reopen.antt =====
-- A store after any calls, some of which may have failed, and the store that is opened from its files.
use colossus_x.Prelude.{
  ℕ, ◌≡◌, inl, inr, refl, sym, ◌&&◌, Bool-cases, Option, Option-cases, List, [], ◌∷◌, ◌==◌, Result,
  with_state, ok, err, panic,
}
use colossus_x.Bytes.{Bytes, IsArray, bytes_eq, zero_hash}
use colossus_x.Crypto.{Crypto, HasSizes}
use colossus_x.Hex.{hex_encode}
use colossus_x.Types.{Block, header_hash, block_hash}
use colossus_x.Chain.Disk.{
  Json, DiskStore, meta_path, block_path, height_path, write_file_atomic, flush, disk_store_block,
  disk_set_current_tip, note_block, big_int_to_string, block_exists,
}
use colossus_x.Chain.Disk.Writes.{write_file_atomic-Wrote, Wrote-ok}
use colossus_x.Chain.Disk.Paths.{block_path-height_path}
use colossus_x.Chain.Disk.Recovery.{
  EntryDecodes, MetaDecodes, Stored, Durable, Durable-Wrote, Durable-block, Durable-height,
  Durable-meta, Stored-block, MoreStored-same, MoreStored-put, with_tip,
}

-- the calls that change a store
pub data Change : Type 0 where
  add_block : Block → Option ℕ → Change
  move_tip : Bytes → Change

module _ (c : Crypto) (json : Json) where
  -- the store after changes, whatever each of them returned
  unfoldable pub disk_run : (ℕ → Option (Option Bytes)) → List Change → DiskStore → DiskStore
  disk_run fault [] d = d
  disk_run fault (add_block block work ∷ r) d =
      disk_run fault r (disk_store_block fault c json block work d).1
  disk_run fault (move_tip hash ∷ r) d = disk_run fault r (disk_set_current_tip fault json hash d).1

  -- the JSON of the blocks that are stored decodes, and the tips are hashes
  abbrev pub Decodable : List Change → Type 0
  Decodable [] = Unit
  Decodable (add_block block work ∷ r) =
      EntryDecodes json (block, big_int_to_string work) × Decodable r
  Decodable (move_tip hash ∷ r) = IsArray 32 hash × Decodable r

-- what holds of the store of a call, and of what follows, holds at the end
after {κ} :
    {A B : Type 0} (P : DiskStore → Type κ) (r : Result A × DiskStore)
    (f : A → DiskStore → Result B × DiskStore)
    → P r.1
    → ((a : A) → r.0 ≡ ok a → P (f a r.1).1)
    → P (with_state r f).1
after P (ok a, d) f p k = k a refl
after P (err e, d) f p k = p
after P (panic, d) f p k = p

module _ (c : Crypto) (sizes : HasSizes c) (json : Json) (metas : MetaDecodes json)
    (fault : ℕ → Option (Option Bytes)) where
  flush-Durable : (d : DiskStore) → Durable json d → Durable json (flush fault json d).1
  unfolding flush
  flush-Durable d k =
      let (contents, encoded, decodes) =
        metas d.genesis_hash d.current_tip k.genesis_array k.tip.0 in
      rw (encoded, flush)
        (Durable-Wrote json meta_path contents d _
          (write_file_atomic-Wrote fault meta_path contents d) k
          (Durable-meta json d contents k d.genesis_hash d.current_tip decodes k.genesis_array
            k.tip))

  pub set_current_tip-Durable :
      (hash : Bytes) (d : DiskStore)
      → IsArray 32 hash
      → Durable json d
      → Durable json (disk_set_current_tip fault json hash d).1
  unfolding disk_set_current_tip block_exists
  set_current_tip-Durable hash d p k = elim (Option-cases (d.files (block_path hash))) [
    | inl missing ↦ rw (missing, disk_set_current_tip, block_exists) k
    | inr (contents, found) ↦
        let (b, w, is) = k.blocks hash contents p found in
        rw (found, disk_set_current_tip, block_exists)
          (flush-Durable (record d { current_tip = hash })
            (with_tip json d d.genesis_hash hash k.genesis_array
              (p, inr (contents, b, w, found, is)) k))
  ]

  block_hash-IsArray : (block : Block) → IsArray 32 (block_hash c block)
  unfolding header_hash
  block_hash-IsArray block = sizes.sha256_size _

  note_block-Durable :
      (block : Block) (d : DiskStore)
      → Stored json d.files (block_hash c block)
      → Durable json d
      → Durable json (note_block fault c json block d)
  note_block-Durable block d stored k =
      let hash = block_hash c block in
      with_tip json d _ _
        (elim (Bool-cases ((block.header.height == 0) && bytes_eq d.genesis_hash zero_hash)) [
          | inl first ↦ rw first (block_hash-IsArray block)
          | inr later ↦ rw later k.genesis_array
        ])
        (elim (Bool-cases (bytes_eq d.current_tip zero_hash)) [
          | inl first ↦ rw first (block_hash-IsArray block, inr stored)
          | inr later ↦ rw later k.tip
        ])
        k

  -- the height file and chain_meta.json, once the block is stored
  height_step :
      (block : Block) (d : DiskStore)
      → Durable json d
      → Stored json d.files (block_hash c block)
      → Durable json
          (with_state
            (write_file_atomic fault
              (height_path block.header.height)
              (hex_encode (block_hash c block))
              d)
            λ _ d. flush fault json (note_block fault c json block d)).1
  height_step block d k stored =
      let hash = block_hash c block in
      let p = block_hash-IsArray block in
      let n = block.header.height in
      let second = write_file_atomic-Wrote fault (height_path n) (hex_encode hash) d in
      let d2 = (write_file_atomic fault (height_path n) (hex_encode hash) d).1 in
      let k2 : Durable json d2 =
        Durable-Wrote json (height_path n) (hex_encode hash) d _ second k
          (Durable-height json d (hex_encode hash) k n hash refl p stored) in
      after (Durable json) (write_file_atomic fault (height_path n) (hex_encode hash) d) _ k2
        λ _ done. flush-Durable (note_block fault c json block d2) (
          note_block-Durable block d2
            (MoreStored-same json _ d2.files
              (Wrote-ok (height_path n) (hex_encode hash) d _ second done) hash p
              (MoreStored-put json d.files (height_path n) (hex_encode hash)
                (λ g e. block_path-height_path g n (sym e)) hash p stored))
            k2)

  pub store_block-Durable :
      (block : Block) (work : Option ℕ) (d : DiskStore)
      → EntryDecodes json (block, big_int_to_string work)
      → Durable json d
      → Durable json (disk_store_block fault c json block work d).1
  unfolding disk_store_block
  store_block-Durable block work d (contents, encoded, decodes) k =
      let hash = block_hash c block in
      let p = block_hash-IsArray block in
      let first = write_file_atomic-Wrote fault (block_path hash) contents d in
      let d1 = (write_file_atomic fault (block_path hash) contents d).1 in
      let k1 : Durable json d1 =
        Durable-Wrote json (block_path hash) contents d _ first k
          (Durable-block json d contents k hash block work p decodes) in
      rw (encoded, disk_store_block)
        (after (Durable json) (write_file_atomic fault (block_path hash) contents d) _ k1 λ _ done.
          height_step block d1 k1 (
            MoreStored-same json _ d1.files (Wrote-ok (block_path hash) contents d _ first done)
              hash p (Stored-block json d.files hash contents block work decodes)))
