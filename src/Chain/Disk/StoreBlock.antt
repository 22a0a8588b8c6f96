-- ===== src/Chain/Disk/StoreBlock.antt =====
-- StoreBlock of a disk store, where no call fails, against StoreBlock of a memory store.
use colossus_x.Prelude.{
  ℕ, ◌≡◌, ◌⊎◌, inl, inr, refl, sym, ap, ◌∙◌, subst, Bool, true, false, ◌&&◌, Bool-cases, Option,
  some, none, ◌==◌, if◌then◌else◌, Result, with_state, ok,
}
use colossus_x.Bytes.{Bytes, IsArray, bytes_eq, zero_hash}
use colossus_x.Crypto.{Crypto, HasSizes}
use colossus_x.Hex.{hex_encode}
use colossus_x.Types.{Block, header_hash, block_hash}
use colossus_x.Chain.Memory.{MemoryStore, put, put_height, store_block}
use colossus_x.Chain.Disk.{
  Files, put_file, Json, DiskStore, legacy_path, block_path, height_path, big_int_to_string,
  write_file_atomic, flush, note_block, disk_store_block,
}
use colossus_x.Chain.Disk.Paths.{
  put_file-other, block_path-IsLasting, height_path-IsLasting, block_path-height_path,
  block_path-legacy_path, height_path-legacy_path,
}
use colossus_x.Chain.Disk.Writes.{Wrote-ok, write_file_atomic-Wrote, write_file_atomic-ok}
use colossus_x.Chain.Disk.Recovery.{EntryDecodes, MetaDecodes}
use colossus_x.Chain.Disk.Views.{Has, Heights-agree, Blocks-agree, Blocks-put, Heights-put}
use colossus_x.Chain.Disk.Refines.{Held, Views, legacy_path-IsLasting, with_state-ok, flush-Views}
use colossus_x.Consensus.Insert.Memory.{put-same}

Has-put :
    (blocks : Bytes → Option Block) (k h : Bytes) (b : Block)
    → Has blocks h
    → Has (put blocks k b) h
Has-put blocks k h b (a, at) = elim (Bool-cases (bytes_eq k h)) [
  | inl same ↦ (b, rw same refl)
  | inr other ↦ (a, rw other at)
]

-- the tip that StoreBlock leaves
first_tip :
    (t hash : Bytes) (P : Bytes → Type 0)
    → P hash
    → P t
    → P (if bytes_eq t zero_hash then hash else t)
first_tip t hash P p q = elim (Bool-cases (bytes_eq t zero_hash)) [
  | inl zero ↦ rw zero p
  | inr other ↦ rw other q
]

first_genesis :
    (b : Bool) (g hash : Bytes) (P : Bytes → Type 0) → P hash → P g → P (if b then hash else g)
first_genesis true g hash P p q = p
first_genesis false g hash P p q = q

module _ (c : Crypto) (sizes : HasSizes c) (json : Json) (fault : ℕ → Option (Option Bytes)) where
  -- the fields and the maps after the two files of a block are written
  note_block-Held :
      (block : Block) (work : ℕ) (contents : Bytes) (d e : DiskStore) (m : MemoryStore)
      → json.unmarshal_entry contents ≡ ok (block, big_int_to_string (some work))
      → e.genesis_hash ≡ d.genesis_hash
      → e.current_tip ≡ d.current_tip
      → ((h : Bytes)
          → e.files (block_path h)
            ≡ put_file d.files (block_path (block_hash c block)) (some contents) (block_path h))
      → ((f : Files) × ((n : ℕ) → f (height_path n) ≡ d.files (height_path n))
          × ((n : ℕ)
              → e.files (height_path n)
                ≡ put_file f
                    (height_path block.header.height)
                    (some (hex_encode (block_hash c block)))
                    (height_path n)))
      → e.files legacy_path ≡ d.files legacy_path
      → Held json d m
      → Held json (note_block fault c json block e) (store_block c m block work)
  unfolding store_block header_hash
  note_block-Held block work contents d e m is g t blocks (f, before, heights) legacy k =
      let hash = block_hash c block in
      let p : IsArray 32 hash = sizes.sha256_size _ in
      let has : Has (put m.blocks hash block) hash = (block, put-same m.blocks hash block) in
      record {
        genesis =
            ap
              (λ (x : Bytes).
                if (block.header.height == 0) && bytes_eq x zero_hash then hash else x)
              (g ∙ k.genesis);
        tip = ap (λ (x : Bytes). if bytes_eq x zero_hash then hash else x) (t ∙ k.tip);
        genesis_array = first_genesis _ m.genesis_hash hash (IsArray 32) p k.genesis_array;
        tip_array = first_tip m.tip hash (IsArray 32) p k.tip_array;
        tip_known =
            first_tip m.tip hash (λ x. (x ≡ zero_hash) ⊎ Has (put m.blocks hash block) x) (inr has)
              (elim k.tip_known [
                | inl zero ↦ inl zero
                | inr known ↦ inr (Has-put m.blocks hash m.tip block known)
              ]);
        same_blocks =
            Blocks-agree json (put_file d.files (block_path hash) (some contents)) e.files
              (put m.blocks hash block) (put m.works hash work) blocks
              (Blocks-put json d.files m.blocks m.works hash contents block work p is
                k.same_blocks);
        same_heights =
            Heights-agree json
              (put_file f (height_path block.header.height) (some (hex_encode hash))) e.files
              (put_height m.heights block.header.height hash) (put m.blocks hash block)
              (put m.blocks hash block) heights (λ h x. x)
              (Heights-put json f m.heights (put m.blocks hash block) block.header.height hash p has
                (Heights-agree json d.files f m.heights m.blocks (put m.blocks hash block) before
                  (λ h x. Has-put m.blocks hash h block x) k.same_heights));
        no_snapshot = legacy ∙ k.no_snapshot;
      }

  module _ (metas : MetaDecodes json) (fine : (k : ℕ) → fault k ≡ none) where
    pub store_block-Views :
        (block : Block) (work : ℕ) (d : DiskStore) (m : MemoryStore)
        → EntryDecodes json (block, big_int_to_string (some work))
        → Held json d m
        → ((disk_store_block fault c json block (some work) d).0 ≡ ok tt)
          × Views json
              (disk_store_block fault c json block (some work) d).1
              (store_block c m block work)
    unfolding disk_store_block
    store_block-Views block work d m (contents, encoded, decodes) k =
        let hash = block_hash c block in
        let n = block.header.height in
        let r1 = write_file_atomic fault (block_path hash) contents d in
        let good1 : r1.0 ≡ ok tt = write_file_atomic-ok fault (block_path hash) contents d fine in
        let wrote1 = write_file_atomic-Wrote fault (block_path hash) contents d in
        let same1 = Wrote-ok (block_path hash) contents d r1 wrote1 good1 in
        let r2 = write_file_atomic fault (height_path n) (hex_encode hash) r1.1 in
        let good2 : r2.0 ≡ ok tt =
          write_file_atomic-ok fault (height_path n) (hex_encode hash) r1.1 fine in
        let wrote2 = write_file_atomic-Wrote fault (height_path n) (hex_encode hash) r1.1 in
        let same2 = Wrote-ok (height_path n) (hex_encode hash) r1.1 r2 wrote2 good2 in
        let held =
          note_block-Held block work contents d r2.1 m decodes
            (wrote2.genesis_kept ∙ wrote1.genesis_kept) (wrote2.tip_kept ∙ wrote1.tip_kept)
            (λ h.
              same2 (block_path h) (block_path-IsLasting h)
              ∙ put_file-other r1.1.files (height_path n) (block_path h) (some (hex_encode hash))
                  (λ e. block_path-height_path h n (sym e))
              ∙ same1 (block_path h) (block_path-IsLasting h))
            (
              r1.1.files,
              λ i.
                  same1 (height_path i) (height_path-IsLasting i)
                  ∙ put_file-other d.files (block_path hash) (height_path i) (some contents)
                      (block_path-height_path hash i),
              λ i. same2 (height_path i) (height_path-IsLasting i),
            )
            (same2 legacy_path legacy_path-IsLasting
              ∙ put_file-other r1.1.files (height_path n) legacy_path (some (hex_encode hash))
                  (height_path-legacy_path n)
              ∙ same1 legacy_path legacy_path-IsLasting
              ∙ put_file-other d.files (block_path hash) legacy_path (some contents)
                  (block_path-legacy_path hash))
            k in
        let final = flush-Views json metas fault fine (note_block fault c json block r2.1) _ held in
        rw (encoded, disk_store_block)
          (subst
            (λ (x : Result (Unit {0}) × DiskStore).
              (x.0 ≡ ok tt) × Views json x.1 (store_block c m block work))
            (sym (
              with_state-ok r1
                (λ _ e.
                  with_state (write_file_atomic fault (height_path n) (hex_encode hash) e)
                    λ _ e. flush fault json (note_block fault c json block e))
                tt good1
              ∙ with_state-ok r2 (λ _ e. flush fault json (note_block fault c json block e)) tt
                  good2))
            final)
