-- ===== src/Chain/Disk/Refines.antt =====
-- Without failures of the disk, a disk store does what a memory store does.
use colossus_x.Prelude.{
  ℕ, ◌≡◌, ◌⊎◌, inl, inr, refl, sym, ap, ap₂, ◌∙◌, subst, Option, none, some, Result, with_state, ok,
  err, panic, arith,
}
use colossus_x.Bytes.{Bytes, IsArray, zero_hash}
use colossus_x.Hex.{hex_encode}
use colossus_x.Chain.Memory.{MemoryStore, set_current_tip, has_block}
use colossus_x.Chain.Disk.{
  Files, Json, DiskStore, meta_path, legacy_path, block_path, height_path, write_file_atomic, flush,
  disk_set_current_tip, block_exists,
}
use colossus_x.Chain.Disk.Paths.{
  IsLasting, put_file-same, put_file-other, block_path-IsLasting, height_path-IsLasting,
  meta_path-IsLasting, block_path-meta_path, height_path-meta_path, meta_path-legacy_path,
}
use colossus_x.Chain.Disk.Writes.{Wrote-ok, write_file_atomic-Wrote, write_file_atomic-ok}
use colossus_x.Chain.Disk.Recovery.{MetaDecodes}
use colossus_x.Chain.Disk.Views.{Has, Blocks, Heights, Blocks-agree, Heights-agree}

module _ (json : Json) where
  -- the store and its files hold what the memory store holds; chain_meta.json is left out
  pub record Held (d : DiskStore) (m : MemoryStore) : Type 0 where
    pub genesis : d.genesis_hash ≡ m.genesis_hash
    pub tip : d.current_tip ≡ m.tip
    pub genesis_array : IsArray 32 m.genesis_hash
    pub tip_array : IsArray 32 m.tip
    pub tip_known : (m.tip ≡ zero_hash) ⊎ Has m.blocks m.tip
    pub same_blocks : Blocks json d.files m.blocks m.works
    pub same_heights : Heights json d.files m.heights m.blocks
    pub no_snapshot : d.files legacy_path ≡ none

  -- chain_meta.json is not there yet, or says what the store knows
  abbrev pub MetaIs : Files → Bytes → Bytes → Type 0
  MetaIs f g t =
      ((f meta_path ≡ none) × (g ≡ zero_hash) × (t ≡ zero_hash))
      ⊎ ((contents : Bytes) × (f meta_path ≡ some contents)
          × (json.unmarshal_meta contents ≡ ok (hex_encode g, hex_encode t)))

  pub record Views (d : DiskStore) (m : MemoryStore) : Type 0 where
    pub held : Held d m
    pub meta : MetaIs d.files m.genesis_hash m.tip

  -- other files that agree where it matters
  pub Held-files :
      (d e : DiskStore) (m : MemoryStore)
      → e.genesis_hash ≡ d.genesis_hash
      → e.current_tip ≡ d.current_tip
      → ((h : Bytes) → e.files (block_path h) ≡ d.files (block_path h))
      → ((n : ℕ) → e.files (height_path n) ≡ d.files (height_path n))
      → e.files legacy_path ≡ d.files legacy_path
      → Held d m
      → Held e m
  Held-files d e m g t blocks heights legacy k = record {
    genesis = g ∙ k.genesis;
    tip = t ∙ k.tip;
    genesis_array = k.genesis_array;
    tip_array = k.tip_array;
    tip_known = k.tip_known;
    same_blocks = Blocks-agree json d.files e.files m.blocks m.works blocks k.same_blocks;
    same_heights =
        Heights-agree json d.files e.files m.heights m.blocks m.blocks heights (λ h has. has)
          k.same_heights;
    no_snapshot = legacy ∙ k.no_snapshot;
  }

pub legacy_path-IsLasting : IsLasting legacy_path
legacy_path-IsLasting e = omega (arith, e)

pub with_state-ok :
    {A B : Type 0} (r : Result A × DiskStore) (f : A → DiskStore → Result B × DiskStore) (a : A)
    → r.0 ≡ ok a
    → with_state r f ≡ f a r.1
with_state-ok (ok b, d) f a e = ap (λ (x : _). f x d) (let same : b ≡ a = cc in same)
with_state-ok (err x, d) f a e = absurd cc
with_state-ok (panic, d) f a e = absurd cc

module _ (json : Json) (metas : MetaDecodes json) (fault : ℕ → Option (Option Bytes))
    (fine : (k : ℕ) → fault k ≡ none) where
  pub flush-Views :
      (d : DiskStore) (m : MemoryStore)
      → Held json d m
      → ((flush fault json d).0 ≡ ok tt) × Views json (flush fault json d).1 m
  unfolding flush
  flush-Views d m k =
      let g = subst (IsArray 32) (sym k.genesis) k.genesis_array in
      let t = subst (IsArray 32) (sym k.tip) k.tip_array in
      let (contents, encoded, decodes) = metas d.genesis_hash d.current_tip g t in
      let r = write_file_atomic fault meta_path contents d in
      let good : r.0 ≡ ok tt = write_file_atomic-ok fault meta_path contents d fine in
      let wrote = write_file_atomic-Wrote fault meta_path contents d in
      let same = Wrote-ok meta_path contents d r wrote good in
      rw (encoded, flush)
        (
          good,
          record {
            held =
                Held-files json d r.1 m wrote.genesis_kept wrote.tip_kept
                  (λ h.
                    same (block_path h) (block_path-IsLasting h)
                    ∙ put_file-other d.files meta_path (block_path h) (some contents)
                        (λ e. block_path-meta_path h (sym e)))
                  (λ n.
                    same (height_path n) (height_path-IsLasting n)
                    ∙ put_file-other d.files meta_path (height_path n) (some contents)
                        (λ e. height_path-meta_path n (sym e)))
                  (same legacy_path legacy_path-IsLasting
                    ∙ put_file-other d.files meta_path legacy_path (some contents)
                        meta_path-legacy_path)
                  k;
            meta = inr (
              contents,
              same meta_path meta_path-IsLasting ∙ put_file-same d.files meta_path (some contents),
              decodes ∙ ap₂ (λ (x y : Bytes). ok (hex_encode x, hex_encode y)) k.genesis k.tip,
            );
          },
        )

  pub set_current_tip-Views :
      (hash : Bytes) (d : DiskStore) (m : MemoryStore)
      → IsArray 32 hash
      → Views json d m
      → ((disk_set_current_tip fault json hash d).0 ≡ (set_current_tip m hash).0)
        × Views json (disk_set_current_tip fault json hash d).1 (set_current_tip m hash).1
  unfolding disk_set_current_tip set_current_tip block_exists has_block
  set_current_tip-Views hash d m p v = elim (v.held.same_blocks hash p) [
    | inl (file, block, _) ↦
        rw (file, block, disk_set_current_tip, block_exists, set_current_tip, has_block) (refl, v)
    | inr (contents, b, w, file, is, block, _) ↦
        let k = v.held in
        let (good, views) =
          flush-Views (record d { current_tip = hash }) (record m { tip = hash })
            (record {
              genesis = k.genesis;
              tip = refl;
              genesis_array = k.genesis_array;
              tip_array = p;
              tip_known = inr (b, block);
              same_blocks = k.same_blocks;
              same_heights = k.same_heights;
              no_snapshot = k.no_snapshot;
            }) in
        rw (file, block, disk_set_current_tip, block_exists, set_current_tip, has_block)
          (good, views)
  ]
