-- ===== src/Chain/Disk/Opening.antt =====
-- pkg/chain/store_disk.go: NewDiskStore, load and migrateLegacySnapshot. A map of the old snapshot is
-- the list of its entries in the order in which the loop meets them. The store that comes with an
-- error is not returned by the program; it shows what the files have become.
use colossus_x.Prelude.{
  ℕ, ◌+◌, Option, none, some, List, [], ◌∷◌, Result, with_state, ok, err, io_error,
  datadir_required,
}
use colossus_x.Bytes.{Bytes, zero_hash}
use colossus_x.Bytes.Maps.{lookup}
use colossus_x.Bytes.Texts.{codes}
use colossus_x.Decimal.{parse_uint}
use colossus_x.Hex.{hex_encode}
use colossus_x.Types.{Block}
use colossus_x.Chain.Codec.{hash_from_string}
use colossus_x.Chain.Disk.{
  Files, Json, DiskStore, meta_path, legacy_path, block_path, height_path, write_file_atomic, flush,
}

-- diskSnapshot, with its diskBlockRecords
pub record Snapshot : Type 0 where
  pub genesis_text : Bytes
  pub tip_text : Bytes
  pub blocks : List (Bytes × Block)
  pub heights : List (Bytes × Bytes)
  pub works : List (Bytes × Bytes)

-- unmarshalSnapshot, where `decode` is json.Unmarshal
unfoldable pub unmarshal_snapshot : (Bytes → Result Snapshot) → Bytes → Result Snapshot
unmarshal_snapshot decode [] =
    ok (record { genesis_text = []; tip_text = []; blocks = []; heights = []; works = [] })
unmarshal_snapshot decode (b ∷ r) = decode (b ∷ r)

-- the total work of a record, "0" where the snapshot has none
unfoldable pub work_text : List (Bytes × Bytes) → Bytes → Bytes
work_text works hash = elim (lookup works hash) [ none ↦ codes "0" | some text ↦ text ]

module _ (fault : ℕ → Option (Option Bytes)) (json : Json) (decode : Bytes → Result Snapshot) where
  -- the loop over the blocks of the snapshot
  unfoldable pub migrate_blocks :
      List (Bytes × Bytes) → List (Bytes × Block) → DiskStore → Result (Unit {0}) × DiskStore
  migrate_blocks works [] d = (ok tt, d)
  migrate_blocks works ((text, block) ∷ r) d =
      with_state (hash_from_string text, d)
        λ hash d.
          with_state (json.marshal_entry (block, work_text works text), d)
            λ contents d.
              with_state (write_file_atomic fault (block_path hash) contents d)
                λ _ d. migrate_blocks works r d

  -- the loop over its heights
  unfoldable pub migrate_heights : List (Bytes × Bytes) → DiskStore → Result (Unit {0}) × DiskStore
  migrate_heights [] d = (ok tt, d)
  migrate_heights ((height, text) ∷ r) d =
      with_state (parse_uint height, d)
        λ h d.
          with_state (hash_from_string text, d)
            λ hash d.
              with_state (write_file_atomic fault (height_path h) (hex_encode hash) d)
                λ _ d. migrate_heights r d

  unfoldable pub migrate_snapshot : Snapshot → DiskStore → Result (Unit {0}) × DiskStore
  migrate_snapshot snapshot d =
      with_state (hash_from_string snapshot.genesis_text, d)
        λ genesis d.
          with_state (hash_from_string snapshot.tip_text, d)
            λ tip d. with_state (migrate_blocks snapshot.works snapshot.blocks d) λ _ d.
              with_state (migrate_heights snapshot.heights d)
                λ _ d. flush fault json (record d { genesis_hash = genesis; current_tip = tip })

  -- migrateLegacySnapshot
  unfoldable pub migrate_legacy_snapshot : DiskStore → Result (Unit {0}) × DiskStore
  migrate_legacy_snapshot d = elim (d.files legacy_path) [
    | none ↦ (ok tt, d)
    | some contents ↦
        with_state (unmarshal_snapshot decode contents, d) λ snapshot d. migrate_snapshot snapshot d
  ]

  -- load of a chain_meta.json
  unfoldable pub load_meta : Bytes → DiskStore → Result (Unit {0}) × DiskStore
  load_meta contents d =
      with_state (json.unmarshal_meta contents, d)
        λ meta d.
          with_state (hash_from_string meta.0, d)
            λ genesis d.
              with_state (hash_from_string meta.1, record d { genesis_hash = genesis })
                λ tip d. (ok tt, record d { current_tip = tip })

  -- load
  unfoldable pub load : DiskStore → Result (Unit {0}) × DiskStore
  load d = elim (d.files meta_path) [
    | none ↦ migrate_legacy_snapshot d
    | some contents ↦ load_meta contents d
  ]

  -- os.MkdirAll; the folders themselves are not among the files
  unfoldable pub make_dir : DiskStore → Result (Unit {0}) × DiskStore
  make_dir d = elim (fault d.calls) [
    | none ↦ (ok tt, record d { calls = d.calls + 1 })
    | some _ ↦ (err io_error, record d { calls = d.calls + 1 })
  ]

  -- NewDiskStore over the files of the directory that it is given
  unfoldable pub new_disk_store : Bytes → Files → ℕ → Result (Unit {0}) × DiskStore
  new_disk_store [] files calls = (
    err datadir_required,
    record { genesis_hash = zero_hash; current_tip = zero_hash; files = files; calls = calls },
  )
  new_disk_store (b ∷ r) files calls =
      let empty : DiskStore = record {
        genesis_hash = zero_hash;
        current_tip = zero_hash;
        files = files;
        calls = calls;
      } in
      with_state (make_dir empty)
        λ _ d. with_state (make_dir d) λ _ d. with_state (make_dir d) λ _ d. load d
