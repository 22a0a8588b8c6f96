-- ===== src/Chain/Disk.antt =====
-- pkg/chain/store_disk.go and pkg/chain/codec.go: DiskStore. A path is a folder and a name in it; the
-- files are a function into Option. `fault k` says what the k-th call that writes comes to: none where
-- it succeeds, and where it fails what a file that was being written holds from then on. A Rename
-- that fails changes nothing, and a file that is there can be read. encoding/json is a parameter.
pub mod Opening
pub mod Paths
pub mod Writes
pub mod Recovery
pub mod Reopen
pub mod Crash
pub mod Views
pub mod Refines
pub mod StoreBlock
pub mod Answers
pub mod Simulates
use colossus_x.Prelude.{
  ℕ, ◌+◌, Bool, true, false, ◌&&◌, Option, none, some, List, [], ◌∷◌, ◌++◌, ◌==◌, if◌then◌else◌,
  Result, with_state, ok, err, panic, ◌>>=◌, io_error, block_not_found,
}
use colossus_x.Prelude.Int.{ℤ, pos}
use colossus_x.Bytes.{Bytes, bytes_eq, zero_hash}
use colossus_x.Bytes.Texts.{codes}
use colossus_x.Crypto.{Crypto}
use colossus_x.Decimal.{format_uint, set_string}
use colossus_x.Hex.{hex_encode}
use colossus_x.Types.{Block, BlockHeader, block_hash}
use colossus_x.Chain.Codec.{hash_from_string}

pub data Folder : Type 0 where
  datadir blocks_dir heights_dir : Folder

abbrev pub FilePath : Type 0
FilePath = Folder × Bytes

abbrev pub folder_eq : Folder → Folder → Bool
folder_eq datadir datadir = true
folder_eq blocks_dir blocks_dir = true
folder_eq heights_dir heights_dir = true
folder_eq _ _ = false

unfoldable pub path_eq : FilePath → FilePath → Bool
path_eq p q = folder_eq p.0 q.0 && bytes_eq p.1 q.1

abbrev pub Files : Type 0
Files = FilePath → Option Bytes

-- a file takes new contents, or goes away
abbrev pub put_file : Files → FilePath → Option Bytes → Files
put_file files p contents q = if path_eq p q then contents else files q

-- diskBlockEntry: the block and the text of its total work
abbrev pub Entry : Type 0
Entry = Block × Bytes

-- diskMeta
abbrev pub Meta : Type 0
Meta = Bytes × Bytes

-- encoding/json on the values of the store
pub record Json : Type 0 where
  pub marshal_entry : Entry → Result Bytes
  pub unmarshal_entry : Bytes → Result Entry
  pub marshal_meta : Meta → Result Bytes
  pub unmarshal_meta : Bytes → Result Meta

-- DiskStore, with the files below its directory and the count of the calls that wrote
pub record DiskStore : Type 0 where
  pub genesis_hash : Bytes
  pub current_tip : Bytes
  pub files : Files
  pub calls : ℕ

-- metaPath, legacyPath, blockPath and heightPath
abbrev pub meta_path : FilePath
meta_path = (datadir, codes "chain_meta.json")

abbrev pub legacy_path : FilePath
legacy_path = (datadir, codes "chain.json")

unfoldable pub block_path : Bytes → FilePath
block_path hash = (blocks_dir, hex_encode hash ++ codes ".json")

unfoldable pub height_path : ℕ → FilePath
height_path height = (heights_dir, format_uint height ++ codes ".txt")

-- path + ".tmp"
unfoldable pub temp_path : FilePath → FilePath
temp_path (folder, name) = (folder, name ++ codes ".tmp")

-- bigIntToString, where none stands for nil, and bigIntFromString
unfoldable pub big_int_to_string : Option ℕ → Bytes
big_int_to_string none = codes "0"
big_int_to_string (some n) = format_uint n

unfoldable pub big_int_from_string : Bytes → Result ℤ
big_int_from_string [] = ok (pos 0)
big_int_from_string (b ∷ r) = set_string (b ∷ r)

module _ (fault : ℕ → Option (Option Bytes)) where
  -- os.WriteFile and os.Rename in writeFileAtomic
  unfoldable pub write_file : FilePath → Bytes → DiskStore → Result (Unit {0}) × DiskStore
  write_file p contents d = elim (fault d.calls) [
    | none ↦ (ok tt, record d { files = put_file d.files p (some contents); calls = d.calls + 1 })
    | some left ↦ (err io_error, record d { files = put_file d.files p left; calls = d.calls + 1 })
  ]

  unfoldable pub rename : FilePath → FilePath → DiskStore → Result (Unit {0}) × DiskStore
  rename from to d = elim (fault d.calls) [
    | none ↦ (
      ok tt,
      record d {
        files = put_file (put_file d.files to (d.files from)) from none;
        calls = d.calls + 1;
      },
    )
    | some _ ↦ (err io_error, record d { calls = d.calls + 1 })
  ]

  -- writeFileAtomic
  unfoldable pub write_file_atomic : FilePath → Bytes → DiskStore → Result (Unit {0}) × DiskStore
  write_file_atomic p contents d =
      with_state (write_file (temp_path p) contents d) λ _ d. rename (temp_path p) p d

  -- flushLocked
  unfoldable pub flush : Json → DiskStore → Result (Unit {0}) × DiskStore
  flush json d =
      with_state (json.marshal_meta (hex_encode d.genesis_hash, hex_encode d.current_tip), d)
        λ contents d. write_file_atomic meta_path contents d

  module _ (c : Crypto) (json : Json) where
    -- the fields that StoreBlock sets
    abbrev pub note_block : Block → DiskStore → DiskStore
    note_block block d =
        let hash = block_hash c block in
        record d {
          genesis_hash =
              if (block.header.height == 0) && bytes_eq d.genesis_hash zero_hash
              then hash
              else d.genesis_hash;
          current_tip = if bytes_eq d.current_tip zero_hash then hash else d.current_tip;
        }

    -- StoreBlock
    unfoldable pub disk_store_block : Block → Option ℕ → DiskStore → Result (Unit {0}) × DiskStore
    disk_store_block block work d =
        with_state (json.marshal_entry (block, big_int_to_string work), d)
          λ contents d.
            with_state (write_file_atomic (block_path (block_hash c block)) contents d) λ _ d.
              with_state
                (write_file_atomic (height_path block.header.height)
                  (hex_encode (block_hash c block)) d)
                λ _ d. flush json (note_block block d)

-- blockExists and HasBlock
unfoldable pub block_exists : DiskStore → Bytes → Bool
block_exists d hash = elim (d.files (block_path hash)) [ none ↦ false | some _ ↦ true ]

module _ (fault : ℕ → Option (Option Bytes)) (json : Json) where
  -- SetCurrentTip
  unfoldable pub disk_set_current_tip : Bytes → DiskStore → Result (Unit {0}) × DiskStore
  disk_set_current_tip hash d =
      if block_exists d hash
      then flush fault json (record d { current_tip = hash })
      else (err block_not_found, d)

module _ (json : Json) where
  -- readBlockEntry
  unfoldable pub read_block_entry : DiskStore → Bytes → Result Entry
  read_block_entry d hash = elim (d.files (block_path hash)) [
    | none ↦ err block_not_found
    | some contents ↦ json.unmarshal_entry contents
  ]

  -- GetBlock
  unfoldable pub disk_get_block : DiskStore → Bytes → Result Block
  disk_get_block d hash = do entry ← read_block_entry d hash; ok entry.0

  -- GetHeader
  unfoldable pub disk_get_header : DiskStore → Bytes → Result BlockHeader
  disk_get_header d hash = do block ← disk_get_block d hash; ok block.header

  -- readHashByHeight
  unfoldable pub read_hash_by_height : DiskStore → ℕ → Result Bytes
  read_hash_by_height d height = elim (d.files (height_path height)) [
    | none ↦ err io_error
    | some contents ↦ hash_from_string contents
  ]

  -- GetBlockByHeight
  unfoldable pub disk_get_block_by_height : DiskStore → ℕ → Result Block
  disk_get_block_by_height d height = elim (read_hash_by_height d height) [
    | ok hash ↦ disk_get_block d hash
    | err _ ↦ err block_not_found
    | panic ↦ panic
  ]

  -- CurrentTip
  unfoldable pub disk_current_tip : DiskStore → Result (Block × ℤ)
  disk_current_tip d = if bytes_eq d.current_tip zero_hash then err block_not_found else (do
    entry ← read_block_entry d d.current_tip
    work ← big_int_from_string entry.1
    ok (entry.0, work))

  -- TotalWork
  unfoldable pub disk_total_work : DiskStore → Bytes → Result ℤ
  disk_total_work d hash = do entry ← read_block_entry d hash; big_int_from_string entry.1
