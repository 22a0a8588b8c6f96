-- ===== src/Chain/Disk/Crash.antt =====
-- Calls that fail half-way: what a store that is opened from the files can answer.
use colossus_x.Prelude.{
  ℕ, ◌≡◌, ◌⊎◌, inl, inr, refl, ap, ◌∙◌, subst, Bool-cases, Option, Option-cases, none, some, List,
  [], ◌∷◌, Result, ok, err, block_not_found,
}
use colossus_x.Prelude.Int.{ℤ, pos}
use colossus_x.Bytes.{Bytes, IsArray, bytes_eq, bytes_eq_iff, zero_hash, zero_hash-IsArray}
use colossus_x.Bytes.Texts.{codes}
use colossus_x.Crypto.{Crypto, HasSizes}
use colossus_x.Decimal.{set_string, parse_digits}
use colossus_x.Decimal.RoundTrip.{parse_uint-format_uint}
use colossus_x.Hex.{hex_encode}
use colossus_x.Types.{Block}
use colossus_x.Chain.Codec.{hash_from_string, hash_from_string-hex_encode}
use colossus_x.Chain.Disk.{
  Files, Json, DiskStore, meta_path, height_path, big_int_to_string, big_int_from_string,
  read_block_entry, read_hash_by_height, disk_current_tip, disk_get_block, disk_get_block_by_height,
}
use colossus_x.Chain.Disk.Opening.{Snapshot, load, load_meta, migrate_legacy_snapshot}
use colossus_x.Chain.Disk.Recovery.{MetaDecodes, Stored, MetaSays, Durable, with_tip}
use colossus_x.Chain.Disk.Reopen.{
  Change, add_block, move_tip, disk_run, Decodable, set_current_tip-Durable, store_block-Durable,
}

big_int_from_string-of_set :
    (s : Bytes) (z : ℤ) → set_string s ≡ ok z → big_int_from_string s ≡ ok z
unfolding big_int_from_string set_string
big_int_from_string-of_set [] z e = cc
big_int_from_string-of_set (b ∷ r) z e = e

abbrev pub work_of : Option ℕ → ℕ
work_of none = 0
work_of (some n) = n

-- bigIntFromString reads the number that bigIntToString wrote, and 0 for nil.
pub big_int_from_string-big_int_to_string :
    (w : Option ℕ) → big_int_from_string (big_int_to_string w) ≡ ok (pos (work_of w))
unfolding big_int_to_string set_string parse_digits
big_int_from_string-big_int_to_string none = big_int_from_string-of_set (codes "0") (pos 0) refl
big_int_from_string-big_int_to_string (some n) =
    big_int_from_string-of_set _ (pos n) (parse_uint-format_uint n).0

module _ (json : Json) where
  -- the tip and the block of every height can be read, or are not there; nothing is an error of the
  -- disk or of the JSON
  pub record Readable (d : DiskStore) : Type 0 where
    pub tip :
        (disk_current_tip json d ≡ err block_not_found)
        ⊎ ((b : Block) × (w : ℤ) × (disk_current_tip json d ≡ ok (b, w)))
    pub heights :
        (n : ℕ)
        → (disk_get_block_by_height json d n ≡ err block_not_found)
          ⊎ ((b : Block) × (disk_get_block_by_height json d n ≡ ok b))

  read_entry-Stored :
      (d : DiskStore) (h : Bytes)
      → Stored json d.files h
      → (b : Block) × (w : Option ℕ) × (read_block_entry json d h ≡ ok (b, big_int_to_string w))
  unfolding read_block_entry
  read_entry-Stored d h (contents, b, w, found, is) = (b, w, rw (found, read_block_entry) is)

  Durable-tip :
      (d : DiskStore)
      → Durable json d
      → (disk_current_tip json d ≡ err block_not_found)
        ⊎ ((b : Block) × (w : ℤ) × (disk_current_tip json d ≡ ok (b, w)))
  unfolding disk_current_tip
  Durable-tip d k = elim (Bool-cases (bytes_eq d.current_tip zero_hash)) [
    | inl zero ↦ inl (rw zero refl)
    | inr other ↦ elim k.tip.1 [
      | inl zero ↦ absurd (let yes = (bytes_eq_iff d.current_tip zero_hash).1 zero in cc)
      | inr stored ↦
          let (b, w, read) = read_entry-Stored d d.current_tip stored in
          let work = big_int_from_string-big_int_to_string w in
          inr (b, pos (work_of w), rw (other, read, work) refl)
    ]
  ]

  Durable-heights :
      (d : DiskStore)
      → Durable json d
      → (n : ℕ)
      → (disk_get_block_by_height json d n ≡ err block_not_found)
        ⊎ ((b : Block) × (disk_get_block_by_height json d n ≡ ok b))
  unfolding disk_get_block_by_height read_hash_by_height disk_get_block
  Durable-heights d k n = elim (Option-cases (d.files (height_path n))) [
    | inl missing ↦ inl (rw (missing, disk_get_block_by_height, read_hash_by_height) refl)
    | inr (contents, found) ↦
        let (h, is, a, stored) = k.heights n contents found in
        let (b, w, read) = read_entry-Stored d h stored in
        let hash : read_hash_by_height json d n ≡ ok h =
          rw (found, read_hash_by_height)
            (ap hash_from_string is ∙ (hash_from_string-hex_encode h a).0) in
        inr (b, rw (hash, disk_get_block_by_height, read, disk_get_block) refl)
  ]

  module _ (fault : ℕ → Option (Option Bytes)) (decode : Bytes → Result Snapshot) where
    pub load_meta-says :
        (d : DiskStore) (contents g t : Bytes)
        → json.unmarshal_meta contents ≡ ok (hex_encode g, hex_encode t)
        → IsArray 32 g
        → IsArray 32 t
        → load_meta fault json decode contents d
          ≡ (ok tt, record d { genesis_hash = g; current_tip = t })
    unfolding load_meta
    load_meta-says d contents g t is p q =
        rw (is, (hash_from_string-hex_encode g p).0, (hash_from_string-hex_encode t q).0) refl

    load-Durable :
        (d : DiskStore)
        → Durable json d
        → ((load fault json decode d).0 ≡ ok tt) × Durable json (load fault json decode d).1
    unfolding load migrate_legacy_snapshot
    load-Durable d k = elim (Option-cases (d.files meta_path)) [
      | inl missing ↦ rw (missing, load, k.no_snapshot, migrate_legacy_snapshot) (refl, k)
      | inr (contents, found) ↦
          let (g, t, is, p, tip) = subst (MetaSays json d.files) found k.meta in
          rw (found, load, load_meta-says d contents g t is p tip.0)
            (refl, with_tip json d g t p tip k)
    ]

-- the store of an empty directory
abbrev pub empty_store : DiskStore
empty_store = record {
  genesis_hash = zero_hash;
  current_tip = zero_hash;
  files = λ _. none;
  calls = 0;
}

-- the store as NewDiskStore finds it in a directory with these files
abbrev pub found_store : Files → ℕ → DiskStore
found_store files calls = record {
  genesis_hash = zero_hash;
  current_tip = zero_hash;
  files = files;
  calls = calls;
}

module _ (c : Crypto) (sizes : HasSizes c) (json : Json) (metas : MetaDecodes json) where
  disk_run-Durable :
      (fault : ℕ → Option (Option Bytes)) (changes : List Change) (d : DiskStore)
      → Decodable c json changes
      → Durable json d
      → Durable json (disk_run c json fault changes d)
  unfolding disk_run
  disk_run-Durable fault [] d fits k = k
  disk_run-Durable fault (add_block block work ∷ r) d fits k =
      disk_run-Durable fault r _ fits.1
        (store_block-Durable c sizes json metas fault block work d fits.0 k)
  disk_run-Durable fault (move_tip hash ∷ r) d fits k =
      disk_run-Durable fault r _ fits.1
        (set_current_tip-Durable c sizes json metas fault hash d fits.0 k)

  empty_store-Durable : Durable json empty_store
  empty_store-Durable = record {
    genesis_array = zero_hash-IsArray;
    tip = (zero_hash-IsArray, inl refl);
    meta = tt;
    heights = λ n contents e. cc;
    blocks = λ h contents a e. cc;
    no_snapshot = refl;
  }

  -- Whatever calls to the disk fail while blocks are stored and the tip is moved, in an empty
  -- directory at first, and wherever the writing stops: load finds no error in the files that are
  -- there, and the store that it leaves answers for its tip and for every height with a block or
  -- with ErrBlockNotFound. Renames change a file as a whole, and JSON decodes what it encoded.
  pub load-Readable :
      (fault later : ℕ → Option (Option Bytes)) (decode : Bytes → Result Snapshot)
      (changes : List Change) (calls : ℕ)
      → Decodable c json changes
      → let files = (disk_run c json fault changes empty_store).files in
        ((load later json decode (found_store files calls)).0 ≡ ok tt)
        × Readable json (load later json decode (found_store files calls)).1
  load-Readable fault later decode changes calls fits =
      let d = disk_run c json fault changes empty_store in
      let k = disk_run-Durable fault changes empty_store fits empty_store-Durable in
      let (fine, durable) = load-Durable json later decode (found_store d.files calls) (record {
        genesis_array = zero_hash-IsArray;
        tip = (zero_hash-IsArray, inl refl);
        meta = k.meta;
        heights = λ n contents e. k.heights n contents e;
        blocks = λ h contents a e. k.blocks h contents a e;
        no_snapshot = k.no_snapshot;
      }) in
      (fine, record { tip = Durable-tip json _ durable; heights = Durable-heights json _ durable })
