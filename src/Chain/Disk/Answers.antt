-- ===== src/Chain/Disk/Answers.antt =====
-- What a disk store answers, next to the answers of a memory store, also once it is opened again.
use colossus_x.Prelude.{
  ℕ, ◌≡◌, ◌⊎◌, inl, inr, refl, ap, ◌∙◌, true, false, Bool-cases, none, some, Result, ok, err, ◌>>=◌,
  block_not_found,
}
use colossus_x.Prelude.Int.{ℤ, pos}
use colossus_x.Bytes.{Bytes, IsArray, bytes_eq, bytes_eq_iff, zero_hash}
use colossus_x.Types.{Block}
use colossus_x.Chain.Codec.{hash_from_string-hex_encode}
use colossus_x.Chain.Memory.{
  MemoryStore, get_block, get_header, get_block_by_height, current_tip, total_work, has_block,
}
use colossus_x.Chain.Disk.{
  Json, DiskStore, big_int_to_string, read_block_entry, read_hash_by_height, block_exists,
  disk_get_block, disk_get_header, disk_get_block_by_height, disk_current_tip, disk_total_work,
}
use colossus_x.Chain.Disk.Crash.{big_int_from_string-big_int_to_string}
use colossus_x.Chain.Disk.Refines.{Held}

-- a number as a big integer
abbrev pub as_big : Result ℕ → Result ℤ
as_big r = r >>= λ n. ok (pos n)

abbrev pub as_big_tip : Result (Block × ℕ) → Result (Block × ℤ)
as_big_tip r = r >>= λ (b, w). ok (b, pos w)

module _ (json : Json) where
  -- the same answers to every question, with the same errors
  pub record SameAnswers (d : DiskStore) (m : MemoryStore) : Type 0 where
    pub tip : disk_current_tip json d ≡ as_big_tip (current_tip m)
    pub by_height : (n : ℕ) → disk_get_block_by_height json d n ≡ get_block_by_height m n
    pub block : (h : Bytes) → IsArray 32 h → disk_get_block json d h ≡ get_block m h
    pub header : (h : Bytes) → IsArray 32 h → disk_get_header json d h ≡ get_header m h
    pub work : (h : Bytes) → IsArray 32 h → disk_total_work json d h ≡ as_big (total_work m h)
    pub has : (h : Bytes) → IsArray 32 h → block_exists d h ≡ has_block m h

  module _ (d : DiskStore) (m : MemoryStore) (k : Held json d m) where
    -- what is read of a hash
    read_same :
        (h : Bytes)
        → IsArray 32 h
        → ((read_block_entry json d h ≡ err block_not_found)
            × (m.blocks h ≡ none)
            × (m.works h ≡ none)
            × (block_exists d h ≡ false))
          ⊎ ((b : Block) × (w : ℕ) × (read_block_entry json d h
                ≡ ok (b, big_int_to_string (some w)))
              × (m.blocks h ≡ some b)
              × (m.works h ≡ some w)
              × (block_exists d h ≡ true))
    unfolding read_block_entry block_exists
    read_same h p = elim (k.same_blocks h p) [
      | inl (file, block, work) ↦
          inl (rw (file, read_block_entry) refl, block, work, rw (file, block_exists) refl)
      | inr (contents, b, w, file, is, block, work) ↦
          inr (b, w, rw (file, read_block_entry) is, block, work, rw (file, block_exists) refl)
    ]

    get_same : (h : Bytes) → IsArray 32 h → disk_get_block json d h ≡ get_block m h
    unfolding disk_get_block get_block
    get_same h p = elim (read_same h p) [
      | inl (read, block, _, _) ↦ rw (read, block) refl
      | inr (b, w, read, block, _, _) ↦ rw (read, block) refl
    ]

    header_same : (h : Bytes) → IsArray 32 h → disk_get_header json d h ≡ get_header m h
    unfolding disk_get_header get_header
    header_same h p = rw (get_same h p) refl

    work_same : (h : Bytes) → IsArray 32 h → disk_total_work json d h ≡ as_big (total_work m h)
    unfolding disk_total_work total_work
    work_same h p = elim (read_same h p) [
      | inl (read, _, work, _) ↦ rw (read, work) refl
      | inr (b, w, read, _, work, _) ↦
          rw (read, work, big_int_from_string-big_int_to_string (some w)) refl
    ]

    has_same : (h : Bytes) → IsArray 32 h → block_exists d h ≡ has_block m h
    unfolding has_block
    has_same h p = elim (read_same h p) [
      | inl (_, block, _, there) ↦ rw (block, has_block, there) refl
      | inr (b, w, _, block, _, there) ↦ rw (block, has_block, there) refl
    ]

    height_same : (n : ℕ) → disk_get_block_by_height json d n ≡ get_block_by_height m n
    unfolding disk_get_block_by_height read_hash_by_height get_block_by_height get_block
    height_same n = elim (k.same_heights n) [
      | inl (file, height) ↦
          rw (file, disk_get_block_by_height, read_hash_by_height, height, get_block_by_height) refl
      | inr (h, file, height, p, (b, is)) ↦
          let hash : read_hash_by_height json d n ≡ ok h =
            rw (file, read_hash_by_height) (hash_from_string-hex_encode h p).0 in
          let found : disk_get_block json d h ≡ ok b = get_same h p ∙ rw (is, get_block) refl in
          rw (hash, disk_get_block_by_height, found, height, is, get_block_by_height) refl
    ]

    tip_same : disk_current_tip json d ≡ as_big_tip (current_tip m)
    unfolding disk_current_tip current_tip
    tip_same = elim (Bool-cases (bytes_eq m.tip zero_hash)) [
      | inl zero ↦ rw (k.tip, disk_current_tip, zero, current_tip) refl
      | inr other ↦ elim (read_same m.tip k.tip_array) [
        | inl (_, block, _, _) ↦ absurd (unknown other block)
        | inr (b, w, read, block, work, _) ↦
            let number = big_int_from_string-big_int_to_string (some w) in
            let own = ap (λ (x : Bytes). bytes_eq x zero_hash) k.tip ∙ other in
            let entry = ap (read_block_entry json d) k.tip ∙ read in
            rw (own, disk_current_tip, entry, number, other, current_tip, block, work) refl
      ]
    ]
      where
        unknown : bytes_eq m.tip zero_hash ≡ false → m.blocks m.tip ≡ none → ⊥
        unknown other block = elim k.tip_known [
          | inl zero ↦ let yes = (bytes_eq_iff m.tip zero_hash).1 zero in cc
          | inr (b, is) ↦ cc
        ]

    pub Held-SameAnswers : SameAnswers d m
    Held-SameAnswers = record {
      tip = tip_same;
      by_height = height_same;
      block = get_same;
      header = header_same;
      work = work_same;
      has = has_same;
    }
