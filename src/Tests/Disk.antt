-- ===== src/Tests/Disk.antt =====
-- A disk store with a toy JSON: an entry is its total work, with the one block of the runs, and
-- chain_meta.json is the two texts, one after the other.
use colossus_x.Prelude.{
  ℕ, ◌≡◌, refl, ap₂, none, some, Option, List, [], ◌∷◌, ◌++◌, arith, length, take, drop,
  take-append-drop, length-take, length-append, ◌==◌, if◌then◌else◌, ok, Result,
}
use colossus_x.Prelude.Int.{pos}
use colossus_x.Bytes.{Bytes, IsArray, append-injective}
use colossus_x.Hex.{hex_encode}
use colossus_x.Hex.RoundTrip.{length-hex_encode}
use colossus_x.Types.{block_hash, header_hash, encode}
use colossus_x.Chain.Memory.{new_memory_store}
use colossus_x.Chain.Disk.{Json, big_int_to_string, big_int_from_string}
use colossus_x.Chain.Disk.Opening.{Snapshot, load}
use colossus_x.Chain.Disk.Recovery.{MetaDecodes}
use colossus_x.Chain.Disk.Reopen.{Change, add_block, move_tip, disk_run}
use colossus_x.Chain.Disk.Crash.{
  big_int_from_string-big_int_to_string, Readable, empty_store, found_store, load-Readable,
}
use colossus_x.Chain.Disk.Answers.{SameAnswers}
use colossus_x.Chain.Disk.Simulates.{memory_run, memory_results, disk_results, disk_run-SameAnswers}
use colossus_x.Tests.Hashes.{toy_crypto, toy_crypto-HasSizes, toy-IsArray}
use colossus_x.Tests.Chain.{root_block}

abbrev toy_json : Json
toy_json = record {
  marshal_entry = λ e. ok e.1;
  unmarshal_entry = λ s. ok (root_block, s);
  marshal_meta = λ m. ok (m.0 ++ m.1);
  unmarshal_meta = λ s. ok (take 64 s, drop 64 s);
}

split_texts : (a b : Bytes) → length a ≡ 64 → (take 64 (a ++ b) ≡ a) × (drop 64 (a ++ b) ≡ b)
split_texts a b size =
    append-injective (take 64 (a ++ b)) a (drop 64 (a ++ b)) b
      (omega (arith, length-take 64 (a ++ b), length-append a b, size))
      (take-append-drop 64 (a ++ b))

toy_json-MetaDecodes : MetaDecodes toy_json
toy_json-MetaDecodes g t p q =
    let (first, second) =
      split_texts (hex_encode g) (hex_encode t) (omega (arith, length-hex_encode g, p.size)) in
    (hex_encode g ++ hex_encode t, refl, ap₂ (λ (x y : Bytes). ok (x, y)) first second)

abbrev changes : List Change
changes = add_block root_block (some 1) ∷ move_tip (block_hash toy_crypto root_block) ∷ []

root_hash-IsArray : IsArray 32 (block_hash toy_crypto root_block)
unfolding header_hash
root_hash-IsArray = toy-IsArray 32 (encode root_block.header)

-- no snapshot can be read
abbrev toy_decode : Bytes → Result Snapshot
toy_decode s =
    ok (record { genesis_text = []; tip_text = []; blocks = []; heights = []; works = [] })

-- the third call that writes fails and leaves nothing
abbrev third_fails : ℕ → Option (Option Bytes)
third_fails k = if k == 2 then some none else none

abbrev none_fails : ℕ → Option (Option Bytes)
none_fails k = none

load-Readable_example :
    ((load none_fails toy_json toy_decode
        (found_store (disk_run toy_crypto toy_json third_fails changes empty_store).files 0)).0
      ≡ ok tt)
    × Readable toy_json
        (load none_fails toy_json toy_decode
          (found_store (disk_run toy_crypto toy_json third_fails changes empty_store).files 0)).1
load-Readable_example =
    load-Readable toy_crypto toy_crypto-HasSizes toy_json toy_json-MetaDecodes third_fails
      none_fails toy_decode changes 0
      ((big_int_to_string (some 1), refl, refl), (root_hash-IsArray, tt))

disk_run-SameAnswers_example :
    (disk_results toy_crypto none_fails toy_json changes empty_store
      ≡ memory_results toy_crypto changes new_memory_store)
    × SameAnswers toy_json
        (disk_run toy_crypto toy_json none_fails changes empty_store)
        (memory_run toy_crypto changes new_memory_store)
    × ((load none_fails toy_json toy_decode
          (found_store (disk_run toy_crypto toy_json none_fails changes empty_store).files 0)).0
        ≡ ok tt)
    × SameAnswers toy_json
        (load none_fails toy_json toy_decode
          (found_store (disk_run toy_crypto toy_json none_fails changes empty_store).files 0)).1
        (memory_run toy_crypto changes new_memory_store)
disk_run-SameAnswers_example =
    disk_run-SameAnswers toy_crypto toy_crypto-HasSizes toy_json toy_json-MetaDecodes none_fails
      none_fails toy_decode changes 0 (λ k. refl) tt
      ((big_int_to_string (some 1), refl, refl), (root_hash-IsArray, tt))

big_int_from_string-big_int_to_string_example :
    big_int_from_string (big_int_to_string (some 340)) ≡ ok (pos 340)
big_int_from_string-big_int_to_string_example = big_int_from_string-big_int_to_string (some 340)
