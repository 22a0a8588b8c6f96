-- ===== src/Tests/Node.antt =====
-- A node that mines on the first block of a chain, and receives a block.
use colossus_x.Prelude.{ℕ, List, ◌≡◌, ◌≢◌, refl, true, [], ◌∷◌, replicate, arith, ok}
use colossus_x.Prelude.Int.{ℤ, pos, ltb_ℤ, ◌+ℤ◌}
use colossus_x.Bytes.{bytes_eq, bytes_eq_self, zero_hash}
use colossus_x.Types.{BlockHeader, block_hash}
use colossus_x.Chain.Memory.{
  MemoryStore, new_memory_store, memory_store, store_block, get_block, get_header,
}
use colossus_x.Consensus.Header.{validate_linkage}
use colossus_x.Node.{next_header}
use colossus_x.Node.Template.{next_header-validate_linkage}
use colossus_x.Tests.Hashes.{toy_crypto}
use colossus_x.Tests.Chain.{
  light_spec, light_spec-IsValid, light_spec-InRange, a_validator, root_block, root_header, differs,
}

-- the turns of two handlers, the second of which is called before the first has stored its block
abbrev two_handlers : List (ℕ × ℤ)
two_handlers =
    (0, pos 1700000000)
    ∷ (1, pos 1700000000)
    ∷ (0, pos 1700000000)
    ∷ (1, pos 1700000001)
    ∷ (1, pos 1700000001)
    ∷ (0, pos 1700000001)
    ∷ (0, pos 1700000001)
    ∷ (1, pos 1700000002)
    ∷ []

abbrev rooted : MemoryStore
rooted = record new_memory_store {
  blocks = λ h. (store_block toy_crypto new_memory_store root_block 1).blocks h;
}

root_stored : get_header rooted (block_hash toy_crypto root_block) ≡ ok root_header
unfolding get_header get_block store_block
root_stored = rw (bytes_eq_self (block_hash toy_crypto root_block)) refl

easy_bits : replicate 32 255 ≢ zero_hash
unfolding bytes_eq
easy_bits = differs (replicate 32 255) zero_hash refl

early : ltb_ℤ (pos 1700000000) (pos 1700000000 +ℤ pos 7200) ≡ true
unfolding ◌+ℤ◌
early = refl

next_header_example :
    (header : BlockHeader) × (next_header toy_crypto light_spec
        (replicate 32 255)
        (pos 1700000000)
        (λ n. n ∷ [])
        root_block
      ≡ ok header)
    × (validate_linkage toy_crypto
          (memory_store toy_crypto)
          (pos 1700000000)
          a_validator
          rooted
          header
        ≡ ok tt)
next_header_example =
    next_header-validate_linkage toy_crypto (memory_store toy_crypto) a_validator rooted
      (replicate 32 255) (pos 1700000000) (λ n. n ∷ []) root_block light_spec-IsValid
      light_spec-InRange root_stored (omega arith) early easy_bits
