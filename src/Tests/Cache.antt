-- ===== src/Tests/Cache.antt =====
-- A run of a validator with caches: two checks of a block, with a change of the mining backend between
-- them, and a third one after Close.
use colossus_x.Prelude.{◌≡◌, List, [], ◌∷◌, none, some, false, replicate}
use colossus_x.Prelude.Int.{pos}
use colossus_x.Chain.Memory.{MemoryStore, new_memory_store, memory_store}
use colossus_x.Spec.Validate.{validate_iff}
use colossus_x.Consensus.Cache.{slice_allocator, new_setup, no_caches}
use colossus_x.Consensus.Cache.Runs.{
  Request, check_header, check_block, set_backend, close_all, answers, plain_answers,
  answers-eq-plain_answers,
}
use colossus_x.Tests.Hashes.{toy_crypto, toy-IsArray}
use colossus_x.Tests.Chain.{a_validator, root_block, root_header, light_spec-IsValid}

abbrev requests : List (Request MemoryStore)
requests =
    check_block (pos 1700000000) new_memory_store root_block
    ∷ set_backend none (some (record slice_allocator { reuse = some false }))
    ∷ check_header (pos 1700000000) new_memory_store root_header
    ∷ close_all
    ∷ check_block (pos 1700000000) new_memory_store root_block
    ∷ []

answers-eq-plain_answers_example :
    answers toy_crypto
      (memory_store toy_crypto)
      (new_setup a_validator.config a_validator.backend_hash)
      no_caches
      requests
    ≡ plain_answers toy_crypto
        (memory_store toy_crypto)
        (new_setup a_validator.config a_validator.backend_hash)
        requests
answers-eq-plain_answers_example =
    answers-eq-plain_answers toy_crypto (memory_store toy_crypto) a_validator.config
      a_validator.backend_hash requests
      ((validate_iff a_validator.config.spec).1 light_spec-IsValid)
      (
        toy-IsArray 32 (replicate 40 0),
        (toy-IsArray 32 (replicate 40 0), (toy-IsArray 32 (replicate 40 0), tt)),
      )
