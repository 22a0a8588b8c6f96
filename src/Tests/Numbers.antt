-- ===== src/Tests/Numbers.antt =====
-- Instances for the specification, hex texts, targets, nonces, work and headers.
use colossus_x.Prelude.{
  ℕ, ◌-◌, ◌%◌, ◌^◌, ◌<◌, ◌≤◌, ◌≡◌, ◌↔◌, ◌⊎◌, inr, refl, true, [], ◌∷◌, arith, none, ok,
}
use colossus_x.Prelude.Int.{pos}
use colossus_x.Bytes.{Bytes, All, IsArray, zeros, zero_hash}
use colossus_x.Bytes.Words.{from_be, from_be_acc}
use colossus_x.Hex.{hex_encode, hex_decode, hex_digit}
use colossus_x.Hex.RoundTrip.{hex_decode-hex_encode}
use colossus_x.Target.{parse_target_hex, target_string, less_or_equal_be}
use colossus_x.Target.Order.{less_or_equal_be_iff, parse_target_hex-target_string}
use colossus_x.Chain.Codec.{hash_from_string, unmarshal_hash, hash_from_string-hex_encode}
use colossus_x.Nonce.{add_uint64, add_uint64_lem}
use colossus_x.Spec.{
  InRange, colossus_x_spec, validate, dag_size_for_epoch, dag_size_for_height, initial_dag_size,
  growth_dag_size_per_epoch,
}
use colossus_x.Spec.Validate.{IsValid, validate_iff}
use colossus_x.Spec.Size.{ideal_size, dag_size_for_epoch_lem, dag_size_for_height_mono}
use colossus_x.Types.{BlockHeader, IsHeader}
use colossus_x.Types.Encoding.{SameButNonce, encode_for_mining-injective, header_hash-injective}
use colossus_x.Merkle.Soundness.{Collision}
use colossus_x.Consensus.Work.{calc_block_work, bytes_lt, select_best_chain}
use colossus_x.Consensus.Work.Bounds.{calc_block_work_bounds}
use colossus_x.Consensus.Work.Choice.{select_best_chain_lem}
use colossus_x.Tests.Hashes.{toy_crypto}

colossus_x_spec-IsValid : IsValid colossus_x_spec
unfolding initial_dag_size growth_dag_size_per_epoch
colossus_x_spec-IsValid = record {
  initial_pos = omega arith;
  node_fixed = refl;
  reads_pos = omega arith;
  epoch_pos = omega arith;
  initial_aligned = refl;
  growth_aligned = refl;
  mode_known = inr refl;
}

colossus_x_spec-InRange : InRange colossus_x_spec
colossus_x_spec-InRange = record {
  size = omega arith;
  initial = omega arith;
  growth = omega arith;
  reads = omega arith;
  epoch = omega arith;
}

validate_iff_example : (validate colossus_x_spec ≡ ok tt) ↔ IsValid colossus_x_spec
validate_iff_example = validate_iff colossus_x_spec

dag_size_for_epoch_example :
    dag_size_for_epoch colossus_x_spec 3 ≡ ok (ideal_size colossus_x_spec 3)
dag_size_for_epoch_example =
    dag_size_for_epoch_lem colossus_x_spec 3 colossus_x_spec-IsValid colossus_x_spec-InRange

dag_size_for_height_example :
    (m : ℕ) × (n : ℕ) × (dag_size_for_height colossus_x_spec 100 ≡ ok m)
    × (dag_size_for_height colossus_x_spec 9000 ≡ ok n)
    × (m ≤ n)
    × (256 ≤ m)
    × (n < 2 ^ 64)
    × (m % 256 ≡ 0)
    × (n % 256 ≡ 0)
dag_size_for_height_example =
    dag_size_for_height_mono colossus_x_spec 100 9000 colossus_x_spec-IsValid
      colossus_x_spec-InRange (omega arith)

abbrev low_hash : Bytes
low_hash = 1 ∷ zeros 31

abbrev high_hash : Bytes
high_hash = 2 ∷ zeros 31

zeros-All : All (λ x. x < 256) (zeros 31)
zeros-All = omega arith

low_IsArray : IsArray 32 low_hash
low_IsArray = record { size = refl; bytes = omega arith }

high_IsArray : IsArray 32 high_hash
high_IsArray = record { size = refl; bytes = omega arith }

zero_IsArray : IsArray 32 zero_hash
zero_IsArray = record { size = refl; bytes = omega arith }

hex_example : hex_decode (hex_encode (222 ∷ 173 ∷ [])) ≡ ok (222 ∷ 173 ∷ [])
hex_example = hex_decode-hex_encode (222 ∷ 173 ∷ []) (omega arith)

target_example : parse_target_hex (target_string low_hash) ≡ ok low_hash
target_example = parse_target_hex-target_string low_hash low_IsArray

less_or_equal_be_example :
    (less_or_equal_be low_hash high_hash ≡ true) ↔ (from_be low_hash ≤ from_be high_hash)
less_or_equal_be_example =
    less_or_equal_be_iff low_hash high_hash refl low_IsArray.bytes high_IsArray.bytes

add_uint64_example : add_uint64 (2 ^ 64 - 1) 1 ≡ none
add_uint64_example = add_uint64_lem (2 ^ 64 - 1) 1 (omega arith)

low_pos : 0 < from_be low_hash
unfolding from_be_acc
low_pos = omega arith

low_high : from_be low_hash ≤ from_be high_hash
unfolding from_be_acc
low_high = omega arith

calc_block_work_example :
    (calc_block_work high_hash ≤ calc_block_work low_hash)
    × (1 ≤ calc_block_work high_hash)
    × (calc_block_work low_hash ≤ 2 ^ 255)
calc_block_work_example = calc_block_work_bounds low_hash high_hash high_IsArray low_pos low_high

abbrev five : ℕ
five = 5

select_best_chain_example :
    ((5 < 5) ⊎ ((five ≡ five) × (from_be low_hash < from_be high_hash))
      → select_best_chain high_hash 5 low_hash 5 ≡ low_hash)
    × ((5 < 5) ⊎ ((five ≡ five) × (from_be high_hash ≤ from_be low_hash))
        → select_best_chain high_hash 5 low_hash 5 ≡ high_hash)
select_best_chain_example = select_best_chain_lem high_hash low_hash 5 5 high_IsArray low_IsArray

-- SelectBestChainByTotalWork takes the smaller hash on a tie
select_tie_run : select_best_chain high_hash 5 low_hash 5 ≡ low_hash
unfolding select_best_chain bytes_lt hex_encode hex_digit
select_tie_run = refl

abbrev a_header : BlockHeader
a_header = record {
  version = 1;
  algorithm_version = 2;
  height = 7;
  parent_hash = low_hash;
  timestamp = pos 1700000000;
  target = high_hash;
  nonce = 9;
  epoch_seed = low_hash;
  dag_size_bytes = 512;
  dag_merkle_root = high_hash;
  tx_root = zero_hash;
  state_root = zero_hash;
}

a_header-IsHeader : IsHeader a_header
a_header-IsHeader = record {
  version_word = omega arith;
  algorithm_word = omega arith;
  height_word = omega arith;
  parent_array = low_IsArray;
  time_high = omega arith;
  time_low = omega arith;
  target_array = high_IsArray;
  nonce_word = omega arith;
  seed_array = low_IsArray;
  size_word = omega arith;
  merkle_array = high_IsArray;
  tx_array = zero_IsArray;
  state_array = zero_IsArray;
}

encode_for_mining_example : SameButNonce a_header a_header
encode_for_mining_example =
    encode_for_mining-injective a_header a_header a_header-IsHeader a_header-IsHeader refl

header_hash_example : (a_header ≡ a_header) ⊎ Collision toy_crypto.sha256
header_hash_example =
    header_hash-injective toy_crypto a_header a_header a_header-IsHeader a_header-IsHeader refl

hash_from_string_example :
    (hash_from_string (hex_encode low_hash) ≡ ok low_hash)
    × (unmarshal_hash (hex_encode low_hash) ≡ ok low_hash)
hash_from_string_example = hash_from_string-hex_encode low_hash low_IsArray
