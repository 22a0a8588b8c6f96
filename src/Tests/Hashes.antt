-- ===== src/Tests/Hashes.antt =====
-- Toy hash functions with the sizes of the real ones: a checksum, repeated.
use colossus_x.Prelude.{ℕ, ◌+◌, ◌*◌, ◌%◌, ◌<◌, [], ◌∷◌, ◌++◌, arith, replicate, length-replicate}
use colossus_x.Bytes.{Bytes, IsArray, All-replicate}
use colossus_x.Crypto.{Crypto, HasSizes}

abbrev pub checksum : ℕ → Bytes → ℕ
checksum acc [] = acc
checksum acc (b ∷ r) = checksum ((acc * 31 + b + 1) % 251) r

abbrev pub toy : ℕ → Bytes → Bytes
toy n b = replicate n (checksum 7 b)

abbrev pub toy_crypto : Crypto
toy_crypto = record {
  sha256 = toy 32;
  sha3_256 = toy 32;
  sha3_512 = toy 64;
  keccak512 = toy 64;
  blake3 = toy 32;
  blake3_keyed = λ k b n. toy n (k ++ b);
}

checksum-lt : (acc : ℕ) (b : Bytes) → acc < 256 → checksum acc b < 256
checksum-lt acc [] h = h
checksum-lt acc (b ∷ r) h = checksum-lt ((acc * 31 + b + 1) % 251) r (omega arith)

pub toy-IsArray : (n : ℕ) (b : Bytes) → IsArray n (toy n b)
toy-IsArray n b = record {
  size = length-replicate n (checksum 7 b);
  bytes = All-replicate n (checksum 7 b) (checksum-lt 7 b (omega arith));
}

pub toy_crypto-HasSizes : HasSizes toy_crypto
toy_crypto-HasSizes = record {
  sha256_size = toy-IsArray 32;
  sha3_256_size = toy-IsArray 32;
  sha3_512_size = toy-IsArray 64;
  keccak512_size = toy-IsArray 64;
  blake3_size = toy-IsArray 32;
  blake3_keyed_size = λ k b n. toy-IsArray n (k ++ b);
}
