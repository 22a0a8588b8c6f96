-- ===== src/Crypto.antt =====
-- The hash functions that the program takes from other packages: crypto/sha256, golang.org/x/crypto
-- (SHA-3 and the legacy Keccak) and github.com/zeebo/blake3. They are parameters of the model; what
-- the program relies on is the size of their digests.
use colossus_x.Prelude.{ℕ}
use colossus_x.Bytes.{Bytes, IsArray}

pub record Crypto : Type 0 where
  pub sha256 : Bytes → Bytes
  pub sha3_256 : Bytes → Bytes
  pub sha3_512 : Bytes → Bytes
  pub keccak512 : Bytes → Bytes
  pub blake3 : Bytes → Bytes
  -- NewKeyed(key), Write(data) and Digest().Read of n bytes
  pub blake3_keyed : Bytes → Bytes → ℕ → Bytes

pub record HasSizes (c : Crypto) : Type 0 where
  pub sha256_size : (b : Bytes) → IsArray 32 (c.sha256 b)
  pub sha3_256_size : (b : Bytes) → IsArray 32 (c.sha3_256 b)
  pub sha3_512_size : (b : Bytes) → IsArray 64 (c.sha3_512 b)
  pub keccak512_size : (b : Bytes) → IsArray 64 (c.keccak512 b)
  pub blake3_size : (b : Bytes) → IsArray 32 (c.blake3 b)
  pub blake3_keyed_size : (k b : Bytes) (n : ℕ) → IsArray n (c.blake3_keyed k b n)
