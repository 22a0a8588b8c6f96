-- ===== src/Types/Encoding.antt =====
-- The encoding that is hashed and mined determines the header.
use colossus_x.Prelude.{
  ℕ, ◌^◌, ◌<◌, ◌≤◌, ◌≡◌, sym, ap, ◌∙◌, ◌++◌, arith, length, length-append, ◌⊎◌, inl, inr,
}
use colossus_x.Prelude.Int.{ℤ, pos, negsuc, pos_part, neg_part}
use colossus_x.Bytes.{Bytes, IsArray, append-injective}
use colossus_x.Bytes.Words.{be_bytes, length-be_bytes, be_bytes-injective}
use colossus_x.Crypto.{Crypto}
use colossus_x.Merkle.Soundness.{Collision, eq_or_Collision}
use colossus_x.Types.{BlockHeader, IsHeader, to_uint64, encode_for_mining, encode, header_hash}

IsInt64 : ℤ → Type 0
IsInt64 t = (pos_part t < 2 ^ 63) × (neg_part t ≤ 2 ^ 63)

to_uint64-lt : (t : ℤ) → to_uint64 t < 2 ^ 64
unfolding to_uint64
to_uint64-lt (pos n) = omega arith
to_uint64-lt (negsuc n) = omega arith

to_uint64-injective :
    (t u : ℤ)
    → pos_part t < 2 ^ 63
    → neg_part t ≤ 2 ^ 63
    → pos_part u < 2 ^ 63
    → neg_part u ≤ 2 ^ 63
    → to_uint64 t ≡ to_uint64 u
    → t ≡ u
unfolding to_uint64
to_uint64-injective (pos n) (pos m) a b c d e = ap pos (omega arith)
to_uint64-injective (pos n) (negsuc m) a b c d e = absurd (omega arith)
to_uint64-injective (negsuc n) (pos m) a b c d e = absurd (omega arith)
to_uint64-injective (negsuc n) (negsuc m) a b c d e = ap negsuc (omega arith)

-- one fixed-size field in front of the rest
split_array :
    (n : ℕ) (a b r s : Bytes) → IsArray n a → IsArray n b → a ++ r ≡ b ++ s → (a ≡ b) × (r ≡ s)
split_array n a b r s p q e = append-injective a b r s (p.size ∙ sym q.size) e

split_word :
    (n v w : ℕ) (r s : Bytes)
    → v < 256 ^ n
    → w < 256 ^ n
    → be_bytes n v ++ r ≡ be_bytes n w ++ s
    → (v ≡ w) × (r ≡ s)
split_word n v w r s p q e =
    let (same, rest) =
      append-injective (be_bytes n v) (be_bytes n w) r s
        (length-be_bytes n v ∙ sym (length-be_bytes n w)) e in
    (be_bytes-injective n v w p q same, rest)

-- everything but the nonce
abbrev pub SameButNonce : BlockHeader → BlockHeader → Type 0
SameButNonce g h = g ≡ record h { nonce = g.nonce }

-- EncodeForMining determines every field but the nonce, which it leaves out: on headers whose
-- fields fit their Go types, equal mining inputs come from headers that differ in the nonce only.
pub encode_for_mining-injective :
    (g h : BlockHeader)
    → IsHeader g
    → IsHeader h
    → encode_for_mining g ≡ encode_for_mining h
    → SameButNonce g h
unfolding encode_for_mining
encode_for_mining-injective g h p q e =
    let (e1, r1) = split_word 4 g.version h.version _ _ p.version_word q.version_word e in
    let (e2, r2) =
      split_word 4 g.algorithm_version h.algorithm_version _ _ p.algorithm_word q.algorithm_word
        r1 in
    let (e3, r3) = split_word 8 g.height h.height _ _ p.height_word q.height_word r2 in
    let (e4, r4) =
      split_array 32 g.parent_hash h.parent_hash _ _ p.parent_array q.parent_array r3 in
    let (e5, r5) =
      split_word 8 (to_uint64 g.timestamp) (to_uint64 h.timestamp) _ _ (to_uint64-lt g.timestamp)
        (to_uint64-lt h.timestamp) r4 in
    let (e6, r6) = split_array 32 g.target h.target _ _ p.target_array q.target_array r5 in
    let (e7, r7) = split_array 32 g.epoch_seed h.epoch_seed _ _ p.seed_array q.seed_array r6 in
    let (e8, r8) = split_word 8 g.dag_size_bytes h.dag_size_bytes _ _ p.size_word q.size_word r7 in
    let (e9, r9) =
      split_array 32 g.dag_merkle_root h.dag_merkle_root _ _ p.merkle_array q.merkle_array r8 in
    let (e10, e11) = split_array 32 g.tx_root h.tx_root _ _ p.tx_array q.tx_array r9 in
    let time =
      to_uint64-injective g.timestamp h.timestamp p.time_high p.time_low q.time_high q.time_low
        e5 in
    λ i. record {
      version = e1 i;
      algorithm_version = e2 i;
      height = e3 i;
      parent_hash = e4 i;
      timestamp = time i;
      target = e6 i;
      nonce = g.nonce;
      epoch_seed = e7 i;
      dag_size_bytes = e8 i;
      dag_merkle_root = e9 i;
      tx_root = e10 i;
      state_root = e11 i;
    }

pub length-encode_for_mining : (h : BlockHeader) → IsHeader h → length (encode_for_mining h) ≡ 224
unfolding encode_for_mining
length-encode_for_mining h p = omega (
  arith,
  length-append {0},
  length-be_bytes,
  p.parent_array.size,
  p.target_array.size,
  p.seed_array.size,
  p.merkle_array.size,
  p.tx_array.size,
  p.state_array.size,
)

encode-injective : (g h : BlockHeader) → IsHeader g → IsHeader h → encode g ≡ encode h → g ≡ h
unfolding encode
encode-injective g h p q e =
    let sizes = length-encode_for_mining g p ∙ sym (length-encode_for_mining h q) in
    let (front, back) =
      append-injective (encode_for_mining g) (encode_for_mining h) (be_bytes 8 g.nonce)
        (be_bytes 8 h.nonce) sizes e in
    let nonces = be_bytes-injective 8 g.nonce h.nonce p.nonce_word q.nonce_word back in
    encode_for_mining-injective g h p q front ∙ (λ i. record h { nonce = nonces i })

-- Block hashes identify headers: headers whose fields fit their Go types and whose hashes are equal
-- are equal, or two inputs on which SHA-256 collides are at hand.
pub header_hash-injective :
    (c : Crypto) (g h : BlockHeader)
    → IsHeader g
    → IsHeader h
    → header_hash c g ≡ header_hash c h
    → (g ≡ h) ⊎ Collision c.sha256
unfolding header_hash
header_hash-injective c g h p q e = elim (eq_or_Collision c.sha256 (encode g) (encode h) e) [
  | inl same ↦ inl (encode-injective g h p q same)
  | inr x ↦ inr x
]
