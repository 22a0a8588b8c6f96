-- ===== src/Consensus/Cache/Keys.antt =====
-- The keys of the caches tell headers apart by their epoch seed and their DAG size.
use colossus_x.Prelude.{◌≡◌, sym, ◌∙◌, true, [], ◌∷◌, ◌++◌, arith}
use mathlib.Core.List.{append_assoc}
use colossus_x.Bytes.{Bytes, All, IsArray, append-injective, append_cancel}
use colossus_x.Decimal.{format_uint, is_digit}
use colossus_x.Decimal.RoundTrip.{format_uint-IsDigits, format_uint-injective}
use colossus_x.Hex.{hex_encode}
use colossus_x.Hex.RoundTrip.{length-hex_encode, hex_encode-injective}
use colossus_x.Types.{BlockHeader}
use colossus_x.Consensus.Cache.{Allocator, shared_key, fallback_key}
use colossus_x.Bytes.Texts.{codes}

-- the headers ask for one DAG
pub record SameDag (g h : BlockHeader) : Type 0 where
  pub same_seed : g.epoch_seed ≡ h.epoch_seed
  pub same_size : g.dag_size_bytes ≡ h.dag_size_bytes

abbrev pub HasSeed : BlockHeader → Type 0
HasSeed h = IsArray 32 h.epoch_seed

-- two keys that begin with a seed: the seeds are equal, and so is what follows
split_keys :
    (g h : BlockHeader) (s t : Bytes)
    → HasSeed g
    → HasSeed h
    → hex_encode g.epoch_seed ++ s ≡ hex_encode h.epoch_seed ++ t
    → (g.epoch_seed ≡ h.epoch_seed) × (s ≡ t)
split_keys g h s t p q e =
    let halves =
      append-injective (hex_encode g.epoch_seed) (hex_encode h.epoch_seed) s t
        (omega
          (arith, length-hex_encode g.epoch_seed, length-hex_encode h.epoch_seed, p.size, q.size))
        e in
    (hex_encode-injective g.epoch_seed h.epoch_seed p q halves.0, halves.1)

pub shared_key-injective :
    (g h : BlockHeader) → HasSeed g → HasSeed h → shared_key g ≡ shared_key h → SameDag g h
unfolding shared_key
shared_key-injective g h p q e =
    let (seeds, rest) =
      split_keys g h (b'/' ∷ format_uint g.dag_size_bytes) (b'/' ∷ format_uint h.dag_size_bytes) p q
        e in
    let sizes : format_uint g.dag_size_bytes ≡ format_uint h.dag_size_bytes = cc in
    record {
      same_seed = seeds;
      same_size = format_uint-injective g.dag_size_bytes h.dag_size_bytes sizes;
    }

pub fallback_key-injective :
    (g h : BlockHeader) (a : Allocator)
    → HasSeed g
    → HasSeed h
    → fallback_key g a ≡ fallback_key h a
    → SameDag g h
unfolding fallback_key
fallback_key-injective g h a p q e =
    shared_key-injective g h p q
      (append_cancel (shared_key g) (shared_key h) (b'/' ∷ (a.name ++ codes "/validation")) e)

-- digits do not go on with a slash
digits_end : (s t r : Bytes) → All (λ b. is_digit b ≡ true) t → s ++ (b'/' ∷ r) ≡ t → ⊥
digits_end [] [] r a e = cc
digits_end [] (y ∷ t) r a e = let slash : b'/' ≡ y = cc in ground (arith, a.0, slash)
digits_end (x ∷ s) [] r a e = cc
digits_end (x ∷ s) (y ∷ t) r a e = let same : s ++ (b'/' ∷ r) ≡ t = cc in digits_end s t r a.1 same

-- no key of a fallback DAG is the key of a shared one
pub fallback_key-shared_key :
    (g h : BlockHeader) (a : Allocator)
    → HasSeed g
    → HasSeed h
    → fallback_key g a ≡ shared_key h
    → ⊥
unfolding fallback_key shared_key
fallback_key-shared_key g h a p q e =
    let tail = a.name ++ codes "/validation" in
    let (_, rest) =
      split_keys g h (b'/' ∷ (format_uint g.dag_size_bytes ++ (b'/' ∷ tail)))
        (b'/' ∷ format_uint h.dag_size_bytes) p q
        (sym (
            append_assoc (hex_encode g.epoch_seed) (b'/' ∷ format_uint g.dag_size_bytes)
              (b'/' ∷ tail))
          ∙ e) in
    let same : format_uint g.dag_size_bytes ++ (b'/' ∷ tail) ≡ format_uint h.dag_size_bytes = cc in
    digits_end (format_uint g.dag_size_bytes) (format_uint h.dag_size_bytes) tail
      (format_uint-IsDigits h.dag_size_bytes) same
