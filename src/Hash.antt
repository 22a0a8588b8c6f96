-- ===== src/Hash.antt =====
-- colossusx/hash.go and colossusx/hash_colossusx_v2.go: the two proof-of-work hashes over a DAG.
-- A nil Nonce is `none`. Slices that only save allocations (HashScratch) are left out: every use
-- starts from an empty slice.
use colossus_x.Prelude.{
  ℕ, zero, suc, ◌+◌, ◌*◌, ◌/◌, ◌%◌, ◌^◌, ◌||◌, Option, none, some, List, [], ◌∷◌, ◌++◌, length,
  take, drop, bit_xor, leb, ◌==◌, if◌then◌else◌, Result, ok, ◌>>=◌,
}
use colossus_x.Bytes.{Bytes, zeros}
use colossus_x.Bytes.Words.{le_bytes, from_le}
use colossus_x.Crypto.{Crypto}
use colossus_x.Nonce.{append_to}
use colossus_x.Spec.{Spec}

-- DAGAccessor. ReadNode fills the caller's buffer of one node; reading past the last node panics.
pub record DagAccessor : Type 0 where
  pub count : ℕ
  pub read_node : ℕ → Result Bytes

pub record HashResult : Type 0 where
  pub pow256 : Bytes
  pub full512 : Bytes

-- HashResult{}
abbrev pub empty_result : HashResult
empty_result = record { pow256 = zeros 32; full512 = zeros 64 }

-- ColossusXTrace
pub record Trace : Type 0 where
  pub initial_hash : Bytes
  pub mix_digest : Bytes
  pub accessed : List ℕ
  pub result : Bytes
  pub solution_hash : Bytes

abbrev pub empty_trace : Trace
empty_trace = record {
  initial_hash = zeros 64;
  mix_digest = zeros 64;
  accessed = [];
  result = zeros 32;
  solution_hash = zeros 32;
}

unfoldable pub fnv1a32 : ℕ → ℕ → ℕ
fnv1a32 a b = bit_xor a b * 0x01000193 % 2 ^ 32

abbrev fnv_offset64 : ℕ
fnv_offset64 = 14695981039346656037

abbrev fnv_prime64 : ℕ
fnv_prime64 = 1099511628211

fnv1a64_loop : ℕ → Bytes → ℕ
fnv1a64_loop h [] = h
fnv1a64_loop h (b ∷ r) = fnv1a64_loop (bit_xor h b * fnv_prime64 % 2 ^ 64) r

unfoldable pub fnv1a64 : Bytes → ℕ
unfolding fnv1a64_loop
fnv1a64 b = fnv1a64_loop fnv_offset64 b

-- the first n little-endian 32-bit words
unfoldable pub words : ℕ → Bytes → List ℕ
words zero b = []
words (suc n) b = from_le (take 4 b) ∷ words n (drop 4 b)

-- words[i] = fnv1a32(words[i], cw)
unfoldable pub mix_words : List ℕ → List ℕ → List ℕ
mix_words [] cs = []
mix_words (w ∷ ws) [] = w ∷ ws
mix_words (w ∷ ws) (c ∷ cs) = fnv1a32 w c ∷ mix_words ws cs

-- `for q := 0; q+64 <= len(cell); q += 64`, for the rounds to go
unfoldable pub mix_quarters : ℕ → Bytes → List ℕ → List ℕ
mix_quarters zero cell ws = ws
mix_quarters (suc n) cell ws = mix_quarters n (drop 64 cell) (mix_words ws (words 16 cell))

unfoldable pub words_bytes : List ℕ → Bytes
words_bytes [] = []
words_bytes (w ∷ ws) = le_bytes 4 w ++ words_bytes ws

-- the header with the nonce appended, if there is one
abbrev pub seed_input : Bytes → Option ℕ → Bytes
seed_input header none = header
seed_input header (some n) = append_to n header

-- nonceBytes, zero unless the nonce is a Uint64Nonce
abbrev pub nonce_bytes : Option ℕ → Bytes
nonce_bytes none = zeros 8
nonce_bytes (some n) = le_bytes 8 n

module _ (c : Crypto) where
  -- colossusXRoundMix
  unfoldable pub colossus_x_round_mix : Bytes → Bytes → Bytes
  unfolding words mix_words mix_quarters words_bytes
  colossus_x_round_mix mix cell =
      c.sha3_512 (words_bytes (mix_quarters (length cell / 64) cell (words 16 mix)))

  -- the node that a round reads
  unfoldable pub round_index : ℕ → Bytes → ℕ → ℕ
  round_index round mix count = fnv1a32 (round % 2 ^ 32) (from_le (take 4 mix)) % count

  -- the loop of ColossusXTraceHash, for the rounds to go: the last mix and the nodes read
  unfoldable pub trace_rounds : DagAccessor → ℕ → ℕ → Bytes → Result (Bytes × List ℕ)
  trace_rounds dag zero round mix = ok (mix, [])
  trace_rounds dag (suc n) round mix = do
    let index = round_index round mix dag.count
    cell ← dag.read_node index
    (last, accessed) ← trace_rounds dag n (round + 1) (colossus_x_round_mix mix cell)
    ok (last, index % 2 ^ 32 ∷ accessed)

  -- ColossusXTraceHash past its first test, from the first digest
  unfoldable pub trace_from : Spec → Option ℕ → DagAccessor → Bytes → Result Trace
  trace_from spec nonce dag initial = do
    (mix, accessed) ← trace_rounds dag spec.reads_per_hash 0 initial
    ok (record {
      initial_hash = initial;
      mix_digest = mix;
      accessed = accessed;
      result = c.blake3 (initial ++ mix);
      solution_hash = c.blake3 ((initial ++ mix) ++ nonce_bytes nonce);
    })

  -- ColossusXTraceHash
  unfoldable pub colossus_x_trace_hash : Spec → Bytes → Option ℕ → DagAccessor → Result Trace
  unfolding trace_from
  colossus_x_trace_hash spec header nonce dag =
      if dag.count == 0
      then ok empty_trace
      else trace_from spec nonce dag (c.sha3_512 (seed_input header nonce))

  -- ColossusXHash
  unfoldable pub colossus_x_hash : Spec → Bytes → Option ℕ → DagAccessor → Result HashResult
  colossus_x_hash spec header nonce dag = do
    trace ← colossus_x_trace_hash spec header nonce dag
    ok (record {
      pow256 = trace.result;
      full512 = take 32 trace.initial_hash ++ take 32 trace.mix_digest;
    })

  -- the loop of LatticeHash
  unfoldable pub lattice_rounds : DagAccessor → ℕ → ℕ → Bytes → Result Bytes
  lattice_rounds dag zero r mix = ok mix
  lattice_rounds dag (suc n) r mix = do
    node ← dag.read_node (fnv1a64 (mix ++ le_bytes 8 r) % dag.count)
    lattice_rounds dag n (r + 1) (c.blake3 (mix ++ node))

  -- LatticeHash past its tests, from the first digest
  unfoldable pub lattice_from : Spec → DagAccessor → Bytes → Result HashResult
  lattice_from spec dag seed512 = do
    mix ← lattice_rounds dag spec.reads_per_hash 0 (take 32 seed512)
    let final512 = c.sha3_512 (seed512 ++ mix)
    ok (record { pow256 = take 32 final512; full512 = final512 })

  -- LatticeHash
  unfoldable pub lattice_hash : Spec → Bytes → Option ℕ → DagAccessor → Result HashResult
  unfolding lattice_from
  lattice_hash spec header nonce dag =
      if leb 2 spec.algorithm_version
      then colossus_x_hash spec header nonce dag
      else if dag.count == 0
      then ok empty_result
      else lattice_from spec dag (c.sha3_512 (seed_input header nonce))

  -- the loop of ColossusXAuditIndices, for the rounds to go
  unfoldable pub audit_loop : Bytes → ℕ → ℕ → ℕ → List ℕ
  audit_loop pow cells zero i = []
  audit_loop pow cells (suc n) i =
      from_le (take 4 (c.sha3_256 (pow ++ le_bytes 4 i))) % cells ∷ audit_loop pow cells n (i + 1)

  -- ColossusXAuditIndices, ColossusXAuditIndicesFromSolutionHash
  unfoldable pub colossus_x_audit_indices : Bytes → ℕ → ℕ → List ℕ
  colossus_x_audit_indices pow cells count =
      if cells == 0 || count == 0 then [] else audit_loop pow cells count 0
