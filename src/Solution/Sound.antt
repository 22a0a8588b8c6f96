-- ===== src/Solution/Sound.antt =====
-- What an accepted solution proves: its nonce meets the target under the hash of the whole DAG.
use colossus_x.Prelude.{
  ℕ, ◌+◌, ◌%◌, ◌^◌, ◌<◌, ◌≡◌, ◌≢◌, ◌⊎◌, inl, inr, sym, ◌∙◌, true, false, List, [], ◌∷◌, ◌++◌, arith,
  length, get_elem?_of_lt, ok, some, take, ◌==◌, ==_iff, >>=-eq-ok, require-eq-ok,
}
use colossus_x.Bytes.{Bytes, All}
use colossus_x.Bytes.Words.{le_bytes}
use colossus_x.Crypto.{Crypto}
use colossus_x.Nonce.{append_to}
use colossus_x.Target.{less_or_equal_be}
use colossus_x.Spec.{Spec, node_count}
use colossus_x.Hash.{
  DagAccessor, HashResult, trace_rounds, round_index, colossus_x_round_mix, colossus_x_trace_hash,
  colossus_x_hash,
}
use colossus_x.Merkle.{verify_merkle_proof, build_merkle_leaves, build_merkle_root}
use colossus_x.Merkle.Soundness.{Are32, Collision}
use colossus_x.Merkle.Depth.{verify_merkle_proof_cell}
use colossus_x.Solution.{
  SolutionCell, Solution, check_mining_cell, check_mining, check_digest, verify_solution,
}
use colossus_x.Solution.Rounds.{Holds, round_index_bounds}

-- the nodes of the proofs are [32]byte values
abbrev pub HasProofs : List SolutionCell → Type 0
HasProofs = All (λ cell. Are32 cell.proof)

module _ (c : Crypto) (spec : Spec) (dag : DagAccessor) (cells : List Bytes) where
  abbrev root : Bytes
  root = build_merkle_root c.blake3 (build_merkle_leaves c.blake3 cells)

  record IsChecked (round : ℕ) (mix mix' : Bytes) (cell : SolutionCell) : Type 0 where
    indexed : cell.index ≡ round_index c round mix (node_count spec) % 2 ^ 32
    wide : length cell.bytes ≡ spec.node_size
    proved : verify_merkle_proof c.blake3 root (c.blake3 cell.bytes) cell.index cell.proof ≡ true
    mixed : mix' ≡ colossus_x_round_mix c mix cell.bytes

  check_mining_cell-IsChecked :
      (round : ℕ) (mix mix' : Bytes) (cell : SolutionCell)
      → check_mining_cell c spec root round mix cell ≡ ok mix'
      → IsChecked round mix mix' cell
  unfolding check_mining_cell
  check_mining_cell-IsChecked round mix mix' cell e = ground arith

  -- the cell of an accepted round is the cell that the hash reads
  checked_cell :
      (round : ℕ) (mix mix' : Bytes) (cell : SolutionCell)
      → ((x : Bytes) → length (c.blake3 x) ≡ 32)
      → Holds spec dag cells
      → spec.node_size ≢ 64
      → Are32 cell.proof
      → IsChecked round mix mix' cell
      → (dag.read_node (round_index c round mix dag.count) ≡ ok cell.bytes) ⊎ Collision c.blake3
  checked_cell round mix mix' cell sizes h ne ps k =
      let idx = round_index c round mix dag.count in
      let same : node_count spec ≡ dag.count = h.sized ∙ sym h.counted in
      let filled : 0 < dag.count = rw h.counted h.filled in
      let (inside, word) = round_index_bounds c round mix dag.count filled in
      let wrapped : cell.index ≡ idx % 2 ^ 32 = rw same at k.indexed in
      let at_idx : cell.index ≡ idx = omega (arith, wrapped, word) in
      let (true_cell, at) = get_elem?_of_lt cells idx (omega (arith, inside, h.counted)) in
      elim (verify_merkle_proof_cell c.blake3 spec.node_size sizes cells idx true_cell cell.bytes
        cell.proof h.widths at k.wide ne ps (rw at_idx at k.proved)) [
          | inl same ↦ inl (rw same (h.reads idx true_cell at))
          | inr x ↦ inr x
        ]

  abbrev Traced : ℕ → ℕ → Bytes → Bytes → Type 0
  Traced n round mix last =
      ((accessed : List ℕ) × (trace_rounds c dag n round mix ≡ ok (last, accessed)))
      ⊎ Collision c.blake3

  -- the mining loop follows the rounds of the hash
  check_mining-Traced :
      (mining : List SolutionCell) (round : ℕ) (mix last : Bytes)
      → ((x : Bytes) → length (c.blake3 x) ≡ 32)
      → Holds spec dag cells
      → spec.node_size ≢ 64
      → HasProofs mining
      → check_mining c spec root round mix mining ≡ ok last
      → Traced (length mining) round mix last
  unfolding check_mining trace_rounds
  check_mining-Traced [] round mix last sizes h ne ps e = inl ([], cc)
  check_mining-Traced (cell ∷ r) round mix last sizes h ne ps e =
      let (mix', this, rest) = >>=-eq-ok _ _ e in
      let k = check_mining_cell-IsChecked round mix mix' cell this in
      elim (checked_cell round mix mix' cell sizes h ne ps.0 k) [
        | inr x ↦ inr x
        | inl read ↦ elim (check_mining-Traced r (round + 1) mix' last sizes h ne ps.1 rest) [
          | inr x ↦ inr x
          | inl (accessed, ran) ↦
              inl (round_index c round mix dag.count % 2 ^ 32 ∷ accessed, rw (read, ← k.mixed, ran))
        ]
      ]

  -- the parts of an accepted solution
  record IsAccepted (header target : Bytes) (s : Solution) : Type 0 where
    last : Bytes
    counted : length s.mining_cells ≡ spec.reads_per_hash
    mined :
        check_mining c spec root 0 (c.sha3_512 (header ++ le_bytes 8 s.nonce)) s.mining_cells
        ≡ ok last
    meets :
        less_or_equal_be (c.blake3 (c.sha3_512 (header ++ le_bytes 8 s.nonce) ++ last)) target
        ≡ true

  check_digest-meets :
      (target initial mix : Bytes) (s : Solution)
      → check_digest c spec target root s initial mix ≡ ok tt
      → less_or_equal_be (c.blake3 (initial ++ mix)) target ≡ true
  unfolding check_digest
  check_digest-meets target initial mix s e = ground arith

  verify_solution-IsAccepted :
      (header target : Bytes) (s : Solution)
      → verify_solution c spec header target root s ≡ ok tt
      → IsAccepted header target s
  unfolding verify_solution
  verify_solution-IsAccepted header target s e =
      let (u, counted, e') = >>=-eq-ok _ _ e in
      let (last, mined, digest) = >>=-eq-ok _ _ e' in
      record {
        last = last;
        counted = (==_iff _ _).0 (require-eq-ok _ _ counted);
        mined = mined;
        meets = check_digest-meets target (c.sha3_512 (header ++ le_bytes 8 s.nonce)) last s digest;
      }

  -- The proof of work is sound: over a DAG that holds the cells of the specification, with nodes of
  -- another size than 64 bytes, and with digests of 32 bytes, an accepted solution whose mining
  -- proofs are made of 32-byte nodes carries a nonce whose hash over the DAG succeeds and meets the
  -- target, or there are two inputs on which blake3 collides.
  pub verify_solution_sound :
      (header target : Bytes) (s : Solution)
      → ((x : Bytes) → length (c.blake3 x) ≡ 32)
      → Holds spec dag cells
      → spec.node_size ≢ 64
      → HasProofs s.mining_cells
      → verify_solution c spec header target root s ≡ ok tt
      → ((r : HashResult) × (colossus_x_hash c spec header (some s.nonce) dag ≡ ok r)
          × (less_or_equal_be r.pow256 target ≡ true))
        ⊎ Collision c.blake3
  unfolding colossus_x_hash colossus_x_trace_hash append_to
  verify_solution_sound header target s sizes h ne ps e =
      let a = verify_solution-IsAccepted header target s e in
      let initial = c.sha3_512 (header ++ le_bytes 8 s.nonce) in
      let nonempty : (dag.count == 0) ≡ false = ground (arith, h.counted, h.filled) in
      elim (check_mining-Traced s.mining_cells 0 initial a.last sizes h ne ps a.mined) [
        | inr x ↦ inr x
        | inl (accessed, ran) ↦ inl (
          record {
            pow256 = c.blake3 (initial ++ a.last);
            full512 = take 32 initial ++ take 32 a.last;
          },
          rw (nonempty, ← a.counted, ran),
          a.meets,
        )
      ]
