-- ===== src/Solution/Complete.antt =====
-- An honest miner's solution is accepted: what BuildColossusXSolution makes of a nonce that meets the
-- target passes VerifyColossusXSolution.
use colossus_x.Prelude.{
  ℕ, zero, suc, ◌+◌, ◌%◌, ◌^◌, ◌<◌, ◌≡◌, refl, sym, ap, subst, ◌∙◌, true, false, List, [], ◌∷◌,
  ◌++◌, arith, length, length-map, get_elem?, get_elem?-map, get_elem?_of_lt, ok, some, take, ◌==◌,
  ==_iff, traverse, leb, map,
}
use colossus_x.Bytes.{Bytes, All, bytes_eq_self}
use colossus_x.Bytes.Words.{le_bytes}
use colossus_x.Crypto.{Crypto, HasSizes}
use colossus_x.Nonce.{append_to}
use colossus_x.Target.{less_or_equal_be}
use colossus_x.Spec.{Spec, node_count}
use colossus_x.Hash.{
  DagAccessor, Trace, HashResult, trace_rounds, round_index, colossus_x_round_mix,
  colossus_x_trace_hash, colossus_x_hash, colossus_x_audit_indices,
}
use colossus_x.Merkle.{
  LevelProver, leaf_count, new_merkle_prover, verify_merkle_proof, build_merkle_levels,
  build_merkle_leaves, build_merkle_root,
}
use colossus_x.Merkle.Levels.{levels_loop-cons}
use colossus_x.Merkle.Proofs.{prover_proof-climbs, build_merkle_root-eq-prover_root}
use colossus_x.Solution.{
  SolutionCell, Solution, build_cell, build_solution, check_mining_cell, check_mining,
  check_audit_cell, check_audit, verify_solution, colossus_x_audit_cell_count,
}
use colossus_x.Solution.Rounds.{Holds, IsWordBelow, round_index_bounds, audit_indices_bounds}

All-get {ℓ κ} :
    {A : Type ℓ} (P : A → Type κ) (l : List A) (i : ℕ) {x : A}
    → All P l
    → get_elem? l i ≡ some x
    → P x
All-get P [] i a e = absurd (cc)
All-get P (y ∷ l) zero a e = subst P (cc) a.0
All-get P (y ∷ l) (suc i) a e = All-get P l i a.1 e

new_prover_ok :
    (blake3 : Bytes → Bytes) (cells : List Bytes)
    → 0 < length cells
    → new_merkle_prover blake3 (build_merkle_leaves blake3 cells)
      ≡ ok (record { levels = build_merkle_levels blake3 (build_merkle_leaves blake3 cells) })
unfolding new_merkle_prover build_merkle_leaves
new_prover_ok blake3 [] h = absurd (omega arith)
new_prover_ok blake3 (x ∷ r) h = refl

leaf_count_ok :
    (blake3 : Bytes → Bytes) (cells : List Bytes)
    → leaf_count (record { levels = build_merkle_levels blake3 (build_merkle_leaves blake3 cells) })
      ≡ length cells
unfolding leaf_count build_merkle_levels build_merkle_leaves
leaf_count_ok blake3 cells =
    let l = map blake3 cells in
    let (r, e) = levels_loop-cons blake3 (length l) l in
    rw (e, leaf_count) (length-map cells blake3)

module _ (c : Crypto) (spec : Spec) (dag : DagAccessor) (cells : List Bytes) where
  abbrev pub leaves : List Bytes
  leaves = build_merkle_leaves c.blake3 cells

  abbrev pub root : Bytes
  root = build_merkle_root c.blake3 leaves

  abbrev prover : LevelProver
  prover = record { levels = build_merkle_levels c.blake3 leaves }

  -- a cell that the prover's solution may hold
  record IsGood (idx : ℕ) (cell : SolutionCell) : Type 0 where
    made : build_cell dag prover idx ≡ ok cell
    indexed : cell.index ≡ idx
    wide : length cell.bytes ≡ spec.node_size
    read : dag.read_node idx ≡ ok cell.bytes
    proved : verify_merkle_proof c.blake3 root (c.blake3 cell.bytes) cell.index cell.proof ≡ true

  IsGood-cell :
      (idx : ℕ)
      → Holds spec dag cells
      → IsWordBelow dag.count idx
      → (cell : SolutionCell) × IsGood idx cell
  unfolding build_cell verify_merkle_proof build_merkle_leaves
  IsGood-cell idx h (inside, word) =
      let (cell, at) = get_elem?_of_lt cells idx (omega (arith, inside, h.counted)) in
      let leaf = get_elem?-map c.blake3 cells idx at in
      let (p, made, up) = prover_proof-climbs c.blake3 leaves idx (c.blake3 cell) leaf in
      let small : idx % 2 ^ 32 ≡ idx = omega arith in
      (
        record { index = idx; bytes = cell; proof = p },
        record {
          made = rw (h.reads idx cell at, made, small);
          indexed = refl;
          wide = All-get _ cells idx h.widths at;
          read = h.reads idx cell at;
          proved = rw up (bytes_eq_self _);
        },
      )

  check_good_mining :
      (round : ℕ) (mix : Bytes) (cell : SolutionCell)
      → Holds spec dag cells
      → IsGood (round_index c round mix dag.count) cell
      → round_index c round mix dag.count < 2 ^ 32
      → check_mining_cell c spec root round mix cell ≡ ok (colossus_x_round_mix c mix cell.bytes)
  unfolding check_mining_cell
  check_good_mining round mix cell h g word =
      let idx = round_index c round mix dag.count in
      let same : node_count spec ≡ dag.count = h.sized ∙ sym h.counted in
      let nonempty : (dag.count == 0) ≡ false = ground arith in
      let indexed : (cell.index == idx % 2 ^ 32) ≡ true = ground arith in
      let wide : (length cell.bytes == spec.node_size) ≡ true = ground arith in
      rw (same, nonempty, indexed, wide, g.proved)

  -- the rounds of the hash, the cells built for them, and the checks of the mining loop in step
  abbrev InStep : ℕ → ℕ → Bytes → Type 0
  InStep n round mix =
      (last : Bytes) × (accessed : List ℕ) × (mining : List SolutionCell) × (trace_rounds c dag n
          round mix
        ≡ ok (last, accessed))
      × (traverse (build_cell dag prover) accessed ≡ ok mining)
      × (length mining ≡ n)
      × (check_mining c spec root round mix mining ≡ ok last)

  in_step : (n round : ℕ) (mix : Bytes) → Holds spec dag cells → InStep n round mix
  unfolding trace_rounds check_mining
  in_step zero round mix h = (mix, [], [], refl, refl, refl, refl)
  in_step (suc n) round mix h =
      let idx = round_index c round mix dag.count in
      let (inside, word) = round_index_bounds c round mix dag.count (rw h.counted h.filled) in
      let (cell, g) = IsGood-cell idx h (inside, word) in
      let mix' = colossus_x_round_mix c mix cell.bytes in
      let (last, accessed, mining, ran, built, size, checked) = in_step n (round + 1) mix' h in
      let small : idx % 2 ^ 32 ≡ idx = omega arith in
      (
        last,
        idx ∷ accessed,
        cell ∷ mining,
        rw (g.read, ran, small),
        rw (g.made, built),
        ap suc size,
        rw (check_good_mining round mix cell h g word) checked,
      )

  -- the audit cells that are built for any indices of cells pass the audit loop
  abbrev Audited : List ℕ → Type 0
  Audited idxs =
      (audits : List SolutionCell) × (traverse (build_cell dag prover) idxs ≡ ok audits)
      × (length audits ≡ length idxs)
      × (check_audit c root audits idxs ≡ ok tt)

  audited : (idxs : List ℕ) → Holds spec dag cells → All (IsWordBelow dag.count) idxs → Audited idxs
  unfolding check_audit check_audit_cell
  audited [] h a = ([], refl, refl, refl)
  audited (idx ∷ idxs) h a =
      let (cell, g) = IsGood-cell idx h a.0 in
      let (audits, built, size, checked) = audited idxs h a.1 in
      let indexed : (cell.index == idx) ≡ true = ground arith in
      (cell ∷ audits, rw (g.made, built), ap suc size, rw (indexed, g.proved) checked)

  -- the checks of VerifyColossusXSolution, one equation for each
  accepts :
      (header target last : Bytes) (nonce : ℕ) (mining audits : List SolutionCell)
      → length mining ≡ spec.reads_per_hash
      → check_mining c spec root 0 (c.sha3_512 (header ++ le_bytes 8 nonce)) mining ≡ ok last
      → less_or_equal_be (c.blake3 (c.sha3_512 (header ++ le_bytes 8 nonce) ++ last)) target ≡ true
      → length audits
        ≡ length (
            colossus_x_audit_indices c
              (c.blake3 ((c.sha3_512 (header ++ le_bytes 8 nonce) ++ last) ++ le_bytes 8 nonce))
              (node_count spec)
              colossus_x_audit_cell_count)
      → check_audit c root audits (
          colossus_x_audit_indices c
            (c.blake3 ((c.sha3_512 (header ++ le_bytes 8 nonce) ++ last) ++ le_bytes 8 nonce))
            (node_count spec)
            colossus_x_audit_cell_count)
        ≡ ok tt
      → verify_solution c spec header target root
          (record { nonce = nonce; mix_digest = last; mining_cells = mining; audit_cells = audits })
        ≡ ok tt
  unfolding verify_solution
  accepts header target last nonce mining audits size checked meets size' checked' =
      let counted : (length mining == spec.reads_per_hash) ≡ true = ground arith in
      let audit_counted = (==_iff _ _).1 size' in
      rw (counted, checked, bytes_eq_self last, meets, audit_counted) checked'

  -- what the hash of a nonce and the solution built for it have in common
  record Mined (header : Bytes) (nonce : ℕ) : Type 0 where
    trace : Trace
    solution : Solution
    traced : colossus_x_trace_hash c spec header (some nonce) dag ≡ ok trace
    built : build_solution c spec header nonce dag leaves ≡ ok (solution, root)
    accepted :
        (target : Bytes)
        → less_or_equal_be trace.result target ≡ true
        → verify_solution c spec header target root solution ≡ ok tt

  mined : (header : Bytes) (nonce : ℕ) → HasSizes c → Holds spec dag cells → Mined header nonce
  unfolding colossus_x_trace_hash build_solution append_to
  mined header nonce sizes h =
      let initial = c.sha3_512 (header ++ le_bytes 8 nonce) in
      let (last, accessed, mining, ran, made, size, checked) =
        in_step spec.reads_per_hash 0 initial h in
      let filled : 0 < dag.count = rw h.counted h.filled in
      let hash = c.blake3 ((initial ++ last) ++ le_bytes 8 nonce) in
      let (asked, below) =
        audit_indices_bounds c hash dag.count colossus_x_audit_cell_count sizes filled in
      let (audits, made', size', checked') =
        audited (colossus_x_audit_indices c hash dag.count colossus_x_audit_cell_count) h below in
      let same : node_count spec ≡ dag.count = h.sized ∙ sym h.counted in
      let nonempty : (dag.count == 0) ≡ false = ground (arith, h.counted, h.filled) in
      let leaf_eq : (leaf_count prover == dag.count) ≡ true =
        ground (arith, leaf_count_ok c.blake3 cells, h.counted) in
      let some_nodes : leb 1 dag.count ≡ true = ground (arith, h.counted, h.filled) in
      record {
        trace = record {
          initial_hash = initial;
          mix_digest = last;
          accessed = accessed;
          result = c.blake3 (initial ++ last);
          solution_hash = hash;
        };
        solution = record {
          nonce = nonce;
          mix_digest = last;
          mining_cells = mining;
          audit_cells = audits;
        };
        traced = rw (nonempty, ran);
        built = rw (
          new_prover_ok c.blake3 cells h.filled,
          some_nodes,
          leaf_eq,
          nonempty,
          ran,
          made,
          made',
          ← build_merkle_root-eq-prover_root c.blake3 leaves,
        );
        accepted = λ target meets.
            accepts header target last nonce mining audits size checked meets (rw same size')
              (rw same checked');
      }

  -- BuildColossusXSolution and VerifyColossusXSolution agree: over a DAG that holds the cells of the
  -- specification, hashing a nonce succeeds, and the solution built for it, with the Merkle root of
  -- the cells, is accepted under every target that the hash meets.
  pub verify-build_solution :
      (header : Bytes) (nonce : ℕ)
      → HasSizes c
      → Holds spec dag cells
      → (r : HashResult) × (s : Solution) × (colossus_x_hash c spec header (some nonce) dag ≡ ok r)
        × (build_solution c spec header nonce dag leaves ≡ ok (s, root))
        × ((target : Bytes)
            → less_or_equal_be r.pow256 target ≡ true
            → verify_solution c spec header target root s ≡ ok tt)
  unfolding colossus_x_hash
  verify-build_solution header nonce sizes h =
      let m = mined header nonce sizes h in
      (
        record {
          pow256 = m.trace.result;
          full512 = take 32 m.trace.initial_hash ++ take 32 m.trace.mix_digest;
        },
        m.solution,
        rw m.traced,
        m.built,
        m.accepted,
      )
