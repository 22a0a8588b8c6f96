-- ===== src/Solution/RoundTrip.antt =====
-- Expanding what was compacted gives the solution back.
use colossus_x.Prelude.{
  ℕ, ◌+◌, ◌^◌, ◌≤◌, ◌<◌, ◌≡◌, refl, List, [], ◌∷◌, arith, length, ok, traverse,
}
use colossus_x.Solution.{
  SolutionCell, Solution, CompactCell, Pool, empty_pool, lookup_sibling, intern_all, encode_cell,
  encode_cells, compact_solution, decode_cell, expand_solution,
}
use colossus_x.Solution.Interning.{Points, Grows, intern_all-Encoded}

-- the number of siblings in the proofs of some cells
abbrev pub proof_nodes : List SolutionCell → ℕ
proof_nodes [] = 0
proof_nodes (cell ∷ r) = length cell.proof + proof_nodes r

record EncodedCells (pool : Pool) (cells : List SolutionCell) (r : List CompactCell × Pool)
    : Type 0 where
  points : Points r.1
  grows : Grows pool r.1
  decoded : (later : Pool) → Grows r.1 later → traverse (decode_cell later.siblings) r.0 ≡ ok cells
  bounded : length r.1.siblings ≤ length pool.siblings + proof_nodes cells

encode_cells-EncodedCells :
    (pool : Pool) (cells : List SolutionCell)
    → Points pool
    → length pool.siblings + proof_nodes cells < 2 ^ 32
    → EncodedCells pool cells (encode_cells pool cells)
unfolding encode_cells encode_cell decode_cell
encode_cells-EncodedCells pool [] p small = record {
  points = p;
  grows = λ i h at. at;
  decoded = λ later g. refl;
  bounded = omega arith;
}
encode_cells-EncodedCells pool (cell ∷ r) p small =
    let one = intern_all-Encoded pool cell.proof p (omega arith) in
    let pool' = (intern_all pool cell.proof).1 in
    let more = encode_cells-EncodedCells pool' r one.points (omega (arith, one.bounded)) in
    record {
      points = more.points;
      grows = λ i h at. more.grows i h (one.grows i h at);
      decoded = λ later g.
          rw (one.decoded later (λ i h at. g i h (more.grows i h at)), more.decoded later g);
      bounded = omega (arith, one.bounded, more.bounded);
    }

empty_pool-Points : Points empty_pool
unfolding lookup_sibling
empty_pool-Points h i e = absurd (cc)

-- ExpandCompactColossusXSolution undoes CompactColossusXSolution: every solution whose proofs hold
-- fewer than 2^32 siblings in all comes back as it was.
pub expand_solution-compact_solution :
    (s : Solution)
    → proof_nodes s.mining_cells + proof_nodes s.audit_cells < 2 ^ 32
    → expand_solution (compact_solution s) ≡ ok s
unfolding expand_solution compact_solution
expand_solution-compact_solution s small =
    let mining =
      encode_cells-EncodedCells empty_pool s.mining_cells empty_pool-Points (omega arith) in
    let pool = (encode_cells empty_pool s.mining_cells).1 in
    let audit =
      encode_cells-EncodedCells pool s.audit_cells mining.points (omega (arith, mining.bounded)) in
    let last = (encode_cells pool s.audit_cells).1 in
    rw (mining.decoded last audit.grows, audit.decoded last (λ i h at. at))
