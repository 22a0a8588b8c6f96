-- ===== src/Consensus/Cache/Made.antt =====
-- The DAG that a header is given, whatever the allocator.
use colossus_x.Prelude.{
  ℕ, zero, suc, ◌+◌, ◌<◌, ◌≡◌, refl, sym, ap, ◌∙◌, subst, inl, inr, List, [], ◌∷◌, arith, ltb,
  lt→ltb, if◌then◌else◌, Result, ok, panic, traverse, >>=-eq-ok, Result-cases, ok-injective, ◌≤◌,
}
use colossus_x.Prelude.{not, ◌==◌, leb, require, length, alloc_small, seed_empty}
use colossus_x.Bytes.{Bytes}
use colossus_x.Crypto.{Crypto}
use colossus_x.Spec.{
  Spec, validate, resolved_for_height, dag_size_for_height, dag_size_for_epoch, node_count,
}
use colossus_x.Spec.Validate.{IsValid}
use colossus_x.Types.{BlockHeader, ChainConfig}
use colossus_x.Merkle.{streaming_root}
use colossus_x.Hash.{DagAccessor}
use colossus_x.Dag.{indices, dag_cells, dag_node, generate_dag, new_dag_with_allocator}
use colossus_x.Consensus.Header.{Validator, dag_for_header, merkle_root_for_dag}
use colossus_x.Consensus.Cache.{Dag}
use colossus_x.Consensus.Cache.Keys.{SameDag}

dag_size_for_height-ok :
    (s : Spec) (height : ℕ) → IsValid s → (size : ℕ) × (dag_size_for_height s height ≡ ok size)
unfolding dag_size_for_height dag_size_for_epoch
dag_size_for_height-ok s height v = elim (Result-cases (dag_size_for_height s height)) [
  | inl found ↦ found
  | inr (inl (e, failed)) ↦ absurd (ground arith)
  | inr (inr failed) ↦ absurd (ground arith)
]

-- ResolvedForHeight fails at no height
resolved_for_height-ok :
    (s : Spec) (height : ℕ)
    → IsValid s
    → (size : ℕ) × (resolved_for_height s height ≡ ok (record s { dag_size_bytes = size }))
unfolding resolved_for_height
resolved_for_height-ok s height v =
    let (size, found) = dag_size_for_height-ok s height v in (size, rw found refl)

traverse_within :
    (f : ℕ → Result Bytes) (n i count : ℕ)
    → ((j : ℕ) → j < count → (b : Bytes) × (f j ≡ ok b))
    → i + n ≤ count
    → (cells : List Bytes) × (traverse f (indices i n) ≡ ok cells)
unfolding indices
traverse_within f zero i count total p = ([], refl)
traverse_within f (suc n) i count total p =
    let (b, first) = total i (omega (arith, p)) in
    let (rest, others) = traverse_within f n (i + 1) count total (omega (arith, p)) in
    (b ∷ rest, rw (first, others) refl)

module _ (c : Crypto) where
  -- the DAG that generateDAG makes, in a buffer of any size
  abbrev made_dag : Spec → Bytes → DagAccessor
  made_dag spec seed =
      let node = dag_node c spec seed in
      record {
        count = node_count spec;
        read_node = λ i. if ltb i (node_count spec) then ok (node i) else panic;
      }

  generate_dag-made :
      (spec : Spec) (size : ℕ) (seed : Bytes) {dag : DagAccessor}
      → generate_dag c spec size seed ≡ ok dag
      → made_dag spec seed ≡ dag
  unfolding generate_dag
  generate_dag-made spec size seed e =
      let (_, _, nonempty) = >>=-eq-ok (validate spec) _ e in
      let (_, _, roomy) = >>=-eq-ok (require (not (length seed == 0)) seed_empty) _ nonempty in
      let (_, _, is) = >>=-eq-ok (require (leb spec.dag_size_bytes size) alloc_small) _ roomy in
      ok-injective is

  -- what a header is given: the DAG made for its size and its seed
  dag_for_header-made :
      (v : Validator) (h : BlockHeader) {d : Dag}
      → dag_for_header c v h ≡ ok d
      → (resolved : Spec) × (resolved_for_height v.config.spec h.height ≡ ok resolved)
        × ((
          record resolved { dag_size_bytes = h.dag_size_bytes },
          made_dag (record resolved { dag_size_bytes = h.dag_size_bytes }) h.epoch_seed,
        )
            ≡ d)
  unfolding dag_for_header
  dag_for_header-made v h {d} e =
      let (resolved, found, sized) = >>=-eq-ok (resolved_for_height v.config.spec h.height) _ e in
      let full = record resolved { dag_size_bytes = h.dag_size_bytes } in
      let (size, _, allocated) = >>=-eq-ok (new_dag_with_allocator v.alloc full) _ sized in
      let (made, generated, is) = >>=-eq-ok (generate_dag c full size h.epoch_seed) _ allocated in
      (
        resolved,
        found,
        ap (λ (dag : DagAccessor). (full, dag)) (generate_dag-made full size h.epoch_seed generated)
            ∙ ok-injective is,
      )

  -- an allocator decides whether there is a DAG, and not which
  pub dag_for_header_unique :
      (v w : Validator) (h : BlockHeader) {d e : Dag}
      → v.config ≡ w.config
      → dag_for_header c v h ≡ ok d
      → dag_for_header c w h ≡ ok e
      → d ≡ e
  dag_for_header_unique v w h same p q =
      let (r, left, made) = dag_for_header-made v h p in
      let (s, right, other) = dag_for_header-made w h q in
      let one : r ≡ s =
        ok-injective
          (sym left ∙ ap (λ (k : ChainConfig). resolved_for_height k.spec h.height) same ∙ right) in
      sym made
      ∙ ap
          (λ (x : Spec). (
            record x { dag_size_bytes = h.dag_size_bytes },
            made_dag (record x { dag_size_bytes = h.dag_size_bytes }) h.epoch_seed,
          ))
          one
      ∙ other

  -- the root of a generated DAG can be computed
  pub merkle_root_for_dag-ok :
      (v : Validator) (h : BlockHeader) {d : Dag}
      → dag_for_header c v h ≡ ok d
      → (root : Bytes) × (merkle_root_for_dag c d.1 ≡ ok root)
  unfolding merkle_root_for_dag dag_cells
  merkle_root_for_dag-ok v h {d} e =
      let (resolved, _, made) = dag_for_header-made v h e in
      let full = record resolved { dag_size_bytes = h.dag_size_bytes } in
      let node = dag_node c full h.epoch_seed in
      let reads : (j : ℕ)
          → j < node_count full
          → (b : Bytes) × ((made_dag full h.epoch_seed).read_node j ≡ ok b) =
        λ j below. (node j, rw (lt→ltb j (node_count full) below) refl) in
      let (cells, read) =
        traverse_within (made_dag full h.epoch_seed).read_node (node_count full) 0 (node_count full)
          reads (omega arith) in
      subst (λ (x : Dag). (root : Bytes) × (merkle_root_for_dag c x.1 ≡ ok root)) made
        (streaming_root c.blake3 cells, rw read refl)

  -- headers that ask for one DAG are given the same
  pub dag_for_header-same :
      (v : Validator) (g h : BlockHeader)
      → IsValid v.config.spec
      → SameDag g h
      → dag_for_header c v g ≡ dag_for_header c v h
  unfolding dag_for_header
  dag_for_header-same v g h valid s =
      let (m, left) = resolved_for_height-ok v.config.spec g.height valid in
      let (n, right) = resolved_for_height-ok v.config.spec h.height valid in
      rw (left, right, s.same_seed, s.same_size) refl
