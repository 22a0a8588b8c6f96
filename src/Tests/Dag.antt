-- ===== src/Tests/Dag.antt =====
-- Two workers that write a DAG of three nodes, the second one first, and a hash without a DAG.
use colossus_x.Prelude.{
  ◌≤◌, ◌⊎◌, ◌<◌, ltb, if◌then◌else◌, ok, panic, ℕ, zero, suc, ◌≡◌, refl, List, [], ◌∷◌, arith,
  get_elem?, some,
}
use colossus_x.Bytes.{Bytes}
use colossus_x.Spec.{node_count, validate, initial_dag_size, growth_dag_size_per_epoch}
use colossus_x.Hash.{DagAccessor, lattice_hash}
use colossus_x.Dag.Stateless.{hash_header_stateless, hash_header_stateless-eq-lattice_hash}
use colossus_x.Tests.Hashes.{toy_crypto}
use colossus_x.Tests.Chain.{light_spec}
use colossus_x.Dag.{dag_node, generate_dag, ranges, ranges_from, worker_range, chunk_of}
use colossus_x.Dag.Ending.{write_count, Steps-end}
use colossus_x.Dag.Schedule.{
  Step, Steps, Workers, Finished, Steps-ranges-Finished, write, done, next,
}

abbrev a_node : ℕ → Bytes
a_node i = i ∷ i ∷ []

abbrev empty_nodes : List Bytes
empty_nodes = [] ∷ [] ∷ [] ∷ []

abbrev full_nodes : List Bytes
full_nodes = a_node 0 ∷ a_node 1 ∷ a_node 2 ∷ []

abbrev last_state : Workers
last_state = ((1, 1) ∷ (3, 3) ∷ [], full_nodes)

a_schedule : Steps a_node (ranges 2 3, empty_nodes) last_state
unfolding ranges ranges_from worker_range chunk_of
a_schedule =
    next _ ((0, 1) ∷ (2, 3) ∷ [], [] ∷ a_node 1 ∷ [] ∷ []) _
      (write ((0, 1) ∷ (1, 3) ∷ []) empty_nodes 1 1 3 refl (omega arith))
      (next _ ((1, 1) ∷ (2, 3) ∷ [], a_node 0 ∷ a_node 1 ∷ [] ∷ []) _
        (write ((0, 1) ∷ (2, 3) ∷ []) ([] ∷ a_node 1 ∷ [] ∷ []) 0 0 1 refl (omega arith))
        (next _ last_state _
          (write ((1, 1) ∷ (2, 3) ∷ []) (a_node 0 ∷ a_node 1 ∷ [] ∷ []) 1 2 3 refl (omega arith))
          (done _)))

finished : Finished a_node last_state
finished zero i t e = ground (arith, e)
finished (suc zero) i t e = ground (arith, e)
finished (suc (suc k)) i t e = absurd cc

Steps-ranges-Finished_example : get_elem? full_nodes 1 ≡ some (a_node 1)
Steps-ranges-Finished_example =
    Steps-ranges-Finished a_node 2 3 empty_nodes last_state (omega arith) (omega arith)
      (omega arith) a_schedule finished 1 (omega arith)

Steps-end_example :
    (write_count a_node (ranges 2 3, empty_nodes) last_state a_schedule ≤ 3)
    × (Finished a_node last_state ⊎ ((v : Workers) × Step a_node last_state v))
    × (Finished a_node last_state
        → (write_count a_node (ranges 2 3, empty_nodes) last_state a_schedule ≡ 3)
          × ((j : ℕ) → j < 3 → get_elem? last_state.1 j ≡ some (a_node j)))
Steps-end_example =
    Steps-end a_node 2 3 empty_nodes last_state a_schedule (omega arith) (omega arith) (omega arith)

abbrev light_seed : Bytes
light_seed = 1 ∷ 2 ∷ []

abbrev light_dag : DagAccessor
light_dag = record {
  count = node_count light_spec;
  read_node = λ i.
      if ltb i (node_count light_spec)
      then ok (dag_node toy_crypto light_spec light_seed i)
      else panic;
}

light_made : generate_dag toy_crypto light_spec 512 light_seed ≡ ok light_dag
unfolding generate_dag validate initial_dag_size growth_dag_size_per_epoch
light_made = refl

light_nodes : 0 < node_count light_spec
unfolding node_count
light_nodes = omega arith

hash_header_stateless_example :
    hash_header_stateless toy_crypto light_spec (7 ∷ []) (some 3) light_seed
    ≡ lattice_hash toy_crypto light_spec (7 ∷ []) (some 3) light_dag
hash_header_stateless_example =
    hash_header_stateless-eq-lattice_hash toy_crypto light_spec 512 light_seed (7 ∷ []) (some 3)
      light_dag refl refl light_nodes light_made
