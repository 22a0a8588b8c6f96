-- ===== src/Dag/Stateless.antt =====
-- colossusx/dag_stateless.go: hashing with nodes that are generated when they are read.
use text.Mathlib.Text.{◌==◌ as str_eq}
use colossus_x.Prelude.{
  ℕ, zero, suc, ◌+◌, ◌%◌, ◌-◌, ◌/◌, ◌<◌, ◌≤◌, ◌≡◌, refl, sym, [], ◌∷◌, inl, inr, Bool-cases, ap,
  ◌∙◌, ◌++◌, take, >>=-eq-ok, require-eq-ok, ok-injective, Bool, true, false, not, ◌||◌, Option,
  arith, length, ltb, leb, ◌==◌, if◌then◌else◌, Result, ok, err, panic, ◌>>=◌, ◌>>◌, require,
  seed_empty, stateless_disabled, alloc_small,
}
use colossus_x.Bytes.{Bytes}
use colossus_x.Bytes.Words.{le_bytes}
use colossus_x.Crypto.{Crypto}
use colossus_x.Spec.{Spec, mode_colossus_x, node_count, validate}
use colossus_x.Target.{less_or_equal_be}
use colossus_x.Hash.{
  seed_input, DagAccessor, HashResult, fnv1a64, lattice_hash, lattice_from, lattice_rounds,
}
use colossus_x.Dag.{fill_node, worker_node, dag_node, generate_dag}

take_nil : (n : ℕ) → take {A = ℕ} n [] ≡ []
take_nil zero = refl
take_nil (suc n) = refl

append_nil : (b : Bytes) → b ++ [] ≡ b
append_nil [] = refl
append_nil (x ∷ b) = ap (λ (r : Bytes). x ∷ r) (append_nil b)

take-append_short : (n : ℕ) (a b : Bytes) → n < length a → take n (a ++ b) ≡ take n a
take-append_short zero a b h = refl
take-append_short (suc n) [] b h = absurd (omega (arith, h))
take-append_short (suc n) (x ∷ a) b h =
    ap (λ (r : Bytes). x ∷ r) (take-append_short n a b (omega (arith, h)))

take-append_long :
    (n : ℕ) (a b : Bytes) → length a ≤ n → take n (a ++ b) ≡ take n a ++ take (n - length a) b
take-append_long zero [] b h = refl
take-append_long zero (x ∷ a) b h = absurd (omega (arith, h))
take-append_long (suc n) [] b h =
    let whole : suc n ≡ suc n - 0 = omega arith in ap (λ (k : ℕ). take k b) whole
take-append_long (suc n) (x ∷ a) b h =
    let left : n - length a ≡ suc n - length (x ∷ a) = omega arith in
    ap (λ (r : Bytes). x ∷ r)
      (take-append_long n a b (omega (arith, h)) ∙ ap (λ (k : ℕ). take n a ++ take k b) left)

pub record StatelessDag : Type 0 where
  pub spec : Spec
  pub epoch_seed : Bytes

-- NewStatelessDAG
unfoldable pub new_stateless_dag : Spec → Bytes → Result StatelessDag
new_stateless_dag spec seed = do
  validate spec
  require (not (length seed == 0)) seed_empty
  require (not (str_eq spec.mode mode_colossus_x)) stateless_disabled
  ok (record { spec = spec; epoch_seed = seed })

module _ (c : Crypto) where
  -- the digests of generatedNode, each the hash of the one before
  unfoldable pub keccak_chain : ℕ → Bytes → Bytes
  keccak_chain zero base = []
  keccak_chain (suc n) base = base ++ keccak_chain n (c.keccak512 base)

  -- generatedNode: the node is cut from the digests
  unfoldable pub generated_node : ℕ → Bytes → ℕ → Bytes
  generated_node node_size seed i =
      take node_size (keccak_chain ((node_size + 63) / 64) (c.keccak512 (seed ++ le_bytes 8 i)))

  -- NodeCount and ReadNode of a StatelessDAG, which can read past the last node
  unfoldable pub stateless_accessor : StatelessDag → DagAccessor
  stateless_accessor d = record {
    count = node_count d.spec;
    read_node = λ i. ok (generated_node d.spec.node_size d.epoch_seed i);
  }

  -- HashHeaderStateless
  unfoldable pub hash_header_stateless : Spec → Bytes → Option ℕ → Bytes → Result HashResult
  hash_header_stateless spec header nonce seed =
      if str_eq spec.mode mode_colossus_x || leb 2 spec.algorithm_version
      then err stateless_disabled
      else (do
        dag ← new_stateless_dag spec seed
        lattice_hash c spec header nonce (stateless_accessor dag))

  -- VerifyHeaderStateless
  unfoldable pub verify_header_stateless :
      Spec → Bytes → Option ℕ → Bytes → Bytes → Result (HashResult × Bool)
  verify_header_stateless spec header nonce seed target = do
    hash ← hash_header_stateless spec header nonce seed
    ok (hash, less_or_equal_be hash.pow256 target)

  -- the rounds of the lattice hash read nodes below the count only
  lattice_rounds-agree :
      (d e : DagAccessor) (n r : ℕ) (mix : Bytes)
      → 0 < d.count
      → d.count ≡ e.count
      → ((i : ℕ) → i < d.count → d.read_node i ≡ e.read_node i)
      → lattice_rounds c d n r mix ≡ lattice_rounds c e n r mix
  unfolding lattice_rounds
  lattice_rounds-agree d e zero r mix p q h = refl
  lattice_rounds-agree d e (suc n) r mix p q h =
      let at = fnv1a64 (mix ++ le_bytes 8 r) in
      let reads : d.read_node (at % d.count) ≡ e.read_node (at % e.count) =
        h (at % d.count) (omega (arith, p)) ∙ ap (λ k. e.read_node (at % k)) q in
      λ t. reads t >>= λ node. lattice_rounds-agree d e n (r + 1) (c.blake3 (mix ++ node)) p q h t

  lattice_hash-agree :
      (spec : Spec) (header : Bytes) (nonce : Option ℕ) (d e : DagAccessor)
      → leb 2 spec.algorithm_version ≡ false
      → 0 < d.count
      → d.count ≡ e.count
      → ((i : ℕ) → i < d.count → d.read_node i ≡ e.read_node i)
      → lattice_hash c spec header nonce d ≡ lattice_hash c spec header nonce e
  unfolding lattice_hash lattice_from
  lattice_hash-agree spec header nonce d e old p q h =
      let some_nodes : (d.count == 0) ≡ false = ground (arith, p) in
      let some_nodes' : (e.count == 0) ≡ false = ground (arith, p, q) in
      rw (old, some_nodes, some_nodes')
        (ap
          (λ r. r >>= λ mix. ok (record {
            pow256 = take 32 (c.sha3_512 (c.sha3_512 (seed_input header nonce) ++ mix));
            full512 = c.sha3_512 (c.sha3_512 (seed_input header nonce) ++ mix);
          }))
          (lattice_rounds-agree d e spec.reads_per_hash 0
            (take 32 (c.sha3_512 (seed_input header nonce))) p q h))

  -- what is copied round by round is the beginning of the digests
  fill_node-eq-take :
      (n room : ℕ) (sum : Bytes) → fill_node c n room sum ≡ take room (keccak_chain n sum)
  unfolding fill_node keccak_chain
  fill_node-eq-take zero room sum = sym (take_nil room)
  fill_node-eq-take (suc n) room sum =
      let rest = fill_node-eq-take n (room - length sum) (c.keccak512 sum) in
      elim (Bool-cases (ltb room (length sum))) [
        | inl short ↦ rw short (
            append_nil (take room sum)
            ∙ sym (
                take-append_short room sum (keccak_chain n (c.keccak512 sum))
                  (ground (arith, short))))
        | inr long ↦
            rw (long, rest)
              (sym (
                take-append_long room sum (keccak_chain n (c.keccak512 sum))
                  (ground (arith, long))))
      ]

  -- the two loops make the same nodes
  worker_node-eq-generated_node :
      (node_size : ℕ) (seed : Bytes) (i : ℕ)
      → worker_node c node_size seed i ≡ generated_node node_size seed i
  unfolding worker_node generated_node
  worker_node-eq-generated_node node_size seed i =
      fill_node-eq-take ((node_size + 63) / 64) node_size (c.keccak512 (seed ++ le_bytes 8 i))

  -- the accessor of the generated DAG
  abbrev generated : Spec → Bytes → DagAccessor
  generated spec seed = record {
    count = node_count spec;
    read_node =
        λ i. if ltb i (node_count spec) then ok (worker_node c spec.node_size seed i) else panic;
  }

  -- HashHeaderStateless is LatticeHash over the generated DAG: for a specification of the lattice
  -- hash with a node or more, when the DAG has been generated from the same seed in a buffer of
  -- any size, the two hash every header alike.
  pub hash_header_stateless-eq-lattice_hash :
      (spec : Spec) (size : ℕ) (seed header : Bytes) (nonce : Option ℕ) (dag : DagAccessor)
      → str_eq spec.mode mode_colossus_x ≡ false
      → leb 2 spec.algorithm_version ≡ false
      → 0 < node_count spec
      → generate_dag c spec size seed ≡ ok dag
      → hash_header_stateless spec header nonce seed ≡ lattice_hash c spec header nonce dag
  unfolding hash_header_stateless new_stateless_dag generate_dag stateless_accessor dag_node
  hash_header_stateless-eq-lattice_hash spec size seed header nonce dag mode old some_nodes made =
      let (u, valid, checked) = >>=-eq-ok (validate spec) _ made in
      let (v, seeded, roomy) = >>=-eq-ok (require (not (length seed == 0)) seed_empty) _ checked in
      let nonempty : not (length seed == 0) ≡ true = require-eq-ok _ _ seeded in
      let (w, enough, is) =
        >>=-eq-ok (require (leb spec.dag_size_bytes size) alloc_small) _ roomy in
      let same : generated spec seed ≡ dag = ok-injective (rw mode at is) in
      rw (mode, old, valid, nonempty)
        (lattice_hash-agree spec header nonce
            (stateless_accessor (record { spec = spec; epoch_seed = seed })) (generated spec seed)
            old some_nodes refl
            (λ i h.
              let inside : ltb i (node_count spec) ≡ true = ground (arith, h) in
              let same_node = worker_node-eq-generated_node spec.node_size seed i in
              rw (inside, same_node) refl)
          ∙ ap (lattice_hash c spec header nonce) same)
