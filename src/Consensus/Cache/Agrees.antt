-- ===== src/Consensus/Cache/Agrees.antt =====
-- A validator with caches answers as one without them, and leaves the caches coherent.
use text.Mathlib.Text.{◌==◌ as str_eq}
use colossus_x.Prelude.{
  ◌≡◌, refl, sym, subst, Bool, true, false, not, ◌||◌, Bool-cases, Option-cases, inl, inr, leb,
  if◌then◌else◌, Result, with_state, ok, err, panic, ◌>>=◌, require, invalid_pow,
}
use colossus_x.Prelude.Int.{ℤ}
use colossus_x.Bytes.{Bytes, bytes_eq, zero_hash}
use colossus_x.Bytes.Maps.{lookup}
use colossus_x.Crypto.{Crypto}
use colossus_x.Spec.{mode_colossus_x}
use colossus_x.Types.{Block, BlockHeader}
use colossus_x.Chain.{Store}
use colossus_x.Consensus.Header.{
  dag_for_header, merkle_root_for_dag, block_solution, is_colossus_x, backend_pow, validate_linkage,
  validate_parent, validate_child, header_block, colossus_x_pow, validate_dag_merkle_root,
  validate_pow, validate_root, validate_header, validate_block,
}
use colossus_x.Consensus.Cache.{
  Allocator, Setup, Dag, Caches, Place, in_shared, in_fallback, dags, keep_dag, plain, shared_key,
  cache_merkle_root, generate_kept, cached_dag_for_header, merkle_root_kept, can_reuse,
  validation_dag_for_header, shared_mining_dag_for_header, mining_allocator_or_default,
  validate_dag_merkle_root_kept, validate_dag_merkle_root_with_root, colossus_x_pow_kept,
  validate_pow_kept, validate_header_kept, validate_block_kept,
}
use colossus_x.Consensus.Cache.Keys.{HasSeed}
use colossus_x.Consensus.Cache.Made.{merkle_root_for_dag-ok}
use colossus_x.Consensus.Cache.Coherent.{Coherent, IsRootOf-own, place_key, place_allocator}
use colossus_x.Consensus.Cache.Keeps.{keep_dag-Coherent, cache_merkle_root-Coherent}

-- the allocator of the DAGs that validation reads
unfoldable pub validation_allocator : Setup → Allocator
validation_allocator v = if can_reuse v then mining_allocator_or_default v else v.allocator

module _ (c : Crypto) (v : Setup) where
  -- the answer of a call without caches, and coherent caches
  pub record Agrees {A : Type 0} (p : Result A × Caches) (answer : Result A) : Type 0 where
    pub same : p.0 ≡ answer
    pub kept : Coherent c v p.1

  pure : {A : Type 0} (r : Result A) (s : Caches) → Coherent c v s → Agrees (r, s) r
  pure r s k = record { same = refl; kept = k }

  chain :
      {A B : Type 0} (p : Result A × Caches) (r : Result A) (f : A → Caches → Result B × Caches)
      (g : A → Result B)
      → Agrees p r
      → ((a : A) (s : Caches) → r ≡ ok a → Coherent c v s → Agrees (f a s) (g a))
      → Agrees (with_state p f) (r >>= g)
  chain {B} (ok a, s) r f g h k =
      subst (λ (x : Result _). Agrees (f a s) (x >>= g)) h.same (k a s (sym h.same) h.kept)
  chain {B} (err e, s) r f g h k =
      subst (λ (x : Result _). Agrees (err e, s) (x >>= g)) h.same (pure (err e) s h.kept)
  chain {B} (panic, s) r f g h k =
      subst (λ (x : Result _). Agrees (panic, s) (x >>= g)) h.same (pure panic s h.kept)

  bind_ok : {A : Type 0} (r : Result A) → (r >>= λ a. ok a) ≡ r
  bind_ok (ok a) = refl
  bind_ok (err e) = refl
  bind_ok panic = refl

  -- a call whose answer is handed on
  last :
      {A : Type 0} (p : Result A × Caches) (r : Result A) (f : A → Caches → Result A × Caches)
      → Agrees p r
      → ((a : A) (s : Caches) → r ≡ ok a → Coherent c v s → Agrees (f a s) (ok a))
      → Agrees (with_state p f) r
  last p r f h k =
      subst (λ (x : Result _). Agrees (with_state p f) x) (bind_ok r) (chain p r f (λ a. ok a) h k)

  kept_dag :
      (place : Place) (h : BlockHeader) (d : Dag) (s : Caches)
      → HasSeed h
      → dag_for_header c (plain v (place_allocator v place)) h ≡ ok d
      → Coherent c v s
      → Agrees
          (with_state
            (merkle_root_for_dag c d.1, keep_dag place (place_key v place h) d s)
            λ root s. (ok d, cache_merkle_root (place_key v place h) root s))
          (ok d)
  kept_dag place h d s p made k =
      let (root, is) = merkle_root_for_dag-ok c (plain v (place_allocator v place)) h made in
      let own = IsRootOf-own c v (place_allocator v place) h d root made is in
      let after = keep_dag-Coherent c v place h d s p made k in
      rw is (pure (ok d) _ (cache_merkle_root-Coherent c v place h root _ p own after))

  generate_kept-Agrees :
      (place : Place) (h : BlockHeader) (s : Caches)
      → HasSeed h
      → Coherent c v s
      → Agrees
          (generate_kept c v h (place_allocator v place) place (place_key v place h) s)
          (dag_for_header c (plain v (place_allocator v place)) h)
  unfolding generate_kept
  generate_kept-Agrees place h s p k =
      let r = dag_for_header c (plain v (place_allocator v place)) h in
      last (r, s) r _ (pure r s k) step
    where
      step :
          (d : Dag) (s : Caches)
          → dag_for_header c (plain v (place_allocator v place)) h ≡ ok d
          → Coherent c v s
          → Agrees
              (if leb 2 d.0.algorithm_version || str_eq d.0.mode mode_colossus_x
                then (with_state
                    (merkle_root_for_dag c d.1, keep_dag place (place_key v place h) d s)
                    λ root s. (ok d, cache_merkle_root (place_key v place h) root s))
                else (ok d, keep_dag place (place_key v place h) d s))
              (ok d)
      step d s made k =
          elim (Bool-cases (leb 2 d.0.algorithm_version || str_eq d.0.mode mode_colossus_x)) [
            | inl rooted ↦ rw rooted (kept_dag place h d s p made k)
            | inr bare ↦ rw bare (pure (ok d) _ (keep_dag-Coherent c v place h d s p made k))
          ]

  cached_dag_for_header-Agrees :
      (place : Place) (h : BlockHeader) (s : Caches)
      → HasSeed h
      → Coherent c v s
      → Agrees
          (cached_dag_for_header c v h (place_allocator v place) place (place_key v place h) s)
          (dag_for_header c (plain v (place_allocator v place)) h)
  unfolding cached_dag_for_header
  cached_dag_for_header-Agrees place h s p k =
      elim (Option-cases (lookup (dags place s) (place_key v place h))) [
        | inl missing ↦ rw (missing, cached_dag_for_header) (generate_kept-Agrees place h s p k)
        | inr (d, found) ↦
            rw (found, cached_dag_for_header)
              (record { same = sym (k.dags_right place h d p found); kept = k })
      ]

  validation_dag_for_header-Agrees :
      (h : BlockHeader) (s : Caches)
      → HasSeed h
      → Coherent c v s
      → Agrees
          (validation_dag_for_header c v h s)
          (dag_for_header c (plain v (validation_allocator v)) h)
  unfolding validation_dag_for_header shared_mining_dag_for_header validation_allocator
  validation_dag_for_header-Agrees h s p k = elim (Bool-cases (can_reuse v)) [
    | inl reused ↦ rw reused (cached_dag_for_header-Agrees in_shared h s p k)
    | inr own ↦ rw own (cached_dag_for_header-Agrees in_fallback h s p k)
  ]

  merkle_root_kept-Agrees :
      (h : BlockHeader) (d : Dag) (s : Caches)
      → HasSeed h
      → dag_for_header c (plain v (validation_allocator v)) h ≡ ok d
      → Coherent c v s
      → Agrees (merkle_root_kept c h d.1 s) (merkle_root_for_dag c d.1)
  unfolding merkle_root_kept
  merkle_root_kept-Agrees h d s p made k = elim (Option-cases (lookup s.roots (shared_key h))) [
    | inl missing ↦
        rw (missing, merkle_root_kept)
          (last (merkle_root_for_dag c d.1, s) (merkle_root_for_dag c d.1) _ (pure _ s k) fresh)
    | inr (root, found) ↦
        rw (found, merkle_root_kept)
          (record {
            same = sym (k.roots_right h root p found (validation_allocator v) d made);
            kept = k;
          })
  ]
    where
      fresh :
          (root : Bytes) (s : Caches)
          → merkle_root_for_dag c d.1 ≡ ok root
          → Coherent c v s
          → Agrees (ok root, cache_merkle_root (shared_key h) root s) (ok root)
      fresh root s is k = pure (ok root) _ (
          cache_merkle_root-Coherent c v in_shared h root s p
            (IsRootOf-own c v (validation_allocator v) h d root made is) k)

  validate_dag_merkle_root_kept-Agrees :
      (h : BlockHeader) (s : Caches)
      → HasSeed h
      → Coherent c v s
      → Agrees
          (validate_dag_merkle_root_kept c v h s)
          (validate_dag_merkle_root c (plain v (validation_allocator v)) h)
  unfolding validate_dag_merkle_root_kept validate_dag_merkle_root
      validate_dag_merkle_root_with_root
  validate_dag_merkle_root_kept-Agrees h s p k =
      chain (validation_dag_for_header c v h s) _ _ _ (validation_dag_for_header-Agrees h s p k)
        λ d s made k.
          chain (merkle_root_kept c h d.1 s) _ _ _ (merkle_root_kept-Agrees h d s p made k)
            λ root s _ k. pure _ s k

  colossus_x_pow_kept-Agrees :
      (block : Block) (d : Dag) (s : Caches)
      → HasSeed block.header
      → dag_for_header c (plain v (validation_allocator v)) block.header ≡ ok d
      → Coherent c v s
      → Agrees (colossus_x_pow_kept c d block s) (colossus_x_pow c d.0 d.1 block)
  unfolding colossus_x_pow_kept colossus_x_pow validate_dag_merkle_root_with_root
  colossus_x_pow_kept-Agrees block d s p made k =
      chain (block_solution c block, s) _ _ _ (pure _ s k)
        λ solution s _ k.
          chain (merkle_root_kept c block.header d.1 s) _ _ _
            (merkle_root_kept-Agrees block.header d s p made k) λ root s _ k. pure _ s k

  validate_pow_kept-Agrees :
      (block : Block) (s : Caches)
      → HasSeed block.header
      → Coherent c v s
      → Agrees
          (validate_pow_kept c v block s)
          (validate_pow c (plain v (validation_allocator v)) block)
  unfolding validate_pow_kept validate_pow backend_pow
  validate_pow_kept-Agrees block s p k =
      chain (validation_dag_for_header c v block.header s) _ _ _
        (validation_dag_for_header-Agrees block.header s p k) step
    where
      step :
          (d : Dag) (s : Caches)
          → dag_for_header c (plain v (validation_allocator v)) block.header ≡ ok d
          → Coherent c v s
          → Agrees
              (if is_colossus_x c v.config.spec block.header
                then colossus_x_pow_kept c d block s
                else (backend_pow c (plain v v.allocator) d.0 d.1 block.header, s))
              (if is_colossus_x c v.config.spec block.header
                then colossus_x_pow c d.0 d.1 block
                else backend_pow c (plain v (validation_allocator v)) d.0 d.1 block.header)
      step d s made k = elim (Bool-cases (is_colossus_x c v.config.spec block.header)) [
        | inl new ↦ rw new (colossus_x_pow_kept-Agrees block d s p made k)
        | inr old ↦ rw old (pure _ s k)
      ]

  module _ {S : Type 0} (ops : Store S) (now : ℤ) (store : S) where
    pub validate_header_kept-Agrees :
        (h : BlockHeader) (verify_dag_merkle : Bool) (s : Caches)
        → HasSeed h
        → Coherent c v s
        → Agrees
            (validate_header_kept c ops now v store h verify_dag_merkle s)
            (validate_header c ops now (plain v (validation_allocator v)) store h verify_dag_merkle)
    unfolding validate_header_kept validate_header validate_linkage validate_parent validate_child
        validate_root
    validate_header_kept-Agrees h verify_dag_merkle s p k =
        chain (validate_linkage c ops now (plain v v.allocator) store h, s) _ _ _ (pure _ s k) step
      where
        root_step :
            (b : Bool) (s : Caches)
            → Coherent c v s
            → Agrees (if b then validate_dag_merkle_root_kept c v h s else (ok tt, s)) (
                if b
                then validate_dag_merkle_root c (plain v (validation_allocator v)) h
                else ok tt)
        root_step true s k = validate_dag_merkle_root_kept-Agrees h s p k
        root_step false s k = pure (ok tt) s k

        step :
            (u : Unit {0}) (s : Caches)
            → validate_linkage c ops now (plain v v.allocator) store h ≡ ok u
            → Coherent c v s
            → Agrees
                (if is_colossus_x c v.config.spec h
                  then (with_state
                      (require (not (bytes_eq h.dag_merkle_root zero_hash)) invalid_pow, s)
                      λ _ s.
                        if verify_dag_merkle
                        then validate_dag_merkle_root_kept c v h s
                        else (ok tt, s))
                  else validate_pow_kept c v (header_block c h) s)
                (if is_colossus_x c v.config.spec h
                  then validate_root c ops now
                      (plain v (validation_allocator v))
                      store
                      h
                      verify_dag_merkle
                  else validate_pow c (plain v (validation_allocator v)) (header_block c h))
        step u s linked k = elim (Bool-cases (is_colossus_x c v.config.spec h)) [
          | inl new ↦ rw new (
              chain (require (not (bytes_eq h.dag_merkle_root zero_hash)) invalid_pow, s) _ _ _
                (pure _ s k) λ _ s _ k. root_step verify_dag_merkle s k)
          | inr old ↦ rw old (validate_pow_kept-Agrees (header_block c h) s p k)
        ]

    -- ValidateBlock with caches accepts and rejects as it does without them, with the same error, for
    -- any block whose epoch seed is a hash, and leaves caches that are coherent as it found them. The
    -- DAG then is one from the allocator that validation uses.
    pub validate_block_kept-Agrees :
        (block : Block) (s : Caches)
        → HasSeed block.header
        → Coherent c v s
        → Agrees
            (validate_block_kept c ops now v store block s)
            (validate_block c ops now (plain v (validation_allocator v)) store block)
    unfolding validate_block_kept validate_block
    validate_block_kept-Agrees block s p k =
        chain (validate_header_kept c ops now v store block.header false s) _ _ _
          (validate_header_kept-Agrees block.header false s p k)
          λ _ s _ k. validate_pow_kept-Agrees block s p k
