-- ===== src/Consensus/Cache/Keeps.antt =====
-- Every write to the caches leaves them coherent.
use colossus_x.Prelude.{
  ◌≡◌, refl, sym, ap, ◌∙◌, subst, Bool-cases, inl, inr, Option, some, List, arith, ◌⊎◌, ok,
}
use colossus_x.Bytes.{Bytes, bytes_eq, bytes_eq_iff}
use colossus_x.Bytes.Maps.{lookup, insert, lookup-insert, remove_keys, lookup-remove_keys}
use colossus_x.Crypto.{Crypto}
use colossus_x.Spec.Validate.{IsValid}
use colossus_x.Types.{BlockHeader}
use colossus_x.Consensus.Header.{dag_for_header}
use colossus_x.Consensus.Cache.{
  Allocator, Backend, Setup, Dag, Caches, no_caches, Place, in_shared, in_fallback, dags, keep_dag,
  plain, shared_key, fallback_key, cache_merkle_root, set_mining_backend, close,
}
use colossus_x.Consensus.Cache.Keys.{HasSeed}
use colossus_x.Consensus.Cache.Made.{dag_for_header-same}
use colossus_x.Consensus.Cache.Coherent.{
  Coherent, IsRootOf, IsRootOf-same, place_key, place_allocator, place_key-injective,
  place_key-shared_key,
}

-- an entry found after a write is the new one, or was there before
found_after :
    {V : Type 0} (m : List (Bytes × V)) (k j : Bytes) (v w : V)
    → lookup (insert m k v) j ≡ some w
    → ((k ≡ j) × (v ≡ w)) ⊎ (lookup m j ≡ some w)
found_after m k j v w e = elim (Bool-cases (bytes_eq k j)) [
  | inl same ↦ inl ((bytes_eq_iff k j).0 same, let new = lookup-insert m k v j in ground arith)
  | inr other ↦ inr (let old = lookup-insert m k v j in ground arith)
]

module _ (c : Crypto) (v : Setup) where
  -- what is found in a map after a DAG was kept in it
  found_dag :
      (place : Place) (g h : BlockHeader) (d e : Dag) (s : Caches)
      → HasSeed g
      → HasSeed h
      → dag_for_header c (plain v (place_allocator v place)) g ≡ ok d
      → Coherent c v s
      → lookup (insert (dags place s) (place_key v place g) d) (place_key v place h) ≡ some e
      → dag_for_header c (plain v (place_allocator v place)) h ≡ ok e
  found_dag place g h d e s p q made k found =
      elim (found_after (dags place s) (place_key v place g) (place_key v place h) d e found) [
        | inl (key, same) ↦
            sym (
              dag_for_header-same c (plain v (place_allocator v place)) g h k.valid
                (place_key-injective v place g h p q key))
            ∙ made
            ∙ ap ok same
        | inr before ↦ k.dags_right place h e q before
      ]

  pub keep_dag-Coherent :
      (place : Place) (g : BlockHeader) (d : Dag) (s : Caches)
      → HasSeed g
      → dag_for_header c (plain v (place_allocator v place)) g ≡ ok d
      → Coherent c v s
      → Coherent c v (keep_dag place (place_key v place g) d s)
  keep_dag-Coherent in_shared g d s seed made k = record {
    valid = k.valid;
    dags_right = right;
    roots_right = λ h root p e. k.roots_right h root p e;
  }
    where
      right :
          (place : Place) (h : BlockHeader) (e : Dag)
          → HasSeed h
          → lookup (dags place (keep_dag in_shared (shared_key g) d s)) (place_key v place h)
            ≡ some e
          → dag_for_header c (plain v (place_allocator v place)) h ≡ ok e
      right in_shared h e p found = found_dag in_shared g h d e s seed p made k found
      right in_fallback h e p found = k.dags_right in_fallback h e p found
  keep_dag-Coherent in_fallback g d s seed made k = record {
    valid = k.valid;
    dags_right = right;
    roots_right = λ h root p e. k.roots_right h root p e;
  }
    where
      right :
          (place : Place) (h : BlockHeader) (e : Dag)
          → HasSeed h
          → lookup
              (dags place (keep_dag in_fallback (fallback_key g v.allocator) d s))
              (place_key v place h)
            ≡ some e
          → dag_for_header c (plain v (place_allocator v place)) h ≡ ok e
      right in_shared h e p found = k.dags_right in_shared h e p found
      right in_fallback h e p found = found_dag in_fallback g h d e s seed p made k found

  same_dags :
      (place : Place) (key root : Bytes) (s : Caches)
      → dags place (cache_merkle_root key root s) ≡ dags place s
  unfolding cache_merkle_root
  same_dags in_shared key root s = refl
  same_dags in_fallback key root s = refl

  pub cache_merkle_root-Coherent :
      (place : Place) (g : BlockHeader) (root : Bytes) (s : Caches)
      → HasSeed g
      → IsRootOf c v root g
      → Coherent c v s
      → Coherent c v (cache_merkle_root (place_key v place g) root s)
  unfolding cache_merkle_root
  cache_merkle_root-Coherent place g root s seed is k = record {
    valid = k.valid;
    dags_right = λ q h d p e. k.dags_right q h d p (
        ap (λ (m : List (Bytes × Dag)). lookup m (place_key v q h))
          (sym (same_dags q (place_key v place g) root s))
        ∙ e);
    roots_right = λ h r p e.
        elim (found_after s.roots (place_key v place g) (shared_key h) root r e) [
          | inl (key, same) ↦
              subst (λ (x : Bytes). IsRootOf c v x h) same
                (IsRootOf-same c v g h root k.valid (place_key-shared_key v place g h seed p key)
                  is)
          | inr before ↦ k.roots_right h r p before
        ];
  }

  pub no_caches-Coherent : IsValid v.config.spec → Coherent c v no_caches
  unfolding lookup
  no_caches-Coherent valid = record {
    valid = valid;
    dags_right = nothing;
    roots_right = λ h root p e. cc;
  }
    where
      nothing :
          (place : Place) (h : BlockHeader) (e : Dag)
          → HasSeed h
          → lookup (dags place no_caches) (place_key v place h) ≡ some e
          → dag_for_header c (plain v (place_allocator v place)) h ≡ ok e
      nothing in_shared h e p found = cc
      nothing in_fallback h e p found = cc

  pub close-Coherent : (s : Caches) → Coherent c v s → Coherent c v (close s)
  unfolding close lookup
  close-Coherent s k = record {
    valid = k.valid;
    dags_right = nothing;
    roots_right = λ h root p e. k.roots_right h root p (
        lookup-remove_keys s.roots s.fallback (shared_key h)
          (lookup-remove_keys (remove_keys s.roots s.fallback) s.shared (shared_key h) e));
  }
    where
      nothing :
          (place : Place) (h : BlockHeader) (e : Dag)
          → HasSeed h
          → lookup (dags place (close s)) (place_key v place h) ≡ some e
          → dag_for_header c (plain v (place_allocator v place)) h ≡ ok e
      nothing in_shared h e p found = cc
      nothing in_fallback h e p found = cc

  pub set_mining_backend-Coherent :
      (backend : Option Backend) (allocator : Option Allocator) (s : Caches)
      → Coherent c v s
      → Coherent c
          (set_mining_backend backend allocator v s).0
          (set_mining_backend backend allocator v s).1
  unfolding set_mining_backend lookup
  set_mining_backend-Coherent backend allocator s k = record {
    valid = k.valid;
    dags_right = left;
    roots_right = λ h root p e. cc;
  }
    where
      left :
          (place : Place) (h : BlockHeader) (e : Dag)
          → HasSeed h
          → lookup
              (dags place (set_mining_backend backend allocator v s).1)
              (place_key (set_mining_backend backend allocator v s).0 place h)
            ≡ some e
          → dag_for_header c
              (plain
                (set_mining_backend backend allocator v s).0
                (place_allocator (set_mining_backend backend allocator v s).0 place))
              h
            ≡ ok e
      left in_shared h e p found = cc
      left in_fallback h e p found = k.dags_right in_fallback h e p found
