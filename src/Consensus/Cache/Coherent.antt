-- ===== src/Consensus/Cache/Coherent.antt =====
-- What the caches of a validator hold is what would be generated anew.
use colossus_x.Prelude.{◌≡◌, refl, ◌∙◌, subst, some, ok}
use colossus_x.Bytes.{Bytes}
use colossus_x.Bytes.Maps.{lookup}
use colossus_x.Crypto.{Crypto}
use colossus_x.Spec.Validate.{IsValid}
use colossus_x.Types.{BlockHeader}
use colossus_x.Consensus.Header.{dag_for_header, merkle_root_for_dag}
use colossus_x.Consensus.Cache.{
  Allocator, Setup, Dag, Caches, Place, in_shared, in_fallback, dags, plain, shared_key,
  fallback_key, mining_allocator_or_default,
}
use colossus_x.Consensus.Cache.Keys.{
  SameDag, HasSeed, shared_key-injective, fallback_key-injective, fallback_key-shared_key,
}
use colossus_x.Consensus.Cache.Made.{dag_for_header_unique, dag_for_header-same}

-- the key and the allocator that go with a map
abbrev pub place_key : Setup → Place → BlockHeader → Bytes
place_key v in_shared h = shared_key h
place_key v in_fallback h = fallback_key h v.allocator

abbrev pub place_allocator : Setup → Place → Allocator
place_allocator v in_shared = mining_allocator_or_default v
place_allocator v in_fallback = v.allocator

pub place_key-injective :
    (v : Setup) (place : Place) (g h : BlockHeader)
    → HasSeed g
    → HasSeed h
    → place_key v place g ≡ place_key v place h
    → SameDag g h
place_key-injective v in_shared g h p q e = shared_key-injective g h p q e
place_key-injective v in_fallback g h p q e = fallback_key-injective g h v.allocator p q e

-- a key of a DAG that is also the key of a root is one of the same DAG
pub place_key-shared_key :
    (v : Setup) (place : Place) (g h : BlockHeader)
    → HasSeed g
    → HasSeed h
    → place_key v place g ≡ shared_key h
    → SameDag g h
place_key-shared_key v in_shared g h p q e = shared_key-injective g h p q e
place_key-shared_key v in_fallback g h p q e =
    absurd (fallback_key-shared_key g h v.allocator p q e)

module _ (c : Crypto) (v : Setup) where
  -- the root of every DAG that a header can be given
  abbrev pub IsRootOf : Bytes → BlockHeader → Type 0
  IsRootOf root h =
      (a : Allocator) (d : Dag)
      → dag_for_header c (plain v a) h ≡ ok d
      → merkle_root_for_dag c d.1 ≡ ok root

  pub record Coherent (s : Caches) : Type 0 where
    pub valid : IsValid v.config.spec
    pub dags_right :
        (place : Place) (h : BlockHeader) (d : Dag)
        → HasSeed h
        → lookup (dags place s) (place_key v place h) ≡ some d
        → dag_for_header c (plain v (place_allocator v place)) h ≡ ok d
    pub roots_right :
        (h : BlockHeader) (root : Bytes)
        → HasSeed h
        → lookup s.roots (shared_key h) ≡ some root
        → IsRootOf root h

  pub IsRootOf-own :
      (a : Allocator) (h : BlockHeader) (d : Dag) (root : Bytes)
      → dag_for_header c (plain v a) h ≡ ok d
      → merkle_root_for_dag c d.1 ≡ ok root
      → IsRootOf root h
  IsRootOf-own a h d root own is b e other =
      let same : d ≡ e = dag_for_header_unique c (plain v a) (plain v b) h refl own other in
      subst (λ (x : Dag). merkle_root_for_dag c x.1 ≡ ok root) same is

  pub IsRootOf-same :
      (g h : BlockHeader) (root : Bytes)
      → IsValid v.config.spec
      → SameDag g h
      → IsRootOf root g
      → IsRootOf root h
  IsRootOf-same g h root valid same is a d e =
      is a d (dag_for_header-same c (plain v a) g h valid same ∙ e)
