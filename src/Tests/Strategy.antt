-- ===== src/Tests/Strategy.antt =====
-- The strategy that is chosen when nothing is said, with a CUDA device whose driver has no room.
use colossus_x.Prelude.{
  ℕ, ◌≡◌, ◌≢◌, refl, true, false, none, some, [], ok, err, panic, alloc_failed, not_ready, Result,
  Bool, ◌&&◌, leb, if◌then◌else◌,
}
use colossus_x.Bytes.{Bytes, bytes_eq}
use colossus_x.Bytes.Texts.{codes}
use colossus_x.Consensus.Cache.{Setup, new_setup, can_reuse}
use colossus_x.Strategy.{
  Runtime, Drivers, Memory, MemoryStrategy, go_heap, pinned, cuda_managed, opencl_svm, metal_shared,
  fallback, auto_strategies, make_bytes, memory_alloc, strategy_alloc, as_allocator, choice_of,
  resolve_colossus_x, resolve,
}
use colossus_x.Strategy.Reuse.{resolve-can_reuse}
use colossus_x.Tests.Chain.{a_validator}

abbrev full_drivers : Drivers
full_drivers = record {
  has_room = λ size. leb size 1099511627776;
  alloc_pinned = λ size. ok size;
  alloc_cuda = λ ordinal size. err alloc_failed;
  alloc_opencl = λ context size. ok size;
}

abbrev a_runtime : Runtime
a_runtime = record { cuda = some 0; opencl = none; metal = some true }

abbrev nothing : Bytes
nothing = []

abbrev a_setup : Setup
a_setup = new_setup a_validator.config a_validator.backend_hash

abbrev the_fallback : MemoryStrategy
the_fallback = fallback (codes "auto") (auto_strategies a_runtime)

calm_if : (b : Bool) (r : Result ℕ) → r ≢ panic → (if b then r else err not_ready) ≢ panic
calm_if true r p = p
calm_if false r p = λ e. cc

full_drivers_calm : (m : Memory) → memory_alloc full_drivers m 4096 ≢ panic
unfolding memory_alloc make_bytes
full_drivers_calm go_heap = λ e. cc
full_drivers_calm pinned = λ e. cc
full_drivers_calm (cuda_managed ordinal ready) = calm_if ready (err alloc_failed) (λ e. cc)
full_drivers_calm (opencl_svm context) =
    calm_if (context.has_context && context.has_device) (ok 4096) (λ e. cc)
full_drivers_calm (metal_shared device) = calm_if device (ok 4096) (λ e. cc)

resolved : resolve "colossusx" a_runtime [] ≡ ok the_fallback
unfolding resolve resolve_colossus_x choice_of bytes_eq
resolved = refl

resolve-can_reuse_example :
    (can_reuse (record a_setup { mining_allocator = some (as_allocator full_drivers the_fallback) })
      ≡ true)
    × (nothing ≡ [] → (n : ℕ) × (strategy_alloc full_drivers the_fallback 4096 ≡ ok n))
resolve-can_reuse_example =
    resolve-can_reuse full_drivers "colossusx" a_runtime nothing a_setup the_fallback 4096
      (record { opencl_set = λ context e. absurd cc; metal_set = λ device e. cc }) full_drivers_calm
      resolved
