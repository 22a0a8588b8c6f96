-- ===== src/Strategy/Reuse.antt =====
-- The strategies that are chosen serve the validator.
use mathlib.Core.List.{append_assoc}
use Prim.Native.String.{String}
use text.Mathlib.Text.{◌==◌ as str_eq}
use colossus_x.Spec.{mode_colossus_x}
use colossus_x.Prelude.{
  ◌||◌, bad_mode, bad_strategy, ℕ, ◌≡◌, ◌≢◌, inl, inr, refl, sym, ap, ◌∙◌, subst, Bool, true, false,
  Option, none, some, List, [], ◌∷◌, ◌++◌, Result, Result-cases, Bool-cases, ok-injective, Error,
  if◌then◌else◌, ok, err, panic,
}
use colossus_x.Bytes.{Bytes, bytes_eq}
use colossus_x.Bytes.Texts.{codes}
use colossus_x.Consensus.Cache.{Setup, can_reuse, is_host_name, mining_allocator_or_default}
use colossus_x.Strategy.{
  OpenclContext, valid, Runtime, Drivers, Memory, MemoryStrategy, go_heap, pinned, cuda_managed,
  opencl_svm, metal_shared, offered, choice_of, single, fallback, make_bytes, memory_alloc,
  memory_reuse, first_alloc, strategy_alloc, strategy_name, strategy_reuse, as_allocator,
  auto_strategies, or_bad, resolve_colossus_x, resolve,
}

-- the contexts that the runtime offers are set
pub record Offers (runtime : Runtime) : Type 0 where
  pub opencl_set : (context : OpenclContext) → runtime.opencl ≡ some context → valid context ≡ true
  pub metal_set : (device : Bool) → runtime.metal ≡ some device → device ≡ true

abbrev pub Shared : Memory → Type 0
Shared m = memory_reuse m ≡ true

-- what is chosen: a memory that can be shared, or the fallback over those that are there
abbrev pub IsChosen : Runtime → MemoryStrategy → Type 0
IsChosen runtime (single m) = Shared m
IsChosen runtime (fallback name memories) =
    (name ≡ codes "auto") × (memories ≡ auto_strategies runtime)

either :
    (P : MemoryStrategy → Type 0) (b : Bool) {x y : Result MemoryStrategy} {s : MemoryStrategy}
    → (x ≡ ok s → P s)
    → (y ≡ ok s → P s)
    → (if b then x else y) ≡ ok s
    → P s
either P true f g e = f e
either P false f g e = g e

not_ok {ℓ} : {A : Type ℓ} {e : Error} {s : MemoryStrategy} → err e ≡ ok s → A
not_ok bad = absurd cc

the_one : (P : MemoryStrategy → Type 0) {t s : MemoryStrategy} → P t → ok t ≡ ok s → P s
the_one P p e = subst P (ok-injective e) p

IsChosen-device {ℓ} :
    {A : Type ℓ} (runtime : Runtime) (o : Option A) (f : A → Memory) {s : MemoryStrategy}
    → ((a : A) → o ≡ some a → Shared (f a))
    → or_bad o f ≡ ok s
    → IsChosen runtime s
IsChosen-device runtime none f all e = absurd cc
IsChosen-device runtime (some a) f all e = the_one (IsChosen runtime) (all a refl) e

Shared-go_heap : Shared go_heap
unfolding memory_reuse
Shared-go_heap = refl

Shared-pinned : Shared pinned
unfolding memory_reuse
Shared-pinned = refl

resolve_colossus_x-IsChosen :
    (runtime : Runtime) (choice : Bytes) {s : MemoryStrategy}
    → Offers runtime
    → resolve_colossus_x runtime choice ≡ ok s
    → IsChosen runtime s
unfolding resolve_colossus_x memory_reuse
resolve_colossus_x-IsChosen runtime choice offers e =
    let P = IsChosen runtime in
    either P (bytes_eq choice (codes "auto"))
      (the_one P {t = fallback (codes "auto") (auto_strategies runtime)} (refl, refl))
      (either P (bytes_eq choice (codes "go") || bytes_eq choice (codes "go-heap"))
        (the_one P {t = single go_heap} Shared-go_heap)
        (either P (bytes_eq choice (codes "pinned") || bytes_eq choice (codes "pinned-host"))
          (the_one P {t = single pinned} Shared-pinned)
          (either P (bytes_eq choice (codes "cuda-managed"))
            (IsChosen-device runtime runtime.cuda (λ ordinal. cuda_managed ordinal true)
              (λ a q. refl))
            (either P (bytes_eq choice (codes "opencl-svm"))
              (IsChosen-device runtime runtime.opencl (λ context. opencl_svm context)
                offers.opencl_set)
              (either P (bytes_eq choice (codes "metal-shared"))
                (IsChosen-device runtime runtime.metal (λ device. metal_shared device)
                  offers.metal_set)
                (not_ok {e = bad_strategy}))))))
      e

resolve-IsChosen :
    (mode : String) (runtime : Runtime) (dag_alloc : Bytes) {s : MemoryStrategy}
    → Offers runtime
    → resolve mode runtime dag_alloc ≡ ok s
    → IsChosen runtime s
unfolding resolve
resolve-IsChosen mode runtime dag_alloc offers e =
    either (IsChosen runtime) (str_eq mode "" || str_eq mode mode_colossus_x)
      (resolve_colossus_x-IsChosen runtime (choice_of dag_alloc) offers) (not_ok {e = bad_mode}) e

-- no choice stands for auto
resolve_empty :
    (mode : String) (runtime : Runtime) {s : MemoryStrategy}
    → resolve mode runtime [] ≡ ok s
    → fallback (codes "auto") (auto_strategies runtime) ≡ s
unfolding resolve resolve_colossus_x choice_of bytes_eq
resolve_empty mode runtime {s} e =
    either (λ x. fallback (codes "auto") (auto_strategies runtime) ≡ x)
      (str_eq mode "" || str_eq mode mode_colossus_x) (λ q. ok-injective q) (not_ok {e = bad_mode})
      e

module _ (drivers : Drivers) (size : ℕ)
    (calm : (m : Memory) → memory_alloc drivers m size ≢ panic) where
  heap_has_room : memory_alloc drivers go_heap size ≡ ok size
  unfolding memory_alloc make_bytes
  heap_has_room = elim (Bool-cases (drivers.has_room size)) [
    | inl e ↦ rw e refl
    | inr e ↦ absurd (calm go_heap (rw e refl))
  ]

  -- the heap is the last resort
  first_alloc-ends :
      (l : List Memory) → (n : ℕ) × (first_alloc drivers (l ++ (go_heap ∷ [])) size ≡ ok n)
  unfolding first_alloc
  first_alloc-ends [] = (size, rw (heap_has_room, first_alloc) refl)
  first_alloc-ends (m ∷ l) = elim (Result-cases (memory_alloc drivers m size)) [
    | inl (n, is) ↦ (n, rw (is, first_alloc) refl)
    | inr (inl (e, failed)) ↦ let (n, is) = first_alloc-ends l in (n, rw (failed, first_alloc) is)
    | inr (inr broken) ↦ absurd (calm m broken)
  ]

  auto_strategies_end :
      (runtime : Runtime) → (l : List Memory) × (auto_strategies runtime ≡ l ++ (go_heap ∷ []))
  unfolding auto_strategies
  auto_strategies_end runtime =
      last_of (offered runtime.cuda (λ ordinal. cuda_managed ordinal true))
        (offered runtime.opencl (λ context. opencl_svm context))
        (offered runtime.metal (λ device. metal_shared device))
    where
      last_of :
          (a b d : List Memory)
          → (l : List Memory) × (a ++ (b ++ (d ++ (go_heap ∷ []))) ≡ l ++ (go_heap ∷ []))
      last_of a b d = (
        a ++ (b ++ d),
        sym (
            append_assoc a (b ++ d) (go_heap ∷ [])
            ∙ ap (λ (r : List Memory). a ++ r) (append_assoc b d (go_heap ∷ []))),
      )

  auto_alloc :
      (runtime : Runtime) → (n : ℕ) × (first_alloc drivers (auto_strategies runtime) size ≡ ok n)
  auto_alloc runtime =
      let (l, is) = auto_strategies_end runtime in
      let (n, found) = first_alloc-ends l in
      (n, ap (λ (r : List Memory). first_alloc drivers r size) is ∙ found)

IsChosen-can_reuse :
    (drivers : Drivers) (runtime : Runtime) (v : Setup) (s : MemoryStrategy)
    → IsChosen runtime s
    → can_reuse (record v { mining_allocator = some (as_allocator drivers s) }) ≡ true
unfolding can_reuse mining_allocator_or_default is_host_name strategy_name strategy_reuse bytes_eq
IsChosen-can_reuse drivers runtime v (single m) shared = shared
IsChosen-can_reuse drivers runtime v (fallback name memories) (named, _) = rw named refl

-- Every strategy that Resolve returns lets the validator share its DAGs with the miner, when the
-- contexts that the runtime offers are set. The strategy for no choice, which is auto, allocates any
-- size at which no allocation panics, the one of the Go heap included: an error of a device is not
-- returned, since the heap is the last resort.
pub resolve-can_reuse :
    (drivers : Drivers) (mode : String) (runtime : Runtime) (dag_alloc : Bytes) (v : Setup)
    (s : MemoryStrategy) (size : ℕ)
    → Offers runtime
    → ((m : Memory) → memory_alloc drivers m size ≢ panic)
    → resolve mode runtime dag_alloc ≡ ok s
    → (can_reuse (record v { mining_allocator = some (as_allocator drivers s) }) ≡ true)
      × (dag_alloc ≡ [] → (n : ℕ) × (strategy_alloc drivers s size ≡ ok n))
unfolding strategy_alloc
resolve-can_reuse drivers mode runtime dag_alloc v s size offers calm e =
    let chosen = resolve-IsChosen mode runtime dag_alloc offers e in
    (
      IsChosen-can_reuse drivers runtime v s chosen,
      λ empty.
          let auto = resolve_empty mode runtime (ap (resolve mode runtime) (sym empty) ∙ e) in
          subst (λ (x : MemoryStrategy). (n : ℕ) × (strategy_alloc drivers x size ≡ ok n)) auto
            (auto_alloc drivers size calm runtime),
    )
