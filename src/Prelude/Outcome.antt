-- ===== src/Prelude/Outcome.antt =====
-- What a Go call comes to: a value, a returned error, or a panic (an index out of range).
use mathlib.Core.Path.{◌≡◌, refl}
use mathlib.Core.Logic.{◌⊎◌, inl, inr}
use mathlib.Core.Bool.{Bool, true, false}
use mathlib.Core.List.{List, [], ◌∷◌}

-- One constructor for each error value or message of the program.
pub data Error : Type 0 where
  -- colossusx/spec.go
  bad_initial bad_growth bad_node_size bad_reads bad_epoch_blocks : Error
  initial_unaligned growth_unaligned bad_mode : Error
  -- colossusx/merkle.go and colossusx/colossusx_solution.go
  prover_empty index_out_of_range leaves_empty dag_empty no_node_size : Error
  prover_nil leaf_count_mismatch root_build_failed proof_incomplete : Error
  mining_count mining_index mining_size mining_proof mix_mismatch pow_mismatch : Error
  audit_count audit_index audit_proof bad_proof_ref : Error
  -- colossusx/dag.go and colossusx/dag_stateless.go
  alloc_nil alloc_small alloc_failed bad_strategy not_ready seed_empty stateless_disabled : Error
  -- pkg/types, pkg/chain
  bad_hex bad_length bad_integer block_not_found io_error bad_json datadir_required : Error
  -- pkg/consensus; the sentinels are ErrInvalidParent and its siblings
  invalid_parent invalid_timestamp invalid_target invalid_pow invalid_epoch : Error
  no_solution : Error
  -- pkg/p2p, pkg/node
  short_read unknown_message validator_required : Error
  -- cmd/colossusx/main.go
  no_input two_inputs size_mismatch version_mismatch seed_mismatch : Error
  missing_block missing_solution missing_root pow_failed : Error

pub data Result {ℓ} (A : Type ℓ) : Type ℓ where
  ok : A → Result A
  err : Error → Result A
  panic : Result A

module _ {ℓ κ} {A : Type ℓ} {B : Type κ} where
  infixl 5 ◌>>=◌ ◌>>◌
  abbrev pub ◌>>=◌ : Result A → (A → Result B) → Result B
  panic >>= k = panic
  err failure >>= k = err failure
  ok value >>= k = k value

  abbrev pub ◌>>◌ : Result A → Result B → Result B
  first >> second = first >>= λ _. second

  -- a call that returned a value went through both of its parts
  pub >>=-eq-ok :
      (first : Result A) (k : A → Result B) {value : B}
      → (first >>= k) ≡ ok value
      → (inner : A) × (first ≡ ok inner) × (k inner ≡ ok value)
  >>=-eq-ok panic k same = cc
  >>=-eq-ok (err failure) k same = cc
  >>=-eq-ok (ok inner) k same = (inner, refl, same)

-- `if !b { return err }`
abbrev pub require : Bool → Error → Result (Unit {0})
require false failure = err failure
require true failure = ok tt

pub require-eq-ok : (b : Bool) (e : Error) {u : Unit {0}} → require b e ≡ ok u → b ≡ true
require-eq-ok true e h = refl
require-eq-ok false e h = cc

module _ {ℓ κ} {A : Type ℓ} {B : Type κ} where
  -- a loop over a slice that may return early
  abbrev pub traverse : (A → Result B) → List A → Result (List B)
  traverse f [] = ok []
  traverse f (x ∷ xs) = f x >>= λ y. traverse f xs >>= λ ys. ok (y ∷ ys)

-- To split on the outcome of a call and keep the equation.
pub Result-cases {ℓ} :
    {A : Type ℓ} (r : Result A)
    → ((a : A) × (r ≡ ok a)) ⊎ (((e : Error) × (r ≡ err e)) ⊎ (r ≡ panic))
Result-cases (ok a) = inl (a, refl)
Result-cases (err e) = inr (inl (e, refl))
Result-cases panic = inr (inr refl)

pub ok-injective {ℓ} : {A : Type ℓ} {a b : A} → ok a ≡ ok b → a ≡ b
ok-injective e = cc

-- a call that returns a changed state with its result, and what follows a value
abbrev pub with_state {ℓ κ} :
    {S : Type 0} {A : Type ℓ} {B : Type κ} → Result A × S → (A → S → Result B × S) → Result B × S
with_state (ok a, s) f = f a s
with_state (err e, s) f = (err e, s)
with_state (panic, s) f = (panic, s)
