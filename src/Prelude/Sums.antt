-- ===== src/Prelude/Sums.antt =====
-- Sums of weights over a list, for the measures of processes that take turns.
use Prim.Native.Nat.{ℕ, zero, suc, ◌+◌, ◌*◌, ◌≤◌}
use mathlib.Core.Path.{◌≡◌, ap, refl}
use mathlib.Core.List.{List, [], ◌∷◌}
use mathlib.Core.Option.{some}
use native.Mathlib.Omega.{arith}
use colossus_x.Prelude.Lists.{length, get_elem?, set}

module _ {ℓ} {A : Type ℓ} (weight : A → ℕ) where
  unfoldable pub total : List A → ℕ
  total [] = 0
  total (x ∷ xs) = weight x + total xs

  -- a write moves the sum by the weights of the two entries
  pub total-set :
      (xs : List A) (k : ℕ) (old new : A)
      → get_elem? xs k ≡ some old
      → total (set xs k new) + weight old ≡ total xs + weight new
  unfolding total
  total-set [] k old new e = absurd cc
  total-set (x ∷ xs) zero old new e =
      let same : weight x ≡ weight old = ap weight cc in omega (arith, same)
  total-set (x ∷ xs) (suc k) old new e = omega (arith, total-set xs k old new e)

  -- entries of bounded weight have a bounded sum
  pub total-le :
      (bound : ℕ) (xs : List A) → ((x : A) → weight x ≤ bound) → total xs ≤ length xs * bound
  unfolding total
  total-le bound [] h = omega arith
  total-le bound (x ∷ xs) h = grind (arith, total-le bound xs h, h x)

  -- entries without weight have none together
  pub total-zero :
      (xs : List A) → ((k : ℕ) (x : A) → get_elem? xs k ≡ some x → weight x ≡ 0) → total xs ≡ 0
  unfolding total
  total-zero [] h = refl
  total-zero (x ∷ xs) h = omega (arith, h 0 x refl, total-zero xs (λ k y e. h (suc k) y e))
