-- ===== src/Spec/Size.antt =====
-- The DAG size as a function of the epoch: a saturating line, aligned to the node size.
use Prim.Native.Nat.{min}
use native.Mathlib.Nat.{div-add-mod}
use colossus_x.Prelude.{
  ℕ, ◌+◌, ◌-◌, ◌*◌, ◌/◌, ◌%◌, ◌^◌, ◌<◌, ◌≤◌, ◌≡◌, ap, arith, ok, inl, inr, ltb, ltb→lt, Bool-cases,
  if◌then◌else◌,
}
use colossus_x.Spec.{
  Spec, InRange, max_uint64, initial_dag_size, growth_dag_size_per_epoch, dag_size_for_epoch,
  dag_size_for_height,
}
use colossus_x.Spec.Validate.{IsValid, growth_pos}

-- the largest multiple of the node size that a uint64 holds
abbrev pub size_cap : ℕ
size_cap = 2 ^ 64 - 256

-- the size that the specification promises
abbrev pub ideal_size : Spec → ℕ → ℕ
ideal_size s epoch = min (initial_dag_size s + epoch * growth_dag_size_per_epoch s) size_cap

initial_dag_size-lt : (s : Spec) → InRange s → initial_dag_size s < 2 ^ 64
unfolding initial_dag_size
initial_dag_size-lt s r = ground arith

div_lt_mul : (a g e : ℕ) → 0 < g → a / g < e → a < e * g
div_lt_mul a g e p h = grind (arith, div-add-mod a g)

mul_le_of_div : (a g e : ℕ) → e ≤ a / g → e * g ≤ a
mul_le_of_div a g e h = grind (arith, div-add-mod a g)

aligned_mul : (e g : ℕ) → g % 256 ≡ 0 → e * g % 256 ≡ 0
aligned_mul e g h =
    let whole : g ≡ 256 * (g / 256) = omega arith in omega (arith, ap (λ (t : ℕ). e * t) whole)

aligned_below_cap : (n : ℕ) → n % 256 ≡ 0 → n < 2 ^ 64 → n ≤ size_cap
aligned_below_cap n a h = omega arith

-- both branches of the overflow test, over the numbers alone
size_ideal :
    (i g e : ℕ)
    → 0 < g
    → i < 2 ^ 64
    → i % 256 ≡ 0
    → g % 256 ≡ 0
    → (if ltb ((max_uint64 - i) / g) e
        then max_uint64 - max_uint64 % 256
        else (i + e * g % 2 ^ 64) % 2 ^ 64)
      ≡ min (i + e * g) size_cap
size_ideal i g e p lt a b = elim (Bool-cases (ltb ((max_uint64 - i) / g) e)) [
  | inl over ↦
      let past = div_lt_mul (max_uint64 - i) g e p (ltb→lt _ _ over) in rw over (omega arith)
  | inr fits ↦
      let within = mul_le_of_div (max_uint64 - i) g e (ground arith) in
      rw fits (omega (arith, aligned_mul e g b))
]

-- DAGSizeForEpoch of a valid specification neither panics nor wraps: it is the initial size plus
-- the growth of all the epochs, cut off at the largest multiple of the node size that fits in 64
-- bits.
pub dag_size_for_epoch_lem :
    (s : Spec) (epoch : ℕ)
    → IsValid s
    → InRange s
    → dag_size_for_epoch s epoch ≡ ok (ideal_size s epoch)
unfolding dag_size_for_epoch
dag_size_for_epoch_lem s epoch v r = ground (
  arith,
  size_ideal (initial_dag_size s) (growth_dag_size_per_epoch s) epoch,
  growth_pos s,
  initial_dag_size-lt s r,
  aligned_below_cap (initial_dag_size s),
)

-- the epoch of a height
abbrev pub epoch_of : Spec → ℕ → ℕ
epoch_of s height = height / s.epoch_blocks

pub dag_size_for_height_lem :
    (s : Spec) (height : ℕ)
    → IsValid s
    → InRange s
    → dag_size_for_height s height ≡ ok (ideal_size s (epoch_of s height))
unfolding dag_size_for_height
dag_size_for_height_lem s height v r =
    ground (arith, dag_size_for_epoch_lem s (height / s.epoch_blocks))

-- NodeCount takes the initial size for DAGSizeForHeight(0): at height 0 no other branch is taken.
dag_size_for_height-zero : (s : Spec) → dag_size_for_height s 0 ≡ ok (initial_dag_size s)
unfolding dag_size_for_height dag_size_for_epoch
dag_size_for_height-zero s = ground arith

ideal_size_bounds :
    (s : Spec) (e : ℕ) → IsValid s → (256 ≤ ideal_size s e) × (ideal_size s e % 256 ≡ 0)
ideal_size_bounds s e v =
    omega (arith, aligned_mul e (growth_dag_size_per_epoch s) v.growth_aligned)

ideal_size_mono : (s : Spec) (d e : ℕ) → d ≤ e → ideal_size s d ≤ ideal_size s e
ideal_size_mono s d e h =
    let grown : d * growth_dag_size_per_epoch s ≤ e * growth_dag_size_per_epoch s = grind arith in
    omega (arith, grown)

div_mono : (a b n : ℕ) → a ≤ b → 0 < n → a / n ≤ b / n
div_mono a b n h p = grind (arith, div-add-mod a n, div-add-mod b n)

-- Along a chain of a valid specification the DAG never shrinks: at heights h ≤ k the sizes are
-- computed with no panic, are multiples of the node size from one node up to the 64-bit limit, and
-- the later one is at least the earlier one.
pub dag_size_for_height_mono :
    (s : Spec) (h k : ℕ)
    → IsValid s
    → InRange s
    → h ≤ k
    → (m : ℕ) × (n : ℕ) × (dag_size_for_height s h ≡ ok m)
      × (dag_size_for_height s k ≡ ok n)
      × (m ≤ n)
      × (256 ≤ m)
      × (n < 2 ^ 64)
      × (m % 256 ≡ 0)
      × (n % 256 ≡ 0)
dag_size_for_height_mono s h k v r le =
    let low = ideal_size_bounds s (epoch_of s h) v in
    let high = ideal_size_bounds s (epoch_of s k) v in
    (
      ideal_size s (epoch_of s h),
      ideal_size s (epoch_of s k),
      dag_size_for_height_lem s h v r,
      dag_size_for_height_lem s k v r,
      ideal_size_mono s _ _ (div_mono h k s.epoch_blocks le v.epoch_pos),
      low.0,
      omega arith,
      low.1,
      high.1,
    )
