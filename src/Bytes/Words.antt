-- ===== src/Bytes/Words.antt =====
-- encoding/binary: little-endian and big-endian words of any number of bytes.
use colossus_x.Prelude.{
  ℕ, zero, suc, ◌+◌, ◌*◌, ◌/◌, ◌%◌, ◌^◌, ◌≤◌, ◌<◌, ◌≡◌, refl, sym, ap, ◌∙◌, [], ◌∷◌, ◌++◌, arith,
  length, length-append, take, length-take,
}
use native.Mathlib.Nat.{pow-suc}
use colossus_x.Bytes.{Bytes, All, All-append}

-- binary.LittleEndian.PutUint32 and PutUint64, at 4 and 8 bytes
unfoldable pub le_bytes : ℕ → ℕ → Bytes
le_bytes zero v = []
le_bytes (suc n) v = v % 256 ∷ le_bytes n (v / 256)

-- binary.LittleEndian.Uint32 of the first bytes
unfoldable pub from_le : Bytes → ℕ
from_le [] = 0
from_le (b ∷ r) = b + 256 * from_le r

-- binary.BigEndian.AppendUint32 and AppendUint64
unfoldable pub be_bytes : ℕ → ℕ → Bytes
be_bytes zero v = []
be_bytes (suc n) v = be_bytes n (v / 256) ++ v % 256 ∷ []

-- binary.BigEndian.Uint32, big.Int.SetBytes
unfoldable pub from_be_acc : ℕ → Bytes → ℕ
from_be_acc acc [] = acc
from_be_acc acc (b ∷ r) = from_be_acc (acc * 256 + b) r

abbrev pub from_be : Bytes → ℕ
from_be b = from_be_acc 0 b

pub length-le_bytes : (n v : ℕ) → length (le_bytes n v) ≡ n
unfolding le_bytes
length-le_bytes zero v = refl
length-le_bytes (suc n) v = ap suc (length-le_bytes n (v / 256))

pub le_bytes-All : (n v : ℕ) → All (λ b. b < 256) (le_bytes n v)
unfolding le_bytes
le_bytes-All zero v = tt
le_bytes-All (suc n) v = (omega arith, le_bytes-All n (v / 256))

pub length-be_bytes : (n v : ℕ) → length (be_bytes n v) ≡ n
unfolding be_bytes
length-be_bytes zero v = refl
length-be_bytes (suc n) v =
    omega (arith, length-append (be_bytes n (v / 256)) (v % 256 ∷ []), length-be_bytes n (v / 256))

pub be_bytes-All : (n v : ℕ) → All (λ b. b < 256) (be_bytes n v)
unfolding be_bytes
be_bytes-All zero v = tt
be_bytes-All (suc n) v =
    All-append (λ b. b < 256) (be_bytes n (v / 256)) (v % 256 ∷ []) (be_bytes-All n (v / 256))
      (omega arith, tt)

-- the words read back
pub from_le-le_bytes : (n v : ℕ) → v < 256 ^ n → from_le (le_bytes n v) ≡ v
unfolding from_le le_bytes
from_le-le_bytes zero v h = omega arith
from_le-le_bytes (suc n) v h =
    let p = pow-suc 256 n in omega (arith, p, from_le-le_bytes n (v / 256) (omega (arith, p)))

from_be-append :
    (acc : ℕ) (b : Bytes) (x : ℕ) → from_be_acc acc (b ++ x ∷ []) ≡ from_be_acc acc b * 256 + x
unfolding from_be_acc
from_be-append acc [] x = refl
from_be-append acc (y ∷ b) x = from_be-append (acc * 256 + y) b x

pub from_be-be_bytes : (n v : ℕ) → v < 256 ^ n → from_be (be_bytes n v) ≡ v
unfolding from_be_acc be_bytes
from_be-be_bytes zero v h = omega arith
from_be-be_bytes (suc n) v h =
    let p = pow-suc 256 n in
    omega (
      arith,
      from_be-append 0 (be_bytes n (v / 256)) (v % 256),
      from_be-be_bytes n (v / 256) (omega (arith, p)),
    )

pub be_bytes-injective :
    (n v w : ℕ) → v < 256 ^ n → w < 256 ^ n → be_bytes n v ≡ be_bytes n w → v ≡ w
be_bytes-injective n v w hv hw e =
    sym (from_be-be_bytes n v hv) ∙ ap from_be e ∙ from_be-be_bytes n w hw

-- an accumulator is the high part of the word
pub from_be_acc-split : (acc : ℕ) (b : Bytes) → from_be_acc acc b ≡ acc * 256 ^ length b + from_be b
unfolding from_be_acc
from_be_acc-split acc [] = omega arith
from_be_acc-split acc (x ∷ b) = omega (
  arith,
  from_be_acc-split (acc * 256 + x) b,
  from_be_acc-split (0 * 256 + x) b,
  ap (λ (t : ℕ). acc * t) (pow-suc 256 (length b)),
)

pub from_be-lt : (b : Bytes) → All (λ x. x < 256) b → from_be b < 256 ^ length b
unfolding from_be_acc
from_be-lt [] h = omega arith
from_be-lt (x ∷ b) h =
    let split = from_be_acc-split (0 * 256 + x) b in
    let scaled : x * 256 ^ length b ≤ 255 * 256 ^ length b = grind arith in
    omega (arith, split, from_be-lt b h.1, pow-suc 256 (length b), scaled)

pub from_be-cons : (x : ℕ) (b : Bytes) → from_be (x ∷ b) ≡ x * 256 ^ length b + from_be b
unfolding from_be_acc
from_be-cons x b = omega (arith, from_be_acc-split (0 * 256 + x) b)

pub from_le-lt : (b : Bytes) → All (λ x. x < 256) b → from_le b < 256 ^ length b
unfolding from_le
from_le-lt [] h = omega arith
from_le-lt (x ∷ b) h = omega (arith, h.0, from_le-lt b h.1, pow-suc 256 (length b))

take-All : (n : ℕ) (b : Bytes) → All (λ x. x < 256) b → All (λ x. x < 256) (take n b)
take-All zero b h = tt
take-All (suc n) [] h = tt
take-All (suc n) (x ∷ b) h = (h.0, take-All n b h.1)

-- binary.LittleEndian.Uint32 of the first four bytes is a 32-bit word
pub from_le-take-lt :
    (b : Bytes) → All (λ x. x < 256) b → 4 ≤ length b → from_le (take 4 b) < 2 ^ 32
from_le-take-lt b h n =
    let size : length (take 4 b) ≡ 4 = omega (arith, length-take 4 b) in
    let bound = from_le-lt (take 4 b) (take-All 4 b h) in rw size at bound
