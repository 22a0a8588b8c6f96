-- ===== src/Bytes.antt =====
-- Byte strings and the fixed-size arrays of the program ([32]byte, [64]byte) as lists of numbers,
-- with the integer layouts of encoding/binary and the comparison of arrays by `==`.
pub mod Words
pub mod Maps
pub mod Texts
use colossus_x.Prelude.{
  ℕ, zero, suc, ◌+◌, ◌*◌, ◌<◌, ◌≡◌, refl, ap, ap₂, sym, ◌∙◌, ◌↔◌, ◌≢◌, Bool, true, false, ◌&&◌,
  List, [], ◌∷◌, ◌++◌, arith, length, length-append, replicate, bit_xor, ◌==◌, ==_iff,
}

abbrev pub All {ℓ κ} : {A : Type ℓ} → (A → Type κ) → List A → Type κ
All P [] = Unit
All P (x ∷ xs) = P x × All P xs

abbrev pub Bytes : Type 0
Bytes = List ℕ

-- a value of the Go type [n]byte
pub record IsArray (n : ℕ) (b : Bytes) : Type 0 where
  pub size : length b ≡ n
  pub bytes : All (λ x. x < 256) b

-- `==` on arrays, bytes.Equal
unfoldable pub bytes_eq : Bytes → Bytes → Bool
bytes_eq [] [] = true
bytes_eq [] (y ∷ ys) = false
bytes_eq (x ∷ xs) [] = false
bytes_eq (x ∷ xs) (y ∷ ys) = x == y && bytes_eq xs ys

eq_of_bytes_eq : (a b : Bytes) → bytes_eq a b ≡ true → a ≡ b
unfolding bytes_eq
eq_of_bytes_eq [] [] h = refl
eq_of_bytes_eq [] (y ∷ ys) h = cc
eq_of_bytes_eq (x ∷ xs) [] h = cc
eq_of_bytes_eq (x ∷ xs) (y ∷ ys) h = ground (arith, eq_of_bytes_eq xs ys)

pub bytes_eq_self : (a : Bytes) → bytes_eq a a ≡ true
unfolding bytes_eq
bytes_eq_self [] = refl
bytes_eq_self (x ∷ xs) = ground (arith, bytes_eq_self xs)

pub bytes_eq_iff : (a b : Bytes) → (bytes_eq a b ≡ true) ↔ (a ≡ b)
bytes_eq_iff a b = (eq_of_bytes_eq a b, λ e. rw e (bytes_eq_self b))

-- [n]byte{}
abbrev pub zeros : ℕ → Bytes
zeros n = replicate n 0

abbrev pub zero_hash : Bytes
zero_hash = zeros 32

pub All-replicate : (n v : ℕ) → v < 256 → All (λ x. x < 256) (replicate n v)
All-replicate zero v h = tt
All-replicate (suc n) v h = (h, All-replicate n v h)

pub zero_hash-IsArray : IsArray 32 zero_hash
zero_hash-IsArray = record { size = refl; bytes = All-replicate 32 0 (omega arith) }

module _ {ℓ} {A : Type ℓ} where
  pub append-injective :
      (a b c d : List A) → length a ≡ length b → a ++ c ≡ b ++ d → (a ≡ b) × (c ≡ d)
  append-injective [] [] c d h e = (refl, e)
  append-injective [] (y ∷ ys) c d h e = absurd (omega arith)
  append-injective (x ∷ xs) [] c d h e = absurd (omega arith)
  append-injective (x ∷ xs) (y ∷ ys) c d h e = ground (arith, append-injective xs ys c d)

pub append_cancel {ℓ} : {A : Type ℓ} (a b c : List A) → a ++ c ≡ b ++ c → a ≡ b
append_cancel a b c e =
    (append-injective a b c c (omega (arith, length-append a c, length-append b c, ap length e))
      e).0

pub All-append {ℓ κ} :
    {A : Type ℓ} (P : A → Type κ) (front back : List A)
    → All P front
    → All P back
    → All P (front ++ back)
All-append P [] back p q = q
All-append P (a ∷ front) back p q = (p.0, All-append P front back p.1 q)

-- byte-wise exclusive or of two arrays of one size
unfoldable pub xor_bytes : Bytes → Bytes → Bytes
xor_bytes [] ys = []
xor_bytes (x ∷ xs) [] = x ∷ xs
xor_bytes (x ∷ xs) (y ∷ ys) = bit_xor x y ∷ xor_bytes xs ys
