-- ===== src/Decimal/RoundTrip.antt =====
-- What was written in decimal is read back, and its bytes are digits.
use colossus_x.Prelude.{
  ℕ, zero, suc, ◌+◌, ◌-◌, ◌*◌, ◌/◌, ◌%◌, ◌^◌, ◌<◌, ◌≡◌, refl, sym, ap, ◌∙◌, true, false, Bool-cases,
  none, some, [], ◌∷◌, ◌++◌, arith, ltb, ◌≤◌, subst, ok, tests, inl, inr, length, length-append,
}
use colossus_x.Prelude.Int.{pos}
use colossus_x.Bytes.{Bytes, All, All-append}
use colossus_x.Decimal.{digits_upto, format_uint, is_digit, parse_digits, parse_uint, set_string}

parse_digits_step :
    (acc x : ℕ) (r : Bytes)
    → is_digit x ≡ true
    → parse_digits acc (x ∷ r) ≡ parse_digits (acc * 10 + (x - b'0')) r
unfolding parse_digits
parse_digits_step acc x r digit = rw digit refl

parse_digits_stop : (acc x : ℕ) (r : Bytes) → is_digit x ≡ false → parse_digits acc (x ∷ r) ≡ none
unfolding parse_digits
parse_digits_stop acc x r other = rw other refl

digit : (d : ℕ) → d < 10 → is_digit (b'0' + d) ≡ true
digit d p = ground (arith, p)

parse_digits-snoc :
    (xs : Bytes) (acc m d : ℕ)
    → d < 10
    → parse_digits acc xs ≡ some m
    → parse_digits acc (xs ++ ((b'0' + d) ∷ [])) ≡ some (m * 10 + d)
unfolding parse_digits
parse_digits-snoc [] acc m d p e =
    let same : acc ≡ m = cc in
    parse_digits_step acc (b'0' + d) [] (digit d p) ∙ ap some (omega (arith, same))
parse_digits-snoc (x ∷ xs) acc m d p e = elim (Bool-cases (is_digit x)) [
  | inl first ↦
      parse_digits_step acc x (xs ++ ((b'0' + d) ∷ [])) first
      ∙ parse_digits-snoc xs (acc * 10 + (x - b'0')) m d p
          (sym (parse_digits_step acc x xs first) ∙ e)
  | inr other ↦ absurd (let stop = parse_digits_stop acc x xs other in cc)
]

digits_small : (fuel n : ℕ) → ltb n 10 ≡ true → digits_upto (suc fuel) n ≡ (b'0' + n) ∷ []
unfolding digits_upto
digits_small fuel n small = rw (small, digits_upto) refl

digits_large :
    (fuel n : ℕ)
    → ltb n 10 ≡ false
    → digits_upto (suc fuel) n ≡ digits_upto fuel (n / 10) ++ ((b'0' + n % 10) ∷ [])
unfolding digits_upto
digits_large fuel n large = rw (large, digits_upto) refl

parse_digits-digits_upto : (fuel n : ℕ) → n < fuel → parse_digits 0 (digits_upto fuel n) ≡ some n
unfolding parse_digits
parse_digits-digits_upto zero n p = absurd (omega (arith, p))
parse_digits-digits_upto (suc fuel) n p = elim (Bool-cases (ltb n 10)) [
  | inl small ↦
      ap (parse_digits 0) (digits_small fuel n small)
      ∙ parse_digits_step 0 (b'0' + n) [] (digit n (omega (tests, small)))
      ∙ ap some (omega arith)
  | inr large ↦
      let big : 10 ≤ n = ground (arith, large) in
      let rest = parse_digits-digits_upto fuel (n / 10) (omega (arith, p, big)) in
      let whole : n / 10 * 10 + n % 10 ≡ n = omega arith in
      ap (parse_digits 0) (digits_large fuel n large)
      ∙ parse_digits-snoc (digits_upto fuel (n / 10)) 0 (n / 10) (n % 10) (omega arith) rest
      ∙ ap some whole
]

digits_upto-IsDigits : (fuel n : ℕ) → All (λ b. is_digit b ≡ true) (digits_upto fuel n)
unfolding digits_upto
digits_upto-IsDigits zero n = tt
digits_upto-IsDigits (suc fuel) n = elim (Bool-cases (ltb n 10)) [
  | inl small ↦
      subst (All (λ b. is_digit b ≡ true)) (sym (digits_small fuel n small))
        (digit n (omega (tests, small)), tt)
  | inr large ↦ subst (All (λ b. is_digit b ≡ true)) (sym (digits_large fuel n large)) (
      All-append (λ b. is_digit b ≡ true) (digits_upto fuel (n / 10)) ((b'0' + n % 10) ∷ [])
        (digits_upto-IsDigits fuel (n / 10)) (digit (n % 10) (omega arith), tt))
]

-- the digits written, the first of them apart
parse_digits-format_uint : (n : ℕ) → parse_digits 0 (format_uint n) ≡ some n
unfolding format_uint
parse_digits-format_uint n = parse_digits-digits_upto (suc n) n (omega arith)

pub format_uint-IsDigits : (n : ℕ) → All (λ b. is_digit b ≡ true) (format_uint n)
unfolding format_uint
format_uint-IsDigits n = digits_upto-IsDigits (suc n) n

pub format_uint-injective : (m n : ℕ) → format_uint m ≡ format_uint n → m ≡ n
format_uint-injective m n e =
    let left = parse_digits-format_uint m in
    let right = parse_digits-format_uint n in let same = ap (parse_digits 0) e in cc

length-format_uint : (n : ℕ) → 0 < length (format_uint n)
unfolding format_uint
length-format_uint n = elim (Bool-cases (ltb n 10)) [
  | inl small ↦ omega (arith, ap length (digits_small n n small))
  | inr large ↦ omega (
    arith,
    ap length (digits_large n n large),
    length-append (digits_upto n (n / 10)) ((b'0' + n % 10) ∷ []),
  )
]

-- both readers, on a text of digits
read_digits :
    (s : Bytes) (n : ℕ)
    → 0 < length s
    → All (λ b. is_digit b ≡ true) s
    → parse_digits 0 s ≡ some n
    → (set_string s ≡ ok (pos n)) × (n < 2 ^ 64 → parse_uint s ≡ ok n)
unfolding set_string parse_uint
read_digits [] n p a e = absurd (omega (arith, p))
read_digits (c ∷ r) n p a e = (ground (arith, a.0), λ word. ground (arith, e))

-- ParseUint reads the number that FormatUint wrote, and SetString reads it as well.
pub parse_uint-format_uint :
    (n : ℕ)
    → (set_string (format_uint n) ≡ ok (pos n)) × (n < 2 ^ 64 → parse_uint (format_uint n) ≡ ok n)
parse_uint-format_uint n =
    read_digits (format_uint n) n (length-format_uint n) (format_uint-IsDigits n)
      (parse_digits-format_uint n)
