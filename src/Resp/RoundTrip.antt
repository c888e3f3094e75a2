-- ===== src/Resp/RoundTrip.antt =====
-- resp/decoder.rs and resp/encoder.rs: the decimal fields, written and read.
use native.Mathlib.Nat.{pow-suc}
use sider.Prelude.{
  ℕ, zero, suc, ◌+◌, ◌-◌, ◌*◌, ◌/◌, ◌%◌, ◌^◌, ◌≡◌, refl, ap, sym, ◌∙◌, Bool, true, false, Option,
  none, some, List, [], ◌∷◌, ◌++◌, arith, ◌<◌, ◌≤◌, ltb, leb, Result, ok, err, Bool-cases, inl, inr,
  if◌then◌else◌,
}
use sider.Prelude.Int.{ℤ, pos, negsuc, sub_ℕ, ◌≤ℤ◌}
use sider.Prelude.Machine.{checked_mul_i64, checked_sub_i64, usize_max, i64_min, i64_max}
use sider.Resp.Frame.{Bytes, ProtocolError}
use sider.Resp.Number.{
  is_digit, push_digit, length_value, parse_length, push_digit_i64, negative_value, negate,
  parse_signed, split_sign, parse_integer,
}
use sider.Resp.Encoder.{digits_fuel, decimal, decimal_i64}

abbrev HeadDigit : Bytes → Type 0
HeadDigit [] = ⊥
HeadDigit (d ∷ ds) = (b'0' ≤ d) × (d ≤ b'9')

digits_fuel-HeadDigit : (f n : ℕ) (acc : Bytes) → HeadDigit acc → HeadDigit (digits_fuel f n acc)
unfolding digits_fuel
digits_fuel-HeadDigit zero n acc h = h
digits_fuel-HeadDigit (suc f) n acc h = elim (Bool-cases (ltb n 10)) [
  | inl e ↦ rw e (ground arith)
  | inr e ↦ rw e (digits_fuel-HeadDigit f (n / 10) _ (omega arith))
]

decimal-HeadDigit : (n : ℕ) → HeadDigit (decimal n)
unfolding decimal digits_fuel
decimal-HeadDigit n = elim (Bool-cases (ltb n 10)) [
  | inl e ↦ rw e (ground arith)
  | inr e ↦ rw e (digits_fuel-HeadDigit 19 (n / 10) _ (omega arith))
]

-- A digit is pushed where the result fits.
lt→digit : (d : ℕ) → d < 10 → is_digit (d + b'0') ≡ true
lt→digit d h = ground arith

push_digit-fits :
    (v d : ℕ) → d < 10 → v * 10 + d ≤ usize_max → push_digit v (d + b'0') ≡ some (v * 10 + d)
unfolding push_digit
push_digit-fits v d h k = ground arith

length_value-digit :
    (v d : ℕ) (acc : Bytes)
    → d < 10
    → v * 10 + d ≤ usize_max
    → length_value v ((d + b'0') ∷ acc) ≡ length_value (v * 10 + d) acc
unfolding length_value
length_value-digit v d acc h k = ground (arith, push_digit-fits v d)

length_value-digits :
    (f n : ℕ) (acc : Bytes)
    → n < 10 ^ f
    → n ≤ usize_max
    → length_value 0 (digits_fuel f n acc) ≡ length_value n acc
unfolding digits_fuel
length_value-digits zero n acc h k = ap (λ (m : ℕ). length_value m acc) (omega arith)
length_value-digits (suc f) n acc h k = elim (Bool-cases (ltb n 10)) [
  | inl e ↦ rw e (
      length_value-digit 0 n acc (ground arith) (omega arith)
      ∙ ap (λ (m : ℕ). length_value m acc) (omega arith))
  | inr e ↦ rw e (
      length_value-digits f (n / 10) _ (omega (arith, pow-suc 10 f)) (omega arith)
      ∙ (length_value-digit (n / 10) (n % 10) acc (omega arith) (omega arith)
          ∙ ap (λ (m : ℕ). length_value m acc) (omega arith)))
]

length_value-decimal : (n : ℕ) → n ≤ usize_max → length_value 0 (decimal n) ≡ ok n
unfolding decimal
length_value-decimal n h =
    length_value-digits 20 n [] (omega arith) h ∙ (unfold length_value in refl)

parse_length-head :
    (bytes : Bytes) (n : ℕ)
    → HeadDigit bytes
    → length_value 0 bytes ≡ ok n
    → parse_length bytes ≡ ok (some n)
unfolding parse_length
parse_length-head [] n h e = absurd h
parse_length-head (d ∷ ds) n h e = ground arith

-- A number that fits a `usize`, written in decimal, is read back as that length.
pub parse_length-decimal : (n : ℕ) → n ≤ usize_max → parse_length (decimal n) ≡ ok (some n)
parse_length-decimal n h =
    parse_length-head (decimal n) n (decimal-HeadDigit n) (length_value-decimal n h)

-- The negative of a number.
abbrev neg : ℕ → ℤ
neg v = sub_ℕ 0 v

neg_times_ten : (v : ℕ) → v * 10 ≤ 2 ^ 63 → checked_mul_i64 (neg v) (pos 10) ≡ some (neg (v * 10))
unfolding checked_mul_i64
neg_times_ten zero h = ground arith
neg_times_ten (suc v) h = ground arith

neg_minus : (v d : ℕ) → v + d ≤ 2 ^ 63 → checked_sub_i64 (neg v) (pos d) ≡ some (neg (v + d))
unfolding checked_sub_i64
neg_minus zero d h = ground arith
neg_minus (suc v) d h = ground arith

push_digit_i64-fits :
    (v d : ℕ) → v * 10 + d ≤ 2 ^ 63 → push_digit_i64 (neg v) (d + b'0') ≡ some (neg (v * 10 + d))
unfolding push_digit_i64
push_digit_i64-fits v d h =
    rw (neg_times_ten v (omega arith)) (
      ap (λ (x : ℕ). checked_sub_i64 (neg (v * 10)) (pos x)) (omega arith) ∙ neg_minus (v * 10) d h)

negative_value-digit :
    (v d : ℕ) (acc : Bytes)
    → d < 10
    → v * 10 + d ≤ 2 ^ 63
    → negative_value (neg v) ((d + b'0') ∷ acc) ≡ negative_value (neg (v * 10 + d)) acc
unfolding negative_value
negative_value-digit v d acc h k = rw (push_digit_i64-fits v d k, lt→digit d h)

at_value : (acc : Bytes) (m n : ℕ) → m ≡ n → negative_value (neg m) acc ≡ negative_value (neg n) acc
at_value acc m n e = ap (λ (k : ℕ). negative_value (neg k) acc) e

negative_value-digits :
    (f n : ℕ) (acc : Bytes)
    → n < 10 ^ f
    → n ≤ 2 ^ 63
    → negative_value (pos 0) (digits_fuel f n acc) ≡ negative_value (neg n) acc
unfolding digits_fuel
negative_value-digits zero n acc h k = at_value acc 0 n (omega arith)
negative_value-digits (suc f) n acc h k = elim (Bool-cases (ltb n 10)) [
  | inl e ↦ rw e (
      negative_value-digit 0 n acc (ground arith) (omega arith)
      ∙ at_value acc (0 * 10 + n) n (omega arith))
  | inr e ↦ rw e (
      negative_value-digits f (n / 10) _ (omega (arith, pow-suc 10 f)) (omega arith)
      ∙ (negative_value-digit (n / 10) (n % 10) acc (omega arith) (omega arith)
          ∙ at_value acc (n / 10 * 10 + n % 10) n (omega arith)))
]

negative_value-decimal : (n : ℕ) → n ≤ 2 ^ 63 → negative_value (pos 0) (decimal n) ≡ ok (neg n)
unfolding decimal negative_value
negative_value-decimal n h = negative_value-digits 20 n [] (omega arith) h

-- A text that starts with a digit has no sign.
split_sign-head : (bytes : Bytes) → HeadDigit bytes → split_sign bytes ≡ (false, bytes)
unfolding split_sign
split_sign-head [] h = absurd h
split_sign-head (d ∷ ds) h = ground arith

parse_signed-head :
    (negative : Bool) (bytes : Bytes) (z : ℤ)
    → HeadDigit bytes
    → negative_value (pos 0) bytes ≡ ok z
    → parse_signed negative bytes ≡ (
        if negative
        then ok z
        else sider.Prelude.ok_or (negate z) (sider.Resp.Frame.malformed "integer out of range"))
unfolding parse_signed
parse_signed-head negative [] z h e = absurd h
parse_signed-head negative (d ∷ ds) z h e = rw e

negate-neg : (n : ℕ) → n < 2 ^ 63 → negate (neg n) ≡ some (pos n)
unfolding negate
negate-neg zero h = ground arith
negate-neg (suc n) h = ground arith

split_sign-minus : (bytes : Bytes) → split_sign (b'-' ∷ bytes) ≡ (true, bytes)
unfolding split_sign
split_sign-minus bytes = refl

neg-suc : (n : ℕ) → neg (suc n) ≡ negsuc n
neg-suc n = ground arith

-- An `i64`, the least one included, written in decimal, is read back.
pub parse_integer-decimal_i64 :
    (z : ℤ) → i64_min ≤ℤ z → z ≤ℤ i64_max → parse_integer (decimal_i64 z) ≡ ok z
unfolding parse_integer decimal_i64
parse_integer-decimal_i64 (pos n) lo hi = rw (split_sign-head (decimal n) (decimal-HeadDigit n)) (
    parse_signed-head false (decimal n) (neg n) (decimal-HeadDigit n)
      (negative_value-decimal n (omega arith))
    ∙ rw (negate-neg n (omega arith)))
parse_integer-decimal_i64 (negsuc n) lo hi = rw split_sign-minus (
    parse_signed-head true (decimal (suc n)) (neg (suc n)) (decimal-HeadDigit (suc n))
      (negative_value-decimal (suc n) (omega arith))
    ∙ ap ok (neg-suc n))
