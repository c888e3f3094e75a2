-- ===== src/Command/Decimal.antt =====
-- command/mod.rs, `parse_decimal`: the canonical decimal form of an `i64`.
-- `str::parse` is the standard library's: an optional sign, then digits without overflow, which is
-- what `parse_integer` of the codec reads too.
use native.Mathlib.Nat.{pow-suc}
use sider.Prelude.{
  ℕ, ◌<◌, ◌≤◌, ◌^◌, ◌/◌, zero, suc, ◌≡◌, refl, ap, Bool, true, false, ◌&&◌, not, Option, none, some,
  [], ◌∷◌, leb, ltb, ◌==◌, if◌then◌else◌, Result, ok, err, bytes_eq, all, Bool-cases, inl, inr,
  arith,
}
use sider.Prelude.Int.{ℤ, pos, negsuc, ◌≤ℤ◌}
use sider.Prelude.Machine.{i64_min, i64_max}
use sider.Resp.Frame.{Bytes}
use sider.Resp.Number.{is_digit, parse_integer}
use sider.Resp.Encoder.{decimal, decimal_i64, digits_fuel}
use sider.Resp.RoundTrip.{parse_integer-decimal_i64}

abbrev strip_sign : Bytes → Bytes
strip_sign [] = []
strip_sign (b ∷ bs) = if b == b'-' then bs else b ∷ bs

-- `matches!(digits.first(), Some(b'1'..=b'9'))`, and all of them digits.
unfoldable pub canonical_digits : Bytes → Bool
canonical_digits [] = false
canonical_digits (d ∷ ds) = leb b'1' d && (leb d b'9' && all is_digit (d ∷ ds))

abbrev to_option : Result ℤ sider.Resp.Frame.ProtocolError → Option ℤ
to_option (ok z) = some z
to_option (err e) = none

unfoldable pub parse_decimal : Bytes → Option ℤ
parse_decimal value =
    if bytes_eq value (b'0' ∷ [])
    then some (pos 0)
    else if not (canonical_digits (strip_sign value))
    then none
    else to_option (parse_integer value)

all-digits_fuel :
    (f n : ℕ) (acc : Bytes) → all is_digit acc ≡ true → all is_digit (digits_fuel f n acc) ≡ true
unfolding digits_fuel
all-digits_fuel zero n acc h = h
all-digits_fuel (suc f) n acc h = elim (Bool-cases (ltb n 10)) [
  | inl e ↦ rw e (ground arith)
  | inr e ↦ rw e (all-digits_fuel f (n / 10) _ (ground arith))
]

-- The first digit of a number that is not 0 is not 0.
abbrev Leads : Bytes → Type 0
Leads [] = ⊥
Leads (d ∷ ds) = (b'1' ≤ d) × (d ≤ b'9')

digits_fuel-Leads : (f n : ℕ) (acc : Bytes) → 0 < n → n < 10 ^ f → Leads (digits_fuel f n acc)
unfolding digits_fuel
digits_fuel-Leads zero n acc h k = absurd (omega arith)
digits_fuel-Leads (suc f) n acc h k = elim (Bool-cases (ltb n 10)) [
  | inl e ↦ rw e (ground arith)
  | inr e ↦ rw e (digits_fuel-Leads f (n / 10) _ (ground arith) (omega (arith, pow-suc 10 f)))
]

canonical-Leads :
    (bytes : Bytes) → Leads bytes → all is_digit bytes ≡ true → canonical_digits bytes ≡ true
unfolding canonical_digits
canonical-Leads [] l a = absurd l
canonical-Leads (d ∷ ds) l a = rw a (ground arith)

decimal_canonical : (n : ℕ) → 0 < n → n < 10 ^ 20 → canonical_digits (decimal n) ≡ true
unfolding decimal
decimal_canonical n h k =
    canonical-Leads (digits_fuel 20 n []) (digits_fuel-Leads 20 n [] h k)
      (all-digits_fuel 20 n [] refl)

strip_sign-Leads : (bytes : Bytes) → canonical_digits bytes ≡ true → strip_sign bytes ≡ bytes
unfolding canonical_digits
strip_sign-Leads [] h = cc
strip_sign-Leads (d ∷ ds) h = ground arith

not_zero : (bytes : Bytes) → canonical_digits bytes ≡ true → bytes_eq bytes (b'0' ∷ []) ≡ false
unfolding canonical_digits
not_zero [] h = cc
not_zero (d ∷ ds) h = ground arith

-- An `i64`, the least one included, written in decimal, is read back by `parse_decimal`.
pub parse_decimal-decimal_i64 :
    (z : ℤ) → i64_min ≤ℤ z → z ≤ℤ i64_max → parse_decimal (decimal_i64 z) ≡ some z
unfolding parse_decimal decimal_i64
parse_decimal-decimal_i64 (pos zero) lo hi = unfold decimal digits_fuel in refl
parse_decimal-decimal_i64 (pos (suc n)) lo hi =
    let c = decimal_canonical (suc n) (omega arith) (omega arith) in
    simp (not_zero (decimal (suc n)) c, strip_sign-Leads (decimal (suc n)) c, c)
      (ap to_option (parse_integer-decimal_i64 (pos (suc n)) lo hi))
parse_decimal-decimal_i64 (negsuc n) lo hi =
    let c = decimal_canonical (suc n) (omega arith) (omega arith) in
    simp c (ap to_option (parse_integer-decimal_i64 (negsuc n) lo hi))
