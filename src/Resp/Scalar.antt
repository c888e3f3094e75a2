-- ===== src/Resp/Scalar.antt =====
-- resp/decoder.rs, `validate_scalar`: the spelling of RESP3 doubles and big numbers.
-- `f64::from_str` and `is_finite` of Rust's standard library are modelled by the grammar of decimal
-- floats and by the least magnitude that rounds to infinity, 2 ^ 1024 - 2 ^ 970. A text that this
-- grammar accepts is ASCII, so `from_utf8` refuses none of them.
use sider.Prelude.{
  ℕ, ◌+◌, ◌-◌, ◌*◌, ◌^◌, Bool, false, not, ◌&&◌, ◌||◌, [], ◌∷◌, ◌++◌, ltb, ◌==◌, if◌then◌else◌,
  Result, ok, err, bytes_eq, all, any, length,
}
use sider.Resp.Frame.{Bytes, ProtocolError, malformed}
use sider.Resp.Number.{is_digit}

-- The longest prefix of digits, and the rest.
unfoldable pub span_digits : Bytes → Bytes × Bytes
span_digits [] = ([], [])
span_digits (b ∷ rest) =
    let (digits, after) = span_digits rest in
    if is_digit b then (b ∷ digits, after) else ([], b ∷ rest)

unfoldable pub digits_value : ℕ → Bytes → ℕ
digits_value acc [] = acc
digits_value acc (b ∷ rest) = digits_value (acc * 10 + (b - b'0')) rest

-- `parse_scientific` stops to add digits to an exponent that is out of any float's range.
unfoldable pub exponent_value : ℕ → Bytes → ℕ
exponent_value acc [] = acc
exponent_value acc (b ∷ rest) =
    exponent_value (if ltb acc 0x10000 then acc * 10 + (b - b'0') else acc) rest

unfoldable pub all_digits : Bytes → Bool
all_digits bytes = not (bytes_eq bytes []) && all is_digit bytes

-- mantissa * 10 ^ (up - down) is below the least magnitude that rounds to infinity.
unfoldable pub fits_f64 : ℕ → ℕ → ℕ → Bool
fits_f64 mantissa up down = ltb (mantissa * 10 ^ up) ((2 ^ 1024 - 2 ^ 970) * 10 ^ down)

-- The exponent part, after `e` or `E`.
unfoldable pub exponent_fits : ℕ → ℕ → Bytes → Bool
unfolding all_digits exponent_value fits_f64
exponent_fits mantissa down [] = false
exponent_fits mantissa down (b ∷ rest) =
    if b == b'-'
    then all_digits rest && fits_f64 mantissa 0 (down + exponent_value 0 rest)
    else if b == b'+'
    then all_digits rest && fits_f64 mantissa (exponent_value 0 rest) down
    else all_digits (b ∷ rest) && fits_f64 mantissa (exponent_value 0 (b ∷ rest)) down

-- What follows the mantissa's digits; `count` is their number.
unfoldable pub tail_fits : ℕ → ℕ → ℕ → Bytes → Bool
unfolding exponent_fits fits_f64
tail_fits count mantissa down [] = not (count == 0) && fits_f64 mantissa 0 down
tail_fits count mantissa down (b ∷ rest) =
    not (count == 0) && ((b == b'e' || b == b'E') && exponent_fits mantissa down rest)

unfoldable pub fraction_fits : Bytes → Bytes → Bool
unfolding span_digits digits_value tail_fits
fraction_fits whole [] = tail_fits (length whole) (digits_value 0 whole) 0 []
fraction_fits whole (b ∷ rest) =
    if b == b'.'
    then (let (fraction, after) = span_digits rest in
        tail_fits (length whole + length fraction) (digits_value 0 (whole ++ fraction))
          (length fraction) after)
    else tail_fits (length whole) (digits_value 0 whole) 0 (b ∷ rest)

unfoldable pub unsigned_finite : Bytes → Bool
unfolding span_digits fraction_fits
unsigned_finite bytes = let (whole, after) = span_digits bytes in fraction_fits whole after

-- `s.parse::<f64>().ok().is_some_and(f64::is_finite)`.
unfoldable pub finite_f64 : Bytes → Bool
unfolding unsigned_finite
finite_f64 [] = false
finite_f64 (b ∷ rest) =
    if b == b'-' || b == b'+' then unsigned_finite rest else unsigned_finite (b ∷ rest)

-- `u8::is_ascii_whitespace`.
abbrev pub is_whitespace : ℕ → Bool
is_whitespace b = b == 32 || (b == 9 || (b == 10 || (b == 12 || b == 13)))

-- `bytes.strip_prefix(b"-").unwrap_or(bytes)`.
unfoldable pub strip_minus : Bytes → Bytes
strip_minus [] = []
strip_minus (b ∷ rest) = if b == b'-' then rest else b ∷ rest

unfoldable pub scalar_valid : ℕ → Bytes → Bool
unfolding strip_minus finite_f64 all_digits
scalar_valid kind bytes =
    if kind == b'('
    then all_digits (strip_minus bytes)
    else (bytes_eq bytes (b'i' ∷ b'n' ∷ b'f' ∷ [])
        || (bytes_eq bytes (b'-' ∷ b'i' ∷ b'n' ∷ b'f' ∷ [])
            || bytes_eq bytes (b'n' ∷ b'a' ∷ b'n' ∷ [])))
      || (finite_f64 bytes && not (any is_whitespace bytes))

unfoldable pub validate_scalar : ℕ → Bytes → Result (Unit {0}) ProtocolError
unfolding scalar_valid
validate_scalar kind bytes =
    if scalar_valid kind bytes then ok tt else err (malformed "invalid RESP3 scalar")
