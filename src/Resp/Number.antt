-- ===== src/Resp/Number.antt =====
-- resp/decoder.rs, `parse_integer` and `parse_length`: the decimal fields of a header line.
use sider.Prelude.{
  ℕ, ◌-◌, Bool, ◌&&◌, Option, none, some, [], ◌∷◌, leb, ◌==◌, if◌then◌else◌, Result, ok, err,
  and_then, ok_or, option_bind, bytes_eq,
}
use sider.Prelude.Int.{ℤ, pos}
use sider.Prelude.Machine.{checked_add, checked_mul, checked_sub_i64, checked_mul_i64}
use sider.Resp.Frame.{Bytes, ProtocolError, malformed}

-- `u8::is_ascii_digit`.
abbrev pub is_digit : ℕ → Bool
is_digit b = leb b'0' b && leb b b'9'

-- One round of the loop, which accumulates in the negative range.
unfoldable pub push_digit_i64 : ℤ → ℕ → Option ℤ
push_digit_i64 value digit =
    option_bind (checked_mul_i64 value (pos 10)) (λ v. checked_sub_i64 v (pos (digit - b'0')))

unfoldable pub negative_value : ℤ → Bytes → Result ℤ ProtocolError
negative_value value [] = ok value
negative_value value (digit ∷ rest) =
    let next =
      and_then (ok_or (push_digit_i64 value digit) (malformed "integer out of range"))
        (λ v. negative_value v rest) in
    if is_digit digit then next else err (malformed "invalid integer")

-- `let (negative, digits) = match bytes.first()`.
unfoldable pub split_sign : Bytes → Bool × Bytes
split_sign [] = (Bool.false, [])
split_sign (b ∷ rest) =
    if b == b'-'
    then (Bool.true, rest)
    else if b == b'+'
    then (Bool.false, rest)
    else (Bool.false, b ∷ rest)

-- `checked_neg`.
unfoldable pub negate : ℤ → Option ℤ
unfolding checked_sub_i64
negate value = checked_sub_i64 (pos 0) value

unfoldable pub parse_signed : Bool → Bytes → Result ℤ ProtocolError
parse_signed negative [] = err (malformed "integer without digits")
parse_signed negative (d ∷ ds) = and_then (negative_value (pos 0) (d ∷ ds)) (λ value.
    if negative then ok value else ok_or (negate value) (malformed "integer out of range"))

unfoldable pub parse_integer : Bytes → Result ℤ ProtocolError
parse_integer bytes = let (negative, digits) = split_sign bytes in parse_signed negative digits

unfoldable pub push_digit : ℕ → ℕ → Option ℕ
push_digit value digit = option_bind (checked_mul value 10) (λ v. checked_add v (digit - b'0'))

unfoldable pub length_value : ℕ → Bytes → Result ℕ ProtocolError
length_value value [] = ok value
length_value value (digit ∷ rest) =
    let next =
      and_then (ok_or (push_digit value digit) (malformed "length out of range"))
        (λ v. length_value v rest) in
    if is_digit digit then next else err (malformed "invalid length")

-- `none` is the length -1 of a null.
unfoldable pub parse_length : Bytes → Result (Option ℕ) ProtocolError
parse_length bytes =
    if bytes_eq bytes (b'-' ∷ b'1' ∷ [])
    then ok none
    else if bytes_eq bytes []
    then err (malformed "length without digits")
    else and_then (length_value 0 bytes) (λ value. ok (some value))
