-- ===== src/Prelude/Machine.antt =====
-- Checked arithmetic on the machine types of a 64-bit target: `usize` and `u64` are numbers below
-- 2 ^ 64, `i64` is an integer between -(2 ^ 63) and 2 ^ 63 - 1.
use sider.Prelude.Int.{ℤ, pos, negsuc, ◌+ℤ◌, ◌-ℤ◌, ◌*ℤ◌, leb_ℤ}
use sider.Prelude.{ℕ, ◌+◌, ◌-◌, ◌*◌, ◌^◌, ◌&&◌, Option, none, some, leb, if◌then◌else◌, min}

abbrev pub usize_max : ℕ
usize_max = 2 ^ 64 - 1

abbrev pub checked_add : ℕ → ℕ → Option ℕ
checked_add a b = if leb (a + b) usize_max then some (a + b) else none

abbrev pub checked_sub : ℕ → ℕ → Option ℕ
checked_sub a b = if leb b a then some (a - b) else none

abbrev pub checked_mul : ℕ → ℕ → Option ℕ
checked_mul a b = if leb (a * b) usize_max then some (a * b) else none

abbrev pub saturating_add : ℕ → ℕ → ℕ
saturating_add a b = min (a + b) usize_max

abbrev pub i64_max : ℤ
i64_max = pos (2 ^ 63 - 1)

abbrev pub i64_min : ℤ
i64_min = negsuc (2 ^ 63 - 1)

-- An `i64` operation that is `none` where the exact result does not fit.
abbrev pub checked_i64 : ℤ → Option ℤ
checked_i64 z = if leb_ℤ i64_min z && leb_ℤ z i64_max then some z else none

unfoldable pub checked_add_i64 : ℤ → ℤ → Option ℤ
unfolding ◌+ℤ◌
checked_add_i64 a b = checked_i64 (a +ℤ b)

unfoldable pub checked_sub_i64 : ℤ → ℤ → Option ℤ
unfolding ◌-ℤ◌
checked_sub_i64 a b = checked_i64 (a -ℤ b)

unfoldable pub checked_mul_i64 : ℤ → ℤ → Option ℤ
unfolding ◌*ℤ◌
checked_mul_i64 a b = checked_i64 (a *ℤ b)
