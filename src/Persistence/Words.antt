-- ===== src/Persistence/Words.antt =====
-- The words of the formats of src/persistence: little-endian numbers, and a reader that takes bytes
-- from the front of what is left.
use sider.Prelude.{append_assoc}
use sider.Prelude.{sym}
use sider.Prelude.{
  ℕ, zero, suc, ◌+◌, ◌-◌, ◌*◌, ◌/◌, ◌%◌, ◌^◌, ◌<◌, ◌≡◌, refl, ap, ◌∙◌, [], ◌∷◌, ◌++◌, length,
  length-append, take, drop, take-append_self, drop-append_self, leb, if◌then◌else◌, Result, ok,
  err, and_then, arith, true, ltb,
}
use native.Mathlib.Nat.{div-add-mod, pow-suc}
use Prim.Native.String.{String}
use sider.Prelude.Int.{ℤ, pos, negsuc}
use sider.Resp.Frame.{Bytes}

-- `FormatError`, less the failures of the operating system.
pub data FormatError : Type 0 where
  header limit : FormatError
  version : ℕ → FormatError
  corrupt : String → FormatError

-- `to_le_bytes` of a number of `k` bytes.
unfoldable pub le : ℕ → ℕ → Bytes
le zero n = []
le (suc k) n = (n % 256) ∷ le k (n / 256)

unfoldable pub from_le : Bytes → ℕ
from_le [] = 0
from_le (b ∷ bs) = b + 256 * from_le bs

pub length-le : (k n : ℕ) → length (le k n) ≡ k
unfolding le
length-le zero n = refl
length-le (suc k) n = omega (arith, length-le k (n / 256))

pow_suc : (k : ℕ) → 256 ^ suc k ≡ 256 * 256 ^ k
pow_suc k = omega (arith, pow-suc 256 k)

pub from_le-le : (k n : ℕ) → n < 256 ^ k → from_le (le k n) ≡ n
unfolding le from_le
from_le-le zero n h = omega (arith, h)
from_le-le (suc k) n h =
    omega (arith, from_le-le k (n / 256) (omega (arith, h, pow_suc k)), div-add-mod n 256)

abbrev pub Reader : Type 0 → Type 0
Reader A = Bytes → Result (A × Bytes) FormatError

infixl 5 ◌>>=◌
abbrev pub ◌>>=◌ : {A B : Type 0} → Reader A → (A → Reader B) → Reader B
◌>>=◌ p f bytes = and_then (p bytes) (λ t. f t.0 t.1)

abbrev pub return : {A : Type 0} → A → Reader A
return a bytes = ok (a, bytes)

abbrev pub fail : {A : Type 0} → FormatError → Reader A
fail e bytes = err e

-- `Cursor::take`: the bytes after the cursor are those that are left.
unfoldable pub take_bytes : ℕ → Reader Bytes
take_bytes n bytes =
    if leb n (length bytes)
    then ok (take n bytes, drop n bytes)
    else err (corrupt "internal length")

unfoldable pub byte : Reader ℕ
byte [] = err (corrupt "internal length")
byte (b ∷ bytes) = ok (b, bytes)

-- `u32` and `u64`.
unfoldable pub word : ℕ → Reader ℕ
word k bytes = and_then (take_bytes k bytes) (λ t. ok (from_le t.0, t.1))

unfoldable pub blob : Reader Bytes
blob bytes = and_then (word 4 bytes) (λ t. take_bytes t.0 t.1)

-- The bit pattern of an `i64`, and what it stands for.
abbrev pub i64_bits : ℤ → ℕ
i64_bits (pos n) = n
i64_bits (negsuc n) = 2 ^ 64 - 1 - n

abbrev pub i64_value : ℕ → ℤ
i64_value bits = if ltb bits (2 ^ 63) then pos bits else negsuc (2 ^ 64 - 1 - bits)

abbrev pub IsI64 : ℤ → Type 0
IsI64 (pos n) = n < 2 ^ 63
IsI64 (negsuc n) = n < 2 ^ 63

pub i64_value-bits : (z : ℤ) → IsI64 z → i64_value (i64_bits z) ≡ z
i64_value-bits (pos n) h = ground (arith, h)
i64_value-bits (negsuc n) h = ground (arith, h)

pub i64_bits-lt : (z : ℤ) → IsI64 z → i64_bits z < 2 ^ 64
i64_bits-lt (pos n) h = omega (arith, h)
i64_bits-lt (negsuc n) h = omega arith

-- A reader reads a value back from the bytes that were written for it, whatever follows.
abbrev pub Reads : {A : Type 0} → Reader A → Bytes → A → Type 0
Reads p written a = (rest : Bytes) → p (written ++ rest) ≡ ok (a, rest)

pub take_bytes-Reads : (bytes : Bytes) → Reads (take_bytes (length bytes)) bytes bytes
unfolding take_bytes
take_bytes-Reads bytes rest =
    let room : leb (length bytes) (length (bytes ++ rest)) ≡ true =
      ground (arith, length-append bytes rest) in
    rw (room, take-append_self bytes rest, drop-append_self bytes rest) refl

pub word-Reads : (k n : ℕ) → n < 256 ^ k → Reads (word k) (le k n) n
unfolding word
word-Reads k n h rest =
    let taken : take_bytes k (le k n ++ rest) ≡ ok (le k n, rest) =
      ap (λ (m : ℕ). take_bytes m (le k n ++ rest)) (sym (length-le k n))
      ∙ take_bytes-Reads (le k n) rest in
    rw (taken, from_le-le k n h) refl

abbrev pub written_blob : Bytes → Bytes
written_blob value = le 4 (length value) ++ value

pub blob-Reads : (value : Bytes) → length value < 2 ^ 32 → Reads blob (written_blob value) value
unfolding blob
blob-Reads value h rest =
    rw
      (
        append_assoc (le 4 (length value)) value rest,
        word-Reads 4 (length value) (omega (arith, h)) (value ++ rest),
      )
      (take_bytes-Reads value rest)
