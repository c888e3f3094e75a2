-- ===== src/Storage/Member.antt =====
-- storage/memory.rs: the checks of a descriptor and of a member, and maps with sorted byte keys.
use Prim.Native.Nat.{bit_and}
use sider.Prelude.{
  ℕ, ◌+◌, ◌*◌, Bool, true, false, ◌&&◌, ◌||◌, not, Option, none, some, List, [], ◌∷◌, length, leb,
  ltb, ◌==◌, if◌then◌else◌, Result, ok, err, and_then, ok_or, option_bind,
}
use sider.Prelude.Int.{ℤ, pos, leb_ℤ}
use sider.Prelude.Machine.{checked_add}
use sider.Resp.Frame.{Bytes}
use sider.Resp.Encoder.{decimal_i64}
use sider.Storage.Memory.{Scalar, Descriptor, Member}

pub data MemoryError : Type 0 where
  argument dimension non_finite identity deadline quota edit_order missing_member : MemoryError

abbrev pub within : ℕ → ℕ → ℕ → Bool
within low high n = leb low n && leb n high

unfoldable pub bounded : Bytes → ℕ → ℕ → Result (Unit {0}) MemoryError
bounded value minimum maximum =
    if within minimum maximum (length value) then ok tt else err argument

-- `chunks_exact(4)`, read as little-endian 32-bit numbers.
abbrev pub coordinates : Bytes → List ℕ
coordinates (a ∷ (b ∷ (c ∷ (d ∷ rest)))) =
    (a + 256 * b + 65536 * c + 16777216 * d) ∷ coordinates rest
coordinates _ = []

-- The exponent is all ones: an infinity or not a number.
abbrev pub any_not_finite : List ℕ → Bool
any_not_finite [] = false
any_not_finite (bits ∷ rest) = bit_and bits 0x7f800000 == 0x7f800000 || any_not_finite rest

unfoldable pub canonical_bytes : Scalar → ℕ
canonical_bytes (Scalar.bytes value) = length value
canonical_bytes (Scalar.integer value) = length (decimal_i64 value)
canonical_bytes (Scalar.boolean value) = 1

-- `Descriptor::validate`.
unfoldable pub validate_descriptor : Descriptor → Result (Unit {0}) MemoryError
validate_descriptor d =
    if not (within 1 4096 d.dimension)
    then err dimension
    else and_then (bounded d.provider 1 256) (λ _.
      and_then (bounded d.model 1 256)
        (λ _. and_then (bounded d.revision 1 256) (λ _. bounded d.transform 1 256)))

abbrev scalar_bounded : Scalar → Result (Unit {0}) MemoryError
scalar_bounded (Scalar.bytes value) = bounded value 0 4096
scalar_bounded _ = ok tt

abbrev add_sizes : ℕ → ℕ → ℕ → Result ℕ MemoryError
add_sizes aggregate a b =
    ok_or (option_bind (checked_add aggregate a) (λ size. checked_add size b)) argument

abbrev metadata_size : ℕ → List (Bytes × Scalar) → Result ℕ MemoryError
metadata_size aggregate [] = ok aggregate
metadata_size aggregate ((field, scalar) ∷ rest) = and_then (bounded field 1 64) (λ _.
    and_then (scalar_bounded scalar) (λ _.
      and_then (add_sizes aggregate (length field) (canonical_bytes scalar))
        (λ size. metadata_size size rest)))

abbrev provenance_size : ℕ → List (Bytes × Bytes) → Result ℕ MemoryError
provenance_size aggregate [] = ok aggregate
provenance_size aggregate ((field, value) ∷ rest) = and_then (bounded field 1 64) (λ _.
    and_then (bounded value 0 4096) (λ _.
      and_then (add_sizes aggregate (length field) (length value))
        (λ size. provenance_size size rest)))

abbrev expired_deadline : Option ℤ → Bool
expired_deadline none = false
expired_deadline (some at) = leb_ℤ at (pos 0)

-- The checks of `Member::validate` after those of the byte strings.
abbrev validate_content : Member → Descriptor → Result (Unit {0}) MemoryError
validate_content m d =
    if not (length m.vector == d.dimension * 4)
    then err dimension
    else if any_not_finite (coordinates m.vector)
    then err non_finite
    else if expired_deadline m.deadline
    then err deadline
    else if ltb 32 (length m.metadata) || ltb 16 (length m.provenance)
    then err argument
    else and_then (metadata_size 0 m.metadata) (λ size.
      and_then (provenance_size size m.provenance)
        (λ aggregate. (if ltb 32768 aggregate then err argument else ok tt)))

-- `Member::validate`.
unfoldable pub validate_member : Member → Descriptor → Result (Unit {0}) MemoryError
unfolding validate_descriptor bounded canonical_bytes
validate_member m d = and_then (validate_descriptor d) (λ _. and_then (bounded m.id 1 256) (λ _.
    and_then (bounded m.namespace 0 256)
      (λ _. and_then (bounded m.content 0 65536) (λ _. validate_content m d))))

-- The order of byte strings, and `BTreeMap::insert`, which tells whether a value was replaced.
abbrev pub bytes_lt : Bytes → Bytes → Bool
bytes_lt [] [] = false
bytes_lt [] (y ∷ ys) = true
bytes_lt (x ∷ xs) [] = false
bytes_lt (x ∷ xs) (y ∷ ys) = ltb x y || (x == y && bytes_lt xs ys)

abbrev pub insert {ℓ} : {A : Type ℓ} → Bytes → A → List (Bytes × A) → List (Bytes × A) × Bool
insert key value [] = ((key, value) ∷ [], false)
insert key value ((k, v) ∷ rest) =
    let (inserted, replaced) = insert key value rest in
    if bytes_lt key k
    then ((key, value) ∷ ((k, v) ∷ rest), false)
    else if bytes_lt k key
    then ((k, v) ∷ inserted, replaced)
    else ((key, value) ∷ rest, true)
