-- ===== src/Persistence/Record.antt =====
-- persistence/format.rs: the records of the log, their sizes and their bytes.
use Prim.Native.Nat.{bit_xor, bit_and}
use sider.Prelude.{
  ℕ, zero, suc, ◌-◌, ◌*◌, ◌/◌, ◌^◌, ◌||◌, Option, none, some, List, [], ◌∷◌, ◌++◌, length, ltb,
  ◌==◌, if◌then◌else◌, option_bind, Result, ok, err, and_then, ok_or,
}
use sider.Prelude.Int.{ℤ}
use sider.Prelude.Machine.{checked_add}
use sider.Resp.Frame.{Bytes}
use sider.Command.Types.{Score}
use sider.Storage.Value.{Value}
use sider.Storage.Mutation.{Mutation, MutationOrigin, ResolvedBatch, put, delete, key_of}
use sider.Persistence.Words.{FormatError, version, corrupt, le, i64_bits, written_blob}
use sider.Persistence.Words

abbrev pub max_record_bytes : ℕ
max_record_bytes = 64 * 1024 * 1024

pub record Limits : Type 0 where
  pub max_record : ℕ
  pub max_mutations : ℕ

pub data Record : Type 0 where
  snapshot : Mutation → Record
  seal : ℕ → ℕ → ℕ → Record
  batch : ℕ → ResolvedBatch → Record

-- One bit of the table of the checksum, and the entry of an index.
abbrev crc_bit : ℕ → ℕ
crc_bit crc = if bit_and crc 1 == 0 then crc / 2 else bit_xor (crc / 2) 0xedb88320

abbrev crc_bits : ℕ → ℕ → ℕ
crc_bits zero crc = crc
crc_bits (suc n) crc = crc_bits n (crc_bit crc)

unfoldable pub table : ℕ → ℕ
table index = crc_bits 8 index

unfoldable pub checksum_from : ℕ → Bytes → ℕ
checksum_from crc [] = crc
checksum_from crc (b ∷ bytes) =
    checksum_from (bit_xor (table (bit_and (bit_xor crc b) 255)) (crc / 256)) bytes

-- `!n` of a `u32`.
abbrev pub not32 : ℕ → ℕ
not32 n = 2 ^ 32 - 1 - n

unfoldable pub checksum : Bytes → ℕ
checksum bytes = not32 (checksum_from (2 ^ 32 - 1) bytes)

-- `snapshot_digest`.
unfoldable pub snapshot_digest : ℕ → Bytes → ℕ
snapshot_digest previous encoded = checksum (le 4 previous ++ le 4 (checksum encoded))

abbrev pub Sized : Type 0
Sized = Result ℕ FormatError

-- `.checked_add(..).ok_or(FormatError::Limit)`.
abbrev pub plus : ℕ → ℕ → Sized
plus a b = ok_or (checked_add a b) Words.limit

unfoldable pub blob_size : Bytes → Sized
blob_size value = if ltb (2 ^ 32 - 1) (length value) then err Words.limit else plus (length value) 4

abbrev pub scored_size : ℕ → Score × Bytes → Sized
scored_size size member =
    and_then (blob_size member.1) (λ n. and_then (plus size n) (λ m. plus m 8))

abbrev pub element_size : ℕ → Bytes → Sized
element_size size element = and_then (blob_size element) (plus size)

abbrev pub field_size : ℕ → Bytes × Bytes → Sized
field_size size field =
    and_then (blob_size field.0)
      (λ n. and_then (plus size n) (λ m. and_then (blob_size field.1) (plus m)))

-- `try_fold`.
unfoldable pub fold_size : {A : Type 0} → (ℕ → A → Sized) → ℕ → List A → Sized
fold_size step size [] = ok size
fold_size step size (x ∷ xs) = and_then (step size x) (λ n. fold_size step n xs)

-- The check of a count, and the size of the elements after the count.
abbrev pub counted_size : {A : Type 0} → FormatError → (ℕ → A → Sized) → List A → Sized
counted_size e step xs =
    if length xs == 0 || ltb (2 ^ 32 - 1) (length xs) then err e else fold_size step 4 xs

unfoldable pub value_size : Value → Sized
value_size (Value.memory collection) = err (version 2)
value_size (Value.string value) = blob_size value
value_size (Value.sorted_set members) =
    counted_size (corrupt "sorted member count") scored_size members
value_size (Value.set members) = counted_size (corrupt "member count") element_size members
value_size (Value.list values) = counted_size (corrupt "element count") element_size values
value_size (Value.hash fields) = counted_size (corrupt "field count") field_size fields

abbrev pub extra_size : Mutation → Result (Option ℕ) FormatError
extra_size (put key value expires_at) = and_then (value_size value) (λ n. ok (checked_add n 9))
extra_size (delete key) = ok (some 0)

unfoldable pub mutation_size : Mutation → Sized
mutation_size mutation = and_then (extra_size mutation) (λ extra.
    if ltb (2 ^ 32 - 1) (length (key_of mutation))
    then err Words.limit
    else ok_or
        (option_bind (checked_add (length (key_of mutation)) 5)
          (λ size. option_bind extra (checked_add size)))
        Words.limit)

-- The bytes of the elements after their count, `out` being those that stand before.
unfoldable pub written_all : {A : Type 0} → (A → Bytes) → List A → Bytes
written_all write [] = []
written_all write (x ∷ xs) = write x ++ written_all write xs

abbrev pub written_scored : Score × Bytes → Bytes
written_scored member = written_blob member.1 ++ le 8 member.0.bits

abbrev pub written_field : Bytes × Bytes → Bytes
written_field field = written_blob field.0 ++ written_blob field.1

abbrev pub written_counted : {A : Type 0} → (A → Bytes) → List A → Bytes
written_counted write xs = le 4 (length xs) ++ written_all write xs

unfoldable pub written_value : Value → Bytes
written_value (Value.memory collection) = []
written_value (Value.string value) = written_blob value
written_value (Value.sorted_set members) = written_counted written_scored members
written_value (Value.set members) = written_counted written_blob members
written_value (Value.list values) = written_counted written_blob values
written_value (Value.hash fields) = written_counted written_field fields

abbrev pub written_expiry : Option ℤ → Bytes
written_expiry none = 0 ∷ le 8 0
written_expiry (some deadline) = 1 ∷ le 8 (i64_bits deadline)

abbrev pub value_tag : Value → Result ℕ FormatError
value_tag (Value.string value) = ok 1
value_tag (Value.hash fields) = ok 3
value_tag (Value.list values) = ok 4
value_tag (Value.set members) = ok 5
value_tag (Value.sorted_set members) = ok 6
value_tag (Value.memory collection) = err (version 2)

unfoldable pub encode_mutation : Mutation → Result Bytes FormatError
encode_mutation (put key value expires_at) =
    and_then (value_tag value)
      (λ tag. ok (tag ∷ (written_blob key ++ (written_value value ++ written_expiry expires_at))))
encode_mutation (delete key) = ok (2 ∷ written_blob key)

unfoldable pub encode_mutations : List Mutation → Result Bytes FormatError
encode_mutations [] = ok []
encode_mutations (mutation ∷ mutations) =
    and_then (encode_mutation mutation)
      (λ bytes. and_then (encode_mutations mutations) (λ rest. ok (bytes ++ rest)))

-- `size.checked_add(mutation_size(mutation).ok()?)`: every error is a limit.
abbrev pub batch_step : ℕ → Mutation → Sized
batch_step size mutation = elim (mutation_size mutation) [
  | ok n ↦ plus size n
  | err e ↦ err Words.limit
]

unfoldable pub record_size : Limits → Record → Sized
record_size limits (snapshot mutation) = and_then (mutation_size mutation) (plus 1)
record_size limits (seal sequence entries digest) = ok 21
record_size limits (batch sequence b) =
    if length b.mutations == 0
      || (ltb limits.max_mutations (length b.mutations) || ltb (2 ^ 32 - 1) (length b.mutations))
    then err Words.limit
    else fold_size batch_step 14 b.mutations

abbrev pub origin_byte : MutationOrigin → ℕ
origin_byte MutationOrigin.client = 1
origin_byte MutationOrigin.expiration = 2

unfoldable pub encode_body : Record → Result Bytes FormatError
encode_body (snapshot mutation) = and_then (encode_mutation mutation) (λ bytes. ok (1 ∷ bytes))
encode_body (seal sequence entries digest) =
    ok (2 ∷ (le 8 sequence ++ (le 8 entries ++ le 4 digest)))
encode_body (batch sequence b) = and_then (encode_mutations b.mutations) (λ bytes.
    ok (3 ∷ (le 8 sequence ++ (origin_byte b.origin ∷ (le 4 (length b.mutations) ++ bytes)))))

-- The length, its complement and the checksum before the body.
abbrev pub framed : ℕ → Bytes → Bytes
framed size body = le 4 size ++ (le 4 (not32 size) ++ (le 4 (checksum body) ++ body))

unfoldable pub encode : Record → Limits → Result Bytes FormatError
encode r limits = and_then (record_size limits r) (λ size.
    if ltb limits.max_record size || ltb max_record_bytes size
    then err Words.limit
    else and_then (encode_body r) (λ body. ok (framed size body)))
