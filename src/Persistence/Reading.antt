-- ===== src/Persistence/Reading.antt =====
-- persistence/format.rs: reading a record. An input is the bytes that are left of it; reading does not
-- fail otherwise than by its end.
use sider.Prelude.{
  ℕ, zero, suc, ◌/◌, ◌%◌, ◌^◌, Bool, true, false, ◌||◌, ◌&&◌, Option, none, some, List, [], ◌∷◌,
  ◌++◌, length, take, drop, leb, ltb, ◌==◌, if◌then◌else◌, Result, ok, err, and_then, not, bytes_eq,
  set_insert,
}
use sider.Prelude.Int.{ℤ}
use sider.Resp.Frame.{Bytes}
use sider.Command.Types.{Score}
use sider.Storage.Member.{bytes_lt}
use sider.Storage.Value.{Value}
use sider.Storage.Mutation.{Mutation, MutationOrigin, put, delete}
use sider.Persistence.Words.{
  FormatError, corrupt, from_le, Reader, ◌>>=◌, return, fail, take_bytes, byte, word, blob,
  i64_value,
}
use sider.Persistence.Words
use sider.Persistence.Record.{
  Limits, Record, snapshot, seal, batch, checksum, not32, max_record_bytes,
}

abbrev pub field_lt : Bytes × Bytes → Bytes × Bytes → Bool
field_lt a b = bytes_lt a.0 b.0

-- `Score::new`: no NaN, and one zero.
abbrev pub is_nan : ℕ → Bool
is_nan bits = ltb 0x7ff0000000000000 (bits % 2 ^ 63)

unfoldable pub score_new : ℕ → Option Score
score_new bits =
    if is_nan bits then none else some (record { bits = if bits % 2 ^ 63 == 0 then 0 else bits })

-- `total_cmp` on the bits: the negative numbers descend.
abbrev pub score_lt : Score → Score → Bool
score_lt a b =
    if ltb a.bits (2 ^ 63)
    then ltb b.bits (2 ^ 63) && ltb a.bits b.bits
    else ltb b.bits (2 ^ 63) || ltb b.bits a.bits

abbrev pub scored_lt : Score × Bytes → Score × Bytes → Bool
scored_lt a b = score_lt a.0 b.0 || (a.0.bits == b.0.bits && bytes_lt a.1 b.1)

unfoldable pub has_member : Bytes → List (Score × Bytes) → Bool
has_member member [] = false
has_member member (x ∷ xs) = let rest = has_member member xs in bytes_eq x.1 member || rest

-- `SortedSet::set_insert` where a member that is there is an error: its score is then of no account.
unfoldable pub insert_scored : Score × Bytes → List (Score × Bytes) → List (Score × Bytes) × Bool
insert_scored x xs =
    if has_member x.1 xs then (xs, false) else ((set_insert scored_lt x xs).0, true)

unfoldable pub push_back : {A : Type 0} → A → List A → List A × Bool
push_back x xs = (xs ++ (x ∷ []), true)

abbrev pub if_new :
    {A : Type 0} → FormatError → List A × Bool → (List A → Reader (List A)) → Reader (List A)
if_new e (xs, true) k = k xs
if_new e (xs, false) k = fail e

-- The loop over a count of elements.
unfoldable pub read_elements :
    {A : Type 0}
    → Reader A
    → (A → List A → List A × Bool)
    → FormatError
    → ℕ
    → List A
    → Reader (List A)
read_elements read add e zero xs = return xs
read_elements read add e (suc n) xs =
    read >>= (λ x. if_new e (add x xs) (λ ys. read_elements read add e n ys))

-- The count, which the bytes that are left must be able to hold.
abbrev pub counted : {A : Type 0} → ℕ → FormatError → (ℕ → Reader A) → Reader A
counted least e k = word 4 >>= (λ count bytes.
    (if count == 0 || ltb (length bytes / least) count then fail e else k count) bytes)

abbrev pub some_score : Option Score → Reader Score
some_score none = fail (corrupt "score NaN")
some_score (some score) = return score

abbrev pub read_score : Reader Score
read_score = word 8 >>= (λ bits. some_score (score_new bits))

unfoldable pub read_scored : Reader (Score × Bytes)
read_scored = blob >>= (λ member. read_score >>= (λ score. return (score, member)))

unfoldable pub read_field : Reader (Bytes × Bytes)
read_field = blob >>= (λ field. blob >>= (λ value. return (field, value)))

abbrev pub read_sorted_set : Reader Value
read_sorted_set =
    counted 12 (corrupt "sorted member count")
      (λ n. read_elements read_scored insert_scored (corrupt "duplicate sorted-set member") n [])
    >>= (λ members. return (Value.sorted_set members))

abbrev pub read_set : Reader Value
read_set =
    counted 4 (corrupt "member count")
      (λ n. read_elements blob (set_insert bytes_lt) (corrupt "duplicate member") n [])
    >>= (λ members. return (Value.set members))

abbrev pub read_list : Reader Value
read_list =
    counted 4 (corrupt "element count")
      (λ n. read_elements blob push_back (corrupt "duplicate member") n [])
    >>= (λ values. return (Value.list values))

abbrev pub read_hash : Reader Value
read_hash =
    counted 8 (corrupt "field count")
      (λ n. read_elements read_field (set_insert field_lt) (corrupt "duplicate field") n [])
    >>= (λ fields. return (Value.hash fields))

unfoldable pub read_value : ℕ → Reader Value
read_value tag =
    if tag == 1
    then blob >>= (λ value. return (Value.string value))
    else if tag == 6
    then read_sorted_set
    else if tag == 5
    then read_set
    else if tag == 4
    then read_list
    else read_hash

abbrev expiry_of : ℕ → ℕ → Reader (Option ℤ)
expiry_of flag bits =
    if flag == 0 && bits == 0
    then return none
    else if flag == 1
    then return (some (i64_value bits))
    else fail (corrupt "deadline")

unfoldable pub read_expiry : Reader (Option ℤ)
read_expiry = byte >>= (λ flag. word 8 >>= expiry_of flag)

unfoldable pub read_mutation : Reader Mutation
read_mutation = byte >>= (λ tag. blob >>= (λ key.
    if tag == 1 || (leb 3 tag && leb tag 6)
    then read_value tag >>= (λ value. read_expiry >>= (λ expiry. return (put key value expiry)))
    else if tag == 2
    then return (delete key)
    else fail (corrupt "mutation type")))

unfoldable pub read_mutations : ℕ → Reader (List Mutation)
read_mutations zero = return []
read_mutations (suc n) =
    read_mutation >>= (λ mutation. read_mutations n >>= (λ rest. return (mutation ∷ rest)))

abbrev pub origin_of : ℕ → Reader MutationOrigin
origin_of tag =
    if tag == 1
    then return MutationOrigin.client
    else if tag == 2
    then return MutationOrigin.expiration
    else fail (corrupt "source")

unfoldable pub read_batch : Limits → Reader Record
read_batch limits = word 8 >>= (λ sequence. byte >>= (λ tag. origin_of tag >>= (λ origin.
    word 4 >>= (λ count bytes.
      (if count == 0 || (ltb limits.max_mutations count || ltb (length bytes / 5) count)
          then fail Words.limit
          else read_mutations count >>= (λ mutations.
            return (batch sequence (record { origin = origin; mutations = mutations }))))
        bytes))))

unfoldable pub read_seal : Reader Record
read_seal = word 8 >>= (λ sequence.
    word 8 >>= (λ entries. word 4 >>= (λ digest. return (seal sequence entries digest))))

unfoldable pub read_body : Limits → Reader Record
read_body limits = byte >>= (λ tag.
    if tag == 1
    then read_mutation >>= (λ mutation. return (snapshot mutation))
    else if tag == 2
    then read_seal
    else if tag == 3
    then read_batch limits
    else fail (corrupt "record type"))

abbrev pub all_read : Result (Record × Bytes) FormatError → Result Record FormatError
all_read (err e) = err e
all_read (ok (r, [])) = ok r
all_read (ok (r, b ∷ bytes)) = err (corrupt "bytes extras")

unfoldable pub decode : Bytes → Limits → Result Record FormatError
decode bytes limits = all_read (read_body limits bytes)

pub data Next : Type 0 where
  end incomplete_tail : Next
  next : Record → Next

abbrev pub number_at : ℕ → Bytes → ℕ
number_at offset bytes = from_le (take 4 (drop offset bytes))

-- The record after its prefix, and what is left of the input.
abbrev pub read_framed : Limits → Bytes → Bytes → Result (Next × Bytes) FormatError
read_framed limits prefix bytes =
    let size = number_at 0 prefix in
    if not (not32 size == number_at 4 prefix)
    then err (corrupt "length")
    else if size == 0 || (ltb limits.max_record size || ltb max_record_bytes size)
    then err Words.limit
    else if ltb (length bytes) size
    then ok (incomplete_tail, [])
    else if not (checksum (take size bytes) == number_at 8 prefix)
    then err (corrupt "checksum")
    else and_then (decode (take size bytes) limits) (λ r. ok (next r, drop size bytes))

unfoldable pub read_record : Bytes → Limits → Result (Next × Bytes) FormatError
read_record [] limits = ok (end, [])
read_record (b ∷ bytes) limits =
    if ltb (length bytes) 11
    then ok (incomplete_tail, [])
    else read_framed limits (b ∷ take 11 bytes) (drop 11 bytes)
