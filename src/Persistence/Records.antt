-- ===== src/Persistence/Records.antt =====
-- persistence/format.rs: records read back from the log, whole or torn.
use sider.Prelude.{
  ℕ, suc, ◌*◌, ◌/◌, ◌^◌, ◌≤◌, ◌<◌, ◌≡◌, refl, ap, sym, ◌∙◌, true, false, ◌||◌, ◌&&◌, Option, List,
  [], ◌∷◌, ◌++◌, length, length-append, append-nil, ltb, leb, ◌==◌, All, Result, ok, and_then,
  arith,
}
use mathlib.Core.Path.{subst}
use sider.Prelude.Int.{ℤ}
use sider.Resp.Frame.{Bytes}
use sider.Storage.Value.{Value}
use sider.Storage.Mutation.{Mutation, MutationOrigin, ResolvedBatch, put, delete}
use sider.Persistence.Words.{
  FormatError, le, word, blob, byte, Reads, word-Reads, blob-Reads, written_blob,
}
use sider.Persistence.Record.{
  Limits, Record, snapshot, seal, batch, written_value, written_expiry, value_tag, encode_mutation,
  encode_mutations, encode_body, origin_byte,
}
use sider.Persistence.Sizes.{and_then-ok, IsShort}
use sider.Persistence.BodySizes.{FitsMutation, FitsRecord, FitsMutation-least}
use sider.Persistence.Reading.{
  read_value, read_mutation, read_mutations, read_batch, read_seal, read_body, decode, all_read,
  origin_of,
}
use sider.Persistence.Elements.{bind-Reads}
use sider.Persistence.RoundTrip.{IsValue, IsExpiry, value-Reads, expiry-Reads}

abbrev pub IsMutation : Mutation → Type 0
IsMutation (put key value expires_at) = IsValue value × IsExpiry expires_at
IsMutation (delete key) = Unit {0}

-- A record such as the types of the source admit.
abbrev pub IsRecord : Record → Type 0
IsRecord (snapshot m) = IsMutation m
IsRecord (seal sequence entries digest) =
    (sequence < 2 ^ 64) × (entries < 2 ^ 64) × (digest < 2 ^ 32)
IsRecord (batch sequence b) = (sequence < 2 ^ 64) × All IsMutation b.mutations

tag_is_put :
    (v : Value) (tag : ℕ) → value_tag v ≡ ok tag → (tag == 1 || (leb 3 tag && leb tag 6)) ≡ true
tag_is_put (Value.string value) tag h = ground (arith, h)
tag_is_put (Value.hash fields) tag h = ground (arith, h)
tag_is_put (Value.list values) tag h = ground (arith, h)
tag_is_put (Value.set members) tag h = ground (arith, h)
tag_is_put (Value.sorted_set members) tag h = ground (arith, h)
tag_is_put (Value.memory collection) tag h = cc

put-Reads :
    (key : Bytes) (value : Value) (e : Option ℤ) (tag : ℕ)
    → value_tag value ≡ ok tag
    → FitsMutation (put key value e)
    → IsMutation (put key value e)
    → Reads read_mutation
        (tag ∷ (written_blob key ++ (written_value value ++ written_expiry e)))
        (put key value e)
unfolding read_mutation byte
put-Reads key value e tag tagged (short, fits) (is, expiry) =
    bind-Reads blob _ (written_blob key) (written_value value ++ written_expiry e) key
      (put key value e) (blob-Reads key short)
      (λ rest. rw (tag_is_put value tag tagged) (
        bind-Reads (read_value tag) _ (written_value value) (written_expiry e) value
          (put key value e) (value-Reads value tag fits is tagged)
          (λ rest. rw (expiry-Reads e expiry rest) refl) rest))

delete-Reads : (key : Bytes) → IsShort key → Reads read_mutation (2 ∷ written_blob key) (delete key)
unfolding read_mutation byte
delete-Reads key short rest = rw (blob-Reads key short rest) refl

pub written_eq : (a b : Bytes) → ◌≡◌ {A = Result Bytes FormatError} (ok a) (ok b) → a ≡ b
written_eq a b h = cc

mutation-Reads :
    (m : Mutation) (bytes : Bytes)
    → encode_mutation m ≡ ok bytes
    → FitsMutation m
    → IsMutation m
    → Reads read_mutation bytes m
unfolding encode_mutation
mutation-Reads (put key value e) bytes h fits is =
    let (tag, tagged, eq) =
      and_then-ok (value_tag value)
        (λ tag. ok (tag ∷ (written_blob key ++ (written_value value ++ written_expiry e)))) h in
    subst (λ (b : Bytes). Reads read_mutation b (put key value e)) (written_eq _ bytes eq)
      (put-Reads key value e tag tagged fits is)
mutation-Reads (delete key) bytes h fits is =
    subst (λ (b : Bytes). Reads read_mutation b (delete key)) (written_eq _ bytes h)
      (delete-Reads key fits)

mutations-Reads :
    (ms : List Mutation) (bytes : Bytes)
    → encode_mutations ms ≡ ok bytes
    → All FitsMutation ms
    → All IsMutation ms
    → Reads (read_mutations (length ms)) bytes ms × (5 * length ms ≤ length bytes)
unfolding encode_mutations read_mutations
mutations-Reads [] bytes h fits is =
    subst (λ (b : Bytes). Reads (read_mutations 0) b [] × (0 ≤ length b)) (written_eq [] bytes h)
      (λ rest. refl, omega arith)
mutations-Reads (m ∷ ms) bytes h (fit, fits) (own, is) =
    let (one, wrote, more) =
      and_then-ok (encode_mutation m)
        (λ bytes. and_then (encode_mutations ms) (λ rest. ok (bytes ++ rest))) h in
    let (later, written, eq) = and_then-ok (encode_mutations ms) (λ rest. ok (one ++ rest)) more in
    let (reads, least) = mutations-Reads ms later written fits is in
    let all : one ++ later ≡ bytes = written_eq (one ++ later) bytes eq in
    (
      subst (λ (b : Bytes). Reads (read_mutations (suc (length ms))) b (m ∷ ms)) all
          (bind-Reads read_mutation _ one later m (m ∷ ms) (mutation-Reads m one wrote fit own)
            (λ rest. rw (reads rest) refl)),
      omega (arith, least, FitsMutation-least m one wrote, ap length all, length-append one later),
    )

origin_lem :
    (b : ResolvedBatch) (w : Bytes) → (origin_of (origin_byte b.origin) w ≡ ok (b.origin, w))
origin_lem b w = by_origin b.origin
  where
    by_origin : (o : MutationOrigin) → origin_of (origin_byte o) w ≡ ok (o, w)
    by_origin MutationOrigin.client = refl
    by_origin MutationOrigin.expiration = refl

batch-Reads :
    (limits : Limits) (sequence : ℕ) (b : ResolvedBatch) (bytes : Bytes)
    → encode_mutations b.mutations ≡ ok bytes
    → FitsRecord limits (batch sequence b)
    → IsRecord (batch sequence b)
    → Reads
        (read_batch limits)
        (le 8 sequence ++ (origin_byte b.origin ∷ (le 4 (length b.mutations) ++ bytes)))
        (batch sequence b)
unfolding read_batch byte
batch-Reads limits sequence b bytes wrote (pos, most, small, fits) (narrow, is) =
    let (reads, least) = mutations-Reads b.mutations bytes wrote fits is in
    let count = length b.mutations in
    bind-Reads (word 8) _ (le 8 sequence) (origin_byte b.origin ∷ (le 4 count ++ bytes)) sequence
      (batch sequence b) (word-Reads 8 sequence (omega (arith, narrow)))
      (λ rest. rw (origin_lem b ((le 4 count ++ bytes) ++ rest)) (
        bind-Reads (word 4) _ (le 4 count) bytes count (batch sequence b)
          (word-Reads 4 count (omega (arith, small)))
          (λ rest.
            let room : (count == 0
                  || (ltb limits.max_mutations count || ltb (length (bytes ++ rest) / 5) count))
                ≡ false =
              ground (arith, pos, most, least, length-append bytes rest) in
            rw (room, reads rest) refl)
          rest))

seal-Reads :
    (sequence entries digest : ℕ)
    → IsRecord (seal sequence entries digest)
    → Reads read_seal
        (le 8 sequence ++ (le 8 entries ++ le 4 digest))
        (seal sequence entries digest)
unfolding read_seal
seal-Reads sequence entries digest (s, e, d) =
    bind-Reads (word 8) _ (le 8 sequence) (le 8 entries ++ le 4 digest) sequence
      (seal sequence entries digest) (word-Reads 8 sequence (omega (arith, s)))
      (bind-Reads (word 8) _ (le 8 entries) (le 4 digest) entries (seal sequence entries digest)
        (word-Reads 8 entries (omega (arith, e)))
        (λ rest. rw (word-Reads 4 digest (omega (arith, d)) rest) refl))

body-Reads :
    (limits : Limits) (r : Record) (body : Bytes)
    → encode_body r ≡ ok body
    → FitsRecord limits r
    → IsRecord r
    → Reads (read_body limits) body r
unfolding encode_body read_body byte
body-Reads limits (snapshot m) body h fits is =
    let (bytes, wrote, eq) = and_then-ok (encode_mutation m) (λ bytes. ok (1 ∷ bytes)) h in
    subst (λ (b : Bytes). Reads (read_body limits) b (snapshot m)) (written_eq _ body eq)
      (λ rest. rw (mutation-Reads m bytes wrote fits is rest) refl)
body-Reads limits (seal sequence entries digest) body h fits is =
    subst (λ (b : Bytes). Reads (read_body limits) b (seal sequence entries digest))
      (written_eq _ body h) (seal-Reads sequence entries digest is)
body-Reads limits (batch sequence b) body h fits is =
    let (bytes, wrote, eq) =
      and_then-ok (encode_mutations b.mutations)
        (λ bytes.
          ok (3 ∷ (le 8 sequence ++ (origin_byte b.origin ∷ (le 4 (length b.mutations) ++ bytes)))))
        h in
    subst (λ (w : Bytes). Reads (read_body limits) w (batch sequence b)) (written_eq _ body eq)
      (batch-Reads limits sequence b bytes wrote fits is)

-- The body of a record, and nothing after it, is decoded to the record.
pub decode-body :
    (limits : Limits) (r : Record) (body : Bytes)
    → encode_body r ≡ ok body
    → FitsRecord limits r
    → IsRecord r
    → decode body limits ≡ ok r
unfolding decode
decode-body limits r body h fits is =
    ap all_read
      (ap (read_body limits) (sym (append-nil body)) ∙ body-Reads limits r body h fits is [])
