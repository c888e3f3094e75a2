-- ===== src/Persistence/BodySizes.antt =====
-- persistence/format.rs: a record whose size `encode` computes has a body of that many bytes.
use sider.Prelude.{
  ℕ, ◌+◌, ◌-◌, ◌*◌, ◌^◌, ◌≤◌, ◌<◌, ◌≡◌, refl, ap, inl, inr, false, ◌||◌, Bool-cases, Option, none,
  some, List, [], ◌∷◌, ◌++◌, length, length-append, ltb, ◌==◌, if◌then◌else◌, option_bind, All, ok,
  err, ok_or, arith,
}
use sider.Prelude.Int.{ℤ}
use sider.Prelude.Machine.{checked_add}
use sider.Resp.Frame.{Bytes}
use sider.Storage.Value.{Value}
use sider.Storage.Mutation.{Mutation, put, delete}
use sider.Persistence.Words.{FormatError, le, length-le, written_blob, i64_bits}
use sider.Persistence.Words
use sider.Persistence.Record.{
  Limits, Record, snapshot, seal, batch, Sized, plus, fold_size, value_size, mutation_size,
  extra_size, batch_step, record_size, written_value, written_expiry, value_tag, encode_mutation,
  encode_mutations, encode_body, origin_byte,
}
use sider.Persistence.Sizes.{
  and_then-ok, IsShort, length-written_blob, plus_eq, FitsValue, value_size-FitsValue,
}

abbrev pub FitsMutation : Mutation → Type 0
FitsMutation (put key value expires_at) = IsShort key × FitsValue value
FitsMutation (delete key) = IsShort key

-- A mutation that fits has bytes, `n` of them.
abbrev pub Written : Mutation → ℕ → Type 0
Written m n = (bytes : Bytes) × (encode_mutation m ≡ ok bytes) × (length bytes ≡ n) × FitsMutation m

value_tag-Fits : (v : Value) → FitsValue v → (tag : ℕ) × (value_tag v ≡ ok tag)
value_tag-Fits (Value.memory collection) h = elim h [ ]
value_tag-Fits (Value.string value) h = (1, refl)
value_tag-Fits (Value.sorted_set members) h = (6, refl)
value_tag-Fits (Value.set members) h = (5, refl)
value_tag-Fits (Value.list values) h = (4, refl)
value_tag-Fits (Value.hash fields) h = (3, refl)

length-written_expiry : (e : Option ℤ) → length (written_expiry e) ≡ 9
length-written_expiry none = omega (arith, length-le 8 0)
length-written_expiry (some z) = omega (arith, length-le 8 (i64_bits z))

keyed_eq :
    (key : Bytes) (extra n : ℕ) (o : Option ℕ)
    → (if ltb (2 ^ 32 - 1) (length key)
        then err Words.limit
        else ok_or
            (option_bind (checked_add (length key) 5) (λ size. option_bind o (checked_add size)))
            Words.limit)
      ≡ ok n
    → (k : ℕ) × (o ≡ some k) × (n ≡ length key + 5 + k) × IsShort key
keyed_eq key extra n none h = absurd (ground arith)
keyed_eq key extra n (some k) h = (k, refl, ground arith, ground arith)

pub mutation_size-Written : (m : Mutation) (n : ℕ) → mutation_size m ≡ ok n → Written m n
unfolding mutation_size encode_mutation
mutation_size-Written (delete key) n h =
    let (k, is, eq, short) = keyed_eq key 0 n (some 0) h in
    (2 ∷ written_blob key, refl, omega (arith, length-written_blob key, eq, ap or_zero is), short)
  where
    or_zero : Option ℕ → ℕ
    or_zero none = 0
    or_zero (some a) = a
mutation_size-Written (put key value expires_at) n h =
    let (extra, sized, keyed) =
      and_then-ok (extra_size (put key value expires_at))
        (λ (extra : Option ℕ).
          if ltb (2 ^ 32 - 1) (length key)
          then err Words.limit
          else ok_or
              (option_bind (checked_add (length key) 5)
                (λ size. option_bind extra (checked_add size)))
              Words.limit)
        h in
    let (v, whole, nine) = and_then-ok (value_size value) (λ n. ok (checked_add n 9)) sized in
    let (k, is, eq, short) = keyed_eq key 0 n extra keyed in
    let (length_eq, fits) = value_size-FitsValue value v whole in
    let (tag, tagged) = value_tag-Fits value fits in
    let sum : k ≡ v + 9 = ground (arith, nine, is) in
    (
      tag ∷ (written_blob key ++ (written_value value ++ written_expiry expires_at)),
      rw tagged,
      omega (
        arith,
        eq,
        sum,
        length_eq,
        length-written_blob key,
        length-append (written_blob key) (written_value value ++ written_expiry expires_at),
        length-append (written_value value) (written_expiry expires_at),
        length-written_expiry expires_at,
      ),
      (short, fits),
    )

pub FitsMutation-least :
    (m : Mutation) (bytes : Bytes) → encode_mutation m ≡ ok bytes → 5 ≤ length bytes
unfolding encode_mutation
FitsMutation-least (delete key) bytes h = ground (arith, length-written_blob key)
FitsMutation-least (put key value expires_at) bytes h =
    let (tag, tagged, eq) =
      and_then-ok (value_tag value)
        (λ tag. ok (tag ∷ (written_blob key ++ (written_value value ++ written_expiry expires_at))))
        h in
    ground (
      arith,
      eq,
      length-written_blob key,
      length-append (written_blob key) (written_value value ++ written_expiry expires_at),
    )

batch_step_eq :
    (size : ℕ) (m : Mutation) (n : ℕ)
    → batch_step size m ≡ ok n
    → (k : ℕ) × (mutation_size m ≡ ok k) × (n ≡ size + k)
batch_step_eq size m n h = split (mutation_size m) refl h
  where
    split :
        (s : Sized)
        → mutation_size m ≡ s
        → elim s [ ok n ↦ plus size n | err e ↦ err Words.limit ] ≡ ok n
        → (k : ℕ) × (mutation_size m ≡ ok k) × (n ≡ size + k)
    split (ok k) e p = (k, e, plus_eq size k n p)
    split (err e') e p = cc

-- The mutations of a batch have bytes, and their number is what the sizes add up to.
fold_size-Written :
    (size : ℕ) (ms : List Mutation) (n : ℕ)
    → fold_size batch_step size ms ≡ ok n
    → (bytes : Bytes) × (encode_mutations ms ≡ ok bytes)
      × (n ≡ size + length bytes)
      × (5 * length ms ≤ length bytes)
      × All FitsMutation ms
unfolding fold_size encode_mutations
fold_size-Written size [] n h = ([], refl, ground arith, omega arith, tt)
fold_size-Written size (m ∷ ms) n h =
    let (k, one, more) = and_then-ok (batch_step size m) (λ n. fold_size batch_step n ms) h in
    let (l, sized, sum) = batch_step_eq size m k one in
    let (bytes, written, len, fits) = mutation_size-Written m l sized in
    let (rest, wrote, total, least, all) = fold_size-Written k ms n more in
    (
      bytes ++ rest,
      rw (written, wrote),
      omega (arith, sum, len, total, length-append bytes rest),
      omega (arith, least, length-append bytes rest, len, FitsMutation-least m bytes written),
      (fits, all),
    )

abbrev pub FitsRecord : Limits → Record → Type 0
FitsRecord limits (snapshot m) = FitsMutation m
FitsRecord limits (seal sequence entries digest) = Unit {0}
FitsRecord limits (batch sequence b) =
    (0 < length b.mutations)
    × (length b.mutations ≤ limits.max_mutations)
    × (length b.mutations < 2 ^ 32)
    × All FitsMutation b.mutations

-- A record whose size is computed has a body of that size, and its lengths fit.
pub record_size-Written :
    (limits : Limits) (r : Record) (n : ℕ)
    → record_size limits r ≡ ok n
    → (body : Bytes) × (encode_body r ≡ ok body) × (length body ≡ n) × (0 < n) × FitsRecord limits r
unfolding record_size encode_body
record_size-Written limits (snapshot m) n h =
    let (k, sized, sum) = and_then-ok (mutation_size m) (plus 1) h in
    let (bytes, written, len, fits) = mutation_size-Written m k sized in
    let eq = plus_eq 1 k n sum in
    (1 ∷ bytes, rw written, omega (arith, len, eq), omega (arith, eq), fits)
record_size-Written limits (seal sequence entries digest) n h = (
  2 ∷ (le 8 sequence ++ (le 8 entries ++ le 4 digest)),
  refl,
  ground (
    arith,
    length-append (le 8 sequence) (le 8 entries ++ le 4 digest),
    length-append (le 8 entries) (le 4 digest),
    length-le 8 sequence,
    length-le 8 entries,
    length-le 4 digest,
  ),
  ground arith,
  tt,
)
record_size-Written limits (batch sequence b) n h =
    let (good, sized) = fits_count h in
    let (bytes, written, total, least, all) = fold_size-Written 14 b.mutations n sized in
    (
      3 ∷ (le 8 sequence ++ (origin_byte b.origin ∷ (le 4 (length b.mutations) ++ bytes))),
      rw written,
      omega (
        arith,
        total,
        length-append (le 8 sequence) (origin_byte b.origin ∷ (le 4 (length b.mutations) ++ bytes)),
        length-append (le 4 (length b.mutations)) bytes,
        length-le 8 sequence,
        length-le 4 (length b.mutations),
      ),
      omega (arith, total),
      (ground (arith, good), ground (arith, good), ground (arith, good), all),
    )
  where
    never : ◌≡◌ {A = Sized} (err Words.limit) (ok n) → ⊥
    never q = cc

    fits_count :
        record_size limits (batch sequence b) ≡ ok n
        → ((length b.mutations == 0
              || (ltb limits.max_mutations (length b.mutations)
                  || ltb (2 ^ 32 - 1) (length b.mutations)))
            ≡ false)
          × (fold_size batch_step 14 b.mutations ≡ ok n)
    fits_count p =
        elim (Bool-cases (
          length b.mutations == 0
          || (ltb limits.max_mutations (length b.mutations)
              || ltb (2 ^ 32 - 1) (length b.mutations)))) [
                | inl bad ↦ absurd (never (rw bad at p))
                | inr good ↦ (good, rw good at p)
              ]
