-- ===== src/Persistence/Framing.antt =====
-- persistence/format.rs: records in a log, whole and torn.
use sider.Prelude.{
  ℕ, zero, suc, ◌+◌, ◌-◌, ◌^◌, ◌≤◌, ◌<◌, ◌≡◌, refl, ap, sym, ◌∙◌, inl, inr, true, false, ◌||◌,
  Bool-cases, [], ◌∷◌, ◌++◌, length, length-append, take, drop, length-take, take-append_self,
  drop-append_self, ltb, ◌==◌, ==_iff, if◌then◌else◌, Result, ok, err, and_then, arith, ltb→lt,
}
use sider.Resp.Frame.{Bytes}
use sider.Persistence.Words.{FormatError, corrupt, from_le, from_le-le, le, length-le}
use sider.Persistence.Words
use sider.Persistence.Record.{
  Limits, Record, encode, encode_body, record_size, framed, checksum, not32, max_record_bytes,
}
use sider.Persistence.Sizes.{and_then-ok}
use sider.Persistence.BodySizes.{FitsRecord, record_size-Written}
use sider.Persistence.Reading.{next, end, incomplete_tail, number_at, read_framed, read_record}
use sider.Persistence.Records.{IsRecord, decode-body, written_eq}

abbrev prefix_of : ℕ → ℕ → ℕ → Bytes
prefix_of a b c = le 4 a ++ (le 4 b ++ le 4 c)

first_number : (a b c : ℕ) → a < 2 ^ 32 → number_at 0 (prefix_of a b c) ≡ a
unfolding le
first_number a b c h = from_le-le 4 a (omega (arith, h))

second_number : (a b c : ℕ) → b < 2 ^ 32 → number_at 4 (prefix_of a b c) ≡ b
unfolding le
second_number a b c h = from_le-le 4 b (omega (arith, h))

third_number : (a b c : ℕ) → c < 2 ^ 32 → number_at 8 (prefix_of a b c) ≡ c
unfolding le
third_number a b c h = from_le-le 4 c (omega (arith, h))

-- Twelve bytes are the prefix of a record.
read_record-prefix :
    (p tail : Bytes) (limits : Limits)
    → length p ≡ 12
    → read_record (p ++ tail) limits ≡ read_framed limits p tail
unfolding read_record
read_record-prefix [] tail limits h = absurd (omega (arith, h))
read_record-prefix (b ∷ p) tail limits h =
    let eleven : length p ≡ 11 = omega (arith, h) in
    let enough : ltb (length (p ++ tail)) 11 ≡ false =
      ground (arith, eleven, length-append p tail) in
    let taken : take 11 (p ++ tail) ≡ p =
      ap (λ (n : ℕ). take n (p ++ tail)) (sym eleven) ∙ take-append_self p tail in
    let dropped : drop 11 (p ++ tail) ≡ tail =
      ap (λ (n : ℕ). drop n (p ++ tail)) (sym eleven) ∙ drop-append_self p tail in
    rw (enough, taken, dropped) refl

-- Fewer bytes are a torn record, or none.
read_record-short :
    (bytes : Bytes) (limits : Limits)
    → length bytes < 12
    → 0 < length bytes
    → read_record bytes limits ≡ ok (incomplete_tail, [])
unfolding read_record
read_record-short [] limits h k = absurd (omega (arith, k))
read_record-short (b ∷ bytes) limits h k =
    let few : ltb (length bytes) 11 ≡ true = ground (arith, h) in rw few refl

-- What `encode` has written.
abbrev Encoded : Limits → Record → Bytes → Type 0
Encoded limits r out =
    (body : Bytes) × (out ≡ framed (length body) body)
    × (0 < length body)
    × (length body ≤ limits.max_record)
    × (length body ≤ max_record_bytes)
    × (encode_body r ≡ ok body)
    × FitsRecord limits r

encode-Encoded :
    (r : Record) (limits : Limits) (out : Bytes) → encode r limits ≡ ok out → Encoded limits r out
unfolding encode
encode-Encoded r limits out h =
    let (n, sized, more) =
      and_then-ok (record_size limits r)
        (λ size.
          if ltb limits.max_record size || ltb max_record_bytes size
          then err Words.limit
          else and_then (encode_body r) (λ body. ok (framed size body)))
        h in
    let (body, wrote, len, pos, fits) = record_size-Written limits r n sized in
    let (small, eq) = allowed n body wrote more in
    (
      body,
      sym eq ∙ ap (λ (k : ℕ). framed k body) (sym len),
      omega (arith, len, pos),
      ground (arith, small, len),
      ground (arith, small, len),
      wrote,
      fits,
    )
  where
    allowed :
        (n : ℕ) (body : Bytes)
        → encode_body r ≡ ok body
        → (if ltb limits.max_record n || ltb max_record_bytes n
            then err Words.limit
            else and_then (encode_body r) (λ body. ok (framed n body)))
          ≡ ok out
        → ((ltb limits.max_record n || ltb max_record_bytes n) ≡ false) × (framed n body ≡ out)
    allowed n body wrote p = elim (Bool-cases (ltb limits.max_record n || ltb max_record_bytes n)) [
      | inl bad ↦ absurd (never (rw bad at p))
      | inr good ↦ (good, written_eq (framed n body) out (rw (good, wrote) at p))
    ]
      where
        never : ◌≡◌ {A = Result Bytes FormatError} (err Words.limit) (ok out) → ⊥
        never q = cc

prefix : Bytes → Bytes
prefix body = prefix_of (length body) (not32 (length body)) (checksum body)

length-prefix : (body : Bytes) → length (prefix body) ≡ 12
unfolding prefix le
length-prefix body = refl

framed_eq : (body rest : Bytes) → framed (length body) body ++ rest ≡ prefix body ++ (body ++ rest)
unfolding prefix le
framed_eq body rest = refl

pub checksum_lt : (bytes : Bytes) → checksum bytes < 2 ^ 32
unfolding checksum
checksum_lt bytes = omega arith

-- A prefix that was written, before a body that is whole.
read_framed-whole :
    (limits : Limits) (r : Record) (body rest : Bytes)
    → 0 < length body
    → length body ≤ limits.max_record
    → length body ≤ max_record_bytes
    → encode_body r ≡ ok body
    → FitsRecord limits r
    → IsRecord r
    → read_framed limits (prefix body) (body ++ rest) ≡ ok (next r, rest)
unfolding prefix
read_framed-whole limits r body rest pos small most wrote fits is =
    let n = length body in
    let size = first_number n (not32 n) (checksum body) (omega (arith, most)) in
    let complement = second_number n (not32 n) (checksum body) (omega arith) in
    let sum = third_number n (not32 n) (checksum body) (checksum_lt body) in
    let same : (not32 n == not32 n) ≡ true = (==_iff _ _).1 refl in
    let sound : (checksum body == checksum body) ≡ true = (==_iff _ _).1 refl in
    let allowed : (n == 0 || (ltb limits.max_record n || ltb max_record_bytes n)) ≡ false =
      ground (arith, pos, small, most) in
    let room : ltb (length (body ++ rest)) n ≡ false = ground (arith, length-append body rest) in
    rw (size, complement, sum)
      (rw
        (
          same,
          allowed,
          room,
          take-append_self body rest,
          drop-append_self body rest,
          sound,
          decode-body limits r body wrote fits is,
        )
        refl)

-- A prefix that was written, before fewer bytes than it announces.
read_framed-torn :
    (limits : Limits) (body tail : Bytes)
    → 0 < length body
    → length body ≤ limits.max_record
    → length body ≤ max_record_bytes
    → length tail < length body
    → read_framed limits (prefix body) tail ≡ ok (incomplete_tail, [])
unfolding prefix
read_framed-torn limits body tail pos small most short =
    let n = length body in
    let size = first_number n (not32 n) (checksum body) (omega (arith, most)) in
    let complement = second_number n (not32 n) (checksum body) (omega arith) in
    let same : (not32 n == not32 n) ≡ true = (==_iff _ _).1 refl in
    let allowed : (n == 0 || (ltb limits.max_record n || ltb max_record_bytes n)) ≡ false =
      ground (arith, pos, small, most) in
    let missing : ltb (length tail) n ≡ true = ground (arith, short) in
    rw (size, complement) (rw (same, allowed, missing) refl)

-- A record that is encoded, whatever follows it in the log, is read back as itself, and what follows
-- is left: for a record such as the types of the source admit, and the same limits.
pub read_record-encode :
    (r : Record) (limits : Limits) (out rest : Bytes)
    → IsRecord r
    → encode r limits ≡ ok out
    → read_record (out ++ rest) limits ≡ ok (next r, rest)
read_record-encode r limits out rest is h =
    let (body, eq, pos, small, most, wrote, fits) = encode-Encoded r limits out h in
    ap (λ (o : Bytes). read_record (o ++ rest) limits) eq
    ∙ (ap (λ (o : Bytes). read_record o limits) (framed_eq body rest)
        ∙ (read_record-prefix (prefix body) (body ++ rest) limits (length-prefix body)
            ∙ read_framed-whole limits r body rest pos small most wrote fits is))

framed_self : (body : Bytes) → framed (length body) body ≡ prefix body ++ body
unfolding prefix le
framed_self body = refl

take_past : (p tail : Bytes) (n k : ℕ) → n ≡ length p + k → take n (p ++ tail) ≡ p ++ take k tail
take_past [] tail n k h = ap (λ (m : ℕ). take m tail) (omega (arith, h))
take_past (b ∷ p) tail zero k h = absurd (omega (arith, h))
take_past (b ∷ p) tail (suc n) k h =
    ap (λ (l : Bytes). b ∷ l) (take_past p tail n k (omega (arith, h)))

-- A record that was written only in part is never taken for a record: any part of its bytes that is
-- not all of them ends the log if it is empty, and is an incomplete tail otherwise.
pub read_record-torn :
    (r : Record) (limits : Limits) (out : Bytes) (n : ℕ)
    → encode r limits ≡ ok out
    → n < length out
    → read_record (take n out) limits ≡ ok (if n == 0 then end else incomplete_tail, [])
unfolding read_record
read_record-torn r limits out zero h short = refl
read_record-torn r limits out (suc m) h short =
    let (body, eq, pos, small, most, wrote, fits) = encode-Encoded r limits out h in
    let n = suc m in
    let whole : out ≡ prefix body ++ body = eq ∙ framed_self body in
    let len : length out ≡ 12 + length body =
      ap length whole
      ∙ (length-append (prefix body) body ∙ ap (λ (k : ℕ). k + length body) (length-prefix body)) in
    let nonzero : (n == 0) ≡ false = ground arith in
    rw nonzero (elim (Bool-cases (ltb n 12)) [
      | inl few ↦
          read_record-short (take n out) limits (omega (arith, length-take n out, ltb→lt n 12 few))
            (omega (arith, length-take n out, short))
      | inr enough ↦
          ap (λ (o : Bytes). read_record o limits)
            (ap (take n) whole
              ∙ take_past (prefix body) body n (n - 12)
                  (ground (arith, enough, length-prefix body)))
          ∙ (read_record-prefix (prefix body) (take (n - 12) body) limits (length-prefix body)
              ∙ read_framed-torn limits body (take (n - 12) body) pos small most
                  (ground (arith, length-take (n - 12) body, short, len, enough)))
    ])

pub encode-nonempty :
    (r : Record) (limits : Limits) (out : Bytes) → encode r limits ≡ ok out → 0 < length out
encode-nonempty r limits out h =
    let (body, eq, pos, small, most, wrote, fits) = encode-Encoded r limits out h in
    omega (arith, ap length (eq ∙ framed_self body), length-append (prefix body) body, pos)
