-- ===== src/Persistence/HeaderTrip.antt =====
-- persistence/format.rs: headers read back from the log.
use sider.Prelude.{
  ℕ, ◌+◌, ◌-◌, ◌^◌, ◌≤◌, ◌<◌, ◌≡◌, refl, ap, sym, ◌∙◌, true, false, Option, none, some, [], ◌∷◌,
  ◌++◌, length, length-append, append_assoc, append-nil, take, drop, take-append_self,
  drop-append_self, ltb, ◌==◌, ==_iff, Result, ok, err, arith,
}
use sider.Resp.Frame.{Bytes}
use sider.Storage.Routing.{RoutingError}
use sider.Replication.Runtime.{Role}
use sider.Persistence.Words.{FormatError, le, from_le, from_le-le, length-le}
use sider.Persistence.Record.{checksum}
use sider.Persistence.Sizes.{and_then-ok}
use sider.Persistence.Layout.{DurableLayout, ReplicationMetadata, validate}
use sider.Persistence.Framing.{checksum_lt}
use sider.Persistence.Header.{
  write_header_with_replication, written_header, read_header_with_layout, with_checksum,
  layout_head, slice, field, checked_layout, read_known, read_sized, read_version, read_layout,
  read_replication, read_role, role_byte,
}
use sider.Persistence.HeaderFields.{
  head, head_eq, field_format, field_sequence, field_count, field_routing, head_tail, length-head,
  head-append,
}

-- What the header says is in range.
abbrev pub InRange : ℕ → DurableLayout → Type 0
InRange sequence layout =
    (sequence < 2 ^ 64) × (layout.shard_count < 2 ^ 32) × (layout.routing < 2 ^ 32)

ltb-false : (a b : ℕ) → b ≤ a → ltb a b ≡ false
ltb-false a b h = ground arith

read_known_lem :
    (f n s : ℕ) (l : DurableLayout) (replication : Option ReplicationMetadata) (bytes : Bytes)
    → (f == 1) ≡ false
    → checksum (take (n - 4) bytes) ≡ from_le (drop (n - 4) bytes)
    → field 12 8 bytes ≡ s
    → field 20 4 bytes ≡ l.shard_count
    → field 24 4 bytes ≡ l.routing
    → validate l ≡ ok tt
    → read_replication f bytes ≡ ok replication
    → read_known f n bytes
      ≡ ok (record {
        sequence = s;
        layout = l;
        format_version = f;
        bytes = n;
        replication = replication;
      })
read_known_lem f n s l replication bytes later sum sequence count routing valid replicated =
    let sound : (checksum (take (n - 4) bytes) == from_le (drop (n - 4) bytes)) ≡ true =
      (==_iff _ _).1 sum in
    let layout : read_layout f bytes ≡ l =
      rw later (λ i. record { shard_count = count i; routing = routing i }) in
    rw (sound, layout, valid, replicated, sequence) refl

module _ (f n s : ℕ) (l : DurableLayout) (ext : Bytes) (replication : Option ReplicationMetadata)
    (later : (f == 1) ≡ false) (small : f < 2 ^ 32) (len : n ≡ 32 + length ext)
    (range : InRange s l) (valid : validate l ≡ ok tt) where
  header_bytes : Bytes
  header_bytes = with_checksum (head f s l ext)

  length-header_bytes : length header_bytes ≡ n
  unfolding header_bytes
  length-header_bytes = omega (
    arith,
    len,
    length-head f s l ext,
    length-append (head f s l ext) (le 4 (checksum (head f s l ext))),
    length-le 4 (checksum (head f s l ext)),
  )

  read_known-written :
      read_replication f header_bytes ≡ ok replication
      → read_known f n header_bytes
        ≡ ok (record {
          sequence = s;
          layout = l;
          format_version = f;
          bytes = n;
          replication = replication;
        })
  unfolding header_bytes
  read_known-written replicated =
      let body = head f s l ext in
      let crc = le 4 (checksum body) in
      let at : n - 4 ≡ length body = omega (arith, len, length-head f s l ext) in
      let front : take (n - 4) (body ++ crc) ≡ body =
        ap (λ (k : ℕ). take k (body ++ crc)) at ∙ take-append_self body crc in
      let back : drop (n - 4) (body ++ crc) ≡ crc =
        ap (λ (k : ℕ). drop k (body ++ crc)) at ∙ drop-append_self body crc in
      let sum : from_le crc ≡ checksum body =
        from_le-le 4 (checksum body) (omega (arith, checksum_lt body)) in
      let sound : (checksum body == checksum body) ≡ true = (==_iff _ _).1 refl in
      let whole = head-append f s l ext crc in
      let sequence = ap (field 12 8) whole ∙ field_sequence f s l (ext ++ crc) range.0 in
      let count = ap (field 20 4) whole ∙ field_count f s l (ext ++ crc) range.1 in
      let routing = ap (field 24 4) whole ∙ field_routing f s l (ext ++ crc) range.2 in
      read_known_lem f n s l replication (body ++ crc) later
        (ap checksum front ∙ (sym sum ∙ ap from_le (sym back))) sequence count routing valid
        replicated

  read_sized-written :
      (rest : Bytes)
      → read_replication f header_bytes ≡ ok replication
      → read_sized f n (header_bytes ++ rest)
        ≡ ok (
          record {
            sequence = s;
            layout = l;
            format_version = f;
            bytes = n;
            replication = replication;
          },
          rest,
        )
  read_sized-written rest replicated =
      let long : ltb (length (header_bytes ++ rest)) n ≡ false =
        ground (arith, length-append header_bytes rest, length-header_bytes) in
      let front : take n (header_bytes ++ rest) ≡ header_bytes =
        ap (λ (k : ℕ). take k (header_bytes ++ rest)) (sym length-header_bytes)
        ∙ take-append_self header_bytes rest in
      let back : drop n (header_bytes ++ rest) ≡ rest =
        ap (λ (k : ℕ). drop k (header_bytes ++ rest)) (sym length-header_bytes)
        ∙ drop-append_self header_bytes rest in
      rw (long, front, back, read_known-written replicated) refl

  long_enough : (rest : Bytes) → ltb (length (header_bytes ++ rest)) 12 ≡ false
  long_enough rest =
      ltb-false (length (header_bytes ++ rest)) 12
        (omega (arith, length-append header_bytes rest, length-header_bytes, len))

  read_header-written :
      (rest : Bytes)
      → read_replication f header_bytes ≡ ok replication
      → read_version f (header_bytes ++ rest) ≡ read_sized f n (header_bytes ++ rest)
      → read_header_with_layout (header_bytes ++ rest)
        ≡ ok (
          record {
            sequence = s;
            layout = l;
            format_version = f;
            bytes = n;
            replication = replication;
          },
          rest,
        )
  unfolding read_header_with_layout header_bytes
  read_header-written rest replicated known =
      let crc = le 4 (checksum (head f s l ext)) in
      let whole : header_bytes ++ rest ≡ head f s l (ext ++ (crc ++ rest)) =
        ap (λ (b : Bytes). b ++ rest) (head-append f s l ext crc)
        ∙ (head-append f s l (ext ++ crc) rest ∙ ap (head f s l) (append_assoc ext crc rest)) in
      let version = ap (field 8 4) whole ∙ field_format f s l (ext ++ (crc ++ rest)) small in
      let long : ltb (length (header_bytes ++ rest)) 12 ≡ false = long_enough rest in
      rw (long, version) (known ∙ read_sized-written rest replicated)

abbrev pub IsMetadata : Option ReplicationMetadata → Type 0
IsMetadata none = Unit {0}
IsMetadata (some m) = length m.epoch ≡ 16

abbrev format_of : Option ReplicationMetadata → ℕ
format_of none = 2
format_of (some m) = 3

abbrev size_of : Option ReplicationMetadata → ℕ
size_of none = 32
size_of (some m) = 52

ok_bytes : (a b : Bytes) → ◌≡◌ {A = Result Bytes FormatError} (ok a) (ok b) → a ≡ b
ok_bytes a b h = cc

is_valid :
    (l : DurableLayout) (u : Unit {0}) → checked_layout (validate l) ≡ ok u → validate l ≡ ok tt
is_valid l u h = by_result (validate l) h
  where
    by_result : (r : Result (Unit {0}) RoutingError) → checked_layout r ≡ ok u → r ≡ ok tt
    by_result (ok tt) k = refl
    by_result (err e) k = cc

replication_lem :
    (m : ReplicationMetadata) (bytes : Bytes)
    → slice 29 3 bytes ≡ 0 ∷ (0 ∷ (0 ∷ []))
    → field 28 1 bytes ≡ role_byte m.role
    → slice 32 16 bytes ≡ m.epoch
    → read_replication 3 bytes ≡ ok (some m)
replication_lem m bytes reserved tag epoch = rw (reserved, tag, epoch) (by_role m.role)
  where
    by_role :
        (r : Role)
        → read_role (role_byte r) m.epoch ≡ ok (some (record { role = r; epoch = m.epoch }))
    by_role Role.primary = refl
    by_role Role.replica = refl

replicated :
    (s : ℕ) (l : DurableLayout) (m : ReplicationMetadata)
    → length m.epoch ≡ 16
    → read_replication 3 (with_checksum (head 3 s l (role_byte m.role ∷ (0 ∷ (0 ∷ (0 ∷ m.epoch))))))
      ≡ ok (some m)
unfolding from_le
replicated s l m h =
    let ext : Bytes = role_byte m.role ∷ (0 ∷ (0 ∷ (0 ∷ m.epoch))) in
    let crc = le 4 (checksum (head 3 s l ext)) in
    let whole = head-append 3 s l ext crc in
    replication_lem m (head 3 s l ext ++ crc)
      (ap (slice 29 3) whole ∙ ap (take 3) (head_tail 3 s l (ext ++ crc) 29 1 refl))
      (ap (field 28 1) whole
        ∙ (ap (λ (b : Bytes). from_le (take 1 b)) (head_tail 3 s l (ext ++ crc) 28 0 refl)
            ∙ omega arith))
      (ap (slice 32 16) whole
        ∙ (ap (take 16) (head_tail 3 s l (ext ++ crc) 32 4 refl)
            ∙ (ap (λ (k : ℕ). take k (m.epoch ++ crc)) (sym h) ∙ take-append_self m.epoch crc)))

-- A header that is written, whatever follows it, is read back with the sequence, the layout and the
-- metadata that were written, where the sequence and the layout fit their words and an epoch has 16
-- bytes; what follows is left.
pub read_header-write :
    (s : ℕ) (l : DurableLayout) (replication : Option ReplicationMetadata) (out rest : Bytes)
    → InRange s l
    → IsMetadata replication
    → write_header_with_replication s l replication ≡ ok out
    → read_header_with_layout (out ++ rest)
      ≡ ok (
        record {
          sequence = s;
          layout = l;
          format_version = format_of replication;
          bytes = size_of replication;
          replication = replication;
        },
        rest,
      )
unfolding write_header_with_replication header_bytes
read_header-write s l none out rest range is h =
    let (u, valid, wrote) =
      and_then-ok (checked_layout (validate l)) (λ u. ok (written_header s l none)) h in
    let fixed : with_checksum (head 2 s l []) ≡ with_checksum (layout_head 2 s l) =
      ap with_checksum (sym (sym (append-nil (layout_head 2 s l)) ∙ head_eq 2 s l [])) in
    ap (λ (o : Bytes). read_header_with_layout (o ++ rest)) (sym (fixed ∙ ok_bytes _ out wrote))
    ∙ read_header-written 2 32 s l [] none refl (omega arith) refl range (is_valid l u valid) rest
        refl refl
read_header-write s l (some m) out rest range is h =
    let (u, valid, wrote) =
      and_then-ok (checked_layout (validate l)) (λ u. ok (written_header s l (some m))) h in
    let ext : Bytes = role_byte m.role ∷ (0 ∷ (0 ∷ (0 ∷ m.epoch))) in
    let fixed : with_checksum (head 3 s l ext) ≡ with_checksum (layout_head 3 s l ++ ext) =
      ap with_checksum (sym (head_eq 3 s l ext)) in
    ap (λ (o : Bytes). read_header_with_layout (o ++ rest)) (sym (fixed ∙ ok_bytes _ out wrote))
    ∙ read_header-written 3 52 s l ext (some m) refl (omega arith) (omega (arith, is)) range
        (is_valid l u valid) rest (replicated s l m is) refl
