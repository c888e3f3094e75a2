-- ===== src/Persistence/Header.antt =====
-- persistence/format.rs and persistence/composed_format.rs: the headers of a log.
use sider.Prelude.{
  ℕ, ◌-◌, Bool, true, false, Option, none, some, [], ◌∷◌, ◌++◌, length, take, drop, ltb, ◌==◌, not,
  if◌then◌else◌, Result, ok, err, and_then, bytes_eq,
}
use sider.Resp.Frame.{Bytes}
use sider.Command.Names.{text}
use sider.Replication.Runtime.{Role}
use sider.Storage.Routing.{RoutingError}
use sider.Persistence.Words.{FormatError, version, corrupt, le, from_le}
use sider.Persistence.Words
use sider.Persistence.Record.{checksum}
use sider.Persistence.Layout.{DurableLayout, ReplicationMetadata, default_layout, validate}

abbrev pub magic : Bytes
magic = text "SIDERAOF"

pub record Header : Type 0 where
  pub sequence : ℕ
  pub layout : DurableLayout
  pub format_version : ℕ
  pub bytes : ℕ
  pub replication : Option ReplicationMetadata

-- The bytes before the checksum, and all of them.
abbrev pub with_checksum : Bytes → Bytes
with_checksum bytes = bytes ++ le 4 (checksum bytes)

-- `write_header`, of version 1.
abbrev pub write_header : ℕ → Bytes
write_header sequence = with_checksum (magic ++ (le 4 1 ++ le 8 sequence))

abbrev pub role_byte : Role → ℕ
role_byte Role.primary = 1
role_byte Role.replica = 2

abbrev pub layout_head : ℕ → ℕ → DurableLayout → Bytes
layout_head format sequence layout =
    magic ++ (le 4 format ++ (le 8 sequence ++ (le 4 layout.shard_count ++ le 4 layout.routing)))

abbrev pub written_header : ℕ → DurableLayout → Option ReplicationMetadata → Bytes
written_header sequence layout none = with_checksum (layout_head 2 sequence layout)
written_header sequence layout (some m) =
    with_checksum (layout_head 3 sequence layout ++ (role_byte m.role ∷ (0 ∷ (0 ∷ (0 ∷ m.epoch)))))

abbrev pub checked_layout : Result (Unit {0}) RoutingError → Result (Unit {0}) FormatError
checked_layout (ok u) = ok tt
checked_layout (err e) = err (corrupt "shard configuration")

unfoldable pub write_header_with_replication :
    ℕ → DurableLayout → Option ReplicationMetadata → Result Bytes FormatError
write_header_with_replication sequence layout replication =
    and_then (checked_layout (validate layout))
      (λ u. ok (written_header sequence layout replication))

-- The bytes and the number from an offset on.
abbrev pub slice : ℕ → ℕ → Bytes → Bytes
slice offset count bytes = take count (drop offset bytes)

abbrev pub field : ℕ → ℕ → Bytes → ℕ
field offset count bytes = from_le (slice offset count bytes)

abbrev pub is_zero : Bytes → Bool
is_zero [] = true
is_zero (b ∷ bytes) = if b == 0 then is_zero bytes else false

abbrev pub read_role : ℕ → Bytes → Result (Option ReplicationMetadata) FormatError
read_role tag epoch =
    if tag == 1
    then ok (some (record { role = Role.primary; epoch = epoch }))
    else if tag == 2
    then ok (some (record { role = Role.replica; epoch = epoch }))
    else err (corrupt "replication role")

abbrev pub read_replication : ℕ → Bytes → Result (Option ReplicationMetadata) FormatError
read_replication format header =
    if format == 3
    then if not (is_zero (slice 29 3 header))
      then err (corrupt "replication reserved field")
      else read_role (field 28 1 header) (slice 32 16 header)
    else ok none

abbrev pub read_layout : ℕ → Bytes → DurableLayout
read_layout format header =
    if format == 1
    then default_layout
    else record { shard_count = field 20 4 header; routing = field 24 4 header }

-- A header of a known version and its number of bytes, all of them there.
abbrev pub read_known : ℕ → ℕ → Bytes → Result Header FormatError
read_known format bytes header =
    if not (checksum (take (bytes - 4) header) == from_le (drop (bytes - 4) header))
    then err Words.header
    else and_then (checked_layout (validate (read_layout format header))) (λ u.
      and_then (read_replication format header) (λ replication. ok (record {
        sequence = field 12 8 header;
        layout = read_layout format header;
        format_version = format;
        bytes = bytes;
        replication = replication;
      })))

abbrev pub read_sized : ℕ → ℕ → Bytes → Result (Header × Bytes) FormatError
read_sized format bytes input =
    if ltb (length input) bytes
    then err Words.header
    else and_then (read_known format bytes (take bytes input)) (λ h. ok (h, drop bytes input))

abbrev pub read_version : ℕ → Bytes → Result (Header × Bytes) FormatError
read_version format input =
    if format == 1
    then read_sized 1 24 input
    else if format == 2
    then read_sized 2 32 input
    else if format == 3
    then read_sized 3 52 input
    else err (version format)

unfoldable pub read_header_with_layout : Bytes → Result (Header × Bytes) FormatError
read_header_with_layout input =
    if ltb (length input) 12
    then err Words.header
    else if not (bytes_eq (take 8 input) magic)
    then err Words.header
    else read_version (field 8 4 input) input
