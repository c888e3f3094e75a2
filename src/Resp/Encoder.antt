-- ===== src/Resp/Encoder.antt =====
-- resp/encoder.rs: what a frame looks like on the wire, and the loop that writes it.
use sider.Prelude.{
  ℕ, zero, suc, ◌+◌, ◌/◌, ◌%◌, none, some, [], ◌∷◌, ◌++◌, ltb, if◌then◌else◌, length,
}
use sider.Prelude.Int.{ℤ, pos, negsuc}
use sider.Resp.Frame.{Bytes, Frame, Frames, nil, cons, count, append}

-- `to_string` of a number: its decimal digits. `fuel` bounds their number.
unfoldable pub digits_fuel : ℕ → ℕ → Bytes → Bytes
digits_fuel zero n acc = acc
digits_fuel (suc fuel) n acc =
    let more = digits_fuel fuel (n / 10) ((n % 10 + b'0') ∷ acc) in
    if ltb n 10 then (n + b'0') ∷ acc else more

-- A `usize` and the magnitude of an `i64` have twenty digits at most.
unfoldable pub decimal : ℕ → Bytes
decimal n = digits_fuel 20 n []

unfoldable pub decimal_i64 : ℤ → Bytes
decimal_i64 (pos n) = decimal n
decimal_i64 (negsuc n) = b'-' ∷ decimal (suc n)

abbrev pub crlf : Bytes
crlf = 13 ∷ 10 ∷ []

unfoldable pub line : ℕ → Bytes → Bytes
line prefix value = prefix ∷ (value ++ crlf)

unfoldable pub blob : ℕ → Bytes → Bytes
blob prefix value = line prefix (decimal (length value)) ++ (value ++ crlf)

-- What one frame writes by itself, and the children that it puts on the stack.
unfoldable pub own_bytes : Frame → Bytes
own_bytes (Frame.simple value) = line b'+' value
own_bytes (Frame.error value) = line b'-' value
own_bytes (Frame.integer value) = line b':' (decimal_i64 value)
own_bytes (Frame.bulk none) = b'$' ∷ b'-' ∷ b'1' ∷ crlf
own_bytes (Frame.bulk (some value)) = blob b'$' value
own_bytes Frame.null_array = b'*' ∷ b'-' ∷ b'1' ∷ crlf
own_bytes (Frame.array values) = line b'*' (decimal (count values))
own_bytes Frame.null = b'_' ∷ crlf
own_bytes (Frame.boolean value) = b'#' ∷ (if value then b't' else b'f') ∷ crlf
own_bytes (Frame.double value) = line b',' value
own_bytes (Frame.big_number value) = line b'(' value
own_bytes (Frame.blob_error value) = blob b'!' value
own_bytes (Frame.verbatim value) = blob b'=' value
own_bytes (Frame.map values) = line b'%' (decimal (count values / 2))
own_bytes (Frame.set values) = line b'~' (decimal (count values))
own_bytes (Frame.push values) = line b'>' (decimal (count values))
own_bytes (Frame.attribute values) = line b'|' (decimal (count values / 2))

unfoldable pub children : Frame → Frames
children (Frame.array values) = values
children (Frame.map values) = values
children (Frame.set values) = values
children (Frame.push values) = values
children (Frame.attribute values) = values
children _ = nil

-- `pending.extend(values.iter().rev())` puts the first child on top.
unfoldable pub write : ℕ → Frames → Bytes → Bytes
write zero pending dst = dst
write (suc fuel) nil dst = dst
write (suc fuel) (cons frame pending) dst =
    write fuel (append (children frame) pending) (dst ++ own_bytes frame)

-- The number of nodes of a frame, its own included.
unfoldable mutual
  pub node_count : Frame → ℕ
  node_count (Frame.array values) = suc (node_counts values)
  node_count (Frame.map values) = suc (node_counts values)
  node_count (Frame.set values) = suc (node_counts values)
  node_count (Frame.push values) = suc (node_counts values)
  node_count (Frame.attribute values) = suc (node_counts values)
  node_count _ = 1

  pub node_counts : Frames → ℕ
  node_counts nil = 0
  node_counts (cons f fs) = node_count f + node_counts fs
