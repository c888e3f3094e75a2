-- ===== src/Resp/Header.antt =====
-- resp/decoder.rs, `finish_line`, `finish_node` and the scanner's `State::Prefix`: nodes and their headers.
use sider.Prelude.{
  ℕ, Bool, true, false, not, ◌&&◌, ◌||◌, Option, none, some, List, [], ◌∷◌, ltb, leb, ◌==◌,
  if◌then◌else◌, Result, and_then, ok_or, length, bytes_eq,
}
use sider.Prelude.Machine
use sider.Resp.Limits.{RespLimits}
use sider.Resp.Frame.{ProtocolError, malformed, limit_exceeded}
use sider.Resp.Number.{parse_integer, parse_length}
use sider.Resp.Scalar.{validate_scalar}
use sider.Resp.State.{
  Payload, Node, State, Scanner, Outcome, ok, err, M, ◌>>=◌, ◌>>◌, pure, raise, get, put, lift,
  ensure,
}
use sider.Resp.Materialize.{payload_slice}

abbrev pub cr : ℕ
cr = 13

abbrev pub lf : ℕ
lf = 10

-- The function `checked_add` of the source.
abbrev pub offset_add : ℕ → ℕ → Result ℕ ProtocolError
offset_add a b = ok_or (Machine.checked_add a b) (limit_exceeded "max_frame_bytes")

abbrev pub require_frame_end : RespLimits → ℕ → Result (Unit {0}) ProtocolError
require_frame_end limits end =
    if ltb limits.max_frame_bytes end
    then Result.err (limit_exceeded "max_frame_bytes")
    else Result.ok tt

-- What one round of the loop of `scan` decides: another round, `Ok(false)` or `Ok(true)`.
pub data Signal : Type 0 where
  again need_more complete : Signal

unfoldable pub is_prefix : ℕ → Bool
is_prefix k =
    (k == b'+' || (k == b'-' || (k == b':' || (k == b'$' || k == b'*'))))
    || ((k == b'_' || (k == b'#' || (k == b',' || (k == b'(' || k == b'!'))))
        || (k == b'=' || (k == b'%' || (k == b'~' || (k == b'>' || k == b'|')))))

unfoldable pub is_aggregate : ℕ → Bool
is_aggregate k = k == b'*' || (k == b'%' || (k == b'~' || (k == b'>' || k == b'|')))

unfoldable pub is_blob : ℕ → Bool
is_blob k = k == b'$' || (k == b'!' || k == b'=')

-- The loop of `finish_node` on the stack of open arrays.
unfoldable pub close_arrays : List ℕ → Outcome Bool × List ℕ
close_arrays [] = (ok true, [])
close_arrays (remaining ∷ rest) = elim (Machine.checked_sub remaining 1) [
  | none ↦ (err (malformed "array already complete"), remaining ∷ rest)
  | some left ↦ if ltb 0 left then (ok false, left ∷ rest) else close_arrays rest
]

unfoldable pub finish_node : M Bool
finish_node d =
    let (r, arrays) = close_arrays d.arrays in
    (r, record d { state = State.prefix; arrays = arrays })

abbrev pub push_node : Node → M (Unit {0})
push_node node d = (ok tt, record d { nodes = node ∷ d.nodes })

-- `State::Prefix` once a byte is there.
unfoldable pub start_node : ℕ → M Signal
start_node kind = do
  ensure (is_prefix kind) (malformed "unknown prefix")
  d ← get
  ensure (not (is_aggregate kind && leb d.limits.max_depth (length d.arrays)))
      (limit_exceeded "max_depth")
  started ← lift (ok_or (Machine.checked_add d.nodes_started 1) (limit_exceeded "max_nodes"))
  ensure (leb started d.limits.max_nodes) (limit_exceeded "max_nodes")
  put (record d { nodes_started = started })
  pending ← lift (ok_or (Machine.checked_sub d.pending_nodes 1) (malformed "node without parent"))
  put (record d { nodes_started = started; pending_nodes = pending })
  cursor ← lift (offset_add d.cursor 1)
  put (record d {
    nodes_started = started;
    pending_nodes = pending;
    cursor = cursor;
    state =
        State.line
          (record { kind = kind; start = d.cursor; payload_start = cursor; saw_cr = false });
  })
  pure again

unfoldable pub prefix_byte : Option ℕ → M Signal
prefix_byte none = pure need_more
prefix_byte (some kind) = start_node kind

-- A further node needs three bytes at least.
unfoldable pub frame_room : Scanner → Result (Unit {0}) ProtocolError
frame_room d =
    if ltb 0 d.nodes_started
    then and_then (offset_add d.cursor 3) (require_frame_end d.limits)
    else Result.ok tt

unfoldable pub prefix_step : Option ℕ → M Signal
prefix_step byte = do d ← get; lift (frame_room d); prefix_byte byte

-- `finish_line` for `$ ! =`, once the length is known.
unfoldable pub blob_header : ℕ → Option ℕ → M Bool
blob_header kind none = do push_node (Node.bulk none); finish_node
blob_header kind (some size) = do
  d ← get
  ensure (leb size d.limits.max_bulk_bytes) (limit_exceeded "max_bulk_bytes")
  end ← lift (offset_add d.cursor size)
  frame_end ← lift (offset_add end 2)
  lift (require_frame_end d.limits frame_end)
  put (record d { state = State.bulk (record { start = d.cursor; end = end }) false kind })
  pure false

unfoldable pub open_array : ℕ → M Bool
open_array size =
    if ltb 0 size
    then (λ d. (ok false, record d { arrays = size ∷ d.arrays; state = State.prefix }))
    else finish_node

-- `finish_line` for `* % ~ > |`, once the number of children is known.
unfoldable pub array_header : ℕ → Option ℕ → M Bool
array_header kind none = do push_node (Node.array none kind); finish_node
array_header kind (some size) = do
  d ← get
  pending ← lift (ok_or (Machine.checked_add d.pending_nodes size) (limit_exceeded "max_nodes"))
  put (record d { pending_nodes = pending })
  declared ← lift (ok_or (Machine.checked_add d.nodes_started pending) (limit_exceeded "max_nodes"))
  ensure (leb declared d.limits.max_nodes) (limit_exceeded "max_nodes")
  minimum ← lift (ok_or (Machine.checked_mul pending 3) (limit_exceeded "max_frame_bytes"))
  end ← lift (offset_add d.cursor minimum)
  lift (require_frame_end d.limits end)
  push_node (Node.array (some size) kind)
  open_array size

-- Maps and attributes count pairs.
unfoldable pub child_count : ℕ → Option ℕ → Result (Option ℕ) ProtocolError
child_count kind none = Result.ok none
child_count kind (some n) =
    if kind == b'%' || kind == b'|'
    then and_then (ok_or (Machine.checked_mul n 2) (limit_exceeded "max_nodes"))
        (λ m. Result.ok (some m))
    else Result.ok (some n)

abbrev pub is_none {ℓ} : {A : Type ℓ} → Option A → Bool
is_none none = true
is_none (some _) = false

unfoldable pub length_header : List ℕ → ℕ → Payload → M Bool
length_header src kind payload = do
  bytes ← lift (payload_slice src payload)
  declared ← lift (parse_length bytes)
  ensure (not (not (kind == b'$') && (not (kind == b'*') && is_none declared)))
      (malformed "null RESP3 length")
  size ← lift (child_count kind declared)
  if is_blob kind then blob_header kind size else array_header kind size

unfoldable pub boolean_value : List ℕ → Result Bool ProtocolError
boolean_value bytes =
    if bytes_eq bytes (b't' ∷ [])
    then Result.ok true
    else if bytes_eq bytes (b'f' ∷ [])
    then Result.ok false
    else Result.err (malformed "invalid boolean")

-- The node of a line that declares no length.
unfoldable pub line_node : List ℕ → ℕ → Payload → Result Node ProtocolError
line_node src kind payload =
    if kind == b'+'
    then Result.ok (Node.simple payload)
    else if kind == b'-'
    then Result.ok (Node.error payload)
    else if kind == b':'
    then and_then (payload_slice src payload)
        (λ bytes. and_then (parse_integer bytes) (λ n. Result.ok (Node.integer n)))
    else if kind == b'_'
    then if payload.start == payload.end
      then Result.ok Node.null
      else Result.err (malformed "invalid null")
    else if kind == b'#'
    then and_then (payload_slice src payload)
        (λ bytes. and_then (boolean_value bytes) (λ b. Result.ok (Node.boolean b)))
    else and_then (payload_slice src payload)
        (λ bytes. and_then (validate_scalar kind bytes) (λ _. Result.ok (Node.scalar kind payload)))

unfoldable pub is_line_kind : ℕ → Bool
is_line_kind k =
    k == b'+'
    || (k == b'-' || (k == b':' || (k == b'_' || (k == b'#' || (k == b',' || k == b'(')))))

unfoldable pub finish_line : List ℕ → ℕ → Payload → M Bool
finish_line src kind payload =
    if is_line_kind kind
    then (do node ← lift (line_node src kind payload); push_node node; finish_node)
    else if is_blob kind || is_aggregate kind
    then length_header src kind payload
    else raise (malformed "unknown prefix")
