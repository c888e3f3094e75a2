-- ===== src/Resp/Size.antt =====
-- resp/encoder.rs, `encoded_size`: the first pass validates the whole frame and counts its bytes.
-- The stack of pending frames has its top first; each round takes a frame and pushes its children.
use sider.Prelude.{
  ℕ, zero, suc, ◌/◌, ◌%◌, Bool, false, not, ◌||◌, Option, none, some, List, [], ◌∷◌, ltb, leb, ◌==◌,
  if◌then◌else◌, Result, ok, err, and_then, ok_or, option_bind, length, get_elem?, any,
}
use sider.Prelude.Machine
use sider.Resp.Limits.{RespLimits, validate}
use sider.Resp.Frame.{
  Bytes, Frame, Frames, EncodeError, invalid_frame, invalid_limits, nil, cons, count,
}
use sider.Resp.Scalar.{validate_scalar}
use sider.Resp.Encoder.{decimal, decimal_i64, node_count, write}

unfoldable pub line_size : RespLimits → ℕ → Result ℕ EncodeError
line_size limits content =
    and_then (ok_or (Machine.checked_add content 3) (EncodeError.limit_exceeded "max_line_bytes"))
      (λ size.
        if ltb limits.max_line_bytes size
        then err (EncodeError.limit_exceeded "max_line_bytes")
        else ok size)

unfoldable pub blob_size : RespLimits → Bytes → Result ℕ EncodeError
blob_size limits value =
    if ltb limits.max_bulk_bytes (length value)
    then err (EncodeError.limit_exceeded "max_bulk_bytes")
    else and_then (line_size limits (length (decimal (length value)))) (λ header.
      ok_or (option_bind (Machine.checked_add header (length value)) (λ n. Machine.checked_add n 2))
        (EncodeError.limit_exceeded "max_frame_bytes"))

abbrev pub breaks_line : ℕ → Bool
breaks_line b = b == 13 || b == 10

unfoldable pub text_size : RespLimits → Bytes → Result ℕ EncodeError
text_size limits value = and_then (line_size limits (length value)) (λ size.
    if any breaks_line value then err (invalid_frame "simple/error contains CR or LF") else ok size)

unfoldable pub scalar_size : RespLimits → ℕ → Bytes → Result ℕ EncodeError
scalar_size limits prefix value = and_then (line_size limits (length value)) (λ size.
    elim (validate_scalar prefix value) [
      | ok _ ↦ ok size
      | err _ ↦ err (invalid_frame "invalid RESP3 scalar")
    ])

abbrev pub colon_at_three : Bytes → Bool
colon_at_three value = elim (get_elem? value 3) [ some c ↦ c == b':' | none ↦ false ]

unfoldable pub verbatim_size : RespLimits → Bytes → Result ℕ EncodeError
verbatim_size limits value =
    if ltb (length value) 4 || not (colon_at_three value)
    then err (invalid_frame "invalid verbatim format")
    else blob_size limits value

-- A frame on the stack of `encoded_size` with its depth.
abbrev pub Pending : Type 0
Pending = List (Frame × ℕ)

-- The children on the stack, one level deeper.
unfoldable pub at_depth : ℕ → Frames → Pending → Pending
at_depth depth nil pending = pending
at_depth depth (cons f fs) pending = (f, depth) ∷ at_depth depth fs pending

unfoldable pub deeper : RespLimits → ℕ → Result ℕ EncodeError
deeper limits depth =
    and_then (ok_or (Machine.checked_add depth 1) (EncodeError.limit_exceeded "max_depth")) (λ next.
      if leb next limits.max_depth then ok next else err (EncodeError.limit_exceeded "max_depth"))

-- The nodes taken, those waiting and the new children fit the budget.
unfoldable pub children_fit : RespLimits → ℕ → ℕ → ℕ → Result (Unit {0}) EncodeError
children_fit limits nodes waiting new =
    and_then
      (ok_or (option_bind (Machine.checked_add nodes waiting) (λ n. Machine.checked_add n new))
        (EncodeError.limit_exceeded "max_nodes"))
      (λ total.
        if leb total limits.max_nodes then ok tt else err (EncodeError.limit_exceeded "max_nodes"))

-- `declared` is the number in the header.
unfoldable pub aggregate_size :
    RespLimits → ℕ → ℕ → ℕ → Frames → Pending → Result (ℕ × Pending) EncodeError
aggregate_size limits nodes depth declared values pending = and_then (deeper limits depth) (λ next.
    and_then (children_fit limits nodes (length pending) (count values)) (λ _.
      and_then (line_size limits (length (decimal declared)))
        (λ header. ok (header, at_depth next values pending))))

unfoldable pub paired_size :
    RespLimits → ℕ → ℕ → Frames → Pending → Result (ℕ × Pending) EncodeError
paired_size limits nodes depth values pending =
    if count values % 2 == 0
    then aggregate_size limits nodes depth (count values / 2) values pending
    else err (invalid_frame "odd map element count")

abbrev pub alone : Pending → Result ℕ EncodeError → Result (ℕ × Pending) EncodeError
alone pending size = and_then size (λ n. ok (n, pending))

-- `delta`, and the stack after the frame's children are pushed.
unfoldable pub frame_size : RespLimits → ℕ → ℕ → Frame → Pending → Result (ℕ × Pending) EncodeError
frame_size l nodes depth (Frame.simple value) pending = alone pending (text_size l value)
frame_size l nodes depth (Frame.error value) pending = alone pending (text_size l value)
frame_size l nodes depth (Frame.integer value) pending =
    alone pending (line_size l (length (decimal_i64 value)))
frame_size l nodes depth (Frame.bulk none) pending = alone pending (line_size l 2)
frame_size l nodes depth (Frame.bulk (some value)) pending = alone pending (blob_size l value)
frame_size l nodes depth Frame.null_array pending =
    and_then (deeper l depth) (λ _. alone pending (line_size l 2))
frame_size l nodes depth (Frame.array values) pending =
    aggregate_size l nodes depth (count values) values pending
frame_size l nodes depth Frame.null pending = alone pending (line_size l 0)
frame_size l nodes depth (Frame.boolean value) pending = alone pending (line_size l 1)
frame_size l nodes depth (Frame.double value) pending = alone pending (scalar_size l b',' value)
frame_size l nodes depth (Frame.big_number value) pending = alone pending (scalar_size l b'(' value)
frame_size l nodes depth (Frame.blob_error value) pending = alone pending (blob_size l value)
frame_size l nodes depth (Frame.verbatim value) pending = alone pending (verbatim_size l value)
frame_size l nodes depth (Frame.map values) pending = paired_size l nodes depth values pending
frame_size l nodes depth (Frame.attribute values) pending = paired_size l nodes depth values pending
frame_size l nodes depth (Frame.set values) pending =
    aggregate_size l nodes depth (count values) values pending
frame_size l nodes depth (Frame.push values) pending =
    aggregate_size l nodes depth (count values) values pending

-- `checked_add`, then `filter(|n| *n <= max)`.
unfoldable pub add_within : ℕ → EncodeError → ℕ → ℕ → Result ℕ EncodeError
add_within bound e a b =
    and_then (ok_or (Machine.checked_add a b) e) (λ n. if leb n bound then ok n else err e)

-- A round of the loop takes the top frame: the new stack, number of nodes and size.
abbrev pub Round : Type 0
Round = Pending × ℕ × ℕ

unfoldable pub size_round : RespLimits → Frame → ℕ → Pending → ℕ → ℕ → Result Round EncodeError
size_round l frame depth pending nodes size =
    and_then (add_within l.max_nodes (EncodeError.limit_exceeded "max_nodes") nodes 1) (λ nodes'.
      and_then (frame_size l nodes' depth frame pending) (λ p.
        and_then
          (add_within l.max_frame_bytes (EncodeError.limit_exceeded "max_frame_bytes") size p.0)
          (λ size'. ok (p.1, nodes', size'))))

-- A round counts a node, so `max_nodes + 1` rounds are enough; `none` is the fuel at its end.
unfoldable pub size_loop : ℕ → RespLimits → Pending → ℕ → ℕ → Option (Result ℕ EncodeError)
size_loop zero l pending nodes size = none
size_loop (suc fuel) l [] nodes size = some (ok size)
size_loop (suc fuel) l ((frame, depth) ∷ pending) nodes size =
    elim (size_round l frame depth pending nodes size) [
      | err e ↦ some (err e)
      | ok r ↦ size_loop fuel l r.0 r.1 r.2
    ]

unfoldable pub encoded_size : Frame → RespLimits → Option (Result ℕ EncodeError)
encoded_size frame l = size_loop (suc (suc l.max_nodes)) l ((frame, 0) ∷ []) 0 0

-- `dst` is returned as it is left: the encoder writes only a frame that the first pass accepts.
unfoldable pub write_checked :
    Frame → Bytes → Option (Result ℕ EncodeError) → Option (Result (Unit {0}) EncodeError) × Bytes
write_checked frame dst none = (none, dst)
write_checked frame dst (some (err e)) = (some (err e), dst)
write_checked frame dst (some (ok size)) = elim (Machine.checked_add (length dst) size) [
  | none ↦ (some (err (EncodeError.limit_exceeded "output capacity")), dst)
  | some _ ↦ (some (ok tt), write (suc (node_count frame)) (cons frame nil) dst)
]

unfoldable pub encode : Frame → Bytes → RespLimits → Option (Result (Unit {0}) EncodeError) × Bytes
encode frame dst limits = elim (validate limits) [
  | err e ↦ (some (err (invalid_limits e)), dst)
  | ok _ ↦ write_checked frame dst (encoded_size frame limits)
]
