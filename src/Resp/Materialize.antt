-- ===== src/Resp/Materialize.antt =====
-- resp/decoder.rs, `materialize`: the frame is built from the nodes in reverse order.
-- The stack of frames has its last element first.
use sider.Prelude.{
  ℕ, zero, suc, ◌-◌, ◌&&◌, none, some, List, [], ◌∷◌, leb, ◌==◌, if◌then◌else◌, Result, ok, err,
  and_then, length, take, drop,
}
use sider.Resp.Frame.{Bytes, Frame, Frames, ProtocolError, malformed, buffer_changed, nil, cons}
use sider.Resp.State.{Payload, Node}

-- `src.get(start..end)`, also for `copy_payload`, which clones the slice.
unfoldable pub payload_slice : List ℕ → Payload → Result Bytes ProtocolError
payload_slice src p =
    if leb p.start p.end && leb p.end (length src)
    then ok (take (p.end - p.start) (drop p.start src))
    else err buffer_changed

-- `length` times `frames.pop()`.
unfoldable pub pop_children : ℕ → Frames → Result (Frames × Frames) ProtocolError
pop_children zero frames = ok (nil, frames)
pop_children (suc n) nil = err (malformed "incomplete array")
pop_children (suc n) (cons f frames) =
    and_then (pop_children n frames) (λ (children, rest). ok (cons f children, rest))

unfoldable pub aggregate : ℕ → Frames → Frame
aggregate kind children =
    if kind == b'%'
    then Frame.map children
    else if kind == b'~'
    then Frame.set children
    else if kind == b'>'
    then Frame.push children
    else if kind == b'|'
    then Frame.attribute children
    else Frame.array children

unfoldable pub scalar_frame : ℕ → Bytes → Result Frame ProtocolError
scalar_frame kind value =
    if kind == b','
    then ok (Frame.double value)
    else if kind == b'('
    then ok (Frame.big_number value)
    else if kind == b'!'
    then ok (Frame.blob_error value)
    else if kind == b'='
    then ok (Frame.verbatim value)
    else err (malformed "unknown scalar")

-- The frame of one node, pushed onto what it leaves of the stack.
unfoldable pub push_frame : List ℕ → Node → Frames → Result Frames ProtocolError
unfolding payload_slice pop_children aggregate scalar_frame
push_frame src (Node.simple p) frames =
    and_then (payload_slice src p) (λ v. ok (cons (Frame.simple v) frames))
push_frame src (Node.error p) frames =
    and_then (payload_slice src p) (λ v. ok (cons (Frame.error v) frames))
push_frame src (Node.integer n) frames = ok (cons (Frame.integer n) frames)
push_frame src (Node.bulk none) frames = ok (cons (Frame.bulk none) frames)
push_frame src (Node.bulk (some p)) frames =
    and_then (payload_slice src p) (λ v. ok (cons (Frame.bulk (some v)) frames))
push_frame src (Node.array none kind) frames = ok (cons Frame.null_array frames)
push_frame src (Node.array (some n) kind) frames =
    and_then (pop_children n frames) (λ (children, rest). ok (cons (aggregate kind children) rest))
push_frame src (Node.scalar kind p) frames =
    and_then (payload_slice src p) (λ v. and_then (scalar_frame kind v) (λ f. ok (cons f frames)))
push_frame src Node.null frames = ok (cons Frame.null frames)
push_frame src (Node.boolean b) frames = ok (cons (Frame.boolean b) frames)

unfoldable pub push_frames : List ℕ → List Node → Frames → Result Frames ProtocolError
push_frames src [] frames = ok frames
push_frames src (node ∷ nodes) frames =
    and_then (push_frame src node frames) (push_frames src nodes)

unfoldable pub single_root : Frames → Result Frame ProtocolError
single_root nil = err (malformed "frame without root")
single_root (cons f nil) = ok f
single_root (cons f (cons g rest)) = err (malformed "frame with multiple roots")

unfoldable pub materialize : List ℕ → List Node → Result Frame ProtocolError
unfolding push_frames single_root
materialize src nodes = and_then (push_frames src nodes nil) single_root
