-- ===== src/Resp/Written.antt =====
-- resp/encoder.rs: what `encode` leaves in the output.
use sider.Prelude.{
  ℕ, zero, suc, ◌+◌, ◌≤◌, ◌≡◌, refl, ap, Option, none, some, [], ◌∷◌, ◌++◌, length, length-append,
  Result, ok, err, and_then, arith,
}
use sider.Prelude.Machine
use mathlib.Core.Path.{subst}
use sider.Resp.Limits.{RespLimits, ConfigError, validate}
use sider.Resp.Frame.{Bytes, Frame, Frames, nil, cons, EncodeError}
use sider.Resp.Encoder.{own_bytes, children, node_count, write}
use sider.Resp.Size.{
  Pending, at_depth, frame_size, add_within, Round, size_round, size_loop, encoded_size,
  write_checked, encode,
}
use sider.Resp.Spelling.{spelled, spelled_all, spelled-children, write-frame}
use sider.Resp.Measure.{Measured, frame_size-Measured}

-- The bytes of the frames that are still on the stack.
unfoldable left : Pending → ℕ
left [] = 0
left ((f, depth) ∷ pending) = length (spelled f) + left pending

left-at_depth :
    (depth : ℕ) (fs : Frames) (pending : Pending)
    → left (at_depth depth fs pending) ≡ length (spelled_all fs) + left pending
unfolding left at_depth spelled_all
left-at_depth depth nil pending = omega arith
left-at_depth depth (cons f fs) pending =
    omega (arith, left-at_depth depth fs pending, length-append (spelled f) (spelled_all fs))

left-Measured :
    (f : Frame) (pending pending' : Pending) (delta depth : ℕ)
    → delta ≡ length (own_bytes f)
    → pending' ≡ at_depth depth (children f) pending
    → delta + left pending' ≡ length (spelled f) + left pending
left-Measured f pending pending' delta depth h k = omega (
  arith,
  h,
  ap left k,
  left-at_depth depth (children f) pending,
  ap (λ (b : Bytes). length b) (spelled-children f),
  length-append (own_bytes f) (spelled_all (children f)),
)

-- The result of the first pass: the size of all the frames, which fits the limit, or an error.
abbrev Totals : ℕ → ℕ → Option (Result ℕ EncodeError) → Type 0
Totals bound n none = ⊥
Totals bound n (some (ok m)) = (m ≡ n) × (m ≤ bound)
Totals bound n (some (err e)) = Unit {0}

module _ (l : RespLimits) where
  abbrev too_many : EncodeError
  too_many = EncodeError.limit_exceeded "max_nodes"

  abbrev too_long : EncodeError
  too_long = EncodeError.limit_exceeded "max_frame_bytes"

  -- After a round a node more is counted, and the size to come is the same.
  abbrev Rounded : ℕ → ℕ → Result Round EncodeError → Type 0
  Rounded total nodes (ok (pending, nodes', size)) =
      (nodes' ≡ nodes + 1)
      × (nodes' ≤ l.max_nodes)
      × (size ≤ l.max_frame_bytes)
      × (size + left pending ≡ total)
  Rounded total nodes (err e) = Unit {0}

  unfoldable Added : ℕ → ℕ → ℕ → Result ℕ EncodeError → Type 0
  Added bound a b (ok n) = (n ≡ a + b) × (n ≤ bound)
  Added bound a b (err e) = Unit {0}

  add_within-Added :
      (bound : ℕ) (e : EncodeError) (a b : ℕ) → Added bound a b (add_within bound e a b)
  unfolding add_within Added
  add_within-Added bound e a b = ground arith

  size_round-Rounded :
      (f : Frame) (depth : ℕ) (pending : Pending) (nodes size : ℕ)
      → Rounded
          (size + (length (spelled f) + left pending))
          nodes
          (size_round l f depth pending nodes size)
  unfolding size_round Added
  size_round-Rounded f depth pending nodes size =
      counted (add_within l.max_nodes too_many nodes 1)
        (add_within-Added l.max_nodes too_many nodes 1)
    where
      summed :
          (nodes' : ℕ) (p : ℕ × Pending) (r : Result ℕ EncodeError)
          → nodes' ≡ nodes + 1
          → nodes' ≤ l.max_nodes
          → p.0 + left p.1 ≡ length (spelled f) + left pending
          → Added l.max_frame_bytes size p.0 r
          → Rounded
              (size + (length (spelled f) + left pending))
              nodes
              (and_then r (λ size'. ok (p.1, nodes', size')))
      summed nodes' p (ok size') one few same a = (one, few, a.1, omega (arith, a.0, same))
      summed nodes' p (err e) one few same a = tt

      sized :
          (nodes' : ℕ) (r : Result (ℕ × Pending) EncodeError)
          → nodes' ≡ nodes + 1
          → nodes' ≤ l.max_nodes
          → Measured (own_bytes f) (children f) pending r
          → Rounded (size + (length (spelled f) + left pending)) nodes (
              and_then r (λ p.
                and_then
                  (add_within l.max_frame_bytes too_long size p.0)
                  (λ size'. ok (p.1, nodes', size'))))
      sized nodes' (ok (delta, pending')) one few (own, (next, stack)) =
          summed nodes' (delta, pending') (add_within l.max_frame_bytes too_long size delta) one few
            (left-Measured f pending pending' delta next own stack)
            (add_within-Added l.max_frame_bytes too_long size delta)
      sized nodes' (err e) one few m = tt

      counted :
          (r : Result ℕ EncodeError)
          → Added l.max_nodes nodes 1 r
          → Rounded (size + (length (spelled f) + left pending)) nodes (
              and_then r (λ nodes'. and_then (frame_size l nodes' depth f pending) (λ p.
                and_then
                  (add_within l.max_frame_bytes too_long size p.0)
                  (λ size'. ok (p.1, nodes', size')))))
      counted (ok nodes') a =
          sized nodes' (frame_size l nodes' depth f pending) a.0 a.1
            (frame_size-Measured l nodes' depth f pending)
      counted (err e) a = tt

  abbrev Finishes : ℕ → Type 0
  Finishes fuel =
      (pending : Pending) (nodes size : ℕ)
      → l.max_nodes + 2 ≤ nodes + fuel
      → nodes ≤ l.max_nodes
      → size ≤ l.max_frame_bytes
      → Totals l.max_frame_bytes (size + left pending) (size_loop fuel l pending nodes size)

  next_round :
      (fuel total nodes : ℕ) (r : Result Round EncodeError)
      → Finishes fuel
      → l.max_nodes + 2 ≤ nodes + suc fuel
      → Rounded total nodes r
      → Totals l.max_frame_bytes total
          (elim r as (λ (w : Result Round EncodeError). Option (Result ℕ EncodeError)) [
            | err e ↦ some (err e)
            | ok r ↦ size_loop fuel l r.0 r.1 r.2
          ])
  next_round fuel total nodes (err e) rest enough done = tt
  next_round fuel total nodes (ok (pending, nodes', size)) rest enough (one, few, small, same) =
      subst (λ (n : ℕ). Totals l.max_frame_bytes n (size_loop fuel l pending nodes' size)) same
        (rest pending nodes' size (omega (arith, one)) few small)

  size_loop-Totals : (fuel : ℕ) → Finishes fuel
  unfolding size_loop left
  size_loop-Totals zero pending nodes size enough few small = absurd (omega arith)
  size_loop-Totals (suc fuel) [] nodes size enough few small = (omega arith, small)
  size_loop-Totals (suc fuel) ((f, depth) ∷ pending) nodes size enough few small =
      next_round fuel _ nodes (size_round l f depth pending nodes size) (size_loop-Totals fuel)
        enough (size_round-Rounded f depth pending nodes size)

  encoded_size-Totals :
      (f : Frame) → Totals l.max_frame_bytes (length (spelled f)) (encoded_size f l)
  unfolding encoded_size left
  encoded_size-Totals f = rw (whole f) (
      size_loop-Totals (suc (suc l.max_nodes)) ((f, 0) ∷ []) 0 0 (omega arith) (omega arith)
        (omega arith))
    where
      whole : (f : Frame) → length (spelled f) ≡ 0 + (length (spelled f) + 0)
      whole f = omega arith

-- What `encode` leaves in the output: what was there and then the frame, within the limit of a frame,
-- or only what was there.
abbrev pub Writes :
    RespLimits → Frame → Bytes → Option (Result (Unit {0}) EncodeError) × Bytes → Type 0
Writes limits frame dst (none, out) = ⊥
Writes limits frame dst (some (ok _), out) =
    (out ≡ dst ++ spelled frame) × (length (spelled frame) ≤ limits.max_frame_bytes)
Writes limits frame dst (some (err e), out) = out ≡ dst

write_checked-Writes :
    (limits : RespLimits) (frame : Frame) (dst : Bytes) (size : Option (Result ℕ EncodeError))
    → Totals limits.max_frame_bytes (length (spelled frame)) size
    → Writes limits frame dst (write_checked frame dst size)
unfolding write_checked
write_checked-Writes limits frame dst none h = absurd h
write_checked-Writes limits frame dst (some (err e)) h = refl
write_checked-Writes limits frame dst (some (ok n)) h = room (Machine.checked_add (length dst) n)
  where
    room :
        (o : Option ℕ)
        → Writes limits frame dst
            (elim o as (λ (w : Option ℕ). Option (Result (Unit {0}) EncodeError) × Bytes) [
              | none ↦ (some (err (EncodeError.limit_exceeded "output capacity")), dst)
              | some _ ↦ (some (ok tt), write (suc (node_count frame)) (cons frame nil) dst)
            ])
    room none = refl
    room (some m) = (write-frame frame dst, omega (arith, h.0, h.1))

-- For every frame, output and limits `encode` returns; where it succeeds, it has appended the frame,
-- as the recursive reference spells it, and no more than the permitted number of bytes; where it
-- fails, the output is as it was.
pub encode-Writes :
    (frame : Frame) (dst : Bytes) (limits : RespLimits)
    → Writes limits frame dst (encode frame dst limits)
unfolding encode
encode-Writes frame dst limits = checked (validate limits)
  where
    checked :
        (v : Result (Unit {0}) ConfigError)
        → Writes limits frame dst
            (elim v
              as (λ (w : Result (Unit {0}) ConfigError).
                Option (Result (Unit {0}) EncodeError) × Bytes) [
                  | err e ↦ (some (err (sider.Resp.Frame.invalid_limits e)), dst)
                  | ok _ ↦ write_checked frame dst (encoded_size frame limits)
                ])
    checked (ok _) =
        write_checked-Writes limits frame dst (encoded_size frame limits)
          (encoded_size-Totals limits frame)
    checked (err e) = refl
