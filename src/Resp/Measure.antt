-- ===== src/Resp/Measure.antt =====
-- resp/encoder.rs: the size of a frame that the first pass computes, and what `encode` writes.
use sider.Prelude.{
  ℕ, ◌+◌, ◌/◌, ◌≡◌, refl, sym, ◌∙◌, none, some, [], ◌∷◌, ◌++◌, length, length-append, Result, ok,
  err, and_then, arith,
}
use sider.Resp.Limits.{RespLimits}
use sider.Resp.Frame.{Bytes, Frame, Frames, nil, count, EncodeError}
use sider.Resp.Encoder.{line, blob, own_bytes, children, decimal, decimal_i64}
use sider.Resp.Size.{
  line_size, blob_size, text_size, scalar_size, verbatim_size, Pending, at_depth, deeper,
  children_fit, aggregate_size, paired_size, alone, frame_size,
}

abbrev Sized : ℕ → Result ℕ EncodeError → Type 0
Sized n (ok m) = m ≡ n
Sized n (err e) = Unit {0}

length-line : (c : ℕ) (v : Bytes) → length (line c v) ≡ length v + 3
unfolding line
length-line c v = omega (arith, length-append v (13 ∷ 10 ∷ []))

length-blob :
    (c : ℕ) (v : Bytes) → length (blob c v) ≡ length (decimal (length v)) + 3 + length v + 2
unfolding blob
length-blob c v = omega (
  arith,
  length-append (line c (decimal (length v))) (v ++ (13 ∷ 10 ∷ [])),
  length-append v (13 ∷ 10 ∷ []),
  length-line c (decimal (length v)),
)

line_size-Sized : (l : RespLimits) (n : ℕ) → Sized (n + 3) (line_size l n)
unfolding line_size
line_size-Sized l n = ground arith

text_size-Sized : (l : RespLimits) (v : Bytes) → Sized (length v + 3) (text_size l v)
unfolding text_size
text_size-Sized l v = ground (arith, line_size-Sized l (length v))

scalar_size-Sized : (l : RespLimits) (c : ℕ) (v : Bytes) → Sized (length v + 3) (scalar_size l c v)
unfolding scalar_size
scalar_size-Sized l c v = ground (arith, line_size-Sized l (length v))

blob_size-Sized :
    (l : RespLimits) (v : Bytes)
    → Sized (length (decimal (length v)) + 3 + length v + 2) (blob_size l v)
unfolding blob_size
blob_size-Sized l v = ground (arith, line_size-Sized l (length (decimal (length v))))

verbatim_size-Sized :
    (l : RespLimits) (v : Bytes)
    → Sized (length (decimal (length v)) + 3 + length v + 2) (verbatim_size l v)
unfolding verbatim_size
verbatim_size-Sized l v = ground (arith, blob_size-Sized l v)

-- The size of the frame's own bytes, and the stack with its children.
abbrev pub Measured : Bytes → Frames → Pending → Result (ℕ × Pending) EncodeError → Type 0
Measured own below pending (ok (delta, pending')) =
    (delta ≡ length own) × ((depth : ℕ) × (pending' ≡ at_depth depth below pending))
Measured own below pending (err e) = Unit {0}

alone-Measured :
    (own : Bytes) (n : ℕ) (pending : Pending) (r : Result ℕ EncodeError)
    → Sized n r
    → n ≡ length own
    → Measured own nil pending (alone pending r)
unfolding at_depth
alone-Measured own n pending (ok m) h e = (h ∙ e, (0, refl))
alone-Measured own n pending (err x) h e = tt

null_array-Measured :
    (own : Bytes) (pending : Pending) (d : Result ℕ EncodeError) (r : Result ℕ EncodeError)
    → Measured own nil pending (alone pending r)
    → Measured own nil pending (and_then d (λ _. alone pending r))
null_array-Measured own pending (ok m) r h = h
null_array-Measured own pending (err x) r h = tt

aggregate-Measured :
    (l : RespLimits) (nodes depth declared c : ℕ) (values : Frames) (pending : Pending)
    → Measured
        (line c (decimal declared))
        values
        pending
        (aggregate_size l nodes depth declared values pending)
unfolding aggregate_size
aggregate-Measured l nodes depth declared c values pending = with_depth (deeper l depth)
  where
    with_header :
        (next : ℕ) (r : Result ℕ EncodeError)
        → Sized (length (decimal declared) + 3) r
        → Measured
            (line c (decimal declared))
            values
            pending
            (and_then r (λ header. ok (header, at_depth next values pending)))
    with_header next (ok m) h = (h ∙ sym (length-line c (decimal declared)), (next, refl))
    with_header next (err e) h = tt

    with_room :
        (next : ℕ) (r : Result (Unit {0}) EncodeError)
        → Measured (line c (decimal declared)) values pending (
            and_then r (λ _.
              and_then
                (line_size l (length (decimal declared)))
                (λ header. ok (header, at_depth next values pending))))
    with_room next (ok _) =
        with_header next (line_size l (length (decimal declared)))
          (line_size-Sized l (length (decimal declared)))
    with_room next (err e) = tt

    with_depth :
        (r : Result ℕ EncodeError)
        → Measured (line c (decimal declared)) values pending (
            and_then r (λ next.
              and_then (children_fit l nodes (length pending) (count values)) (λ _.
                and_then
                  (line_size l (length (decimal declared)))
                  (λ header. ok (header, at_depth next values pending)))))
    with_depth (ok next) = with_room next (children_fit l nodes (length pending) (count values))
    with_depth (err e) = tt

paired-Measured :
    (l : RespLimits) (nodes depth c : ℕ) (values : Frames) (pending : Pending)
    → Measured
        (line c (decimal (count values / 2)))
        values
        pending
        (paired_size l nodes depth values pending)
unfolding paired_size
paired-Measured l nodes depth c values pending =
    ground (arith, aggregate-Measured l nodes depth (count values / 2) c values pending)

pub frame_size-Measured :
    (l : RespLimits) (nodes depth : ℕ) (f : Frame) (pending : Pending)
    → Measured (own_bytes f) (children f) pending (frame_size l nodes depth f pending)
unfolding frame_size own_bytes children
frame_size-Measured l nodes depth (Frame.simple v) pending =
    alone-Measured _ _ pending _ (text_size-Sized l v) (sym (length-line _ v))
frame_size-Measured l nodes depth (Frame.error v) pending =
    alone-Measured _ _ pending _ (text_size-Sized l v) (sym (length-line _ v))
frame_size-Measured l nodes depth (Frame.integer v) pending =
    alone-Measured _ _ pending _ (line_size-Sized l _) (sym (length-line _ (decimal_i64 v)))
frame_size-Measured l nodes depth (Frame.bulk none) pending =
    alone-Measured (own_bytes (Frame.bulk none)) _ pending _ (line_size-Sized l 2) (omega arith)
frame_size-Measured l nodes depth (Frame.bulk (some v)) pending =
    alone-Measured _ _ pending _ (blob_size-Sized l v) (sym (length-blob _ v))
frame_size-Measured l nodes depth Frame.null_array pending =
    null_array-Measured (own_bytes Frame.null_array) pending (deeper l depth) (line_size l 2)
      (alone-Measured (own_bytes Frame.null_array) _ pending _ (line_size-Sized l 2) (omega arith))
frame_size-Measured l nodes depth (Frame.array vs) pending =
    aggregate-Measured l nodes depth (count vs) _ vs pending
frame_size-Measured l nodes depth Frame.null pending =
    alone-Measured (own_bytes Frame.null) _ pending _ (line_size-Sized l 0) (omega arith)
frame_size-Measured l nodes depth (Frame.boolean v) pending =
    alone-Measured (own_bytes (Frame.boolean v)) _ pending _ (line_size-Sized l 1) (omega arith)
frame_size-Measured l nodes depth (Frame.double v) pending =
    alone-Measured _ _ pending _ (scalar_size-Sized l b',' v) (sym (length-line _ v))
frame_size-Measured l nodes depth (Frame.big_number v) pending =
    alone-Measured _ _ pending _ (scalar_size-Sized l b'(' v) (sym (length-line _ v))
frame_size-Measured l nodes depth (Frame.blob_error v) pending =
    alone-Measured _ _ pending _ (blob_size-Sized l v) (sym (length-blob _ v))
frame_size-Measured l nodes depth (Frame.verbatim v) pending =
    alone-Measured _ _ pending _ (verbatim_size-Sized l v) (sym (length-blob _ v))
frame_size-Measured l nodes depth (Frame.map vs) pending =
    paired-Measured l nodes depth _ vs pending
frame_size-Measured l nodes depth (Frame.attribute vs) pending =
    paired-Measured l nodes depth _ vs pending
frame_size-Measured l nodes depth (Frame.set vs) pending =
    aggregate-Measured l nodes depth (count vs) _ vs pending
frame_size-Measured l nodes depth (Frame.push vs) pending =
    aggregate-Measured l nodes depth (count vs) _ vs pending
