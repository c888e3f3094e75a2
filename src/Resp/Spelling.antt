-- ===== src/Resp/Spelling.antt =====
-- resp/encoder.rs: the recursive reference for the bytes of a frame, and the loop that writes them.
use sider.Prelude.{
  ℕ, zero, suc, ◌+◌, ◌<◌, ◌≡◌, refl, ap, sym, ◌∙◌, [], ◌++◌, append-nil, append_assoc, arith,
}
use sider.Resp.Frame.{Bytes, Frame, Frames, nil, cons, append}
use sider.Resp.Encoder.{own_bytes, children, write, node_count, node_counts}

-- A frame is its header or text, and then its children one after the other.
unfoldable mutual
  pub spelled : Frame → Bytes
  spelled (Frame.array values) = own_bytes (Frame.array values) ++ spelled_all values
  spelled (Frame.map values) = own_bytes (Frame.map values) ++ spelled_all values
  spelled (Frame.set values) = own_bytes (Frame.set values) ++ spelled_all values
  spelled (Frame.push values) = own_bytes (Frame.push values) ++ spelled_all values
  spelled (Frame.attribute values) = own_bytes (Frame.attribute values) ++ spelled_all values
  spelled (Frame.simple value) = own_bytes (Frame.simple value)
  spelled (Frame.error value) = own_bytes (Frame.error value)
  spelled (Frame.integer value) = own_bytes (Frame.integer value)
  spelled (Frame.bulk value) = own_bytes (Frame.bulk value)
  spelled Frame.null_array = own_bytes Frame.null_array
  spelled Frame.null = own_bytes Frame.null
  spelled (Frame.boolean value) = own_bytes (Frame.boolean value)
  spelled (Frame.double value) = own_bytes (Frame.double value)
  spelled (Frame.big_number value) = own_bytes (Frame.big_number value)
  spelled (Frame.blob_error value) = own_bytes (Frame.blob_error value)
  spelled (Frame.verbatim value) = own_bytes (Frame.verbatim value)

  pub spelled_all : Frames → Bytes
  spelled_all nil = []
  spelled_all (cons f fs) = spelled f ++ spelled_all fs

pub spelled-children : (f : Frame) → spelled f ≡ own_bytes f ++ spelled_all (children f)
unfolding spelled spelled_all children
spelled-children (Frame.array values) = refl
spelled-children (Frame.map values) = refl
spelled-children (Frame.set values) = refl
spelled-children (Frame.push values) = refl
spelled-children (Frame.attribute values) = refl
spelled-children (Frame.simple value) = sym (append-nil _)
spelled-children (Frame.error value) = sym (append-nil _)
spelled-children (Frame.integer value) = sym (append-nil _)
spelled-children (Frame.bulk value) = sym (append-nil _)
spelled-children Frame.null_array = sym (append-nil _)
spelled-children Frame.null = sym (append-nil _)
spelled-children (Frame.boolean value) = sym (append-nil _)
spelled-children (Frame.double value) = sym (append-nil _)
spelled-children (Frame.big_number value) = sym (append-nil _)
spelled-children (Frame.blob_error value) = sym (append-nil _)
spelled-children (Frame.verbatim value) = sym (append-nil _)

node_count-children : (f : Frame) → node_count f ≡ suc (node_counts (children f))
unfolding node_count node_counts children
node_count-children (Frame.array values) = refl
node_count-children (Frame.map values) = refl
node_count-children (Frame.set values) = refl
node_count-children (Frame.push values) = refl
node_count-children (Frame.attribute values) = refl
node_count-children (Frame.simple value) = refl
node_count-children (Frame.error value) = refl
node_count-children (Frame.integer value) = refl
node_count-children (Frame.bulk value) = refl
node_count-children Frame.null_array = refl
node_count-children Frame.null = refl
node_count-children (Frame.boolean value) = refl
node_count-children (Frame.double value) = refl
node_count-children (Frame.big_number value) = refl
node_count-children (Frame.blob_error value) = refl
node_count-children (Frame.verbatim value) = refl

spelled_all-append :
    (fs gs : Frames) → spelled_all (append fs gs) ≡ spelled_all fs ++ spelled_all gs
unfolding spelled_all
spelled_all-append nil gs = refl
spelled_all-append (cons f fs) gs =
    ap (λ (l : Bytes). spelled f ++ l) (spelled_all-append fs gs)
    ∙ sym (append_assoc (spelled f) (spelled_all fs) (spelled_all gs))

node_counts-append : (fs gs : Frames) → node_counts (append fs gs) ≡ node_counts fs + node_counts gs
unfolding node_counts
node_counts-append nil gs = omega arith
node_counts-append (cons f fs) gs = omega (arith, node_counts-append fs gs)

regroup :
    (dst own below rest : Bytes) → (dst ++ own) ++ (below ++ rest) ≡ dst ++ ((own ++ below) ++ rest)
regroup dst own below rest = simp append_assoc

-- The loop with fuel for all the nodes appends what the frames spell.
write-spelled :
    (fuel : ℕ) (fs : Frames) (dst : Bytes)
    → node_counts fs < fuel
    → write fuel fs dst ≡ dst ++ spelled_all fs
unfolding write spelled_all node_counts
write-spelled zero fs dst h = absurd (omega arith)
write-spelled (suc fuel) nil dst h = sym (append-nil dst)
write-spelled (suc fuel) (cons f fs) dst h =
    write-spelled fuel (append (children f) fs) (dst ++ own_bytes f)
      (omega (arith, node_counts-append (children f) fs, node_count-children f))
    ∙ (ap (λ (l : Bytes). (dst ++ own_bytes f) ++ l) (spelled_all-append (children f) fs)
        ∙ (regroup dst (own_bytes f) (spelled_all (children f)) (spelled_all fs)
            ∙ ap (λ (l : Bytes). dst ++ (l ++ spelled_all fs)) (sym (spelled-children f))))

pub write-frame :
    (f : Frame) (dst : Bytes) → write (suc (node_count f)) (cons f nil) dst ≡ dst ++ spelled f
unfolding spelled_all node_counts
write-frame f dst =
    write-spelled (suc (node_count f)) (cons f nil) dst (omega arith)
    ∙ ap (λ (l : Bytes). dst ++ l) (append-nil (spelled f))
