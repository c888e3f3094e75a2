-- ===== src/Resp/Progress.antt =====
-- resp/decoder.rs: what a round of the loop of `scan` reads.
use sider.Resp.Decoder.{after_payload}
use sider.Resp.Header.{prefix_byte}
use sider.Prelude.{◌≢◌}
use sider.Resp.Decoder.{inside_line}
use sider.Resp.Decoder.{verbatim_node}
use sider.Resp.State.{Node}
use sider.Prelude.{
  ℕ, ◌+◌, ◌≡◌, refl, Bool, Option, none, some, List, [], ◌∷◌, arith, length, ◌<◌, ◌≤◌,
}
use sider.Resp.State.{Payload, Line, Scanner, Outcome, ok, err, stuck}
use sider.Resp.Header.{
  length_header, finish_line, finish_node, close_arrays, start_node, prefix_step, blob_header,
  array_header, open_array, Signal, again, need_more,
}
use sider.Resp.Decoder.{end_line, line_step, line_byte, blob_node, blob_byte, end_blob}
use sider.Prelude.{get_elem?-none_ge}
use sider.Resp.Decoder.{verbatim_node}
use sider.Resp.Post.{Post, Returns}

-- The action leaves the cursor where it is.
abbrev Stays {ℓ} : {A : Type ℓ} → Scanner → A → Scanner → Type 0
Stays d _ d' = d'.cursor ≡ d.cursor

close_arrays-ne-stuck :
    (l : List ℕ) (d : Scanner) → Post (λ (_ : Bool) (_ : Scanner). Unit {0}) (close_arrays l).0 d
unfolding close_arrays
close_arrays-ne-stuck [] d = tt
close_arrays-ne-stuck (x ∷ l) d = ground (arith, close_arrays-ne-stuck l d)

Post-cursor :
    (r : Outcome Bool) (d e : Scanner)
    → Post (λ (_ : Bool) (_ : Scanner). Unit {0}) r d
    → e.cursor ≡ d.cursor
    → Post (Stays d) r e
Post-cursor (ok a) d e h k = k
Post-cursor (err a) d e h k = tt
Post-cursor stuck d e h k = elim h [ ]

finish_node_cursor : (d : Scanner) → Returns (Stays d) (finish_node d)
unfolding finish_node
finish_node_cursor d =
    Post-cursor (close_arrays d.arrays).0 d _ (close_arrays-ne-stuck d.arrays d) refl

blob_header_cursor :
    (kind : ℕ) (size : Option ℕ) (d : Scanner) → Returns (Stays d) (blob_header kind size d)
unfolding blob_header
blob_header_cursor kind none d = finish_node_cursor _
blob_header_cursor kind (some size) d = ground arith

open_array_cursor : (size : ℕ) (d : Scanner) → Returns (Stays d) (open_array size d)
unfolding open_array
open_array_cursor size d = ground (arith, finish_node_cursor d)

array_header_cursor :
    (kind : ℕ) (size : Option ℕ) (d : Scanner) → Returns (Stays d) (array_header kind size d)
unfolding array_header
array_header_cursor kind none d = finish_node_cursor _
array_header_cursor kind (some size) d = ground (
  arith,
  open_array_cursor size (record d {
    pending_nodes = d.pending_nodes + size;
    nodes = Node.array (some size) kind ∷ d.nodes;
  }),
)

start_node_moves :
    (kind : ℕ) (d : Scanner)
    → Returns (λ s d'. (s ≡ again) × (d'.cursor ≡ d.cursor + 1)) (start_node kind d)
unfolding start_node
start_node_moves kind d = ground arith

length_header_cursor :
    (src : List ℕ) (kind : ℕ) (p : Payload) (d : Scanner)
    → Returns (Stays d) (length_header src kind p d)
unfolding length_header
length_header_cursor src kind p d = grind (arith, blob_header_cursor, array_header_cursor)

finish_line_cursor :
    (src : List ℕ) (kind : ℕ) (p : Payload) (d : Scanner)
    → Returns (Stays d) (finish_line src kind p d)
unfolding finish_line
finish_line_cursor src kind p d = grind (arith, finish_node_cursor, length_header_cursor)

-- A round that does not stop for more bytes has read one.
abbrev Reads : List ℕ → Scanner → Signal → Scanner → Type 0
Reads src d s d' = (s ≢ need_more) × (d.cursor < d'.cursor) × (d'.cursor ≤ length src)

end_line_reads :
    (src : List ℕ) (l : Line) (byte cursor : ℕ) (d : Scanner)
    → Returns (λ s d'. (s ≢ need_more) × (d'.cursor ≡ d.cursor)) (end_line src l byte cursor d)
unfolding end_line
end_line_reads src l byte cursor d = grind (arith, finish_line_cursor)

line_byte_reads :
    (src : List ℕ) (l : Line) (byte : ℕ) (d : Scanner)
    → Returns (λ s d'. (s ≢ need_more) × (d'.cursor ≡ d.cursor + 1)) (line_byte src l (some byte) d)
unfolding line_byte inside_line
line_byte_reads src l byte d =
    ground (arith, end_line_reads src l byte (d.cursor + 1) (record d { cursor = d.cursor + 1 }))

blob_node_cursor :
    (src : List ℕ) (p : Payload) (kind : ℕ) (d : Scanner)
    → p.end ≤ length src
    → Returns (λ (_ : Node) (d' : Scanner). d' ≡ d) (blob_node src p kind d)
unfolding blob_node verbatim_node
blob_node_cursor src p kind d h = ground (arith, get_elem?-none_ge src (p.start + 3))

end_blob_reads :
    (src : List ℕ) (p : Payload) (kind byte : ℕ) (d : Scanner)
    → p.end ≤ length src
    → Returns (λ s d'. (s ≢ need_more) × (d'.cursor ≡ d.cursor)) (end_blob src p kind byte d)
unfolding end_blob
end_blob_reads src p kind byte d h = grind (arith, blob_node_cursor, finish_node_cursor)

pub blob_byte_reads :
    (src : List ℕ) (p : Payload) (saw_cr : Bool) (kind byte : ℕ) (d : Scanner)
    → p.end ≤ length src
    → Returns
        (λ s d'. (s ≢ need_more) × (d'.cursor ≡ d.cursor + 1))
        (blob_byte src p saw_cr kind (some byte) d)
unfolding blob_byte after_payload
blob_byte_reads src p saw_cr kind byte d h =
    ground (arith, end_blob_reads src p kind byte (record d { cursor = d.cursor + 1 }))

pub line_step_reads :
    (src : List ℕ) (l : Line) (byte : ℕ) (d : Scanner)
    → Returns (λ s d'. (s ≢ need_more) × (d'.cursor ≡ d.cursor + 1)) (line_step src l (some byte) d)
unfolding line_step
line_step_reads src l byte d = ground (arith, line_byte_reads src l byte d)

pub prefix_step_reads :
    (byte : ℕ) (d : Scanner)
    → Returns (λ s d'. (s ≢ need_more) × (d'.cursor ≡ d.cursor + 1)) (prefix_step (some byte) d)
unfolding prefix_step prefix_byte
prefix_step_reads byte d = ground (arith, start_node_moves byte d)
