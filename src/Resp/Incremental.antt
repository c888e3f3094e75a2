-- ===== src/Resp/Incremental.antt =====
-- How a round of the scanner of resp/decoder.rs depends on the bytes of its buffer.
use native.Mathlib.Decide.{dec_le}
use sider.Prelude.{
  get_elem?-some_lt, ltb, if◌then◌else◌, Bool-cases, inl, inr, sym, ◌∙◌, Option-cases,
}
use sider.Prelude.{inr}
use sider.Prelude.{inl}
use sider.Prelude.{Option-cases}
use sider.Prelude.{◌≢◌}
use sider.Resp.Header.{prefix_byte}
use sider.Resp.Header.{prefix_step}
use sider.Prelude.{
  ℕ, zero, suc, ◌+◌, ◌-◌, ◌≤◌, Bool, true, false, ◌<◌, ◌≡◌, refl, ap, ◌∙◌, Option, none, some, List,
  ◌++◌, arith, length, length-append, length-drop, take-append, drop-append, get_elem?,
  get_elem?-append,
}
use sider.Resp.State.{Payload, Scanner, Line, State, M, Outcome, ok}
use sider.Resp.Materialize.{payload_slice}
use sider.Resp.Header.{line_node, length_header, finish_line, Signal, need_more}
use sider.Resp.Decoder.{
  end_line, line_step, line_byte, blob_node, blob_byte, end_blob, blob_step, skip_payload, step,
}

payload_slice-append :
    (src more : List ℕ) (p : Payload)
    → p.end ≤ length src
    → payload_slice (src ++ more) p ≡ payload_slice src p
unfolding payload_slice
payload_slice-append src more p h = ground (
  arith,
  length-append src more,
  length-drop p.start src,
  drop-append p.start src more,
  take-append (p.end - p.start) (sider.Prelude.drop p.start src) more,
)

line_node-append :
    (src more : List ℕ) (kind : ℕ) (p : Payload)
    → p.end ≤ length src
    → line_node (src ++ more) kind p ≡ line_node src kind p
unfolding line_node
line_node-append src more kind p h = rw (payload_slice-append src more p h)

length_header-append :
    (src more : List ℕ) (kind : ℕ) (p : Payload)
    → p.end ≤ length src
    → length_header (src ++ more) kind p ≡ length_header src kind p
unfolding length_header
length_header-append src more kind p h = rw (payload_slice-append src more p h)

finish_line-append :
    (src more : List ℕ) (kind : ℕ) (p : Payload)
    → p.end ≤ length src
    → finish_line (src ++ more) kind p ≡ finish_line src kind p
unfolding finish_line
finish_line-append src more kind p h =
    rw (line_node-append src more kind p h) (rw (length_header-append src more kind p h))

module _ (src more : List ℕ) where
  end_line-append :
      (l : Line) (byte cursor : ℕ) (d : Scanner)
      → cursor ≤ length src
      → end_line (src ++ more) l byte cursor d ≡ end_line src l byte cursor d
  unfolding end_line
  end_line-append l byte cursor d h =
      let p : Payload = record { start = l.payload_start; end = cursor - 2 } in
      ground (arith, ap (λ (f : M Bool). f d) (finish_line-append src more l.kind p (omega arith)))

  line_byte-append :
      (l : Line) (byte : ℕ) (d : Scanner)
      → d.cursor < length src
      → line_byte (src ++ more) l (some byte) d ≡ line_byte src l (some byte) d
  unfolding line_byte
  line_byte-append l byte d h =
      ground (arith, end_line-append l byte (d.cursor + 1) (record d { cursor = d.cursor + 1 }))

  line_step-append :
      (l : Line) (byte : ℕ) (d : Scanner)
      → d.cursor < length src
      → line_step (src ++ more) l (some byte) d ≡ line_step src l (some byte) d
  unfolding line_step
  line_step-append l byte d h = ground (arith, line_byte-append l byte d)

  blob_node-append :
      (p : Payload) (kind : ℕ)
      → p.end ≤ length src
      → blob_node (src ++ more) p kind ≡ blob_node src p kind
  unfolding blob_node
  blob_node-append p kind h = ground (arith, get_elem?-append src more (p.start + 3))

  blob_byte-append :
      (p : Payload) (saw_cr : Bool) (kind : ℕ) (byte : Option ℕ) (d : Scanner)
      → p.end ≤ length src
      → blob_byte (src ++ more) p saw_cr kind byte d ≡ blob_byte src p saw_cr kind byte d
  unfolding blob_byte end_blob
  blob_byte-append p saw_cr kind none d h = refl
  blob_byte-append p saw_cr kind (some byte) d h = rw (blob_node-append p kind h)

-- A step that fails with no byte to read fails so whatever comes.
prefix_step_early :
    (byte : Option ℕ) (d : Scanner)
    → (prefix_step none d).0 ≢ ok need_more
    → prefix_step byte d ≡ prefix_step none d
unfolding prefix_step prefix_byte
prefix_step_early none d h = refl
prefix_step_early (some byte) d h = ground arith

line_step_early :
    (src : List ℕ) (l : Line) (byte : Option ℕ) (d : Scanner)
    → (line_step src l none d).0 ≢ ok need_more
    → line_step src l byte d ≡ line_step src l none d
unfolding line_step
line_step_early src l none d h = refl
line_step_early src l (some byte) d h = unfold line_byte in ground arith

line_step-none :
    (src more : List ℕ) (l : Line) (d : Scanner)
    → line_step (src ++ more) l none d ≡ line_step src l none d
unfolding line_step line_byte
line_step-none src more l d = refl

-- Where the cursor stands once it is past the payload.
abbrev pub past : Payload → Scanner → Scanner
past p d = record d { cursor = if ltb d.cursor p.end then p.end else d.cursor }

pub blob_step_there :
    (src : List ℕ) (p : Payload) (saw_cr : Bool) (kind : ℕ) (d : Scanner)
    → p.end ≤ length src
    → blob_step src p saw_cr kind d
      ≡ blob_byte src p saw_cr kind (get_elem? src (past p d).cursor) (past p d)
unfolding blob_step skip_payload
blob_step_there src p saw_cr kind d h = elim (Bool-cases (ltb d.cursor p.end)) [
  | inl e ↦ ground arith
  | inr e ↦ rw e
]

pub blob_step_missing :
    (src : List ℕ) (p : Payload) (saw_cr : Bool) (kind : ℕ) (d : Scanner)
    → length src < p.end
    → (d.cursor ≤ length src)
    → blob_step src p saw_cr kind d ≡ (ok need_more, record d { cursor = length src })
unfolding blob_step skip_payload
blob_step_missing src p saw_cr kind d h k = ground arith

pub blob_byte-none :
    (src : List ℕ) (p : Payload) (saw_cr : Bool) (kind : ℕ) (d : Scanner)
    → blob_byte src p saw_cr kind none d ≡ (ok need_more, d)
unfolding blob_byte
blob_byte-none src p saw_cr kind d = refl

module _ (src more : List ℕ) (d : Scanner) where
  prefix-append :
      (prefix_step (get_elem? src d.cursor) d).0 ≢ ok need_more
      → prefix_step (get_elem? (src ++ more) d.cursor) d ≡ prefix_step (get_elem? src d.cursor) d
  prefix-append h = elim (Option-cases (get_elem? src d.cursor)) [
    | inl e ↦ rw e (prefix_step_early _ d (rw e at h))
    | inr (b, e) ↦ rw (get_elem?-append src more d.cursor (get_elem?-some_lt src d.cursor b e))
  ]

  line-append :
      (l : Line)
      → (line_step src l (get_elem? src d.cursor) d).0 ≢ ok need_more
      → line_step (src ++ more) l (get_elem? (src ++ more) d.cursor) d
        ≡ line_step src l (get_elem? src d.cursor) d
  line-append l h = elim (Option-cases (get_elem? src d.cursor)) [
    | inl e ↦ rw e (
        line_step_early (src ++ more) l _ d (rw (line_step-none src more l d) (rw e at h))
        ∙ line_step-none src more l d)
    | inr (b, e) ↦
        let lt = get_elem?-some_lt src d.cursor b e in
        rw (get_elem?-append src more d.cursor lt) (rw e (line_step-append src more l b d lt))
  ]

  blob_byte-append_at :
      (p : Payload) (saw_cr : Bool) (kind : ℕ) (e : Scanner)
      → p.end ≤ length src
      → (blob_byte src p saw_cr kind (get_elem? src e.cursor) e).0 ≢ ok need_more
      → blob_byte (src ++ more) p saw_cr kind (get_elem? (src ++ more) e.cursor) e
        ≡ blob_byte src p saw_cr kind (get_elem? src e.cursor) e
  blob_byte-append_at p saw_cr kind e fits h = elim (Option-cases (get_elem? src e.cursor)) [
    | inl n ↦ absurd ((rw n at h) (rw blob_byte-none))
    | inr (b, s) ↦
        rw (get_elem?-append src more e.cursor (get_elem?-some_lt src e.cursor b s))
          (blob_byte-append src more p saw_cr kind _ e fits)
  ]

  blob-append :
      (p : Payload) (saw_cr : Bool) (kind : ℕ)
      → d.cursor ≤ length src
      → (blob_step src p saw_cr kind d).0 ≢ ok need_more
      → blob_step (src ++ more) p saw_cr kind d ≡ blob_step src p saw_cr kind d
  blob-append p saw_cr kind at h = elim (dec_le p.end (length src)) [
    | yes fits ↦
        blob_step_there (src ++ more) p saw_cr kind d (omega (arith, length-append src more))
        ∙ (blob_byte-append_at p saw_cr kind (past p d) fits
              (rw (blob_step_there src p saw_cr kind d fits) at h)
            ∙ sym (blob_step_there src p saw_cr kind d fits))
    | no short ↦ absurd (
        h (
          ap (λ (t : Outcome Signal × Scanner). t.0)
            (blob_step_missing src p saw_cr kind d (omega arith) at)))
  ]

-- What `step` decides without asking for more bytes it decides whatever bytes follow.
pub step-append :
    (src more : List ℕ) (d : Scanner)
    → d.cursor ≤ length src
    → (step src d).0 ≢ ok need_more
    → step (src ++ more) d ≡ step src d
unfolding step
step-append src more d within =
    elim d.state
      as (λ s.
        (step src (record d { state = s })).0 ≢ ok need_more
        → step (src ++ more) (record d { state = s }) ≡ step src (record d { state = s })) [
          | State.prefix ↦ prefix-append src more (record d { state = State.prefix })
          | State.line l ↦ line-append src more (record d { state = State.line l }) l
          | State.bulk p s k ↦
              blob-append src more (record d { state = State.bulk p s k }) p s k within
        ]
