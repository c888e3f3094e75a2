-- ===== src/Resp/Decoder.antt =====
-- resp/decoder.rs: the incremental scanner.
-- `scan` is a loop over `step`, with fuel for one round more than there are bytes.
use sider.Prelude.{
  ℕ, zero, suc, ◌+◌, ◌-◌, min, Bool, true, false, not, Option, none, some, List, [], ltb, leb, ◌==◌,
  if◌then◌else◌, Result, and_then, ok_or, length, get_elem?, drop,
}
use sider.Prelude.Machine
use sider.Resp.Limits.{RespLimits, ConfigError, validate}
use sider.Resp.Frame.{Frame, ProtocolError, malformed, limit_exceeded, poisoned, buffer_changed}
use sider.Resp.State.{
  Payload, Node, Line, State, Decoder, Outcome, ok, err, stuck, M, ◌>>=◌, ◌>>◌, pure, raise, get,
  put, lift, ensure,
}
use sider.Resp.Materialize.{materialize}
use sider.Resp.Header.{
  cr, lf, offset_add, require_frame_end, Signal, again, need_more, complete, finish_node, push_node,
  prefix_step, finish_line,
}

abbrev pub signal : Bool → Signal
signal done = if done then complete else again

unfoldable pub end_line : List ℕ → Line → ℕ → ℕ → M Signal
end_line src line byte cursor = do
  ensure (byte == lf) (malformed "CR without LF")
  end ← lift (ok_or (Machine.checked_sub cursor 2) (malformed "invalid line offset"))
  done ← finish_line src line.kind (record { start = line.payload_start; end = end })
  pure (signal done)

unfoldable pub inside_line : Line → ℕ → M Signal
inside_line line byte = do
  ensure (not (byte == lf)) (malformed "LF without CR")
  d ← get
  put (record d { state = State.line (record line { saw_cr = byte == cr }) })
  pure again

unfoldable pub line_byte : List ℕ → Line → Option ℕ → M Signal
line_byte src line none = pure need_more
line_byte src line (some byte) = do
  d ← get
  cursor ← lift (offset_add d.cursor 1)
  put (record d { cursor = cursor })
  if line.saw_cr then end_line src line byte cursor else inside_line line byte

unfoldable pub line_step : List ℕ → Line → Option ℕ → M Signal
line_step src line byte = do
  d ← get
  minimum_end ← lift (offset_add d.cursor (if line.saw_cr then 1 else 2))
  lift (require_frame_end d.limits minimum_end)
  line_len ←
      lift (ok_or (Machine.checked_sub minimum_end line.start) (malformed "invalid line offset"))
  ensure (leb line_len d.limits.max_line_bytes) (limit_exceeded "max_line_bytes")
  line_byte src line byte

unfoldable pub verbatim_node : ℕ → Payload → Option ℕ → M Node
verbatim_node kind payload none d = (stuck, d)
verbatim_node kind payload (some c) d =
    if c == b':'
    then (ok (Node.scalar kind payload), d)
    else (err (malformed "invalid verbatim format"), d)

unfoldable pub blob_node : List ℕ → Payload → ℕ → M Node
blob_node src payload kind =
    if kind == b'$'
    then pure (Node.bulk (some payload))
    else if kind == b'='
    then if ltb (payload.end - payload.start) 4
      then raise (malformed "invalid verbatim format")
      else verbatim_node kind payload (get_elem? src (payload.start + 3))
    else pure (Node.scalar kind payload)

unfoldable pub end_blob : List ℕ → Payload → ℕ → ℕ → M Signal
end_blob src payload kind byte = do
  ensure (byte == lf) (malformed "invalid bulk terminator")
  node ← blob_node src payload kind
  push_node node
  done ← finish_node
  pure (signal done)

unfoldable pub after_payload : Payload → ℕ → ℕ → M Signal
after_payload payload kind byte = do
  ensure (byte == cr) (malformed "invalid bulk terminator")
  d ← get
  put (record d { state = State.bulk payload true kind })
  pure again

unfoldable pub blob_byte : List ℕ → Payload → Bool → ℕ → Option ℕ → M Signal
blob_byte src payload saw_cr kind none = pure need_more
blob_byte src payload saw_cr kind (some byte) = do
  d ← get
  cursor ← lift (offset_add d.cursor 1)
  put (record d { cursor = cursor })
  if saw_cr then end_blob src payload kind byte else after_payload payload kind byte

-- The cursor moves over the bytes of the payload that are there; `false` if some are missing.
unfoldable pub skip_payload : List ℕ → Payload → M Bool
skip_payload src payload d =
    if ltb d.cursor payload.end
    then (ok (leb payload.end (length src)), record d { cursor = min (length src) payload.end })
    else (ok true, d)

unfoldable pub blob_step : List ℕ → Payload → Bool → ℕ → M Signal
blob_step src payload saw_cr kind = do
  there ← skip_payload src payload
  d ← get
  (if there then blob_byte src payload saw_cr kind (get_elem? src d.cursor) else pure need_more)

unfoldable pub step : List ℕ → M Signal
step src d = elim d.state [
  | State.prefix ↦ prefix_step (get_elem? src d.cursor) d
  | State.line l ↦ line_step src l (get_elem? src d.cursor) d
  | State.bulk payload saw_cr kind ↦ blob_step src payload saw_cr kind d
]

unfoldable pub scan : ℕ → List ℕ → M Bool
scan zero src d = (stuck, d)
scan (suc fuel) src d =
    let (r, d') = step src d in
    elim r [
      | ok again ↦ scan fuel src d'
      | ok need_more ↦ (ok false, d')
      | ok complete ↦ (ok true, d')
      | err e ↦ (err e, d')
      | stuck ↦ (stuck, d')
    ]

unfoldable pub new : RespLimits → Result Decoder ConfigError
new limits = and_then (validate limits) (λ _. Result.ok (record {
  scanner = record {
    limits = limits;
    cursor = 0;
    state = State.prefix;
    nodes = [];
    arrays = [];
    nodes_started = 0;
    pending_nodes = 1;
  };
  previous_len = 0;
  poisoned = false;
}))

-- `decode` returns its result, the buffer and the decoder.
abbrev pub Decoded : Type 0
Decoded = Outcome (Option Frame) × List ℕ × Decoder

unfoldable pub fail : ProtocolError → List ℕ → Decoder → Decoded
fail e src d = (
  err e,
  src,
  record d { scanner = record (d.scanner) { nodes = []; arrays = [] }; poisoned = true },
)

unfoldable pub finish_frame : Result Frame ProtocolError → List ℕ → Decoder → Decoded
finish_frame (Result.err e) src d = fail e src d
finish_frame (Result.ok frame) src d = (
  ok (some frame),
  drop d.scanner.cursor src,
  record d {
    scanner = record (d.scanner) {
      cursor = 0;
      state = State.prefix;
      nodes = [];
      arrays = [];
      nodes_started = 0;
      pending_nodes = 1;
    };
    previous_len = 0;
  },
)

unfoldable pub finish_scan : Outcome Bool → List ℕ → Decoder → Decoded
finish_scan (ok false) src d = (ok none, src, d)
finish_scan (ok true) src d = finish_frame (materialize src d.scanner.nodes) src d
finish_scan (err e) src d = fail e src d
finish_scan stuck src d = (stuck, src, d)

unfoldable pub decode : List ℕ → Decoder → Decoded
decode src d =
    if d.poisoned
    then (err poisoned, src, d)
    else if ltb (length src) d.previous_len
    then fail buffer_changed src d
    else (let (r, s) = scan (suc (length src)) src d.scanner in
        finish_scan r src (record d { scanner = s; previous_len = length src }))
