-- ===== src/Resp/Decode.antt =====
-- What `decode` of resp/decoder.rs promises to its connection.
use sider.Resp.Fragments.{Moved-at}
use native.Mathlib.Decide.{dec_le}
use sider.Prelude.{Bool-cases}
use sider.Prelude.{
  ℕ, suc, ◌≡◌, ◌≢◌, refl, ap, sym, ◌∙◌, Bool, true, false, Option, none, some, List, ◌++◌, arith,
  length, length-append, ◌<◌, ◌≤◌, ltb, drop, Result, inl, inr,
}
use sider.Resp.State.{Scanner, Decoder, Outcome, ok, err, stuck}
use sider.Resp.Frame.{Frame, ProtocolError, poisoned}
use sider.Resp.Header.{Signal, again, need_more, complete}
use sider.Resp.Materialize.{materialize}
use sider.Resp.Decoder.{decode, finish_scan, finish_frame, fail}
use sider.Resp.Fragments.{Runs, Runs-moved, Runs-resume, loop-Ends, scan-Runs, stops}

-- A call that reaches the scanner, by the rounds that the scanner makes.
decode-Runs :
    (src : List ℕ) (d : Decoder) (r : Outcome Signal) (s : Scanner)
    → d.poisoned ≡ false
    → d.previous_len ≤ length src
    → d.scanner.cursor ≤ length src
    → Runs src r s d.scanner
    → decode src d ≡ finish_scan (stops r) src (record d { scanner = s; previous_len = length src })
unfolding decode
decode-Runs src d r s live kept within w =
    ground (arith, scan-Runs (suc (length src)) src r s w within (omega arith))

finish_scan_waits :
    (r : Outcome Signal) (src : List ℕ) (d : Decoder)
    → (finish_scan (stops r) src d).0 ≡ ok none
    → r ≢ ok again
    → r ≡ ok need_more
unfolding finish_scan finish_frame fail
finish_scan_waits (ok again) src d h k = absurd (k refl)
finish_scan_waits (ok need_more) src d h k = refl
finish_scan_waits (ok complete) src d h k = ground arith
finish_scan_waits (err e) src d h k = cc
finish_scan_waits stuck src d h k = cc

-- A decoder that waits is live, and the buffer has not shrunk.
decode_waits :
    (src : List ℕ) (d : Decoder)
    → (decode src d).0 ≡ ok none
    → (d.poisoned ≡ false) × (d.previous_len ≤ length src)
unfolding decode fail
decode_waits src d h = ground arith

Runs-ne-again :
    (src : List ℕ) (r : Outcome Signal) (s : Scanner) {d : Scanner} → Runs src r s d → r ≢ ok again
Runs-ne-again src r s (Runs.last e stop) = stop
Runs-ne-again src r s (Runs.round e w) = Runs-ne-again src r s w

-- What a call that waits leaves behind.
abbrev Waited : List ℕ → Decoder → Scanner → Type 0
Waited src d s =
    (decode src d ≡ (ok none, src, record d { scanner = s; previous_len = length src }))
    × Runs src (ok need_more) s d.scanner
    × (s.cursor ≤ length src)

waits-Waited :
    (src : List ℕ) (d : Decoder)
    → d.scanner.cursor ≤ length src
    → (decode src d).0 ≡ ok none
    → (s : Scanner) × Waited src d s
unfolding finish_scan
waits-Waited src d within waits =
    let (live, kept) = decode_waits src d waits in
    let (r, s, w) = loop-Ends (suc (length src)) src d.scanner within (omega arith) in
    let run = decode-Runs src d r s live kept within w in
    let p : r ≡ ok need_more =
      finish_scan_waits r src _ (rw run at waits) (Runs-ne-again src r s w) in
    let w' : Runs src (ok need_more) s d.scanner = rw p at w in
    (s, (run ∙ rw p, w', Runs-moved src (ok need_more) s w' within))

-- Decoding in pieces, for a decoder whose cursor is inside the buffer: where `decode` answers
-- `Ok(None)` on what has arrived, the call after more bytes have arrived gives the result, the buffer
-- and the decoder that one call on all the bytes gives to the decoder as it was before.
pub decode_in_pieces :
    (src more : List ℕ) (d : Decoder)
    → d.scanner.cursor ≤ length src
    → (decode src d).0 ≡ ok none
    → decode (src ++ more) (decode src d).2 ≡ decode (src ++ more) d
decode_in_pieces src more d within waits =
    let (s, found) = waits-Waited src d within waits in
    let (eq, w, at) = found in
    let (live, kept) = decode_waits src d waits in
    let longer = length-append src more in
    let d' : Decoder = record d { scanner = s; previous_len = length src } in
    let (q, t, v) =
      loop-Ends (suc (length (src ++ more))) (src ++ more) s (omega arith) (omega arith) in
    rw eq (
      decode-Runs (src ++ more) d' q t live (omega arith) (omega arith) v
      ∙ sym (
          decode-Runs (src ++ more) d q t live (omega arith) (omega arith)
            (Runs-resume src more (ok need_more) s w refl within q t v)))

-- The buffer after a call: the frame's bytes are gone, or nothing is.
abbrev pub Consumes : List ℕ → Outcome (Option Frame) → List ℕ → Type 0
Consumes src (ok (some f)) rest = (n : ℕ) × (0 < n) × (n ≤ length src) × (rest ≡ drop n src)
Consumes src (ok none) rest = rest ≡ src
Consumes src (err e) rest = rest ≡ src
Consumes src stuck rest = ⊥

finish_frame-Consumes :
    (r : Result Frame ProtocolError) (src : List ℕ) (d : Decoder)
    → 0 < d.scanner.cursor
    → d.scanner.cursor ≤ length src
    → Consumes src (finish_frame r src d).0 (finish_frame r src d).1
unfolding finish_frame fail
finish_frame-Consumes (Result.ok f) src d h k = (d.scanner.cursor, h, k, refl)
finish_frame-Consumes (Result.err e) src d h k = refl

Runs-complete :
    (src : List ℕ) (r : Outcome Signal) (s : Scanner) {d : Scanner}
    → Runs src r s d
    → d.cursor ≤ length src
    → r ≡ ok complete
    → d.cursor < s.cursor
Runs-complete src r s (Runs.last {d} e stop) h p =
    (Moved-at src d (ok complete) s h (e ∙ ap (λ (x : Outcome Signal). (x, s)) p)).0
Runs-complete src r s (Runs.round {d} {e} x w) h p =
    let m = Moved-at src d (ok again) e h x in omega (arith, Runs-complete src r s w m.1 p)

finish_scan-Consumes :
    (r : Outcome Signal) (src : List ℕ) (s : Scanner) (d : Decoder)
    → Runs src r s d.scanner
    → d.scanner.cursor ≤ length src
    → let run = finish_scan (stops r) src (record d { scanner = s; previous_len = length src }) in
      Consumes src run.0 run.1
unfolding finish_scan fail
finish_scan-Consumes (ok again) src s d w h = absurd (Runs-ne-again src (ok again) s w refl)
finish_scan-Consumes (ok need_more) src s d w h = refl
finish_scan-Consumes (ok complete) src s d w h =
    finish_frame-Consumes (materialize src s.nodes) src _
      (omega (arith, Runs-complete src (ok complete) s w h refl))
      (Runs-moved src (ok complete) s w h)
finish_scan-Consumes (err e) src s d w h = refl
finish_scan-Consumes stuck src s d w h = Runs-moved src stuck s w h

-- For a decoder whose cursor is inside the buffer, `decode` returns; it takes at least one byte, all
-- of them from the front of the buffer, where it returns a frame, and leaves the buffer as it is
-- where it asks for more or fails.
pub decode_buffer :
    (src : List ℕ) (d : Decoder)
    → d.scanner.cursor ≤ length src
    → Consumes src (decode src d).0 (decode src d).1
decode_buffer src d within = elim (Bool-cases d.poisoned) [
  | inl p ↦ unfold decode in rw p
  | inr p ↦ elim (dec_le d.previous_len (length src)) [
    | yes k ↦
        let (r, s, w) = loop-Ends (suc (length src)) src d.scanner within (omega arith) in
        rw (decode-Runs src d r s p k within w) (finish_scan-Consumes r src s d w within)
    | no k ↦ unfold decode fail in ground arith
  ]
]

finish_frame-poisons :
    (r : Result Frame ProtocolError) (src : List ℕ) (d : Decoder) (e : ProtocolError)
    → (finish_frame r src d).0 ≡ err e
    → (finish_frame r src d).2.poisoned ≡ true
unfolding finish_frame fail
finish_frame-poisons (Result.ok f) src d e h = cc
finish_frame-poisons (Result.err x) src d e h = refl

finish_scan-poisons :
    (r : Outcome Bool) (src : List ℕ) (d : Decoder) (e : ProtocolError)
    → (finish_scan r src d).0 ≡ err e
    → (finish_scan r src d).2.poisoned ≡ true
unfolding finish_scan fail
finish_scan-poisons (ok false) src d e h = cc
finish_scan-poisons (ok true) src d e h = finish_frame-poisons _ src d e h
finish_scan-poisons (err x) src d e h = refl
finish_scan-poisons stuck src d e h = cc

decode-poisons :
    (src : List ℕ) (d : Decoder) (e : ProtocolError)
    → (decode src d).0 ≡ err e
    → (decode src d).2.poisoned ≡ true
unfolding decode fail
decode-poisons src d e h = elim (Bool-cases d.poisoned) [
  | inl p ↦ rw p
  | inr p ↦ elim (Bool-cases (ltb (length src) d.previous_len)) [
    | inl k ↦ rw (p, k)
    | inr k ↦ rw (p, k) (finish_scan-poisons _ src _ e (rw (p, k) at h))
  ]
]

decode_dead :
    (later : List ℕ) (d : Decoder) → d.poisoned ≡ true → decode later d ≡ (err poisoned, later, d)
unfolding decode
decode_dead later d h = ground arith

-- After a call that fails, each later call on any buffer answers `Poisoned`, and changes neither the
-- buffer nor the decoder.
pub decode_poisoned :
    (src later : List ℕ) (d : Decoder) (e : ProtocolError)
    → (decode src d).0 ≡ err e
    → decode later (decode src d).2 ≡ (err poisoned, later, (decode src d).2)
decode_poisoned src later d e h = decode_dead later _ (decode-poisons src d e h)
