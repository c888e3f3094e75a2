-- ===== src/Resp/Fragments.antt =====
-- resp/decoder.rs: the loop of `scan`, on a buffer and on a longer one.
use sider.Prelude.{
  ℕ, zero, suc, ◌+◌, ◌≡◌, ◌≢◌, refl, ap, sym, ◌∙◌, Bool, true, false, List, ◌++◌, arith, length,
  ◌<◌, ◌≤◌,
}
use sider.Resp.State.{Scanner, Outcome, ok, err, stuck}
use sider.Resp.Header.{Signal, again, need_more, complete}
use sider.Resp.Decoder.{step, scan}
use sider.Resp.Post.{Post}
use sider.Resp.Incremental.{step-append}
use sider.Resp.Rounds.{Moved, step-Moved}

-- The result of a loop that stops after this round.
abbrev pub stops : Outcome Signal → Outcome Bool
stops (ok again) = stuck
stops (ok need_more) = ok false
stops (ok complete) = ok true
stops (err e) = err e
stops stuck = stuck

scan_again :
    (f : ℕ) (src : List ℕ) (d d' : Scanner)
    → step src d ≡ (ok again, d')
    → scan (suc f) src d ≡ scan f src d'
unfolding scan
scan_again f src d d' e = ground arith

scan-stops :
    (f : ℕ) (src : List ℕ) (d : Scanner) (r : Outcome Signal) (d' : Scanner)
    → step src d ≡ (r, d')
    → r ≢ ok again
    → scan (suc f) src d ≡ (stops r, d')
unfolding scan
scan-stops f src d (ok again) d' e h = absurd (h refl)
scan-stops f src d (ok need_more) d' e h = ground arith
scan-stops f src d (ok complete) d' e h = ground arith
scan-stops f src d (err x) d' e h = ground arith
scan-stops f src d stuck d' e h = ground arith

-- The rounds of the loop of `scan` up to its last, and what that one decides.
pub data Runs (src : List ℕ) (r : Outcome Signal) (d' : Scanner) : Scanner → Type 0 where
  last : {d : Scanner} → step src d ≡ (r, d') → r ≢ ok again → Runs src r d' d
  round : {d e : Scanner} → step src d ≡ (ok again, e) → Runs src r d' e → Runs src r d' d

pub Moved-at :
    (src : List ℕ) (d : Scanner) (r : Outcome Signal) (d' : Scanner)
    → d.cursor ≤ length src
    → step src d ≡ (r, d')
    → Post (Moved src d) r d'
Moved-at src d r d' h e = rw e at (step-Moved src d h)

-- With fuel for the bytes that are left the loop stops, and what it returns is that of its rounds.
pub scan-Runs :
    (f : ℕ) (src : List ℕ) (r : Outcome Signal) (d' : Scanner) {d : Scanner}
    → Runs src r d' d
    → d.cursor ≤ length src
    → length src < f + d.cursor
    → scan f src d ≡ (stops r, d')
scan-Runs zero src r d' w h enough = absurd (omega arith)
scan-Runs (suc f) src r d' (last {d} e stop) h enough = scan-stops f src d r d' e stop
scan-Runs (suc f) src r d' (round {d} {e} s w) h enough =
    let m = Moved-at src d (ok again) e h s in
    scan_again f src d e s ∙ scan-Runs f src r d' w m.1 (omega arith)

abbrev pub Ends : List ℕ → Scanner → Type 0
Ends src d = (r : Outcome Signal) × (d' : Scanner) × Runs src r d' d

Ends-step :
    (src : List ℕ) (d : Scanner) (r : Outcome Signal) (d' : Scanner)
    → step src d ≡ (r, d')
    → (r ≡ ok again → Ends src d')
    → Ends src d
Ends-step src d (ok again) d' e k = let (r, e', w) = k refl in (r, e', round e w)
Ends-step src d (ok need_more) d' e k = (ok need_more, d', last e (λ p. cc))
Ends-step src d (ok complete) d' e k = (ok complete, d', last e (λ p. cc))
Ends-step src d (err x) d' e k = (err x, d', last e (λ p. cc))
Ends-step src d stuck d' e k = (stuck, d', last e (λ p. cc))

pub loop-Ends :
    (f : ℕ) (src : List ℕ) (d : Scanner)
    → d.cursor ≤ length src
    → length src < f + d.cursor
    → Ends src d
loop-Ends zero src d h enough = absurd (omega arith)
loop-Ends (suc f) src d h enough = Ends-step src d _ (step src d).1 refl (λ e.
    let m =
      Moved-at src d (ok again) (step src d).1 h
        (ap (λ (r : Outcome Signal). (r, (step src d).1)) e) in
    loop-Ends f src (step src d).1 m.1 (omega arith))

-- What the loop ends with is no fault, and its cursor is inside the buffer.
pub Runs-moved :
    (src : List ℕ) (r : Outcome Signal) (d' : Scanner) {d : Scanner}
    → Runs src r d' d
    → d.cursor ≤ length src
    → Post (λ _ e. e.cursor ≤ length src) r d'
Runs-moved src (ok again) d' (last e stop) h = absurd (stop refl)
Runs-moved src (ok need_more) d' (last {d} e stop) h = (Moved-at src d _ d' h e).1
Runs-moved src (ok complete) d' (last {d} e stop) h = (Moved-at src d _ d' h e).1
Runs-moved src (err x) d' (last e stop) h = tt
Runs-moved src stuck d' (last {d} e stop) h = Moved-at src d stuck d' h e
Runs-moved src r d' (round {d} {e} s w) h =
    Runs-moved src r d' w (Moved-at src d (ok again) e h s).1

Runs-same :
    (src : List ℕ) (r : Outcome Signal) (d' : Scanner) {d : Scanner} (e : Scanner)
    → step src e ≡ step src d
    → Runs src r d' d
    → Runs src r d' e
Runs-same src r d' e p (last s stop) = last (p ∙ s) stop
Runs-same src r d' e p (round s w) = round (p ∙ s) w

-- A loop that waited goes on where it stopped: with more bytes it ends as it would have from the start.
pub Runs-resume :
    (src more : List ℕ) (q : Outcome Signal) (d' : Scanner) {d : Scanner}
    → Runs src q d' d
    → q ≡ ok need_more
    → d.cursor ≤ length src
    → (r : Outcome Signal) (e : Scanner) → Runs (src ++ more) r e d'
    → Runs (src ++ more) r e d
Runs-resume src more q d' (last {d} s stop) p h r e w =
    let m = Moved-at src d (ok need_more) d' h (s ∙ ap (λ (x : Outcome Signal). (x, d')) p) in
    Runs-same (src ++ more) r e d (sym (m.2 more)) w
Runs-resume src more q d' (round {d} {e = c} s v) p h r e w =
    round (step-append src more d h (rw s (λ x. cc)) ∙ s)
      (Runs-resume src more q d' v p (Moved-at src d (ok again) c h s).1 r e w)
