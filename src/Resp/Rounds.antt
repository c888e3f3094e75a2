-- ===== src/Resp/Rounds.antt =====
-- One round of the loop of `scan`, and what becomes of it when more bytes arrive.
use native.Mathlib.Decide.{dec_le}
use sider.Prelude.{
  ℕ, ◌+◌, ◌≡◌, ◌≢◌, refl, ap, sym, ◌∙◌, inl, inr, Bool, none, List, ◌++◌, arith, length,
  length-append, ◌<◌, ◌≤◌, get_elem?, get_elem?-some_lt, Option-cases,
}
use sider.Resp.State.{Payload, Line, State, Scanner, Outcome, ok, err, stuck}
use sider.Resp.Header.{prefix_step, prefix_byte, Signal, again, need_more, complete}
use sider.Resp.Decoder.{line_step, line_byte, blob_byte, blob_step, step}
use sider.Resp.Post.{Post, Returns}
use sider.Resp.Progress.{line_step_reads, prefix_step_reads, blob_byte_reads}
use sider.Resp.Incremental.{past, blob_step_there, blob_step_missing, blob_byte-none}

-- A round that waits may be taken again from where it stopped.
abbrev pub Moved : List ℕ → Scanner → Signal → Scanner → Type 0
Moved src d again d' = (d.cursor < d'.cursor) × (d'.cursor ≤ length src)
Moved src d need_more d' =
    (d.cursor ≤ d'.cursor)
    × (d'.cursor ≤ length src)
    × ((more : List ℕ) → step (src ++ more) d' ≡ step (src ++ more) d)
Moved src d complete d' = (d.cursor < d'.cursor) × (d'.cursor ≤ length src)

Moved-reads :
    (src : List ℕ) (d : Scanner) (c : ℕ) (r : Outcome Signal) (d' : Scanner)
    → d.cursor ≤ c
    → c < length src
    → Post (λ s e. (s ≢ need_more) × (e.cursor ≡ c + 1)) r d'
    → Post (Moved src d) r d'
Moved-reads src d c (ok again) d' le h p = omega arith
Moved-reads src d c (ok need_more) d' le h p = absurd (p.0 refl)
Moved-reads src d c (ok complete) d' le h p = omega arith
Moved-reads src d c (err e) d' le h p = tt
Moved-reads src d c stuck d' le h p = p

-- Waiting without having moved.
Moved-stays :
    (src : List ℕ) (d : Scanner) (r : Outcome Signal) (d' : Scanner)
    → d.cursor ≤ length src
    → Post (λ s e. (s ≡ need_more) × (e ≡ d)) r d'
    → Post (Moved src d) r d'
Moved-stays src d (ok again) d' h p = cc
Moved-stays src d (ok need_more) d' h p = (
  omega (arith, ap (λ (t : Scanner). t.cursor) p.1),
  omega (arith, ap (λ (t : Scanner). t.cursor) p.1),
  λ more. ap (step (src ++ more)) p.1,
)
Moved-stays src d (ok complete) d' h p = cc
Moved-stays src d (err e) d' h p = tt
Moved-stays src d stuck d' h p = p

prefix_step_waits : (d : Scanner) → Returns (λ s e. (s ≡ need_more) × (e ≡ d)) (prefix_step none d)
unfolding prefix_step prefix_byte
prefix_step_waits d = ground arith

line_step_waits :
    (src : List ℕ) (l : Line) (d : Scanner)
    → Returns (λ s e. (s ≡ need_more) × (e ≡ d)) (line_step src l none d)
unfolding line_step line_byte
line_step_waits src l d = ground arith

module _ (src : List ℕ) (d : Scanner) (within : d.cursor ≤ length src) where
  prefix-Moved : Returns (Moved src d) (prefix_step (get_elem? src d.cursor) d)
  prefix-Moved = elim (Option-cases (get_elem? src d.cursor)) [
    | inl e ↦ rw e (Moved-stays src d _ _ within (prefix_step_waits d))
    | inr (b, e) ↦ rw e (
        Moved-reads src d d.cursor _ _ (omega arith) (get_elem?-some_lt src d.cursor b e)
          (prefix_step_reads b d))
  ]

  line-Moved : (l : Line) → Returns (Moved src d) (line_step src l (get_elem? src d.cursor) d)
  line-Moved l = elim (Option-cases (get_elem? src d.cursor)) [
    | inl e ↦ rw e (Moved-stays src d _ _ within (line_step_waits src l d))
    | inr (b, e) ↦ rw e (
        Moved-reads src d d.cursor _ _ (omega arith) (get_elem?-some_lt src d.cursor b e)
          (line_step_reads src l b d))
  ]

past-past : (p : Payload) (d : Scanner) → past p (past p d) ≡ past p d
past-past p d = ground arith

past_skips :
    (p : Payload) (d : Scanner) (c : ℕ)
    → d.cursor ≤ c
    → c < p.end
    → past p (record d { cursor = c }) ≡ past p d
past_skips p d c h k = ground arith

module _ (p : Payload) (saw_cr : Bool) (kind : ℕ) where
  -- The decoder in the middle of a blob.
  abbrev at_blob : Scanner → Scanner
  at_blob d = record d { state = State.bulk p saw_cr kind }

  abbrev from_past : List ℕ → Scanner → Outcome Signal × Scanner
  from_past src d = blob_byte src p saw_cr kind (get_elem? src d.cursor) d

  blob_past :
      (src : List ℕ) (d : Scanner)
      → p.end ≤ length src
      → blob_step src p saw_cr kind (past p d) ≡ blob_step src p saw_cr kind d
  blob_past src d h =
      blob_step_there src p saw_cr kind (past p d) h
      ∙ (ap (from_past src) (past-past p d) ∙ sym (blob_step_there src p saw_cr kind d h))

  blob_resumes :
      (src : List ℕ) (d : Scanner) (c : ℕ)
      → d.cursor ≤ c
      → c < p.end
      → c ≤ length src
      → blob_step src p saw_cr kind (record d { cursor = c }) ≡ blob_step src p saw_cr kind d
  blob_resumes src d c le lt within = elim (dec_le p.end (length src)) [
    | yes h ↦
        blob_step_there src p saw_cr kind (record d { cursor = c }) h
        ∙ (ap (from_past src) (past_skips p d c le lt)
            ∙ sym (blob_step_there src p saw_cr kind d h))
    | no h ↦
        blob_step_missing src p saw_cr kind (record d { cursor = c }) (omega arith) within
        ∙ sym (blob_step_missing src p saw_cr kind d (omega arith) (omega arith))
  ]

  Moved-past :
      (src : List ℕ) (d : Scanner)
      → (past p (at_blob d)).cursor ≤ length src
      → p.end ≤ length src
      → Moved src (at_blob d) need_more (past p (at_blob d))
  unfolding step
  Moved-past src d within h = (
    ground arith,
    within,
    λ more. blob_past (src ++ more) (at_blob d) (omega (arith, length-append src more)),
  )

  Moved-missing :
      (src : List ℕ) (d : Scanner)
      → d.cursor ≤ length src
      → length src < p.end
      → Moved src (at_blob d) need_more (record (at_blob d) { cursor = length src })
  unfolding step
  Moved-missing src d within h = (
    within,
    omega arith,
    λ more.
        blob_resumes (src ++ more) (at_blob d) (length src) within h
          (omega (arith, length-append src more)),
  )

  from_past-Moved :
      (src : List ℕ) (d : Scanner)
      → p.end ≤ length src
      → d.cursor ≤ length src
      → Returns (Moved src (at_blob d)) (from_past src (past p (at_blob d)))
  from_past-Moved src d h within = elim (Option-cases (get_elem? src (past p (at_blob d)).cursor)) [
    | inl e ↦
        rw (e, blob_byte-none src p saw_cr kind (past p (at_blob d)))
          (Moved-past src d (ground arith) h)
    | inr (b, e) ↦ rw e (
        Moved-reads src (at_blob d) (past p d).cursor _ _ (ground arith)
          (get_elem?-some_lt src (past p d).cursor b e)
          (blob_byte_reads src p saw_cr kind b (past p (at_blob d)) h))
  ]

  blob-Moved :
      (src : List ℕ) (d : Scanner)
      → d.cursor ≤ length src
      → Returns (Moved src (at_blob d)) (blob_step src p saw_cr kind (at_blob d))
  blob-Moved src d within = elim (dec_le p.end (length src)) [
    | yes h ↦ rw (blob_step_there src p saw_cr kind (at_blob d) h) (from_past-Moved src d h within)
    | no h ↦
        rw (blob_step_missing src p saw_cr kind (at_blob d) (omega arith) within)
          (Moved-missing src d within (omega arith))
  ]

-- A round from inside the buffer stays inside it; it has read a byte, or it waits for more.
pub step-Moved :
    (src : List ℕ) (d : Scanner) → d.cursor ≤ length src → Returns (Moved src d) (step src d)
unfolding step
step-Moved src d within =
    elim d.state
      as (λ s. Returns (Moved src (record d { state = s })) (step src (record d { state = s }))) [
        | State.prefix ↦ prefix-Moved src (record d { state = State.prefix }) within
        | State.line l ↦ line-Moved src (record d { state = State.line l }) within l
        | State.bulk p s k ↦ blob-Moved p s k src d within
      ]
