-- ===== src/Replication/Delivery.antt =====
-- replication/journal.rs: what a subscriber is given.
use native.Mathlib.Decide.{dec_le}
use sider.Prelude.{
  bytes_eq_self, ℕ, zero, suc, ◌+◌, ◌-◌, ◌≡◌, refl, ap, sym, ◌∙◌, true, false, Option, none, some,
  List, [], ◌∷◌, arith, length, ◌<◌, ◌≤◌, Result, ok, err, Option-cases, inl, inr, ◌⊎◌, get_elem?,
  bytes_eq, get_elem?-none_ge,
}
use sider.Prelude.Machine.{usize_max}
use sider.Replication.Cursor.{Bytes, Cursor}
use sider.Replication.Journal.{
  Error, lagged, Entry, State, Journal, next, entry_after, found, front_sequence,
}
use sider.Replication.Retention.{Contiguous, IsValid}

pub Contiguous-length :
    (ep : Bytes) (first last : ℕ) (es : List Entry)
    → Contiguous ep first es last
    → first + length es ≡ last
Contiguous-length ep first last [] h = omega (arith, h)
Contiguous-length ep first last (e ∷ es) h =
    omega (arith, Contiguous-length ep (suc first) last es h.2)

pub Contiguous-get :
    (ep : Bytes) (first last i : ℕ) (es : List Entry) (e : Entry)
    → Contiguous ep first es last
    → get_elem? es i ≡ some e
    → (e.cursor.epoch ≡ ep) × (e.cursor.sequence ≡ first + i)
Contiguous-get ep first last i [] e h g = cc
Contiguous-get ep first last zero (x ∷ es) e h g = ground arith
Contiguous-get ep first last (suc i) (x ∷ es) e h g =
    let (p, q) = Contiguous-get ep (suc first) last i es e h.2 g in (p, omega arith)

-- What an answer to a cursor of the history's own epoch says.
abbrev pub Answers : State → Cursor → Result (Option Entry) Error → Type 0
Answers s c (ok none) = c.sequence ≡ s.head.sequence
Answers s c (ok (some e)) =
    (e.cursor.epoch ≡ s.head.epoch)
    × (e.cursor.sequence ≡ c.sequence + 1)
    × ((i : ℕ) × (get_elem? s.entries i ≡ some e))
Answers s c (err Error.limit) = ⊥
Answers s c (err Error.epoch) = ⊥
Answers s c (err Error.closed) = ⊥
Answers s c (err Error.sequence) = s.head.sequence < c.sequence
Answers s c (err Error.lagged) = c.sequence + length s.entries < s.head.sequence

found-Answers :
    (j : Journal) (v : IsValid j) (c : Cursor) (i : ℕ)
    → c.sequence < j.state.head.sequence
    → c.sequence + 1 ≡ v.first + i
    → Answers j.state c (found (get_elem? j.state.entries i))
found-Answers j v c i behind at = elim (Option-cases (get_elem? j.state.entries i)) [
  | inl e ↦
      rw e (
        omega
          (arith, get_elem?-none_ge j.state.entries i e, Contiguous-length _ _ _ _ v.contiguous))
  | inr (x, e) ↦
      let (p, q) = Contiguous-get _ _ _ i j.state.entries x v.contiguous e in
      rw e (p, q ∙ sym at, (i, e))
]

front_first :
    (ep : Bytes) (first last : ℕ) (es : List Entry)
    → Contiguous ep first es last
    → (es ≡ []) ⊎ (front_sequence es ≡ some first)
front_first ep first last [] h = inl refl
front_first ep first last (e ∷ es) h = inr (ap some h.1)

entry_after-found :
    (s : State) (seq f : ℕ)
    → seq + 1 ≤ usize_max
    → front_sequence s.entries ≡ some f
    → f ≤ seq + 1
    → entry_after s seq ≡ found (get_elem? s.entries (seq + 1 - f))
unfolding entry_after
entry_after-found s seq f bound e le = simp e (ground arith)

entry_after_gone :
    (s : State) (seq f : ℕ)
    → seq + 1 ≤ usize_max
    → front_sequence s.entries ≡ some f
    → seq + 1 < f
    → entry_after s seq ≡ err lagged
unfolding entry_after
entry_after_gone s seq f bound e lt = simp e (ground arith)

entry_after_empty :
    (s : State) (seq : ℕ) → seq + 1 ≤ usize_max → s.entries ≡ [] → entry_after s seq ≡ err lagged
unfolding entry_after
entry_after_empty s seq bound e = simp e (ground arith)

entry_after-Answers :
    (j : Journal) (v : IsValid j) (c : Cursor)
    → c.sequence < j.state.head.sequence
    → Answers j.state c (entry_after j.state c.sequence)
entry_after-Answers j v c behind = elim (front_first _ _ _ j.state.entries v.contiguous) [
  | inl e ↦
      rw (entry_after_empty j.state c.sequence (omega (arith, v.in_range)) e)
        (omega (arith, ap (λ (l : List Entry). length l) e))
  | inr e ↦ elim (dec_le v.first (c.sequence + 1)) [
    | yes le ↦
        rw (entry_after-found j.state c.sequence v.first (omega (arith, v.in_range)) e le)
          (found-Answers j v c _ behind (omega arith))
    | no lt ↦
        rw (entry_after_gone j.state c.sequence v.first (omega (arith, v.in_range)) e (omega arith))
          (omega (arith, Contiguous-length _ _ _ _ v.contiguous))
  ]
]

-- On a valid history that is open, a cursor of its epoch is told that it is at the head, or is given
-- the very next batch, or learns that it is ahead of the head or that its next batch is gone, each
-- exactly in that case.
pub next-Answers :
    (j : Journal) (c : Cursor)
    → IsValid j
    → j.state.closed ≡ false
    → c.epoch ≡ j.state.head.epoch
    → Answers j.state c (next j.state c)
unfolding next
next-Answers j c v live same =
    let own : bytes_eq c.epoch j.state.head.epoch ≡ true =
      rw same (bytes_eq_self j.state.head.epoch) in
    ground (arith, own, entry_after-Answers j v c)
