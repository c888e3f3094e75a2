-- ===== src/Replication/Retention.antt =====
-- replication/journal.rs: what the history keeps, whatever is published.
use native.Mathlib.Nat.{add-zero}
use sider.Prelude.{
  ◌==◌, ◌||◌, ℕ, suc, ◌+◌, ◌-◌, ◌≡◌, refl, ap, sym, ◌∙◌, true, false, some, List, [], ◌∷◌, ◌++◌,
  arith, length, length-append, ◌<◌, ◌≤◌, ltb, leb, Result, ok, err, Bool-cases, inl, inr,
}
use sider.Prelude.Machine.{usize_max}
use sider.Replication.Cursor.{Bytes, Cursor}
use sider.Replication.Journal.{
  Limits, Error, limit, closed, Entry, Journal, new, make_room, follows, push, publish, close,
}

abbrev pub total : List Entry → ℕ
total [] = 0
total (e ∷ es) = length e.frame + total es

-- The entries carry the epoch and the sequence numbers from `first` on, up to `next`.
abbrev pub Contiguous : Bytes → ℕ → List Entry → ℕ → Type 0
Contiguous epoch first [] next = first ≡ next
Contiguous epoch first (e ∷ es) next =
    (e.cursor.epoch ≡ epoch) × (e.cursor.sequence ≡ first) × Contiguous epoch (suc first) es next

-- The limits that `Journal::new` accepts, the state's bytes and batches within them, and a history
-- without gaps up to the head.
pub record IsValid (j : Journal) : Type 0 where
  pub room : 0 < j.limits.max_batches
  pub frame_fits : j.limits.max_frame_bytes ≤ j.limits.max_bytes
  pub accounted : j.state.bytes ≡ total j.state.entries
  pub within_bytes : j.state.bytes ≤ j.limits.max_bytes
  pub within_batches : length j.state.entries ≤ j.limits.max_batches
  pub in_range : j.state.head.sequence ≤ usize_max
  pub first : ℕ
  pub contiguous : Contiguous j.state.head.epoch first j.state.entries (suc j.state.head.sequence)

-- A history that `Journal::new` accepts, for a head whose sequence is a `u64`, is valid.
pub new-IsValid :
    (head : Cursor) (limits : Limits) (j : Journal)
    → head.sequence ≤ usize_max
    → new head limits ≡ ok j
    → IsValid j
unfolding new
new-IsValid head limits j bound h = record {
  room = ground arith;
  frame_fits = ground arith;
  accounted = ground arith;
  within_bytes = ground arith;
  within_batches = ground arith;
  in_range = ground arith;
  first = suc head.sequence;
  contiguous = ground arith;
}

-- `make_room` drops the oldest entries, and only them.
abbrev pub Kept : List Entry → List Entry → Type 0
Kept old kept = (gone : List Entry) × (old ≡ gone ++ kept)

-- The entries kept fit the room asked for, and leave room for one more batch.
abbrev MakesRoom : ℕ → ℕ → List Entry → Type 0
MakesRoom space batches es =
    (kept : List Entry) × (make_room space batches (total es) es ≡ some (kept, total kept))
    × (total kept ≤ space)
    × (length kept < batches)
    × Kept es kept

make_room_step :
    (space batches : ℕ) (e : Entry) (es : List Entry)
    → (ltb space (total (e ∷ es)) || leb batches (length (e ∷ es))) ≡ true
    → make_room space batches (total (e ∷ es)) (e ∷ es) ≡ make_room space batches (total es) es
unfolding make_room
make_room_step space batches e es h =
    rw h (ap (λ (n : ℕ). make_room space batches n es) (omega arith))

make_room_keeps : (space batches : ℕ) (es : List Entry) → 0 < batches → MakesRoom space batches es
make_room_keeps space batches [] h =
    ([], unfold make_room in ground arith, omega arith, h, ([], refl))
make_room_keeps space batches (e ∷ es) h =
    elim (Bool-cases (ltb space (total (e ∷ es)) || leb batches (length (e ∷ es)))) [
      | inl over ↦
          let (kept, made, fits, few, old) = make_room_keeps space batches es h in
          let (gone, split) = old in
          (
            kept,
            make_room_step space batches e es over ∙ made,
            fits,
            few,
            (e ∷ gone, ap (λ (l : List Entry). e ∷ l) split),
          )
      | inr fits ↦ (e ∷ es, unfold make_room in rw fits, ground arith, ground arith, ([], refl))
    ]

total-append : (xs ys : List Entry) → total (xs ++ ys) ≡ total xs + total ys
total-append [] ys = omega arith
total-append (x ∷ xs) ys = omega (arith, total-append xs ys)

-- What is left of a history without gaps has none.
Contiguous-drop :
    (epoch : Bytes) (first next : ℕ) (gone kept : List Entry)
    → Contiguous epoch first (gone ++ kept) next
    → Contiguous epoch (first + length gone) kept next
Contiguous-drop epoch first next [] kept h = rw (add-zero first) h
Contiguous-drop epoch first next (e ∷ gone) kept h =
    rw (shift first (length gone)) (Contiguous-drop epoch (suc first) next gone kept h.2)
  where
    shift : (a b : ℕ) → a + suc b ≡ suc a + b
    shift a b = omega arith

pub Contiguous-snoc :
    (epoch : Bytes) (first next : ℕ) (es : List Entry) (e : Entry)
    → Contiguous epoch first es next
    → e.cursor.epoch ≡ epoch
    → e.cursor.sequence ≡ next
    → Contiguous epoch first (es ++ (e ∷ [])) (suc next)
Contiguous-snoc epoch first next [] e h p q = (p, q ∙ sym h, ap suc h)
Contiguous-snoc epoch first next (x ∷ es) e h p q =
    (h.0, h.1, Contiguous-snoc epoch (suc first) next es e h.2 p q)

-- What a publication does to the history: it is refused and changes nothing, or the batch is the
-- newest entry of a history from which only the oldest entries have gone.
abbrev pub Publishes : ℕ → Bytes → Journal → Result (Unit {0}) Error → Journal → Type 0
Publishes seq frame j (err e) j' = j' ≡ j
Publishes seq frame j (ok _) j' =
    (j'.state.head.sequence ≡ j.state.head.sequence + 1)
    × (j'.state.head.epoch ≡ j.state.head.epoch)
    × ((kept : List Entry) × Kept j.state.entries kept
        × (j'.state.entries ≡ kept ++ (record { cursor = j'.state.head; frame = frame } ∷ [])))

follows-eq : (head seq : ℕ) → follows head seq ≡ true → (seq ≡ suc head) × (seq ≤ usize_max)
unfolding follows
follows-eq head seq h = ground arith

abbrev entry_at : Journal → ℕ → Bytes → Entry
entry_at j seq frame = record {
  cursor = record { epoch = j.state.head.epoch; sequence = seq };
  frame = frame;
}

push-IsValid :
    (seq : ℕ) (frame : Bytes) (j : Journal) (gone kept : List Entry)
    → IsValid j
    → seq ≡ suc j.state.head.sequence
    → seq ≤ usize_max
    → j.state.entries ≡ gone ++ kept
    → length frame ≤ j.limits.max_frame_bytes
    → total kept ≤ j.limits.max_bytes - length frame
    → length kept < j.limits.max_batches
    → IsValid (push j seq frame (kept, total kept))
unfolding push
push-IsValid seq frame j gone kept v follow bound split small fits few = record {
  room = v.room;
  frame_fits = v.frame_fits;
  accounted = omega (arith, total-append kept (entry_at j seq frame ∷ []));
  within_bytes = omega (arith, v.frame_fits);
  within_batches = omega (arith, length-append kept (entry_at j seq frame ∷ []));
  in_range = bound;
  first = v.first + length gone;
  contiguous =
      Contiguous-snoc j.state.head.epoch (v.first + length gone) seq kept (entry_at j seq frame)
        (rw follow
          (Contiguous-drop j.state.head.epoch v.first _ gone kept (rw split at v.contiguous)))
        refl refl;
}

module _ (seq : ℕ) (frame : Bytes) (j : Journal) where
  abbrev Outcome : Type 0
  Outcome =
      (r : Result (Unit {0}) Error) × (j' : Journal) × (publish seq frame j ≡ some (r, j'))
      × IsValid j'
      × Publishes seq frame j r j'

  refused : (e : Error) → IsValid j → publish seq frame j ≡ some (err e, j) → Outcome
  refused e v h = (err e, j, h, v, refl)

  accepted :
      IsValid j
      → (length frame == 0 || ltb j.limits.max_frame_bytes (length frame)) ≡ false
      → j.state.closed ≡ false
      → follows j.state.head.sequence seq ≡ true
      → Outcome
  accepted v sized live follow =
      let (kept, made, fits, few, old) =
        make_room_keeps (j.limits.max_bytes - length frame) j.limits.max_batches j.state.entries
          v.room in
      let (gone, split) = old in
      let (seq_eq, bound) = follows-eq j.state.head.sequence seq follow in
      (
        ok tt,
        push j seq frame (kept, total kept),
        unfold publish in simp (sized, live, follow, v.accounted, made),
        push-IsValid seq frame j gone kept v seq_eq bound split (ground arith) fits few,
        unfold push in (omega arith, refl, (kept, (gone, split), refl)),
      )

-- On a valid history `publish` does not panic; it keeps the history valid, a refusal leaves head
-- and retention as they are, and a batch that is accepted advances the head by one, stands last in
-- the history, and costs only oldest batches.
pub publish-IsValid :
    (seq : ℕ) (frame : Bytes) (j : Journal)
    → IsValid j
    → (r : Result (Unit {0}) Error) × (j' : Journal) × (publish seq frame j ≡ some (r, j'))
      × IsValid j'
      × Publishes seq frame j r j'
unfolding publish
publish-IsValid seq frame j v =
    elim (Bool-cases (length frame == 0 || ltb j.limits.max_frame_bytes (length frame))) [
      | inl t ↦ refused seq frame j limit v (rw t)
      | inr sized ↦ elim (Bool-cases j.state.closed) [
        | inl t ↦ refused seq frame j closed v (rw (sized, t))
        | inr live ↦ elim (Bool-cases (follows j.state.head.sequence seq)) [
          | inr t ↦ refused seq frame j Error.sequence v (rw (sized, live, t))
          | inl follow ↦ accepted seq frame j v sized live follow
        ]
      ]
    ]

-- Closing a valid history leaves a valid one.
pub close-IsValid : (j : Journal) → IsValid j → IsValid (close j)
unfolding close
close-IsValid j v = record {
  room = v.room;
  frame_fits = v.frame_fits;
  accounted = refl;
  within_bytes = omega arith;
  within_batches = omega arith;
  in_range = v.in_range;
  first = suc j.state.head.sequence;
  contiguous = refl;
}
