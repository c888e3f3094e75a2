-- ===== src/Persistence/Order.antt =====
-- persistence/writer.rs: what the loop of recovery accepts has the order of a history.
use mathlib.Core.Path.{subst}
use sider.Prelude.{
  ℕ, ◌+◌, ◌≡◌, refl, ap, sym, ◌∙◌, Bool, true, false, ◌&&◌, Option, none, some, List, [], ◌∷◌, ◌==◌,
  not, if◌then◌else◌, Result, ok, err, and_then, arith,
}
use sider.Prelude.Machine.{checked_add}
use sider.Resp.Frame.{Bytes}
use sider.Storage.Mutation.{Mutation, ResolvedBatch, put, delete, key_of}
use sider.Persistence.Record.{Limits, Record, snapshot, seal, batch, encode, snapshot_digest}
use sider.Persistence.Sizes.{and_then-ok}
use sider.Persistence.Recovery.{
  RecoverError, Progress, start, step, run, follows, is_next, is_put, from_format, sequence,
}

guard_ok :
    {A : Type 0} {a : A} (b : Bool) (x : Result A RecoverError)
    → (if b then x else err sequence) ≡ ok a
    → (b ≡ true) × (x ≡ ok a)
guard_ok true x h = (refl, h)
guard_ok false x h = cc

module _ {S : Type 0} (replay : S → List Mutation → Result S RecoverError) (limits : Limits)
    (base : ℕ) where
  -- Batches that are numbered without a gap from a sequence on, and the last number.
  abbrev pub Numbered : ℕ → List Record → ℕ → Type 0
  Numbered before [] last = before ≡ last
  Numbered before (batch number b ∷ rs) last = (number ≡ before + 1) × Numbered number rs last
  Numbered before (r ∷ rs) last = ⊥

  -- A snapshot of ascending keys, its seal, and such batches.
  abbrev pub History : Option Bytes → List Record → ℕ → Type 0
  History previous (snapshot (put key value expires_at) ∷ rs) last =
      (follows previous key ≡ true) × History (some key) rs last
  History previous (seal number entries sum ∷ rs) last = (number ≡ base) × Numbered base rs last
  History previous rs last = ⊥

  ok_at :
      {B : Type 0} (f : Progress S → B) (a q : Progress S)
      → ◌≡◌ {A = Result (Progress S) RecoverError} (ok a) (ok q)
      → f a ≡ f q
  ok_at f a q e =
      ap (λ (r : Result (Progress S) RecoverError). elim r [ ok x ↦ f x | err e ↦ f a ]) e

  batch_step :
      (p q : Progress S) (number : ℕ) (b : ResolvedBatch)
      → step replay limits base p (batch number b) ≡ ok q
      → (p.sealed ≡ true) × (number ≡ p.sequence + 1) × (q.sequence ≡ number) × (q.sealed ≡ true)
  unfolding step
  batch_step p q number b h =
      let (test, replayed) =
        guard_ok (p.sealed && is_next (checked_add p.sequence 1) number)
          (and_then (replay p.store b.mutations)
            (λ store. ok (record p { store = store; sequence = number })))
          h in
      let (store, applied, made) =
        and_then-ok (replay p.store b.mutations)
          (λ store. ok (record p { store = store; sequence = number })) replayed in
      (
        ground (arith, test),
        ground (arith, test),
        sym (ok_at (λ x. x.sequence) _ q made),
        ground (arith, test, ok_at (λ x. x.sealed) _ q made),
      )

  -- A step that takes a record of the snapshot leaves the log unsealed.
  snapshot_step :
      (p q : Progress S) (m : Mutation)
      → step replay limits base p (snapshot m) ≡ ok q
      → (p.sealed ≡ false)
        × (is_put m ≡ true)
        × (follows p.previous_key (key_of m) ≡ true)
        × (q.sealed ≡ false)
        × (q.previous_key ≡ some (key_of m))
        × (q.sequence ≡ p.sequence)
  unfolding step
  snapshot_step p q m h =
      let (test, keyed) = guard_ok (not p.sealed && is_put m) _ h in
      let (order, written) = guard_ok (follows p.previous_key (key_of m)) _ keyed in
      let (bytes, wrote, replayed) =
        and_then-ok (from_format (encode (snapshot m) limits))
          (λ bytes. and_then (replay p.store (m ∷ [])) (λ store. ok (record p {
            store = store;
            previous_key = some (key_of m);
            snapshot_entries = p.snapshot_entries + 1;
            digest = snapshot_digest p.digest bytes;
          })))
          written in
      let (store, applied, made) =
        and_then-ok (replay p.store (m ∷ []))
          (λ store. ok (record p {
            store = store;
            previous_key = some (key_of m);
            snapshot_entries = p.snapshot_entries + 1;
            digest = snapshot_digest p.digest bytes;
          }))
          replayed in
      (
        ground (arith, test),
        ground (arith, test),
        order,
        ground (arith, test, ok_at (λ x. x.sealed) _ q made),
        sym (ok_at (λ x. x.previous_key) _ q made),
        sym (ok_at (λ x. x.sequence) _ q made),
      )

  seal_step :
      (p q : Progress S) (number entries sum : ℕ)
      → step replay limits base p (seal number entries sum) ≡ ok q
      → (p.sealed ≡ false) × (number ≡ base) × (q.sealed ≡ true) × (q.sequence ≡ p.sequence)
  unfolding step
  seal_step p q number entries sum h =
      let (test, made) =
        guard_ok
          (not p.sealed && (number == base && (entries == p.snapshot_entries && sum == p.digest))) _
          h in
      (
        ground (arith, test),
        ground (arith, test),
        sym (ok_at (λ x. x.sealed) _ q made),
        sym (ok_at (λ x. x.sequence) _ q made),
      )

  run-Numbered :
      (p q : Progress S) (rs : List Record)
      → p.sealed ≡ true
      → run replay limits base p rs ≡ ok q
      → Numbered p.sequence rs q.sequence
  unfolding run
  run-Numbered p q [] sealed h = ok_at (λ x. x.sequence) p q h
  run-Numbered p q (snapshot m ∷ rs) sealed h =
      let (next, one, later) =
        and_then-ok (step replay limits base p (snapshot m)) (λ q. run replay limits base q rs) h in
      let (not_yet, is, order, still, key, same) = snapshot_step p next m one in
      absurd (ground (arith, sealed, not_yet))
  run-Numbered p q (seal number entries sum ∷ rs) sealed h =
      let (next, one, later) =
        and_then-ok (step replay limits base p (seal number entries sum))
          (λ q. run replay limits base q rs) h in
      let (not_yet, number_eq, now, same) = seal_step p next number entries sum one in
      absurd (ground (arith, sealed, not_yet))
  run-Numbered p q (batch number b ∷ rs) sealed h =
      let (next, one, later) =
        and_then-ok (step replay limits base p (batch number b)) (λ q. run replay limits base q rs)
          h in
      let (was, number_eq, sequence_eq, still) = batch_step p next number b one in
      (
        number_eq,
        subst (λ (n : ℕ). Numbered n rs q.sequence) sequence_eq
            (run-Numbered next q rs still later),
      )

  run-ordered :
      (p q : Progress S) (rs : List Record)
      → p.sealed ≡ false
      → p.sequence ≡ base
      → run replay limits base p rs ≡ ok q
      → q.sealed ≡ true
      → History p.previous_key rs q.sequence
  unfolding run
  run-ordered p q [] unsealed at h done =
      absurd (ground (arith, unsealed, done, ok_at (λ x. x.sealed) p q h))
  run-ordered p q (snapshot (delete key) ∷ rs) unsealed at h done =
      let (next, one, later) =
        and_then-ok (step replay limits base p (snapshot (delete key)))
          (λ q. run replay limits base q rs) h in
      let (not_yet, is, order, still, previous, same) = snapshot_step p next (delete key) one in
      absurd (ground (arith, is))
  run-ordered p q (snapshot (put key value expires_at) ∷ rs) unsealed at h done =
      let (next, one, later) =
        and_then-ok (step replay limits base p (snapshot (put key value expires_at)))
          (λ q. run replay limits base q rs) h in
      let (not_yet, is, order, still, previous, same) =
        snapshot_step p next (put key value expires_at) one in
      (
        order,
        subst (λ (o : Option Bytes). History o rs q.sequence) previous
            (run-ordered next q rs still (same ∙ at) later done),
      )
  run-ordered p q (seal number entries sum ∷ rs) unsealed at h done =
      let (next, one, later) =
        and_then-ok (step replay limits base p (seal number entries sum))
          (λ q. run replay limits base q rs) h in
      let (not_yet, number_eq, now, same) = seal_step p next number entries sum one in
      (
        number_eq,
        subst (λ (n : ℕ). Numbered n rs q.sequence) (same ∙ at) (run-Numbered next q rs now later),
      )
  run-ordered p q (batch number b ∷ rs) unsealed at h done =
      let (next, one, later) =
        and_then-ok (step replay limits base p (batch number b)) (λ q. run replay limits base q rs)
          h in
      let (was, number_eq, sequence_eq, still) = batch_step p next number b one in
      absurd (ground (arith, unsealed, was))

  -- The records that a recovery accepts and that are sealed are a snapshot of strictly ascending keys,
  -- the seal of the sequence of the header, and batches numbered from there on without a gap, up to
  -- the sequence that is recovered.
  pub run-History :
      (store : S) (q : Progress S) (rs : List Record)
      → run replay limits base (start store base) rs ≡ ok q
      → q.sealed ≡ true
      → History none rs q.sequence
  run-History store q rs h done = run-ordered (start store base) q rs refl refl h done
