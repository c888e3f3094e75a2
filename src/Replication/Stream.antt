-- ===== src/Replication/Stream.antt =====
-- replication/journal.rs: a primary that publishes and a subscriber that reads, in any order.
use mathlib.Core.Path.{subst}
use sider.Prelude.{some_eq}
use sider.Prelude.{◌⊎◌}
use sider.Prelude.{
  ℕ, suc, ◌+◌, ◌≡◌, refl, ap, sym, ◌∙◌, false, Option, none, some, List, [], ◌∷◌, ◌++◌, arith,
  length, length-append, append_assoc, Result, ok, err, inl, inr, append-nil, get_elem?,
}
use sider.Replication.Cursor.{Bytes, Cursor}
use sider.Replication.Journal.{Error, Entry, State, Journal, next, Subscriber, poll, publish, close}
use sider.Replication.Retention.{
  Contiguous, Contiguous-snoc, IsValid, publish-IsValid, Publishes, close-IsValid,
}
use sider.Replication.Delivery.{Contiguous-get, Answers, next-Answers}

-- `log` has every batch that was published, and `got` what the subscriber was given.
pub record World : Type 0 where
  pub journal : Journal
  pub log : List Entry
  pub reader : Subscriber
  pub got : List Entry

abbrev newest : Journal → Bytes → Entry
newest j frame = record { cursor = j.state.head; frame = frame }

-- A publication that is refused, a poll that is refused or waits, and the end of the epoch.
pub data Step (w : World) : World → Type 0 where
  published :
      (seq : ℕ) (frame : Bytes) (j : Journal)
      → publish seq frame w.journal ≡ some (ok tt, j)
      → Step w (record w { journal = j; log = w.log ++ (newest j frame ∷ []) })
  refused :
      (seq : ℕ) (frame : Bytes) (e : Error) (j : Journal)
      → publish seq frame w.journal ≡ some (err e, j)
      → Step w (record w { journal = j })
  received :
      (e : Entry) (reader : Subscriber)
      → poll w.journal.state w.reader ≡ (ok (some e), reader)
      → Step w (record w { reader = reader; got = w.got ++ (e ∷ []) })
  waits :
      (reader : Subscriber)
      → poll w.journal.state w.reader ≡ (ok none, reader)
      → Step w (record w { reader = reader })
  failed :
      (e : Error) (reader : Subscriber)
      → poll w.journal.state w.reader ≡ (err e, reader)
      → Step w (record w { reader = reader })
  ended : Step w (record w { journal = close w.journal })

pub data Reach (w : World) : World → Type 0 where
  here : Reach w w
  then_step : {u v : World} → Reach w u → Step u v → Reach w v

-- A new history, and a subscriber that starts at its head.
abbrev pub start : Journal → World
start j = record { journal = j; log = []; reader = record { cursor = j.state.head }; got = [] }

record Consistent (w : World) : Type 0 where
  valid : IsValid w.journal
  base : ℕ
  logged : Contiguous w.journal.state.head.epoch base w.log (suc w.journal.state.head.sequence)
  retained : (gone : List Entry) × (w.log ≡ gone ++ w.journal.state.entries)
  own_epoch : w.reader.cursor.epoch ≡ w.journal.state.head.epoch
  position : base + length w.got ≡ suc w.reader.cursor.sequence
  unseen : List Entry
  delivered : w.log ≡ w.got ++ unseen

-- What a poll that returns a batch found.
poll_received :
    (s : State) (sub : Subscriber) (e : Entry) (sub' : Subscriber)
    → poll s sub ≡ (ok (some e), sub')
    → (next s sub.cursor ≡ ok (some e)) × (sub'.cursor ≡ e.cursor)
unfolding poll
poll_received s sub e sub' h = ground arith

poll_idle :
    (s : State) (sub : Subscriber) (sub' : Subscriber) (r : Result (Option Entry) Error)
    → poll s sub ≡ (r, sub')
    → (r ≡ ok none) ⊎ ((e : Error) × (r ≡ err e))
    → sub' ≡ sub
unfolding poll
poll_idle s sub sub' r h k = ground arith

next_live : (s : State) (c : Cursor) (e : Option Entry) → next s c ≡ ok e → s.closed ≡ false
unfolding next
next_live s c e h = ground arith

-- The element that follows a known front of a list.
split_at :
    (front unseen : List Entry) (e : Entry)
    → get_elem? (front ++ unseen) (length front) ≡ some e
    → (rest : List Entry) × (unseen ≡ e ∷ rest)
split_at [] [] e h = cc
split_at [] (x ∷ xs) e h = (xs, ground arith)
split_at (x ∷ front) unseen e h = split_at front unseen e h

get_elem?-after :
    (gone es : List Entry) (i : ℕ) → get_elem? (gone ++ es) (length gone + i) ≡ get_elem? es i
get_elem?-after [] es i = ap (get_elem? es) (omega arith)
get_elem?-after (x ∷ gone) es i =
    ap (get_elem? (x ∷ (gone ++ es))) (shift (length gone) i) ∙ get_elem?-after gone es i
  where
    shift : (a b : ℕ) → suc a + b ≡ suc (a + b)
    shift a b = omega arith

publish_result :
    (seq : ℕ) (frame : Bytes) (j j' : Journal) (r : Result (Unit {0}) Error)
    → IsValid j
    → publish seq frame j ≡ some (r, j')
    → IsValid j' × Publishes seq frame j r j'
publish_result seq frame j j' r v h =
    let (r₀, j₀, eq, valid, does) = publish-IsValid seq frame j v in
    subst (λ (x : Result (Unit {0}) Error × Journal). IsValid x.1 × Publishes seq frame j x.0 x.1)
      (some_eq (sym eq ∙ h)) (valid, does)

regroup : (a b c d : List Entry) → (a ++ (b ++ c)) ++ d ≡ (a ++ b) ++ (c ++ d)
regroup a b c d = simp append_assoc

module _ (w : World) (c : Consistent w) where
  published-Consistent :
      (seq : ℕ) (frame : Bytes) (j : Journal)
      → publish seq frame w.journal ≡ some (ok tt, j)
      → Consistent (record w { journal = j; log = w.log ++ (newest j frame ∷ []) })
  published-Consistent seq frame j h =
      let (valid, does) = publish_result seq frame w.journal j (ok tt) c.valid h in
      let (at, same, history) = does in
      let (kept, old, newer) = history in
      let (lost, dropped) = old in
      let (gone, held) = c.retained in
      let new : Entry = newest j frame in
      record {
        valid = valid;
        base = c.base;
        logged =
            subst
              (λ (x : Bytes). Contiguous x c.base (w.log ++ (new ∷ [])) (suc j.state.head.sequence))
              (sym same)
              (subst
                (λ (n : ℕ).
                  Contiguous w.journal.state.head.epoch c.base (w.log ++ (new ∷ [])) (suc n))
                (omega arith)
                (Contiguous-snoc w.journal.state.head.epoch c.base
                  (suc w.journal.state.head.sequence) w.log new c.logged same (omega arith)));
        retained = (
          gone ++ lost,
          ap (λ (l : List Entry). l ++ (new ∷ []))
                (held ∙ ap (λ (l : List Entry). gone ++ l) dropped)
              ∙ (regroup gone lost kept (new ∷ [])
                  ∙ ap (λ (l : List Entry). (gone ++ lost) ++ l) (sym newer)),
        );
        own_epoch = c.own_epoch ∙ sym same;
        position = c.position;
        unseen = c.unseen ++ (new ∷ []);
        delivered =
            ap (λ (l : List Entry). l ++ (new ∷ [])) c.delivered
            ∙ append_assoc w.got c.unseen (new ∷ []);
      }

  received-Consistent :
      (e : Entry) (reader : Subscriber)
      → poll w.journal.state w.reader ≡ (ok (some e), reader)
      → Consistent (record w { reader = reader; got = w.got ++ (e ∷ []) })
  received-Consistent e reader h =
      let (answer, moved) = poll_received w.journal.state w.reader e reader h in
      let live = next_live w.journal.state w.reader.cursor (some e) answer in
      let said : Answers w.journal.state w.reader.cursor (ok (some e)) =
        rw answer at (next-Answers w.journal w.reader.cursor c.valid live c.own_epoch) in
      let (epoch_eq, seq_eq, place) = said in
      let (i, there) = place in
      let (gone, held) = c.retained in
      let in_log : get_elem? w.log (length gone + i) ≡ some e =
        ap (λ (l : List Entry). get_elem? l (length gone + i)) held
        ∙ (get_elem?-after gone w.journal.state.entries i ∙ there) in
      let (_, at) = Contiguous-get _ _ _ (length gone + i) w.log e c.logged in_log in
      let here_eq : length gone + i ≡ length w.got = omega (arith, c.position) in
      let split = split_at w.got c.unseen e (
        ap (λ (l : List Entry). get_elem? l (length w.got)) (sym c.delivered)
        ∙ (ap (get_elem? w.log) (sym here_eq) ∙ in_log)) in
      let (rest, unseen_eq) = split in
      record {
        valid = c.valid;
        base = c.base;
        logged = c.logged;
        retained = c.retained;
        own_epoch = ap (λ (x : Cursor). x.epoch) moved ∙ epoch_eq;
        position = omega (
          arith,
          c.position,
          length-append w.got (e ∷ []),
          ap (λ (x : Cursor). x.sequence) moved,
        );
        unseen = rest;
        delivered =
            c.delivered
            ∙ (ap (λ (l : List Entry). w.got ++ l) unseen_eq
                ∙ sym (append_assoc w.got (e ∷ []) rest));
      }

  ended-Consistent : Consistent (record w { journal = close w.journal })
  unfolding close
  ended-Consistent = record {
    valid = close-IsValid w.journal c.valid;
    base = c.base;
    logged = c.logged;
    retained = (w.log, sym (append-nil w.log));
    own_epoch = c.own_epoch;
    position = c.position;
    unseen = c.unseen;
    delivered = c.delivered;
  }

  idle-Consistent :
      (reader : Subscriber) → reader ≡ w.reader → Consistent (record w { reader = reader })
  idle-Consistent reader h =
      subst (λ (x : Subscriber). Consistent (record w { reader = x })) (sym h) c

Step-Consistent : (w w' : World) → Step w w' → Consistent w → Consistent w'
Step-Consistent w w' (published seq frame j h) c = published-Consistent w c seq frame j h
Step-Consistent w w' (refused seq frame e j h) c =
    subst (λ (x : Journal). Consistent (record w { journal = x }))
      (sym (publish_result seq frame w.journal j (err e) c.valid h).1) c
Step-Consistent w w' (received e reader h) c = received-Consistent w c e reader h
Step-Consistent w w' (waits reader h) c =
    idle-Consistent w c reader (poll_idle _ _ _ _ h (inl refl))
Step-Consistent w w' (failed e reader h) c =
    idle-Consistent w c reader (poll_idle _ _ _ _ h (inr (e, refl)))
Step-Consistent w w' ended c = ended-Consistent w c

Reach-Consistent : (w w' : World) → Reach w w' → Consistent w → Consistent w'
Reach-Consistent w w' here c = c
Reach-Consistent w w' (then_step {u} r s) c = Step-Consistent u w' s (Reach-Consistent w u r c)

start-Consistent : (j : Journal) → IsValid j → j.state.entries ≡ [] → Consistent (start j)
start-Consistent j v empty = record {
  valid = v;
  base = suc j.state.head.sequence;
  logged = refl;
  retained = ([], sym empty);
  own_epoch = refl;
  position = omega arith;
  unseen = [];
  delivered = refl;
}

-- Whatever is published, refused, polled or closed, in any order, the batches that a subscriber
-- was given since it began at the head of an empty valid history are the first ones that were
-- published since, in order, with none left out and none given twice.
pub got-IsPrefix :
    (j : Journal) (w : World)
    → IsValid j
    → j.state.entries ≡ []
    → Reach (start j) w
    → (unseen : List Entry) × (w.log ≡ w.got ++ unseen)
got-IsPrefix j w v empty r =
    let c = Reach-Consistent (start j) w r (start-Consistent j v empty) in (c.unseen, c.delivered)
