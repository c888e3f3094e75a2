-- ===== src/Connection/Abort.antt =====
-- connection/transaction.rs: a queue that was poisoned is never executed.
use sider.Prelude.{
  ◌≡◌, refl, ◌∙◌, arith, ℕ, Bool, true, false, ◌&&◌, ◌||◌, Option, none, some, List, Result, ok,
  not, Bool-cases, inl, inr,
}
use sider.Resp.Frame.{Bytes, Frame}
use sider.Command.Types.{Command, writes_dataset}
use sider.Command.Reply.{Reply}
use sider.Command.Names.{text}
use sider.Storage.Routing.{ShardRouter}
use sider.Connection.Transaction.{
  Limits, Action, reply, Queue, Transaction, default, poison, poison_queue, revalidate,
  revalidate_queue, any_command, active, is_memory,
}
use sider.Connection.Handle.{dispatch, handle, queue_command, take_queue}
use sider.Connection.Queueing.{if-cases}
use sider.Connection.Exec.{Step, handles, poisons, revalidates, handle-exec}

-- The queue, if there is one, is not to be executed.
pub data Marked : Option Queue → Type 0 where
  closed : Marked none
  marked : {q : Queue} → (q.dirty || q.permission_denied) ≡ true → Marked (some q)

or_true : (b : Bool) → (b || true) ≡ true
or_true true = refl
or_true false = refl

poison_queue-Marked : (q : Option Queue) → Marked (poison_queue q)
poison_queue-Marked none = closed
poison_queue-Marked (some q) = marked refl

module _ {S T E : Type 0} (limits : Limits) (r : ShardRouter) (key_of : T → Bytes)
    (readonly : S → Bool) (watch : S → List Bytes → Result (Reply × List T) E) where
  record KeepsMarked (h : Result (Action T) E × Transaction T) : Type 0 where
    kept : Marked h.1.queue

  queue_command-Marked :
      (command : Command) (bytes : ℕ) (tx : Transaction T) (q : Queue)
      → (q.dirty || q.permission_denied) ≡ true
      → KeepsMarked (
          queue_command limits r key_of readonly watch command bytes (record tx { queue = some q }))
  unfolding queue_command
  queue_command-Marked command bytes tx q h = rw h (record { kept = marked h })

  dispatch-Marked :
      (s : S) (command : Command) (bytes : ℕ) (tx : Transaction T) (q : Queue)
      → (q.dirty || q.permission_denied) ≡ true
      → KeepsMarked
          (dispatch limits r key_of readonly watch s command bytes (record tx { queue = some q }))
  dispatch-Marked s Command.multi bytes tx q h = record { kept = marked h }
  dispatch-Marked s Command.discard bytes tx q h = record { kept = closed }
  dispatch-Marked s Command.exec bytes tx q h = record { kept = closed }
  dispatch-Marked s (Command.watch keys) bytes tx q h = record { kept = marked h }
  dispatch-Marked s Command.unwatch bytes tx q h = queue_command-Marked Command.unwatch bytes tx q h
  dispatch-Marked s command bytes tx q h = queue_command-Marked command bytes tx q h

  handle-Marked :
      (s : S) (command : Command) (bytes : ℕ) (subscribed : Bool) (tx : Transaction T) (q : Queue)
      → (q.dirty || q.permission_denied) ≡ true
      → KeepsMarked (
          handle limits r key_of readonly watch s command bytes subscribed
            (record tx { queue = some q }))
  unfolding handle
  handle-Marked s command bytes subscribed tx q h =
      if-cases KeepsMarked subscribed (λ e. record { kept = marked h })
        (λ e.
          if-cases KeepsMarked (is_memory command) (λ e. poisoned)
            (λ e.
              if-cases KeepsMarked (readonly s && writes_dataset command) (λ e. poisoned)
                (λ e. dispatch-Marked s command bytes tx q h)))
    where
      poisoned : {a : Result (Action T) E} → KeepsMarked (a, poison (record tx { queue = some q }))
      poisoned = record { kept = poison_queue-Marked (some q) }

  revalidate-Marked :
      (authorized : Command → Bool) (tx : Transaction T)
      → Marked tx.queue
      → Marked (revalidate authorized tx).queue
  unfolding revalidate
  revalidate-Marked authorized tx h =
      if-cases (λ (t : Transaction T). Marked t.queue) _ (λ e. kept tx.queue h)
        (λ e. kept tx.queue h)
    where
      kept : (q : Option Queue) → Marked q → Marked (revalidate_queue authorized q)
      kept none h = closed
      kept (some q) h =
          if-cases Marked (any_command (λ c. not (authorized c)) q.commands)
            (λ e. marked (or_true q.dirty)) (λ e. h)

  -- Calls during all of which the queue is open.
  pub data Inside (tx : Transaction T) : Transaction T → Type 0 where
    here : Inside tx tx
    then_open :
        {t u : Transaction T}
        → Inside tx t
        → Step limits r key_of readonly watch t u
        → active u ≡ true
        → Inside tx u

  step-Marked :
      {t u : Transaction T}
      → Marked t.queue
      → active t ≡ true
      → Step limits r key_of readonly watch t u
      → Marked u.queue
  step-Marked {t} h active_t (handles s command bytes subscribed) = from t.queue h active_t
    where
      from :
          (q : Option Queue)
          → Marked q
          → active (record t { queue = q }) ≡ true
          → Marked (
              (handle limits r key_of readonly watch s command bytes subscribed
                (record t { queue = q })).1.queue)
      from none m a = absurd (ground (arith, a))
      from (some q) (marked e) a = (handle-Marked s command bytes subscribed t q e).kept
  step-Marked {t} h active_t poisons = poison_queue-Marked t.queue
  step-Marked {t} h active_t (revalidates authorized) = revalidate-Marked authorized t h

  Inside-Marked :
      {t u : Transaction T}
      → Marked t.queue
      → active t ≡ true
      → Inside t u
      → Marked u.queue × (active u ≡ true)
  Inside-Marked h a here = (h, a)
  Inside-Marked h a (then_open w step still) =
      let (m, b) = Inside-Marked h a w in (step-Marked m b step, still)

  -- A queue that was poisoned, by a request that was refused or did not parse, is not executed,
  -- whatever calls are made while it is open: EXEC answers an error, and the connection is as new.
  pub poisoned_aborts :
      (tx u : Transaction T) (s : S) (bytes : ℕ)
      → active (poison tx) ≡ true
      → Inside (poison tx) u
      → (what : Bytes) × (handle limits r key_of readonly watch s Command.exec bytes false u
          ≡ (ok (reply (Frame.error what)), default))
  poisoned_aborts tx u s bytes a w =
      let (m, b) = Inside-Marked (poison_queue-Marked tx.queue) a w in
      let (what, gone) = aborted u.queue m b in
      (what, handle-exec limits r key_of readonly watch s bytes u ∙ gone)
    where
      aborted :
          (q : Option Queue)
          → Marked q
          → active (record u { queue = q }) ≡ true
          → (what : Bytes) × (take_queue limits r key_of readonly watch (record u { queue = q })
              ≡ (ok (reply (Frame.error what)), default))
      aborted none m b = absurd (ground (arith, b))
      aborted (some q) (marked e) b = elim (Bool-cases q.permission_denied) [
        | inl d ↦ (text "NOPERM Permission denied", rw d refl)
        | inr d ↦
            let f : q.dirty ≡ true = ground (arith, d, e) in
            (text "EXECABORT Transaction discarded because of previous errors.", rw (d, f) refl)
      ]
