-- ===== src/Connection/Exec.antt =====
-- connection/transaction.rs: what EXEC hands to the workers, after any calls.
use sider.Prelude.{
  ℕ, ◌≡◌, ◌≤◌, refl, sym, ap, ◌∙◌, arith, Bool, true, false, ◌&&◌, Option, none, some, List, [],
  ◌∷◌, length, map, All, Result, ok,
}
use mathlib.Core.Path.{subst}
use sider.Resp.Frame.{Bytes}
use sider.Command.Types.{Command, keys_of, writes_dataset}
use sider.Command.Reply.{Reply}
use sider.Storage.Routing.{ShardRouter, shard_for}
use sider.Connection.Transaction.{
  Limits, Action, exec, Queue, Transaction, default, poison, revalidate, active, is_memory,
}
use sider.Connection.Handle.{dispatch, handle, take_queue}
use sider.Connection.Pinned.{All-imp}
use sider.Connection.Queueing.{
  Among, if-cases, IsPinned, HasQueue, HasQueue-nil, OwnAll, AreWithin, default-IsPinned,
  poison-IsPinned, unwatched-IsPinned, revalidate-IsPinned,
}
use sider.Connection.Calls.{
  KeepsPinned, start_queue-Keeps, taken-Keeps, watch_keys-Keeps, queue_command-Keeps,
}

module _ {S T E : Type 0} (limits : Limits) (r : ShardRouter) (key_of : T → Bytes)
    (readonly : S → Bool) (watch : S → List Bytes → Result (Reply × List T) E) where
  -- The calls on a connection's queue, with the states in which they find the database.
  pub data Step (tx : Transaction T) : Transaction T → Type 0 where
    handles :
        (s : S) (command : Command) (bytes : ℕ) (subscribed : Bool)
        → Step tx ((handle limits r key_of readonly watch s command bytes subscribed tx).1)
    poisons : Step tx (poison tx)
    revalidates : (authorized : Command → Bool) → Step tx (revalidate authorized tx)

  pub data Reach (tx : Transaction T) : Transaction T → Type 0 where
    here : Reach tx tx
    then_step : {t u : Transaction T} → Reach tx t → Step t u → Reach tx u

  -- The database answers only with tokens of keys that it was asked to watch.
  abbrev pub AnswersAsked : Type 0
  AnswersAsked =
      (s : S) (asked : List Bytes) (given : Reply) (tokens : List T)
      → watch s asked ≡ ok (given, tokens)
      → All (λ t. Among (key_of t) asked) tokens

  dispatch-Keeps :
      (s : S) (command : Command) (bytes : ℕ) (tx : Transaction T)
      → AnswersAsked
      → IsPinned limits r key_of tx
      → KeepsPinned limits r key_of readonly watch
          (dispatch limits r key_of readonly watch s command bytes tx)
  dispatch-Keeps s Command.multi bytes tx are h =
      start_queue-Keeps limits r key_of readonly watch tx h
  dispatch-Keeps s Command.discard bytes tx are h =
      (taken-Keeps limits r key_of readonly watch tx h).0
  dispatch-Keeps s Command.exec bytes tx are h = (taken-Keeps limits r key_of readonly watch tx h).1
  dispatch-Keeps s (Command.watch keys) bytes tx are h =
      watch_keys-Keeps limits r key_of readonly watch s keys tx (are s) h
  dispatch-Keeps s Command.unwatch bytes tx are h =
      if-cases (KeepsPinned limits r key_of readonly watch) (active tx)
        (λ e. queue_command-Keeps limits r key_of readonly watch Command.unwatch bytes tx h)
        (λ e. record {
          kept =
              unwatched-IsPinned limits r key_of tx
                (HasQueue-nil limits r key_of tx.watched tx.queue h.queue_ok);
        })
  dispatch-Keeps s command bytes tx are h =
      queue_command-Keeps limits r key_of readonly watch command bytes tx h

  handle-Keeps :
      (s : S) (command : Command) (bytes : ℕ) (subscribed : Bool) (tx : Transaction T)
      → AnswersAsked
      → IsPinned limits r key_of tx
      → KeepsPinned limits r key_of readonly watch
          (handle limits r key_of readonly watch s command bytes subscribed tx)
  unfolding handle
  handle-Keeps s command bytes subscribed tx are h =
      if-cases (KeepsPinned limits r key_of readonly watch) subscribed (λ e. record { kept = h })
        (λ e.
          if-cases (KeepsPinned limits r key_of readonly watch) (active tx && is_memory command)
            (λ e. poisoned)
            (λ e.
              if-cases (KeepsPinned limits r key_of readonly watch)
                (readonly s && writes_dataset command) (λ e. poisoned)
                (λ e. dispatch-Keeps s command bytes tx are h)))
    where
      poisoned :
          {a : Result (Action T) E} → KeepsPinned limits r key_of readonly watch (a, poison tx)
      poisoned = record { kept = poison-IsPinned limits r key_of tx h }

  pub Reach-IsPinned :
      {tx : Transaction T} → AnswersAsked → Reach default tx → IsPinned limits r key_of tx
  Reach-IsPinned are here = default-IsPinned limits r key_of
  Reach-IsPinned are (then_step {t} w (handles s command bytes subscribed)) =
      (handle-Keeps s command bytes subscribed t are (Reach-IsPinned are w)).kept
  Reach-IsPinned are (then_step {t} w poisons) =
      poison-IsPinned limits r key_of t (Reach-IsPinned are w)
  Reach-IsPinned are (then_step {t} w (revalidates authorized)) =
      revalidate-IsPinned limits r key_of authorized t (Reach-IsPinned are w)

  -- All keys of the commands and of the tokens are owned by one shard.
  abbrev pub InOneShard : List Command → List T → Type 0
  InOneShard commands watched =
      (shard : ℕ) × All (λ c. All (λ key. shard_for r key ≡ shard) (keys_of c)) commands
      × All (λ t. shard_for r (key_of t) ≡ shard) watched

  All-tokens :
      (P : T → Type 0) (watched : List (Bytes × T))
      → All (λ (x : Bytes × T). P x.1) watched
      → All P (map (λ (x : Bytes × T). x.1) watched)
  All-tokens P [] h = tt
  All-tokens P (x ∷ watched) (p, h) = (p, All-tokens P watched h)

  queue-InOneShard :
      (shard : Option ℕ) (commands : List Command) (watched : List (Bytes × T))
      → OwnAll limits r key_of shard commands
      → AreWithin limits r key_of shard watched
      → InOneShard commands (map (λ (x : Bytes × T). x.1) watched)
  queue-InOneShard (some shard) commands watched own seen =
      (shard, own, All-tokens (λ t. shard_for r (key_of t) ≡ shard) watched seen)
  queue-InOneShard none commands watched own seen = (
    0,
    All-imp (λ c o. All-imp (λ key w. absurd w) (keys_of c) o) commands own,
    All-tokens (λ t. shard_for r (key_of t) ≡ 0) watched (All-imp (λ x w. absurd w) watched seen),
  )

  and_false : (b : Bool) → (b && false) ≡ false
  and_false true = refl
  and_false false = refl

  pub handle-exec :
      (s : S) (bytes : ℕ) (tx : Transaction T)
      → handle limits r key_of readonly watch s Command.exec bytes false tx
        ≡ take_queue limits r key_of readonly watch tx
  unfolding handle
  handle-exec s bytes tx = rw (and_false (active tx), and_false (readonly s)) refl

  abbrev pub Executes : List Command → List T → Transaction T → Type 0
  Executes commands watched after =
      (length commands ≤ limits.transaction_max_commands)
      × (limits.composed_aof ≡ false → InOneShard commands watched)
      × (after ≡ default)

  take_queue-Executes :
      (tx : Transaction T) (q : Option Queue) (commands : List Command) (watched : List T)
      → HasQueue limits r key_of tx.watched q
      → (take_queue limits r key_of readonly watch (record tx { queue = q })).0
        ≡ ok (exec commands watched)
      → Executes commands watched
          ((take_queue limits r key_of readonly watch (record tx { queue = q })).1)
  take_queue-Executes tx none commands watched k h = absurd (ground (arith, h))
  take_queue-Executes tx (some q) commands watched k h =
      let (own, seen) : (q.commands ≡ commands)
          × (map (λ (x : Bytes × T). x.1) tx.watched ≡ watched) =
        ground (arith, h) in
      (
        subst (λ (cs : List Command). length cs ≤ limits.transaction_max_commands) own k.few,
        λ apart.
            let (inside, near) = k.own (k.calm apart) in
            subst (λ (ts : List T). InOneShard commands ts) seen
              (subst
                (λ (cs : List Command). InOneShard cs (map (λ (x : Bytes × T). x.1) tx.watched)) own
                (queue-InOneShard q.shard q.commands tx.watched inside near)),
        refl,
      )

  -- After any calls on a connection, where the database answers only with tokens of keys that it was
  -- asked to watch: the commands that EXEC hands to the workers are at most as many as the queue may
  -- hold; where the log is not composed, all their keys and all watched keys are owned by one shard; and
  -- the connection is as new.
  pub exec-Sound :
      (tx : Transaction T) (s : S) (bytes : ℕ) (commands : List Command) (watched : List T)
      → AnswersAsked
      → Reach default tx
      → (handle limits r key_of readonly watch s Command.exec bytes false tx).0
        ≡ ok (exec commands watched)
      → (length commands ≤ limits.transaction_max_commands)
        × (limits.composed_aof ≡ false → InOneShard commands watched)
        × ((handle limits r key_of readonly watch s Command.exec bytes false tx).1 ≡ default)
  exec-Sound tx s bytes commands watched are w h =
      let same = handle-exec s bytes tx in
      let (few, near, fresh) =
        take_queue-Executes tx tx.queue commands watched (Reach-IsPinned are w).queue_ok
          (ap (λ x. x.0) (sym same) ∙ h) in
      (few, near, ap (λ x. x.1) same ∙ fresh)
