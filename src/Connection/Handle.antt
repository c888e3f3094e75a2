-- ===== src/Connection/Handle.antt =====
-- connection/transaction.rs: `Transaction::handle`. The database is an argument: what it answers to WATCH in
-- a state of its own, and whether it is read-only.
use sider.Connection.Transaction.{
  Limits, Action, Queue, Transaction, error, done, queued, crosses, coordinated_command, is_memory,
  any_command, refused, unwatched, poison, active, fresh_keys, insert_tokens, select_watched,
  execute, reply, exec,
}
use sider.Prelude.{
  ℕ, ◌+◌, Bool, true, false, ◌&&◌, ◌||◌, not, Option, none, some, List, [], ◌∷◌, ◌++◌, length, map,
  ltb, leb, if◌then◌else◌, Result, ok, err,
}
use sider.Prelude.Machine.{checked_add, saturating_add}
use sider.Resp.Frame.{Bytes}
use sider.Command.Types.{Command, writes_dataset}
use sider.Command.Reply.{ExecutionError, Reply, frame_of}
use sider.Storage.Routing.{ShardRouter, is_err, select_command}
use sider.Storage.Plan.{plan_transaction_command}

-- The calls of a connection, for one configuration, one router and one database. A state `s` of the
-- database answers to WATCH with a reply and tokens, or fails as a request.
module _ {S T E : Type 0} (limits : Limits) (r : ShardRouter) (key_of : T → Bytes)
    (readonly : S → Bool) (watch : S → List Bytes → Result (Reply × List T) E) where
  abbrev pub Handled : Type 0
  Handled = Result (Action T) E × Transaction T

  abbrev pub start_queue : Transaction T → Handled
  start_queue tx = elim tx.queue [
    | some q ↦ (ok (error "ERR MULTI calls can not be nested"), tx)
    | none ↦ (
      ok done,
      record tx {
        queue = some (record {
          commands = [];
          bytes = 0;
          shard = tx.watch_shard;
          crossed = tx.watch_crossed;
          dirty = false;
          permission_denied = false;
        });
      },
    )
  ]

  abbrev pub discard_queue : Transaction T → Handled
  discard_queue tx = elim tx.queue [
    | none ↦ (ok (error "ERR DISCARD without MULTI"), record tx { queue = none })
    | some q ↦ (ok done, unwatched (record tx { queue = none }))
  ]

  abbrev pub executed : Queue → List (Bytes × T) → Action T
  executed q watched =
      if q.permission_denied
      then error "NOPERM Permission denied"
      else if q.dirty
      then error "EXECABORT Transaction discarded because of previous errors."
      else exec q.commands (map (λ (x : Bytes × T). x.1) watched)

  abbrev pub take_queue : Transaction T → Handled
  take_queue tx = elim tx.queue [
    | none ↦ (ok (error "ERR EXEC without MULTI"), record tx { queue = none })
    | some q ↦ (ok (executed q tx.watched), unwatched (record tx { queue = none }))
  ]

  abbrev pub observed : Option ℕ × Bool → Transaction T → Result (Reply × List T) E → Handled
  observed selected tx (err e) = (err e, tx)
  observed selected tx (ok (Reply.error e, tokens)) = (ok (reply (frame_of (Reply.error e))), tx)
  observed selected tx (ok (answer, tokens)) = (
    ok done,
    record tx {
      watched = insert_tokens key_of tokens tx.watched;
      watch_shard = selected.0;
      watch_crossed = selected.1;
    },
  )

  -- The database is asked only where there are new keys.
  abbrev pub observe_fresh : S → List Bytes → Option (Option ℕ × Bool) → Transaction T → Handled
  observe_fresh s fresh none tx = (ok crosses, tx)
  observe_fresh s [] (some selected) tx =
      (ok done, record tx { watch_shard = selected.0; watch_crossed = selected.1 })
  observe_fresh s (key ∷ fresh) (some selected) tx = observed selected tx (watch s (key ∷ fresh))

  abbrev pub watch_keys : S → List Bytes → Transaction T → Handled
  watch_keys s keys tx = elim tx.queue [
    | some q ↦ (ok (error "ERR WATCH inside MULTI is not allowed"), tx)
    | none ↦
        let fresh = fresh_keys tx.watched keys [] in
        if ltb limits.watch_max_keys (saturating_add (length fresh) (length tx.watched))
        then (ok (error "ERR WATCH key limit exceeded"), tx)
        else observe_fresh s fresh
            (select_watched r limits.composed_aof fresh tx.watch_shard tx.watch_crossed) tx
  ]

  -- Whether the queue with one more request has too many bytes.
  abbrev pub too_large : Option ℕ → Bool
  too_large none = true
  too_large (some size) = ltb limits.transaction_max_bytes size

  abbrev pub unsupported : Queue → Command → Bool
  unsupported q command =
      not (coordinated_command command)
      || (any_command (λ c. not (coordinated_command c)) q.commands
          || refused (plan_transaction_command r command))

  abbrev pub pushed : Queue → Command → ℕ → Bool → Option ℕ → Queue
  pushed q command bytes crossing shard = record q {
    commands = q.commands ++ (command ∷ []);
    bytes = q.bytes + bytes;
    shard = if not (q.crossed || crossing) then shard else q.shard;
    crossed = q.crossed || crossing;
  }

  abbrev pub queue_selected : Command → ℕ → Queue → Bool → Option ℕ → Transaction T → Handled
  queue_selected command bytes q crossing shard tx =
      if crossing && not limits.composed_aof
      then (ok crosses, poison tx)
      else if limits.composed_aof && ((q.crossed || crossing) && unsupported q command)
      then (ok (error "ERR unsupported cross-shard transaction command"), poison tx)
      else if leb limits.transaction_max_commands (length q.commands)
          || too_large (checked_add q.bytes bytes)
      then (ok (error "ERR transaction queue limit exceeded"), poison tx)
      else (ok queued, record tx { queue = some (pushed q command bytes crossing shard) })

  unfoldable pub queue_command : Command → ℕ → Transaction T → Handled
  queue_command command bytes tx = elim tx.queue [
    | none ↦ (ok (execute command), tx)
    | some q ↦
        if q.dirty || q.permission_denied
        then (ok queued, tx)
        else let (one, shard) = select_command r command q.shard in
          queue_selected command bytes q (is_err one) shard tx
  ]

  abbrev pub dispatch : S → Command → ℕ → Transaction T → Handled
  dispatch s Command.multi bytes tx = start_queue tx
  dispatch s Command.discard bytes tx = discard_queue tx
  dispatch s Command.exec bytes tx = take_queue tx
  dispatch s (Command.watch keys) bytes tx = watch_keys s keys tx
  dispatch s Command.unwatch bytes tx =
      if active tx then queue_command Command.unwatch bytes tx else (ok done, unwatched tx)
  dispatch s command bytes tx = queue_command command bytes tx

  -- `Transaction::handle`, for a request of `bytes` bytes.
  unfoldable pub handle : S → Command → ℕ → Bool → Transaction T → Handled
  handle s command bytes subscribed tx =
      if subscribed
      then (ok (execute command), tx)
      else if active tx && is_memory command
      then (ok (error "ERR memory commands are not supported in MULTI"), poison tx)
      else if readonly s && writes_dataset command
      then (ok (reply (frame_of (Reply.error ExecutionError.read_only))), poison tx)
      else dispatch s command bytes tx
