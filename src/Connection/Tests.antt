-- ===== src/Connection/Tests.antt =====
-- The queue of MULTI at concrete calls.
use mathlib.Core.Path.{subst}
use sider.Prelude.{
  ◌≡◌, ◌≤◌, refl, arith, inl, inr, Bool, true, false, List, [], ◌∷◌, All, Result, ok, length,
  set_insert,
}
use sider.Prelude.Machine.{usize_max}
use sider.Resp.Frame.{Bytes, Frame}
use sider.Resp.Spelling.{spelled}
use sider.Command.Types.{Command}
use sider.Command.Names.{text}
use sider.Command.Reply.{Reply}
use sider.Storage.Routing.{
  ShardRouter, select_key, select_command, select_keys, shard_for, stable_hash, hash_from, hash_tag,
  split_on, hash_byte,
}
use sider.Connection.Transaction.{
  Limits, reply, exec, Transaction, default, poison, active, fresh_keys, has_key, select_watched,
  insert_tokens,
}
use sider.Connection.Handle.{handle, queue_command}
use sider.Connection.Request.{request_bytes}
use sider.Connection.Queueing.{Among}
use sider.Connection.Exec.{Step, handles, Reach, then_step, AnswersAsked, InOneShard, exec-Sound}
use sider.Connection.Exec
use sider.Connection.Abort.{Inside, then_open, poisoned_aborts}
use sider.Connection.Abort
use sider.Connection.RequestSize.{strings, request_bytes-spelled}

abbrev limits : Limits
limits = record {
  watch_max_keys = 2;
  transaction_max_commands = 2;
  transaction_max_bytes = 100;
  composed_aof = false;
}

abbrev router : ShardRouter
router = record { count = 2 }

-- A database that is never read-only and gives each key as its own token.
abbrev Database : Type 0
Database = Unit {0}

abbrev key_of : Bytes → Bytes
key_of token = token

abbrev readonly : Database → Bool
readonly s = false

abbrev watch : Database → List Bytes → Result (Reply × List Bytes) (Unit {0})
watch s asked = ok (Reply.done, asked)

abbrev call : Command → Transaction Bytes → Transaction Bytes
call command tx = (handle limits router key_of readonly watch tt command 10 false tx).1

abbrev write : Command
write = Command.set (text "k") (text "v")

abbrev watching : Transaction Bytes
watching = call (Command.watch (text "k" ∷ [])) default

abbrev opened : Transaction Bytes
opened = call Command.multi watching

abbrev filled : Transaction Bytes
filled = call write opened

Among-cons :
    (key : Bytes) (keys tokens : List Bytes)
    → All (λ t. Among t keys) tokens
    → All (λ t. Among t (key ∷ keys)) tokens
Among-cons key keys [] h = tt
Among-cons key keys (t ∷ tokens) (a, h) = (inr a, Among-cons key keys tokens h)

Among-own : (keys : List Bytes) → All (λ t. Among t keys) keys
Among-own [] = tt
Among-own (key ∷ keys) = (inl refl, Among-cons key keys keys (Among-own keys))

answers : AnswersAsked limits router key_of readonly watch
answers s asked given tokens h =
    let same : asked ≡ tokens = ground (arith, h) in
    subst (λ (ts : List Bytes). All (λ t. Among t asked) ts) same (Among-own asked)

reaches : Reach limits router key_of readonly watch default filled
reaches =
    then_step
      (then_step (then_step Exec.here (handles tt (Command.watch (text "k" ∷ [])) 10 false))
        (handles tt Command.multi 10 false))
      (handles tt write 10 false)

hands_out :
    (handle limits router key_of readonly watch tt Command.exec 10 false filled).0
    ≡ ok (exec (write ∷ []) (text "k" ∷ []))
unfolding handle fresh_keys has_key set_insert select_watched select_key queue_command
    select_command select_keys shard_for stable_hash hash_from hash_tag split_on hash_byte
    insert_tokens
hands_out = refl

exec-Sound_example :
    (1 ≤ 2)
    × (false ≡ false → InOneShard limits router key_of readonly watch (write ∷ []) (text "k" ∷ []))
    × ((handle limits router key_of readonly watch tt Command.exec 10 false filled).1 ≡ default)
exec-Sound_example =
    exec-Sound limits router key_of readonly watch filled tt 10 (write ∷ []) (text "k" ∷ []) answers
      reaches hands_out

poisoned_open : active (poison opened) ≡ true
unfolding handle fresh_keys has_key set_insert select_watched select_key
poisoned_open = refl

refuses : active (call write (poison opened)) ≡ true
unfolding handle fresh_keys has_key set_insert select_watched select_key queue_command insert_tokens
    shard_for stable_hash hash_from hash_tag split_on hash_byte
refuses = refl

poisoned_aborts_example :
    (what : Bytes) × (handle limits router key_of readonly watch tt Command.exec 10 false
        (call write (poison opened))
      ≡ (ok (reply (Frame.error what)), default))
poisoned_aborts_example =
    poisoned_aborts limits router key_of readonly watch opened (call write (poison opened)) tt 10
      poisoned_open (then_open Abort.here (handles tt write 10 false) refuses)

abbrev request : List Bytes
request = text "GET" ∷ (text "k" ∷ [])

request-length : length (spelled (Frame.array (strings request))) ≤ usize_max
unfolding spelled sider.Resp.Encoder.own_bytes sider.Resp.Encoder.line sider.Resp.Encoder.decimal
    sider.Resp.Encoder.digits_fuel sider.Resp.Encoder.blob
request-length = omega arith

request_bytes-spelled_example :
    request_bytes (Frame.array (strings request)) ≡ length (spelled (Frame.array (strings request)))
request_bytes-spelled_example = request_bytes-spelled request request-length
