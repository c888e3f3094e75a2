-- ===== src/Connection/Transaction.antt =====
-- connection/transaction.rs: the state of a connection between its calls. The map of the observations is
-- its entries in the order of the keys.
use sider.Prelude.{◌==◌}
use Prim.Native.String.{String}
use sider.Prelude.{
  ℕ, Bool, true, false, ◌&&◌, ◌||◌, not, Option, none, some, List, [], ◌∷◌, length, map,
  if◌then◌else◌, ok, err, bytes_eq, set_insert,
}
use sider.Resp.Frame.{Bytes, Frame}
use sider.Command.Types.{Command}
use sider.Command.Names.{text}
use sider.Command.Reply.{ExecutionError, message}
use sider.Storage.Member.{bytes_lt, insert}
use sider.Storage.Routing.{ShardRouter, is_err, select_key}
use sider.Storage.Plan.{Planned, CommandPlan}

-- Of `ServerConfig`, what the queue reads.
pub record Limits : Type 0 where
  pub watch_max_keys : ℕ
  pub transaction_max_commands : ℕ
  pub transaction_max_bytes : ℕ
  pub composed_aof : Bool

pub data Action (T : Type 0) : Type 0 where
  execute : Command → Action T
  reply : Frame → Action T
  exec : List Command → List T → Action T

pub record Queue : Type 0 where
  pub commands : List Command
  pub bytes : ℕ
  pub shard : Option ℕ
  pub crossed : Bool
  pub dirty : Bool
  pub permission_denied : Bool

pub record Transaction (T : Type 0) : Type 0 where
  pub queue : Option Queue
  pub watched : List (Bytes × T)
  pub watch_shard : Option ℕ
  pub watch_crossed : Bool

abbrev pub default : {T : Type 0} → Transaction T
default = record { queue = none; watched = []; watch_shard = none; watch_crossed = false }

abbrev pub error : {T : Type 0} → String → Action T
error what = reply (Frame.error (text what))

abbrev pub done : {T : Type 0} → Action T
done = reply (Frame.simple (text "OK"))

abbrev pub queued : {T : Type 0} → Action T
queued = reply (Frame.simple (text "QUEUED"))

abbrev pub crosses : {T : Type 0} → Action T
crosses = reply (Frame.error (message ExecutionError.cross_shard))

abbrev pub coordinated_command : Command → Bool
coordinated_command (Command.info sections) = false
coordinated_command (Command.subscribe channels) = false
coordinated_command (Command.unsubscribe channels) = false
coordinated_command (Command.publish channel payload) = false
coordinated_command Command.multi = false
coordinated_command Command.exec = false
coordinated_command Command.discard = false
coordinated_command (Command.watch keys) = false
coordinated_command (Command.memory key operation) = false
coordinated_command _ = true

abbrev pub is_memory : Command → Bool
is_memory (Command.memory key operation) = true
is_memory _ = false

-- `commands.iter().any(..)`.
unfoldable pub any_command : (Command → Bool) → List Command → Bool
any_command test [] = false
any_command test (c ∷ cs) = let rest = any_command test cs in test c || rest

unfoldable pub has_key : {T : Type 0} → Bytes → List (Bytes × T) → Bool
has_key key [] = false
has_key key (x ∷ xs) = let rest = has_key key xs in bytes_eq x.0 key || rest

-- A plan that panics, which with a shard there is none that does, is counted as refused.
abbrev pub refused : Planned CommandPlan → Bool
refused (some (ok plan)) = false
refused (some (err e)) = true
refused none = true

abbrev pub emptied : Queue → Queue
emptied q = record q { commands = []; bytes = 0 }

abbrev pub poison_queue : Option Queue → Option Queue
poison_queue none = none
poison_queue (some q) = some (record (emptied q) { dirty = true })

-- `authorized` is what the policy says of a command under its name.
abbrev pub revalidate_queue : (Command → Bool) → Option Queue → Option Queue
revalidate_queue authorized none = none
revalidate_queue authorized (some q) =
    if any_command (λ c. not (authorized c)) q.commands
    then some (record (emptied q) { permission_denied = true })
    else some q

module _ {T : Type 0} where
  -- The observations are dropped and no shard is pinned.
  abbrev pub unwatched : Transaction T → Transaction T
  unwatched tx = record tx { watched = []; watch_shard = none; watch_crossed = false }

  abbrev pub poison : Transaction T → Transaction T
  poison tx = record tx { queue = poison_queue tx.queue }

  abbrev pub active : Transaction T → Bool
  active tx = elim tx.queue [ none ↦ false | some q ↦ true ]

  abbrev pub revalidate_watched : (Command → Bool) → Transaction T → Transaction T
  revalidate_watched authorized tx =
      if not (length tx.watched == 0)
        && not (authorized (Command.watch (map (λ (x : Bytes × T). x.0) tx.watched)))
      then unwatched tx
      else tx

  unfoldable pub revalidate : (Command → Bool) → Transaction T → Transaction T
  revalidate authorized tx =
      revalidate_watched authorized (record tx { queue = revalidate_queue authorized tx.queue })

  -- `keys.into_iter().filter(..).collect::<BTreeSet<_>>()`.
  unfoldable pub fresh_keys : List (Bytes × T) → List Bytes → List Bytes → List Bytes
  fresh_keys watched [] fresh = fresh
  fresh_keys watched (key ∷ keys) fresh =
      if has_key key watched
      then fresh_keys watched keys fresh
      else fresh_keys watched keys ((set_insert bytes_lt key fresh).0)

  unfoldable pub insert_tokens : (T → Bytes) → List T → List (Bytes × T) → List (Bytes × T)
  insert_tokens key_of [] watched = watched
  insert_tokens key_of (token ∷ tokens) watched =
      insert_tokens key_of tokens ((insert (key_of token) token watched).0)

-- The loop of WATCH over the new keys: the shard and whether shards are crossed; `none` where
-- crossing is refused.
unfoldable pub select_watched :
    ShardRouter → Bool → List Bytes → Option ℕ → Bool → Option (Option ℕ × Bool)
select_watched r composed [] shard crossed = some (shard, crossed)
select_watched r composed (key ∷ keys) shard crossed =
    let (one, next) = select_key r key shard in
    let later = select_watched r composed keys next (is_err one || crossed) in
    if is_err one && not composed then none else later
