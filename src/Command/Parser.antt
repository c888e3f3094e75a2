-- ===== src/Command/Parser.antt =====
-- command/parser.rs, `parse`, and command/info.rs: the command of a request frame.
-- The reader of scores (`Score::parse`) is an argument. The tests of the name are one table,
-- in the order of the code, which selects a request and what it builds.
use Prim.Native.Nat.{bit_or}
use Prim.Native.String.{String}
use sider.Prelude.{
  ℕ, ◌%◌, Bool, true, false, ◌||◌, not, Option, none, some, List, [], ◌∷◌, length, ◌==◌,
  if◌then◌else◌, Result, ok, err, and_then, ok_or,
}
use sider.Prelude.Int.{ℤ, pos}
use sider.Prelude.Machine.{checked_mul_i64}
use sider.Resp.Frame.{Bytes, Frame, Frames, nil, cons}
use sider.Command.Types.{Command, Score, InfoSections, ExpiryUnit}
use sider.Command.Names.{RequestError, invalid_format, wrong_arity, invalid_expiry}
use sider.Command.Options.{parse_integer, parse_set_options}
use sider.Command.SortedSet.{find}
use sider.Command.Collections.{pairs, next_arg}
use sider.Command.Collections
use sider.Command.MemoryRequests
use sider.Command.MemoryRequests.{
  MemoryName, mem_create, mem_info, mem_put, mem_get, mem_del, mem_pttl, mem_expire, mem_persist,
  mem_search,
}

-- `RequestError` with the name's canonical form is all that a branch needs of the name.
pub data Name : Type 0 where
  memory : MemoryName → Name
  info ping echo get set del exists mget incr decr mset expire pexpire ttl pttl persist : Name
  multi exec discard unwatch watch subscribe unsubscribe publish : Name

abbrev pub names : List (String × Name)
names =
    ("mem.create", Name.memory mem_create)
    ∷ ("mem.info", Name.memory mem_info)
    ∷ ("mem.put", Name.memory mem_put)
    ∷ ("mem.get", Name.memory mem_get)
    ∷ ("mem.del", Name.memory mem_del)
    ∷ ("mem.pttl", Name.memory mem_pttl)
    ∷ ("mem.expire", Name.memory mem_expire)
    ∷ ("mem.persist", Name.memory mem_persist)
    ∷ ("mem.search", Name.memory mem_search)
    ∷ ("INFO", Name.info)
    ∷ ("PING", Name.ping)
    ∷ ("ECHO", Name.echo)
    ∷ ("GET", Name.get)
    ∷ ("SET", Name.set)
    ∷ ("DEL", Name.del)
    ∷ ("EXISTS", Name.exists)
    ∷ ("MGET", Name.mget)
    ∷ ("INCR", Name.incr)
    ∷ ("DECR", Name.decr)
    ∷ ("MSET", Name.mset)
    ∷ ("EXPIRE", Name.expire)
    ∷ ("PEXPIRE", Name.pexpire)
    ∷ ("TTL", Name.ttl)
    ∷ ("PTTL", Name.pttl)
    ∷ ("PERSIST", Name.persist)
    ∷ ("MULTI", Name.multi)
    ∷ ("EXEC", Name.exec)
    ∷ ("DISCARD", Name.discard)
    ∷ ("UNWATCH", Name.unwatch)
    ∷ ("WATCH", Name.watch)
    ∷ ("SUBSCRIBE", Name.subscribe)
    ∷ ("UNSUBSCRIBE", Name.unsubscribe)
    ∷ ("PUBLISH", Name.publish)
    ∷ []

abbrev section_names : List (String × ℕ)
section_names =
    ("server", 1)
    ∷ ("clients", 2)
    ∷ ("stats", 4)
    ∷ ("memory", 8)
    ∷ ("persistence", 16)
    ∷ ("config", 32)
    ∷ ("replication", 64)
    ∷ ("all", 127)
    ∷ ("default", 127)
    ∷ ("everything", 127)
    ∷ []

abbrev section_bit : Option ℕ → ℕ
section_bit none = 0
section_bit (some bit) = bit

abbrev pub selected : ℕ → List Bytes → ℕ
selected selection [] = selection
selected selection (name ∷ rest) =
    selected (bit_or selection (section_bit (find name section_names))) rest

unfoldable pub from_names : List Bytes → InfoSections
from_names [] = record { selection = 127 }
from_names (name ∷ rest) = record { selection = selected 0 (name ∷ rest) }

abbrev pub one_argument : String → (Bytes → Command) → List Bytes → Result Command RequestError
one_argument name make (a ∷ []) = ok (make a)
one_argument name make _ = err (wrong_arity name)

abbrev pub no_argument : String → Command → List Bytes → Result Command RequestError
no_argument name make [] = ok make
no_argument name make (a ∷ args) = err (wrong_arity name)

abbrev pub some_arguments :
    String → (List Bytes → Command) → List Bytes → Result Command RequestError
some_arguments name make [] = err (wrong_arity name)
some_arguments name make (a ∷ args) = ok (make (a ∷ args))

abbrev pub ping_of : List Bytes → Result Command RequestError
ping_of [] = ok (Command.ping none)
ping_of (a ∷ []) = ok (Command.ping (some a))
ping_of (a ∷ (b ∷ args)) = err (wrong_arity "ping")

abbrev pub set_of : List Bytes → Result Command RequestError
set_of [] = err (wrong_arity "set")
set_of (key ∷ []) = err (wrong_arity "set")
set_of (key ∷ (value ∷ [])) = ok (Command.set key value)
set_of (key ∷ (value ∷ (a ∷ args))) =
    and_then (parse_set_options (a ∷ args))
      (λ options. ok (Command.set_with_options key value options))

abbrev pub mset_of : List Bytes → Result Command RequestError
mset_of args =
    if length args == 0 || not (length args % 2 == 0)
    then err (wrong_arity "mset")
    else and_then (pairs "mset" args) (λ entries. ok (Command.mset entries))

abbrev pub in_range : Bool → String → ℤ → Result ℤ RequestError
in_range seconds name value =
    if seconds then ok_or (checked_mul_i64 value (pos 1000)) (invalid_expiry name) else ok value

abbrev pub expire_of : Bool → String → List Bytes → Result Command RequestError
expire_of seconds name (key ∷ (argument ∷ [])) = and_then (parse_integer argument) (λ value.
    and_then (in_range seconds name value) (λ _.
      ok (
        Command.expire key value
          (if seconds then ExpiryUnit.seconds else ExpiryUnit.milliseconds))))
expire_of seconds name _ = err (wrong_arity name)

abbrev pub publish_of : List Bytes → Result Command RequestError
publish_of (channel ∷ (message ∷ [])) = ok (Command.publish channel message)
publish_of _ = err (wrong_arity "publish")

abbrev pub build : (Bytes → Option Score) → Bytes → Name → List Bytes → Result Command RequestError
build score raw (Name.memory kind) args = MemoryRequests.parse kind raw args
build score raw Name.info args = ok (Command.info (from_names args))
build score raw Name.ping args = ping_of args
build score raw Name.echo args = one_argument "echo" Command.echo args
build score raw Name.get args = one_argument "get" Command.get args
build score raw Name.set args = set_of args
build score raw Name.del args = some_arguments "del" Command.del args
build score raw Name.exists args = some_arguments "exists" Command.exists args
build score raw Name.mget args = some_arguments "mget" Command.mget args
build score raw Name.incr args = one_argument "incr" Command.incr args
build score raw Name.decr args = one_argument "decr" Command.decr args
build score raw Name.mset args = mset_of args
build score raw Name.expire args = expire_of true "expire" args
build score raw Name.pexpire args = expire_of false "pexpire" args
build score raw Name.ttl args = one_argument "ttl" (λ key. Command.ttl key false) args
build score raw Name.pttl args = one_argument "pttl" (λ key. Command.ttl key true) args
build score raw Name.persist args = one_argument "persist" Command.persist args
build score raw Name.multi args = no_argument "multi" Command.multi args
build score raw Name.exec args = no_argument "exec" Command.exec args
build score raw Name.discard args = no_argument "discard" Command.discard args
build score raw Name.unwatch args = no_argument "unwatch" Command.unwatch args
build score raw Name.watch args = some_arguments "watch" Command.watch args
build score raw Name.subscribe args = some_arguments "subscribe" Command.subscribe args
build score raw Name.unsubscribe args = ok (Command.unsubscribe args)
build score raw Name.publish args = publish_of args

-- `frames.into_iter().map(..).collect()`: all are bulk strings, or none.
abbrev pub bulks : Frames → Option (List Bytes)
bulks nil = some []
bulks (cons (Frame.bulk (some value)) fs) = elim (bulks fs) [
  | none ↦ none
  | some values ↦ some (value ∷ values)
]
bulks (cons _ fs) = none

abbrev pub arguments : Frame → Option (List Bytes)
arguments (Frame.array fs) = bulks fs
arguments _ = none

abbrev pub request :
    (Bytes → Option Score) → Bytes → List Bytes → Option Name → Result Command RequestError
request score name args (some kind) = build score name kind args
request score name args none = Collections.parse score name args

abbrev pub parse_arguments :
    (Bytes → Option Score) → Option (List Bytes) → Result Command RequestError
parse_arguments score none = err invalid_format
parse_arguments score (some []) = err invalid_format
parse_arguments score (some (name ∷ args)) = request score name args (find name names)

unfoldable pub parse : (Bytes → Option Score) → Frame → Result Command RequestError
parse score frame = parse_arguments score (arguments frame)
