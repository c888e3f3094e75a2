-- ===== src/Command/Collections.antt =====
-- command/collections.rs, `parse`: the requests of hashes, lists and sets.
-- The matches on the name are one: the name selects a request, its arity and what it builds.
use Prim.Native.String.{String}
use sider.Prelude.{
  ℕ, ◌%◌, Bool, true, false, ◌&&◌, not, Option, none, some, List, [], ◌∷◌, length, leb, ◌==◌,
  if◌then◌else◌, Result, ok, err, and_then,
}
use sider.Resp.Frame.{Bytes}
use sider.Command.Types.{Command, Score, HashCommand, ListCommand, SetCommand}
use sider.Command.Names.{upper, RequestError, wrong_arity, unknown_command}
use sider.Command.Options.{parse_integer}
use sider.Command.SortedSet
use sider.Command.SortedSet.{find}

pub data CollectionName : Type 0 where
  hset hget hdel hexists hlen hgetall : CollectionName
  lpush rpush lpop rpop llen lrange : CollectionName
  sadd srem sismember scard smembers : CollectionName

abbrev pub collection_names : List (String × CollectionName)
collection_names =
    ("HSET", hset)
    ∷ ("HGET", hget)
    ∷ ("HDEL", hdel)
    ∷ ("HEXISTS", hexists)
    ∷ ("HLEN", hlen)
    ∷ ("HGETALL", hgetall)
    ∷ ("LPUSH", lpush)
    ∷ ("RPUSH", rpush)
    ∷ ("LPOP", lpop)
    ∷ ("RPOP", rpop)
    ∷ ("LLEN", llen)
    ∷ ("LRANGE", lrange)
    ∷ ("SADD", sadd)
    ∷ ("SREM", srem)
    ∷ ("SISMEMBER", sismember)
    ∷ ("SCARD", scard)
    ∷ ("SMEMBERS", smembers)
    ∷ []

abbrev pub canonical : CollectionName → String
canonical hset = "hset"
canonical hget = "hget"
canonical hdel = "hdel"
canonical hexists = "hexists"
canonical hlen = "hlen"
canonical hgetall = "hgetall"
canonical lpush = "lpush"
canonical rpush = "rpush"
canonical lpop = "lpop"
canonical rpop = "rpop"
canonical llen = "llen"
canonical lrange = "lrange"
canonical sadd = "sadd"
canonical srem = "srem"
canonical sismember = "sismember"
canonical scard = "scard"
canonical smembers = "smembers"

abbrev pub arity : CollectionName → ℕ → Bool
arity hset n = leb 3 n && n % 2 == 1
arity hget n = n == 2
arity hdel n = leb 2 n
arity hexists n = n == 2
arity hlen n = n == 1
arity hgetall n = n == 1
arity lpush n = leb 2 n
arity rpush n = leb 2 n
arity lpop n = n == 1
arity rpop n = n == 1
arity llen n = n == 1
arity lrange n = n == 3
arity sadd n = leb 2 n
arity srem n = leb 2 n
arity sismember n = n == 2
arity scard n = n == 1
arity smembers n = n == 1

-- The loops of HSET and MSET; an odd word at the end is a wrong arity.
abbrev pub pairs : String → List Bytes → Result (List (Bytes × Bytes)) RequestError
pairs name [] = ok []
pairs name (a ∷ []) = err (wrong_arity name)
pairs name (a ∷ (b ∷ args)) = and_then (pairs name args) (λ entries. ok ((a, b) ∷ entries))

-- `args.next().ok_or(RequestError::WrongArity(canonical))`.
abbrev pub next_arg : String → List Bytes → Result Bytes RequestError
next_arg name [] = err (wrong_arity name)
next_arg name (a ∷ args) = ok a

abbrev pub lrange_of : List Bytes → Result ListCommand RequestError
lrange_of (start ∷ (stop ∷ args)) =
    and_then (parse_integer start)
      (λ first. and_then (parse_integer stop) (λ last. ok (ListCommand.range first last)))
lrange_of _ = err (wrong_arity "lrange")

abbrev pub build : CollectionName → Bytes → List Bytes → Result Command RequestError
build hset key args =
    and_then (pairs "hset" args) (λ entries. ok (Command.hash key (HashCommand.set entries)))
build hget key args =
    and_then (next_arg "hget" args) (λ field. ok (Command.hash key (HashCommand.get field)))
build hdel key args = ok (Command.hash key (HashCommand.delete args))
build hexists key args =
    and_then (next_arg "hexists" args) (λ field. ok (Command.hash key (HashCommand.exists field)))
build hlen key args = ok (Command.hash key HashCommand.len)
build hgetall key args = ok (Command.hash key HashCommand.get_all)
build lpush key args = ok (Command.list key (ListCommand.push true args))
build rpush key args = ok (Command.list key (ListCommand.push false args))
build lpop key args = ok (Command.list key (ListCommand.pop true))
build rpop key args = ok (Command.list key (ListCommand.pop false))
build llen key args = ok (Command.list key ListCommand.len)
build lrange key args = and_then (lrange_of args) (λ operation. ok (Command.list key operation))
build sadd key args = ok (Command.set_collection key (SetCommand.add args))
build srem key args = ok (Command.set_collection key (SetCommand.remove args))
build sismember key args =
    and_then (next_arg "sismember" args)
      (λ m. ok (Command.set_collection key (SetCommand.is_member m)))
build scard key args = ok (Command.set_collection key SetCommand.card)
build smembers key args = ok (Command.set_collection key SetCommand.members)

abbrev pub keyed : CollectionName → List Bytes → Result Command RequestError
keyed name [] = err (wrong_arity (canonical name))
keyed name (key ∷ args) = build name key args

abbrev pub starts_with_z : Bytes → Bool
starts_with_z [] = false
starts_with_z (b ∷ bs) = upper b == b'Z'

abbrev pub request : List Bytes → Option CollectionName → Result Command RequestError
request args none = err unknown_command
request args (some kind) =
    if not (arity kind (length args)) then err (wrong_arity (canonical kind)) else keyed kind args

unfoldable pub parse : (Bytes → Option Score) → Bytes → List Bytes → Result Command RequestError
parse score name args =
    if starts_with_z name
    then SortedSet.parse score name args
    else request args (find name collection_names)
