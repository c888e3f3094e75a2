-- ===== src/Command/Accepted.antt =====
-- command/parser.rs, command/collections.rs and command/sorted_set.rs: what a parsed request can be.
use sider.Command.Names.{RequestError}
use sider.Prelude.{Result}
use Prim.Native.String.{String}
use sider.Prelude.{
  ◌≡◌, refl, Bool, true, false, not, Option, none, some, List, [], ◌∷◌, length, ok, err,
}
use sider.Prelude.Int.{ℤ}
use sider.Resp.Frame.{Bytes, Frame}
use sider.Command.Types.{Command, Score, keys_of}
use sider.Command.Names.{invalid_format}
use sider.Command.SortedSet
use sider.Command.Collections
use sider.Command.Parser
use sider.Command.MemoryAccepted.{memory_parse-Answers}
use Prim.Native.String.{String}
use sider.Command.SortedSet.{
  find, SortedSetName, scored, with_scores, zrange_of, zscore_of, sorted_set_operation,
  keyed_sorted_set,
}
use sider.Command.Collections.{CollectionName, pairs, next_arg, lrange_of, keyed, starts_with_z}
use sider.Command.Parser.{
  Name, build, names, parse, parse_arguments, arguments, in_range, expire_of, publish_of, set_of,
  ping_of, mset_of,
}
use sider.Command.Mild.{
  KeysFrom, Answers, accepted, refused, Mild, fine, harmless, and_then-Mild, and_then-Answers,
  if-Mild, if-Answers, ok_or-Mild, parse_integer-Mild, KeysFrom-self, pairs-PairsFrom,
  PairsFrom-Mild, mset-Answers, one-Answers, none-Answers, some-Answers, parse_set_options-Mild,
}

scored-Mild : (score : Bytes → Option Score) (args : List Bytes) → Mild (scored score args)
scored-Mild score [] = fine
scored-Mild score (s ∷ []) = and_then-Mild (ok_or-Mild (score s) _ refl) (λ v. harmless refl)
scored-Mild score (s ∷ (m ∷ args)) =
    and_then-Mild (ok_or-Mild (score s) _ refl)
      (λ v. and_then-Mild (scored-Mild score args) (λ es. fine))

with_scores-Mild : (args : List Bytes) → Mild (with_scores args)
with_scores-Mild [] = fine
with_scores-Mild (a ∷ args) = if-Mild _ fine (harmless refl)

zrange-Mild : (args : List Bytes) → Mild (zrange_of args)
zrange-Mild [] = harmless refl
zrange-Mild (a ∷ []) = harmless refl
zrange-Mild (a ∷ (b ∷ args)) = and_then-Mild (parse_integer-Mild a) (λ x.
    and_then-Mild (parse_integer-Mild b) (λ y. and_then-Mild (with_scores-Mild args) (λ w. fine)))

lrange-Mild : (args : List Bytes) → Mild (lrange_of args)
lrange-Mild [] = harmless refl
lrange-Mild (a ∷ []) = harmless refl
lrange-Mild (a ∷ (b ∷ args)) =
    and_then-Mild (parse_integer-Mild a) (λ x. and_then-Mild (parse_integer-Mild b) (λ y. fine))

next_arg-Mild : (name : String) (args : List Bytes) → Mild (next_arg name args)
next_arg-Mild name [] = harmless refl
next_arg-Mild name (a ∷ args) = fine

zscore-Mild : (args : List Bytes) → Mild (zscore_of args)
zscore-Mild [] = harmless refl
zscore-Mild (a ∷ args) = fine

operation-Mild :
    (score : Bytes → Option Score) (name : SortedSetName) (args : List Bytes)
    → Mild (sorted_set_operation score name args)
operation-Mild score SortedSet.zadd args =
    if-Mild _ (harmless refl) (and_then-Mild (scored-Mild score args) (λ es. fine))
operation-Mild score SortedSet.zrem args = fine
operation-Mild score SortedSet.zcard args = fine
operation-Mild score SortedSet.zscore args = zscore-Mild args
operation-Mild score SortedSet.zrange args = zrange-Mild args

first_key : (key : Bytes) (args : List Bytes) → KeysFrom (key ∷ args) (key ∷ [])
first_key key args = ((0, refl), tt)

keyed_sorted_set-Answers :
    (score : Bytes → Option Score) (name : SortedSetName) (args : List Bytes)
    → Answers args (keyed_sorted_set score name args)
keyed_sorted_set-Answers score name [] = refused refl
keyed_sorted_set-Answers score name (key ∷ args) =
    and_then-Answers (operation-Mild score name args) (λ o. accepted (first_key key args))

sorted_request-Answers :
    (score : Bytes → Option Score) (args : List Bytes) (kind : Option SortedSetName)
    → Answers args (SortedSet.request score args kind)
sorted_request-Answers score args none = refused refl
sorted_request-Answers score args (some kind) =
    if-Answers (not (SortedSet.arity kind (length args))) (refused refl)
      (keyed_sorted_set-Answers score kind args)

sorted_set-Answers :
    (score : Bytes → Option Score) (name : Bytes) (args : List Bytes)
    → Answers args (SortedSet.parse score name args)
unfolding SortedSet.parse
sorted_set-Answers score name args =
    sorted_request-Answers score args (find name SortedSet.sorted_set_names)

built-Answers :
    (name : CollectionName) (key : Bytes) (args : List Bytes)
    → Answers (key ∷ args) (Collections.build name key args)
built-Answers Collections.hset key args =
    and_then-Answers (PairsFrom-Mild args _ (pairs-PairsFrom "hset" args))
      (λ es. accepted (first_key key args))
built-Answers Collections.hget key args =
    and_then-Answers (next_arg-Mild _ args) (λ f. accepted (first_key key args))
built-Answers Collections.hdel key args = accepted (first_key key args)
built-Answers Collections.hexists key args =
    and_then-Answers (next_arg-Mild _ args) (λ f. accepted (first_key key args))
built-Answers Collections.hlen key args = accepted (first_key key args)
built-Answers Collections.hgetall key args = accepted (first_key key args)
built-Answers Collections.lpush key args = accepted (first_key key args)
built-Answers Collections.rpush key args = accepted (first_key key args)
built-Answers Collections.lpop key args = accepted (first_key key args)
built-Answers Collections.rpop key args = accepted (first_key key args)
built-Answers Collections.llen key args = accepted (first_key key args)
built-Answers Collections.lrange key args =
    and_then-Answers (lrange-Mild args) (λ o. accepted (first_key key args))
built-Answers Collections.sadd key args = accepted (first_key key args)
built-Answers Collections.srem key args = accepted (first_key key args)
built-Answers Collections.sismember key args =
    and_then-Answers (next_arg-Mild _ args) (λ f. accepted (first_key key args))
built-Answers Collections.scard key args = accepted (first_key key args)
built-Answers Collections.smembers key args = accepted (first_key key args)

keyed-Answers : (name : CollectionName) (args : List Bytes) → Answers args (keyed name args)
keyed-Answers name [] = refused refl
keyed-Answers name (key ∷ args) = built-Answers name key args

request-Answers :
    (args : List Bytes) (kind : Option CollectionName)
    → Answers args (Collections.request args kind)
request-Answers args none = refused refl
request-Answers args (some kind) =
    if-Answers (not (Collections.arity kind (length args))) (refused refl) (keyed-Answers kind args)

collections-Answers :
    (score : Bytes → Option Score) (name : Bytes) (args : List Bytes)
    → Answers args (Collections.parse score name args)
unfolding Collections.parse
collections-Answers score name args =
    if-Answers (starts_with_z name) (sorted_set-Answers score name args)
      (request-Answers args (find name Collections.collection_names))

set-Answers : (args : List Bytes) → Answers args (set_of args)
set-Answers [] = refused refl
set-Answers (k ∷ []) = refused refl
set-Answers (k ∷ (v ∷ [])) = accepted (first_key k (v ∷ []))
set-Answers (k ∷ (v ∷ (a ∷ args))) =
    and_then-Answers (parse_set_options-Mild (a ∷ args))
      (λ o. accepted (first_key k (v ∷ (a ∷ args))))

ping-Answers : (args : List Bytes) → Answers args (ping_of args)
ping-Answers [] = accepted tt
ping-Answers (a ∷ []) = accepted tt
ping-Answers (a ∷ (b ∷ args)) = refused refl

in_range-Mild : (seconds : Bool) (name : String) (v : ℤ) → Mild (in_range seconds name v)
in_range-Mild seconds name v = if-Mild seconds (ok_or-Mild _ _ refl) fine

expire-Answers :
    (seconds : Bool) (name : String) (args : List Bytes)
    → Answers args (expire_of seconds name args)
expire-Answers seconds name [] = refused refl
expire-Answers seconds name (k ∷ []) = refused refl
expire-Answers seconds name (k ∷ (v ∷ (x ∷ args))) = refused refl
expire-Answers seconds name (k ∷ (v ∷ [])) =
    and_then-Answers (parse_integer-Mild v)
      (λ n. and_then-Answers (in_range-Mild seconds name n) (λ m. accepted (first_key k (v ∷ []))))

publish-Answers : (args : List Bytes) → Answers args (publish_of args)
publish-Answers [] = refused refl
publish-Answers (k ∷ []) = refused refl
publish-Answers (k ∷ (v ∷ [])) = accepted tt
publish-Answers (k ∷ (v ∷ (x ∷ args))) = refused refl

mset_of-Answers : (args : List Bytes) → Answers args (mset_of args)
mset_of-Answers args =
    if-Answers _ (refused refl)
      (mset-Answers args (pairs "mset" args) (pairs-PairsFrom "mset" args))

one_key :
    (make : Bytes → Command)
    → ((a : Bytes) → keys_of (make a) ≡ a ∷ [])
    → (a : Bytes) → Answers (a ∷ []) (ok (make a))
one_key make h a = accepted (rw (h a) ((0, refl), tt))

module _ (score : Bytes → Option Score) where
  build-Answers :
      (raw : Bytes) (name : Name) (args : List Bytes) → Answers args (build score raw name args)
  build-Answers raw (Name.memory kind) args = memory_parse-Answers kind raw args
  build-Answers raw Name.info args = accepted tt
  build-Answers raw Name.ping args = ping-Answers args
  build-Answers raw Name.echo args = one-Answers "echo" Command.echo args (λ a. accepted tt)
  build-Answers raw Name.get args =
      one-Answers "get" Command.get args (one_key Command.get (λ a. refl))
  build-Answers raw Name.set args = set-Answers args
  build-Answers raw Name.del args = some-Answers "del" Command.del args KeysFrom-self
  build-Answers raw Name.exists args = some-Answers "exists" Command.exists args KeysFrom-self
  build-Answers raw Name.mget args = some-Answers "mget" Command.mget args KeysFrom-self
  build-Answers raw Name.incr args =
      one-Answers "incr" Command.incr args (one_key Command.incr (λ a. refl))
  build-Answers raw Name.decr args =
      one-Answers "decr" Command.decr args (one_key Command.decr (λ a. refl))
  build-Answers raw Name.mset args = mset_of-Answers args
  build-Answers raw Name.expire args = expire-Answers true "expire" args
  build-Answers raw Name.pexpire args = expire-Answers false "pexpire" args
  build-Answers raw Name.ttl args =
      one-Answers "ttl" (λ key. Command.ttl key false) args (one_key _ (λ a. refl))
  build-Answers raw Name.pttl args =
      one-Answers "pttl" (λ key. Command.ttl key true) args (one_key _ (λ a. refl))
  build-Answers raw Name.persist args =
      one-Answers "persist" Command.persist args (one_key Command.persist (λ a. refl))
  build-Answers raw Name.multi args = none-Answers "multi" Command.multi args refl
  build-Answers raw Name.exec args = none-Answers "exec" Command.exec args refl
  build-Answers raw Name.discard args = none-Answers "discard" Command.discard args refl
  build-Answers raw Name.unwatch args = none-Answers "unwatch" Command.unwatch args refl
  build-Answers raw Name.watch args = some-Answers "watch" Command.watch args KeysFrom-self
  build-Answers raw Name.subscribe args =
      some-Answers "subscribe" Command.subscribe args (λ all. tt)
  build-Answers raw Name.unsubscribe args = accepted tt
  build-Answers raw Name.publish args = publish-Answers args

  named-Answers :
      (raw : Bytes) (args : List Bytes) (name : Option Name)
      → Answers args (Parser.request score raw args name)
  named-Answers raw args (some name) = build-Answers raw name args
  named-Answers raw args none = collections-Answers score raw args

-- A non-empty array of bulk strings is answered; any other frame is an invalid format.
abbrev pub Parsed : Option (List Bytes) → Result Command RequestError → Type 0
Parsed none result = result ≡ err invalid_format
Parsed (some []) result = result ≡ err invalid_format
Parsed (some (name ∷ args)) result = Answers args result

-- Whatever the reader of scores accepts, a frame that is a non-empty array of bulk strings is
-- either refused with an error that keeps the connection, or gives a command all of whose keys are
-- arguments of the request; any other frame is an invalid format, which is fatal.
pub parse-Parsed :
    (score : Bytes → Option Score) (frame : Frame) → Parsed (arguments frame) (parse score frame)
unfolding parse
parse-Parsed score frame = answered (arguments frame)
  where
    answered : (args : Option (List Bytes)) → Parsed args (parse_arguments score args)
    answered none = refl
    answered (some []) = refl
    answered (some (name ∷ args)) = named-Answers score name args (find name names)
