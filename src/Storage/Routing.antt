-- ===== src/Storage/Routing.antt =====
-- storage/routing.rs: the shard that owns a key, a command and a transaction.
use sider.Prelude.{◌&&◌}
use Prim.Native.Nat.{bit_xor}
use sider.Prelude.{
  ℕ, zero, suc, ◌*◌, ◌%◌, ◌^◌, Bool, true, false, ◌||◌, not, Option, none, some, List, [], ◌∷◌,
  ◌++◌, leb, ◌==◌, if◌then◌else◌, Result, ok, err, and_then,
}
use sider.Resp.Frame.{Bytes}
use sider.Command.Types.{Command, keys_of}

abbrev pub max_shards : ℕ
max_shards = 256

-- The bytes before the first `byte` and those after it.
unfoldable pub split_on : ℕ → Bytes → Option (Bytes × Bytes)
split_on byte [] = none
split_on byte (b ∷ bs) =
    let rest = split_on byte bs in
    if b == byte
    then some ([], bs)
    else elim rest [ none ↦ none | some (before, after) ↦ some (b ∷ before, after) ]

-- `match suffix.iter().position(..)`: the tag up to the `}`, or the whole key.
abbrev pub closed_tag : Bytes → Option (Bytes × Bytes) → Bytes
closed_tag key none = key
closed_tag key (some ([], after)) = key
closed_tag key (some (b ∷ tag, after)) = b ∷ tag

abbrev pub opened_tag : Bytes → Option (Bytes × Bytes) → Bytes
opened_tag key none = key
opened_tag key (some (before, suffix)) = closed_tag key (split_on b'}' suffix)

unfoldable pub hash_tag : Bytes → Bytes
hash_tag key = opened_tag key (split_on b'{' key)

-- One round of the fold: `(hash ^ byte).wrapping_mul(0x100000001b3)`.
unfoldable pub hash_byte : ℕ → ℕ → ℕ
hash_byte hash byte = bit_xor hash byte * 0x100000001b3 % 2 ^ 64

unfoldable pub hash_from : ℕ → Bytes → ℕ
hash_from hash [] = hash
hash_from hash (b ∷ bs) = hash_from (hash_byte hash b) bs

unfoldable pub stable_hash : Bytes → ℕ
stable_hash bytes = hash_from 0xcbf29ce484222325 bytes

pub record ShardRouter : Type 0 where
  pub count : ℕ

pub data RoutingError : Type 0 where
  invalid_server_limits cross_shard : RoutingError

unfoldable pub new : ℕ → Result ShardRouter RoutingError
new count =
    if leb 1 count && leb count max_shards
    then ok (record { count = count })
    else err invalid_server_limits

unfoldable pub shard_for : ShardRouter → Bytes → ℕ
shard_for r key = stable_hash (hash_tag key) % r.count

-- The bit of `owner` in the bitmap that the keys have set.
unfoldable pub owns : ShardRouter → ℕ → List Bytes → Bool
owns r owner [] = false
owns r owner (key ∷ keys) = let rest = owns r owner keys in shard_for r key == owner || rest

abbrev pub all_keys : List Command → List Bytes
all_keys [] = []
all_keys (c ∷ cs) = keys_of c ++ all_keys cs

-- `participants[..count].iter().enumerate().filter_map(...)`, from `owner` on for `left` shards.
unfoldable pub owners_from : ShardRouter → List Bytes → ℕ → ℕ → List ℕ
owners_from r keys owner zero = []
owners_from r keys owner (suc left) =
    let rest = owners_from r keys (suc owner) left in
    if owns r owner keys then owner ∷ rest else rest

abbrev pub or_zero : List ℕ → List ℕ
or_zero [] = 0 ∷ []
or_zero (o ∷ os) = o ∷ os

unfoldable pub transaction_participants : ShardRouter → List Command → List Bytes → List ℕ
transaction_participants r commands watched =
    or_zero (owners_from r (watched ++ all_keys commands) 0 r.count)

-- The new selection, which an error leaves as it was.
unfoldable pub select_key :
    ShardRouter → Bytes → Option ℕ → Result (Unit {0}) RoutingError × Option ℕ
select_key r key none = (ok tt, some (shard_for r key))
select_key r key (some previous) =
    if not (previous == shard_for r key)
    then (err cross_shard, some previous)
    else (ok tt, some (shard_for r key))

abbrev pub is_err : Result (Unit {0}) RoutingError → Bool
is_err (ok _) = false
is_err (err _) = true

-- The visit of `select_command`: every key is visited, also after one has crossed.
unfoldable pub select_keys : ShardRouter → List Bytes → Option ℕ → Bool × Option ℕ
select_keys r [] selected = (false, selected)
select_keys r (key ∷ keys) selected =
    let (one, next) = select_key r key selected in
    let (crossed, last) = select_keys r keys next in (is_err one || crossed, last)

unfoldable pub select_command :
    ShardRouter → Command → Option ℕ → Result (Unit {0}) RoutingError × Option ℕ
select_command r command selected =
    let (crossed, last) = select_keys r (keys_of command) selected in
    (if crossed then (err cross_shard, last) else (ok tt, last))

abbrev pub unwrap_or : Option ℕ → ℕ → ℕ
unwrap_or none d = d
unwrap_or (some a) d = a

unfoldable pub route : ShardRouter → Command → Result ℕ RoutingError
route r command =
    let (done, selected) = select_command r command none in
    and_then done (λ _. ok (unwrap_or selected 0))
