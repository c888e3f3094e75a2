-- ===== src/Command/Types.antt =====
-- command/mod.rs, command/collections.rs, command/sorted_set.rs and command/info.rs: the commands.
-- A `Score` is an `f64` and is kept as its bits; a `Duration` made from milliseconds as their number.
use sider.Prelude.{ℕ, Bool, true, false, Option, List, [], ◌∷◌, map}
use sider.Prelude.Int.{ℤ}
use sider.Resp.Frame.{Bytes}
use sider.Storage.Memory.{Operation, SetCondition, edits}

pub record Score : Type 0 where
  pub bits : ℕ

pub data SetExpiry : Type 0 where
  persistent keep : SetExpiry
  after : ℕ → SetExpiry

pub record SetOptions : Type 0 where
  pub condition : SetCondition
  pub expiry : SetExpiry
  pub return_previous : Bool

pub data ExpiryUnit : Type 0 where
  seconds milliseconds : ExpiryUnit

pub data HashCommand : Type 0 where
  set : List (Bytes × Bytes) → HashCommand
  get : Bytes → HashCommand
  delete : List Bytes → HashCommand
  exists : Bytes → HashCommand
  len get_all : HashCommand

-- The Boolean says that the list is used at its left end.
pub data ListCommand : Type 0 where
  push : Bool → List Bytes → ListCommand
  pop : Bool → ListCommand
  len : ListCommand
  range : ℤ → ℤ → ListCommand

pub data SetCommand : Type 0 where
  add remove : List Bytes → SetCommand
  is_member : Bytes → SetCommand
  card members : SetCommand

pub data SortedSetCommand : Type 0 where
  add : List (Score × Bytes) → SortedSetCommand
  remove : List Bytes → SortedSetCommand
  card : SortedSetCommand
  score : Bytes → SortedSetCommand
  range : ℤ → ℤ → Bool → SortedSetCommand

pub record InfoSections : Type 0 where
  pub selection : ℕ

pub data Command : Type 0 where
  memory : Bytes → Operation → Command
  info : InfoSections → Command
  sorted_set : Bytes → SortedSetCommand → Command
  set_collection : Bytes → SetCommand → Command
  hash : Bytes → HashCommand → Command
  list : Bytes → ListCommand → Command
  ping : Option Bytes → Command
  echo get incr decr persist : Bytes → Command
  set : Bytes → Bytes → Command
  set_with_options : Bytes → Bytes → SetOptions → Command
  del exists mget subscribe unsubscribe watch : List Bytes → Command
  mset : List (Bytes × Bytes) → Command
  expire : Bytes → ℤ → ExpiryUnit → Command
  ttl : Bytes → Bool → Command
  publish : Bytes → Bytes → Command
  multi exec discard unwatch : Command

abbrev pub hash_writes : HashCommand → Bool
hash_writes (HashCommand.set entries) = true
hash_writes (HashCommand.delete fields) = true
hash_writes _ = false

abbrev pub list_writes : ListCommand → Bool
list_writes (ListCommand.push left values) = true
list_writes (ListCommand.pop left) = true
list_writes _ = false

abbrev pub set_writes : SetCommand → Bool
set_writes (SetCommand.add ms) = true
set_writes (SetCommand.remove ms) = true
set_writes _ = false

abbrev pub sorted_set_writes : SortedSetCommand → Bool
sorted_set_writes (SortedSetCommand.add entries) = true
sorted_set_writes (SortedSetCommand.remove ms) = true
sorted_set_writes _ = false

abbrev pub writes_dataset : Command → Bool
writes_dataset (Command.memory key operation) = edits operation
writes_dataset (Command.set key value) = true
writes_dataset (Command.set_with_options key value options) = true
writes_dataset (Command.del keys) = true
writes_dataset (Command.incr key) = true
writes_dataset (Command.decr key) = true
writes_dataset (Command.mset entries) = true
writes_dataset (Command.expire key value unit) = true
writes_dataset (Command.persist key) = true
writes_dataset (Command.hash key operation) = hash_writes operation
writes_dataset (Command.list key operation) = list_writes operation
writes_dataset (Command.set_collection key operation) = set_writes operation
writes_dataset (Command.sorted_set key operation) = sorted_set_writes operation
writes_dataset _ = false

-- `visit_keys`, as the list of the keys in the order in which they are visited.
abbrev pub keys_of : Command → List Bytes
keys_of (Command.watch keys) = keys
keys_of (Command.get key) = key ∷ []
keys_of (Command.memory key operation) = key ∷ []
keys_of (Command.hash key operation) = key ∷ []
keys_of (Command.list key operation) = key ∷ []
keys_of (Command.set_collection key operation) = key ∷ []
keys_of (Command.sorted_set key operation) = key ∷ []
keys_of (Command.set key value) = key ∷ []
keys_of (Command.set_with_options key value options) = key ∷ []
keys_of (Command.incr key) = key ∷ []
keys_of (Command.decr key) = key ∷ []
keys_of (Command.expire key value unit) = key ∷ []
keys_of (Command.ttl key in_milliseconds) = key ∷ []
keys_of (Command.persist key) = key ∷ []
keys_of (Command.del keys) = keys
keys_of (Command.exists keys) = keys
keys_of (Command.mget keys) = keys
keys_of (Command.mset entries) = map (λ e. e.0) entries
keys_of _ = []
