-- ===== src/Storage/Plan.antt =====
-- storage/routing_transaction.rs: the plan of a transaction whose keys several shards own. A command
-- is split into fragments, one for each owner, and its reply is put together from theirs.
-- A `BTreeMap` of groups is the list of its entries in the order of the owners.
use sider.Prelude.{
  ℕ, zero, suc, Bool, true, false, ◌&&◌, ◌||◌, Option, none, some, List, [], ◌∷◌, ◌++◌, length, ltb,
  ◌==◌, if◌then◌else◌, option_bind, Result, ok, err, and_then, map,
}
use sider.Prelude.Int.{ℤ, pos, leb_ℤ}
use sider.Prelude.Machine.{checked_add_i64}
use sider.Resp.Frame.{Bytes}
use sider.Command.Types.{Command}
use sider.Command.Reply.{
  ExecutionError, Reply, Replies, integer, error, bulk, done, array, empty, more, cross_shard,
}
use sider.Storage.Routing.{ShardRouter, shard_for, transaction_participants}

pub record Fragment : Type 0 where
  pub owner : ℕ
  pub command : Command

pub data ReplyPlan : Type 0 where
  direct : ReplyPlan
  sum : ℕ → ReplyPlan
  ordered_bulk : List (ℕ × ℕ) → List ℕ → ReplyPlan
  all_ok : ℕ → ReplyPlan

pub record CommandPlan : Type 0 where
  pub fragments : List Fragment
  pub reply : ReplyPlan
  pub joint_commit : Bool

pub record TransactionPlan : Type 0 where
  pub participants : List ℕ
  pub commands : List CommandPlan

pub data PlanError : Type 0 where
  invalid_reply overflow : PlanError

abbrev pub Assembled : Type 0
Assembled = Result Reply PlanError

abbrev pub single : List Reply → Assembled
single (reply ∷ []) = ok reply
single _ = err invalid_reply

-- The loop of `Sum`.
unfoldable pub sum_replies : ℤ → List Reply → Assembled
sum_replies total [] = ok (integer total)
sum_replies total (integer value ∷ rest) =
    if leb_ℤ (pos 0) value
    then elim (checked_add_i64 total value) [
      | none ↦ err overflow
      | some next ↦ sum_replies next rest
    ]
    else err invalid_reply
sum_replies total (error e ∷ rest) = ok (error e)
sum_replies total (reply ∷ rest) = err invalid_reply

-- The loop of `AllOk`.
unfoldable pub all_done : List Reply → Assembled
all_done [] = ok done
all_done (done ∷ rest) = all_done rest
all_done (error e ∷ rest) = ok (error e)
all_done (reply ∷ rest) = err invalid_reply

-- A row is the reply of one fragment, less the values that were taken.
abbrev pub Row : Type 0
Row = List (Option Reply)

abbrev pub values_of : Replies → List Reply
values_of empty = []
values_of (more reply replies) = reply ∷ values_of replies

abbrev pub replies_of : List Reply → Replies
replies_of [] = empty
replies_of (reply ∷ replies) = more reply (replies_of replies)

abbrev is_bulk : Reply → Bool
is_bulk (bulk value) = true
is_bulk _ = false

abbrev pub all_bulk : List Reply → Bool
all_bulk [] = true
all_bulk (reply ∷ replies) = is_bulk reply && all_bulk replies

abbrev pub read_row : Reply → ℕ → Result Row Assembled
read_row (array values) expected =
    if length (values_of values) == expected && all_bulk (values_of values)
    then ok (map some (values_of values))
    else err (err invalid_reply)
read_row (error e) expected = err (ok (error e))
read_row reply expected = err (err invalid_reply)

-- The first loop of `OrderedBulk`; an error is what the call returns early.
unfoldable pub read_rows : List Reply → List ℕ → Result (List Row) Assembled
read_rows (reply ∷ replies) (expected ∷ lengths) =
    and_then (read_row reply expected)
      (λ row. and_then (read_rows replies lengths) (λ rows. ok (row ∷ rows)))
read_rows replies lengths = ok []

-- `row.get_mut(local).and_then(Option::take)`.
unfoldable pub take_local : Row → ℕ → Option (Reply × Row)
take_local [] i = none
take_local (cell ∷ row) zero = option_bind cell (λ reply. some (reply, none ∷ row))
take_local (cell ∷ row) (suc i) = option_bind (take_local row i) (λ t. some (t.0, cell ∷ t.1))

-- `rows.get_mut(fragment).and_then(..)`.
unfoldable pub take_at : List Row → ℕ → ℕ → Option (Reply × List Row)
take_at [] fragment local = none
take_at (row ∷ rows) zero local = option_bind (take_local row local) (λ t. some (t.0, t.1 ∷ rows))
take_at (row ∷ rows) (suc fragment) local =
    option_bind (take_at rows fragment local) (λ t. some (t.0, row ∷ t.1))

-- The second loop of `OrderedBulk`.
unfoldable pub take_all : List (ℕ × ℕ) → List Row → Option (List Reply × List Row)
take_all [] rows = some ([], rows)
take_all ((fragment, local) ∷ positions) rows =
    option_bind (take_at rows fragment local)
      (λ t. option_bind (take_all positions t.1) (λ u. some (t.0 ∷ u.0, u.1)))

abbrev pub row_is_left : Row → Bool
row_is_left [] = false
row_is_left (none ∷ row) = row_is_left row
row_is_left (some reply ∷ row) = true

unfoldable pub any_left : List Row → Bool
any_left [] = false
any_left (row ∷ rows) = row_is_left row || any_left rows

abbrev pub order_taken : Option (List Reply × List Row) → Assembled
order_taken none = err invalid_reply
order_taken (some (ordered, rows)) =
    if any_left rows then err invalid_reply else ok (array (replies_of ordered))

abbrev pub order_rows : List (ℕ × ℕ) → Result (List Row) Assembled → Assembled
order_rows positions (err early) = early
order_rows positions (ok rows) = order_taken (take_all positions rows)

-- `ReplyPlan::assemble`.
unfoldable pub assemble : ReplyPlan → List Reply → Assembled
assemble direct replies = single replies
assemble (sum fragments) replies =
    if length replies == fragments then sum_replies (pos 0) replies else err invalid_reply
assemble (all_ok fragments) replies =
    if length replies == fragments then all_done replies else err invalid_reply
assemble (ordered_bulk positions lengths) replies =
    if length replies == length lengths
    then order_rows positions (read_rows replies lengths)
    else err invalid_reply

-- The groups that the keys, or the entries, of a command form.
abbrev pub Groups : Type 0 → Type 0
Groups A = List (ℕ × List A)

module _ {A : Type 0} where
  -- `groups.entry(owner).or_default().push(item)`.
  unfoldable pub push_group : ℕ → A → Groups A → Groups A
  push_group owner item [] = (owner, item ∷ []) ∷ []
  push_group owner item ((o, group) ∷ groups) =
      let later = push_group owner item groups in
      if o == owner
      then (o, group ++ (item ∷ [])) ∷ groups
      else if ltb owner o
      then (owner, item ∷ []) ∷ ((o, group) ∷ groups)
      else (o, group) ∷ later

  unfoldable pub group_of : ℕ → Groups A → List A
  group_of owner [] = []
  group_of owner ((o, group) ∷ groups) =
      let later = group_of owner groups in if o == owner then group else later

  -- The loop over the items, with their owners and their positions in the groups of these.
  unfoldable pub group_items : (A → ℕ) → List A → Groups A → List (ℕ × ℕ) × Groups A
  group_items owner_of [] groups = ([], groups)
  group_items owner_of (item ∷ items) groups =
      let owner = owner_of item in
      let rest = group_items owner_of items (push_group owner item groups) in
      ((owner, length (group_of owner groups)) ∷ rest.0, rest.1)

  abbrev pub owners : Groups A → List ℕ
  owners groups = map (λ g. g.0) groups

-- `owners.binary_search(&owner)` in owners that ascend: where the owner stands.
unfoldable pub index_of : ℕ → List ℕ → Option ℕ
index_of owner [] = none
index_of owner (o ∷ os) =
    let later = option_bind (index_of owner os) (λ i. some (suc i)) in
    if o == owner then some 0 else later

-- `none` is the panic of `unwrap`.
unfoldable pub locate : List ℕ → List (ℕ × ℕ) → Option (List (ℕ × ℕ))
locate os [] = some []
locate os ((owner, local) ∷ positions) =
    option_bind (index_of owner os)
      (λ i. option_bind (locate os positions) (λ rest. some ((i, local) ∷ rest)))

abbrev pub fragments_of : {A : Type 0} → (List A → Command) → Groups A → List Fragment
fragments_of command groups = map (λ g. record { owner = g.0; command = command g.1 }) groups

abbrev pub lengths_of : {A : Type 0} → Groups A → List ℕ
lengths_of groups = map (λ g. length g.1) groups

unfoldable pub split_keys :
    ShardRouter → List Bytes → (List Bytes → Command) → Bool → Bool → Option CommandPlan
split_keys r keys command joint_commit ordered =
    let grouped = group_items (shard_for r) keys [] in
    let groups = grouped.1 in
    option_bind (locate (owners groups) grouped.0) (λ positions. some (record {
      fragments = fragments_of command groups;
      reply =
          if ordered
          then ordered_bulk positions (lengths_of groups)
          else sum (length (owners groups));
      joint_commit = joint_commit;
    }))

unfoldable pub split_mset : ShardRouter → List (Bytes × Bytes) → CommandPlan
split_mset r entries =
    let groups = (group_items (λ e. shard_for r e.0) entries []).1 in
    record {
      fragments = fragments_of Command.mset groups;
      reply = all_ok (length groups);
      joint_commit = true;
    }

-- `none` is a panic.
abbrev pub Planned : Type 0 → Type 0
Planned A = Option (Result A ExecutionError)

abbrev pub planned : Option CommandPlan → Planned CommandPlan
planned plan = option_bind plan (λ p. some (ok p))

abbrev pub split_command : ShardRouter → Command → Planned CommandPlan
split_command r (Command.mget keys) = planned (split_keys r keys Command.mget false true)
split_command r (Command.exists keys) = planned (split_keys r keys Command.exists false false)
split_command r (Command.del keys) = planned (split_keys r keys Command.del true false)
split_command r (Command.mset entries) = some (ok (split_mset r entries))
split_command r command = some (err cross_shard)

abbrev pub direct_plan : ℕ → Command → CommandPlan
direct_plan owner command = record {
  fragments = record { owner = owner; command = command } ∷ [];
  reply = direct;
  joint_commit = false;
}

abbrev pub plan_for : ShardRouter → Command → List ℕ → Planned CommandPlan
plan_for r command (owner ∷ []) = some (ok (direct_plan owner command))
plan_for r command participants = split_command r command

unfoldable pub plan_transaction_command : ShardRouter → Command → Planned CommandPlan
plan_transaction_command r command =
    plan_for r command (transaction_participants r (command ∷ []) [])

-- `collect` stops at the first command that is refused.
unfoldable pub plan_commands : ShardRouter → List Command → Planned (List CommandPlan)
plan_commands r [] = some (ok [])
plan_commands r (command ∷ commands) = option_bind (plan_transaction_command r command) (λ one.
    elim one [
      | err e ↦ some (err e)
      | ok plan ↦
          option_bind (plan_commands r commands)
            (λ rest. some (and_then rest (λ plans. ok (plan ∷ plans))))
    ])

unfoldable pub plan_transaction : ShardRouter → List Command → List Bytes → Planned TransactionPlan
plan_transaction r commands watched = option_bind (plan_commands r commands) (λ plans. some (
    and_then plans (λ cs.
      ok (record { participants = transaction_participants r commands watched; commands = cs }))))
