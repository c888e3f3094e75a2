-- ===== src/Storage/Isolation.antt =====
-- storage/routing_transaction.rs: each fragment of a plan stays within the keys of its owner.
use sider.Prelude.{and_then}
use sider.Prelude.{option_bind}
use sider.Storage.Plan.{planned}
use mathlib.Core.Path.{subst}
use sider.Prelude.{
  ℕ, suc, ◌<◌, ◌≡◌, ◌∙◌, refl, ap, inl, inr, Bool, true, false, Bool-cases, none, some, List, [],
  ◌∷◌, length, ◌==◌, map, All, ==_iff, ok, err,
}
use sider.Resp.Frame.{Bytes}
use sider.Command.Types.{Command, keys_of}
use sider.Command.Reply.{done, cross_shard}
use sider.Storage.Routing.{ShardRouter, shard_for, transaction_participants}
use sider.Storage.Plan.{
  Groups, Fragment, CommandPlan, TransactionPlan, Planned, group_items, owners, fragments_of,
  split_keys, split_mset, split_command, plan_for, plan_transaction_command, plan_commands,
  plan_transaction,
}
use sider.Storage.Grouping.{owned, grouped_eq}
use sider.Storage.Assembly.{Orders, take_all-Orders}
use sider.Storage.Gather.{single-owns}

abbrev pub IsOwned : ShardRouter → Fragment → Type 0
IsOwned r f = All (λ key. shard_for r key ≡ f.owner) (keys_of f.command)

-- No panic: a refusal because shards are crossed, or a plan whose fragments own their keys.
abbrev pub Isolates : ShardRouter → Planned CommandPlan → Type 0
Isolates r none = ⊥
Isolates r (some (err e)) = e ≡ cross_shard
Isolates r (some (ok plan)) = All (IsOwned r) plan.fragments

module _ {A : Type 0} (r : ShardRouter) (key_of : A → Bytes) where
  abbrev key_owner : A → ℕ
  key_owner x = shard_for r (key_of x)

  owned-own :
      (p : ℕ) (xs : List A) → All (λ key. shard_for r key ≡ p) (map key_of (owned key_owner p xs))
  unfolding owned
  owned-own p [] = tt
  owned-own p (x ∷ xs) = elim (Bool-cases (key_owner x == p)) [
    | inl e ↦ rw e ((==_iff (key_owner x) p).0 e, owned-own p xs)
    | inr e ↦ rw e (owned-own p xs)
  ]

  fragments-own :
      (command : List A → Command)
      → ((l : List A) → map key_of l ≡ keys_of (command l))
      → (xs : List A) → All (IsOwned r) (fragments_of command (group_items key_owner xs []).1)
  fragments-own command keys xs =
      subst (λ (gs : Groups A). All (IsOwned r) (fragments_of command gs)) (grouped_eq key_owner xs)
        (each (owners (group_items key_owner xs []).1))
    where
      each :
          (os : List ℕ)
          → All (IsOwned r) (fragments_of command (map (λ p. (p, owned key_owner p xs)) os))
      each [] = tt
      each (p ∷ os) = (
        subst (All (λ key. shard_for r key ≡ p)) (keys (owned key_owner p xs)) (owned-own p xs),
        each os,
      )

map_self : (l : List Bytes) → map (λ key. key) l ≡ l
map_self [] = refl
map_self (key ∷ l) = ap (λ (t : List Bytes). key ∷ t) (map_self l)

split_keys-Isolates :
    (r : ShardRouter) (keys : List Bytes) (command : List Bytes → Command) (joint ordered : Bool)
    → ((l : List Bytes) → l ≡ keys_of (command l))
    → Isolates r (planned (split_keys r keys command joint ordered))
unfolding split_keys Orders
split_keys-Isolates r keys command joint ordered same =
    let (positions, left, found, taken, nothing) =
      take_all-Orders (λ (s : ℕ) (key : Bytes). (s, done)) (shard_for r) (λ o. 0) keys [] tt in
    rw found (fragments-own r (λ (key : Bytes). key) command (λ l. map_self l ∙ same l) keys)

split_command-Isolates :
    (r : ShardRouter) (command : Command) → Isolates r (split_command r command)
unfolding split_mset
split_command-Isolates r (Command.mget keys) =
    split_keys-Isolates r keys Command.mget false true (λ l. refl)
split_command-Isolates r (Command.exists keys) =
    split_keys-Isolates r keys Command.exists false false (λ l. refl)
split_command-Isolates r (Command.del keys) =
    split_keys-Isolates r keys Command.del true false (λ l. refl)
split_command-Isolates r (Command.mset entries) =
    fragments-own r (λ (e : Bytes × Bytes). e.0) Command.mset (λ l. refl) entries
split_command-Isolates r command = refl

plan_transaction_command-Isolates :
    (r : ShardRouter) (command : Command)
    → 0 < r.count
    → Isolates r (plan_transaction_command r command)
unfolding plan_transaction_command
plan_transaction_command-Isolates r command h =
    planned_for (transaction_participants r (command ∷ []) []) refl
  where
    planned_for :
        (os : List ℕ)
        → transaction_participants r (command ∷ []) [] ≡ os
        → Isolates r (plan_for r command os)
    planned_for [] e = split_command-Isolates r command
    planned_for (o ∷ []) e = (single-owns r command (keys_of command) o h refl e, tt)
    planned_for (o ∷ (p ∷ os)) e = split_command-Isolates r command

abbrev AllIsolate : ShardRouter → List Command → Planned (List CommandPlan) → Type 0
AllIsolate r commands none = ⊥
AllIsolate r commands (some (err e)) = e ≡ cross_shard
AllIsolate r commands (some (ok plans)) =
    (length plans ≡ length commands) × All (λ c. All (IsOwned r) c.fragments) plans

plan_commands-AllIsolate :
    (r : ShardRouter) (commands : List Command)
    → 0 < r.count
    → AllIsolate r commands (plan_commands r commands)
unfolding plan_commands
plan_commands-AllIsolate r [] h = (refl, tt)
plan_commands-AllIsolate r (command ∷ commands) h =
    join (plan_transaction_command r command) (plan_commands r commands)
      (plan_transaction_command-Isolates r command h) (plan_commands-AllIsolate r commands h)
  where
    join :
        (one : Planned CommandPlan) (rest : Planned (List CommandPlan))
        → Isolates r one
        → AllIsolate r commands rest
        → AllIsolate r (command ∷ commands) (
            option_bind one (λ one. elim one [
              | err e ↦ some (err e)
              | ok plan ↦
                  option_bind rest (λ rest. some (and_then rest (λ plans. ok (plan ∷ plans))))
            ]))
    join none rest i j = elim i [ ]
    join (some (err e)) rest i j = i
    join (some (ok plan)) none i j = elim j [ ]
    join (some (ok plan)) (some (err e)) i j = j
    join (some (ok plan)) (some (ok plans)) i (l, all) = (ap (λ (n : ℕ). suc n) l, (i, all))

-- The plan of a transaction: its participants are those of its commands and watched keys.
abbrev pub Plans : ShardRouter → List Command → List Bytes → Planned TransactionPlan → Type 0
Plans r commands watched none = ⊥
Plans r commands watched (some (err e)) = e ≡ cross_shard
Plans r commands watched (some (ok plan)) =
    (plan.participants ≡ transaction_participants r commands watched)
    × (length plan.commands ≡ length commands)
    × All (λ c. All (IsOwned r) c.fragments) plan.commands

-- With at least one shard, planning a transaction does not panic: it is refused because shards are
-- crossed, or has a plan with the participants of the transaction and one plan for each command, in
-- which every key of a fragment's command is owned by the fragment's owner.
pub plan_transaction-Plans :
    (r : ShardRouter) (commands : List Command) (watched : List Bytes)
    → 0 < r.count
    → Plans r commands watched (plan_transaction r commands watched)
unfolding plan_transaction
plan_transaction-Plans r commands watched h =
    all_planned (plan_commands r commands) (plan_commands-AllIsolate r commands h)
  where
    all_planned :
        (plans : Planned (List CommandPlan))
        → AllIsolate r commands plans
        → Plans r commands watched (
            option_bind plans (λ plans. some (
              and_then plans (λ cs. ok (record {
                participants = transaction_participants r commands watched;
                commands = cs;
              })))))
    all_planned none i = elim i [ ]
    all_planned (some (err e)) i = i
    all_planned (some (ok plans)) i = (refl, i.0, i.1)
