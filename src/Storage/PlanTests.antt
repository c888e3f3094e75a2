-- ===== src/Storage/PlanTests.antt =====
-- The plans of transactions at concrete commands.
use sider.Prelude.{ℕ, ◌≡◌, refl, true, false, Option, none, some, List, [], ◌∷◌, ok, arith, length}
use sider.Resp.Frame.{Bytes}
use sider.Command.Types.{Command}
use sider.Command.Names.{text}
use sider.Storage.Store.{find}
use sider.Storage.Routing.{
  ShardRouter, shard_for, hash_tag, split_on, stable_hash, hash_from, hash_byte,
}
use sider.Storage.Plan.{
  CommandPlan, plan_transaction_command, split_keys, group_items, push_group, group_of, locate,
  index_of,
}
use sider.Storage.Serving.{World, served_by_owners}
use sider.Storage.Gather.{Gathers, mget-Gathers}
use sider.Storage.Tally.{total}
use sider.Storage.Count.{Counts, counting, counting-Counts}
use sider.Storage.Spread.{Spreads, mset-Spreads}
use sider.Storage.Isolation.{Plans, plan_transaction-Plans}
use sider.Storage.Plan.{plan_transaction}

abbrev two_shards : ShardRouter
two_shards = record { count = 2 }

abbrev three_keys : List Bytes
three_keys = text "a" ∷ (text "b" ∷ (text "a" ∷ []))

-- A shard that only holds strings.
abbrev strings : World (List (Bytes × Bytes))
strings owner = (text "a", text "1") ∷ []

abbrev look_up : List (Bytes × Bytes) → Bytes → List (Bytes × Bytes) × Option Bytes
look_up s key = (s, find key s)

abbrev present : Option Bytes → ℕ
present none = 0
present (some value) = 1

abbrev count_key : List (Bytes × Bytes) → Bytes → List (Bytes × Bytes) × ℕ
count_key s key = (s, present (find key s))

abbrev write : List (Bytes × Bytes) → Bytes × Bytes → List (Bytes × Bytes) × Unit {0}
write s entry = (entry ∷ s, tt)

abbrev fragment_count : Option CommandPlan → ℕ
fragment_count none = 0
fragment_count (some plan) = length plan.fragments

splits_in_two : fragment_count (split_keys two_shards three_keys Command.mget false true) ≡ 2
unfolding split_keys group_items push_group group_of locate index_of shard_for hash_tag split_on
    stable_hash hash_from hash_byte
splits_in_two = refl

mget-Gathers_example :
    (plan : CommandPlan) × (plan_transaction_command two_shards (Command.mget three_keys)
      ≡ some (ok plan))
    × Gathers look_up two_shards strings three_keys plan
mget-Gathers_example = mget-Gathers look_up two_shards strings three_keys (omega arith)

counted_two : total (served_by_owners count_key (shard_for two_shards) strings three_keys).1 ≡ 2
unfolding served_by_owners shard_for hash_tag split_on stable_hash hash_from hash_byte find
counted_two = refl

counting-Counts_example :
    (plan : CommandPlan) × (plan_transaction_command two_shards (counting true three_keys)
      ≡ some (ok plan))
    × Counts count_key two_shards strings three_keys plan
counting-Counts_example =
    counting-Counts count_key true two_shards strings three_keys (omega arith)
      (omega (arith, counted_two))

mset-Spreads_example :
    (plan : CommandPlan) × (plan_transaction_command two_shards
        (Command.mset ((text "a", text "2") ∷ ((text "b", text "3") ∷ [])))
      ≡ some (ok plan))
    × Spreads write two_shards strings ((text "a", text "2") ∷ ((text "b", text "3") ∷ [])) plan
mset-Spreads_example =
    mset-Spreads write two_shards strings ((text "a", text "2") ∷ ((text "b", text "3") ∷ []))
      (omega arith)

plan_transaction-Plans_example :
    Plans two_shards (Command.mget three_keys ∷ (Command.get (text "b") ∷ [])) (text "c" ∷ []) (
      plan_transaction two_shards
        (Command.mget three_keys ∷ (Command.get (text "b") ∷ []))
        (text "c" ∷ []))
plan_transaction-Plans_example =
    plan_transaction-Plans two_shards (Command.mget three_keys ∷ (Command.get (text "b") ∷ []))
      (text "c" ∷ []) (omega arith)
