-- ===== src/Storage/Spread.antt =====
-- storage/routing_transaction.rs: MSET whose keys several shards own.
use sider.Prelude.{
  ℕ, ◌<◌, ◌≡◌, refl, ap, sym, ◌∙◌, some, List, [], ◌∷◌, length, map, All, ==_iff, ok,
}
use sider.Resp.Frame.{Bytes}
use sider.Command.Types.{Command}
use sider.Command.Reply.{Reply, done, error, connection_only}
use sider.Storage.Routing.{ShardRouter, shard_for, transaction_participants}
use sider.Storage.Plan.{
  Groups, CommandPlan, group_of, group_items, assemble, all_done, all_ok, split_mset, plan_for,
  plan_transaction_command, direct_plan,
}
use sider.Storage.Grouping.{group_items-Ascending, group_of-group_items}
use sider.Storage.Serving.{
  World, served, served_by_owners, run_fragments, run_fragments-replies, run_fragments-world,
  served_by_owners-world, served-single,
}
use sider.Storage.Gather.{single-owns, length-map}

abbrev entry_owner : ShardRouter → Bytes × Bytes → ℕ
entry_owner r e = shard_for r e.0

module _ {S : Type 0} (step : S → Bytes × Bytes → S × Unit {0}) where
  -- A shard that writes entry by entry.
  abbrev pub serve_mset : S → Command → S × Reply
  serve_mset s (Command.mset entries) = ((served step s entries).0, done)
  serve_mset s command = (s, error connection_only)

  -- The plan, executed at the owners of its fragments.
  abbrev pub Spreads : ShardRouter → World S → List (Bytes × Bytes) → CommandPlan → Type 0
  Spreads r w entries plan =
      (assemble plan.reply (run_fragments serve_mset w plan.fragments).1 ≡ ok done)
      × ((p : ℕ)
          → (run_fragments serve_mset w plan.fragments).0 p
            ≡ (served_by_owners step (entry_owner r) w entries).0 p)

  module _ (r : ShardRouter) (w : World S) (entries : List (Bytes × Bytes)) where
    all_done-map :
        (gs : Groups (Bytes × Bytes))
        → all_done (map (λ g. (serve_mset (w g.0) (Command.mset g.1)).1) gs) ≡ ok done
    unfolding all_done
    all_done-map [] = refl
    all_done-map (g ∷ gs) = all_done-map gs

    spread-split : Spreads r w entries (split_mset r entries)
    unfolding split_mset group_of served assemble
    spread-split =
        let gs = (group_items (entry_owner r) entries []).1 in
        let asc = group_items-Ascending (entry_owner r) entries [] tt in
        (
          ap (assemble (all_ok (length gs)))
                (run_fragments-replies serve_mset Command.mset 0 w w gs asc (λ p le. refl))
              ∙ (rw ((==_iff _ _).1 (length-map (λ (g : ℕ × List (Bytes × Bytes)). done) gs))
                  (all_done-map gs)),
          λ p.
              run_fragments-world serve_mset Command.mset 0 w gs p asc (λ s. refl)
              ∙ (ap (λ (l : List (Bytes × Bytes)). (served step (w p) l).0)
                    (group_of-group_items (entry_owner r) p entries [] tt)
                  ∙ sym (served_by_owners-world step (entry_owner r) w entries p)),
        )

    spread-direct :
        (o : ℕ)
        → All (λ e. entry_owner r e ≡ o) entries
        → Spreads r w entries (direct_plan o (Command.mset entries))
    unfolding assemble run_fragments
    spread-direct o owns = (
      refl,
      λ p.
          served-single step (entry_owner r) w o p entries owns
          ∙ sym (served_by_owners-world step (entry_owner r) w entries p),
    )

entries-owned :
    (r : ShardRouter) (o : ℕ) (entries : List (Bytes × Bytes))
    → All (λ key. shard_for r key ≡ o) (map (λ e. e.0) entries)
    → All (λ e. entry_owner r e ≡ o) entries
entries-owned r o [] h = tt
entries-owned r o (e ∷ entries) (q, h) = (q, entries-owned r o entries h)

-- For every shard that writes MSET entry by entry and refuses nothing, every world of shards and all
-- entries: MSET has a plan, the replies of its fragments are put together to OK, and the fragments
-- leave each shard as the entries one by one, each at its owner, would.
pub mset-Spreads :
    {S : Type 0} (step : S → Bytes × Bytes → S × Unit {0}) (r : ShardRouter) (w : World S)
    (entries : List (Bytes × Bytes))
    → 0 < r.count
    → (plan : CommandPlan) × (plan_transaction_command r (Command.mset entries) ≡ some (ok plan))
      × Spreads step r w entries plan
unfolding plan_transaction_command
mset-Spreads step r w entries h =
    planned_for (transaction_participants r (Command.mset entries ∷ []) []) refl
  where
    planned_for :
        (os : List ℕ)
        → transaction_participants r (Command.mset entries ∷ []) [] ≡ os
        → (plan : CommandPlan) × (plan_for r (Command.mset entries) os ≡ some (ok plan))
          × Spreads step r w entries plan
    planned_for [] e = (split_mset r entries, refl, spread-split step r w entries)
    planned_for (o ∷ []) e = (
      direct_plan o (Command.mset entries),
      refl,
      spread-direct step r w entries o (
          entries-owned r o entries
            (single-owns r (Command.mset entries) (map (λ e. e.0) entries) o h refl e)),
    )
    planned_for (o ∷ (p ∷ os)) e = (split_mset r entries, refl, spread-split step r w entries)
