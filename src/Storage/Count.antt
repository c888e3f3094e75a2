-- ===== src/Storage/Count.antt =====
-- storage/routing_transaction.rs: EXISTS and DEL whose keys several shards own.
use sider.Prelude.{
  ℕ, ◌-◌, ◌^◌, ◌≤◌, ◌<◌, ◌≡◌, refl, ap, sym, ◌∙◌, Bool, true, false, some, List, [], ◌∷◌, length,
  map, All, arith, ==_iff, ok,
}
use mathlib.Core.Path.{subst}
use sider.Prelude.Int.{pos}
use sider.Resp.Frame.{Bytes}
use sider.Command.Types.{Command}
use sider.Command.Reply.{Reply, integer, done, error, connection_only}
use sider.Storage.Routing.{ShardRouter, shard_for, transaction_participants}
use sider.Storage.Plan.{
  Groups, CommandPlan, group_of, group_items, owners, fragments_of, assemble, sum, split_keys,
  split_command, plan_for, plan_transaction_command, direct_plan,
}
use sider.Storage.Grouping.{
  owned, grouped_eq, group_items-Ascending, group_of-group_items, group_items-owners,
}
use sider.Storage.Serving.{
  World, update, served, served_by_owners, run_fragments, run_fragments-replies,
  run_fragments-world, served_by_owners-world, served_by_owners-single, served-single,
}
use sider.Storage.Gather.{single-owns, length-map}
use sider.Storage.Assembly.{Orders, take_all-Orders}
use sider.Storage.Tally.{total, total_over-share, share, sum_replies-total}

-- EXISTS and DEL.
abbrev pub counting : Bool → List Bytes → Command
counting true keys = Command.exists keys
counting false keys = Command.del keys

module _ {S : Type 0} (step : S → Bytes → S × ℕ) where
  -- A shard that counts key by key.
  abbrev pub serve_count : S → Command → S × Reply
  serve_count s (Command.exists keys) =
      let all = served step s keys in (all.0, integer (pos (total all.1)))
  serve_count s (Command.del keys) =
      let all = served step s keys in (all.0, integer (pos (total all.1)))
  serve_count s command = (s, error connection_only)

  -- The plan, executed at the owners of its fragments.
  abbrev pub Counts : ShardRouter → World S → List Bytes → CommandPlan → Type 0
  Counts r w keys plan =
      (assemble plan.reply (run_fragments serve_count w plan.fragments).1
        ≡ ok (integer (pos (total (served_by_owners step (shard_for r) w keys).1))))
      × ((p : ℕ)
          → (run_fragments serve_count w plan.fragments).0 p
            ≡ (served_by_owners step (shard_for r) w keys).0 p)

  module _ (which : Bool) (r : ShardRouter) (w : World S) (keys : List Bytes) where
    served_count :
        (s : S) (l : List Bytes)
        → serve_count s (counting which l)
          ≡ ((served step s l).0, integer (pos (total (served step s l).1)))
    served_count s l =
        elim which
          as (λ b.
            serve_count s (counting b l)
            ≡ ((served step s l).0, integer (pos (total (served step s l).1)))) [
              | true ↦ refl
              | false ↦ refl
            ]

    abbrev count_reply : ℕ × List Bytes → Reply
    count_reply g = (serve_count (w g.0) (counting which g.1)).1

    replies_eq :
        (gs : Groups Bytes) (os : List ℕ)
        → map (λ p. (p, owned (shard_for r) p keys)) os ≡ gs
        → map count_reply gs ≡ map (λ p. integer (pos (share step (shard_for r) w keys p))) os
    unfolding share
    replies_eq gs os e =
        subst
          (λ (g : Groups Bytes).
            map count_reply g ≡ map (λ p. integer (pos (share step (shard_for r) w keys p))) os)
          e (over os)
      where
        over :
            (l : List ℕ)
            → map count_reply (map (λ p. (p, owned (shard_for r) p keys)) l)
              ≡ map
                  (λ p. integer (pos (total (served step (w p) (owned (shard_for r) p keys)).1)))
                  l
        over [] = refl
        over (p ∷ l) = λ i. (served_count (w p) (owned (shard_for r) p keys) i).1 ∷ over l i

    count-split :
        (joint : Bool)
        → total (served_by_owners step (shard_for r) w keys).1 ≤ 2 ^ 63 - 1
        → (plan : CommandPlan) × (split_keys r keys (counting which) joint false ≡ some plan)
          × Counts r w keys plan
    unfolding split_keys group_of served assemble Orders
    count-split joint fits =
        let gs = (group_items (shard_for r) keys []).1 in
        let os = owners gs in
        let asc = group_items-Ascending (shard_for r) keys [] tt in
        let (positions, left, found, taken, nothing) =
          take_all-Orders (λ (s : S) (key : Bytes). (s, done)) (shard_for r) w keys [] tt in
        let shares =
          total_over-share step (shard_for r) w keys os asc
            (group_items-owners (shard_for r) keys []) in
        let replies =
          run_fragments-replies serve_count (counting which) 0 w w gs asc (λ p le. refl)
          ∙ replies_eq gs os (grouped_eq (shard_for r) keys) in
        (
          record {
            fragments = fragments_of (counting which) gs;
            reply = sum (length os);
            joint_commit = joint;
          },
          rw found,
          (
            ap (assemble (sum (length os))) replies
                ∙ (rw
                    ((==_iff _ _).1
                      (length-map (λ p. integer (pos (share step (shard_for r) w keys p))) os))
                    (sum_replies-total 0 (share step (shard_for r) w keys) os
                        (omega (arith, shares, fits))
                      ∙ ap (λ (n : ℕ). ok (integer (pos n))) (omega (arith, shares)))),
            λ p.
                run_fragments-world serve_count (counting which) 0 w gs p asc
                  (λ s. ap (λ (x : S × Reply). x.0) (served_count s []))
                ∙ (ap (λ (x : S × Reply). x.0) (served_count (w p) (group_of p gs))
                    ∙ (ap (λ (l : List Bytes). (served step (w p) l).0)
                          (group_of-group_items (shard_for r) p keys [] tt)
                        ∙ sym (served_by_owners-world step (shard_for r) w keys p))),
          ),
        )

    count-direct :
        (o : ℕ)
        → All (λ key. shard_for r key ≡ o) keys
        → Counts r w keys (direct_plan o (counting which keys))
    unfolding assemble run_fragments
    count-direct o owns = (
      ap (λ (x : S × Reply). ok x.1) (served_count (w o) keys)
          ∙ ap (λ (l : List ℕ). ok (integer (pos (total l))))
              (sym (served_by_owners-single step (shard_for r) o w keys owns)),
      λ p.
          ap (λ (x : S × Reply). update w o x.0 p) (served_count (w o) keys)
          ∙ (served-single step (shard_for r) w o p keys owns
              ∙ sym (served_by_owners-world step (shard_for r) w keys p)),
    )

-- For every shard that counts key by key, every world of shards and all keys: EXISTS and DEL have a
-- plan; where the counts of the keys, each by its owner, add up to at most 2 ^ 63 - 1, the replies of
-- the fragments add up to the same; and the fragments leave each shard as the keys one by one would.
pub counting-Counts :
    {S : Type 0} (step : S → Bytes → S × ℕ) (which : Bool) (r : ShardRouter) (w : World S)
    (keys : List Bytes)
    → 0 < r.count
    → total (served_by_owners step (shard_for r) w keys).1 ≤ 2 ^ 63 - 1
    → (plan : CommandPlan) × (plan_transaction_command r (counting which keys) ≡ some (ok plan))
      × Counts step r w keys plan
unfolding plan_transaction_command
counting-Counts step which r w keys h fits =
    planned_for which (transaction_participants r (counting which keys ∷ []) []) refl
  where
    several :
        (b : Bool) (os : List ℕ)
        → plan_for r (counting b keys) os ≡ split_command r (counting b keys)
        → (plan : CommandPlan) × (plan_for r (counting b keys) os ≡ some (ok plan))
          × Counts step r w keys plan
    several true os e =
        let (plan, split, counts) = count-split step true r w keys false fits in
        (plan, e ∙ (rw split), counts)
    several false os e =
        let (plan, split, counts) = count-split step false r w keys true fits in
        (plan, e ∙ (rw split), counts)

    owns_keys : (b : Bool) → sider.Command.Types.keys_of (counting b keys) ≡ keys
    owns_keys true = refl
    owns_keys false = refl

    planned_for :
        (b : Bool) (os : List ℕ)
        → transaction_participants r (counting b keys ∷ []) [] ≡ os
        → (plan : CommandPlan) × (plan_for r (counting b keys) os ≡ some (ok plan))
          × Counts step r w keys plan
    planned_for b [] e = several b [] refl
    planned_for b (o ∷ []) e = (
      direct_plan o (counting b keys),
      refl,
      count-direct step b r w keys o (single-owns r (counting b keys) keys o h (owns_keys b) e),
    )
    planned_for b (o ∷ (p ∷ os)) e = several b (o ∷ (p ∷ os)) refl
