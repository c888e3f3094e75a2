-- ===== src/Storage/Gather.antt =====
-- storage/routing_transaction.rs: MGET whose keys several shards own.
use sider.Storage.Assembly.{Orders}
use sider.Prelude.{
  ℕ, suc, ◌<◌, ◌≡◌, refl, ap, sym, ◌∙◌, true, false, Option, some, List, [], ◌∷◌, ◌++◌, length,
  ◌==◌, any, map, All, arith, ==_iff, ok, append-nil,
}
use mathlib.Core.Path.{subst}
use sider.Resp.Frame.{Bytes}
use sider.Command.Types.{Command}
use sider.Command.Reply.{Reply, bulk, array, error, connection_only}
use sider.Storage.Routing.{ShardRouter, shard_for, transaction_participants}
use sider.Storage.Participants.{participants_complete}
use sider.Storage.Plan.{
  Groups, Row, CommandPlan, group_of, group_items, owners, fragments_of, lengths_of, read_rows,
  replies_of, values_of, all_bulk, assemble, take_all, order_taken, order_rows, any_left,
  ordered_bulk, direct_plan, split_keys, plan_for, plan_transaction_command,
}
use sider.Storage.Grouping.{owned, grouped_eq, group_items-Ascending, group_of-group_items}
use sider.Storage.Serving.{
  World, served, served_by_owners, run_fragments, run_fragments-replies, run_fragments-world,
  served_by_owners-world, served_by_owners-single, served-single, length-served,
}
use sider.Storage.Assembly.{rows, take_all-Orders, Orders}

-- Where the only participant owns the keys of a command, it owns each of them.
pub single-owns :
    (r : ShardRouter) (command : Command) (keys : List Bytes) (o : ℕ)
    → 0 < r.count
    → sider.Command.Types.keys_of command ≡ keys
    → transaction_participants r (command ∷ []) [] ≡ o ∷ []
    → All (λ key. shard_for r key ≡ o) keys
single-owns r command keys o h same only =
    let (a, all, owns) = participants_complete r (command ∷ []) [] h in
    each keys (
      subst
        (λ (l : List Bytes).
          All (λ (key : Bytes). any (λ x. x == shard_for r key) (o ∷ []) ≡ true) l)
        (append-nil (sider.Command.Types.keys_of command) ∙ same)
        (subst
          (λ (os : List ℕ).
            All (λ (key : Bytes). any (λ x. x == shard_for r key) os ≡ true)
              (sider.Command.Types.keys_of command ++ []))
          only all))
  where
    each :
        (l : List Bytes)
        → All (λ (key : Bytes). any (λ x. x == shard_for r key) (o ∷ []) ≡ true) l
        → All (λ key. shard_for r key ≡ o) l
    each [] t = tt
    each (key ∷ l) (t, ts) = (ground (arith, t), each l ts)

values_of-replies_of : (l : List Reply) → values_of (replies_of l) ≡ l
values_of-replies_of [] = refl
values_of-replies_of (reply ∷ l) = ap (λ (t : List Reply). reply ∷ t) (values_of-replies_of l)

pub length-map : {A B : Type 0} (f : A → B) (l : List A) → length (map f l) ≡ length l
length-map f [] = refl
length-map f (x ∷ l) = ap (λ (n : ℕ). suc n) (length-map f l)

module _ {S : Type 0} (step : S → Bytes → S × Option Bytes) where
  -- A shard that answers MGET key by key.
  abbrev pub get_step : S → Bytes → S × Reply
  get_step s key = let one = step s key in (one.0, bulk one.1)

  abbrev pub serve_mget : S → Command → S × Reply
  serve_mget s (Command.mget keys) =
      let all = served get_step s keys in (all.0, array (replies_of all.1))
  serve_mget s command = (s, error connection_only)

  all_bulk-served : (s : S) (keys : List Bytes) → all_bulk (served get_step s keys).1 ≡ true
  unfolding served
  all_bulk-served s [] = refl
  all_bulk-served s (key ∷ keys) = all_bulk-served (step s key).0 keys

  module _ (r : ShardRouter) (w : World S) (keys : List Bytes) where
    abbrev of_owner : ℕ → ℕ × List Bytes
    of_owner p = (p, owned (shard_for r) p keys)

    read_rows-served :
        (os : List ℕ)
        → read_rows
            (map (λ g. (serve_mget (w g.0) (Command.mget g.1)).1) (map of_owner os))
            (lengths_of (map of_owner os))
          ≡ ok (rows (λ p. 0) (λ p. (served get_step (w p) (owned (shard_for r) p keys)).1) os)
    unfolding read_rows
    read_rows-served [] = refl
    read_rows-served (o ∷ os) =
        let own = served get_step (w o) (owned (shard_for r) o keys) in
        rw
          (
            values_of-replies_of own.1,
            length-served get_step (w o) (owned (shard_for r) o keys),
            all_bulk-served (w o) (owned (shard_for r) o keys),
            (==_iff (length (owned (shard_for r) o keys)) (length (owned (shard_for r) o keys))).1
                refl,
            read_rows-served os,
          )
          refl

    -- The plan of MGET, executed at the owners of its fragments.
    abbrev pub Gathers : CommandPlan → Type 0
    Gathers plan =
        (assemble plan.reply (run_fragments serve_mget w plan.fragments).1
          ≡ ok (array (replies_of (served_by_owners get_step (shard_for r) w keys).1)))
        × ((p : ℕ)
            → (run_fragments serve_mget w plan.fragments).0 p
              ≡ (served_by_owners get_step (shard_for r) w keys).0 p)

    abbrev fragment_reply : ℕ × List Bytes → Reply
    fragment_reply g = (serve_mget (w g.0) (Command.mget g.1)).1

    assemble-served :
        (positions : List (ℕ × ℕ)) (left : List Row) (values : List Reply)
        → take_all positions (
            rows
              (λ p. 0)
              (λ p. (served get_step (w p) (owned (shard_for r) p keys)).1)
              (owners (group_items (shard_for r) keys []).1))
          ≡ some (values, left)
        → any_left left ≡ false
        → assemble
            (ordered_bulk positions (lengths_of (group_items (shard_for r) keys []).1))
            (map fragment_reply (group_items (shard_for r) keys []).1)
          ≡ ok (array (replies_of values))
    unfolding assemble
    assemble-served positions left values taken nothing =
        let gs = (group_items (shard_for r) keys []).1 in
        let lens : (length (map fragment_reply gs) == length (lengths_of gs)) ≡ true =
          (==_iff _ _).1 (length-map fragment_reply gs ∙ sym (length-map (λ g. length g.1) gs)) in
        let reads =
          subst
            (λ (g : Groups Bytes).
              read_rows (map fragment_reply g) (lengths_of g)
              ≡ ok (
                  rows (λ p. 0) (λ p. (served get_step (w p) (owned (shard_for r) p keys)).1)
                    (owners gs)))
            (grouped_eq (shard_for r) keys) (read_rows-served (owners gs)) in
        rw lens (ap (order_rows positions) reads ∙ (ap order_taken taken ∙ (rw nothing)))

    gather-split :
        (plan : CommandPlan) × (split_keys r keys Command.mget false true ≡ some plan)
        × Gathers plan
    unfolding split_keys Orders group_of served
    gather-split =
        let gs = (group_items (shard_for r) keys []).1 in
        let asc = group_items-Ascending (shard_for r) keys [] tt in
        let (positions, left, found, taken, nothing) =
          take_all-Orders get_step (shard_for r) w keys [] tt in
        (
          record {
            fragments = fragments_of Command.mget gs;
            reply = ordered_bulk positions (lengths_of gs);
            joint_commit = false;
          },
          rw found,
          (
            ap (assemble (ordered_bulk positions (lengths_of gs)))
                  (run_fragments-replies serve_mget Command.mget 0 w w gs asc (λ p le. refl))
                ∙ assemble-served positions left _ taken nothing,
            λ p.
                run_fragments-world serve_mget Command.mget 0 w gs p asc (λ s. refl)
                ∙ (ap (λ (l : List Bytes). (served get_step (w p) l).0)
                      (group_of-group_items (shard_for r) p keys [] tt)
                    ∙ sym (served_by_owners-world get_step (shard_for r) w keys p)),
          ),
        )

    gather-direct :
        (o : ℕ)
        → All (λ key. shard_for r key ≡ o) keys
        → Gathers (direct_plan o (Command.mget keys))
    unfolding assemble run_fragments
    gather-direct o owns = (
      ap (λ (l : List Reply). ok (array (replies_of l)))
          (sym (served_by_owners-single get_step (shard_for r) o w keys owns)),
      λ p.
          served-single get_step (shard_for r) w o p keys owns
          ∙ sym (served_by_owners-world get_step (shard_for r) w keys p),
    )

-- For every shard that answers MGET key by key, every world of shards and all keys: MGET has a plan;
-- its fragments, executed at their owners, have replies from which the values come in the order of
-- the keys, repeated keys included; and they leave each shard as the keys one by one would.
pub mget-Gathers :
    {S : Type 0} (step : S → Bytes → S × Option Bytes) (r : ShardRouter) (w : World S)
    (keys : List Bytes)
    → 0 < r.count
    → (plan : CommandPlan) × (plan_transaction_command r (Command.mget keys) ≡ some (ok plan))
      × Gathers step r w keys plan
unfolding plan_transaction_command
mget-Gathers step r w keys h =
    planned_for (transaction_participants r (Command.mget keys ∷ []) []) refl
  where
    planned_for :
        (os : List ℕ)
        → transaction_participants r (Command.mget keys ∷ []) [] ≡ os
        → (plan : CommandPlan) × (plan_for r (Command.mget keys) os ≡ some (ok plan))
          × Gathers step r w keys plan
    planned_for [] e =
        let (plan, split, gathers) = gather-split step r w keys in (plan, rw split, gathers)
    planned_for (o ∷ []) e = (
      direct_plan o (Command.mget keys),
      refl,
      gather-direct step r w keys o (single-owns r (Command.mget keys) keys o h refl e),
    )
    planned_for (o ∷ (p ∷ os)) e =
        let (plan, split, gathers) = gather-split step r w keys in (plan, rw split, gathers)
