-- ===== src/Connection/Calls.antt =====
-- connection/transaction.rs: every call on the queue of MULTI keeps its invariant.
use sider.Connection.Queueing.{
  Among, All-Among, if-cases, IsQueue, HasQueue, IsPinned, poison-IsPinned, unwatched-IsPinned,
  insert_tokens-AreWithin,
}
use sider.Prelude.{length-append}
use sider.Prelude.{length-append}
use sider.Prelude.{
  ℕ, suc, ◌≡◌, ◌≤◌, refl, arith, Bool, false, ◌&&◌, ◌||◌, not, Option, none, some, List, [], ◌∷◌,
  length, All, Result, ok, err, ltb, leb,
}
use sider.Prelude.Machine.{checked_add, saturating_add}
use sider.Resp.Frame.{Bytes}
use sider.Command.Types.{Command, keys_of}
use sider.Command.Reply.{Reply}
use sider.Storage.Routing.{ShardRouter}
use sider.Connection.Handle.{pushed, unsupported}
use sider.Connection.Transaction.{
  Limits, Action, Queue, Transaction, poison, fresh_keys, select_watched,
}
use sider.Connection.Handle.{
  queue_command, start_queue, discard_queue, take_queue, observed, observe_fresh, watch_keys,
  queue_selected, too_large,
}
use sider.Connection.Pinned.{
  Within, Keeps, All-imp, All-snoc, Selects, select_command-Within, select_watched-Selects,
}

leb-false : (a b : ℕ) → leb a b ≡ false → suc b ≤ a
leb-false a b h = ground (arith, h)

module _ {S T E : Type 0} (limits : Limits) (r : ShardRouter) (key_of : T → Bytes)
    (readonly : S → Bool) (watch : S → List Bytes → Result (Reply × List T) E) where
  pub record KeepsPinned (h : Result (Action T) E × Transaction T) : Type 0 where
    pub kept : IsPinned limits r key_of h.1

  pub start_queue-Keeps :
      (tx : Transaction T)
      → IsPinned limits r key_of tx
      → KeepsPinned (start_queue limits r key_of readonly watch tx)
  start_queue-Keeps tx h = started tx.queue h.queue_ok
    where
      started :
          (q : Option Queue)
          → HasQueue limits r key_of tx.watched q
          → KeepsPinned (start_queue limits r key_of readonly watch (record tx { queue = q }))
      started (some q) k = record {
        kept = record { calm = h.calm; within = h.within; queue_ok = k };
      }
      started none k = record {
        kept = record {
          calm = h.calm;
          within = h.within;
          queue_ok = record {
            few = omega arith;
            small = omega arith;
            calm = h.calm;
            own = λ f. (tt, h.within f);
          };
        };
      }

  pub taken-Keeps :
      (tx : Transaction T)
      → IsPinned limits r key_of tx
      → KeepsPinned (discard_queue limits r key_of readonly watch tx)
        × KeepsPinned (take_queue limits r key_of readonly watch tx)
  taken-Keeps tx h = taken tx.queue h.queue_ok
    where
      taken :
          (q : Option Queue)
          → HasQueue limits r key_of tx.watched q
          → KeepsPinned (discard_queue limits r key_of readonly watch (record tx { queue = q }))
            × KeepsPinned (take_queue limits r key_of readonly watch (record tx { queue = q }))
      taken none k =
          let same : IsPinned limits r key_of (record tx { queue = none }) = record {
            calm = h.calm;
            within = h.within;
            queue_ok = tt;
          } in
          (record { kept = same }, record { kept = same })
      taken (some q) k =
          let fresh = unwatched-IsPinned limits r key_of (record tx { queue = none }) tt in
          (record { kept = fresh }, record { kept = fresh })

  pushed-IsQueue :
      (command : Command) (bytes : ℕ) (q : Queue) (crossing : Bool) (shard : Option ℕ)
      (watched : List (Bytes × T))
      → IsQueue limits r key_of watched q
      → (crossing ≡ false → All (Within r shard) (keys_of command) × Keeps r q.shard shard)
      → (crossing && not limits.composed_aof) ≡ false
      → leb limits.transaction_max_commands (length q.commands) ≡ false
      → too_large limits r key_of readonly watch (checked_add q.bytes bytes) ≡ false
      → IsQueue limits r key_of watched
          (pushed limits r key_of readonly watch q command bytes crossing shard)
  pushed-IsQueue command bytes q crossing shard watched k selects c few small = record {
    few = omega (arith, length-append q.commands (command ∷ []), k.few, leb-false _ _ few);
    small = ground (arith, small);
    calm = λ e. ground (arith, k.calm e, c, e);
    own = λ e.
        let apart : q.crossed ≡ false = ground (arith, e) in
        let same : crossing ≡ false = ground (arith, e) in
        let (new, keeps) = selects same in
        let (old, seen) = k.own apart in
        rw e (
          All-snoc _ q.commands command
              (All-imp (λ c o. All-imp keeps (keys_of c) o) q.commands old) new,
          All-imp (λ x w. keeps (key_of x.1) w) watched seen,
        );
  }

  queue_selected-Keeps :
      (command : Command) (bytes : ℕ) (q : Queue) (crossing : Bool) (shard : Option ℕ)
      (tx : Transaction T)
      → IsPinned limits r key_of tx
      → IsQueue limits r key_of tx.watched q
      → (crossing ≡ false → All (Within r shard) (keys_of command) × Keeps r q.shard shard)
      → KeepsPinned
          (queue_selected limits r key_of readonly watch command bytes q crossing shard tx)
  queue_selected-Keeps command bytes q crossing shard tx h k selects =
      if-cases KeepsPinned (crossing && not limits.composed_aof) (λ c. poisoned)
        (λ c.
          if-cases KeepsPinned
            (limits.composed_aof
              && ((q.crossed || crossing) && unsupported limits r key_of readonly watch q command))
            (λ e. poisoned)
            (λ s.
              if-cases KeepsPinned
                (leb limits.transaction_max_commands (length q.commands)
                  || too_large limits r key_of readonly watch (checked_add q.bytes bytes))
                (λ e. poisoned)
                (λ e. record {
                  kept = record {
                    calm = h.calm;
                    within = h.within;
                    queue_ok =
                        pushed-IsQueue command bytes q crossing shard tx.watched k selects c
                          (ground (arith, e)) (ground (arith, e));
                  };
                })))
    where
      poisoned : {a : Result (Action T) E} → KeepsPinned (a, poison tx)
      poisoned = record { kept = poison-IsPinned limits r key_of tx h }

  observed-Keeps :
      (asked : List Bytes) (selected : Option ℕ × Bool) (tx : Transaction T)
      (answer : Result (Reply × List T) E)
      → ((given : Reply) (tokens : List T)
          → answer ≡ ok (given, tokens)
          → All (λ t. Among (key_of t) asked) tokens)
      → tx.queue ≡ none
      → Selects r limits.composed_aof asked tx.watch_shard tx.watch_crossed selected.0 selected.1
      → IsPinned limits r key_of tx
      → KeepsPinned (observed limits r key_of readonly watch selected tx answer)
  observed-Keeps asked selected tx (err e) are free selects h = record { kept = h }
  observed-Keeps asked selected tx (ok (Reply.error e, tokens)) are free selects h = record {
    kept = h;
  }
  observed-Keeps asked selected tx (ok (given, tokens)) are free selects h = record {
    kept = record {
      calm = λ e. selects.0 e (h.calm e);
      within = λ e.
          let (was, new, keeps) = selects.1 e in
          insert_tokens-AreWithin limits r key_of selected.0 tokens tx.watched
            (All-imp (λ t a. All-Among (Within r selected.0) asked (key_of t) new a) tokens
              (are given tokens refl))
            (All-imp (λ x w. keeps (key_of x.1) w) tx.watched (h.within was));
      queue_ok = rw free tt;
    };
  }

  pub watch_keys-Keeps :
      (s : S) (keys : List Bytes) (tx : Transaction T)
      → ((asked : List Bytes) (given : Reply) (tokens : List T)
          → watch s asked ≡ ok (given, tokens)
          → All (λ t. Among (key_of t) asked) tokens)
      → IsPinned limits r key_of tx
      → KeepsPinned (watch_keys limits r key_of readonly watch s keys tx)
  watch_keys-Keeps s keys tx are h = watched_from tx.queue h.queue_ok
    where
      fresh : List Bytes
      fresh = fresh_keys tx.watched keys []

      selected :
          (free : Transaction T) (asked : List Bytes) (out : Option (Option ℕ × Bool))
          → free.queue ≡ none
          → IsPinned limits r key_of free
          → select_watched r limits.composed_aof asked free.watch_shard free.watch_crossed ≡ out
          → KeepsPinned (observe_fresh limits r key_of readonly watch s asked out free)
      selected free asked none same k e = record { kept = k }
      selected free [] (some (last, after)) same k e =
          let (calm, all) =
            select_watched-Selects r limits.composed_aof [] free.watch_shard last free.watch_crossed
              after e in
          record {
            kept = record {
              calm = λ c. calm c (k.calm c);
              within = λ f.
                  let (was, none_new, keeps) = all f in
                  All-imp (λ x w. keeps (key_of x.1) w) free.watched (k.within was);
              queue_ok = rw same tt;
            };
          }
      selected free (key ∷ asked) (some (last, after)) same k e =
          observed-Keeps (key ∷ asked) (last, after) free (watch s (key ∷ asked))
            (are (key ∷ asked)) same
            (select_watched-Selects r limits.composed_aof (key ∷ asked) free.watch_shard last
              free.watch_crossed after e)
            k

      watched_from :
          (q : Option Queue)
          → HasQueue limits r key_of tx.watched q
          → KeepsPinned (watch_keys limits r key_of readonly watch s keys (record tx { queue = q }))
      watched_from (some q) k = record {
        kept = record { calm = h.calm; within = h.within; queue_ok = k };
      }
      watched_from none k =
          let free : IsPinned limits r key_of (record tx { queue = none }) = record {
            calm = h.calm;
            within = h.within;
            queue_ok = tt;
          } in
          if-cases KeepsPinned
            (ltb limits.watch_max_keys (saturating_add (length fresh) (length tx.watched)))
            (λ e. record { kept = free })
            (λ e. selected (record tx { queue = none }) fresh _ refl free refl)

  pub queue_command-Keeps :
      (command : Command) (bytes : ℕ) (tx : Transaction T)
      → IsPinned limits r key_of tx
      → KeepsPinned (queue_command limits r key_of readonly watch command bytes tx)
  unfolding queue_command
  queue_command-Keeps command bytes tx h = queued_in tx.queue h.queue_ok
    where
      queued_in :
          (q : Option Queue)
          → HasQueue limits r key_of tx.watched q
          → KeepsPinned
              (queue_command limits r key_of readonly watch command bytes (record tx { queue = q }))
      queued_in none k = record { kept = record { calm = h.calm; within = h.within; queue_ok = k } }
      queued_in (some q) k =
          let same : IsPinned limits r key_of (record tx { queue = some q }) = record {
            calm = h.calm;
            within = h.within;
            queue_ok = k;
          } in
          if-cases KeepsPinned (q.dirty || q.permission_denied) (λ e. record { kept = same })
            (λ e.
              queue_selected-Keeps command bytes q _ _ (record tx { queue = some q }) same k
                (select_command-Within r command q.shard))
