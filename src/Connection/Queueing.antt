-- ===== src/Connection/Queueing.antt =====
-- connection/transaction.rs: the invariant of the queue of MULTI and of what is watched.
use mathlib.Core.Path.{subst}
use sider.Prelude.{
  ℕ, ◌≡◌, ◌≤◌, refl, ◌⊎◌, arith, inl, inr, Bool, true, false, Bool-cases, not, Option, none, some,
  List, [], ◌∷◌, length, All, if◌then◌else◌,
}
use sider.Resp.Frame.{Bytes}
use sider.Command.Types.{Command, keys_of}
use sider.Storage.Member.{insert, bytes_lt}
use sider.Storage.Routing.{ShardRouter}
use sider.Connection.Transaction.{
  Limits, Queue, Transaction, default, insert_tokens, poison, poison_queue, unwatched, revalidate,
  revalidate_queue, any_command,
}
use sider.Connection.Pinned.{Within}

abbrev pub Among : Bytes → List Bytes → Type 0
Among key [] = ⊥
Among key (k ∷ keys) = (k ≡ key) ⊎ Among key keys

pub All-Among :
    (P : Bytes → Type 0) (keys : List Bytes) (key : Bytes) → All P keys → Among key keys → P key
All-Among P [] key h a = absurd a
All-Among P (k ∷ keys) key (p, h) (inl e) = subst P e p
All-Among P (k ∷ keys) key (p, h) (inr a) = All-Among P keys key h a

-- What both branches have, each under its condition.
pub if-cases :
    {A : Type 0} (P : A → Type 0) (b : Bool) {x y : A}
    → (b ≡ true → P x)
    → (b ≡ false → P y)
    → P (if b then x else y)
if-cases P true p q = p refl
if-cases P false p q = q refl

insert-All :
    {T : Type 0} (P : Bytes × T → Type 0) (key : Bytes) (value : T) (entries : List (Bytes × T))
    → P (key, value)
    → All P entries
    → All P ((insert key value entries).0)
insert-All P key value [] p h = (p, tt)
insert-All P key value ((k, v) ∷ entries) p (q, h) =
    let rest = insert-All P key value entries p h in
    elim (Bool-cases (bytes_lt key k)) [
      | inl e ↦ rw e (p, (q, h))
      | inr e ↦ elim (Bool-cases (bytes_lt k key)) [
        | inl f ↦ rw (e, f) (q, rest)
        | inr f ↦ rw (e, f) (p, h)
      ]
    ]

module _ {T : Type 0} (limits : Limits) (r : ShardRouter) (key_of : T → Bytes) where
  abbrev pub AreWithin : Option ℕ → List (Bytes × T) → Type 0
  AreWithin shard watched = All (λ (x : Bytes × T). Within r shard (key_of x.1)) watched

  abbrev pub OwnAll : Option ℕ → List Command → Type 0
  OwnAll shard commands = All (λ c. All (Within r shard) (keys_of c)) commands

  pub record IsQueue (watched : List (Bytes × T)) (q : Queue) : Type 0 where
    pub few : length q.commands ≤ limits.transaction_max_commands
    pub small : q.bytes ≤ limits.transaction_max_bytes
    pub calm : limits.composed_aof ≡ false → q.crossed ≡ false
    pub own : q.crossed ≡ false → OwnAll q.shard q.commands × AreWithin q.shard watched

  abbrev pub HasQueue : List (Bytes × T) → Option Queue → Type 0
  HasQueue watched none = Unit {0}
  HasQueue watched (some q) = IsQueue watched q

  -- Where no shards are crossed, and without the composed log none are, the keys that are watched are
  -- within the shard that is pinned, as are the keys of the queue's commands within its own; and the
  -- queue is within its limits.
  pub record IsPinned (tx : Transaction T) : Type 0 where
    pub calm : limits.composed_aof ≡ false → tx.watch_crossed ≡ false
    pub within : tx.watch_crossed ≡ false → AreWithin tx.watch_shard tx.watched
    pub queue_ok : HasQueue tx.watched tx.queue

  pub default-IsPinned : IsPinned default
  default-IsPinned = record { calm = λ h. refl; within = λ h. tt; queue_ok = tt }

  emptied-IsQueue :
      (watched : List (Bytes × T)) (q : Queue) (dirty denied : Bool)
      → IsQueue watched q
      → IsQueue watched (record {
        commands = [];
        bytes = 0;
        shard = q.shard;
        crossed = q.crossed;
        dirty = dirty;
        permission_denied = denied;
      })
  emptied-IsQueue watched q dirty denied h = record {
    few = omega arith;
    small = omega arith;
    calm = h.calm;
    own = λ e. (tt, (h.own e).1);
  }

  pub poison-IsPinned : (tx : Transaction T) → IsPinned tx → IsPinned (poison tx)
  poison-IsPinned tx h = record {
    calm = h.calm;
    within = h.within;
    queue_ok = poisoned tx.queue h.queue_ok;
  }
    where
      poisoned : (q : Option Queue) → HasQueue tx.watched q → HasQueue tx.watched (poison_queue q)
      poisoned none k = tt
      poisoned (some q) k = emptied-IsQueue tx.watched q true q.permission_denied k

  -- With no queue, or one that is pinned where nothing is watched.
  pub unwatched-IsPinned : (tx : Transaction T) → HasQueue [] tx.queue → IsPinned (unwatched tx)
  unwatched-IsPinned tx k = record { calm = λ h. refl; within = λ h. tt; queue_ok = k }

  pub HasQueue-nil :
      (watched : List (Bytes × T)) (q : Option Queue) → HasQueue watched q → HasQueue [] q
  HasQueue-nil watched none h = tt
  HasQueue-nil watched (some q) h = record {
    few = h.few;
    small = h.small;
    calm = h.calm;
    own = λ e. ((h.own e).0, tt);
  }

  pub revalidate-IsPinned :
      (authorized : Command → Bool) (tx : Transaction T)
      → IsPinned tx
      → IsPinned (revalidate authorized tx)
  unfolding revalidate
  revalidate-IsPinned authorized tx h =
      let k = queue_kept tx.queue h.queue_ok in
      if-cases IsPinned _
        (λ e.
          unwatched-IsPinned (record tx { queue = revalidate_queue authorized tx.queue })
            (HasQueue-nil tx.watched (revalidate_queue authorized tx.queue) k))
        (λ e. record { calm = h.calm; within = h.within; queue_ok = k })
    where
      queue_kept :
          (q : Option Queue)
          → HasQueue tx.watched q
          → HasQueue tx.watched (revalidate_queue authorized q)
      queue_kept none k = tt
      queue_kept (some q) k =
          if-cases (HasQueue tx.watched) (any_command (λ c. not (authorized c)) q.commands)
            (λ e. emptied-IsQueue tx.watched q q.dirty true k) (λ e. k)

  pub insert_tokens-AreWithin :
      (shard : Option ℕ) (tokens : List T) (watched : List (Bytes × T))
      → All (λ t. Within r shard (key_of t)) tokens
      → AreWithin shard watched
      → AreWithin shard (insert_tokens key_of tokens watched)
  unfolding insert_tokens
  insert_tokens-AreWithin shard [] watched h w = w
  insert_tokens-AreWithin shard (t ∷ tokens) watched (p, h) w =
      insert_tokens-AreWithin shard tokens ((insert (key_of t) t watched).0) h
        (insert-All (λ x. Within r shard (key_of x.1)) (key_of t) t watched p w)
