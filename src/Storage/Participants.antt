-- ===== src/Storage/Participants.antt =====
-- storage/routing.rs: the shards that take part in a transaction.
use sider.Storage.Placement.{shard_for_bound}
use sider.Prelude.{
  ℕ, zero, suc, ◌+◌, ◌<◌, ◌≤◌, ◌≡◌, refl, ap, ◌⊎◌, inl, inr, true, ◌&&◌, Bool-cases, some, List, [],
  ◌∷◌, ◌++◌, leb, ltb, ◌==◌, any, All, get_elem?, arith,
}
use sider.Resp.Frame.{Bytes}
use sider.Command.Types.{Command}
use sider.Prelude.{some_eq}
use sider.Storage.Routing.{
  ShardRouter, shard_for, owns, owners_from, all_keys, or_zero, transaction_participants,
}

owners_from-any :
    (r : ShardRouter) (keys : List Bytes) (o first left : ℕ)
    → any (λ x. x == o) (owners_from r keys first left)
      ≡ (leb first o && (ltb o (first + left) && owns r o keys))
unfolding owners_from
owners_from-any r keys o first zero = ground arith
owners_from-any r keys o first (suc left) =
    let rest = owners_from-any r keys o (suc first) left in
    elim (Bool-cases (first == o)) [
      | inl e ↦
          let same : first ≡ o = ground arith in
          ground (arith, rest, ap (λ (x : ℕ). owns r x keys) same)
      | inr e ↦ ground (arith, rest)
    ]

owns-member :
    (r : ShardRouter) (keys : List Bytes) (i : ℕ) (key : Bytes)
    → get_elem? keys i ≡ some key
    → owns r (shard_for r key) keys ≡ true
unfolding owns
owns-member r [] i key h = cc
owns-member r (k ∷ keys) zero key h = ground (arith, ap (shard_for r) (some_eq h))
owns-member r (k ∷ keys) (suc i) key h =
    let rest = owns-member r keys i key h in
    elim (Bool-cases (shard_for r k == shard_for r key)) [ inl e ↦ rw e | inr e ↦ rw (e, rest) ]

owner-key :
    (r : ShardRouter) (keys : List Bytes) (o : ℕ)
    → owns r o keys ≡ true
    → (i : ℕ) × (key : Bytes) × (get_elem? keys i ≡ some key) × (shard_for r key ≡ o)
unfolding owns
owner-key r [] o h = cc
owner-key r (k ∷ keys) o h = elim (Bool-cases (shard_for r k == o)) [
  | inl e ↦ (0, k, refl, ground arith)
  | inr e ↦ let (i, key, at, same) = owner-key r keys o (rw e at h) in (suc i, key, at, same)
]

or_zero-any :
    (os : List ℕ) (o : ℕ) → any (λ x. x == o) os ≡ true → any (λ x. x == o) (or_zero os) ≡ true
or_zero-any [] o h = cc
or_zero-any (x ∷ os) o h = h

abbrev pub Ascending : ℕ → List ℕ → Type 0
Ascending from [] = Unit {0}
Ascending from (x ∷ xs) = (from ≤ x) × Ascending (suc x) xs

Ascending-weaken : (a b : ℕ) (xs : List ℕ) → a ≤ b → Ascending b xs → Ascending a xs
Ascending-weaken a b [] h k = tt
Ascending-weaken a b (x ∷ xs) h (le, rest) = (omega arith, rest)

owners_from-Ascending :
    (r : ShardRouter) (keys : List Bytes) (first left : ℕ)
    → Ascending first (owners_from r keys first left)
unfolding owners_from
owners_from-Ascending r keys first zero = tt
owners_from-Ascending r keys first (suc left) =
    let rest = owners_from-Ascending r keys (suc first) left in
    elim (Bool-cases (owns r first keys)) [
      | inl e ↦ rw e (omega arith, rest)
      | inr e ↦ rw e (Ascending-weaken first (suc first) _ (omega arith) rest)
    ]

or_zero-Ascending : (os : List ℕ) → Ascending 0 os → Ascending 0 (or_zero os)
or_zero-Ascending [] h = (omega arith, tt)
or_zero-Ascending (x ∷ os) h = h

-- The keys that a transaction reads, writes or watches.
abbrev pub transaction_keys : List Command → List Bytes → List Bytes
transaction_keys commands watched = watched ++ all_keys commands

abbrev pub Owns : ShardRouter → List Bytes → ℕ → Type 0
Owns r keys o = (i : ℕ) × (key : Bytes) × (get_elem? keys i ≡ some key) × (shard_for r key ≡ o)

owners_from-Owns :
    (r : ShardRouter) (keys : List Bytes) (first left : ℕ)
    → All (Owns r keys) (owners_from r keys first left)
unfolding owners_from
owners_from-Owns r keys first zero = tt
owners_from-Owns r keys first (suc left) = elim (Bool-cases (owns r first keys)) [
  | inl e ↦ rw e (owner-key r keys first e, owners_from-Owns r keys (suc first) left)
  | inr e ↦ rw e (owners_from-Owns r keys (suc first) left)
]

or_zero-Owns :
    (r : ShardRouter) (keys : List Bytes) (os : List ℕ)
    → All (Owns r keys) os
    → All (Owns r keys) (or_zero os) ⊎ (or_zero os ≡ 0 ∷ [])
or_zero-Owns r keys [] h = inr refl
or_zero-Owns r keys (o ∷ os) h = inl h

All-get :
    (P : Bytes → Type 0) (keys : List Bytes)
    → ((i : ℕ) (key : Bytes) → get_elem? keys i ≡ some key → P key)
    → All P keys
All-get P [] h = tt
All-get P (k ∷ keys) h = (h 0 k refl, All-get P keys (λ i key at. h (suc i) key at))

-- With at least one shard, the participants of a transaction stand in ascending order, each once;
-- the owner of every watched key and of every key of a command is among them; and each of them owns
-- such a key, or the only participant is shard 0.
pub participants_complete :
    (r : ShardRouter) (commands : List Command) (watched : List Bytes)
    → 0 < r.count
    → Ascending 0 (transaction_participants r commands watched)
      × All
          (λ (key : Bytes).
            any (λ x. x == shard_for r key) (transaction_participants r commands watched) ≡ true)
          (transaction_keys commands watched)
      × (All
            (Owns r (transaction_keys commands watched))
            (transaction_participants r commands watched)
          ⊎ (transaction_participants r commands watched ≡ 0 ∷ []))
unfolding transaction_participants
participants_complete r commands watched h =
    let keys = transaction_keys commands watched in
    let owners = owners_from r keys 0 r.count in
    (
      or_zero-Ascending owners (owners_from-Ascending r keys 0 r.count),
      All-get (λ (key : Bytes). any (λ x. x == shard_for r key) (or_zero owners) ≡ true) keys
          (λ i key at. or_zero-any owners (shard_for r key) (
            ground (
              arith,
              owners_from-any r keys (shard_for r key) 0 r.count,
              owns-member r keys i key at,
              shard_for_bound r key h,
            ))),
      or_zero-Owns r keys owners (owners_from-Owns r keys 0 r.count),
    )
