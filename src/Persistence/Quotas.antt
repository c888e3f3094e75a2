-- ===== src/Persistence/Quotas.antt =====
-- persistence/layout.rs: the quotas of the shards share out the whole quota.
use native.Mathlib.Nat.{div-add-mod, mod-lt}
use sider.Prelude.{
  ℕ, zero, suc, ◌+◌, ◌*◌, ◌/◌, ◌%◌, ◌≤◌, ◌<◌, ◌≡◌, refl, ap, ◌∙◌, false, ◌||◌, leb, ltb, min,
  if◌then◌else◌, Result, ok, and_then, arith,
}
use sider.Storage.Routing.{RoutingError}
use sider.Persistence.Layout.{DurableLayout, validate, quota}

-- What the first `k` shards have together.
abbrev pub shared : DurableLayout → ℕ → ℕ → Result ℕ RoutingError
shared l total zero = ok 0
shared l total (suc k) =
    and_then (quota l total k) (λ q. and_then (shared l total k) (λ rest. ok (q + rest)))

quota_eq :
    (l : DurableLayout) (total shard : ℕ)
    → validate l ≡ ok tt
    → l.shard_count ≤ total
    → shard < l.shard_count
    → quota l total shard
      ≡ ok (total / l.shard_count + (if ltb shard (total % l.shard_count) then 1 else 0))
unfolding quota
quota_eq l total shard valid enough there =
    let fine : (ltb total l.shard_count || leb l.shard_count shard) ≡ false =
      ground (arith, enough, there) in
    rw (valid, fine) refl

share_step :
    (q m k : ℕ) → q + (if ltb k m then 1 else 0) + (k * q + min k m) ≡ suc k * q + min (suc k) m
share_step q m k = grind arith

shared_eq :
    (l : DurableLayout) (total k : ℕ)
    → validate l ≡ ok tt
    → l.shard_count ≤ total
    → k ≤ l.shard_count
    → shared l total k ≡ ok (k * (total / l.shard_count) + min k (total % l.shard_count))
shared_eq l total zero valid enough le = ap ok (grind arith)
shared_eq l total (suc k) valid enough le =
    rw
      (
        quota_eq l total k valid enough (omega (arith, le)),
        shared_eq l total k valid enough (omega (arith, le)),
      )
      (ap ok (share_step (total / l.shard_count) (total % l.shard_count) k))

-- With a valid layout and at least a byte for each shard, every shard has a quota, and together they
-- are the whole.
pub shared_all :
    (l : DurableLayout) (total : ℕ)
    → validate l ≡ ok tt
    → l.shard_count ≤ total
    → 0 < l.shard_count
    → shared l total l.shard_count ≡ ok total
shared_all l total valid enough pos =
    shared_eq l total l.shard_count valid enough (omega arith)
    ∙ ap ok (omega (arith, div-add-mod total l.shard_count, mod-lt total pos))
