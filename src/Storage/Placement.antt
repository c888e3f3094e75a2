-- ===== src/Storage/Placement.antt =====
-- storage/routing.rs: where keys, commands and transactions are placed.
use sider.Prelude.{
  ℕ, suc, ◌^◌, ◌<◌, ◌≡◌, ◌≢◌, refl, ap, ◌∙◌, ◌⊎◌, inl, inr, Bool, true, false, Option, none, some,
  List, [], ◌∷◌, ◌++◌, ◌==◌, Result, ok, err, all, All, get_elem?, arith, not,
}
use sider.Resp.Frame.{Bytes}
use sider.Command.Types.{Command, keys_of}
use sider.Storage.Routing.{
  opened_tag, closed_tag, split_on, hash_tag, stable_hash, hash_from, hash_byte, ShardRouter,
  RoutingError, cross_shard, shard_for, select_key, select_keys, select_command, route, unwrap_or,
}

hash_from_bound : (h : ℕ) (bytes : Bytes) → h < 2 ^ 64 → hash_from h bytes < 2 ^ 64
unfolding hash_from hash_byte
hash_from_bound h [] lt = lt
hash_from_bound h (b ∷ bs) lt = hash_from_bound (hash_byte h b) bs (omega arith)

-- The hash of any bytes is a `u64`.
pub stable_hash_bound : (bytes : Bytes) → stable_hash bytes < 2 ^ 64
unfolding stable_hash
stable_hash_bound bytes = hash_from_bound _ bytes (omega arith)

split_on-append :
    (byte : ℕ) (before after : Bytes)
    → all (λ b. not (b == byte)) before ≡ true
    → split_on byte (before ++ (byte ∷ after)) ≡ some (before, after)
unfolding split_on
split_on-append byte [] after h = ground arith
split_on-append byte (b ∷ before) after h = ground (arith, split_on-append byte before after)

hash_tag-split :
    (key before suffix : Bytes) (b : ℕ) (tag after : Bytes)
    → split_on b'{' key ≡ some (before, suffix)
    → split_on b'}' suffix ≡ some (b ∷ tag, after)
    → hash_tag key ≡ b ∷ tag
unfolding hash_tag
hash_tag-split key before suffix b tag after h k = ap (opened_tag key) h ∙ ap (closed_tag key) k

-- A key `before{tag}after`, where the first `{` is the one shown and the tag is not empty and has
-- no `}`, has this tag.
pub hash_tag-tagged :
    (before : Bytes) (b : ℕ) (tag after : Bytes)
    → all (λ x. not (x == b'{')) before ≡ true
    → all (λ x. not (x == b'}')) (b ∷ tag) ≡ true
    → hash_tag (before ++ (b'{' ∷ ((b ∷ tag) ++ (b'}' ∷ after)))) ≡ b ∷ tag
hash_tag-tagged before b tag after h k =
    hash_tag-split _ before _ b tag after (split_on-append b'{' before _ h)
      (split_on-append b'}' (b ∷ tag) after k)

-- Two keys with the same tag live in the same shard, whatever stands around the tag.
pub shard_for-tagged :
    (r : ShardRouter) (before before' : Bytes) (b : ℕ) (tag after after' : Bytes)
    → all (λ x. not (x == b'{')) before ≡ true
    → all (λ x. not (x == b'{')) before' ≡ true
    → all (λ x. not (x == b'}')) (b ∷ tag) ≡ true
    → shard_for r (before ++ (b'{' ∷ ((b ∷ tag) ++ (b'}' ∷ after))))
      ≡ shard_for r (before' ++ (b'{' ∷ ((b ∷ tag) ++ (b'}' ∷ after'))))
unfolding shard_for
shard_for-tagged r before before' b tag after after' h h' k =
    rw (hash_tag-tagged before b tag after h k, hash_tag-tagged before' b tag after' h' k)

pub shard_for_bound : (r : ShardRouter) (key : Bytes) → 0 < r.count → shard_for r key < r.count
unfolding shard_for
shard_for_bound r key h = omega arith

-- A key of the list that lives elsewhere than in `shard`.
abbrev pub Elsewhere : ShardRouter → ℕ → List Bytes → Type 0
Elsewhere r shard keys =
    (i : ℕ) × (key : Bytes) × (get_elem? keys i ≡ some key) × (shard_for r key ≢ shard)

abbrev pub Crossing : ShardRouter → ℕ → List Bytes → Bool → Type 0
Crossing r shard keys false = All (λ (key : Bytes). shard_for r key ≡ shard) keys
Crossing r shard keys true = Elsewhere r shard keys

Crossing-cons :
    (r : ShardRouter) (shard : ℕ) (key : Bytes) (keys : List Bytes) (crossed : Bool)
    → shard_for r key ≡ shard
    → Crossing r shard keys crossed
    → Crossing r shard (key ∷ keys) crossed
Crossing-cons r shard key keys false h c = (h, c)
Crossing-cons r shard key keys true h (i, k, at, other) = (suc i, k, at, other)

pub select_key-some :
    (r : ShardRouter) (key : Bytes) (shard : ℕ)
    → ((shard_for r key ≡ shard) × (select_key r key (some shard) ≡ (ok tt, some shard)))
      ⊎ ((shard_for r key ≢ shard)
          × (select_key r key (some shard) ≡ (err cross_shard, some shard)))
unfolding select_key
select_key-some r key shard = ground arith

pub select_keys-some :
    (r : ShardRouter) (keys : List Bytes) (shard : ℕ)
    → (crossed : Bool) × (select_keys r keys (some shard) ≡ (crossed, some shard))
      × Crossing r shard keys crossed
unfolding select_keys
select_keys-some r [] shard = (false, refl, tt)
select_keys-some r (key ∷ keys) shard =
    let (crossed, rest, says) = select_keys-some r keys shard in
    elim (select_key-some r key shard) [
      | inl (same, one) ↦
          (crossed, rw (one, rest), Crossing-cons r shard key keys crossed same says)
      | inr (other, one) ↦ (true, rw (one, rest), (0, key, refl, other))
    ]

-- What a routing result says of the command's keys.
abbrev pub Places : ShardRouter → List Bytes → Result ℕ RoutingError → Type 0
Places r keys (ok shard) = (shard < r.count) × All (λ (key : Bytes). shard_for r key ≡ shard) keys
Places r keys (err e) =
    (e ≡ cross_shard)
    × ((i j : ℕ) × (a b : Bytes) × (get_elem? keys i ≡ some a)
        × (get_elem? keys j ≡ some b)
        × (shard_for r a ≢ shard_for r b))

abbrev selected_route : Bool × Option ℕ → Result ℕ RoutingError
selected_route (true, selected) = err cross_shard
selected_route (false, selected) = ok (unwrap_or selected 0)

route-keys :
    (r : ShardRouter) (c : Command) → route r c ≡ selected_route (select_keys r (keys_of c) none)
unfolding route select_command
route-keys r c = ground arith

Places-keys :
    (r : ShardRouter) (keys : List Bytes)
    → 0 < r.count
    → Places r keys (selected_route (select_keys r keys none))
unfolding select_keys select_key
Places-keys r [] h = (h, tt)
Places-keys r (key ∷ keys) h =
    let (crossed, eq, says) = select_keys-some r keys (shard_for r key) in
    rw eq (outcome crossed says)
  where
    outcome :
        (crossed : Bool)
        → Crossing r (shard_for r key) keys crossed
        → Places r (key ∷ keys) (selected_route (crossed, some (shard_for r key)))
    outcome false c = (shard_for_bound r key h, (refl, c))
    outcome true (i, k, at, other) = (refl, (suc i, 0, k, key, at, refl, other))

-- With at least one shard, a command is routed to a shard that exists and owns all its keys, or it
-- is refused as one that crosses shards, and then two of its keys are owned by different shards.
pub route-Places : (r : ShardRouter) (c : Command) → 0 < r.count → Places r (keys_of c) (route r c)
route-Places r c h = rw (route-keys r c) (Places-keys r (keys_of c) h)
