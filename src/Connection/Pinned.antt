-- ===== src/Connection/Pinned.antt =====
-- connection/transaction.rs: the queue stays within its limits, and without the composed log within
-- one shard.
use sider.Prelude.{sym}
use sider.Prelude.{if◌then◌else◌}
use sider.Prelude.{some_eq}
use sider.Prelude.{◌⊎◌}
use sider.Prelude.{
  ℕ, ◌≡◌, refl, ap, ◌∙◌, arith, inl, inr, Bool, true, false, not, Bool-cases, Option, none, some,
  List, [], ◌∷◌, ◌++◌, All,
}
use mathlib.Core.Path.{subst}
use sider.Storage.Placement.{Crossing, select_key-some, select_keys-some}
use sider.Prelude.{if◌then◌else◌, some_eq}
use sider.Resp.Frame.{Bytes}
use sider.Command.Types.{Command, keys_of}
use sider.Storage.Routing.{ShardRouter, shard_for, is_err, select_key, select_keys, select_command}
use sider.Connection.Transaction.{select_watched}

-- The key is owned by the shard that is pinned; nothing is where none is.
abbrev pub Within : ShardRouter → Option ℕ → Bytes → Type 0
Within r none key = ⊥
Within r (some shard) key = shard_for r key ≡ shard

pub All-imp {ℓ} :
    {A : Type ℓ} {P Q : A → Type 0} → ((a : A) → P a → Q a) → (xs : List A) → All P xs → All Q xs
All-imp f [] h = tt
All-imp f (x ∷ xs) (p, h) = (f x p, All-imp f xs h)

pub All-snoc {ℓ} :
    {A : Type ℓ} (P : A → Type 0) (xs : List A) (x : A) → All P xs → P x → All P (xs ++ (x ∷ []))
All-snoc P [] x h p = (p, tt)
All-snoc P (y ∷ xs) x (q, h) p = (q, All-snoc P xs x h p)

-- What was within the one selection is within the other.
abbrev pub Keeps : ShardRouter → Option ℕ → Option ℕ → Type 0
Keeps r before after = (key : Bytes) → Within r before key → Within r after key

pub select_keys-Within :
    (r : ShardRouter) (keys : List Bytes) (selected : Option ℕ)
    → (select_keys r keys selected).0 ≡ false
    → All (Within r ((select_keys r keys selected).1)) keys
      × Keeps r selected ((select_keys r keys selected).1)
unfolding select_keys select_key
select_keys-Within r keys (some shard) h =
    let (crossed, eq, says) = select_keys-some r keys shard in
    within crossed eq says (ap (λ (x : Bool × Option ℕ). x.0) eq)
  where
    within :
        (crossed : Bool)
        → select_keys r keys (some shard) ≡ (crossed, some shard)
        → Crossing r shard keys crossed
        → (select_keys r keys (some shard)).0 ≡ crossed
        → All (Within r ((select_keys r keys (some shard)).1)) keys
          × Keeps r (some shard) ((select_keys r keys (some shard)).1)
    within false eq says e = rw eq (says, λ key w. w)
    within true eq says e = absurd (ground (arith, e, h))
select_keys-Within r [] none h = (tt, λ key w. absurd w)
select_keys-Within r (key ∷ keys) none h =
    let (rest, keeps) = select_keys-Within r keys (some (shard_for r key)) h in
    ((keeps key refl, rest), λ k w. absurd w)

pub select_command-Within :
    (r : ShardRouter) (command : Command) (selected : Option ℕ)
    → is_err ((select_command r command selected).0) ≡ false
    → All (Within r ((select_command r command selected).1)) (keys_of command)
      × Keeps r selected ((select_command r command selected).1)
unfolding select_command
select_command-Within r command selected h =
    elim (Bool-cases ((select_keys r (keys_of command) selected).0)) [
      | inl e ↦ absurd (ground (arith, e, h))
      | inr e ↦ rw e (select_keys-Within r (keys_of command) selected e)
    ]

select_watched-some :
    (r : ShardRouter) (composed : Bool) (key : Bytes) (keys : List Bytes) (shard : ℕ)
    (crossed : Bool)
    → ((shard_for r key ≡ shard)
        × (select_watched r composed (key ∷ keys) (some shard) crossed
            ≡ select_watched r composed keys (some shard) crossed))
      ⊎ (select_watched r composed (key ∷ keys) (some shard) crossed
          ≡ (if not composed then none else select_watched r composed keys (some shard) true))
unfolding select_watched
select_watched-some r composed key keys shard crossed = elim (select_key-some r key shard) [
  | inl (same, one) ↦ inl (same, rw one refl)
  | inr (other, one) ↦ inr (rw one refl)
]

-- What the loop of WATCH has selected: without the composed log nothing crosses, and where nothing
-- crosses all keys are within the shard.
abbrev pub Selects : ShardRouter → Bool → List Bytes → Option ℕ → Bool → Option ℕ → Bool → Type 0
Selects r composed keys shard crossed last after =
    (composed ≡ false → crossed ≡ false → after ≡ false)
    × (after ≡ false → (crossed ≡ false) × All (Within r last) keys × Keeps r shard last)

pub select_watched-Selects :
    (r : ShardRouter) (composed : Bool) (keys : List Bytes) (shard last : Option ℕ)
    (crossed after : Bool)
    → select_watched r composed keys shard crossed ≡ some (last, after)
    → Selects r composed keys shard crossed last after
unfolding select_watched select_key
select_watched-Selects r composed [] shard last crossed after h =
    let same : shard ≡ last = ap (λ x. x.0) (some_eq h) in
    let now : crossed ≡ after = ap (λ x. x.1) (some_eq h) in
    (λ a b. sym now ∙ b, λ e. (now ∙ e, tt, λ key w. subst (λ s. Within r s key) same w))
select_watched-Selects r composed (key ∷ keys) none last crossed after h =
    let (calm, all) =
      select_watched-Selects r composed keys (some (shard_for r key)) last crossed after h in
    (calm, λ e. let (was, rest, keeps) = all e in (was, (keeps key refl, rest), λ k w. absurd w))
select_watched-Selects r composed (key ∷ keys) (some shard) last crossed after h =
    elim (select_watched-some r composed key keys shard crossed) [
      | inl (same, one) ↦
          let (calm, all) =
            select_watched-Selects r composed keys (some shard) last crossed after (sym one ∙ h) in
          (calm, λ e. let (was, rest, keeps) = all e in (was, (keeps key same, rest), keeps))
      | inr one ↦
          crossing (λ c e. select_watched-Selects r c keys (some shard) last true after e) composed
            (sym one ∙ h)
    ]
  where
    crossing :
        ((c : Bool)
          → select_watched r c keys (some shard) true ≡ some (last, after)
          → Selects r c keys (some shard) true last after)
        → (composed : Bool)
        → (if not composed then none else select_watched r composed keys (some shard) true)
          ≡ some (last, after)
        → Selects r composed (key ∷ keys) (some shard) crossed last after
    crossing again false e = absurd (ground (arith, e))
    crossing again true e =
        let (calm, all) = again true e in
        (λ a b. absurd (ground (arith, a)), λ e. absurd (ground (arith, (all e).0)))
