-- ===== src/Storage/Execution.antt =====
-- storage/mod.rs: the accounting and the quota under the commands on strings.
use sider.Prelude.{
  ℕ, zero, suc, ◌≤◌, ◌≡◌, refl, ◌∙◌, ◌⊎◌, inl, inr, Bool, true, false, Bool-cases, Option, none,
  some, List, [], ◌∷◌, option_bind, if◌then◌else◌, arith, ◌&&◌,
}
use sider.Prelude.Int.{ℤ}
use sider.Prelude.Machine.{checked_add_i64}
use sider.Resp.Frame.{Bytes}
use sider.Resp.Encoder.{decimal_i64}
use sider.Command.Types.{SetOptions, SetExpiry}
use sider.Command.Reply.{Reply}
use sider.Storage.Value.{Value}
use sider.Storage.Store.{Entry, Store, find, remove, install_entry, can_replace, expire_key, is_due}
use sider.Storage.Accounting.{IsAccounted, remove-IsAccounted, install_entry-IsAccounted}
use sider.Storage.Strings.{
  Clock, Executed, string_entry, replace, Found, absent, other, bytes, found_string, write_integer,
  incremented, increment_found, increment, set_live, set_with, set_after, set_expiry, set, unmet,
  is_other, del_keys, del, counted,
}

-- A store reached from another: accounted, with its quota, and using no more than the quota or than
-- before.
pub record IsWithin (base : Store) (s : Store) : Type 0 where
  pub accounted : IsAccounted s
  pub quota : s.max_dataset_bytes ≡ base.max_dataset_bytes
  pub bounded : (s.used_bytes ≤ base.max_dataset_bytes) ⊎ (s.used_bytes ≤ base.used_bytes)

-- An execution that does not panic and ends in such a store.
abbrev pub Keeps : Store → Executed → Type 0
Keeps base none = ⊥
Keeps base (some (reply, s)) = IsWithin base s

less :
    (base s t : Store)
    → IsWithin base s
    → IsAccounted t
    → t.max_dataset_bytes ≡ s.max_dataset_bytes
    → t.used_bytes ≤ s.used_bytes
    → IsWithin base t
less base s t w v quota le = record {
  accounted = v;
  quota = quota ∙ w.quota;
  bounded = bound w.bounded;
}
  where
    bound :
        (s.used_bytes ≤ base.max_dataset_bytes) ⊎ (s.used_bytes ≤ base.used_bytes)
        → (t.used_bytes ≤ base.max_dataset_bytes) ⊎ (t.used_bytes ≤ base.used_bytes)
    bound (inl h) = inl (omega (arith, le, h))
    bound (inr h) = inr (omega (arith, le, h))

removed-IsWithin :
    (base s : Store) (key : Bytes)
    → IsWithin base s
    → (r : Option Entry) × (t : Store) × (remove key s ≡ some (r, t)) × IsWithin base t
removed-IsWithin base s key w =
    let (r, t, eq, v, found, balance, quota) = remove-IsAccounted key s w.accounted in
    (r, t, eq, less base s t w v quota (omega (arith, balance)))

expired-IsWithin :
    (base s : Store) (key : Bytes) (now : ℕ)
    → IsWithin base s
    → (t : Store) × (expire_key key now s ≡ some t) × IsWithin base t
unfolding expire_key
expired-IsWithin base s key now w = elim (Bool-cases (is_due now (find key s.values))) [
  | inr e ↦ (s, rw e, w)
  | inl e ↦ let (r, t, eq, within) = removed-IsWithin base s key w in (t, rw (e, eq), within)
]

replace-Keeps :
    (base s : Store) (key value : Bytes) (expiry : Option (ℕ × ℤ)) (reply : Reply)
    → IsWithin base s
    → Keeps base (replace key value expiry reply s)
unfolding replace
replace-Keeps base s key value expiry reply w =
    elim (Bool-cases (can_replace key (Value.string value) s)) [
      | inr e ↦ rw e w
      | inl e ↦ rw e (installed (string_entry value expiry) (has_value expiry ∙ e))
    ]
  where
    has_value :
        (x : Option (ℕ × ℤ))
        → can_replace key (string_entry value x).value s ≡ can_replace key (Value.string value) s
    has_value none = refl
    has_value (some (at, unix)) = refl

    installed :
        (entry : Entry)
        → can_replace key entry.value s ≡ true
        → Keeps base (option_bind (install_entry key entry s) (λ s'. some (reply, s')))
    installed entry allowed =
        let (t, eq, v, bound, quota, there) =
          install_entry-IsAccounted key entry s w.accounted allowed in
        rw eq
          (record { accounted = v; quota = quota ∙ w.quota; bounded = bounds t bound w.bounded })
      where
        bounds :
            (t : Store)
            → (t.used_bytes ≤ s.max_dataset_bytes) ⊎ (t.used_bytes ≤ s.used_bytes)
            → (s.used_bytes ≤ base.max_dataset_bytes) ⊎ (s.used_bytes ≤ base.used_bytes)
            → (t.used_bytes ≤ base.max_dataset_bytes) ⊎ (t.used_bytes ≤ base.used_bytes)
        bounds t (inl h) k = inl (omega (arith, h, w.quota))
        bounds t (inr h) (inl k) = inl (omega (arith, h, k))
        bounds t (inr h) (inr k) = inr (omega (arith, h, k))

-- After the key has been expired, whatever comes next.
after_expiry :
    (base s : Store) (key : Bytes) (now : ℕ) (next : Store → Executed)
    → IsWithin base s
    → ((t : Store) → IsWithin base t → Keeps base (next t))
    → Keeps base (option_bind (expire_key key now s) next)
after_expiry base s key now next w k =
    let (t, eq, within) = expired-IsWithin base s key now w in rw eq (k t within)

incremented-Keeps :
    (base t : Store) (key : Bytes) (delta : ℤ) (expiry : Option (ℕ × ℤ)) (previous : Option ℤ)
    → IsWithin base t
    → Keeps base (incremented key delta expiry t previous)
unfolding incremented
incremented-Keeps base t key delta expiry none w = w
incremented-Keeps base t key delta expiry (some previous) w =
    written (checked_add_i64 previous delta)
  where
    written : (o : Option ℤ) → Keeps base (write_integer key expiry t o)
    written none = w
    written (some value) = replace-Keeps base t key (decimal_i64 value) expiry _ w

increment_found-Keeps :
    (base t : Store) (key : Bytes) (delta : ℤ) (expiry : Option (ℕ × ℤ)) (found : Found)
    → IsWithin base t
    → Keeps base (increment_found key delta expiry t found)
increment_found-Keeps base t key delta expiry absent w =
    incremented-Keeps base t key delta expiry _ w
increment_found-Keeps base t key delta expiry other w = w
increment_found-Keeps base t key delta expiry (bytes value) w =
    incremented-Keeps base t key delta expiry _ w

if-Keeps :
    (base : Store) (b : Bool) (x y : Executed)
    → Keeps base x
    → Keeps base y
    → Keeps base (if b then x else y)
if-Keeps base true x y h k = h
if-Keeps base false x y h k = k

set_live-Keeps :
    (base t : Store) (key value : Bytes) (options : SetOptions) (new : Option (ℕ × ℤ))
    → IsWithin base t
    → Keeps base (set_live key value options new t)
unfolding set_live
set_live-Keeps base t key value options new w =
    if-Keeps base (options.return_previous && is_other (found_string (find key t.values))) _ _ w (
      if-Keeps base (unmet options.condition (found_string (find key t.values))) _ _ w
        (replace-Keeps base t key value _ _ w))

set_with-Keeps :
    (base s : Store) (key value : Bytes) (options : SetOptions) (now : ℕ) (new : Option (ℕ × ℤ))
    → IsWithin base s
    → Keeps base (set_with key value options now s new)
set_with-Keeps base s key value options now new w =
    after_expiry base s key now (set_live key value options new) w
      (λ t v. set_live-Keeps base t key value options new v)

set_after-Keeps :
    (base s : Store) (key value : Bytes) (options : SetOptions) (now : ℕ) (new : Option (ℕ × ℤ))
    → IsWithin base s
    → Keeps base (set_after key value options now s new)
set_after-Keeps base s key value options now none w = w
set_after-Keeps base s key value options now (some at) w =
    set_with-Keeps base s key value options now (some at) w

set_expiry-Keeps :
    (base s : Store) (key value : Bytes) (options : SetOptions) (clock : Clock) (expiry : SetExpiry)
    → IsWithin base s
    → Keeps base (set_expiry key value options clock s expiry)
set_expiry-Keeps base s key value options clock (SetExpiry.after zero) w = w
set_expiry-Keeps base s key value options clock (SetExpiry.after (suc n)) w =
    set_after-Keeps base s key value options clock.now _ w
set_expiry-Keeps base s key value options clock SetExpiry.keep w =
    set_with-Keeps base s key value options clock.now none w
set_expiry-Keeps base s key value options clock SetExpiry.persistent w =
    set_with-Keeps base s key value options clock.now none w

self-IsWithin : (s : Store) → IsAccounted s → IsWithin s s
self-IsWithin s v = record { accounted = v; quota = refl; bounded = inr (omega arith) }

-- On an accounted store SET, with any options and any clock, does not panic; the store that it leaves
-- is accounted, has the same quota, and uses no more than the quota or than before.
pub set-Keeps :
    (key value : Bytes) (options : SetOptions) (clock : Clock) (s : Store)
    → IsAccounted s
    → Keeps s (set key value options clock s)
unfolding set
set-Keeps key value options clock s v =
    set_expiry-Keeps s s key value options clock options.expiry (self-IsWithin s v)

-- On an accounted store INCR and DECR do not panic; the store that they leave is accounted, has the
-- same quota, and uses no more than the quota or than before.
pub increment-Keeps :
    (key : Bytes) (delta : ℤ) (now : ℕ) (s : Store)
    → IsAccounted s
    → Keeps s (increment key delta now s)
unfolding increment
increment-Keeps key delta now s v =
    after_expiry s s key now _ (self-IsWithin s v)
      (λ t w. increment_found-Keeps s t key delta _ (found_string (find key t.values)) w)

after_removal :
    (base t : Store) (key : Bytes) (keys : List Bytes) (now removed : ℕ)
    → IsWithin base t
    → ((n : ℕ) (u : Store) → IsWithin base u → Keeps base (del_keys keys now n u))
    → Keeps base (option_bind (remove key t) (λ r. del_keys keys now (counted r.0 removed) r.1))
after_removal base t key keys now removed w rest =
    let (r, u, eq, within) = removed-IsWithin base t key w in
    rw eq (rest (counted r removed) u within)

del_keys-Keeps :
    (base s : Store) (keys : List Bytes) (now removed : ℕ)
    → IsWithin base s
    → Keeps base (del_keys keys now removed s)
unfolding del_keys
del_keys-Keeps base s [] now removed w = w
del_keys-Keeps base s (key ∷ keys) now removed w =
    after_expiry base s key now _ w
      (λ t v. after_removal base t key keys now removed v (λ n u. del_keys-Keeps base u keys now n))

-- On an accounted store DEL does not panic; the store that it leaves is accounted, has the same
-- quota, and uses no more than the quota or than before.
pub del-Keeps : (keys : List Bytes) (now : ℕ) (s : Store) → IsAccounted s → Keeps s (del keys now s)
unfolding del
del-Keeps keys now s v = del_keys-Keeps s s keys now 0 (self-IsWithin s v)
