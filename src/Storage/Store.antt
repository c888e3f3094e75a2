-- ===== src/Storage/Store.antt =====
-- storage/mod.rs and storage/watch.rs: the entries of a store, their accounting and their expiry.
-- The map of values is a list of its entries, whose first entry for a key counts, and the ordered
-- indexes are lists in their order. An `Instant` is a number. The flags of the watch registry are
-- numbered, and `changed` has those that were set. `none` is a panic: an `expect` that fails, or an
-- addition or subtraction on `used_bytes` out of range.
use sider.Prelude.{
  ℕ, ◌+◌, ◌%◌, ◌^◌, Bool, false, ◌&&◌, ◌||◌, Option, none, some, List, [], ◌∷◌, length, leb, ltb,
  ◌==◌, if◌then◌else◌, option_bind, bytes_eq,
}
use sider.Prelude.Int.{ℤ}
use sider.Prelude.Machine.{checked_add, checked_sub}
use sider.Resp.Frame.{Bytes}
use sider.Storage.Member.{bytes_lt}
use sider.Storage.Value.{Value, logical_bytes}

pub record Entry : Type 0 where
  pub value : Value
  pub expires_at : Option ℕ
  pub expires_at_unix_ms : Option ℤ
  pub generation : ℕ
  pub member_deadlines : List (Bytes × ℕ)

-- `(Instant, u64, Bytes)` and `(Instant, Bytes, Bytes)`.
pub record Event : Type 0 where
  pub deadline : ℕ
  pub generation : ℕ
  pub key : Bytes

pub record MemberEvent : Type 0 where
  pub deadline : ℕ
  pub key : Bytes
  pub id : Bytes

pub record Store : Type 0 where
  pub values : List (Bytes × Entry)
  pub expirations : List Event
  pub member_expirations : List MemberEvent
  pub generation : ℕ
  pub max_dataset_bytes : ℕ
  pub used_bytes : ℕ
  pub watches : List (Bytes × ℕ)
  pub changed : List ℕ

abbrev pub entry_overhead_bytes : ℕ
entry_overhead_bytes = 128

unfoldable pub find {ℓ} : {A : Type ℓ} → Bytes → List (Bytes × A) → Option A
find key [] = none
find key ((k, a) ∷ rest) = let later = find key rest in if bytes_eq k key then some a else later

unfoldable pub erase {ℓ} : {A : Type ℓ} → Bytes → List (Bytes × A) → List (Bytes × A)
erase key [] = []
erase key ((k, a) ∷ rest) =
    let later = erase key rest in if bytes_eq k key then rest else (k, a) ∷ later

unfoldable pub entry_bytes : Bytes → Value → Option ℕ
entry_bytes key value =
    option_bind (logical_bytes value) (λ size.
      option_bind (checked_add (length key) size) (λ n. checked_add n entry_overhead_bytes))

abbrev pub set_flag : Bytes → Store → Option ℕ → Store
set_flag key s none = s
set_flag key s (some flag) = record s { watches = erase key s.watches; changed = flag ∷ s.changed }

-- `Registry::invalidate`.
unfoldable pub invalidate : Bytes → Store → Store
invalidate key s = set_flag key s (find key s.watches)

abbrev same_event : Event → Event → Bool
same_event a b = a.deadline == b.deadline && (a.generation == b.generation && bytes_eq a.key b.key)

abbrev event_before : Event → Event → Bool
event_before a b =
    ltb a.deadline b.deadline
    || (a.deadline == b.deadline
        && (ltb a.generation b.generation
            || (a.generation == b.generation && bytes_lt a.key b.key)))

unfoldable pub remove_event : Event → List Event → List Event
remove_event e [] = []
remove_event e (x ∷ xs) = let rest = remove_event e xs in if same_event x e then xs else x ∷ rest

unfoldable pub insert_event : Event → List Event → List Event
insert_event e [] = e ∷ []
insert_event e (x ∷ xs) =
    let rest = insert_event e xs in
    if same_event x e then x ∷ xs else if event_before e x then e ∷ (x ∷ xs) else x ∷ rest

abbrev same_member : MemberEvent → MemberEvent → Bool
same_member a b = a.deadline == b.deadline && (bytes_eq a.key b.key && bytes_eq a.id b.id)

abbrev member_before : MemberEvent → MemberEvent → Bool
member_before a b =
    ltb a.deadline b.deadline
    || (a.deadline == b.deadline
        && (bytes_lt a.key b.key || (bytes_eq a.key b.key && bytes_lt a.id b.id)))

unfoldable pub remove_member : MemberEvent → List MemberEvent → List MemberEvent
remove_member e [] = []
remove_member e (x ∷ xs) = let rest = remove_member e xs in if same_member x e then xs else x ∷ rest

unfoldable pub insert_member : MemberEvent → List MemberEvent → List MemberEvent
insert_member e [] = e ∷ []
insert_member e (x ∷ xs) =
    let rest = insert_member e xs in
    if same_member x e then x ∷ xs else if member_before e x then e ∷ (x ∷ xs) else x ∷ rest

-- The indexes without, and with, the events of an entry.
abbrev pub unlink_expiry : Bytes → ℕ → Option ℕ → List Event → List Event
unlink_expiry key generation none events = events
unlink_expiry key generation (some deadline) events =
    remove_event (record { deadline = deadline; generation = generation; key = key }) events

abbrev pub link_expiry : Bytes → ℕ → Option ℕ → List Event → List Event
link_expiry key generation none events = events
link_expiry key generation (some deadline) events =
    insert_event (record { deadline = deadline; generation = generation; key = key }) events

abbrev pub unlink_members : Bytes → List (Bytes × ℕ) → List MemberEvent → List MemberEvent
unlink_members key [] events = events
unlink_members key ((id, deadline) ∷ rest) events =
    unlink_members key rest
      (remove_member (record { deadline = deadline; key = key; id = id }) events)

abbrev pub link_members : Bytes → List (Bytes × ℕ) → List MemberEvent → List MemberEvent
link_members key [] events = events
link_members key ((id, deadline) ∷ rest) events =
    link_members key rest
      (insert_member (record { deadline = deadline; key = key; id = id }) events)

abbrev pub next_generation : ℕ → ℕ
next_generation g = (g + 1) % 2 ^ 64

-- The store without an entry that it has, given what is left of `used_bytes`.
unfoldable pub without : Bytes → Entry → Store → ℕ → Store
without key entry s used = record s {
  values = erase key s.values;
  generation = next_generation s.generation;
  used_bytes = used;
  expirations = unlink_expiry key entry.generation entry.expires_at s.expirations;
  member_expirations = unlink_members key entry.member_deadlines s.member_expirations;
}

-- `self.used_bytes -= Self::entry_bytes(..).expect(..)`.
unfoldable pub released : Bytes → Entry → Store → Option ℕ
released key entry s = option_bind (entry_bytes key entry.value) (checked_sub s.used_bytes)

abbrev pub remove_entry : Bytes → Store → Option Entry → Option (Option Entry × Store)
remove_entry key s none = some (none, s)
remove_entry key s (some entry) =
    option_bind (released key entry s)
      (λ used. some (some entry, without key entry (invalidate key s) used))

unfoldable pub remove : Bytes → Store → Option (Option Entry × Store)
remove key s = remove_entry key s (find key s.values)

unfoldable pub with_entry : Bytes → Entry → Store → ℕ → Store
with_entry key entry s used =
    let generation : ℕ = next_generation s.generation in
    record s {
      values = (key, record entry { generation = generation }) ∷ s.values;
      generation = generation;
      used_bytes = used;
      expirations = link_expiry key generation entry.expires_at s.expirations;
      member_expirations = link_members key entry.member_deadlines s.member_expirations;
    }

-- `self.used_bytes += Self::entry_bytes(..).expect(..)`.
unfoldable pub charge : Bytes → Entry → Store → Option ℕ
charge key entry s = option_bind (entry_bytes key entry.value) (checked_add s.used_bytes)

unfoldable pub install_entry : Bytes → Entry → Store → Option Store
install_entry key entry s =
    option_bind (remove key (invalidate key s))
      (λ r. option_bind (charge key entry r.1) (λ used. some (with_entry key entry r.1 used)))

abbrev pub or_zero : Option ℕ → ℕ
or_zero none = 0
or_zero (some n) = n

abbrev pub old_bytes : Bytes → Option Entry → ℕ
old_bytes key none = 0
old_bytes key (some entry) = or_zero (entry_bytes key entry.value)

unfoldable pub proposed : Bytes → Value → Store → Option ℕ
proposed key value s = option_bind (entry_bytes key value) (λ new.
    option_bind (checked_sub s.used_bytes (old_bytes key (find key s.values)))
      (λ n. checked_add n new))

abbrev pub fits : Store → Option ℕ → Bool
fits s none = false
fits s (some usage) = leb usage s.max_dataset_bytes || leb usage s.used_bytes

unfoldable pub can_replace : Bytes → Value → Store → Bool
can_replace key value s = fits s (proposed key value s)

abbrev pub is_due : ℕ → Option Entry → Bool
is_due now none = false
is_due now (some entry) = elim entry.expires_at [ none ↦ false | some deadline ↦ leb deadline now ]

unfoldable pub expire_key : Bytes → ℕ → Store → Option Store
expire_key key now s =
    if is_due now (find key s.values) then option_bind (remove key s) (λ r. some r.1) else some s
