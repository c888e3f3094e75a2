-- ===== src/Storage/Accounting.antt =====
-- storage/mod.rs: the accounting of a store under removals and replacements.
use mathlib.Core.Path.{subst}
use sider.Prelude.{
  ℕ, ◌+◌, ◌-◌, ◌≤◌, ◌≡◌, refl, ap, sym, ◌∙◌, ◌⊎◌, inl, inr, true, false, Bool-cases, Option-cases,
  some_eq, Option, none, some, List, [], ◌∷◌, option_bind, bytes_eq, bytes_eq_self, bytes_eq→eq,
  if◌then◌else◌, arith,
}
use sider.Prelude.Machine.{checked_add, checked_sub, usize_max}
use sider.Resp.Frame.{Bytes}
use sider.Storage.Value.{Value}
use sider.Storage.Store.{
  Entry, Store, find, erase, entry_bytes, invalidate, set_flag, or_zero, fits, without, released,
  remove_entry, remove, with_entry, charge, install_entry, old_bytes, proposed, can_replace,
  next_generation,
}

abbrev total : List (Bytes × Entry) → ℕ
total [] = 0
total ((key, entry) ∷ rest) = old_bytes key (some entry) + total rest

abbrev Counts : Bytes → Entry → Type 0
Counts key entry = (n : ℕ) × (entry_bytes key entry.value ≡ some n)

abbrev Counted : List (Bytes × Entry) → Type 0
Counted [] = Unit {0}
Counted ((key, entry) ∷ rest) = Counts key entry × Counted rest

-- Each entry has a size, and `used_bytes` is their sum.
pub record IsAccounted (s : Store) : Type 0 where
  pub counted : Counted s.values
  pub accounted : s.used_bytes ≡ total s.values

find-Counts :
    (key : Bytes) (values : List (Bytes × Entry)) (entry : Entry)
    → Counted values
    → find key values ≡ some entry
    → Counts key entry × (total values ≡ old_bytes key (some entry) + total (erase key values))
unfolding find erase
find-Counts key [] entry c h = cc
find-Counts key ((k, e) ∷ rest) entry (own, c) h = elim (Bool-cases (bytes_eq k key)) [
  | inl same ↦
      let found : e ≡ entry = some_eq (rw same at h) in here_is (bytes_eq→eq k key same) found same
  | inr other ↦
      let (counts, sum) = find-Counts key rest entry c (rw other at h) in
      (counts, rw other (omega (arith, sum)))
]
  where
    here_is :
        k ≡ key
        → e ≡ entry
        → bytes_eq k key ≡ true
        → Counts key entry
          × (total ((k, e) ∷ rest)
              ≡ old_bytes key (some entry)
                + total (if bytes_eq k key then rest else (k, e) ∷ erase key rest))
    here_is p q same = (
      subst (λ (x : Bytes × Entry). Counts x.0 x.1) (λ i. (p i, q i)) own,
      rw same (
          subst
            (λ (x : Bytes × Entry).
              old_bytes k (some e) + total rest ≡ old_bytes x.0 (some x.1) + total rest)
            (λ i. (p i, q i)) refl),
    )

Counted-erase :
    (key : Bytes) (values : List (Bytes × Entry)) → Counted values → Counted (erase key values)
unfolding erase
Counted-erase key [] c = tt
Counted-erase key ((k, e) ∷ rest) (own, c) = elim (Bool-cases (bytes_eq k key)) [
  | inl same ↦ rw same c
  | inr other ↦ rw other (own, Counted-erase key rest c)
]

abbrev Untouched : Store → Store → Type 0
Untouched s t =
    (t.values ≡ s.values)
    × (t.used_bytes ≡ s.used_bytes)
    × (t.max_dataset_bytes ≡ s.max_dataset_bytes)

invalidate-Untouched : (key : Bytes) (s : Store) → Untouched s (invalidate key s)
unfolding invalidate
invalidate-Untouched key s = flagged (find key s.watches)
  where
    flagged : (o : Option ℕ) → Untouched s (set_flag key s o)
    flagged none = (refl, refl, refl)
    flagged (some flag) = (refl, refl, refl)

-- A removal that does not panic, and leaves an accounted store less the entry that was there.
abbrev pub Removes : Bytes → Store → Type 0
Removes key s =
    (r : Option Entry) × (s' : Store) × (remove key s ≡ some (r, s'))
    × IsAccounted s'
    × (r ≡ find key s.values)
    × (s'.used_bytes + old_bytes key r ≡ s.used_bytes)
    × (s'.max_dataset_bytes ≡ s.max_dataset_bytes)

released_eq :
    (key : Bytes) (entry : Entry) (s : Store) (n : ℕ)
    → entry_bytes key entry.value ≡ some n
    → n ≤ s.used_bytes
    → released key entry s ≡ some (s.used_bytes - n)
unfolding released
released_eq key entry s n e le = simp e (ground arith)

old_bytes_eq :
    (key : Bytes) (entry : Entry) (n : ℕ)
    → entry_bytes key entry.value ≡ some n
    → old_bytes key (some entry) ≡ n
old_bytes_eq key entry n e = ap or_zero e

-- From an accounted store `remove` does not panic; it gives the entry that stood under the key, and
-- what is used falls by the size of this entry and stays the sum of the sizes of all.
pub remove-IsAccounted : (key : Bytes) (s : Store) → IsAccounted s → Removes key s
unfolding remove without
remove-IsAccounted key s v = elim (Option-cases (find key s.values)) [
  | inl e ↦ (none, s, ap (remove_entry key s) e, v, sym e, omega arith, refl)
  | inr (entry, e) ↦
      let (counts, sum) = find-Counts key s.values entry v.counted e in
      let (n, size) = counts in
      let (values, used, quota) = invalidate-Untouched key s in
      let own = old_bytes_eq key entry n size in
      let gone = released_eq key entry s n size (omega (arith, v.accounted)) in
      (
        some entry,
        without key entry (invalidate key s) (s.used_bytes - n),
        ap (remove_entry key s) e
            ∙ ap
                (λ (o : Option ℕ).
                  option_bind o
                    (λ used. some (some entry, without key entry (invalidate key s) used)))
                gone,
        record {
          counted =
              subst (λ (l : List (Bytes × Entry)). Counted (erase key l)) (sym values)
                (Counted-erase key s.values v.counted);
          accounted = omega (
            arith,
            v.accounted,
            sum,
            own,
            ap (λ (l : List (Bytes × Entry)). total (erase key l)) values,
          );
        },
        sym e,
        omega (arith, v.accounted, sum, own),
        quota,
      )
]

-- A replacement that does not panic; what is used stays within the quota or does not grow, and the
-- entry stands under its key.
abbrev pub Replaces : Bytes → Entry → Store → Type 0
Replaces key entry s =
    (s' : Store) × (install_entry key entry s ≡ some s')
    × IsAccounted s'
    × ((s'.used_bytes ≤ s.max_dataset_bytes) ⊎ (s'.used_bytes ≤ s.used_bytes))
    × (s'.max_dataset_bytes ≡ s.max_dataset_bytes)
    × ((e : Entry) × (find key s'.values ≡ some e)
        × (e.value ≡ entry.value)
        × (e.expires_at ≡ entry.expires_at))

proposed_eq :
    (key : Bytes) (value : Value) (s : Store) (new : ℕ)
    → entry_bytes key value ≡ some new
    → can_replace key value s ≡ true
    → (s.used_bytes - old_bytes key (find key s.values) + new ≤ usize_max)
      × ((s.used_bytes - old_bytes key (find key s.values) + new ≤ s.max_dataset_bytes)
          ⊎ (s.used_bytes - old_bytes key (find key s.values) + new ≤ s.used_bytes))
unfolding can_replace proposed
proposed_eq key value s new e h = checked (old_bytes key (find key s.values)) (
    ap
      (λ (o : Option ℕ). fits s (
        option_bind o (λ n.
          option_bind (checked_sub s.used_bytes (old_bytes key (find key s.values)))
            (λ m. checked_add m n))))
      (sym e)
    ∙ h)
  where
    checked :
        (old : ℕ)
        → fits s (option_bind (checked_sub s.used_bytes old) (λ m. checked_add m new)) ≡ true
        → (s.used_bytes - old + new ≤ usize_max)
          × ((s.used_bytes - old + new ≤ s.max_dataset_bytes)
              ⊎ (s.used_bytes - old + new ≤ s.used_bytes))
    checked old k = ground arith

replaceable-Counts :
    (key : Bytes) (value : Value) (s : Store)
    → can_replace key value s ≡ true
    → (n : ℕ) × (entry_bytes key value ≡ some n)
unfolding can_replace proposed
replaceable-Counts key value s h = elim (Option-cases (entry_bytes key value)) [
  | inr (n, e) ↦ (n, e)
  | inl e ↦ absurd (
      never (
        ap
          (λ (o : Option ℕ). fits s (
            option_bind o (λ n.
              option_bind (checked_sub s.used_bytes (old_bytes key (find key s.values)))
                (λ m. checked_add m n))))
          (sym e)
        ∙ h))
]
  where
    never : false ≡ true → ⊥
    never p = cc

charge_eq :
    (key : Bytes) (entry : Entry) (s : Store) (n : ℕ)
    → entry_bytes key entry.value ≡ some n
    → s.used_bytes + n ≤ usize_max
    → charge key entry s ≡ some (s.used_bytes + n)
unfolding charge
charge_eq key entry s n e le = simp e (ground arith)

find_first :
    (key : Bytes) (entry : Entry) (rest : List (Bytes × Entry))
    → find key ((key, entry) ∷ rest) ≡ some entry
unfolding find
find_first key entry rest = rw (bytes_eq_self key)

invalidate-IsAccounted : (key : Bytes) (s : Store) → IsAccounted s → IsAccounted (invalidate key s)
invalidate-IsAccounted key s v =
    let (values, used, quota) = invalidate-Untouched key s in
    record {
      counted = subst Counted (sym values) v.counted;
      accounted = used ∙ (v.accounted ∙ ap total (sym values));
    }

with_entry-IsAccounted :
    (key : Bytes) (entry : Entry) (s : Store) (n : ℕ)
    → IsAccounted s
    → entry_bytes key entry.value ≡ some n
    → IsAccounted (with_entry key entry s (s.used_bytes + n))
unfolding with_entry
with_entry-IsAccounted key entry s n v size = record {
  counted = ((n, size), v.counted);
  accounted = omega (arith, v.accounted, old_bytes_eq key entry n size);
}

-- On an accounted store, where `can_replace` allows a value, `install_entry` does not panic: the entry
-- then stands under its key with its deadline, what is used is again the sum of the sizes of all
-- entries, and it is within the quota or not more than before.
pub install_entry-IsAccounted :
    (key : Bytes) (entry : Entry) (s : Store)
    → IsAccounted s
    → can_replace key entry.value s ≡ true
    → Replaces key entry s
unfolding install_entry with_entry
install_entry-IsAccounted key entry s v allowed =
    let (n, size) = replaceable-Counts key entry.value s allowed in
    let (room, within) = proposed_eq key entry.value s n size allowed in
    let (values, used, quota) = invalidate-Untouched key s in
    let (r, s', removed, left, found, balance, kept) =
      remove-IsAccounted key (invalidate key s) (invalidate-IsAccounted key s v) in
    let old : old_bytes key r ≡ old_bytes key (find key s.values) =
      ap (old_bytes key) (found ∙ ap (find key) values) in
    let now_used : s'.used_bytes ≡ s.used_bytes - old_bytes key (find key s.values) =
      omega (arith, balance, used, old) in
    (
      with_entry key entry s' (s'.used_bytes + n),
      ap
            (λ (o : Option (Option Entry × Store)).
              option_bind o
                (λ r. option_bind (charge key entry r.1) (λ u. some (with_entry key entry r.1 u))))
            removed
          ∙ ap (λ (o : Option ℕ). option_bind o (λ u. some (with_entry key entry s' u)))
              (charge_eq key entry s' n size (omega (arith, now_used, room))),
      with_entry-IsAccounted key entry s' n left size,
      bounded s'.used_bytes (old_bytes key (find key s.values)) n now_used within,
      kept ∙ quota,
      (
        record entry { generation = next_generation s'.generation },
        find_first key _ s'.values,
        refl,
        refl,
      ),
    )
  where
    bounded :
        (used old n : ℕ)
        → used ≡ s.used_bytes - old
        → (s.used_bytes - old + n ≤ s.max_dataset_bytes) ⊎ (s.used_bytes - old + n ≤ s.used_bytes)
        → (used + n ≤ s.max_dataset_bytes) ⊎ (used + n ≤ s.used_bytes)
    bounded used old n e (inl h) = inl (omega (arith, e, h))
    bounded used old n e (inr h) = inr (omega (arith, e, h))
