-- ===== src/Storage/Grouping.antt =====
-- storage/routing_transaction.rs: the groups of a split, and their owners.
use sider.Prelude.{
  ℕ, suc, ◌≤◌, ◌<◌, ◌≡◌, refl, sym, ◌∙◌, inl, inr, true, Bool-cases, List, [], ◌∷◌, ◌++◌, ltb, ◌==◌,
  if◌then◌else◌, any, All, map, append-nil, append_assoc, arith, ==_iff,
}
use sider.Storage.Participants.{Ascending}
use sider.Storage.Plan.{Groups, push_group, group_of, group_items, owners}

module _ {A : Type 0} where
  pub group_of-absent :
      (from p : ℕ) (gs : Groups A) → Ascending from (owners gs) → p < from → group_of p gs ≡ []
  unfolding group_of
  group_of-absent from p [] a h = refl
  group_of-absent from p ((o, g) ∷ gs) a h = elim (Bool-cases (o == p)) [
    | inl e ↦ absurd (omega (arith, (==_iff o p).0 e, a.0))
    | inr e ↦ rw e (group_of-absent (suc o) p gs a.1 (omega (arith, a.0)))
  ]

  pub push_group-Ascending :
      (from o : ℕ) (x : A) (gs : Groups A)
      → Ascending from (owners gs)
      → from ≤ o
      → Ascending from (owners (push_group o x gs))
  unfolding push_group
  push_group-Ascending from o x [] a h = (h, tt)
  push_group-Ascending from o x ((p, g) ∷ gs) a h = elim (Bool-cases (p == o)) [
    | inl e ↦ rw e a
    | inr e ↦ elim (Bool-cases (ltb o p)) [
      | inl l ↦ rw (e, l) (h, (ground arith, a.1))
      | inr l ↦ rw (e, l) (a.0, push_group-Ascending (suc p) o x gs a.1 (ground arith))
    ]
  ]

  pub group_of-push :
      (from o : ℕ) (x : A) (p : ℕ) (gs : Groups A)
      → Ascending from (owners gs)
      → group_of p (push_group o x gs)
        ≡ (if o == p then group_of p gs ++ (x ∷ []) else group_of p gs)
  unfolding group_of push_group
  group_of-push from o x p [] a = refl
  group_of-push from o x p ((q, g) ∷ gs) a = elim (Bool-cases (q == o)) [
    | inl e ↦ ground (arith, e)
    | inr e ↦ elim (Bool-cases (ltb o q)) [
      | inl l ↦ ground (arith, e, l, λ (h : p < suc q). group_of-absent (suc q) p gs a.1 h)
      | inr l ↦ ground (arith, e, l, group_of-push (suc q) o x p gs a.1)
    ]
  ]

  pub push_group-owner :
      (o : ℕ) (x : A) (gs : Groups A) → any (λ p. p == o) (owners (push_group o x gs)) ≡ true
  unfolding push_group
  push_group-owner o x [] = ground arith
  push_group-owner o x ((p, g) ∷ gs) = ground (arith, push_group-owner o x gs)

  pub push_group-keeps :
      (o q : ℕ) (x : A) (gs : Groups A)
      → any (λ p. p == q) (owners gs) ≡ true
      → any (λ p. p == q) (owners (push_group o x gs)) ≡ true
  unfolding push_group
  push_group-keeps o q x [] h = cc
  push_group-keeps o q x ((p, g) ∷ gs) h = ground (arith, push_group-keeps o q x gs)

  -- A map in the order of its keys is determined by what it has for them.
  groups_under :
      (f : ℕ → List A) (from : ℕ) (gs : Groups A)
      → Ascending from (owners gs)
      → ((p : ℕ) → from ≤ p → f p ≡ group_of p gs)
      → map (λ p. (p, f p)) (owners gs) ≡ gs
  unfolding group_of
  groups_under f from [] a h = refl
  groups_under f from ((o, g) ∷ gs) a h =
      let here : f o ≡ g = h o a.0 ∙ (ground arith) in
      let there =
        groups_under f (suc o) gs a.1 (λ p le. h p (omega (arith, a.0)) ∙ (ground arith)) in
      λ i. (o, here i) ∷ there i

module _ {A : Type 0} (owner_of : A → ℕ) where
  -- The items of one owner, in their order.
  unfoldable pub owned : ℕ → List A → List A
  owned p [] = []
  owned p (x ∷ xs) = let rest = owned p xs in if owner_of x == p then x ∷ rest else rest

  pub group_items-Ascending :
      (xs : List A) (gs : Groups A)
      → Ascending 0 (owners gs)
      → Ascending 0 (owners (group_items owner_of xs gs).1)
  unfolding group_items
  group_items-Ascending [] gs a = a
  group_items-Ascending (x ∷ xs) gs a =
      group_items-Ascending xs (push_group (owner_of x) x gs)
        (push_group-Ascending 0 (owner_of x) x gs a (omega arith))

  -- The group of an owner has its items, in their order, after those that it had.
  pub group_of-group_items :
      (p : ℕ) (xs : List A) (gs : Groups A)
      → Ascending 0 (owners gs)
      → group_of p (group_items owner_of xs gs).1 ≡ group_of p gs ++ owned p xs
  unfolding group_items owned
  group_of-group_items p [] gs a = sym (append-nil (group_of p gs))
  group_of-group_items p (x ∷ xs) gs a =
      let o = owner_of x in
      let later =
        group_of-group_items p xs (push_group o x gs)
          (push_group-Ascending 0 o x gs a (omega arith)) in
      let pushed = group_of-push 0 o x p gs a in
      elim (Bool-cases (o == p)) [
        | inl e ↦ rw (e, later, pushed, e) (append_assoc (group_of p gs) (x ∷ []) (owned p xs))
        | inr e ↦ rw (e, later, pushed, e) refl
      ]

  pub group_items-keeps :
      (q : ℕ) (xs : List A) (gs : Groups A)
      → any (λ p. p == q) (owners gs) ≡ true
      → any (λ p. p == q) (owners (group_items owner_of xs gs).1) ≡ true
  unfolding group_items
  group_items-keeps q [] gs h = h
  group_items-keeps q (x ∷ xs) gs h =
      group_items-keeps q xs (push_group (owner_of x) x gs) (push_group-keeps (owner_of x) q x gs h)

  -- What the loop makes of the items: each owner with its items, in the order of the owners.
  pub grouped_eq :
      (xs : List A)
      → map (λ p. (p, owned p xs)) (owners (group_items owner_of xs []).1)
        ≡ (group_items owner_of xs []).1
  unfolding group_of
  grouped_eq xs =
      groups_under (λ p. owned p xs) 0 (group_items owner_of xs []).1
        (group_items-Ascending xs [] tt) (λ p le. sym (group_of-group_items p xs [] tt))

  -- Every item's owner has a group.
  pub group_items-owners :
      (xs : List A) (gs : Groups A)
      → All (λ x. any (λ p. p == owner_of x) (owners (group_items owner_of xs gs).1) ≡ true) xs
  unfolding group_items
  group_items-owners [] gs = tt
  group_items-owners (x ∷ xs) gs =
      let gs' = push_group (owner_of x) x gs in
      (
        group_items-keeps (owner_of x) xs gs' (push_group-owner (owner_of x) x gs),
        group_items-owners xs gs',
      )
