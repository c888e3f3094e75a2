-- ===== src/Storage/Assembly.antt =====
-- storage/routing_transaction.rs: the rows of the fragments, read in the order of the keys.
use sider.Prelude.{
  ℕ, zero, suc, ◌<◌, ◌≡◌, refl, ap, sym, ◌∙◌, inl, inr, true, false, Bool-cases, Option, none, some,
  List, [], ◌∷◌, ◌++◌, length, length-append, ◌==◌, any, map, option_bind, arith, ==_iff,
}
use sider.Command.Reply.{Reply}
use sider.Storage.Participants.{Ascending}
use sider.Storage.Plan.{
  Groups, Row, push_group, group_of, group_items, owners, index_of, locate, take_local, take_at,
  take_all, any_left, row_is_left,
}
use sider.Storage.Grouping.{
  owned, push_group-Ascending, group_items-Ascending, push_group-owner, group_of-push,
  group_items-keeps,
}
use sider.Storage.Serving.{World, update, served, served_by_owners}

abbrev pub nones : ℕ → Row
nones zero = []
nones (suc n) = none ∷ nones n

-- A row of which `n` values were taken, and these are left.
abbrev pub row : ℕ → List Reply → Row
row n left = nones n ++ map some left

take_local-row :
    (n : ℕ) (v : Reply) (left : List Reply)
    → take_local (row n (v ∷ left)) n ≡ some (v, row (suc n) left)
unfolding take_local
take_local-row zero v left = refl
take_local-row (suc n) v left = rw (take_local-row n v left)

row_is_left-nones : (n : ℕ) → row_is_left (row n []) ≡ false
row_is_left-nones zero = refl
row_is_left-nones (suc n) = row_is_left-nones n

abbrev pub rows : (ℕ → ℕ) → (ℕ → List Reply) → List ℕ → List Row
rows taken left os = map (λ p. row (taken p) (left p)) os

any_left-rows :
    (taken : ℕ → ℕ) (left : ℕ → List Reply) (os : List ℕ)
    → ((p : ℕ) → left p ≡ [])
    → any_left (rows taken left os) ≡ false
unfolding any_left
any_left-rows taken left [] h = refl
any_left-rows taken left (o ∷ os) h =
    rw (h o, row_is_left-nones (taken o)) (any_left-rows taken left os h)

-- One owner gives its next value, and no other changes.
module _ (o : ℕ) (v : Reply) (taken taken' : ℕ → ℕ) (left left' : ℕ → List Reply)
    (same : (p : ℕ) → (o == p) ≡ false → (taken p ≡ taken' p) × (left p ≡ left' p))
    (counts : taken' o ≡ suc (taken o)) (gives : left o ≡ v ∷ left' o) where
  rows-same :
      (from : ℕ) (os : List ℕ)
      → Ascending from os
      → o < from
      → rows taken left os ≡ rows taken' left' os
  rows-same from [] a h = refl
  rows-same from (p ∷ os) a h =
      let (t, l) = same p (ground (arith, a.0)) in
      let rest = rows-same (suc p) os a.1 (omega (arith, a.0)) in λ i. row (t i) (l i) ∷ rest i

  take_at-rows :
      (from : ℕ) (os : List ℕ)
      → Ascending from os
      → any (λ p. p == o) os ≡ true
      → (i : ℕ) × (index_of o os ≡ some i)
        × (take_at (rows taken left os) i (taken o) ≡ some (v, rows taken' left' os))
  unfolding index_of take_at
  take_at-rows from [] a h = cc
  take_at-rows from (p ∷ os) a h = elim (Bool-cases (p == o)) [
    | inl e ↦
        let here : p ≡ o = (==_iff p o).0 e in
        let first : row (taken p) (left p) ≡ row (taken o) (v ∷ left' o) =
          λ i. row (taken (here i)) ((ap left here ∙ gives) i) in
        let last : row (suc (taken o)) (left' o) ≡ row (taken' p) (left' p) =
          λ i. row ((sym counts ∙ ap taken' (sym here)) i) (left' (sym here i)) in
        (
          0,
          rw e,
          ap
                (λ (r : Row).
                  option_bind (take_local r (taken o)) (λ t. some (t.0, t.1 ∷ rows taken left os)))
                first
              ∙ (ap
                    (λ (t : Option (Reply × Row)).
                      option_bind t (λ t. some (t.0, t.1 ∷ rows taken left os)))
                    (take_local-row (taken o) v (left' o))
                  ∙ (λ i. some (v, last i ∷ rows-same (suc p) os a.1 (omega (arith, here)) i))),
        )
    | inr e ↦
        let (i, at, gone) = take_at-rows (suc p) os a.1 (rw e at h) in
        let (t, l) = same p (ground (arith, e)) in
        (suc i, rw (e, at), rw gone (λ j. some (v, row (t j) (l j) ∷ rows taken' left' os)))
  ]

module _ {S A : Type 0} (step : S → A → S × Reply) (owner_of : A → ℕ) where
  abbrev pub left_of : World S → List A → ℕ → List Reply
  left_of w xs p = (served step (w p) (owned owner_of p xs)).1

  abbrev pub sizes : Groups A → ℕ → ℕ
  sizes gs p = length (group_of p gs)

  -- The positions are found, the values come in the order of the items, and none is left.
  unfoldable pub Orders : World S → List A → Groups A → Type 0
  Orders w xs gs =
      (positions : List (ℕ × ℕ)) × (left : List Row) × (locate
          (owners (group_items owner_of xs gs).1) (group_items owner_of xs gs).0
        ≡ some positions)
      × (take_all positions (rows (sizes gs) (left_of w xs) (owners (group_items owner_of xs gs).1))
          ≡ some ((served_by_owners step owner_of w xs).1, left))
      × (any_left left ≡ false)

  module _ (w : World S) (x : A) (xs : List A) (gs : Groups A) (a : Ascending 0 (owners gs)) where
    others :
        (p : ℕ)
        → (owner_of x == p) ≡ false
        → (sizes gs p ≡ sizes (push_group (owner_of x) x gs) p)
          × (left_of w (x ∷ xs) p
              ≡ left_of (update w (owner_of x) (step (w (owner_of x)) x).0) xs p)
    unfolding owned
    others p e = (
      sym (ap length (group_of-push 0 (owner_of x) x p gs a ∙ (rw e))),
      rw (left_of, owned, e) refl,
    )

    counts_one : sizes (push_group (owner_of x) x gs) (owner_of x) ≡ suc (sizes gs (owner_of x))
    counts_one =
        ap length (group_of-push 0 (owner_of x) x (owner_of x) gs a ∙ ground arith)
        ∙ (length-append (group_of (owner_of x) gs) (x ∷ []) ∙ omega arith)

    gives_one :
        left_of w (x ∷ xs) (owner_of x)
        ≡ (step (w (owner_of x)) x).1
          ∷ left_of (update w (owner_of x) (step (w (owner_of x)) x).0) xs (owner_of x)
    unfolding owned served
    gives_one = rw (left_of, owned, (==_iff (owner_of x) (owner_of x)).1 refl) refl

  pub take_all-Orders :
      (w : World S) (xs : List A) (gs : Groups A) → Ascending 0 (owners gs) → Orders w xs gs
  unfolding Orders owned served group_items locate take_all served_by_owners
  take_all-Orders w [] gs a = (
    [],
    rows (sizes gs) (left_of w []) (owners gs),
    refl,
    refl,
    any_left-rows (sizes gs) (left_of w []) (owners gs) (λ p. refl),
  )
  take_all-Orders w (x ∷ xs) gs a =
      let o = owner_of x in
      let gs' = push_group o x gs in
      let w' = update w o (step (w o) x).0 in
      let a' = push_group-Ascending 0 o x gs a (omega arith) in
      let os = owners (group_items owner_of xs gs').1 in
      let (positions, left, found, taken, nothing) = take_all-Orders w' xs gs' a' in
      let (i, at, gone) =
        take_at-rows o (step (w o) x).1 (sizes gs) (sizes gs') (left_of w (x ∷ xs)) (left_of w' xs)
          (others w x xs gs a) (counts_one w x xs gs a) (gives_one w x xs gs a) 0 os
          (group_items-Ascending owner_of xs gs' a')
          (group_items-keeps owner_of o xs gs' (push_group-owner o x gs)) in
      (
        (i, sizes gs o) ∷ positions,
        left,
        rw (at, found),
        ap
              (λ (t : Option (Reply × List Row)).
                option_bind t
                  (λ t. option_bind (take_all positions t.1) (λ u. some (t.0 ∷ u.0, u.1))))
              gone
            ∙ ap
                (λ (u : Option (List Reply × List Row)).
                  option_bind u (λ u. some ((step (w o) x).1 ∷ u.0, u.1)))
                taken,
        nothing,
      )
