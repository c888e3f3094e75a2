-- ===== src/Storage/Tally.antt =====
-- storage/routing_transaction.rs: the sum of what the owners count.
use sider.Prelude.{
  ℕ, suc, ◌+◌, ◌-◌, ◌^◌, ◌≤◌, ◌<◌, ◌≡◌, refl, ap, ◌∙◌, inl, inr, true, false, Bool-cases, some,
  List, [], ◌∷◌, ◌==◌, any, map, All, arith, ==_iff, ok,
}
use sider.Prelude.Int.{pos, leb_ℤ}
use sider.Prelude.Machine.{checked_add_i64}
use sider.Command.Reply.{integer}
use sider.Storage.Participants.{Ascending}
use sider.Storage.Plan.{sum_replies}
use sider.Storage.Grouping.{owned}
use sider.Storage.Serving.{World, update, served, served_by_owners}

abbrev pub total : List ℕ → ℕ
total [] = 0
total (n ∷ ns) = n + total ns

abbrev pub total_over : (ℕ → ℕ) → List ℕ → ℕ
total_over f [] = 0
total_over f (o ∷ os) = f o + total_over f os

total_over-same :
    (f g : ℕ → ℕ) (o from : ℕ) (os : List ℕ)
    → Ascending from os
    → o < from
    → ((p : ℕ) → (o == p) ≡ false → f p ≡ g p)
    → total_over f os ≡ total_over g os
total_over-same f g o from [] a h same = refl
total_over-same f g o from (p ∷ os) a h same = omega (
  arith,
  same p (ground (arith, a.0)),
  total_over-same f g o (suc p) os a.1 (omega (arith, a.0)) same,
)

total_over-step :
    (f g : ℕ → ℕ) (o n from : ℕ) (os : List ℕ)
    → Ascending from os
    → any (λ p. p == o) os ≡ true
    → f o ≡ n + g o
    → ((p : ℕ) → (o == p) ≡ false → f p ≡ g p)
    → total_over f os ≡ n + total_over g os
total_over-step f g o n from [] a h one same = cc
total_over-step f g o n from (p ∷ os) a h one same = elim (Bool-cases (p == o)) [
  | inl e ↦
      let here : p ≡ o = (==_iff p o).0 e in
      omega (
        arith,
        ap f here,
        ap g here,
        one,
        total_over-same f g o (suc p) os a.1 (omega (arith, here)) same,
      )
  | inr e ↦ omega (
    arith,
    same p (ground (arith, e)),
    total_over-step f g o n (suc p) os a.1 (rw e at h) one same,
  )
]

module _ {S A : Type 0} (step : S → A → S × ℕ) (owner_of : A → ℕ) where
  unfoldable pub share : World S → List A → ℕ → ℕ
  share w xs p = total (served step (w p) (owned owner_of p xs)).1

  -- The shares of the owners add up to what the items in their order add up to.
  pub total_over-share :
      (w : World S) (xs : List A) (os : List ℕ)
      → Ascending 0 os
      → All (λ x. any (λ p. p == owner_of x) os ≡ true) xs
      → total_over (share w xs) os ≡ total (served_by_owners step owner_of w xs).1
  unfolding share owned served served_by_owners
  total_over-share w [] os a h = none_over os
    where
      none_over : (l : List ℕ) → total_over (share w []) l ≡ 0
      none_over [] = refl
      none_over (o ∷ l) = omega (arith, none_over l)
  total_over-share w (x ∷ xs) os a (there, h) =
      let o = owner_of x in
      let one = step (w o) x in
      let w' = update w o one.0 in
      total_over-step (share w (x ∷ xs)) (share w' xs) o one.1 0 os a there
        (rw (share, owned, (==_iff o o).1 refl) refl) (λ p e. rw (share, owned, e) refl)
      ∙ ap (λ (n : ℕ). one.1 + n) (total_over-share w' xs os a h)

checked_add_pos :
    (a b : ℕ) → a + b ≤ 2 ^ 63 - 1 → checked_add_i64 (pos a) (pos b) ≡ some (pos (a + b))
unfolding checked_add_i64
checked_add_pos a b h = ground arith

pub sum_replies-total :
    (t : ℕ) (f : ℕ → ℕ) (os : List ℕ)
    → t + total_over f os ≤ 2 ^ 63 - 1
    → sum_replies (pos t) (map (λ p. integer (pos (f p))) os)
      ≡ ok (integer (pos (t + total_over f os)))
unfolding sum_replies
sum_replies-total t f [] h = ap (λ (n : ℕ). ok (integer (pos n))) (omega arith)
sum_replies-total t f (o ∷ os) h =
    let added : checked_add_i64 (pos t) (pos (f o)) ≡ some (pos (t + f o)) =
      checked_add_pos t (f o) (omega (arith, h)) in
    let positive : leb_ℤ (pos 0) (pos (f o)) ≡ true = ground arith in
    rw (positive, added)
      (sum_replies-total (t + f o) f os (omega (arith, h))
        ∙ ap (λ (n : ℕ). ok (integer (pos n))) (omega arith))
