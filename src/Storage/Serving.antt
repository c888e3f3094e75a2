-- ===== src/Storage/Serving.antt =====
-- storage/routing_transaction.rs: shards that serve a command item by item, and the execution of its
-- fragments at their owners. Storage that no plan mentions is any function from owners to states.
use sider.Prelude.{
  ℕ, suc, ◌≤◌, ◌≡◌, refl, ap, sym, ◌∙◌, inl, inr, Bool-cases, List, [], ◌∷◌, length, ◌==◌,
  if◌then◌else◌, map, All, arith, ==_iff,
}
use sider.Command.Types.{Command}
use sider.Command.Reply.{Reply}
use sider.Storage.Participants.{Ascending}
use sider.Storage.Plan.{Groups, group_of, owners, Fragment, fragments_of}
use sider.Storage.Grouping.{owned, group_of-absent}

abbrev pub World : Type 0 → Type 0
World S = ℕ → S

abbrev pub update : {S : Type 0} → World S → ℕ → S → World S
update w o s p = if o == p then s else w p

module _ {S A V : Type 0} (step : S → A → S × V) where
  -- One shard serves items in their order.
  unfoldable pub served : S → List A → S × List V
  served s [] = (s, [])
  served s (x ∷ xs) = let one = step s x in let rest = served one.0 xs in (rest.0, one.1 ∷ rest.1)

  -- The items in their order, each served by its owner.
  unfoldable pub served_by_owners : (A → ℕ) → World S → List A → World S × List V
  served_by_owners owner_of w [] = (w, [])
  served_by_owners owner_of w (x ∷ xs) =
      let o = owner_of x in
      let one = step (w o) x in
      let rest = served_by_owners owner_of (update w o one.0) xs in (rest.0, one.1 ∷ rest.1)

-- The fragments are executed at their owners, one after the other.
unfoldable pub run_fragments :
    {S : Type 0} → (S → Command → S × Reply) → World S → List Fragment → World S × List Reply
run_fragments execute w [] = (w, [])
run_fragments execute w (f ∷ fs) =
    let one = execute (w f.owner) f.command in
    let rest = run_fragments execute (update w f.owner one.0) fs in (rest.0, one.1 ∷ rest.1)

module _ {S A V : Type 0} (step : S → A → S × V) (owner_of : A → ℕ) where
  -- An owner's items leave its state as if it had served nothing but them.
  pub served_by_owners-world :
      (w : World S) (xs : List A) (p : ℕ)
      → (served_by_owners step owner_of w xs).0 p ≡ (served step (w p) (owned owner_of p xs)).0
  unfolding served_by_owners served owned
  served_by_owners-world w [] p = refl
  served_by_owners-world w (x ∷ xs) p =
      let rest = served_by_owners-world (update w (owner_of x) (step (w (owner_of x)) x).0) xs p in
      elim (Bool-cases (owner_of x == p)) [
        | inl e ↦
            rest
            ∙ (rw e (
                ap (λ (q : ℕ). (served step (step (w q) x).0 (owned owner_of p xs)).0)
                  ((==_iff (owner_of x) p).0 e)))
        | inr e ↦ rest ∙ (rw e)
      ]

module _ {S A : Type 0} (execute : S → Command → S × Reply) (command : List A → Command) where
  pub run_fragments-replies :
      (from : ℕ) (w v : World S) (gs : Groups A)
      → Ascending from (owners gs)
      → ((p : ℕ) → from ≤ p → v p ≡ w p)
      → (run_fragments execute v (fragments_of command gs)).1
        ≡ map (λ g. (execute (w g.0) (command g.1)).1) gs
  unfolding run_fragments
  run_fragments-replies from w v [] a h = refl
  run_fragments-replies from w v ((o, g) ∷ gs) a h =
      let there =
        run_fragments-replies (suc o) w (update v o (execute (v o) (command g)).0) gs a.1
          (λ p le. ground (arith, h p (omega (arith, a.0)))) in
      λ i. (execute (h o a.0 i) (command g)).1 ∷ there i

  pub run_fragments-world :
      (from : ℕ) (w : World S) (gs : Groups A) (p : ℕ)
      → Ascending from (owners gs)
      → ((s : S) → (execute s (command [])).0 ≡ s)
      → (run_fragments execute w (fragments_of command gs)).0 p
        ≡ (execute (w p) (command (group_of p gs))).0
  unfolding run_fragments group_of
  run_fragments-world from w [] p a h = sym (h (w p))
  run_fragments-world from w ((o, g) ∷ gs) p a h =
      let rest =
        run_fragments-world (suc o) (update w o (execute (w o) (command g)).0) gs p a.1 h in
      elim (Bool-cases (o == p)) [
        | inr e ↦ rest ∙ (rw e)
        | inl e ↦
            let same : o ≡ p = (==_iff o p).0 e in
            rest
            ∙ (rw (e, group_of-absent (suc o) p gs a.1 (omega (arith, same)))
                (h (execute (w o) (command g)).0
                  ∙ ap (λ (q : ℕ). (execute (w q) (command g)).0) same))
      ]

module _ {S A V : Type 0} (step : S → A → S × V) where
  pub length-served : (s : S) (xs : List A) → length (served step s xs).1 ≡ length xs
  unfolding served
  length-served s [] = refl
  length-served s (x ∷ xs) = omega (arith, length-served (step s x).0 xs)

  -- Items of one owner are served as one shard serves them.
  pub served_by_owners-single :
      (owner_of : A → ℕ) (o : ℕ) (w : World S) (xs : List A)
      → All (λ x. owner_of x ≡ o) xs
      → (served_by_owners step owner_of w xs).1 ≡ (served step (w o) xs).1
  unfolding served served_by_owners
  served_by_owners-single owner_of o w [] h = refl
  served_by_owners-single owner_of o w (x ∷ xs) (q, h) =
      let w' = update w (owner_of x) (step (w (owner_of x)) x).0 in
      let there = served_by_owners-single owner_of o w' xs h in
      let now : w' o ≡ (step (w o) x).0 =
        rw ((==_iff (owner_of x) o).1 q) (ap (λ (p : ℕ). (step (w p) x).0) q) in
      λ i. (step (w (q i)) x).1 ∷ (there ∙ ap (λ (s : S). (served step s xs).1) now) i

-- Where one owner has every item, its items are all, and no other has any.
pub owned-single :
    {A : Type 0} (owner_of : A → ℕ) (o p : ℕ) (xs : List A)
    → All (λ x. owner_of x ≡ o) xs
    → owned owner_of p xs ≡ (if o == p then xs else [])
unfolding owned
owned-single owner_of o p [] h = ground arith
owned-single owner_of o p (x ∷ xs) (q, h) = ground (arith, q, owned-single owner_of o p xs h)

pub served-single :
    {S A V : Type 0} (step : S → A → S × V) (owner_of : A → ℕ) (w : World S) (o p : ℕ) (xs : List A)
    → All (λ x. owner_of x ≡ o) xs
    → update w o (served step (w o) xs).0 p ≡ (served step (w p) (owned owner_of p xs)).0
unfolding served
served-single step owner_of w o p xs h = elim (Bool-cases (o == p)) [
  | inl e ↦
      rw (owned-single owner_of o p xs h, e)
        (ap (λ (q : ℕ). (served step (w q) xs).0) ((==_iff o p).0 e))
  | inr e ↦ rw (owned-single owner_of o p xs h, e) refl
]
