-- ===== src/Persistence/Elements.antt =====
-- persistence/format.rs: the loops of the reader give back the collections that were written.
use sider.Prelude.{set_insert}
use sider.Prelude.{
  ℕ, ◌/◌, ◌^◌, ◌<◌, ◌≡◌, refl, ap, sym, ◌∙◌, Bool, true, false, List, [], ◌∷◌, ◌++◌, length,
  append_assoc, append-nil, ltb, ◌==◌, All, Result, ok, and_then, arith,
}
use mathlib.Core.Path.{subst}
use sider.Resp.Frame.{Bytes}
use sider.Command.Types.{Score}
use sider.Persistence.Words.{FormatError, le, Reader, ◌>>=◌, word, Reads, word-Reads}
use sider.Persistence.Record.{written_all}
use sider.Persistence.Reading.{
  insert_scored, has_member, scored_lt, push_back, if_new, read_elements, counted,
}

pub bind-Reads :
    {A B : Type 0} (p : Reader A) (f : A → Reader B) (w w' : Bytes) (a : A) (b : B)
    → Reads p w a
    → Reads (f a) w' b
    → Reads (p >>= f) (w ++ w') b
bind-Reads p f w w' a b one two rest =
    ap (λ (bytes : Bytes). (p >>= f) bytes) (append_assoc w w' rest)
    ∙ (ap (λ (r : Result (_ × Bytes) FormatError). and_then r (λ t. f t.0 t.1)) (one (w' ++ rest))
        ∙ two rest)

-- Adding the elements one after the other, each of them new.
abbrev pub Adds : {A : Type 0} → (A → List A → List A × Bool) → List A → List A → List A → Type 0
Adds add acc [] out = acc ≡ out
Adds {A} add acc (x ∷ xs) out = (ys : List A) × (add x acc ≡ (ys, true)) × Adds add ys xs out

pub read_elements-Reads :
    {A : Type 0} (read : Reader A) (write : A → Bytes) (P : A → Type 0)
    (add : A → List A → List A × Bool) (e : FormatError)
    → ((x : A) → P x → Reads read (write x) x)
    → (xs acc out : List A) → All P xs
    → Adds add acc xs out
    → Reads (read_elements read add e (length xs) acc) (written_all write xs) out
unfolding read_elements written_all
read_elements-Reads read write P add e each [] acc out all adds rest =
    ap (λ (l : List _). ok (l, rest)) adds
read_elements-Reads read write P add e each (x ∷ xs) acc out (own, all) (ys, new, adds) rest =
    bind-Reads read (λ x. if_new e (add x acc) (λ ys. read_elements read add e (length xs) ys))
      (write x) (written_all write xs) x out (each x own)
      (λ rest.
        ap
          (λ (r : List _ × Bool).
            if_new e r (λ ys. read_elements read add e (length xs) ys)
              (written_all write xs ++ rest))
          new
        ∙ read_elements-Reads read write P add e each xs ys out all adds rest)
      rest

pub push_back-Adds : {A : Type 0} (acc xs : List A) → Adds push_back acc xs (acc ++ xs)
unfolding push_back
push_back-Adds acc [] = sym (append-nil acc)
push_back-Adds acc (x ∷ xs) = (
  acc ++ (x ∷ []),
  refl,
  subst (λ (l : List _). Adds push_back (acc ++ (x ∷ [])) xs l) (append_assoc acc (x ∷ []) xs)
      (push_back-Adds (acc ++ (x ∷ [])) xs),
)

module _ {A : Type 0} (lt : A → A → Bool) where
  -- Each element stands before all that follow.
  unfoldable pub IsSorted : List A → Type 0
  IsSorted [] = Unit {0}
  IsSorted (x ∷ xs) = All (λ y. lt x y ≡ true) xs × IsSorted xs

  abbrev pub Before : List A → List A → Type 0
  Before acc xs = All (λ x. All (λ y. lt y x ≡ true) acc) xs

  set_insert_last :
      (x : A) (acc : List A)
      → All (λ y. lt y x ≡ true) acc
      → set_insert lt x acc ≡ (acc ++ (x ∷ []), true)
  unfolding set_insert
  set_insert_last x [] h = refl
  set_insert_last x (y ∷ acc) (own, h) = rw (own, set_insert_last x acc h) refl

  All-snoc : (P : A → Type 0) (acc : List A) (x : A) → All P acc → P x → All P (acc ++ (x ∷ []))
  All-snoc P [] x h p = (p, tt)
  All-snoc P (y ∷ acc) x (q, h) p = (q, All-snoc P acc x h p)

  Before-snoc :
      (acc : List A) (x : A) (xs : List A)
      → Before acc xs
      → All (λ y. lt x y ≡ true) xs
      → Before (acc ++ (x ∷ [])) xs
  Before-snoc acc x [] h k = tt
  Before-snoc acc x (y ∷ xs) (b, h) (q, k) =
      (All-snoc (λ z. lt z y ≡ true) acc x b q, Before-snoc acc x xs h k)

  pub set_insert-Adds :
      (acc xs : List A) → Before acc xs → IsSorted xs → Adds (set_insert lt) acc xs (acc ++ xs)
  unfolding IsSorted
  set_insert-Adds acc [] b s = sym (append-nil acc)
  set_insert-Adds acc (x ∷ xs) (own, b) (above, s) = (
    acc ++ (x ∷ []),
    set_insert_last x acc own,
    subst (λ (l : List A). Adds (set_insert lt) (acc ++ (x ∷ [])) xs l)
        (append_assoc acc (x ∷ []) xs)
        (set_insert-Adds (acc ++ (x ∷ [])) xs (Before-snoc acc x xs b above) s),
  )

  pub Before-nil : (xs : List A) → Before [] xs
  Before-nil [] = tt
  Before-nil (x ∷ xs) = (tt, Before-nil xs)

-- No member of a sorted set stands twice.
unfoldable pub IsNew : List (Score × Bytes) → List (Score × Bytes) → Type 0
IsNew acc [] = Unit {0}
IsNew acc (x ∷ xs) = (has_member x.1 acc ≡ false) × IsNew (acc ++ (x ∷ [])) xs

pub insert_scored-Adds :
    (acc xs : List (Score × Bytes))
    → Before scored_lt acc xs
    → IsSorted scored_lt xs
    → IsNew acc xs
    → Adds insert_scored acc xs (acc ++ xs)
unfolding IsSorted IsNew insert_scored
insert_scored-Adds acc [] b s n = sym (append-nil acc)
insert_scored-Adds acc (x ∷ xs) (own, b) (above, s) (new, n) = (
  acc ++ (x ∷ []),
  rw (new, set_insert_last scored_lt x acc own) refl,
  subst (λ (l : List (Score × Bytes)). Adds insert_scored (acc ++ (x ∷ [])) xs l)
      (append_assoc acc (x ∷ []) xs)
      (insert_scored-Adds (acc ++ (x ∷ [])) xs (Before-snoc scored_lt acc x xs b above) s n),
)

-- A count that the bytes which follow can hold.
pub counted-Reads :
    {A : Type 0} (least : ℕ) (e : FormatError) (k : ℕ → Reader A) (n : ℕ) (w : Bytes) (a : A)
    → 0 < n
    → n < 2 ^ 32
    → ((rest : Bytes) → ltb (length (w ++ rest) / least) n ≡ false)
    → Reads (k n) w a
    → Reads (counted least e k) (le 4 n ++ w) a
counted-Reads least e k n w a pos small room reads =
    bind-Reads (word 4) _ (le 4 n) w n a (word-Reads 4 n (omega (arith, small))) (λ rest.
      let zero_no : (n == 0) ≡ false = ground (arith, pos) in rw (zero_no, room rest) (reads rest))
