-- ===== src/Persistence/Sizes.antt =====
-- persistence/format.rs: the size that `encode` computes is the number of bytes that it writes, and
-- every length fits its field.
use sider.Prelude.{
  ℕ, ◌+◌, ◌-◌, ◌^◌, ◌<◌, ◌≡◌, refl, inl, inr, ◌||◌, Bool-cases, List, [], ◌∷◌, length,
  length-append, ltb, ◌==◌, All, Result, ok, err, and_then, arith,
}
use sider.Resp.Frame.{Bytes}
use sider.Storage.Value.{Value}
use sider.Persistence.Words.{FormatError, le, length-le, written_blob}
use sider.Persistence.Record.{
  Sized, plus, blob_size, scored_size, element_size, field_size, fold_size, counted_size,
  value_size, written_all, written_scored, written_field, written_value, written_counted,
}

pub and_then-ok :
    {A B E : Type 0} {b : B} (m : Result A E) (f : A → Result B E)
    → and_then m f ≡ ok b
    → (a : A) × (m ≡ ok a) × (f a ≡ ok b)
and_then-ok (ok a) f h = (a, refl, h)
and_then-ok (err e) f h = cc

abbrev pub IsShort : Bytes → Type 0
IsShort bytes = length bytes < 2 ^ 32

pub length-written_blob : (v : Bytes) → length (written_blob v) ≡ length v + 4
length-written_blob v = omega (arith, length-append (le 4 (length v)) v, length-le 4 (length v))

pub plus_eq : (a b n : ℕ) → plus a b ≡ ok n → n ≡ a + b
plus_eq a b n h = ground arith

blob_size_eq : (v : Bytes) (n : ℕ) → blob_size v ≡ ok n → (n ≡ length (written_blob v)) × IsShort v
unfolding blob_size
blob_size_eq v n h = ground (arith, length-written_blob v)

-- What a step of a fold does: it adds the bytes of an element, which fits.
abbrev Steps : {A : Type 0} → (ℕ → A → Sized) → (A → Bytes) → (A → Type 0) → Type 0
Steps {A} step write P =
    (size : ℕ) (x : A) (n : ℕ) → step size x ≡ ok n → (n ≡ size + length (write x)) × P x

element_size-Steps : Steps element_size written_blob IsShort
element_size-Steps size x n h =
    let (m, one, added) = and_then-ok (blob_size x) (plus size) h in
    let (eq, short) = blob_size_eq x m one in (omega (arith, plus_eq size m n added, eq), short)

scored_size-Steps : Steps scored_size written_scored (λ x. IsShort x.1)
scored_size-Steps size x n h =
    let (m, one, more) =
      and_then-ok (blob_size x.1) (λ n. and_then (plus size n) (λ m. plus m 8)) h in
    let (k, two, added) = and_then-ok (plus size m) (λ m. plus m 8) more in
    let (eq, short) = blob_size_eq x.1 m one in
    (
      omega (
        arith,
        eq,
        plus_eq size m k two,
        plus_eq k 8 n added,
        length-append (written_blob x.1) (le 8 x.0.bits),
        length-le 8 x.0.bits,
      ),
      short,
    )

field_size-Steps : Steps field_size written_field (λ x. IsShort x.0 × IsShort x.1)
field_size-Steps size x n h =
    let (m, one, more) =
      and_then-ok (blob_size x.0)
        (λ n. and_then (plus size n) (λ m. and_then (blob_size x.1) (plus m))) h in
    let (k, two, rest) = and_then-ok (plus size m) (λ m. and_then (blob_size x.1) (plus m)) more in
    let (l, three, added) = and_then-ok (blob_size x.1) (plus k) rest in
    let (eq, short) = blob_size_eq x.0 m one in
    let (eq', short') = blob_size_eq x.1 l three in
    (
      omega (
        arith,
        eq,
        eq',
        plus_eq size m k two,
        plus_eq k l n added,
        length-append (written_blob x.0) (written_blob x.1),
      ),
      (short, short'),
    )

fold_size-Steps :
    {A : Type 0} (step : ℕ → A → Sized) (write : A → Bytes) (P : A → Type 0)
    → Steps step write P
    → (size : ℕ) (xs : List A) (n : ℕ) → fold_size step size xs ≡ ok n
    → (n ≡ size + length (written_all write xs)) × All P xs
unfolding fold_size written_all
fold_size-Steps step write P steps size [] n h = (ground arith, tt)
fold_size-Steps step write P steps size (x ∷ xs) n h =
    let (m, one, more) = and_then-ok (step size x) (λ n. fold_size step n xs) h in
    let (eq, own) = steps size x m one in
    let (rest, all) = fold_size-Steps step write P steps m xs n more in
    (omega (arith, eq, rest, length-append (write x) (written_all write xs)), (own, all))

abbrev pub IsCounted : {A : Type 0} → (A → Type 0) → List A → Type 0
IsCounted P xs = (0 < length xs) × (length xs < 2 ^ 32) × All P xs

counted_size-Steps :
    {A : Type 0} (e : FormatError) (step : ℕ → A → Sized) (write : A → Bytes) (P : A → Type 0)
    → Steps step write P
    → (xs : List A) (n : ℕ) → counted_size e step xs ≡ ok n
    → (n ≡ length (written_counted write xs)) × IsCounted P xs
counted_size-Steps e step write P steps xs n h =
    elim (Bool-cases (length xs == 0 || ltb (2 ^ 32 - 1) (length xs))) [
      | inl bad ↦ absurd (never (rw bad at h))
      | inr good ↦
          let (eq, all) = fold_size-Steps step write P steps 4 xs n (rw good at h) in
          (
            omega (
              arith,
              eq,
              length-append (le 4 (length xs)) (written_all write xs),
              length-le 4 (length xs),
            ),
            (ground (arith, good), ground (arith, good), all),
          )
    ]
  where
    never : ◌≡◌ {A = Sized} (err e) (ok n) → ⊥
    never p = cc

-- The lengths of a value fit their fields.
abbrev pub FitsValue : Value → Type 0
FitsValue (Value.memory collection) = ⊥
FitsValue (Value.string value) = IsShort value
FitsValue (Value.sorted_set members) = IsCounted (λ x. IsShort x.1) members
FitsValue (Value.set members) = IsCounted IsShort members
FitsValue (Value.list values) = IsCounted IsShort values
FitsValue (Value.hash fields) = IsCounted (λ x. IsShort x.0 × IsShort x.1) fields

pub value_size-FitsValue :
    (v : Value) (n : ℕ) → value_size v ≡ ok n → (n ≡ length (written_value v)) × FitsValue v
unfolding value_size written_value
value_size-FitsValue (Value.memory collection) n h = cc
value_size-FitsValue (Value.string value) n h = blob_size_eq value n h
value_size-FitsValue (Value.sorted_set members) n h =
    counted_size-Steps _ scored_size written_scored (λ x. IsShort x.1) scored_size-Steps members n h
value_size-FitsValue (Value.set members) n h =
    counted_size-Steps _ element_size written_blob IsShort element_size-Steps members n h
value_size-FitsValue (Value.list values) n h =
    counted_size-Steps _ element_size written_blob IsShort element_size-Steps values n h
value_size-FitsValue (Value.hash fields) n h =
    counted_size-Steps _ field_size written_field (λ x. IsShort x.0 × IsShort x.1) field_size-Steps
      fields n h
