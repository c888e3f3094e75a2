-- ===== src/Persistence/RoundTrip.antt =====
-- persistence/format.rs: what is encoded is read back.
use sider.Prelude.{set_insert}
use sider.Prelude.{
  ℕ, ◌*◌, ◌/◌, ◌^◌, ◌≤◌, ◌<◌, ◌≡◌, refl, ap, Bool, false, Option, none, some, List, [], ◌∷◌, ◌++◌,
  length, length-append, ltb, All, Result, ok, and_then, arith,
}
use mathlib.Core.Path.{subst}
use sider.Prelude.Int.{ℤ}
use sider.Resp.Frame.{Bytes}
use sider.Command.Types.{Score}
use sider.Storage.Member.{bytes_lt}
use sider.Storage.Value.{Value}
use sider.Persistence.Words.{
  FormatError, corrupt, le, length-le, Reader, ◌>>=◌, return, blob, byte, Reads, word-Reads,
  blob-Reads, written_blob, i64_bits, IsI64, i64_value-bits, i64_bits-lt,
}
use sider.Persistence.Record.{
  written_all, written_scored, written_field, written_counted, written_value, written_expiry,
  value_tag,
}
use sider.Persistence.Sizes.{IsShort, FitsValue, length-written_blob}
use sider.Persistence.Reading.{
  insert_scored, scored_lt, field_lt, push_back, read_elements, counted, score_new, read_scored,
  some_score, read_field, read_value, read_expiry,
}
use sider.Persistence.Elements.{
  bind-Reads, Adds, read_elements-Reads, push_back-Adds, IsSorted, Before-nil, set_insert-Adds,
  IsNew, insert_scored-Adds, counted-Reads,
}

-- The values that the types of the source admit: the collections in their order, the scores such as
-- `Score::new` makes them, the deadlines in 64 bits.
abbrev pub IsScore : Score → Type 0
IsScore score = (score.bits < 2 ^ 64) × (score_new score.bits ≡ some score)

abbrev pub IsValue : Value → Type 0
IsValue (Value.sorted_set members) =
    IsSorted scored_lt members × IsNew [] members × All (λ x. IsScore x.0) members
IsValue (Value.set members) = IsSorted bytes_lt members
IsValue (Value.hash fields) = IsSorted field_lt fields
IsValue value = Unit {0}

abbrev pub IsExpiry : Option ℤ → Type 0
IsExpiry none = Unit {0}
IsExpiry (some deadline) = IsI64 deadline

-- Every element takes at least so many bytes.
least_bytes :
    {A : Type 0} (write : A → Bytes) (c : ℕ)
    → ((x : A) → c ≤ length (write x))
    → (xs : List A) → c * length xs ≤ length (written_all write xs)
unfolding written_all
least_bytes write c each [] = omega arith
least_bytes write c each (x ∷ xs) =
    grind
      (arith, each x, least_bytes write c each xs, length-append (write x) (written_all write xs))

scored-Reads :
    (x : Score × Bytes) → IsShort x.1 × IsScore x.0 → Reads read_scored (written_scored x) x
unfolding read_scored
scored-Reads (score, member) (short, (small, new)) =
    bind-Reads blob _ (written_blob member) (le 8 score.bits) member (score, member)
      (blob-Reads member short)
      (λ rest.
        rw (word-Reads 8 score.bits (omega (arith, small)) rest)
          (ap (λ (o : Option Score). (some_score o >>= (λ s. return (s, member))) rest) new))

field-Reads : (x : Bytes × Bytes) → IsShort x.0 × IsShort x.1 → Reads read_field (written_field x) x
unfolding read_field
field-Reads (field, value) (short, short') =
    bind-Reads blob _ (written_blob field) (written_blob value) field (field, value)
      (blob-Reads field short) (λ rest. rw (blob-Reads value short' rest) refl)

All-both :
    {A : Type 0} (P Q : A → Type 0) (xs : List A) → All P xs → All Q xs → All (λ x. P x × Q x) xs
All-both P Q [] p q = tt
All-both P Q (x ∷ xs) (p, ps) (q, qs) = ((p, q), All-both P Q xs ps qs)

pub expiry-Reads : (e : Option ℤ) → IsExpiry e → Reads read_expiry (written_expiry e) e
unfolding read_expiry byte
expiry-Reads none h rest = rw (word-Reads 8 0 (omega arith) rest) refl
expiry-Reads (some z) h rest =
    rw (word-Reads 8 (i64_bits z) (omega (arith, i64_bits-lt z h)) rest)
      (rw (i64_value-bits z h) refl)

abbrev then_return : {A : Type 0} → (List A → Value) → List A → Reader Value
then_return make xs = return (make xs)

-- A counted collection is read back.
collection-Reads :
    {A : Type 0} (least : ℕ) (e e' : FormatError) (read : Reader A) (write : A → Bytes)
    (P : A → Type 0) (add : A → List A → List A × Bool) (make : List A → Value)
    → ((x : A) → P x → Reads read (write x) x)
    → (xs : List A) → 0 < length xs
    → length xs < 2 ^ 32
    → ((rest : Bytes) → ltb (length (written_all write xs ++ rest) / least) (length xs) ≡ false)
    → All P xs
    → Adds add [] xs xs
    → Reads
        (counted least e (λ n. read_elements read add e' n []) >>= then_return make)
        (written_counted write xs)
        (make xs)
collection-Reads least e e' read write P add make each xs pos small room all adds rest =
    ap (λ (r : Result (List _ × Bytes) FormatError). and_then r (λ t. ok (make t.0, t.1)))
      (counted-Reads least e (λ n. read_elements read add e' n []) (length xs)
        (written_all write xs) xs pos small room
        (read_elements-Reads read write P add e' each xs [] xs all adds) rest)

room_for :
    {A : Type 0} (write : A → Bytes) (xs : List A) (c : ℕ) (rest : Bytes)
    → ((x : A) → c ≤ length (write x))
    → c * length xs ≤ length (written_all write xs ++ rest)
room_for write xs c rest each =
    omega (arith, least_bytes write c each xs, length-append (written_all write xs) rest)

blob_least : (x : Bytes) → 4 ≤ length (written_blob x)
blob_least x = omega (arith, length-written_blob x)

scored_least : (x : Score × Bytes) → 12 ≤ length (written_scored x)
scored_least x = omega (
  arith,
  length-written_blob x.1,
  length-append (written_blob x.1) (le 8 x.0.bits),
  length-le 8 x.0.bits,
)

field_least : (x : Bytes × Bytes) → 8 ≤ length (written_field x)
field_least x = omega (
  arith,
  length-written_blob x.0,
  length-written_blob x.1,
  length-append (written_blob x.0) (written_blob x.1),
)

fits_div :
    (l n : ℕ)
    → (4 * n ≤ l → ltb (l / 4) n ≡ false)
      × (8 * n ≤ l → ltb (l / 8) n ≡ false)
      × (12 * n ≤ l → ltb (l / 12) n ≡ false)
fits_div l n = (λ h. ground arith, λ h. ground arith, λ h. ground arith)

tag_eq : (a b : ℕ) → ◌≡◌ {A = Result ℕ FormatError} (ok a) (ok b) → a ≡ b
tag_eq a b h = cc

value_at_tag :
    (v : Value) (a tag : ℕ)
    → ◌≡◌ {A = Result ℕ FormatError} (ok a) (ok tag)
    → Reads (read_value a) (written_value v) v
    → Reads (read_value tag) (written_value v) v
value_at_tag v a tag h reads =
    subst (λ (t : ℕ). Reads (read_value t) (written_value v) v) (tag_eq a tag h) reads

-- A value is read back under its tag.
pub value-Reads :
    (v : Value) (tag : ℕ)
    → FitsValue v
    → IsValue v
    → value_tag v ≡ ok tag
    → Reads (read_value tag) (written_value v) v
unfolding read_value written_value
value-Reads (Value.memory collection) tag fits is h = elim fits [ ]
value-Reads (Value.string value) tag fits is h = value_at_tag (Value.string value) 1 tag h (λ rest.
    ap (λ (r : Result (Bytes × Bytes) FormatError). and_then r (λ t. ok (Value.string t.0, t.1)))
      (blob-Reads value fits rest))
value-Reads (Value.sorted_set members) tag (pos, small, all) (sorted, new, scores) h =
    value_at_tag (Value.sorted_set members) 6 tag h (
      collection-Reads 12 (corrupt "sorted member count") (corrupt "duplicate sorted-set member")
        read_scored written_scored (λ x. IsShort x.1 × IsScore x.0) insert_scored Value.sorted_set
        scored-Reads members pos small
        (λ rest.
          (fits_div (length (written_all written_scored members ++ rest)) (length members)).2
            (room_for written_scored members 12 rest scored_least))
        (All-both (λ x. IsShort x.1) (λ x. IsScore x.0) members all scores)
        (insert_scored-Adds [] members (Before-nil scored_lt members) sorted new))
value-Reads (Value.set members) tag (pos, small, all) sorted h =
    value_at_tag (Value.set members) 5 tag h (
      collection-Reads 4 (corrupt "member count") (corrupt "duplicate member") blob written_blob
        IsShort (set_insert bytes_lt) Value.set blob-Reads members pos small
        (λ rest.
          (fits_div (length (written_all written_blob members ++ rest)) (length members)).0
            (room_for written_blob members 4 rest blob_least))
        all (set_insert-Adds bytes_lt [] members (Before-nil bytes_lt members) sorted))
value-Reads (Value.list values) tag (pos, small, all) is h =
    value_at_tag (Value.list values) 4 tag h (
      collection-Reads 4 (corrupt "element count") (corrupt "duplicate member") blob written_blob
        IsShort push_back Value.list blob-Reads values pos small
        (λ rest.
          (fits_div (length (written_all written_blob values ++ rest)) (length values)).0
            (room_for written_blob values 4 rest blob_least))
        all (push_back-Adds [] values))
value-Reads (Value.hash fields) tag (pos, small, all) sorted h =
    value_at_tag (Value.hash fields) 3 tag h (
      collection-Reads 8 (corrupt "field count") (corrupt "duplicate field") read_field
        written_field (λ x. IsShort x.0 × IsShort x.1) (set_insert field_lt) Value.hash field-Reads
        fields pos small
        (λ rest.
          (fits_div (length (written_all written_field fields ++ rest)) (length fields)).1
            (room_for written_field fields 8 rest field_least))
        all (set_insert-Adds field_lt [] fields (Before-nil field_lt fields) sorted))
