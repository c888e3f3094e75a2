-- ===== src/Persistence/HeaderFields.antt =====
-- persistence/format.rs: the fields of a header that is written.
use sider.Prelude.{
  ℕ, zero, suc, ◌+◌, ◌^◌, ◌<◌, ◌≡◌, ap, sym, ◌∙◌, [], ◌∷◌, ◌++◌, length, length-append,
  append_assoc, take, drop, take-append_self, arith,
}
use sider.Resp.Frame.{Bytes}
use sider.Persistence.Words.{le, from_le, from_le-le, length-le}
use sider.Persistence.Layout.{DurableLayout}
use sider.Persistence.Header.{layout_head, magic, field}

pub drop_past : (a b : Bytes) (n k : ℕ) → n ≡ length a + k → drop n (a ++ b) ≡ drop k b
drop_past [] b n k h = ap (λ (m : ℕ). drop m b) (omega (arith, h))
drop_past (x ∷ a) b zero k h = absurd (omega (arith, h))
drop_past (x ∷ a) b (suc n) k h = drop_past a b n k (omega (arith, h))

-- Past a number of `w` bytes.
pub drop_word : (w n k : ℕ) (b : Bytes) → drop (w + k) (le w n ++ b) ≡ drop k b
drop_word w n k b = drop_past (le w n) b (w + k) k (omega (arith, length-le w n))

pub take_word : (w n : ℕ) (b : Bytes) → take w (le w n ++ b) ≡ le w n
take_word w n b =
    ap (λ (m : ℕ). take m (le w n ++ b)) (sym (length-le w n)) ∙ take-append_self (le w n) b

pub read_word : (w n : ℕ) (b : Bytes) → n < 256 ^ w → from_le (take w (le w n ++ b)) ≡ n
read_word w n b h = ap from_le (take_word w n b) ∙ from_le-le w n h

-- The fixed part of a header, before its tail.
module _ (format sequence : ℕ) (layout : DurableLayout) (tail : Bytes) where
  abbrev pub head : Bytes
  head =
      magic
      ++ (le 4 format
          ++ (le 8 sequence ++ (le 4 layout.shard_count ++ (le 4 layout.routing ++ tail))))

  pub head_eq : layout_head format sequence layout ++ tail ≡ head
  head_eq = simp append_assoc

  pub field_format : format < 2 ^ 32 → field 8 4 head ≡ format
  field_format h = read_word 4 format _ (omega (arith, h))

  pub field_sequence : sequence < 2 ^ 64 → field 12 8 head ≡ sequence
  field_sequence h =
      ap (λ (l : Bytes). from_le (take 8 l)) (drop_word 4 format 0 _)
      ∙ read_word 8 sequence _ (omega (arith, h))

  pub field_count : layout.shard_count < 2 ^ 32 → field 20 4 head ≡ layout.shard_count
  field_count h =
      ap (λ (l : Bytes). from_le (take 4 l)) (drop_word 4 format 8 _ ∙ drop_word 8 sequence 0 _)
      ∙ read_word 4 layout.shard_count _ (omega (arith, h))

  pub field_routing : layout.routing < 2 ^ 32 → field 24 4 head ≡ layout.routing
  field_routing h =
      ap (λ (l : Bytes). from_le (take 4 l))
        (drop_word 4 format 12 _ ∙ (drop_word 8 sequence 4 _ ∙ drop_word 4 layout.shard_count 0 _))
      ∙ read_word 4 layout.routing _ (omega (arith, h))

  -- The tail starts at byte 28.
  pub head_tail : (n k : ℕ) → n ≡ 28 + k → drop n head ≡ drop k tail
  head_tail n k h =
      drop_past magic _ n (20 + k) (omega (arith, h))
      ∙ (drop_past (le 4 format) _ (20 + k) (16 + k) (omega (arith, length-le 4 format))
          ∙ (drop_past (le 8 sequence) _ (16 + k) (8 + k) (omega (arith, length-le 8 sequence))
              ∙ (drop_past (le 4 layout.shard_count) _ (8 + k) (4 + k)
                    (omega (arith, length-le 4 layout.shard_count))
                  ∙ drop_past (le 4 layout.routing) tail (4 + k) k
                      (omega (arith, length-le 4 layout.routing)))))

  pub length-head : length head ≡ 28 + length tail
  length-head = omega (
    arith,
    length-append (le 4 format)
        (le 8 sequence ++ (le 4 layout.shard_count ++ (le 4 layout.routing ++ tail))),
    length-append (le 8 sequence) (le 4 layout.shard_count ++ (le 4 layout.routing ++ tail)),
    length-append (le 4 layout.shard_count) (le 4 layout.routing ++ tail),
    length-append (le 4 layout.routing) tail,
    length-le 4 format,
    length-le 8 sequence,
    length-le 4 layout.shard_count,
    length-le 4 layout.routing,
  )

-- Bytes after the header belong to its tail.
pub head-append :
    (f s : ℕ) (l : DurableLayout) (tail more : Bytes)
    → head f s l tail ++ more ≡ head f s l (tail ++ more)
head-append f s l tail more = simp append_assoc
