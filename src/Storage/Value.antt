-- ===== src/Storage/Value.antt =====
-- storage/value.rs: the typed values and their logical size. The collections are the lists of their
-- entries; a memory collection keeps its own count (storage/memory.rs).
use sider.Prelude.{ℕ, Option, none, some, List, [], ◌∷◌, length, option_bind}
use sider.Prelude.Machine.{checked_add}
use sider.Resp.Frame.{Bytes}
use sider.Command.Types.{Score}
use sider.Storage.Memory.{Descriptor, Member}

pub record Collection : Type 0 where
  pub descriptor : Descriptor
  pub members : List (Bytes × Member)
  pub logical_bytes : ℕ
  pub encoded_bytes : ℕ

pub data Value : Type 0 where
  string : Bytes → Value
  hash : List (Bytes × Bytes) → Value
  list set : List Bytes → Value
  sorted_set : List (Score × Bytes) → Value
  memory : Collection → Value

abbrev pub as_string : Value → Option Bytes
as_string (string value) = some value
as_string _ = none

-- One step of the folds: the size and the charge of an element are added, each checked.
abbrev charged : ℕ → ℕ → ℕ → Option ℕ
charged total size charge = option_bind (checked_add total size) (λ n. checked_add n charge)

unfoldable pub fields_bytes : ℕ → List (Bytes × Bytes) → Option ℕ
fields_bytes total [] = some total
fields_bytes total ((field, value) ∷ rest) =
    option_bind (checked_add total (length field))
      (λ n. option_bind (charged n (length value) 64) (λ m. fields_bytes m rest))

unfoldable pub elements_bytes : ℕ → ℕ → List Bytes → Option ℕ
elements_bytes charge total [] = some total
elements_bytes charge total (value ∷ rest) =
    option_bind (charged total (length value) charge) (λ n. elements_bytes charge n rest)

unfoldable pub scored_bytes : ℕ → List (Score × Bytes) → Option ℕ
scored_bytes total [] = some total
scored_bytes total ((score, member) ∷ rest) =
    option_bind (charged total (length member) 96) (λ n. scored_bytes n rest)

-- An empty collection has no size: it is never kept.
unfoldable pub logical_bytes : Value → Option ℕ
logical_bytes (memory collection) = some collection.logical_bytes
logical_bytes (string value) = some (length value)
logical_bytes (hash []) = none
logical_bytes (hash (field ∷ fields)) = fields_bytes 0 (field ∷ fields)
logical_bytes (list []) = none
logical_bytes (list (value ∷ values)) = elements_bytes 32 0 (value ∷ values)
logical_bytes (set []) = none
logical_bytes (set (member ∷ members)) = elements_bytes 64 0 (member ∷ members)
logical_bytes (sorted_set []) = none
logical_bytes (sorted_set (member ∷ members)) = scored_bytes 0 (member ∷ members)
