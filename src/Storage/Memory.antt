-- ===== src/Storage/Memory.antt =====
-- storage/memory.rs: the requests of the memory lifecycle and the data that they carry.
-- A `BTreeMap` is the list of its entries, in the order of its keys.
use Prim.Native.String.{String}
use sider.Prelude.{ℕ, Bool, true, false, Option, List}
use sider.Prelude.Int.{ℤ}
use sider.Resp.Frame.{Bytes}

-- `SetCondition` of command/mod.rs, which a PUT also carries.
pub data SetCondition : Type 0 where
  always missing present : SetCondition

pub data Ttl : Type 0 where
  persistent keep : Ttl
  after : ℤ → Ttl

pub data Scalar : Type 0 where
  bytes : Bytes → Scalar
  integer : ℤ → Scalar
  boolean : Bool → Scalar

pub record Descriptor : Type 0 where
  pub dimension : ℕ
  pub provider : Bytes
  pub model : Bytes
  pub revision : Bytes
  pub transform : Bytes

pub record Member : Type 0 where
  pub id : Bytes
  pub namespace : Bytes
  pub content : Bytes
  pub vector : Bytes
  pub deadline : Option ℤ
  pub metadata : List (Bytes × Scalar)
  pub provenance : List (Bytes × Bytes)

pub data Operation : Type 0 where
  create : Descriptor → Operation
  info : Operation
  put : Descriptor → Member → Ttl → SetCondition → Operation
  get delete pttl persist : Bytes → Operation
  expire : Bytes → ℤ → Operation
  search : Descriptor → Bytes → ℕ → Bytes → List (Bytes × Scalar) → Operation

abbrev pub command_name : Operation → String
command_name (create d) = "MEM.CREATE"
command_name info = "MEM.INFO"
command_name (put d m t c) = "MEM.PUT"
command_name (get id) = "MEM.GET"
command_name (delete id) = "MEM.DEL"
command_name (pttl id) = "MEM.PTTL"
command_name (persist id) = "MEM.PERSIST"
command_name (expire id ms) = "MEM.EXPIRE"
command_name (search d v k ns meta) = "MEM.SEARCH"

-- `Operation::writes_dataset`.
abbrev pub edits : Operation → Bool
edits (create d) = true
edits info = false
edits (put d m t c) = true
edits (get id) = false
edits (delete id) = true
edits (pttl id) = false
edits (persist id) = true
edits (expire id ms) = true
edits (search d v k ns meta) = false
