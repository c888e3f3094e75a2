-- ===== src/Storage/Mutation.antt =====
-- storage/mutation.rs: what the log of a store records.
use sider.Prelude.{Option, List}
use sider.Prelude.Int.{ℤ}
use sider.Resp.Frame.{Bytes}
use sider.Storage.Value.{Value}

pub data Mutation : Type 0 where
  put : Bytes → Value → Option ℤ → Mutation
  delete : Bytes → Mutation

pub data MutationOrigin : Type 0 where
  client expiration : MutationOrigin

pub record ResolvedBatch : Type 0 where
  pub origin : MutationOrigin
  pub mutations : List Mutation

abbrev pub key_of : Mutation → Bytes
key_of (put key value expires_at) = key
key_of (delete key) = key
