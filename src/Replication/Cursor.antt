-- ===== src/Replication/Cursor.antt =====
-- replication/mod.rs, `Cursor`: a position in the history of one primary epoch.
use sider.Prelude.{ℕ, List}

abbrev pub Bytes : Type 0
Bytes = List ℕ

pub record Cursor : Type 0 where
  pub epoch : Bytes
  pub sequence : ℕ
