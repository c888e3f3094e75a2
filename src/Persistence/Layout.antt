-- ===== src/Persistence/Layout.antt =====
-- persistence/layout.rs and persistence/role.rs: what a log belongs to. The reason of an error of the
-- configuration is left out.
use sider.Prelude.{
  ℕ, ◌+◌, ◌/◌, ◌%◌, ◌||◌, leb, ltb, ◌==◌, not, if◌then◌else◌, Result, ok, err, and_then,
}
use sider.Resp.Frame.{Bytes}
use sider.Replication.Runtime.{Role}
use sider.Storage.Routing.{RoutingError, invalid_server_limits, shard_for}
use sider.Storage.Routing

abbrev pub routing_version : ℕ
routing_version = 1

pub record DurableLayout : Type 0 where
  pub shard_count : ℕ
  pub routing : ℕ

abbrev pub default_layout : DurableLayout
default_layout = record { shard_count = 1; routing = routing_version }

abbrev pub validate : DurableLayout → Result (Unit {0}) RoutingError
validate layout =
    and_then (Routing.new layout.shard_count)
      (λ r. if not (layout.routing == routing_version) then err invalid_server_limits else ok tt)

abbrev pub layout_shard_for : DurableLayout → Bytes → Result ℕ RoutingError
layout_shard_for layout key =
    and_then (validate layout)
      (λ u. and_then (Routing.new layout.shard_count) (λ r. ok (shard_for r key)))

unfoldable pub quota : DurableLayout → ℕ → ℕ → Result ℕ RoutingError
quota layout total_bytes shard = and_then (validate layout) (λ u.
    if ltb total_bytes layout.shard_count || leb layout.shard_count shard
    then err invalid_server_limits
    else ok (
        total_bytes / layout.shard_count
        + (if ltb shard (total_bytes % layout.shard_count) then 1 else 0)))

pub record ReplicationMetadata : Type 0 where
  pub role : Role
  pub epoch : Bytes
