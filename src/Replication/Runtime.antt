-- ===== src/Replication/Runtime.antt =====
-- replication/state.rs: the observable role and position, and the sessions of a replica.
-- A call locks the state, so it is a function on it; `none` is the panic "session epochs exhausted".
use sider.Prelude.{
  ℕ, Bool, true, false, not, ◌&&◌, Option, none, some, ◌==◌, if◌then◌else◌, ok, err,
}
use sider.Prelude.Machine.{checked_add, saturating_add}
use sider.Replication.Cursor.{Cursor}
use sider.Replication.Journal
use sider.Replication.Journal.{Journal}

pub data Role : Type 0 where
  primary replica : Role

pub record Status : Type 0 where
  pub role : Role
  pub applied : Cursor
  pub upstream_sequence : Option ℕ
  pub connected : Bool
  pub full_syncs : ℕ
  pub partial_syncs : ℕ
  pub reconnects : ℕ
  pub generation : ℕ

-- `changed` is the value of the watch channel.
pub record Runtime : Type 0 where
  pub status : Status
  pub journal : Option Journal
  pub changed : ℕ

abbrev pub is_replica : Role → Bool
is_replica Role.primary = false
is_replica Role.replica = true

unfoldable pub new : Role → Cursor → Runtime
new role applied = record {
  status = record {
    role = role;
    applied = applied;
    upstream_sequence = none;
    connected = false;
    full_syncs = 0;
    partial_syncs = 0;
    reconnects = 0;
    generation = 0;
  };
  journal = none;
  changed = 0;
}

abbrev head_of : Option Journal → Cursor → Cursor
head_of none applied = applied
head_of (some j) applied = elim (Journal.status j) [ ok s ↦ s.head | err _ ↦ applied ]

-- The method `status`.
unfoldable pub observe : Runtime → Status
observe r = record (r.status) { applied = head_of r.journal r.status.applied }

unfoldable pub readonly : Runtime → Bool
readonly r = is_replica r.status.role

unfoldable pub begin_session : Runtime → Option (ℕ × Runtime)
begin_session r = elim (checked_add r.status.generation 1) [
  | none ↦ none
  | some generation ↦ some (
    generation,
    record r {
      status = record (r.status) {
        connected = false;
        reconnects = saturating_add r.status.reconnects 1;
        generation = generation;
      };
      changed = generation;
    },
  )
]

unfoldable pub accepts : ℕ → Runtime → Bool
accepts generation r = is_replica r.status.role && r.status.generation == generation

unfoldable pub applied : Cursor → Runtime → Runtime
applied cursor r = record r { status = record (r.status) { applied = cursor } }

unfoldable pub connected : ℕ → ℕ → Bool → Runtime → Runtime
connected generation upstream_sequence full r =
    if not (r.status.generation == generation)
    then r
    else if not (is_replica r.status.role)
    then r
    else record r {
      status = record (r.status) {
        connected = true;
        upstream_sequence = some upstream_sequence;
        full_syncs = if full then saturating_add r.status.full_syncs 1 else r.status.full_syncs;
        partial_syncs =
            if full then r.status.partial_syncs else saturating_add r.status.partial_syncs 1;
      };
    }

unfoldable pub upstream_head : ℕ → ℕ → Runtime → Runtime
upstream_head generation sequence r =
    if r.status.generation == generation && is_replica r.status.role
    then record r { status = record (r.status) { upstream_sequence = some sequence } }
    else r

unfoldable pub disconnected : ℕ → Runtime → Runtime
disconnected generation r =
    if r.status.generation == generation
    then record r { status = record (r.status) { connected = false } }
    else r

-- The method `primary`.
unfoldable pub promote : Cursor → Journal → Runtime → Option Runtime
promote cursor journal r = elim (checked_add r.status.generation 1) [
  | none ↦ none
  | some generation ↦ some (record r {
    status = record (r.status) {
      role = Role.primary;
      applied = cursor;
      connected = false;
      generation = generation;
    };
    journal = some journal;
    changed = generation;
  })
]
