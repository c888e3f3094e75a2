-- ===== src/Replication/Sessions.antt =====
-- replication/state.rs: sessions and the role over any sequence of calls.
use sider.Prelude.{true}
use sider.Replication.Runtime.{is_replica}
use sider.Prelude.{◌⊎◌, ℕ, ◌+◌, ◌≡◌, Bool, false, some, arith, ◌<◌, ◌≤◌}
use sider.Replication.Cursor.{Cursor}
use sider.Replication.Journal.{Journal}
use sider.Replication.Runtime.{
  Role, Runtime, begin_session, accepts, applied, connected, upstream_head, disconnected, promote,
}

-- The calls that change the state, in any order.
pub data Step (r : Runtime) : Runtime → Type 0 where
  begins : (g : ℕ) (r' : Runtime) → begin_session r ≡ some (g, r') → Step r r'
  applies : (c : Cursor) → Step r (applied c r)
  connects : (g s : ℕ) (full : Bool) → Step r (connected g s full r)
  advances : (g s : ℕ) → Step r (upstream_head g s r)
  disconnects : (g : ℕ) → Step r (disconnected g r)
  promotes : (c : Cursor) (j : Journal) (r' : Runtime) → promote c j r ≡ some r' → Step r r'

pub data Reach (r : Runtime) : Runtime → Type 0 where
  here : Reach r r
  then_step : {s t : Runtime} → Reach r s → Step s t → Reach r t

-- The generation only grows, and a primary stays one.
record Later (r s : Runtime) : Type 0 where
  grows : r.status.generation ≤ s.status.generation
  promoted : r.status.role ≡ Role.primary → s.status.role ≡ Role.primary

Step-Later : {r s : Runtime} → Step r s → Later r s
unfolding begin_session applied connected upstream_head disconnected promote
Step-Later (begins g r' h) = ground arith
Step-Later (applies c) = ground arith
Step-Later (connects g s full) = ground arith
Step-Later (advances g s) = ground arith
Step-Later (disconnects g) = ground arith
Step-Later (promotes c j r' h) = ground arith

Reach-Later : {r s : Runtime} → Reach r s → Later r s
Reach-Later here = record { grows = omega arith; promoted = λ h. h }
Reach-Later (then_step w s) =
    let a = Reach-Later w in
    let b = Step-Later s in
    record { grows = omega (arith, a.grows, b.grows); promoted = λ h. b.promoted (a.promoted h) }

-- A session that is over stays over: after a newer one has begun, the generation of one that is not
-- later than the generation before is not accepted, and its reports (connected, new head of the upstream, disconnected) change nothing, whatever
-- calls were made since.
pub stale_session :
    (r r' s : Runtime) (old new sequence : ℕ) (full : Bool)
    → old ≤ r.status.generation
    → begin_session r ≡ some (new, r')
    → Reach r' s
    → (accepts old s ≡ false)
      × (connected old sequence full s ≡ s)
      × (upstream_head old sequence s ≡ s)
      × (disconnected old s ≡ s)
unfolding begin_session accepts connected upstream_head disconnected
stale_session r r' s old new sequence full le h w =
    let begun : r'.status.generation ≡ r.status.generation + 1 = ground arith in
    let past : old < s.status.generation = omega (arith, (Reach-Later w).grows) in
    (ground arith, ground arith, ground arith, ground arith)

-- After a promotion, whatever calls are made, the server is a primary and accepts no session of a
-- replica.
pub promoted_stays :
    (r r' s : Runtime) (c : Cursor) (j : Journal) (generation : ℕ)
    → promote c j r ≡ some r'
    → Reach r' s
    → (s.status.role ≡ Role.primary) × (accepts generation s ≡ false)
unfolding promote accepts
promoted_stays r r' s c j generation h w =
    let done : r'.status.role ≡ Role.primary = ground arith in
    let stays = (Reach-Later w).promoted done in (stays, ground arith)

abbrev pub IsDetached : Runtime → Type 0
IsDetached r = (is_replica r.status.role ≡ true) ⊎ (r.status.connected ≡ false)

Step-IsDetached : {r s : Runtime} → Step r s → IsDetached r → IsDetached s
unfolding begin_session applied connected upstream_head disconnected promote
Step-IsDetached (begins g r' h) d = ground arith
Step-IsDetached (applies c) d = ground arith
Step-IsDetached (connects g s full) d = ground arith
Step-IsDetached (advances g s) d = ground arith
Step-IsDetached (disconnects g) d = ground arith
Step-IsDetached (promotes c j r' h) d = ground arith

-- From a state in which no primary is connected to an upstream no call leads to one.
pub Reach-IsDetached : {r s : Runtime} → IsDetached r → Reach r s → IsDetached s
Reach-IsDetached d here = d
Reach-IsDetached d (then_step w s) = Step-IsDetached s (Reach-IsDetached d w)
