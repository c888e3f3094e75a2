-- ===== src/Replication/Tests.antt =====
-- The journal and the replica's sessions at concrete states.
use sider.Prelude.{
  inl, ℕ, ◌≡◌, refl, Bool, true, false, none, some, List, [], ◌∷◌, ◌++◌, arith, Result, ok,
}
use sider.Replication.Cursor.{Bytes, Cursor}
use sider.Replication.Journal.{
  Limits, Error, Entry, State, Journal, new, next, Subscriber, poll, publish, push, make_room,
  follows, close,
}
use sider.Replication.Retention.{IsValid, new-IsValid, publish-IsValid, Publishes}
use sider.Replication.Delivery.{Answers, next-Answers}
use sider.Replication.Stream.{
  World, Reach, here, then_step, published, received, start, got-IsPrefix,
}
use sider.Replication.Runtime.{
  Role, Runtime, begin_session, accepts, connected, upstream_head, disconnected, promote,
}
use sider.Replication.Sessions

abbrev at : ℕ → Cursor
at n = record { epoch = 7 ∷ 7 ∷ []; sequence = n }

abbrev small : Limits
small = record { max_bytes = 8; max_batches = 2; max_frame_bytes = 6 }

abbrev empty : Journal
empty = record {
  state = record { head = at 4; entries = []; bytes = 0; closed = false };
  limits = small;
  changed = false;
}

abbrev frame : Bytes
frame = 1 ∷ 2 ∷ 3 ∷ []

abbrev one : Journal
one = record {
  state = record {
    head = at 5;
    entries = record { cursor = at 5; frame = frame } ∷ [];
    bytes = 3;
    closed = false;
  };
  limits = small;
  changed = true;
}

made : new (at 4) small ≡ ok empty
unfolding new
made = refl

new-IsValid_example : IsValid empty
new-IsValid_example = new-IsValid (at 4) small empty (omega arith) made

published_one : publish 5 frame empty ≡ some (ok tt, one)
unfolding publish push make_room follows
published_one = refl

publish-IsValid_example :
    (r : Result (Unit {0}) Error) × (j' : Journal) × (publish 5 frame empty ≡ some (r, j'))
    × IsValid j'
    × Publishes 5 frame empty r j'
publish-IsValid_example = publish-IsValid 5 frame empty new-IsValid_valid
  where
    new-IsValid_valid : IsValid empty
    new-IsValid_valid = new-IsValid (at 4) small empty (omega arith) made

one-IsValid : IsValid one
one-IsValid = record {
  room = omega arith;
  frame_fits = omega arith;
  accounted = refl;
  within_bytes = omega arith;
  within_batches = omega arith;
  in_range = omega arith;
  first = 5;
  contiguous = (refl, refl, refl);
}

next-Answers_example : Answers one.state (at 4) (next one.state (at 4))
next-Answers_example = next-Answers one (at 4) one-IsValid refl refl

abbrev after : World
after = record {
  journal = one;
  log = record { cursor = at 5; frame = frame } ∷ [];
  reader = record { cursor = at 5 };
  got = record { cursor = at 5; frame = frame } ∷ [];
}

polled :
    poll one.state (record { cursor = at 4 })
    ≡ (ok (some (record { cursor = at 5; frame = frame })), record { cursor = at 5 })
unfolding poll next sider.Replication.Journal.entry_after
polled = refl

reaches : Reach (start empty) after
reaches =
    then_step (then_step here (published 5 frame one published_one))
      (received (record { cursor = at 5; frame = frame }) (record { cursor = at 5 }) polled)

got-IsPrefix_example : (unseen : List Entry) × (after.log ≡ after.got ++ unseen)
got-IsPrefix_example =
    got-IsPrefix empty after (new-IsValid (at 4) small empty (omega arith) made) refl reaches

abbrev follower : ℕ → Bool → Runtime
follower generation up = record {
  status = record {
    role = Role.replica;
    applied = at 4;
    upstream_sequence = none;
    connected = up;
    full_syncs = 0;
    partial_syncs = 0;
    reconnects = generation;
    generation = generation;
  };
  journal = none;
  changed = generation;
}

abbrev leader : Runtime
leader = record {
  status = record {
    role = Role.primary;
    applied = at 5;
    upstream_sequence = none;
    connected = false;
    full_syncs = 0;
    partial_syncs = 0;
    reconnects = 0;
    generation = 1;
  };
  journal = some one;
  changed = 1;
}

begun : begin_session (follower 0 true) ≡ some (1, follower 1 false)
unfolding begin_session
begun = refl

moved : promote (at 5) one (follower 0 true) ≡ some leader
unfolding promote
moved = refl

stale_session_example :
    (accepts 0 (follower 1 false) ≡ false)
    × (connected 0 9 true (follower 1 false) ≡ follower 1 false)
    × (upstream_head 0 9 (follower 1 false) ≡ follower 1 false)
    × (disconnected 0 (follower 1 false) ≡ follower 1 false)
stale_session_example =
    Sessions.stale_session (follower 0 true) (follower 1 false) (follower 1 false) 0 1 9 true
      (omega arith) begun Sessions.Reach.here

promoted_stays_example : (leader.status.role ≡ Role.primary) × (accepts 3 leader ≡ false)
promoted_stays_example =
    Sessions.promoted_stays (follower 0 true) leader leader (at 5) one 3 moved Sessions.Reach.here

Reach-IsDetached_example : Sessions.IsDetached leader
Reach-IsDetached_example =
    Sessions.Reach-IsDetached (inl refl)
      (Sessions.Reach.then_step Sessions.Reach.here (Sessions.promotes (at 5) one leader moved))
