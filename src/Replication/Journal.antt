-- ===== src/Replication/Journal.antt =====
-- replication/journal.rs: the history of published batches, retained by bytes and by number.
-- The mutex is held by one call at a time, so a call is a function on the state. The lock of
-- the model is not poisoned: `none`, the panic of `publish`, ends a run.
use sider.Prelude.{
  ℕ, ◌+◌, ◌-◌, ◌^◌, Bool, true, false, not, ◌||◌, Option, none, some, List, [], ◌∷◌, ◌++◌, ltb, leb,
  ◌==◌, if◌then◌else◌, Result, ok, err, and_then, ok_or, length, get_elem?, bytes_eq,
}
use sider.Prelude.Machine.{checked_add, checked_sub}
use sider.Replication.Cursor.{Bytes, Cursor}

pub record Limits : Type 0 where
  pub max_bytes : ℕ
  pub max_batches : ℕ
  pub max_frame_bytes : ℕ

pub data Error : Type 0 where
  limit epoch sequence lagged closed : Error

pub record Entry : Type 0 where
  pub cursor : Cursor
  pub frame : Bytes

pub record Status : Type 0 where
  pub head : Cursor
  pub oldest_sequence : Option ℕ
  pub bytes : ℕ
  pub batches : ℕ

-- `entries` has the oldest first.
pub record State : Type 0 where
  pub head : Cursor
  pub entries : List Entry
  pub bytes : ℕ
  pub closed : Bool

-- `changed` is the value of the watch channel, which every change toggles.
pub record Journal : Type 0 where
  pub state : State
  pub limits : Limits
  pub changed : Bool

-- `isize::MAX` is half of the range of `usize`.
abbrev pub isize_max : ℕ
isize_max = 2 ^ 63 - 1

unfoldable pub new : Cursor → Limits → Result Journal Error
new head limits =
    if limits.max_bytes == 0
      || (ltb isize_max limits.max_bytes
          || (limits.max_batches == 0
              || (limits.max_frame_bytes == 0 || ltb limits.max_bytes limits.max_frame_bytes)))
    then err limit
    else ok (record {
      state = record { head = head; entries = []; bytes = 0; closed = false };
      limits = limits;
      changed = false;
    })

-- The loop of `publish` that makes room; `none` is the panic of `expect("non-empty retention")`.
unfoldable pub make_room : ℕ → ℕ → ℕ → List Entry → Option (List Entry × ℕ)
make_room room max_batches bytes [] =
    if ltb room bytes || leb max_batches 0 then none else some ([], bytes)
make_room room max_batches bytes (e ∷ es) =
    let rest = make_room room max_batches (bytes - length e.frame) es in
    if ltb room bytes || leb max_batches (length (e ∷ es)) then rest else some (e ∷ es, bytes)

-- `state.head.sequence.checked_add(1) != Some(sequence)`, negated.
unfoldable pub follows : ℕ → ℕ → Bool
follows head seq = elim (checked_add head 1) [ none ↦ false | some n ↦ n == seq ]

unfoldable pub push : Journal → ℕ → Bytes → List Entry × ℕ → Journal
push j seq frame (kept, bytes) =
    let head : Cursor = record { epoch = j.state.head.epoch; sequence = seq } in
    record j {
      state = record (j.state) {
        head = head;
        entries = kept ++ (record { cursor = head; frame = frame } ∷ []);
        bytes = bytes + length frame;
      };
      changed = not j.changed;
    }

abbrev pub Published : Type 0
Published = Option (Result (Unit {0}) Error × Journal)

unfoldable pub publish : ℕ → Bytes → Journal → Published
publish seq frame j =
    if length frame == 0 || ltb j.limits.max_frame_bytes (length frame)
    then some (err limit, j)
    else if j.state.closed
    then some (err closed, j)
    else if not (follows j.state.head.sequence seq)
    then some (err Error.sequence, j)
    else elim (make_room (j.limits.max_bytes - length frame) j.limits.max_batches j.state.bytes
        j.state.entries) [ none ↦ none | some kept ↦ some (ok tt, push j seq frame kept) ]

abbrev pub front_sequence : List Entry → Option ℕ
front_sequence [] = none
front_sequence (e ∷ es) = some e.cursor.sequence

unfoldable pub status : Journal → Result Status Error
status j =
    if j.state.closed
    then err closed
    else ok (record {
      head = j.state.head;
      oldest_sequence = front_sequence j.state.entries;
      bytes = j.state.bytes;
      batches = length j.state.entries;
    })

unfoldable pub close : Journal → Journal
close j = record j {
  state = record (j.state) { entries = []; bytes = 0; closed = true };
  changed = not j.changed;
}

abbrev pub found : Option Entry → Result (Option Entry) Error
found none = err lagged
found (some e) = ok (some e)

-- The entry that follows a cursor behind the head.
unfoldable pub entry_after : State → ℕ → Result (Option Entry) Error
entry_after s seq = and_then (ok_or (checked_add seq 1) Error.sequence) (λ wanted.
    and_then (ok_or (front_sequence s.entries) lagged) (λ oldest.
      and_then (ok_or (checked_sub wanted oldest) lagged)
        (λ index. found (get_elem? s.entries index))))

unfoldable pub next : State → Cursor → Result (Option Entry) Error
next s cursor =
    if s.closed
    then err closed
    else if not (bytes_eq cursor.epoch s.head.epoch)
    then err epoch
    else if ltb s.head.sequence cursor.sequence
    then err Error.sequence
    else if cursor.sequence == s.head.sequence
    then ok none
    else entry_after s cursor.sequence

-- A subscriber is its cursor; `subscribe` refuses one that the history cannot serve.
pub record Subscriber : Type 0 where
  pub cursor : Cursor

unfoldable pub subscribe : Cursor → Journal → Result Subscriber Error
subscribe cursor j = and_then (next j.state cursor) (λ _. ok (record { cursor = cursor }))

-- One round of the loop of `Subscriber::next`; with `ok none` it waits for a change.
unfoldable pub poll : State → Subscriber → Result (Option Entry) Error × Subscriber
poll s sub = elim (next s sub.cursor) [
  | err e ↦ (err e, sub)
  | ok none ↦ (ok none, sub)
  | ok (some e) ↦ (ok (some e), record { cursor = e.cursor })
]
