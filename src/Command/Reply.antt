-- ===== src/Command/Reply.antt =====
-- command/reply.rs: the replies of an execution, and their frames for RESP2 and RESP3.
-- `Array(values)` is `array values`; `NullArray` is `null_array`.
use Prim.Native.String.{String}
use sider.Prelude.{ℕ, true, ◌==◌, if◌then◌else◌, Option, none, some, ◌++◌}
use sider.Prelude.Int.{ℤ}
use sider.Resp.Frame.{Bytes, Frame, Frames, nil, cons}
use sider.Command.Names.{text}
use sider.Command.Types.{Command, HashCommand, SetCommand, SortedSetCommand}

pub data ExecutionError : Type 0 where
  read_only cross_shard wrong_type invalid_integer integer_overflow invalid_set_expiry :
      ExecutionError
  invalid_expiry : String → ExecutionError
  out_of_memory aof_record_limit : ExecutionError
  memory : String → ExecutionError
  connection_only : ExecutionError

mutual
  pub data Reply : Type 0 where
    pong done : Reply
    bulk : Option Bytes → Reply
    integer : ℤ → Reply
    array : Replies → Reply
    null_array : Reply
    error : ExecutionError → Reply

  pub data Replies : Type 0 where
    empty : Replies
    more : Reply → Replies → Replies

-- `ExecutionError::to_string`.
abbrev pub message : ExecutionError → Bytes
message read_only = text "READONLY You can't write against a read only replica."
message cross_shard = text "CROSSSLOT Keys in request don't hash to the same slot"
message wrong_type = text "WRONGTYPE Operation against a key holding the wrong kind of value"
message invalid_integer = text "ERR value is not an integer or out of range"
message integer_overflow = text "ERR increment or decrement would overflow"
message invalid_set_expiry = text "ERR invalid expire time in 'set' command"
message (invalid_expiry name) =
    text "ERR invalid expire time in '" ++ (text name ++ text "' command")
message out_of_memory = text "OOM dataset memory quota exceeded"
message aof_record_limit = text "ERR AOF record limit exceeded"
message (memory what) = text what
message connection_only = text "ERR command requires connection context"

unfoldable mutual
  -- `Frame::from`.
  pub frame_of : Reply → Frame
  frame_of pong = Frame.simple (text "PONG")
  frame_of done = Frame.simple (text "OK")
  frame_of (bulk value) = Frame.bulk value
  frame_of (integer value) = Frame.integer value
  frame_of (array values) = Frame.array (frames_of values)
  frame_of null_array = Frame.null_array
  frame_of (error e) = Frame.error (message e)

  pub frames_of : Replies → Frames
  frames_of empty = nil
  frames_of (more reply replies) = cons (frame_of reply) (frames_of replies)

unfoldable mutual
  pub resp3 : Frame → Frame
  resp3 (Frame.bulk none) = Frame.null
  resp3 Frame.null_array = Frame.null
  resp3 (Frame.array values) = Frame.array (resp3_all values)
  resp3 frame = frame

  pub resp3_all : Frames → Frames
  resp3_all nil = nil
  resp3_all (cons frame frames) = cons (resp3 frame) (resp3_all frames)

-- The arms of `typed_resp3`.
abbrev as_map : Frame → Frame
as_map (Frame.array values) = Frame.map (resp3_all values)
as_map frame = resp3 frame

abbrev as_set : Frame → Frame
as_set (Frame.array values) = Frame.set (resp3_all values)
as_set frame = resp3 frame

abbrev as_double : Frame → Frame
as_double (Frame.bulk (some value)) = Frame.double value
as_double frame = resp3 frame

-- Of a pair from a range with scores, the second.
abbrev pub score_frame : Frame → Frame
score_frame (Frame.bulk (some score)) = Frame.double score
score_frame frame = frame

-- `chunks_exact(2)`: a last frame without a partner is left out.
unfoldable pub scored_pairs : Frames → Frames
scored_pairs nil = nil
scored_pairs (cons member nil) = nil
scored_pairs (cons member (cons score frames)) =
    cons (Frame.array (cons member (cons (score_frame score) nil))) (scored_pairs frames)

abbrev as_scored : Frame → Frame
as_scored (Frame.array values) = Frame.array (scored_pairs values)
as_scored frame = resp3 frame

unfoldable pub command_resp3 : Frame → Command → Frame
command_resp3 frame (Command.hash key HashCommand.get_all) = as_map frame
command_resp3 frame (Command.set_collection key SetCommand.members) = as_set frame
command_resp3 frame (Command.sorted_set key (SortedSetCommand.score member)) = as_double frame
command_resp3 frame (Command.sorted_set key (SortedSetCommand.range start end true)) =
    as_scored frame
command_resp3 frame command = resp3 frame

abbrev pub push : Frame → ℕ → Frame
push (Frame.array values) protocol =
    if protocol == 3 then Frame.push (resp3_all values) else Frame.array values
push frame protocol = frame
