-- ===== src/Command/Resp3.antt =====
-- command/reply.rs: what a reply looks like to a client of RESP3.
use sider.Prelude.{none, some, true}
use sider.Resp.Frame.{Bytes, Frame, Frames, nil, cons}
use sider.Command.Types.{Command, HashCommand, SetCommand, SortedSetCommand}
use sider.Command.Reply.{
  Reply, Replies, pong, done, bulk, integer, array, null_array, error, empty, more, frame_of,
  frames_of, resp3, resp3_all, scored_pairs, command_resp3,
}

-- A frame that is no null of RESP2 and holds none, at any depth.
mutual
  pub Modern : Frame → Type 0
  Modern (Frame.bulk none) = ⊥
  Modern Frame.null_array = ⊥
  Modern (Frame.array values) = AllModern values
  Modern (Frame.map values) = AllModern values
  Modern (Frame.set values) = AllModern values
  Modern (Frame.push values) = AllModern values
  Modern (Frame.attribute values) = AllModern values
  Modern _ = Unit {0}

  pub AllModern : Frames → Type 0
  AllModern nil = Unit {0}
  AllModern (cons frame frames) = Modern frame × AllModern frames

mutual
  unfolding Modern AllModern frame_of frames_of resp3 resp3_all

  resp3-Modern : (reply : Reply) → Modern (resp3 (frame_of reply))
  resp3-Modern pong = tt
  resp3-Modern done = tt
  resp3-Modern (bulk none) = tt
  resp3-Modern (bulk (some value)) = tt
  resp3-Modern (integer value) = tt
  resp3-Modern (array values) = resp3_all-AllModern values
  resp3-Modern null_array = tt
  resp3-Modern (error e) = tt

  resp3_all-AllModern : (replies : Replies) → AllModern (resp3_all (frames_of replies))
  resp3_all-AllModern empty = tt
  resp3_all-AllModern (more reply replies) = (resp3-Modern reply, resp3_all-AllModern replies)

-- What a range with scores answers: an error, or strings that are there.
pub data AllFound : Replies → Type 0 where
  all : AllFound empty
  found :
      {value : Bytes} {replies : Replies}
      → AllFound replies
      → AllFound (more (bulk (some value)) replies)

abbrev pub Ranged : Command → Reply → Type 0
Ranged (Command.sorted_set key (SortedSetCommand.range start end true)) (array values) =
    AllFound values
Ranged command reply = Unit {0}

scored_pairs-AllModern :
    {replies : Replies} → AllFound replies → AllModern (scored_pairs (frames_of replies))
unfolding Modern AllModern frame_of frames_of scored_pairs
scored_pairs-AllModern all = tt
scored_pairs-AllModern (found all) = tt
scored_pairs-AllModern (found (found rest)) = ((tt, (tt, tt)), scored_pairs-AllModern rest)

-- Whatever a command answers, its frame for RESP3 is no null of RESP2 and holds none at any depth,
-- where an array that answers a range with scores holds only strings that are there.
pub command_resp3-Modern :
    (command : Command) (reply : Reply)
    → Ranged command reply
    → Modern (command_resp3 (frame_of reply) command)
unfolding Modern AllModern frame_of frames_of command_resp3 resp3 resp3_all
command_resp3-Modern (Command.sorted_set key (SortedSetCommand.range start end true)) (array values)
      h =
    scored_pairs-AllModern h
command_resp3-Modern (Command.sorted_set key (SortedSetCommand.score member)) (bulk (some value))
      h =
    tt
command_resp3-Modern (Command.hash key HashCommand.get_all) (array values) h =
    resp3_all-AllModern values
command_resp3-Modern (Command.set_collection key SetCommand.members) (array values) h =
    resp3_all-AllModern values
command_resp3-Modern command pong h = tt
command_resp3-Modern command reply h = resp3-Modern reply
