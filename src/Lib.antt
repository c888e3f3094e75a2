-- ===== src/Lib.antt =====
-- sider: an in-memory server that speaks RESP over TCP, sharded, with replication.
--
-- The parts and how they interact. A connection feeds the bytes it receives to the decoder of the
-- RESP codec (src/resp), which yields frames. A frame is parsed to a typed command (src/command).
-- Inside MULTI the connection queues it (src/connection/transaction.rs). The router
-- (src/storage/routing.rs) picks the shard that owns the command's keys, and the workers of the
-- shards execute it on their stores (src/storage). A command of a transaction whose
-- keys several shards own is split into fragments, whose replies are merged. Replies go back through
-- the encoder. Every batch of mutations is appended to a log, from which a start recovers
-- (src/persistence). A primary publishes each durable batch in a bounded history
-- (src/replication/journal.rs), from which the sessions of the replicas read, and every server
-- keeps its role and the generation of its session with an upstream (src/replication/state.rs).
--
-- Prelude: shared names, lists over native numbers, results, signed integers, and the checked
--   arithmetic of a 64-bit target: `usize` and `u64` are numbers below 2 ^ 64, with `checked_add`
--   and its like returning `none` where the exact result does not fit.
--
-- Resp models src/resp. Limits, Frame: limits.rs, frame.rs, error.rs. Number, Scalar:
--   `parse_integer`, `parse_length` and `validate_scalar` of decoder.rs; the latter reads the
--   grammar of binary64 numbers in decimal and decides whether the value rounds to a finite
--   number. State: the decoder's fields, of which `Scanner` has those that a round of the scan
--   changes, and the monad that passes it on. Header: `finish_line`, `finish_node` and the round
--   in the state `Prefix`. Decoder: the rounds in the other states, `scan`, `fail` and `decode`.
--   Materialize: `materialize`. Encoder and Size: the two passes of encoder.rs. Vectors used as
--   stacks have the last element first. The scan has one unit of fuel per byte of the buffer and
--   one more, which is enough, since every round but the last moves the cursor forward; the
--   outcome `stuck` stands for fuel that has run out or an index out of range.
--   The first pass of the encoder has fuel for the permitted number of nodes and
--   two more, since it fails on the first node above the limit; the second pass has fuel for the
--   nodes of its frame. Spelling is the recursive reference of the encoder, which Measure and
--   Written compare with the two passes; Progress, Rounds and Incremental follow the decoder's
--   rounds, Fragments and Decode its calls.
--
-- Replication models src/replication. Journal: journal.rs, a call being a function of the state
--   that the mutex guards; `publish` answers `none` where `expect` panics. A call of
--   `Subscriber::next` is a sequence of `poll`s, one for each round of its loop. Runtime:
--   state.rs; `none` is the panic of an exhausted generation, `observe` is the method `status`
--   and `promote` the method `primary`. Stream and Sessions have the calls as step relations.
--
-- Command models src/command. Types: the commands. Names: names compared without regard to ASCII
--   case. Decimal: `parse_decimal`. Options: `parse_set_options`. SortedSet, Collections,
--   MemoryRequests, Parser: the parsers, in which the chain of tests on a name, or the several
--   matches on it, is one table that selects what is built. `Score::parse` (src/command/score.rs)
--   is an argument of the parsers; a score is kept as the bits of its binary64 number. Reply and
--   Resp3: src/command/reply.rs, the replies and their frames for both versions of the protocol.
--   Hello: src/command/hello.rs.
--
-- Storage models the requests and records of src/storage/memory.rs with their validation (Memory,
--   Member), src/storage/routing.rs (Routing, with Placement and Participants), and
--   src/storage/admission.rs (Admission), whose atomic flag is read and written in steps. A
--   `BTreeMap` is its entries in the order of the keys. The 64-bit FNV-1a hash keeps its
--   multiplication modulo 2 ^ 64.
--
-- Value and Store model src/storage/value.rs and the core of src/storage/mod.rs: the entries of a
--   store, its indexes by deadline, `used_bytes` and the quota, `remove`, `install_entry`,
--   `can_replace` and `expire_key`, and `Registry::invalidate` of src/storage/watch.rs. Strings
--   has the commands GET, SET, DEL, EXISTS, INCR and DECR. The hash map is a list whose first
--   entry for a key counts; an instant is a number, and `Instant::checked_add`, whose range the
--   platform sets, is part of the clock, which is an argument. `none` is a panic, or an overflow
--   of `used_bytes`.
--
-- The transactions across shards are those of src/storage/routing_transaction.rs, in the file
--   Storage/Plan.antt: `plan_transaction` gives each command fragments with the shards that own
--   them, and says in which way their replies are put together; the map from an owner to its group
--   is the list of its entries in ascending order. `none` is a panic. Serving has what the proofs execute the fragments by: a
--   world gives each shard a state, and an argument says how a shard serves one key. Grouping,
--   Assembly and Tally have the lemmas, and Gather, Count, Spread and Isolation follow MGET, EXISTS
--   and DEL, MSET, and whole transactions. Mutation has the types of src/storage/mutation.rs.
--
-- Persistence models src/persistence. Record and Reading: `encode`, `read_record`, `decode` and
--   what they call in format.rs, where a file is the bytes that are left of it, so that reading
--   gives the rest. The CRC is computed from the table as the code computes it. Numbers in a record
--   are little-endian words, and a word reads as many bytes as it has. Header and Layout: the
--   headers of versions 1 to 3, layout.rs and role.rs. Recovery: the loop of `recover_inner` in
--   writer.rs over the records, for the profile whose records are those of format.rs; the replay of
--   mutations in the stores is an argument. The loop has one unit of fuel per byte of the log and one
--   more, which is enough for a log of whole records, since a record has at least one byte.
--
-- Connection models src/connection/transaction.rs. Transaction: the queue of MULTI, the map of what is
--   watched, `poison` and `revalidate`. Handle: `handle`. Request: `request_bytes`. What the database
--   answers to WATCH, and whether it is read-only, are arguments, as is what the policy allows; a request that fails in
--   the database is an error. A plan that panics is counted as refused. Queueing has the invariant,
--   Calls its preservation, Exec and Abort the calls as step relations.
--
-- Not modelled: the other commands of the store, its transactions, watch tokens, snapshots and
-- memory lifecycle (src/storage), the records with memory and the composed header
-- (src/persistence/memory_format.rs and composed_format.rs), the writer's task and its files, backups
-- and migrations (src/persistence), the replication protocol and its sessions (src/replication),
-- Pub/Sub, the tasks of a connection, and the security policy, which no file here models; sockets, tasks, files, the environment, TLS and password hashing, which
-- are the operating system's and other packages'; the printing of scores (src/command/fpconv.rs);
-- executables, tools and tests.
pub mod Prelude
pub mod Resp
pub mod Replication
pub mod Command
pub mod Storage
pub mod Persistence
pub mod Connection
