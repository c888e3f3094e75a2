-- ===== src/Connection.antt =====
-- A client's connection (src/connection): the queue of MULTI and the observations of WATCH.
pub mod Transaction
pub mod Handle
pub mod Request
pub mod Pinned
pub mod Queueing
pub mod Calls
pub mod Exec
pub mod Abort
pub mod RequestSize
mod Tests
