-- ===== src/Replication.antt =====
-- Replication between servers (src/replication): the bounded history of batches, and the role.
pub mod Cursor
pub mod Journal
pub mod Retention
pub mod Delivery
pub mod Stream
pub mod Runtime
pub mod Sessions
mod Tests
