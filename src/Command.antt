-- ===== src/Command.antt =====
-- The typed commands (src/command) and the parsers that build them from a frame.
pub mod Types
pub mod Names
pub mod Reply
pub mod Resp3
pub mod Decimal
pub mod Hello
pub mod Options
pub mod SetTimes
pub mod Collections
pub mod MemoryRequests
pub mod MemoryAccepted
pub mod SortedSet
pub mod Parser
pub mod Mild
pub mod Accepted
mod Tests
