-- ===== src/Storage.antt =====
-- The storage of the server (src/storage): the store, memory requests, the shard router and admission.
pub mod Memory
pub mod Member
pub mod Value
pub mod Store
pub mod Mutation
pub mod Accounting
pub mod Strings
pub mod Execution
pub mod Routing
pub mod Placement
pub mod Participants
pub mod Plan
pub mod Grouping
pub mod Serving
pub mod Assembly
pub mod Gather
pub mod Tally
pub mod Count
pub mod Spread
pub mod Isolation
pub mod Admission
mod StoreTests
mod PlanTests
mod Tests
