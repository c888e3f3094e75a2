-- ===== src/Persistence.antt =====
-- The durable formats of the server (src/persistence).
pub mod Words
pub mod Record
pub mod Reading
pub mod Sizes
pub mod BodySizes
pub mod Elements
pub mod RoundTrip
pub mod Records
pub mod Framing
pub mod Recovery
pub mod Recovered
pub mod Order
pub mod Layout
pub mod Header
pub mod HeaderFields
pub mod HeaderTrip
pub mod Quotas
mod Tests
mod RecoveryTests
