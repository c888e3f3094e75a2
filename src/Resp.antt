-- ===== src/Resp.antt =====
-- The incremental RESP2/RESP3 codec (src/resp).
pub mod Limits
pub mod Frame
pub mod Number
pub mod Scalar
pub mod State
pub mod Materialize
pub mod Header
pub mod Decoder
pub mod Encoder
pub mod Size
pub mod Spelling
pub mod Measure
pub mod Written
pub mod Post
pub mod Progress
pub mod Incremental
pub mod Rounds
pub mod Fragments
pub mod Decode
pub mod RoundTrip
mod Tests
