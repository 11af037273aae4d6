-- ===== src/Pool.antt =====
-- The vote pool, message-relayer/src/pool/mod.rs.
pub mod Signature
pub mod Slot
pub mod Invariant
pub mod Admission
pub mod Voting
pub mod Results
pub mod Upkeep
pub mod State
pub mod Task
pub mod Flight
