-- ===== src/Work.antt =====
-- The durable store of unfinished messages, message-relayer/src/work.rs.
pub mod Cursor
pub mod Store
