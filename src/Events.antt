-- ===== src/Events.antt =====
-- The scan of source events, message-relayer/src/events/.
pub mod Finality
