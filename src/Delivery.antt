-- ===== src/Delivery.antt =====
-- The per-route delivery worker, message-relayer/src/delivery/.
pub mod Backoff
pub mod FailedRetry
pub mod TopUp
pub mod Gas
pub mod Receipt
