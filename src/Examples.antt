-- ===== src/Examples.antt =====
-- Concrete inputs at which the theorems of the library are applied.
mod Data
mod Pool
mod Delivery
mod Work
mod Ack
mod Checkpoint
mod Pending
mod SetUpdate
mod Health
