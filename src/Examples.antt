-- ===== src/Examples.antt =====
-- Concrete wallets, transactions and stores, and the theorems at work on them.
pub mod Data
pub mod Runs
pub mod Parts
pub mod Services
pub mod Readings
pub mod Requests
pub mod Deliveries
pub mod Projections
