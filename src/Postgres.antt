-- ===== src/Postgres.antt =====
-- The PostgreSQL adapter (internal/ledger/adapters/postgres).
pub mod Tables
pub mod Queries
pub mod Transactions
pub mod Holds
pub mod Wallets
pub mod Outbox
pub mod Accounts
pub mod Outcomes
pub mod Reading
pub mod Replays
pub mod Refinement
pub mod Reachable
pub mod Futures
pub mod Solvency
