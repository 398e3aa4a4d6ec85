-- ===== src/Adapters.antt =====
-- The adapters of internal/ledger/adapters other than PostgreSQL.
pub mod Worker
pub mod Gateway
pub mod Http
