-- ===== src/Adapters/Http.antt =====
-- internal/ledger/adapters/http.
pub mod Errors
pub mod Handling
pub mod Movements
pub mod Wallets
pub mod Holds
pub mod Transactions
