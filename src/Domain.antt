-- ===== src/Domain.antt =====
-- The domain layer (internal/ledger/domain): value objects, entities and their rules.
pub mod Ids
pub mod Currency
pub mod Money
pub mod Posting
pub mod JournalEntry
pub mod Transaction
pub mod Account
pub mod Wallet
pub mod Hold
pub mod OutboxEvent
