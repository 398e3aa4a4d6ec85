-- ===== src/Application.antt =====
-- internal/ledger/application: the use cases, over the ports that they call. A port acts on a state of
-- type `S` and answers; `S` is any type, so that the store of Postgres is one instance.
pub mod PostTransaction
pub mod ReverseTransaction
pub mod GetTransaction
pub mod Balance
pub mod Soundness
pub mod Holds
pub mod Ports
pub mod Movements
pub mod Wallets
pub mod Outbox
pub mod Accounts
pub mod Saga
