-- ===== src/Postgres/Tables.antt =====
-- The tables of migrations/*.up.sql as lists of rows, newest first. A UUID stands for its canonical
-- text. A column with the constraint `> 0` holds a natural number. `created_at` and `updated_at`
-- are kept where a query reads them. A payload is the text of its JSON.
use distributed_wallet_ledge.Prelude.{ℕ, Text, List, Option}
use distributed_wallet_ledge.Domain.Account.{AccountStatus}
use distributed_wallet_ledge.Domain.Posting.{PostingDirection}
use distributed_wallet_ledge.Domain.Wallet.{WalletStatus}
use distributed_wallet_ledge.Domain.Hold.{HoldStatus, Time}
use distributed_wallet_ledge.Domain.OutboxEvent.{EventStatus}

abbrev pub Uuid : Type 0
Uuid = Text

pub record AccountRow : Type 0 where
  pub id : Uuid
  pub code : Text
  pub name : Text
  pub currency : Text
  pub status : AccountStatus

pub record TransactionRow : Type 0 where
  pub id : Uuid
  pub description : Text
  pub reverses_transaction_id : Option Uuid

pub record JournalEntryRow : Type 0 where
  pub id : Uuid
  pub transaction_id : Uuid
  pub currency : Text

pub record PostingRow : Type 0 where
  pub id : Uuid
  pub journal_entry_id : Uuid
  pub account_id : Uuid
  pub direction : PostingDirection
  pub amount_minor_units : ℕ

pub record KeyRow : Type 0 where
  pub idempotency_key : Text
  pub request_hash : Text
  pub transaction_id : Uuid

pub record WalletRow : Type 0 where
  pub id : Uuid
  pub owner_id : Text
  pub ledger_account_id : Uuid
  pub currency : Text
  pub status : WalletStatus

pub record HoldRow : Type 0 where
  pub id : Uuid
  pub wallet_id : Uuid
  pub amount_minor_units : ℕ
  pub currency : Text
  pub status : HoldStatus
  pub idempotency_key : Text
  pub request_hash : Text
  pub expires_at : Time
  pub created_at : Time

pub record EventRow : Type 0 where
  pub id : Uuid
  pub aggregate_type : Text
  pub aggregate_id : Text
  pub event_type : Text
  pub payload : Text
  pub status : EventStatus
  pub retry_count : ℕ
  pub last_error : Option Text
  pub created_at : Time
  pub processed_at : Option Time
  pub updated_at : Time

-- The idempotency keys are those of the scope "transaction.post", the only one in use.
pub record Store : Type 0 where
  pub accounts : List AccountRow
  pub transactions : List TransactionRow
  pub journal_entries : List JournalEntryRow
  pub postings : List PostingRow
  pub idempotency_keys : List KeyRow
  pub wallets : List WalletRow
  pub wallet_holds : List HoldRow
  pub outbox_events : List EventRow
