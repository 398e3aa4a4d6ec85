-- ===== src/Application/GetTransaction.antt =====
-- internal/ledger/application/transaction/get.go, with the details of ports.go.
use distributed_wallet_ledge.Prelude.{ℤ, List, Text}
use distributed_wallet_ledge.Errors.{Result, ◌>>◌, fail_if, invalid_id}
use distributed_wallet_ledge.Domain.Ids.{
  TransactionId, JournalEntryId, PostingId, AccountId, is_zero,
}
use distributed_wallet_ledge.Domain.Posting.{PostingDirection}
use distributed_wallet_ledge.Domain.Hold.{Time}

pub record PostingDetails : Type 0 where
  pub id : PostingId
  pub account_id : AccountId
  pub direction : PostingDirection
  pub amount_minor_units : ℤ

pub record JournalEntryDetails : Type 0 where
  pub id : JournalEntryId
  pub currency : Text
  pub posted_at : Time
  pub postings : List PostingDetails

pub record TransactionDetails : Type 0 where
  pub id : TransactionId
  pub description : Text
  pub created_at : Time
  pub journal_entry : JournalEntryDetails

-- `GetTransactionUseCase.Execute`, over the port `TransactionReader`.
unfoldable pub execute {ℓ} :
    {S : Type ℓ}
    → (TransactionId → S → Result TransactionDetails)
    → TransactionId
    → S
    → Result TransactionDetails
execute reader id s = do fail_if (is_zero id) invalid_id; reader id s
