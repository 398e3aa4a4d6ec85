-- ===== src/Application/ReverseTransaction.antt =====
-- internal/ledger/application/transaction/reverse.go.
use distributed_wallet_ledge.Prelude.{List, Text, trim_space, is_empty}
use distributed_wallet_ledge.Errors.{
  Result, ok, ◌>>=◌, ◌>>◌, fail_if, empty_idempotency_key, empty_request_hash, invalid_id,
}
use distributed_wallet_ledge.Domain.Ids.{TransactionId, JournalEntryId, PostingId, is_zero}
use distributed_wallet_ledge.Domain.Transaction.{Transaction, reverse}
use distributed_wallet_ledge.Application.PostTransaction.{LedgerRepository, posted_by}

pub record ReverseTransactionCommand : Type 0 where
  pub original_transaction_id : TransactionId
  pub new_transaction_id : TransactionId
  pub new_journal_entry_id : JournalEntryId
  pub new_posting_ids : List PostingId
  pub description : Text
  pub idempotency_key : Text
  pub request_hash : Text

-- The port `TransactionAggregateReader`, which reads.
abbrev pub AggregateReader {ℓ} : Type ℓ → Type ℓ
AggregateReader S = TransactionId → S → Result Transaction

-- `Execute` up to the call of the ledger.
unfoldable pub prepare {ℓ} :
    {S : Type ℓ}
    → AggregateReader S
    → ReverseTransactionCommand
    → S
    → Result (Transaction × Text × Text)
prepare get_aggregate command s = do
  let idempotency_key = trim_space command.idempotency_key
  fail_if (is_empty idempotency_key) empty_idempotency_key
  let request_hash = trim_space command.request_hash
  fail_if (is_empty request_hash) empty_request_hash
  fail_if (is_zero command.original_transaction_id) invalid_id
  original ← get_aggregate command.original_transaction_id s
  reversal ←
      reverse original command.new_transaction_id command.new_journal_entry_id
        command.new_posting_ids command.description
  ok (reversal, idempotency_key, request_hash)

unfoldable pub execute {ℓ} :
    {S : Type ℓ}
    → AggregateReader S
    → LedgerRepository S
    → ReverseTransactionCommand
    → S
    → S × Result Transaction
unfolding prepare
execute get_aggregate ledger command s = posted_by ledger (prepare get_aggregate command s) s
