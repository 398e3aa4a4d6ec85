-- ===== src/Adapters/Http/Movements.antt =====
-- internal/ledger/adapters/http/wallet_handler.go: Deposit, Withdraw and Transfer. `hash` is the
-- SHA-256 of the request's JSON in hexadecimal.
pub mod Outcomes
pub mod Safety
use distributed_wallet_ledge.Prelude.{ℤ, Option, Text, codes}
use distributed_wallet_ledge.Errors.{Result, ok, err, ◌>>=◌}
use distributed_wallet_ledge.Domain.Ids.{WalletId, TransactionId, JournalEntryId, new_id}
use distributed_wallet_ledge.Domain.Transaction.{Transaction}
use distributed_wallet_ledge.Application.Balance.{WalletBalance}
use distributed_wallet_ledge.Application.Holds.{Port}
use distributed_wallet_ledge.Application.Movements.{
  MovementPorts, DepositWalletCommand, WithdrawWalletCommand, TransferWalletCommand, deposit,
  withdraw, transfer,
}
use distributed_wallet_ledge.Adapters.Http.Handling.{
  HttpRequest, Response, Handler, post_only, with_key, decoded, parsed, reply, status_created,
}

pub record DepositWalletRequest : Type 0 where
  pub clearing_account_id : Text
  pub transaction_id : Text
  pub journal_entry_id : Text
  pub clearing_posting_id : Text
  pub wallet_posting_id : Text
  pub amount_minor_units : ℤ
  pub description : Text

pub record WithdrawWalletRequest : Type 0 where
  pub clearing_account_id : Text
  pub transaction_id : Text
  pub journal_entry_id : Text
  pub wallet_posting_id : Text
  pub clearing_posting_id : Text
  pub amount_minor_units : ℤ
  pub description : Text

pub record TransferWalletRequest : Type 0 where
  pub destination_wallet_id : Text
  pub transaction_id : Text
  pub journal_entry_id : Text
  pub source_posting_id : Text
  pub destination_posting_id : Text
  pub amount_minor_units : ℤ
  pub description : Text

pub record TransactionResponse : Type 0 where
  pub id : TransactionId
  pub journal_entry_id : JournalEntryId
  pub description : Text
  pub currency : Text
  pub status : Text

abbrev pub transaction_response : Transaction → TransactionResponse
transaction_response t = record {
  id = t.id;
  journal_entry_id = t.journal_entry.id;
  description = t.description;
  currency = t.journal_entry.currency.code;
  status = codes "posted";
}

-- The commands that the handlers build from a decoded body.
unfoldable pub deposit_of :
    WalletId → Text → Text → DepositWalletRequest → Result DepositWalletCommand
deposit_of wallet_id idempotency_key request_hash request = do
  clearing_account_id ← new_id request.clearing_account_id
  transaction_id ← new_id request.transaction_id
  journal_entry_id ← new_id request.journal_entry_id
  clearing_posting_id ← new_id request.clearing_posting_id
  wallet_posting_id ← new_id request.wallet_posting_id
  ok (record {
    wallet_id = wallet_id;
    clearing_account_id = clearing_account_id;
    transaction_id = transaction_id;
    journal_entry_id = journal_entry_id;
    clearing_posting_id = clearing_posting_id;
    wallet_posting_id = wallet_posting_id;
    amount_minor_units = request.amount_minor_units;
    description = request.description;
    idempotency_key = idempotency_key;
    request_hash = request_hash;
  })

unfoldable pub withdrawal_of :
    WalletId → Text → Text → WithdrawWalletRequest → Result WithdrawWalletCommand
withdrawal_of wallet_id idempotency_key request_hash request = do
  clearing_account_id ← new_id request.clearing_account_id
  transaction_id ← new_id request.transaction_id
  journal_entry_id ← new_id request.journal_entry_id
  wallet_posting_id ← new_id request.wallet_posting_id
  clearing_posting_id ← new_id request.clearing_posting_id
  ok (record {
    wallet_id = wallet_id;
    clearing_account_id = clearing_account_id;
    transaction_id = transaction_id;
    journal_entry_id = journal_entry_id;
    wallet_posting_id = wallet_posting_id;
    clearing_posting_id = clearing_posting_id;
    amount_minor_units = request.amount_minor_units;
    description = request.description;
    idempotency_key = idempotency_key;
    request_hash = request_hash;
  })

unfoldable pub transfer_of :
    WalletId → Text → Text → TransferWalletRequest → Result TransferWalletCommand
transfer_of source_wallet_id idempotency_key request_hash request = do
  destination_wallet_id ← new_id request.destination_wallet_id
  transaction_id ← new_id request.transaction_id
  journal_entry_id ← new_id request.journal_entry_id
  source_posting_id ← new_id request.source_posting_id
  destination_posting_id ← new_id request.destination_posting_id
  ok (record {
    source_wallet_id = source_wallet_id;
    destination_wallet_id = destination_wallet_id;
    transaction_id = transaction_id;
    journal_entry_id = journal_entry_id;
    source_posting_id = source_posting_id;
    destination_posting_id = destination_posting_id;
    amount_minor_units = request.amount_minor_units;
    description = request.description;
    idempotency_key = idempotency_key;
    request_hash = request_hash;
  })

-- The steps that the three handlers share: the guards, the command, and the use case on it.
abbrev pub handle {ℓ} :
    {S : Type ℓ} {B C : Type 0}
    → (B → Text)
    → (WalletId → Text → Text → B → Result C)
    → (C → Port S Transaction)
    → HttpRequest B
    → Handler S TransactionResponse
handle hash command_of execute r = post_only r.is_post (
    parsed (new_id r.url_param) (λ wallet_id. with_key r.idempotency_key (
      decoded r.body (λ request.
        parsed (command_of wallet_id r.idempotency_key (hash request) request)
          (λ c s. reply status_created transaction_response (execute c s))))))

module _ {ℓ} {S : Type ℓ} (ports : MovementPorts S) where
  unfoldable pub handle_deposit :
      (DepositWalletRequest → Text)
      → HttpRequest DepositWalletRequest
      → Handler S TransactionResponse
  unfolding deposit_of
  handle_deposit hash r = handle hash deposit_of (deposit ports) r

  unfoldable pub handle_withdraw :
      Option (WalletId → Port S WalletBalance)
      → (WithdrawWalletRequest → Text)
      → HttpRequest WithdrawWalletRequest
      → Handler S TransactionResponse
  unfolding withdrawal_of
  handle_withdraw projector hash r = handle hash withdrawal_of (withdraw ports projector) r

  unfoldable pub handle_transfer :
      (TransferWalletRequest → Text)
      → HttpRequest TransferWalletRequest
      → Handler S TransactionResponse
  unfolding transfer_of
  handle_transfer hash r = handle hash transfer_of (transfer ports) r
