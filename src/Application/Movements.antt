-- ===== src/Application/Movements.antt =====
-- internal/ledger/application/wallet: deposit.go, withdraw.go and transfer.go.
pub mod Crossings
pub mod Postings
pub mod Soundness
use distributed_wallet_ledge.Prelude.{
  ℤ, pos, not, ◌||◌, ltb_ℤ, eqb_ℤ, ◌=text◌, [], ◌∷◌, Text, Option, none, some, if◌then◌else◌,
}
use distributed_wallet_ledge.Errors.{
  Result, ok, err, ◌>>=◌, ◌>>◌, fail_if, is_insufficient_balance, invalid_id,
  amount_must_not_be_negative, amount_must_be_positive, currency_mismatch, insufficient_funds,
  deposit_same_account, withdrawal_same_account, transfer_same_wallet, transfer_same_account,
}
use distributed_wallet_ledge.Domain.Ids.{
  WalletId, AccountId, TransactionId, JournalEntryId, PostingId, is_zero,
}
use distributed_wallet_ledge.Domain.Currency
use distributed_wallet_ledge.Domain.Posting.{debit, credit}
use distributed_wallet_ledge.Domain.Transaction.{Transaction}
use distributed_wallet_ledge.Domain.Wallet.{Wallet, can_operate}
use distributed_wallet_ledge.Application.Balance.{
  LedgerBalanceSnapshot, WalletBalance, calculate_wallet_balance,
}
use distributed_wallet_ledge.Application.Holds.{Port, then_call, computed, answer}
use distributed_wallet_ledge.Application.PostTransaction.{PostTransactionCommand}

-- The ports `WalletReader`, `WalletBalanceReader` and `TransactionPoster`.
pub record MovementPorts {ℓ} (S : Type ℓ) : Type ℓ where
  pub get_by_id : WalletId → Port S Wallet
  pub get_ledger_balance : AccountId → Port S LedgerBalanceSnapshot
  pub post : PostTransactionCommand → Port S Transaction

pub record DepositWalletCommand : Type 0 where
  pub wallet_id : WalletId
  pub clearing_account_id : AccountId
  pub transaction_id : TransactionId
  pub journal_entry_id : JournalEntryId
  pub clearing_posting_id : PostingId
  pub wallet_posting_id : PostingId
  pub amount_minor_units : ℤ
  pub description : Text
  pub idempotency_key : Text
  pub request_hash : Text

pub record WithdrawWalletCommand : Type 0 where
  pub wallet_id : WalletId
  pub clearing_account_id : AccountId
  pub transaction_id : TransactionId
  pub journal_entry_id : JournalEntryId
  pub wallet_posting_id : PostingId
  pub clearing_posting_id : PostingId
  pub amount_minor_units : ℤ
  pub description : Text
  pub idempotency_key : Text
  pub request_hash : Text

pub record TransferWalletCommand : Type 0 where
  pub source_wallet_id : WalletId
  pub destination_wallet_id : WalletId
  pub transaction_id : TransactionId
  pub journal_entry_id : JournalEntryId
  pub source_posting_id : PostingId
  pub destination_posting_id : PostingId
  pub amount_minor_units : ℤ
  pub description : Text
  pub idempotency_key : Text
  pub request_hash : Text

-- The guards on the amount.
abbrev pub check_amount : ℤ → Result (Unit {0})
check_amount amount = do
  fail_if (ltb_ℤ amount (pos 0)) amount_must_not_be_negative
  fail_if (eqb_ℤ amount (pos 0)) amount_must_be_positive

-- The guards of the three `Execute` before the first call.
unfoldable pub check_deposit : DepositWalletCommand → Result (Unit {0})
check_deposit c = do
  fail_if (is_zero c.wallet_id || is_zero c.clearing_account_id) invalid_id
  fail_if
      (is_zero c.transaction_id
        || is_zero c.journal_entry_id
        || is_zero c.clearing_posting_id
        || is_zero c.wallet_posting_id)
      invalid_id
  check_amount c.amount_minor_units

unfoldable pub check_withdrawal : WithdrawWalletCommand → Result (Unit {0})
check_withdrawal c = do
  fail_if (is_zero c.wallet_id) invalid_id
  fail_if (is_zero c.clearing_account_id) invalid_id
  fail_if
      (is_zero c.transaction_id
        || is_zero c.journal_entry_id
        || is_zero c.wallet_posting_id
        || is_zero c.clearing_posting_id)
      invalid_id
  check_amount c.amount_minor_units

unfoldable pub check_transfer : TransferWalletCommand → Result (Unit {0})
check_transfer c = do
  fail_if (is_zero c.source_wallet_id || is_zero c.destination_wallet_id) invalid_id
  fail_if (c.source_wallet_id =text c.destination_wallet_id) transfer_same_wallet
  fail_if
      (is_zero c.transaction_id
        || is_zero c.journal_entry_id
        || is_zero c.source_posting_id
        || is_zero c.destination_posting_id)
      invalid_id
  check_amount c.amount_minor_units

-- What is checked of the wallets that were read.
unfoldable pub can_deposit : DepositWalletCommand → Wallet → Result (Unit {0})
can_deposit c w = do
  can_operate w
  fail_if (w.ledger_account_id =text c.clearing_account_id) deposit_same_account

unfoldable pub can_withdraw : WithdrawWalletCommand → Wallet → Result (Unit {0})
can_withdraw c w = do
  can_operate w
  fail_if (w.ledger_account_id =text c.clearing_account_id) withdrawal_same_account

unfoldable pub can_transfer : Wallet → Wallet → Result (Unit {0})
can_transfer source destination = do
  can_operate source
  can_operate destination
  fail_if (not (Currency.equal source.currency destination.currency)) currency_mismatch
  fail_if (source.ledger_account_id =text destination.ledger_account_id) transfer_same_account

-- The balance check of withdrawals and transfers.
unfoldable pub has_funds : ℤ → Wallet → LedgerBalanceSnapshot → Result (Unit {0})
has_funds amount w snapshot = do
  balance ← calculate_wallet_balance w snapshot
  fail_if (ltb_ℤ balance.available_balance_minor_units amount) insufficient_funds

-- The commands that the three use cases send to `PostTransactionUseCase`.
unfoldable pub deposit_command : DepositWalletCommand → Wallet → PostTransactionCommand
deposit_command c w = record {
  id = c.transaction_id;
  journal_entry_id = c.journal_entry_id;
  description = c.description;
  currency_code = w.currency.code;
  idempotency_key = c.idempotency_key;
  request_hash = c.request_hash;
  postings =
      (record {
        id = c.clearing_posting_id;
        account_id = c.clearing_account_id;
        direction = debit;
        amount_minor_units = c.amount_minor_units;
      })
      ∷ (record {
        id = c.wallet_posting_id;
        account_id = w.ledger_account_id;
        direction = credit;
        amount_minor_units = c.amount_minor_units;
      })
      ∷ [];
}

unfoldable pub withdrawal_command : WithdrawWalletCommand → Wallet → PostTransactionCommand
withdrawal_command c w = record {
  id = c.transaction_id;
  journal_entry_id = c.journal_entry_id;
  description = c.description;
  currency_code = w.currency.code;
  idempotency_key = c.idempotency_key;
  request_hash = c.request_hash;
  postings =
      (record {
        id = c.wallet_posting_id;
        account_id = w.ledger_account_id;
        direction = debit;
        amount_minor_units = c.amount_minor_units;
      })
      ∷ (record {
        id = c.clearing_posting_id;
        account_id = c.clearing_account_id;
        direction = credit;
        amount_minor_units = c.amount_minor_units;
      })
      ∷ [];
}

unfoldable pub transfer_command : TransferWalletCommand → Wallet → Wallet → PostTransactionCommand
transfer_command c source destination = record {
  id = c.transaction_id;
  journal_entry_id = c.journal_entry_id;
  description = c.description;
  currency_code = source.currency.code;
  idempotency_key = c.idempotency_key;
  request_hash = c.request_hash;
  postings =
      (record {
        id = c.source_posting_id;
        account_id = source.ledger_account_id;
        direction = debit;
        amount_minor_units = c.amount_minor_units;
      })
      ∷ (record {
        id = c.destination_posting_id;
        account_id = destination.ledger_account_id;
        direction = credit;
        amount_minor_units = c.amount_minor_units;
      })
      ∷ [];
}

-- The ledger's refusal becomes the wallet's.
abbrev pub as_funds {ℓ} : {S : Type ℓ} {A : Type 0} → S × Result A → S × Result A
as_funds (s, ok a) = (s, ok a)
as_funds (s, err e) = (s, err (if is_insufficient_balance e then insufficient_funds else e))

-- The projector of a withdrawal, if there is one; what it answers is dropped.
abbrev pub project {ℓ} :
    {S : Type ℓ}
    → Option (WalletId → Port S WalletBalance)
    → WalletId
    → Transaction
    → Port S Transaction
project none wallet_id t s = (s, ok t)
project (some projector) wallet_id t s = ((projector wallet_id s).0, ok t)

module _ {ℓ} {S : Type ℓ} (ports : MovementPorts S) where
  open ports use {get_by_id, get_ledger_balance, post}

  unfoldable pub deposit : DepositWalletCommand → Port S Transaction
  unfolding check_deposit can_deposit deposit_command
  deposit c = computed (check_deposit c) (λ _ s.
      then_call (get_by_id c.wallet_id s)
        (λ w. computed (can_deposit c w) (λ _ s₁. as_funds (post (deposit_command c w) s₁))))

  unfoldable pub withdraw :
      Option (WalletId → Port S WalletBalance) → WithdrawWalletCommand → Port S Transaction
  unfolding check_withdrawal can_withdraw has_funds withdrawal_command
  withdraw projector c = computed (check_withdrawal c) (λ _ s.
      then_call (get_by_id c.wallet_id s) (λ w. computed (can_withdraw c w) (λ _ s₁.
        then_call (get_ledger_balance w.ledger_account_id s₁) (λ snapshot.
          computed (has_funds c.amount_minor_units w snapshot) (λ _ s₂.
            then_call (as_funds (post (withdrawal_command c w) s₂))
              (project projector c.wallet_id))))))

  unfoldable pub transfer : TransferWalletCommand → Port S Transaction
  unfolding check_transfer can_transfer has_funds transfer_command
  transfer c = computed (check_transfer c) (λ _ s.
      then_call (get_by_id c.source_wallet_id s) (λ source s₁.
        then_call (get_by_id c.destination_wallet_id s₁) (λ destination.
          computed (can_transfer source destination) (λ _ s₂.
            then_call (get_ledger_balance source.ledger_account_id s₂) (λ snapshot.
              computed (has_funds c.amount_minor_units source snapshot)
                (λ _ s₃. as_funds (post (transfer_command c source destination) s₃)))))))
