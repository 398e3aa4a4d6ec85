-- ===== src/Examples/Services.antt =====
-- The theorems about the services around the ledger, applied where their hypotheses hold.
use distributed_wallet_ledge.Prelude.{
  ℕ, ◌+◌, ◌≡◌, refl, pos, wrap64, ◌+ℤ◌, ◌-ℤ◌, [], ◌∷◌, none, Text, is_space, trim_space, trim_left,
  trim_right, to_upper, upper_rune, byte_len,
}
use distributed_wallet_ledge.Errors.{ok}
use distributed_wallet_ledge.Domain.Ids.{new_id}
use distributed_wallet_ledge.Domain.Currency
use distributed_wallet_ledge.Domain.Currency.{all_letters}
use distributed_wallet_ledge.Domain.Money
use distributed_wallet_ledge.Domain.Posting
use distributed_wallet_ledge.Domain.JournalEntry
use distributed_wallet_ledge.Domain.JournalEntry.{
  scan_postings, accumulate, is_balanced, total_debits, total_credits,
}
use distributed_wallet_ledge.Domain.Transaction
use distributed_wallet_ledge.Domain.Transaction.{Transaction}
use distributed_wallet_ledge.Domain.Wallet
use distributed_wallet_ledge.Domain.Wallet.{Wallet}
use distributed_wallet_ledge.Postgres.Refinement
use distributed_wallet_ledge.Postgres.Solvency.Invariant.{IsSound}
use distributed_wallet_ledge.Application.Balance.{calculate_wallet_balance}
use distributed_wallet_ledge.Application.PostTransaction.{
  prepare, make_postings, execute, LedgerRepository,
}
use distributed_wallet_ledge.Application.Movements.{
  MovementPorts, DepositWalletCommand, WithdrawWalletCommand, withdraw, check_withdrawal,
  can_withdraw, has_funds, withdrawal_command,
}
use distributed_wallet_ledge.Application.Movements.Postings
use distributed_wallet_ledge.Application.Movements.Crossings.{
  Takes, projected, move, Movement, Names, Moves,
}
use distributed_wallet_ledge.Application.Movements.Soundness
use distributed_wallet_ledge.Application.Movements.Soundness.{postgres_ports}
use distributed_wallet_ledge.Examples.Data.{
  scan, wallet_account, other_account, wallet_id, key, hash, event_id, entry, payment, wallet,
  funded, seen_funded,
}
use distributed_wallet_ledge.Examples.Runs.{
  paid, payment-posted, funded-IsSolvent, entry-IsDoubleEntry,
}

post-Refines_example :
    Refinement.view paid ≡ Refinement.book payment key hash (Refinement.view funded)
post-Refines_example =
    Refinement.post-Refines scan 10 event_id seen_funded payment key hash funded paid
      entry-IsDoubleEntry (refl, (refl, tt)) refl
      (record { first = λ row found. found; last = λ row found. found }) payment-posted

-- A ledger that takes everything and counts, and a wallet with a hundred.
abbrev counting : LedgerRepository ℕ
counting t k h n = (n + 1, ok tt)

abbrev rich : MovementPorts ℕ
rich = record {
  get_by_id = λ id n. (n, ok wallet);
  get_ledger_balance = λ a n. (
    n,
    ok (record { total_debits = pos 0; total_credits = pos 100; active_holds_minor_units = pos 0 }),
  );
  post = execute counting;
}

abbrev withdrawal : WithdrawWalletCommand
withdrawal = record {
  wallet_id = wallet_id;
  clearing_account_id = other_account;
  transaction_id = payment.id;
  journal_entry_id = entry.id;
  wallet_posting_id = 1 ∷ [];
  clearing_posting_id = 2 ∷ [];
  amount_minor_units = pos 30;
  description = payment.description;
  idempotency_key = key;
  request_hash = hash;
}

withdrawn : move rich none (Movement.withdraws withdrawal) 0 ≡ (1, ok payment)
unfolding withdraw check_withdrawal can_withdraw has_funds withdrawal_command
    calculate_wallet_balance Wallet.can_operate Wallet.validate execute prepare make_postings
    is_space trim_space trim_left trim_right to_upper upper_rune Currency.new_currency
    Posting.new_posting JournalEntry.new_journal_entry Transaction.new_transaction wrap64 ◌+ℤ◌ ◌-ℤ◌
    byte_len all_letters Currency.validate Money.validate Money.add Posting.validate
    JournalEntry.validate scan_postings is_balanced accumulate total_debits total_credits
    Money.new_money Money.equal Transaction.validate
withdrawn = refl

move-Moves_example :
    (payer payee : Text) × (finish : ℕ) × Names rich (Movement.withdraws withdrawal) payer payee
    × Moves (pos 30) payer payee payment
    × Takes counting payment finish
    × (1 ≡ projected none (Movement.withdraws withdrawal) finish)
move-Moves_example =
    Postings.move-Moves rich counting none (Movement.withdraws withdrawal) 0 1 payment refl
      withdrawn

abbrev deposit_command : DepositWalletCommand
deposit_command = record {
  wallet_id = wallet_id;
  clearing_account_id = other_account;
  transaction_id = payment.id;
  journal_entry_id = entry.id;
  clearing_posting_id = 1 ∷ [];
  wallet_posting_id = 2 ∷ [];
  amount_minor_units = pos 30;
  description = payment.description;
  idempotency_key = key;
  request_hash = hash;
}

wallet_account-clean : new_id wallet_account ≡ ok wallet_account
unfolding new_id is_space trim_space trim_left trim_right
wallet_account-clean = refl

move-IsSound_example :
    IsSound 10
      (move
        (postgres_ports scan 10 event_id seen_funded)
        none
        (Movement.deposits deposit_command)
        funded).0
move-IsSound_example =
    Soundness.move-IsSound scan 10 event_id seen_funded none (λ p id s e. cc)
      (Movement.deposits deposit_command) funded ((wallet_account-clean, refl), tt) refl
      (funded-IsSolvent, refl)
