-- ===== src/Examples/Parts.antt =====
-- The theorems about the parts of the domain, the breaker and the saga, applied where their
-- hypotheses hold.
use distributed_wallet_ledge.Prelude.{
  to_upper, trim_space, length, All, ℕ, ◌+◌, ◌≤◌, ◌≡◌, ◌≢◌, ◌↔◌, refl, ap, ◌=text◌, true, false,
  leb→le, pos, int64_half, max_int64, wrap64, ◌+ℤ◌, ◌-ℤ◌, [], ◌∷◌, none, some, is_space, trim_space,
  trim_left, trim_right, byte_len,
}
use distributed_wallet_ledge.Errors.{Result, ok, err, message, circuit_breaker_open}
use distributed_wallet_ledge.Domain.Currency
use distributed_wallet_ledge.Domain.Currency.{Currency, all_letters}
use distributed_wallet_ledge.Domain.Currency.Codes
use distributed_wallet_ledge.Domain.Money
use distributed_wallet_ledge.Domain.Money.{Money}
use distributed_wallet_ledge.Domain.Money.Laws
use distributed_wallet_ledge.Domain.Posting
use distributed_wallet_ledge.Domain.JournalEntry
use distributed_wallet_ledge.Domain.JournalEntry.{
  JournalEntry, scan_postings, accumulate, is_balanced, total_debits, total_credits,
}
use distributed_wallet_ledge.Domain.JournalEntry.Balance
use distributed_wallet_ledge.Domain.JournalEntry.Balance.{IsDoubleEntry}
use distributed_wallet_ledge.Domain.Transaction
use distributed_wallet_ledge.Domain.Transaction.{Transaction, reverse_postings}
use distributed_wallet_ledge.Domain.Transaction.Validity
use distributed_wallet_ledge.Domain.Transaction.Validity.{IsValid}
use distributed_wallet_ledge.Domain.Transaction.Reversal
use distributed_wallet_ledge.Domain.Wallet
use distributed_wallet_ledge.Domain.Wallet.{Wallet, WalletStatus, open_status, closed_status}
use distributed_wallet_ledge.Domain.Wallet.Lifecycle as Calls
use distributed_wallet_ledge.Domain.Hold.Lifecycle
use distributed_wallet_ledge.Application.Balance as Balances
use distributed_wallet_ledge.Application.Balance.{WalletBalance, calculate_wallet_balance}
use distributed_wallet_ledge.Application.Saga.{Ports, ProcessPaymentCommand, execute}
use distributed_wallet_ledge.Application.Saga.Runs
use distributed_wallet_ledge.Application.Saga.Log.{logged, is_ok, IsRun}
use distributed_wallet_ledge.Resilience.{
  Config, CircuitBreaker, state_open, before_execution, new_circuit_breaker,
}
use distributed_wallet_ledge.Resilience.Traffic
use distributed_wallet_ledge.Resilience.Traffic.{Action, begins, ends, looks, run}
use distributed_wallet_ledge.Resilience.Rejections
use distributed_wallet_ledge.Examples.Data.{usd, entry, payment, wallet, hold}

validate_entry_iff_example : (JournalEntry.validate entry ≡ ok tt) ↔ IsDoubleEntry entry
validate_entry_iff_example = Balance.validate_entry_iff entry

validate_transaction_iff_example : (Transaction.validate payment ≡ ok tt) ↔ IsValid payment
validate_transaction_iff_example = Validity.validate_transaction_iff payment

payment-valid : Transaction.validate payment ≡ ok tt
unfolding wrap64 ◌+ℤ◌ ◌-ℤ◌ byte_len all_letters Currency.validate Money.validate Money.add
    Posting.validate JournalEntry.validate scan_postings is_balanced accumulate total_debits
    total_credits Money.new_money Money.equal Transaction.validate
payment-valid = refl

abbrev transaction_of : Result Transaction → Transaction
transaction_of (ok t) = t
transaction_of (err e) = payment

abbrev undone : Transaction
undone =
    transaction_of
      (Transaction.reverse payment (117 ∷ []) (118 ∷ []) ((3 ∷ []) ∷ (4 ∷ []) ∷ []) (117 ∷ []))

payment-reversed :
    Transaction.reverse payment (117 ∷ []) (118 ∷ []) ((3 ∷ []) ∷ (4 ∷ []) ∷ []) (117 ∷ [])
    ≡ ok undone
unfolding Transaction.reverse reverse_postings Posting.new_posting JournalEntry.new_journal_entry
    is_space trim_space trim_left trim_right wrap64 ◌+ℤ◌ ◌-ℤ◌ byte_len all_letters Currency.validate
    Money.validate Money.add Posting.validate JournalEntry.validate scan_postings is_balanced
    accumulate total_debits total_credits Money.new_money Money.equal Transaction.validate
payment-reversed = refl

reverse-Compensates_example : IsValid undone × Reversal.Compensates payment undone
reverse-Compensates_example =
    Reversal.reverse-Compensates payment (117 ∷ []) (118 ∷ []) ((3 ∷ []) ∷ (4 ∷ []) ∷ []) (117 ∷ [])
      undone payment-reversed

true-false : true ≢ false
true-false h = cc

new-id : (117 ∷ []) ≢ payment.id
new-id e = true-false (ap (λ t. t =text (117 ∷ [])) e)

reverse-ok_example :
    Transaction.reverse payment (117 ∷ []) (118 ∷ []) ((3 ∷ []) ∷ (4 ∷ []) ∷ []) (117 ∷ [])
    ≡ ok (Reversal.reversal payment (117 ∷ []) (118 ∷ []) ((3 ∷ []) ∷ (4 ∷ []) ∷ []) (117 ∷ []))
unfolding is_space trim_space trim_left trim_right
reverse-ok_example =
    Reversal.reverse-ok payment (117 ∷ []) (118 ∷ []) ((3 ∷ []) ∷ (4 ∷ []) ∷ []) (117 ∷ [])
      ((Validity.validate_transaction_iff payment).0 payment-valid) refl refl refl new-id refl
      (refl, (refl, tt)) refl

run_once_example : (Lifecycle.run hold (Lifecycle.captures 50 ∷ Lifecycle.releases 60 ∷ [])).1 ≤ 1
run_once_example = Lifecycle.run_once hold (Lifecycle.captures 50 ∷ Lifecycle.releases 60 ∷ [])

can_operate_iff_example :
    (Wallet.can_operate wallet ≡ ok tt)
    ↔ ((Wallet.validate wallet ≡ ok tt) × (wallet.status ≡ open_status))
can_operate_iff_example = Calls.can_operate_iff wallet

call-Advances_example :
    Calls.Advances wallet (Calls.call wallet Calls.closes).0 (Calls.call wallet Calls.closes).1
call-Advances_example = Calls.call-Advances wallet Calls.closes

wallet-valid : Wallet.validate wallet ≡ ok tt
unfolding Wallet.validate Currency.validate byte_len all_letters
wallet-valid = refl

calculate_wallet_balance-exact_example :
    (b : WalletBalance) × (calculate_wallet_balance wallet (record {
      total_debits = pos 30;
      total_credits = pos 100;
      active_holds_minor_units = pos 20;
    })
      ≡ ok b)
    × (b.ledger_balance_minor_units ≡ pos 70)
    × ((b.available_balance_minor_units ≡ pos 50) ↔ (50 ≤ 100 + int64_half))
calculate_wallet_balance-exact_example =
    Balances.calculate_wallet_balance-exact wallet 100 30 20 wallet-valid
      (leb→le 100 max_int64 refl) (leb→le 30 max_int64 refl) (leb→le 20 max_int64 refl)

usd-valid : Currency.validate usd ≡ ok tt
unfolding Currency.validate byte_len all_letters
usd-valid = refl

new_currency_iff_example : (Currency.new_currency usd.code ≡ ok usd) ↔ (
    (usd.code ≡ to_upper (trim_space usd.code))
    × (length usd.code ≡ 3)
    × All Codes.IsCapital usd.code)
new_currency_iff_example = Codes.new_currency_iff usd.code usd

add-money_example : Money.add (Laws.money usd 30) (Laws.money usd 12) ≡ ok (Laws.money usd 42)
add-money_example = Laws.add-money usd 30 12 usd-valid (leb→le 30 max_int64 refl)

abbrev config : Config
config = record { failure_threshold = pos 2; success_threshold = pos 1; timeout = pos 50 }

run-IsWellFormed_example :
    Traffic.IsWellFormed
      (run (begins 1 ∷ ends 2 (some message) ∷ looks 3 ∷ []) (new_circuit_breaker 0 config))
run-IsWellFormed_example =
    Traffic.run-IsWellFormed 0 config (begins 1 ∷ ends 2 (some message) ∷ looks 3 ∷ [])

abbrev open_breaker : CircuitBreaker
open_breaker = record {
  failure_threshold = 2;
  success_threshold = 1;
  timeout = 50;
  state = state_open;
  failure_count = 0;
  success_count = 0;
  last_state_change = 100;
}

run-refuses_example :
    before_execution 140 (run (begins 110 ∷ ends 120 none ∷ []) open_breaker)
    ≡ (open_breaker, err circuit_breaker_open)
run-refuses_example =
    Rejections.run-refuses (begins 110 ∷ ends 120 none ∷ []) open_breaker 140 refl
      (leb→le 111 150 refl, (leb→le 121 150 refl, tt)) (leb→le 141 150 refl)

failures-trip_example :
    (run
      (Rejections.failures ((7, message) ∷ (9, message) ∷ []))
      (new_circuit_breaker 0 config)).state
    ≡ state_open
failures-trip_example = Rejections.failures-trip ((7, message) ∷ (9, message) ∷ []) 0 config

-- Ports that agree to everything and count their calls.
abbrev ports : Ports ℕ
ports = record {
  authorize = λ c n. (n + 1, ok hold);
  evaluate = λ c n. (n + 1, ok (record { approved = true }));
  process_payment = λ c n. (n + 1, ok (record { success = true; transaction_id = [] }));
  capture = λ c n. (n + 1, ok (hold, payment));
  release = λ c n. (n + 1, ok hold);
}

abbrev checkout : ProcessPaymentCommand
checkout = record {
  hold_id = hold.id;
  wallet_id = wallet.id;
  settlement_account_id = 98 ∷ [];
  transaction_id = payment.id;
  journal_entry_id = entry.id;
  wallet_posting_id = 1 ∷ [];
  settlement_posting_id = 2 ∷ [];
  amount_minor_units = pos 30;
  currency = usd;
  recipient = 114 ∷ [];
  description = 112 ∷ [];
  hold_expires_at = 100;
  idempotency_key = 107 ∷ [];
  request_hash = 35 ∷ [];
}

execute-IsRun_example :
    let out = execute (logged ports) checkout (0, []) in IsRun out.0.1 (is_ok out.1)
execute-IsRun_example = Runs.execute-IsRun ports checkout 0
