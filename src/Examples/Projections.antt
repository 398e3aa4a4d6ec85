-- ===== src/Examples/Projections.antt =====
-- The theorems about the projections of balances and the pages of an account, applied where their
-- hypotheses hold.
use distributed_wallet_ledge.Prelude.{
  ℕ, ◌≡◌, refl, pos, [], ◌∷◌, none, some, Option, is_space, trim_space, trim_left, trim_right,
  to_upper, upper_rune, byte_len, All,
}
use distributed_wallet_ledge.Errors.{Result, ok, err, message}
use distributed_wallet_ledge.Domain.Ids.{new_id}
use distributed_wallet_ledge.Domain.Currency
use distributed_wallet_ledge.Domain.Currency.{all_letters}
use distributed_wallet_ledge.Postgres.Tables.{Store, PostingRow}
use distributed_wallet_ledge.Postgres.Transactions.{text_lt}
use distributed_wallet_ledge.Postgres.Accounts.{
  account_entries, insert_entry, map_account_entry, map_account_entries, entries_in, comes_before,
}
use distributed_wallet_ledge.Application.Balance.{WalletBalance}
use distributed_wallet_ledge.Application.Accounts.{AccountEntry, check_list}
use distributed_wallet_ledge.Application.Accounts.Pages
use distributed_wallet_ledge.Application.Accounts.Pages.{read_all}
use distributed_wallet_ledge.Application.Accounts.Reading
use distributed_wallet_ledge.Application.Accounts.Reading.{entries_port}
use distributed_wallet_ledge.Application.Wallets.{WalletPorts, Projections}
use distributed_wallet_ledge.Domain.Posting
use distributed_wallet_ledge.Examples.Data.{
  scan, wallet_account, wallet_id, usd, entry, payment, wallet, funded,
}

-- Wallets under any identifier, a hundred on each, and one saved projection.
abbrev wallet_ports : WalletPorts (Option WalletBalance)
wallet_ports = record {
  create = λ w s. (s, ok tt);
  get_by_id = λ id s. (s, ok (record wallet { id = id }));
  list_by_owner_id = λ id s. (s, ok []);
  get_ledger_balance = λ a s. (
    s,
    ok (record { total_debits = pos 0; total_credits = pos 100; active_holds_minor_units = pos 0 }),
  );
}

abbrev read_saved : Option WalletBalance → Result WalletBalance
read_saved none = err message
read_saved (some b) = ok b

abbrev projections : Projections (Option WalletBalance)
projections = record {
  save_wallet_balance = λ b s. (some b, ok tt);
  get_wallet_balance = λ id s. (s, read_saved s);
}

abbrev hundred : WalletBalance
hundred = record {
  wallet_id = wallet_id;
  currency = usd;
  ledger_balance_minor_units = pos 100;
  available_balance_minor_units = pos 100;
}

-- The payment as it stands in the tables.
abbrev booked : Store
booked = record funded {
  transactions =
      record { id = payment.id; description = payment.description; reverses_transaction_id = none }
      ∷ [];
  journal_entries = record { id = entry.id; transaction_id = payment.id; currency = usd.code } ∷ [];
  postings = booked_posting 1 ∷ booked_posting 2 ∷ [];
}
  where
    booked_posting : ℕ → PostingRow
    booked_posting n = record {
      id = n ∷ [];
      journal_entry_id = entry.id;
      account_id = wallet_account;
      direction = Posting.debit;
      amount_minor_units = 30;
    }

abbrev booked_entry : ℕ → AccountEntry
booked_entry n = record {
  posting_id = n ∷ [];
  journal_entry_id = entry.id;
  transaction_id = payment.id;
  description = payment.description;
  currency = usd;
  direction = Posting.debit;
  amount_minor = pos 30;
  created_at = 7;
}

-- Both were made in one instant: the second identifier comes first.
entries-mapped :
    map_account_entries (entries_in (λ u. 7) wallet_account booked)
    ≡ ok (booked_entry 2 ∷ booked_entry 1 ∷ [])
unfolding map_account_entries map_account_entry account_entries insert_entry comes_before text_lt
    new_id is_space trim_space trim_left trim_right to_upper upper_rune Currency.new_currency
    Currency.validate byte_len all_letters
entries-mapped = refl

entries-clean : All (Pages.IsCleanRow scan) (entries_in (λ u. 7) wallet_account booked)
unfolding account_entries insert_entry comes_before text_lt new_id is_space trim_space trim_left
    trim_right
entries-clean = ((refl, refl), ((refl, refl), tt))

one_by_one :
    check_list (record { account_id = wallet_account; limit = pos 1; cursor = none }) ≡ ok 1
unfolding check_list
one_by_one = refl

read_all-entries_example :
    read_all
      (entries_port scan (λ u. 7))
      3
      (record { account_id = wallet_account; limit = pos 1; cursor = none })
      booked
    ≡ ok (booked_entry 2 ∷ booked_entry 1 ∷ [])
read_all-entries_example =
    Reading.read_all-entries scan (λ u. 7) wallet_account (pos 1) wallet_account booked 0
      (booked_entry 2 ∷ booked_entry 1 ∷ []) refl one_by_one (refl, (refl, tt)) entries-clean
      entries-mapped
