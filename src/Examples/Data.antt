-- ===== src/Examples/Data.antt =====
-- A ledger with two accounts, of which the first belongs to a wallet.
use distributed_wallet_ledge.Prelude.{ℕ, ◌+◌, pos, List, [], ◌∷◌, Text, Option, none, some}
use distributed_wallet_ledge.Domain.Account.{AccountStatus}
use distributed_wallet_ledge.Domain.Currency.{Currency}
use distributed_wallet_ledge.Domain.Money.{Money}
use distributed_wallet_ledge.Domain.Posting.{Posting, PostingDirection, debit, credit}
use distributed_wallet_ledge.Domain.JournalEntry.{JournalEntry}
use distributed_wallet_ledge.Domain.Transaction.{Transaction}
use distributed_wallet_ledge.Domain.Wallet.{Wallet, open_status}
use distributed_wallet_ledge.Domain.Hold.{Hold, authorized}
use distributed_wallet_ledge.Postgres.Tables.{
  Uuid, AccountRow, PostingRow, WalletRow, HoldRow, Store,
}
use distributed_wallet_ledge.Postgres.Transactions.{Lookups}

-- Identifiers of one letter, each its own canonical text.
abbrev pub scan : Text → Option Uuid
scan t = some t

abbrev pub wallet_account : Text
wallet_account = 97 ∷ []

abbrev pub other_account : Text
other_account = 98 ∷ []

abbrev pub wallet_id : Text
wallet_id = 119 ∷ []

abbrev pub hold_id : Text
hold_id = 104 ∷ []

abbrev pub key : Text
key = 107 ∷ []

abbrev pub hash : Text
hash = 35 ∷ []

abbrev pub event_id : ℕ → Uuid
event_id n = (200 + n) ∷ []

abbrev pub usd : Currency
usd = record { code = 85 ∷ 83 ∷ 68 ∷ [] }

abbrev pub dollars : ℕ → Money
dollars n = record { currency = usd; amount_minor_units = pos n }

abbrev pub posting : ℕ → Text → PostingDirection → ℕ → Posting
posting id account direction n = record {
  id = id ∷ [];
  account_id = account;
  direction = direction;
  amount = dollars n;
}

-- Thirty from the wallet's account to the other.
abbrev pub entry : JournalEntry
entry = record {
  id = 106 ∷ [];
  transaction_id = 116 ∷ [];
  currency = usd;
  postings = posting 1 wallet_account debit 30 ∷ posting 2 other_account credit 30 ∷ [];
}

abbrev pub payment : Transaction
payment = record {
  id = 116 ∷ [];
  description = 112 ∷ [];
  journal_entry = entry;
  reverses_transaction_id = none;
}

abbrev pub wallet : Wallet
wallet = record {
  id = wallet_id;
  owner_id = 111 ∷ [];
  ledger_account_id = wallet_account;
  currency = usd;
  status = open_status;
}

abbrev pub hold : Hold
hold = record {
  id = hold_id;
  wallet_id = wallet_id;
  amount = dollars 30;
  status = authorized;
  created_at = 5;
  expires_at = 100;
}

abbrev pub posting_row : ℕ → Text → PostingDirection → ℕ → PostingRow
posting_row id account direction n = record {
  id = id ∷ [];
  journal_entry_id = 48 ∷ [];
  account_id = account;
  direction = direction;
  amount_minor_units = n;
}

abbrev pub account_row : Text → AccountRow
account_row id = record {
  id = id;
  code = id;
  name = id;
  currency = usd.code;
  status = AccountStatus.open_status;
}

abbrev pub wallet_row : WalletRow
wallet_row = record {
  id = wallet_id;
  owner_id = 111 ∷ [];
  ledger_account_id = wallet_account;
  currency = usd.code;
  status = open_status;
}

abbrev pub hold_row : HoldRow
hold_row = record {
  id = hold_id;
  wallet_id = wallet_id;
  amount_minor_units = 30;
  currency = usd.code;
  status = authorized;
  idempotency_key = key;
  request_hash = hash;
  expires_at = 100;
  created_at = 5;
}

-- A hundred on the wallet's account, with and without a hold of thirty.
abbrev pub funded_with : List HoldRow → Store
funded_with holds = record {
  accounts = account_row wallet_account ∷ account_row other_account ∷ [];
  transactions = [];
  journal_entries = [];
  postings = posting_row 3 wallet_account credit 100 ∷ posting_row 4 other_account debit 100 ∷ [];
  idempotency_keys = [];
  wallets = wallet_row ∷ [];
  wallet_holds = holds;
  outbox_events = [];
}

abbrev pub funded : Store
funded = funded_with []

abbrev pub held : Store
held = funded_with (hold_row ∷ [])

-- Lookups that saw the funded ledger.
abbrev pub seen_funded : Lookups
seen_funded = record { before = funded; after_rollback = funded }
