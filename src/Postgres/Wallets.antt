-- ===== src/Postgres/Wallets.antt =====
-- internal/ledger/adapters/postgres/wallet_repository.go, with CreateWallet and
-- ListWalletsByOwnerID. The rows of wallets are newest first, as the latter orders them; rows of one
-- instant, which it orders by identifier, stay in the order of insertion.
pub mod RoundTrip
use distributed_wallet_ledge.Prelude.{
  not, ◌||◌, ◌=text◌, List, [], ◌∷◌, Option, Text, to_upper, if◌then◌else◌,
}
use distributed_wallet_ledge.Errors.{
  Result, ok, err, ◌>>=◌, ◌>>◌, fail_if, wrap_error, or_fail, wallet_not_found, unique_violation,
  foreign_key_violation, check_violation,
}
use distributed_wallet_ledge.Domain.Ids.{OwnerId, WalletId, AccountId, new_id}
use distributed_wallet_ledge.Domain.Currency.{new_currency}
use distributed_wallet_ledge.Domain.Wallet.{Wallet, WalletStatus, other, reconstitute_wallet}
use distributed_wallet_ledge.Domain.Hold.{Time}
use distributed_wallet_ledge.Postgres.Tables.{Uuid, WalletRow, Store}
use distributed_wallet_ledge.Postgres.Queries.{exists, get_wallet_by_id, get_ledger_balance}
use distributed_wallet_ledge.Postgres.Transactions.{to_uuid}
use distributed_wallet_ledge.Application.Balance.{LedgerBalanceSnapshot}

abbrev pub check_status : WalletStatus → Result (Unit {0})
check_status (other t) = err check_violation
check_status _ = ok tt

-- INSERT INTO wallets, with the primary key, the unique ledger account, its foreign key and the
-- checks; the width of the currency is not modelled.
unfoldable pub create_wallet : WalletRow → Store → Result Store
create_wallet row s = do
  fail_if (not (row.currency =text to_upper row.currency)) check_violation
  check_status row.status
  fail_if
      (exists (λ w. w.id =text row.id || w.ledger_account_id =text row.ledger_account_id) s.wallets)
      unique_violation
  fail_if (not (exists (λ a. a.id =text row.ledger_account_id) s.accounts)) foreign_key_violation
  ok (record s { wallets = row ∷ s.wallets })

unfoldable pub list_wallets_by_owner_id : Text → List WalletRow → List WalletRow
list_wallets_by_owner_id owner [] = []
list_wallets_by_owner_id owner (w ∷ ws) =
    let rest = list_wallets_by_owner_id owner ws in
    if w.owner_id =text owner then w ∷ rest else rest

unfoldable pub map_wallet : WalletRow → Result Wallet
map_wallet row = do
  wallet_id ← new_id row.id
  owner_id ← new_id row.owner_id
  ledger_account_id ← new_id row.ledger_account_id
  currency ← new_currency row.currency
  reconstitute_wallet wallet_id owner_id ledger_account_id currency row.status

-- The loop of `ListByOwnerID`.
unfoldable pub map_wallets : List WalletRow → Result (List Wallet)
map_wallets [] = ok []
map_wallets (row ∷ rows) = do w ← wrap_error (map_wallet row); ws ← map_wallets rows; ok (w ∷ ws)

unfoldable pub list_by_owner_id : OwnerId → Store → Result (List Wallet)
list_by_owner_id owner s = map_wallets (list_wallets_by_owner_id owner s.wallets)

module _ (scan_uuid : Text → Option Uuid) where
  unfoldable pub create : Wallet → Store → Result Store
  create w s = do
    wallet_id ← to_uuid scan_uuid w.id
    ledger_account_id ← to_uuid scan_uuid w.ledger_account_id
    wrap_error (
        create_wallet
          (record {
            id = wallet_id;
            owner_id = w.owner_id;
            ledger_account_id = ledger_account_id;
            currency = w.currency.code;
            status = w.status;
          })
          s)

  unfoldable pub get_by_id : WalletId → Store → Result Wallet
  get_by_id wallet_id s = do
    database_wallet_id ← to_uuid scan_uuid wallet_id
    persisted ← or_fail (get_wallet_by_id database_wallet_id s) wallet_not_found
    wrap_error (map_wallet persisted)

  -- `GetLedgerBalance` of the repository.
  unfoldable pub ledger_balance : Time → AccountId → Store → Result LedgerBalanceSnapshot
  ledger_balance now account_id s = do
    database_account_id ← to_uuid scan_uuid account_id
    balance ← wrap_error (get_ledger_balance now database_account_id s)
    ok (record {
      total_debits = balance.total_debits;
      total_credits = balance.total_credits;
      active_holds_minor_units = balance.active_holds;
    })
