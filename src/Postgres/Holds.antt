-- ===== src/Postgres/Holds.antt =====
-- internal/ledger/adapters/postgres/hold_repository.go. `now` is the database's clock and `at` the
-- clock of `Capture`.
pub mod Settlement
pub mod Captures
pub mod Funds
pub mod DoubleCount
pub mod Owners
pub mod Authorizations
use distributed_wallet_ledge.Prelude.{
  ℕ, suc, zero, ℤ, pos, Bool, true, false, not, ◌&&◌, ◌||◌, ltb, leb, ltb_ℤ, ◌==◌, ◌-64◌, ◌=text◌,
  List, [], ◌∷◌, Option, none, some, Text, if◌then◌else◌, take,
}
use distributed_wallet_ledge.Errors.{
  Result, ok, err, ◌>>=◌, ◌>>◌, fail_if, wrap_error, or_fail, message, hold_not_found,
  wallet_not_found, hold_idempotency_conflict, insufficient_funds, hold_not_authorized,
  hold_expired,
}
use distributed_wallet_ledge.Domain.Ids.{HoldId, new_id}
use distributed_wallet_ledge.Domain.Currency.{new_currency}
use distributed_wallet_ledge.Domain.Money.{new_money}
use distributed_wallet_ledge.Domain.Transaction.{Transaction}
use distributed_wallet_ledge.Domain.Hold.{
  Hold, HoldStatus, Time, captured, is_authorized, is_captured, before, validate_status,
  reconstitute_hold,
}
use distributed_wallet_ledge.Postgres.Tables.{Uuid, WalletRow, HoldRow, Store}
use distributed_wallet_ledge.Postgres.Queries.{
  get_wallet_by_id, get_wallet_hold_by_id, get_wallet_hold_by_idempotency_key, get_ledger_balance,
  create_wallet_hold, update_wallet_hold_status,
}
use distributed_wallet_ledge.Postgres.Transactions.{
  text_lt, to_uuid, check_idempotency, post_in_transaction,
}

unfoldable pub map_wallet_hold : HoldRow → Result Hold
map_wallet_hold row = do
  hold_id ← new_id row.id
  wallet_id ← new_id row.wallet_id
  currency ← new_currency row.currency
  amount ← new_money currency (pos row.amount_minor_units)
  reconstitute_hold hold_id wallet_id amount row.status row.created_at row.expires_at

-- A conditional update that has to have touched a row.
abbrev pub some_row : Store × ℕ → Result Store
some_row (s, zero) = err hold_not_authorized
some_row (s, suc n) = ok s

abbrev pub one_row : Store × ℕ → Result Store
one_row (s, n) = if n == 1 then ok s else err hold_not_authorized

-- A row in the order `expires_at ASC, id ASC`.
unfoldable pub insert_row : HoldRow → List HoldRow → List HoldRow
insert_row h [] = h ∷ []
insert_row h (g ∷ gs) =
    if ltb h.expires_at g.expires_at || (h.expires_at == g.expires_at && text_lt h.id g.id)
    then h ∷ g ∷ gs
    else g ∷ insert_row h gs

-- The rows of ListExpiredWalletHoldIDs before the limit.
unfoldable pub expired_rows : Time → List HoldRow → List HoldRow
expired_rows now [] = []
expired_rows now (h ∷ hs) =
    if is_authorized h.status && leb h.expires_at now
    then insert_row h (expired_rows now hs)
    else expired_rows now hs

unfoldable pub hold_ids : List HoldRow → Result (List HoldId)
hold_ids [] = ok []
hold_ids (h ∷ hs) = do id ← wrap_error (new_id h.id); ids ← hold_ids hs; ok (id ∷ ids)

-- `ListExpiredHolds`; a limit that is not positive is no query.
unfoldable pub list_expired_holds : Time → ℕ → Store → Result (List HoldId)
list_expired_holds now limit s = hold_ids (take limit (expired_rows now s.wallet_holds))

-- The hold is mapped after the commit: an error there leaves the new row.
abbrev pub mapped : Store → Result (Store × HoldRow) → Store × Result Hold
mapped s (ok (s', row)) = (s', wrap_error (map_wallet_hold row))
mapped s (err e) = (s, err e)

module _ (scan_uuid : Text → Option Uuid) where
  -- The lookup by idempotency key in `Authorize`, and the insertion if there is no row.
  unfoldable pub existing_or_new :
      Time
      → Hold
      → Uuid
      → WalletRow
      → Text
      → Text
      → Option HoldRow
      → Store
      → Result (Store × HoldRow)
  existing_or_new now hold hold_id w idempotency_key request_hash (some existing) s = do
    fail_if (not (existing.request_hash =text request_hash)) hold_idempotency_conflict
    ok (s, existing)
  existing_or_new now hold hold_id w idempotency_key request_hash none s = do
    balance ← wrap_error (get_ledger_balance now w.ledger_account_id s)
    let available_balance = balance.total_credits -64 balance.total_debits -64 balance.active_holds
    fail_if (ltb_ℤ available_balance hold.amount.amount_minor_units) insufficient_funds
    wrap_error (
        create_wallet_hold now hold_id w.id hold.amount.amount_minor_units hold.amount.currency.code
          idempotency_key request_hash hold.expires_at s)

  -- `Authorize` up to its commit.
  unfoldable pub authorize_in_transaction :
      Time → Hold → Text → Text → Store → Result (Store × HoldRow)
  authorize_in_transaction now hold idempotency_key request_hash s = do
    hold_id ← to_uuid scan_uuid hold.id
    wallet_id ← to_uuid scan_uuid hold.wallet_id
    locked_wallet ← or_fail (get_wallet_by_id wallet_id s) wallet_not_found
    existing_or_new now hold hold_id locked_wallet idempotency_key request_hash
        (get_wallet_hold_by_idempotency_key wallet_id idempotency_key s) s

  unfoldable pub authorize : Time → Hold → Text → Text → Store → Store × Result Hold
  unfolding authorize_in_transaction
  authorize now hold idempotency_key request_hash s =
      mapped s (authorize_in_transaction now hold idempotency_key request_hash s)

  unfoldable pub get_by_id : HoldId → Store → Result Hold
  get_by_id hold_id s = do
    database_id ← to_uuid scan_uuid hold_id
    persisted ← or_fail (get_wallet_hold_by_id database_id s) hold_not_found
    wrap_error (map_wallet_hold persisted)

  unfoldable pub update_status : HoldId → HoldStatus → Store → Result Store
  update_status hold_id status s = do
    validate_status status
    database_id ← to_uuid scan_uuid hold_id
    some_row (update_wallet_hold_status database_id status s)

  -- `Capture`. The first read sees `earlier`, the state before the database transaction on `s`.
  unfoldable pub capture :
      Time → Time → (ℕ → Uuid) → Store → HoldId → Transaction → Text → Text → Store → Result Store
  capture now at event_id earlier hold_id posted_transaction idempotency_key request_hash s = do
    database_hold_id ← to_uuid scan_uuid hold_id
    unlocked_hold ← or_fail (get_wallet_hold_by_id database_hold_id earlier) hold_not_found
    locked_wallet ← or_fail (get_wallet_by_id unlocked_hold.wallet_id s) wallet_not_found
    locked_hold ← or_fail (get_wallet_hold_by_id database_hold_id s) hold_not_found
    fail_if (not (locked_hold.wallet_id =text locked_wallet.id)) message
    let replay = do
      replayed ← check_idempotency posted_transaction idempotency_key request_hash s
      fail_if (not replayed) hold_not_authorized
      ok s
    let write = do
      fail_if (not (is_authorized locked_hold.status)) hold_not_authorized
      fail_if (not (before at locked_hold.expires_at)) hold_expired
      s' ←
          post_in_transaction scan_uuid now event_id posted_transaction idempotency_key request_hash
            s
      one_row (update_wallet_hold_status database_hold_id captured s')
    if is_captured locked_hold.status then replay else write
