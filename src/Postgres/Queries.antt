-- ===== src/Postgres/Queries.antt =====
-- The queries of adapters/postgres/queries/*.sql, as the generated Go code runs them, with the
-- constraints of migrations/*.up.sql. `now` is the database's `NOW()`.
use distributed_wallet_ledge.Prelude.{
  ℕ, zero, suc, ◌+◌, ◌-◌, ◌%◌, ℤ, pos, negsuc, Bool, true, false, not, ◌&&◌, ◌||◌, leb, max_int64,
  ◌=text◌, List, [], ◌∷◌, Option, none, some, Text, to_upper, if◌then◌else◌, ◌==◌,
}
use distributed_wallet_ledge.Errors.{
  Result, ok, err, ◌>>=◌, ◌>>◌, fail_if, unique_violation, foreign_key_violation, check_violation,
  bigint_out_of_range,
}
use distributed_wallet_ledge.Domain.OutboxEvent.{EventStatus}
use distributed_wallet_ledge.Domain.Posting.{
  PostingDirection, debit, credit, other, is_debit, is_credit,
}
use distributed_wallet_ledge.Domain.Hold.{HoldStatus, Time, authorized, is_authorized, before}
use distributed_wallet_ledge.Postgres.Tables.{
  Uuid, TransactionRow, JournalEntryRow, PostingRow, KeyRow, WalletRow, HoldRow, EventRow, Store,
}

module _ {ℓ} {A : Type ℓ} where
  -- The first row that passes a test, and whether there is one.
  abbrev pub find : (A → Bool) → List A → Option A
  find test [] = none
  find test (r ∷ rs) = if test r then some r else find test rs

  abbrev pub exists : (A → Bool) → List A → Bool
  exists test [] = false
  exists test (r ∷ rs) = test r || exists test rs

-- INSERT INTO transactions, with the primary key, the unique reversed transaction, its foreign key
-- and the check that a transaction does not reverse itself.
abbrev pub reverses : Uuid → Option Uuid → Bool
reverses u none = false
reverses u (some v) = u =text v

abbrev pub reversal_constraints : List TransactionRow → Uuid → Option Uuid → Result (Unit {0})
reversal_constraints rows id none = ok tt
reversal_constraints rows id (some original) = do
  fail_if (exists (λ r. reverses original r.reverses_transaction_id) rows) unique_violation
  fail_if (id =text original) check_violation
  fail_if (not (exists (λ r. r.id =text original) rows)) foreign_key_violation

unfoldable pub create_transaction : TransactionRow → Store → Result Store
create_transaction row s = do
  fail_if (exists (λ r. r.id =text row.id) s.transactions) unique_violation
  reversal_constraints s.transactions row.id row.reverses_transaction_id
  ok (record s { transactions = row ∷ s.transactions })

-- SQL's `UPPER` is taken to be Go's, with which it agrees on the codes of currencies.
unfoldable pub create_journal_entry : JournalEntryRow → Store → Result Store
create_journal_entry row s = do
  fail_if (not (row.currency =text to_upper row.currency)) check_violation
  fail_if
      (exists (λ r. r.id =text row.id || r.transaction_id =text row.transaction_id)
        s.journal_entries)
      unique_violation
  fail_if (not (exists (λ r. r.id =text row.transaction_id) s.transactions)) foreign_key_violation
  ok (record s { journal_entries = row ∷ s.journal_entries })

-- The constraints on a direction and on an amount.
abbrev pub check_direction : PostingDirection → Result (Unit {0})
check_direction debit = ok tt
check_direction credit = ok tt
check_direction (other t) = err check_violation

abbrev pub check_positive : ℤ → Result ℕ
check_positive (pos zero) = err check_violation
check_positive (pos (suc n)) = ok (suc n)
check_positive (negsuc n) = err check_violation

unfoldable pub create_posting : Uuid → Uuid → Uuid → PostingDirection → ℤ → Store → Result Store
create_posting id journal_entry_id account_id direction amount s = do
  check_direction direction
  n ← check_positive amount
  fail_if (exists (λ r. r.id =text id) s.postings) unique_violation
  fail_if (not (exists (λ r. r.id =text journal_entry_id) s.journal_entries)) foreign_key_violation
  fail_if (not (exists (λ a. a.id =text account_id) s.accounts)) foreign_key_violation
  let row : PostingRow = record {
    id = id;
    journal_entry_id = journal_entry_id;
    account_id = account_id;
    direction = direction;
    amount_minor_units = n;
  }
  ok (record s { postings = row ∷ s.postings })

unfoldable pub get_idempotency_key : Text → Store → Option KeyRow
get_idempotency_key key s = find (λ r. r.idempotency_key =text key) s.idempotency_keys

unfoldable pub create_idempotency_key : KeyRow → Store → Result Store
create_idempotency_key row s = do
  fail_if
      (exists
        (λ r.
          r.idempotency_key =text row.idempotency_key || r.transaction_id =text row.transaction_id)
        s.idempotency_keys)
      unique_violation
  fail_if (not (exists (λ r. r.id =text row.transaction_id) s.transactions)) foreign_key_violation
  ok (record s { idempotency_keys = row ∷ s.idempotency_keys })

-- LockWalletByLedgerAccountID and LockWalletByID: the row locks are described in Lib.
unfoldable pub lock_wallet_by_ledger_account_id : Uuid → Store → Option WalletRow
lock_wallet_by_ledger_account_id a s = find (λ w. w.ledger_account_id =text a) s.wallets

unfoldable pub get_wallet_by_id : Uuid → Store → Option WalletRow
get_wallet_by_id u s = find (λ w. w.id =text u) s.wallets

-- The sums of GetLedgerBalance.
unfoldable pub posted : (PostingDirection → Bool) → Uuid → List PostingRow → ℕ
posted counts a [] = 0
posted counts a (r ∷ rs) =
    (if r.account_id =text a && counts r.direction then r.amount_minor_units else 0)
    + posted counts a rs

-- Whether a hold counts as active for the wallets of a ledger account.
abbrev pub holds_funds : Time → Uuid → List WalletRow → HoldRow → Bool
holds_funds now a wallets h =
    exists (λ w. w.id =text h.wallet_id && w.ledger_account_id =text a) wallets
    && is_authorized h.status
    && before now h.expires_at

unfoldable pub active_holds : Time → Uuid → List WalletRow → List HoldRow → ℕ
active_holds now a wallets [] = 0
active_holds now a wallets (h ∷ hs) =
    (if holds_funds now a wallets h then h.amount_minor_units else 0)
    + active_holds now a wallets hs

-- The row of GetLedgerBalance, whose columns are BIGINT.
pub record LedgerBalance : Type 0 where
  pub total_debits : ℤ
  pub total_credits : ℤ
  pub active_holds : ℤ

abbrev pub as_bigint : ℕ → Result ℤ
as_bigint n = if leb n max_int64 then ok (pos n) else err bigint_out_of_range

unfoldable pub get_ledger_balance : Time → Uuid → Store → Result LedgerBalance
get_ledger_balance now a s = do
  debits ← as_bigint (posted is_debit a s.postings)
  credits ← as_bigint (posted is_credit a s.postings)
  holds ← as_bigint (active_holds now a s.wallets s.wallet_holds)
  ok (record { total_debits = debits; total_credits = credits; active_holds = holds })

-- `length(trim(t)) > 0` fails: SQL's `trim` takes off spaces alone.
unfoldable pub blank : Text → Bool
blank [] = true
blank (c ∷ t) = c == 32 && blank t

abbrev pub check_event_status : EventStatus → Result (Unit {0})
check_event_status (EventStatus.other t) = err check_violation
check_event_status _ = ok tt

unfoldable pub create_outbox_event : EventRow → Store → Result Store
create_outbox_event row s = do
  fail_if (exists (λ r. r.id =text row.id) s.outbox_events) unique_violation
  check_event_status row.status
  fail_if (blank row.aggregate_type) check_violation
  fail_if (blank row.aggregate_id) check_violation
  fail_if (blank row.event_type) check_violation
  ok (record s { outbox_events = row ∷ s.outbox_events })

unfoldable pub get_wallet_hold_by_id : Uuid → Store → Option HoldRow
get_wallet_hold_by_id u s = find (λ h. h.id =text u) s.wallet_holds

unfoldable pub get_wallet_hold_by_idempotency_key : Uuid → Text → Store → Option HoldRow
get_wallet_hold_by_idempotency_key u key s =
    find (λ h. h.wallet_id =text u && h.idempotency_key =text key) s.wallet_holds

-- TIMESTAMPTZ has no nanoseconds.
abbrev pub in_microseconds : Time → Time
in_microseconds t = t - t % 1000

-- INSERT INTO wallet_holds … RETURNING, at the instant `now`; the width of the currency is not
-- modelled.
unfoldable pub create_wallet_hold :
    Time → Uuid → Uuid → ℤ → Text → Text → Text → Time → Store → Result (Store × HoldRow)
create_wallet_hold now id wallet_id amount currency idempotency_key request_hash expires_at s = do
  n ← check_positive amount
  fail_if (not (currency =text to_upper currency)) check_violation
  fail_if (blank idempotency_key || blank request_hash) check_violation
  fail_if
      (exists
        (λ h.
          h.id =text id || (h.wallet_id =text wallet_id && h.idempotency_key =text idempotency_key))
        s.wallet_holds)
      unique_violation
  fail_if (not (exists (λ w. w.id =text wallet_id) s.wallets)) foreign_key_violation
  let row : HoldRow = record {
    id = id;
    wallet_id = wallet_id;
    amount_minor_units = n;
    currency = currency;
    status = authorized;
    idempotency_key = idempotency_key;
    request_hash = request_hash;
    expires_at = in_microseconds expires_at;
    created_at = now;
  }
  ok (record s { wallet_holds = row ∷ s.wallet_holds }, row)

-- UPDATE wallet_holds SET status WHERE id AND status = 'authorized', with the rows affected.
unfoldable pub set_authorized : Uuid → HoldStatus → List HoldRow → List HoldRow × ℕ
set_authorized u status [] = ([], 0)
set_authorized u status (h ∷ hs) =
    let (rest, n) = set_authorized u status hs in
    if h.id =text u && is_authorized h.status
    then (record h { status = status } ∷ rest, suc n)
    else (h ∷ rest, n)

unfoldable pub update_wallet_hold_status : Uuid → HoldStatus → Store → Store × ℕ
unfolding set_authorized
update_wallet_hold_status u status s =
    let (rows, n) = set_authorized u status s.wallet_holds in (record s { wallet_holds = rows }, n)
