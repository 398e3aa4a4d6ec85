-- ===== src/Postgres/Accounts.antt =====
-- internal/ledger/adapters/postgres/account_repository.go, with CreateAccount and the two queries of
-- an account's entries. `created_at u` is the column of the posting `u`. A page is taken from the
-- ordered entries of the account; the order of UUIDs is that of their canonical texts.
pub mod Order
pub mod Keys
use distributed_wallet_ledge.Prelude.{
  ℕ, ℤ, pos, Bool, true, false, not, ◌&&◌, ◌||◌, ltb, ◌==◌, ◌=text◌, take, List, [], ◌∷◌, Option,
  none, some, Text, to_upper, if◌then◌else◌,
}
use distributed_wallet_ledge.Errors.{
  Result, ok, err, ◌>>=◌, ◌>>◌, fail_if, wrap_error, unique_violation, check_violation,
}
use distributed_wallet_ledge.Domain.Ids.{AccountId, new_id}
use distributed_wallet_ledge.Domain.Currency.{new_currency}
use distributed_wallet_ledge.Domain.Posting.{PostingDirection}
use distributed_wallet_ledge.Domain.Account
use distributed_wallet_ledge.Domain.Account.{Account, open_status}
use distributed_wallet_ledge.Domain.Hold.{Time}
use distributed_wallet_ledge.Postgres.Tables.{
  Uuid, AccountRow, TransactionRow, JournalEntryRow, PostingRow, Store,
}
use distributed_wallet_ledge.Postgres.Queries.{find, exists}
use distributed_wallet_ledge.Postgres.Transactions.{text_lt, to_uuid}
use distributed_wallet_ledge.Application.Accounts.{AccountEntry, AccountEntriesCursor}

-- INSERT INTO accounts; the status is the column's default.
unfoldable pub insert_account : AccountRow → Store → Result Store
insert_account row s = do
  fail_if (not (row.currency =text to_upper row.currency)) check_violation
  fail_if (exists (λ a. a.id =text row.id || a.code =text row.code) s.accounts) unique_violation
  ok (record s { accounts = row ∷ s.accounts })

-- `AccountRepository.Create`.
unfoldable pub create : (Text → Option Uuid) → Account → Store → Result Store
create scan_uuid account s = do
  id ← to_uuid scan_uuid account.id
  wrap_error (
      insert_account
        (record {
          id = id;
          code = account.code;
          name = account.name;
          currency = account.currency.code;
          status = open_status;
        })
        s)

-- `accountEntryRow`.
pub record AccountEntryRow : Type 0 where
  pub posting_id : Uuid
  pub journal_entry_id : Uuid
  pub transaction_id : Uuid
  pub description : Text
  pub currency : Text
  pub direction : PostingDirection
  pub amount_minor_units : ℕ
  pub created_at : Time

-- Whether a row comes before another in the order `created_at DESC, id DESC`.
unfoldable pub comes_before : Time → Uuid → Time → Uuid → Bool
comes_before at id at' id' = ltb at' at || (at == at' && text_lt id' id)

unfoldable pub insert_entry : AccountEntryRow → List AccountEntryRow → List AccountEntryRow
insert_entry r [] = r ∷ []
insert_entry r (q ∷ qs) =
    if comes_before r.created_at r.posting_id q.created_at q.posting_id
    then r ∷ q ∷ qs
    else q ∷ insert_entry r qs

-- The two joins of the queries.
abbrev pub with_transaction :
    Time
    → PostingRow
    → JournalEntryRow
    → Option TransactionRow
    → List AccountEntryRow
    → List AccountEntryRow
with_transaction at p j none rest = rest
with_transaction at p j (some t) rest =
    insert_entry
      (record {
        posting_id = p.id;
        journal_entry_id = p.journal_entry_id;
        transaction_id = j.transaction_id;
        description = t.description;
        currency = j.currency;
        direction = p.direction;
        amount_minor_units = p.amount_minor_units;
        created_at = at;
      })
      rest

abbrev pub with_entry :
    Time
    → PostingRow
    → Option JournalEntryRow
    → List TransactionRow
    → List AccountEntryRow
    → List AccountEntryRow
with_entry at p none ts rest = rest
with_entry at p (some j) ts rest =
    with_transaction at p j (find (λ t. t.id =text j.transaction_id) ts) rest

module _ (created_at : Uuid → Time) where
  -- The entries of an account, ordered.
  unfoldable pub account_entries :
      Uuid → List TransactionRow → List JournalEntryRow → List PostingRow → List AccountEntryRow
  unfolding insert_entry
  account_entries account ts js [] = []
  account_entries account ts js (p ∷ ps) =
      let rest = account_entries account ts js ps in
      if p.account_id =text account
      then with_entry (created_at p.id) p (find (λ j. j.id =text p.journal_entry_id) js) ts rest
      else rest

  abbrev pub entries_in : Uuid → Store → List AccountEntryRow
  entries_in account s = account_entries account s.transactions s.journal_entries s.postings

-- The condition of ListAccountEntriesAfter.
unfoldable pub rows_after : Time → Uuid → List AccountEntryRow → List AccountEntryRow
rows_after at id [] = []
rows_after at id (r ∷ rs) =
    let rest = rows_after at id rs in
    if comes_before at id r.created_at r.posting_id then r ∷ rest else rest

unfoldable pub map_account_entry : AccountEntryRow → Result AccountEntry
map_account_entry row = do
  posting_id ← new_id row.posting_id
  journal_entry_id ← new_id row.journal_entry_id
  transaction_id ← new_id row.transaction_id
  currency ← new_currency row.currency
  ok (record {
    posting_id = posting_id;
    journal_entry_id = journal_entry_id;
    transaction_id = transaction_id;
    description = row.description;
    currency = currency;
    direction = row.direction;
    amount_minor = pos row.amount_minor_units;
    created_at = row.created_at;
  })

unfoldable pub map_account_entries : List AccountEntryRow → Result (List AccountEntry)
map_account_entries [] = ok []
map_account_entries (row ∷ rows) = do
  entry ← map_account_entry row
  entries ← map_account_entries rows
  ok (entry ∷ entries)

-- The rows of the two queries, by the cursor.
abbrev pub page_rows :
    (Text → Option Uuid)
    → Option AccountEntriesCursor
    → List AccountEntryRow
    → Result (List AccountEntryRow)
page_rows scan_uuid none rows = ok rows
page_rows scan_uuid (some cursor) rows = do
  posting_id ← to_uuid scan_uuid cursor.posting_id
  ok (rows_after cursor.created_at posting_id rows)

-- `AccountRepository.ListEntries`.
unfoldable pub list_entries :
    (Text → Option Uuid)
    → (Uuid → Time)
    → AccountId
    → ℕ
    → Option AccountEntriesCursor
    → Store
    → Result (List AccountEntry)
list_entries scan_uuid created_at account_id limit cursor s = do
  account ← to_uuid scan_uuid account_id
  rows ← page_rows scan_uuid cursor (entries_in created_at account s)
  map_account_entries (take limit rows)
