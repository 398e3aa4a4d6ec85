-- ===== src/Postgres/Reading.antt =====
-- postgres/transaction_repository.go: how a transaction is read, with GetTransactionDetails. The
-- columns `created_at` and `posted_at`, which are never null, are parameters: the time that a row
-- has. The order of UUIDs is that of their canonical texts.
pub mod Order
pub mod Rows
pub mod Written
pub mod RoundTrip
use distributed_wallet_ledge.Prelude.{
  ℕ, pos, ◌=text◌, List, [], ◌∷◌, map, Option, none, some, Text, if◌then◌else◌,
}
use distributed_wallet_ledge.Errors.{Result, ok, err, ◌>>=◌, transaction_not_found}
use distributed_wallet_ledge.Domain.Ids.{TransactionId, new_id}
use distributed_wallet_ledge.Domain.Currency.{Currency, new_currency}
use distributed_wallet_ledge.Domain.Money.{new_money}
use distributed_wallet_ledge.Domain.Posting.{Posting, PostingDirection, new_posting}
use distributed_wallet_ledge.Domain.JournalEntry.{new_journal_entry}
use distributed_wallet_ledge.Domain.Transaction.{Transaction, reconstitute_transaction}
use distributed_wallet_ledge.Domain.Hold.{Time}
use distributed_wallet_ledge.Application.GetTransaction.{TransactionDetails, PostingDetails}
use distributed_wallet_ledge.Postgres.Tables.{
  Uuid, TransactionRow, JournalEntryRow, PostingRow, Store,
}
use distributed_wallet_ledge.Postgres.Queries.{find}
use distributed_wallet_ledge.Postgres.Transactions.{text_lt, to_uuid}

pub record DetailsRow : Type 0 where
  pub transaction_id : Uuid
  pub description : Text
  pub reverses_transaction_id : Option Uuid
  pub journal_entry_id : Uuid
  pub currency : Text
  pub posting_id : Uuid
  pub account_id : Uuid
  pub direction : PostingDirection
  pub amount_minor_units : ℕ

-- ORDER BY p.id.
unfoldable pub insert_details : DetailsRow → List DetailsRow → List DetailsRow
insert_details r [] = r ∷ []
insert_details r (q ∷ qs) =
    if text_lt r.posting_id q.posting_id then r ∷ q ∷ qs else q ∷ insert_details r qs

abbrev pub details_row : TransactionRow → JournalEntryRow → PostingRow → DetailsRow
details_row t j p = record {
  transaction_id = t.id;
  description = t.description;
  reverses_transaction_id = t.reverses_transaction_id;
  journal_entry_id = j.id;
  currency = j.currency;
  posting_id = p.id;
  account_id = p.account_id;
  direction = p.direction;
  amount_minor_units = p.amount_minor_units;
}

-- The postings that join an entry, ordered.
unfoldable pub join_postings : TransactionRow → JournalEntryRow → List PostingRow → List DetailsRow
unfolding insert_details
join_postings t j [] = []
join_postings t j (p ∷ ps) =
    let rest = join_postings t j ps in
    if p.journal_entry_id =text j.id then insert_details (details_row t j p) rest else rest

-- A transaction has one entry at most, since `journal_entries.transaction_id` is unique.
abbrev pub join_rows :
    Option TransactionRow → Option JournalEntryRow → List PostingRow → List DetailsRow
join_rows none j ps = []
join_rows (some t) none ps = []
join_rows (some t) (some j) ps = join_postings t j ps

unfoldable pub get_transaction_details : Uuid → Store → List DetailsRow
get_transaction_details u s =
    join_rows (find (λ t. t.id =text u) s.transactions)
      (find (λ j. j.transaction_id =text u) s.journal_entries) s.postings

abbrev pub posting_details : DetailsRow → PostingDetails
posting_details row = record {
  id = row.posting_id;
  account_id = row.account_id;
  direction = row.direction;
  amount_minor_units = pos row.amount_minor_units;
}

-- `Get` on the rows.
abbrev pub details_of : (Uuid → Time) → (Uuid → Time) → List DetailsRow → Result TransactionDetails
details_of created_at posted_at [] = err transaction_not_found
details_of created_at posted_at (first ∷ rows) = ok (record {
  id = first.transaction_id;
  description = first.description;
  created_at = created_at first.transaction_id;
  journal_entry = record {
    id = first.journal_entry_id;
    currency = first.currency;
    posted_at = posted_at first.journal_entry_id;
    postings = map posting_details (first ∷ rows);
  };
})

unfoldable pub get :
    (Text → Option Uuid)
    → (Uuid → Time)
    → (Uuid → Time)
    → TransactionId
    → Store
    → Result TransactionDetails
get scan_uuid created_at posted_at id s = do
  u ← to_uuid scan_uuid id
  details_of created_at posted_at (get_transaction_details u s)

-- The loop of `GetAggregate`.
unfoldable pub read_posting : Currency → DetailsRow → Result Posting
read_posting currency row = do
  posting_id ← new_id row.posting_id
  account_id ← new_id row.account_id
  amount ← new_money currency (pos row.amount_minor_units)
  new_posting posting_id account_id row.direction amount

unfoldable pub read_postings : Currency → List DetailsRow → Result (List Posting)
read_postings currency [] = ok []
read_postings currency (row ∷ rows) = do
  p ← read_posting currency row
  ps ← read_postings currency rows
  ok (p ∷ ps)

abbrev pub read_reversed : Option Uuid → Result (Option TransactionId)
read_reversed none = ok none
read_reversed (some u) = do id ← new_id u; ok (some id)

-- `GetAggregate` on the rows.
unfoldable pub aggregate_of : List DetailsRow → Result Transaction
aggregate_of [] = err transaction_not_found
aggregate_of (first ∷ rows) = do
  transaction_id ← new_id first.transaction_id
  journal_entry_id ← new_id first.journal_entry_id
  currency ← new_currency first.currency
  postings ← read_postings currency (first ∷ rows)
  journal_entry ← new_journal_entry journal_entry_id transaction_id currency postings
  reverses ← read_reversed first.reverses_transaction_id
  reconstitute_transaction transaction_id first.description journal_entry reverses

unfoldable pub get_aggregate : (Text → Option Uuid) → TransactionId → Store → Result Transaction
get_aggregate scan_uuid id s = do
  u ← to_uuid scan_uuid id
  aggregate_of (get_transaction_details u s)
