-- ===== src/Postgres/Reading/Rows.antt =====
-- The rows of a transaction's postings, written and read.
use distributed_wallet_ledge.Prelude.{
  zero, suc, ◌≡◌, refl, sym, ap, subst, ◌∙◌, =text_refl, ℤ, pos, negsuc, pos_part, List, [], ◌∷◌,
  map, Option, some, Text, All, arith,
}
use distributed_wallet_ledge.Errors.{ok, >>=-eq-ok, wrap_error, wrap_error-eq-ok, ok-injective}
use distributed_wallet_ledge.Domain.Ids.{new_id}
use distributed_wallet_ledge.Domain.Currency
use distributed_wallet_ledge.Domain.Currency.{Currency, new_currency}
use distributed_wallet_ledge.Domain.Money.{new_money}
use distributed_wallet_ledge.Domain.Money.Laws.{units, validate-money}
use distributed_wallet_ledge.Domain.Posting.{Posting, PostingDirection, new_posting}
use distributed_wallet_ledge.Domain.JournalEntry.Totals.{Fits, Fits-amount}
use distributed_wallet_ledge.Domain.Transaction.{Transaction}
use distributed_wallet_ledge.Postgres.Tables.{
  Uuid, TransactionRow, JournalEntryRow, PostingRow, Store,
}
use distributed_wallet_ledge.Postgres.Queries.{create_posting}
use distributed_wallet_ledge.Postgres.Transactions.{to_uuid, create_postings}
use distributed_wallet_ledge.Postgres.Reading.{
  DetailsRow, insert_details, details_row, join_postings, read_posting, read_postings,
}
use distributed_wallet_ledge.Postgres.Reading.Order.{insert_posting, sort_into}

-- Identifiers in the form in which the constructors leave them, and the canonical texts of UUIDs.
abbrev pub IsCleanId : (Text → Option Uuid) → Text → Type 0
IsCleanId scan id = (scan id ≡ some id) × (new_id id ≡ ok id)

abbrev pub IsCleanPosting : (Text → Option Uuid) → Posting → Type 0
IsCleanPosting scan p = IsCleanId scan p.id × IsCleanId scan p.account_id

abbrev pub transaction_row : Transaction → TransactionRow
transaction_row t = record {
  id = t.id;
  description = t.description;
  reverses_transaction_id = t.reverses_transaction_id;
}

abbrev pub entry_row : Transaction → JournalEntryRow
entry_row t = record {
  id = t.journal_entry.id;
  transaction_id = t.id;
  currency = t.journal_entry.currency.code;
}

-- The row of a posting, and what joins it.
abbrev posting_row : Transaction → Posting → PostingRow
posting_row t p = record {
  id = p.id;
  journal_entry_id = t.journal_entry.id;
  account_id = p.account_id;
  direction = p.direction;
  amount_minor_units = units p.amount;
}

abbrev pub row_of : Transaction → Posting → DetailsRow
row_of t p = details_row (transaction_row t) (entry_row t) (posting_row t p)

insert_details-row_of :
    (t : Transaction) (p : Posting) (qs : List Posting)
    → insert_details (row_of t p) (map (row_of t) qs) ≡ map (row_of t) (insert_posting p qs)
unfolding insert_details insert_posting
insert_details-row_of t p [] = refl
insert_details-row_of t p (q ∷ qs) = ground (arith, insert_details-row_of t p qs)

-- The row that is written.
create_posting-eq :
    (id entry account : Uuid) (d : PostingDirection) (amount : ℤ) (s s' : Store)
    → create_posting id entry account d amount s ≡ ok s'
    → s'.postings
      ≡ record {
        id = id;
        journal_entry_id = entry;
        account_id = account;
        direction = d;
        amount_minor_units = pos_part amount;
      }
        ∷ s.postings
unfolding create_posting
create_posting-eq id entry account d (pos zero) s s' h = ground arith
create_posting-eq id entry account d (pos (suc n)) s s' h = ground arith
create_posting-eq id entry account d (negsuc n) s s' h = ground arith

pub create_postings-rows :
    (scan : Text → Option Uuid) (t : Transaction) (ps acc : List Posting) (s s' : Store)
    → All (IsCleanPosting scan) ps
    → create_postings scan t.journal_entry.id ps s ≡ ok s'
    → join_postings (transaction_row t) (entry_row t) s.postings ≡ map (row_of t) acc
    → join_postings (transaction_row t) (entry_row t) s'.postings
      ≡ map (row_of t) (sort_into ps acc)
unfolding create_postings to_uuid join_postings sort_into
create_postings-rows scan t [] acc s s' clean h before =
    subst
      (λ (x : Store).
        join_postings (transaction_row t) (entry_row t) x.postings ≡ map (row_of t) acc)
      (ok-injective h) before
create_postings-rows scan t (p ∷ ps) acc s s' (((id, _), (account, _)), clean) h before =
    let write =
      create_posting p.id t.journal_entry.id p.account_id p.direction p.amount.amount_minor_units
        s in
    let (s₁, wrote, rest) = >>=-eq-ok (wrap_error write) _ (rw (id, account) at h) in
    let made =
      create_posting-eq p.id t.journal_entry.id p.account_id p.direction p.amount.amount_minor_units
        s s₁ (wrap_error-eq-ok write s₁ wrote) in
    let joined : join_postings (transaction_row t) (entry_row t) s₁.postings
        ≡ map (row_of t) (insert_posting p acc) =
      rw (made, =text_refl, before) (insert_details-row_of t p acc) in
    create_postings-rows scan t ps (insert_posting p acc) s₁ s' clean rest joined

-- Reading a row gives the posting back.
read_posting-row_of :
    (scan : Text → Option Uuid) (t : Transaction) (c : Currency) (p : Posting)
    → Currency.validate c ≡ ok tt
    → IsCleanPosting scan p
    → Fits c p
    → read_posting c (row_of t p) ≡ ok p
unfolding read_posting new_money new_posting
read_posting-row_of scan t c p v ((_, id), (_, account)) fits =
    rw (id, account, validate-money c (units p.amount) v)
      (ap (new_posting p.id p.account_id p.direction) (sym (Fits-amount c p fits)) ∙ rw fits.0 refl)

pub read_postings-row_of :
    (scan : Text → Option Uuid) (t : Transaction) (c : Currency) (ps : List Posting)
    → Currency.validate c ≡ ok tt
    → All (IsCleanPosting scan) ps
    → All (Fits c) ps
    → read_postings c (map (row_of t) ps) ≡ ok ps
unfolding read_postings
read_postings-row_of scan t c [] v clean fits = refl
read_postings-row_of scan t c (p ∷ ps) v (cl, clean) (fit, fits) =
    rw (read_posting-row_of scan t c p v cl fit, read_postings-row_of scan t c ps v clean fits) refl
