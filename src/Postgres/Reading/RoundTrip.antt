-- ===== src/Postgres/Reading/RoundTrip.antt =====
-- A transaction that is posted is read back.
use mathlib.Core.List.{Permᴰ}
use mathlib.Core.List.Permᴰ
use distributed_wallet_ledge.Prelude.{
  ℕ, ◌≡◌, refl, sym, ◌∙◌, List, [], ◌∷◌, map, Option, none, Text, arith,
}
use distributed_wallet_ledge.Errors.{ok, >>=-eq-ok}
use distributed_wallet_ledge.Domain.Currency.Codes.{new_currency-code}
use distributed_wallet_ledge.Domain.Posting.{Posting}
use distributed_wallet_ledge.Domain.JournalEntry.{new_journal_entry}
use distributed_wallet_ledge.Domain.JournalEntry.Balance
use distributed_wallet_ledge.Domain.JournalEntry.Balance.{IsDoubleEntry}
use distributed_wallet_ledge.Domain.Transaction.{Transaction, reconstitute_transaction}
use distributed_wallet_ledge.Domain.Transaction.Validity
use distributed_wallet_ledge.Domain.Transaction.Validity.{IsValid}
use distributed_wallet_ledge.Domain.Hold.{Time}
use distributed_wallet_ledge.Postgres.Tables.{Uuid, Store}
use distributed_wallet_ledge.Postgres.Queries.{get_idempotency_key, create_idempotency_key}
use distributed_wallet_ledge.Postgres.Transactions.{
  Lookups, to_uuid, lock_wallet_accounts, write_transaction, key_row, post,
}
use distributed_wallet_ledge.Postgres.Replays.{new-check_idempotency, kept_or_replayed-made}
use distributed_wallet_ledge.Postgres.Solvency.Frames.{create_idempotency_key-SameFunds}
use distributed_wallet_ledge.Postgres.Reading.{aggregate_of, get_aggregate, get_transaction_details}
use distributed_wallet_ledge.Postgres.Reading.Order.{
  sort_into, AreSorted, sort_into-AreSorted, sort_into-Permᴰ, Permᴰ-All, Permᴰ-IsDoubleEntry,
}
use distributed_wallet_ledge.Postgres.Reading.Rows.{row_of, read_postings-row_of}
use distributed_wallet_ledge.Postgres.Reading.Written.{
  IsReferential, IsReadable, write_transaction-details, create_idempotency_key-SameEntries,
}

-- The transaction with its postings in another order.
abbrev pub reordered : Transaction → List Posting → Transaction
reordered t ps = record t { journal_entry = record t.journal_entry { postings = ps } }

reordered-IsValid :
    (t : Transaction) (ps : List Posting)
    → Permᴰ t.journal_entry.postings ps
    → IsValid t
    → IsValid (reordered t ps)
reordered-IsValid t ps d v = record {
  identified = v.identified;
  described = v.described;
  entry = Permᴰ-IsDoubleEntry t.journal_entry ps d v.entry;
  owned = v.owned;
  reverses = v.reverses;
}

-- The rows of a readable transaction give it back.
aggregate_of-row_of :
    (scan : Text → Option Uuid) (t : Transaction) (ps : List Posting)
    → IsReadable scan t
    → Permᴰ t.journal_entry.postings ps
    → aggregate_of (map (row_of t) ps) ≡ ok (reordered t ps)
unfolding aggregate_of new_journal_entry reconstitute_transaction
aggregate_of-row_of scan t [] c d =
    let v = reordered-IsValid t [] d ((Validity.validate_transaction_iff t).0 c.valid) in
    absurd (omega (arith, v.entry.moves_money))
aggregate_of-row_of scan t (p ∷ ps) c d =
    let old = (Validity.validate_transaction_iff t).0 c.valid in
    let v = reordered-IsValid t (p ∷ ps) d old in
    let valid = (Validity.validate_transaction_iff (reordered t (p ∷ ps))).1 v in
    let entry_valid = (Balance.validate_entry_iff (reordered t (p ∷ ps)).journal_entry).1 v.entry in
    let read =
      read_postings-row_of scan t t.journal_entry.currency (p ∷ ps) v.entry.currency_valid
        (Permᴰ-All _ t.journal_entry.postings (p ∷ ps) d c.postings_clean) v.entry.fitting in
    rw
      (
        c.clean.1,
        c.entry_clean.1,
        new_currency-code t.journal_entry.currency v.entry.currency_valid,
        read,
        sym old.owned,
        entry_valid,
        c.reverses_clean,
        c.trimmed,
      )
      (rw (rw (sym old.owned) at valid) refl)

create_idempotency_key-details :
    (t : Transaction) (key hash : Text) (s s' : Store)
    → create_idempotency_key (key_row key hash t.id) s ≡ ok s'
    → get_transaction_details t.id s' ≡ get_transaction_details t.id s
unfolding get_transaction_details
create_idempotency_key-details t key hash s s' h =
    let row = key_row key hash t.id in
    let same = create_idempotency_key-SameEntries row s s' h in
    rw
      (same.transactions, same.entries, (create_idempotency_key-SameFunds row s s' h).same_postings)
      refl

post-details :
    (scan : Text → Option Uuid) (now : Time) (event_id : ℕ → Uuid) (seen : Lookups)
    (t : Transaction) (key hash : Text) (s s' : Store)
    → IsReadable scan t
    → IsReferential s
    → get_idempotency_key key seen.before ≡ none
    → get_idempotency_key key seen.after_rollback ≡ none
    → get_idempotency_key key s ≡ none
    → post scan now event_id seen t key hash s ≡ ok s'
    → get_transaction_details t.id s' ≡ map (row_of t) (sort_into t.journal_entry.postings [])
unfolding post to_uuid
post-details scan now event_id seen t key hash s s' c owned unknown unknown' new h =
    let fresh = new-check_idempotency t key hash s new in
    let h₁ = rw (new-check_idempotency t key hash seen.before unknown) at h in
    let (locked, lock, h₂) = >>=-eq-ok (lock_wallet_accounts scan t s) _ h₁ in
    let h₃ = rw fresh at h₂ in
    let (s₁, wrote, h₄) = >>=-eq-ok (write_transaction scan now event_id t locked s) _ h₃ in
    let inserted = create_idempotency_key (key_row key hash t.id) s₁ in
    let made =
      kept_or_replayed-made t (key_row key hash t.id) seen.after_rollback s s' inserted
        (new-check_idempotency t key hash seen.after_rollback unknown') (rw c.clean.0 at h₄) in
    create_idempotency_key-details t key hash s₁ s' made
    ∙ write_transaction-details scan now event_id t locked s s₁ c owned wrote

-- A transaction that `Post` has written under a key that neither the store nor the lookups outside
-- the database transaction had is what `GetAggregate` reads under its identifier, with the same
-- postings in the order of their identifiers. The transaction is valid, its description trimmed and
-- its identifiers clean and canonical, and every posting in the store belonged to an entry.
pub get_aggregate-post :
    (scan : Text → Option Uuid) (now : Time) (event_id : ℕ → Uuid) (seen : Lookups)
    (t : Transaction) (key hash : Text) (s s' : Store)
    → IsReadable scan t
    → IsReferential s
    → get_idempotency_key key seen.before ≡ none
    → get_idempotency_key key seen.after_rollback ≡ none
    → get_idempotency_key key s ≡ none
    → post scan now event_id seen t key hash s ≡ ok s'
    → (ps : List Posting) × Permᴰ ps t.journal_entry.postings
      × AreSorted ps
      × (get_aggregate scan t.id s' ≡ ok (reordered t ps))
unfolding get_aggregate to_uuid
get_aggregate-post scan now event_id seen t key hash s s' c owned unknown unknown' new h =
    let ps = sort_into t.journal_entry.postings [] in
    let d = sort_into-Permᴰ t.journal_entry.postings in
    let rows = post-details scan now event_id seen t key hash s s' c owned unknown unknown' new h in
    (
      ps,
      d,
      sort_into-AreSorted t.journal_entry.postings [] tt,
      rw (c.clean.0, rows) (aggregate_of-row_of scan t ps c (Permᴰ.symm d)),
    )
