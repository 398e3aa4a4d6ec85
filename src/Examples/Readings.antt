-- ===== src/Examples/Readings.antt =====
-- The theorem that a transaction is read back, applied where its hypotheses hold.
use mathlib.Core.List.{Permᴰ}
use distributed_wallet_ledge.Prelude.{
  ◌≡◌, refl, wrap64, ◌+ℤ◌, ◌-ℤ◌, List, [], ◌∷◌, none, is_space, trim_space, trim_left, trim_right,
  to_upper, upper_rune, byte_len,
}
use distributed_wallet_ledge.Errors.{Result, ok, err}
use distributed_wallet_ledge.Domain.Ids.{new_id}
use distributed_wallet_ledge.Domain.Currency
use distributed_wallet_ledge.Domain.Currency.{all_letters}
use distributed_wallet_ledge.Domain.Money
use distributed_wallet_ledge.Domain.Posting
use distributed_wallet_ledge.Domain.Posting.{Posting, debit, credit}
use distributed_wallet_ledge.Domain.JournalEntry
use distributed_wallet_ledge.Domain.JournalEntry.{
  scan_postings, accumulate, is_balanced, total_debits, total_credits,
}
use distributed_wallet_ledge.Domain.Transaction
use distributed_wallet_ledge.Domain.Transaction.{Transaction}
use distributed_wallet_ledge.Postgres.Tables.{Store}
use distributed_wallet_ledge.Postgres.Queries.{
  get_idempotency_key, lock_wallet_by_ledger_account_id, get_ledger_balance, posted, active_holds,
  create_transaction, create_journal_entry, create_posting, create_outbox_event, blank,
  create_idempotency_key,
}
use distributed_wallet_ledge.Postgres.Transactions.{
  Lookups, check_idempotency, lock_wallet_accounts, check_accounts, lock_keys, account_keys,
  insert_key, text_lt, to_uuid, write_transaction, validate_wallet_balances, delta_from,
  create_postings, create_outbox_events, post,
}
use distributed_wallet_ledge.Postgres.Reading.{get_aggregate}
use distributed_wallet_ledge.Postgres.Reading.Order.{AreSorted}
use distributed_wallet_ledge.Postgres.Reading.Written.{IsReadable, IsReferential}
use distributed_wallet_ledge.Postgres.Reading.RoundTrip
use distributed_wallet_ledge.Postgres.Reading.RoundTrip.{reordered}
use distributed_wallet_ledge.Examples.Data.{
  scan, wallet_account, other_account, key, hash, event_id, usd, posting, payment, funded,
}

-- The ledger with the entry that its postings belong to.
abbrev kept : Store
kept = record funded {
  transactions =
      record { id = 49 ∷ []; description = 112 ∷ []; reverses_transaction_id = none } ∷ [];
  journal_entries = record { id = 48 ∷ []; transaction_id = 49 ∷ []; currency = usd.code } ∷ [];
}

-- A payment whose postings are not in the order of their identifiers.
abbrev moved : Transaction
moved = record payment {
  journal_entry = record payment.journal_entry {
    postings = posting 2 wallet_account debit 30 ∷ posting 1 other_account credit 30 ∷ [];
  };
}

moved-valid : Transaction.validate moved ≡ ok tt
unfolding wrap64 ◌+ℤ◌ ◌-ℤ◌ byte_len all_letters Currency.validate Money.validate Money.add
    Posting.validate JournalEntry.validate scan_postings is_balanced accumulate total_debits
    total_credits Money.new_money Money.equal Transaction.validate
moved-valid = refl

moved-IsReadable : IsReadable scan moved
unfolding new_id is_space trim_space trim_left trim_right
moved-IsReadable = record {
  valid = moved-valid;
  clean = (refl, refl);
  entry_clean = (refl, refl);
  postings_clean = (((refl, refl), (refl, refl)), (((refl, refl), (refl, refl)), tt));
  trimmed = refl;
  reverses_canonical = refl;
  reverses_clean = refl;
}

kept-IsReferential : IsReferential kept
kept-IsReferential = (refl, (refl, tt))

abbrev store_of : Result Store → Store
store_of (ok s) = s
store_of (err e) = kept

abbrev seen_kept : Lookups
seen_kept = record { before = kept; after_rollback = kept }

abbrev after : Store
after = store_of (post scan 10 event_id seen_kept moved key hash kept)

moved-posted : post scan 10 event_id seen_kept moved key hash kept ≡ ok after
unfolding post to_upper upper_rune wrap64 ◌+ℤ◌ ◌-ℤ◌ check_idempotency get_idempotency_key
    lock_wallet_accounts check_accounts lock_keys account_keys insert_key text_lt to_uuid
    lock_wallet_by_ledger_account_id write_transaction validate_wallet_balances get_ledger_balance
    posted active_holds delta_from create_transaction create_journal_entry create_postings
    create_posting create_outbox_events create_outbox_event blank create_idempotency_key
moved-posted = refl

kept-new : get_idempotency_key key kept ≡ none
unfolding get_idempotency_key
kept-new = refl

get_aggregate-post_example :
    (ps : List Posting) × Permᴰ ps moved.journal_entry.postings
    × AreSorted ps
    × (get_aggregate scan moved.id after ≡ ok (reordered moved ps))
get_aggregate-post_example =
    RoundTrip.get_aggregate-post scan 10 event_id seen_kept moved key hash kept after
      moved-IsReadable kept-IsReferential kept-new kept-new kept-new moved-posted
