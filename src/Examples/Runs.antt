-- ===== src/Examples/Runs.antt =====
-- The theorems about the whole ledger, applied where their hypotheses hold.
use distributed_wallet_ledge.Prelude.{
  ◌≡◌, refl, true, false, ◌&&◌, ◌=text◌, leb→le, pos, wrap64, ◌+ℤ◌, ◌-ℤ◌, [], ◌∷◌, to_upper,
  upper_rune, byte_len,
}
use distributed_wallet_ledge.Errors.{Result, ok, err, hold_not_authorized}
use distributed_wallet_ledge.Domain.Currency
use distributed_wallet_ledge.Domain.Currency.{all_letters}
use distributed_wallet_ledge.Domain.Money
use distributed_wallet_ledge.Domain.Posting
use distributed_wallet_ledge.Domain.Posting.{debit, credit, is_debit, is_credit}
use distributed_wallet_ledge.Domain.JournalEntry
use distributed_wallet_ledge.Domain.JournalEntry.{
  scan_postings, accumulate, is_balanced, total_debits, total_credits,
}
use distributed_wallet_ledge.Domain.JournalEntry.Balance
use distributed_wallet_ledge.Domain.JournalEntry.Balance.{IsDoubleEntry}
use distributed_wallet_ledge.Domain.Transaction
use distributed_wallet_ledge.Domain.Transaction.{Transaction}
use distributed_wallet_ledge.Postgres.Tables.{Store}
use distributed_wallet_ledge.Postgres.Queries.{
  get_idempotency_key, lock_wallet_by_ledger_account_id, get_ledger_balance, posted, active_holds,
  create_transaction, create_journal_entry, create_posting, create_outbox_event, blank,
  create_idempotency_key,
}
use distributed_wallet_ledge.Postgres.Transactions.{
  check_idempotency, lock_wallet_accounts, check_accounts, lock_keys, account_keys, insert_key,
  text_lt, to_uuid, write_transaction, validate_wallet_balances, delta_from, create_postings,
  create_outbox_events, post, post_in_transaction,
}
use distributed_wallet_ledge.Postgres.Replays
use distributed_wallet_ledge.Domain.Hold.{captured, released}
use distributed_wallet_ledge.Postgres.Queries.{
  get_wallet_by_id, get_wallet_hold_by_id, update_wallet_hold_status, set_authorized,
}
use distributed_wallet_ledge.Postgres.Holds.{authorize, capture, update_status}
use distributed_wallet_ledge.Postgres.Futures.Replies
use distributed_wallet_ledge.Postgres.Futures.Settled
use distributed_wallet_ledge.Postgres.Holds.Authorizations
use distributed_wallet_ledge.Postgres.Holds.DoubleCount
use distributed_wallet_ledge.Postgres.Reachable
use distributed_wallet_ledge.Postgres.Reachable.{Reaches, done, then_step, ticks, posts, authorizes}
use distributed_wallet_ledge.Postgres.Solvency.Locks
use distributed_wallet_ledge.Postgres.Solvency.Locks.{has_wallet}
use distributed_wallet_ledge.Postgres.Solvency.Invariant.{IsSolvent, IsSound}
use distributed_wallet_ledge.Application.PostTransaction.{PostTransactionCommand, execute}
use distributed_wallet_ledge.Application.Soundness
use distributed_wallet_ledge.Application.Soundness.{postgres}
use distributed_wallet_ledge.Examples.Data.{
  scan, wallet_account, other_account, wallet_id, hold_id, key, hash, event_id, usd, entry, payment,
  hold, funded, seen_funded, held,
}

entry-valid : JournalEntry.validate entry ≡ ok tt
unfolding wrap64 ◌+ℤ◌ ◌-ℤ◌ byte_len all_letters Currency.validate Money.validate Money.add
    Posting.validate JournalEntry.validate scan_postings is_balanced accumulate total_debits
    total_credits Money.new_money Money.equal
entry-valid = refl

pub entry-IsDoubleEntry : IsDoubleEntry entry
entry-IsDoubleEntry = (Balance.validate_entry_iff entry).0 entry-valid

abbrev store_of : Store → Result Store → Store
store_of s (ok s') = s'
store_of s (err e) = s

abbrev pub paid : Store
paid = store_of funded (post scan 10 event_id seen_funded payment key hash funded)

pub payment-posted : post scan 10 event_id seen_funded payment key hash funded ≡ ok paid
unfolding post to_upper upper_rune wrap64 ◌+ℤ◌ ◌-ℤ◌ check_idempotency get_idempotency_key
    lock_wallet_accounts check_accounts lock_keys account_keys insert_key text_lt to_uuid
    lock_wallet_by_ledger_account_id write_transaction validate_wallet_balances get_ledger_balance
    posted active_holds delta_from create_transaction create_journal_entry create_postings
    create_posting create_outbox_events create_outbox_event blank create_idempotency_key
payment-posted = refl

pub funded-IsSolvent : IsSolvent 10 funded
unfolding posted active_holds
funded-IsSolvent = (leb→le 0 100 refl, tt)

pub held-IsSolvent : IsSolvent 10 held
unfolding posted active_holds
held-IsSolvent = (leb→le 30 100 refl, tt)

-- A payment, then a hold, then the passing of time.
Reaches-IsSound_example : IsSound 50 (authorize scan 10 hold key hash paid).0
Reaches-IsSound_example =
    Reachable.Reaches-IsSound scan (10, funded) (50, (authorize scan 10 hold key hash paid).0)
      (refl, tt) (funded-IsSolvent, refl)
      (then_step (10, funded) (10, paid) _
        (posts 10 event_id seen_funded funded paid payment key hash entry-valid (refl, (refl, tt))
          payment-posted)
        (then_step (10, paid) (10, (authorize scan 10 hold key hash paid).0) _
          (authorizes 10 hold key hash paid)
          (then_step (10, (authorize scan 10 hold key hash paid).0) _ _
            (ticks 10 50 (authorize scan 10 hold key hash paid).0 (leb→le 10 50 refl)) (done _))))

-- The payment comes again after another hold.
abbrev later : Store
later = (authorize scan 10 hold key hash paid).0

post-once_example :
    post scan 20 event_id (record { before = paid; after_rollback = paid }) payment key hash later
    ≡ Replays.replies (hash =text hash && payment.id =text payment.id) later
post-once_example =
    Replies.post-once scan 10 20 10 10 10 event_id event_id payment payment seen_funded key hash
      hash funded paid paid paid later refl
      (record { first = λ row found. found; last = λ row found. found }) payment-posted
      (done (10, paid))
      (then_step (10, paid) (10, later) _ (authorizes 10 hold key hash paid) (done (10, later)))

abbrev captured_store : Store
captured_store = store_of held (capture scan 10 10 event_id held hold_id payment key hash held)

payment-captured :
    capture scan 10 10 event_id held hold_id payment key hash held ≡ ok captured_store
unfolding capture to_upper upper_rune post_in_transaction get_wallet_by_id get_wallet_hold_by_id
    update_wallet_hold_status set_authorized wrap64 ◌+ℤ◌ ◌-ℤ◌ check_idempotency get_idempotency_key
    lock_wallet_accounts check_accounts lock_keys account_keys insert_key text_lt to_uuid
    lock_wallet_by_ledger_account_id write_transaction validate_wallet_balances get_ledger_balance
    posted active_holds delta_from create_transaction create_journal_entry create_postings
    create_posting create_outbox_events create_outbox_event blank create_idempotency_key
payment-captured = refl

abbrev after_capture : Store
after_capture = (authorize scan 10 hold wallet_id hash captured_store).0

capture-once_example :
    capture scan 20 20 event_id captured_store hold_id payment key wallet_id after_capture
    ≡ Replays.replies (hash =text wallet_id && payment.id =text payment.id) after_capture
capture-once_example =
    Replies.capture-once scan 10 10 20 20 10 10 10 event_id event_id held hold_id payment payment
      key hash wallet_id held captured_store captured_store after_capture refl payment-captured
      (done (10, captured_store))
      (then_step (10, captured_store) (10, after_capture) _
        (authorizes 10 hold wallet_id hash captured_store) (done (10, after_capture)))

held-fresh : check_idempotency payment key hash held ≡ ok false
unfolding check_idempotency get_idempotency_key
held-fresh = refl

entry-names : Locks.has_key wallet_account (account_keys entry.postings) ≡ true
unfolding account_keys insert_key text_lt
entry-names = refl

capture-Affords_example : DoubleCount.Affords 10 payment wallet_account held
capture-Affords_example =
    DoubleCount.capture-Affords scan 10 10 event_id held hold_id payment key hash held
      captured_store wallet_account entry-IsDoubleEntry (refl, (refl, tt)) payment-captured
      (held-IsSolvent, refl) held-fresh entry-names refl

authorize-IsSound_example : IsSound 10 (authorize scan 10 hold key hash funded).0
authorize-IsSound_example =
    Authorizations.authorize-IsSound scan 10 hold key hash funded (refl, tt)
      (funded-IsSolvent, refl)

abbrev released_store : Store
released_store = store_of held (update_status scan hold_id released held)

hold-released : update_status scan hold_id released held ≡ ok released_store
unfolding update_status update_wallet_hold_status set_authorized to_uuid
hold-released = refl

abbrev after_release : Store
after_release = (authorize scan 10 hold wallet_id hash released_store).0

settled_once_example :
    (update_status scan hold_id captured after_release ≡ err hold_not_authorized)
    × (Settled.left_by after_release
          (capture scan 20 20 event_id held hold_id payment key hash after_release)
        ≡ after_release)
settled_once_example =
    Settled.settled_once scan hold_id held released_store after_release 10 10 20 20 captured
      event_id held payment key hash (Settled.by_update released refl hold-released)
      (then_step (10, released_store) (10, after_release) _
        (authorizes 10 hold wallet_id hash released_store) (done (10, after_release)))
      refl

abbrev command : PostTransactionCommand
command = record {
  id = payment.id;
  journal_entry_id = entry.id;
  description = payment.description;
  currency_code = usd.code;
  idempotency_key = key;
  request_hash = hash;
  postings =
      record {
        id = 1 ∷ [];
        account_id = wallet_account;
        direction = debit;
        amount_minor_units = pos 30;
      }
      ∷ record {
        id = 2 ∷ [];
        account_id = other_account;
        direction = credit;
        amount_minor_units = pos 30;
      }
      ∷ [];
}

execute-IsSound_example :
    IsSound 10 (execute (postgres scan 10 event_id seen_funded) command funded).0
execute-IsSound_example =
    Soundness.execute-IsSound scan 10 event_id seen_funded command funded (refl, (refl, tt))
      (funded-IsSolvent, refl)

account_keys-IsAscending_example : Locks.IsAscending (account_keys entry.postings)
account_keys-IsAscending_example = Locks.account_keys-IsAscending entry.postings
