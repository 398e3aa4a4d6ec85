-- ===== src/Postgres/Refinement.antt =====
-- The store of Postgres as an implementation of a plain ledger: totals for each account, and the
-- requests that it has taken.
use distributed_wallet_ledge.Prelude.{
  ℕ, suc, ◌+◌, ◌≡◌, sym, ap, subst, ◌∙◌, Bool, false, ℤ, ◌=text◌, List, [], ◌∷◌, Text, Option, none,
  some, if◌then◌else◌, arith, Bool-cases, inl, inr,
}
use distributed_wallet_ledge.Errors.{ok, >>=-eq-ok, wrap_error, wrap_error-eq-ok, ok-injective}
use distributed_wallet_ledge.Domain.Posting.{Posting, PostingDirection, is_debit, is_credit}
use distributed_wallet_ledge.Domain.JournalEntry.Balance.{IsDoubleEntry}
use distributed_wallet_ledge.Domain.Transaction.{Transaction}
use distributed_wallet_ledge.Domain.Transaction.Mirror.{account_sum}
use distributed_wallet_ledge.Domain.Hold.{Time}
use distributed_wallet_ledge.Postgres.Tables.{
  Uuid, Store, KeyRow, WalletRow, TransactionRow, JournalEntryRow,
}
use distributed_wallet_ledge.Postgres.Queries.{
  find, posted, exists, get_idempotency_key, create_idempotency_key, create_transaction,
  create_journal_entry, create_posting, create_outbox_event,
}
use distributed_wallet_ledge.Postgres.Transactions.{
  Lookups, check_idempotency, to_uuid, lock_wallet_accounts, write_transaction,
  validate_wallet_balances, optional_uuid, create_postings, create_outbox_events, event_row,
  key_row, post,
}
use distributed_wallet_ledge.Postgres.Replays.{
  SeesKeyOf, SeesKeyOf-new, check_idempotency-Bound, check_idempotency-new, kept_or_replayed-made,
}
use distributed_wallet_ledge.Postgres.Solvency.Deltas.{IsCanonical}
use distributed_wallet_ledge.Postgres.Solvency.Frames.{create_idempotency_key-SameFunds}
use distributed_wallet_ledge.Postgres.Solvency.Writes.{write_transaction-Written}

-- The plain ledger.
pub record Ledger : Type 0 where
  pub debits : Uuid → ℕ
  pub credits : Uuid → ℕ
  pub requests : Text → Option KeyRow

-- What the store says as a plain ledger.
abbrev pub view : Store → Ledger
view s = record {
  debits = λ a. posted is_debit a s.postings;
  credits = λ a. posted is_credit a s.postings;
  requests = λ key. get_idempotency_key key s;
}

-- How the plain ledger takes a request: a key that it knows changes nothing; under a new one every
-- account gets the sums of its postings.
abbrev pub book_new : Transaction → Text → Text → Ledger → Option KeyRow → Ledger
book_new t key hash l (some row) = l
book_new t key hash l none = record {
  debits = λ a. account_sum is_debit a t.journal_entry.postings + l.debits a;
  credits = λ a. account_sum is_credit a t.journal_entry.postings + l.credits a;
  requests = λ k. if key =text k then some (key_row key hash t.id) else l.requests k;
}

abbrev pub book : Transaction → Text → Text → Ledger → Ledger
book t key hash l = book_new t key hash l (l.requests key)

create_transaction-keys :
    (row : TransactionRow) (s s' : Store)
    → create_transaction row s ≡ ok s'
    → s'.idempotency_keys ≡ s.idempotency_keys
unfolding create_transaction
create_transaction-keys row s s' h = ground arith

create_journal_entry-keys :
    (row : JournalEntryRow) (s s' : Store)
    → create_journal_entry row s ≡ ok s'
    → s'.idempotency_keys ≡ s.idempotency_keys
unfolding create_journal_entry
create_journal_entry-keys row s s' h = ground arith

create_posting-keys :
    (id entry account : Uuid) (d : PostingDirection) (amount : ℤ) (s s' : Store)
    → create_posting id entry account d amount s ≡ ok s'
    → s'.idempotency_keys ≡ s.idempotency_keys
unfolding create_posting
create_posting-keys id entry account d amount s s' h = ground arith

create_postings-keys :
    (scan : Text → Option Uuid) (entry : Uuid) (ps : List Posting) (s s' : Store)
    → create_postings scan entry ps s ≡ ok s'
    → s'.idempotency_keys ≡ s.idempotency_keys
unfolding create_postings
create_postings-keys scan entry [] s s' h = ground arith
create_postings-keys scan entry (p ∷ ps) s s' h =
    let (id, _, h₁) = >>=-eq-ok (to_uuid scan p.id) _ h in
    let (account, _, h₂) = >>=-eq-ok (to_uuid scan p.account_id) _ h₁ in
    let write = create_posting id entry account p.direction p.amount.amount_minor_units s in
    let (s₁, wrote, h₃) = >>=-eq-ok (wrap_error write) _ h₂ in
    create_postings-keys scan entry ps s₁ s' h₃
    ∙ create_posting-keys id entry account p.direction p.amount.amount_minor_units s s₁
        (wrap_error-eq-ok write s₁ wrote)

create_outbox_events-keys :
    (now : Time) (event_id : ℕ → Uuid) (n : ℕ) (seen : List Uuid) (locked : List (Text × WalletRow))
    (s s' : Store)
    → create_outbox_events now event_id n seen locked s ≡ ok s'
    → s'.idempotency_keys ≡ s.idempotency_keys
unfolding create_outbox_events create_outbox_event
create_outbox_events-keys now event_id n seen [] s s' h = ground arith
create_outbox_events-keys now event_id n seen ((key, w) ∷ locked) s s' h =
    elim (Bool-cases (exists (λ u. u =text w.id) seen)) [
      | inl old ↦ create_outbox_events-keys now event_id n seen locked s s' (rw old at h)
      | inr new ↦
          let insert = create_outbox_event (event_row now event_id n w) s in
          let (s₁, wrote, rest) = >>=-eq-ok (wrap_error insert) _ (rw new at h) in
          let inserted = wrap_error-eq-ok insert s₁ wrote in
          let same : s₁.idempotency_keys ≡ s.idempotency_keys = ground arith in
          create_outbox_events-keys now event_id (suc n) (w.id ∷ seen) locked s₁ s' rest ∙ same
    ]

pub write_transaction-keys :
    (scan : Text → Option Uuid) (now : Time) (event_id : ℕ → Uuid) (t : Transaction)
    (locked : List (Text × WalletRow)) (s s' : Store)
    → write_transaction scan now event_id t locked s ≡ ok s'
    → s'.idempotency_keys ≡ s.idempotency_keys
unfolding write_transaction
write_transaction-keys scan now event_id t locked s s' h =
    let ps = t.journal_entry.postings in
    let (_, _, h₁) = >>=-eq-ok (validate_wallet_balances now ps locked s) _ h in
    let (id, _, h₂) = >>=-eq-ok (to_uuid scan t.id) _ h₁ in
    let (original, _, h₃) = >>=-eq-ok (optional_uuid scan t.reverses_transaction_id) _ h₂ in
    let (s₁, made, h₄) = >>=-eq-ok (wrap_error (create_transaction _ s)) _ h₃ in
    let (entry, _, h₅) = >>=-eq-ok (to_uuid scan t.journal_entry.id) _ h₄ in
    let (s₂, entered, h₆) = >>=-eq-ok (wrap_error (create_journal_entry _ s₁)) _ h₅ in
    let (s₃, wrote, h₇) = >>=-eq-ok (create_postings scan entry ps s₂) _ h₆ in
    create_outbox_events-keys now event_id 0 [] locked s₃ s' h₇
    ∙ create_postings-keys scan entry ps s₂ s₃ wrote
    ∙ create_journal_entry-keys _ s₁ s₂ (wrap_error-eq-ok (create_journal_entry _ s₁) s₂ entered)
    ∙ create_transaction-keys _ s s₁ (wrap_error-eq-ok (create_transaction _ s) s₁ made)

pub get-create_idempotency_key :
    (row : KeyRow) (k : Text) (s s' : Store)
    → create_idempotency_key row s ≡ ok s'
    → get_idempotency_key k s'
      ≡ (if row.idempotency_key =text k then some row else get_idempotency_key k s)
unfolding create_idempotency_key get_idempotency_key
get-create_idempotency_key row k s s' h = ground arith

get_idempotency_key-same :
    (k : Text) (s s' : Store)
    → s'.idempotency_keys ≡ s.idempotency_keys
    → get_idempotency_key k s' ≡ get_idempotency_key k s
unfolding get_idempotency_key
get_idempotency_key-same k s s' e = ap (find (λ r. r.idempotency_key =text k)) e

view-book_new :
    (scan : Text → Option Uuid) (now : Time) (event_id : ℕ → Uuid) (t : Transaction)
    (key hash : Text) (locked : List (Text × WalletRow)) (s s₁ s' : Store)
    → IsDoubleEntry t.journal_entry
    → IsCanonical scan t.journal_entry.postings
    → write_transaction scan now event_id t locked s ≡ ok s₁
    → create_idempotency_key (key_row key hash t.id) s₁ ≡ ok s'
    → view s' ≡ book_new t key hash (view s) none
view-book_new scan now event_id t key hash locked s s₁ s' double canonical wrote inserted =
    let (_, w) = write_transaction-Written scan now event_id t double canonical locked s s₁ wrote in
    let same =
      (create_idempotency_key-SameFunds (key_row key hash t.id) s₁ s' inserted).same_postings in
    let keys = write_transaction-keys scan now event_id t locked s s₁ wrote in
    let totals =
      λ (f : PostingDirection → Bool) (a : Uuid). ap (posted f a) same ∙ w.accounts f a in
    let requests = λ (k : Text).
      get-create_idempotency_key (key_row key hash t.id) k s₁ s' inserted
      ∙ ap (λ (o : Option KeyRow). if key =text k then some (key_row key hash t.id) else o)
          (get_idempotency_key-same k s s₁ keys) in
    λ i. record {
      debits = λ a. totals is_debit a i;
      credits = λ a. totals is_credit a i;
      requests = λ k. requests k i;
    }

-- A request under a key that the store has.
view-book_old :
    (t : Transaction) (key hash : Text) (s s' : Store) (row : KeyRow)
    → get_idempotency_key key s ≡ some row
    → s ≡ s'
    → view s' ≡ book t key hash (view s)
view-book_old t key hash s s' row found same =
    ap view (sym same) ∙ ap (book_new t key hash (view s)) (sym found)

-- A `Post` that succeeds does to the accounts and the keys of the store exactly what the plain
-- ledger does on the request: nothing under a key that the store has; under a new one, every
-- account gets the sums of the postings on its two sides, and the key is bound to the hash and the
-- transaction. The transaction is a valid double entry with canonical identifiers, and the lookups
-- outside the database transaction see no row of the key that the store lacks.
pub post-Refines :
    (scan : Text → Option Uuid) (now : Time) (event_id : ℕ → Uuid) (seen : Lookups)
    (t : Transaction) (key hash : Text) (s s' : Store)
    → IsDoubleEntry t.journal_entry
    → IsCanonical scan t.journal_entry.postings
    → scan t.id ≡ some t.id
    → SeesKeyOf key seen s
    → post scan now event_id seen t key hash s ≡ ok s'
    → view s' ≡ book t key hash (view s)
unfolding post to_uuid
post-Refines scan now event_id seen t key hash s s' double canonical named sees h =
    let (known, looked, h₁) = >>=-eq-ok (check_idempotency t key hash seen.before) _ h in
    elim (Bool-cases known) [
      | inl old ↦
          let (row, found, _, _) =
            check_idempotency-Bound t key hash seen.before (rw old at looked) in
          view-book_old t key hash s s' row (sees.first row found) (ok-injective (rw old at h₁))
      | inr new ↦
          let (locked, lock, h₂) = >>=-eq-ok (lock_wallet_accounts scan t s) _ (rw new at h₁) in
          let (replayed, found, h₃) = >>=-eq-ok (check_idempotency t key hash s) _ h₂ in
          elim (Bool-cases replayed) [
            | inl again ↦
                let (row, has, _, _) = check_idempotency-Bound t key hash s (rw again at found) in
                view-book_old t key hash s s' row has (ok-injective (rw again at h₃))
            | inr first ↦
                let (s₁, wrote, h₄) =
                  >>=-eq-ok (write_transaction scan now event_id t locked s) _ (rw first at h₃) in
                let (id, scanned, h₅) = >>=-eq-ok (to_uuid scan t.id) _ h₄ in
                let same : id ≡ t.id = ground arith in
                let fresh : check_idempotency t key hash s ≡ ok false = rw first at found in
                let made =
                  kept_or_replayed-made t (key_row key hash id) seen.after_rollback s s'
                    (create_idempotency_key (key_row key hash id) s₁)
                    (SeesKeyOf-new t key hash seen s sees fresh) h₅ in
                view-book_new scan now event_id t key hash locked s s₁ s' double canonical wrote
                  (subst (λ u. create_idempotency_key (key_row key hash u) s₁ ≡ ok s') same made)
                ∙ ap (book_new t key hash (view s)) (sym (check_idempotency-new t key hash s fresh))
          ]
    ]
