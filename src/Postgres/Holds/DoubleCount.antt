-- ===== src/Postgres/Holds/DoubleCount.antt =====
-- What `Capture` asks of the balance of the wallet it debits.
use distributed_wallet_ledge.Prelude.{ℕ, ◌+◌, ◌≤◌, ◌≡◌, sym, ◌∙◌, true, false, Option, Text, arith}
use distributed_wallet_ledge.Errors.{ok, >>=-eq-ok, ok-injective}
use distributed_wallet_ledge.Domain.Ids.{HoldId}
use distributed_wallet_ledge.Domain.Posting.{is_debit, is_credit}
use distributed_wallet_ledge.Domain.Transaction.{Transaction}
use distributed_wallet_ledge.Domain.Transaction.Mirror.{account_sum}
use distributed_wallet_ledge.Domain.JournalEntry.Balance.{IsDoubleEntry}
use distributed_wallet_ledge.Domain.Hold.{Time}
use distributed_wallet_ledge.Postgres.Tables.{Uuid, Store, HoldRow}
use distributed_wallet_ledge.Postgres.Queries.{posted, active_holds}
use distributed_wallet_ledge.Postgres.Transactions.{
  account_keys, check_accounts, lock_wallet_accounts, check_idempotency, write_transaction,
  post_in_transaction,
}
use distributed_wallet_ledge.Postgres.Holds.{capture}
use distributed_wallet_ledge.Postgres.Holds.Captures.{Captured, replayed, written, capture-Captured}
use distributed_wallet_ledge.Postgres.Solvency.Deltas.{IsCanonical}
use distributed_wallet_ledge.Postgres.Solvency.Locks.{has_key, has_wallet}
use distributed_wallet_ledge.Postgres.Solvency.Invariant.{IsSolvent-covers, IsSound}
use distributed_wallet_ledge.Postgres.Solvency.Writes.{checked_account, write_transaction-Written}

-- The debits, the holds and what the transaction debits fit in the credits and what it credits.
abbrev pub Affords : Time → Transaction → Uuid → Store → Type 0
Affords now t a s =
    (account_sum is_debit a t.journal_entry.postings + posted is_debit a s.postings)
      + active_holds now a s.wallets s.wallet_holds
    ≤ account_sum is_credit a t.journal_entry.postings + posted is_credit a s.postings

module _ (scan : Text → Option Uuid) (now : Time) (event_id : ℕ → Uuid) (t : Transaction)
    (double : IsDoubleEntry t.journal_entry)
    (canonical : IsCanonical scan t.journal_entry.postings) where
  post_in_transaction-Affords :
      (key hash : Text) (s s' : Store) (a : Uuid)
      → post_in_transaction scan now event_id t key hash s ≡ ok s'
      → IsSound now s
      → check_idempotency t key hash s ≡ ok false
      → has_key a (account_keys t.journal_entry.postings) ≡ true
      → has_wallet a s ≡ true
      → Affords now t a s
  unfolding post_in_transaction lock_wallet_accounts
  post_in_transaction-Affords key hash s s' a h (solvent, even) fresh named wallet =
      let (locked, lock, h₁) = >>=-eq-ok (lock_wallet_accounts scan t s) _ h in
      let (again, looked, h₂) = >>=-eq-ok (check_idempotency t key hash s) _ h₁ in
      let first : again ≡ false = ok-injective (sym looked ∙ fresh) in
      let (s₁, wrote, h₃) =
        >>=-eq-ok (write_transaction scan now event_id t locked s) _ (rw first at h₂) in
      let (_, _, keys) = >>=-eq-ok (check_accounts scan t.journal_entry.postings) _ lock in
      let (checked, _) =
        write_transaction-Written scan now event_id t double canonical locked s s₁ wrote in
      checked_account scan now event_id t double canonical locked s s₁ a keys checked named wallet
        (IsSolvent-covers now s a solvent wallet)

  Captured-Affords :
      (at : Time) (u : Uuid) (key hash : Text) (s s' : Store) (row : HoldRow) (a : Uuid)
      → Captured scan now at event_id u t key hash s row s'
      → IsSound now s
      → check_idempotency t key hash s ≡ ok false
      → has_key a (account_keys t.journal_entry.postings) ≡ true
      → has_wallet a s ≡ true
      → Affords now t a s
  Captured-Affords at u key hash s _ row a (replayed settled looked) sound fresh named wallet =
      absurd (ground (arith, ok-injective (sym looked ∙ fresh)))
  Captured-Affords at u key hash s _ row a (written s₁ active timely wrote one) sound fresh named
        wallet =
      post_in_transaction-Affords key hash s s₁ a wrote sound fresh named wallet

-- A `Capture` of a transaction that is new succeeds on a sound store only if each wallet's account
-- that it names affords the transaction beside all the active holds of the store before it, from
-- which the hold that is captured is not taken out. The transaction is in double entry and names its
-- accounts by canonical identifiers.
pub capture-Affords :
    (scan : Text → Option Uuid) (now at : Time) (event_id : ℕ → Uuid) (earlier : Store)
    (id : HoldId) (t : Transaction) (key hash : Text) (s s' : Store) (a : Uuid)
    → IsDoubleEntry t.journal_entry
    → IsCanonical scan t.journal_entry.postings
    → capture scan now at event_id earlier id t key hash s ≡ ok s'
    → IsSound now s
    → check_idempotency t key hash s ≡ ok false
    → has_key a (account_keys t.journal_entry.postings) ≡ true
    → has_wallet a s ≡ true
    → Affords now t a s
capture-Affords scan now at event_id earlier id t key hash s s' a double canonical h sound fresh
      named wallet =
    let (u, w, row, _, _, _, _, done) =
      capture-Captured scan now at event_id earlier id t key hash s s' h in
    Captured-Affords scan now event_id t double canonical at u key hash s s' row a done sound fresh
      named wallet
