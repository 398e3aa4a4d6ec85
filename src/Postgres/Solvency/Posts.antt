-- ===== src/Postgres/Solvency/Posts.antt =====
-- `Post` and `postInTransaction` on a sound store.
use distributed_wallet_ledge.Prelude.{
  ℕ, ◌≡◌, sym, ap, subst, ◌∙◌, Text, Option, Bool-cases, inl, inr,
}
use distributed_wallet_ledge.Errors.{ok, >>=-eq-ok, wrap_error-eq-ok, ok-injective}
use distributed_wallet_ledge.Domain.JournalEntry.Balance.{IsDoubleEntry}
use distributed_wallet_ledge.Domain.Transaction.{Transaction}
use distributed_wallet_ledge.Domain.Hold.{Time}
use distributed_wallet_ledge.Postgres.Tables.{Uuid, Store}
use distributed_wallet_ledge.Postgres.Queries.{create_idempotency_key}
use distributed_wallet_ledge.Postgres.Outcomes.{post-outcome}
use distributed_wallet_ledge.Postgres.Transactions.{
  Lookups, to_uuid, lock_wallet_accounts, write_transaction, check_idempotency, key_row,
  post_in_transaction, post,
}
use distributed_wallet_ledge.Postgres.Solvency.Deltas.{IsCanonical}
use distributed_wallet_ledge.Postgres.Solvency.Frames.{
  write_transaction-SameWallets, create_idempotency_key-SameFunds,
}
use distributed_wallet_ledge.Postgres.Solvency.Invariant.{IsSound, SameFunds-IsSound}
use distributed_wallet_ledge.Postgres.Solvency.Writes.{write_transaction-IsSound}

module _ (scan : Text → Option Uuid) (now : Time) (event_id : ℕ → Uuid) (t : Transaction)
    (double : IsDoubleEntry t.journal_entry)
    (canonical : IsCanonical scan t.journal_entry.postings) where
  -- The posting inside a database transaction of the caller, as a capture does it.
  pub post_in_transaction-IsSound :
      (key hash : Text) (s s' : Store)
      → post_in_transaction scan now event_id t key hash s ≡ ok s'
      → IsSound now s
      → IsSound now s'
  unfolding post_in_transaction
  post_in_transaction-IsSound key hash s s' h sound =
      let (locked, lock, h₁) = >>=-eq-ok (lock_wallet_accounts scan t s) _ h in
      let (replayed, _, h₂) = >>=-eq-ok (check_idempotency t key hash s) _ h₁ in
      elim (Bool-cases replayed) [
        | inl old ↦ subst (IsSound now) (ok-injective (rw old at h₂)) sound
        | inr new ↦
            let (s₁, wrote, h₃) =
              >>=-eq-ok (write_transaction scan now event_id t locked s) _ (rw new at h₂) in
            let (id, _, h₄) = >>=-eq-ok (to_uuid scan t.id) _ h₃ in
            SameFunds-IsSound now s₁ s'
              (create_idempotency_key-SameFunds (key_row key hash id) s₁ s'
                (wrap_error-eq-ok (create_idempotency_key (key_row key hash id) s₁) s' h₄))
              (write_transaction-IsSound scan now event_id t double canonical locked s s₁ lock wrote
                sound)
      ]

  -- If `Post` succeeds on a transaction in double entry whose account identifiers are canonical, on
  -- a store in which no wallet is overdrawn and the ledger is balanced, then no wallet is overdrawn
  -- and the ledger is balanced afterwards, whatever the first, possibly stale, lookup has seen.
  pub post-IsSound :
      (seen : Lookups) (key hash : Text) (s s' : Store)
      → post scan now event_id seen t key hash s ≡ ok s'
      → IsSound now s
      → IsSound now s'
  post-IsSound seen key hash s s' h sound =
      elim (post-outcome scan now event_id t seen key hash s s' h) [
        | inl same ↦ subst (IsSound now) same sound
        | inr (s₁, locked, id, lock, wrote, made) ↦
            SameFunds-IsSound now s₁ s'
              (create_idempotency_key-SameFunds (key_row key hash id) s₁ s' made)
              (write_transaction-IsSound scan now event_id t double canonical locked s s₁ lock wrote
                sound)
      ]

pub post-wallets :
    (scan : Text → Option Uuid) (now : Time) (event_id : ℕ → Uuid) (t : Transaction)
    (seen : Lookups) (key hash : Text) (s s' : Store)
    → post scan now event_id seen t key hash s ≡ ok s'
    → s'.wallets ≡ s.wallets
post-wallets scan now event_id t seen key hash s s' h =
    elim (post-outcome scan now event_id t seen key hash s s' h) [
      | inl same ↦ ap (λ r. r.wallets) (sym same)
      | inr (s₁, locked, id, lock, wrote, made) ↦
          (create_idempotency_key-SameFunds (key_row key hash id) s₁ s' made).same_wallets.wallets
          ∙ (write_transaction-SameWallets scan now event_id t locked s s₁ wrote).wallets
    ]
