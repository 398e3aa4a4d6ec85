-- ===== src/Postgres/Outcomes.antt =====
-- What a successful `Post` has done to the store.
use distributed_wallet_ledge.Prelude.{ℕ, ◌≡◌, ◌⊎◌, inl, inr, Text, Option, arith, Bool-cases, List}
use distributed_wallet_ledge.Errors.{Result, ok, err, >>=-eq-ok, ok-injective}
use distributed_wallet_ledge.Domain.Transaction.{Transaction}
use distributed_wallet_ledge.Domain.Hold.{Time}
use distributed_wallet_ledge.Postgres.Tables.{Uuid, Store, KeyRow, WalletRow}
use distributed_wallet_ledge.Postgres.Queries.{create_idempotency_key}
use distributed_wallet_ledge.Postgres.Transactions.{
  Lookups, check_idempotency, to_uuid, lock_wallet_accounts, write_transaction, key_row,
  kept_or_replayed, post,
}

kept_or_replayed-outcome :
    (t : Transaction) (row : KeyRow) (current s s' : Store) (inserted : Result Store)
    → kept_or_replayed t row current s inserted ≡ ok s'
    → (s ≡ s') ⊎ (inserted ≡ ok s')
kept_or_replayed-outcome t row current s s' (ok s₁) h = inr h
kept_or_replayed-outcome t row current s s' (err e) h =
    let (replayed, _, h₁) =
      >>=-eq-ok (check_idempotency t row.idempotency_key row.request_hash current) _ h in
    elim (Bool-cases replayed) [
      | inl again ↦ inl (ok-injective (rw again at h₁))
      | inr first ↦ absurd (ground (arith, rw first at h₁))
    ]

-- It has left the store as it was, or has written the transaction and then its key.
pub post-outcome :
    (scan : Text → Option Uuid) (now : Time) (event_id : ℕ → Uuid) (t : Transaction)
    (seen : Lookups) (key hash : Text) (s s' : Store)
    → post scan now event_id seen t key hash s ≡ ok s'
    → (s ≡ s')
      ⊎ ((s₁ : Store) × (locked : List (Text × WalletRow)) × (id : Uuid) × (lock_wallet_accounts
              scan t s
            ≡ ok locked)
          × (write_transaction scan now event_id t locked s ≡ ok s₁)
          × (create_idempotency_key (key_row key hash id) s₁ ≡ ok s'))
unfolding post
post-outcome scan now event_id t seen key hash s s' h =
    let (known, _, h₁) = >>=-eq-ok (check_idempotency t key hash seen.before) _ h in
    elim (Bool-cases known) [
      | inl old ↦ inl (ok-injective (rw old at h₁))
      | inr new ↦
          let (locked, lock, h₂) = >>=-eq-ok (lock_wallet_accounts scan t s) _ (rw new at h₁) in
          let (replayed, _, h₃) = >>=-eq-ok (check_idempotency t key hash s) _ h₂ in
          elim (Bool-cases replayed) [
            | inl again ↦ inl (ok-injective (rw again at h₃))
            | inr first ↦
                let (s₁, wrote, h₄) =
                  >>=-eq-ok (write_transaction scan now event_id t locked s) _ (rw first at h₃) in
                let (id, _, h₅) = >>=-eq-ok (to_uuid scan t.id) _ h₄ in
                elim (kept_or_replayed-outcome t (key_row key hash id) seen.after_rollback s s' _
                  h₅) [ inl same ↦ inl same | inr made ↦ inr (s₁, locked, id, lock, wrote, made) ]
          ]
    ]
