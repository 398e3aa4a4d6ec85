-- ===== src/Postgres/Solvency/Frames.antt =====
-- What each step of a posting leaves alone.
use distributed_wallet_ledge.Prelude.{
  ℕ, suc, ◌≡◌, refl, subst, ◌∙◌, ℤ, ◌=text◌, List, [], ◌∷◌, Text, Option, arith, Bool-cases, inl,
  inr,
}
use distributed_wallet_ledge.Errors.{ok, >>=-eq-ok, wrap_error, wrap_error-eq-ok, ok-injective}
use distributed_wallet_ledge.Domain.Posting.{Posting, PostingDirection}
use distributed_wallet_ledge.Domain.Hold.{Time}
use distributed_wallet_ledge.Postgres.Tables.{
  Uuid, Store, TransactionRow, JournalEntryRow, KeyRow, WalletRow, EventRow,
}
use distributed_wallet_ledge.Postgres.Queries.{
  create_transaction, create_journal_entry, create_posting, create_outbox_event,
  create_idempotency_key, exists,
}
use distributed_wallet_ledge.Postgres.Transactions.{
  to_uuid, create_postings, event_row, create_outbox_events, write_transaction, post_in_transaction,
  optional_uuid, validate_wallet_balances, lock_wallet_accounts, check_idempotency, key_row,
}
use distributed_wallet_ledge.Domain.Transaction.{Transaction}

-- The wallets and the holds are the same.
pub record SameWallets (s s' : Store) : Type 0 where
  pub wallets : s'.wallets ≡ s.wallets
  pub holds : s'.wallet_holds ≡ s.wallet_holds

pub SameWallets-trans : {s t u : Store} → SameWallets s t → SameWallets t u → SameWallets s u
SameWallets-trans f g = record { wallets = g.wallets ∙ f.wallets; holds = g.holds ∙ f.holds }

create_posting-SameWallets :
    (id entry account : Uuid) (d : PostingDirection) (amount : ℤ) (s s' : Store)
    → create_posting id entry account d amount s ≡ ok s'
    → SameWallets s s'
unfolding create_posting
create_posting-SameWallets id entry account d amount s s' h = ground arith

pub create_postings-SameWallets :
    (scan : Text → Option Uuid) (entry : Uuid) (ps : List Posting) (s s' : Store)
    → create_postings scan entry ps s ≡ ok s'
    → SameWallets s s'
unfolding create_postings
create_postings-SameWallets scan entry [] s s' h = ground arith
create_postings-SameWallets scan entry (p ∷ ps) s s' h =
    let (id, _, h₁) = >>=-eq-ok (to_uuid scan p.id) _ h in
    let (account, _, h₂) = >>=-eq-ok (to_uuid scan p.account_id) _ h₁ in
    let write = create_posting id entry account p.direction p.amount.amount_minor_units s in
    let (s₁, wrote, h₃) = >>=-eq-ok (wrap_error write) _ h₂ in
    SameWallets-trans
      (create_posting-SameWallets id entry account p.direction p.amount.amount_minor_units s s₁
        (wrap_error-eq-ok write s₁ wrote))
      (create_postings-SameWallets scan entry ps s₁ s' h₃)

-- The wallets, the holds and the postings are the same.
pub record SameFunds (s s' : Store) : Type 0 where
  pub same_wallets : SameWallets s s'
  pub same_postings : s'.postings ≡ s.postings

pub SameFunds-trans : {s t u : Store} → SameFunds s t → SameFunds t u → SameFunds s u
SameFunds-trans f g = record {
  same_wallets = SameWallets-trans f.same_wallets g.same_wallets;
  same_postings = g.same_postings ∙ f.same_postings;
}

pub create_transaction-SameFunds :
    (row : TransactionRow) (s s' : Store) → create_transaction row s ≡ ok s' → SameFunds s s'
unfolding create_transaction
create_transaction-SameFunds row s s' h = ground arith

pub create_journal_entry-SameFunds :
    (row : JournalEntryRow) (s s' : Store) → create_journal_entry row s ≡ ok s' → SameFunds s s'
unfolding create_journal_entry
create_journal_entry-SameFunds row s s' h = ground arith

pub create_idempotency_key-SameFunds :
    (row : KeyRow) (s s' : Store) → create_idempotency_key row s ≡ ok s' → SameFunds s s'
unfolding create_idempotency_key
create_idempotency_key-SameFunds row s s' h = ground arith

create_outbox_event-SameFunds :
    (row : EventRow) (s s' : Store) → create_outbox_event row s ≡ ok s' → SameFunds s s'
unfolding create_outbox_event
create_outbox_event-SameFunds row s s' h = ground arith

pub create_outbox_events-SameFunds :
    (now : Time) (event_id : ℕ → Uuid) (n : ℕ) (seen : List Uuid) (locked : List (Text × WalletRow))
    (s s' : Store)
    → create_outbox_events now event_id n seen locked s ≡ ok s'
    → SameFunds s s'
unfolding create_outbox_events
create_outbox_events-SameFunds now event_id n seen [] s s' h = ground arith
create_outbox_events-SameFunds now event_id n seen ((key, w) ∷ locked) s s' h =
    elim (Bool-cases (exists (λ u. u =text w.id) seen)) [
      | inl old ↦ create_outbox_events-SameFunds now event_id n seen locked s s' (rw old at h)
      | inr new ↦
          let (s₁, wrote, rest) =
            >>=-eq-ok (wrap_error (create_outbox_event (event_row now event_id n w) s)) _
              (rw new at h) in
          SameFunds-trans
            (create_outbox_event-SameFunds (event_row now event_id n w) s s₁
              (wrap_error-eq-ok (create_outbox_event (event_row now event_id n w) s) s₁ wrote))
            (create_outbox_events-SameFunds now event_id (suc n) (w.id ∷ seen) locked s₁ s' rest)
    ]

pub write_transaction-SameWallets :
    (scan : Text → Option Uuid) (now : Time) (event_id : ℕ → Uuid) (t : Transaction)
    (locked : List (Text × WalletRow)) (s s' : Store)
    → write_transaction scan now event_id t locked s ≡ ok s'
    → SameWallets s s'
unfolding write_transaction
write_transaction-SameWallets scan now event_id t locked s s' h =
    let ps = t.journal_entry.postings in
    let (_, checked, h₁) = >>=-eq-ok (validate_wallet_balances now ps locked s) _ h in
    let (id, _, h₂) = >>=-eq-ok (to_uuid scan t.id) _ h₁ in
    let (original, _, h₃) = >>=-eq-ok (optional_uuid scan t.reverses_transaction_id) _ h₂ in
    let (s₁, made, h₄) = >>=-eq-ok (wrap_error (create_transaction _ s)) _ h₃ in
    let (entry, _, h₅) = >>=-eq-ok (to_uuid scan t.journal_entry.id) _ h₄ in
    let (s₂, entered, h₆) = >>=-eq-ok (wrap_error (create_journal_entry _ s₁)) _ h₅ in
    let (s₃, wrote, h₇) = >>=-eq-ok (create_postings scan entry ps s₂) _ h₆ in
    let made' =
      create_transaction-SameFunds _ s s₁ (wrap_error-eq-ok (create_transaction _ s) s₁ made) in
    let entered' =
      create_journal_entry-SameFunds _ s₁ s₂
        (wrap_error-eq-ok (create_journal_entry _ s₁) s₂ entered) in
    let after = create_outbox_events-SameFunds now event_id 0 [] locked s₃ s' h₇ in
    SameWallets-trans (SameFunds-trans made' entered').same_wallets
      (SameWallets-trans (create_postings-SameWallets scan entry ps s₂ s₃ wrote) after.same_wallets)

pub post_in_transaction-SameWallets :
    (scan : Text → Option Uuid) (now : Time) (event_id : ℕ → Uuid) (t : Transaction)
    (key hash : Text) (s s' : Store)
    → post_in_transaction scan now event_id t key hash s ≡ ok s'
    → SameWallets s s'
unfolding post_in_transaction
post_in_transaction-SameWallets scan now event_id t key hash s s' h =
    let (locked, lock, h₁) = >>=-eq-ok (lock_wallet_accounts scan t s) _ h in
    let (replayed, _, h₂) = >>=-eq-ok (check_idempotency t key hash s) _ h₁ in
    elim (Bool-cases replayed) [
      | inl old ↦
          subst (SameWallets s) (ok-injective (rw old at h₂))
            (record { wallets = refl; holds = refl })
      | inr new ↦
          let (s₁, wrote, h₃) =
            >>=-eq-ok (write_transaction scan now event_id t locked s) _ (rw new at h₂) in
          let (id, _, h₄) = >>=-eq-ok (to_uuid scan t.id) _ h₃ in
          SameWallets-trans (write_transaction-SameWallets scan now event_id t locked s s₁ wrote)
            (create_idempotency_key-SameFunds (key_row key hash id) s₁ s' (
              wrap_error-eq-ok (create_idempotency_key (key_row key hash id) s₁) s'
                h₄)).same_wallets
    ]
