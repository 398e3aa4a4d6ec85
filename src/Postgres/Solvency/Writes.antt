-- ===== src/Postgres/Solvency/Writes.antt =====
-- What writing a transaction does to the funds: `write_transaction` keeps every wallet solvent and
-- the ledger balanced.
use native.Mathlib.Nat.{zero-add}
use distributed_wallet_ledge.Prelude.{
  ℕ, ◌+◌, ◌≤◌, ◌≡◌, refl, sym, ap, ap₂, subst, ◌∙◌, Bool, true, false, ℤ, pos, sub_ℕ, max_int64,
  ltb_ℤ, ◌+64◌, ◌-64◌, List, [], Text, Option, arith, Bool-cases, inl, inr,
}
use distributed_wallet_ledge.Errors.{ok, >>=-eq-ok, wrap_error, wrap_error-eq-ok}
use distributed_wallet_ledge.Domain.Posting.{Posting, PostingDirection, is_debit, is_credit}
use distributed_wallet_ledge.Domain.JournalEntry.Balance.{IsDoubleEntry}
use distributed_wallet_ledge.Domain.JournalEntry.Totals.{sum_of}
use distributed_wallet_ledge.Domain.Transaction.{Transaction}
use distributed_wallet_ledge.Domain.Transaction.Mirror.{account_sum}
use distributed_wallet_ledge.Domain.Hold.{Time}
use distributed_wallet_ledge.Postgres.Tables.{Uuid, Store, WalletRow}
use distributed_wallet_ledge.Postgres.Queries.{
  posted, active_holds, get_ledger_balance, LedgerBalance, create_transaction, create_journal_entry,
}
use distributed_wallet_ledge.Postgres.Transactions.{
  account_keys, delta_from, to_uuid, check_accounts, lock_keys, lock_wallet_accounts,
  validate_wallet_balances, create_postings, write_transaction, optional_uuid,
}
use distributed_wallet_ledge.Postgres.Solvency.Arithmetic.{projected_nonneg}
use distributed_wallet_ledge.Postgres.Solvency.Deltas.{
  IsCanonical, account_sum-le, delta_from-eq, create_postings-posted, create_postings-total,
  ledger_total,
}
use distributed_wallet_ledge.Postgres.Solvency.Frames.{
  SameWallets, write_transaction-SameWallets, SameFunds-trans, create_transaction-SameFunds,
  create_journal_entry-SameFunds, create_outbox_events-SameFunds,
}
use distributed_wallet_ledge.Postgres.Solvency.Locks.{
  has_key, has_wallet, account_sum-untouched, account_keys-canonical, lock_keys-found,
  validate_wallet_balances-Checked,
}
use distributed_wallet_ledge.Postgres.Solvency.Invariant.{
  IsSolvent, IsSolvent-covers, covers-IsSolvent, IsLedgerBalanced, IsSound,
}

-- What a written transaction has done to the funds.
pub record Written (ps : List Posting) (s s' : Store) : Type 0 where
  pub same_wallets : SameWallets s s'
  pub accounts :
      (f : PostingDirection → Bool) (a : Uuid)
      → posted f a s'.postings ≡ account_sum f a ps + posted f a s.postings
  pub totals :
      (f : PostingDirection → Bool)
      → ledger_total f s'.postings ≡ sum_of f ps + ledger_total f s.postings

pub get_ledger_balance-eq :
    (now : Time) (a : Uuid) (s : Store) (b : LedgerBalance)
    → get_ledger_balance now a s ≡ ok b
    → (b ≡ record {
      total_debits = pos (posted is_debit a s.postings);
      total_credits = pos (posted is_credit a s.postings);
      active_holds = pos (active_holds now a s.wallets s.wallet_holds);
    })
      × (posted is_credit a s.postings ≤ max_int64)
unfolding get_ledger_balance
get_ledger_balance-eq now a s b h = ground arith

module _ (scan : Text → Option Uuid) (now : Time) (event_id : ℕ → Uuid) (t : Transaction)
    (double : IsDoubleEntry t.journal_entry)
    (canonical : IsCanonical scan t.journal_entry.postings) where
  pub write_transaction-Written :
      (locked : List (Text × WalletRow)) (s s' : Store)
      → write_transaction scan now event_id t locked s ≡ ok s'
      → (validate_wallet_balances now t.journal_entry.postings locked s ≡ ok tt)
        × Written t.journal_entry.postings s s'
  unfolding write_transaction
  write_transaction-Written locked s s' h =
      let ps = t.journal_entry.postings in
      let (_, checked, h₁) = >>=-eq-ok (validate_wallet_balances now ps locked s) _ h in
      let (id, _, h₂) = >>=-eq-ok (to_uuid scan t.id) _ h₁ in
      let (original, _, h₃) = >>=-eq-ok (optional_uuid scan t.reverses_transaction_id) _ h₂ in
      let (s₁, made, h₄) = >>=-eq-ok (wrap_error (create_transaction _ s)) _ h₃ in
      let (entry, _, h₅) = >>=-eq-ok (to_uuid scan t.journal_entry.id) _ h₄ in
      let (s₂, entered, h₆) = >>=-eq-ok (wrap_error (create_journal_entry _ s₁)) _ h₅ in
      let (s₃, wrote, h₇) = >>=-eq-ok (create_postings scan entry ps s₂) _ h₆ in
      let made' =
        create_transaction-SameFunds _ s s₁ (wrap_error-eq-ok (create_transaction _ s) s₁ made) in
      let entered' =
        create_journal_entry-SameFunds _ s₁ s₂
          (wrap_error-eq-ok (create_journal_entry _ s₁) s₂ entered) in
      let before = SameFunds-trans made' entered' in
      let after = create_outbox_events-SameFunds now event_id 0 [] locked s₃ s' h₇ in
      (
        checked,
        record {
          same_wallets = write_transaction-SameWallets scan now event_id t locked s s' h;
          accounts = λ f a.
              ap (posted f a) after.same_postings
              ∙ create_postings-posted scan entry ps s₂ s₃ f a canonical wrote
              ∙ ap (λ rows. account_sum f a ps + posted f a rows) before.same_postings;
          totals = λ f.
              ap (ledger_total f) after.same_postings
              ∙ create_postings-total scan entry ps s₂ s₃ f wrote
              ∙ ap (λ rows. sum_of f ps + ledger_total f rows) before.same_postings;
        },
      )

  -- Double entry keeps the whole ledger balanced.
  Written-IsLedgerBalanced :
      (s s' : Store)
      → Written t.journal_entry.postings s s'
      → IsLedgerBalanced s
      → IsLedgerBalanced s'
  Written-IsLedgerBalanced s s' w h =
      omega (arith, w.totals is_debit, w.totals is_credit, h, double.balanced)

  -- The wallets and the holds that the new store shares with the old one.
  Written-frame :
      (s s' : Store) (a : Uuid)
      → Written t.journal_entry.postings s s'
      → (has_wallet a s' ≡ has_wallet a s)
        × (active_holds now a s'.wallets s'.wallet_holds
            ≡ active_holds now a s.wallets s.wallet_holds)
  Written-frame s s' a w = rw (w.same_wallets.wallets, w.same_wallets.holds) (refl, refl)

  -- An account that the transaction names has been checked.
  pub checked_account :
      (locked : List (Text × WalletRow)) (s s' : Store) (a : Uuid)
      → lock_keys scan (account_keys t.journal_entry.postings) s ≡ ok locked
      → validate_wallet_balances now t.journal_entry.postings locked s ≡ ok tt
      → has_key a (account_keys t.journal_entry.postings) ≡ true
      → has_wallet a s ≡ true
      → posted is_debit a s.postings + active_holds now a s.wallets s.wallet_holds
        ≤ posted is_credit a s.postings
      → (account_sum is_debit a t.journal_entry.postings + posted is_debit a s.postings)
          + active_holds now a s.wallets s.wallet_holds
        ≤ account_sum is_credit a t.journal_entry.postings + posted is_credit a s.postings
  checked_account locked s s' a lock checked named wallet solvent =
      let ps = t.journal_entry.postings in
      let (w, owner, listed) =
        lock_keys-found scan (account_keys ps) s locked a lock
          (account_keys-canonical scan ps canonical) named wallet in
      let (b, read, fine) = validate_wallet_balances-Checked now ps locked s a w checked listed in
      let read' = subst (λ u. get_ledger_balance now u s ≡ ok b) owner read in
      let (b_eq, bounded) = get_ledger_balance-eq now a s b read' in
      let x = account_sum is_credit a ps in
      let y = account_sum is_debit a ps in
      let x-le = account_sum-le is_credit a ps in
      let y-le = account_sum-le is_debit a ps in
      let limit = double.bounded in
      let even = double.balanced in
      let delta : delta_from a ps (pos 0) ≡ sub_ℕ x y =
        delta_from-eq t.journal_entry.currency a ps 0 0 double.fitting (omega arith) (omega arith)
        ∙ ap₂ sub_ℕ (zero-add x) (zero-add y) in
      let fine' =
        subst
          (λ (z : LedgerBalance × ℤ).
            ltb_ℤ (z.0.total_credits -64 z.0.total_debits +64 (pos 0 -64 z.0.active_holds) +64 z.1)
              (pos 0)
            ≡ false)
          (λ i. (b_eq i, delta i)) fine in
      let kept =
        projected_nonneg (posted is_credit a s.postings) (posted is_debit a s.postings)
          (active_holds now a s.wallets s.wallet_holds) x y bounded (omega arith) (omega arith)
          solvent fine' in
      omega (arith, kept)

  pub write_transaction-IsSound :
      (locked : List (Text × WalletRow)) (s s' : Store)
      → lock_wallet_accounts scan t s ≡ ok locked
      → write_transaction scan now event_id t locked s ≡ ok s'
      → IsSound now s
      → IsSound now s'
  unfolding lock_wallet_accounts
  write_transaction-IsSound locked s s' lock h (solvent, even) =
      let ps = t.journal_entry.postings in
      let (checked, written) = write_transaction-Written locked s s' h in
      let (_, _, keys) = >>=-eq-ok (check_accounts scan ps) _ lock in
      let balanced = Written-IsLedgerBalanced s s' written even in
      let wallets : IsSolvent now s' = covers-IsSolvent now s' (λ a wallet'.
        let (same, held) = Written-frame s s' a written in
        let before = IsSolvent-covers now s a solvent (sym same ∙ wallet') in
        elim (Bool-cases (has_key a (account_keys ps))) [
          | inl named ↦
              let kept =
                checked_account locked s s' a keys checked named (sym same ∙ wallet') before in
              omega (arith, kept, held, written.accounts is_debit a, written.accounts is_credit a)
          | inr other ↦ omega (
            arith,
            before,
            held,
            written.accounts is_debit a,
            written.accounts is_credit a,
            account_sum-untouched is_debit a ps other,
            account_sum-untouched is_credit a ps other,
          )
        ]) in
      (wallets, balanced)
