-- ===== src/Postgres/Accounts/Keys.antt =====
-- The entries of an account are ordered, by the primary key of the postings.
use distributed_wallet_ledge.Prelude.{
  ◌≡◌, refl, false, ◌=text◌, List, [], ◌∷◌, Option, none, some, arith, Bool-cases, inl, inr,
}
use distributed_wallet_ledge.Domain.Hold.{Time}
use distributed_wallet_ledge.Postgres.Tables.{Uuid, TransactionRow, JournalEntryRow, PostingRow}
use distributed_wallet_ledge.Postgres.Queries.{find, exists}
use distributed_wallet_ledge.Postgres.Accounts.{
  AccountEntryRow, insert_entry, with_entry, with_transaction, account_entries,
}
use distributed_wallet_ledge.Postgres.Accounts.Order.{
  AreOrdered, exists-insert_entry, insert_entry-AreOrdered,
}

-- The primary key of the postings.
abbrev pub AreKeyed : List PostingRow → Type 0
AreKeyed [] = Unit
AreKeyed (p ∷ ps) = (exists (λ q. q.id =text p.id) ps ≡ false) × AreKeyed ps

-- What a join adds is a row of the posting, or nothing.
module _ (P : List AccountEntryRow → Type 0) (at : Time) (p : PostingRow)
    (rest : List AccountEntryRow) (unchanged : P rest)
    (added : (r : AccountEntryRow) → r.posting_id ≡ p.id → P (insert_entry r rest)) where
  with_transaction-cases :
      (j : JournalEntryRow) (t : Option TransactionRow) → P (with_transaction at p j t rest)
  with_transaction-cases j none = unchanged
  with_transaction-cases j (some t) = added _ refl

  pub with_entry-cases :
      (j : Option JournalEntryRow) (ts : List TransactionRow) → P (with_entry at p j ts rest)
  with_entry-cases none ts = unchanged
  with_entry-cases (some j) ts =
      with_transaction-cases j (find (λ t. t.id =text j.transaction_id) ts)

module _ (created_at : Uuid → Time) (account : Uuid) (ts : List TransactionRow)
    (js : List JournalEntryRow) where
  account_entries-fresh :
      (u : Uuid) (ps : List PostingRow)
      → exists (λ q. q.id =text u) ps ≡ false
      → exists (λ r. r.posting_id =text u) (account_entries created_at account ts js ps) ≡ false
  unfolding account_entries
  account_entries-fresh u [] h = refl
  account_entries-fresh u (p ∷ ps) h =
      let rest = account_entries created_at account ts js ps in
      let fresh : exists (λ r. r.posting_id =text u) rest ≡ false =
        account_entries-fresh u ps (ground arith) in
      let other : (p.id =text u) ≡ false = ground arith in
      elim (Bool-cases (p.account_id =text account)) [
        | inl own ↦ rw own (
            with_entry-cases (λ rows. exists (λ r. r.posting_id =text u) rows ≡ false)
              (created_at p.id) p rest fresh
              (λ r same.
                rw (exists-insert_entry (λ q. q.posting_id =text u) r rest, same, other) fresh)
              (find (λ j. j.id =text p.journal_entry_id) js) ts)
        | inr foreign ↦ rw foreign fresh
      ]

  -- The entries of an account come in the order of the queries.
  pub account_entries-AreOrdered :
      (ps : List PostingRow)
      → AreKeyed ps
      → AreOrdered (account_entries created_at account ts js ps)
  unfolding account_entries
  account_entries-AreOrdered [] h = tt
  account_entries-AreOrdered (p ∷ ps) (alone, keyed) =
      let rest = account_entries created_at account ts js ps in
      let ordered = account_entries-AreOrdered ps keyed in
      let fresh = account_entries-fresh p.id ps alone in
      elim (Bool-cases (p.account_id =text account)) [
        | inl own ↦ rw own (
            with_entry-cases AreOrdered (created_at p.id) p rest ordered
              (λ r same. insert_entry-AreOrdered r rest (rw same fresh) ordered)
              (find (λ j. j.id =text p.journal_entry_id) js) ts)
        | inr foreign ↦ rw foreign ordered
      ]
