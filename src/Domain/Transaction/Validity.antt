-- ===== src/Domain/Transaction/Validity.antt =====
-- `Transaction.Validate` against a plain description of a valid transaction.
use distributed_wallet_ledge.Prelude.{
  ◌≡◌, ◌≢◌, refl, ap, [], ◌∷◌, Text, false, not, Option, none, some, arith, ◌=text◌, =text_refl,
  =text_eq, =text_ne, is_empty, ◌↔◌,
}
use distributed_wallet_ledge.Errors.{
  ok, fail_if, >>=-eq-ok, invalid_id, empty_transaction_description,
  transaction_journal_entry_mismatch, fail_if-eq-ok,
}
use distributed_wallet_ledge.Domain.Ids.{TransactionId, is_zero}
use distributed_wallet_ledge.Domain.JournalEntry
use distributed_wallet_ledge.Domain.JournalEntry.{JournalEntry}
use distributed_wallet_ledge.Domain.JournalEntry.Balance
use distributed_wallet_ledge.Domain.JournalEntry.Balance.{IsDoubleEntry}
use distributed_wallet_ledge.Domain.Transaction
use distributed_wallet_ledge.Domain.Transaction.{Transaction, reverse_postings, is_reversal}

pub is_empty_iff : (s : Text) → (is_empty s ≡ false) ↔ (s ≢ [])
is_empty_iff [] = (λ h. cc, λ h. absurd (h refl))
is_empty_iff (r ∷ s) = (λ h e. cc, λ h. refl)

-- What is reversed, if anything is, has an identifier, which is not that of the transaction itself.
abbrev pub ReversesOther : Option TransactionId → TransactionId → Type 0
ReversesOther none id = Unit {0}
ReversesOther (some original) id = (original ≢ []) × (original ≢ id)

validate_reverses_iff :
    (o : Option TransactionId) (id : TransactionId)
    → (Transaction.validate_reverses o id ≡ ok tt) ↔ ReversesOther o id
validate_reverses_iff none id = (λ h. tt, λ h. refl)
validate_reverses_iff (some original) id = (
  λ h.
      let (_, given, h₁) = >>=-eq-ok (fail_if (is_zero original) invalid_id) _ h in
      (
        (is_empty_iff original).0 (fail_if-eq-ok (is_zero original) invalid_id given),
        λ same. absurd (ground (arith, h₁, =text_refl id, ap (λ u. u =text id) same)),
      ),
  λ v. rw ((is_empty_iff original).1 v.0, =text_ne original id v.1) refl,
)

-- What a valid transaction is.
pub record IsValid (t : Transaction) : Type 0 where
  pub identified : t.id ≢ []
  pub described : t.description ≢ []
  pub entry : IsDoubleEntry t.journal_entry
  pub owned : t.journal_entry.transaction_id ≡ t.id
  pub reverses : ReversesOther t.reverses_transaction_id t.id

-- `Transaction.Validate` accepts exactly the transactions that have an identifier, a description and
-- a balanced journal entry of their own, and reverse, if anything, another transaction.
pub validate_transaction_iff : (t : Transaction) → (Transaction.validate t ≡ ok tt) ↔ IsValid t
unfolding Transaction.validate
validate_transaction_iff t = (
  λ h.
      let (_, id, h₁) = >>=-eq-ok (fail_if (is_zero t.id) invalid_id) _ h in
      let (_, text, h₂) =
        >>=-eq-ok (fail_if (is_empty t.description) empty_transaction_description) _ h₁ in
      let (_, entry, h₃) = >>=-eq-ok (JournalEntry.validate t.journal_entry) _ h₂ in
      let (_, own, h₄) =
        >>=-eq-ok
          (fail_if (not (t.journal_entry.transaction_id =text t.id))
            transaction_journal_entry_mismatch)
          _ h₃ in
      record {
        identified = (is_empty_iff t.id).0 (fail_if-eq-ok (is_zero t.id) invalid_id id);
        described =
            (is_empty_iff t.description).0
              (fail_if-eq-ok (is_empty t.description) empty_transaction_description text);
        entry = (Balance.validate_entry_iff t.journal_entry).0 entry;
        owned = ground (arith, =text_eq t.journal_entry.transaction_id t.id);
        reverses = (validate_reverses_iff t.reverses_transaction_id t.id).0 h₄;
      },
  λ v.
      rw
        (
          (is_empty_iff t.id).1 v.identified,
          (is_empty_iff t.description).1 v.described,
          (Balance.validate_entry_iff t.journal_entry).1 v.entry,
          v.owned,
          =text_refl,
        )
        ((validate_reverses_iff t.reverses_transaction_id t.id).1 v.reverses),
)
