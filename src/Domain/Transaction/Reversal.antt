-- ===== src/Domain/Transaction/Reversal.antt =====
-- `Transaction.Reverse` compensates: it succeeds on every valid transaction that is no reversal,
-- and its result undoes the original on every account.
use distributed_wallet_ledge.Prelude.{
  ◌≡◌, ◌≢◌, refl, ap, sym, ◌∙◌, true, false, not, ◌||◌, List, some, All, arith, ◌=text◌, =text_ne,
  subst, length, ◌==◌, ==_iff, Text, is_empty, trim_space,
}
use distributed_wallet_ledge.Errors.{
  ok, fail_if, >>=-eq-ok, checked-eq-ok, invalid_id, cannot_reverse_reversal,
  reversal_same_transaction_id, invalid_reversal_posting_id_count,
}
use distributed_wallet_ledge.Domain.Ids.{
  AccountId, TransactionId, JournalEntryId, PostingId, is_zero,
}
use distributed_wallet_ledge.Domain.Currency.{Currency}
use distributed_wallet_ledge.Domain.Posting.{Posting, is_debit, is_credit}
use distributed_wallet_ledge.Domain.JournalEntry
use distributed_wallet_ledge.Domain.JournalEntry.{JournalEntry}
use distributed_wallet_ledge.Domain.JournalEntry.Balance
use distributed_wallet_ledge.Domain.JournalEntry.Balance.{IsDoubleEntry}
use distributed_wallet_ledge.Domain.Transaction.Validity
use distributed_wallet_ledge.Domain.Transaction.Validity.{IsValid}
use distributed_wallet_ledge.Domain.Transaction.Mirror.{
  account_sum, account_sum-mirror, sum_of-mirror, mirror, debit_of_credit, credit_of_debit,
  reverse_postings-eq, reverse_postings-mirror,
}
use distributed_wallet_ledge.Domain.Transaction
use distributed_wallet_ledge.Domain.Transaction.{Transaction, reverse_postings, is_reversal}

-- What a reversal of `t` is.
pub record Compensates (t r : Transaction) : Type 0 where
  pub names_original : r.reverses_transaction_id ≡ some t.id
  pub credits_debits :
      (a : AccountId)
      → account_sum is_credit a r.journal_entry.postings
        ≡ account_sum is_debit a t.journal_entry.postings
  pub debits_credits :
      (a : AccountId)
      → account_sum is_debit a r.journal_entry.postings
        ≡ account_sum is_credit a t.journal_entry.postings

length-eq :
    (ids : List PostingId) (ps : List Posting)
    → (length ids == length ps) ≡ true
    → length ids ≡ length ps
length-eq ids ps h = (==_iff (length ids) (length ps)).0 h

new_journal_entry-eq :
    (id : JournalEntryId) (tx : TransactionId) (c : Currency) (ps : List Posting) (e : JournalEntry)
    → JournalEntry.new_journal_entry id tx c ps ≡ ok e
    → record { id = id; transaction_id = tx; currency = c; postings = ps } ≡ e
unfolding JournalEntry.new_journal_entry
new_journal_entry-eq id tx c ps e h = (checked-eq-ok _ _ e h).1

new_journal_entry-ok :
    (e : JournalEntry)
    → IsDoubleEntry e
    → JournalEntry.new_journal_entry e.id e.transaction_id e.currency e.postings ≡ ok e
unfolding JournalEntry.new_journal_entry
new_journal_entry-ok e d = rw ((Balance.validate_entry_iff e).1 d)

mirror-Compensates :
    (t r : Transaction) (ids : List PostingId)
    → length ids ≡ length t.journal_entry.postings
    → r.journal_entry.postings ≡ mirror ids t.journal_entry.postings
    → r.reverses_transaction_id ≡ some t.id
    → Compensates t r
mirror-Compensates t r ids e same names = record {
  names_original = names;
  credits_debits = λ a.
      rw same
        (account_sum-mirror is_credit is_debit credit_of_debit a ids t.journal_entry.postings e);
  debits_credits = λ a.
      rw same
        (account_sum-mirror is_debit is_credit debit_of_credit a ids t.journal_entry.postings e);
}

-- What the loop of `Reverse` and the constructors around it make of a valid transaction.
abbrev pub reversal :
    Transaction → TransactionId → JournalEntryId → List PostingId → Text → Transaction
reversal t id entry_id posting_ids description = record {
  id = id;
  description = trim_space description;
  journal_entry = record {
    id = entry_id;
    transaction_id = id;
    currency = t.journal_entry.currency;
    postings = mirror posting_ids t.journal_entry.postings;
  };
  reverses_transaction_id = some t.id;
}

module _ (t : Transaction) (id : TransactionId) (entry_id : JournalEntryId)
    (posting_ids : List PostingId) (description : Text) where
  reversal-IsValid :
      IsValid t
      → is_zero id ≡ false
      → is_zero entry_id ≡ false
      → id ≢ t.id
      → length posting_ids ≡ length t.journal_entry.postings
      → All (λ posting_id. is_zero posting_id ≡ false) posting_ids
      → is_empty (trim_space description) ≡ false
      → IsValid (reversal t id entry_id posting_ids description)
  reversal-IsValid v z ze new count zs text =
      let ps = t.journal_entry.postings in
      let debits = sum_of-mirror is_debit is_credit debit_of_credit posting_ids ps count in
      let credits = sum_of-mirror is_credit is_debit credit_of_debit posting_ids ps count in
      record {
        identified = (Validity.is_empty_iff id).0 z;
        described = (Validity.is_empty_iff _).0 text;
        entry = record {
          identified = (ze, z);
          currency_valid = v.entry.currency_valid;
          fitting =
              (reverse_postings-mirror t.journal_entry.currency posting_ids ps count zs
                v.entry.fitting).1;
          moves_money = omega (arith, debits, v.entry.balanced, v.entry.moves_money);
          balanced = omega (arith, debits, credits, v.entry.balanced);
          bounded = omega (arith, debits, v.entry.balanced, v.entry.bounded);
        };
        owned = refl;
        reverses = (v.identified, λ e. new (sym e));
      }

  -- A reversal that succeeds is valid, names the original, and exchanges the debits and the credits of every account.
  pub reverse-Compensates :
      (r : Transaction)
      → Transaction.reverse t id entry_id posting_ids description ≡ ok r
      → IsValid r × Compensates t r
  unfolding Transaction.reverse
  reverse-Compensates r h =
      let (_, _, h₁) = >>=-eq-ok (Transaction.validate t) _ h in
      let (_, _, h₂) = >>=-eq-ok (fail_if (is_reversal t) cannot_reverse_reversal) _ h₁ in
      let (_, _, h₃) = >>=-eq-ok (fail_if (is_zero id || is_zero entry_id) invalid_id) _ h₂ in
      let (_, _, h₄) = >>=-eq-ok (fail_if (id =text t.id) reversal_same_transaction_id) _ h₃ in
      let (_, counted, h₅) =
        >>=-eq-ok
          (fail_if (not (length posting_ids == length t.journal_entry.postings))
            invalid_reversal_posting_id_count)
          _ h₄ in
      let (ps, looped, h₆) =
        >>=-eq-ok (reverse_postings posting_ids t.journal_entry.postings) _ h₅ in
      let (entry, made, h₇) =
        >>=-eq-ok (JournalEntry.new_journal_entry entry_id id t.journal_entry.currency ps) _ h₆ in
      let (valid, same) = checked-eq-ok (Transaction.validate _) _ r h₇ in
      (
        subst IsValid same ((Validity.validate_transaction_iff _).0 valid),
        subst (Compensates t) same (
            mirror-Compensates t _ posting_ids
              (length-eq posting_ids t.journal_entry.postings (ground arith))
              (ap (λ (e : JournalEntry). e.postings)
                  (sym (new_journal_entry-eq entry_id id t.journal_entry.currency ps entry made))
                ∙ reverse_postings-eq posting_ids t.journal_entry.postings ps looped)
              refl),
      )

  -- Every valid transaction that is no reversal can be reversed: under a new transaction identifier,
  -- an entry identifier, as many posting identifiers as it has postings, none of them empty, and a
  -- description that is not blank, the result is the mirror image.
  pub reverse-ok :
      IsValid t
      → is_reversal t ≡ false
      → is_zero id ≡ false
      → is_zero entry_id ≡ false
      → id ≢ t.id
      → length posting_ids ≡ length t.journal_entry.postings
      → All (λ posting_id. is_zero posting_id ≡ false) posting_ids
      → is_empty (trim_space description) ≡ false
      → Transaction.reverse t id entry_id posting_ids description
        ≡ ok (reversal t id entry_id posting_ids description)
  unfolding Transaction.reverse
  reverse-ok v once z ze new count zs text =
      let (looped, fitting) =
        reverse_postings-mirror t.journal_entry.currency posting_ids t.journal_entry.postings count
          zs v.entry.fitting in
      let r = reversal t id entry_id posting_ids description in
      let valid = reversal-IsValid v z ze new count zs text in
      rw
        (
          (Validity.validate_transaction_iff t).1 v,
          once,
          z,
          ze,
          =text_ne id t.id new,
          (==_iff (length posting_ids) (length t.journal_entry.postings)).1 count,
          looped,
        )
        (rw (
          new_journal_entry-ok r.journal_entry valid.entry,
          (Validity.validate_transaction_iff r).1 valid,
        ))
