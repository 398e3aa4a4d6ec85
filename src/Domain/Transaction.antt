-- ===== src/Domain/Transaction.antt =====
-- internal/ledger/domain/transaction.go.
pub mod Mirror
pub mod Validity
pub mod Reversal
use distributed_wallet_ledge.Prelude.{
  Bool, true, false, not, ◌||◌, List, [], ◌∷◌, Text, Option, none, some, ◌==◌, ◌=text◌, length,
  is_empty, trim_space,
}
use distributed_wallet_ledge.Errors.{
  Result, ok, err, ◌>>=◌, ◌>>◌, fail_if, invalid_id, empty_transaction_description,
  transaction_journal_entry_mismatch, reversal_same_transaction_id, cannot_reverse_reversal,
  invalid_reversal_posting_id_count,
}
use distributed_wallet_ledge.Domain.Ids.{TransactionId, JournalEntryId, PostingId, is_zero}
use distributed_wallet_ledge.Domain.Posting
use distributed_wallet_ledge.Domain.Posting.{Posting, opposite}
use distributed_wallet_ledge.Domain.JournalEntry
use distributed_wallet_ledge.Domain.JournalEntry.{JournalEntry}

pub record Transaction : Type 0 where
  pub id : TransactionId
  pub description : Text
  pub journal_entry : JournalEntry
  pub reverses_transaction_id : Option TransactionId

-- The last test of `Validate`, on the pointer to the reversed transaction's identifier.
abbrev pub validate_reverses : Option TransactionId → TransactionId → Result (Unit {0})
validate_reverses none id = ok tt
validate_reverses (some original) id = do
  fail_if (is_zero original) invalid_id
  fail_if (original =text id) reversal_same_transaction_id

unfoldable pub validate : Transaction → Result (Unit {0})
validate t = do
  fail_if (is_zero t.id) invalid_id
  fail_if (is_empty t.description) empty_transaction_description
  JournalEntry.validate t.journal_entry
  fail_if (not (t.journal_entry.transaction_id =text t.id)) transaction_journal_entry_mismatch
  validate_reverses t.reverses_transaction_id t.id

unfoldable pub reconstitute_transaction :
    TransactionId → Text → JournalEntry → Option TransactionId → Result Transaction
reconstitute_transaction id description journal_entry reverses = do
  let tx : Transaction = record {
    id = id;
    description = trim_space description;
    journal_entry = journal_entry;
    reverses_transaction_id = reverses;
  }
  validate tx
  ok tx

unfoldable pub new_transaction : TransactionId → Text → JournalEntry → Result Transaction
new_transaction id description journal_entry = do
  let tx : Transaction = record {
    id = id;
    description = trim_space description;
    journal_entry = journal_entry;
    reverses_transaction_id = none;
  }
  validate tx
  ok tx

abbrev pub is_reversal : Transaction → Bool
is_reversal t = elim t.reverses_transaction_id [ none ↦ false | some original ↦ true ]

-- The loop of `Reverse`. The identifiers are as many as the postings there, so the case of a
-- missing one, where `newPostingIDs[index]` would be out of range, is never reached.
unfoldable pub reverse_postings : List PostingId → List Posting → Result (List Posting)
reverse_postings ids [] = ok []
reverse_postings [] (p ∷ ps) = err invalid_reversal_posting_id_count
reverse_postings (id ∷ ids) (p ∷ ps) = do
  fail_if (is_zero id) invalid_id
  reversed ← Posting.new_posting id p.account_id (opposite p.direction) p.amount
  rest ← reverse_postings ids ps
  ok (reversed ∷ rest)

unfoldable pub reverse :
    Transaction → TransactionId → JournalEntryId → List PostingId → Text → Result Transaction
reverse t new_transaction_id new_journal_entry_id new_posting_ids description = do
  validate t
  fail_if (is_reversal t) cannot_reverse_reversal
  fail_if (is_zero new_transaction_id || is_zero new_journal_entry_id) invalid_id
  fail_if (new_transaction_id =text t.id) reversal_same_transaction_id
  let original_postings = t.journal_entry.postings
  fail_if (not (length new_posting_ids == length original_postings))
      invalid_reversal_posting_id_count
  reversed_postings ← reverse_postings new_posting_ids original_postings
  new_entry ←
      JournalEntry.new_journal_entry new_journal_entry_id new_transaction_id
        t.journal_entry.currency reversed_postings
  let reversed_transaction : Transaction = record {
    id = new_transaction_id;
    description = trim_space description;
    journal_entry = new_entry;
    reverses_transaction_id = some t.id;
  }
  validate reversed_transaction
  ok reversed_transaction
