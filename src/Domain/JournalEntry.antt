-- ===== src/Domain/JournalEntry.antt =====
-- internal/ledger/domain/journal_entry.go. The defensive copies of the posting slice are no steps
-- here, since lists are values.
pub mod Totals
pub mod Balance
use distributed_wallet_ledge.Prelude.{
  Bool, true, false, not, List, [], ◌∷◌, pos, is_empty, if◌then◌else◌,
}
use distributed_wallet_ledge.Errors.{
  Result, ok, err, ◌>>=◌, ◌>>◌, fail_if, invalid_id, journal_entry_without_postings,
  journal_entry_without_debit, journal_entry_without_credit, currency_mismatch,
  unbalanced_journal_entry,
}
use distributed_wallet_ledge.Domain.Ids.{JournalEntryId, TransactionId, is_zero}
use distributed_wallet_ledge.Domain.Currency
use distributed_wallet_ledge.Domain.Currency.{Currency}
use distributed_wallet_ledge.Domain.Money
use distributed_wallet_ledge.Domain.Money.{Money}
use distributed_wallet_ledge.Domain.Posting
use distributed_wallet_ledge.Domain.Posting.{Posting, PostingDirection, is_debit, is_credit}

pub record JournalEntry : Type 0 where
  pub id : JournalEntryId
  pub transaction_id : TransactionId
  pub currency : Currency
  pub postings : List Posting

-- `hasDebit` and `hasCredit`.
abbrev pub Flags : Type 0
Flags = Bool × Bool

-- The `switch` on the direction.
abbrev pub mark : PostingDirection → Flags → Flags
mark PostingDirection.debit (d, c) = (true, c)
mark PostingDirection.credit (d, c) = (d, true)
mark (PostingDirection.other s) (d, c) = (d, c)

-- The loop of `Validate`.
unfoldable pub scan_postings : Currency → List Posting → Flags → Result Flags
scan_postings currency [] flags = ok flags
scan_postings currency (p ∷ ps) flags = do
  Posting.validate p
  fail_if (not (Currency.equal p.amount.currency currency)) currency_mismatch
  scan_postings currency ps (mark p.direction flags)

-- The loop of `TotalDebits` and `TotalCredits`, which differ in the direction that they count.
unfoldable pub accumulate : (PostingDirection → Bool) → List Posting → Money → Result Money
accumulate counts [] total = ok total
accumulate counts (p ∷ ps) total = do
  total' ← (if counts p.direction then Money.add total p.amount else ok total)
  accumulate counts ps total'

unfoldable pub total_debits : JournalEntry → Result Money
total_debits j = do total ← Money.new_money j.currency (pos 0); accumulate is_debit j.postings total

unfoldable pub total_credits : JournalEntry → Result Money
total_credits j = do
  total ← Money.new_money j.currency (pos 0)
  accumulate is_credit j.postings total

unfoldable pub is_balanced : JournalEntry → Result Bool
is_balanced j = do
  debits ← total_debits j
  credits ← total_credits j
  ok (Money.equal debits credits)

unfoldable pub validate : JournalEntry → Result (Unit {0})
validate j = do
  fail_if (is_zero j.id) invalid_id
  fail_if (is_zero j.transaction_id) invalid_id
  Currency.validate j.currency
  fail_if (is_empty j.postings) journal_entry_without_postings
  (has_debit, has_credit) ← scan_postings j.currency j.postings (false, false)
  fail_if (not has_debit) journal_entry_without_debit
  fail_if (not has_credit) journal_entry_without_credit
  balanced ← is_balanced j
  fail_if (not balanced) unbalanced_journal_entry

unfoldable pub new_journal_entry :
    JournalEntryId → TransactionId → Currency → List Posting → Result JournalEntry
new_journal_entry id transaction_id currency postings = do
  let entry : JournalEntry = record {
    id = id;
    transaction_id = transaction_id;
    currency = currency;
    postings = postings;
  }
  validate entry
  ok entry
