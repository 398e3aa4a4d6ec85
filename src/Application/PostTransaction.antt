-- ===== src/Application/PostTransaction.antt =====
-- internal/ledger/application/transaction/post.go.
use distributed_wallet_ledge.Prelude.{ℤ, List, [], ◌∷◌, Text, trim_space, is_empty}
use distributed_wallet_ledge.Errors.{
  Result, ok, err, ◌>>=◌, ◌>>◌, fail_if, empty_idempotency_key, empty_request_hash,
}
use distributed_wallet_ledge.Domain.Ids.{TransactionId, JournalEntryId, PostingId, AccountId}
use distributed_wallet_ledge.Domain.Currency.{Currency, new_currency}
use distributed_wallet_ledge.Domain.Money.{new_money}
use distributed_wallet_ledge.Domain.Posting.{Posting, PostingDirection, new_posting}
use distributed_wallet_ledge.Domain.JournalEntry.{new_journal_entry}
use distributed_wallet_ledge.Domain.Transaction.{Transaction, new_transaction}

pub record PostingCommand : Type 0 where
  pub id : PostingId
  pub account_id : AccountId
  pub direction : PostingDirection
  pub amount_minor_units : ℤ

pub record PostTransactionCommand : Type 0 where
  pub id : TransactionId
  pub journal_entry_id : JournalEntryId
  pub description : Text
  pub currency_code : Text
  pub idempotency_key : Text
  pub request_hash : Text
  pub postings : List PostingCommand

-- The port `LedgerRepository`.
abbrev pub LedgerRepository {ℓ} : Type ℓ → Type ℓ
LedgerRepository S = Transaction → Text → Text → S → S × Result (Unit {0})

-- The loop over the commands of the postings.
unfoldable pub make_postings : Currency → List PostingCommand → Result (List Posting)
make_postings currency [] = ok []
make_postings currency (c ∷ commands) = do
  amount ← new_money currency c.amount_minor_units
  posting ← new_posting c.id c.account_id c.direction amount
  postings ← make_postings currency commands
  ok (posting ∷ postings)

-- `Execute` up to the call of the ledger: the transaction, the key and the hash that it posts.
unfoldable pub prepare : PostTransactionCommand → Result (Transaction × Text × Text)
prepare command = do
  let idempotency_key = trim_space command.idempotency_key
  fail_if (is_empty idempotency_key) empty_idempotency_key
  let request_hash = trim_space command.request_hash
  fail_if (is_empty request_hash) empty_request_hash
  currency ← new_currency command.currency_code
  postings ← make_postings currency command.postings
  journal_entry ← new_journal_entry command.journal_entry_id command.id currency postings
  transaction ← new_transaction command.id command.description journal_entry
  ok (transaction, idempotency_key, request_hash)

-- The transaction is returned when the ledger has taken it.
abbrev pub returned {ℓ} :
    {S : Type ℓ} → Transaction → S × Result (Unit {0}) → S × Result Transaction
returned t (s, ok u) = (s, ok t)
returned t (s, err e) = (s, err e)

abbrev pub posted_by {ℓ} :
    {S : Type ℓ}
    → LedgerRepository S
    → Result (Transaction × Text × Text)
    → S
    → S × Result Transaction
posted_by ledger (ok (t, key, hash)) s = returned t (ledger t key hash s)
posted_by ledger (err e) s = (s, err e)

unfoldable pub execute {ℓ} :
    {S : Type ℓ} → LedgerRepository S → PostTransactionCommand → S → S × Result Transaction
unfolding prepare
execute ledger command s = posted_by ledger (prepare command) s
