-- ===== src/Adapters/Http/Transactions.antt =====
-- internal/ledger/adapters/http: transaction_handler.go, reversal_handler.go and account_handler.go.
-- `hash` is the SHA-256 of a JSON in hexadecimal; the direction of a posting is any string.
use distributed_wallet_ledge.Prelude.{ℤ, List, [], ◌∷◌, Option, none, some, Text, codes}
use distributed_wallet_ledge.Errors.{Error, Result, ok, err, ◌>>=◌, multiple_json_values}
use distributed_wallet_ledge.Domain.Ids.{
  TransactionId, JournalEntryId, AccountId, PostingId, new_id,
}
use distributed_wallet_ledge.Domain.Posting.{PostingDirection}
use distributed_wallet_ledge.Domain.Account.{Account, AccountStatus}
use distributed_wallet_ledge.Domain.Transaction.{Transaction}
use distributed_wallet_ledge.Application.Holds.{Port}
use distributed_wallet_ledge.Application.PostTransaction.{PostTransactionCommand, PostingCommand}
use distributed_wallet_ledge.Application.ReverseTransaction.{ReverseTransactionCommand}
use distributed_wallet_ledge.Application.GetTransaction.{TransactionDetails}
use distributed_wallet_ledge.Application.Accounts.{CreateAccountCommand}
use distributed_wallet_ledge.Adapters.Http.Errors.{ErrorMapping}
use distributed_wallet_ledge.Adapters.Http.Handling.{
  HttpRequest, Handler, failed, post_only, with_key, decoded, parsed, reply, status_ok,
  status_created, invalid_request,
}
use distributed_wallet_ledge.Adapters.Http.Movements.{TransactionResponse, transaction_response}

pub record PostingRequest : Type 0 where
  pub id : Text
  pub account_id : Text
  pub direction : PostingDirection
  pub amount_minor_units : ℤ

pub record PostTransactionRequest : Type 0 where
  pub id : Text
  pub journal_entry_id : Text
  pub description : Text
  pub currency : Text
  pub postings : List PostingRequest

-- The loop over the postings of a request.
unfoldable pub posting_commands : List PostingRequest → Result (List PostingCommand)
posting_commands [] = ok []
posting_commands (p ∷ ps) = do
  posting_id ← new_id p.id
  account_id ← new_id p.account_id
  rest ← posting_commands ps
  ok (
      (record {
        id = posting_id;
        account_id = account_id;
        direction = p.direction;
        amount_minor_units = p.amount_minor_units;
      })
      ∷ rest)

unfoldable pub build_post_transaction_command :
    Text → Text → PostTransactionRequest → Result PostTransactionCommand
build_post_transaction_command idempotency_key request_hash request = do
  transaction_id ← new_id request.id
  journal_entry_id ← new_id request.journal_entry_id
  postings ← posting_commands request.postings
  ok (record {
    id = transaction_id;
    journal_entry_id = journal_entry_id;
    description = request.description;
    currency_code = request.currency;
    idempotency_key = idempotency_key;
    request_hash = request_hash;
    postings = postings;
  })

-- The two codes of a body that does not decode.
abbrev pub decode_failure : Error → ErrorMapping
decode_failure multiple_json_values = record {
  status_code = 400;
  code = codes "multiple_json_values";
}
decode_failure _ = invalid_request

abbrev pub decoded_strictly {ℓ} :
    {S : Type ℓ} {A B : Type 0} → Result B → (B → Handler S A) → Handler S A
decoded_strictly (ok request) next s = next request s
decoded_strictly (err e) next s = (s, failed (decode_failure e))

unfoldable pub handle_post_transaction {ℓ} :
    {S : Type ℓ}
    → (PostTransactionRequest → Text)
    → (PostTransactionCommand → Port S Transaction)
    → HttpRequest PostTransactionRequest
    → Handler S TransactionResponse
unfolding build_post_transaction_command posting_commands
handle_post_transaction hash execute r = post_only r.is_post (
    with_key r.idempotency_key (
      decoded_strictly r.body (λ request.
        parsed (build_post_transaction_command r.idempotency_key (hash request) request)
          (λ c s. reply status_created transaction_response (execute c s)))))

-- The response of `Get` has the fields of the details.
unfoldable pub handle_get_transaction {ℓ} :
    {S : Type ℓ} → (TransactionId → Port S TransactionDetails) → Text → Handler S TransactionDetails
handle_get_transaction execute transaction_param =
    parsed (new_id transaction_param) (λ id s. reply status_ok (λ details. details) (execute id s))

pub record ReverseTransactionRequest : Type 0 where
  pub id : Text
  pub journal_entry_id : Text
  pub posting_ids : List Text
  pub description : Text

pub record ReversalResponse : Type 0 where
  pub id : TransactionId
  pub journal_entry_id : JournalEntryId
  pub reversed_transaction_id : Text
  pub description : Text
  pub currency : Text
  pub status : Text

abbrev pub reversed_id : Option TransactionId → Text
reversed_id none = []
reversed_id (some original) = original

abbrev pub reversal_response : Transaction → ReversalResponse
reversal_response t = record {
  id = t.id;
  journal_entry_id = t.journal_entry.id;
  reversed_transaction_id = reversed_id t.reverses_transaction_id;
  description = t.description;
  currency = t.journal_entry.currency.code;
  status = codes "posted";
}

-- The loop over the identifiers.
unfoldable pub posting_ids_of : List Text → Result (List PostingId)
posting_ids_of [] = ok []
posting_ids_of (raw ∷ rest) = do
  posting_id ← new_id raw
  posting_ids ← posting_ids_of rest
  ok (posting_id ∷ posting_ids)

unfoldable pub build_reverse_transaction_command :
    TransactionId → Text → Text → ReverseTransactionRequest → Result ReverseTransactionCommand
build_reverse_transaction_command original idempotency_key request_hash request = do
  new_transaction_id ← new_id request.id
  new_journal_entry_id ← new_id request.journal_entry_id
  new_posting_ids ← posting_ids_of request.posting_ids
  ok (record {
    original_transaction_id = original;
    new_transaction_id = new_transaction_id;
    new_journal_entry_id = new_journal_entry_id;
    new_posting_ids = new_posting_ids;
    description = request.description;
    idempotency_key = idempotency_key;
    request_hash = request_hash;
  })

-- The hash is of the original's identifier and the request.
unfoldable pub handle_reverse {ℓ} :
    {S : Type ℓ}
    → (TransactionId → ReverseTransactionRequest → Text)
    → (ReverseTransactionCommand → Port S Transaction)
    → HttpRequest ReverseTransactionRequest
    → Handler S ReversalResponse
unfolding build_reverse_transaction_command posting_ids_of
handle_reverse hash execute r = post_only r.is_post (
    parsed (new_id r.url_param) (λ original. with_key r.idempotency_key (
      decoded r.body (λ request.
        parsed
          (build_reverse_transaction_command original r.idempotency_key (hash original request)
            request)
          (λ c s. reply status_created reversal_response (execute c s))))))

pub record CreateAccountRequest : Type 0 where
  pub id : Text
  pub code : Text
  pub name : Text
  pub currency_code : Text

pub record AccountResponse : Type 0 where
  pub id : AccountId
  pub code : Text
  pub name : Text
  pub currency : Text
  pub status : AccountStatus

abbrev pub account_response : Account → AccountResponse
account_response a = record {
  id = a.id;
  code = a.code;
  name = a.name;
  currency = a.currency.code;
  status = a.status;
}

abbrev pub account_command : CreateAccountRequest → AccountId → CreateAccountCommand
account_command request id = record {
  id = id;
  code = request.code;
  name = request.name;
  currency_code = request.currency_code;
}

unfoldable pub handle_create_account {ℓ} :
    {S : Type ℓ}
    → (CreateAccountCommand → Port S Account)
    → HttpRequest CreateAccountRequest
    → Handler S AccountResponse
handle_create_account execute r = post_only r.is_post (
    decoded r.body (λ request.
      parsed (new_id request.id)
        (λ id s. reply status_created account_response (execute (account_command request id) s))))
