-- ===== src/Adapters/Http/Errors.antt =====
-- internal/ledger/adapters/http/errors.go. The code of an error that the table does not name is
-- "internal_error".
use distributed_wallet_ledge.Prelude.{ℕ, Bool, ltb, Text, codes}
use distributed_wallet_ledge.Errors.{
  Error, wrapped, transaction_not_found, wallet_not_found, hold_not_found, anti_fraud_rejected,
  external_payment_failed, saga_compensation_failed, hold_idempotency_conflict,
  capture_same_account, empty_idempotency_key, empty_request_hash, insufficient_funds,
  insufficient_balance, withdrawal_same_account, deposit_same_account, transfer_same_wallet,
  transfer_same_account, invalid_hold_status, hold_not_authorized, hold_expired, hold_not_expired,
  invalid_hold_timestamp, invalid_hold_expiration, invalid_id, invalid_currency, currency_mismatch,
  amount_must_not_be_negative, amount_must_be_positive, amount_overflow, invalid_posting_direction,
  journal_entry_without_postings, journal_entry_without_debit, journal_entry_without_credit,
  unbalanced_journal_entry, empty_transaction_description, cannot_reverse_reversal,
  reversal_same_transaction_id, invalid_reversal_posting_id_count, empty_account_code,
  empty_account_name, invalid_account, invalid_account_status, invalid_wallet_status,
  empty_wallet_owner_id, wallet_suspended, wallet_closed, wallet_already_suspended,
  wallet_already_closed, invalid_page_size, idempotency_key_conflict, invalid_request_body,
  multiple_json_values,
}

pub record ErrorMapping : Type 0 where
  pub status_code : ℕ
  pub code : Text

abbrev bad_request : Text → ErrorMapping
bad_request code = record { status_code = 400; code = code }

abbrev not_found : Text → ErrorMapping
not_found code = record { status_code = 404; code = code }

abbrev conflict : Text → ErrorMapping
conflict code = record { status_code = 409; code = code }

abbrev unprocessable : Text → ErrorMapping
unprocessable code = record { status_code = 422; code = code }

abbrev internal : Text → ErrorMapping
internal code = record { status_code = 500; code = code }

-- `errors.Is` looks through the wrappings, of which none is itself a sentinel error.
unfoldable pub map_application_error : Error → ErrorMapping
map_application_error (wrapped e) = map_application_error e
map_application_error transaction_not_found = not_found (codes "transaction_not_found")
map_application_error wallet_not_found = not_found (codes "wallet_not_found")
map_application_error hold_not_found = not_found (codes "hold_not_found")
map_application_error anti_fraud_rejected = unprocessable (codes "anti_fraud_rejected")
map_application_error external_payment_failed = unprocessable (codes "external_payment_failed")
map_application_error saga_compensation_failed = internal (codes "saga_compensation_failed")
map_application_error hold_idempotency_conflict = conflict (codes "hold_idempotency_conflict")
map_application_error capture_same_account = bad_request (codes "capture_same_account")
map_application_error empty_idempotency_key = bad_request (codes "empty_idempotency_key")
map_application_error empty_request_hash = bad_request (codes "empty_request_hash")
map_application_error insufficient_funds = unprocessable (codes "insufficient_funds")
map_application_error insufficient_balance = unprocessable (codes "insufficient_funds")
map_application_error withdrawal_same_account = bad_request (codes "withdrawal_same_account")
map_application_error deposit_same_account = bad_request (codes "deposit_same_account")
map_application_error transfer_same_wallet = bad_request (codes "transfer_same_wallet")
map_application_error transfer_same_account = bad_request (codes "transfer_same_account")
map_application_error invalid_hold_status = bad_request (codes "invalid_hold_status")
map_application_error hold_not_authorized = conflict (codes "hold_not_authorized")
map_application_error hold_expired = conflict (codes "hold_expired")
map_application_error hold_not_expired = conflict (codes "hold_not_expired")
map_application_error invalid_hold_timestamp = bad_request (codes "invalid_hold_timestamp")
map_application_error invalid_hold_expiration = bad_request (codes "invalid_hold_expiration")
map_application_error invalid_id = bad_request (codes "invalid_id")
map_application_error invalid_currency = bad_request (codes "invalid_currency")
map_application_error currency_mismatch = bad_request (codes "currency_mismatch")
map_application_error amount_must_not_be_negative = bad_request (codes "negative_amount")
map_application_error amount_must_be_positive = bad_request (codes "non_positive_amount")
map_application_error amount_overflow = bad_request (codes "amount_overflow")
map_application_error invalid_posting_direction = bad_request (codes "invalid_posting_direction")
map_application_error journal_entry_without_postings =
    bad_request (codes "journal_entry_without_postings")
map_application_error journal_entry_without_debit =
    bad_request (codes "journal_entry_without_debit")
map_application_error journal_entry_without_credit =
    bad_request (codes "journal_entry_without_credit")
map_application_error unbalanced_journal_entry = bad_request (codes "unbalanced_journal_entry")
map_application_error empty_transaction_description =
    bad_request (codes "empty_transaction_description")
map_application_error cannot_reverse_reversal = bad_request (codes "cannot_reverse_reversal")
map_application_error reversal_same_transaction_id =
    bad_request (codes "reversal_same_transaction_id")
map_application_error invalid_reversal_posting_id_count =
    bad_request (codes "invalid_reversal_posting_count")
map_application_error empty_account_code = bad_request (codes "empty_account_code")
map_application_error empty_account_name = bad_request (codes "empty_account_name")
map_application_error invalid_account = bad_request (codes "invalid_account")
map_application_error invalid_account_status = bad_request (codes "invalid_account_status")
map_application_error invalid_wallet_status = bad_request (codes "invalid_wallet_status")
map_application_error empty_wallet_owner_id = bad_request (codes "empty_wallet_owner_id")
map_application_error wallet_suspended = conflict (codes "wallet_suspended")
map_application_error wallet_closed = conflict (codes "wallet_closed")
map_application_error wallet_already_suspended = conflict (codes "wallet_already_suspended")
map_application_error wallet_already_closed = conflict (codes "wallet_already_closed")
map_application_error invalid_page_size = bad_request (codes "invalid_page_size")
map_application_error idempotency_key_conflict = conflict (codes "idempotency_key_conflict")
map_application_error invalid_request_body = bad_request (codes "invalid_request")
map_application_error multiple_json_values = bad_request (codes "multiple_json_values")
map_application_error _ = internal (codes "internal_error")

-- `http.StatusInternalServerError`.
abbrev pub internal_server_error : ℕ
internal_server_error = 500

unfoldable pub is_client_error : Error → Bool
unfolding map_application_error
is_client_error e = ltb (map_application_error e).status_code internal_server_error
