-- ===== src/Adapters/Http/Holds.antt =====
-- internal/ledger/adapters/http/wallet_handler.go: CreateHold, ReleaseHold, ExpireHold and
-- CaptureHold. `hash` is the SHA-256 of the request's JSON in hexadecimal.
use distributed_wallet_ledge.Prelude.{ℤ, Bool, Text}
use distributed_wallet_ledge.Errors.{Result, ok, ◌>>=◌}
use distributed_wallet_ledge.Domain.Ids.{HoldId, WalletId, new_id}
use distributed_wallet_ledge.Domain.Transaction.{Transaction}
use distributed_wallet_ledge.Domain.Hold.{Hold, HoldStatus, Time}
use distributed_wallet_ledge.Application.Holds.{Port, CreateHoldCommand, CaptureHoldCommand}
use distributed_wallet_ledge.Adapters.Http.Handling.{
  HttpRequest, Handler, post_only, with_key, decoded, parsed, reply, status_ok, status_created,
}
use distributed_wallet_ledge.Adapters.Http.Movements.{TransactionResponse, transaction_response}

pub record CreateHoldRequest : Type 0 where
  pub id : Text
  pub amount_minor_units : ℤ
  pub expires_at : Time

pub record CaptureHoldRequest : Type 0 where
  pub settlement_account_id : Text
  pub transaction_id : Text
  pub journal_entry_id : Text
  pub wallet_posting_id : Text
  pub settlement_posting_id : Text
  pub description : Text

pub record HoldResponse : Type 0 where
  pub id : HoldId
  pub wallet_id : WalletId
  pub amount_minor_units : ℤ
  pub currency : Text
  pub status : HoldStatus
  pub expires_at : Time

pub record CaptureHoldResponse : Type 0 where
  pub hold : HoldResponse
  pub transaction : TransactionResponse

abbrev pub to_hold_response : Hold → HoldResponse
to_hold_response h = record {
  id = h.id;
  wallet_id = h.wallet_id;
  amount_minor_units = h.amount.amount_minor_units;
  currency = h.amount.currency.code;
  status = h.status;
  expires_at = h.expires_at;
}

abbrev pub capture_response : Hold × Transaction → CaptureHoldResponse
capture_response (h, t) = record { hold = to_hold_response h; transaction = transaction_response t }

unfoldable pub hold_of : WalletId → Text → Text → CreateHoldRequest → Result CreateHoldCommand
hold_of wallet_id idempotency_key request_hash request = do
  hold_id ← new_id request.id
  ok (record {
    id = hold_id;
    wallet_id = wallet_id;
    amount_minor_units = request.amount_minor_units;
    expires_at = request.expires_at;
    idempotency_key = idempotency_key;
    request_hash = request_hash;
  })

unfoldable pub capture_of : HoldId → Text → Text → CaptureHoldRequest → Result CaptureHoldCommand
capture_of hold_id idempotency_key request_hash request = do
  settlement_account_id ← new_id request.settlement_account_id
  transaction_id ← new_id request.transaction_id
  journal_entry_id ← new_id request.journal_entry_id
  wallet_posting_id ← new_id request.wallet_posting_id
  settlement_posting_id ← new_id request.settlement_posting_id
  ok (record {
    hold_id = hold_id;
    settlement_account_id = settlement_account_id;
    transaction_id = transaction_id;
    journal_entry_id = journal_entry_id;
    wallet_posting_id = wallet_posting_id;
    settlement_posting_id = settlement_posting_id;
    description = request.description;
    idempotency_key = idempotency_key;
    request_hash = request_hash;
  })

-- The use cases are arguments.
unfoldable pub handle_create_hold {ℓ} :
    {S : Type ℓ}
    → (CreateHoldRequest → Text)
    → (CreateHoldCommand → Port S Hold)
    → HttpRequest CreateHoldRequest
    → Handler S HoldResponse
unfolding hold_of
handle_create_hold hash execute r = post_only r.is_post (
    parsed (new_id r.url_param) (λ wallet_id. with_key r.idempotency_key (
      decoded r.body (λ request.
        parsed (hold_of wallet_id r.idempotency_key (hash request) request)
          (λ c s. reply status_created to_hold_response (execute c s))))))

unfoldable pub handle_release_hold {ℓ} :
    {S : Type ℓ} → (HoldId → Port S Hold) → Bool → Text → Handler S HoldResponse
handle_release_hold execute is_post hold_param =
    post_only is_post (
      parsed (new_id hold_param)
        (λ hold_id s. reply status_ok to_hold_response (execute hold_id s)))

unfoldable pub handle_expire_hold {ℓ} :
    {S : Type ℓ} → (HoldId → Port S Hold) → Bool → Text → Handler S HoldResponse
handle_expire_hold execute is_post hold_param =
    post_only is_post (
      parsed (new_id hold_param)
        (λ hold_id s. reply status_ok to_hold_response (execute hold_id s)))

unfoldable pub handle_capture_hold {ℓ} :
    {S : Type ℓ}
    → (CaptureHoldRequest → Text)
    → (CaptureHoldCommand → Port S (Hold × Transaction))
    → HttpRequest CaptureHoldRequest
    → Handler S CaptureHoldResponse
unfolding capture_of
handle_capture_hold hash execute r = post_only r.is_post (
    parsed (new_id r.url_param) (λ hold_id. with_key r.idempotency_key (
      decoded r.body (λ request.
        parsed (capture_of hold_id r.idempotency_key (hash request) request)
          (λ c s. reply status_ok capture_response (execute c s))))))
