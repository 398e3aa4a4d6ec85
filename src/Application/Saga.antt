-- ===== src/Application/Saga.antt =====
-- internal/ledger/application/saga: payment_saga.go and ports.go. The anti-fraud check and the
-- gateway stand for services outside the repository: they are ports like the use cases. Metrics and
-- spans are left out, and so are the texts of the errors.
pub mod Log
pub mod Runs
use distributed_wallet_ledge.Prelude.{
  ℤ, pos, Bool, true, false, not, ◌||◌, leb, ltb_ℤ, List, [], ◌∷◌, ◌++◌, Text, trim_space, is_empty,
  if◌then◌else◌,
}
use distributed_wallet_ledge.Errors.{
  Error, Result, ok, err, ◌>>=◌, ◌>>◌, fail_if, wrapped, invalid_id, amount_must_be_positive,
  empty_idempotency_key, empty_request_hash, anti_fraud_rejected, external_payment_failed,
  saga_compensation_failed,
}
use distributed_wallet_ledge.Domain.Ids.{
  HoldId, WalletId, AccountId, TransactionId, JournalEntryId, PostingId, is_zero,
}
use distributed_wallet_ledge.Domain.Currency.{Currency}
use distributed_wallet_ledge.Domain.Transaction.{Transaction}
use distributed_wallet_ledge.Domain.Hold.{Hold, Time, is_captured}
use distributed_wallet_ledge.Application.Holds.{Port, CreateHoldCommand, CaptureHoldCommand}

pub record ProcessPaymentCommand : Type 0 where
  pub hold_id : HoldId
  pub wallet_id : WalletId
  pub settlement_account_id : AccountId
  pub transaction_id : TransactionId
  pub journal_entry_id : JournalEntryId
  pub wallet_posting_id : PostingId
  pub settlement_posting_id : PostingId
  pub amount_minor_units : ℤ
  pub currency : Currency
  pub recipient : Text
  pub description : Text
  pub hold_expires_at : Time
  pub idempotency_key : Text
  pub request_hash : Text

-- The status of a result is "COMPLETED" wherever there is one.
pub record ProcessPaymentResult : Type 0 where
  pub hold_id : HoldId
  pub transaction_id : TransactionId
  pub gateway_transaction_id : Text

pub record AntiFraudRequest : Type 0 where
  pub wallet_id : WalletId
  pub amount_minor_units : ℤ
  pub currency : Currency
  pub recipient : Text

pub record AntiFraudResponse : Type 0 where
  pub approved : Bool

pub record ExternalPaymentRequest : Type 0 where
  pub payment_id : Text
  pub amount_minor_units : ℤ
  pub currency : Currency
  pub recipient : Text

pub record ExternalPaymentResponse : Type 0 where
  pub success : Bool
  pub transaction_id : Text

pub record Ports {ℓ} (S : Type ℓ) : Type ℓ where
  pub authorize : CreateHoldCommand → Port S Hold
  pub evaluate : AntiFraudRequest → Port S AntiFraudResponse
  pub process_payment : ExternalPaymentRequest → Port S ExternalPaymentResponse
  pub capture : CaptureHoldCommand → Port S (Hold × Transaction)
  pub release : HoldId → Port S Hold

unfoldable pub check : ProcessPaymentCommand → Result (Unit {0})
check cmd = do
  fail_if (is_zero cmd.hold_id || is_zero cmd.wallet_id || is_zero cmd.settlement_account_id)
      invalid_id
  fail_if
      (is_zero cmd.transaction_id
        || is_zero cmd.journal_entry_id
        || is_zero cmd.wallet_posting_id
        || is_zero cmd.settlement_posting_id)
      invalid_id
  fail_if (not (ltb_ℤ (pos 0) cmd.amount_minor_units)) amount_must_be_positive
  fail_if (is_empty (trim_space cmd.idempotency_key)) empty_idempotency_key
  fail_if (is_empty (trim_space cmd.request_hash)) empty_request_hash

-- ":capture".
abbrev pub capture_suffix : Text
capture_suffix = 58 ∷ 99 ∷ 97 ∷ 112 ∷ 116 ∷ 117 ∷ 114 ∷ 101 ∷ []

abbrev hold_command : ProcessPaymentCommand → CreateHoldCommand
hold_command cmd = record {
  id = cmd.hold_id;
  wallet_id = cmd.wallet_id;
  amount_minor_units = cmd.amount_minor_units;
  expires_at = cmd.hold_expires_at;
  idempotency_key = cmd.idempotency_key;
  request_hash = cmd.request_hash;
}

abbrev fraud_request : ProcessPaymentCommand → AntiFraudRequest
fraud_request cmd = record {
  wallet_id = cmd.wallet_id;
  amount_minor_units = cmd.amount_minor_units;
  currency = cmd.currency;
  recipient = cmd.recipient;
}

abbrev payment_request : ProcessPaymentCommand → ExternalPaymentRequest
payment_request cmd = record {
  payment_id = cmd.idempotency_key;
  amount_minor_units = cmd.amount_minor_units;
  currency = cmd.currency;
  recipient = cmd.recipient;
}

abbrev capture_command : ProcessPaymentCommand → Hold → CaptureHoldCommand
capture_command cmd hold = record {
  hold_id = hold.id;
  settlement_account_id = cmd.settlement_account_id;
  transaction_id = cmd.transaction_id;
  journal_entry_id = cmd.journal_entry_id;
  wallet_posting_id = cmd.wallet_posting_id;
  settlement_posting_id = cmd.settlement_posting_id;
  description = cmd.description;
  idempotency_key = cmd.idempotency_key ++ capture_suffix;
  request_hash = cmd.request_hash ++ capture_suffix;
}

module _ {ℓ} {S : Type ℓ} (ports : Ports S) (cmd : ProcessPaymentCommand) where
  -- `compensateHold`, and the error that is returned after it.
  abbrev compensated : Error → S × Result Hold → S × Result ProcessPaymentResult
  compensated e (s, ok h) = (s, err e)
  compensated e (s, err e') = (s, err (wrapped saga_compensation_failed))

  abbrev compensate : Hold → Error → Port S ProcessPaymentResult
  compensate hold e s = compensated e (ports.release hold.id s)

  abbrev finish :
      Hold
      → ExternalPaymentResponse
      → S × Result (Hold × Transaction)
      → S × Result ProcessPaymentResult
  finish hold paid (s, err e) = compensate hold (wrapped e) s
  finish hold paid (s, ok (held, t)) = (
    s,
    ok (record {
      hold_id = hold.id;
      transaction_id = t.id;
      gateway_transaction_id = paid.transaction_id;
    }),
  )

  abbrev after_gateway : Hold → S × Result ExternalPaymentResponse → S × Result ProcessPaymentResult
  after_gateway hold (s, err e) = compensate hold (wrapped external_payment_failed) s
  after_gateway hold (s, ok response) =
      if response.success
      then finish hold response (ports.capture (capture_command cmd hold) s)
      else compensate hold (wrapped external_payment_failed) s

  abbrev after_fraud : Hold → S × Result AntiFraudResponse → S × Result ProcessPaymentResult
  after_fraud hold (s, err e) = compensate hold (wrapped anti_fraud_rejected) s
  after_fraud hold (s, ok response) =
      if response.approved
      then after_gateway hold (ports.process_payment (payment_request cmd) s)
      else compensate hold (wrapped anti_fraud_rejected) s

  abbrev after_hold : S × Result Hold → S × Result ProcessPaymentResult
  after_hold (s, err e) = (s, err (wrapped e))
  after_hold (s, ok hold) =
      if is_captured hold.status
      then (
        s,
        ok (record {
          hold_id = hold.id;
          transaction_id = cmd.transaction_id;
          gateway_transaction_id = [];
        }),
      )
      else after_fraud hold (ports.evaluate (fraud_request cmd) s)

  abbrev checked : Result (Unit {0}) → Port S ProcessPaymentResult
  checked (err e) s = (s, err e)
  checked (ok u) s = after_hold (ports.authorize (hold_command cmd) s)

  unfoldable pub execute : Port S ProcessPaymentResult
  unfolding check
  execute s = checked (check cmd) s
