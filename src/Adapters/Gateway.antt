-- ===== src/Adapters/Gateway.antt =====
-- internal/ledger/adapters/gateway: the gateway behind a circuit breaker, and the two mocks that the
-- program runs with, which are their own state. Metrics, texts and scores are left out. `ended n` is
-- the context's error if it ends before a delay of `n` nanoseconds has passed.
use distributed_wallet_ledge.Prelude.{
  ℕ, zero, suc, ℤ, pos, Bool, true, false, ◌&&◌, ltb_ℤ, ◌==◌, [], ◌∷◌, ◌++◌, Option, none, some,
  Text, codes, if◌then◌else◌,
}
use distributed_wallet_ledge.Errors.{Error, Result, ok, err}
use distributed_wallet_ledge.Domain.Hold.{Time}
use distributed_wallet_ledge.Resilience
use distributed_wallet_ledge.Resilience.{
  CircuitBreaker, before_execution, after_execution, executed, error_of,
}
use distributed_wallet_ledge.Application.Holds.{Port}
use distributed_wallet_ledge.Application.Saga.{
  AntiFraudRequest, AntiFraudResponse, ExternalPaymentRequest, ExternalPaymentResponse,
}

-- The zero value of a response.
abbrev pub no_response : ExternalPaymentResponse
no_response = record { success = false; transaction_id = [] }

-- The closure that `Execute` runs, which assigns `resp`.
abbrev pub assigning :
    {S : Type 0}
    → S × Result ExternalPaymentResponse
    → (S × ExternalPaymentResponse) × Result (Unit {0})
assigning (s, ok resp) = ((s, resp), ok tt)
assigning (s, err e) = ((s, no_response), err e)

abbrev pub answered :
    {S : Type 0}
    → (CircuitBreaker × (S × ExternalPaymentResponse)) × Result (Unit {0})
    → (CircuitBreaker × S) × Result ExternalPaymentResponse
answered ((cb, (s, resp)), ok u) = ((cb, s), ok resp)
answered ((cb, (s, resp)), err e) = ((cb, s), err e)

-- `CircuitBreakerPaymentGateway.ProcessPayment`.
unfoldable pub process_payment :
    {S : Type 0}
    → Time
    → Time
    → Option Error
    → (ExternalPaymentRequest → Port S ExternalPaymentResponse)
    → ExternalPaymentRequest
    → Port (CircuitBreaker × S) ExternalPaymentResponse
process_payment begun ended cancelled next req (cb, s) =
    answered
      (Resilience.execute begun ended cancelled (λ x. assigning (next req x.0)) cb (s, no_response))

-- `strings.HasPrefix`.
unfoldable pub has_prefix : Text → Text → Bool
has_prefix s [] = true
has_prefix [] (d ∷ t) = false
has_prefix (c ∷ s) (d ∷ t) = c == d && has_prefix s t

pub record MockPaymentGateway : Type 0 where
  pub forced_error : Option Error
  pub forced_result : Option ExternalPaymentResponse
  pub delay : ℕ
  pub calls_count : ℕ

abbrev pub network_timeout : Error
network_timeout = Error.external 1

-- A declined or blocked payment.
abbrev pub refused : ExternalPaymentResponse
refused = no_response

abbrev pub mock_answer : ExternalPaymentRequest → Result ExternalPaymentResponse
mock_answer req =
    if has_prefix req.recipient (codes "declined_")
    then ok refused
    else if has_prefix req.recipient (codes "fraud_")
    then ok refused
    else if has_prefix req.recipient (codes "timeout_")
    then err network_timeout
    else ok (record { success = true; transaction_id = codes "gw_tx_" ++ req.payment_id })

abbrev pub forced_or {ℓ} : {A : Type ℓ} → Option A → Result A → Result A
forced_or none r = r
forced_or (some a) r = ok a

abbrev pub failing_or {ℓ} : {A : Type ℓ} → Option Error → Result A → Result A
failing_or none r = r
failing_or (some e) r = err e

-- The wait for a delay.
abbrev pub waited : (ℕ → Option Error) → ℕ → Option Error
waited ended zero = none
waited ended (suc n) = ended (suc n)

unfoldable pub mock_process_payment :
    (ℕ → Option Error) → ExternalPaymentRequest → Port MockPaymentGateway ExternalPaymentResponse
mock_process_payment ended req m = (
  record m { calls_count = suc m.calls_count },
  failing_or (waited ended m.delay)
      (failing_or m.forced_error (forced_or m.forced_result (mock_answer req))),
)

pub record MockAntiFraudService : Type 0 where
  pub forced_error : Option Error
  pub forced_score : Option ℤ
  pub delay : ℕ
  pub calls_count : ℕ

abbrev pub anti_fraud_unavailable : Error
anti_fraud_unavailable = Error.external 2

-- `MaxAllowedAmountMinorUnits` and `HighRiskScoreThreshold`.
abbrev pub max_allowed_amount : ℕ
max_allowed_amount = 5_000_000

abbrev pub high_risk_score : ℕ
high_risk_score = 85

abbrev pub scored : ℤ → AntiFraudResponse
scored score = record { approved = ltb_ℤ score (pos high_risk_score) }

abbrev pub fraud_answer : AntiFraudRequest → Result AntiFraudResponse
fraud_answer req =
    if has_prefix req.recipient (codes "timeout_fraud")
    then err anti_fraud_unavailable
    else if has_prefix req.recipient (codes "fraud_")
    then ok (record { approved = false })
    else if ltb_ℤ (pos max_allowed_amount) req.amount_minor_units
    then ok (record { approved = false })
    else ok (record { approved = true })

abbrev pub scored_or : Option ℤ → Result AntiFraudResponse → Result AntiFraudResponse
scored_or none r = r
scored_or (some score) r = ok (scored score)

unfoldable pub mock_evaluate :
    (ℕ → Option Error) → AntiFraudRequest → Port MockAntiFraudService AntiFraudResponse
mock_evaluate ended req m = (
  record m { calls_count = suc m.calls_count },
  failing_or (waited ended m.delay)
      (failing_or m.forced_error (scored_or m.forced_score (fraud_answer req))),
)
