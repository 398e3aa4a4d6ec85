-- ===== src/Application/Saga/Runs.antt =====
-- Which calls a run of the saga makes, and what it answers.
use distributed_wallet_ledge.Prelude.{
  ℕ, ◌≡◌, ◌≤◌, refl, Bool, true, false, ◌=text◌, [], ◌∷◌, if◌then◌else◌, arith, Bool-cases, inl,
  inr,
}
use distributed_wallet_ledge.Errors.{
  Error, Result, ok, err, wrapped, anti_fraud_rejected, external_payment_failed,
}
use distributed_wallet_ledge.Domain.Ids.{HoldId}
use distributed_wallet_ledge.Domain.Hold.{Hold, is_captured}
use distributed_wallet_ledge.Domain.Transaction.{Transaction}
use distributed_wallet_ledge.Application.Saga.{
  ProcessPaymentCommand, ProcessPaymentResult, AntiFraudResponse, ExternalPaymentResponse, Ports,
  check, compensated, finish, after_gateway, after_fraud, after_hold, checked, execute,
  capture_command, payment_request, fraud_request, hold_command,
}
use distributed_wallet_ledge.Application.Saga.Log.{
  authorized, evaluated, charged, captured, released, Log, log_call, logged, is_ok, takes, holds,
  was_captured, approves, charges, pays, captures, releases, count, IsRun,
}

-- The log of a run that has a hold and is neither settled nor undone, by how often the check has
-- approved and how often the gateway was called, has paid, and the capture was called.
record Stage (hold : Hold) (approved called paid captured_calls : ℕ) (log : Log) : Type 0 where
  none_captured : count was_captured log ≡ 0
  none_released : (id : HoldId) → count (releases id) log ≡ 0
  one_hold : (id : HoldId) → count (holds id) log ≡ (if hold.id =text id then 1 else 0)
  taken : count takes log ≡ 1
  approving : count approves log ≡ approved
  charging : count charges log ≡ called
  paying : count pays log ≡ paid
  capturing :
      (id : HoldId) → count (captures id) log ≡ (if hold.id =text id then captured_calls else 0)

module _ {ℓ} {S : Type ℓ} (ports : Ports S) (cmd : ProcessPaymentCommand) where
  abbrev IsRunOf : (S × Log) × Result ProcessPaymentResult → Type 0
  IsRunOf ((s, log), r) = IsRun log (is_ok r)

  branches-IsRun :
      (b : Bool) (x y : (S × Log) × Result ProcessPaymentResult)
      → (b ≡ true → IsRunOf x)
      → (b ≡ false → IsRunOf y)
      → IsRunOf (if b then x else y)
  branches-IsRun true x y f g = f refl
  branches-IsRun false x y f g = g refl

  compensated-IsRun :
      (hold : Hold) (e : Error) (a b : ℕ) (log : Log) (p : S × Result Hold)
      → b ≤ 1
      → Stage hold a a b b log
      → IsRunOf (compensated (logged ports) cmd e (log_call (released hold.id) p log))
  compensated-IsRun hold e a b log (s, ok h) few o = record {
    completes = ground (arith, o.none_captured);
    compensates = λ id. ground (arith, o.none_released id, o.one_hold id);
    charging = ground (arith, o.charging, o.approving);
    capturing = λ id. ground (arith, o.capturing id, o.paying, o.one_hold id, few);
    at_most_once = ground (arith, o.taken);
    pays_once = ground (arith, o.paying, few);
  }
  compensated-IsRun hold e a b log (s, err x) few o = record {
    completes = ground (arith, o.none_captured);
    compensates = λ id. ground (arith, o.none_released id, o.one_hold id);
    charging = ground (arith, o.charging, o.approving);
    capturing = λ id. ground (arith, o.capturing id, o.paying, o.one_hold id, few);
    at_most_once = ground (arith, o.taken);
    pays_once = ground (arith, o.paying, few);
  }

  finish-IsRun :
      (hold : Hold) (paid : ExternalPaymentResponse) (log : Log)
      (p : S × Result (Hold × Transaction))
      → Stage hold 1 1 1 0 log
      → IsRunOf (
          finish
            (logged ports)
            cmd
            hold
            paid
            (log_call (captured (capture_command cmd hold).hold_id) p log))
  finish-IsRun hold paid log (s, ok r) o = record {
    completes = ground (arith, o.none_captured);
    compensates = o.none_released;
    charging = ground (arith, o.charging, o.approving);
    capturing = λ id. ground (arith, o.capturing id, o.paying, o.one_hold id);
    at_most_once = ground (arith, o.taken);
    pays_once = ground (arith, o.paying);
  }
  finish-IsRun hold paid log (s, err e) o =
      compensated-IsRun hold (wrapped e) 1 1 (captured hold.id (err e) ∷ log)
        (ports.release hold.id s) (omega arith)
        (record {
          none_captured = o.none_captured;
          none_released = o.none_released;
          one_hold = o.one_hold;
          taken = o.taken;
          approving = o.approving;
          charging = o.charging;
          paying = o.paying;
          capturing = λ id. ground (arith, o.capturing id);
        })

  after_gateway-IsRun :
      (hold : Hold) (log : Log) (p : S × Result ExternalPaymentResponse)
      → Stage hold 1 0 0 0 log
      → IsRunOf (after_gateway (logged ports) cmd hold (log_call charged p log))
  after_gateway-IsRun hold log (s, err e) o =
      compensated-IsRun hold (wrapped external_payment_failed) 1 0 (charged (err e) ∷ log)
        (ports.release hold.id s) (omega arith)
        (record {
          none_captured = o.none_captured;
          none_released = o.none_released;
          one_hold = o.one_hold;
          taken = o.taken;
          approving = o.approving;
          charging = ground (arith, o.charging);
          paying = o.paying;
          capturing = o.capturing;
        })
  after_gateway-IsRun hold log (s, ok r) o =
      let log' = charged (ok r) ∷ log in
      let stage : (n : ℕ) → (if r.success then 1 else 0) ≡ n → Stage hold 1 1 n 0 log' = λ n e.
        record {
          none_captured = o.none_captured;
          none_released = o.none_released;
          one_hold = o.one_hold;
          taken = o.taken;
          approving = o.approving;
          charging = ground (arith, o.charging);
          paying = ground (arith, o.paying);
          capturing = o.capturing;
        } in
      branches-IsRun r.success _ _
        (λ paid.
          finish-IsRun hold r log' (ports.capture (capture_command cmd hold) s)
            (stage 1 (rw paid refl)))
        (λ failed.
          compensated-IsRun hold (wrapped external_payment_failed) 1 0 log'
            (ports.release hold.id s) (omega arith) (stage 0 (rw failed refl)))

  after_fraud-IsRun :
      (hold : Hold) (log : Log) (p : S × Result AntiFraudResponse)
      → Stage hold 0 0 0 0 log
      → IsRunOf (after_fraud (logged ports) cmd hold (log_call evaluated p log))
  after_fraud-IsRun hold log (s, err e) o =
      compensated-IsRun hold (wrapped anti_fraud_rejected) 0 0 (evaluated (err e) ∷ log)
        (ports.release hold.id s) (omega arith)
        (record {
          none_captured = o.none_captured;
          none_released = o.none_released;
          one_hold = o.one_hold;
          taken = o.taken;
          approving = o.approving;
          charging = o.charging;
          paying = o.paying;
          capturing = o.capturing;
        })
  after_fraud-IsRun hold log (s, ok r) o =
      let log' = evaluated (ok r) ∷ log in
      let stage : (n : ℕ) → (if r.approved then 1 else 0) ≡ n → Stage hold n 0 0 0 log' = λ n e.
        record {
          none_captured = o.none_captured;
          none_released = o.none_released;
          one_hold = o.one_hold;
          taken = o.taken;
          approving = ground (arith, o.approving);
          charging = o.charging;
          paying = o.paying;
          capturing = o.capturing;
        } in
      branches-IsRun r.approved _ _
        (λ passed.
          after_gateway-IsRun hold log' (ports.process_payment (payment_request cmd) s)
            (stage 1 (rw passed refl)))
        (λ failed.
          compensated-IsRun hold (wrapped anti_fraud_rejected) 0 0 log' (ports.release hold.id s)
            (omega arith) (stage 0 (rw failed refl)))

  after_hold-IsRun :
      (p : S × Result Hold) → IsRunOf (after_hold (logged ports) cmd (log_call authorized p []))
  after_hold-IsRun (s, err e) = record {
    completes = refl;
    compensates = λ id. refl;
    charging = refl;
    capturing = λ id. refl;
    at_most_once = omega arith;
    pays_once = omega arith;
  }
  after_hold-IsRun (s, ok hold) = elim (Bool-cases (is_captured hold.status)) [
    | inl before ↦ rw before (record {
      completes = rw before refl;
      compensates = λ id. refl;
      charging = refl;
      capturing = λ id. refl;
      at_most_once = rw before (omega arith);
      pays_once = omega arith;
    })
    | inr fresh ↦ rw fresh (
        after_fraud-IsRun hold (authorized (ok hold) ∷ []) (ports.evaluate (fraud_request cmd) s)
          (record {
            none_captured = rw fresh refl;
            none_released = λ id. refl;
            one_hold = λ id. ground (arith, fresh);
            taken = rw fresh refl;
            approving = refl;
            charging = refl;
            paying = refl;
            capturing = λ id. ground arith;
          }))
  ]

  checked-IsRun : (s : S) (r : Result (Unit {0})) → IsRunOf (checked (logged ports) cmd r (s, []))
  checked-IsRun s (err e) = record {
    completes = refl;
    compensates = λ id. refl;
    charging = refl;
    capturing = λ id. refl;
    at_most_once = omega arith;
    pays_once = omega arith;
  }
  checked-IsRun s (ok u) = after_hold-IsRun (ports.authorize (hold_command cmd) s)

  -- Whatever its ports answer, a run of the payment saga succeeds exactly if its hold had been
  -- captured before or is captured now. When it fails it releases the hold that it had authorized,
  -- by its identifier, once, unless that was captured before, and no other hold; when it succeeds it
  -- releases nothing. It captures the hold that it had authorized, once, exactly if the gateway has
  -- paid, and no other. It calls the gateway as often as the anti-fraud check has approved, is paid
  -- once at most, and takes at most one hold.
  pub execute-IsRun :
      (s : S) → let out = execute (logged ports) cmd (s, []) in IsRun out.0.1 (is_ok out.1)
  unfolding execute
  execute-IsRun s = checked-IsRun s (check cmd)
