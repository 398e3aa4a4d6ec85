-- ===== src/Application/Saga/Log.antt =====
-- The calls that a run of the saga makes, as a log, and what is counted in it.
use distributed_wallet_ledge.Prelude.{
  ℕ, suc, ◌≤◌, ◌≡◌, Bool, true, false, not, ◌&&◌, ◌=text◌, ltb, List, [], ◌∷◌, if◌then◌else◌,
}
use distributed_wallet_ledge.Errors.{Result, ok, err}
use distributed_wallet_ledge.Domain.Ids.{HoldId}
use distributed_wallet_ledge.Domain.Hold.{Hold, is_captured}
use distributed_wallet_ledge.Domain.Transaction.{Transaction}
use distributed_wallet_ledge.Application.Saga.{AntiFraudResponse, ExternalPaymentResponse, Ports}

-- A call that was answered; a capture and a release with the hold that they were asked for.
pub data Event : Type 0 where
  authorized : Result Hold → Event
  evaluated : Result AntiFraudResponse → Event
  charged : Result ExternalPaymentResponse → Event
  captured : HoldId → Result (Hold × Transaction) → Event
  released : HoldId → Result Hold → Event

abbrev pub Log : Type 0
Log = List Event

abbrev pub log_call {ℓ} :
    {S : Type ℓ} {A : Type 0} → (Result A → Event) → S × Result A → Log → (S × Log) × Result A
log_call event (s, r) log = ((s, event r ∷ log), r)

-- The ports with a log of their calls beside the state, newest first.
abbrev pub logged {ℓ} : {S : Type ℓ} → Ports S → Ports (S × Log)
logged ports = record {
  authorize = λ c (s, log). log_call authorized (ports.authorize c s) log;
  evaluate = λ c (s, log). log_call evaluated (ports.evaluate c s) log;
  process_payment = λ c (s, log). log_call charged (ports.process_payment c s) log;
  capture = λ c (s, log). log_call (captured c.hold_id) (ports.capture c s) log;
  release = λ c (s, log). log_call (released c) (ports.release c s) log;
}

abbrev pub is_ok {ℓ} : {A : Type ℓ} → Result A → Bool
is_ok (ok a) = true
is_ok (err e) = false

-- A hold is there to be captured, and it is the hold named.
abbrev pub takes : Event → Bool
takes (authorized (ok h)) = not (is_captured h.status)
takes _ = false

abbrev pub holds : HoldId → Event → Bool
holds id (authorized (ok h)) = not (is_captured h.status) && h.id =text id
holds id _ = false

-- A hold had been captured before, or is captured now.
abbrev pub was_captured : Event → Bool
was_captured (authorized (ok h)) = is_captured h.status
was_captured (captured id (ok r)) = true
was_captured _ = false

-- The check has approved; the gateway is called; it has paid.
abbrev pub approves : Event → Bool
approves (evaluated (ok r)) = r.approved
approves _ = false

abbrev pub charges : Event → Bool
charges (charged r) = true
charges _ = false

abbrev pub pays : Event → Bool
pays (charged (ok r)) = r.success
pays _ = false

-- A capture and a release of the hold named.
abbrev pub captures : HoldId → Event → Bool
captures id (captured v r) = v =text id
captures id _ = false

abbrev pub releases : HoldId → Event → Bool
releases id (released v r) = v =text id
releases id _ = false

abbrev pub count : (Event → Bool) → Log → ℕ
count test [] = 0
count test (e ∷ log) = let rest = count test log in if test e then suc rest else rest

-- What the log of a finished run and its answer have to do with one another.
pub record IsRun (log : Log) (success : Bool) : Type 0 where
  pub completes : count was_captured log ≡ (if success then 1 else 0)
  pub compensates :
      (id : HoldId) → count (releases id) log ≡ (if success then 0 else count (holds id) log)
  pub charging : count charges log ≡ count approves log
  pub capturing :
      (id : HoldId)
      → count (captures id) log ≡ (if ltb 0 (count pays log) then count (holds id) log else 0)
  pub at_most_once : count takes log ≤ 1
  pub pays_once : count pays log ≤ 1
