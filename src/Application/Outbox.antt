-- ===== src/Application/Outbox.antt =====
-- internal/ledger/application/outbox: backoff.go and relay.go. A duration is a number of nanoseconds;
-- logs, metrics and spans are left out, and so is the ticker of `Start`, which calls
-- `ProcessBatch` again and again.
pub mod Batches
use distributed_wallet_ledge.Prelude.{
  ℕ, zero, suc, ◌≡◌, refl, ◌+◌, ℤ, pos, negsuc, Bool, true, false, not, ◌||◌, leb, ltb, ◌==◌, ltb_ℤ,
  List, [], ◌∷◌, Text, is_empty, if◌then◌else◌,
}
use distributed_wallet_ledge.Errors.{Error, Result, ok, err, wrapped}
use distributed_wallet_ledge.Domain.Ids.{EventId}
use distributed_wallet_ledge.Domain.Hold.{Time, before}
use distributed_wallet_ledge.Domain.OutboxEvent.{
  OutboxEvent, EventStatus, pending, processing, published, failed, other,
}
use distributed_wallet_ledge.Application.Holds.{Port}
use distributed_wallet_ledge.Application.Wallets.{wrapping}

-- A setting that is not positive has a default.
abbrev pub setting : ℤ → ℕ → ℕ
setting (pos zero) default = default
setting (pos (suc n)) default = suc n
setting (negsuc n) default = default

pub record ExponentialBackoff : Type 0 where
  pub initial_interval : ℕ
  pub max_interval : ℕ

-- `NewExponentialBackoff`; the multiplier, a float, is a parameter of `next_delay`.
unfoldable pub new_exponential_backoff : ℤ → ℤ → ExponentialBackoff
new_exponential_backoff initial_interval max_interval = record {
  initial_interval = setting initial_interval 500_000_000;
  max_interval = setting max_interval 30_000_000_000;
}

-- The test that caps a delay.
abbrev pub capped : ℕ → ℤ → ℕ
capped max_interval (negsuc n) = max_interval
capped max_interval (pos n) = if ltb max_interval n || n == 0 then max_interval else n

abbrev pub drawn : ℕ → Result ℕ → ℕ
drawn delay (ok n) = n
drawn delay (err e) = delay

-- `NextDelay`. `scaled initial n` is the float product `initial * multiplier^(n - 1)` as an `int64`,
-- and `random` is `rand.Int`.
unfoldable pub next_delay : (ℕ → ℕ → ℤ) → (ℕ → Result ℕ) → ExponentialBackoff → ℕ → ℕ
next_delay scaled random b retry_count =
    let delay = capped b.max_interval (scaled b.initial_interval retry_count) in
    if retry_count == 0 then 0 else if delay == 0 then delay else drawn delay (random delay)

pub record RelayConfig : Type 0 where
  pub poll_interval : ℤ
  pub batch_size : ℤ
  pub max_retries : ℤ
  pub initial_interval : ℤ
  pub max_interval : ℤ

pub record Relay : Type 0 where
  pub poll_interval : ℕ
  pub batch_size : ℕ
  pub max_retries : ℕ
  pub backoff : ExponentialBackoff

unfoldable pub new_relay : RelayConfig → Relay
unfolding new_exponential_backoff
new_relay cfg = record {
  poll_interval = setting cfg.poll_interval 100_000_000;
  batch_size = setting cfg.batch_size 50;
  max_retries = setting cfg.max_retries 5;
  backoff = new_exponential_backoff cfg.initial_interval cfg.max_interval;
}

-- The port `OutboxRepository`, without `Save`, which the relay does not call.
pub record OutboxRepository {ℓ} (S : Type ℓ) : Type ℓ where
  pub fetch_pending : ℕ → ℕ → Port S (List OutboxEvent)
  pub release_claim : EventId → Time → Port S (Unit {0})
  pub mark_published : EventId → Time → Port S (Unit {0})
  pub mark_failed : EventId → Text → Time → Port S (Unit {0})

abbrev pub is_pending : EventStatus → Bool
is_pending pending = true
is_pending _ = false

pub is_pending-eq : (status : EventStatus) → is_pending status ≡ true → status ≡ pending
is_pending-eq pending h = refl
is_pending-eq processing h = cc
is_pending-eq published h = cc
is_pending-eq failed h = cc
is_pending-eq (other s) h = cc

-- `isEligibleForProcessing`, with `delay` for what `NextDelay` answers in this call.
unfoldable pub is_eligible : (ℕ → ℕ) → OutboxEvent → Time → Bool
is_eligible delay event now =
    if is_pending event.status
    then true
    else if event.retry_count == 0
    then true
    else not (before now (event.updated_at + delay event.retry_count))

-- The error of `processEvent` after `MarkFailed`: the publisher's, wrapped if that failed too.
abbrev pub not_published {ℓ} : {S : Type ℓ} → Error → S × Result (Unit {0}) → S × Result (Unit {0})
not_published e (s, ok u) = (s, err e)
not_published e (s, err f) = (s, err (wrapped e))

module _ {ℓ} {S : Type ℓ} (repo : OutboxRepository S) (publish : OutboxEvent → Port S (Unit {0}))
    (error_text : Error → Text) where
  open repo use {fetch_pending, release_claim, mark_published, mark_failed}

  -- `processEvent` after the call of the publisher. `error_text` is `err.Error()`.
  unfoldable pub settle : OutboxEvent → Time → S × Result (Unit {0}) → S × Result (Unit {0})
  settle event now (s, err e) = not_published e (mark_failed event.id (error_text e) now s)
  settle event now (s, ok u) = wrapping (mark_published event.id now s)

  unfoldable pub process_event : OutboxEvent → Time → Port S (Unit {0})
  unfolding settle
  process_event event now s = settle event now (publish event s)

  -- One more event processed, unless there was an error.
  abbrev pub counted : ℕ → S × Result (Unit {0}) → S × ℕ
  counted n (s, ok u) = (s, suc n)
  counted n (s, err e) = (s, n)

  -- The loop of `ProcessBatch`: the state and `processedCount`. `delays n` is what `NextDelay` answers
  -- for the event of number `n` of the batch. An error of `ReleaseClaim` is logged.
  unfoldable pub process_events : (ℕ → ℕ → ℕ) → ℕ → Time → List OutboxEvent → S × ℕ → S × ℕ
  unfolding process_event
  process_events delays i now [] out = out
  process_events delays i now (event ∷ events) (s, n) = elim (is_eligible (delays i) event now) [
    | true ↦ process_events delays (suc i) now events (counted n (process_event event now s))
    | false ↦
        process_events delays (suc i) now events ((release_claim event.id event.updated_at s).0, n)
  ]

  abbrev pub batch_of : (ℕ → ℕ → ℕ) → Time → S × Result (List OutboxEvent) → S × Result ℕ
  batch_of delays now (s, err e) = (s, err (wrapped e))
  batch_of delays now (s, ok events) =
      let (s', n) = process_events delays 0 now events (s, 0) in (s', ok n)

  -- `random n` is what `rand.Int` answers for the event of number `n`: every call draws anew.
  unfoldable pub process_batch : (ℕ → ℕ → ℤ) → (ℕ → ℕ → Result ℕ) → Relay → Time → Port S ℕ
  unfolding process_events next_delay
  process_batch scaled random r now s =
      batch_of (λ i. next_delay scaled (random i) r.backoff) now
        (fetch_pending r.max_retries r.batch_size s)
