-- ===== src/Resilience.antt =====
-- internal/platform/resilience/circuit_breaker.go. A duration is a number of nanoseconds. The
-- callback on a change of state observes and is left out, and so is the name. Each function below
-- runs under the mutex of the breaker; between the two halves of an `Execute` others may run.
pub mod Traffic
pub mod Rejections
use distributed_wallet_ledge.Prelude.{
  ℕ, suc, ◌+◌, ℤ, pos, negsuc, zero, Bool, true, false, ◌&&◌, leb, if◌then◌else◌, Option, none,
  some,
}
use distributed_wallet_ledge.Errors.{
  Error, Result, ok, err, ◌>>=◌, ◌>>◌, fail_if, circuit_breaker_open,
}
use distributed_wallet_ledge.Domain.Hold.{Time}

pub data State : Type 0 where
  state_closed state_half_open state_open : State

abbrev pub same_state : State → State → Bool
same_state state_closed state_closed = true
same_state state_half_open state_half_open = true
same_state state_open state_open = true
same_state _ _ = false

pub record Config : Type 0 where
  pub failure_threshold : ℤ
  pub success_threshold : ℤ
  pub timeout : ℤ

pub record CircuitBreaker : Type 0 where
  pub failure_threshold : ℕ
  pub success_threshold : ℕ
  pub timeout : ℕ
  pub state : State
  pub failure_count : ℕ
  pub success_count : ℕ
  pub last_state_change : Time

-- A setting that is not positive has a default.
abbrev pub setting : ℤ → ℕ → ℕ
setting (pos zero) default = default
setting (pos (suc n)) default = suc n
setting (negsuc n) default = default

unfoldable pub new_circuit_breaker : Time → Config → CircuitBreaker
new_circuit_breaker now cfg = record {
  failure_threshold = setting cfg.failure_threshold 5;
  success_threshold = setting cfg.success_threshold 2;
  timeout = setting cfg.timeout 10_000_000_000;
  state = state_closed;
  failure_count = 0;
  success_count = 0;
  last_state_change = now;
}

unfoldable pub transition_to : Time → State → CircuitBreaker → CircuitBreaker
transition_to now new_state cb = if same_state cb.state new_state then cb else record cb {
  state = new_state;
  failure_count = 0;
  success_count = 0;
  last_state_change = now;
}

-- `time.Since(cb.lastStateChange) >= cb.timeout`.
abbrev pub has_waited : Time → CircuitBreaker → Bool
has_waited now cb = leb (cb.last_state_change + cb.timeout) now

unfoldable pub evaluate_state_change : Time → CircuitBreaker → CircuitBreaker
unfolding transition_to
evaluate_state_change now cb =
    if same_state cb.state state_open && has_waited now cb
    then transition_to now state_half_open cb
    else cb

abbrev success_in : State → Time → CircuitBreaker → CircuitBreaker
success_in state_closed now cb = record cb { failure_count = 0 }
success_in state_half_open now cb =
    let counted = record cb { success_count = suc cb.success_count } in
    if leb cb.success_threshold (suc cb.success_count)
    then transition_to now state_closed counted
    else counted
success_in state_open now cb = cb

unfoldable pub on_success : Time → CircuitBreaker → CircuitBreaker
unfolding transition_to
on_success now cb = success_in cb.state now cb

abbrev failure_in : State → Time → CircuitBreaker → CircuitBreaker
failure_in state_closed now cb =
    let counted = record cb { failure_count = suc cb.failure_count } in
    if leb cb.failure_threshold (suc cb.failure_count)
    then transition_to now state_open counted
    else counted
failure_in state_half_open now cb = transition_to now state_open cb
failure_in state_open now cb = cb

unfoldable pub on_failure : Time → CircuitBreaker → CircuitBreaker
unfolding transition_to
on_failure now cb = failure_in cb.state now cb

unfoldable pub before_execution : Time → CircuitBreaker → CircuitBreaker × Result (Unit {0})
unfolding evaluate_state_change
before_execution now cb =
    let cb' = evaluate_state_change now cb in
    (cb', fail_if (same_state cb'.state state_open) circuit_breaker_open)

unfoldable pub after_execution : Time → Option Error → CircuitBreaker → CircuitBreaker
unfolding on_success on_failure
after_execution now none cb = on_success now cb
after_execution now (some e) cb = on_failure now cb

-- `State()`, which may itself move the breaker.
unfoldable pub observe : Time → CircuitBreaker → CircuitBreaker × State
unfolding evaluate_state_change
observe now cb = let cb' = evaluate_state_change now cb in (cb', cb'.state)

abbrev pub error_of {ℓ} : {A : Type ℓ} → Result A → Option Error
error_of (ok a) = none
error_of (err e) = some e

-- `Execute`, begun at one instant and ended at another, with no other call between; `cancelled` is
-- `ctx.Err()`, and `fn` acts on a state of its own.
abbrev pub executed :
    {S : Type 0}
    → Time
    → (S → S × Result (Unit {0}))
    → CircuitBreaker × Result (Unit {0})
    → S
    → (CircuitBreaker × S) × Result (Unit {0})
executed ended fn (cb, err e) s = ((cb, s), err e)
executed ended fn (cb, ok u) s =
    let (s', answer) = fn s in ((after_execution ended (error_of answer) cb, s'), answer)

unfoldable pub execute :
    {S : Type 0}
    → Time
    → Time
    → Option Error
    → (S → S × Result (Unit {0}))
    → CircuitBreaker
    → S
    → (CircuitBreaker × S) × Result (Unit {0})
unfolding before_execution after_execution
execute begun ended (some e) fn cb s = ((cb, s), err e)
execute begun ended none fn cb s = executed ended fn (before_execution begun cb) s
