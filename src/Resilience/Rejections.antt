-- ===== src/Resilience/Rejections.antt =====
-- When the breaker opens, and what it refuses.
use distributed_wallet_ledge.Prelude.{
  suc, ◌+◌, ◌<◌, ◌≡◌, refl, ap, ◌∙◌, ltb, leb, length, if◌then◌else◌, List, [], ◌∷◌, none, some,
  All, arith, Bool-cases, inl, inr,
}
use distributed_wallet_ledge.Errors.{Error, err, circuit_breaker_open}
use distributed_wallet_ledge.Domain.Hold.{Time}
use distributed_wallet_ledge.Resilience.{
  state_closed, state_open, Config, CircuitBreaker, setting, new_circuit_breaker, transition_to,
  evaluate_state_change, on_success, on_failure, before_execution, after_execution, observe,
}
use distributed_wallet_ledge.Resilience.Traffic.{
  Action, begins, ends, looks, act, run, setting-positive,
}

-- The instant of an action.
abbrev pub instant : Action → Time
instant (begins now) = now
instant (ends now outcome) = now
instant (looks now) = now

abbrev pub Early : CircuitBreaker → Action → Type 0
Early cb a = instant a < cb.last_state_change + cb.timeout

act-open : (a : Action) (cb : CircuitBreaker) → cb.state ≡ state_open → Early cb a → act a cb ≡ cb
unfolding before_execution after_execution observe on_success on_failure evaluate_state_change
act-open (begins now) cb e early = rw e (ground arith)
act-open (ends now none) cb e early = rw e refl
act-open (ends now (some x)) cb e early = rw e refl
act-open (looks now) cb e early = rw e (ground arith)

run-open :
    (actions : List Action) (cb : CircuitBreaker)
    → cb.state ≡ state_open
    → All (Early cb) actions
    → run actions cb ≡ cb
run-open [] cb e early = refl
run-open (a ∷ actions) cb e (first, rest) =
    ap (run actions) (act-open a cb e first) ∙ run-open actions cb e rest

-- Until its timeout has passed an open breaker stays as it is, whatever calls end meanwhile, and
-- every call that begins is refused with `ErrCircuitBreakerOpen`.
pub run-refuses :
    (actions : List Action) (cb : CircuitBreaker) (now : Time)
    → cb.state ≡ state_open
    → All (Early cb) actions
    → now < cb.last_state_change + cb.timeout
    → before_execution now (run actions cb) ≡ (cb, err circuit_breaker_open)
unfolding before_execution evaluate_state_change
run-refuses actions cb now e early soon = rw (run-open actions cb e early, e) (ground arith)

-- The reports of calls that failed, each at its instant with its error.
abbrev pub failures : List (Time × Error) → List Action
failures [] = []
failures ((at, e) ∷ es) = ends at (some e) ∷ failures es

failures-open :
    (es : List (Time × Error)) (cb : CircuitBreaker)
    → cb.state ≡ state_open
    → run (failures es) cb ≡ cb
unfolding after_execution on_failure
failures-open [] cb h = refl
failures-open ((at, e) ∷ es) cb h =
    let same : after_execution at (some e) cb ≡ cb = rw h refl in
    ap (run (failures es)) same ∙ failures-open es cb h

failures-state :
    (es : List (Time × Error)) (cb : CircuitBreaker)
    → cb.state ≡ state_closed
    → cb.failure_count < cb.failure_threshold
    → (run (failures es) cb).state ≡ (
        if ltb (cb.failure_count + length es) cb.failure_threshold
        then state_closed
        else state_open)
unfolding after_execution on_failure transition_to
failures-state [] cb h fewer = ground arith
failures-state ((at, e) ∷ es) cb h fewer =
    elim (Bool-cases (leb cb.failure_threshold (suc cb.failure_count))) [
      | inl enough ↦
          let opened = record cb {
            state = state_open;
            failure_count = 0;
            success_count = 0;
            last_state_change = at;
          } in
          let step : after_execution at (some e) cb ≡ opened = rw (h, enough) refl in
          ap (λ c. (run (failures es) c).state) step
          ∙ ap (λ c. c.state) (failures-open es opened refl)
          ∙ ground arith
      | inr more ↦
          let counted = record cb { failure_count = suc cb.failure_count } in
          let step : after_execution at (some e) cb ≡ counted = ground arith in
          ap (λ c. (run (failures es) c).state) step
          ∙ failures-state es counted h (ground arith)
          ∙ ground arith
    ]

-- Of a new breaker to which only failed calls are reported, at whatever instants and with whatever
-- errors, while no call begins and nobody looks at its state: it is closed if the failures are fewer
-- than its threshold, or than five if that is not positive, and open if they are not.
pub failures-trip :
    (es : List (Time × Error)) (start : Time) (cfg : Config)
    → (run (failures es) (new_circuit_breaker start cfg)).state
      ≡ (if ltb (length es) (setting cfg.failure_threshold 5) then state_closed else state_open)
unfolding new_circuit_breaker
failures-trip es start cfg =
    failures-state es (new_circuit_breaker start cfg) refl
      (setting-positive cfg.failure_threshold 5 (omega arith))
    ∙ ground arith
