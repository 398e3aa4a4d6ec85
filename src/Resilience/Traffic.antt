-- ===== src/Resilience/Traffic.antt =====
-- The breaker under any interleaving of calls.
use distributed_wallet_ledge.Prelude.{
  ℕ, zero, suc, ◌<◌, ◌≡◌, refl, subst, ◌⊎◌, false, leb, ℤ, pos, negsuc, List, [], ◌∷◌, Option, none,
  some, arith, Bool-cases, inl, inr,
}
use distributed_wallet_ledge.Errors.{Error}
use distributed_wallet_ledge.Domain.Hold.{Time}
use distributed_wallet_ledge.Resilience.{
  State, state_closed, state_half_open, state_open, same_state, Config, CircuitBreaker, setting,
  new_circuit_breaker, transition_to, has_waited, evaluate_state_change, success_in, failure_in,
  on_success, on_failure, before_execution, after_execution, observe,
}

-- What a goroutine does under the mutex: it begins a call, ends one, or looks at the state.
pub data Action : Type 0 where
  begins : Time → Action
  ends : Time → Option Error → Action
  looks : Time → Action

abbrev pub act : Action → CircuitBreaker → CircuitBreaker
act (begins now) cb = (before_execution now cb).0
act (ends now outcome) cb = after_execution now outcome cb
act (looks now) cb = (observe now cb).0

abbrev pub run : List Action → CircuitBreaker → CircuitBreaker
run [] cb = cb
run (a ∷ actions) cb = run actions (act a cb)

-- The counters that the state allows.
abbrev pub CountersFit : State → CircuitBreaker → Type 0
CountersFit state_closed cb = (cb.failure_count < cb.failure_threshold) × (cb.success_count ≡ 0)
CountersFit state_half_open cb = (cb.failure_count ≡ 0) × (cb.success_count < cb.success_threshold)
CountersFit state_open cb = (cb.failure_count ≡ 0) × (cb.success_count ≡ 0)

pub record IsWellFormed (cb : CircuitBreaker) : Type 0 where
  pub failures_matter : 0 < cb.failure_threshold
  pub successes_matter : 0 < cb.success_threshold
  pub counters : CountersFit cb.state cb

pub setting-positive : (z : ℤ) (n : ℕ) → 0 < n → 0 < setting z n
setting-positive (pos zero) n h = h
setting-positive (pos (suc m)) n h = omega arith
setting-positive (negsuc m) n h = h

new-IsWellFormed : (now : Time) (cfg : Config) → IsWellFormed (new_circuit_breaker now cfg)
unfolding new_circuit_breaker
new-IsWellFormed now cfg = record {
  failures_matter = setting-positive cfg.failure_threshold 5 (omega arith);
  successes_matter = setting-positive cfg.success_threshold 2 (omega arith);
  counters = (setting-positive cfg.failure_threshold 5 (omega arith), refl);
}

counters_in :
    (st : State) (cb : CircuitBreaker) → cb.state ≡ st → IsWellFormed cb → CountersFit st cb
counters_in st cb e w = subst (λ x. CountersFit x cb) e w.counters

State-cases : (st : State) → (st ≡ state_open) ⊎ (same_state st state_open ≡ false)
State-cases state_closed = inr refl
State-cases state_half_open = inr refl
State-cases state_open = inl refl

-- A breaker that has just moved.
moved-IsWellFormed :
    (now : Time) (st : State) (cb : CircuitBreaker)
    → 0 < cb.failure_threshold
    → 0 < cb.success_threshold
    → IsWellFormed
        (record cb { state = st; failure_count = 0; success_count = 0; last_state_change = now })
moved-IsWellFormed now state_closed cb f s = record {
  failures_matter = f;
  successes_matter = s;
  counters = (f, refl);
}
moved-IsWellFormed now state_half_open cb f s = record {
  failures_matter = f;
  successes_matter = s;
  counters = (refl, s);
}
moved-IsWellFormed now state_open cb f s = record {
  failures_matter = f;
  successes_matter = s;
  counters = (refl, refl);
}

evaluate-IsWellFormed :
    (now : Time) (cb : CircuitBreaker)
    → IsWellFormed cb
    → IsWellFormed (evaluate_state_change now cb)
unfolding evaluate_state_change transition_to
evaluate-IsWellFormed now cb w = elim (State-cases cb.state) [
  | inr other ↦
      let same : cb ≡ evaluate_state_change now cb = ground arith in subst IsWellFormed same w
  | inl open' ↦ elim (Bool-cases (has_waited now cb)) [
    | inr early ↦
        let same : cb ≡ evaluate_state_change now cb = ground arith in subst IsWellFormed same w
    | inl late ↦
        rw (open', late)
          (moved-IsWellFormed now state_half_open cb w.failures_matter w.successes_matter)
  ]
]

success_in-IsWellFormed :
    (st : State) (now : Time) (cb : CircuitBreaker)
    → cb.state ≡ st
    → IsWellFormed cb
    → IsWellFormed (success_in st now cb)
unfolding transition_to
success_in-IsWellFormed state_closed now cb e w = record {
  failures_matter = w.failures_matter;
  successes_matter = w.successes_matter;
  counters = rw e (w.failures_matter, (counters_in state_closed cb e w).1);
}
success_in-IsWellFormed state_half_open now cb e w =
    elim (Bool-cases (leb cb.success_threshold (suc cb.success_count))) [
      | inl enough ↦
          rw (enough, e)
            (moved-IsWellFormed now state_closed cb w.failures_matter w.successes_matter)
      | inr fewer ↦ rw fewer (record {
        failures_matter = w.failures_matter;
        successes_matter = w.successes_matter;
        counters = rw e ((counters_in state_half_open cb e w).0, ground arith);
      })
    ]
success_in-IsWellFormed state_open now cb e w = w

failure_in-IsWellFormed :
    (st : State) (now : Time) (cb : CircuitBreaker)
    → cb.state ≡ st
    → IsWellFormed cb
    → IsWellFormed (failure_in st now cb)
unfolding transition_to
failure_in-IsWellFormed state_closed now cb e w =
    elim (Bool-cases (leb cb.failure_threshold (suc cb.failure_count))) [
      | inl enough ↦
          rw (enough, e) (moved-IsWellFormed now state_open cb w.failures_matter w.successes_matter)
      | inr fewer ↦ rw fewer (record {
        failures_matter = w.failures_matter;
        successes_matter = w.successes_matter;
        counters = rw e (ground arith, (counters_in state_closed cb e w).1);
      })
    ]
failure_in-IsWellFormed state_half_open now cb e w =
    rw e (moved-IsWellFormed now state_open cb w.failures_matter w.successes_matter)
failure_in-IsWellFormed state_open now cb e w = w

act-IsWellFormed : (a : Action) (cb : CircuitBreaker) → IsWellFormed cb → IsWellFormed (act a cb)
unfolding before_execution after_execution observe on_success on_failure
act-IsWellFormed (begins now) cb w = evaluate-IsWellFormed now cb w
act-IsWellFormed (ends now none) cb w = success_in-IsWellFormed cb.state now cb refl w
act-IsWellFormed (ends now (some e)) cb w = failure_in-IsWellFormed cb.state now cb refl w
act-IsWellFormed (looks now) cb w = evaluate-IsWellFormed now cb w

run-kept :
    (actions : List Action) (cb : CircuitBreaker) → IsWellFormed cb → IsWellFormed (run actions cb)
run-kept [] cb w = w
run-kept (a ∷ actions) cb w = run-kept actions (act a cb) (act-IsWellFormed a cb w)

-- Whatever its settings, and however calls begin and end in between, a breaker has fewer failures
-- than its threshold while it is closed, fewer successes than its threshold while it is half open,
-- and no count at all while it is open.
pub run-IsWellFormed :
    (now : Time) (cfg : Config) (actions : List Action)
    → IsWellFormed (run actions (new_circuit_breaker now cfg))
run-IsWellFormed now cfg actions =
    run-kept actions (new_circuit_breaker now cfg) (new-IsWellFormed now cfg)
