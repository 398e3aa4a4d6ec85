-- ===== src/Domain/Hold/Lifecycle.antt =====
-- The life of a hold: it is settled at most once.
use distributed_wallet_ledge.Prelude.{
  ℕ, ◌+◌, ◌≤◌, ◌≡◌, refl, false, List, [], ◌∷◌, arith, inl, inr, ◌⊎◌,
}
use distributed_wallet_ledge.Errors.{Result, ok, err}
use distributed_wallet_ledge.Domain.Hold
use distributed_wallet_ledge.Domain.Hold.{
  Hold, Time, HoldStatus, authorized, captured, released, expired, is_authorized, is_active,
}

-- The three methods that change a hold, with the time of the call.
pub data Call : Type 0 where
  captures releases expires : Time → Call

unfoldable pub call : Hold → Call → Hold × Result (Unit {0})
call h (captures at) = Hold.capture h at
call h (releases at) = Hold.release h at
call h (expires at) = Hold.expire h at

abbrev pub succeeded : Result (Unit {0}) → ℕ
succeeded (ok u) = 1
succeeded (err e) = 0

-- A run of calls, and how many of them succeeded.
unfoldable pub run : Hold → List Call → Hold × ℕ
run h [] = (h, 0)
run h (c ∷ cs) = let (h', r) = call h c in let (last, n) = run h' cs in (last, succeeded r + n)

settled :
    (h : Hold) (c : Call)
    → is_authorized h.status ≡ false
    → ((call h c).0 ≡ h) × (succeeded (call h c).1 ≡ 0)
unfolding call Hold.capture Hold.release Hold.expire
settled h (captures at) v = ground arith
settled h (releases at) v = ground arith
settled h (expires at) v = ground arith

-- A hold that is not authorized, valid or not, is never changed again, and no call on it succeeds.
pub run_settled : (h : Hold) (cs : List Call) → is_authorized h.status ≡ false → run h cs ≡ (h, 0)
unfolding run
run_settled h [] v = refl
run_settled h (c ∷ cs) v = ground (arith, settled h c v, run_settled h cs v)

first_settles :
    (h : Hold) (c : Call)
    → (succeeded (call h c).1 ≡ 0) × ((call h c).0 ≡ h)
      ⊎ (succeeded (call h c).1 ≡ 1) × (is_authorized (call h c).0.status ≡ false)
unfolding call Hold.capture Hold.release Hold.expire
first_settles h (captures at) = ground arith
first_settles h (releases at) = ground arith
first_settles h (expires at) = ground arith

-- Over any calls at any times at most one succeeds: no hold is both captured and released, or twice.
pub run_once : (h : Hold) (cs : List Call) → (run h cs).1 ≤ 1
unfolding run
run_once h [] = omega arith
run_once h (c ∷ cs) = elim (first_settles h c) [
  | inl (failed, same) ↦ rw (failed, same) (omega (arith, run_once h cs))
  | inr (done, final) ↦ rw (done, run_settled (call h c).0 cs final) (omega arith)
]
