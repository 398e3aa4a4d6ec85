-- ===== src/Adapters/Worker/Expiries.antt =====
-- The worker on the store of Postgres.
use distributed_wallet_ledge.Prelude.{◌≡◌, refl, ℤ, pos_part, ◌⊎◌, inl, inr, List, Option, Text}
use distributed_wallet_ledge.Errors.{Result, ok, err, fail_if, invalid_id}
use distributed_wallet_ledge.Domain.Ids.{HoldId, is_zero}
use distributed_wallet_ledge.Domain.Hold
use distributed_wallet_ledge.Domain.Hold.{Hold, HoldStatus, Time, expired, is_authorized}
use distributed_wallet_ledge.Postgres.Tables.{Uuid, Store}
use distributed_wallet_ledge.Postgres.Holds.{get_by_id, update_status, list_expired_holds}
use distributed_wallet_ledge.Application.Holds.{Port, then_call, computed, expire_hold, moved}
use distributed_wallet_ledge.Application.Ports.{computed-keeps}

-- An update that is one statement.
abbrev pub updated : Store → Result Store → Store × Result (Unit {0})
updated s (ok s') = (s', ok tt)
updated s (err e) = (s, err e)

module _ (scan : Text → Option Uuid) (now : Time) (at : HoldId → Time) where
  -- `ExpireHoldUseCase` on Postgres; `at` is the clock in the call for a hold.
  abbrev pub expires : HoldId → Port Store Hold
  expires id =
      expire_hold (λ u s. (s, get_by_id scan u s))
        (λ u status s. updated s (update_status scan u status s)) (at id) id

  abbrev pub lists : ℤ → Port Store (List HoldId)
  lists limit s = (s, list_expired_holds now (pos_part limit) s)

  -- What one call may do: nothing, or an update to "expired".
  abbrev pub Expired : Store → Store → Type 0
  Expired s s' = (s' ≡ s) ⊎ ((id : HoldId) × (update_status scan id expired s ≡ ok s'))

  updated-Expired :
      (s : Store) (h : Hold) (r : Result Store)
      → update_status scan h.id expired s ≡ r
      → Expired s (then_call (updated s r) (λ _ s₁. (s₁, ok h))).0
  updated-Expired s h (ok s') e = inr (h.id, e)
  updated-Expired s h (err f) e = inl refl

  abbrev settle : Result Hold → Port Store Hold
  settle r =
      computed r
        (λ h s. then_call (updated s (update_status scan h.id expired s)) (λ _ s₁. (s₁, ok h)))

  settle-Expired : (r : Result Hold) (s : Store) → Expired s (settle r s).0
  settle-Expired (ok h) s = updated-Expired s h (update_status scan h.id expired s) refl
  settle-Expired (err e) s = inl refl

  found-Expired :
      (id : HoldId) (s : Store) (r : Result Hold)
      → Expired s (then_call (s, r) (λ found. settle (moved (Hold.expire found (at id))))).0
  found-Expired id s (ok found) = settle-Expired (moved (Hold.expire found (at id))) s
  found-Expired id s (err e) = inl refl

  pub expires-Expired : (id : HoldId) (s : Store) → Expired s (expires id s).0
  unfolding expire_hold
  expires-Expired id s =
      computed-keeps (Expired s) (fail_if (is_zero id) invalid_id) _ s (inl refl)
        (λ _ _. found-Expired id s (get_by_id scan id s))
