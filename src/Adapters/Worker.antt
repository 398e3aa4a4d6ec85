-- ===== src/Adapters/Worker.antt =====
-- internal/ledger/adapters/worker/hold_expiration_worker.go. Logs are left out, and so is the ticker of
-- `Start`, which calls `ProcessExpiredHolds` again and again.
pub mod Rows
pub mod Expiries
pub mod Settles
use distributed_wallet_ledge.Prelude.{ℕ, zero, suc, ℤ, pos, negsuc, List, [], ◌∷◌}
use distributed_wallet_ledge.Errors.{Result, ok, err, wrapped}
use distributed_wallet_ledge.Domain.Ids.{HoldId}
use distributed_wallet_ledge.Domain.Hold.{Hold}
use distributed_wallet_ledge.Application.Holds.{Port}

pub record HoldExpirationConfig : Type 0 where
  pub interval : ℤ
  pub batch_size : ℤ

-- `withDefaults`.
abbrev pub positive_or : ℤ → ℤ → ℤ
positive_or default (pos zero) = default
positive_or default (pos (suc n)) = pos (suc n)
positive_or default (negsuc n) = default

unfoldable pub with_defaults : HoldExpirationConfig → HoldExpirationConfig
with_defaults c = record {
  interval = positive_or (pos 10_000_000_000) c.interval;
  batch_size = positive_or (pos 50) c.batch_size;
}

module _ {ℓ} {S : Type ℓ} (list_expired_holds : ℤ → Port S (List HoldId))
    (execute : HoldId → Port S Hold) where
  -- The loop over the holds: an error is logged and passed over.
  unfoldable pub expire_all : List HoldId → S → S
  expire_all [] s = s
  expire_all (hold_id ∷ hold_ids) s = expire_all hold_ids (execute hold_id s).0

  abbrev pub expire_listed : S × Result (List HoldId) → S × Result (Unit {0})
  expire_listed (s, err e) = (s, err (wrapped e))
  expire_listed (s, ok hold_ids) = (expire_all hold_ids s, ok tt)

  -- `ProcessExpiredHolds`.
  unfoldable pub process_expired_holds : HoldExpirationConfig → Port S (Unit {0})
  unfolding expire_all
  process_expired_holds cfg s = expire_listed (list_expired_holds cfg.batch_size s)
