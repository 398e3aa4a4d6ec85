-- ===== src/Domain/Wallet/Lifecycle.antt =====
-- The life of a wallet: from open over suspended to closed.
use distributed_wallet_ledge.Prelude.{ℕ, ◌<◌, ◌≡◌, ◌≢◌, ◌↔◌, refl, arith, ◌⊎◌}
use distributed_wallet_ledge.Errors.{Result, ok, >>=-eq-ok}
use distributed_wallet_ledge.Domain.Wallet
use distributed_wallet_ledge.Domain.Wallet.{
  Wallet, WalletStatus, open_status, suspended_status, closed_status, other, operable,
}

pub data Call : Type 0 where
  suspends closes : Call

unfoldable pub call : Wallet → Call → Wallet × Result (Unit {0})
call w suspends = Wallet.suspend w
call w closes = Wallet.close w

-- How far a status is along.
abbrev pub rank : WalletStatus → ℕ
rank open_status = 0
rank suspended_status = 1
rank closed_status = 2
rank (other s) = 0

-- A call that succeeds moves the wallet on; one that fails leaves it as it was. Only the status
-- ever changes, and a valid wallet stays valid.
pub record Advances (w w' : Wallet) (r : Result (Unit {0})) : Type 0 where
  pub only_status : w' ≡ record w { status = w'.status }
  pub keeps_valid : Wallet.validate w ≡ ok tt → Wallet.validate w' ≡ ok tt
  pub moves : ((r ≡ ok tt) × (rank w.status < rank w'.status)) ⊎ ((r ≢ ok tt) × (w' ≡ w))

-- A `Suspend` or a `Close` that succeeds moves the wallet to a later status of open, suspended and
-- closed; one that fails leaves the wallet as it was; nothing but the status changes, and a valid
-- wallet stays valid.
pub call-Advances : (w : Wallet) (c : Call) → Advances w (call w c).0 (call w c).1
unfolding call Wallet.suspend Wallet.close Wallet.validate
call-Advances w suspends = ground arith
call-Advances w closes = ground arith

operable-open :
    (s : WalletStatus) → Wallet.validate_status s ≡ ok tt → operable s ≡ ok tt → s ≡ open_status
operable-open open_status v h = refl
operable-open suspended_status v h = cc
operable-open closed_status v h = cc
operable-open (other t) v h = cc

validate-status : (w : Wallet) → Wallet.validate w ≡ ok tt → Wallet.validate_status w.status ≡ ok tt
unfolding Wallet.validate
validate-status w h = ground arith

can_operate-open :
    (w : Wallet)
    → Wallet.can_operate w ≡ ok tt
    → (Wallet.validate w ≡ ok tt) × (w.status ≡ open_status)
unfolding Wallet.can_operate
can_operate-open w h =
    let (_, valid, may) = >>=-eq-ok (Wallet.validate w) _ h in
    (valid, operable-open w.status (validate-status w valid) may)

-- A wallet may operate exactly when it is valid and open.
pub can_operate_iff :
    (w : Wallet)
    → (Wallet.can_operate w ≡ ok tt) ↔ ((Wallet.validate w ≡ ok tt) × (w.status ≡ open_status))
unfolding Wallet.can_operate
can_operate_iff w = (λ h. can_operate-open w h, λ h. rw (h.0, h.1))
