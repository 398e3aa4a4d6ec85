-- ===== src/Domain/Wallet.antt =====
-- internal/ledger/domain/wallet.go.
pub mod Lifecycle
use distributed_wallet_ledge.Prelude.{Bool, true, false, not, Text}
use distributed_wallet_ledge.Errors.{
  Result, ok, err, ◌>>=◌, ◌>>◌, fail_if, assign, invalid_wallet_status, invalid_id,
  empty_wallet_owner_id, wallet_suspended, wallet_closed, currency_mismatch,
  wallet_already_suspended, wallet_already_closed,
}
use distributed_wallet_ledge.Domain.Ids.{WalletId, OwnerId, AccountId, is_zero}
use distributed_wallet_ledge.Domain.Currency
use distributed_wallet_ledge.Domain.Currency.{Currency}

-- A Go string type: its constants, and `other s` for any other string.
pub data WalletStatus : Type 0 where
  open_status suspended_status closed_status : WalletStatus
  other : Text → WalletStatus

abbrev pub validate_status : WalletStatus → Result (Unit {0})
validate_status open_status = ok tt
validate_status suspended_status = ok tt
validate_status closed_status = ok tt
validate_status (other s) = err invalid_wallet_status

abbrev pub is_suspended : WalletStatus → Bool
is_suspended suspended_status = true
is_suspended _ = false

abbrev pub is_closed : WalletStatus → Bool
is_closed closed_status = true
is_closed _ = false

pub record Wallet : Type 0 where
  pub id : WalletId
  pub owner_id : OwnerId
  pub ledger_account_id : AccountId
  pub currency : Currency
  pub status : WalletStatus

unfoldable pub validate : Wallet → Result (Unit {0})
validate w = do
  fail_if (is_zero w.id) invalid_id
  fail_if (is_zero w.owner_id) empty_wallet_owner_id
  fail_if (is_zero w.ledger_account_id) invalid_id
  Currency.validate w.currency
  validate_status w.status

unfoldable pub reconstitute_wallet :
    WalletId → OwnerId → AccountId → Currency → WalletStatus → Result Wallet
reconstitute_wallet id owner_id ledger_account_id currency status = do
  let wallet : Wallet = record {
    id = id;
    owner_id = owner_id;
    ledger_account_id = ledger_account_id;
    currency = currency;
    status = status;
  }
  validate wallet
  ok wallet

unfoldable pub new_wallet : WalletId → OwnerId → AccountId → Currency → Result Wallet
unfolding reconstitute_wallet
new_wallet id owner_id ledger_account_id currency =
    reconstitute_wallet id owner_id ledger_account_id currency open_status

-- The `switch` of `CanOperate`.
abbrev pub operable : WalletStatus → Result (Unit {0})
operable suspended_status = err wallet_suspended
operable closed_status = err wallet_closed
operable _ = ok tt

unfoldable pub can_operate : Wallet → Result (Unit {0})
can_operate w = do validate w; operable w.status

unfoldable pub can_operate_with_currency : Wallet → Currency → Result (Unit {0})
unfolding can_operate
can_operate_with_currency w currency = do
  can_operate w
  fail_if (not (Currency.equal w.currency currency)) currency_mismatch

unfoldable pub suspend : Wallet → Wallet × Result (Unit {0})
suspend w = assign w do
  validate w
  fail_if (is_closed w.status) wallet_closed
  fail_if (is_suspended w.status) wallet_already_suspended
  ok (record w { status = suspended_status })

unfoldable pub close : Wallet → Wallet × Result (Unit {0})
close w = assign w do
  validate w
  fail_if (is_closed w.status) wallet_already_closed
  ok (record w { status = closed_status })
