-- ===== src/Domain/Account.antt =====
-- internal/ledger/domain/account.go.
use distributed_wallet_ledge.Prelude.{Bool, true, false, not, Text, is_empty, trim_space}
use distributed_wallet_ledge.Errors.{
  Result, ok, err, ◌>>◌, fail_if, assign, invalid_account_status, invalid_id, empty_account_code,
  empty_account_name, account_closed, currency_mismatch, account_already_closed,
}
use distributed_wallet_ledge.Domain.Ids.{AccountId, is_zero}
use distributed_wallet_ledge.Domain.Currency
use distributed_wallet_ledge.Domain.Currency.{Currency}

-- A Go string type: its constants, and `other s` for any other string.
pub data AccountStatus : Type 0 where
  open_status closed_status : AccountStatus
  other : Text → AccountStatus

abbrev pub validate_status : AccountStatus → Result (Unit {0})
validate_status open_status = ok tt
validate_status closed_status = ok tt
validate_status (other s) = err invalid_account_status

pub record Account : Type 0 where
  pub id : AccountId
  pub code : Text
  pub name : Text
  pub currency : Currency
  pub status : AccountStatus

unfoldable pub validate : Account → Result (Unit {0})
validate a = do
  fail_if (is_zero a.id) invalid_id
  fail_if (is_empty a.code) empty_account_code
  fail_if (is_empty a.name) empty_account_name
  Currency.validate a.currency
  validate_status a.status

unfoldable pub new_account : AccountId → Text → Text → Currency → Result Account
new_account id code name currency = do
  let account : Account = record {
    id = id;
    code = trim_space code;
    name = trim_space name;
    currency = currency;
    status = open_status;
  }
  validate account
  ok account

abbrev pub status_is_closed : AccountStatus → Bool
status_is_closed open_status = false
status_is_closed closed_status = true
status_is_closed (other s) = false

unfoldable pub can_receive_posting : Account → Currency → Result (Unit {0})
can_receive_posting a currency = do
  validate a
  fail_if (status_is_closed a.status) account_closed
  fail_if (not (Currency.equal a.currency currency)) currency_mismatch

unfoldable pub close : Account → Account × Result (Unit {0})
close a = assign a do
  fail_if (status_is_closed a.status) account_already_closed
  ok (record a { status = closed_status })
