-- ===== src/Domain/Money.antt =====
-- internal/ledger/domain/money.go. An amount is an int64.
pub mod Laws
use distributed_wallet_ledge.Prelude.{
  Bool, true, false, not, ℤ, pos, ltb_ℤ, eqb_ℤ, max_int64, ◌+64◌, ◌-64◌, if◌then◌else◌,
}
use distributed_wallet_ledge.Errors.{
  Result, ok, err, ◌>>=◌, ◌>>◌, fail_if, amount_must_not_be_negative, currency_mismatch,
  amount_overflow,
}
use distributed_wallet_ledge.Domain.Currency
use distributed_wallet_ledge.Domain.Currency.{Currency}

pub record Money : Type 0 where
  pub currency : Currency
  pub amount_minor_units : ℤ

unfoldable pub validate : Money → Result (Unit {0})
validate m = do
  Currency.validate m.currency
  fail_if (ltb_ℤ m.amount_minor_units (pos 0)) amount_must_not_be_negative

unfoldable pub new_money : Currency → ℤ → Result Money
unfolding validate
new_money currency amount = do
  let m : Money = record { currency = currency; amount_minor_units = amount }
  validate m
  ok m

abbrev pub is_zero : Money → Bool
is_zero m = eqb_ℤ m.amount_minor_units (pos 0)

abbrev pub is_positive : Money → Bool
is_positive m = ltb_ℤ (pos 0) m.amount_minor_units

unfoldable pub add : Money → Money → Result Money
add m other = do
  validate m
  validate other
  fail_if (not (Currency.equal m.currency other.currency)) currency_mismatch
  fail_if (ltb_ℤ (pos max_int64 -64 m.amount_minor_units) other.amount_minor_units) amount_overflow
  ok (record {
    currency = m.currency;
    amount_minor_units = m.amount_minor_units +64 other.amount_minor_units;
  })

unfoldable pub equal : Money → Money → Bool
equal m other =
    if not (Currency.equal m.currency other.currency)
    then false
    else if not (eqb_ℤ m.amount_minor_units other.amount_minor_units)
    then false
    else true
