-- ===== src/Domain/Currency.antt =====
-- internal/ledger/domain/currency.go.
pub mod Codes
use distributed_wallet_ledge.Prelude.{
  Text, Bool, true, not, ◌&&◌, leb, ◌==◌, ◌=text◌, [], ◌∷◌, trim_space, to_upper, byte_len,
}
use distributed_wallet_ledge.Errors.{Result, ok, err, ◌>>=◌, ◌>>◌, fail_if, invalid_currency}

pub record Currency : Type 0 where
  pub code : Text

-- The loop of `Validate`: no rune outside A to Z.
unfoldable pub all_letters : Text → Bool
all_letters [] = true
all_letters (r ∷ s) = leb b'A' r && leb r b'Z' && all_letters s

unfoldable pub validate : Currency → Result (Unit {0})
validate c = do
  fail_if (not (byte_len c.code == 3)) invalid_currency
  fail_if (not (all_letters c.code)) invalid_currency

unfoldable pub new_currency : Text → Result Currency
new_currency code = do
  let curr : Currency = record { code = to_upper (trim_space code) }
  validate curr
  ok curr

-- `Equal`; `==` on the struct compares the same field.
abbrev pub equal : Currency → Currency → Bool
equal c other = c.code =text other.code
