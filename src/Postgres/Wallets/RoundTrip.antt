-- ===== src/Postgres/Wallets/RoundTrip.antt =====
-- A wallet that is written is read back.
use distributed_wallet_ledge.Prelude.{◌≡◌, refl, Text, Option, some, =text_refl, arith}
use distributed_wallet_ledge.Errors.{ok, wrap_error, wrap_error-eq-ok}
use distributed_wallet_ledge.Domain.Ids.{new_id}
use distributed_wallet_ledge.Domain.Currency
use distributed_wallet_ledge.Domain.Currency.{new_currency}
use distributed_wallet_ledge.Domain.Currency.Codes.{new_currency-code}
use distributed_wallet_ledge.Domain.Wallet
use distributed_wallet_ledge.Domain.Wallet.{Wallet, reconstitute_wallet}
use distributed_wallet_ledge.Postgres.Tables.{Uuid, Store, WalletRow}
use distributed_wallet_ledge.Postgres.Queries.{get_wallet_by_id}
use distributed_wallet_ledge.Postgres.Transactions.{to_uuid}
use distributed_wallet_ledge.Postgres.Wallets.{create_wallet, create, get_by_id, map_wallet}

-- A wallet whose identifiers are in the form in which the constructors leave them, the UUIDs in
-- their canonical text.
pub record IsClean (scan : Text → Option Uuid) (w : Wallet) : Type 0 where
  pub valid : Wallet.validate w ≡ ok tt
  pub id_clean : new_id w.id ≡ ok w.id
  pub owner_clean : new_id w.owner_id ≡ ok w.owner_id
  pub account_clean : new_id w.ledger_account_id ≡ ok w.ledger_account_id
  pub id_canonical : scan w.id ≡ some w.id
  pub account_canonical : scan w.ledger_account_id ≡ some w.ledger_account_id

abbrev row_of : Wallet → WalletRow
row_of w = record {
  id = w.id;
  owner_id = w.owner_id;
  ledger_account_id = w.ledger_account_id;
  currency = w.currency.code;
  status = w.status;
}

validate-currency : (w : Wallet) → Wallet.validate w ≡ ok tt → Currency.validate w.currency ≡ ok tt
unfolding Wallet.validate
validate-currency w h = ground arith

map_wallet-row_of :
    (scan : Text → Option Uuid) (w : Wallet) → IsClean scan w → map_wallet (row_of w) ≡ ok w
unfolding map_wallet reconstitute_wallet
map_wallet-row_of scan w c =
    rw
      (
        c.id_clean,
        c.owner_clean,
        c.account_clean,
        new_currency-code w.currency (validate-currency w c.valid),
        c.valid,
      )
      refl

create_wallet-wallets :
    (row : WalletRow) (s s' : Store)
    → create_wallet row s ≡ ok s'
    → get_wallet_by_id row.id s' ≡ some row
unfolding create_wallet get_wallet_by_id
create_wallet-wallets row s s' h = ground (arith, =text_refl row.id)

-- A valid wallet with clean identifiers that `WalletRepository.Create` has written is what
-- `WalletRepository.GetByID` reads under its identifier.
pub get_by_id-create :
    (scan : Text → Option Uuid) (w : Wallet) (s s' : Store)
    → IsClean scan w
    → create scan w s ≡ ok s'
    → get_by_id scan w.id s' ≡ ok w
unfolding create get_by_id to_uuid
get_by_id-create scan w s s' c h =
    let wrote : wrap_error (create_wallet (row_of w) s) ≡ ok s' =
      rw (c.id_canonical, c.account_canonical) at h in
    let found =
      create_wallet-wallets (row_of w) s s'
        (wrap_error-eq-ok (create_wallet (row_of w) s) s' wrote) in
    rw (c.id_canonical, found, map_wallet-row_of scan w c) refl
