-- ===== src/Adapters/Http/Wallets.antt =====
-- internal/ledger/adapters/http/wallet_handler.go: Create, Get, ListByOwner and GetBalance.
use distributed_wallet_ledge.Prelude.{ℤ, ◌=text◌, List, map, Option, Text, codes, if◌then◌else◌}
use distributed_wallet_ledge.Errors.{Result, ok, ◌>>=◌}
use distributed_wallet_ledge.Domain.Ids.{WalletId, OwnerId, AccountId, new_id}
use distributed_wallet_ledge.Domain.Wallet.{Wallet, WalletStatus}
use distributed_wallet_ledge.Application.Balance.{WalletBalance}
use distributed_wallet_ledge.Application.Wallets.{
  CreateWalletCommand, WalletPorts, Projections, create_wallet, get_wallet, list_wallets_by_owner,
  get_wallet_balance, execute_from_ledger,
}
use distributed_wallet_ledge.Adapters.Http.Handling.{
  HttpRequest, Handler, post_only, decoded, parsed, reply, status_ok, status_created,
}

pub record CreateWalletRequest : Type 0 where
  pub id : Text
  pub owner_id : Text
  pub ledger_account_id : Text
  pub currency_code : Text

pub record WalletResponse : Type 0 where
  pub id : WalletId
  pub owner_id : OwnerId
  pub ledger_account_id : AccountId
  pub currency : Text
  pub status : WalletStatus

pub record WalletBalanceResponse : Type 0 where
  pub wallet_id : WalletId
  pub currency : Text
  pub ledger_balance_minor_units : ℤ
  pub available_balance_minor_units : ℤ

abbrev pub to_wallet_response : Wallet → WalletResponse
to_wallet_response w = record {
  id = w.id;
  owner_id = w.owner_id;
  ledger_account_id = w.ledger_account_id;
  currency = w.currency.code;
  status = w.status;
}

abbrev pub balance_response : WalletBalance → WalletBalanceResponse
balance_response b = record {
  wallet_id = b.wallet_id;
  currency = b.currency.code;
  ledger_balance_minor_units = b.ledger_balance_minor_units;
  available_balance_minor_units = b.available_balance_minor_units;
}

unfoldable pub wallet_of : CreateWalletRequest → Result CreateWalletCommand
wallet_of request = do
  wallet_id ← new_id request.id
  owner_id ← new_id request.owner_id
  ledger_account_id ← new_id request.ledger_account_id
  ok (record {
    id = wallet_id;
    owner_id = owner_id;
    ledger_account_id = ledger_account_id;
    currency_code = request.currency_code;
  })

module _ {ℓ} {S : Type ℓ} (ports : WalletPorts S) where
  unfoldable pub handle_create : HttpRequest CreateWalletRequest → Handler S WalletResponse
  unfolding wallet_of
  handle_create r = post_only r.is_post (
      decoded r.body (λ request.
        parsed (wallet_of request)
          (λ c s. reply status_created to_wallet_response (create_wallet ports c s))))

  unfoldable pub handle_get : Text → Handler S WalletResponse
  handle_get wallet_param =
      parsed (new_id wallet_param)
        (λ wallet_id s. reply status_ok to_wallet_response (get_wallet ports wallet_id s))

  unfoldable pub handle_list_by_owner : Text → Handler S (List WalletResponse)
  handle_list_by_owner owner_param = parsed (new_id owner_param) (λ owner_id s.
      reply status_ok (map to_wallet_response) (list_wallets_by_owner ports owner_id s))

  -- `consistency` is the query parameter of that name.
  unfoldable pub handle_get_balance :
      Option (Projections S) → Text → Text → Handler S WalletBalanceResponse
  handle_get_balance projections wallet_param consistency =
      parsed (new_id wallet_param) (λ wallet_id s. reply status_ok balance_response (
        if consistency =text codes "strong"
        then execute_from_ledger ports projections wallet_id s
        else get_wallet_balance ports projections wallet_id s))
