-- ===== src/Application/Wallets.antt =====
-- internal/ledger/application/wallet: create.go, get.go, list.go, get_balance.go, projector.go and
-- event_publisher.go. Logging is left out.
use distributed_wallet_ledge.Prelude.{
  ℕ, not, ◌=text◌, List, Option, none, some, Text, codes, if◌then◌else◌,
}
use distributed_wallet_ledge.Errors.{Result, ok, err, ◌>>=◌, fail_if, wrap_error, invalid_id}
use distributed_wallet_ledge.Domain.Ids.{WalletId, OwnerId, AccountId, new_id, is_zero}
use distributed_wallet_ledge.Domain.Currency.{new_currency}
use distributed_wallet_ledge.Domain.Wallet.{Wallet, new_wallet}
use distributed_wallet_ledge.Domain.OutboxEvent.{OutboxEvent}
use distributed_wallet_ledge.Application.Balance.{
  LedgerBalanceSnapshot, WalletBalance, calculate_wallet_balance,
}
use distributed_wallet_ledge.Application.Holds.{Port, then_call, computed, answer}

pub record CreateWalletCommand : Type 0 where
  pub id : WalletId
  pub owner_id : OwnerId
  pub ledger_account_id : AccountId
  pub currency_code : Text

-- The ports `WalletReader` and `WalletBalanceReader`, and the projections of
-- `WalletBalanceProjectionRepository`.
pub record WalletPorts {ℓ} (S : Type ℓ) : Type ℓ where
  pub create : Wallet → Port S (Unit {0})
  pub get_by_id : WalletId → Port S Wallet
  pub list_by_owner_id : OwnerId → Port S (List Wallet)
  pub get_ledger_balance : AccountId → Port S LedgerBalanceSnapshot

pub record Projections {ℓ} (S : Type ℓ) : Type ℓ where
  pub save_wallet_balance : WalletBalance → Port S (Unit {0})
  pub get_wallet_balance : WalletId → Port S WalletBalance

-- `fmt.Errorf("…: %w", err)` on the answer of a call.
abbrev pub wrapping {ℓ} : {S : Type ℓ} {A : Type 0} → S × Result A → S × Result A
wrapping (s, r) = (s, wrap_error r)

-- A call whose error is dropped.
abbrev pub ignoring {ℓ} : {S : Type ℓ} {A : Type 0} → S × Result A → Port S A → S × Result A
ignoring (s, r) next = next s

-- A result that is used only when there is no error.
abbrev pub or_else {ℓ} : {S : Type ℓ} {A : Type 0} → S × Result A → Port S A → S × Result A
or_else (s, ok a) next = (s, ok a)
or_else (s, err e) next = next s

unfoldable pub make_wallet : CreateWalletCommand → Result Wallet
make_wallet c = do
  currency ← new_currency c.currency_code
  new_wallet c.id c.owner_id c.ledger_account_id currency

-- `WalletBalanceUpdatedEventType`.
abbrev pub wallet_balance_updated : Text
wallet_balance_updated = codes "WalletBalanceUpdated"

module _ {ℓ} {S : Type ℓ} (ports : WalletPorts S) where
  open ports use {create, get_by_id, list_by_owner_id, get_ledger_balance}

  unfoldable pub create_wallet : CreateWalletCommand → Port S Wallet
  unfolding make_wallet
  create_wallet c = computed (make_wallet c) (λ w s. then_call (create w s) (λ _. answer w))

  unfoldable pub get_wallet : WalletId → Port S Wallet
  get_wallet wallet_id =
      computed (fail_if (is_zero wallet_id) invalid_id) (λ _. get_by_id wallet_id)

  unfoldable pub list_wallets_by_owner : OwnerId → Port S (List Wallet)
  list_wallets_by_owner owner_id =
      computed (fail_if (is_zero owner_id) invalid_id) (λ _. list_by_owner_id owner_id)

  -- The calls that `ExecuteFromLedger` and `ProjectBalance` share.
  abbrev pub ledger_balance_of : WalletId → Port S WalletBalance
  ledger_balance_of wallet_id s = then_call (get_by_id wallet_id s) (λ w s₁.
      then_call (get_ledger_balance w.ledger_account_id s₁)
        (λ snapshot s₂. (s₂, calculate_wallet_balance w snapshot)))

  -- What the use case does with a balance when it has projections.
  abbrev pub save_quietly : Option (Projections S) → WalletBalance → Port S WalletBalance
  save_quietly none balance s = (s, ok balance)
  save_quietly (some projections) balance s =
      ((projections.save_wallet_balance balance s).0, ok balance)

  unfoldable pub execute_from_ledger : Option (Projections S) → WalletId → Port S WalletBalance
  execute_from_ledger projections wallet_id =
      computed (fail_if (is_zero wallet_id) invalid_id)
        (λ _ s. then_call (ledger_balance_of wallet_id s) (save_quietly projections))

  -- The first read of `Execute`; an error falls back to the ledger.
  abbrev pub read_projection : Option (Projections S) → WalletId → Port S WalletBalance
  read_projection none wallet_id s = execute_from_ledger none wallet_id s
  read_projection (some projections) wallet_id s =
      or_else (projections.get_wallet_balance wallet_id s)
        (execute_from_ledger (some projections) wallet_id)

  -- `GetWalletBalanceUseCase.Execute`.
  unfoldable pub get_wallet_balance : Option (Projections S) → WalletId → Port S WalletBalance
  unfolding execute_from_ledger
  get_wallet_balance projections wallet_id =
      computed (fail_if (is_zero wallet_id) invalid_id) (λ _. read_projection projections wallet_id)

  -- `WalletBalanceProjector.ProjectBalance`.
  unfoldable pub project_balance : Projections S → WalletId → Port S WalletBalance
  project_balance projections wallet_id = computed (fail_if (is_zero wallet_id) invalid_id) (λ _ s.
      then_call (wrapping (ledger_balance_of wallet_id s)) (λ balance s₁.
        then_call (wrapping (projections.save_wallet_balance balance s₁)) (λ _. answer balance)))

  -- `WalletBalanceEventPublisher.Publish`. `unmarshal` is `json.Unmarshal` on the payload: the
  -- wallet's identifier, or an error.
  unfoldable pub publish :
      (List ℕ → Result Text) → (WalletId → Port S WalletBalance) → OutboxEvent → Port S (Unit {0})
  publish unmarshal project event s =
      if not (event.event_type =text wallet_balance_updated)
      then (s, ok tt)
      else computed (do id ← wrap_error (unmarshal event.payload); wrap_error (new_id id))
          (λ wallet_id s₁. then_call (wrapping (project wallet_id s₁)) (λ _. answer tt)) s
