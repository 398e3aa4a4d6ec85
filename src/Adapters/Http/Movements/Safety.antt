-- ===== src/Adapters/Http/Movements/Safety.antt =====
-- Requests for movements on the store of Postgres.
use distributed_wallet_ledge.Prelude.{
  ℕ, ◌≡◌, refl, sym, ap, ◌∙◌, subst, inl, inr, Text, Option, some, arith,
}
use distributed_wallet_ledge.Errors.{Result, ok, err}
use distributed_wallet_ledge.Domain.Ids.{WalletId, new_id}
use distributed_wallet_ledge.Domain.Hold.{Time}
use distributed_wallet_ledge.Postgres.Transactions.{Lookups}
use distributed_wallet_ledge.Postgres.Tables.{Uuid, Store}
use distributed_wallet_ledge.Postgres.Solvency.Invariant.{IsSound}
use distributed_wallet_ledge.Application.Balance.{WalletBalance}
use distributed_wallet_ledge.Application.Holds.{Port}
use distributed_wallet_ledge.Application.Movements.{DepositWalletCommand, WithdrawWalletCommand}
use distributed_wallet_ledge.Application.Movements.Crossings.{
  Movement, deposits, withdraws, transfers, move,
}
use distributed_wallet_ledge.Application.Movements.Soundness.{
  Clearing, AreCanonical, postgres_ports, move-IsSound,
}
use distributed_wallet_ledge.Adapters.Http.Handling.{reply, status_created}
use distributed_wallet_ledge.Adapters.Http.Movements.{
  DepositWalletRequest, WithdrawWalletRequest, transaction_response, deposit_of, withdrawal_of,
}
use distributed_wallet_ledge.Adapters.Http.Movements.Outcomes.{
  MovementRequest, asks_deposit, asks_withdrawal, asks_transfer, Hashes, IsFor, handle_movement,
  handle_movement-outcome,
}

-- The clearing account that a body names is the canonical text of a UUID.
abbrev pub NamesCanonical : (Text → Option Uuid) → MovementRequest → Type 0
NamesCanonical scan (asks_deposit r) =
    (b : DepositWalletRequest) (a : Text)
    → r.body ≡ ok b
    → new_id b.clearing_account_id ≡ ok a
    → scan a ≡ some a
NamesCanonical scan (asks_withdrawal r) =
    (b : WithdrawWalletRequest) (a : Text)
    → r.body ≡ ok b
    → new_id b.clearing_account_id ≡ ok a
    → scan a ≡ some a
NamesCanonical scan (asks_transfer r) = Unit

deposit_of-clearing :
    (w k h : Text) (b : DepositWalletRequest) (c : DepositWalletCommand)
    → deposit_of w k h b ≡ ok c
    → new_id b.clearing_account_id ≡ ok c.clearing_account_id
unfolding deposit_of
deposit_of-clearing w k h b c e = ground arith

withdrawal_of-clearing :
    (w k h : Text) (b : WithdrawWalletRequest) (c : WithdrawWalletCommand)
    → withdrawal_of w k h b ≡ ok c
    → new_id b.clearing_account_id ≡ ok c.clearing_account_id
unfolding withdrawal_of
withdrawal_of-clearing w k h b c e = ground arith

IsFor-Clearing :
    (scan : Text → Option Uuid) (hashes : Hashes) (m : MovementRequest) (c : Movement)
    → IsFor hashes m c
    → NamesCanonical scan m
    → Clearing (λ a. scan a ≡ some a) c
IsFor-Clearing scan hashes (asks_deposit r) (deposits c) sent named =
    named sent.request c.clearing_account_id sent.reads (
      deposit_of-clearing sent.wallet_id r.idempotency_key (hashes.of_deposit sent.request)
        sent.request c sent.asks)
IsFor-Clearing scan hashes (asks_withdrawal r) (withdraws c) sent named =
    named sent.request c.clearing_account_id sent.reads (
      withdrawal_of-clearing sent.wallet_id r.idempotency_key (hashes.of_withdrawal sent.request)
        sent.request c sent.asks)
IsFor-Clearing scan hashes (asks_transfer r) (transfers c) sent named = tt
IsFor-Clearing scan hashes _ _ sent named = absurd sent

reply-state {ℓ} :
    {S : Type ℓ} {A B : Type 0} (status : ℕ) (f : A → B) (x : S × Result A)
    → (reply status f x).0 ≡ x.0
reply-state status f (s, ok a) = refl
reply-state status f (s, err e) = refl

-- Whatever is asked of the handlers of deposits, withdrawals and transfers on Postgres, a sound store
-- stays sound. The accounts of the wallets and the clearing account that a request names are in
-- canonical form, and the projector leaves the store as it is.
pub handle_movement-IsSound :
    (scan : Text → Option Uuid) (now : Time) (event_id : ℕ → Uuid) (seen : Lookups)
    (projector : Option (WalletId → Port Store WalletBalance)) (hashes : Hashes)
    → ((p : WalletId → Port Store WalletBalance) (id : WalletId) (s : Store)
        → projector ≡ some p
        → (p id s).0 ≡ s)
    → (m : MovementRequest) (s : Store) → AreCanonical scan s.wallets
    → NamesCanonical scan m
    → IsSound now s
    → IsSound now (handle_movement (postgres_ports scan now event_id seen) projector hashes m s).0
handle_movement-IsSound scan now event_id seen projector hashes keeps m s canonical named sound =
    let ports = postgres_ports scan now event_id seen in
    elim (handle_movement-outcome ports projector hashes m s) [
      | inl (_, same, _, _) ↦ subst (IsSound now) (sym (ap (λ x. x.0) same)) sound
      | inr (c, sent, same) ↦
          subst (IsSound now)
            (sym (
              ap (λ x. x.0) same
              ∙ reply-state status_created transaction_response (move ports projector c s)))
            (move-IsSound scan now event_id seen projector keeps c s canonical
              (IsFor-Clearing scan hashes m c sent named) sound)
    ]
