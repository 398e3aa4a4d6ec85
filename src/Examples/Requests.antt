-- ===== src/Examples/Requests.antt =====
-- Requests over HTTP, and the theorems about their handlers at work on them.
use distributed_wallet_ledge.Prelude.{
  ◌≡◌, refl, ◌⊎◌, pos, [], ◌∷◌, none, true, is_space, trim_space, trim_left, trim_right,
}
use distributed_wallet_ledge.Errors.{ok}
use distributed_wallet_ledge.Domain.Ids.{new_id}
use distributed_wallet_ledge.Postgres.Solvency.Invariant.{IsSound}
use distributed_wallet_ledge.Application.Movements.Crossings.{Movement, move}
use distributed_wallet_ledge.Application.Movements.Soundness.{postgres_ports}
use distributed_wallet_ledge.Adapters.Http.Handling.{HttpRequest, reply, status_created}
use distributed_wallet_ledge.Adapters.Http.Movements.{WithdrawWalletRequest, transaction_response}
use distributed_wallet_ledge.Adapters.Http.Movements.Outcomes
use distributed_wallet_ledge.Adapters.Http.Movements.Outcomes.{
  MovementRequest, asks_withdrawal, Hashes, IsFor, Refused, handle_movement,
}
use distributed_wallet_ledge.Adapters.Http.Movements.Safety
use distributed_wallet_ledge.Adapters.Http.Movements.Safety.{NamesCanonical}
use distributed_wallet_ledge.Examples.Data.{
  scan, wallet_account, other_account, wallet_id, key, hash, event_id, entry, payment, funded,
  seen_funded,
}
use distributed_wallet_ledge.Examples.Runs.{funded-IsSolvent}

abbrev hashes : Hashes
hashes = record { of_deposit = λ b. hash; of_withdrawal = λ b. hash; of_transfer = λ b. hash }

abbrev withdrawal : HttpRequest WithdrawWalletRequest
withdrawal = record {
  is_post = true;
  url_param = wallet_id;
  idempotency_key = key;
  body = ok (record {
    clearing_account_id = other_account;
    transaction_id = payment.id;
    journal_entry_id = entry.id;
    wallet_posting_id = 1 ∷ [];
    clearing_posting_id = 2 ∷ [];
    amount_minor_units = pos 30;
    description = payment.description;
  });
}

handle_movement-outcome_example :
    Refused funded (
      handle_movement
        (postgres_ports scan 10 event_id seen_funded)
        none
        hashes
        (asks_withdrawal withdrawal)
        funded)
    ⊎ ((c : Movement) × IsFor hashes (asks_withdrawal withdrawal) c
        × (handle_movement
              (postgres_ports scan 10 event_id seen_funded)
              none
              hashes
              (asks_withdrawal withdrawal)
              funded
            ≡ reply status_created transaction_response
                (move (postgres_ports scan 10 event_id seen_funded) none c funded)))
handle_movement-outcome_example =
    Outcomes.handle_movement-outcome (postgres_ports scan 10 event_id seen_funded) none hashes
      (asks_withdrawal withdrawal) funded

wallet_account-clean : new_id wallet_account ≡ ok wallet_account
unfolding new_id is_space trim_space trim_left trim_right
wallet_account-clean = refl

handle_movement-IsSound_example :
    IsSound 10
      (handle_movement
        (postgres_ports scan 10 event_id seen_funded)
        none
        hashes
        (asks_withdrawal withdrawal)
        funded).0
handle_movement-IsSound_example =
    Safety.handle_movement-IsSound scan 10 event_id seen_funded none hashes (λ p id s e. cc)
      (asks_withdrawal withdrawal) funded ((wallet_account-clean, refl), tt) (λ b a e f. refl)
      (funded-IsSolvent, refl)
