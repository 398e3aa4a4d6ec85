-- ===== src/Adapters/Http/Movements/Outcomes.antt =====
-- What a request for a deposit, a withdrawal or a transfer can come to.
use distributed_wallet_ledge.Prelude.{
  ◌≤◌, ◌<◌, ◌≡◌, refl, true, false, ◌⊎◌, inl, inr, Text, Option, is_empty, Bool-cases, arith,
}
use distributed_wallet_ledge.Errors.{Error, Result, ok, err, Result-cases}
use distributed_wallet_ledge.Domain.Ids.{WalletId, new_id}
use distributed_wallet_ledge.Domain.Transaction.{Transaction}
use distributed_wallet_ledge.Application.Balance.{WalletBalance}
use distributed_wallet_ledge.Application.Holds.{Port}
use distributed_wallet_ledge.Application.Movements.{MovementPorts, deposit, withdraw, transfer}
use distributed_wallet_ledge.Application.Movements.Crossings.{
  Movement, deposits, withdraws, transfers, move,
}
use distributed_wallet_ledge.Adapters.Http.Errors.{ErrorMapping, map_application_error}
use distributed_wallet_ledge.Adapters.Http.Handling.{
  HttpRequest, Response, failed, Handler, reply, status_created, method_not_allowed, missing_key,
  invalid_request,
}
use distributed_wallet_ledge.Adapters.Http.Movements.{
  DepositWalletRequest, WithdrawWalletRequest, TransferWalletRequest, TransactionResponse,
  transaction_response, deposit_of, withdrawal_of, transfer_of, handle, handle_deposit,
  handle_withdraw, handle_transfer,
}

-- The answer is an error of the client, and nothing has changed.
abbrev pub Refused {ℓ} : {S : Type ℓ} {A : Type 0} → S → S × Response A → Type ℓ
Refused s x =
    (m : ErrorMapping) × (x ≡ (s, failed m)) × (400 ≤ m.status_code) × (m.status_code < 500)

-- The command comes from a `POST` with a key and a body that reads.
pub record Sent {B C : Type 0} (hash : B → Text)
    (command_of : WalletId → Text → Text → B → Result C) (r : HttpRequest B) (c : C) : Type 0 where
  pub wallet_id : WalletId
  pub request : B
  pub posts : r.is_post ≡ true
  pub keyed : is_empty r.idempotency_key ≡ false
  pub named : new_id r.url_param ≡ ok wallet_id
  pub reads : r.body ≡ ok request
  pub asks : command_of wallet_id r.idempotency_key (hash request) request ≡ ok c

new_id-status :
    (t : Text) (e : Error) → new_id t ≡ err e → (map_application_error e).status_code ≡ 400
unfolding new_id map_application_error
new_id-status t e h = ground arith

handle-outcome {ℓ} :
    {S : Type ℓ} {B C : Type 0} (hash : B → Text)
    (command_of : WalletId → Text → Text → B → Result C) (execute : C → Port S Transaction)
    (r : HttpRequest B) (s : S)
    → ((w : WalletId) (k h : Text) (b : B) (e : Error)
        → command_of w k h b ≡ err e
        → (map_application_error e).status_code ≡ 400)
    → Refused s (handle hash command_of execute r s)
      ⊎ ((c : C) × Sent hash command_of r c
          × (handle hash command_of execute r s
              ≡ reply status_created transaction_response (execute c s)))
handle-outcome hash command_of execute r s client = elim (Bool-cases r.is_post) [
  | inr other ↦ inl (method_not_allowed, rw other refl, omega arith, omega arith)
  | inl posts ↦ elim (Result-cases (new_id r.url_param)) [
    | inr (e, bad) ↦
        let status = new_id-status r.url_param e bad in
        inl (
          map_application_error e,
          rw (posts, bad) refl,
          omega (arith, status),
          omega (arith, status),
        )
    | inl (w, named) ↦ elim (Bool-cases (is_empty r.idempotency_key)) [
      | inl missing ↦ inl (missing_key, rw (posts, named, missing) refl, omega arith, omega arith)
      | inr keyed ↦ elim (Result-cases r.body) [
        | inr (e, bad) ↦
            inl (invalid_request, rw (posts, named, keyed, bad) refl, omega arith, omega arith)
        | inl (request, reads) ↦
            elim (Result-cases (command_of w r.idempotency_key (hash request) request)) [
              | inr (e, bad) ↦
                  let status = client w r.idempotency_key (hash request) request e bad in
                  inl (
                    map_application_error e,
                    rw (posts, named, keyed, reads, bad) refl,
                    omega (arith, status),
                    omega (arith, status),
                  )
              | inl (c, asks) ↦ inr (
                c,
                record {
                  wallet_id = w;
                  request = request;
                  posts = posts;
                  keyed = keyed;
                  named = named;
                  reads = reads;
                  asks = asks;
                },
                rw (posts, named, keyed, reads, asks) refl,
              )
            ]
      ]
    ]
  ]
]

deposit_of-status :
    (w : WalletId) (k h : Text) (b : DepositWalletRequest) (e : Error)
    → deposit_of w k h b ≡ err e
    → (map_application_error e).status_code ≡ 400
unfolding deposit_of new_id map_application_error
deposit_of-status w k h b e refused = ground arith

withdrawal_of-status :
    (w : WalletId) (k h : Text) (b : WithdrawWalletRequest) (e : Error)
    → withdrawal_of w k h b ≡ err e
    → (map_application_error e).status_code ≡ 400
unfolding withdrawal_of new_id map_application_error
withdrawal_of-status w k h b e refused = ground arith

transfer_of-status :
    (w : WalletId) (k h : Text) (b : TransferWalletRequest) (e : Error)
    → transfer_of w k h b ≡ err e
    → (map_application_error e).status_code ≡ 400
unfolding transfer_of new_id map_application_error
transfer_of-status w k h b e refused = ground arith

pub data MovementRequest : Type 0 where
  asks_deposit : HttpRequest DepositWalletRequest → MovementRequest
  asks_withdrawal : HttpRequest WithdrawWalletRequest → MovementRequest
  asks_transfer : HttpRequest TransferWalletRequest → MovementRequest

-- The hashes of the three kinds of body.
pub record Hashes : Type 0 where
  pub of_deposit : DepositWalletRequest → Text
  pub of_withdrawal : WithdrawWalletRequest → Text
  pub of_transfer : TransferWalletRequest → Text

-- The command that a request is for.
abbrev pub IsFor : Hashes → MovementRequest → Movement → Type 0
IsFor hashes (asks_deposit r) (deposits c) = Sent hashes.of_deposit deposit_of r c
IsFor hashes (asks_withdrawal r) (withdraws c) = Sent hashes.of_withdrawal withdrawal_of r c
IsFor hashes (asks_transfer r) (transfers c) = Sent hashes.of_transfer transfer_of r c
IsFor hashes _ _ = ⊥

module _ {ℓ} {S : Type ℓ} (ports : MovementPorts S)
    (projector : Option (WalletId → Port S WalletBalance)) (hashes : Hashes) where
  -- The handler for a request.
  abbrev pub handle_movement : MovementRequest → Handler S TransactionResponse
  handle_movement (asks_deposit r) = handle_deposit ports hashes.of_deposit r
  handle_movement (asks_withdrawal r) = handle_withdraw ports projector hashes.of_withdrawal r
  handle_movement (asks_transfer r) = handle_transfer ports hashes.of_transfer r

  -- A request for a deposit, a withdrawal or a transfer has one of two outcomes. Either nothing has
  -- changed and the answer is an error with a status from 400 to 499, or it was a `POST` with a key,
  -- an identifier and a body that read as a command, and the answer is the use case's on that command:
  -- the transaction with status 201, or its error.
  pub handle_movement-outcome :
      (m : MovementRequest) (s : S)
      → Refused s (handle_movement m s)
        ⊎ ((c : Movement) × IsFor hashes m c
            × (handle_movement m s
                ≡ reply status_created transaction_response (move ports projector c s)))
  unfolding handle_deposit handle_withdraw handle_transfer
  handle_movement-outcome (asks_deposit r) s =
      elim (handle-outcome hashes.of_deposit deposit_of (deposit ports) r s deposit_of-status) [
        | inl refused ↦ inl refused
        | inr (c, sent, answered) ↦ inr (deposits c, sent, answered)
      ]
  handle_movement-outcome (asks_withdrawal r) s =
      elim (handle-outcome hashes.of_withdrawal withdrawal_of (withdraw ports projector) r s
        withdrawal_of-status) [
          | inl refused ↦ inl refused
          | inr (c, sent, answered) ↦ inr (withdraws c, sent, answered)
        ]
  handle_movement-outcome (asks_transfer r) s =
      elim (handle-outcome hashes.of_transfer transfer_of (transfer ports) r s transfer_of-status) [
        | inl refused ↦ inl refused
        | inr (c, sent, answered) ↦ inr (transfers c, sent, answered)
      ]
