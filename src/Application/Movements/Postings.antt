-- ===== src/Application/Movements/Postings.antt =====
-- What the transactions of deposits, withdrawals and transfers post.
use distributed_wallet_ledge.Prelude.{
  ◌≡◌, refl, sym, ap, ◌∙◌, false, not, ℤ, ◌=text◌, =text_comm, Option, none, some,
}
use distributed_wallet_ledge.Errors.{
  ok, fail_if, >>=-eq-ok, fail_if-eq-ok, deposit_same_account, withdrawal_same_account,
  currency_mismatch, transfer_same_account,
}
use distributed_wallet_ledge.Domain.Ids.{WalletId, AccountId}
use distributed_wallet_ledge.Domain.Currency
use distributed_wallet_ledge.Domain.Transaction.{Transaction}
use distributed_wallet_ledge.Domain.Wallet.{can_operate}
use distributed_wallet_ledge.Application.Balance.{WalletBalance}
use distributed_wallet_ledge.Application.Holds.{Port}
use distributed_wallet_ledge.Application.Ports.{then_call-eq-ok, computed-eq-ok}
use distributed_wallet_ledge.Application.PostTransaction.{
  PostTransactionCommand, LedgerRepository, execute,
}
use distributed_wallet_ledge.Application.Movements.{
  MovementPorts, DepositWalletCommand, WithdrawWalletCommand, TransferWalletCommand, check_amount,
  check_deposit, check_withdrawal, check_transfer, can_deposit, can_withdraw, can_transfer,
  has_funds, deposit_command, project, withdrawal_command, transfer_command, as_funds, deposit,
  withdraw, transfer,
}
use distributed_wallet_ledge.Application.Movements.Crossings.{
  Movement, amount_of, move, Names, Moves, Crosses, execute-Moves, execute-Takes, Takes, projected,
  as_funds-eq-ok, check_deposit-amount, check_withdrawal-amount, check_transfer-amount,
  project-eq-ok, deposits, withdraws, transfers,
}

module _ {ℓ} {S : Type ℓ} (ports : MovementPorts S) where
  open ports use {get_by_id, get_ledger_balance, post}

  -- What a successful deposit, withdrawal or transfer has done before it posts, and what it posts.
  pub record IsMoved (z : ℤ) (t : Transaction) : Type ℓ where
    pub payer : AccountId
    pub payee : AccountId
    pub command : PostTransactionCommand
    pub start : S
    pub finish : S
    pub posted : post command start ≡ (finish, ok t)
    pub crosses : Crosses z payer payee command
    pub different : (payer =text payee) ≡ false
    pub amount_checked : check_amount z ≡ ok tt

  deposit-eq-ok :
      (c : DepositWalletCommand) (s s' : S) (t : Transaction)
      → deposit ports c s ≡ (s', ok t)
      → (m : IsMoved c.amount_minor_units t) × Names ports (deposits c) m.payer m.payee
        × (s' ≡ m.finish)
  unfolding deposit can_deposit deposit_command
  deposit-eq-ok c s s' t h =
      let (_, checked, h₁) = computed-eq-ok (check_deposit c) _ s h in
      let (s₁, w, read, h₂) = then_call-eq-ok (get_by_id c.wallet_id s) _ h₁ in
      let (_, able, h₃) = computed-eq-ok (can_deposit c w) _ s₁ h₂ in
      let (_, operates, other) = >>=-eq-ok (can_operate w) _ able in
      (
        record {
          payer = c.clearing_account_id;
          payee = w.ledger_account_id;
          command = deposit_command c w;
          start = s₁;
          finish = s';
          posted = as_funds-eq-ok _ s' t h₃;
          crosses = (c.clearing_posting_id, c.wallet_posting_id, refl);
          different =
              =text_comm c.clearing_account_id w.ledger_account_id
              ∙ fail_if-eq-ok _ deposit_same_account other;
          amount_checked = check_deposit-amount c checked;
        },
        (refl, (s, s₁, w, read, operates, refl)),
        refl,
      )

  project-left :
      (projector : Option (WalletId → Port S WalletBalance)) (c : WithdrawWalletCommand)
      (t t' : Transaction) (s s' : S)
      → project projector c.wallet_id t s ≡ (s', ok t')
      → s' ≡ projected projector (withdraws c) s
  project-left none c t t' s s' h = ap (λ o. o.0) (sym h)
  project-left (some p) c t t' s s' h = ap (λ o. o.0) (sym h)

  withdraw-eq-ok :
      (projector : Option (WalletId → Port S WalletBalance)) (c : WithdrawWalletCommand) (s s' : S)
      (t : Transaction)
      → withdraw ports projector c s ≡ (s', ok t)
      → (m : IsMoved c.amount_minor_units t) × Names ports (withdraws c) m.payer m.payee
        × (s' ≡ projected projector (withdraws c) m.finish)
  unfolding withdraw can_withdraw withdrawal_command
  withdraw-eq-ok projector c s s' t h =
      let (_, checked, h₁) = computed-eq-ok (check_withdrawal c) _ s h in
      let (s₁, w, read, h₂) = then_call-eq-ok (get_by_id c.wallet_id s) _ h₁ in
      let (_, able, h₃) = computed-eq-ok (can_withdraw c w) _ s₁ h₂ in
      let (s₂, snapshot, _, h₄) =
        then_call-eq-ok (get_ledger_balance w.ledger_account_id s₁) _ h₃ in
      let (_, _, h₅) = computed-eq-ok (has_funds c.amount_minor_units w snapshot) _ s₂ h₄ in
      let (s₃, t₁, taken, h₆) =
        then_call-eq-ok (as_funds (post (withdrawal_command c w) s₂)) _ h₅ in
      let same = project-eq-ok projector c.wallet_id t₁ t s₃ s' h₆ in
      let (_, operates, other) = >>=-eq-ok (can_operate w) _ able in
      (
        record {
          payer = w.ledger_account_id;
          payee = c.clearing_account_id;
          command = withdrawal_command c w;
          start = s₂;
          finish = s₃;
          posted = as_funds-eq-ok _ s₃ t (taken ∙ ap (λ u. (s₃, ok u)) same);
          crosses = (c.wallet_posting_id, c.clearing_posting_id, refl);
          different = fail_if-eq-ok _ withdrawal_same_account other;
          amount_checked = check_withdrawal-amount c checked;
        },
        ((s, s₁, w, read, operates, refl), refl),
        project-left projector c t₁ t s₃ s' h₆,
      )

  transfer-eq-ok :
      (c : TransferWalletCommand) (s s' : S) (t : Transaction)
      → transfer ports c s ≡ (s', ok t)
      → (m : IsMoved c.amount_minor_units t) × Names ports (transfers c) m.payer m.payee
        × (s' ≡ m.finish)
  unfolding transfer can_transfer transfer_command
  transfer-eq-ok c s s' t h =
      let (_, checked, h₁) = computed-eq-ok (check_transfer c) _ s h in
      let (s₁, source, read, h₂) = then_call-eq-ok (get_by_id c.source_wallet_id s) _ h₁ in
      let (s₂, destination, read₂, h₃) =
        then_call-eq-ok (get_by_id c.destination_wallet_id s₁) _ h₂ in
      let (_, able, h₄) = computed-eq-ok (can_transfer source destination) _ s₂ h₃ in
      let (s₃, snapshot, _, h₅) =
        then_call-eq-ok (get_ledger_balance source.ledger_account_id s₂) _ h₄ in
      let (_, _, h₆) = computed-eq-ok (has_funds c.amount_minor_units source snapshot) _ s₃ h₅ in
      let (_, pays, rest) = >>=-eq-ok (can_operate source) _ able in
      let (_, takes, rest₂) = >>=-eq-ok (can_operate destination) _ rest in
      let (_, _, other) =
        >>=-eq-ok
          (fail_if (not (Currency.equal source.currency destination.currency)) currency_mismatch) _
          rest₂ in
      (
        record {
          payer = source.ledger_account_id;
          payee = destination.ledger_account_id;
          command = transfer_command c source destination;
          start = s₃;
          finish = s';
          posted = as_funds-eq-ok _ s' t h₆;
          crosses = (c.source_posting_id, c.destination_posting_id, refl);
          different = fail_if-eq-ok _ transfer_same_account other;
          amount_checked = check_transfer-amount c checked;
        },
        ((s, s₁, source, read, pays, refl), (s₁, s₂, destination, read₂, takes, refl)),
        refl,
      )

  move-eq-ok :
      (projector : Option (WalletId → Port S WalletBalance)) (m : Movement) (s s' : S)
      (t : Transaction)
      → move ports projector m s ≡ (s', ok t)
      → (done : IsMoved (amount_of m) t) × Names ports m done.payer done.payee
        × (s' ≡ projected projector m done.finish)
  move-eq-ok none (deposits c) s s' t h = deposit-eq-ok c s s' t h
  move-eq-ok (some p) (deposits c) s s' t h = deposit-eq-ok c s s' t h
  move-eq-ok projector (withdraws c) s s' t h = withdraw-eq-ok projector c s s' t h
  move-eq-ok none (transfers c) s s' t h = transfer-eq-ok c s s' t h
  move-eq-ok (some p) (transfers c) s s' t h = transfer-eq-ok c s s' t h

-- A deposit, a withdrawal or a transfer that succeeds over `PostTransactionUseCase` has called the
-- ledger with the transaction that it answers, the ledger has taken it, and the state is the one that
-- this call left, after the projector of a withdrawal. It is a valid transaction which debits one account and credits another by exactly the amount, which is
-- positive, and posts to no third. The accounts are those of the wallets named, which were read and
-- may operate, and the clearing account of a deposit or a withdrawal; deposits debit it, and
-- withdrawals credit it.
pub move-Moves {ℓ} :
    {S : Type ℓ} (ports : MovementPorts S) (ledger : LedgerRepository S)
    (projector : Option (WalletId → Port S WalletBalance)) (m : Movement) (s s' : S)
    (t : Transaction)
    → ports.post ≡ execute ledger
    → move ports projector m s ≡ (s', ok t)
    → (payer payee : AccountId) × (finish : S) × Names ports m payer payee
      × Moves (amount_of m) payer payee t
      × Takes ledger t finish
      × (s' ≡ projected projector m finish)
move-Moves ports ledger projector m s s' t e h =
    let (d, names, left) = move-eq-ok ports projector m s s' t h in
    let posted : execute ledger d.command d.start ≡ (d.finish, ok t) =
      ap (λ p. p d.command d.start) (sym e) ∙ d.posted in
    (
      d.payer,
      d.payee,
      d.finish,
      names,
      execute-Moves ledger d.command d.start d.finish t (amount_of m) d.payer d.payee posted
          d.crosses d.different d.amount_checked,
      execute-Takes ledger d.command d.start d.finish t posted,
      left,
    )
