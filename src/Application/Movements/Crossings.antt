-- ===== src/Application/Movements/Crossings.antt =====
-- Deposits, withdrawals and transfers as requests for a movement, and what posting such a movement
-- comes to.
use distributed_wallet_ledge.Prelude.{
  ℕ, ◌+◌, ◌<◌, ◌≡◌, refl, ap, subst, ◌∙◌, Bool, false, ◌&&◌, ℤ, pos, pos_part, negsuc, ◌=text◌,
  List, [], ◌∷◌, map, Option, none, some, Text, if◌then◌else◌, arith,
}
use distributed_wallet_ledge.Errors.{Result, ok, err}
use distributed_wallet_ledge.Domain.Ids.{WalletId, AccountId}
use distributed_wallet_ledge.Domain.Posting.{
  Posting, PostingDirection, debit, credit, is_debit, is_credit,
}
use distributed_wallet_ledge.Domain.Transaction.{Transaction}
use distributed_wallet_ledge.Domain.Transaction.Mirror.{account_sum}
use distributed_wallet_ledge.Domain.Transaction.Validity.{IsValid}
use distributed_wallet_ledge.Domain.Wallet.{Wallet, can_operate}
use distributed_wallet_ledge.Application.Balance.{WalletBalance}
use distributed_wallet_ledge.Application.Holds.{Port}
use distributed_wallet_ledge.Application.PostTransaction.{
  PostingCommand, PostTransactionCommand, LedgerRepository, prepare, returned, posted_by, execute,
}
use distributed_wallet_ledge.Application.Soundness.{asked, prepare-Prepared}
use distributed_wallet_ledge.Application.Movements.{
  MovementPorts, DepositWalletCommand, WithdrawWalletCommand, TransferWalletCommand, check_amount,
  check_deposit, check_withdrawal, check_transfer, as_funds, project, deposit, withdraw, transfer,
}

-- A request to one of the three use cases.
pub data Movement : Type 0 where
  deposits : DepositWalletCommand → Movement
  withdraws : WithdrawWalletCommand → Movement
  transfers : TransferWalletCommand → Movement

abbrev pub amount_of : Movement → ℤ
amount_of (deposits c) = c.amount_minor_units
amount_of (withdraws c) = c.amount_minor_units
amount_of (transfers c) = c.amount_minor_units

abbrev pub move {ℓ} :
    {S : Type ℓ}
    → MovementPorts S
    → Option (WalletId → Port S WalletBalance)
    → Movement
    → Port S Transaction
move ports projector (deposits c) = deposit ports c
move ports projector (withdraws c) = withdraw ports projector c
move ports projector (transfers c) = transfer ports c

-- An account is that of a wallet which was read and may operate.
abbrev pub IsRead {ℓ} : {S : Type ℓ} → MovementPorts S → WalletId → AccountId → Type ℓ
IsRead {S = S} ports id a =
    (s s' : S) × (w : Wallet) × (ports.get_by_id id s ≡ (s', ok w))
    × (can_operate w ≡ ok tt)
    × (w.ledger_account_id ≡ a)

-- The accounts that pay and are paid.
abbrev pub Names {ℓ} : {S : Type ℓ} → MovementPorts S → Movement → AccountId → AccountId → Type ℓ
Names ports (deposits c) payer payee =
    (payer ≡ c.clearing_account_id) × IsRead ports c.wallet_id payee
Names ports (withdraws c) payer payee =
    IsRead ports c.wallet_id payer × (payee ≡ c.clearing_account_id)
Names ports (transfers c) payer payee =
    IsRead ports c.source_wallet_id payer × IsRead ports c.destination_wallet_id payee

-- A transaction that moves `amount` from one account to another and touches no third.
pub record Moves (amount : ℤ) (payer payee : AccountId) (t : Transaction) : Type 0 where
  pub valid : IsValid t
  pub different : (payer =text payee) ≡ false
  pub units : ℕ
  pub amount_is : amount ≡ pos units
  pub positive : 0 < units
  pub debited :
      (a : AccountId)
      → account_sum is_debit a t.journal_entry.postings ≡ (if payer =text a then units else 0)
  pub credited :
      (a : AccountId)
      → account_sum is_credit a t.journal_entry.postings ≡ (if payee =text a then units else 0)

-- The sum that a command asks for.
abbrev pub asked_sum : (PostingDirection → Bool) → AccountId → List PostingCommand → ℕ
asked_sum counts a [] = 0
asked_sum counts a (c ∷ cs) =
    (if c.account_id =text a && counts c.direction then pos_part c.amount_minor_units else 0)
    + asked_sum counts a cs

pub account_sum-asked :
    (counts : PostingDirection → Bool) (a : AccountId) (ps : List Posting)
    → account_sum counts a ps ≡ asked_sum counts a (map asked ps)
account_sum-asked counts a [] = refl
account_sum-asked counts a (p ∷ ps) =
    ap
      (λ (n : ℕ).
        (if p.account_id =text a && counts p.direction
          then pos_part p.amount.amount_minor_units
          else 0)
        + n)
      (account_sum-asked counts a ps)

pub positive_amount : (z : ℤ) → check_amount z ≡ ok tt → (n : ℕ) × (z ≡ pos n) × (0 < n)
positive_amount (pos n) h = (n, refl, ground arith)
positive_amount (negsuc n) h = absurd (ground arith)

pub returned-eq-ok {ℓ} :
    {S : Type ℓ} (u t : Transaction) (out : S × Result (Unit {0})) (s' : S)
    → returned u out ≡ (s', ok t)
    → u ≡ t
returned-eq-ok u t (s, ok x) s' h = cc
returned-eq-ok u t (s, err e) s' h = cc

pub posted_by-eq-ok {ℓ} :
    {S : Type ℓ} (ledger : LedgerRepository S) (r : Result (Transaction × Text × Text)) (s s' : S)
    (t : Transaction)
    → posted_by ledger r s ≡ (s', ok t)
    → (key : Text) × (hash : Text) × (r ≡ ok (t, key, hash))
posted_by-eq-ok ledger (err e) s s' t h = cc
posted_by-eq-ok ledger (ok (u, key, hash)) s s' t h =
    (key, hash, ap (λ v. ok (v, key, hash)) (returned-eq-ok u t (ledger u key hash s) s' h))

pub returned-done {ℓ} :
    {S : Type ℓ} (u t : Transaction) (out : S × Result (Unit {0})) (s' : S)
    → returned u out ≡ (s', ok t)
    → out ≡ (s', ok tt)
returned-done u t (s, ok x) s' h = ap (λ r. (r, ok tt)) (ap (λ o. o.0) h)
returned-done u t (s, err e) s' h = cc

-- The ledger has taken the transaction under some key and hash, and the state was then this.
abbrev pub Takes {ℓ} : {S : Type ℓ} → LedgerRepository S → Transaction → S → Type ℓ
Takes {S = S} ledger t s' =
    (start : S) × (key : Text) × (hash : Text) × (ledger t key hash start ≡ (s', ok tt))

posted_by-Takes {ℓ} :
    {S : Type ℓ} (ledger : LedgerRepository S) (r : Result (Transaction × Text × Text)) (s s' : S)
    (t : Transaction)
    → posted_by ledger r s ≡ (s', ok t)
    → Takes ledger t s'
posted_by-Takes ledger (err e) s s' t h = cc
posted_by-Takes ledger (ok (u, key, hash)) s s' t h =
    let call = returned-done u t (ledger u key hash s) s' h in
    let same = returned-eq-ok u t (ledger u key hash s) s' h in
    (s, key, hash, subst (λ v. ledger v key hash s ≡ (s', ok tt)) same call)

pub execute-Takes {ℓ} :
    {S : Type ℓ} (ledger : LedgerRepository S) (c : PostTransactionCommand) (s s' : S)
    (t : Transaction)
    → execute ledger c s ≡ (s', ok t)
    → Takes ledger t s'
unfolding execute
execute-Takes ledger c s s' t h = posted_by-Takes ledger (prepare c) s s' t h

-- What is left to do after the posting: a withdrawal calls the projector, if there is one.
abbrev pub projected {ℓ} :
    {S : Type ℓ} → Option (WalletId → Port S WalletBalance) → Movement → S → S
projected (some projector) (withdraws c) s = (projector c.wallet_id s).0
projected _ _ s = s

-- A posting command with a debit of one account and a credit of another, both of the amount.
abbrev pub Crosses : ℤ → AccountId → AccountId → PostTransactionCommand → Type 0
Crosses z payer payee c =
    (i j : Text) × (c.postings
      ≡ (record { id = i; account_id = payer; direction = debit; amount_minor_units = z })
        ∷ (record { id = j; account_id = payee; direction = credit; amount_minor_units = z })
        ∷ [])

pub execute-Moves {ℓ} :
    {S : Type ℓ} (ledger : LedgerRepository S) (c : PostTransactionCommand) (s s' : S)
    (t : Transaction) (z : ℤ) (payer payee : AccountId)
    → execute ledger c s ≡ (s', ok t)
    → Crosses z payer payee c
    → (payer =text payee) ≡ false
    → check_amount z ≡ ok tt
    → Moves z payer payee t
unfolding execute
execute-Moves ledger c s s' t z payer payee h (i, j, crosses) different amount =
    let (n, is_n, above) = positive_amount z amount in
    let (key, hash, made) = posted_by-eq-ok ledger (prepare c) s s' t h in
    let p = prepare-Prepared c t key hash made in
    let sums = λ (counts : PostingDirection → Bool) (a : AccountId).
      account_sum-asked counts a t.journal_entry.postings
      ∙ ap (asked_sum counts a) (p.same_postings ∙ crosses) in
    record {
      valid = p.valid;
      different = different;
      units = n;
      amount_is = is_n;
      positive = above;
      debited = λ a. ground (arith, sums is_debit a, is_n);
      credited = λ a. ground (arith, sums is_credit a, is_n);
    }

pub as_funds-eq-ok {ℓ} :
    {S : Type ℓ} {A : Type 0} (out : S × Result A) (s' : S) (a : A)
    → as_funds out ≡ (s', ok a)
    → out ≡ (s', ok a)
as_funds-eq-ok (s, ok b) s' a h = h
as_funds-eq-ok (s, err e) s' a h = cc

pub check_deposit-amount :
    (c : DepositWalletCommand) → check_deposit c ≡ ok tt → check_amount c.amount_minor_units ≡ ok tt
unfolding check_deposit
check_deposit-amount c h = ground arith

pub check_withdrawal-amount :
    (c : WithdrawWalletCommand)
    → check_withdrawal c ≡ ok tt
    → check_amount c.amount_minor_units ≡ ok tt
unfolding check_withdrawal
check_withdrawal-amount c h = ground arith

pub check_transfer-amount :
    (c : TransferWalletCommand)
    → check_transfer c ≡ ok tt
    → check_amount c.amount_minor_units ≡ ok tt
unfolding check_transfer
check_transfer-amount c h = ground arith

pub project-eq-ok {ℓ} :
    {S : Type ℓ} (projector : Option (WalletId → Port S WalletBalance)) (id : WalletId)
    (t t' : Transaction) (s s' : S)
    → project projector id t s ≡ (s', ok t')
    → t ≡ t'
project-eq-ok none id t t' s s' h = cc
project-eq-ok (some p) id t t' s s' h = cc
