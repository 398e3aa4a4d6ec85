-- ===== src/Application/Holds.antt =====
-- internal/ledger/application/wallet: create_hold.go, capture_hold.go, release_hold.go and
-- expire_hold.go. `now` is `time.Now().UTC()`.
use distributed_wallet_ledge.Prelude.{
  ℤ, pos, not, ◌||◌, ltb_ℤ, eqb_ℤ, ◌=text◌, [], ◌∷◌, Text, trim_space, is_empty, if◌then◌else◌,
}
use distributed_wallet_ledge.Errors.{
  Result, ok, err, ◌>>=◌, ◌>>◌, fail_if, invalid_id, amount_must_not_be_negative,
  amount_must_be_positive, empty_idempotency_key, empty_request_hash, capture_same_account,
  hold_not_authorized,
}
use distributed_wallet_ledge.Domain.Ids.{
  HoldId, WalletId, AccountId, TransactionId, JournalEntryId, PostingId, is_zero,
}
use distributed_wallet_ledge.Domain.Money.{new_money}
use distributed_wallet_ledge.Domain.Posting.{debit, credit, new_posting}
use distributed_wallet_ledge.Domain.JournalEntry.{new_journal_entry}
use distributed_wallet_ledge.Domain.Transaction.{Transaction, new_transaction}
use distributed_wallet_ledge.Domain.Wallet.{Wallet, can_operate}
use distributed_wallet_ledge.Domain.Hold
use distributed_wallet_ledge.Domain.Hold.{
  Hold, HoldStatus, Time, is_authorized, is_captured, new_hold, released, expired,
}

-- A port that acts on the state and answers, and how two such calls follow one another: the state
-- that the first leaves is kept also when it fails.
abbrev pub Port {ℓ} : Type ℓ → Type 0 → Type ℓ
Port S A = S → S × Result A

abbrev pub then_call {ℓ} :
    {S : Type ℓ} {A B : Type 0} → S × Result A → (A → Port S B) → S × Result B
then_call (s, ok a) next = next a s
then_call (s, err e) next = (s, err e)

-- A call after a part that only computes.
abbrev pub computed {ℓ} : {S : Type ℓ} {A B : Type 0} → Result A → (A → Port S B) → Port S B
computed (ok a) next s = next a s
computed (err e) next s = (s, err e)

abbrev pub answer {ℓ} : {S : Type ℓ} {A : Type 0} → A → Port S A
answer a s = (s, ok a)

pub record CreateHoldCommand : Type 0 where
  pub id : HoldId
  pub wallet_id : WalletId
  pub amount_minor_units : ℤ
  pub expires_at : Time
  pub idempotency_key : Text
  pub request_hash : Text

pub record CaptureHoldCommand : Type 0 where
  pub hold_id : HoldId
  pub settlement_account_id : AccountId
  pub transaction_id : TransactionId
  pub journal_entry_id : JournalEntryId
  pub wallet_posting_id : PostingId
  pub settlement_posting_id : PostingId
  pub description : Text
  pub idempotency_key : Text
  pub request_hash : Text

-- The guards of `CreateHoldUseCase.Execute`, and the hold that it makes for the wallet found.
unfoldable pub check_create : CreateHoldCommand → Result (Unit {0})
check_create c = do
  fail_if (is_zero c.id || is_zero c.wallet_id) invalid_id
  fail_if (ltb_ℤ c.amount_minor_units (pos 0)) amount_must_not_be_negative
  fail_if (eqb_ℤ c.amount_minor_units (pos 0)) amount_must_be_positive
  fail_if (is_empty (trim_space c.idempotency_key)) empty_idempotency_key
  fail_if (is_empty (trim_space c.request_hash)) empty_request_hash

unfoldable pub hold_for : Time → CreateHoldCommand → Wallet → Result Hold
hold_for now c w = do
  can_operate w
  money ← new_money w.currency c.amount_minor_units
  new_hold c.id c.wallet_id money now c.expires_at

unfoldable pub create_hold {ℓ} :
    {S : Type ℓ}
    → (WalletId → Port S Wallet)
    → (Hold → Text → Text → Port S Hold)
    → Time
    → CreateHoldCommand
    → Port S Hold
unfolding check_create hold_for
create_hold get_wallet authorize now c = computed (check_create c) (λ _ s.
    then_call (get_wallet c.wallet_id s) (λ w.
      computed (hold_for now c w)
        (λ hold. authorize hold (trim_space c.idempotency_key) (trim_space c.request_hash))))

unfoldable pub check_capture : CaptureHoldCommand → Result (Unit {0})
check_capture c = do
  fail_if (is_zero c.hold_id || is_zero c.settlement_account_id) invalid_id
  fail_if
      (is_zero c.transaction_id
        || is_zero c.journal_entry_id
        || is_zero c.wallet_posting_id
        || is_zero c.settlement_posting_id)
      invalid_id
  fail_if (is_empty (trim_space c.idempotency_key)) empty_idempotency_key
  fail_if (is_empty (trim_space c.request_hash)) empty_request_hash

-- `hold.Capture`, or the hold as it is if it has been captured.
unfoldable pub captured_hold : Time → Hold → Result Hold
captured_hold now hold =
    let (hold', done) = Hold.capture hold now in
    if is_authorized hold.status
    then (do done; ok hold')
    else (do fail_if (not (is_captured hold.status)) hold_not_authorized; ok hold)

-- The hold after the capture and the transaction that pays it.
unfoldable pub payment : Time → CaptureHoldCommand → Hold → Wallet → Result (Hold × Transaction)
payment now c hold w = do
  can_operate w
  fail_if (w.ledger_account_id =text c.settlement_account_id) capture_same_account
  hold' ← captured_hold now hold
  wallet_posting ← new_posting c.wallet_posting_id w.ledger_account_id debit hold'.amount
  settlement_posting ←
      new_posting c.settlement_posting_id c.settlement_account_id credit hold'.amount
  journal_entry ←
      new_journal_entry c.journal_entry_id c.transaction_id hold'.amount.currency
        (wallet_posting ∷ settlement_posting ∷ [])
  posted_transaction ← new_transaction c.transaction_id c.description journal_entry
  ok (hold', posted_transaction)

unfoldable pub capture_hold {ℓ} :
    {S : Type ℓ}
    → (HoldId → Port S Hold)
    → (WalletId → Port S Wallet)
    → (HoldId → Transaction → Text → Text → Port S (Unit {0}))
    → Time
    → CaptureHoldCommand
    → Port S (Hold × Transaction)
unfolding check_capture payment
capture_hold get_hold get_wallet capture now c = computed (check_capture c) (λ _ s.
    then_call (get_hold c.hold_id s) (λ hold s₁. then_call (get_wallet hold.wallet_id s₁) (λ w.
      computed (payment now c hold w) (λ r s₂.
        then_call (capture r.0.id r.1 (trim_space c.idempotency_key) (trim_space c.request_hash) s₂)
          (λ _. answer r)))))

abbrev pub moved : Hold × Result (Unit {0}) → Result Hold
moved (hold, done) = do done; ok hold

unfoldable pub release_hold {ℓ} :
    {S : Type ℓ}
    → (HoldId → Port S Hold)
    → (HoldId → HoldStatus → Port S (Unit {0}))
    → Time
    → HoldId
    → Port S Hold
release_hold get_hold update_status now hold_id =
    computed (fail_if (is_zero hold_id) invalid_id) (λ _ s. then_call (get_hold hold_id s) (λ found.
      computed (moved (Hold.release found now))
        (λ hold s₁. then_call (update_status hold.id released s₁) (λ _. answer hold))))

unfoldable pub expire_hold {ℓ} :
    {S : Type ℓ}
    → (HoldId → Port S Hold)
    → (HoldId → HoldStatus → Port S (Unit {0}))
    → Time
    → HoldId
    → Port S Hold
expire_hold get_hold update_status now hold_id =
    computed (fail_if (is_zero hold_id) invalid_id) (λ _ s. then_call (get_hold hold_id s) (λ found.
      computed (moved (Hold.expire found now))
        (λ hold s₁. then_call (update_status hold.id expired s₁) (λ _. answer hold))))
