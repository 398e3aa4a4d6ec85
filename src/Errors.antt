-- ===== src/Errors.antt =====
-- Go's `error` values and the pair `(T, error)`: the sentinel errors of domain/errors.go,
-- application/wallet/errors.go, application/wallet/balance.go, application/transaction,
-- application/account/list_entries.go, application/saga/ports.go, platform/httpx and
-- platform/resilience, and the wrappings that `fmt.Errorf` makes.
use distributed_wallet_ledge.Prelude.{
  ℕ, ◌≡◌, refl, ◌⊎◌, inl, inr, Bool, true, false, Option, none, some,
}

pub data Error : Type 0 where
  invalid_id invalid_currency currency_mismatch : Error
  amount_must_not_be_negative amount_must_be_positive amount_overflow : Error
  invalid_account invalid_account_status empty_account_code empty_account_name : Error
  account_closed account_already_closed : Error
  invalid_posting_direction : Error
  journal_entry_without_postings journal_entry_without_debit : Error
  journal_entry_without_credit unbalanced_journal_entry : Error
  empty_transaction_description transaction_journal_entry_mismatch : Error
  cannot_reverse_reversal reversal_same_transaction_id : Error
  invalid_reversal_posting_id_count : Error
  invalid_wallet_status empty_wallet_owner_id : Error
  wallet_suspended wallet_closed wallet_already_suspended wallet_already_closed : Error
  invalid_hold_status hold_not_authorized hold_expired hold_not_expired : Error
  invalid_hold_timestamp invalid_hold_expiration : Error
  invalid_event_status empty_aggregate_type empty_aggregate_id empty_event_type : Error
  empty_event_payload event_already_processed : Error
  empty_idempotency_key empty_request_hash : Error
  hold_not_found hold_idempotency_conflict capture_same_account wallet_not_found : Error
  insufficient_funds withdrawal_same_account deposit_same_account : Error
  transfer_same_wallet transfer_same_account : Error
  invalid_balance_snapshot : Error
  idempotency_key_conflict insufficient_balance transaction_not_found : Error
  invalid_page_size invalid_request_body multiple_json_values : Error
  external_payment_failed anti_fraud_rejected saga_compensation_failed : Error
  circuit_breaker_open : Error
  -- What PostgreSQL answers when a constraint of the schema fails, and when a sum is no BIGINT.
  unique_violation foreign_key_violation check_violation bigint_out_of_range : Error
  -- `fmt.Errorf` with a text and no error inside; the text is left out.
  message : Error
  -- An error of code outside the repository, told apart by a number.
  external : ℕ → Error
  -- `fmt.Errorf("…: %w", err)`: the error that `errors.Is` finds inside; the text is left out.
  wrapped : Error → Error

pub data Result {ℓ} (A : Type ℓ) : Type ℓ where
  ok : A → Result A
  err : Error → Result A

-- A statement and those that follow when it has not failed.
infixl 5 ◌>>=◌ ◌>>◌
abbrev pub ◌>>=◌ {ℓ κ} : {X : Type ℓ} {Y : Type κ} → Result X → (X → Result Y) → Result Y
ok value >>= next = next value
err failure >>= next = err failure

-- `if b { return err }`.
abbrev pub fail_if : Bool → Error → Result (Unit {0})
fail_if false e = ok tt
fail_if true e = err e

abbrev pub ◌>>◌ {ℓ} : {Y : Type ℓ} → Result (Unit {0}) → Result Y → Result Y
first >> next = first >>= λ _. next

-- `fmt.Errorf("…: %w", err)` on the error, if there is one.
abbrev pub wrap_error {ℓ} : {A : Type ℓ} → Result A → Result A
wrap_error (ok a) = ok a
wrap_error (err e) = err (wrapped e)

-- `errors.Is(err, transaction.ErrInsufficientBalance)`.
unfoldable pub is_insufficient_balance : Error → Bool
is_insufficient_balance insufficient_balance = true
is_insufficient_balance (wrapped e) = is_insufficient_balance e
is_insufficient_balance _ = false

-- An `Option` where the code returns an error for what is missing.
abbrev pub or_fail {ℓ} : {A : Type ℓ} → Option A → Error → Result A
or_fail none e = err e
or_fail (some a) e = ok a

-- A method with a pointer receiver that assigns only when nothing has failed.
abbrev pub assign : {S : Type 0} → S → Result S → S × Result (Unit {0})
assign s (ok s') = (s', ok tt)
assign s (err e) = (s, err e)

pub Result-cases {ℓ} :
    {A : Type ℓ} (m : Result A) → ((a : A) × (m ≡ ok a)) ⊎ ((e : Error) × (m ≡ err e))
Result-cases (ok a) = inl (a, refl)
Result-cases (err e) = inr (e, refl)

pub >>=-eq-ok {ℓ κ} :
    {X : Type ℓ} {Y : Type κ} (first : Result X) (next : X → Result Y) {y : Y}
    → (first >>= next) ≡ ok y
    → (x : X) × (first ≡ ok x) × (next x ≡ ok y)
>>=-eq-ok (err failure) next h = cc
>>=-eq-ok (ok value) next h = (value, refl, h)

pub fail_if-eq-ok : (b : Bool) (e : Error) → fail_if b e ≡ ok tt → b ≡ false
fail_if-eq-ok true e h = cc
fail_if-eq-ok false e h = refl

-- A constructor that returns its value when the value passes its check.
pub checked-eq-ok {ℓ} :
    {A : Type ℓ} (m : Result (Unit {0})) (x r : A) → (m >> ok x) ≡ ok r → (m ≡ ok tt) × (x ≡ r)
checked-eq-ok (ok u) x r h = (refl, cc)
checked-eq-ok (err e) x r h = cc

pub wrap_error-eq-ok {ℓ} : {A : Type ℓ} (m : Result A) (a : A) → wrap_error m ≡ ok a → m ≡ ok a
wrap_error-eq-ok (ok b) a h = h
wrap_error-eq-ok (err e) a h = cc

pub ok-injective {ℓ} : {A : Type ℓ} {x y : A} → ok x ≡ ok y → x ≡ y
ok-injective h = cc

pub or_fail-eq-ok {ℓ} :
    {A : Type ℓ} (o : Option A) (e : Error) (a : A) → or_fail o e ≡ ok a → o ≡ some a
or_fail-eq-ok none e a h = cc
or_fail-eq-ok (some b) e a h = cc
