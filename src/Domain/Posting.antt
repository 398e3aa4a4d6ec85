-- ===== src/Domain/Posting.antt =====
-- internal/ledger/domain/posting.go and posting_direction.go.
use distributed_wallet_ledge.Prelude.{Bool, true, false, Text, []}
use distributed_wallet_ledge.Errors.{
  Result, ok, err, ◌>>◌, fail_if, invalid_posting_direction, invalid_id, amount_must_be_positive,
}
use distributed_wallet_ledge.Domain.Ids.{PostingId, AccountId, is_zero}
use distributed_wallet_ledge.Domain.Money
use distributed_wallet_ledge.Domain.Money.{Money}

-- A Go string type: the two constants, and `other s` for any other string.
pub data PostingDirection : Type 0 where
  debit credit : PostingDirection
  other : Text → PostingDirection

abbrev pub validate_direction : PostingDirection → Result (Unit {0})
validate_direction debit = ok tt
validate_direction credit = ok tt
validate_direction (other s) = err invalid_posting_direction

abbrev pub opposite : PostingDirection → PostingDirection
opposite debit = credit
opposite credit = debit
opposite (other s) = other []

abbrev pub is_debit : PostingDirection → Bool
is_debit debit = true
is_debit credit = false
is_debit (other s) = false

abbrev pub is_credit : PostingDirection → Bool
is_credit debit = false
is_credit credit = true
is_credit (other s) = false

pub record Posting : Type 0 where
  pub id : PostingId
  pub account_id : AccountId
  pub direction : PostingDirection
  pub amount : Money

unfoldable pub validate : Posting → Result (Unit {0})
validate p = do
  fail_if (is_zero p.id) invalid_id
  fail_if (is_zero p.account_id) invalid_id
  validate_direction p.direction
  Money.validate p.amount
  fail_if (Money.is_zero p.amount) amount_must_be_positive

unfoldable pub new_posting : PostingId → AccountId → PostingDirection → Money → Result Posting
new_posting id account_id direction amount = do
  let p : Posting = record {
    id = id;
    account_id = account_id;
    direction = direction;
    amount = amount;
  }
  validate p
  ok p
