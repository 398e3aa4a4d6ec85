-- ===== src/Domain/Hold.antt =====
-- internal/ledger/domain/hold.go. A `time.Time` is the number of nanoseconds since Go's zero time,
-- the first instant of the year 1; `UTC` does not move an instant.
pub mod Lifecycle
use distributed_wallet_ledge.Prelude.{ℕ, Bool, true, false, not, ◌&&◌, ◌||◌, ltb, ◌==◌, Text}
use distributed_wallet_ledge.Errors.{
  Result, ok, err, ◌>>=◌, ◌>>◌, fail_if, assign, invalid_hold_status, invalid_id,
  amount_must_be_positive, hold_not_authorized, hold_expired, hold_not_expired,
  invalid_hold_timestamp, invalid_hold_expiration,
}
use distributed_wallet_ledge.Domain.Ids.{HoldId, WalletId, is_zero}
use distributed_wallet_ledge.Domain.Money
use distributed_wallet_ledge.Domain.Money.{Money}

abbrev pub Time : Type 0
Time = ℕ

abbrev pub before : Time → Time → Bool
before a b = ltb a b

-- `Time.IsZero`.
abbrev pub time_is_zero : Time → Bool
time_is_zero t = t == 0

-- A Go string type: its constants, and `other s` for any other string.
pub data HoldStatus : Type 0 where
  authorized captured released expired : HoldStatus
  other : Text → HoldStatus

abbrev pub validate_status : HoldStatus → Result (Unit {0})
validate_status authorized = ok tt
validate_status captured = ok tt
validate_status released = ok tt
validate_status expired = ok tt
validate_status (other s) = err invalid_hold_status

abbrev pub is_authorized : HoldStatus → Bool
is_authorized authorized = true
is_authorized _ = false

abbrev pub is_captured : HoldStatus → Bool
is_captured captured = true
is_captured _ = false

pub record Hold : Type 0 where
  pub id : HoldId
  pub wallet_id : WalletId
  pub amount : Money
  pub status : HoldStatus
  pub created_at : Time
  pub expires_at : Time

unfoldable pub validate : Hold → Result (Unit {0})
validate h = do
  fail_if (is_zero h.id || is_zero h.wallet_id) invalid_id
  Money.validate h.amount
  fail_if (not (Money.is_positive h.amount)) amount_must_be_positive
  validate_status h.status
  fail_if (time_is_zero h.created_at || time_is_zero h.expires_at) invalid_hold_timestamp
  fail_if (not (before h.created_at h.expires_at)) invalid_hold_expiration

unfoldable pub reconstitute_hold :
    HoldId → WalletId → Money → HoldStatus → Time → Time → Result Hold
reconstitute_hold id wallet_id amount status created_at expires_at = do
  let hold : Hold = record {
    id = id;
    wallet_id = wallet_id;
    amount = amount;
    status = status;
    created_at = created_at;
    expires_at = expires_at;
  }
  validate hold
  ok hold

unfoldable pub new_hold : HoldId → WalletId → Money → Time → Time → Result Hold
unfolding reconstitute_hold
new_hold id wallet_id amount created_at expires_at =
    reconstitute_hold id wallet_id amount authorized created_at expires_at

abbrev pub is_active : Hold → Time → Bool
is_active h at = is_authorized h.status && before at h.expires_at

unfoldable pub capture : Hold → Time → Hold × Result (Unit {0})
capture h at = assign h do
  validate h
  fail_if (not (is_authorized h.status)) hold_not_authorized
  fail_if (not (before at h.expires_at)) hold_expired
  ok (record h { status = captured })

unfoldable pub release : Hold → Time → Hold × Result (Unit {0})
release h at = assign h do
  validate h
  fail_if (not (is_authorized h.status)) hold_not_authorized
  fail_if (not (before at h.expires_at)) hold_expired
  ok (record h { status = released })

unfoldable pub expire : Hold → Time → Hold × Result (Unit {0})
expire h at = assign h do
  validate h
  fail_if (not (is_authorized h.status)) hold_not_authorized
  fail_if (before at h.expires_at) hold_not_expired
  ok (record h { status = expired })
