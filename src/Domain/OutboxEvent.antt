-- ===== src/Domain/OutboxEvent.antt =====
-- internal/ledger/domain/outbox_event.go. `int` counters are not bounded here.
use distributed_wallet_ledge.Prelude.{
  ℕ, suc, Bool, true, false, not, List, Text, [], Option, none, some, is_empty, trim_space,
}
use distributed_wallet_ledge.Errors.{
  Result, ok, ◌>>◌, fail_if, assign, invalid_id, empty_aggregate_type, empty_aggregate_id,
  empty_event_type, empty_event_payload, invalid_event_status, event_already_processed,
}
use distributed_wallet_ledge.Domain.Ids.{EventId, is_zero}
use distributed_wallet_ledge.Domain.Hold.{Time}

-- A Go string type: its constants, and `other s` for any other string.
pub data EventStatus : Type 0 where
  pending processing published failed : EventStatus
  other : Text → EventStatus

abbrev pub is_valid : EventStatus → Bool
is_valid (other s) = false
is_valid _ = true

abbrev pub is_published : EventStatus → Bool
is_published published = true
is_published _ = false

pub record OutboxEvent : Type 0 where
  pub id : EventId
  pub aggregate_type : Text
  pub aggregate_id : Text
  pub event_type : Text
  pub payload : List ℕ
  pub status : EventStatus
  pub retry_count : ℕ
  pub last_error : Text
  pub created_at : Time
  pub processed_at : Option Time
  pub updated_at : Time

-- `now` is the reading of the clock in the call.
unfoldable pub new_outbox_event : Time → EventId → Text → Text → Text → List ℕ → Result OutboxEvent
new_outbox_event now id aggregate_type aggregate_id event_type payload = do
  fail_if (is_zero id) invalid_id
  let clean_aggregate_type = trim_space aggregate_type
  fail_if (is_empty clean_aggregate_type) empty_aggregate_type
  let clean_aggregate_id = trim_space aggregate_id
  fail_if (is_empty clean_aggregate_id) empty_aggregate_id
  let clean_event_type = trim_space event_type
  fail_if (is_empty clean_event_type) empty_event_type
  fail_if (is_empty payload) empty_event_payload
  ok (record {
    id = id;
    aggregate_type = clean_aggregate_type;
    aggregate_id = clean_aggregate_id;
    event_type = clean_event_type;
    payload = payload;
    status = pending;
    retry_count = 0;
    last_error = [];
    created_at = now;
    processed_at = none;
    updated_at = now;
  })

-- The arguments are those of the source, as the record that they would make.
unfoldable pub reconstitute_outbox_event : OutboxEvent → Result OutboxEvent
reconstitute_outbox_event e = do
  fail_if (is_zero e.id) invalid_id
  fail_if (is_empty (trim_space e.aggregate_type)) empty_aggregate_type
  fail_if (is_empty (trim_space e.aggregate_id)) empty_aggregate_id
  fail_if (is_empty (trim_space e.event_type)) empty_event_type
  fail_if (is_empty e.payload) empty_event_payload
  fail_if (not (is_valid e.status)) invalid_event_status
  ok e

unfoldable pub mark_published : OutboxEvent → Time → OutboxEvent × Result (Unit {0})
mark_published e now = assign e do
  fail_if (is_published e.status) event_already_processed
  ok (record e { status = published; processed_at = some now; updated_at = now })

unfoldable pub mark_failed : OutboxEvent → Text → Time → OutboxEvent
mark_failed e description now = record e {
  status = failed;
  last_error = description;
  retry_count = suc e.retry_count;
  updated_at = now;
}
