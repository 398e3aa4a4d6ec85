-- ===== src/Postgres/Outbox.antt =====
-- internal/ledger/adapters/postgres/outbox_repository.go with its pool, and its queries. `now` is the
-- database's `NOW()`; `taken` tells the rows that another transaction has locked, which
-- `FOR UPDATE SKIP LOCKED` passes over. The order of events of one instant is left to the database,
-- and the conversions to `int32` are left out.
pub mod Claims
pub mod Exclusion
use distributed_wallet_ledge.Prelude.{
  ℕ, suc, ◌+◌, Bool, true, false, not, ◌&&◌, ◌||◌, ltb, leb, ◌=text◌, List, [], ◌∷◌, map, Option,
  none, some, Text, is_empty, take, if◌then◌else◌,
}
use distributed_wallet_ledge.Errors.{Result, ok, err, ◌>>=◌, ◌>>◌, wrap_error}
use distributed_wallet_ledge.Domain.Ids.{EventId, new_id}
use distributed_wallet_ledge.Domain.Hold.{Time}
use distributed_wallet_ledge.Domain.OutboxEvent.{
  OutboxEvent, EventStatus, pending, processing, published, failed, reconstitute_outbox_event,
}
use distributed_wallet_ledge.Postgres.Tables.{Uuid, EventRow, Store}
use distributed_wallet_ledge.Postgres.Queries.{create_outbox_event}
use distributed_wallet_ledge.Postgres.Transactions.{to_uuid}

abbrev pub is_processing : EventStatus → Bool
is_processing processing = true
is_processing _ = false

abbrev pub is_waiting : EventStatus → Bool
is_waiting pending = true
is_waiting failed = true
is_waiting _ = false

-- INTERVAL '1 minute', in nanoseconds.
abbrev pub minute : ℕ
minute = 60_000_000_000

-- UPDATE outbox_events SET … WHERE ….
abbrev pub update_rows : (EventRow → Bool) → (EventRow → EventRow) → List EventRow → List EventRow
update_rows test change [] = []
update_rows test change (r ∷ rs) = (if test r then change r else r) ∷ update_rows test change rs

-- The update that gives stale claims back.
unfoldable pub requeue_stale : Time → List EventRow → List EventRow
requeue_stale now =
    update_rows (λ r. is_processing r.status && ltb (r.updated_at + minute) now)
      (λ r. record r { status = failed; updated_at = now })

-- FetchPendingOutboxEvents, before the limit: a row in the order `created_at ASC`.
unfoldable pub insert_event : EventRow → List EventRow → List EventRow
insert_event r [] = r ∷ []
insert_event r (q ∷ qs) =
    if ltb q.created_at r.created_at then q ∷ insert_event r qs else r ∷ q ∷ qs

unfoldable pub waiting_rows : (EventRow → Bool) → ℕ → List EventRow → List EventRow
waiting_rows taken max_retries [] = []
waiting_rows taken max_retries (r ∷ rs) =
    let rest = waiting_rows taken max_retries rs in
    if is_waiting r.status && ltb r.retry_count max_retries && not (taken r)
    then insert_event r rest
    else rest

-- The loop that claims the rows fetched.
unfoldable pub claim_rows : Time → List EventRow → List EventRow → List EventRow
claim_rows now [] rows = rows
claim_rows now (r ∷ fetched) rows = claim_rows now fetched (
    update_rows (λ q. q.id =text r.id) (λ q. record q { status = processing; updated_at = now })
      rows)

abbrev pub text_or_empty : Option Text → Text
text_or_empty none = []
text_or_empty (some t) = t

-- The event of a row, as it was before the claim.
unfoldable pub map_event : EventRow → Result OutboxEvent
map_event row = do
  event_id ← new_id row.id
  wrap_error (
      reconstitute_outbox_event (record {
        id = event_id;
        aggregate_type = row.aggregate_type;
        aggregate_id = row.aggregate_id;
        event_type = row.event_type;
        payload = row.payload;
        status = row.status;
        retry_count = row.retry_count;
        last_error = text_or_empty row.last_error;
        created_at = row.created_at;
        processed_at = row.processed_at;
        updated_at = row.updated_at;
      }))

unfoldable pub map_events : List EventRow → Result (List OutboxEvent)
map_events [] = ok []
map_events (row ∷ rows) = do event ← map_event row; events ← map_events rows; ok (event ∷ events)

-- `FetchPending`: the claims are committed before the rows are mapped.
unfoldable pub fetch_pending :
    Time → (EventRow → Bool) → ℕ → ℕ → Store → Store × Result (List OutboxEvent)
unfolding requeue_stale waiting_rows claim_rows map_events
fetch_pending now taken max_retries limit s =
    let rows = requeue_stale now s.outbox_events in
    let fetched = take limit (waiting_rows taken max_retries rows) in
    (record s { outbox_events = claim_rows now fetched rows }, map_events fetched)

module _ (scan_uuid : Text → Option Uuid) where
  unfoldable pub save : OutboxEvent → Store → Result Store
  save event s = do
    id ← to_uuid scan_uuid event.id
    wrap_error (
        create_outbox_event
          (record {
            id = id;
            aggregate_type = event.aggregate_type;
            aggregate_id = event.aggregate_id;
            event_type = event.event_type;
            payload = event.payload;
            status = event.status;
            retry_count = event.retry_count;
            last_error = none;
            created_at = event.created_at;
            processed_at = none;
            updated_at = event.updated_at;
          })
          s)

  unfoldable pub mark_published : EventId → Time → Store → Result Store
  mark_published event_id processed_at s = do
    id ← to_uuid scan_uuid event_id
    ok (record s {
      outbox_events =
          update_rows (λ r. r.id =text id)
            (λ r. record r {
              status = published;
              processed_at = some processed_at;
              updated_at = processed_at;
            })
            s.outbox_events;
    })

  unfoldable pub release_claim : EventId → Time → Store → Result Store
  release_claim event_id updated_at s = do
    id ← to_uuid scan_uuid event_id
    ok (record s {
      outbox_events =
          update_rows (λ r. r.id =text id && is_processing r.status)
            (λ r. record r { status = failed; updated_at = updated_at }) s.outbox_events;
    })

  unfoldable pub mark_failed : EventId → Text → Time → Store → Result Store
  mark_failed event_id last_error updated_at s = do
    id ← to_uuid scan_uuid event_id
    ok (record s {
      outbox_events =
          update_rows (λ r. r.id =text id)
            (λ r. record r {
              status = failed;
              retry_count = suc r.retry_count;
              last_error = if is_empty last_error then none else some last_error;
              updated_at = updated_at;
            })
            s.outbox_events;
    })
