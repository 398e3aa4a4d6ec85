-- ===== src/Examples/Deliveries.antt =====
-- The theorems about the repositories, the outbox, the worker and the adapters, applied where their
-- hypotheses hold.
use distributed_wallet_ledge.Prelude.{
  ℕ, zero, suc, ◌+◌, ◌≤◌, ◌<◌, ◌≡◌, refl, ◌=text◌, false, leb→le, pos, wrap64, ◌+ℤ◌, ◌-ℤ◌, [], ◌∷◌,
  none, some, is_space, trim_space, trim_left, trim_right, to_upper, upper_rune, byte_len, codes,
  arith,
}
use distributed_wallet_ledge.Errors.{Result, ok, err, message, ok-injective}
use distributed_wallet_ledge.Domain.Ids.{new_id}
use distributed_wallet_ledge.Domain.Currency
use distributed_wallet_ledge.Domain.Currency.{all_letters}
use distributed_wallet_ledge.Domain.Money
use distributed_wallet_ledge.Domain.Wallet
use distributed_wallet_ledge.Domain.Wallet.{Wallet}
use distributed_wallet_ledge.Domain.Hold
use distributed_wallet_ledge.Domain.Hold.{Hold, reconstitute_hold}
use distributed_wallet_ledge.Domain.OutboxEvent.{
  OutboxEvent, EventStatus, reconstitute_outbox_event,
}
use distributed_wallet_ledge.Postgres.Tables.{Store, EventRow}
use distributed_wallet_ledge.Postgres.Queries.{exists, get_wallet_hold_by_id}
use distributed_wallet_ledge.Postgres.Transactions.{to_uuid}
use distributed_wallet_ledge.Postgres.Holds.{
  list_expired_holds, map_wallet_hold, expired_rows, insert_row, hold_ids,
}
use distributed_wallet_ledge.Postgres.Wallets.{create, create_wallet, get_by_id}
use distributed_wallet_ledge.Postgres.Wallets.RoundTrip
use distributed_wallet_ledge.Postgres.Outbox.{
  fetch_pending, requeue_stale, waiting_rows, insert_event, claim_rows, map_event, map_events,
  minute,
}
use distributed_wallet_ledge.Postgres.Outbox.Exclusion
use distributed_wallet_ledge.Application.Holds.{Port}
use distributed_wallet_ledge.Application.Outbox.{
  ExponentialBackoff, OutboxRepository, next_delay, process_events,
}
use distributed_wallet_ledge.Application.Outbox.Batches
use distributed_wallet_ledge.Application.Outbox.Batches.{
  Handles, logged_repository, logged_publisher,
}
use distributed_wallet_ledge.Adapters.Worker.{HoldExpirationConfig, process_expired_holds}
use distributed_wallet_ledge.Adapters.Worker.Expiries.{lists, expires}
use distributed_wallet_ledge.Adapters.Worker.Settles
use distributed_wallet_ledge.Adapters.Worker.Settles.{IsSettled}
use distributed_wallet_ledge.Examples.Data.{
  scan, wallet_id, hold_id, wallet, hold, hold_row, funded, held,
}

-- The funded ledger before its wallet was created.
abbrev unopened : Store
unopened = record funded { wallets = [] }

wallet-IsClean : RoundTrip.IsClean scan wallet
unfolding new_id is_space trim_space trim_left trim_right Wallet.validate Currency.validate byte_len
    all_letters
wallet-IsClean = record {
  valid = refl;
  id_clean = refl;
  owner_clean = refl;
  account_clean = refl;
  id_canonical = refl;
  account_canonical = refl;
}

wallet-created : create scan wallet unopened ≡ ok funded
unfolding create create_wallet to_uuid to_upper upper_rune
wallet-created = refl

get_by_id-create_example : get_by_id scan wallet_id funded ≡ ok wallet
get_by_id-create_example =
    RoundTrip.get_by_id-create scan wallet unopened funded wallet-IsClean wallet-created

-- An event that waits.
abbrev event_row : EventRow
event_row = record {
  id = 101 ∷ [];
  aggregate_type = codes "wallet";
  aggregate_id = wallet_id;
  event_type = codes "WalletBalanceUpdated";
  payload = codes "{}";
  status = EventStatus.pending;
  retry_count = 0;
  last_error = none;
  created_at = 5;
  processed_at = none;
  updated_at = 5;
}

abbrev event : OutboxEvent
event = record {
  id = 101 ∷ [];
  aggregate_type = codes "wallet";
  aggregate_id = wallet_id;
  event_type = codes "WalletBalanceUpdated";
  payload = codes "{}";
  status = EventStatus.pending;
  retry_count = 0;
  last_error = [];
  created_at = 5;
  processed_at = none;
  updated_at = 5;
}

abbrev with_event : Store
with_event = record funded { outbox_events = event_row ∷ [] }

abbrev with_claim : Store
with_claim = record funded {
  outbox_events = record event_row { status = EventStatus.processing; updated_at = 10 } ∷ [];
}

event-clean : new_id event_row.id ≡ ok event_row.id
unfolding new_id is_space trim_space trim_left trim_right
event-clean = refl

event-fetched : fetch_pending 10 (λ r. false) 5 50 with_event ≡ (with_claim, ok (event ∷ []))
unfolding fetch_pending requeue_stale waiting_rows insert_event claim_rows map_event map_events
    new_id is_space trim_space trim_left trim_right reconstitute_outbox_event
event-fetched = refl

none-fetched : fetch_pending 20 (λ r. false) 5 50 with_claim ≡ (with_claim, ok [])
unfolding fetch_pending requeue_stale waiting_rows claim_rows map_events
none-fetched = refl

fetch_pending-exclusive_example : exists (λ (e : OutboxEvent). e.id =text event.id) [] ≡ false
fetch_pending-exclusive_example =
    Exclusion.fetch_pending-exclusive 10 20 (λ r. false) (λ r. false) 5 5 50 50 with_event
      with_claim with_claim (event ∷ []) [] event.id (leb→le 20 (10 + minute) refl)
      (event-clean, tt) event-fetched none-fetched refl

-- A float product and a draw that answers a number below its bound.
abbrev half : ℕ → Result ℕ
half zero = err message
half (suc n) = ok n

half-below : (n m : ℕ) → half n ≡ ok m → m < n
half-below zero m h = cc
half-below (suc n) m h = let same = ok-injective h in omega (arith, same)

abbrev backoff : ExponentialBackoff
backoff = record { initial_interval = 500; max_interval = 30_000 }

next_delay-bounded_example : next_delay (λ i n. pos (i + n)) half backoff 3 ≤ 30_000
next_delay-bounded_example =
    Batches.next_delay-bounded (λ i n. pos (i + n)) half backoff 3 half-below

abbrev outbox : OutboxRepository ℕ
outbox = record {
  fetch_pending = λ m k n. (n, ok (event ∷ []));
  release_claim = λ id t n. (n + 1, ok tt);
  mark_published = λ id t n. (n + 1, ok tt);
  mark_failed = λ id text t n. (n + 1, ok tt);
}

abbrev publisher : OutboxEvent → Port ℕ (Unit {0})
publisher e n = (n + 1, ok tt)

process_events-Handles_example :
    let out =
      process_events
        (logged_repository outbox)
        (logged_publisher publisher)
        (λ e. [])
        (λ i n. i + n)
        0
        10
        (event ∷ [])
        ((0, []), 0) in
    Handles (λ e. []) (λ i n. i + n) 10 0 (event ∷ []) [] 0 out.0.1 out.1
process_events-Handles_example =
    Batches.process_events-Handles outbox publisher (λ e. []) (λ i n. i + n) 10 0 (event ∷ []) 0 []
      0

abbrev worker_config : HoldExpirationConfig
worker_config = record { interval = pos 1; batch_size = pos 50 }

hold-listed : list_expired_holds 200 50 held ≡ ok (hold_id ∷ [])
unfolding list_expired_holds expired_rows insert_row hold_ids new_id is_space trim_space trim_left
    trim_right
hold-listed = refl

hold-mapped : map_wallet_hold hold_row ≡ ok hold
unfolding map_wallet_hold reconstitute_hold new_id is_space trim_space trim_left trim_right to_upper
    upper_rune Currency.new_currency Currency.validate byte_len all_letters Money.new_money
    Money.validate Hold.validate wrap64 ◌+ℤ◌ ◌-ℤ◌
hold-mapped = refl

hold-found : get_wallet_hold_by_id hold_id held ≡ some hold_row
unfolding get_wallet_hold_by_id
hold-found = refl

process_expired_holds-settles_example :
    IsSettled hold_id
      (process_expired_holds
        (lists scan 200 (λ id. 200))
        (expires scan 200 (λ id. 200))
        worker_config
        held).0
process_expired_holds-settles_example =
    Settles.process_expired_holds-settles scan 200 (λ id. 200) worker_config (hold_id ∷ []) hold_id
      hold_row hold held hold-listed refl hold-found hold-mapped refl (leb→le 100 200 refl)
