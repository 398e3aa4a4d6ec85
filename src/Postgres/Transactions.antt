-- ===== src/Postgres/Transactions.antt =====
-- postgres/transaction_repository.go: how a transaction is posted. A `Result Store` is a database
-- transaction: an error leaves the store as it was, by the deferred rollback. The map of locked
-- wallets is a list in the order of locking; Go iterates over it in an order of its own.
use distributed_wallet_ledge.Prelude.{
  ℕ, suc, ℤ, pos, Bool, true, false, not, ◌&&◌, ◌||◌, ltb, ◌==◌, ltb_ℤ, ◌+64◌, ◌-64◌, ◌=text◌, List,
  [], ◌∷◌, ◌++◌, Option, none, some, Text, codes, if◌then◌else◌,
}
use distributed_wallet_ledge.Errors.{
  Error, Result, ok, err, ◌>>=◌, ◌>>◌, fail_if, wrap_error, or_fail, invalid_id,
  insufficient_balance, idempotency_key_conflict,
}
use distributed_wallet_ledge.Domain.Ids.{TransactionId}
use distributed_wallet_ledge.Domain.Posting.{Posting, is_debit}
use distributed_wallet_ledge.Domain.Transaction.{Transaction}
use distributed_wallet_ledge.Domain.Hold.{Time}
use distributed_wallet_ledge.Domain.OutboxEvent.{pending}
use distributed_wallet_ledge.Postgres.Tables.{Uuid, KeyRow, WalletRow, EventRow, Store}
use distributed_wallet_ledge.Postgres.Queries.{
  create_transaction, create_journal_entry, create_posting, get_idempotency_key,
  create_idempotency_key, lock_wallet_by_ledger_account_id, get_ledger_balance, create_outbox_event,
  exists,
}

-- The order of Go strings.
unfoldable pub text_lt : Text → Text → Bool
text_lt s [] = false
text_lt [] (d ∷ t) = true
text_lt (c ∷ s) (d ∷ t) = ltb c d || (c == d && text_lt s t)

-- A key in the sorted list of the keys of a map.
unfoldable pub insert_key : Text → List Text → List Text
insert_key k [] = k ∷ []
insert_key k (j ∷ js) =
    if k =text j then j ∷ js else if text_lt k j then k ∷ j ∷ js else j ∷ insert_key k js

-- The accounts of `lockWalletAccounts`: each once, sorted.
unfoldable pub account_keys : List Posting → List Text
account_keys [] = []
account_keys (p ∷ ps) = insert_key p.account_id (account_keys ps)

-- `deltasByAccount[key]` after the loop of `validateWalletBalances`, which goes from left to right.
unfoldable pub delta_from : Text → List Posting → ℤ → ℤ
delta_from key [] acc = acc
delta_from key (p ∷ ps) acc =
    let amount = p.amount.amount_minor_units in
    delta_from key ps (
      if p.account_id =text key
      then acc +64 (if is_debit p.direction then pos 0 -64 amount else amount)
      else acc)

-- What an idempotency row says of a request: a replay of it, or a conflict.
abbrev pub replay_or_conflict : Option KeyRow → TransactionId → Text → Result Bool
replay_or_conflict none id request_hash = ok false
replay_or_conflict (some existing) id request_hash = do
  fail_if (not (existing.request_hash =text request_hash) || not (existing.transaction_id =text id))
      idempotency_key_conflict
  ok true

unfoldable pub check_idempotency : Transaction → Text → Text → Store → Result Bool
check_idempotency t idempotency_key request_hash s =
    replay_or_conflict (get_idempotency_key idempotency_key s) t.id request_hash

-- `json.Marshal` of a `WalletBalanceUpdatedPayload`; a UUID has nothing to escape.
abbrev pub updated_payload : Uuid → Text
updated_payload wallet_id = codes "{\"wallet_id\":\"" ++ wallet_id ++ codes "\"}"

abbrev pub event_row : Time → (ℕ → Uuid) → ℕ → WalletRow → EventRow
event_row now event_id n w = record {
  id = event_id n;
  aggregate_type = codes "wallet";
  aggregate_id = w.id;
  event_type = codes "WalletBalanceUpdated";
  payload = updated_payload w.id;
  status = pending;
  retry_count = 0;
  last_error = none;
  created_at = now;
  processed_at = none;
  updated_at = now;
}

-- `createOutboxEvents`: one event for each locked wallet. `event_id n` is the n-th identifier that
-- `uuid.NewV7` makes in the call.
unfoldable pub create_outbox_events :
    Time → (ℕ → Uuid) → ℕ → List Uuid → List (Text × WalletRow) → Store → Result Store
create_outbox_events now event_id n seen [] s = ok s
create_outbox_events now event_id n seen ((key, w) ∷ locked) s =
    let skip = create_outbox_events now event_id n seen locked s in
    let insert = (do
      s' ← wrap_error (create_outbox_event (event_row now event_id n w) s)
      create_outbox_events now event_id (suc n) (w.id ∷ seen) locked s') in
    if exists (λ u. u =text w.id) seen then skip else insert

-- The second loop of `validateWalletBalances`.
unfoldable pub validate_wallet_balances :
    Time → List Posting → List (Text × WalletRow) → Store → Result (Unit {0})
validate_wallet_balances now ps [] s = ok tt
validate_wallet_balances now ps ((key, w) ∷ locked) s = do
  balance ← wrap_error (get_ledger_balance now w.ledger_account_id s)
  let projected_balance =
      balance.total_credits
      -64 balance.total_debits
      +64 (pos 0 -64 balance.active_holds)
      +64 delta_from key ps (pos 0)
  fail_if (ltb_ℤ projected_balance (pos 0)) insufficient_balance
  validate_wallet_balances now ps locked s

abbrev pub key_row : Text → Text → Uuid → KeyRow
key_row idempotency_key request_hash transaction_id = record {
  idempotency_key = idempotency_key;
  request_hash = request_hash;
  transaction_id = transaction_id;
}

-- The states of the database that the lookups of `Post` outside its database transaction see: the
-- one before it, and the one after its rollback. Other transactions may have committed between.
pub record Lookups : Type 0 where
  pub before : Store
  pub after_rollback : Store

-- The last step of `Post`: the key is inserted, or the whole is rolled back and the request is
-- looked up again, in `current`.
abbrev pub kept_or_replayed : Transaction → KeyRow → Store → Store → Result Store → Result Store
kept_or_replayed t row current s (ok s') = ok s'
kept_or_replayed t row current s (err e) = do
  replayed ← check_idempotency t row.idempotency_key row.request_hash current
  if replayed then ok s else err (Error.wrapped e)

abbrev pub insert_key_or_replay : Transaction → KeyRow → Store → Store → Store → Result Store
insert_key_or_replay t row current s s' =
    kept_or_replayed t row current s (create_idempotency_key row s')

-- `pgtype.UUID.Scan` on a text, and then `String`: the canonical text of the UUID that it names.
module _ (scan_uuid : Text → Option Uuid) where
  -- `transactionIDToUUID` and its like.
  unfoldable pub to_uuid : Text → Result Uuid
  to_uuid id = or_fail (scan_uuid id) (Error.wrapped invalid_id)

  -- The conversions of the first loop of `lockWalletAccounts`.
  unfoldable pub check_accounts : List Posting → Result (Unit {0})
  check_accounts [] = ok tt
  check_accounts (p ∷ ps) = do account ← to_uuid p.account_id; check_accounts ps

  -- The second loop: the wallets of the accounts that have one, by the account's key.
  unfoldable pub lock_keys : List Text → Store → Result (List (Text × WalletRow))
  lock_keys [] s = ok []
  lock_keys (key ∷ keys) s = do
    account ← to_uuid key
    locked ← lock_keys keys s
    ok (elim (lock_wallet_by_ledger_account_id account s) [
      | none ↦ locked
      | some w ↦ (key, w) ∷ locked
    ])

  unfoldable pub lock_wallet_accounts : Transaction → Store → Result (List (Text × WalletRow))
  lock_wallet_accounts t s = do
    check_accounts t.journal_entry.postings
    lock_keys (account_keys t.journal_entry.postings) s

  abbrev pub optional_uuid : Option TransactionId → Result (Option Uuid)
  optional_uuid none = ok none
  optional_uuid (some id) = do u ← to_uuid id; ok (some u)

  -- The loop that writes the postings of an entry.
  unfoldable pub create_postings : Uuid → List Posting → Store → Result Store
  create_postings journal_entry_id [] s = ok s
  create_postings journal_entry_id (p ∷ ps) s = do
    posting_id ← to_uuid p.id
    account_id ← to_uuid p.account_id
    s' ← wrap_error (
        create_posting posting_id journal_entry_id account_id p.direction
          p.amount.amount_minor_units s)
    create_postings journal_entry_id ps s'

  -- The part that `Post` and `postInTransaction` share, from the balance check to the outbox.
  unfoldable pub write_transaction :
      Time → (ℕ → Uuid) → Transaction → List (Text × WalletRow) → Store → Result Store
  write_transaction now event_id t locked s = do
    validate_wallet_balances now t.journal_entry.postings locked s
    transaction_id ← to_uuid t.id
    reverses_transaction_id ← optional_uuid t.reverses_transaction_id
    s₁ ← wrap_error (
        create_transaction
          (record {
            id = transaction_id;
            description = t.description;
            reverses_transaction_id = reverses_transaction_id;
          })
          s)
    journal_entry_id ← to_uuid t.journal_entry.id
    s₂ ← wrap_error (
        create_journal_entry
          (record {
            id = journal_entry_id;
            transaction_id = transaction_id;
            currency = t.journal_entry.currency.code;
          })
          s₁)
    s₃ ← create_postings journal_entry_id t.journal_entry.postings s₂
    create_outbox_events now event_id 0 [] locked s₃

  unfoldable pub post_in_transaction :
      Time → (ℕ → Uuid) → Transaction → Text → Text → Store → Result Store
  post_in_transaction now event_id t idempotency_key request_hash s = do
    locked ← lock_wallet_accounts t s
    replayed ← check_idempotency t idempotency_key request_hash s
    let write = do
      s' ← write_transaction now event_id t locked s
      transaction_id ← to_uuid t.id
      wrap_error (create_idempotency_key (key_row idempotency_key request_hash transaction_id) s')
    if replayed then ok s else write

  -- `Post`, whose database transaction runs on `s`.
  unfoldable pub post :
      Time → (ℕ → Uuid) → Lookups → Transaction → Text → Text → Store → Result Store
  post now event_id seen t idempotency_key request_hash s = do
    known ← check_idempotency t idempotency_key request_hash seen.before
    let begin = do
      locked ← lock_wallet_accounts t s
      replayed ← check_idempotency t idempotency_key request_hash s
      let write = do
        s' ← write_transaction now event_id t locked s
        transaction_id ← to_uuid t.id
        insert_key_or_replay t (key_row idempotency_key request_hash transaction_id)
            seen.after_rollback s s'
      if replayed then ok s else write
    if known then ok s else begin
