-- ===== src/Postgres/Replays.antt =====
-- The idempotency keys of `Post`.
use distributed_wallet_ledge.Prelude.{
  ℕ, ◌≡◌, refl, sym, subst, Bool, true, false, ◌&&◌, ◌=text◌, =text_eq, =text_refl, Text, Option,
  none, some, if◌then◌else◌, arith, Bool-cases, Option-cases, inl, inr,
}
use distributed_wallet_ledge.Errors.{
  Result, ok, err, >>=-eq-ok, wrap_error-eq-ok, ok-injective, idempotency_key_conflict,
}
use distributed_wallet_ledge.Domain.Transaction.{Transaction}
use distributed_wallet_ledge.Domain.Hold.{Time}
use distributed_wallet_ledge.Postgres.Tables.{Uuid, Store, KeyRow}
use distributed_wallet_ledge.Postgres.Queries.{get_idempotency_key, create_idempotency_key}
use distributed_wallet_ledge.Postgres.Transactions.{
  Lookups, replay_or_conflict, check_idempotency, to_uuid, lock_wallet_accounts, write_transaction,
  key_row, kept_or_replayed, post, post_in_transaction,
}

-- The key is bound to the request: the hash and the transaction.
abbrev pub Bound : Text → Text → Text → Store → Type 0
Bound key hash id s =
    (row : KeyRow) × (get_idempotency_key key s ≡ some row)
    × (row.request_hash ≡ hash)
    × (row.transaction_id ≡ id)

replay-Bound :
    (key hash id : Text) (s : Store) (o : Option KeyRow)
    → get_idempotency_key key s ≡ o
    → replay_or_conflict o id hash ≡ ok true
    → Bound key hash id s
replay-Bound key hash id s none e h = cc
replay-Bound key hash id s (some row) e h = (
  row,
  e,
  =text_eq row.request_hash hash (ground arith),
  =text_eq row.transaction_id id (ground arith),
)

pub check_idempotency-Bound :
    (t : Transaction) (key hash : Text) (s : Store)
    → check_idempotency t key hash s ≡ ok true
    → Bound key hash t.id s
unfolding check_idempotency
check_idempotency-Bound t key hash s h =
    replay-Bound key hash t.id s (get_idempotency_key key s) refl h

-- A bound key answers every later request: the same one is a replay, any other a conflict.
abbrev pub answer : Bool → Result Bool
answer same = if same then ok true else err idempotency_key_conflict

pub Bound-answer :
    (t : Transaction) (key hash hash' id : Text) (s : Store)
    → Bound key hash id s
    → check_idempotency t key hash' s ≡ answer (hash =text hash' && id =text t.id)
unfolding check_idempotency
Bound-answer t key hash hash' id s (row, found, e, f) = rw (found, e, f) (ground arith)

create_idempotency_key-Bound :
    (key hash id : Text) (s s' : Store)
    → create_idempotency_key (key_row key hash id) s ≡ ok s'
    → Bound key hash id s'
unfolding create_idempotency_key get_idempotency_key
create_idempotency_key-Bound key hash id s s' h =
    (key_row key hash id, ground (arith, =text_refl key), refl, refl)

-- The lookups outside the database transaction see no row of the key that the store lacks.
pub record SeesKeyOf (key : Text) (seen : Lookups) (s : Store) : Type 0 where
  pub first :
      (row : KeyRow)
      → get_idempotency_key key seen.before ≡ some row
      → get_idempotency_key key s ≡ some row
  pub last :
      (row : KeyRow)
      → get_idempotency_key key seen.after_rollback ≡ some row
      → get_idempotency_key key s ≡ some row

-- A key that the check lets through is new, and the other way round.
pub check_idempotency-new :
    (t : Transaction) (key hash : Text) (s : Store)
    → check_idempotency t key hash s ≡ ok false
    → get_idempotency_key key s ≡ none
unfolding check_idempotency
check_idempotency-new t key hash s h = elim (Option-cases (get_idempotency_key key s)) [
  | inl missing ↦ missing
  | inr (row, found) ↦ absurd (ground (arith, rw found at h))
]

pub new-check_idempotency :
    (t : Transaction) (key hash : Text) (s : Store)
    → get_idempotency_key key s ≡ none
    → check_idempotency t key hash s ≡ ok false
unfolding check_idempotency
new-check_idempotency t key hash s h = rw h refl

-- What was new to the database transaction is new to the lookup after its rollback.
pub SeesKeyOf-new :
    (t : Transaction) (key hash : Text) (seen : Lookups) (s : Store)
    → SeesKeyOf key seen s
    → check_idempotency t key hash s ≡ ok false
    → check_idempotency t key hash seen.after_rollback ≡ ok false
SeesKeyOf-new t key hash seen s sees fresh =
    elim (Option-cases (get_idempotency_key key seen.after_rollback)) [
      | inl missing ↦ new-check_idempotency t key hash seen.after_rollback missing
      | inr (row, found) ↦
          let has = sees.last row found in
          let lacks = check_idempotency-new t key hash s fresh in absurd cc
    ]

-- The last step of `Post` after a key was found to be new.
pub kept_or_replayed-made :
    (t : Transaction) (row : KeyRow) (current s s' : Store) (inserted : Result Store)
    → check_idempotency t row.idempotency_key row.request_hash current ≡ ok false
    → kept_or_replayed t row current s inserted ≡ ok s'
    → inserted ≡ ok s'
kept_or_replayed-made t row current s s' (ok s₁) first h = h
kept_or_replayed-made t row current s s' (err e) first h = absurd (ground (arith, rw first at h))

module _ (scan : Text → Option Uuid) (now : Time) (event_id : ℕ → Uuid) (t : Transaction) where
  -- A `Post` that has succeeded has bound its key to its request.
  pub post-Bound :
      (seen : Lookups) (key hash : Text) (s s' : Store)
      → scan t.id ≡ some t.id
      → SeesKeyOf key seen s
      → post scan now event_id seen t key hash s ≡ ok s'
      → Bound key hash t.id s'
  unfolding post to_uuid
  post-Bound seen key hash s s' canonical sees h =
      let (known, looked, h₁) = >>=-eq-ok (check_idempotency t key hash seen.before) _ h in
      elim (Bool-cases known) [
        | inl old ↦
            let (row, found, same, owner) =
              check_idempotency-Bound t key hash seen.before (rw old at looked) in
            subst (Bound key hash t.id) (ok-injective (rw old at h₁))
              (row, sees.first row found, same, owner)
        | inr new ↦
            let (locked, lock, h₂) = >>=-eq-ok (lock_wallet_accounts scan t s) _ (rw new at h₁) in
            let (replayed, found, h₃) = >>=-eq-ok (check_idempotency t key hash s) _ h₂ in
            elim (Bool-cases replayed) [
              | inl again ↦
                  subst (Bound key hash t.id) (ok-injective (rw again at h₃))
                    (check_idempotency-Bound t key hash s (rw again at found))
              | inr first ↦
                  let (s₁, wrote, h₄) =
                    >>=-eq-ok (write_transaction scan now event_id t locked s) _ (rw first at h₃) in
                  let (id, named, h₅) = >>=-eq-ok (to_uuid scan t.id) _ h₄ in
                  let same : t.id ≡ id = ground arith in
                  let still = SeesKeyOf-new t key hash seen s sees (rw first at found) in
                  let made =
                    kept_or_replayed-made t (key_row key hash id) seen.after_rollback s s' _ still
                      h₅ in
                  subst (λ u. Bound key hash u s') (sym same)
                    (create_idempotency_key-Bound key hash id s₁ s' made)
            ]
      ]

  -- The same for a posting inside a database transaction of the caller.
  pub post_in_transaction-Bound :
      (key hash : Text) (s s' : Store)
      → scan t.id ≡ some t.id
      → post_in_transaction scan now event_id t key hash s ≡ ok s'
      → Bound key hash t.id s'
  unfolding post_in_transaction to_uuid
  post_in_transaction-Bound key hash s s' canonical h =
      let (locked, lock, h₁) = >>=-eq-ok (lock_wallet_accounts scan t s) _ h in
      let (replayed, found, h₂) = >>=-eq-ok (check_idempotency t key hash s) _ h₁ in
      elim (Bool-cases replayed) [
        | inl again ↦
            subst (Bound key hash t.id) (ok-injective (rw again at h₂))
              (check_idempotency-Bound t key hash s (rw again at found))
        | inr first ↦
            let (s₁, wrote, h₃) =
              >>=-eq-ok (write_transaction scan now event_id t locked s) _ (rw first at h₂) in
            let (id, named, h₄) = >>=-eq-ok (to_uuid scan t.id) _ h₃ in
            let same : t.id ≡ id = ground arith in
            subst (λ u. Bound key hash u s') (sym same)
              (create_idempotency_key-Bound key hash id s₁ s'
                (wrap_error-eq-ok (create_idempotency_key (key_row key hash id) s₁) s' h₄))
      ]

-- What a request under a bound key answers, and the store it leaves.
abbrev pub replies : Bool → Store → Result Store
replies same s = if same then ok s else err idempotency_key_conflict
