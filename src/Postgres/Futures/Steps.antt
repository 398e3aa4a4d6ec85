-- ===== src/Postgres/Futures/Steps.antt =====
-- No step on the database undoes what `Keeps` states.
use distributed_wallet_ledge.Prelude.{
  ℕ, ◌≡◌, refl, subst, false, Option, Text, Bool-cases, inl, inr,
}
use distributed_wallet_ledge.Errors.{ok, >>=-eq-ok, ok-injective, wrap_error-eq-ok}
use distributed_wallet_ledge.Domain.Ids.{HoldId}
use distributed_wallet_ledge.Domain.Transaction.{Transaction}
use distributed_wallet_ledge.Domain.Hold.{
  HoldStatus, Time, captured, is_authorized, validate_status,
}
use distributed_wallet_ledge.Postgres.Tables.{Uuid, HoldRow, Store}
use distributed_wallet_ledge.Postgres.Queries.{update_wallet_hold_status}
use distributed_wallet_ledge.Postgres.Transactions.{
  to_uuid, check_idempotency, lock_wallet_accounts, write_transaction, key_row, post_in_transaction,
  post, Lookups,
}
use distributed_wallet_ledge.Postgres.Outcomes.{post-outcome}
use distributed_wallet_ledge.Postgres.Holds.{update_status}
use distributed_wallet_ledge.Postgres.Holds.Captures.{Captured, replayed, written, capture-Captured}
use distributed_wallet_ledge.Postgres.Holds.Settlement.{some_row-eq}
use distributed_wallet_ledge.Postgres.Reachable.{
  Step, ticks, posts, authorizes, settles, captures, Reaches, done, then_step,
}
use distributed_wallet_ledge.Postgres.Futures.{Keeps, Keeps-trans}
use distributed_wallet_ledge.Postgres.Futures.Writes.{
  Keeps-refl, written-Keeps, authorize-Keeps, update-Keeps,
}

post-Keeps :
    (scan : Text → Option Uuid) (now : Time) (event_id : ℕ → Uuid) (t : Transaction)
    (seen : Lookups) (key hash : Text) (s s' : Store)
    → post scan now event_id seen t key hash s ≡ ok s'
    → Keeps s s'
post-Keeps scan now event_id t seen key hash s s' h =
    elim (post-outcome scan now event_id t seen key hash s s' h) [
      | inl same ↦ subst (Keeps s) same (Keeps-refl s)
      | inr (s₁, locked, id, lock, wrote, made) ↦
          written-Keeps scan now event_id t locked (key_row key hash id) s s₁ s' wrote made
    ]

post_in_transaction-Keeps :
    (scan : Text → Option Uuid) (now : Time) (event_id : ℕ → Uuid) (t : Transaction)
    (key hash : Text) (s s' : Store)
    → post_in_transaction scan now event_id t key hash s ≡ ok s'
    → Keeps s s'
unfolding post_in_transaction
post_in_transaction-Keeps scan now event_id t key hash s s' h =
    let (locked, _, h₁) = >>=-eq-ok (lock_wallet_accounts scan t s) _ h in
    let (known, _, h₂) = >>=-eq-ok (check_idempotency t key hash s) _ h₁ in
    elim (Bool-cases known) [
      | inl again ↦ subst (Keeps s) (ok-injective (rw again at h₂)) (Keeps-refl s)
      | inr first ↦
          let (s₁, wrote, h₃) =
            >>=-eq-ok (write_transaction scan now event_id t locked s) _ (rw first at h₂) in
          let (id, _, h₄) = >>=-eq-ok (to_uuid scan t.id) _ h₃ in
          written-Keeps scan now event_id t locked (key_row key hash id) s s₁ s' wrote
            (wrap_error-eq-ok _ s' h₄)
    ]

Captured-Keeps :
    (scan : Text → Option Uuid) (now at : Time) (event_id : ℕ → Uuid) (u : Uuid) (t : Transaction)
    (key hash : Text) (s s' : Store) (row : HoldRow)
    → Captured scan now at event_id u t key hash s row s'
    → Keeps s s'
Captured-Keeps scan now at event_id u t key hash s _ row (replayed settled looked) = Keeps-refl s
Captured-Keeps scan now at event_id u t key hash s _ row (written s₁ active timely wrote one) =
    Keeps-trans s s₁ _ (post_in_transaction-Keeps scan now event_id t key hash s s₁ wrote)
      (update-Keeps u captured s₁ refl)

update_status-Keeps :
    (scan : Text → Option Uuid) (id : HoldId) (status : HoldStatus) (s s' : Store)
    → is_authorized status ≡ false
    → update_status scan id status s ≡ ok s'
    → Keeps s s'
unfolding update_status
update_status-Keeps scan id status s s' leaves h =
    let (_, _, h₁) = >>=-eq-ok (validate_status status) _ h in
    let (u, _, h₂) = >>=-eq-ok (to_uuid scan id) _ h₁ in
    subst (Keeps s) (some_row-eq (update_wallet_hold_status u status s) s' h₂)
      (update-Keeps u status s leaves)

Step-Keeps : (scan : Text → Option Uuid) (x y : Time × Store) → Step scan x y → Keeps x.1 y.1
Step-Keeps scan _ _ (ticks now later s h) = Keeps-refl s
Step-Keeps scan _ _ (posts now event_id seen s s' t key hash valid canonical h) =
    post-Keeps scan now event_id t seen key hash s s' h
Step-Keeps scan _ _ (authorizes now hold key hash s) = authorize-Keeps scan now hold key hash s
Step-Keeps scan _ _ (settles now id status s s' leaves h) =
    update_status-Keeps scan id status s s' leaves h
Step-Keeps scan _ _ (captures now at event_id earlier s s' id t key hash valid canonical h) =
    let (u, w, row, _, _, _, _, took) =
      capture-Captured scan now at event_id earlier id t key hash s s' h in
    Captured-Keeps scan now at event_id u t key hash s s' row took

-- No sequence of steps does either.
pub Reaches-Keeps :
    (scan : Text → Option Uuid) (x y : Time × Store) → Reaches scan x y → Keeps x.1 y.1
Reaches-Keeps scan x _ (done _) = Keeps-refl x.1
Reaches-Keeps scan x z (then_step _ y _ step rest) =
    Keeps-trans x.1 y.1 z.1 (Step-Keeps scan x y step) (Reaches-Keeps scan y z rest)
