-- ===== src/Postgres/Holds/Captures.antt =====
-- What a successful `Capture` has done.
use distributed_wallet_ledge.Prelude.{
  ℕ, ◌≡◌, refl, sym, ap, subst, ◌∙◌, Bool, true, false, not, ◌=text◌, =text_eq, Option, none, some,
  Text, arith, Bool-cases, inl, inr,
}
use distributed_wallet_ledge.Errors.{
  Error, ok, fail_if, >>=-eq-ok, or_fail, ok-injective, hold_not_authorized, fail_if-eq-ok,
  hold_not_found, wallet_not_found, message, hold_expired,
}
use distributed_wallet_ledge.Domain.Ids.{HoldId}
use distributed_wallet_ledge.Domain.Transaction.{Transaction}
use distributed_wallet_ledge.Domain.Hold.{Time, captured, is_authorized, is_captured, before}
use distributed_wallet_ledge.Postgres.Tables.{Uuid, HoldRow, WalletRow, Store}
use distributed_wallet_ledge.Postgres.Queries.{
  find, update_wallet_hold_status, get_wallet_by_id, get_wallet_hold_by_id, get_idempotency_key,
}
use distributed_wallet_ledge.Postgres.Transactions.{to_uuid, check_idempotency, post_in_transaction}
use distributed_wallet_ledge.Postgres.Holds.{one_row, capture}
use distributed_wallet_ledge.Postgres.Replays.{
  Bound, check_idempotency-Bound, post_in_transaction-Bound,
}
use distributed_wallet_ledge.Postgres.Solvency.Frames.{post_in_transaction-SameWallets}
use distributed_wallet_ledge.Postgres.Holds.Settlement.{find-passes, find-set_authorized}

pub or_fail-eq-ok {ℓ} :
    {A : Type ℓ} (o : Option A) (e : Error) (a : A) → or_fail o e ≡ ok a → o ≡ some a
or_fail-eq-ok none e a h = cc
or_fail-eq-ok (some b) e a h = ap some (ok-injective h)

pub one_row-eq : (p : Store × ℕ) (s : Store) → one_row p ≡ ok s → p.0 ≡ s
one_row-eq (r, n) s h = ground arith

pub one_row-count : (p : Store × ℕ) (s : Store) → one_row p ≡ ok s → p.1 ≡ 1
one_row-count (r, n) s h = ground arith

-- What a capture has found, and which of its two ways it took.
pub data Captured (scan : Text → Option Uuid) (now at : Time) (event_id : ℕ → Uuid) (u : Uuid)
    (t : Transaction) (key hash : Text) (s : Store) (row : HoldRow) : Store → Type 0 where
  replayed :
      is_captured row.status ≡ true
      → check_idempotency t key hash s ≡ ok true
      → Captured scan now at event_id u t key hash s row s
  written :
      (s₁ : Store)
      → is_authorized row.status ≡ true
      → before at row.expires_at ≡ true
      → post_in_transaction scan now event_id t key hash s ≡ ok s₁
      → (update_wallet_hold_status u captured s₁).1 ≡ 1
      → Captured scan now at event_id u t key hash s row (update_wallet_hold_status u captured s₁).0

not-false : (b : Bool) → not b ≡ false → b ≡ true
not-false true h = refl
not-false false h = cc

module _ (scan : Text → Option Uuid) (now at : Time) (event_id : ℕ → Uuid) (earlier : Store)
    (id : HoldId) (t : Transaction) (key hash : Text) (s s' : Store) where
  pub capture-Captured :
      capture scan now at event_id earlier id t key hash s ≡ ok s'
      → (u : Uuid) × (w : WalletRow) × (row : HoldRow) × (to_uuid scan id ≡ ok u)
        × (get_wallet_hold_by_id u s ≡ some row)
        × (get_wallet_by_id row.wallet_id s ≡ some w)
        × (w.id ≡ row.wallet_id)
        × Captured scan now at event_id u t key hash s row s'
  unfolding capture get_wallet_by_id
  capture-Captured h =
      let (u, named, h₁) = >>=-eq-ok (to_uuid scan id) _ h in
      let (seen, _, h₂) =
        >>=-eq-ok (or_fail (get_wallet_hold_by_id u earlier) hold_not_found) _ h₁ in
      let (w, locked, h₃) =
        >>=-eq-ok (or_fail (get_wallet_by_id seen.wallet_id s) wallet_not_found) _ h₂ in
      let (row, held, h₄) = >>=-eq-ok (or_fail (get_wallet_hold_by_id u s) hold_not_found) _ h₃ in
      let (_, same, h₅) = >>=-eq-ok (fail_if (not (row.wallet_id =text w.id)) message) _ h₄ in
      let row_is = or_fail-eq-ok (get_wallet_hold_by_id u s) hold_not_found row held in
      let w_is = or_fail-eq-ok (get_wallet_by_id seen.wallet_id s) wallet_not_found w locked in
      let owner = =text_eq row.wallet_id w.id (not-false _ (fail_if-eq-ok _ message same)) in
      let wallet = =text_eq w.id seen.wallet_id (find-passes _ s.wallets w w_is) in
      let found = subst (λ v. get_wallet_by_id v s ≡ some w) (sym (owner ∙ wallet)) w_is in
      (
        u,
        w,
        row,
        named,
        row_is,
        found,
        sym owner,
        elim (Bool-cases (is_captured row.status)) [
          | inl settled ↦
              let (again, looked, h₆) =
                >>=-eq-ok (check_idempotency t key hash s) _ (rw settled at h₅) in
              let (_, is_again, h₇) = >>=-eq-ok (fail_if (not again) hold_not_authorized) _ h₆ in
              let yes' = not-false again (fail_if-eq-ok _ hold_not_authorized is_again) in
              subst (Captured scan now at event_id u t key hash s row) (ok-injective h₇)
                (replayed settled (subst (λ b. check_idempotency t key hash s ≡ ok b) yes' looked))
          | inr open' ↦
              let (_, active, h₆) =
                >>=-eq-ok (fail_if (not (is_authorized row.status)) hold_not_authorized) _
                  (rw open' at h₅) in
              let (_, timely, h₇) =
                >>=-eq-ok (fail_if (not (before at row.expires_at)) hold_expired) _ h₆ in
              let (s₁, wrote, h₈) =
                >>=-eq-ok (post_in_transaction scan now event_id t key hash s) _ h₇ in
              subst (Captured scan now at event_id u t key hash s row)
                (one_row-eq (update_wallet_hold_status u captured s₁) s' h₈)
                (written s₁ (not-false _ (fail_if-eq-ok _ hold_not_authorized active))
                  (not-false _ (fail_if-eq-ok _ hold_expired timely)) wrote
                  (one_row-count (update_wallet_hold_status u captured s₁) s' h₈))
        ],
      )

-- The hold is captured and its key is bound.
pub record Settled (u : Uuid) (row : HoldRow) (w : WalletRow) (key hash id : Text) (s : Store)
    : Type 0 where
  pub held : HoldRow
  pub found : get_wallet_hold_by_id u s ≡ some held
  pub settled : is_captured held.status ≡ true
  pub same_wallet : held.wallet_id ≡ row.wallet_id
  pub wallet : get_wallet_by_id row.wallet_id s ≡ some w
  pub bound : Bound key hash id s

pub Captured-Settled :
    (scan : Text → Option Uuid) (now at : Time) (event_id : ℕ → Uuid) (u : Uuid) (t : Transaction)
    (key hash : Text) (s s' : Store) (row : HoldRow) (w : WalletRow)
    → scan t.id ≡ some t.id
    → get_wallet_hold_by_id u s ≡ some row
    → get_wallet_by_id row.wallet_id s ≡ some w
    → Captured scan now at event_id u t key hash s row s'
    → Settled u row w key hash t.id s'
unfolding get_wallet_hold_by_id get_wallet_by_id update_wallet_hold_status get_idempotency_key
Captured-Settled scan now at event_id u t key hash s _ row w canonical held wallet
      (replayed settled looked) =
    record {
      held = row;
      found = held;
      settled = settled;
      same_wallet = refl;
      wallet = wallet;
      bound = check_idempotency-Bound t key hash s looked;
    }
Captured-Settled scan now at event_id u t key hash s s' row w canonical held wallet
      (written s₁ active timely wrote one) =
    let same = post_in_transaction-SameWallets scan now event_id t key hash s s₁ wrote in
    let held₁ = subst (λ hs. find (λ r. r.id =text u) hs ≡ some row) (sym same.holds) held in
    let wallet₁ =
      subst (λ ws. find (λ r. r.id =text row.wallet_id) ws ≡ some w) (sym same.wallets) wallet in
    record {
      held = record row { status = captured };
      found = find-set_authorized u captured s₁.wallet_holds row held₁ active;
      settled = refl;
      same_wallet = refl;
      wallet = wallet₁;
      bound = post_in_transaction-Bound scan now event_id t key hash s s₁ canonical wrote;
    }
