-- ===== src/Postgres/Futures/Settled.antt =====
-- Calls on a hold that is settled, whatever has happened to the database since.
use distributed_wallet_ledge.Prelude.{
  ℕ, zero, suc, ◌≡◌, refl, sym, subst, ◌∙◌, false, Option, some, Text, arith,
}
use distributed_wallet_ledge.Errors.{Result, ok, err, >>=-eq-ok, ok-injective, hold_not_authorized}
use distributed_wallet_ledge.Domain.Ids.{HoldId}
use distributed_wallet_ledge.Domain.Transaction.{Transaction}
use distributed_wallet_ledge.Domain.Hold.{
  HoldStatus, Time, captured, is_authorized, validate_status,
}
use distributed_wallet_ledge.Postgres.Tables.{Uuid, HoldRow, Store}
use distributed_wallet_ledge.Postgres.Queries.{
  find, exists, update_wallet_hold_status, get_wallet_hold_by_id,
}
use distributed_wallet_ledge.Postgres.Transactions.{to_uuid, check_idempotency}
use distributed_wallet_ledge.Postgres.Holds.{some_row, capture, update_status}
use distributed_wallet_ledge.Postgres.Holds.Captures.{Captured, replayed, written, capture-Captured}
use distributed_wallet_ledge.Postgres.Holds.Settlement.{some_row-eq, some_row-zero}
use distributed_wallet_ledge.Postgres.Reachable.{Reaches}
use distributed_wallet_ledge.Postgres.Futures.{Keeps}
use distributed_wallet_ledge.Postgres.Futures.Holds.{
  named, is_open, set_authorized-closes, set_authorized-none, set_authorized-found,
}
use distributed_wallet_ledge.Postgres.Futures.Steps.{Reaches-Keeps}

-- The call has taken the hold out of the status "authorized": an update to another status, which is
-- how releases and expiries end, or a capture under a new key.
pub data Settles (scan : Text → Option Uuid) (id : HoldId) (s s' : Store) : Type 0 where
  by_update :
      (status : HoldStatus)
      → is_authorized status ≡ false
      → update_status scan id status s ≡ ok s'
      → Settles scan id s s'
  by_capture :
      (now at : Time) (event_id : ℕ → Uuid) (earlier : Store) (t : Transaction) (key hash : Text)
      → check_idempotency t key hash s ≡ ok false
      → capture scan now at event_id earlier id t key hash s ≡ ok s'
      → Settles scan id s s'

-- The store after a call that is rolled back on an error.
abbrev pub left_by : Store → Result Store → Store
left_by s (ok s') = s'
left_by s (err e) = s

-- No row of the hold is open, and the one that is read is settled.
record Closed (scan : Text → Option Uuid) (id : HoldId) (s : Store) : Type 0 where
  u : Uuid
  is_u : to_uuid scan id ≡ ok u
  row : HoldRow
  found : find (named u) s.wallet_holds ≡ some row
  settled : is_authorized row.status ≡ false
  none_left : exists (is_open u) s.wallet_holds ≡ false

some_row-found : (p : Store × ℕ) (s : Store) → some_row p ≡ ok s → (n : ℕ) × (p.1 ≡ suc n)
some_row-found (r, zero) s h = cc
some_row-found (r, suc n) s h = (n, refl)

set_authorized-Closed :
    (scan : Text → Option Uuid) (id : HoldId) (u : Uuid) (status : HoldStatus) (s : Store) (n : ℕ)
    → to_uuid scan id ≡ ok u
    → is_authorized status ≡ false
    → (update_wallet_hold_status u status s).1 ≡ suc n
    → Closed scan id (update_wallet_hold_status u status s).0
unfolding update_wallet_hold_status
set_authorized-Closed scan id u status s n is_u leaves count =
    let (row, found, settled) = set_authorized-found u status s.wallet_holds n leaves count in
    record {
      u = u;
      is_u = is_u;
      row = row;
      found = found;
      settled = settled;
      none_left = set_authorized-closes u status s.wallet_holds leaves;
    }

update-Closed :
    (scan : Text → Option Uuid) (id : HoldId) (status : HoldStatus) (s s' : Store)
    → is_authorized status ≡ false
    → update_status scan id status s ≡ ok s'
    → Closed scan id s'
unfolding update_status
update-Closed scan id status s s' leaves h =
    let (_, _, h₁) = >>=-eq-ok (validate_status status) _ h in
    let (u, is_u, h₂) = >>=-eq-ok (to_uuid scan id) _ h₁ in
    let (n, count) = some_row-found (update_wallet_hold_status u status s) s' h₂ in
    subst (Closed scan id) (some_row-eq (update_wallet_hold_status u status s) s' h₂)
      (set_authorized-Closed scan id u status s n is_u leaves count)

Captured-Closed :
    (scan : Text → Option Uuid) (now at : Time) (event_id : ℕ → Uuid) (id : HoldId) (u : Uuid)
    (t : Transaction) (key hash : Text) (s s' : Store) (row : HoldRow)
    → to_uuid scan id ≡ ok u
    → check_idempotency t key hash s ≡ ok false
    → Captured scan now at event_id u t key hash s row s'
    → Closed scan id s'
Captured-Closed scan now at event_id id u t key hash s _ row is_u fresh (replayed settled looked) =
    absurd (ground (arith, fresh, looked))
Captured-Closed scan now at event_id id u t key hash s _ row is_u fresh
      (written s₁ active timely wrote one) =
    set_authorized-Closed scan id u captured s₁ 0 is_u refl one

Settles-Closed :
    (scan : Text → Option Uuid) (id : HoldId) (s s' : Store)
    → Settles scan id s s'
    → Closed scan id s'
Settles-Closed scan id s s' (by_update status leaves h) = update-Closed scan id status s s' leaves h
Settles-Closed scan id s s' (by_capture now at event_id earlier t key hash fresh h) =
    let (u, w, row, is_u, _, _, _, took) =
      capture-Captured scan now at event_id earlier id t key hash s s' h in
    Captured-Closed scan now at event_id id u t key hash s s' row is_u fresh took

Keeps-Closed :
    (scan : Text → Option Uuid) (id : HoldId) (s s' : Store)
    → Keeps s s'
    → Closed scan id s
    → Closed scan id s'
Keeps-Closed scan id s s' k c = record {
  u = c.u;
  is_u = c.is_u;
  row = c.row;
  found = k.holds c.u c.row c.found c.settled;
  settled = c.settled;
  none_left = k.settled c.u c.row c.found c.settled c.none_left;
}

Closed-update :
    (scan : Text → Option Uuid) (id : HoldId) (later : HoldStatus) (s : Store)
    → Closed scan id s
    → validate_status later ≡ ok tt
    → update_status scan id later s ≡ err hold_not_authorized
unfolding update_status update_wallet_hold_status
Closed-update scan id later s c valid =
    rw (valid, c.is_u) (some_row-zero _ (set_authorized-none c.u later s.wallet_holds c.none_left))

Captured-same :
    (scan : Text → Option Uuid) (now at : Time) (event_id : ℕ → Uuid) (u : Uuid) (t : Transaction)
    (key hash : Text) (s s' : Store) (row : HoldRow)
    → is_authorized row.status ≡ false
    → Captured scan now at event_id u t key hash s row s'
    → s' ≡ s
Captured-same scan now at event_id u t key hash s _ row settled (replayed is looked) = refl
Captured-same scan now at event_id u t key hash s _ row settled
      (written s₁ active timely wrote one) =
    absurd (ground (arith, settled, active))

left_by-same :
    (s : Store) (r : Result Store) → ((s' : Store) → r ≡ ok s' → s' ≡ s) → left_by s r ≡ s
left_by-same s (ok s') same = same s' refl
left_by-same s (err e) same = refl

Closed-capture :
    (scan : Text → Option Uuid) (now at : Time) (event_id : ℕ → Uuid) (earlier : Store)
    (id : HoldId) (t : Transaction) (key hash : Text) (s : Store)
    → Closed scan id s
    → left_by s (capture scan now at event_id earlier id t key hash s) ≡ s
unfolding get_wallet_hold_by_id
Closed-capture scan now at event_id earlier id t key hash s c =
    left_by-same s (capture scan now at event_id earlier id t key hash s) (λ s' h.
      let (u, w, row, is_u, found, _, _, took) =
        capture-Captured scan now at event_id earlier id t key hash s s' h in
      let same : c.u ≡ u = ok-injective (sym c.is_u ∙ is_u) in
      let held = subst (λ v. find (named v) s.wallet_holds ≡ some c.row) same c.found in
      let row_is : some c.row ≡ some row = sym held ∙ found in
      let settled : is_authorized row.status ≡ false = ground (arith, row_is, c.settled) in
      Captured-same scan now at event_id u t key hash s s' row settled took)

-- When an update has taken a hold out of the status "authorized", which is how releases and
-- expiries end, or a capture under a key that was new has succeeded, then, whatever postings,
-- authorizations, captures, releases, expiries and passing of time have followed, with valid
-- entries and canonical account identifiers in what they post, every update of that hold to a
-- valid status is refused with `ErrHoldNotAuthorized`, and every capture of it leaves the store as
-- it is.
pub settled_once :
    (scan : Text → Option Uuid) (id : HoldId) (s s' s'' : Store) (a b now at : Time)
    (later : HoldStatus) (event_id : ℕ → Uuid) (earlier : Store) (t : Transaction) (key hash : Text)
    → Settles scan id s s'
    → Reaches scan (a, s') (b, s'')
    → validate_status later ≡ ok tt
    → (update_status scan id later s'' ≡ err hold_not_authorized)
      × (left_by s'' (capture scan now at event_id earlier id t key hash s'') ≡ s'')
settled_once scan id s s' s'' a b now at later event_id earlier t key hash by rest valid =
    let c =
      Keeps-Closed scan id s' s'' (Reaches-Keeps scan (a, s') (b, s'') rest)
        (Settles-Closed scan id s s' by) in
    (
      Closed-update scan id later s'' c valid,
      Closed-capture scan now at event_id earlier id t key hash s'' c,
    )
