-- ===== src/Postgres/Futures/Replies.antt =====
-- The answers to requests that come again, whatever has happened to the database since.
use distributed_wallet_ledge.Prelude.{
  ℕ, ◌≡◌, refl, sym, subst, ◌∙◌, true, false, ◌&&◌, ◌=text◌, =text_refl, Option, some, Text, arith,
}
use distributed_wallet_ledge.Errors.{ok}
use distributed_wallet_ledge.Domain.Ids.{HoldId}
use distributed_wallet_ledge.Domain.Transaction.{Transaction}
use distributed_wallet_ledge.Domain.Hold.{
  HoldStatus, Time, captured, authorized, released, expired, other, is_authorized, is_captured,
}
use distributed_wallet_ledge.Postgres.Tables.{Uuid, HoldRow, WalletRow, Store}
use distributed_wallet_ledge.Postgres.Queries.{find, get_wallet_by_id, get_wallet_hold_by_id}
use distributed_wallet_ledge.Postgres.Transactions.{post, Lookups}
use distributed_wallet_ledge.Postgres.Replays.{SeesKeyOf, Bound, Bound-answer, post-Bound, replies}
use distributed_wallet_ledge.Postgres.Holds.{capture}
use distributed_wallet_ledge.Postgres.Holds.Captures.{capture-Captured, Settled, Captured-Settled}
use distributed_wallet_ledge.Postgres.Reachable.{Reaches}
use distributed_wallet_ledge.Postgres.Futures.{Keeps}
use distributed_wallet_ledge.Postgres.Futures.Steps.{Reaches-Keeps}

Keeps-Bound :
    (key hash id : Text) (s s' : Store) → Keeps s s' → Bound key hash id s → Bound key hash id s'
Keeps-Bound key hash id s s' k (row, found, same, owner) = (row, k.keys key row found, same, owner)

-- When a `Post` has succeeded, then, whatever postings, authorizations, captures, releases,
-- expiries and passing of time have followed, with valid entries and canonical account identifiers
-- in what they post, a `Post` under the same key leaves the store as it is: it succeeds if its
-- hash and its transaction are those of the first, and is refused with a conflict if not. The
-- later call looks the key up first in some store that was reached after the first call. The
-- identifier of the first transaction is canonical, and the lookups of the first call outside its
-- database transaction saw no row of the key that the store lacked.
pub post-once :
    (scan : Text → Option Uuid) (now now' a b c : Time) (event_id event_id' : ℕ → Uuid)
    (t t' : Transaction) (seen : Lookups) (key hash hash' : Text)
    (s s' looked_up after_rollback s'' : Store)
    → scan t.id ≡ some t.id
    → SeesKeyOf key seen s
    → post scan now event_id seen t key hash s ≡ ok s'
    → Reaches scan (a, s') (b, looked_up)
    → Reaches scan (b, looked_up) (c, s'')
    → post scan now' event_id'
        (record { before = looked_up; after_rollback = after_rollback })
        t'
        key
        hash'
        s''
      ≡ replies (hash =text hash' && t.id =text t'.id) s''
unfolding post
post-once scan now now' a b c event_id event_id' t t' seen key hash hash' s s' looked_up
      after_rollback s'' canonical sees h first rest =
    let bound = post-Bound scan now event_id t seen key hash s s' canonical sees h in
    let kept =
      Keeps-Bound key hash t.id s' looked_up (Reaches-Keeps scan (a, s') (b, looked_up) first)
        bound in
    rw (Bound-answer t' key hash hash' t.id looked_up kept) (ground arith)

captured-settled : (status : HoldStatus) → is_captured status ≡ true → is_authorized status ≡ false
captured-settled authorized h = cc
captured-settled captured h = refl
captured-settled released h = refl
captured-settled expired h = refl
captured-settled (other t) h = cc

Keeps-Settled :
    (u : Uuid) (row : HoldRow) (w : WalletRow) (key hash id : Text) (s s' : Store)
    → Keeps s s'
    → Settled u row w key hash id s
    → (after : Settled u row w key hash id s') × (get_wallet_hold_by_id u s'
        ≡ get_wallet_hold_by_id u s)
unfolding get_wallet_hold_by_id get_wallet_by_id
Keeps-Settled u row w key hash id s s' k x =
    let found = k.holds u x.held x.found (captured-settled x.held.status x.settled) in
    (
      record {
        held = x.held;
        found = found;
        settled = x.settled;
        same_wallet = x.same_wallet;
        wallet =
            subst (λ ws. find (λ r. r.id =text row.wallet_id) ws ≡ some w) (sym k.wallets) x.wallet;
        bound = Keeps-Bound key hash id s s' k x.bound;
      },
      found ∙ sym x.found,
    )

-- When a `Capture` has succeeded, then, whatever postings, authorizations, captures, releases,
-- expiries and passing of time have followed, with valid entries and canonical account identifiers
-- in what they post, a `Capture` of the same hold under the same key leaves the store as it is: it
-- succeeds if its hash and its transaction are those of the first, and is refused with a conflict
-- if not. Its first read sees some store that was reached after the first call. The identifier of
-- the first transaction is canonical.
pub capture-once :
    (scan : Text → Option Uuid) (now at now' at' a b c : Time) (event_id event_id' : ℕ → Uuid)
    (earlier : Store) (id : HoldId) (t t' : Transaction) (key hash hash' : Text)
    (s s' looked_up s'' : Store)
    → scan t.id ≡ some t.id
    → capture scan now at event_id earlier id t key hash s ≡ ok s'
    → Reaches scan (a, s') (b, looked_up)
    → Reaches scan (b, looked_up) (c, s'')
    → capture scan now' at' event_id' looked_up id t' key hash' s''
      ≡ replies (hash =text hash' && t.id =text t'.id) s''
unfolding capture
capture-once scan now at now' at' a b c event_id event_id' earlier id t t' key hash hash' s s'
      looked_up s'' canonical h first rest =
    let (u, w, row, is_u, held, wallet, owner, took) =
      capture-Captured scan now at event_id earlier id t key hash s s' h in
    let x =
      Captured-Settled scan now at event_id u t key hash s s' row w canonical held wallet took in
    let (y, _) =
      Keeps-Settled u row w key hash t.id s' looked_up
        (Reaches-Keeps scan (a, s') (b, looked_up) first) x in
    let (z, same) =
      Keeps-Settled u row w key hash t.id looked_up s''
        (Reaches-Keeps scan (b, looked_up) (c, s'') rest) y in
    rw
      (
        is_u,
        same,
        y.found,
        y.same_wallet,
        z.wallet,
        owner,
        =text_refl row.wallet_id,
        y.settled,
        Bound-answer t' key hash hash' t.id s'' z.bound,
      )
      (ground arith)
