-- ===== src/Postgres/Reachable.antt =====
-- The whole database under any sequence of the operations that touch its funds.
use distributed_wallet_ledge.Prelude.{
  ℕ, ◌≤◌, ◌≡◌, sym, subst, false, List, [], ◌∷◌, Option, Text, arith,
}
use distributed_wallet_ledge.Errors.{ok}
use distributed_wallet_ledge.Domain.Ids.{HoldId}
use distributed_wallet_ledge.Domain.JournalEntry
use distributed_wallet_ledge.Domain.JournalEntry.Balance
use distributed_wallet_ledge.Domain.Transaction.{Transaction}
use distributed_wallet_ledge.Domain.Hold.{Hold, HoldStatus, Time, is_authorized}
use distributed_wallet_ledge.Postgres.Tables.{Uuid, Store, WalletRow, HoldRow}
use distributed_wallet_ledge.Postgres.Queries.{active_holds}
use distributed_wallet_ledge.Postgres.Transactions.{Lookups, post}
use distributed_wallet_ledge.Postgres.Holds.{authorize, update_status, capture}
use distributed_wallet_ledge.Postgres.Holds.Funds.{
  update_status-IsSound, update_status-wallets, capture-IsSound, capture-wallets,
}
use distributed_wallet_ledge.Postgres.Holds.Authorizations.{authorize-IsSound, authorize-wallets}
use distributed_wallet_ledge.Postgres.Holds.Owners.{HasWalletKeys}
use distributed_wallet_ledge.Postgres.Solvency.Deltas.{IsCanonical}
use distributed_wallet_ledge.Postgres.Solvency.Invariant.{
  IsSolvent-covers, covers-IsSolvent, IsSound,
}
use distributed_wallet_ledge.Postgres.Solvency.Posts.{post-IsSound, post-wallets}

-- What a database transaction or the clock may do. A posting comes with its entry validated.
pub data Step (scan : Text → Option Uuid) : Time × Store → Time × Store → Type 0 where
  ticks : (now later : Time) (s : Store) → now ≤ later → Step scan (now, s) (later, s)
  posts :
      (now : Time) (event_id : ℕ → Uuid) (seen : Lookups) (s s' : Store) (t : Transaction)
      (key hash : Text)
      → JournalEntry.validate t.journal_entry ≡ ok tt
      → IsCanonical scan t.journal_entry.postings
      → post scan now event_id seen t key hash s ≡ ok s'
      → Step scan (now, s) (now, s')
  authorizes :
      (now : Time) (hold : Hold) (key hash : Text) (s : Store)
      → Step scan (now, s) (now, (authorize scan now hold key hash s).0)
  settles :
      (now : Time) (id : HoldId) (status : HoldStatus) (s s' : Store)
      → is_authorized status ≡ false
      → update_status scan id status s ≡ ok s'
      → Step scan (now, s) (now, s')
  captures :
      (now at : Time) (event_id : ℕ → Uuid) (earlier s s' : Store) (id : HoldId) (t : Transaction)
      (key hash : Text)
      → JournalEntry.validate t.journal_entry ≡ ok tt
      → IsCanonical scan t.journal_entry.postings
      → capture scan now at event_id earlier id t key hash s ≡ ok s'
      → Step scan (now, s) (now, s')

pub data Reaches (scan : Text → Option Uuid) : Time × Store → Time × Store → Type 0 where
  done : (x : Time × Store) → Reaches scan x x
  then_step : (x y z : Time × Store) → Step scan x y → Reaches scan y z → Reaches scan x z

-- Time lets go of holds and takes none.
active_holds-later :
    (now later : Time) (a : Uuid) (ws : List WalletRow) (hs : List HoldRow)
    → now ≤ later
    → active_holds later a ws hs ≤ active_holds now a ws hs
unfolding active_holds
active_holds-later now later a ws [] h = omega arith
active_holds-later now later a ws (r ∷ hs) h = ground (arith, active_holds-later now later a ws hs)

abbrev pub Keyed : Time × Store → Type 0
Keyed (now, s) = HasWalletKeys s.wallets × IsSound now s

Step-Keyed : (scan : Text → Option Uuid) (x y : Time × Store) → Step scan x y → Keyed x → Keyed y
Step-Keyed scan _ _ (ticks now later s h) (keys, (solvent, even)) = (
  keys,
  (
    covers-IsSolvent later s (λ a wallet. omega (
      arith,
      IsSolvent-covers now s a solvent wallet,
      active_holds-later now later a s.wallets s.wallet_holds h,
    )),
    even,
  ),
)
Step-Keyed scan _ _ (posts now event_id seen s s' t key hash valid canonical h) (keys, sound) = (
  subst HasWalletKeys (sym (post-wallets scan now event_id t seen key hash s s' h)) keys,
  post-IsSound scan now event_id t ((Balance.validate_entry_iff t.journal_entry).0 valid) canonical
      seen key hash s s' h sound,
)
Step-Keyed scan _ _ (authorizes now hold key hash s) (keys, sound) = (
  subst HasWalletKeys (sym (authorize-wallets scan now hold key hash s)) keys,
  authorize-IsSound scan now hold key hash s keys sound,
)
Step-Keyed scan _ _ (settles now id status s s' settled h) (keys, sound) = (
  subst HasWalletKeys (sym (update_status-wallets scan id status s s' h)) keys,
  update_status-IsSound scan now id status s s' settled h sound,
)
Step-Keyed scan _ _ (captures now at event_id earlier s s' id t key hash valid canonical h)
      (keys, sound) =
    (
      subst HasWalletKeys (sym (capture-wallets scan now at event_id earlier id t key hash s s' h))
          keys,
      capture-IsSound scan now at event_id earlier id t key hash s s'
          ((Balance.validate_entry_iff t.journal_entry).0 valid) canonical h sound,
    )

-- However postings, authorizations, captures, releases, expiries and the passing of time follow one
-- another, from a store in which no wallet is overdrawn and debits equal credits over the ledger,
-- with the primary key of its wallets, they lead to such stores alone, as long as each posted entry
-- is valid and names its accounts by canonical identifiers.
pub Reaches-IsSound :
    (scan : Text → Option Uuid) (x y : Time × Store)
    → HasWalletKeys x.1.wallets
    → IsSound x.0 x.1
    → Reaches scan x y
    → IsSound y.0 y.1
Reaches-IsSound scan x _ keys sound (done _) = sound
Reaches-IsSound scan x z keys sound (then_step _ y _ step rest) =
    let (keys', sound') = Step-Keyed scan x y step (keys, sound) in
    Reaches-IsSound scan y z keys' sound' rest
