-- ===== src/Postgres/Holds/Funds.antt =====
-- Holds and solvency.
use distributed_wallet_ledge.Prelude.{
  ℕ, ◌≤◌, ◌≡◌, refl, sym, ap, subst, false, List, [], ◌∷◌, Option, Text, arith,
}
use distributed_wallet_ledge.Errors.{ok, >>=-eq-ok}
use distributed_wallet_ledge.Domain.Ids.{HoldId}
use distributed_wallet_ledge.Domain.Transaction.{Transaction}
use distributed_wallet_ledge.Domain.JournalEntry.Balance.{IsDoubleEntry}
use distributed_wallet_ledge.Domain.Hold.{
  HoldStatus, Time, captured, is_authorized, validate_status,
}
use distributed_wallet_ledge.Postgres.Tables.{Uuid, HoldRow, WalletRow, Store}
use distributed_wallet_ledge.Postgres.Queries.{
  set_authorized, update_wallet_hold_status, active_holds,
}
use distributed_wallet_ledge.Postgres.Transactions.{to_uuid}
use distributed_wallet_ledge.Postgres.Holds.{update_status, capture}
use distributed_wallet_ledge.Postgres.Holds.Settlement.{some_row-eq}
use distributed_wallet_ledge.Postgres.Holds.Captures.{capture-Captured, Captured, replayed, written}
use distributed_wallet_ledge.Postgres.Solvency.Deltas.{IsCanonical}
use distributed_wallet_ledge.Postgres.Solvency.Frames.{post_in_transaction-SameWallets}
use distributed_wallet_ledge.Postgres.Solvency.Invariant.{
  IsSolvent-covers, covers-IsSolvent, IsSound,
}
use distributed_wallet_ledge.Postgres.Solvency.Posts.{post_in_transaction-IsSound}

-- Holds that leave the status "authorized" hold less.
active_holds-set_authorized :
    (now : Time) (a u : Uuid) (status : HoldStatus) (ws : List WalletRow) (hs : List HoldRow)
    → is_authorized status ≡ false
    → active_holds now a ws (set_authorized u status hs).0 ≤ active_holds now a ws hs
unfolding set_authorized active_holds
active_holds-set_authorized now a u status ws [] settled = omega arith
active_holds-set_authorized now a u status ws (h ∷ hs) settled =
    ground (arith, active_holds-set_authorized now a u status ws hs settled)

update-IsSound :
    (now : Time) (u : Uuid) (status : HoldStatus) (s : Store)
    → is_authorized status ≡ false
    → IsSound now s
    → IsSound now (update_wallet_hold_status u status s).0
unfolding update_wallet_hold_status
update-IsSound now u status s settled (solvent, even) = (
  covers-IsSolvent now (update_wallet_hold_status u status s).0 (λ a wallet. omega (
    arith,
    IsSolvent-covers now s a solvent wallet,
    active_holds-set_authorized now a u status s.wallets s.wallet_holds settled,
  )),
  even,
)

-- A release, an expiry or any other update that takes a hold out of the status "authorized" keeps a
-- sound store sound.
pub update_status-IsSound :
    (scan : Text → Option Uuid) (now : Time) (id : HoldId) (status : HoldStatus) (s s' : Store)
    → is_authorized status ≡ false
    → update_status scan id status s ≡ ok s'
    → IsSound now s
    → IsSound now s'
unfolding update_status
update_status-IsSound scan now id status s s' settled h sound =
    let (_, _, h₁) = >>=-eq-ok (validate_status status) _ h in
    let (u, _, h₂) = >>=-eq-ok (to_uuid scan id) _ h₁ in
    subst (IsSound now) (some_row-eq (update_wallet_hold_status u status s) s' h₂)
      (update-IsSound now u status s settled sound)

Captured-IsSound :
    (scan : Text → Option Uuid) (now at : Time) (event_id : ℕ → Uuid) (u : Uuid) (t : Transaction)
    (key hash : Text) (s s' : Store) (row : HoldRow)
    → IsDoubleEntry t.journal_entry
    → IsCanonical scan t.journal_entry.postings
    → Captured scan now at event_id u t key hash s row s'
    → IsSound now s
    → IsSound now s'
Captured-IsSound scan now at event_id u t key hash s _ row double canonical (replayed _ _) sound =
    sound
Captured-IsSound scan now at event_id u t key hash s _ row double canonical
      (written s₁ active timely wrote one) sound =
    update-IsSound now u captured s₁ refl
      (post_in_transaction-IsSound scan now event_id t double canonical key hash s s₁ wrote sound)

-- A successful `Capture` of a transaction in double entry with canonical account identifiers keeps
-- a sound store sound.
pub capture-IsSound :
    (scan : Text → Option Uuid) (now at : Time) (event_id : ℕ → Uuid) (earlier : Store)
    (id : HoldId) (t : Transaction) (key hash : Text) (s s' : Store)
    → IsDoubleEntry t.journal_entry
    → IsCanonical scan t.journal_entry.postings
    → capture scan now at event_id earlier id t key hash s ≡ ok s'
    → IsSound now s
    → IsSound now s'
capture-IsSound scan now at event_id earlier id t key hash s s' double canonical h sound =
    let (u, w, row, _, _, _, _, done) =
      capture-Captured scan now at event_id earlier id t key hash s s' h in
    Captured-IsSound scan now at event_id u t key hash s s' row double canonical done sound

-- None of it touches a wallet.
pub update_status-wallets :
    (scan : Text → Option Uuid) (id : HoldId) (status : HoldStatus) (s s' : Store)
    → update_status scan id status s ≡ ok s'
    → s'.wallets ≡ s.wallets
unfolding update_status update_wallet_hold_status
update_status-wallets scan id status s s' h =
    let (_, _, h₁) = >>=-eq-ok (validate_status status) _ h in
    let (u, _, h₂) = >>=-eq-ok (to_uuid scan id) _ h₁ in
    ap (λ r. r.wallets) (sym (some_row-eq (update_wallet_hold_status u status s) s' h₂))

Captured-wallets :
    (scan : Text → Option Uuid) (now at : Time) (event_id : ℕ → Uuid) (u : Uuid) (t : Transaction)
    (key hash : Text) (s s' : Store) (row : HoldRow)
    → Captured scan now at event_id u t key hash s row s'
    → s'.wallets ≡ s.wallets
unfolding update_wallet_hold_status
Captured-wallets scan now at event_id u t key hash s _ row (replayed _ _) = refl
Captured-wallets scan now at event_id u t key hash s _ row (written s₁ active timely wrote one) =
    (post_in_transaction-SameWallets scan now event_id t key hash s s₁ wrote).wallets

pub capture-wallets :
    (scan : Text → Option Uuid) (now at : Time) (event_id : ℕ → Uuid) (earlier : Store)
    (id : HoldId) (t : Transaction) (key hash : Text) (s s' : Store)
    → capture scan now at event_id earlier id t key hash s ≡ ok s'
    → s'.wallets ≡ s.wallets
capture-wallets scan now at event_id earlier id t key hash s s' h =
    let (u, w, row, _, _, _, _, done) =
      capture-Captured scan now at event_id earlier id t key hash s s' h in
    Captured-wallets scan now at event_id u t key hash s s' row done
