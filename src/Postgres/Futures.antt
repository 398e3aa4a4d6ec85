-- ===== src/Postgres/Futures.antt =====
-- What no later operation on the database undoes: keys that are bound, and holds that are settled.
pub mod Holds
pub mod Writes
pub mod Steps
pub mod Replies
pub mod Settled
use distributed_wallet_ledge.Prelude.{◌≡◌, ◌∙◌, false, ◌&&◌, ◌=text◌, Text, some}
use distributed_wallet_ledge.Domain.Hold.{is_authorized}
use distributed_wallet_ledge.Postgres.Tables.{Uuid, KeyRow, HoldRow, Store}
use distributed_wallet_ledge.Postgres.Queries.{find, exists, get_idempotency_key}

-- The wallets are the same, every key is still bound to its row, every settled hold is still read as
-- it was, and no row of it has become authorized.
pub record Keeps (s s' : Store) : Type 0 where
  pub wallets : s'.wallets ≡ s.wallets
  pub keys :
      (key : Text) (row : KeyRow)
      → get_idempotency_key key s ≡ some row
      → get_idempotency_key key s' ≡ some row
  pub holds :
      (u : Uuid) (row : HoldRow)
      → find (λ h. h.id =text u) s.wallet_holds ≡ some row
      → is_authorized row.status ≡ false
      → find (λ h. h.id =text u) s'.wallet_holds ≡ some row
  pub settled :
      (u : Uuid) (row : HoldRow)
      → find (λ h. h.id =text u) s.wallet_holds ≡ some row
      → is_authorized row.status ≡ false
      → exists (λ h. h.id =text u && is_authorized h.status) s.wallet_holds ≡ false
      → exists (λ h. h.id =text u && is_authorized h.status) s'.wallet_holds ≡ false

pub Keeps-trans : (s t u : Store) → Keeps s t → Keeps t u → Keeps s u
Keeps-trans s t u f g = record {
  wallets = g.wallets ∙ f.wallets;
  keys = λ key row found. g.keys key row (f.keys key row found);
  holds = λ v row found done. g.holds v row (f.holds v row found done) done;
  settled = λ v row found done none_left.
      g.settled v row (f.holds v row found done) done (f.settled v row found done none_left);
}
