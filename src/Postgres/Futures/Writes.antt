-- ===== src/Postgres/Futures/Writes.antt =====
-- What the writes of a posting, an authorization and an update keep.
use distributed_wallet_ledge.Prelude.{
  ℕ, zero, suc, ◌≡◌, refl, sym, subst, ◌∙◌, Bool, false, not, ◌=text◌, ◌&&◌, ◌||◌, List, ℤ, pos,
  negsuc, ltb_ℤ, ◌-64◌, ◌∷◌, Option, none, some, Text, arith,
}
use distributed_wallet_ledge.Errors.{
  Result, ok, err, fail_if, >>=-eq-ok, or_fail, ok-injective, wrap_error, wrap_error-eq-ok,
  fail_if-eq-ok, unique_violation, hold_idempotency_conflict, insufficient_funds, wallet_not_found,
}
use distributed_wallet_ledge.Domain.Transaction.{Transaction}
use distributed_wallet_ledge.Domain.Hold.{Hold, HoldStatus, Time, is_authorized}
use distributed_wallet_ledge.Postgres.Tables.{Uuid, KeyRow, HoldRow, WalletRow, Store}
use distributed_wallet_ledge.Postgres.Queries.{
  find, exists, get_idempotency_key, create_idempotency_key, create_wallet_hold,
  update_wallet_hold_status, get_wallet_by_id, get_wallet_hold_by_idempotency_key,
  get_ledger_balance,
}
use distributed_wallet_ledge.Postgres.Transactions.{to_uuid, write_transaction}
use distributed_wallet_ledge.Postgres.Refinement.{
  write_transaction-keys, get-create_idempotency_key,
}
use distributed_wallet_ledge.Postgres.Solvency.Frames.{
  SameWallets, SameWallets-trans, write_transaction-SameWallets, create_idempotency_key-SameFunds,
}
use distributed_wallet_ledge.Postgres.Holds.{
  existing_or_new, mapped, authorize_in_transaction, authorize,
}
use distributed_wallet_ledge.Postgres.Futures.{Keeps}
use distributed_wallet_ledge.Postgres.Futures.Holds.{
  named, is_open, find-set_authorized-settled, set_authorized-is_open, new_name-other,
}

pub Keeps-refl : (s : Store) → Keeps s s
Keeps-refl s = record {
  wallets = refl;
  keys = λ key row found. found;
  holds = λ u row found settled. found;
  settled = λ u row found settled none_left. none_left;
}

-- What leaves the wallets and the holds alone, and no key forgotten.
SameWallets-Keeps :
    (s s' : Store)
    → SameWallets s s'
    → ((key : Text) (row : KeyRow)
        → get_idempotency_key key s ≡ some row
        → get_idempotency_key key s' ≡ some row)
    → Keeps s s'
SameWallets-Keeps s s' same kept = record {
  wallets = same.wallets;
  keys = kept;
  holds = λ u row found settled. subst (λ hs. find (named u) hs ≡ some row) (sym same.holds) found;
  settled = λ u row found settled none_left.
      subst (λ hs. exists (is_open u) hs ≡ false) (sym same.holds) none_left;
}

-- An insertion forgets no key.
kept_key :
    (key : Text) (row new : KeyRow) (s s' : Store)
    → get_idempotency_key key s ≡ some row
    → create_idempotency_key new s ≡ ok s'
    → get_idempotency_key key s' ≡ some row
unfolding create_idempotency_key get_idempotency_key
kept_key key row new s s' found made =
    let (_, absent, _) = >>=-eq-ok (fail_if _ unique_violation) _ made in
    let other =
      new_name-other (λ r. r.idempotency_key) (λ r. r.transaction_id =text new.transaction_id)
        s.idempotency_keys row new.idempotency_key key found
        (fail_if-eq-ok _ unique_violation absent) in
    get-create_idempotency_key new key s s' made ∙ rw other found

-- A transaction and its key.
pub written-Keeps :
    (scan : Text → Option Uuid) (now : Time) (event_id : ℕ → Uuid) (t : Transaction)
    (locked : List (Text × WalletRow)) (new : KeyRow) (s s₁ s' : Store)
    → write_transaction scan now event_id t locked s ≡ ok s₁
    → create_idempotency_key new s₁ ≡ ok s'
    → Keeps s s'
unfolding get_idempotency_key
written-Keeps scan now event_id t locked new s s₁ s' wrote made =
    SameWallets-Keeps s s'
      (SameWallets-trans (write_transaction-SameWallets scan now event_id t locked s s₁ wrote)
        (create_idempotency_key-SameFunds new s₁ s' made).same_wallets)
      (λ key row found.
        let found₁ =
          subst (λ ks. find (λ r. r.idempotency_key =text key) ks ≡ some row)
            (sym (write_transaction-keys scan now event_id t locked s s₁ wrote)) found in
        kept_key key row new s₁ s' found₁ made)

new_hold-Keeps :
    (s : Store) (new : HoldRow)
    → ((u : Uuid) (row : HoldRow)
        → find (named u) s.wallet_holds ≡ some row
        → (new.id =text u) ≡ false)
    → Keeps s (record s { wallet_holds = new ∷ s.wallet_holds })
unfolding get_idempotency_key
new_hold-Keeps s new other = record {
  wallets = refl;
  keys = λ key row found. found;
  holds = λ u row found settled. ground (arith, other u row found, found);
  settled = λ u row found settled none_left. ground (arith, other u row found, none_left);
}

-- What an insertion of a hold has checked and done.
record New (id : Uuid) (s s' : Store) (row : HoldRow) : Type 0 where
  names : row.id ≡ id
  others : HoldRow → Bool
  fresh : exists (λ r. r.id =text id || others r) s.wallet_holds ≡ false
  grown : record s { wallet_holds = row ∷ s.wallet_holds } ≡ s'

create_wallet_hold-New :
    (now : Time) (id w : Uuid) (amount : ℤ) (currency key hash : Text) (expires : Time)
    (s s' : Store) (row : HoldRow)
    → create_wallet_hold now id w amount currency key hash expires s ≡ ok (s', row)
    → New id s s' row
unfolding create_wallet_hold
create_wallet_hold-New now id w (pos zero) currency key hash expires s s' row h = cc
create_wallet_hold-New now id w (negsuc n) currency key hash expires s s' row h = cc
create_wallet_hold-New now id w (pos (suc n)) currency key hash expires s s' row h = record {
  names = ground arith;
  others = λ r. r.wallet_id =text w && r.idempotency_key =text key;
  fresh = ground arith;
  grown = ground arith;
}

create_wallet_hold-Keeps :
    (now : Time) (id w : Uuid) (amount : ℤ) (currency key hash : Text) (expires : Time) (s : Store)
    (p : Store × HoldRow)
    → create_wallet_hold now id w amount currency key hash expires s ≡ ok p
    → Keeps s p.0
create_wallet_hold-Keeps now id w amount currency key hash expires s (s', new) h =
    let made = create_wallet_hold-New now id w amount currency key hash expires s s' new h in
    subst (Keeps s) made.grown (
      new_hold-Keeps s new (λ u row found.
        subst (λ v. (v =text u) ≡ false) (sym made.names)
          (new_name-other (λ r. r.id) made.others s.wallet_holds row id u found made.fresh)))

existing_or_new-Keeps :
    (scan : Text → Option Uuid) (now : Time) (hold : Hold) (id : Uuid) (w : WalletRow)
    (key hash : Text) (o : Option HoldRow) (s : Store) (p : Store × HoldRow)
    → existing_or_new scan now hold id w key hash o s ≡ ok p
    → Keeps s p.0
unfolding existing_or_new
existing_or_new-Keeps scan now hold id w key hash (some row) s p h =
    let (_, _, h₁) =
      >>=-eq-ok (fail_if (not (row.request_hash =text hash)) hold_idempotency_conflict) _ h in
    subst (λ (q : Store × HoldRow). Keeps s q.0) (ok-injective h₁) (Keeps-refl s)
existing_or_new-Keeps scan now hold id w key hash none s p h =
    let (b, _, h₁) = >>=-eq-ok (wrap_error (get_ledger_balance now w.ledger_account_id s)) _ h in
    let (_, _, h₂) =
      >>=-eq-ok
        (fail_if
          (ltb_ℤ (b.total_credits -64 b.total_debits -64 b.active_holds)
            hold.amount.amount_minor_units)
          insufficient_funds)
        _ h₁ in
    create_wallet_hold-Keeps now id w.id hold.amount.amount_minor_units hold.amount.currency.code
      key hash hold.expires_at s p (wrap_error-eq-ok _ p h₂)

mapped-Keeps :
    (s : Store) (r : Result (Store × HoldRow))
    → ((p : Store × HoldRow) → r ≡ ok p → Keeps s p.0)
    → Keeps s (mapped s r).0
mapped-Keeps s (ok p) new = new p refl
mapped-Keeps s (err e) new = Keeps-refl s

pub authorize-Keeps :
    (scan : Text → Option Uuid) (now : Time) (hold : Hold) (key hash : Text) (s : Store)
    → Keeps s (authorize scan now hold key hash s).0
unfolding authorize authorize_in_transaction
authorize-Keeps scan now hold key hash s =
    mapped-Keeps s (authorize_in_transaction scan now hold key hash s) (λ p h.
      let (id, _, h₁) = >>=-eq-ok (to_uuid scan hold.id) _ h in
      let (u, _, h₂) = >>=-eq-ok (to_uuid scan hold.wallet_id) _ h₁ in
      let (w, _, h₃) = >>=-eq-ok (or_fail (get_wallet_by_id u s) wallet_not_found) _ h₂ in
      existing_or_new-Keeps scan now hold id w key hash (get_wallet_hold_by_idempotency_key u key s)
        s p h₃)

pub update-Keeps :
    (u : Uuid) (status : HoldStatus) (s : Store)
    → is_authorized status ≡ false
    → Keeps s (update_wallet_hold_status u status s).0
unfolding update_wallet_hold_status get_idempotency_key
update-Keeps u status s leaves = record {
  wallets = refl;
  keys = λ key row found. found;
  holds = λ v row found settled.
      find-set_authorized-settled v u status s.wallet_holds row found settled;
  settled = λ v row found settled none_left.
      set_authorized-is_open v u status s.wallet_holds leaves none_left;
}
